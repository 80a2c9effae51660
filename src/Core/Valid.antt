-- ===== src/Core/Valid.antt =====
-- The requests of matching_core.h and the well-formedness of the book.
use trading_matching_engine.Base.{List, [], ◌∷◌, Bool-cases, inl, inr}
use trading_matching_engine.Types.{Nanos, OrderType, limit, market, ioc, cancel, modify}
use trading_matching_engine.Messages.{EngineOrderRequest}
use trading_matching_engine.Book.{SymbolOrderBook}
use trading_matching_engine.Book.Valid.{IsValid}
use trading_matching_engine.Entry.Valid.{
  sent-IsValid, add_limit_order-IsValid, add_market_order-IsValid, add_ioc_order-IsValid,
}
use trading_matching_engine.Entry.Change.{cancel_order-IsValid, modify_order-IsValid}
use trading_matching_engine.Core.{dispatch, process_request, bad_qty, bad_price}

dispatch-IsValid :
    (type : OrderType) (req : EngineOrderRequest) (now : Nanos) {b : SymbolOrderBook}
    → IsValid b
    → IsValid (dispatch type req now b)
unfolding dispatch
dispatch-IsValid limit req now v =
    add_limit_order-IsValid req.client_id req.order_id req.side req.price req.qty now v
dispatch-IsValid market req now v =
    add_market_order-IsValid req.client_id req.order_id req.side req.qty v
dispatch-IsValid ioc req now v =
    add_ioc_order-IsValid req.client_id req.order_id req.side req.price req.qty v
dispatch-IsValid cancel req now v = cancel_order-IsValid req.client_id req.order_id v
dispatch-IsValid modify req now v =
    modify_order-IsValid req.client_id req.order_id req.price req.qty now v
dispatch-IsValid _ req now v = sent-IsValid _ _ v

-- Whatever request a well-formed book is given, it is well-formed afterwards: both sides in price
-- order with no empty level, every order under its own price and side with a positive quantity,
-- no id twice, and the index pointing to exactly the resting orders.
pub process_request-IsValid :
    (req : EngineOrderRequest) (now : Nanos) {b : SymbolOrderBook}
    → IsValid b
    → IsValid (process_request req now b)
unfolding process_request
process_request-IsValid req now v = elim (Bool-cases (bad_qty req)) [
  | inl q ↦ rw q (sent-IsValid _ _ v)
  | inr q ↦ elim (Bool-cases (bad_price req)) [
    | inl p ↦ rw (q, p) (sent-IsValid _ _ v)
    | inr p ↦ rw (q, p) (dispatch-IsValid req.order_type req now v)
  ]
]

-- Requests one after the other, each with the time of its handling.
unfoldable pub process_all : List (EngineOrderRequest × Nanos) → SymbolOrderBook → SymbolOrderBook
process_all [] b = b
process_all ((req, now) ∷ rest) b = process_all rest (process_request req now b)

pub process_all-IsValid :
    (reqs : List (EngineOrderRequest × Nanos)) {b : SymbolOrderBook}
    → IsValid b
    → IsValid (process_all reqs b)
unfolding process_all
process_all-IsValid [] v = v
process_all-IsValid ((req, now) ∷ rest) v =
    process_all-IsValid rest (process_request-IsValid req now v)
