-- ===== src/Core/Uncrossed.antt =====
-- The requests of matching_core.h and the spread of the book.
use trading_matching_engine.Base.{List, [], ◌∷◌, Bool-cases, inl, inr}
use trading_matching_engine.Types.{Nanos, OrderType, limit, market, ioc, cancel, modify}
use trading_matching_engine.Messages.{EngineOrderRequest}
use trading_matching_engine.Book.{SymbolOrderBook}
use trading_matching_engine.Book.Valid.{IsValid}
use trading_matching_engine.Match.Uncrossed.{IsUncrossed}
use trading_matching_engine.Entry.Uncrossed.{
  add_limit_order-IsUncrossed, add_market_order-IsUncrossed, add_ioc_order-IsUncrossed,
  cancel_order-IsUncrossed, modify_order-IsUncrossed,
}
use trading_matching_engine.Core.{dispatch, process_request, bad_qty, bad_price}
use trading_matching_engine.Core.Valid.{process_all, process_request-IsValid}

dispatch-IsUncrossed :
    (type : OrderType) (req : EngineOrderRequest) (now : Nanos) (b : SymbolOrderBook)
    → IsValid b
    → IsUncrossed b
    → IsUncrossed (dispatch type req now b)
unfolding dispatch
dispatch-IsUncrossed limit req now b v u =
    add_limit_order-IsUncrossed req.client_id req.order_id req.side req.price req.qty now v u
dispatch-IsUncrossed market req now b v u =
    add_market_order-IsUncrossed req.client_id req.order_id req.side req.qty v u
dispatch-IsUncrossed ioc req now b v u =
    add_ioc_order-IsUncrossed req.client_id req.order_id req.side req.price req.qty v u
dispatch-IsUncrossed cancel req now b v u = cancel_order-IsUncrossed req.client_id req.order_id b u
dispatch-IsUncrossed modify req now b v u =
    modify_order-IsUncrossed req.client_id req.order_id req.price req.qty now v u
dispatch-IsUncrossed _ req now b v u = u

pub process_request-IsUncrossed :
    (req : EngineOrderRequest) (now : Nanos) (b : SymbolOrderBook)
    → IsValid b
    → IsUncrossed b
    → IsUncrossed (process_request req now b)
unfolding process_request
process_request-IsUncrossed req now b v u = elim (Bool-cases (bad_qty req)) [
  | inl q ↦ rw q u
  | inr q ↦ elim (Bool-cases (bad_price req)) [
    | inl p ↦ rw (q, p) u
    | inr p ↦ rw (q, p) (dispatch-IsUncrossed req.order_type req now b v u)
  ]
]

-- In whatever order requests of whatever kind come to a well-formed book that is not crossed, it
-- is not crossed afterwards: a bid at or above an ask belongs to the client of that ask.
pub process_all-IsUncrossed :
    (reqs : List (EngineOrderRequest × Nanos)) (b : SymbolOrderBook)
    → IsValid b
    → IsUncrossed b
    → IsUncrossed (process_all reqs b)
unfolding process_all
process_all-IsUncrossed [] b v u = u
process_all-IsUncrossed ((req, now) ∷ rest) b v u =
    process_all-IsUncrossed rest (process_request req now b) (process_request-IsValid req now v)
      (process_request-IsUncrossed req now b v u)
