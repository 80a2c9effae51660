-- ===== src/Core/Sync.antt =====
-- The requests of matching_core.h and the mirror of book_snapshot_service.h.
use trading_matching_engine.Base.{false, ◌<◌, ◌≡◌, some, Bool-cases, inl, inr}
use trading_matching_engine.Base.Int.{eqb_ℤ}
use trading_matching_engine.Types.{Nanos, OrderId, OrderType, limit, market, ioc, cancel, modify}
use trading_matching_engine.Messages.{EngineOrderRequest}
use trading_matching_engine.Book.{BookOrder, SymbolOrderBook, find_order}
use trading_matching_engine.Book.Valid.{IsValid}
use trading_matching_engine.Entry.Sync.{SyncedAt}
use trading_matching_engine.Entry.Placed.{
  add_limit_order-SyncedAt, add_market_order-SyncedAt, add_ioc_order-SyncedAt,
  cancel_order-SyncedAt,
}
use trading_matching_engine.Entry.Mirror.{modify_order-SyncedAt, reprice_leaves}
use trading_matching_engine.Entry.{is_bad_change}
use trading_matching_engine.Core.{dispatch, process_request, bad_qty, bad_price}

-- A modification of the order with an id that the book accepts, from the owner of the order and with
-- a valid price and quantity, leaves something of it in the book, if it changes the price.
abbrev pub Remains : OrderType → EngineOrderRequest → OrderId → SymbolOrderBook → Type 0
Remains modify req j b =
    req.order_id ≡ j
    → (o : BookOrder) → find_order req.order_id b ≡ some o
    → o.client_id ≡ req.client_id
    → is_bad_change req.price req.qty ≡ false
    → eqb_ℤ req.price o.price ≡ false
    → 0 < (reprice_leaves o req.client_id req.order_id req.price req.qty b).1
Remains _ req j b = Unit

dispatch-SyncedAt :
    (type : OrderType) (req : EngineOrderRequest) (now : Nanos) (j : OrderId) {b : SymbolOrderBook}
    → IsValid b
    → Remains type req j b
    → SyncedAt j b
    → SyncedAt j (dispatch type req now b)
unfolding dispatch
dispatch-SyncedAt limit req now j v r s =
    add_limit_order-SyncedAt req.client_id req.order_id j req.side req.price req.qty now v s
dispatch-SyncedAt market req now j v r s =
    add_market_order-SyncedAt req.client_id req.order_id j req.side req.qty v s
dispatch-SyncedAt ioc req now j v r s =
    add_ioc_order-SyncedAt req.client_id req.order_id j req.side req.price req.qty v s
dispatch-SyncedAt cancel req now j v r s = cancel_order-SyncedAt req.client_id req.order_id j v s
dispatch-SyncedAt modify req now j v r s =
    modify_order-SyncedAt req.client_id req.order_id j req.price req.qty now v r s
dispatch-SyncedAt _ req now j v r s = s

-- If the snapshot mirror shows of an id what a well-formed book holds under it, it still does so
-- after any request, unless the request is a modification that the book accepts, changes the price
-- of the order with that id, and the order is filled at once.
pub process_request-SyncedAt :
    (req : EngineOrderRequest) (now : Nanos) (j : OrderId) {b : SymbolOrderBook}
    → IsValid b
    → Remains req.order_type req j b
    → SyncedAt j b
    → SyncedAt j (process_request req now b)
unfolding process_request
process_request-SyncedAt req now j v r s = elim (Bool-cases (bad_qty req)) [
  | inl q ↦ rw q s
  | inr q ↦ elim (Bool-cases (bad_price req)) [
    | inl p ↦ rw (q, p) s
    | inr p ↦ rw (q, p) (dispatch-SyncedAt req.order_type req now j v r s)
  ]
]
