-- ===== src/Entry/Decrease.antt =====
-- The branch of `modifyOrder` (order_book.cpp) for a smaller quantity at the same price.
use trading_matching_engine.Base.{
  ◌<◌, ◌≡◌, refl, ◌∙◌, List, true, false, not, ◌||◌, some, arith, ltb, ◌==◌,
}
use trading_matching_engine.Base.Int.{eqb_ℤ_refl}
use trading_matching_engine.Types.{OrderId, ClientId, Qty, Nanos}
use trading_matching_engine.Book.{BookOrder, SymbolOrderBook, find_order, resize_order}
use trading_matching_engine.Book.Nodes.{Stands, set_node-Stands}
use trading_matching_engine.Book.Valid.{resting, IsValid}
use trading_matching_engine.Book.Maintenance.{resting-resize_order}
use trading_matching_engine.Entry.{requantify, modify_order, is_bad_change}
use trading_matching_engine.Entry.Change.{subject}

resting-requantify :
    (client_id : ClientId) (order_id : OrderId) (o : BookOrder) (new_qty : Qty) (now : Nanos)
    (b : SymbolOrderBook)
    → new_qty < o.qty
    → resting (requantify o client_id order_id new_qty now b) ≡ resting (resize_order o new_qty b)
unfolding requantify
resting-requantify client_id order_id o new_qty now b less =
    let e : ltb new_qty o.qty ≡ true = ground arith in rw e refl

-- If its owner modifies an order of a well-formed book to a smaller valid quantity at its own
-- price, the order keeps its time priority: it has the new quantity and is the same otherwise, and
-- all orders keep their places in the queue.
pub modify_order-Stands :
    (client_id : ClientId) (order_id : OrderId) (new_qty : Qty) (now : Nanos) (o : BookOrder)
    (b : SymbolOrderBook)
    → IsValid b
    → find_order order_id b ≡ some o
    → o.client_id ≡ client_id
    → is_bad_change o.price new_qty ≡ false
    → new_qty < o.qty
    → (xs : List BookOrder) × (ys : List BookOrder) × Stands o xs ys (resting b)
      × Stands
          (record o { qty = new_qty; original_qty = new_qty })
          xs
          ys
          (resting (modify_order client_id order_id o.price new_qty now b))
unfolding modify_order
modify_order-Stands client_id order_id new_qty now o b v found own good less =
    let s = subject order_id v found in
    let (xs, ys, old, new) = set_node-Stands o.order_id new_qty (resting b) s.0 in
    let allowed : (not (o.client_id == client_id) || is_bad_change o.price new_qty) ≡ false =
      ground arith in
    (
      xs,
      ys,
      old,
      rw (found, modify_order, allowed, eqb_ℤ_refl o.price)
          (resting-requantify client_id order_id o new_qty now b less
            ∙ resting-resize_order o v s.0 new_qty
            ∙ new),
    )
