-- ===== src/Entry/Increase.antt =====
-- The branch of `modifyOrder` (order_book.cpp) for a larger quantity at the same price.
use trading_matching_engine.Base.{
  ◌<◌, ◌≡◌, refl, sym, ap, ◌∙◌, true, false, not, ◌||◌, some, arith, ltb, ◌==◌, Bool-cases, inl,
  inr, subst,
}
use trading_matching_engine.Base.Int.{eqb_ℤ_refl}
use trading_matching_engine.Types.{
  OrderId, ClientId, OrderType, Side, Price, Qty, Nanos, is_buy, buy, sell,
}
use trading_matching_engine.Book.{
  BookOrder, SymbolOrderBook, levels, find_order, find_node, unlink, append_order, remove_order,
  rest_order,
}
use trading_matching_engine.Book.Levels.{flat, IsSide, flat-unlink_order}
use trading_matching_engine.Book.Valid.{resting, IsValid, located}
use trading_matching_engine.Book.Maintenance.{remove_order-open, remove_order-IsValid}
use trading_matching_engine.Book.Rest.{order, IsSide-transfer}
use trading_matching_engine.Book.Priority.{IsPlaced, append_order-priority}
use trading_matching_engine.Entry.{requantify, modify_order, is_bad_change}
use trading_matching_engine.Entry.Change.{Subject, subject}

levels-IsSide : (side : Side) {b : SymbolOrderBook} → IsValid b → IsSide side (levels side b)
levels-IsSide side {b} v = elim (Bool-cases (is_buy side)) [
  | inl s ↦ rw s (IsSide-transfer buy side b.bids (sym s) v.bids_side)
  | inr s ↦ rw s (IsSide-transfer sell side b.asks (sym s) v.asks_side)
]

levels-remove_order :
    {b : SymbolOrderBook} (o : BookOrder)
    → IsValid b
    → find_node o.order_id (resting b) ≡ some o
    → flat (levels o.side (remove_order o b)) ≡ unlink o.order_id (flat (levels o.side b))
levels-remove_order {b} o v h = rw (remove_order-open o v h) (elim (located o.order_id v h) [
  | inl (s, bid) ↦ rw s (flat-unlink_order buy o.order_id b.bids v.bids_side bid)
  | inr (s, _, ask) ↦ rw s (flat-unlink_order sell o.order_id b.asks v.asks_side ask)
])

levels-rest_order :
    (client_id : ClientId) (order_id : OrderId) (order_type : OrderType) (side : Side)
    (price : Price) (qty : Qty) (ts : Nanos) (b : SymbolOrderBook)
    → levels side (rest_order client_id order_id order_type side price qty qty ts b)
      ≡ append_order side
          (order client_id order_id order_type side price qty qty ts b)
          (levels side b)
unfolding rest_order
levels-rest_order client_id order_id order_type side price qty ts b =
    elim (Bool-cases (is_buy side)) [ inl s ↦ rw s refl | inr s ↦ rw s refl ]

-- The order with its new quantity and a new time stamp.
abbrev pub renewed : BookOrder → Qty → Nanos → SymbolOrderBook → BookOrder
renewed o new_qty now b = record o {
  symbol = b.symbol;
  qty = new_qty;
  original_qty = new_qty;
  priority_ts = now;
}

remove_order-symbol : (o : BookOrder) (b : SymbolOrderBook) → (remove_order o b).symbol ≡ b.symbol
unfolding remove_order
remove_order-symbol o b = ground arith

module _ (client_id : ClientId) (order_id : OrderId) (new_qty : Qty) (now : Nanos) (o : BookOrder)
    (b : SymbolOrderBook) where
  abbrev queued : BookOrder
  queued =
      order client_id order_id o.order_type o.side o.price new_qty new_qty now (remove_order o b)

  requantify-levels :
      o.qty < new_qty
      → levels o.side (requantify o client_id order_id new_qty now b)
        ≡ append_order o.side queued (levels o.side (remove_order o b))
  unfolding requantify
  requantify-levels more =
      let e : ltb new_qty o.qty ≡ false = ground arith in
      let e' : ltb o.qty new_qty ≡ true = ground arith in
      rw (e, e')
        (levels-rest_order client_id order_id o.order_type o.side o.price new_qty now
          (remove_order o b))

  requantify-IsPlaced :
      IsValid b
      → Subject order_id o b
      → o.qty < new_qty
      → IsPlaced o.side queued
          (unlink order_id (flat (levels o.side b)))
          (flat (levels o.side (requantify o client_id order_id new_qty now b)))
  requantify-IsPlaced v (h, e) more =
      let (xs, ys, old, new, better, worse) =
        append_order-priority o.side queued (levels o.side (remove_order o b))
          (levels-IsSide o.side (remove_order-IsValid o v h)) in
      let gone : flat (levels o.side (remove_order o b))
          ≡ unlink order_id (flat (levels o.side b)) =
        levels-remove_order o v h ∙ ap (λ i. unlink i (flat (levels o.side b))) e in
      (xs, ys, sym gone ∙ old, rw (requantify-levels more) new, better, worse)

  queued-renewed :
      o.client_id ≡ client_id → o.order_id ≡ order_id → queued ≡ renewed o new_qty now b
  queued-renewed own e = rw (remove_order-symbol, own, e) refl

-- If its owner modifies an order of a well-formed book to a larger valid quantity at its own price,
-- the order loses its time priority: it leaves its place and stands, with the new quantity and the
-- time of the request, behind every other order of its side at its price or a better one and in
-- front of every order at a worse price, and the others keep their order.
pub modify_order-IsPlaced :
    (client_id : ClientId) (order_id : OrderId) (new_qty : Qty) (now : Nanos) (o : BookOrder)
    (b : SymbolOrderBook)
    → IsValid b
    → find_order order_id b ≡ some o
    → o.client_id ≡ client_id
    → is_bad_change o.price new_qty ≡ false
    → o.qty < new_qty
    → IsPlaced o.side
        (renewed o new_qty now b)
        (unlink order_id (flat (levels o.side b)))
        (flat (levels o.side (modify_order client_id order_id o.price new_qty now b)))
unfolding modify_order
modify_order-IsPlaced client_id order_id new_qty now o b v found own good more =
    let s = subject order_id v found in
    let allowed : (not (o.client_id == client_id) || is_bad_change o.price new_qty) ≡ false =
      ground arith in
    rw (found, modify_order, allowed, eqb_ℤ_refl o.price)
      (subst
        (λ n.
          IsPlaced o.side n (unlink order_id (flat (levels o.side b)))
            (flat (levels o.side (requantify o client_id order_id new_qty now b))))
        (queued-renewed client_id order_id new_qty now o b own s.1)
        (requantify-IsPlaced client_id order_id new_qty now o b v s more))
