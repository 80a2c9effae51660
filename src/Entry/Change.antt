-- ===== src/Entry/Change.antt =====
-- `cancelOrder` and `modifyOrder` of order_book.cpp and the well-formedness of the book.
use trading_matching_engine.Base.{
  ◌<◌, ◌≡◌, true, not, ◌||◌, some, arith, ltb, ◌==◌, Bool-cases, Option-cases, inl, inr, subst,
}
use trading_matching_engine.Base.Int.{eqb_ℤ}
use trading_matching_engine.Types.{OrderId, ClientId, Nanos, Qty, Price}
use trading_matching_engine.Messages.{modified}
use trading_matching_engine.Book.{BookOrder, SymbolOrderBook, find_node, find_order, remove_order}
use trading_matching_engine.Book.Nodes.{copies, copies_of_none}
use trading_matching_engine.Book.Valid.{resting, IsValid}
use trading_matching_engine.Book.Maintenance.{
  find_node-remove_order, remove_order-IsValid, resize_order-IsValid,
}
use trading_matching_engine.Book.Rest.{rest_order-IsValid}
use trading_matching_engine.Match.{match_incoming}
use trading_matching_engine.Match.Book.{match_incoming-IsValid}
use trading_matching_engine.Entry.{
  cancel_order, reprice, requantify, modify_order, answer, is_bad_change,
}
use trading_matching_engine.Entry.Valid.{
  sent-IsValid, found_order, found_self, rest_remainder-IsValid, still_fresh,
}

-- Once removed, an id is free again.
pub removed_fresh :
    {b : SymbolOrderBook} (o : BookOrder)
    → IsValid b
    → find_node o.order_id (resting b) ≡ some o
    → copies o.order_id (resting (remove_order o b)) ≡ 0
removed_fresh {b} o v h =
    copies_of_none o.order_id (resting (remove_order o b))
      (ground (arith, find_node-remove_order o v h o.order_id))

-- The order that a modification is about.
abbrev pub Subject : OrderId → BookOrder → SymbolOrderBook → Type 0
Subject order_id o b = (find_node o.order_id (resting b) ≡ some o) × (o.order_id ≡ order_id)

pub subject :
    {b : SymbolOrderBook} (order_id : OrderId) {o : BookOrder}
    → IsValid b
    → find_order order_id b ≡ some o
    → Subject order_id o b
subject order_id v found = (found_self order_id v found, (found_order order_id v found).1)

module _ (client_id : ClientId) (order_id : OrderId) where
  pub cancel_order-IsValid :
      {b : SymbolOrderBook} → IsValid b → IsValid (cancel_order client_id order_id b)
  unfolding cancel_order
  cancel_order-IsValid {b} v = elim (Option-cases (find_order order_id b)) [
    | inl none_found ↦ rw (none_found, cancel_order) (sent-IsValid _ _ v)
    | inr (o, found) ↦ elim (Bool-cases (o.client_id == client_id)) [
      | inl own ↦
          rw (found, cancel_order, own)
            (sent-IsValid _ _ (remove_order-IsValid o v (found_self order_id v found)))
      | inr other ↦ rw (found, cancel_order, other) (sent-IsValid _ _ v)
    ]
  ]

  module _ (o : BookOrder) (new_qty : Qty) (now : Nanos) {b : SymbolOrderBook} where
    fresh-Subject :
        IsValid b → Subject order_id o b → copies order_id (resting (remove_order o b)) ≡ 0
    fresh-Subject v (h, e) =
        subst (λ i. copies i (resting (remove_order o b)) ≡ 0) e (removed_fresh o v h)

    pub reprice-IsValid :
        (new_price : Price)
        → IsValid b
        → Subject order_id o b
        → IsValid (reprice o client_id order_id new_price new_qty now b)
    unfolding reprice
    reprice-IsValid new_price v s =
        let b' = answer modified client_id order_id o.side new_price 0 new_qty (remove_order o b) in
        let v' : IsValid b' = sent-IsValid _ _ (remove_order-IsValid o v s.0) in
        rest_remainder-IsValid client_id order_id o.order_type o.side new_price new_qty now
          (match_incoming client_id order_id o.side new_price true new_qty b')
          (still_fresh client_id order_id o.side new_price true new_qty b' v' (fresh-Subject v s))
          (match_incoming-IsValid client_id order_id o.side new_price true new_qty b' v')

    pub requantify-IsValid :
        IsValid b
        → Subject order_id o b
        → 0 < new_qty
        → IsValid (requantify o client_id order_id new_qty now b)
    unfolding requantify
    requantify-IsValid v s live = elim (Bool-cases (ltb new_qty o.qty)) [
      | inl less ↦ rw less (sent-IsValid _ _ (resize_order-IsValid o v s.0 new_qty live))
      | inr not_less ↦ elim (Bool-cases (ltb o.qty new_qty)) [
        | inl more ↦
            rw (not_less, more)
              (sent-IsValid _ _ (
                rest_order-IsValid client_id order_id o.order_type o.side o.price new_qty new_qty
                  now (remove_order o b) (fresh-Subject v s) live (remove_order-IsValid o v s.0)))
        | inr same ↦ rw (not_less, same) (sent-IsValid _ _ v)
      ]
    ]

  pub modify_order-IsValid :
      (new_price : Price) (new_qty : Qty) (now : Nanos) {b : SymbolOrderBook}
      → IsValid b
      → IsValid (modify_order client_id order_id new_price new_qty now b)
  unfolding modify_order
  modify_order-IsValid new_price new_qty now {b} v = elim (Option-cases (find_order order_id b)) [
    | inl none_found ↦ rw (none_found, modify_order) (sent-IsValid _ _ v)
    | inr (o, found) ↦
        let s = subject order_id v found in
        elim (Bool-cases (not (o.client_id == client_id) || is_bad_change new_price new_qty)) [
          | inl bad ↦ rw (found, modify_order, bad) (sent-IsValid _ _ v)
          | inr good ↦ elim (Bool-cases (eqb_ℤ new_price o.price)) [
            | inl same ↦
                rw (found, modify_order, good, same)
                  (requantify-IsValid o new_qty now v s (ground arith))
            | inr differs ↦
                rw (found, modify_order, good, differs)
                  (reprice-IsValid o new_qty now new_price v s)
          ]
        ]
  ]
