-- ===== src/Entry/Uncrossed.antt =====
-- The order-entry calls of order_book.cpp and the spread of the book.
use trading_matching_engine.Base.{
  ◌<◌, ◌≡◌, refl, subst, true, false, not, ◌||◌, arith, ltb, ◌==◌, All, Bool-cases, Option-cases,
  inl, inr,
}
use trading_matching_engine.Base.Int.{eqb_ℤ}
use trading_matching_engine.Types.{
  OrderId, ClientId, OrderType, Nanos, Qty, Price, Side, limit, invalid_price,
}
use trading_matching_engine.Messages.{accepted, modified}
use trading_matching_engine.Book.{
  BookOrder, SymbolOrderBook, remove_order, resize_order, find_order, is_indexed,
}
use trading_matching_engine.Book.Valid.{IsValid}
use trading_matching_engine.Book.Maintenance.{remove_order-IsValid}
use trading_matching_engine.Match.{match_incoming}
use trading_matching_engine.Match.Reach.{opposite_orders}
use trading_matching_engine.Match.Uncrossed.{
  IsUncrossed, Faces, match_incoming-Faces, match_incoming-IsUncrossed, rest_order-IsUncrossed,
}
use trading_matching_engine.Entry.{
  rest_remainder, cancel_remainder, add_limit_order, add_market_order, add_ioc_order, cancel_order,
  reprice, requantify, modify_order, answer, is_bad_change,
}
use trading_matching_engine.Entry.Valid.{sent-IsValid}
use trading_matching_engine.Entry.Change.{Subject, subject}
use trading_matching_engine.Entry.Within.{
  remove_order-Within, resize_order-Within, Within-IsUncrossed, standing, Faces-Within,
}

module _ (client_id : ClientId) (order_id : OrderId) where
  rest_remainder-IsUncrossed :
      (order_type : OrderType) (side : Side) (price : Price) (qty : Qty) (now : Nanos)
      (r : SymbolOrderBook × Qty)
      → (0 < r.1 → All (Faces side price client_id) (opposite_orders side r.0))
      → IsUncrossed r.0
      → IsUncrossed (rest_remainder client_id order_id order_type side price qty now r)
  unfolding rest_remainder
  rest_remainder-IsUncrossed order_type side price qty now (b, leaves) f u =
      elim (Bool-cases (ltb 0 leaves)) [
        | inl more ↦ rw more (
            rest_order-IsUncrossed client_id order_id order_type side price qty leaves now b
              (f (ground arith)) u)
        | inr done ↦ rw done u
      ]

  cancel_remainder-IsUncrossed :
      (side : Side) (price : Price) (qty : Qty) (r : SymbolOrderBook × Qty)
      → IsUncrossed r.0
      → IsUncrossed (cancel_remainder client_id order_id side price qty r)
  unfolding cancel_remainder
  cancel_remainder-IsUncrossed side price qty (b, leaves) u = elim (Bool-cases (ltb 0 leaves)) [
    | inl more ↦ rw more u
    | inr done ↦ rw done u
  ]

  -- Matching and then resting what is left.
  entered-IsUncrossed :
      (order_type : OrderType) (side : Side) (price : Price) (qty : Qty) (now : Nanos)
      {b : SymbolOrderBook}
      → IsValid b
      → IsUncrossed b
      → IsUncrossed (
          rest_remainder client_id order_id order_type side price qty now
            (match_incoming client_id order_id side price true qty b))
  entered-IsUncrossed order_type side price qty now {b} v u =
      rest_remainder-IsUncrossed order_type side price qty now
        (match_incoming client_id order_id side price true qty b)
        (match_incoming-Faces client_id order_id side price qty v)
        (match_incoming-IsUncrossed client_id order_id side price true qty v u)

  pub add_limit_order-IsUncrossed :
      (side : Side) (price : Price) (qty : Qty) (now : Nanos) {b : SymbolOrderBook}
      → IsValid b
      → IsUncrossed b
      → IsUncrossed (add_limit_order client_id order_id side price qty now b)
  unfolding add_limit_order
  add_limit_order-IsUncrossed side price qty now {b} v u =
      elim (Bool-cases (is_indexed order_id b)) [
        | inl old ↦ rw old u
        | inr new ↦ rw new (
            entered-IsUncrossed limit side price qty now
              {b = answer accepted client_id order_id side price 0 qty b} (sent-IsValid _ _ v) u)
      ]

  pub add_market_order-IsUncrossed :
      (side : Side) (qty : Qty) {b : SymbolOrderBook}
      → IsValid b
      → IsUncrossed b
      → IsUncrossed (add_market_order client_id order_id side qty b)
  unfolding add_market_order
  add_market_order-IsUncrossed side qty {b} v u = elim (Bool-cases (is_indexed order_id b)) [
    | inl old ↦ rw old u
    | inr new ↦
        let b' = answer accepted client_id order_id side invalid_price 0 qty b in
        rw new (
          cancel_remainder-IsUncrossed side invalid_price qty
            (match_incoming client_id order_id side invalid_price false qty b')
            (match_incoming-IsUncrossed client_id order_id side invalid_price false qty {b = b'}
              (sent-IsValid _ _ v) u))
  ]

  pub add_ioc_order-IsUncrossed :
      (side : Side) (price : Price) (qty : Qty) {b : SymbolOrderBook}
      → IsValid b
      → IsUncrossed b
      → IsUncrossed (add_ioc_order client_id order_id side price qty b)
  unfolding add_ioc_order
  add_ioc_order-IsUncrossed side price qty {b} v u = elim (Bool-cases (is_indexed order_id b)) [
    | inl old ↦ rw old u
    | inr new ↦
        let b' = answer accepted client_id order_id side price 0 qty b in
        rw new (
          cancel_remainder-IsUncrossed side price qty
            (match_incoming client_id order_id side price true qty b')
            (match_incoming-IsUncrossed client_id order_id side price true qty {b = b'}
              (sent-IsValid _ _ v) u))
  ]

  pub cancel_order-IsUncrossed :
      (b : SymbolOrderBook) → IsUncrossed b → IsUncrossed (cancel_order client_id order_id b)
  unfolding cancel_order
  cancel_order-IsUncrossed b u = elim (Option-cases (find_order order_id b)) [
    | inl gone ↦ rw (gone, cancel_order) u
    | inr (o, found) ↦ elim (Bool-cases (o.client_id == client_id)) [
      | inl own ↦
          rw (found, cancel_order, own)
            (Within-IsUncrossed b (remove_order o b) (remove_order-Within o b) u)
      | inr other ↦ rw (found, cancel_order, other) u
    ]
  ]

  module _ (o : BookOrder) (new_qty : Qty) (now : Nanos) {b : SymbolOrderBook} (v : IsValid b)
      (s : Subject order_id o b) (u : IsUncrossed b) where
    removed : IsUncrossed (remove_order o b)
    removed = Within-IsUncrossed b (remove_order o b) (remove_order-Within o b) u

    reprice-IsUncrossed :
        (new_price : Price) → IsUncrossed (reprice o client_id order_id new_price new_qty now b)
    unfolding reprice
    reprice-IsUncrossed new_price =
        entered-IsUncrossed o.order_type o.side new_price new_qty now
          {b = answer modified client_id order_id o.side new_price 0 new_qty (remove_order o b)}
          (sent-IsValid _ _ (remove_order-IsValid o v s.0)) removed

    requantify-IsUncrossed :
        o.client_id ≡ client_id → IsUncrossed (requantify o client_id order_id new_qty now b)
    unfolding requantify
    requantify-IsUncrossed e = elim (Bool-cases (ltb new_qty o.qty)) [
      | inl less ↦
          rw less
            (Within-IsUncrossed b (resize_order o new_qty b) (resize_order-Within o new_qty b) u)
      | inr not_less ↦ elim (Bool-cases (ltb o.qty new_qty)) [
        | inl more ↦
            rw (not_less, more)
              (rest_order-IsUncrossed client_id order_id o.order_type o.side o.price new_qty new_qty
                now (remove_order o b)
                (subst
                  (λ c. All (Faces o.side o.price c) (opposite_orders o.side (remove_order o b))) e
                  (Faces-Within o.side o.price o.client_id b (remove_order o b)
                    (remove_order-Within o b) (standing o.side o.order_id v u s.0 refl)))
                removed)
        | inr same ↦ rw (not_less, same) u
      ]
    ]

  pub modify_order-IsUncrossed :
      (new_price : Price) (new_qty : Qty) (now : Nanos) {b : SymbolOrderBook}
      → IsValid b
      → IsUncrossed b
      → IsUncrossed (modify_order client_id order_id new_price new_qty now b)
  unfolding modify_order
  modify_order-IsUncrossed new_price new_qty now {b} v u =
      elim (Option-cases (find_order order_id b)) [
        | inl gone ↦ rw (gone, modify_order) u
        | inr (o, found) ↦
            let s = subject order_id v found in
            elim (Bool-cases (not (o.client_id == client_id) || is_bad_change new_price new_qty)) [
              | inl bad ↦ rw (found, modify_order, bad) u
              | inr good ↦ elim (Bool-cases (eqb_ℤ new_price o.price)) [
                | inl same ↦
                    rw (found, modify_order, good, same)
                      (requantify-IsUncrossed o new_qty now v s u (ground arith))
                | inr differs ↦
                    rw (found, modify_order, good, differs)
                      (reprice-IsUncrossed o new_qty now v s u new_price)
              ]
            ]
      ]
