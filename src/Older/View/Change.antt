-- ===== src/Older/View/Change.antt =====
-- `modifyOrder` of exchange/market_data/order_book.cpp against the one of exchange/matcher.
use trading_matching_engine.Base.{
  ◌≡◌, refl, true, not, ◌||◌, ltb, ◌==◌, Bool-cases, Option-cases, inl, inr,
}
use trading_matching_engine.Base.Int.{eqb_ℤ}
use trading_matching_engine.Types.{OrderId, ClientId, Nanos, Qty, Price}
use trading_matching_engine.Messages.{modify, modified}
use trading_matching_engine.Book.{
  BookOrder, SymbolOrderBook, rest_order, remove_order, resize_order, find_order,
}
use trading_matching_engine.Match.{match_incoming}
use trading_matching_engine.Entry.{reprice, requantify, is_bad_change, modify_order, answer}
use trading_matching_engine.Older.Entry as Earlier
use trading_matching_engine.Older.View.{view_order, view}
use trading_matching_engine.Older.View.Maintenance.{
  rest_order-view, resize_order-view, remove_order-view, find_order-view,
}
use trading_matching_engine.Older.View.Match.{match_incoming-view}
use trading_matching_engine.Older.View.Entry.{rest_remainder-view, send_book_update-view}

module _ (client_id : ClientId) (order_id : OrderId) where
  reprice-view :
      (o : BookOrder) (price : Price) (qty : Qty) (now : Nanos) (b : SymbolOrderBook)
      → Earlier.reprice (view_order o) client_id order_id price qty now (view b)
        ≡ view (reprice o client_id order_id price qty now b)
  unfolding reprice Earlier.reprice
  reprice-view o price qty now b =
      let b' = answer modified client_id order_id o.side price 0 qty (remove_order o b) in
      let (met, leaves) = match_incoming client_id order_id o.side price true qty b' in
      rw (remove_order-view o b, match_incoming-view client_id order_id o.side price true qty b')
        (rest_remainder-view client_id order_id o.order_type o.side price qty now met leaves)

  requantify-view :
      (o : BookOrder) (qty : Qty) (now : Nanos) (b : SymbolOrderBook)
      → Earlier.requantify (view_order o) client_id order_id qty now (view b)
        ≡ view (requantify o client_id order_id qty now b)
  unfolding requantify Earlier.requantify
  requantify-view o qty now b = elim (Bool-cases (ltb qty o.qty)) [
    | inl less ↦
        rw (less, resize_order-view o qty b)
          (send_book_update-view modify order_id o.side o.price qty
            (answer modified client_id order_id o.side o.price 0 qty (resize_order o qty b)) refl)
    | inr ge ↦ elim (Bool-cases (ltb o.qty qty)) [
      | inl more ↦
          rw
            (
              ge,
              more,
              remove_order-view o b,
              rest_order-view client_id order_id o.order_type o.side o.price qty qty now
                  (remove_order o b),
            )
            (send_book_update-view modify order_id o.side o.price qty
              (answer modified client_id order_id o.side o.price 0 qty (
                rest_order client_id order_id o.order_type o.side o.price qty qty now
                  (remove_order o b)))
              refl)
      | inr same ↦ rw (ge, same)
    ]
  ]

  pub modify_order-view :
      (price : Price) (qty : Qty) (now : Nanos) (b : SymbolOrderBook)
      → Earlier.modify_order client_id order_id price qty now (view b)
        ≡ view (modify_order client_id order_id price qty now b)
  unfolding modify_order Earlier.modify_order
  modify_order-view price qty now b = elim (Option-cases (find_order order_id b)) [
    | inl e ↦ rw (Earlier.modify_order, find_order-view order_id b, e, modify_order)
    | inr (o, e) ↦ elim (Bool-cases (not (o.client_id == client_id) || is_bad_change price qty)) [
      | inl bad ↦ rw (Earlier.modify_order, find_order-view order_id b, e, modify_order, bad)
      | inr good ↦ elim (Bool-cases (not (eqb_ℤ price o.price))) [
        | inl new ↦
            rw (Earlier.modify_order, find_order-view order_id b, e, modify_order, good, new)
              (reprice-view o price qty now b)
        | inr same ↦
            rw (Earlier.modify_order, find_order-view order_id b, e, modify_order, good, same)
              (requantify-view o qty now b)
      ]
    ]
  ]
