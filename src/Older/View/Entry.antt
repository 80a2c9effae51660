-- ===== src/Older/View/Entry.antt =====
-- The order-entry calls of exchange/market_data/order_book.cpp against those of exchange/matcher.
use trading_matching_engine.Base.{
  ◌<◌, ◌≡◌, refl, Bool, true, false, not, [], ◌∷◌, arith, ltb, ◌==◌, Bool-cases, Option-cases, inl,
  inr,
}
use trading_matching_engine.Types.{
  OrderId, ClientId, OrderType, Nanos, Qty, Price, Side, limit, invalid_price,
}
use trading_matching_engine.Messages.{MarketUpdateType, add, cancel, accepted, canceled}
use trading_matching_engine.Book.{
  SymbolOrderBook, send_book_update, rest_order, remove_order, find_order, is_indexed,
}
use trading_matching_engine.Book.Valid.{IsValid, resting-live}
use trading_matching_engine.Match.{match_incoming}
use trading_matching_engine.Entry.{
  rest_remainder, cancel_remainder, add_limit_order, add_market_order, add_ioc_order, cancel_order,
  answer,
}
use trading_matching_engine.Entry.Valid.{found_order}
use trading_matching_engine.Older
use trading_matching_engine.Older.Entry as Earlier
use trading_matching_engine.Older.View.{view_updates, view, view_updates-append, is_cleared}
use trading_matching_engine.Older.View.Maintenance.{
  rest_order-view, remove_order-view, find_order-view,
}
use trading_matching_engine.Older.View.Match.{match_incoming-view}

-- An update that is not the CANCEL of an emptied order is sent by both.
pub send_book_update-view :
    (kind : MarketUpdateType) (order_id : OrderId) (side : Side) (price : Price) (qty : Qty)
    (b : SymbolOrderBook)
    → is_cleared (record {
      kind = kind;
      order_id = order_id;
      symbol = b.symbol;
      side = side;
      price = price;
      qty = qty;
    })
      ≡ false
    → Older.send_book_update kind order_id side price qty (view b)
      ≡ view (send_book_update kind order_id side price qty b)
unfolding view_updates
send_book_update-view kind order_id side price qty b h = rw (
  view_updates-append b.updates (
      record {
        kind = kind;
        order_id = order_id;
        symbol = b.symbol;
        side = side;
        price = price;
        qty = qty;
      }
      ∷ []),
  h,
)

module _ (client_id : ClientId) (order_id : OrderId) where
  pub rest_remainder-view :
      (order_type : OrderType) (side : Side) (price : Price) (qty : Qty) (now : Nanos)
      (b : SymbolOrderBook) (leaves : Qty)
      → Earlier.rest_remainder client_id order_id side price now (view b, leaves)
        ≡ view (rest_remainder client_id order_id order_type side price qty now (b, leaves))
  unfolding rest_remainder Earlier.rest_remainder
  rest_remainder-view order_type side price qty now b leaves = elim (Bool-cases (ltb 0 leaves)) [
    | inl more ↦
        rw (more, rest_order-view client_id order_id order_type side price qty leaves now b)
          (send_book_update-view add order_id side price leaves
            (rest_order client_id order_id order_type side price qty leaves now b) refl)
    | inr done ↦ rw done
  ]

  cancel_remainder-view :
      (side : Side) (price : Price) (qty : Qty) (b : SymbolOrderBook) (leaves : Qty)
      → Earlier.cancel_remainder client_id order_id side price qty (view b, leaves)
        ≡ view (cancel_remainder client_id order_id side price qty (b, leaves))
  unfolding cancel_remainder Earlier.cancel_remainder
  cancel_remainder-view side price qty b leaves = elim (Bool-cases (ltb 0 leaves)) [
    | inl more ↦ rw more
    | inr done ↦ rw done
  ]

  pub add_limit_order-view :
      (side : Side) (price : Price) (qty : Qty) (now : Nanos) (b : SymbolOrderBook)
      → Earlier.add_limit_order client_id order_id side price qty now (view b)
        ≡ view (add_limit_order client_id order_id side price qty now b)
  unfolding add_limit_order Earlier.add_limit_order
  add_limit_order-view side price qty now b =
      let b' = answer accepted client_id order_id side price 0 qty b in
      let (met, leaves) = match_incoming client_id order_id side price true qty b' in
      elim (Bool-cases (is_indexed order_id b)) [
        | inl old ↦ rw old
        | inr new ↦
            rw (new, match_incoming-view client_id order_id side price true qty b')
              (rest_remainder-view limit side price qty now met leaves)
      ]

  cancelled-view :
      (side : Side) (price : Price) (has_limit : Bool) (qty : Qty) (b : SymbolOrderBook)
      → Earlier.cancel_remainder client_id order_id side price qty
          (Older.Match.match_incoming client_id order_id side price has_limit qty (view b))
        ≡ view (
            cancel_remainder client_id order_id side price qty
              (match_incoming client_id order_id side price has_limit qty b))
  cancelled-view side price has_limit qty b =
      let (met, leaves) = match_incoming client_id order_id side price has_limit qty b in
      rw (match_incoming-view client_id order_id side price has_limit qty b)
        (cancel_remainder-view side price qty met leaves)

  pub add_market_order-view :
      (side : Side) (qty : Qty) (b : SymbolOrderBook)
      → Earlier.add_market_order client_id order_id side qty (view b)
        ≡ view (add_market_order client_id order_id side qty b)
  unfolding add_market_order Earlier.add_market_order
  add_market_order-view side qty b = elim (Bool-cases (is_indexed order_id b)) [
    | inl old ↦ rw old
    | inr new ↦ rw new (
        cancelled-view side invalid_price false qty
          (answer accepted client_id order_id side invalid_price 0 qty b))
  ]

  pub add_ioc_order-view :
      (side : Side) (price : Price) (qty : Qty) (b : SymbolOrderBook)
      → Earlier.add_ioc_order client_id order_id side price qty (view b)
        ≡ view (add_ioc_order client_id order_id side price qty b)
  unfolding add_ioc_order Earlier.add_ioc_order
  add_ioc_order-view side price qty b = elim (Bool-cases (is_indexed order_id b)) [
    | inl old ↦ rw old
    | inr new ↦
        rw new (
          cancelled-view side price true qty
            (answer accepted client_id order_id side price 0 qty b))
  ]

  -- A resting order is not empty, so that its CANCEL is seen in both.
  pub cancel_order-view :
      (b : SymbolOrderBook)
      → IsValid b
      → Earlier.cancel_order client_id order_id (view b) ≡ view (cancel_order client_id order_id b)
  unfolding cancel_order Earlier.cancel_order
  cancel_order-view b v = elim (Option-cases (find_order order_id b)) [
    | inl e ↦ rw (Earlier.cancel_order, find_order-view order_id b, e, cancel_order)
    | inr (o, e) ↦ elim (Bool-cases (not (o.client_id == client_id))) [
      | inl other ↦ rw (Earlier.cancel_order, find_order-view order_id b, e, cancel_order, other)
      | inr same ↦
          let live : 0 < o.qty = resting-live order_id v (found_order order_id v e).0 in
          let b' = answer canceled client_id order_id o.side o.price 0 0 (remove_order o b) in
          rw
            (
              Earlier.cancel_order,
              find_order-view order_id b,
              e,
              cancel_order,
              same,
              remove_order-view o b,
            )
            (send_book_update-view cancel order_id o.side o.price o.qty b' (ground arith))
    ]
  ]
