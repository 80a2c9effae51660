-- ===== src/Entry/Placed.antt =====
-- The calls of order_book.cpp that add, cancel or resize an order, and the mirror of
-- book_snapshot_service.h.
use trading_matching_engine.Base.{
  ◌≡◌, refl, ap, true, false, Option, none, some, arith, ltb, ◌==◌, Bool-cases, Option-cases, inl,
  inr, subst,
}
use trading_matching_engine.Types.{OrderId, ClientId, Nanos, Qty, Price, Side, limit, invalid_price}
use trading_matching_engine.Messages.{MarketUpdateType, BookUpdate, accepted, cancel, modify}
use trading_matching_engine.Book.{
  BookOrder, SymbolOrderBook, find_node, find_order, is_indexed, rest_order, remove_order,
  resize_order, send_book_update,
}
use trading_matching_engine.Book.Nodes.{seen, copies, resized}
use trading_matching_engine.Dict.{nat_Eq}
use trading_matching_engine.Book.Valid.{resting, IsValid}
use trading_matching_engine.Book.Maintenance.{find_node-remove_order, find_node-resize_order}
use trading_matching_engine.Book.Rest.{find_node-rest_order}
use trading_matching_engine.Match.{match_incoming}
use trading_matching_engine.Entry.{
  add_limit_order, add_market_order, add_ioc_order, cancel_order, requantify, answer,
}
use trading_matching_engine.Entry.Valid.{sent-IsValid, fresh_id, still_fresh}
use trading_matching_engine.Entry.Change.{Subject, subject, removed_fresh}
use trading_matching_engine.Snapshot.Orders.{entry_of, mirrored, mirrored-send, with_qty}
use trading_matching_engine.Entry.Sync.{
  SyncedAt, updates-remove_order, updates-resize_order, updates-rest_order, match_incoming-SyncedAt,
  rest_remainder-SyncedAt, cancel_remainder-SyncedAt,
}

module _ (client_id : ClientId) (order_id : OrderId) (j : OrderId) where
  pub add_limit_order-SyncedAt :
      (side : Side) (price : Price) (qty : Qty) (now : Nanos) {b : SymbolOrderBook}
      → IsValid b
      → SyncedAt j b
      → SyncedAt j (add_limit_order client_id order_id side price qty now b)
  unfolding add_limit_order
  add_limit_order-SyncedAt side price qty now {b} v s = elim (Bool-cases (is_indexed order_id b)) [
    | inl old ↦ rw old s
    | inr new ↦
        let b' = answer accepted client_id order_id side price 0 qty b in
        let v' : IsValid b' = sent-IsValid _ _ v in
        rw new (
          rest_remainder-SyncedAt client_id order_id j limit side price qty now
            (match_incoming client_id order_id side price true qty b')
            (still_fresh client_id order_id side price true qty b' v' (fresh_id order_id v new))
            (inl (match_incoming-SyncedAt client_id order_id j side price true qty b' v' s)))
  ]

  pub add_market_order-SyncedAt :
      (side : Side) (qty : Qty) {b : SymbolOrderBook}
      → IsValid b
      → SyncedAt j b
      → SyncedAt j (add_market_order client_id order_id side qty b)
  unfolding add_market_order
  add_market_order-SyncedAt side qty {b} v s = elim (Bool-cases (is_indexed order_id b)) [
    | inl old ↦ rw old s
    | inr new ↦
        let b' = answer accepted client_id order_id side invalid_price 0 qty b in
        rw new (
          cancel_remainder-SyncedAt client_id order_id j side invalid_price qty
            (match_incoming client_id order_id side invalid_price false qty b')
            (match_incoming-SyncedAt client_id order_id j side invalid_price false qty b'
              (sent-IsValid _ _ v) s))
  ]

  pub add_ioc_order-SyncedAt :
      (side : Side) (price : Price) (qty : Qty) {b : SymbolOrderBook}
      → IsValid b
      → SyncedAt j b
      → SyncedAt j (add_ioc_order client_id order_id side price qty b)
  unfolding add_ioc_order
  add_ioc_order-SyncedAt side price qty {b} v s = elim (Bool-cases (is_indexed order_id b)) [
    | inl old ↦ rw old s
    | inr new ↦
        let b' = answer accepted client_id order_id side price 0 qty b in
        rw new (
          cancel_remainder-SyncedAt client_id order_id j side price qty
            (match_incoming client_id order_id side price true qty b')
            (match_incoming-SyncedAt client_id order_id j side price true qty b'
              (sent-IsValid _ _ v) s))
  ]

  abbrev change_update : MarketUpdateType → BookOrder → Qty → SymbolOrderBook → BookUpdate
  change_update kind o qty b = record {
    kind = kind;
    order_id = order_id;
    symbol = b.symbol;
    side = o.side;
    price = o.price;
    qty = qty;
  }

  pub cancel_order-SyncedAt :
      {b : SymbolOrderBook}
      → IsValid b
      → SyncedAt j b
      → SyncedAt j (cancel_order client_id order_id b)
  unfolding cancel_order
  cancel_order-SyncedAt {b} v s = elim (Option-cases (find_order order_id b)) [
    | inl none_found ↦ rw (none_found, cancel_order) s
    | inr (o, found) ↦ elim (Bool-cases (o.client_id == client_id)) [
      | inl mine ↦
          let sub = subject order_id v found in
          let b' = remove_order o b in
          let sent = mirrored-send j b'.updates (change_update cancel o o.qty b') in
          let old = ap (mirrored j) (updates-remove_order o b) in
          let gone = find_node-remove_order o v sub.0 j in
          rw (found, cancel_order, mine) (ground (arith, sent, old, gone, sub, s))
      | inr other ↦ rw (found, cancel_order, other) s
    ]
  ]

  seen-resized :
      (q : Qty) (x : Option BookOrder) → seen entry_of (resized q x) ≡ with_qty q (seen entry_of x)
  seen-resized q none = refl
  seen-resized q (some x) = refl

  module _ (o : BookOrder) (new_qty : Qty) (now : Nanos) {b : SymbolOrderBook} where
    shrink-SyncedAt :
        IsValid b
        → Subject order_id o b
        → SyncedAt j b
        → SyncedAt j
            (send_book_update modify order_id o.side o.price new_qty (resize_order o new_qty b))
    shrink-SyncedAt v sub s =
        let b' = resize_order o new_qty b in
        ground (
          arith,
          sub,
          s,
          mirrored-send j b'.updates (change_update modify o new_qty b'),
          ap (mirrored j) (updates-resize_order o new_qty b),
          find_node-resize_order o v sub.0 new_qty j,
          seen-resized new_qty (find_node j (resting b)),
        )

    grow-SyncedAt :
        IsValid b
        → Subject order_id o b
        → SyncedAt j b
        → SyncedAt j (
            send_book_update modify order_id o.side o.price new_qty (
              rest_order client_id order_id o.order_type o.side o.price new_qty new_qty now
                (remove_order o b)))
    grow-SyncedAt v sub s =
        let b' = remove_order o b in
        let fresh = subst (λ i. copies i (resting b') ≡ 0) sub.1 (removed_fresh o v sub.0) in
        let b'' =
          rest_order client_id order_id o.order_type o.side o.price new_qty new_qty now b' in
        ground (
          arith,
          sub,
          s,
          mirrored-send j b''.updates (change_update modify o new_qty b''),
          ap (mirrored j) (
              updates-rest_order client_id order_id o.order_type o.side o.price new_qty new_qty now
                b'),
          ap (mirrored j) (updates-remove_order o b),
          find_node-rest_order client_id order_id o.order_type o.side o.price new_qty new_qty now b'
              j fresh,
          find_node-remove_order o v sub.0 j,
        )

    pub requantify-SyncedAt :
        IsValid b
        → Subject order_id o b
        → SyncedAt j b
        → SyncedAt j (requantify o client_id order_id new_qty now b)
    unfolding requantify
    requantify-SyncedAt v sub s = elim (Bool-cases (ltb new_qty o.qty)) [
      | inl less ↦ rw less (shrink-SyncedAt v sub s)
      | inr not_less ↦ elim (Bool-cases (ltb o.qty new_qty)) [
        | inl more ↦ rw (not_less, more) (grow-SyncedAt v sub s)
        | inr same ↦ rw (not_less, same) s
      ]
    ]
