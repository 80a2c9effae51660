-- ===== src/Entry/Sync.antt =====
-- The mirror of book_snapshot_service.h against the book of order_book.cpp: what it means that the
-- mirror of an id is in step, and the parts that the order-entry calls are made of.
use trading_matching_engine.Base.{
  ◌<◌, ◌≡◌, refl, ap, ◌∙◌, Bool, arith, ltb, Bool-cases, inl, inr, ◌⊎◌, ◌≢◌,
}
use trading_matching_engine.Types.{OrderId, ClientId, OrderType, Nanos, Qty, Price, Side, Symbol}
use trading_matching_engine.Messages.{BookUpdate, add}
use trading_matching_engine.Book.{
  BookOrder, SymbolOrderBook, find_node, rest_order, remove_order, resize_order, new_book,
  send_book_update,
}
use trading_matching_engine.Book.Nodes.{seen, copies}
use trading_matching_engine.Book.Levels.{flat}
use trading_matching_engine.Dict.{lookup, nat_Eq}
use trading_matching_engine.Book.Valid.{resting, IsValid}
use trading_matching_engine.Book.Rest.{find_node-rest_order}
use trading_matching_engine.Match.{match_incoming, taker, matching}
use trading_matching_engine.Match.Book.{
  match_incoming-seen, updates-match_incoming, reached, reached_once, copies-reached-le,
  find_node-reached,
}
use trading_matching_engine.Entry.{rest_remainder, cancel_remainder}
use trading_matching_engine.Snapshot.{apply_all}
use trading_matching_engine.Snapshot.Orders.{
  entry_of, mirrored, mirrored-send, match_orders-mirrored,
}

-- The mirror knows of an id what the book holds under it: side, price and quantity, or nothing.
abbrev pub SyncedAt : OrderId → SymbolOrderBook → Type 0
SyncedAt j b = mirrored j b.updates ≡ seen entry_of (find_node j (resting b))

-- The mirror holds an entry for exactly the resting orders.
abbrev pub IsSynced : SymbolOrderBook → Type 0
IsSynced b = (j : OrderId) → SyncedAt j b

pub new_book-IsSynced : (s : Symbol) → IsSynced (new_book s)
unfolding new_book apply_all lookup flat find_node
new_book-IsSynced s j = refl

pub updates-remove_order :
    (o : BookOrder) (b : SymbolOrderBook) → (remove_order o b).updates ≡ b.updates
unfolding remove_order
updates-remove_order o b = ground arith

pub updates-resize_order :
    (o : BookOrder) (q : Qty) (b : SymbolOrderBook) → (resize_order o q b).updates ≡ b.updates
unfolding resize_order
updates-resize_order o q b = ground arith

module _ (client_id : ClientId) (order_id : OrderId) (order_type : OrderType) (side : Side)
    (price : Price) (original_qty qty : Qty) (now : Nanos) (b : SymbolOrderBook) where
  pub updates-rest_order :
      (rest_order client_id order_id order_type side price original_qty qty now b).updates
      ≡ b.updates
  unfolding rest_order
  updates-rest_order = ground arith

pub rest_remainder_done :
    (client_id : ClientId) (order_id : OrderId) (order_type : OrderType) (side : Side)
    (price : Price) (qty : Qty) (now : Nanos) (r : SymbolOrderBook × Qty)
    → r.1 ≡ 0
    → rest_remainder client_id order_id order_type side price qty now r ≡ r.0
unfolding rest_remainder
rest_remainder_done client_id order_id order_type side price qty now (b, leaves) h =
    elim (Bool-cases (ltb 0 leaves)) [ inl more ↦ absurd (ground arith) | inr done ↦ rw done ]

module _ (client_id : ClientId) (order_id : OrderId) (j : OrderId) where
  -- Matching keeps the mirror in step.
  pub match_incoming-SyncedAt :
      (side : Side) (price : Price) (has_limit : Bool) (qty : Qty) (b : SymbolOrderBook)
      → IsValid b
      → SyncedAt j b
      → SyncedAt j (match_incoming client_id order_id side price has_limit qty b).0
  match_incoming-SyncedAt side price has_limit qty b v s =
      let t = taker client_id order_id side price has_limit b in
      match_incoming-seen client_id order_id side price has_limit qty b v entry_of j _ _ s (
        ap (mirrored j) (updates-match_incoming client_id order_id side price has_limit qty b v)
        ∙ match_orders-mirrored j t (reached side t b) (matching b qty)
            (reached_once client_id order_id side price has_limit qty b v j)
            (λ h.
              s
              ∙ ap (seen entry_of)
                  (find_node-reached client_id order_id side price has_limit qty b v j h)))

  -- Of an id that the book does not hold the mirror learns nothing.
  pub match_incoming-mirrored_absent :
      (side : Side) (price : Price) (has_limit : Bool) (qty : Qty) (b : SymbolOrderBook)
      → IsValid b
      → copies j (resting b) ≡ 0
      → mirrored j (match_incoming client_id order_id side price has_limit qty b).0.updates
        ≡ mirrored j b.updates
  match_incoming-mirrored_absent side price has_limit qty b v h =
      let t = taker client_id order_id side price has_limit b in
      let none_reached : copies j (reached side t b) ≡ 0 =
        omega (arith, copies-reached-le client_id order_id side price has_limit qty b v j) in
      let pass =
        match_orders-mirrored j t (reached side t b) (matching b qty)
          (reached_once client_id order_id side price has_limit qty b v j)
          (λ k. absurd (omega arith)) in
      ground (
        arith,
        none_reached,
        pass,
        ap (mirrored j) (updates-match_incoming client_id order_id side price has_limit qty b v),
      )

  -- An ADD for a new order, whatever the mirror knew of its id.
  pub rest_order-SyncedAt :
      (order_type : OrderType) (side : Side) (price : Price) (original_qty qty : Qty) (now : Nanos)
      (b : SymbolOrderBook)
      → copies order_id (resting b) ≡ 0
      → (order_id ≢ j → SyncedAt j b)
      → SyncedAt j (
          send_book_update add order_id side price qty
            (rest_order client_id order_id order_type side price original_qty qty now b))
  rest_order-SyncedAt order_type side price original_qty qty now b fresh s =
      let b' = rest_order client_id order_id order_type side price original_qty qty now b in
      let u : BookUpdate = record {
        kind = add;
        order_id = order_id;
        symbol = b'.symbol;
        side = side;
        price = price;
        qty = qty;
      } in
      let found =
        find_node-rest_order client_id order_id order_type side price original_qty qty now b j
          fresh in
      let sent = mirrored-send j b'.updates u in
      let old =
        ap (mirrored j)
          (updates-rest_order client_id order_id order_type side price original_qty qty now b) in
      ground (arith, found, sent, old, s)

  pub rest_remainder-SyncedAt :
      (order_type : OrderType) (side : Side) (price : Price) (qty : Qty) (now : Nanos)
      (r : SymbolOrderBook × Qty)
      → copies order_id (resting r.0) ≡ 0
      → SyncedAt j r.0 ⊎ ((order_id ≢ j → SyncedAt j r.0) × (0 < r.1))
      → SyncedAt j (rest_remainder client_id order_id order_type side price qty now r)
  unfolding rest_remainder
  rest_remainder-SyncedAt order_type side price qty now (b, leaves) fresh s =
      elim (Bool-cases (ltb 0 leaves)) [
        | inl more ↦ rw more (
            rest_order-SyncedAt order_type side price qty leaves now b fresh
              (λ ne. elim s [ inl all ↦ all | inr (others, _) ↦ others ne ]))
        | inr done ↦ rw done (elim s [ inl all ↦ all | inr (_, live) ↦ absurd (ground arith) ])
      ]

  pub cancel_remainder-SyncedAt :
      (side : Side) (price : Price) (qty : Qty) (r : SymbolOrderBook × Qty)
      → SyncedAt j r.0
      → SyncedAt j (cancel_remainder client_id order_id side price qty r)
  unfolding cancel_remainder
  cancel_remainder-SyncedAt side price qty (b, leaves) s = elim (Bool-cases (ltb 0 leaves)) [
    | inl more ↦ rw more s
    | inr done ↦ rw done s
  ]
