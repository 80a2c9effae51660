-- ===== src/Entry/Mirror.antt =====
-- `modifyOrder` of order_book.cpp and the mirror of book_snapshot_service.h.
use native.Mathlib.Decide.{ℕ_discrete}
use trading_matching_engine.Base.{
  ◌<◌, ◌≡◌, ap, ◌∙◌, true, false, not, ◌||◌, none, some, arith, ◌==◌, Bool-cases, Option-cases, inl,
  inr, subst, ◌≢◌,
}
use trading_matching_engine.Base.Int.{eqb_ℤ}
use trading_matching_engine.Types.{OrderId, ClientId, Nanos, Qty, Price}
use trading_matching_engine.Messages.{modified}
use trading_matching_engine.Book.{BookOrder, SymbolOrderBook, find_node, find_order, remove_order}
use trading_matching_engine.Book.Nodes.{seen, copies, find_node_absent}
use trading_matching_engine.Dict.{nat_Eq}
use trading_matching_engine.Book.Valid.{resting, IsValid}
use trading_matching_engine.Book.Maintenance.{find_node-remove_order, remove_order-IsValid}
use trading_matching_engine.Match.{match_incoming}
use trading_matching_engine.Entry.{reprice, modify_order, answer, is_bad_change}
use trading_matching_engine.Entry.Valid.{sent-IsValid, still_fresh}
use trading_matching_engine.Entry.Change.{Subject, subject, removed_fresh}
use trading_matching_engine.Snapshot.Orders.{entry_of, mirrored}
use trading_matching_engine.Entry.Sync.{
  SyncedAt, IsSynced, updates-remove_order, match_incoming-SyncedAt, match_incoming-mirrored_absent,
  rest_remainder_done, rest_remainder-SyncedAt,
}
use trading_matching_engine.Entry.Placed.{requantify-SyncedAt}

-- What a repriced order has left after it has been matched at its new price.
abbrev pub reprice_leaves :
    BookOrder → ClientId → OrderId → Price → Qty → SymbolOrderBook → SymbolOrderBook × Qty
reprice_leaves o client_id order_id new_price new_qty b =
    match_incoming client_id order_id o.side new_price true new_qty
      (answer modified client_id order_id o.side new_price 0 new_qty (remove_order o b))

module _ (client_id : ClientId) (order_id : OrderId) (j : OrderId) (o : BookOrder)
    (new_price : Price) (new_qty : Qty) (now : Nanos) {b : SymbolOrderBook} (v : IsValid b)
    (sub : Subject order_id o b) where
  removed : SymbolOrderBook
  removed = answer modified client_id order_id o.side new_price 0 new_qty (remove_order o b)

  removed-IsValid : IsValid removed
  unfolding removed
  removed-IsValid = sent-IsValid _ _ (remove_order-IsValid o v sub.0)

  removed-fresh : copies order_id (resting removed) ≡ 0
  unfolding removed
  removed-fresh =
      subst (λ i. copies i (resting (remove_order o b)) ≡ 0) sub.1 (removed_fresh o v sub.0)

  removed-SyncedAt : order_id ≢ j → SyncedAt j b → SyncedAt j removed
  unfolding removed
  removed-SyncedAt ne s = ground (
    arith,
    sub,
    s,
    ap (mirrored j) (updates-remove_order o b),
    find_node-remove_order o v sub.0 j,
  )

  pub reprice-SyncedAt :
      (order_id ≡ j → 0 < (reprice_leaves o client_id order_id new_price new_qty b).1)
      → SyncedAt j b
      → SyncedAt j (reprice o client_id order_id new_price new_qty now b)
  unfolding reprice removed
  reprice-SyncedAt live s =
      let r = reprice_leaves o client_id order_id new_price new_qty b in
      let others : order_id ≢ j → SyncedAt j r.0 = λ ne.
        match_incoming-SyncedAt client_id order_id j o.side new_price true new_qty removed
          removed-IsValid (removed-SyncedAt ne s) in
      rest_remainder-SyncedAt client_id order_id j o.order_type o.side new_price new_qty now r
        (still_fresh client_id order_id o.side new_price true new_qty removed removed-IsValid
          removed-fresh)
        (elim (ℕ_discrete order_id j) [ yes e ↦ inr (others, live e) | no ne ↦ inl (others ne) ])

-- Every modification keeps the mirror in step at every id, but at its own if the order gets a new
-- price and is filled at once.
pub modify_order-SyncedAt :
    (client_id : ClientId) (order_id : OrderId) (j : OrderId) (new_price : Price) (new_qty : Qty)
    (now : Nanos) {b : SymbolOrderBook}
    → IsValid b
    → (order_id ≡ j
        → (o : BookOrder) → find_order order_id b ≡ some o
        → o.client_id ≡ client_id
        → is_bad_change new_price new_qty ≡ false
        → eqb_ℤ new_price o.price ≡ false
        → 0 < (reprice_leaves o client_id order_id new_price new_qty b).1)
    → SyncedAt j b
    → SyncedAt j (modify_order client_id order_id new_price new_qty now b)
unfolding modify_order
modify_order-SyncedAt client_id order_id j new_price new_qty now {b} v live s =
    elim (Option-cases (find_order order_id b)) [
      | inl none_found ↦ rw (none_found, modify_order) s
      | inr (o, found) ↦
          let sub = subject order_id v found in
          elim (Bool-cases (not (o.client_id == client_id) || is_bad_change new_price new_qty)) [
            | inl bad ↦ rw (found, modify_order, bad) s
            | inr good ↦ elim (Bool-cases (eqb_ℤ new_price o.price)) [
              | inl same ↦
                  rw (found, modify_order, good, same)
                    (requantify-SyncedAt client_id order_id j o new_qty now v sub s)
              | inr differs ↦
                  rw (found, modify_order, good, differs)
                    (reprice-SyncedAt client_id order_id j o new_price new_qty now v sub
                      (λ e. live e o found (ground arith) (ground arith) differs) s)
            ]
          ]
    ]

-- If an order rests in a well-formed book that the mirror follows, and a new price fills all of its
-- new quantity at once, then the book no longer holds the order, but the mirror still shows it with
-- its old price and quantity.
pub reprice_phantom :
    (client_id : ClientId) (order_id : OrderId) (o : BookOrder) (new_price : Price) (new_qty : Qty)
    (now : Nanos) {b : SymbolOrderBook}
    → IsValid b
    → IsSynced b
    → Subject order_id o b
    → (reprice_leaves o client_id order_id new_price new_qty b).1 ≡ 0
    → let b' = reprice o client_id order_id new_price new_qty now b in
      (mirrored order_id b'.updates ≡ some (entry_of o)) × (find_node order_id (resting b') ≡ none)
unfolding reprice removed
reprice_phantom client_id order_id o new_price new_qty now {b} v s sub done =
    let start = removed client_id order_id order_id o new_price new_qty now v sub in
    let w = removed-IsValid client_id order_id order_id o new_price new_qty now v sub in
    let fresh = removed-fresh client_id order_id order_id o new_price new_qty now v sub in
    let r = reprice_leaves o client_id order_id new_price new_qty b in
    let gone =
      find_node_absent order_id (resting r.0)
        (still_fresh client_id order_id o.side new_price true new_qty start w fresh) in
    let kept =
      match_incoming-mirrored_absent client_id order_id order_id o.side new_price true new_qty start
        w fresh
      ∙ ap (mirrored order_id) (updates-remove_order o b)
      ∙ s order_id in
    let same = subst (λ i. find_node i (resting b) ≡ some o) sub.1 sub.0 in
    rw (rest_remainder_done client_id order_id o.order_type o.side new_price new_qty now r done)
      (kept ∙ ap (seen entry_of) same, gone)
