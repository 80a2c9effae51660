-- ===== src/Match/Book.antt =====
-- `matchIncoming` on a well-formed book: what it does to the orders, the index and the history.
use trading_matching_engine.Base.{
  ◌+◌, ◌≤◌, ◌<◌, ◌≡◌, sym, ap, ◌∙◌, List, [], ◌++◌, Option, arith, ◌==◌, if◌then◌else◌, first,
  Bool-cases, inl, inr, Bool, append_assoc,
}
use trading_matching_engine.Types.{OrderId, ClientId, Qty, Price, Side, buy, sell}
use trading_matching_engine.Book.{
  BookOrder, PriceLevel, SymbolOrderBook, find_node, levels, place_of,
}
use trading_matching_engine.Book.Nodes.{
  seen, copies, copies-append, find_node-append, find_node_absent,
}
use trading_matching_engine.Book.Levels.{flat, IsSide}
use trading_matching_engine.Book.Valid.{resting, IsValid}
use trading_matching_engine.Match.{
  Taker, Matching, match_levels, match_incoming, taker, opposite, matching, matched,
}
use trading_matching_engine.Match.Orders.{
  match_orders, within, beyond, flat-within-beyond, match_levels-flat,
}
use trading_matching_engine.Match.Survivors.{match_orders-copies-le, match_levels-IsSide}
use trading_matching_engine.Match.Watch.{match_orders-order_index}

-- The orders of the book in front of those within reach, and behind them.
abbrev pub in_front : Side → SymbolOrderBook → List BookOrder
in_front buy b = flat b.bids
in_front _ b = []

abbrev pub behind : Side → Taker → SymbolOrderBook → List BookOrder
behind buy t b = flat (beyond t b.asks)
behind _ t b = flat (beyond t b.bids) ++ flat b.asks

-- Opposite orders that the limit reaches, in priority order.
abbrev pub reached : Side → Taker → SymbolOrderBook → List BookOrder
reached side t b = flat (within t (levels (opposite side) b))

pub resting-parts :
    (side : Side) (t : Taker) (b : SymbolOrderBook)
    → resting b ≡ in_front side b ++ (reached side t b ++ behind side t b)
resting-parts buy t b = ap (◌++◌ (flat b.bids)) (sym (flat-within-beyond t b.asks))
resting-parts _ t b =
    ap (λ l. l ++ flat b.asks) (sym (flat-within-beyond t b.bids))
    ∙ append_assoc (flat (within t b.bids)) (flat (beyond t b.bids)) (flat b.asks)

pub resting-matched :
    (side : Side) (t : Taker) (b : SymbolOrderBook) (r : List PriceLevel × Matching)
    (xs : List BookOrder)
    → flat r.0 ≡ xs ++ flat (beyond t (levels (opposite side) b))
    → resting (matched side b r) ≡ in_front side b ++ (xs ++ behind side t b)
resting-matched buy t b r xs h = ap (◌++◌ (flat b.bids)) h
resting-matched _ t b r xs h =
    ap (λ l. l ++ flat b.asks) h ∙ append_assoc xs (flat (beyond t b.bids)) (flat b.asks)

-- The loops over the levels of the opposite side are the pass over the orders within reach.
pass_levels :
    (side : Side) (t : Taker) (m : Matching) {b : SymbolOrderBook}
    → IsValid b
    → let r = match_levels t (levels (opposite side) b) m in
      let s = match_orders t (reached side t b) m in
      (flat r.0 ≡ s.0 ++ flat (beyond t (levels (opposite side) b))) × (r.1 ≡ s.1)
pass_levels buy t m {b} v = match_levels-flat t sell b.asks m v.asks_side
pass_levels _ t m {b} v = match_levels-flat t buy b.bids m v.bids_side

matched-bids :
    (side : Side) (t : Taker) (m : Matching) {b : SymbolOrderBook}
    → IsValid b
    → IsSide buy (matched side b (match_levels t (levels (opposite side) b) m)).bids
matched-bids buy t m v = v.bids_side
matched-bids _ t m {b} v = match_levels-IsSide t buy b.bids m v.bids_side

matched-asks :
    (side : Side) (t : Taker) (m : Matching) {b : SymbolOrderBook}
    → IsValid b
    → IsSide sell (matched side b (match_levels t (levels (opposite side) b) m)).asks
matched-asks buy t m {b} v = match_levels-IsSide t sell b.asks m v.asks_side
matched-asks _ t m v = v.asks_side

find_node-parts :
    (j : OrderId) (xs ys zs : List BookOrder)
    → find_node j (xs ++ (ys ++ zs))
      ≡ first (find_node j xs) (first (find_node j ys) (find_node j zs))
find_node-parts j xs ys zs = rw (find_node-append j xs (ys ++ zs), find_node-append j ys zs)

copies-parts :
    (j : OrderId) (xs ys zs : List BookOrder)
    → copies j (xs ++ (ys ++ zs)) ≡ copies j xs + copies j ys + copies j zs
copies-parts j xs ys zs = omega (arith, copies-append j xs (ys ++ zs), copies-append j ys zs)

module _ (client_id : ClientId) (order_id : OrderId) (side : Side) (limit_price : Price)
    (has_limit : Bool) (leaves : Qty) (b : SymbolOrderBook) where
  abbrev t : Taker
  t = taker client_id order_id side limit_price has_limit b

  -- The pass over the orders within reach.
  abbrev pub pass : List BookOrder × Matching
  pass = match_orders t (reached side t b) (matching b leaves)

  abbrev after : SymbolOrderBook
  after = (match_incoming client_id order_id side limit_price has_limit leaves b).0

  module _ (v : IsValid b) where
    -- Matching is the pass over the orders within reach; all others stay where they are.
    pub resting-match_incoming : resting after ≡ in_front side b ++ (pass.0 ++ behind side t b)
    unfolding match_incoming
    resting-match_incoming =
        resting-matched side t b (match_levels t (levels (opposite side) b) (matching b leaves))
          pass.0 (pass_levels side t (matching b leaves) v).0

    state : (match_levels t (levels (opposite side) b) (matching b leaves)).1 ≡ pass.1
    state = (pass_levels side t (matching b leaves) v).1

    pub leaves-match_incoming :
        (match_incoming client_id order_id side limit_price has_limit leaves b).1
        ≡ pass.1.leaves_qty
    unfolding match_incoming
    leaves-match_incoming = ap (λ m. m.leaves_qty) state

    pub order_index-match_incoming : after.order_index ≡ pass.1.order_index
    unfolding match_incoming
    order_index-match_incoming = ap (λ m. m.order_index) state

    pub responses-match_incoming : after.responses ≡ pass.1.responses
    unfolding match_incoming
    responses-match_incoming = ap (λ m. m.responses) state

    pub updates-match_incoming : after.updates ≡ pass.1.updates
    unfolding match_incoming
    updates-match_incoming = ap (λ m. m.updates) state

    pub match_incoming-copies-le : (j : OrderId) → copies j (resting after) ≤ copies j (resting b)
    match_incoming-copies-le j = omega (
      arith,
      ap (copies j) (resting-parts side t b),
      copies-parts j (in_front side b) (reached side t b) (behind side t b),
      ap (copies j) resting-match_incoming,
      copies-parts j (in_front side b) pass.0 (behind side t b),
      match_orders-copies-le t (reached side t b) (matching b leaves) j,
    )

    -- An order out of reach stays; of one within reach the pass decides.
    pub find_node-match_incoming :
        (j : OrderId)
        → find_node j (resting after) ≡ (
            if copies j (reached side t b) == 0
            then find_node j (resting b)
            else find_node j pass.0)
    find_node-match_incoming j = ground (
      arith,
      v.unique j,
      ap (copies j) (resting-parts side t b),
      copies-parts j (in_front side b) (reached side t b) (behind side t b),
      match_orders-copies-le t (reached side t b) (matching b leaves) j,
      ap (find_node j) (resting-parts side t b),
      ap (find_node j) resting-match_incoming,
      find_node-parts j (in_front side b) (reached side t b) (behind side t b),
      find_node-parts j (in_front side b) pass.0 (behind side t b),
      find_node_absent j (in_front side b),
      find_node_absent j (reached side t b),
      find_node_absent j (behind side t b),
      find_node_absent j pass.0,
    )

    -- An order within reach is the one that a scan of the book finds.
    pub find_node-reached :
        (j : OrderId)
        → 0 < copies j (reached side t b)
        → find_node j (resting b) ≡ find_node j (reached side t b)
    find_node-reached j h = ground (
      arith,
      v.unique j,
      ap (copies j) (resting-parts side t b),
      copies-parts j (in_front side b) (reached side t b) (behind side t b),
      ap (find_node j) (resting-parts side t b),
      find_node-parts j (in_front side b) (reached side t b) (behind side t b),
      find_node_absent j (in_front side b),
      find_node_absent j (behind side t b),
    )

    pub reached_once : (j : OrderId) → copies j (reached side t b) ≤ 1
    reached_once j = omega (
      arith,
      v.unique j,
      ap (copies j) (resting-parts side t b),
      copies-parts j (in_front side b) (reached side t b) (behind side t b),
    )

    pub copies-reached-le : (j : OrderId) → copies j (reached side t b) ≤ copies j (resting b)
    copies-reached-le j = omega (
      arith,
      ap (copies j) (resting-parts side t b),
      copies-parts j (in_front side b) (reached side t b) (behind side t b),
    )

    -- What a follower of the pass sees is what the book holds.
    pub match_incoming-seen :
        {X : Type 0} (see : BookOrder → X) (j : OrderId) (old new : Option X)
        → old ≡ seen see (find_node j (resting b))
        → new ≡ (if copies j (reached side t b) == 0 then old else seen see (find_node j pass.0))
        → new ≡ seen see (find_node j (resting after))
    match_incoming-seen see j old new h k = elim (Bool-cases (copies j (reached side t b) == 0)) [
      | inl z ↦ k ∙ rw (z, find_node-match_incoming j, z) h
      | inr z ↦ k ∙ rw (z, find_node-match_incoming j, z)
    ]

    -- Matching keeps the book well-formed.
    pub match_incoming-IsValid : IsValid after
    match_incoming-IsValid = record {
      bids_side = unfold match_incoming in matched-bids side t (matching b leaves) v;
      asks_side = unfold match_incoming in matched-asks side t (matching b leaves) v;
      unique = λ j. omega (arith, match_incoming-copies-le j, v.unique j);
      indexed = λ j.
          match_incoming-seen place_of j (b.order_index j) (after.order_index j) (v.indexed j) (
            ap (λ f. f j) order_index-match_incoming
            ∙ match_orders-order_index j t (reached side t b) (matching b leaves) (reached_once j)
                (λ h. v.indexed j ∙ ap (seen place_of) (find_node-reached j h)));
    }
