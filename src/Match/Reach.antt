-- ===== src/Match/Reach.antt =====
-- Which orders an incoming order reaches, and what it gets of them.
use trading_matching_engine.Base.{
  ◌+◌, ◌-◌, ◌≡◌, refl, sym, ap, ◌∙◌, true, false, List, [], ◌∷◌, ◌++◌, arith, All, All-append,
  All-map, Bool-cases, inl, inr, Bool, not,
}
use trading_matching_engine.Types.{OrderId, ClientId, Qty, Price, Side, buy, sell, is_buy}
use trading_matching_engine.Book.{BookOrder, PriceLevel, SymbolOrderBook, levels, before}
use trading_matching_engine.Book.Nodes.{total_qty, total_qty-append}
use trading_matching_engine.Book.Levels.{flat, Fits, Above, IsSide}
use trading_matching_engine.Book.Valid.{resting, IsValid}
use trading_matching_engine.Match.{Taker, match_incoming, taker, opposite, matching, too_far}
use trading_matching_engine.Match.Orders.{match_orders, within, beyond, flat-within-beyond}
use trading_matching_engine.Match.Quantity.{
  supply, own, own-append, allot, trades, match_orders-leaves, match_orders-total_qty,
  match_orders-own, match_orders-trades,
}
use trading_matching_engine.Match.Book.{
  reached, in_front, behind, resting-parts, resting-match_incoming, leaves-match_incoming,
  updates-match_incoming,
}

too_far-before :
    (t : Taker) (side : Side) (p q : Price)
    → is_buy side ≡ not (is_buy t.side)
    → too_far t p ≡ true
    → before side p q ≡ true
    → too_far t q ≡ true
too_far-before t side p q e h k = ground arith

within-near :
    (t : Taker) (side : Side) (ls : List PriceLevel)
    → IsSide side ls
    → All (λ o. too_far t o.price ≡ false) (flat (within t ls))
unfolding within flat
within-near t side [] s = tt
within-near t side (l ∷ ls) s = elim (Bool-cases (too_far t l.price)) [
  | inl far ↦ rw far tt
  | inr near ↦ rw near (
      All-append (λ o. too_far t o.price ≡ false) l.orders (flat (within t ls))
        (All-map (Fits side l.price) (λ o. too_far t o.price ≡ false) l.orders
          (λ o f. ap (too_far t) f.at_price ∙ near) s.1)
        (within-near t side ls s.3))
]

All-far :
    (t : Taker) (side : Side) (p : Price) (ls : List PriceLevel)
    → is_buy side ≡ not (is_buy t.side)
    → too_far t p ≡ true
    → Above side p ls
    → IsSide side ls
    → All (λ o. too_far t o.price ≡ true) (flat ls)
unfolding flat
All-far t side p [] e far a s = tt
All-far t side p (l ∷ ls) e far a s =
    let here = too_far-before t side p l.price e far a.0 in
    All-append (λ o. too_far t o.price ≡ true) l.orders (flat ls)
      (All-map (Fits side l.price) (λ o. too_far t o.price ≡ true) l.orders
        (λ o f. ap (too_far t) f.at_price ∙ here) s.1)
      (All-far t side p ls e far a.1 s.3)

beyond-far :
    (t : Taker) (side : Side) (ls : List PriceLevel)
    → is_buy side ≡ not (is_buy t.side)
    → IsSide side ls
    → All (λ o. too_far t o.price ≡ true) (flat (beyond t ls))
unfolding beyond
beyond-far t side [] e s = unfold flat in tt
beyond-far t side (l ∷ ls) e s = elim (Bool-cases (too_far t l.price)) [
  | inl far ↦ rw far (
      unfold flat in
      All-append (λ o. too_far t o.price ≡ true) l.orders (flat ls)
        (All-map (Fits side l.price) (λ o. too_far t o.price ≡ true) l.orders
          (λ o f. ap (too_far t) f.at_price ∙ far) s.1)
        (All-far t side l.price ls e far s.2 s.3))
  | inr near ↦ rw near (beyond-far t side ls e s.3)
]

-- The opposite orders that an incoming order meets, and those that it does not.
abbrev pub opposite_orders : Side → SymbolOrderBook → List BookOrder
opposite_orders side b = flat (levels (opposite side) b)

abbrev pub unreached : Side → Taker → SymbolOrderBook → List BookOrder
unreached side t b = flat (beyond t (levels (opposite side) b))

-- In a well-formed book, the orders within reach of an incoming order are exactly those on the
-- opposite side that its limit allows, in priority order; the rest is too far.
pub reached-near :
    (t : Taker) {b : SymbolOrderBook}
    → IsValid b
    → All (λ o. too_far t o.price ≡ false) (reached t.side t b)
      × All (λ o. too_far t o.price ≡ true) (unreached t.side t b)
      × (reached t.side t b ++ unreached t.side t b ≡ opposite_orders t.side b)
reached-near t v = go t.side refl v
  where
    go :
        (side : Side)
        → is_buy t.side ≡ is_buy side
        → {b : SymbolOrderBook} → IsValid b
        → All (λ o. too_far t o.price ≡ false) (reached side t b)
          × All (λ o. too_far t o.price ≡ true) (unreached side t b)
          × (reached side t b ++ unreached side t b ≡ opposite_orders side b)
    go buy e {b} v = (
      within-near t sell b.asks v.asks_side,
      beyond-far t sell b.asks (ground arith) v.asks_side,
      flat-within-beyond t b.asks,
    )
    go _ e {b} v = (
      within-near t buy b.bids v.bids_side,
      beyond-far t buy b.bids (ground arith) v.bids_side,
      flat-within-beyond t b.bids,
    )

own-parts :
    (c : ClientId) (xs ys zs : List BookOrder)
    → own c (xs ++ (ys ++ zs)) ≡ own c xs ++ (own c ys ++ own c zs)
own-parts c xs ys zs = own-append c xs (ys ++ zs) ∙ ap (◌++◌ (own c xs)) (own-append c ys zs)

total-parts :
    (xs ys zs : List BookOrder)
    → total_qty (xs ++ (ys ++ zs)) ≡ total_qty xs + total_qty ys + total_qty zs
total-parts xs ys zs = omega (arith, total_qty-append xs (ys ++ zs), total_qty-append ys zs)

module _ (client_id : ClientId) (order_id : OrderId) (side : Side) (limit_price : Price)
    (has_limit : Bool) (leaves : Qty) {b : SymbolOrderBook} (v : IsValid b) where
  abbrev t : Taker
  t = taker client_id order_id side limit_price has_limit b

  abbrev result : SymbolOrderBook × Qty
  result = match_incoming client_id order_id side limit_price has_limit leaves b

  -- Matching a quantity against a well-formed book leaves of it what the orders of other clients
  -- within the limit do not cover, and 0 if they cover it.
  pub match_incoming-leaves : result.1 ≡ leaves - supply client_id (reached side t b)
  match_incoming-leaves =
      leaves-match_incoming client_id order_id side limit_price has_limit leaves b v
      ∙ match_orders-leaves t (reached side t b) (matching b leaves)

  -- Matching against a well-formed book conserves quantity: what the incoming order loses is what
  -- the resting orders lose together.
  pub match_incoming-total_qty :
      total_qty (resting result.0) + leaves ≡ total_qty (resting b) + result.1
  match_incoming-total_qty = omega (
    arith,
    ap total_qty (resting-parts side t b),
    ap total_qty (resting-match_incoming client_id order_id side limit_price has_limit leaves b v),
    total-parts (in_front side b) (reached side t b) (behind side t b),
    total-parts (in_front side b) (match_orders t (reached side t b) (matching b leaves)).0
        (behind side t b),
    match_orders-total_qty t (reached side t b) (matching b leaves),
    leaves-match_incoming client_id order_id side limit_price has_limit leaves b v,
  )

  -- Matching against a well-formed book leaves the resting orders of the incoming order's own
  -- client as they are, in their order: no client trades with itself.
  pub match_incoming-own : own client_id (resting result.0) ≡ own client_id (resting b)
  match_incoming-own =
      ap (own client_id)
        (resting-match_incoming client_id order_id side limit_price has_limit leaves b v)
      ∙ own-parts client_id (in_front side b)
          (match_orders t (reached side t b) (matching b leaves)).0 (behind side t b)
      ∙ ap (λ l. own client_id (in_front side b) ++ (l ++ own client_id (behind side t b)))
          (match_orders-own t (reached side t b) (matching b leaves))
      ∙ sym (own-parts client_id (in_front side b) (reached side t b) (behind side t b))
      ∙ ap (own client_id) (sym (resting-parts side t b))

  -- The trades that matching against a well-formed book reports are the incoming quantity shared
  -- out over the opposite orders within the limit, in price-time priority, each at its resting
  -- price and with as much as there is, the client's own orders being passed over.
  pub match_incoming-trades :
      trades result.0.updates ≡ trades b.updates ++ allot client_id leaves (reached side t b)
  match_incoming-trades =
      ap trades (updates-match_incoming client_id order_id side limit_price has_limit leaves b v)
      ∙ match_orders-trades t (reached side t b) (matching b leaves)
