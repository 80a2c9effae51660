-- ===== src/Match/Uncrossed.antt =====
-- Books in which bids and asks that could trade belong to one client, and what `matchIncoming` and
-- `restOrder` do to such a book.
use trading_matching_engine.Base.{
  Bool, ◌<◌, ◌≡◌, refl, sym, subst, ◌⊎◌, true, List, [], ◌∷◌, ◌++◌, arith, All, All-append,
  All-append_parts, All-map, inl, inr,
}
use trading_matching_engine.Base.Int.{ltb_ℤ}
use trading_matching_engine.Types.{
  OrderId, ClientId, OrderType, Nanos, Qty, Price, Side, Symbol, buy, sell, is_buy,
}
use trading_matching_engine.Book.{
  BookOrder, PriceLevel, SymbolOrderBook, levels, rest_order, new_book,
}
use trading_matching_engine.Book.Levels.{flat}
use trading_matching_engine.Book.Append.{append_order-All}
use trading_matching_engine.Book.Valid.{IsValid}
use trading_matching_engine.Match.{
  Taker, Matching, match_incoming, match_levels, matched, taker, opposite, matching, too_far,
}
use trading_matching_engine.Match.Orders.{
  match_orders, within, beyond, flat-within-beyond, match_levels-flat,
}
use trading_matching_engine.Match.Quantity.{match_orders-spent}
use trading_matching_engine.Match.Survivors.{match_orders-All}
use trading_matching_engine.Match.Reach.{opposite_orders, unreached, reached-near}
use trading_matching_engine.Match.Book.{reached, leaves-match_incoming}

-- A bid and an ask that cannot trade: the bid is lower, or both are of one client.
abbrev pub Apart : Price → ClientId → Price → ClientId → Type 0
Apart p c q d = (ltb_ℤ p q ≡ true) ⊎ (c ≡ d)

abbrev pub IsUncrossed : SymbolOrderBook → Type 0
IsUncrossed b =
    All (λ x. All (λ y. Apart x.price x.client_id y.price y.client_id) (flat b.asks)) (flat b.bids)

-- Every price and client of one list is also in the other.
abbrev pub Covers : List BookOrder → List BookOrder → Type 1
Covers xs ys =
    (Q : Price → ClientId → Type 0)
    → All (λ o. Q o.price o.client_id) ys
    → All (λ o. Q o.price o.client_id) xs

pub Covers-IsUncrossed :
    (b b' : SymbolOrderBook)
    → Covers (flat b'.bids) (flat b.bids)
    → Covers (flat b'.asks) (flat b.asks)
    → IsUncrossed b
    → IsUncrossed b'
Covers-IsUncrossed b b' bids asks u =
    All-map (λ x. All (λ y. Apart x.price x.client_id y.price y.client_id) (flat b.asks))
      (λ x. All (λ y. Apart x.price x.client_id y.price y.client_id) (flat b'.asks)) (flat b'.bids)
      (λ x h. asks (λ q d. Apart x.price x.client_id q d) h)
      (bids (λ p c. All (λ y. Apart p c y.price y.client_id) (flat b.asks)) u)

-- The survivors of a pass, with the orders beyond, are covered by what there was.
pass-Covers :
    (t : Taker) (ls : List PriceLevel) (m : Matching)
    → Covers ((match_orders t (flat (within t ls)) m).0 ++ flat (beyond t ls)) (flat ls)
pass-Covers t ls m Q h =
    let P = λ (o : BookOrder). Q o.price o.client_id in
    let (near, far) =
      All-append_parts P (flat (within t ls)) (flat (beyond t ls))
        (subst (All P) (sym (flat-within-beyond t ls)) h) in
    All-append P (match_orders t (flat (within t ls)) m).0 (flat (beyond t ls))
      (match_orders-All P (λ o q live k. k) t (flat (within t ls)) m near) far

matched-Covers :
    (side : Side) (t : Taker) (m : Matching) {b : SymbolOrderBook}
    → IsValid b
    → let b' = matched side b (match_levels t (levels (opposite side) b) m) in
      Covers (flat b'.bids) (flat b.bids) × Covers (flat b'.asks) (flat b.asks)
matched-Covers buy t m {b} v = (
  λ Q h. h,
  λ Q h.
      subst (All (λ o. Q o.price o.client_id))
        (sym (match_levels-flat t sell b.asks m v.asks_side).0) (pass-Covers t b.asks m Q h),
)
matched-Covers _ t m {b} v = (
  λ Q h.
      subst (All (λ o. Q o.price o.client_id))
        (sym (match_levels-flat t buy b.bids m v.bids_side).0) (pass-Covers t b.bids m Q h),
  λ Q h. h,
)

-- How an order of a side, price and client stands to one on the other side.
abbrev pub Faces : Side → Price → ClientId → BookOrder → Type 0
Faces buy p c y = Apart p c y.price y.client_id
Faces _ p c x = Apart x.price x.client_id p c

Faces-far :
    (side : Side) (t : Taker) (o : BookOrder)
    → is_buy t.side ≡ is_buy side
    → t.has_limit_price ≡ true
    → too_far t o.price ≡ true
    → Faces side t.limit_price t.client_id o
Faces-far buy t o e l far = inl (ground arith)
Faces-far _ t o e l far = inl (ground arith)

Faces-own :
    (side : Side) (p : Price) (c : ClientId) (o : BookOrder) → o.client_id ≡ c → Faces side p c o
Faces-own buy p c o e = inr (sym e)
Faces-own _ p c o e = inr e

opposite_orders-matched :
    (side : Side) (t : Taker) (m : Matching) {b : SymbolOrderBook}
    → IsValid b
    → opposite_orders side (matched side b (match_levels t (levels (opposite side) b) m))
      ≡ (match_orders t (reached side t b) m).0 ++ unreached side t b
opposite_orders-matched buy t m {b} v = (match_levels-flat t sell b.asks m v.asks_side).0
opposite_orders-matched _ t m {b} v = (match_levels-flat t buy b.bids m v.bids_side).0

module _ (client_id : ClientId) (order_id : OrderId) (side : Side) (price : Price) (qty : Qty)
    {b : SymbolOrderBook} (v : IsValid b) where
  abbrev t : Taker
  t = taker client_id order_id side price true b

  -- If a limit order is not filled by a well-formed book, every order that stays on the opposite
  -- side is at a price that its limit excludes, or belongs to its own client.
  pub match_incoming-Faces :
      0 < (match_incoming client_id order_id side price true qty b).1
      → All
          (Faces side price client_id)
          (opposite_orders side (match_incoming client_id order_id side price true qty b).0)
  unfolding match_incoming
  match_incoming-Faces h =
      let spent =
        match_orders-spent t (reached side t b) (matching b qty) (
          subst (λ n. 0 < n) (leaves-match_incoming client_id order_id side price true qty b v)
            h) in
      let (near, far, all) = reached-near t v in
      subst (All (Faces side price client_id))
        (sym (opposite_orders-matched side t (matching b qty) v))
        (All-append (Faces side price client_id)
          (match_orders t (reached side t b) (matching b qty)).0 (unreached side t b)
          (All-map (λ o. o.client_id ≡ client_id) (Faces side price client_id) _
            (Faces-own side price client_id) spent)
          (All-map (λ o. too_far t o.price ≡ true) (Faces side price client_id) (unreached side t b)
            (λ o. Faces-far side t o refl refl) far))

pub match_incoming-IsUncrossed :
    (client_id : ClientId) (order_id : OrderId) (side : Side) (price : Price) (has_limit : Bool)
    (qty : Qty) {b : SymbolOrderBook}
    → IsValid b
    → IsUncrossed b
    → IsUncrossed (match_incoming client_id order_id side price has_limit qty b).0
unfolding match_incoming
match_incoming-IsUncrossed client_id order_id side price has_limit qty {b} v u =
    let t = taker client_id order_id side price has_limit b in
    let (bids, asks) = matched-Covers side t (matching b qty) v in
    Covers-IsUncrossed b
      (matched side b (match_levels t (levels (opposite side) b) (matching b qty))) bids asks u

All-zip {ℓ κ} :
    (P : BookOrder → Type ℓ) (Q : BookOrder → Type κ) (xs : List BookOrder)
    → All P xs
    → All Q xs
    → All (λ x. P x × Q x) xs
All-zip P Q [] p q = tt
All-zip P Q (x ∷ xs) p q = ((p.0, q.0), All-zip P Q xs p.1 q.1)

-- An order that faces only its own client's orders may rest.
pub rest_order-IsUncrossed :
    (client_id : ClientId) (order_id : OrderId) (order_type : OrderType) (side : Side)
    (price : Price) (original_qty qty : Qty) (now : Nanos) (b : SymbolOrderBook)
    → All (Faces side price client_id) (opposite_orders side b)
    → IsUncrossed b
    → IsUncrossed (rest_order client_id order_id order_type side price original_qty qty now b)
unfolding rest_order
rest_order-IsUncrossed client_id order_id order_type buy price original_qty qty now b f u =
    append_order-All buy _
      (λ x. All (λ y. Apart x.price x.client_id y.price y.client_id) (flat b.asks)) b.bids f u
rest_order-IsUncrossed client_id order_id order_type side price original_qty qty now b f u =
    All-map
      (λ x.
        Apart x.price x.client_id price client_id
        × All (λ y. Apart x.price x.client_id y.price y.client_id) (flat b.asks))
      _ (flat b.bids)
      (λ x h.
        append_order-All side _ (λ y. Apart x.price x.client_id y.price y.client_id) b.asks h.0 h.1)
      (All-zip (λ x. Apart x.price x.client_id price client_id)
        (λ x. All (λ y. Apart x.price x.client_id y.price y.client_id) (flat b.asks)) (flat b.bids)
        f u)

pub new_book-IsUncrossed : (s : Symbol) → IsUncrossed (new_book s)
unfolding new_book flat
new_book-IsUncrossed s = tt
