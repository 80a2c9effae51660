-- ===== src/Book/Levels.antt =====
-- A side of the book: its levels in the order of the map, none of them empty, each order under
-- its own price and side. What the maintenance functions do to the orders of the side, read in
-- priority order.
use trading_matching_engine.Base.{
  ◌<◌, ◌≡◌, refl, sym, ap, ◌∙◌, ◌⊎◌, ◌≢◌, true, false, List, [], ◌∷◌, ◌++◌, Option, none, some,
  arith, All, Bool-cases, inl, inr,
}
use trading_matching_engine.Base.Int.{eqb_ℤ, eqb_ℤ_refl}
use trading_matching_engine.Types.{OrderId, Qty, Price, Side, is_buy}
use trading_matching_engine.Book.{
  BookOrder, PriceLevel, before, find_level, find_node, put_level, unlink, unlink_order, set_node,
  set_order,
}
use trading_matching_engine.Book.Nodes.{
  find_node-append_cases, copies_of_none, copies_of_some, find_node-All, unlink-append_left,
  unlink-append_right, set_node-append_left, set_node-append_right, unlink-All,
}

-- The orders of a side, in the order in which they are met.
unfoldable pub flat : List PriceLevel → List BookOrder
flat [] = []
flat (l ∷ ls) = l.orders ++ flat ls

pub record Fits (side : Side) (p : Price) (o : BookOrder) : Type 0 where
  pub at_price : o.price ≡ p
  pub on_side : is_buy o.side ≡ is_buy side
  pub live : 0 < o.qty

abbrev pub Above : Side → Price → List PriceLevel → Type 0
Above side p = All (λ l. before side p l.price ≡ true)

abbrev pub IsSide : Side → List PriceLevel → Type 0
IsSide side [] = Unit {0}
IsSide side (l ∷ ls) =
    (l.orders ≢ []) × All (Fits side l.price) l.orders × Above side l.price ls × IsSide side ls

pub before_trans :
    (side : Side) (p q r : Price)
    → before side p q ≡ true
    → before side q r ≡ true
    → before side p r ≡ true
before_trans side p q r h k = ground arith

pub before-ne : (side : Side) (p q : Price) → before side p q ≡ true → eqb_ℤ p q ≡ false
before-ne side p q h = ground arith

pub Above-trans :
    (side : Side) (p q : Price) (ls : List PriceLevel)
    → before side p q ≡ true
    → Above side q ls
    → Above side p ls
Above-trans side p q [] h a = tt
Above-trans side p q (l ∷ ls) h a =
    (before_trans side p q l.price h a.0, Above-trans side p q ls h a.1)

pub flat-put_level :
    (p : Price) (os : List BookOrder) (ls : List PriceLevel)
    → flat (put_level p os ls) ≡ os ++ flat ls
unfolding flat
flat-put_level p [] ls = refl
flat-put_level p (o ∷ os) ls = refl

pub put_level-IsSide :
    (side : Side) (p : Price) (os : List BookOrder) (ls : List PriceLevel)
    → All (Fits side p) os
    → Above side p ls
    → IsSide side ls
    → IsSide side (put_level p os ls)
put_level-IsSide side p [] ls f a s = s
put_level-IsSide side p (o ∷ os) ls f a s = (λ e. cc, f, a, s)

pub put_level-Above :
    (side : Side) (q p : Price) (os : List BookOrder) (ls : List PriceLevel)
    → before side q p ≡ true
    → Above side q ls
    → Above side q (put_level p os ls)
put_level-Above side q p [] ls h a = a
put_level-Above side q p (o ∷ os) ls h a = (h, a)

-- An order of the levels above a price has a price above it.
find-Above :
    (side : Side) (p : Price) (id : OrderId) (ls : List PriceLevel) {o : BookOrder}
    → Above side p ls
    → IsSide side ls
    → find_node id (flat ls) ≡ some o
    → before side p o.price ≡ true
unfolding flat find_node
find-Above side p id [] a s h = cc
find-Above side p id (l ∷ ls) {o} a s h = elim (find_node-append_cases id l.orders (flat ls) h) [
  | inl here ↦ rw (find_node-All (Fits side l.price) id l.orders here s.1).at_price a.0
  | inr later ↦ find-Above side p id ls a.1 s.3 later.1
]

-- The level at the price of an order of the side holds that order.
abbrev pub node_at : Price → OrderId → List PriceLevel → Option BookOrder
node_at p id ls = elim (find_level p ls) [ none ↦ none | some l ↦ find_node id l.orders ]

module _ (side : Side) (id : OrderId) where
  -- How an order of a side is found: in the first level, or above it.
  abbrev Found : BookOrder → PriceLevel → List PriceLevel → Type 0
  Found o l ls =
      ((eqb_ℤ l.price o.price ≡ true) × (find_node id l.orders ≡ some o))
      ⊎ ((eqb_ℤ l.price o.price ≡ false)
          × (find_node id l.orders ≡ none)
          × (find_node id (flat ls) ≡ some o))

  found :
      (l : PriceLevel) (ls : List PriceLevel) {o : BookOrder}
      → IsSide side (l ∷ ls)
      → find_node id (flat (l ∷ ls)) ≡ some o
      → Found o l ls
  unfolding flat
  found l ls {o} s h = elim (find_node-append_cases id l.orders (flat ls) h) [
    | inl here ↦ inl (
      rw (find_node-All (Fits side l.price) id l.orders here s.1).at_price (eqb_ℤ_refl l.price),
      here,
    )
    | inr (gone, later) ↦
        inr (
          before-ne side l.price o.price (find-Above side l.price id ls s.2 s.3 later),
          gone,
          later,
        )
  ]

  pub node_at-flat :
      (ls : List PriceLevel) {o : BookOrder}
      → IsSide side ls
      → find_node id (flat ls) ≡ some o
      → node_at o.price id ls ≡ some o
  unfolding find_level
  node_at-flat [] s h = unfold flat find_node in cc
  node_at-flat (l ∷ ls) {o} s h = elim (found l ls s h) [
    | inl (e, here) ↦ rw (node_at, e) here
    | inr (e, gone, later) ↦ rw (node_at, e) (node_at-flat ls s.3 later)
  ]

  -- To unlink an order from its level is to unlink it from the whole side.
  pub flat-unlink_order :
      (ls : List PriceLevel) {o : BookOrder}
      → IsSide side ls
      → find_node id (flat ls) ≡ some o
      → flat (unlink_order o.price id ls) ≡ unlink id (flat ls)
  unfolding unlink_order flat
  flat-unlink_order [] s h = unfold flat find_node in cc
  flat-unlink_order (l ∷ ls) {o} s h = elim (found l ls s h) [
    | inl (e, here) ↦
        rw (e, flat-put_level l.price (unlink id l.orders) ls)
          (sym (unlink-append_left id l.orders (flat ls) (copies_of_some id l.orders o here)))
    | inr (e, gone, later) ↦ rw e (
        ap (◌++◌ l.orders) (flat-unlink_order ls s.3 later)
        ∙ sym (unlink-append_right id l.orders (flat ls) (copies_of_none id l.orders gone)))
  ]

  pub flat-set_order :
      (q : Qty) (ls : List PriceLevel) {o : BookOrder}
      → IsSide side ls
      → find_node id (flat ls) ≡ some o
      → flat (set_order o.price id q ls) ≡ set_node id q (flat ls)
  unfolding set_order flat
  flat-set_order q [] s h = unfold flat find_node in cc
  flat-set_order q (l ∷ ls) {o} s h = elim (found l ls s h) [
    | inl (e, here) ↦
        rw e
          (sym (set_node-append_left id q l.orders (flat ls) (copies_of_some id l.orders o here)))
    | inr (e, gone, later) ↦ rw e (
        ap (◌++◌ l.orders) (flat-set_order q ls s.3 later)
        ∙ sym (set_node-append_right id q l.orders (flat ls) (copies_of_none id l.orders gone)))
  ]

module _ (side : Side) (p : Price) (id : OrderId) where
  unlink_order-Above :
      (q : Price) (ls : List PriceLevel) → Above side q ls → Above side q (unlink_order p id ls)
  unfolding unlink_order
  unlink_order-Above q [] a = tt
  unlink_order-Above q (l ∷ ls) a = elim (Bool-cases (eqb_ℤ l.price p)) [
    | inl e ↦ rw e (put_level-Above side q l.price (unlink id l.orders) ls a.0 a.1)
    | inr e ↦ rw e (a.0, unlink_order-Above q ls a.1)
  ]

  pub unlink_order-IsSide :
      (ls : List PriceLevel) → IsSide side ls → IsSide side (unlink_order p id ls)
  unfolding unlink_order
  unlink_order-IsSide [] s = tt
  unlink_order-IsSide (l ∷ ls) s = elim (Bool-cases (eqb_ℤ l.price p)) [
    | inl e ↦ rw e (
        put_level-IsSide side l.price (unlink id l.orders) ls
          (unlink-All (Fits side l.price) id l.orders s.1) s.2 s.3)
    | inr e ↦ rw e (s.0, s.1, unlink_order-Above l.price ls s.2, unlink_order-IsSide ls s.3)
  ]

  module _ (q : Qty) where
    set_node-Fits :
        (level : Price) (os : List BookOrder)
        → 0 < q
        → All (Fits side level) os
        → All (Fits side level) (set_node id q os)
    unfolding set_node
    set_node-Fits level [] h f = tt
    set_node-Fits level (o ∷ os) h f = ground (arith, set_node-Fits level os h f.1)

    set_order-Above :
        (r : Price) (ls : List PriceLevel) → Above side r ls → Above side r (set_order p id q ls)
    unfolding set_order
    set_order-Above r [] a = tt
    set_order-Above r (l ∷ ls) a = ground (arith, set_order-Above r ls a.1)

    set_node-ne_nil : (os : List BookOrder) → os ≢ [] → set_node id q os ≢ []
    unfolding set_node
    set_node-ne_nil [] h = absurd (h refl)
    set_node-ne_nil (o ∷ os) h = ground arith

    pub set_order-IsSide :
        (ls : List PriceLevel) → 0 < q → IsSide side ls → IsSide side (set_order p id q ls)
    unfolding set_order
    set_order-IsSide [] h s = tt
    set_order-IsSide (l ∷ ls) h s = elim (Bool-cases (eqb_ℤ l.price p)) [
      | inl e ↦ rw e (set_node-ne_nil l.orders s.0, set_node-Fits l.price l.orders h s.1, s.2, s.3)
      | inr e ↦ rw e (s.0, s.1, set_order-Above l.price ls s.2, set_order-IsSide ls h s.3)
    ]
