-- ===== src/Book/Append.antt =====
-- `append_order` (the insertion of `restOrder`, order_book.cpp) on the levels of one side.
use trading_matching_engine.Base.{
  ◌+◌, ◌≡◌, refl, ◌⊎◌, ◌≢◌, true, false, List, [], ◌∷◌, ◌++◌, some, arith, ◌==◌, if◌then◌else◌, All,
  All-append, All-append_parts, inl, inr,
}
use trading_matching_engine.Base.Int.{eqb_ℤ, eqb_ℤ-true}
use trading_matching_engine.Types.{OrderId, Price, Side}
use trading_matching_engine.Book.{BookOrder, PriceLevel, before, find_node, append_order}
use trading_matching_engine.Book.Levels.{flat, Fits, Above, IsSide, Above-trans}
use trading_matching_engine.Book.Nodes.{
  copies, copies-append, find_node-append, find_node_absent, total_qty, total_qty-append,
}

-- Where an order goes with respect to a level: in front of it, into it, or behind it.
abbrev pub Spot : Side → Price → Price → Type 0
Spot side p q =
    (before side p q ≡ true)
    ⊎ ((before side p q ≡ false) × (eqb_ℤ q p ≡ true))
    ⊎ ((before side p q ≡ false) × (eqb_ℤ q p ≡ false) × (before side q p ≡ true))

pub spot : (side : Side) (p q : Price) → Spot side p q
spot side p q = ground arith

module _ (side : Side) (o : BookOrder) where
  append_order-Above :
      (q : Price) (ls : List PriceLevel)
      → before side q o.price ≡ true
      → Above side q ls
      → Above side q (append_order side o ls)
  unfolding append_order
  append_order-Above q [] h a = (h, tt)
  append_order-Above q (l ∷ ls) h a = elim (spot side o.price l.price) [
    | inl e ↦ rw e (h, a)
    | inr (inl (e, f)) ↦ rw (e, f) (a.0, a.1)
    | inr (inr (e, f, g)) ↦ rw (e, f) (a.0, append_order-Above q ls h a.1)
  ]

  append-ne_nil : (os : List BookOrder) → os ++ (o ∷ []) ≢ []
  append-ne_nil [] = λ e. cc
  append-ne_nil (x ∷ os) = λ e. cc

  pub append_order-IsSide :
      (ls : List PriceLevel)
      → Fits side o.price o
      → IsSide side ls
      → IsSide side (append_order side o ls)
  unfolding append_order
  append_order-IsSide [] fits s = (λ e. cc, (fits, tt), tt, tt)
  append_order-IsSide (l ∷ ls) fits s = elim (spot side o.price l.price) [
    | inl e ↦ rw e (λ e. cc, (fits, tt), (e, Above-trans side o.price l.price ls e s.2), s)
    | inr (inl (e, f)) ↦
        rw (e, f)
          (
            append-ne_nil l.orders,
            All-append (Fits side l.price) l.orders (o ∷ []) s.1
                (rw (eqb_ℤ-true l.price o.price f) fits, tt),
            s.2,
            s.3,
          )
    | inr (inr (e, f, g)) ↦
        rw (e, f) (s.0, s.1, append_order-Above l.price ls g s.2, append_order-IsSide ls fits s.3)
  ]

  -- The side holds the order, and what it held.
  pub copies-append_order :
      (j : OrderId) (ls : List PriceLevel)
      → copies j (flat (append_order side o ls)) ≡ copies j (o ∷ []) + copies j (flat ls)
  unfolding append_order flat
  copies-append_order j [] = ground (arith, copies-append j (o ∷ []) [])
  copies-append_order j (l ∷ ls) = elim (spot side o.price l.price) [
    | inl e ↦ rw e (copies-append j (o ∷ []) (l.orders ++ flat ls))
    | inr (inl (e, f)) ↦
        rw (e, f)
          (omega (
            arith,
            copies-append j (l.orders ++ (o ∷ [])) (flat ls),
            copies-append j l.orders (o ∷ []),
            copies-append j l.orders (flat ls),
          ))
    | inr (inr (e, f, g)) ↦
        rw (e, f)
          (omega (
            arith,
            copies-append j l.orders (flat (append_order side o ls)),
            copies-append j l.orders (flat ls),
            copies-append_order j ls,
          ))
  ]

  pub total_qty-append_order :
      (ls : List PriceLevel)
      → total_qty (flat (append_order side o ls)) ≡ o.qty + total_qty (flat ls)
  unfolding append_order flat total_qty
  total_qty-append_order [] = omega arith
  total_qty-append_order (l ∷ ls) = elim (spot side o.price l.price) [
    | inl e ↦ rw e (omega arith)
    | inr (inl (e, f)) ↦
        rw (e, f)
          (omega (
            arith,
            total_qty-append (l.orders ++ (o ∷ [])) (flat ls),
            total_qty-append l.orders (o ∷ []),
            total_qty-append l.orders (flat ls),
          ))
    | inr (inr (e, f, g)) ↦
        rw (e, f)
          (omega (
            arith,
            total_qty-append l.orders (flat (append_order side o ls)),
            total_qty-append l.orders (flat ls),
            total_qty-append_order ls,
          ))
  ]

  pub append_order-All {ℓ} :
      (P : BookOrder → Type ℓ) (ls : List PriceLevel)
      → P o
      → All P (flat ls)
      → All P (flat (append_order side o ls))
  unfolding append_order flat
  append_order-All P [] h a = (h, tt)
  append_order-All P (l ∷ ls) h a =
      let (x, y) = All-append_parts P l.orders (flat ls) a in
      elim (spot side o.price l.price) [
        | inl e ↦ rw e (h, a)
        | inr (inl (e, f)) ↦
            rw (e, f)
              (All-append P (l.orders ++ (o ∷ [])) (flat ls)
                (All-append P l.orders (o ∷ []) x (h, tt)) y)
        | inr (inr (e, f, g)) ↦ rw (e, f) (All-append P l.orders _ x (append_order-All P ls h y))
      ]

  -- A look-up finds the new order under its id, if the id is new, and all else as before.
  pub find_node-append_order :
      (j : OrderId) (ls : List PriceLevel)
      → copies o.order_id (flat ls) ≡ 0
      → find_node j (flat (append_order side o ls))
        ≡ (if o.order_id == j then some o else find_node j (flat ls))
  unfolding append_order flat find_node
  find_node-append_order j [] h = refl
  find_node-append_order j (l ∷ ls) h =
      let parts = copies-append o.order_id l.orders (flat ls) in
      elim (spot side o.price l.price) [
        | inl e ↦ rw e
        | inr (inl (e, f)) ↦
            rw (e, f)
              (ground (
                arith,
                find_node-append j (l.orders ++ (o ∷ [])) (flat ls),
                find_node-append j l.orders (o ∷ []),
                find_node-append j l.orders (flat ls),
                find_node_absent j l.orders,
              ))
        | inr (inr (e, f, g)) ↦
            rw (e, f)
              (ground (
                arith,
                find_node-append j l.orders (flat (append_order side o ls)),
                find_node-append j l.orders (flat ls),
                find_node_absent j l.orders,
                find_node-append_order j ls,
              ))
      ]
