-- ===== src/Book/Priority.antt =====
-- Price-time priority: where `append_order` puts an order among those of its side.
use trading_matching_engine.Base.{
  ◌≡◌, refl, sym, ap, subst, ◌∙◌, true, false, List, [], ◌∷◌, ◌++◌, append_assoc, All, All-append,
  All-map, inl, inr,
}
use trading_matching_engine.Base.Int.{eqb_ℤ-true}
use trading_matching_engine.Types.{Price, Side}
use trading_matching_engine.Book.{BookOrder, PriceLevel, before, append_order}
use trading_matching_engine.Book.Levels.{flat, Fits, Above, IsSide, Above-trans}
use trading_matching_engine.Book.Append.{spot}

All-before :
    (side : Side) (p : Price) (ls : List PriceLevel)
    → Above side p ls
    → IsSide side ls
    → All (λ y. before side p y.price ≡ true) (flat ls)
unfolding flat
All-before side p [] a s = tt
All-before side p (l ∷ ls) a s =
    All-append (λ y. before side p y.price ≡ true) l.orders (flat ls)
      (All-map (Fits side l.price) (λ y. before side p y.price ≡ true) l.orders
        (λ y f. ap (before side p) f.at_price ∙ a.0) s.1)
      (All-before side p ls a.1 s.3)

none-before :
    (side : Side) (p : Price) (l : PriceLevel)
    → All (Fits side l.price) l.orders
    → before side p l.price ≡ false
    → All (λ x. before side p x.price ≡ false) l.orders
none-before side p l f e =
    All-map (Fits side l.price) (λ x. before side p x.price ≡ false) l.orders
      (λ x g. ap (before side p) g.at_price ∙ e) f

-- A list is another one with an order put in: behind all that are at its price or a better one,
-- in front of all at a worse price.
abbrev pub IsPlaced : Side → BookOrder → List BookOrder → List BookOrder → Type 0
IsPlaced side o olds news =
    (xs : List BookOrder) × (ys : List BookOrder) × (olds ≡ xs ++ ys)
    × (news ≡ xs ++ (o ∷ ys))
    × All (λ x. before side o.price x.price ≡ false) xs
    × All (λ y. before side o.price y.price ≡ true) ys

-- On a well-formed side, a new order goes behind every order of its side at its price or a better
-- one, and in front of every order at a worse price; the others keep their order.
pub append_order-priority :
    (side : Side) (o : BookOrder) (ls : List PriceLevel)
    → IsSide side ls
    → IsPlaced side o (flat ls) (flat (append_order side o ls))
unfolding append_order flat
append_order-priority side o [] s = ([], [], refl, refl, tt, tt)
append_order-priority side o (l ∷ ls) s = elim (spot side o.price l.price) [
  | inl front ↦ rw front (
    [],
    l.orders ++ flat ls,
    refl,
    refl,
    tt,
    unfold flat in
        All-before side o.price (l ∷ ls) (front, Above-trans side o.price l.price ls front s.2) s,
  )
  | inr (inl (behind, same)) ↦
      rw (behind, same)
        (
          l.orders,
          flat ls,
          refl,
          append_assoc l.orders (o ∷ []) (flat ls),
          none-before side o.price l s.1 behind,
          All-before side o.price ls
              (subst (λ q. Above side q ls) (eqb_ℤ-true l.price o.price same) s.2) s.3,
        )
  | inr (inr (behind, other, after)) ↦
      let (xs, ys, old, new, better, worse) = append_order-priority side o ls s.3 in
      rw (behind, other)
        (
          l.orders ++ xs,
          ys,
          ap (◌++◌ l.orders) old ∙ sym (append_assoc l.orders xs ys),
          ap (◌++◌ l.orders) new ∙ sym (append_assoc l.orders xs (o ∷ ys)),
          All-append (λ x. before side o.price x.price ≡ false) l.orders xs
              (none-before side o.price l s.1 behind) better,
          worse,
        )
]
