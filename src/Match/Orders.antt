-- ===== src/Match/Orders.antt =====
-- The nested loops of `matchIncoming` and a single pass over the orders that the limit reaches,
-- best price first and oldest first within a price.
use trading_matching_engine.Base.{
  ◌≡◌, refl, sym, ap, ◌∙◌, List, [], ◌∷◌, ◌++◌, arith, ltb, if◌then◌else◌, All, Bool-cases, inl,
  inr, append_assoc,
}
use trading_matching_engine.Types.{Price, Side}
use trading_matching_engine.Book.{BookOrder, PriceLevel}
use trading_matching_engine.Book.Levels.{flat, flat-put_level, Fits, IsSide}
use trading_matching_engine.Match.{Taker, Matching, too_far, visit, match_level, match_levels}

-- The pass: each order is met at its own price.
unfoldable pub match_orders : Taker → List BookOrder → Matching → List BookOrder × Matching
match_orders t [] m = ([], m)
match_orders t (node ∷ next) m =
    let (kept, m') = visit t node.price node m in
    let (rest, m'') = match_orders t next m' in (kept ++ rest, m'')

-- The levels up to the first that is too far, and the levels from there on.
unfoldable pub within : Taker → List PriceLevel → List PriceLevel
within t [] = []
within t (l ∷ ls) = if too_far t l.price then [] else l ∷ within t ls

unfoldable pub beyond : Taker → List PriceLevel → List PriceLevel
beyond t [] = []
beyond t (l ∷ ls) = if too_far t l.price then l ∷ ls else beyond t ls

pub flat-within-beyond :
    (t : Taker) (ls : List PriceLevel) → flat (within t ls) ++ flat (beyond t ls) ≡ flat ls
unfolding within beyond flat
flat-within-beyond t [] = refl
flat-within-beyond t (l ∷ ls) = elim (Bool-cases (too_far t l.price)) [
  | inl e ↦ rw e
  | inr e ↦ rw e (
      append_assoc l.orders (flat (within t ls)) (flat (beyond t ls))
      ∙ ap (◌++◌ l.orders) (flat-within-beyond t ls))
]

visit_done :
    (t : Taker) (p : Price) (o : BookOrder) (m : Matching)
    → m.leaves_qty ≡ 0
    → visit t p o m ≡ (o ∷ [], m)
unfolding visit
visit_done t p o m h = ground arith

-- With nothing left the pass changes nothing.
pub match_orders_done :
    (t : Taker) (os : List BookOrder) (m : Matching)
    → m.leaves_qty ≡ 0
    → match_orders t os m ≡ (os, m)
unfolding match_orders
match_orders_done t [] m h = refl
match_orders_done t (o ∷ os) m h = rw (visit_done t o.price o m h, match_orders_done t os m h)

pub match_orders-append :
    (t : Taker) (xs ys : List BookOrder) (m : Matching)
    → match_orders t (xs ++ ys) m
      ≡ (let (a, m') = match_orders t xs m in let (b, m'') = match_orders t ys m' in (a ++ b, m''))
unfolding match_orders
match_orders-append t [] ys m = refl
match_orders-append t (x ∷ xs) ys m = rw (match_orders-append t xs ys (visit t x.price x m).1) (
    ap (λ l. (l, (match_orders t ys (match_orders t xs (visit t x.price x m).1).1).1))
      (sym (
        append_assoc (visit t x.price x m).0 (match_orders t xs (visit t x.price x m).1).0
          (match_orders t ys (match_orders t xs (visit t x.price x m).1).1).0)))

-- On the orders of one level both loops are the same.
match_level-orders :
    (t : Taker) (side : Side) (p : Price) (os : List BookOrder) (m : Matching)
    → All (Fits side p) os
    → match_level t p os m ≡ match_orders t os m
unfolding match_level match_orders
match_level-orders t side p [] m f = refl
match_level-orders t side p (o ∷ os) m f =
    ap (λ r. ((visit t p o m).0 ++ r.0, r.1)) (match_level-orders t side p os (visit t p o m).1 f.1)
    ∙ ap (λ q. after_visit (visit t q o m)) (sym f.0.at_price)
  where
    after_visit : List BookOrder × Matching → List BookOrder × Matching
    after_visit v = (v.0 ++ (match_orders t os v.1).0, (match_orders t os v.1).1)

-- On a well-formed side, the two nested loops over levels and nodes are one pass over the orders of
-- the levels within the limit: the same orders stay, in front of the levels beyond, and the same
-- state results.
pub match_levels-flat :
    (t : Taker) (side : Side) (ls : List PriceLevel) (m : Matching)
    → IsSide side ls
    → (flat (match_levels t ls m).0
        ≡ (match_orders t (flat (within t ls)) m).0 ++ flat (beyond t ls))
      × ((match_levels t ls m).1 ≡ (match_orders t (flat (within t ls)) m).1)
unfolding match_levels within beyond flat match_orders
match_levels-flat t side [] m s = (refl, refl)
match_levels-flat t side (l ∷ ls) m s = elim (Bool-cases (ltb 0 m.leaves_qty)) [
  | inl more ↦ elim (Bool-cases (too_far t l.price)) [
    | inl far ↦ rw (more, far) (refl, refl)
    | inr near ↦
        let level = match_level-orders t side l.price l.orders m s.1 in
        let m' = (match_orders t l.orders m).1 in
        let (orders, state) = match_levels-flat t side ls m' s.3 in
        rw (more, near, level, match_orders-append t l.orders (flat (within t ls)) m)
          (
            flat-put_level l.price (match_orders t l.orders m).0 (match_levels t ls m').0
                ∙ ap (◌++◌ (match_orders t l.orders m).0) orders
                ∙ sym (
                    append_assoc (match_orders t l.orders m).0
                      (match_orders t (flat (within t ls)) m').0 (flat (beyond t ls))),
            state,
          )
  ]
  | inr done ↦
      rw (done, match_orders_done t (flat (within t (l ∷ ls))) m (ground arith))
        (sym (flat-within-beyond t (l ∷ ls)), refl)
]
