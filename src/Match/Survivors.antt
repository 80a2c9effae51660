-- ===== src/Match/Survivors.antt =====
-- The orders that a matching pass leaves: which ids, and what stays true of them.
use trading_matching_engine.Base.{
  ◌-◌, ◌≤◌, ◌<◌, not, ◌&&◌, min, ltb, ◌==◌, Bool-cases, inl, inr, List, [], ◌∷◌, arith, All,
  All-append,
}
use trading_matching_engine.Types.{OrderId, Qty, Price, Side}
use trading_matching_engine.Book.{BookOrder, PriceLevel}
use trading_matching_engine.Book.Nodes.{copies, copies-append}
use trading_matching_engine.Book.Levels.{Fits, Above, IsSide, put_level-IsSide, put_level-Above}
use trading_matching_engine.Match.{Taker, Matching, too_far, visit, match_level, match_levels}
use trading_matching_engine.Match.Orders.{match_orders}

pub visit-copies-le :
    (t : Taker) (p : Price) (o : BookOrder) (m : Matching) (j : OrderId)
    → copies j (visit t p o m).0 ≤ copies j (o ∷ [])
unfolding visit copies
visit-copies-le t p o m j = ground arith

-- No id comes up more often than before.
pub match_orders-copies-le :
    (t : Taker) (os : List BookOrder) (m : Matching) (j : OrderId)
    → copies j (match_orders t os m).0 ≤ copies j os
unfolding match_orders
match_orders-copies-le t [] m j = omega arith
match_orders-copies-le t (o ∷ os) m j =
    let m' = (visit t o.price o m).1 in
    omega (
      arith,
      copies-append j (visit t o.price o m).0 (match_orders t os m').0,
      copies-append j (o ∷ []) os,
      visit-copies-le t o.price o m j,
      match_orders-copies-le t os m' j,
    )

-- What does not depend on the quantity, as long as it is positive, stays true.
module _ {ℓ} (P : BookOrder → Type ℓ)
    (stable : (o : BookOrder) (q : Qty) → 0 < q → P o → P (record o { qty = q })) where
  visit-All : (t : Taker) (p : Price) (o : BookOrder) (m : Matching) → P o → All P (visit t p o m).0
  unfolding visit
  visit-All t p o m h = elim (Bool-cases (not (o.client_id == t.client_id) && ltb 0 m.leaves_qty)) [
    | inl e ↦ elim (Bool-cases (o.qty - min m.leaves_qty o.qty == 0)) [
      | inl f ↦ rw (e, f) tt
      | inr f ↦ rw (e, f) (stable o (o.qty - min m.leaves_qty o.qty) (ground arith) h, tt)
    ]
    | inr e ↦ rw e (h, tt)
  ]

  pub match_level-All :
      (t : Taker) (p : Price) (os : List BookOrder) (m : Matching)
      → All P os
      → All P (match_level t p os m).0
  unfolding match_level
  match_level-All t p [] m h = tt
  match_level-All t p (o ∷ os) m h =
      All-append P (visit t p o m).0 (match_level t p os (visit t p o m).1).0
        (visit-All t p o m h.0) (match_level-All t p os (visit t p o m).1 h.1)

  pub match_orders-All :
      (t : Taker) (os : List BookOrder) (m : Matching) → All P os → All P (match_orders t os m).0
  unfolding match_orders
  match_orders-All t [] m h = tt
  match_orders-All t (o ∷ os) m h =
      All-append P (visit t o.price o m).0 (match_orders t os (visit t o.price o m).1).0
        (visit-All t o.price o m h.0) (match_orders-All t os (visit t o.price o m).1 h.1)

pub Fits-stable :
    (side : Side) (p : Price) (o : BookOrder) (q : Qty)
    → 0 < q
    → Fits side p o
    → Fits side p (record o { qty = q })
Fits-stable side p o q h f = record { at_price = f.at_price; on_side = f.on_side; live = h }

match_levels-Above :
    (t : Taker) (side : Side) (q : Price) (ls : List PriceLevel) (m : Matching)
    → Above side q ls
    → Above side q (match_levels t ls m).0
unfolding match_levels
match_levels-Above t side q [] m a = tt
match_levels-Above t side q (l ∷ ls) m a =
    elim (Bool-cases (ltb 0 m.leaves_qty && not (too_far t l.price))) [
      | inl e ↦
          let m' = (match_level t l.price l.orders m).1 in
          rw e (
            put_level-Above side q l.price (match_level t l.price l.orders m).0
              (match_levels t ls m').0 a.0 (match_levels-Above t side q ls m' a.1))
      | inr e ↦ rw e a
    ]

-- The levels that stay make a side of the book.
pub match_levels-IsSide :
    (t : Taker) (side : Side) (ls : List PriceLevel) (m : Matching)
    → IsSide side ls
    → IsSide side (match_levels t ls m).0
unfolding match_levels
match_levels-IsSide t side [] m s = tt
match_levels-IsSide t side (l ∷ ls) m s =
    elim (Bool-cases (ltb 0 m.leaves_qty && not (too_far t l.price))) [
      | inl e ↦
          let m' = (match_level t l.price l.orders m).1 in
          rw e (
            put_level-IsSide side l.price (match_level t l.price l.orders m).0
              (match_levels t ls m').0
              (match_level-All (Fits side l.price) (Fits-stable side l.price) t l.price l.orders m
                s.1)
              (match_levels-Above t side l.price ls m' s.2) (match_levels-IsSide t side ls m' s.3))
      | inr e ↦ rw e s
    ]
