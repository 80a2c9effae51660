-- ===== src/Tests/Sorting.antt =====
-- An insertion sort by receive time, as a function that has the laws of the sequencer's sort.
use trading_matching_engine.Base.{
  ◌≡◌, refl, false, Bool, List, [], ◌∷◌, arith, if◌then◌else◌, All, All-map, Bool-cases, inl, inr,
}
use trading_matching_engine.Base.Int.{ltb_ℤ}
use trading_matching_engine.Messages.{EngineOrderRequest}
use trading_matching_engine.Sequencer.Order.{count, IsSorted, SortLaws}

unfoldable pub place : EngineOrderRequest → List EngineOrderRequest → List EngineOrderRequest
place r [] = r ∷ []
place r (x ∷ xs) =
    let rest = place r xs in if ltb_ℤ x.recv_time r.recv_time then x ∷ rest else r ∷ x ∷ xs

unfoldable pub insertion_sort : List EngineOrderRequest → List EngineOrderRequest
unfolding place
insertion_sort [] = []
insertion_sort (r ∷ rs) = place r (insertion_sort rs)

place-All :
    (P : EngineOrderRequest → Type 0) (r : EngineOrderRequest) (xs : List EngineOrderRequest)
    → P r
    → All P xs
    → All P (place r xs)
unfolding place
place-All P r [] h a = (h, tt)
place-All P r (x ∷ xs) h a = elim (Bool-cases (ltb_ℤ x.recv_time r.recv_time)) [
  | inl e ↦ rw e (a.0, place-All P r xs h a.1)
  | inr e ↦ rw e (h, a)
]

place-IsSorted :
    (r : EngineOrderRequest) (xs : List EngineOrderRequest) → IsSorted xs → IsSorted (place r xs)
unfolding place
place-IsSorted r [] s = (tt, tt)
place-IsSorted r (x ∷ xs) s = elim (Bool-cases (ltb_ℤ x.recv_time r.recv_time)) [
  | inl e ↦ rw e (
    place-All (λ y. ltb_ℤ y.recv_time x.recv_time ≡ false) r xs (ground arith) s.0,
    place-IsSorted r xs s.1,
  )
  | inr e ↦ rw e (
    (
      e,
      All-map (λ y. ltb_ℤ y.recv_time x.recv_time ≡ false)
          (λ y. ltb_ℤ y.recv_time r.recv_time ≡ false) xs (λ y k. ground arith) s.0,
    ),
    s,
  )
]

place-count :
    (p : EngineOrderRequest → Bool) (r : EngineOrderRequest) (xs : List EngineOrderRequest)
    → count p (place r xs) ≡ count p (r ∷ xs)
unfolding place count
place-count p r [] = refl
place-count p r (x ∷ xs) = ground (arith, place-count p r xs)

insertion_sort-IsSorted : (rs : List EngineOrderRequest) → IsSorted (insertion_sort rs)
unfolding insertion_sort
insertion_sort-IsSorted [] = tt
insertion_sort-IsSorted (r ∷ rs) = place-IsSorted r (insertion_sort rs) (insertion_sort-IsSorted rs)

insertion_sort-count :
    (p : EngineOrderRequest → Bool) (rs : List EngineOrderRequest)
    → count p (insertion_sort rs) ≡ count p rs
unfolding insertion_sort count
insertion_sort-count p [] = refl
insertion_sort-count p (r ∷ rs) =
    ground (arith, place-count p r (insertion_sort rs), insertion_sort-count p rs)

pub insertion_sort-SortLaws : SortLaws insertion_sort
insertion_sort-SortLaws = record { sorted = insertion_sort-IsSorted; same = insertion_sort-count }
