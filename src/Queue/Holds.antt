-- ===== src/Queue/Holds.antt =====
-- A ring buffer that has room against the list of the elements in it.
use trading_matching_engine.Base.{
  ℕ, suc, ◌<◌, ◌≡◌, refl, sym, ap, ◌∙◌, true, false, List, [], ◌∷◌, ◌++◌, map, none, some, arith,
  length, length-set, length-replicate, ◌==◌,
}
use mathlib.Core.Option.{some-injective}
use trading_matching_engine.Queue.{
  LfQueue, new_queue, push, get_next_to_read, update_read_index, advance_read,
}
use trading_matching_engine.Queue.Ring.{
  IsRing, contents, window, push-contents, update_read_index-contents, new_queue-IsRing,
}

-- The two parts of two lists that are not empty.
cons-parts : {A : Type 0} (x y : A) (xs ys : List A) → (x ∷ xs) ≡ (y ∷ ys) → (x ≡ y) × (xs ≡ ys)
cons-parts x y xs ys h = (cc, cc)

module _ {T : Type 0} where
  -- A ring of some size, in order, with the elements of a list in it, oldest first.
  pub record Holds (size : ℕ) (queue : List T) (q : LfQueue T) : Type 0 where
    pub ring : IsRing q
    pub slots : length q.store ≡ size
    pub elements : contents q ≡ map some queue
    pub count : q.num_elements ≡ length queue

  pub new_queue-Holds : (size : ℕ) (v : T) → 0 < size → Holds size [] (new_queue size v)
  unfolding new_queue window
  new_queue-Holds size v h = record {
    ring = new_queue-IsRing size v h;
    slots = length-replicate size v;
    elements = refl;
    count = refl;
  }

  map-snoc :
      (queue : List T) (v : T) → map some queue ++ (some v ∷ []) ≡ map some (queue ++ (v ∷ []))
  map-snoc [] v = refl
  map-snoc (x ∷ xs) v = ap (◌∷◌ (some x)) (map-snoc xs v)

  pub length-snoc : (queue : List T) (v : T) → length (queue ++ (v ∷ [])) ≡ suc (length queue)
  length-snoc [] v = omega arith
  length-snoc (x ∷ xs) v = omega (arith, length-snoc xs v)

  -- A write to a ring with room.
  pub push-Holds :
      (size : ℕ) (queue : List T) (v : T) {q : LfQueue T}
      → length queue < size
      → Holds size queue q
      → Holds size (queue ++ (v ∷ [])) (push v q)
  unfolding push
  push-Holds size queue v {q} room h =
      let (ring, elements) = push-contents v q h.ring (omega (arith, h.slots, h.count)) in
      record {
        ring = ring;
        slots = length-set q.store q.next_write_index v ∙ h.slots;
        elements = elements ∙ ap (λ l. l ++ (some v ∷ [])) h.elements ∙ map-snoc queue v;
        count = omega (arith, h.count, length-snoc queue v);
      }

  -- There is nothing to read in a ring without elements.
  pub read_none : (size : ℕ) {q : LfQueue T} → Holds size [] q → get_next_to_read q ≡ none
  unfolding get_next_to_read
  read_none size {q} h = let e : (q.num_elements == 0) ≡ true = ground (arith, h.count) in rw e refl

  advances :
      (q q' : LfQueue T) → 0 < q.num_elements → update_read_index q ≡ some q' → q' ≡ advance_read q
  unfolding update_read_index
  advances q q' filled h =
      let e : (q.num_elements == 0) ≡ false = ground arith in
      let same : some (advance_read q) ≡ some q' = rw e at h in
      sym (some-injective (advance_read q) q' same)

  -- A read gives the oldest element and leaves the others.
  pub read-Holds :
      (size : ℕ) (v : T) (queue : List T) {q : LfQueue T}
      → Holds size (v ∷ queue) q
      → (get_next_to_read q ≡ some v) × Holds size queue (advance_read q)
  read-Holds size v queue {q} h =
      let filled : 0 < q.num_elements = omega (arith, h.count) in
      let (q', e, ring, all) = update_read_index-contents q h.ring filled in
      let (first, rest) =
        cons-parts (get_next_to_read q) (some v) (contents q') (map some queue)
          (sym all ∙ h.elements) in
      (
        first,
        rw (sym (advances q q' filled e)) (record {
          ring = ring;
          slots = ap (λ r. length r.store) (advances q q' filled e) ∙ h.slots;
          elements = rest;
          count = ap (λ r. r.num_elements) (advances q q' filled e) ∙ omega (arith, h.count);
        }),
      )
