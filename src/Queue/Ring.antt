-- ===== src/Queue/Ring.antt =====
-- The ring buffer against a plain first-in first-out list.
use native.Mathlib.Nat.{mod_self, mod-eq_of_lt, mod-lt}
use trading_matching_engine.Base.{
  ℕ, zero, suc, ◌+◌, ◌-◌, ◌%◌, ◌<◌, ◌≤◌, ◌≡◌, ◌≢◌, refl, ap, ap₂, ◌∙◌, false, List, [], ◌∷◌, ◌++◌,
  Option, some, arith, ltb, length, length-set, length-replicate, get_elem?, set, ◌==◌,
  if◌then◌else◌, Bool-cases, inl, inr,
}
use trading_matching_engine.Queue.{LfQueue, new_queue, push, get_next_to_read, update_read_index}

-- An index of the ring, or one round further.
abbrev pub wrap : ℕ → ℕ → ℕ
wrap s i = if ltb i s then i else i - s

pub wrap-next : (s i : ℕ) → i < s → (i + 1) % s ≡ wrap s (i + 1)
wrap-next s i h = elim (Bool-cases (ltb (i + 1) s)) [
  | inl e ↦ rw e (mod-eq_of_lt (ground arith))
  | inr e ↦
      let k : s ≡ i + 1 = ground arith in
      rw e (ap (λ x. (i + 1) % x) k ∙ mod_self (i + 1) ∙ omega arith)
]

module _ {T : Type 0} where
  pub record IsRing (q : LfQueue T) : Type 0 where
    pub read_in : q.next_read_index < length q.store
    pub fits : q.num_elements ≤ length q.store
    pub write_at : q.next_write_index ≡ wrap (length q.store) (q.next_read_index + q.num_elements)

  -- The elements from an index on, round the end of the store.
  unfoldable pub window : List T → ℕ → ℕ → List (Option T)
  window xs i zero = []
  window xs i (suc n) = get_elem? xs i ∷ window xs ((i + 1) % length xs) n

  abbrev pub contents : LfQueue T → List (Option T)
  contents q = window q.store q.next_read_index q.num_elements

  pub get_elem?-set_same :
      (xs : List T) (i : ℕ) (v : T) → i < length xs → get_elem? (set xs i v) i ≡ some v
  get_elem?-set_same [] i v h = absurd (omega arith)
  get_elem?-set_same (x ∷ xs) zero v h = refl
  get_elem?-set_same (x ∷ xs) (suc i) v h = get_elem?-set_same xs i v (omega arith)

  pub get_elem?-set_other :
      (xs : List T) (i j : ℕ) (v : T) → i ≢ j → get_elem? (set xs i v) j ≡ get_elem? xs j
  get_elem?-set_other [] i j v h = refl
  get_elem?-set_other (x ∷ xs) zero zero v h = absurd (h refl)
  get_elem?-set_other (x ∷ xs) zero (suc j) v h = refl
  get_elem?-set_other (x ∷ xs) (suc i) zero v h = refl
  get_elem?-set_other (x ∷ xs) (suc i) (suc j) v h =
      get_elem?-set_other xs i j v (λ e. h (ap suc e))

  -- Writing behind a window that leaves room makes it longer by what is written.
  pub window-set :
      (xs : List T) (v : T) (i n : ℕ)
      → i < length xs
      → n < length xs
      → window (set xs (wrap (length xs) (i + n)) v) i (suc n) ≡ window xs i n ++ (some v ∷ [])
  unfolding window
  window-set xs v i zero h k =
      let here : wrap (length xs) (i + 0) ≡ i = ground arith in
      ap (λ o. o ∷ []) (ap (λ j. get_elem? (set xs j v) i) here ∙ get_elem?-set_same xs i v h)
  window-set xs v i (suc n) h k =
      let w = wrap (length xs) (i + suc n) in
      let next = (i + 1) % length xs in
      let shift : w ≡ wrap (length xs) (next + n) = ground (arith, wrap-next (length xs) i h) in
      let elsewhere : w ≢ i = λ e. ground arith in
      ap₂ ◌∷◌ (get_elem?-set_other xs w i v elsewhere) (
        ap (λ l. window (set xs w v) ((i + 1) % l) (suc n)) (length-set xs w v)
        ∙ ap (λ j. window (set xs j v) next (suc n)) shift
        ∙ window-set xs v next n (mod-lt (i + 1) (omega arith)) (omega arith))

  -- A write to a ring that has room adds the element behind what is there, and leaves a ring.
  pub push-contents :
      (v : T) (q : LfQueue T)
      → IsRing q
      → q.num_elements < length q.store
      → IsRing (push v q) × (contents (push v q) ≡ contents q ++ (some v ∷ []))
  unfolding push
  push-contents v q r room =
      let size = length q.store in
      let same = length-set q.store q.next_write_index v in
      let write_in : q.next_write_index < size = ground (arith, r.write_at, r.read_in, r.fits) in
      let step = wrap-next size q.next_write_index write_in in
      let more : q.num_elements + 1 ≡ suc q.num_elements = omega arith in
      (
        record {
          read_in = rw same r.read_in;
          fits = rw same (omega arith);
          write_at = rw same (ground (arith, step, r.write_at, r.read_in, r.fits));
        },
        ap (window (set q.store q.next_write_index v) q.next_read_index) more
            ∙ ap (λ w. window (set q.store w v) q.next_read_index (suc q.num_elements)) r.write_at
            ∙ window-set q.store v q.next_read_index q.num_elements r.read_in room,
      )

  -- What a read gives and leaves.
  abbrev pub Reads : LfQueue T → Type 0
  Reads q =
      (q' : LfQueue T) × (update_read_index q ≡ some q')
      × IsRing q'
      × (contents q ≡ get_next_to_read q ∷ contents q')

  -- On a ring that is not empty, the read returns the oldest element, the index moves on without
  -- the assertion, and all other elements stay in their order.
  pub update_read_index-contents : (q : LfQueue T) → IsRing q → 0 < q.num_elements → Reads q
  unfolding update_read_index get_next_to_read window
  update_read_index-contents q r some_in =
      let size = length q.store in
      let filled : (q.num_elements == 0) ≡ false = ground arith in
      let step = wrap-next size q.next_read_index r.read_in in
      let next = (q.next_read_index + 1) % size in
      let less : q.num_elements ≡ suc (q.num_elements - 1) = omega arith in
      (
        record q { next_read_index = next; num_elements = q.num_elements - 1 },
        rw (filled, update_read_index) refl,
        record {
          read_in = mod-lt (q.next_read_index + 1) (ground (arith, r.read_in));
          fits = ground (arith, r.fits);
          write_at = ground (arith, step, r.write_at, r.read_in, r.fits);
        },
        rw (filled, get_next_to_read) (ap (window q.store q.next_read_index) less),
      )

  -- After a write to a full ring, the next read gives the element that was written last.
  pub push_full :
      (v : T) (q : LfQueue T)
      → IsRing q
      → q.num_elements ≡ length q.store
      → get_next_to_read (push v q) ≡ some v
  unfolding push get_next_to_read
  push_full v q r full =
      let same : q.next_write_index ≡ q.next_read_index = ground (arith, r.write_at, r.read_in) in
      let more : (q.num_elements + 1 == 0) ≡ false = ground arith in
      rw more (
        ap (λ w. get_elem? (set q.store w v) q.next_read_index) same
        ∙ get_elem?-set_same q.store q.next_read_index v r.read_in)

  pub new_queue-IsRing : (n : ℕ) (v : T) → 0 < n → IsRing (new_queue n v)
  unfolding new_queue
  new_queue-IsRing n v h = record {
    read_in = rw (length-replicate n v) h;
    fits = omega arith;
    write_at = rw (length-replicate n v) (ground arith);
  }
