-- ===== src/Pool/Progress.antt =====
-- When the search of memory_pool.h ends at a block, and the allocation returns.
use trading_matching_engine.Base.{
  ℕ, zero, suc, ◌+◌, ◌≤◌, ◌<◌, ◌≡◌, ◌≢◌, ◌⊎◌, refl, sym, ap, ◌∙◌, true, false, List, arith, length,
  length-set, ◌==◌, Bool-cases, inl, inr, ltb, [], ◌∷◌,
}
use trading_matching_engine.Pool.{
  ObjectBlock, MemPool, Search, found, is_free_at, next_index, search, occupy, allocate, returned,
  asserted, no_space, expected_free,
}
use trading_matching_engine.Pool.Space.{
  is_free_at-set_other, Took, allocate-Took, allocate_last, Search-cases,
}

abbrev Finds : Search → Type 0
Finds r = (i : ℕ) × (r ≡ found i)

module _ {T : Type 0} where
  is_free_at-lt :
      (store : List (ObjectBlock T)) (i : ℕ) → is_free_at store i ≡ true → i < length store
  is_free_at-lt [] i h = cc
  is_free_at-lt (b ∷ bs) zero h = omega arith
  is_free_at-lt (b ∷ bs) (suc i) h = omega (arith, is_free_at-lt bs i h)

  module _ (store : List (ObjectBlock T)) (start j : ℕ) (free : is_free_at store j ≡ true) where
    search-Finds_here : (fuel i : ℕ) → i ≡ j → Finds (search (suc fuel) store start i)
    unfolding search
    search-Finds_here fuel i e =
        let here : is_free_at store i ≡ true = ap (is_free_at store) e ∙ free in (i, rw here refl)

    -- One step of the search, past a block that is taken.
    passes :
        (fuel i : ℕ)
        → next_index store i ≢ start
        → Finds (search fuel store start (next_index store i))
        → Finds (search (suc fuel) store start i)
    unfolding search
    passes fuel i more (k, e) = elim (Bool-cases (is_free_at store i)) [
      | inl here ↦ (i, rw here refl)
      | inr taken ↦ (k, ground arith)
    ]

    -- In front of its start, the search walks up to a free block.
    search-Finds_below :
        (fuel i : ℕ) → i ≤ j → j < i + fuel → j < start → Finds (search fuel store start i)
    search-Finds_below zero i h k s = absurd (omega arith)
    search-Finds_below (suc fuel) i h k s =
        let inside = is_free_at-lt store j free in
        elim (Bool-cases (i == j)) [
          | inl here ↦ search-Finds_here fuel i (ground arith)
          | inr before ↦
              let next : next_index store i ≡ i + 1 = ground arith in
              passes fuel i (λ e. ground arith)
                (rw next (search-Finds_below fuel (i + 1) (ground arith) (omega arith) s))
        ]

    -- From its start on, the search walks up to a free block that is not in front of it.
    search-Finds_above :
        (fuel i : ℕ) → i ≤ j → j < i + fuel → start ≤ i → Finds (search fuel store start i)
    search-Finds_above zero i h k s = absurd (omega arith)
    search-Finds_above (suc fuel) i h k s =
        let inside = is_free_at-lt store j free in
        elim (Bool-cases (i == j)) [
          | inl here ↦ search-Finds_here fuel i (ground arith)
          | inr before ↦
              let next : next_index store i ≡ i + 1 = ground arith in
              passes fuel i (λ e. ground arith)
                (rw next
                  (search-Finds_above fuel (i + 1) (ground arith) (omega arith) (omega arith)))
        ]

    -- Round the end, the search comes to a free block in front of its start.
    search-Finds_round :
        (fuel i : ℕ)
        → start ≤ i
        → i < length store
        → length store + j < i + fuel
        → j < start
        → Finds (search fuel store start i)
    search-Finds_round zero i h k s l = absurd (omega arith)
    search-Finds_round (suc fuel) i h k s l = elim (Bool-cases (i + 1 == length store)) [
      | inl last ↦
          let next : next_index store i ≡ 0 = ground arith in
          passes fuel i (λ e. ground arith)
            (rw next (search-Finds_below fuel 0 (omega arith) (ground arith) l))
      | inr before ↦
          let next : next_index store i ≡ i + 1 = ground arith in
          passes fuel i (λ e. ground arith)
            (rw next (search-Finds_round fuel (i + 1) (omega arith) (ground arith) (omega arith) l))
    ]

  search-Finds :
      (store : List (ObjectBlock T)) (start j : ℕ)
      → is_free_at store j ≡ true
      → start < length store
      → start ≢ j
      → Finds (search (length store) store start start)
  search-Finds store start j free inside other =
      let j_inside = is_free_at-lt store j free in
      elim (Bool-cases (ltb j start)) [
        | inl front ↦
            search-Finds_round store start j free (length store) start (omega arith) inside
              (ground arith) (ground arith)
        | inr behind ↦
            search-Finds_above store start j free (length store) start (ground arith) (omega arith)
              (omega arith)
      ]

  -- The search goes on after a block has been taken, while another one is free.
  occupied-Finds :
      (object : T) (pool : MemPool T) (j : ℕ)
      → pool.next_free_index < length pool.store
      → is_free_at pool.store j ≡ true
      → pool.next_free_index ≢ j
      → let store = (occupy object pool).store in
        Finds (search (length store) store pool.next_free_index pool.next_free_index)
  occupied-Finds object pool j inside also_free other =
      let k = pool.next_free_index in
      let new : ObjectBlock T = record { object = object; is_free = false } in
      search-Finds (occupy object pool).store k j
        (is_free_at-set_other pool.store k j new other ∙ also_free)
        (omega (arith, inside, length-set pool.store k new)) other

  pub allocate_returns :
      (object : T) (pool : MemPool T) (j : ℕ)
      → is_free_at pool.store pool.next_free_index ≡ true
      → is_free_at pool.store j ≡ true
      → pool.next_free_index ≢ j
      → (pool' : MemPool T) × (allocate object pool ≡ returned (pool.next_free_index, pool'))
        × Took object pool.next_free_index pool pool'
  allocate_returns object pool j free also_free other =
      let inside = is_free_at-lt pool.store pool.next_free_index free in
      let (i, e) = occupied-Finds object pool j inside also_free other in
      let (went_on, took) = allocate-Took object pool i inside free e in
      (record (occupy object pool) { next_free_index = i }, went_on, took)

  -- No block is free but that at the search position.
  abbrev pub IsLast : MemPool T → Type 0
  IsLast pool =
      (is_free_at pool.store pool.next_free_index ≡ true)
      × ((j : ℕ) → j ≢ pool.next_free_index → is_free_at pool.store j ≡ false)

  -- How an allocation ends: it takes the block at the search position and is returned it, or it
  -- ends the program, because that block is in use, or because no other one is free.
  abbrev pub AllocationEnds : T → MemPool T → Type 0
  AllocationEnds object pool =
      ((pool' : MemPool T) × (allocate object pool ≡ returned (pool.next_free_index, pool'))
        × Took object pool.next_free_index pool pool')
      ⊎ ((allocate object pool ≡ asserted expected_free)
          × (is_free_at pool.store pool.next_free_index ≡ false))
      ⊎ ((allocate object pool ≡ asserted no_space) × IsLast pool)

  -- If the search does not end at a block, the one at the search position was the last.
  not_found-IsLast :
      (object : T) (pool : MemPool T)
      → pool.next_free_index < length pool.store
      → is_free_at pool.store pool.next_free_index ≡ true
      → (let store = (occupy object pool).store in
          ¬ (Finds (search (length store) store pool.next_free_index pool.next_free_index)))
      → IsLast pool
  not_found-IsLast object pool inside free none_found = (
    free,
    λ j ne. elim (Bool-cases (is_free_at pool.store j)) [
      | inl also_free ↦
          absurd (none_found (occupied-Finds object pool j inside also_free (λ e. ne (sym e))))
      | inr taken ↦ taken
    ],
  )

  allocate_free-AllocationEnds :
      (object : T) (pool : MemPool T)
      → pool.next_free_index < length pool.store
      → is_free_at pool.store pool.next_free_index ≡ true
      → AllocationEnds object pool
  allocate_free-AllocationEnds object pool inside free =
      let store = (occupy object pool).store in
      let k = pool.next_free_index in
      let ends : ¬ (Finds (search (length store) store k k)) → AllocationEnds object pool =
        λ none_found.
          let last = not_found-IsLast object pool inside free none_found in
          inr (inr (allocate_last object pool inside free last.1, last)) in
      elim (Search-cases (search (length store) store k k)) [
        | inl e ↦ ends (λ (i, f). absurd (ground (arith, e, f)))
        | inr (inl e) ↦ ends (λ (i, f). absurd (ground (arith, e, f)))
        | inr (inr (i, e)) ↦
            let (went_on, took) = allocate-Took object pool i inside free e in
            inl (record (occupy object pool) { next_free_index = i }, went_on, took)
      ]

  -- Every allocation ends, whatever blocks are free: if the block at the search position is free
  -- and so is another one, it takes that at the search position, puts the object into it, leaves
  -- all others as they were and moves on to a free one; if that block is in use, or is the last
  -- free one, the program ends by the assertion that says so.
  pub allocate-AllocationEnds :
      (object : T) (pool : MemPool T)
      → pool.next_free_index < length pool.store
      → AllocationEnds object pool
  unfolding allocate
  allocate-AllocationEnds object pool inside =
      elim (Bool-cases (is_free_at pool.store pool.next_free_index)) [
        | inl free ↦ allocate_free-AllocationEnds object pool inside free
        | inr taken ↦ inr (inl (rw taken refl, taken))
      ]
