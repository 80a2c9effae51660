-- ===== src/Pool/Space.antt =====
-- The search of memory_pool.h for a free block, and what allocations do to the blocks.
use trading_matching_engine.Base.{
  String, ℕ, zero, suc, ◌+◌, ◌≤◌, ◌<◌, ◌≡◌, ◌≢◌, ◌⊎◌, subst, refl, sym, ap, ◌∙◌, true, false, List,
  [], ◌∷◌, some, arith, length, length-set, get_elem?, set, ◌==◌, Bool-cases, inl, inr,
}
use trading_matching_engine.Queue.Ring.{get_elem?-set_same, get_elem?-set_other}
use trading_matching_engine.Pool.{
  ObjectBlock, MemPool, Search, found, out_of_space, out_of_fuel, Result, returned, asserted,
  unfinished, no_space, is_free_at, next_index, search, update_next_free_index, occupy, allocate,
}

pub Search-cases : (r : Search) → (r ≡ out_of_space) ⊎ (r ≡ out_of_fuel) ⊎ ((i : ℕ) × (r ≡ found i))
Search-cases out_of_space = inl refl
Search-cases out_of_fuel = inr (inl refl)
Search-cases (found i) = inr (inr (i, refl))

pub Result-cases :
    {A : Type 0} (r : Result A)
    → ((text : String) × (r ≡ asserted text)) ⊎ (r ≡ unfinished) ⊎ ((x : A) × (r ≡ returned x))
Result-cases (asserted text) = inl (text, refl)
Result-cases unfinished = inr (inl refl)
Result-cases (returned x) = inr (inr (x, refl))

pub returned-injective : {A : Type 0} (x y : A) → returned x ≡ returned y → x ≡ y
returned-injective x y h = cc

module _ {T : Type 0} where
  -- No block is free.
  abbrev pub IsFull : List (ObjectBlock T) → Type 0
  IsFull store = (i : ℕ) → is_free_at store i ≡ false

  module _ (store : List (ObjectBlock T)) (start : ℕ) where
    -- Before its start, the search of a full pool walks up to it.
    search_below :
        (fuel i : ℕ)
        → IsFull store
        → start < length store
        → i < start
        → start ≤ i + fuel
        → search fuel store start i ≡ out_of_space
    unfolding search
    search_below zero i full s h k = absurd (omega arith)
    search_below (suc fuel) i full s h k = ground (arith, full i, search_below fuel (i + 1) full s)

    pub search_above :
        (fuel i : ℕ)
        → IsFull store
        → start ≤ i
        → i < length store
        → length store + start ≤ i + fuel
        → search fuel store start i ≡ out_of_space
    unfolding search
    search_above zero i full h s k = absurd (omega arith)
    search_above (suc fuel) i full h s k =
        ground (arith, full i, search_above fuel (i + 1) full, search_below fuel 0 full)

    -- What the search finds is free.
    search-found : (fuel i j : ℕ) → search fuel store start i ≡ found j → is_free_at store j ≡ true
    unfolding search
    search-found zero i j h = cc
    search-found (suc fuel) i j h = elim (Bool-cases (is_free_at store i)) [
      | inl free ↦ ground arith
      | inr taken ↦ elim (Bool-cases (next_index store i == start)) [
        | inl round ↦ absurd (ground arith)
        | inr more ↦ search-found fuel (next_index store i) j (ground arith)
      ]
    ]

  pub is_free_at-set_same :
      (store : List (ObjectBlock T)) (i : ℕ) (block : ObjectBlock T)
      → i < length store
      → is_free_at (set store i block) i ≡ block.is_free
  is_free_at-set_same [] i block h = absurd (omega arith)
  is_free_at-set_same (b ∷ bs) zero block h = refl
  is_free_at-set_same (b ∷ bs) (suc i) block h = is_free_at-set_same bs i block (omega arith)

  pub is_free_at-set_other :
      (store : List (ObjectBlock T)) (i j : ℕ) (block : ObjectBlock T)
      → i ≢ j
      → is_free_at (set store i block) j ≡ is_free_at store j
  is_free_at-set_other [] i j block h = refl
  is_free_at-set_other (b ∷ bs) zero zero block h = absurd (h refl)
  is_free_at-set_other (b ∷ bs) zero (suc j) block h = refl
  is_free_at-set_other (b ∷ bs) (suc i) zero block h = refl
  is_free_at-set_other (b ∷ bs) (suc i) (suc j) block h =
      is_free_at-set_other bs i j block (λ e. h (ap suc e))

  pub occupied-IsFull :
      (object : T) (pool : MemPool T)
      → pool.next_free_index < length pool.store
      → ((i : ℕ) → i ≢ pool.next_free_index → is_free_at pool.store i ≡ false)
      → IsFull (occupy object pool).store
  occupied-IsFull object pool h others i =
      let new : ObjectBlock T = record { object = object; is_free = false } in
      elim (Bool-cases (pool.next_free_index == i)) [
        | inl here ↦
            let e : pool.next_free_index ≡ i = ground arith in
            ap (is_free_at (set pool.store pool.next_free_index new)) (sym e)
            ∙ is_free_at-set_same pool.store pool.next_free_index new h
        | inr there ↦
            is_free_at-set_other pool.store pool.next_free_index i new (λ e. ground arith)
            ∙ others i (λ e. ground arith)
      ]

  -- If the block that is next is free and the only one, the allocation that would take it ends the
  -- program instead, by the assertion that the pool is out of space: a pool of n blocks never hands
  -- out all n.
  pub allocate_last :
      (object : T) (pool : MemPool T)
      → pool.next_free_index < length pool.store
      → is_free_at pool.store pool.next_free_index ≡ true
      → ((i : ℕ) → i ≢ pool.next_free_index → is_free_at pool.store i ≡ false)
      → allocate object pool ≡ asserted no_space
  unfolding allocate update_next_free_index
  allocate_last object pool h free others =
      let store = (occupy object pool).store in
      let size =
        length-set pool.store pool.next_free_index (record { object = object; is_free = false }) in
      let ended : search (length store) store pool.next_free_index pool.next_free_index
          ≡ out_of_space =
        search_above store pool.next_free_index (length store) pool.next_free_index
          (occupied-IsFull object pool h others) (omega arith) (omega (arith, size))
          (omega arith) in
      rw (free, allocate, ended) refl

  pub update-found :
      (p p' : MemPool T)
      → update_next_free_index p ≡ returned p'
      → (p'.store ≡ p.store) × (is_free_at p'.store p'.next_free_index ≡ true)
  unfolding update_next_free_index
  update-found p p' h =
      let r = search (length p.store) p.store p.next_free_index p.next_free_index in
      elim (Search-cases r) [
        | inl e ↦ absurd (ground arith)
        | inr (inl e) ↦ absurd (ground arith)
        | inr (inr (i, e)) ↦
            let q : MemPool T = record p { next_free_index = i } in
            let same : q ≡ p' = returned-injective q p' (rw (e, update_next_free_index) at h) in
            (
              ap (λ x. x.store) (sym same),
              subst (λ x. is_free_at x.store x.next_free_index ≡ true) same
                  (search-found p.store p.next_free_index (length p.store) p.next_free_index i e),
            )
      ]

  -- What an allocation of an object has done to a pool: it has taken a block that was free and put
  -- the object into it, has left every other block as it was, contents and all, and has moved the
  -- search position to a block that is free.
  abbrev pub Took : T → ℕ → MemPool T → MemPool T → Type 0
  Took object i pool pool' =
      (is_free_at pool.store i ≡ true)
      × (get_elem? pool'.store i ≡ some (record { object = object; is_free = false }))
      × ((j : ℕ) → i ≢ j → get_elem? pool'.store j ≡ get_elem? pool.store j)
      × (is_free_at pool'.store pool'.next_free_index ≡ true)

  -- The search has found a block.
  pub allocate-Took :
      (object : T) (pool : MemPool T) (i : ℕ)
      → pool.next_free_index < length pool.store
      → is_free_at pool.store pool.next_free_index ≡ true
      → (let store = (occupy object pool).store in
          search (length store) store pool.next_free_index pool.next_free_index ≡ found i)
      → let pool' : MemPool T = record (occupy object pool) { next_free_index = i } in
        (allocate object pool ≡ returned (pool.next_free_index, pool'))
        × Took object pool.next_free_index pool pool'
  unfolding allocate update_next_free_index
  allocate-Took object pool i inside free e =
      let new : ObjectBlock T = record { object = object; is_free = false } in
      let k = pool.next_free_index in
      let store = (occupy object pool).store in
      (
        rw (free, allocate, e) refl,
        (
          free,
          get_elem?-set_same pool.store k new inside,
          λ j ne. get_elem?-set_other pool.store k j new ne,
          search-found store k (length store) k i e,
        ),
      )
