-- ===== src/Pool.antt =====
-- Common/memory_pool.h: a pool of blocks that is allocated once. A pointer to an object is the
-- index of its block. In `deallocate`, `none` is a failing `ASSERT`, which ends the program.
pub mod Space
pub mod Progress
use trading_matching_engine.Base.{
  ℕ, zero, suc, ◌+◌, String, Bool, true, false, List, Option, none, some, length, get_elem?, set,
  replicate, ltb, ◌==◌, if◌then◌else◌,
}

pub record ObjectBlock (T : Type 0) : Type 0 where
  pub object : T
  pub is_free : Bool

pub record MemPool (T : Type 0) : Type 0 where
  pub store : List (ObjectBlock T)
  pub next_free_index : ℕ

-- How the search for a free block ends: at a block, at the assertion that the pool is out of space,
-- or not within the fuel.
pub data Search : Type 0 where
  found : ℕ → Search
  out_of_space : Search
  out_of_fuel : Search

-- How a call ends: with a value, by a failing `ASSERT`, whose text is given up to a number in it,
-- or not within the fuel.
pub data Result (A : Type 0) : Type 0 where
  returned : A → Result A
  asserted : String → Result A
  unfinished : Result A

abbrev pub no_space : String
no_space = "Memory Pool out of space."

abbrev pub expected_free : String
expected_free = "Expected free ObjectBlock at index:"

module _ {T : Type 0} where
  -- The constructor, with the default object.
  unfoldable pub new_pool : ℕ → T → MemPool T
  new_pool num_elems object = record {
    store = replicate num_elems (record { object = object; is_free = true });
    next_free_index = 0;
  }

  abbrev pub is_free_at : List (ObjectBlock T) → ℕ → Bool
  is_free_at store i = elim (get_elem? store i) [ none ↦ false | some block ↦ block.is_free ]

  -- The next index, round the end of the store.
  abbrev pub next_index : List (ObjectBlock T) → ℕ → ℕ
  next_index store i = if i + 1 == length store then 0 else i + 1

  -- The loop of `updateNextFreeIndex`, from an index on.
  unfoldable pub search : ℕ → List (ObjectBlock T) → ℕ → ℕ → Search
  search zero store start i = out_of_fuel
  search (suc fuel) store start i =
      let rest = search fuel store start (next_index store i) in
      if is_free_at store i
      then found i
      else if next_index store i == start
      then out_of_space
      else rest

  unfoldable pub update_next_free_index : MemPool T → Result (MemPool T)
  unfolding search
  update_next_free_index pool =
      elim (search (length pool.store) pool.store pool.next_free_index pool.next_free_index) [
        | found i ↦ returned (record pool { next_free_index = i })
        | out_of_space ↦ asserted no_space
        | out_of_fuel ↦ unfinished
      ]

  abbrev pub occupy : T → MemPool T → MemPool T
  occupy object pool = record pool {
    store = set pool.store pool.next_free_index (record { object = object; is_free = false });
  }

  -- The index of the block, and the pool afterwards.
  unfoldable pub allocate : T → MemPool T → Result (ℕ × MemPool T)
  unfolding update_next_free_index
  allocate object pool =
      if is_free_at pool.store pool.next_free_index
      then (elim (update_next_free_index (occupy object pool)) [
        | returned pool' ↦ returned (pool.next_free_index, pool')
        | asserted text ↦ asserted text
        | unfinished ↦ unfinished
      ])
      else asserted expected_free

  -- The search position stays where it is.
  unfoldable pub deallocate : ℕ → MemPool T → Option (MemPool T)
  deallocate i pool = elim (get_elem? pool.store i) [
    | none ↦ none
    | some block ↦
        if block.is_free
        then none
        else some (record pool { store = set pool.store i (record block { is_free = true }) })
  ]
