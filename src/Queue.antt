-- ===== src/Queue.antt =====
-- Common/lock_free_queue.h: the single-producer single-consumer ring buffer between the threads.
-- `push` is `getNextToWriteTo`, the write through it and `updateWriteIndex`.
pub mod Ring
pub mod Holds
pub mod Threads
pub mod Writers
use trading_matching_engine.Base.{
  ℕ, ◌+◌, ◌-◌, ◌%◌, List, Option, none, some, length, get_elem?, set, replicate, ◌==◌,
  if◌then◌else◌,
}

pub record LfQueue (T : Type 0) : Type 0 where
  pub store : List T
  pub next_write_index : ℕ
  pub next_read_index : ℕ
  pub num_elements : ℕ

module _ {T : Type 0} where
  -- The constructor, with the default value of the elements.
  unfoldable pub new_queue : ℕ → T → LfQueue T
  new_queue num_elems value = record {
    store = replicate num_elems value;
    next_write_index = 0;
    next_read_index = 0;
    num_elements = 0;
  }

  -- Nothing tests whether the ring is full.
  unfoldable pub push : T → LfQueue T → LfQueue T
  push v q = record {
    store = set q.store q.next_write_index v;
    next_write_index = (q.next_write_index + 1) % length q.store;
    next_read_index = q.next_read_index;
    num_elements = q.num_elements + 1;
  }

  unfoldable pub get_next_to_read : LfQueue T → Option T
  get_next_to_read q = if q.num_elements == 0 then none else get_elem? q.store q.next_read_index

  -- The body of `updateReadIndex`, behind its assertion.
  abbrev pub advance_read : LfQueue T → LfQueue T
  advance_read q = record q {
    next_read_index = (q.next_read_index + 1) % length q.store;
    num_elements = q.num_elements - 1;
  }

  -- `updateReadIndex`; its `ASSERT` ends the program on an empty queue.
  unfoldable pub update_read_index : LfQueue T → Option (LfQueue T)
  update_read_index q = if q.num_elements == 0 then none else some (advance_read q)
