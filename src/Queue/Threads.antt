-- ===== src/Queue/Threads.antt =====
-- One producer thread and one consumer thread at lock_free_queue.h, load by load and store by
-- store: every interleaving of their steps is a list of events.
pub mod Flight
pub mod Moves
pub mod Fifo
use trading_matching_engine.Base.{
  ℕ, ◌+◌, ◌-◌, ◌%◌, List, [], ◌∷◌, ◌++◌, Option, none, some, length, get_elem?, set, ◌==◌,
  if◌then◌else◌,
}
use trading_matching_engine.Queue.{LfQueue, new_queue}

-- Where the producer is: between calls, behind the write through `getNextToWriteTo`, or behind the
-- store to `next_write_index_`.
pub data Producer (T : Type 0) : Type 0 where
  ready : Producer T
  wrote : T → Producer T
  advanced : Producer T

-- Where the consumer is: between calls, with the element that `getNextToRead` points to, or
-- behind the store to `next_read_index_`.
pub data Consumer (T : Type 0) : Type 0 where
  waiting : Consumer T
  holding : T → Consumer T
  moved : Consumer T

-- The ring, the two threads, and what has been sent and received so far, oldest first.
pub record Threads (T : Type 0) : Type 0 where
  pub ring : LfQueue T
  pub producer : Producer T
  pub consumer : Consumer T
  pub sent : List T
  pub received : List T

-- Three steps of each thread, in the order of the code; the first of the consumer is the test of
-- `size()` with the read through the pointer.
pub data Event (T : Type 0) : Type 0 where
  write : T → Event T
  advance : Event T
  count_up : Event T
  read : Event T
  move_on : Event T
  count_down : Event T

module _ {T : Type 0} where
  -- Both threads on a ring that was just constructed.
  unfoldable pub start : ℕ → T → Threads T
  unfolding new_queue
  start num_elems value = record {
    ring = new_queue num_elems value;
    producer = ready;
    consumer = waiting;
    sent = [];
    received = [];
  }

  unfoldable pub write_step : T → Producer T → Threads T → Threads T
  write_step v ready s = record s {
    ring = record s.ring { store = set s.ring.store s.ring.next_write_index v };
    producer = wrote v;
  }
  write_step v _ s = s

  unfoldable pub advance_step : Producer T → Threads T → Threads T
  advance_step (wrote v) s = record s {
    ring = record s.ring { next_write_index = (s.ring.next_write_index + 1) % length s.ring.store };
    producer = advanced;
    sent = s.sent ++ (v ∷ []);
  }
  advance_step _ s = s

  unfoldable pub count_up_step : Producer T → Threads T → Threads T
  count_up_step advanced s = record s {
    ring = record s.ring { num_elements = s.ring.num_elements + 1 };
    producer = ready;
  }
  count_up_step _ s = s

  unfoldable pub read_step : Consumer T → Threads T → Threads T
  read_step waiting s =
      if s.ring.num_elements == 0
      then s
      else (elim (get_elem? s.ring.store s.ring.next_read_index) [
        | none ↦ s
        | some v ↦ record s { consumer = holding v }
      ])
  read_step _ s = s

  unfoldable pub move_on_step : Consumer T → Threads T → Threads T
  move_on_step (holding v) s = record s {
    ring = record s.ring { next_read_index = (s.ring.next_read_index + 1) % length s.ring.store };
    consumer = moved;
    received = s.received ++ (v ∷ []);
  }
  move_on_step _ s = s

  unfoldable pub count_down_step : Consumer T → Threads T → Threads T
  count_down_step moved s = record s {
    ring = record s.ring { num_elements = s.ring.num_elements - 1 };
    consumer = waiting;
  }
  count_down_step _ s = s

  -- A step that a thread cannot make where it is changes nothing.
  unfoldable pub thread_step : Event T → Threads T → Threads T
  unfolding write_step advance_step count_up_step read_step move_on_step count_down_step
  thread_step (write v) s = write_step v s.producer s
  thread_step advance s = advance_step s.producer s
  thread_step count_up s = count_up_step s.producer s
  thread_step read s = read_step s.consumer s
  thread_step move_on s = move_on_step s.consumer s
  thread_step count_down s = count_down_step s.consumer s

  -- The states that the threads go through.
  unfoldable pub trace : List (Event T) → Threads T → List (Threads T)
  unfolding thread_step
  trace [] s = []
  trace (e ∷ es) s = thread_step e s ∷ trace es (thread_step e s)

  unfoldable pub run_threads : List (Event T) → Threads T → Threads T
  unfolding thread_step
  run_threads [] s = s
  run_threads (e ∷ es) s = run_threads es (thread_step e s)
