-- ===== src/Tests/Threads.antt =====
-- Examples for the threads at the ring buffer, the log, and the memory pool.
use trading_matching_engine.Base.{
  ℕ, ◌≡◌, ◌+◌, ◌++◌, refl, List, [], ◌∷◌, some, arith, All, get_elem?,
}
use trading_matching_engine.Queue.{LfQueue, new_queue, push}
use trading_matching_engine.Queue.Ring.{contents, wrap}
use trading_matching_engine.Queue.Threads.{
  Event, write, advance, count_up, read, move_on, count_down, start, run_threads, trace,
  thread_step, write_step, advance_step, count_up_step, read_step, move_on_step, count_down_step,
}
use trading_matching_engine.Queue.Threads.Fifo.{Within, IsFifo, run_threads-IsFifo}
use trading_matching_engine.Queue.Writers.{overlap, overlap-contents}
use trading_matching_engine.Logging.{Logger}
use trading_matching_engine.Logging.File.{Flushes, flush_queue-lines_of}
use trading_matching_engine.Pool.{MemPool, new_pool, allocate, returned}
use trading_matching_engine.Pool.Space.{Took}
use trading_matching_engine.Pool.Progress.{allocate_returns}

-- The consumer takes the first element while the producer writes the second.
abbrev steps : List (Event ℕ)
steps =
    write 5
    ∷ advance
    ∷ read
    ∷ count_up
    ∷ write 6
    ∷ read
    ∷ advance
    ∷ move_on
    ∷ count_up
    ∷ count_down
    ∷ []

steps-Within : All Within (trace steps (start 2 0))
unfolding trace thread_step write_step advance_step count_up_step read_step move_on_step
    count_down_step start new_queue
steps-Within = (
  omega arith,
  (
    omega arith,
    (
      omega arith,
      (
        omega arith,
        (
          omega arith,
          (omega arith, (omega arith, (omega arith, (omega arith, (omega arith, tt))))),
        ),
      ),
    ),
  ),
)

run_threads-IsFifo_example : IsFifo (run_threads steps (start 2 0))
run_threads-IsFifo_example = run_threads-IsFifo 2 0 steps (omega arith) steps-Within

-- One element and three free slots.
abbrev roomy : LfQueue ℕ
roomy = record {
  store = 9 ∷ 7 ∷ 8 ∷ 4 ∷ [];
  next_write_index = 1;
  next_read_index = 0;
  num_elements = 1;
}

overlap-contents_example :
    (contents (overlap 5 6 roomy)
      ≡ contents roomy ++ (some 6 ∷ get_elem? roomy.store (wrap 4 (0 + (1 + 1))) ∷ []))
    × (contents (push 6 (push 5 roomy)) ≡ contents roomy ++ (some 5 ∷ some 6 ∷ []))
overlap-contents_example =
    overlap-contents 5 6 roomy
      (record { read_in = omega arith; fits = omega arith; write_at = refl }) (omega arith)

-- Two lines that wait, round the end of the store.
abbrev logger : Logger
logger = record {
  file = "start\n";
  queue = record {
    store = "second\n" ∷ "" ∷ "first\n" ∷ [];
    next_write_index = 1;
    next_read_index = 2;
    num_elements = 2;
  };
}

flush_queue-lines_of_example : Flushes 2 logger
flush_queue-lines_of_example =
    flush_queue-lines_of 2 logger
      (record { read_in = omega arith; fits = omega arith; write_at = refl }) (omega arith)

allocate_returns_example :
    (pool' : MemPool ℕ) × (allocate 7 (new_pool 3 0) ≡ returned (0, pool'))
    × Took 7 0 (new_pool 3 0) pool'
unfolding new_pool
allocate_returns_example = allocate_returns 7 (new_pool 3 0) 1 refl refl (λ e. omega arith)
