-- ===== src/Queue/Threads/Fifo.antt =====
-- All interleavings of the producer and the consumer against a first-in first-out list.
use trading_matching_engine.Base.{
  ℕ, ◌+◌, ◌≤◌, ◌<◌, ◌≡◌, refl, ap, subst, ◌∙◌, List, [], ◌∷◌, ◌++◌, arith, length, length-append,
  length-set, length-replicate, All,
}
use trading_matching_engine.Queue.Ring.{window}
use trading_matching_engine.Queue.Threads.{
  Producer, ready, wrote, advanced, Consumer, waiting, holding, moved, Threads, Event, write,
  advance, count_up, read, move_on, count_down, start, write_step, advance_step, count_up_step,
  read_step, move_on_step, count_down_step, thread_step, trace, run_threads,
}
use trading_matching_engine.Queue.Threads.Flight.{busy, Held, Inv}
use trading_matching_engine.Queue.Threads.Moves.{
  write_step-Inv, advance_step-Inv, count_up_step-Inv, read_step-Inv, move_on_step-Inv,
  count_down_step-Inv,
}

module _ {T : Type 0} where
  -- No more is written than is received and fits into the ring.
  abbrev pub Within : Threads T → Type 0
  Within s = length s.sent + busy s.producer ≤ length s.received + length s.ring.store

  abbrev InFlight : Threads T → List T → Type 0
  InFlight s flight = Inv s s.producer s.consumer flight

  abbrev Keeps : Threads T → Threads T → Type 0
  Keeps s s' =
      (flight : List T) → InFlight s flight → Within s' → (rest : List T) × InFlight s' rest

  write_step-Keeps :
      (v : T) (p : Producer T) (s : Threads T) → s.producer ≡ p → Keeps s (write_step v p s)
  unfolding write_step
  write_step-Keeps v ready s e flight i w =
      let same = length-set s.ring.store s.ring.next_write_index v in
      let one : length s.sent ≡ length s.received + length flight =
        ap length i.history ∙ length-append s.received flight in
      let room : length flight < length s.ring.store = omega (arith, same, one, w) in
      (
        flight,
        write_step-Inv s flight v s.consumer room (subst (λ p. Inv s p s.consumer flight) e i),
      )
  write_step-Keeps v (wrote x) s e flight i w = (flight, i)
  write_step-Keeps v advanced s e flight i w = (flight, i)

  advance_step-Keeps :
      (p : Producer T) (s : Threads T) → s.producer ≡ p → Keeps s (advance_step p s)
  unfolding advance_step
  advance_step-Keeps (wrote v) s e flight i w = (
    flight ++ (v ∷ []),
    advance_step-Inv s flight v s.consumer (subst (λ p. Inv s p s.consumer flight) e i),
  )
  advance_step-Keeps ready s e flight i w = (flight, i)
  advance_step-Keeps advanced s e flight i w = (flight, i)

  count_up_step-Keeps :
      (p : Producer T) (s : Threads T) → s.producer ≡ p → Keeps s (count_up_step p s)
  unfolding count_up_step
  count_up_step-Keeps advanced s e flight i w =
      (flight, count_up_step-Inv s flight s.consumer (subst (λ p. Inv s p s.consumer flight) e i))
  count_up_step-Keeps ready s e flight i w = (flight, i)
  count_up_step-Keeps (wrote v) s e flight i w = (flight, i)

  read_step-Keeps : (c : Consumer T) (s : Threads T) → s.consumer ≡ c → Keeps s (read_step c s)
  unfolding read_step
  read_step-Keeps waiting s e flight i w =
      (flight, read_step-Inv s flight e (subst (λ c. Inv s s.producer c flight) e i))
  read_step-Keeps (holding v) s e flight i w = (flight, i)
  read_step-Keeps moved s e flight i w = (flight, i)

  move_on_step-Keeps :
      (c : Consumer T) (s : Threads T) → s.consumer ≡ c → Keeps s (move_on_step c s)
  unfolding move_on_step
  move_on_step-Keeps (holding v) s e flight i w =
      let j : Inv s s.producer (holding v) flight = subst (λ c. Inv s s.producer c flight) e i in
      let (rest, f, n) = j.held in (rest, move_on_step-Inv s flight v rest s.producer f n j)
  move_on_step-Keeps waiting s e flight i w = (flight, i)
  move_on_step-Keeps moved s e flight i w = (flight, i)

  count_down_step-Keeps :
      (c : Consumer T) (s : Threads T) → s.consumer ≡ c → Keeps s (count_down_step c s)
  unfolding count_down_step
  count_down_step-Keeps moved s e flight i w =
      (flight, count_down_step-Inv s flight s.producer (subst (λ c. Inv s s.producer c flight) e i))
  count_down_step-Keeps waiting s e flight i w = (flight, i)
  count_down_step-Keeps (holding v) s e flight i w = (flight, i)

  thread_step-Keeps : (e : Event T) (s : Threads T) → Keeps s (thread_step e s)
  unfolding thread_step
  thread_step-Keeps (write v) s = write_step-Keeps v s.producer s refl
  thread_step-Keeps advance s = advance_step-Keeps s.producer s refl
  thread_step-Keeps count_up s = count_up_step-Keeps s.producer s refl
  thread_step-Keeps read s = read_step-Keeps s.consumer s refl
  thread_step-Keeps move_on s = move_on_step-Keeps s.consumer s refl
  thread_step-Keeps count_down s = count_down_step-Keeps s.consumer s refl

  run_threads-InFlight :
      (es : List (Event T)) (s : Threads T) (flight : List T)
      → InFlight s flight
      → All Within (trace es s)
      → (rest : List T) × InFlight (run_threads es s) rest
  unfolding run_threads trace
  run_threads-InFlight [] s flight i w = (flight, i)
  run_threads-InFlight (e ∷ es) s flight i (w, ws) =
      let (rest, j) = thread_step-Keeps e s flight i w in
      run_threads-InFlight es (thread_step e s) rest j ws

  start-InFlight : (n : ℕ) (v : T) → 0 < n → InFlight (start n v) []
  unfolding start window
  start-InFlight n v h = record {
    read_in = rw (length-replicate n v) h;
    write_at = rw (length-replicate n v) (ground arith);
    fits = omega arith;
    counted = refl;
    window_is = refl;
    written = tt;
    held = tt;
    history = refl;
  }

  -- What the threads have done: the sent elements are those received, in their order, and those
  -- in flight, which the ring has room for.
  abbrev pub IsFifo : Threads T → Type 0
  IsFifo s =
      (flight : List T) × (s.sent ≡ s.received ++ flight)
      × (length flight ≤ length s.ring.store)
      × (s.consumer ≡ moved → 0 < s.ring.num_elements)

  -- However the steps of one producer and of one consumer on a new ring of `n > 0` slots
  -- interleave, and as long as the producer never writes while all slots hold elements not yet
  -- received: what is received is what was sent, in the same order, without its last elements,
  -- which the ring has slots for; and the counter is not zero when the consumer asserts that,
  -- before it decrements it.
  pub run_threads-IsFifo :
      (n : ℕ) (v : T) (es : List (Event T))
      → 0 < n
      → All Within (trace es (start n v))
      → IsFifo (run_threads es (start n v))
  run_threads-IsFifo n v es h w =
      let s = run_threads es (start n v) in
      let (flight, i) = run_threads-InFlight es (start n v) [] (start-InFlight n v h) w in
      (
        flight,
        i.history,
        omega (arith, i.fits),
        λ e. subst (λ c. Held s.ring.num_elements flight c) e i.held,
      )
