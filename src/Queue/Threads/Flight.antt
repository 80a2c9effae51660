-- ===== src/Queue/Threads/Flight.antt =====
-- The elements in flight between the producer and the consumer, in the store of the ring.
use native.Mathlib.Nat.{mod-lt}
use trading_matching_engine.Base.{
  ℕ, zero, suc, ◌+◌, ◌%◌, ◌≤◌, ◌<◌, ◌≡◌, ◌≢◌, refl, sym, ap, ap₂, ◌∙◌, List, [], ◌∷◌, ◌++◌, map,
  Option, some, arith, length, length-set, get_elem?, set,
}
use trading_matching_engine.Queue.{LfQueue}
use trading_matching_engine.Queue.Ring.{wrap, wrap-next, window, get_elem?-set_other}
use trading_matching_engine.Queue.Threads.{
  Producer, wrote, advanced, Consumer, waiting, holding, moved, Threads,
}

module _ {T : Type 0} where
  -- A write past a window leaves it.
  pub window-set_outside :
      (xs : List T) (v : T) (i m n : ℕ)
      → i < length xs
      → m < length xs
      → n ≤ m
      → window (set xs (wrap (length xs) (i + m)) v) i n ≡ window xs i n
  unfolding window
  window-set_outside xs v i m zero h k l = refl
  window-set_outside xs v i zero (suc n) h k l = absurd (omega arith)
  window-set_outside xs v i (suc m) (suc n) h k l =
      let w = wrap (length xs) (i + suc m) in
      let next = (i + 1) % length xs in
      let shift : w ≡ wrap (length xs) (next + m) = ground (arith, wrap-next (length xs) i h) in
      let elsewhere : w ≢ i = λ e. ground arith in
      ap₂ ◌∷◌ (get_elem?-set_other xs w i v elsewhere) (
        ap (λ j. window (set xs w v) ((i + 1) % j) n) (length-set xs w v)
        ∙ ap (λ j. window (set xs j v) next n) shift
        ∙ window-set_outside xs v next m n (mod-lt (i + 1) (omega arith)) (omega arith)
            (omega arith))

  -- A window that is one longer has one more element behind.
  pub window-snoc :
      (xs : List T) (i n : ℕ)
      → i < length xs
      → n < length xs
      → window xs i (suc n) ≡ window xs i n ++ (get_elem? xs (wrap (length xs) (i + n)) ∷ [])
  unfolding window
  window-snoc xs i zero h k =
      let here : wrap (length xs) (i + 0) ≡ i = ground arith in
      ap (λ j. get_elem? xs j ∷ []) (sym here)
  window-snoc xs i (suc n) h k =
      let next = (i + 1) % length xs in
      let shift : wrap (length xs) (i + suc n) ≡ wrap (length xs) (next + n) =
        ground (arith, wrap-next (length xs) i h) in
      ap (◌∷◌ (get_elem? xs i)) (
        window-snoc xs next n (mod-lt (i + 1) (omega arith)) (omega arith)
        ∙ ap (λ j. window xs next n ++ (get_elem? xs j ∷ [])) (sym shift))

  abbrev pub somes : List T → List (Option T)
  somes xs = map (λ v. some v) xs

  pub somes-append : (xs ys : List T) → somes (xs ++ ys) ≡ somes xs ++ somes ys
  somes-append [] ys = refl
  somes-append (x ∷ xs) ys = ap (◌∷◌ (some x)) (somes-append xs ys)

  -- One for a thread between its store to the index and that to the counter.
  abbrev pub late_up : Producer T → ℕ
  late_up advanced = 1
  late_up _ = 0

  abbrev pub late_down : Consumer T → ℕ
  late_down moved = 1
  late_down _ = 0

  -- One for a producer that is writing.
  abbrev pub busy : Producer T → ℕ
  busy (wrote v) = 1
  busy _ = 0

  -- A slot that is being written is the one behind the elements.
  abbrev pub Written : LfQueue T → Producer T → Type 0
  Written q (wrote v) = get_elem? q.store q.next_write_index ≡ some v
  Written q _ = Unit {0}

  -- What the consumer holds is the oldest element, and it is counted.
  abbrev pub Held : ℕ → List T → Consumer T → Type 0
  Held n flight (holding v) = (rest : List T) × (flight ≡ v ∷ rest) × (0 < n)
  Held n flight moved = 0 < n
  Held n flight waiting = Unit {0}

  -- The elements in flight are the window from the read index on, and reach up to the write index.
  pub record Inv (s : Threads T) (p : Producer T) (c : Consumer T) (flight : List T) : Type 0 where
    pub read_in : s.ring.next_read_index < length s.ring.store
    pub write_at :
        s.ring.next_write_index
        ≡ wrap (length s.ring.store) (s.ring.next_read_index + length flight)
    pub fits : length flight + busy p ≤ length s.ring.store
    pub counted : s.ring.num_elements + late_up p ≡ length flight + late_down c
    pub window_is : window s.ring.store s.ring.next_read_index (length flight) ≡ somes flight
    pub written : Written s.ring p
    pub held : Held s.ring.num_elements flight c
    pub history : s.sent ≡ s.received ++ flight
