-- ===== src/Queue/Threads/Moves.antt =====
-- Each step of the producer and of the consumer, and the elements in flight.
use native.Mathlib.Nat.{mod-lt}
use trading_matching_engine.Base.{
  suc, ◌+◌, ◌%◌, ◌<◌, ◌≡◌, refl, sym, ap, ap₂, subst, ◌∙◌, List, [], ◌∷◌, ◌++◌, append_assoc, some,
  arith, length, length-append, length-set, get_elem?, set, ◌==◌, Bool-cases, inl, inr,
}
use trading_matching_engine.Queue.Ring.{wrap-next, window, get_elem?-set_same}
use trading_matching_engine.Queue.Threads.{
  Producer, ready, wrote, advanced, Consumer, waiting, holding, moved, Threads, write_step,
  advance_step, count_up_step, read_step, move_on_step, count_down_step,
}
use trading_matching_engine.Queue.Threads.Flight.{
  window-set_outside, window-snoc, somes, somes-append, Held, Inv,
}

module _ {T : Type 0} where
  module _ (s : Threads T) (flight : List T) where
    pub write_step-Inv :
        (v : T) (c : Consumer T)
        → length flight < length s.ring.store
        → Inv s ready c flight
        → Inv (write_step v ready s) (wrote v) c flight
    unfolding write_step
    write_step-Inv v c room i =
        let q = s.ring in
        let same = length-set q.store q.next_write_index v in
        let write_in : q.next_write_index < length q.store =
          ground (arith, i.write_at, i.read_in) in
        record {
          read_in = rw same i.read_in;
          write_at = rw same i.write_at;
          fits = rw same (omega arith);
          counted = i.counted;
          window_is =
              ap (λ w. window (set q.store w v) q.next_read_index (length flight)) i.write_at
              ∙ window-set_outside q.store v q.next_read_index (length flight) (length flight)
                  i.read_in room (omega arith)
              ∙ i.window_is;
          written = get_elem?-set_same q.store q.next_write_index v write_in;
          held = i.held;
          history = i.history;
        }

    pub advance_step-Inv :
        (v : T) (c : Consumer T)
        → Inv s (wrote v) c flight
        → Inv (advance_step (wrote v) s) advanced c (flight ++ (v ∷ []))
    unfolding advance_step
    advance_step-Inv v c i =
        let q = s.ring in
        let one = length-append flight (v ∷ []) in
        let longer : length (flight ++ (v ∷ [])) ≡ suc (length flight) = omega (arith, one) in
        let write_in : q.next_write_index < length q.store =
          ground (arith, i.write_at, i.read_in, i.fits) in
        let next = wrap-next (length q.store) q.next_write_index write_in in
        record {
          read_in = i.read_in;
          write_at = ground (arith, next, i.write_at, i.read_in, i.fits, longer);
          fits = omega (arith, i.fits, longer);
          counted = omega (arith, i.counted, longer);
          window_is =
              ap (window q.store q.next_read_index) longer
              ∙ window-snoc q.store q.next_read_index (length flight) i.read_in
                  (omega (arith, i.fits))
              ∙ ap
                  (λ w.
                    window q.store q.next_read_index (length flight) ++ (get_elem? q.store w ∷ []))
                  (sym i.write_at)
              ∙ ap₂ (λ w o. w ++ (o ∷ [])) i.window_is i.written
              ∙ sym (somes-append flight (v ∷ []));
          written = tt;
          held = Held-longer c i.held;
          history = ap (λ h. h ++ (v ∷ [])) i.history ∙ append_assoc s.received flight (v ∷ []);
        }
      where
        Held-longer :
            (c : Consumer T)
            → Held s.ring.num_elements flight c
            → Held s.ring.num_elements (flight ++ (v ∷ [])) c
        Held-longer waiting h = tt
        Held-longer moved h = h
        Held-longer (holding x) (rest, e, n) = (rest ++ (v ∷ []), ap (λ l. l ++ (v ∷ [])) e, n)

    pub count_up_step-Inv :
        (c : Consumer T) → Inv s advanced c flight → Inv (count_up_step advanced s) ready c flight
    unfolding count_up_step
    count_up_step-Inv c i = record {
      read_in = i.read_in;
      write_at = i.write_at;
      fits = omega (arith, i.fits);
      counted = omega (arith, i.counted);
      window_is = i.window_is;
      written = tt;
      held = Held-more c i.held;
      history = i.history;
    }
      where
        Held-more :
            (c : Consumer T)
            → Held s.ring.num_elements flight c
            → Held (s.ring.num_elements + 1) flight c
        Held-more waiting h = tt
        Held-more moved h = omega arith
        Held-more (holding x) (rest, e, n) = (rest, e, omega arith)

    -- The oldest element is at the read index.
    front :
        (v : T) (rest : List T) (p : Producer T) (c : Consumer T)
        → flight ≡ v ∷ rest
        → Inv s p c flight
        → (get_elem? s.ring.store s.ring.next_read_index ≡ some v)
          × (window s.ring.store ((s.ring.next_read_index + 1) % length s.ring.store) (length rest)
              ≡ somes rest)
    unfolding window
    front v rest p c e i =
        let all = window s.ring.store s.ring.next_read_index in
        let w : all (suc (length rest)) ≡ some v ∷ somes rest =
          ap (λ l. all (length l)) (sym e) ∙ i.window_is ∙ ap somes e in
        (cc, cc)

    pub read_step-Inv :
        s.consumer ≡ waiting
        → Inv s s.producer waiting flight
        → Inv
            (read_step waiting s)
            ((read_step waiting s).producer)
            ((read_step waiting s).consumer)
            flight
    unfolding read_step
    read_step-Inv e i = elim (Bool-cases (s.ring.num_elements == 0)) [
      | inl empty ↦ rw empty (subst (λ c. Inv s s.producer c flight) (sym e) i)
      | inr filled ↦
          let some_in : 0 < s.ring.num_elements = ground arith in
          let (v, rest, f) = flight_∷ flight (omega (arith, i.counted)) in
          let (here, _) = front v rest s.producer waiting f i in
          rw (filled, here)
            (record {
              read_in = i.read_in;
              write_at = i.write_at;
              fits = i.fits;
              counted = i.counted;
              window_is = i.window_is;
              written = i.written;
              held = (rest, f, some_in);
              history = i.history;
            })
    ]
      where
        flight_∷ : (l : List T) → 0 < length l → (v : T) × (rest : List T) × (l ≡ v ∷ rest)
        flight_∷ [] h = absurd (omega arith)
        flight_∷ (v ∷ rest) h = (v, rest, refl)

    pub move_on_step-Inv :
        (v : T) (rest : List T) (p : Producer T)
        → flight ≡ v ∷ rest
        → 0 < s.ring.num_elements
        → Inv s p (holding v) flight
        → Inv (move_on_step (holding v) s) p moved rest
    unfolding move_on_step
    move_on_step-Inv v rest p e n i =
        let size = length s.ring.store in
        let shorter : length flight ≡ suc (length rest) = ap length e in
        let step = wrap-next size s.ring.next_read_index i.read_in in
        let (_, w) = front v rest p (holding v) e i in
        record {
          read_in = mod-lt (s.ring.next_read_index + 1) (ground (arith, i.read_in));
          write_at = ground (arith, step, i.write_at, i.read_in, i.fits, shorter);
          fits = omega (arith, i.fits, shorter);
          counted = omega (arith, i.counted, shorter);
          window_is = w;
          written = i.written;
          held = n;
          history =
              i.history ∙ ap (◌++◌ s.received) e ∙ sym (append_assoc s.received (v ∷ []) rest);
        }

    pub count_down_step-Inv :
        (p : Producer T) → Inv s p moved flight → Inv (count_down_step moved s) p waiting flight
    unfolding count_down_step
    count_down_step-Inv p i = record {
      read_in = i.read_in;
      write_at = i.write_at;
      fits = i.fits;
      counted = omega (arith, i.counted, i.held);
      window_is = i.window_is;
      written = i.written;
      held = tt;
      history = i.history;
    }
