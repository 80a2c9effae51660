-- ===== src/System/Rings.antt =====
-- A reader of a ring that was never overrun gets all that was written to it.
use trading_matching_engine.Base.{
  ℕ, ◌+◌, ◌≤◌, ◌<◌, ◌≡◌, refl, sym, ap, ap₂, ◌∙◌, List, [], ◌∷◌, ◌++◌, append_assoc, append-nil,
  map, arith, length, All,
}
use trading_matching_engine.Dict.{lookup, string_Eq}
use trading_matching_engine.Types.{Symbol}
use trading_matching_engine.Messages.{BookUpdate}
use trading_matching_engine.Queue.{LfQueue, new_queue}
use trading_matching_engine.Queue.Holds.{
  Holds, push-Holds, read-Holds, new_queue-Holds, length-snoc,
}
use trading_matching_engine.Core.{MatchingCore}
use trading_matching_engine.System.{
  write_all, read_all, update_ring, update_queues, updates_from, drained, blank_update,
}

module _ {T : Type 0} where
  write_all-Holds :
      (size : ℕ) (us queue : List T) {q : LfQueue T}
      → length queue + length us ≤ size
      → Holds size queue q
      → Holds size (queue ++ us) (write_all us q)
  unfolding write_all
  write_all-Holds size [] queue fits h = rw (append-nil queue) h
  write_all-Holds size (u ∷ us) queue fits h = rw (sym (append_assoc queue (u ∷ []) us)) (
      write_all-Holds size us (queue ++ (u ∷ [])) (omega (arith, length-snoc queue u))
        (push-Holds size queue u (omega arith) h))

  read_all-Holds :
      (size : ℕ) (queue : List T) {q : LfQueue T}
      → Holds size queue q
      → read_all (length queue) q ≡ queue
  unfolding read_all
  read_all-Holds size [] h = refl
  read_all-Holds size (v ∷ queue) h =
      let (read, left) = read-Holds size v queue h in
      rw (read, read_all) (ap (◌∷◌ v) (read_all-Holds size queue left))

module _ {T : Type 0} (blank : T) (size : ℕ) (pos_size : 0 < size) where
  -- What a reader gets of a ring that is new, has been written to, and was not overrun.
  pub read_all-write_all :
      (us : List T)
      → length us ≤ size
      → let q = write_all us (new_queue size blank) in read_all q.num_elements q ≡ us
  read_all-write_all us fits =
      let q = write_all us (new_queue size blank) in
      let h = write_all-Holds size us [] (omega arith) (new_queue-Holds size blank pos_size) in
      ap (λ n. read_all n q) h.count ∙ read_all-Holds size us h

pub drained-update_ring :
    (size : ℕ) (us : List BookUpdate)
    → 0 < size
    → length us ≤ size
    → drained (update_ring size us) ≡ us
drained-update_ring size us pos_size fits = read_all-write_all blank_update size pos_size us fits

-- What the symbols' books have written.
abbrev pub histories : List Symbol → MatchingCore → List (List BookUpdate)
histories ss core = map (λ s. updates_from (lookup s core.contexts)) ss

-- None of the symbols has sent more updates than a ring has slots.
abbrev pub FitsRings : ℕ → List Symbol → MatchingCore → Type 0
FitsRings size ss core = All (λ s. length (updates_from (lookup s core.contexts)) ≤ size) ss

pub drained-update_queues :
    (size : ℕ) (ss : List Symbol) (core : MatchingCore)
    → 0 < size
    → FitsRings size ss core
    → map drained (update_queues size ss core) ≡ histories ss core
unfolding update_queues
drained-update_queues size [] core pos_size fits = refl
drained-update_queues size (s ∷ ss) core pos_size fits =
    ap₂ ◌∷◌ (drained-update_ring size (updates_from (lookup s core.contexts)) pos_size fits.0)
      (drained-update_queues size ss core pos_size fits.1)
