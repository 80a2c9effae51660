-- ===== src/Queue/Writers.antt =====
-- Two producer threads at one ring of lock_free_queue.h, as the matching threads are at the queue
-- of the one Logger of exchange/matcher/matching_core.h.
use trading_matching_engine.Base.{
  ℕ, zero, suc, ◌+◌, ◌%◌, ◌<◌, ◌≡◌, ◌≢◌, refl, ap, ap₂, ◌∙◌, List, [], ◌∷◌, ◌++◌, append_assoc,
  some, arith, length, length-set, get_elem?, set,
}
use trading_matching_engine.Queue.{LfQueue, push}
use trading_matching_engine.Queue.Ring.{
  wrap, window, contents, IsRing, push-contents, get_elem?-set_other,
}
use trading_matching_engine.Queue.Threads.Flight.{window-snoc}

module _ {T : Type 0} where
  -- The write through the pointer that `getNextToWriteTo` returns.
  unfoldable pub write_next : T → LfQueue T → LfQueue T
  write_next v q = record q { store = set q.store q.next_write_index v }

  unfoldable pub update_write_index : LfQueue T → LfQueue T
  update_write_index q = record q {
    next_write_index = (q.next_write_index + 1) % length q.store;
    num_elements = q.num_elements + 1;
  }

  -- Two writers that both take the slot before either moves the index on.
  unfoldable pub overlap : T → T → LfQueue T → LfQueue T
  unfolding write_next update_write_index
  overlap a b q = update_write_index (update_write_index (write_next b (write_next a q)))

  set_twice : (xs : List T) (i : ℕ) (a b : T) → set (set xs i a) i b ≡ set xs i b
  set_twice [] i a b = refl
  set_twice (x ∷ xs) zero a b = refl
  set_twice (x ∷ xs) (suc i) a b = ap (◌∷◌ x) (set_twice xs i a b)

  -- When two producers write to a ring that has two free slots and both take the slot before either
  -- moves the index on, the element of the first is lost, and a slot that nobody wrote comes behind
  -- that of the second; one after the other, they add their two elements.
  pub overlap-contents :
      (a b : T) (q : LfQueue T)
      → IsRing q
      → q.num_elements + 1 < length q.store
      → (contents (overlap a b q)
          ≡ contents q
            ++ (some b
                ∷ get_elem? q.store
                    (wrap (length q.store) (q.next_read_index + (q.num_elements + 1)))
                ∷ []))
        × (contents (push b (push a q)) ≡ contents q ++ (some a ∷ some b ∷ []))
  unfolding overlap push
  overlap-contents a b q r room =
      let i = q.next_read_index in
      let n = q.num_elements in
      let w = q.next_write_index in
      let once = set q.store w b in
      let same = length-set q.store w b in
      let in_once : i < length once = rw same r.read_in in
      let stale = wrap (length q.store) (i + (n + 1)) in
      let elsewhere : w ≢ stale = λ e. ground (arith, r.write_at, r.read_in) in
      let more : n + 1 + 1 ≡ suc (n + 1) = omega arith in
      let (_, alone) = push-contents b q r (omega arith) in
      let (ring, first) = push-contents a q r (omega arith) in
      let (_, second) = push-contents b (push a q) ring (omega (arith, length-set q.store w a)) in
      (
        ap (λ xs. window xs i (n + 1 + 1)) (set_twice q.store w a b)
            ∙ ap (window once i) more
            ∙ window-snoc once i (n + 1) in_once (omega arith)
            ∙ ap₂ (λ l o. l ++ (o ∷ [])) alone
                (ap (λ m. get_elem? once (wrap m (i + (n + 1)))) same
                  ∙ get_elem?-set_other q.store w stale b elsewhere)
            ∙ append_assoc (contents q) (some b ∷ []) (get_elem? q.store stale ∷ []),
        second
            ∙ ap (λ l. l ++ (some b ∷ [])) first
            ∙ append_assoc (contents q) (some a ∷ []) (some b ∷ []),
      )
