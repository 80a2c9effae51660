-- ===== src/Logging/File.antt =====
-- The thread that writes the lines of the queue to the log file.
use trading_matching_engine.Base.{
  ℕ, zero, suc, ◌+◌, ◌≤◌, ◌<◌, ◌≡◌, refl, sym, ap, ◌∙◌, String, List, [], ◌∷◌, Option, none, some,
  arith, length, get_elem?, ◌==◌, Bool-cases, inl, inr,
}
use trading_matching_engine.Base.Text.{append_text, append_text_assoc, append_text-nil}
use trading_matching_engine.Queue.{LfQueue, get_next_to_read, update_read_index}
use trading_matching_engine.Queue.Ring.{IsRing, window, contents, update_read_index-contents}
use trading_matching_engine.Logging.{Logger, flush_queue}

-- The lines of a queue one behind the other.
unfoldable pub lines_of : List (Option String) → String
lines_of [] = ""
lines_of (none ∷ os) = lines_of os
lines_of (some s ∷ os) = append_text s (lines_of os)

abbrev pub Flushes : ℕ → Logger → Type 0
Flushes fuel l =
    (l' : Logger) × (flush_queue fuel l ≡ some l')
    × (l'.file ≡ append_text l.file (lines_of (contents l.queue)))
    × (l'.queue.num_elements ≡ 0)
    × IsRing l'.queue

module _ {T : Type 0} where
  get_elem?-lt : (xs : List T) (i : ℕ) → i < length xs → (v : T) × (get_elem? xs i ≡ some v)
  get_elem?-lt [] i h = absurd (omega arith)
  get_elem?-lt (x ∷ xs) zero h = (x, refl)
  get_elem?-lt (x ∷ xs) (suc i) h = get_elem?-lt xs i (omega arith)

  next_line :
      (q : LfQueue T) → IsRing q → 0 < q.num_elements → (v : T) × (get_next_to_read q ≡ some v)
  unfolding get_next_to_read
  next_line q r more =
      let (v, e) = get_elem?-lt q.store q.next_read_index r.read_in in (v, ground arith)

  num_elements-update_read_index :
      (q q' : LfQueue T) → update_read_index q ≡ some q' → q'.num_elements + 1 ≡ q.num_elements
  unfolding update_read_index
  num_elements-update_read_index q q' h = ground arith

-- An empty queue has no lines.
contents-empty : (q : LfQueue String) → q.num_elements ≡ 0 → lines_of (contents q) ≡ ""
unfolding lines_of window
contents-empty q e = ap (λ n. lines_of (window q.store q.next_read_index n)) e

-- If the fuel is at least the number of lines in the queue, the loop of `flushQueue` ends without
-- the assertion; the file has then got all the lines in their order, and the queue is empty.
pub flush_queue-lines_of :
    (fuel : ℕ) (l : Logger) → IsRing l.queue → l.queue.num_elements ≤ fuel → Flushes fuel l
unfolding flush_queue
flush_queue-lines_of zero l r enough = (
  l,
  refl,
  sym (append_text-nil l.file)
      ∙ ap (append_text l.file) (sym (contents-empty l.queue (omega arith))),
  omega arith,
  r,
)
flush_queue-lines_of (suc fuel) l r enough = elim (Bool-cases (l.queue.num_elements == 0)) [
  | inl done ↦
      let nothing : get_next_to_read l.queue ≡ none = unfold get_next_to_read in rw done refl in
      (
        l,
        rw (nothing, flush_queue) refl,
        sym (append_text-nil l.file)
            ∙ ap (append_text l.file) (sym (contents-empty l.queue (ground arith))),
        ground arith,
        r,
      )
  | inr more ↦
      let (line, next) = next_line l.queue r (ground arith) in
      let (q, moved, ring, before) = update_read_index-contents l.queue r (ground arith) in
      let fewer = num_elements-update_read_index l.queue q moved in
      let (l', ended, file, empty, ring') =
        flush_queue-lines_of fuel (record { file = append_text l.file line; queue = q }) ring
          (omega arith) in
      (
        l',
        rw (next, moved, flush_queue) ended,
        file
            ∙ append_text_assoc l.file line (lines_of (contents q))
            ∙ ap (append_text l.file) (
                sym (
                  ap lines_of (before ∙ ap (λ o. o ∷ contents q) next)
                  ∙ (unfold lines_of in refl))),
        empty,
        ring',
      )
]
