-- ===== src/Snapshot/Rounds.antt =====
-- The service thread of book_snapshot_service.h: the rounds of `run`, with the clock's readings and
-- the updates that arrive before a round as their input.
use trading_matching_engine.Base.{
  ℕ, ◌+◌, ◌*◌, ◌<◌, ◌≡◌, refl, sym, ap, ◌∙◌, Bool, true, List, [], ◌∷◌, ◌++◌, map, arith, length,
  ltb, if◌then◌else◌, Bool-cases, inl, inr,
}
use trading_matching_engine.Base.Int.{pos, pos_part, neg_part, ◌≤ℤ◌}
use trading_matching_engine.Types.{Nanos, Symbol}
use trading_matching_engine.Messages.{BookUpdate}
use trading_matching_engine.Snapshot.{Mirror, apply_update, apply_stream}

abbrev pub snapshot_interval_nanos : ℕ
snapshot_interval_nanos = 60 * 1000000000

-- What `publishSnapshot` logs: the symbols with the numbers of their orders.
abbrev pub Counts : Type 0
Counts = List (Symbol × ℕ)

-- The queue of updates, oldest first, and the snapshots published so far, each with its time.
pub record BookSnapshotService : Type 0 where
  pub incoming_updates : List BookUpdate
  pub mirror : Mirror
  pub last_snapshot_time : Nanos
  pub published : List (Nanos × Counts)

abbrev pub new_service : BookSnapshotService
new_service = record {
  incoming_updates = [];
  mirror = [];
  last_snapshot_time = pos 0;
  published = [];
}

unfoldable pub publish_snapshot : Mirror → Counts
publish_snapshot mirror = map (λ (symbol, book). (symbol, length book)) mirror

-- `now - last > SNAPSHOT_INTERVAL_NANOS`, for readings whose difference is an `int64_t`.
abbrev pub is_due : Nanos → Nanos → Bool
is_due now last =
    ltb (snapshot_interval_nanos + (pos_part last + neg_part now)) (pos_part now + neg_part last)

-- What a round of `run` meets: the updates that have arrived, and the clock's two readings.
pub record Round : Type 0 where
  pub arrived : List BookUpdate
  pub checked : Nanos
  pub stamped : Nanos

unfoldable pub run_round : Round → BookSnapshotService → BookSnapshotService
unfolding apply_stream publish_snapshot
run_round r s =
    let mirror = apply_stream (s.incoming_updates ++ r.arrived) s.mirror in
    if is_due r.checked s.last_snapshot_time
    then record {
      incoming_updates = [];
      mirror = mirror;
      last_snapshot_time = r.stamped;
      published = s.published ++ ((r.stamped, publish_snapshot mirror) ∷ []);
    }
    else record s { incoming_updates = []; mirror = mirror }

unfoldable pub run_rounds : List Round → BookSnapshotService → BookSnapshotService
unfolding run_round
run_rounds [] s = s
run_rounds (r ∷ rs) s = run_rounds rs (run_round r s)

-- The time of the last snapshot, or another if there is none.
abbrev last_time : Nanos → List (Nanos × Counts) → Nanos
last_time t [] = t
last_time t ((u, c) ∷ ps) = last_time u ps

-- Each snapshot is more than the interval after the one before it, the first after a given time.
abbrev pub IsSpaced : Nanos → List (Nanos × Counts) → Type 0
IsSpaced t [] = Unit {0}
IsSpaced t ((u, c) ∷ ps) =
    (snapshot_interval_nanos + (pos_part t + neg_part u) < pos_part u + neg_part t) × IsSpaced u ps

IsSpaced-snoc :
    (t u : Nanos) (c : Counts) (ps : List (Nanos × Counts))
    → IsSpaced t ps
    → is_due u (last_time t ps) ≡ true
    → IsSpaced t (ps ++ ((u, c) ∷ [])) × (last_time t (ps ++ ((u, c) ∷ [])) ≡ u)
IsSpaced-snoc t u c [] s due = ((ground arith, tt), refl)
IsSpaced-snoc t u c ((v, d) ∷ ps) s due =
    let (spaced, at_end) = IsSpaced-snoc v u c ps s.1 due in ((s.0, spaced), at_end)

-- In every round, the second reading of the clock is not before the first.
abbrev pub IsTimed : List Round → Type 0
IsTimed [] = Unit {0}
IsTimed (r ∷ rs) = (r.checked ≤ℤ r.stamped) × IsTimed rs

abbrev pub arrivals : List Round → List BookUpdate
arrivals [] = []
arrivals (r ∷ rs) = r.arrived ++ arrivals rs

apply_stream-append :
    (us vs : List BookUpdate) (m : Mirror)
    → apply_stream (us ++ vs) m ≡ apply_stream vs (apply_stream us m)
unfolding apply_stream
apply_stream-append [] vs m = refl
apply_stream-append (u ∷ us) vs m = apply_stream-append us vs (apply_update u m)

-- What the thread keeps between its rounds.
record IsCurrent (s : BookSnapshotService) : Type 0 where
  spaced : IsSpaced (pos 0) s.published
  last : last_time (pos 0) s.published ≡ s.last_snapshot_time

run_round-IsCurrent :
    (r : Round) (s : BookSnapshotService)
    → r.checked ≤ℤ r.stamped
    → IsCurrent s
    → IsCurrent (run_round r s)
unfolding run_round
run_round-IsCurrent r s h i = elim (Bool-cases (is_due r.checked s.last_snapshot_time)) [
  | inl due ↦
      let mirror = apply_stream (s.incoming_updates ++ r.arrived) s.mirror in
      let later : is_due r.stamped s.last_snapshot_time ≡ true = ground arith in
      let (spaced, last) =
        IsSpaced-snoc (pos 0) r.stamped (publish_snapshot mirror) s.published i.spaced
          (ap (is_due r.stamped) i.last ∙ later) in
      rw due (record { spaced = spaced; last = last })
  | inr early ↦ rw early (record { spaced = i.spaced; last = i.last })
]

run_round-mirror :
    (r : Round) (s : BookSnapshotService)
    → ((run_round r s).mirror ≡ apply_stream (s.incoming_updates ++ r.arrived) s.mirror)
      × ((run_round r s).incoming_updates ≡ [])
unfolding run_round
run_round-mirror r s = elim (Bool-cases (is_due r.checked s.last_snapshot_time)) [
  | inl due ↦ rw due (refl, refl)
  | inr early ↦ rw early (refl, refl)
]

run_rounds-IsCurrent :
    (rs : List Round) (s : BookSnapshotService)
    → IsTimed rs
    → IsCurrent s
    → IsCurrent (run_rounds rs s)
unfolding run_rounds
run_rounds-IsCurrent [] s h i = i
run_rounds-IsCurrent (r ∷ rs) s h i =
    run_rounds-IsCurrent rs (run_round r s) h.1 (run_round-IsCurrent r s h.0 i)

pub run_rounds-mirror :
    (rs : List Round) (s : BookSnapshotService)
    → s.incoming_updates ≡ []
    → (run_rounds rs s).mirror ≡ apply_stream (arrivals rs) s.mirror
unfolding run_rounds apply_stream
run_rounds-mirror [] s e = refl
run_rounds-mirror (r ∷ rs) s e =
    let (now, drained) = run_round-mirror r s in
    run_rounds-mirror rs (run_round r s) drained
    ∙ ap (apply_stream (arrivals rs)) (now ∙ ap (λ us. apply_stream (us ++ r.arrived) s.mirror) e)
    ∙ sym (apply_stream-append r.arrived (arrivals rs) s.mirror)

-- If in every round the clock does not run backwards between its two readings: after any rounds of
-- a new service, the mirror is what all updates that have arrived make of an empty one, in their
-- order, and each snapshot was published more than sixty seconds after the one before it.
pub run_rounds-IsSpaced :
    (rs : List Round)
    → IsTimed rs
    → ((run_rounds rs new_service).mirror ≡ apply_stream (arrivals rs) [])
      × IsSpaced (pos 0) (run_rounds rs new_service).published
run_rounds-IsSpaced rs h = (
  run_rounds-mirror rs new_service refl,
  (run_rounds-IsCurrent rs new_service h (record { spaced = tt; last = refl })).spaced,
)
