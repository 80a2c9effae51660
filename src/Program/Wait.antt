-- ===== src/Program/Wait.antt =====
-- When the wait of exchange_main.cpp for the responses ends.
use trading_matching_engine.Base.{
  ℕ, ◌+◌, ◌-◌, ◌*◌, ◌≤◌, ◌≡◌, refl, List, [], ◌∷◌, some, arith, length, ltb, ◌==◌, Bool-cases, inl,
  inr,
}
use trading_matching_engine.Program.{Poll, poll, wait_until_idle, no_polls}

-- Numbers that never fall, from one on, and stay within a total.
abbrev pub IsRising : ℕ → ℕ → List ℕ → Type 0
IsRising last total [] = last ≤ total
IsRising last total (size ∷ sizes) = (last ≤ size) × IsRising size total sizes

IsRising-le : (last total : ℕ) (sizes : List ℕ) → IsRising last total sizes → last ≤ total
IsRising-le last total [] r = r
IsRising-le last total (size ∷ sizes) r = omega (arith, IsRising-le size total sizes r.1)

-- How the loop ends.
abbrev pub Ends : List ℕ → Poll → Type 0
Ends sizes p =
    (q : Poll) × (wait_until_idle sizes p ≡ some q)
    × (15 ≤ q.idle_polls)
    × (p.last_seen ≤ q.last_seen)

ends :
    (total : ℕ) (sizes : List ℕ) (p : Poll)
    → IsRising p.last_seen total sizes
    → 15 * (total - p.last_seen + 1) ≤ p.idle_polls + length sizes
    → Ends sizes p
unfolding wait_until_idle poll
ends total [] p r enough = (p, ground arith, omega arith, omega arith)
ends total (size ∷ sizes) p r enough = elim (Bool-cases (ltb p.idle_polls 15)) [
  | inr over ↦ (p, rw over refl, ground arith, omega arith)
  | inl waits ↦ elim (Bool-cases (size == p.last_seen)) [
    | inl same ↦
        let (q, e, full, up) =
          ends total sizes (record p { idle_polls = p.idle_polls + 1 }) (ground arith)
            (omega arith) in
        (q, rw (waits, same) e, full, up)
    | inr new ↦
        let top = IsRising-le size total sizes r.1 in
        let (q, e, full, up) =
          ends total sizes (record { last_seen = size; idle_polls = 0 }) r.1 (ground arith) in
        (q, rw (waits, new) e, full, omega arith)
  ]
]

-- If the number of responses never falls and never passes a total, the wait of `main` ends within
-- fifteen polls for each response and fifteen more, after fifteen polls that brought nothing new.
pub wait_until_idle-Ends :
    (total : ℕ) (sizes : List ℕ)
    → IsRising 0 total sizes
    → 15 * (total + 1) ≤ length sizes
    → Ends sizes no_polls
wait_until_idle-Ends total sizes r enough = ends total sizes no_polls r (omega arith)
