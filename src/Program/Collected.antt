-- ===== src/Program/Collected.antt =====
-- The symbols that exchange_main.cpp makes books for: those of its orders, each once.
use text.Mathlib.TextEquality.{eq_iff}
use trading_matching_engine.Base.{
  ◌≡◌, refl, sym, subst, true, false, List, [], ◌∷◌, ◌++◌, arith, if◌then◌else◌, All, Bool-cases,
  inl, inr,
}
use trading_matching_engine.Dict.{string_Eq}
use trading_matching_engine.Types.{Symbol}
use trading_matching_engine.Messages.{EngineOrderRequest}
use trading_matching_engine.Program.{is_known, symbols_of}

pub is_known-append :
    (s : Symbol) (xs ys : List Symbol)
    → is_known s (xs ++ ys) ≡ (if is_known s xs then true else is_known s ys)
unfolding is_known
is_known-append s [] ys = refl
is_known-append s (x ∷ xs) ys = ground (arith, is_known-append s xs ys)

-- No symbol twice.
abbrev pub IsDistinct : List Symbol → Type 0
IsDistinct [] = Unit {0}
IsDistinct (s ∷ ss) = (is_known s ss ≡ false) × IsDistinct ss

pub same_symbol : (s t : Symbol) → string_Eq.beq s t ≡ string_Eq.beq t s
same_symbol s t = ground (arith, eq_iff s t, eq_iff t s)

IsDistinct-append :
    (ss : List Symbol) (s : Symbol)
    → IsDistinct ss
    → is_known s ss ≡ false
    → IsDistinct (ss ++ (s ∷ []))
unfolding is_known
IsDistinct-append [] s d new = (refl, tt)
IsDistinct-append (t ∷ ss) s d new = (
  ground (arith, is_known-append t ss (s ∷ []), same_symbol s t),
  IsDistinct-append ss s d.1 (ground arith),
)

is_known-last : (s : Symbol) (seen : List Symbol) → is_known s (seen ++ (s ∷ [])) ≡ true
unfolding is_known
is_known-last s seen = ground (arith, is_known-append s seen (s ∷ []), eq_iff s s)

symbols_of-keeps :
    (os : List EngineOrderRequest) (seen : List Symbol) (s : Symbol)
    → is_known s seen ≡ true
    → is_known s (symbols_of os seen) ≡ true
unfolding symbols_of
symbols_of-keeps [] seen s h = h
symbols_of-keeps (o ∷ os) seen s h = elim (Bool-cases (is_known o.symbol seen)) [
  | inl old ↦ rw old (symbols_of-keeps os seen s h)
  | inr new ↦ rw new (
      symbols_of-keeps os (seen ++ (o.symbol ∷ [])) s
        (ground (arith, is_known-append s seen (o.symbol ∷ []))))
]

-- The symbols are distinct, and those of some orders are among them.
abbrev pub Serves : List EngineOrderRequest → List Symbol → Type 0
Serves os ss = IsDistinct ss × All (λ o. is_known o.symbol ss ≡ true) os

Serves-cons :
    (o : EngineOrderRequest) (os : List EngineOrderRequest) (ss : List Symbol)
    → is_known o.symbol ss ≡ true
    → Serves os ss
    → Serves (o ∷ os) ss
Serves-cons o os ss h s = (s.0, (h, s.1))

symbols_of-Serves_from :
    (os : List EngineOrderRequest) (seen : List Symbol)
    → IsDistinct seen
    → Serves os (symbols_of os seen)
unfolding symbols_of
symbols_of-Serves_from [] seen d = (d, tt)
symbols_of-Serves_from (o ∷ os) seen d = elim (Bool-cases (is_known o.symbol seen)) [
  | inl old ↦
      let same : symbols_of (o ∷ os) seen ≡ symbols_of os seen = rw old refl in
      subst (Serves (o ∷ os)) (sym same) (
        Serves-cons o os (symbols_of os seen) (symbols_of-keeps os seen o.symbol old)
          (symbols_of-Serves_from os seen d))
  | inr new ↦
      let seen' = seen ++ (o.symbol ∷ []) in
      let same : symbols_of (o ∷ os) seen ≡ symbols_of os seen' = rw new refl in
      subst (Serves (o ∷ os)) (sym same) (
        Serves-cons o os (symbols_of os seen')
          (symbols_of-keeps os seen' o.symbol (is_known-last o.symbol seen))
          (symbols_of-Serves_from os seen' (IsDistinct-append seen o.symbol d new)))
]

-- The symbols that `main` makes books for are those of the orders, each once.
pub symbols_of-Serves : (os : List EngineOrderRequest) → Serves os (symbols_of os [])
symbols_of-Serves os = symbols_of-Serves_from os [] tt
