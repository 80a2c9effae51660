-- ===== src/Base/Text.antt =====
-- Texts by their characters: length, concatenation and the first characters, over the native
-- numbers.
use Prim.Native.String.{String}
use Prim.Native.Nat.{ℕ, zero, suc, ◌+◌, ◌≤◌, min}
use mathlib.Core.Path.{◌≡◌, refl, ap}
use native.Mathlib.Omega.{arith}

abbrev pub text_length : String → ℕ
text_length String.[] = 0
text_length (String.◌∷◌ c s) = suc (text_length s)

abbrev pub append_text : String → String → String
append_text String.[] t = t
append_text (String.◌∷◌ c s) t = String.◌∷◌ c (append_text s t)

-- The first characters of a text.
abbrev pub take_text : ℕ → String → String
take_text zero s = ""
take_text (suc n) String.[] = ""
take_text (suc n) (String.◌∷◌ c s) = String.◌∷◌ c (take_text n s)

pub text_length-append_text :
    (s t : String) → text_length (append_text s t) ≡ text_length s + text_length t
text_length-append_text String.[] t = omega arith
text_length-append_text (String.◌∷◌ c s) t = omega (arith, text_length-append_text s t)

pub append_text_assoc :
    (s t u : String) → append_text (append_text s t) u ≡ append_text s (append_text t u)
append_text_assoc String.[] t u = refl
append_text_assoc (String.◌∷◌ c s) t u = ap (String.◌∷◌ c) (append_text_assoc s t u)

pub append_text-nil : (s : String) → append_text s "" ≡ s
append_text-nil String.[] = refl
append_text-nil (String.◌∷◌ c s) = ap (String.◌∷◌ c) (append_text-nil s)

pub text_length-take_text :
    (n : ℕ) (s : String) → text_length (take_text n s) ≡ min n (text_length s)
text_length-take_text zero s = omega arith
text_length-take_text (suc n) String.[] = omega arith
text_length-take_text (suc n) (String.◌∷◌ c s) = omega (arith, text_length-take_text n s)

-- A text that fits is taken whole.
pub take_text_all : (n : ℕ) (s : String) → text_length s ≤ n → take_text n s ≡ s
take_text_all zero String.[] h = refl
take_text_all zero (String.◌∷◌ c s) h = absurd (omega arith)
take_text_all (suc n) String.[] h = refl
take_text_all (suc n) (String.◌∷◌ c s) h = ap (String.◌∷◌ c) (take_text_all n s (omega arith))

-- What does not fit leaves nothing of a text behind it.
pub take_text-append_text :
    (n : ℕ) (s t : String) → n ≤ text_length s → take_text n (append_text s t) ≡ take_text n s
take_text-append_text zero s t h = refl
take_text-append_text (suc n) String.[] t h = absurd (omega arith)
take_text-append_text (suc n) (String.◌∷◌ c s) t h =
    ap (String.◌∷◌ c) (take_text-append_text n s t (omega arith))
