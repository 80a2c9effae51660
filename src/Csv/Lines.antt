-- ===== src/Csv/Lines.antt =====
-- What `splitFields` of exchange_main.cpp makes of a line.
use Prim.Native.Char.{Char, code}
use trading_matching_engine.Base.{String, ◌≡◌, refl, ap, ◌∙◌, false, List, [], ◌∷◌, ◌==◌}
use trading_matching_engine.Csv.{split_fields}

-- A field without a comma.
abbrev pub IsField : String → Type 0
IsField String.[] = Unit {0}
IsField (String.◌∷◌ c s) = ((code c == b',') ≡ false) × IsField s

-- Fields with commas between them.
abbrev pub behind : String → String → String
behind String.[] rest = rest
behind (String.◌∷◌ c s) rest = String.◌∷◌ c (behind s rest)

abbrev pub comma : Char
comma = ","

unfoldable pub join : List String → String
join [] = ""
join (f ∷ []) = f
join (f ∷ g ∷ fs) = behind f (String.◌∷◌ comma (join (g ∷ fs)))

-- The last field is not empty.
abbrev pub LastIsField : List String → Type 0
LastIsField [] = Unit {0}
LastIsField (String.[] ∷ []) = ⊥
LastIsField (f ∷ []) = IsField f
LastIsField (f ∷ g ∷ fs) = IsField f × LastIsField (g ∷ fs)

split_fields-last :
    (c : Char) (s : String)
    → IsField (String.◌∷◌ c s)
    → split_fields (String.◌∷◌ c s) ≡ String.◌∷◌ c s ∷ []
unfolding split_fields
split_fields-last c String.[] h = rw h.0 refl
split_fields-last c (String.◌∷◌ d s) h = rw (h.0, split_fields-last d s h.1) refl

split_fields-behind :
    (f rest : String)
    → IsField f
    → split_fields (behind f (String.◌∷◌ comma rest)) ≡ f ∷ split_fields rest
unfolding split_fields
split_fields-behind String.[] rest h = refl
split_fields-behind (String.◌∷◌ c s) rest h = rw (h.0, split_fields-behind s rest h.1) refl

-- Fields that hold no comma, the last of them not empty, are what a line is split into that joins
-- them by commas.
pub split_fields-join :
    (fields : List String) → LastIsField fields → split_fields (join fields) ≡ fields
unfolding join
split_fields-join [] h = unfold split_fields in refl
split_fields-join (String.[] ∷ []) h = absurd h
split_fields-join (String.◌∷◌ c s ∷ []) h = split_fields-last c s h
split_fields-join (f ∷ g ∷ fs) h =
    split_fields-behind f (join (g ∷ fs)) h.0 ∙ ap (◌∷◌ f) (split_fields-join (g ∷ fs) h.1)
