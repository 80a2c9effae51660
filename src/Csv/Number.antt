-- ===== src/Csv/Number.antt =====
-- `std::stoull` and `std::stoll` in base 10, as exchange_main.cpp calls them: white space, a sign,
-- digits, and whatever follows these is ignored. `none` stands for the exception.
use Prim.Native.Char.{code}
use Prim.Native.String.{String}
use trading_matching_engine.Base.{
  ℕ, zero, suc, ◌+◌, ◌-◌, ◌*◌, ◌%◌, ◌^◌, Bool, true, false, ◌||◌, ◌&&◌, Option, none, some, ltb,
  leb, ◌==◌, if◌then◌else◌,
}
use trading_matching_engine.Base.Int.{ℤ, pos, negsuc}

is_space : ℕ → Bool
is_space c = c == b' ' || (leb 9 c && leb c 13)

is_digit : ℕ → Bool
is_digit c = leb b'0' c && leb c b'9'

skip_spaces : String → String
unfolding is_space
skip_spaces String.[] = ""
skip_spaces (String.◌∷◌ c s) =
    let rest = skip_spaces s in if is_space (code c) then rest else String.◌∷◌ c s

-- Whether there is a minus, and the text behind the sign.
signed : String → Bool × String
signed String.[] = (false, "")
signed (String.◌∷◌ c s) =
    if code c == b'-'
    then (true, s)
    else if code c == b'+'
    then (false, s)
    else (false, String.◌∷◌ c s)

-- The value of the digits at the front of a text, behind those that `acc` stands for, if there are
-- any.
unfoldable pub digits : Bool → ℕ → String → Option ℕ
unfolding is_digit
digits some_read acc String.[] = if some_read then some acc else none
digits some_read acc (String.◌∷◌ c s) =
    let rest = digits true (acc * 10 + (code c - b'0')) s in
    if is_digit (code c) then rest else if some_read then some acc else none

magnitude : String → Option ℕ
unfolding skip_spaces signed digits
magnitude s = digits false 0 (signed (skip_spaces s)).1

is_negative : String → Bool
unfolding skip_spaces signed
is_negative s = (signed (skip_spaces s)).0

abbrev pub minus : ℕ → ℤ
minus zero = pos 0
minus (suc n) = negsuc n

-- A negative number is taken modulo 2^64.
unfoldable pub stoull : String → Option ℕ
unfolding magnitude is_negative
stoull s = elim (magnitude s) [
  | none ↦ none
  | some n ↦
      if leb (2 ^ 64) n then none else some (if is_negative s then (2 ^ 64 - n) % 2 ^ 64 else n)
]

unfoldable pub stoll : String → Option ℤ
unfolding magnitude is_negative
stoll s = elim (magnitude s) [
  | none ↦ none
  | some n ↦
      if is_negative s
      then if leb n (2 ^ 63) then some (minus n) else none
      else if ltb n (2 ^ 63)
      then some (pos n)
      else none
]
