-- ===== src/Csv.antt =====
-- The order lines of exchange/exchange_main.cpp: parseType, parseSide, splitFields, parseLine.
pub mod Number
pub mod Lines
pub mod Orders
use Prim.Native.Char.{Char, code}
use text.Mathlib.Text.{◌==◌ as str_eq}
use trading_matching_engine.Csv.Number.{stoull, stoll}
use trading_matching_engine.Base.{
  ◌==◌, Bool, true, ℕ, String, ◌≡◌, refl, List, [], ◌∷◌, Option, none, some, if◌then◌else◌,
}
use trading_matching_engine.Base.Int.{ℤ, pos}
use trading_matching_engine.Types.{
  Side, OrderType, buy, sell, limit, market, ioc, cancel, modify, side_to_string,
  order_type_to_string,
}
use trading_matching_engine.Messages.{EngineOrderRequest}

unfoldable pub parse_type : String → OrderType
parse_type s =
    if str_eq s "LIMIT"
    then limit
    else if str_eq s "MARKET"
    then market
    else if str_eq s "IOC"
    then ioc
    else if str_eq s "CANCEL"
    then cancel
    else if str_eq s "MODIFY"
    then modify
    else OrderType.invalid

unfoldable pub parse_side : String → Side
parse_side s = if str_eq s "BUY" then buy else if str_eq s "SELL" then sell else Side.invalid

-- A line is skipped, ends the program by an exception, or is a request.
pub data Parsed : Type 0 where
  skipped : Parsed
  thrown : Parsed
  parsed : EngineOrderRequest → Parsed

-- The order of the evaluation is that of the assignments; the type is not `INVALID` here.
unfoldable pub parse_numbers :
    OrderType → String → String → String → String → String → String → Parsed
unfolding parse_side
parse_numbers type client_id symbol order_id side price qty = elim (stoull client_id) [
  | none ↦ thrown
  | some c ↦ elim (stoull order_id) [
    | none ↦ thrown
    | some o ↦ elim (stoll price) [
      | none ↦ thrown
      | some p ↦ elim (stoull qty) [
        | none ↦ thrown
        | some q ↦ parsed (record {
          order_type = type;
          client_id = c;
          symbol = symbol;
          order_id = o;
          side = parse_side side;
          price = p;
          qty = q;
          recv_time = pos 0;
        })
      ]
    ]
  ]
]

unfoldable pub parse_typed :
    OrderType → String → String → String → String → String → String → Parsed
unfolding parse_numbers
parse_typed OrderType.invalid client_id symbol order_id side price qty = skipped
parse_typed type client_id symbol order_id side price qty =
    parse_numbers type client_id symbol order_id side price qty

unfoldable pub parse_fields : List String → Parsed
unfolding parse_type parse_typed
parse_fields (type ∷ client_id ∷ symbol ∷ order_id ∷ side ∷ price ∷ qty ∷ []) =
    parse_typed (parse_type type) client_id symbol order_id side price qty
parse_fields _ = skipped

-- A character in front of the first field.
abbrev pub push : Char → List String → List String
push c [] = String.◌∷◌ c "" ∷ []
push c (f ∷ fs) = String.◌∷◌ c f ∷ fs

-- `std::getline` with the delimiter ',' until it fails: it ends a field at a comma, and fails if
-- it is at the end before it has read a character, so no empty field follows the last comma.
unfoldable pub split_fields : String → List String
split_fields String.[] = []
split_fields (String.◌∷◌ c s) =
    let rest = split_fields s in if code c == b',' then "" ∷ rest else push c rest

abbrev pub is_comment : String → Bool
is_comment String.[] = true
is_comment (String.◌∷◌ c s) = code c == b'#'

-- Empty lines and comments are skipped.
unfoldable pub parse_line : String → Parsed
unfolding parse_fields split_fields
parse_line line = if is_comment line then skipped else parse_fields (split_fields line)

types : (t : OrderType) → parse_type (order_type_to_string t) ≡ t
unfolding parse_type
types limit = refl
types market = refl
types ioc = refl
types cancel = refl
types modify = refl
types _ = refl

sides : (s : Side) → parse_side (side_to_string s) ≡ s
unfolding parse_side
sides buy = refl
sides sell = refl
sides _ = refl

-- The printed name of an order type is parsed as that type, and that of a side as that side.
pub parse_type-order_type_to_string :
    (t : OrderType) (s : Side)
    → (parse_type (order_type_to_string t) ≡ t) × (parse_side (side_to_string s) ≡ s)
parse_type-order_type_to_string t s = (types t, sides s)
