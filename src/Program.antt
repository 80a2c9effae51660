-- ===== src/Program.antt =====
-- exchange/exchange_main.cpp: what `main` computes around the engine: the orders of the input file,
-- the symbols that need a book, the wait for the responses, and the report.
pub mod Wait
pub mod Main
pub mod Outcomes
pub mod Collected
pub mod Symbols
use trading_matching_engine.Base.{
  ℕ, zero, suc, ◌+◌, String, Bool, true, false, not, ◌&&◌, List, [], ◌∷◌, ◌++◌, Option, none, some,
  length, ltb, ◌==◌, if◌then◌else◌,
}
use trading_matching_engine.Dict.{string_Eq}
use trading_matching_engine.Types.{Symbol}
use trading_matching_engine.Messages.{EngineOrderRequest}
use trading_matching_engine.Csv.{Parsed, skipped, thrown, parsed, parse_line, is_comment}

-- The orders so far, and the lines that `main` has complained about.
pub record Input : Type 0 where
  pub orders : List EngineOrderRequest
  pub malformed : List String

unfoldable pub take_line : String → Parsed → Input → Option Input
take_line line thrown i = none
take_line line skipped i =
    some (if is_comment line then i else record i { malformed = i.malformed ++ (line ∷ []) })
take_line line (parsed r) i = some (record i { orders = i.orders ++ (r ∷ []) })

-- The loop over the lines of the file; `none` is an exception that ends the program.
unfoldable pub read_orders : List String → Input → Option Input
unfolding take_line parse_line
read_orders [] i = some i
read_orders (line ∷ lines) i = elim (take_line line (parse_line line) i) [
  | none ↦ none
  | some i' ↦ read_orders lines i'
]

-- `std::find(...) == end`.
unfoldable pub is_known : Symbol → List Symbol → Bool
is_known s [] = false
is_known s (t ∷ ts) = if string_Eq.beq t s then true else is_known s ts

-- The symbols of the orders, each where it is first seen.
unfoldable pub symbols_of : List EngineOrderRequest → List Symbol → List Symbol
unfolding is_known
symbols_of [] seen = seen
symbols_of (o ∷ os) seen =
    symbols_of os (if is_known o.symbol seen then seen else seen ++ (o.symbol ∷ []))

-- One poll of the number of responses: the number last seen, and how often nothing was new.
pub record Poll : Type 0 where
  pub last_seen : ℕ
  pub idle_polls : ℕ

abbrev pub no_polls : Poll
no_polls = record { last_seen = 0; idle_polls = 0 }

unfoldable pub poll : ℕ → Poll → Poll
poll size p =
    if size == p.last_seen
    then record p { idle_polls = p.idle_polls + 1 }
    else record { last_seen = size; idle_polls = 0 }

-- The loop, on what `response_lines.size()` is at the polls to come; `none` if it has not ended
-- by then.
unfoldable pub wait_until_idle : List ℕ → Poll → Option Poll
unfolding poll
wait_until_idle [] p = if ltb p.idle_polls 15 then none else some p
wait_until_idle (size ∷ sizes) p =
    let rest = wait_until_idle sizes (poll size p) in if ltb p.idle_polls 15 then rest else some p

-- The symbols with commas between them.
unfoldable pub comma_list : List Symbol → List String
comma_list [] = []
comma_list (s ∷ []) = s ∷ "" ∷ []
comma_list (s ∷ t ∷ ts) = s ∷ "," ∷ comma_list (t ∷ ts)

unfoldable pub print_lines : List String → List String
print_lines [] = []
print_lines (l ∷ ls) = l ∷ "\n" ∷ print_lines ls

-- What is written, text by text; `show` prints a number.
unfoldable pub report :
    (ℕ → String) → List EngineOrderRequest → List Symbol → List String → List String → List String
unfolding comma_list print_lines
report show orders symbols response_lines update_lines =
    "orders read: "
    ∷ show (length orders)
    ∷ ", symbols: "
    ∷ (comma_list symbols
        ++ ("\n\n--- responses ---\n"
            ∷ (print_lines response_lines
                ++ ("\n--- book updates ---\n" ∷ print_lines update_lines))))
