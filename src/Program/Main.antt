-- ===== src/Program/Main.antt =====
-- `main` of exchange_main.cpp from its arguments to its outcome. The files are functions: what the
-- lines of a file are, if it can be opened, and whether a file can be opened for writing. How
-- the engine runs on the orders is an argument.
use trading_matching_engine.Base.{
  ℕ, String, Bool, List, [], ◌∷◌, ◌++◌, Option, none, some, if◌then◌else◌,
}
use trading_matching_engine.Types.{Symbol}
use trading_matching_engine.Messages.{EngineOrderRequest}
use trading_matching_engine.Program.{Input, read_orders, symbols_of, report}

-- The end of the program, with what it has written to the error stream: an exit with a status, an
-- exception in the parser that nothing catches, status 0 after a report to a file or to the standard
-- output, a run of the engine that ends the program, or one that never comes to rest.
pub data Outcome : Type 0 where
  exited : ℕ → List String → Outcome
  uncaught : Outcome
  reported : List String → Option String → List String → Outcome
  terminated : List String → Outcome
  waiting : List String → Outcome

-- How the run of the engine on the orders goes on until the wait for the responses is over: with
-- the lines of responses and updates that the callbacks have collected by then, by an assertion or
-- an exception that ends the program, or without an end of the wait.
pub data EngineRun : Type 0 where
  collected : List String → List String → EngineRun
  ended : EngineRun
  endless : EngineRun

abbrev pub no_input : Input
no_input = record { orders = []; malformed = [] }

-- The complaints about lines that are skipped.
unfoldable pub complaints : List String → List String
complaints [] = []
complaints (line ∷ lines) = "skipping malformed line: " ∷ line ∷ "\n" ∷ complaints lines

-- Where the report goes, and what is said if the file for it does not open.
unfoldable pub choose_output : (String → Bool) → List String → Option String × List String
choose_output can_open [] = (none, [])
choose_output can_open (file ∷ rest) =
    if can_open file
    then (some file, [])
    else (none, "could not open output file " ∷ file ∷ ", writing to stdout instead\n" ∷ [])

module _ (open_input : String → Option (List String)) (can_open : String → Bool) (show : ℕ → String)
    (engine : List EngineOrderRequest → List Symbol → EngineRun) where
  -- After the file has been read.
  unfoldable pub serve_orders :
      String → List String → List String → List EngineOrderRequest → Outcome
  unfolding symbols_of report
  serve_orders path rest malformed [] =
      exited 1 (complaints malformed ++ ("no valid orders found in " ∷ path ∷ "\n" ∷ []))
  serve_orders path rest malformed (o ∷ os) =
      let symbols = symbols_of (o ∷ os) [] in
      elim (engine (o ∷ os) symbols) [
        | collected response_lines update_lines ↦
            let (output, notes) = choose_output can_open rest in
            reported (complaints malformed ++ notes) output
              (report show (o ∷ os) symbols response_lines update_lines)
        | ended ↦ terminated (complaints malformed)
        | endless ↦ waiting (complaints malformed)
      ]

  unfoldable pub run_main : List String → Outcome
  unfolding serve_orders read_orders
  run_main [] = exited 1 ("usage: " ∷ [])
  run_main (name ∷ []) = exited 1 ("usage: " ∷ name ∷ " <orders.csv> [output.txt]\n" ∷ [])
  run_main (name ∷ path ∷ rest) = elim (open_input path) [
    | none ↦ exited 1 ("could not open " ∷ path ∷ "\n" ∷ [])
    | some lines ↦ elim (read_orders lines no_input) [
      | none ↦ uncaught
      | some i ↦ serve_orders path rest i.malformed i.orders
    ]
  ]
