-- ===== src/Tests/Main.antt =====
-- Examples for the command line program.
use trading_matching_engine.Base.{
  Option, some, none, Bool, false, ℕ, zero, suc, ◌≡◌, refl, String, List, [], ◌∷◌, arith, replicate,
}
use trading_matching_engine.Base.Int.{pos}
use trading_matching_engine.Types.{Symbol, buy, limit}
use trading_matching_engine.Csv.Orders.{Fields, texts, IsOrder, order_of, parse_line-join}
use trading_matching_engine.Messages.{EngineOrderRequest}
use trading_matching_engine.Csv.{
  parsed, parse_line, parse_fields, parse_typed, parse_numbers, split_fields, parse_type,
  parse_side,
}
use trading_matching_engine.Csv.Number.{stoull, stoll}
use trading_matching_engine.Csv.Lines.{join}
use trading_matching_engine.Core.{new_core}
use trading_matching_engine.Core.Runs.{Event, routed, served, run}
use trading_matching_engine.Program.{
  no_polls, symbols_of, is_known, read_orders, take_line, report, comma_list, print_lines,
}
use trading_matching_engine.Program.Wait.{IsRising, Ends as WaitEnds, wait_until_idle-Ends}
use trading_matching_engine.Program.Main.{
  run_main, serve_orders, complaints, choose_output, reported, EngineRun, collected,
}
use trading_matching_engine.Program.Outcomes.{Ends, run_main-Ends}
use trading_matching_engine.Program.Symbols.{is_named, run_none_unknown}
use trading_matching_engine.Tests.Market.{first_ask, second_ask, limit_request}

replicate-IsRising : (n k : ℕ) → IsRising k k (replicate n k)
replicate-IsRising zero k = omega arith
replicate-IsRising (suc n) k = (omega arith, replicate-IsRising n k)

-- One response, seen at every poll.
wait_until_idle-Ends_example : WaitEnds (1 ∷ replicate 29 1) no_polls
wait_until_idle-Ends_example =
    wait_until_idle-Ends 1 (1 ∷ replicate 29 1) (omega arith, replicate-IsRising 29 1) (omega arith)

abbrev main_events : List Event
main_events = routed second_ask ∷ served "AAPL" (pos 1) ∷ routed first_ask ∷ []

run_none_unknown_example :
    (run main_events
      (new_core 8 (symbols_of (first_ask ∷ second_ask ∷ []) []))).unknown_symbol_responses
    ≡ []
unfolding is_named
run_none_unknown_example =
    run_none_unknown 8 (first_ask ∷ second_ask ∷ []) main_events (refl, (refl, tt))

abbrev line : String
line = "LIMIT,10,AAPL,3,BUY,99,4"

abbrev line_request : EngineOrderRequest
line_request = record (limit_request 10 3 buy (pos 99) 4) { recv_time = pos 0 }

abbrev fields : Fields
fields = record {
  type = limit;
  client_id = "10";
  symbol = "AAPL";
  order_id = "3";
  side = "BUY";
  price = "99";
  qty = "4";
}

fields-IsOrder : IsOrder fields 10 3 4 (pos 99)
unfolding stoull stoll
fields-IsOrder = record {
  known = λ e. ground arith;
  client_id_is = refl;
  order_id_is = refl;
  price_is = refl;
  qty_is = refl;
  client_id_field = (refl, (refl, tt));
  symbol_field = (refl, (refl, (refl, (refl, tt))));
  order_id_field = (refl, tt);
  side_field = (refl, (refl, (refl, tt)));
  price_field = (refl, (refl, tt));
  qty_field = (refl, tt);
}

parse_line-join_example :
    parse_line (join (texts fields)) ≡ parsed (order_of fields 10 3 4 (pos 99))
parse_line-join_example = parse_line-join fields fields-IsOrder

-- The only file that opens has a comment, an order and a line that is none.
abbrev file_lines : List String
file_lines = "# orders" ∷ line ∷ "LIMIT,10" ∷ []

abbrev open_input : String → Option (List String)
open_input path = some file_lines

abbrev can_open : String → Bool
can_open path = false

abbrev show : ℕ → String
show n = "1"

abbrev engine : List EngineOrderRequest → List Symbol → EngineRun
engine os ss = collected ("a response" ∷ []) ("an update" ∷ [])

run_main-Ends_example :
    Ends open_input can_open show engine "engine" "orders.csv" ("report.txt" ∷ []) file_lines
run_main-Ends_example =
    run_main-Ends open_input can_open show engine "engine" "orders.csv" ("report.txt" ∷ [])
      file_lines refl

run_main_reports :
    run_main open_input can_open show engine ("engine" ∷ "orders.csv" ∷ "report.txt" ∷ [])
    ≡ reported
        ("skipping malformed line: " ∷ "LIMIT,10" ∷ "\n" ∷ "could not open output file "
          ∷ "report.txt" ∷ ", writing to stdout instead\n" ∷ [])
        none
        ("orders read: " ∷ "1" ∷ ", symbols: " ∷ "AAPL" ∷ "" ∷ "\n\n--- responses ---\n"
          ∷ "a response" ∷ "\n" ∷ "\n--- book updates ---\n" ∷ "an update" ∷ "\n" ∷ [])
unfolding run_main serve_orders read_orders take_line complaints choose_output symbols_of is_known
    report comma_list print_lines parse_line parse_fields parse_typed parse_numbers split_fields
    parse_type parse_side stoull stoll
run_main_reports = refl
