-- ===== src/Tests/Replies.antt =====
-- Two orders on their way through the gateway and the core, and the responses on their way back.
use trading_matching_engine.Base.{◌≡◌, refl, true, List, [], ◌∷◌, ◌++◌, some, arith}
use trading_matching_engine.Base.Int.{pos}
use trading_matching_engine.Dict.{lookup, insert, string_Eq}
use trading_matching_engine.Types.{Symbol}
use trading_matching_engine.Book.{new_book, append_order, rest_order}
use trading_matching_engine.Match.{match_incoming, match_levels}
use trading_matching_engine.Entry.{add_limit_order, rest_remainder}
use trading_matching_engine.Queue.{push, new_queue, get_next_to_read, advance_read}
use trading_matching_engine.Core.{
  SymbolContext, process_request, dispatch, new_core, new_contexts, blank_request, route_request,
  serve_symbol, serve,
}
use trading_matching_engine.Core.Runs.{Event, routed, served, step, run, routed_to}
use trading_matching_engine.Core.Handled.{has_room}
use trading_matching_engine.Core.Drained.{rounds_of}
use trading_matching_engine.Sequencer.{new_sequencer, tag, enqueue, flush}
use trading_matching_engine.Sequencer.Order.{enqueue_all}
use trading_matching_engine.Gateway.{
  OrderGatewayServer, run_round, drain_inbox, drain_responses, deliver,
}
use trading_matching_engine.Program.{is_known}
use trading_matching_engine.System.{response_queues}
use trading_matching_engine.System.Replies.{
  routed_in, read_rings, FitsQueues, AreAnswered, run_round-AreAnswered,
}
use trading_matching_engine.Tests.Market.{first_ask, second_ask}
use trading_matching_engine.Tests.Sorting.{insertion_sort, place}

-- The one received later comes first.
abbrev submitted : OrderGatewayServer
submitted = record {
  inbox = (pos 9, first_ask) ∷ (pos 4, second_ask) ∷ [];
  sequencer = new_sequencer;
  incoming_responses = [];
  response_callback = true;
  delivered = [];
}

abbrev symbols : List Symbol
symbols = "AAPL" ∷ "MSFT" ∷ []

abbrev engine_events : List Event
engine_events =
    routed (tag (pos 4) second_ask) ∷ served "AAPL" (pos 10) ∷ routed (tag (pos 9) first_ask) ∷ []

abbrev last_round : List Event
last_round = served "AAPL" (pos 11) ∷ []

abbrev answering : OrderGatewayServer
answering = record {
  inbox = [];
  sequencer = new_sequencer;
  incoming_responses =
      read_rings
        (response_queues 4 symbols (run (engine_events ++ last_round) (new_core 4 symbols)));
  response_callback = true;
  delivered = [];
}

engine_events-routed :
    routed_in engine_events ≡ (run_round insertion_sort submitted).sequencer.routed
unfolding routed_in run_round drain_inbox drain_responses deliver enqueue_all enqueue flush
    insertion_sort place
engine_events-routed = refl

abbrev half_context : SymbolContext
half_context = record {
  request_queue =
      push (tag (pos 9) first_ask)
        (advance_read (push (tag (pos 4) second_ask) (new_queue 4 blank_request)));
  book = process_request (tag (pos 4) second_ask) (pos 10) (new_book "AAPL");
}

engine_events-context :
    lookup "AAPL" (run engine_events (new_core 4 symbols)).contexts ≡ some half_context
unfolding run step new_core new_contexts route_request serve_symbol serve lookup insert push
    new_queue get_next_to_read
engine_events-context = refl

engine_events-FitsQueues :
    FitsQueues 4 symbols (run (engine_events ++ last_round) (new_core 4 symbols))
unfolding run step new_core new_contexts route_request serve_symbol serve lookup insert push
    new_queue get_next_to_read process_request dispatch add_limit_order rest_remainder
    match_incoming match_levels rest_order append_order new_book
engine_events-FitsQueues = (omega arith, (omega arith, (omega arith, tt)))

run_round-AreAnswered_example :
    AreAnswered "AAPL"
      (run_round insertion_sort submitted).sequencer.routed
      (run_round insertion_sort answering).delivered
unfolding is_known has_room routed_to rounds_of push new_queue
run_round-AreAnswered_example =
    run_round-AreAnswered insertion_sort 4 symbols submitted answering engine_events last_round
      "AAPL" half_context (omega arith) refl engine_events-routed refl engine_events-context refl
      (omega arith) engine_events-FitsQueues refl refl
