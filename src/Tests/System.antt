-- ===== src/Tests/System.antt =====
-- Examples for the way of the requests and their updates through the components.
use trading_matching_engine.Base.{
  ◌≡◌, refl, ◌++◌, List, [], ◌∷◌, some, arith, sym, subst, ◌∙◌, ◌<◌, ◌≤◌, length, append-nil,
}
use trading_matching_engine.Base.Int.{pos}
use trading_matching_engine.Dict.{lookup, insert, string_Eq, nat_Eq}
use trading_matching_engine.Types.{Symbol, Nanos, OrderType}
use trading_matching_engine.Book.{
  new_book, BookOrder, SymbolOrderBook, find_node, find_order, find_level, rest_order, append_order,
  remove_order, unlink_order, unlink,
}
use trading_matching_engine.Core.{
  SymbolContext, process_request, new_core, new_contexts, blank_request, route_request,
  serve_symbol, serve, dispatch,
}
use trading_matching_engine.Core.Runs.{Event, routed, served, step, run, routed_to}
use trading_matching_engine.Core.Drained.{IsDrained, rounds_of, run-IsDrained}
use trading_matching_engine.Snapshot.{apply_stream, or_empty}
use trading_matching_engine.Snapshot.Rounds.{
  Round, new_service, run_rounds, arrivals, IsSpaced, run_rounds-IsSpaced,
}
use trading_matching_engine.Core.Handled.{has_room}
use trading_matching_engine.Queue.{push, new_queue, get_next_to_read, advance_read}
use trading_matching_engine.Tests.Market.{first_ask, second_ask, small_book, first_bid, resting_bid}
use mathlib.Core.Option.{some-injective}
use trading_matching_engine.Messages.{EngineOrderRequest}
use trading_matching_engine.Book.Nodes.{seen}
use trading_matching_engine.Book.Valid.{resting}
use trading_matching_engine.Match.{match_incoming, match_levels, match_level, visit, fill}
use trading_matching_engine.Entry.{add_limit_order, modify_order, reprice, rest_remainder}
use trading_matching_engine.Entry.Mirror.{reprice_leaves}
use trading_matching_engine.Core.Sync.{Remains}
use trading_matching_engine.Core.Valid.{process_all}
use trading_matching_engine.Feed.{new_feed, run_feed}
use trading_matching_engine.Snapshot.Orders.{entry_of}
use trading_matching_engine.Program.{is_known}
use trading_matching_engine.System.{update_queues, update_ring, drained, write_all, read_all}
use trading_matching_engine.System.Rings.{FitsRings}
use trading_matching_engine.System.Snapshots.{fed, run_rounds-resting}

abbrev symbols : List Symbol
symbols = "AAPL" ∷ "MSFT" ∷ []

-- Two requests are routed to one symbol, and one of them is handled.
abbrev half_served : List Event
half_served = routed first_ask ∷ served "AAPL" (pos 1) ∷ routed second_ask ∷ []

abbrev half_context : SymbolContext
half_context = record {
  request_queue = push second_ask (advance_read (push first_ask (new_queue 4 blank_request)));
  book = process_request first_ask (pos 1) (new_book "AAPL");
}

half_served-context :
    lookup "AAPL" (run half_served (new_core 4 symbols)).contexts ≡ some half_context
unfolding run step new_core new_contexts route_request serve_symbol serve lookup insert push
    new_queue get_next_to_read
half_served-context = refl

run-IsDrained_example : IsDrained 4 "AAPL" (half_served ++ (served "AAPL" (pos 2) ∷ [])) symbols
unfolding routed_to rounds_of has_room push new_queue
run-IsDrained_example =
    run-IsDrained 4 symbols half_served (served "AAPL" (pos 2) ∷ []) "AAPL" half_context
      (omega arith) refl half_served-context refl (omega arith)

-- A bid is placed and then moved to a lower price.
abbrev lower_bid : EngineOrderRequest
lower_bid = record first_bid { order_type = OrderType.modify; price = pos 98 }

abbrev moves : List Event
moves = routed first_bid ∷ served "AAPL" (pos 1) ∷ routed lower_bid ∷ served "AAPL" (pos 2) ∷ []

abbrev moved : List (EngineOrderRequest × Nanos)
moved = (first_bid, pos 1) ∷ (lower_bid, pos 2) ∷ []

abbrev moved_context : SymbolContext
moved_context = record {
  request_queue =
      advance_read (push lower_bid (advance_read (push first_bid (new_queue 4 blank_request))));
  book = process_all moved (new_book "AAPL");
}

moves-context : lookup "AAPL" (run moves (new_core 4 symbols)).contexts ≡ some moved_context
unfolding run step new_core new_contexts route_request serve_symbol serve lookup insert push
    new_queue get_next_to_read process_all
moves-context = refl

abbrev bid_book : SymbolOrderBook
bid_book = process_request first_bid (pos 1) (new_book "AAPL")

abbrev placed_bid : BookOrder
placed_bid = record resting_bid { priority_ts = pos 1 }

placed_bid-found : find_order 3 bid_book ≡ some placed_bid
unfolding find_order find_level find_node process_request dispatch add_limit_order rest_remainder
    match_incoming match_levels rest_order append_order new_book
placed_bid-found = refl

lower_bid-rests : (reprice_leaves placed_bid 10 3 (pos 98) 4 bid_book).1 ≡ 4
unfolding process_request dispatch add_limit_order rest_remainder match_incoming match_levels
    match_level visit fill rest_order append_order new_book remove_order unlink_order unlink
    find_level
lower_bid-rests = refl

lower_bid-Remains : Remains OrderType.modify lower_bid 3 bid_book
lower_bid-Remains e o found own good differs =
    let same : placed_bid ≡ o = some-injective placed_bid o (sym placed_bid-found ∙ found) in
    subst (λ x. 0 < (reprice_leaves x 10 3 (pos 98) 4 bid_book).1) same
      (omega (arith, lower_bid-rests))

-- The updates of the engine, received in one round.
abbrev all_updates : List Round
all_updates =
    record {
      arrived = drained (update_ring 4 (fed 4 symbols (run moves (new_core 4 symbols))));
      checked = pos 61000000000;
      stamped = pos 61000000001;
    }
    ∷ []

moves-FitsRings : FitsRings 4 symbols (run moves (new_core 4 symbols))
unfolding run step new_core new_contexts route_request serve_symbol serve lookup insert push
    new_queue get_next_to_read process_request dispatch add_limit_order modify_order reprice
    rest_remainder match_incoming match_levels rest_order append_order new_book remove_order
    unlink_order unlink find_level find_order find_node
moves-FitsRings = (omega arith, (omega arith, tt))

moves-fed : length (fed 4 symbols (run moves (new_core 4 symbols))) ≤ 4
unfolding run step new_core new_contexts route_request serve_symbol serve lookup insert push
    new_queue get_next_to_read process_request dispatch add_limit_order modify_order reprice
    rest_remainder match_incoming match_levels rest_order append_order new_book remove_order
    unlink_order unlink find_level find_order find_node run_feed new_feed update_queues write_all
    read_all
moves-fed = omega arith

run_rounds-resting_example :
    lookup 3 (or_empty (lookup "AAPL" (run_rounds all_updates new_service).mirror))
    ≡ seen entry_of (find_node 3 (resting moved_context.book))
unfolding is_known
run_rounds-resting_example =
    run_rounds-resting 4 symbols moves all_updates "AAPL" moved_context 3 moved (omega arith)
      (refl, (refl, tt)) refl moves-context refl (tt, (lower_bid-Remains, tt)) moves-FitsRings
      moves-fed (append-nil _)

-- Two rounds that both publish, and one between them that is too early.
abbrev rounds : List Round
rounds =
    record { arrived = small_book.updates; checked = pos 61000000000; stamped = pos 61000000001 }
    ∷ record { arrived = []; checked = pos 70000000000; stamped = pos 70000000001 }
    ∷ record { arrived = []; checked = pos 122000000000; stamped = pos 122000000001 }
    ∷ []

run_rounds-IsSpaced_example :
    ((run_rounds rounds new_service).mirror ≡ apply_stream (arrivals rounds) [])
    × IsSpaced (pos 0) (run_rounds rounds new_service).published
run_rounds-IsSpaced_example =
    run_rounds-IsSpaced rounds (omega arith, (omega arith, (omega arith, tt)))
