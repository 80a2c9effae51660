-- ===== src/Tests/Engine.antt =====
-- Examples for the core, the order-entry calls and the snapshot mirror.
use trading_matching_engine.Base.{
  ◌∙◌, ◌<◌, sym, subst, arith, true, false, ◌≡◌, refl, List, [], ◌∷◌, some, none,
}
use trading_matching_engine.Base.Int.{pos}
use trading_matching_engine.Dict.{lookup, insert, string_Eq}
use trading_matching_engine.Types.{buy, OrderType}
use trading_matching_engine.Entry.Answers.{Decides}
use trading_matching_engine.Core.Answers.{process_request-Decides, is_refused}
use trading_matching_engine.Core.Refused.{OnlyRefuses, process_request-OnlyRefuses}
use trading_matching_engine.Messages.{EngineOrderRequest}
use trading_matching_engine.Book.{
  BookOrder, SymbolOrderBook, find_order, is_indexed, new_book, find_node, append_order, rest_order,
  remove_order, unlink, unlink_order, find_level,
}
use trading_matching_engine.Book.Levels.{flat}
use trading_matching_engine.Book.Valid.{find_order-resting, resting, IsValid, new_book-IsValid}
use trading_matching_engine.Book.Priority.{IsPlaced}
use trading_matching_engine.Match.{match_incoming, match_levels, match_level, visit, fill}
use trading_matching_engine.Match.Uncrossed.{IsUncrossed, new_book-IsUncrossed}
use trading_matching_engine.Entry.Decrease.{modify_order-Stands}
use trading_matching_engine.Book.Nodes.{Stands}
use trading_matching_engine.Entry.Increase.{renewed, modify_order-IsPlaced}
use trading_matching_engine.Entry.Transient.{add_market_order-find_node}
use trading_matching_engine.Entry.{
  modify_order, add_market_order, add_ioc_order, add_limit_order, rest_remainder, reprice,
}
use trading_matching_engine.Entry.Sync.{SyncedAt, IsSynced, new_book-IsSynced}
use trading_matching_engine.Entry.Mirror.{reprice_phantom, reprice_leaves}
use trading_matching_engine.Snapshot.Orders.{entry_of, mirrored}
use trading_matching_engine.Core.{
  process_request, dispatch, SymbolContext, new_core, new_contexts, blank_request, route_request,
  serve_symbol, serve,
}
use trading_matching_engine.Core.Handled.{has_room}
use trading_matching_engine.Queue.{push, new_queue, get_next_to_read, advance_read}
use trading_matching_engine.Core.Valid.{process_all, process_request-IsValid}
use trading_matching_engine.Core.Uncrossed.{process_all-IsUncrossed}
use trading_matching_engine.Core.Sync.{Remains, process_request-SyncedAt}
use mathlib.Core.Option.{some-injective}
use trading_matching_engine.Core.Runs.{Event, routed, served, step, run}
use trading_matching_engine.Core.Reachable.{
  HandledFromNew, reachable-HandledFromNew, reachable-IsValid,
}
use trading_matching_engine.Tests.Market.{
  limit_request, first_ask, second_ask, first_bid, timed_requests, small_book, small_book-IsValid,
  resting_bid,
}

abbrev crossing_bid : EngineOrderRequest
crossing_bid = limit_request 30 9 buy (pos 101) 8

process_request-IsValid_example : IsValid (process_request crossing_bid (pos 4) small_book)
process_request-IsValid_example = process_request-IsValid crossing_bid (pos 4) small_book-IsValid

process_all-IsUncrossed_example : IsUncrossed small_book
process_all-IsUncrossed_example =
    process_all-IsUncrossed timed_requests (new_book "AAPL") (new_book-IsValid "AAPL")
      (new_book-IsUncrossed "AAPL")

-- The mirror of the small book, one request after the other.
small_book-IsSynced : IsSynced small_book
unfolding process_all
small_book-IsSynced j =
    let v0 = new_book-IsValid "AAPL" in
    let v1 = process_request-IsValid first_ask (pos 1) v0 in
    let v2 = process_request-IsValid second_ask (pos 2) v1 in
    process_request-SyncedAt first_bid (pos 3) j v2 tt (
      process_request-SyncedAt second_ask (pos 2) j v1 tt
        (process_request-SyncedAt first_ask (pos 1) j v0 tt (new_book-IsSynced "AAPL" j)))

small_book-resting_bid : find_node 3 (resting small_book) ≡ some resting_bid
unfolding process_all process_request dispatch add_limit_order rest_remainder match_incoming
    match_levels match_level visit fill rest_order append_order new_book flat find_node
small_book-resting_bid = refl

-- At 101 the bid of client 10 passes over the client's own ask and takes four of the other.
repriced_fills : (reprice_leaves resting_bid 10 3 (pos 101) 4 small_book).1 ≡ 0
unfolding process_all process_request dispatch add_limit_order rest_remainder match_incoming
    match_levels match_level visit fill rest_order append_order new_book remove_order unlink_order
    unlink find_level
repriced_fills = refl

reprice_phantom_example :
    (mirrored 3 (reprice resting_bid 10 3 (pos 101) 4 (pos 5) small_book).updates
      ≡ some (entry_of resting_bid))
    × (find_node 3 (resting (reprice resting_bid 10 3 (pos 101) 4 (pos 5) small_book)) ≡ none)
reprice_phantom_example =
    reprice_phantom 10 3 resting_bid (pos 101) 4 (pos 5) small_book-IsValid small_book-IsSynced
      (small_book-resting_bid, refl) repriced_fills

-- The order is cancelled by a client whose it is not.
abbrev foreign_cancel : EngineOrderRequest
foreign_cancel = record first_bid { order_type = OrderType.cancel; client_id = 20 }

foreign_cancel-is_refused : is_refused foreign_cancel small_book ≡ true
unfolding find_order find_level find_node process_all process_request dispatch add_limit_order
    new_book rest_order append_order rest_remainder match_incoming match_levels
foreign_cancel-is_refused = refl

process_request-Decides_example :
    Decides 20 3 true small_book (process_request foreign_cancel (pos 4) small_book)
unfolding find_order find_level find_node process_all process_request dispatch add_limit_order
    new_book rest_order append_order rest_remainder match_incoming match_levels
process_request-Decides_example = process_request-Decides foreign_cancel (pos 4) small_book

process_request-OnlyRefuses_example :
    OnlyRefuses 20 3 small_book (process_request foreign_cancel (pos 4) small_book)
process_request-OnlyRefuses_example =
    process_request-OnlyRefuses foreign_cancel (pos 4) small_book foreign_cancel-is_refused

-- Two requests are routed to one symbol, and one of them is handled.
abbrev events : List Event
events = routed first_ask ∷ served "AAPL" (pos 1) ∷ routed second_ask ∷ []

abbrev context_at_end : SymbolContext
context_at_end = record {
  request_queue = push second_ask (advance_read (push first_ask (new_queue 4 blank_request)));
  book = process_request first_ask (pos 1) (new_book "AAPL");
}

events-context :
    lookup "AAPL" (run events (new_core 4 ("AAPL" ∷ "MSFT" ∷ []))).contexts ≡ some context_at_end
unfolding run step new_core new_contexts route_request serve_symbol serve lookup insert push
    new_queue get_next_to_read
events-context = refl

reachable-IsValid_example : IsValid context_at_end.book × IsUncrossed context_at_end.book
reachable-IsValid_example =
    reachable-IsValid 4 ("AAPL" ∷ "MSFT" ∷ []) events "AAPL" context_at_end events-context

events-has_room : has_room 4 "AAPL" 0 events ≡ true
unfolding has_room
events-has_room = refl

reachable-HandledFromNew_example : HandledFromNew 4 "AAPL" events context_at_end
reachable-HandledFromNew_example =
    reachable-HandledFromNew 4 ("AAPL" ∷ "MSFT" ∷ []) events "AAPL" context_at_end (omega arith)
      events-has_room events-context

nine_is_new : is_indexed 9 small_book ≡ false
unfolding process_all process_request dispatch add_limit_order rest_remainder match_incoming
    match_levels match_level visit fill rest_order append_order new_book
nine_is_new = refl

-- A market order and an immediate-or-cancel order for more than there is.
add_market_order-find_node_example :
    (find_node 9 (resting (add_market_order 30 9 buy 50 small_book)) ≡ none)
    × (find_node 9 (resting (add_ioc_order 30 9 buy (pos 100) 50 small_book)) ≡ none)
add_market_order-find_node_example =
    add_market_order-find_node 30 9 buy (pos 100) 50 small_book small_book-IsValid nine_is_new

three_found : find_order 3 small_book ≡ some resting_bid
three_found = find_order-resting 3 small_book-IsValid ∙ small_book-resting_bid

modify_order-Stands_example :
    (xs : List BookOrder) × (ys : List BookOrder) × Stands resting_bid xs ys (resting small_book)
    × Stands
        (record resting_bid { qty = 2; original_qty = 2 })
        xs
        ys
        (resting (modify_order 10 3 (pos 99) 2 (pos 6) small_book))
modify_order-Stands_example =
    modify_order-Stands 10 3 2 (pos 6) resting_bid small_book small_book-IsValid three_found refl
      refl (omega arith)

-- A lower price for the bid, at which nothing can be bought.
abbrev lower_bid : EngineOrderRequest
lower_bid = record first_bid { order_type = OrderType.modify; price = pos 98 }

lower_bid-rests : (reprice_leaves resting_bid 10 3 (pos 98) 4 small_book).1 ≡ 4
unfolding process_all process_request dispatch add_limit_order rest_remainder match_incoming
    match_levels match_level visit fill rest_order append_order new_book remove_order unlink_order
    unlink find_level
lower_bid-rests = refl

lower_bid-Remains : Remains OrderType.modify lower_bid 3 small_book
lower_bid-Remains e o found own good differs =
    let same : resting_bid ≡ o = some-injective resting_bid o (sym three_found ∙ found) in
    subst (λ x. 0 < (reprice_leaves x 10 3 (pos 98) 4 small_book).1) same
      (omega (arith, lower_bid-rests))

process_request-SyncedAt_example : SyncedAt 3 (process_request lower_bid (pos 4) small_book)
process_request-SyncedAt_example =
    process_request-SyncedAt lower_bid (pos 4) 3 small_book-IsValid lower_bid-Remains
      (small_book-IsSynced 3)

-- Behind the bid of client 10, a second one at its price.
abbrev two_bids : SymbolOrderBook
two_bids = process_request (limit_request 20 4 buy (pos 99) 6) (pos 4) small_book

two_bids-IsValid : IsValid two_bids
two_bids-IsValid =
    process_request-IsValid (limit_request 20 4 buy (pos 99) 6) (pos 4) small_book-IsValid

three_found_again : find_order 3 two_bids ≡ some resting_bid
unfolding find_order find_level find_node process_all process_request dispatch add_limit_order
    rest_remainder match_incoming match_levels rest_order append_order new_book
three_found_again = refl

modify_order-IsPlaced_example :
    IsPlaced buy
      (renewed resting_bid 9 (pos 6) two_bids)
      (unlink 3 (flat two_bids.bids))
      (flat (modify_order 10 3 (pos 99) 9 (pos 6) two_bids).bids)
modify_order-IsPlaced_example =
    modify_order-IsPlaced 10 3 9 (pos 6) resting_bid two_bids two_bids-IsValid three_found_again
      refl refl (omega arith)
