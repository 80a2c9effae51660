-- ===== src/Tests/Books.antt =====
-- Examples for the books and for matching.
use trading_matching_engine.Base.{◌≡◌, refl, ◌<◌, ◌+◌, ◌++◌, some, true, arith}
use trading_matching_engine.Base.Int.{pos}
use trading_matching_engine.Types.{buy}
use trading_matching_engine.Book.{SymbolOrderBook, new_book, find_node, append_order, rest_order}
use trading_matching_engine.Book.Nodes.{total_qty}
use trading_matching_engine.Book.Levels.{flat}
use trading_matching_engine.Book.Valid.{resting}
use trading_matching_engine.Match.{
  Taker, match_incoming, match_levels, match_level, visit, fill, taker,
}
use trading_matching_engine.Match.Quantity.{own, trades, allot}
use trading_matching_engine.Match.Book.{reached}
use trading_matching_engine.Match.Reach.{
  match_incoming-total_qty, match_incoming-own, match_incoming-trades,
}
use trading_matching_engine.Entry.{add_limit_order, rest_remainder}
use trading_matching_engine.Core.{process_request, dispatch}
use trading_matching_engine.Core.Valid.{process_all}
use trading_matching_engine.Tests.Market.{small_book, small_book-IsValid, resting_bid}

abbrev buyer : Taker
buyer = taker 30 9 buy (pos 100) true small_book

-- A buyer takes five at 100 and three at 101.
abbrev after_buy : SymbolOrderBook
after_buy = (match_incoming 30 9 buy (pos 101) true 8 small_book).0

small_book-resting_bid : find_node 3 (resting small_book) ≡ some resting_bid
unfolding process_all process_request dispatch add_limit_order rest_remainder match_incoming
    match_levels match_level visit fill rest_order append_order new_book flat find_node
small_book-resting_bid = refl

unfilled : 0 < (match_incoming 30 9 buy (pos 101) true 20 small_book).1
unfolding process_all process_request dispatch add_limit_order rest_remainder match_incoming
    match_levels match_level visit fill rest_order append_order new_book
unfilled = omega arith

match_incoming-trades_example :
    trades after_buy.updates
    ≡ trades small_book.updates
      ++ allot 30 8 (reached buy (taker 30 9 buy (pos 101) true small_book) small_book)
match_incoming-trades_example = match_incoming-trades 30 9 buy (pos 101) true 8 small_book-IsValid

match_incoming-total_qty_example :
    total_qty (resting after_buy) + 8
    ≡ total_qty (resting small_book) + (match_incoming 30 9 buy (pos 101) true 8 small_book).1
match_incoming-total_qty_example =
    match_incoming-total_qty 30 9 buy (pos 101) true 8 small_book-IsValid

-- Client 10 buys while its own ask is the best one.
match_incoming-own_example :
    own 10 (resting (match_incoming 10 9 buy (pos 101) true 8 small_book).0)
    ≡ own 10 (resting small_book)
match_incoming-own_example = match_incoming-own 10 9 buy (pos 101) true 8 small_book-IsValid
