-- ===== src/Lib.antt =====
-- A verification library for the trading matching engine.
--
-- The program. Producers submit order requests to the gateway (exchange/order_server), which stamps
-- them with a receive time, sorts them and routes each to the queue of its symbol. One thread per
-- symbol (exchange/matcher/matching_core.h) takes requests from that queue, validates them and calls
-- the symbol's order book (exchange/matcher/order_book.cpp), which matches, rests, cancels and
-- modifies orders, and puts responses and book updates on its queues. The responses go back through
-- the gateway; the updates go to the market data feed and on to the snapshot service
-- (exchange/market_data), which keeps a mirror of every book. Between the threads stand ring buffers
-- (Common/lock_free_queue.h).
--
-- Which file models what.
--   Types, Messages     Common/types.h; order_request.h, order_response.h, market_update.h
--   Book                book_order.h, order_book.h, and of order_book.cpp the constructor, sendResponse,
--                       sendBookUpdate, restOrder (rest_order, append_order), removeOrder (remove_order,
--                       unlink_order) and the look-ups in order_index_ (find_order)
--   Match               matchIncoming (match_incoming): the outer loops are match_levels, the inner loops
--                       match_level, their bodies visit and fill
--   Links               the linked nodes of a level, pointer by pointer: prev_ and next_ of book_order.h,
--                       head_, tail_ and order_count_ of PriceLevel, and the lines of restOrder,
--                       removeOrder and matchIncoming that follow and set them
--   Entry               addLimitOrder, addMarketOrder, addIOCOrder, cancelOrder, modifyOrder; the two
--                       branches of modifyOrder are reprice and requantify
--   Core                matching_core.h: processRequest (process_request), routeRequest, the rounds of run
--                       (serve_symbol), the constructor (new_core)
--   Dict, Snapshot      book_snapshot_service.h: applyUpdate, snapshotFor, the inner loop of run;
--                       Snapshot/Rounds: the rounds of run with their timer
--   Queue               lock_free_queue.h
--                       (Queue/Threads: the loads and stores of one producer and one consumer, one by
--                       one; Queue/Writers: two producers)
--   Sequencer, Gateway  request_sequencer.h, order_server.h
--   Pool, Feed          memory_pool.h, market_data_feed.h
--   Logging             logging.h: LOG_LINE (log_line), pushLine, flushQueue
--   Csv                 parseType, parseSide, splitFields, parseLine of exchange_main.cpp; Csv/Number is
--                       std::stoull and std::stoll, as far as parseLine uses them
--   Program             main of exchange_main.cpp: the loop over the lines (read_orders), the symbols
--                       (symbols_of), the wait for the responses (wait_until_idle), the report;
--                       Program/Main: main from its arguments to its outcome (run_main)
--   Older               exchange/market_data/order_book.cpp, an older copy of order_book.cpp that no
--                       target compiles; Older/View says what it keeps of the current book
--   System              the queues of the core, as the gateway and the feed are given them, and the
--                       way of the updates to the snapshot service (System/Snapshots) and of the orders and
--                       the responses through the gateway (System/Replies)
--   Scenarios           tests/test_order_book.cpp: the harness and its tests
--   Printing            the toString members of the orders and messages
--   Base                shared names and lemmas; Tests holds examples
--
-- State. A book is a record: each side is the list of its price levels, best first, as the map
-- iterates it, and each level is the list of its orders, head first; the index is a function from
-- ids to the place of the node that the pointer leads to. In Links a level is its head, tail and
-- count with the blocks of the order pool that are in use; Represents (Links/Chain) says which
-- orders it holds. The queue of the requests of a symbol is the ring of Queue, which overwrites
-- what it has not handed out when it is overrun; its size, SYMBOL_QUEUE_SIZE in the source, is an
-- argument, and has_room (Core/Handled) says of a run that it never is. What a book has written to
-- its two other queues is kept as a history, oldest first. IsValid (Book/Valid) is the
-- well-formedness invariant: prices strictly in order, no empty level, every order at its level's
-- price and on its side with a positive quantity, no id twice, and an index that names exactly the
-- resting orders. IsUncrossed (Match/Uncrossed) says that a bid and an ask that could trade are of
-- one client. Concurrency is modelled as sequences of steps: Event (Core/Runs) is one call of
-- routeRequest or one round of one symbol's thread, and a run is a list of events in any order.
-- Queue/Threads does the same for the single loads and stores of a producer and a consumer at one
-- ring buffer.
--
-- Numbers. Ids and quantities are natural numbers, prices and times integers. The engine subtracts
-- only minima and never adds quantities, and the wrap-around of a word is not modelled; 2^64 - 1
-- and -2^63 stand for the invalid values, as in types.h. All loops are recursion on lists but
-- three: the search of the memory pool, whose fuel is the number of blocks, one round; running out
-- of it is a result of its own; the loop over the linked nodes of a level, whose fuel is their
-- number; and the loop of the log thread, whose fuel is the number of lines in the queue. The wait
-- of main is recursion on the sizes that its polls find. `std::sort` of the sequencer is a
-- parameter with the laws that its result is sorted by receive time and holds the same requests as
-- often; Tests/Sorting has a function with these laws. The clock is an argument.
--
-- Not modelled. The limit that the memory pools set to the book; the start, the stop and the
-- scheduling of threads, so that a thread that cannot be started is none of the ends of main; the
-- formatting of numbers and of the clock; and memory orders weaker than the sequential consistency
-- that the atomic counters of the ring buffer have. The gateway, the market data feed and the
-- snapshot service are given lists of what waits for them; System/Rings says when that is all that
-- was written to a ring.
pub mod Base
pub mod Older
pub mod Links
pub mod Types
pub mod Messages
pub mod Book
pub mod Match
pub mod Entry
pub mod Core
pub mod Dict
pub mod Snapshot
pub mod System
pub mod Scenarios
pub mod Queue
pub mod Pool
pub mod Feed
pub mod Csv
pub mod Program
pub mod Logging
pub mod Printing
pub mod Sequencer
pub mod Gateway
pub mod Tests
