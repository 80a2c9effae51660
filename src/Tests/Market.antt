-- ===== src/Tests/Market.antt =====
-- Test data: the requests that build a small book, and the book.
use trading_matching_engine.Base.{List, [], ◌∷◌}
use trading_matching_engine.Base.Int.{pos}
use trading_matching_engine.Types.{OrderId, ClientId, Price, Qty, Nanos, Side, buy, sell, limit}
use trading_matching_engine.Messages.{EngineOrderRequest}
use trading_matching_engine.Book.{BookOrder, SymbolOrderBook, new_book}
use trading_matching_engine.Book.Valid.{IsValid, new_book-IsValid}
use trading_matching_engine.Core.Valid.{process_all, process_all-IsValid}

abbrev pub limit_request : ClientId → OrderId → Side → Price → Qty → EngineOrderRequest
limit_request client_id order_id side price qty = record {
  order_type = limit;
  client_id = client_id;
  symbol = "AAPL";
  order_id = order_id;
  side = side;
  price = price;
  qty = qty;
  recv_time = pos 7;
}

abbrev pub first_ask : EngineOrderRequest
first_ask = limit_request 10 1 sell (pos 100) 5

abbrev pub second_ask : EngineOrderRequest
second_ask = limit_request 20 2 sell (pos 101) 7

abbrev pub first_bid : EngineOrderRequest
first_bid = limit_request 10 3 buy (pos 99) 4

abbrev pub timed_requests : List (EngineOrderRequest × Nanos)
timed_requests = (first_ask, pos 1) ∷ (second_ask, pos 2) ∷ (first_bid, pos 3) ∷ []

abbrev pub small_book : SymbolOrderBook
small_book = process_all timed_requests (new_book "AAPL")

pub small_book-IsValid : IsValid small_book
small_book-IsValid = process_all-IsValid timed_requests (new_book-IsValid "AAPL")

-- The bid as it rests.
abbrev pub resting_bid : BookOrder
resting_bid = record {
  order_id = 3;
  client_id = 10;
  symbol = "AAPL";
  order_type = limit;
  side = buy;
  price = pos 99;
  original_qty = 4;
  qty = 4;
  priority_ts = pos 3;
}
