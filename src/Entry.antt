-- ===== src/Entry.antt =====
-- The order-entry calls of `SymbolOrderBook` (exchange/matcher/order_book.cpp). `now` is the
-- reading of `getCurrentNanos`.
pub mod Valid
pub mod Change
pub mod Sync
pub mod Placed
pub mod Mirror
pub mod Within
pub mod Transient
pub mod Answers
pub mod Decrease
pub mod Increase
pub mod Uncrossed
use trading_matching_engine.Base.{
  ◌-◌, Bool, true, false, not, ◌||◌, none, some, ltb, ◌==◌, if◌then◌else◌,
}
use trading_matching_engine.Base.Int.{pos, ltb_ℤ, eqb_ℤ}
use trading_matching_engine.Types.{
  OrderId, ClientId, Price, Qty, Nanos, Side, OrderType, limit, invalid_order_id, invalid_price,
  invalid_qty,
}
use trading_matching_engine.Messages.{
  ResponseStatus, accepted, rejected, canceled, cancel_rejected, modified, modify_rejected, add,
  cancel, modify, refusal,
}
use trading_matching_engine.Book.{
  BookOrder, SymbolOrderBook, send_response, send_book_update, rest_order, remove_order,
  resize_order, is_indexed, find_order,
}
use trading_matching_engine.Match.{match_incoming}

-- A response that names the order by its own id.
abbrev pub answer :
    ResponseStatus
    → ClientId
    → OrderId
    → Side
    → Price
    → Qty
    → Qty
    → SymbolOrderBook
    → SymbolOrderBook
answer status client_id order_id side price exec_qty leaves_qty b =
    send_response
      (record {
        status = status;
        client_id = client_id;
        symbol = b.symbol;
        client_order_id = order_id;
        market_order_id = order_id;
        side = side;
        price = price;
        exec_qty = exec_qty;
        leaves_qty = leaves_qty;
      })
      b

-- The rejection of an id that is already resting.
abbrev pub reject : ClientId → OrderId → Side → Price → Qty → SymbolOrderBook → SymbolOrderBook
reject client_id order_id side price qty b =
    send_response
      (record {
        status = rejected;
        client_id = client_id;
        symbol = b.symbol;
        client_order_id = order_id;
        market_order_id = invalid_order_id;
        side = side;
        price = price;
        exec_qty = 0;
        leaves_qty = qty;
      })
      b

abbrev pub refuse : ResponseStatus → ClientId → OrderId → SymbolOrderBook → SymbolOrderBook
refuse status client_id order_id b = send_response (refusal status client_id b.symbol order_id) b

-- The tail of `addLimitOrder` and of a repricing `modifyOrder`: what is left rests.
unfoldable pub rest_remainder :
    ClientId
    → OrderId
    → OrderType
    → Side
    → Price
    → Qty
    → Nanos
    → SymbolOrderBook × Qty
    → SymbolOrderBook
rest_remainder client_id order_id order_type side price qty now (b, leaves) =
    if ltb 0 leaves
    then send_book_update add order_id side price leaves
        (rest_order client_id order_id order_type side price qty leaves now b)
    else b

-- The tail of `addMarketOrder` and `addIOCOrder`: what is left is cancelled.
unfoldable pub cancel_remainder :
    ClientId → OrderId → Side → Price → Qty → SymbolOrderBook × Qty → SymbolOrderBook
cancel_remainder client_id order_id side price qty (b, leaves) =
    if ltb 0 leaves
    then answer canceled client_id order_id side price (qty - leaves) leaves b
    else b

unfoldable pub add_limit_order :
    ClientId → OrderId → Side → Price → Qty → Nanos → SymbolOrderBook → SymbolOrderBook
unfolding rest_remainder
add_limit_order client_id order_id side price qty now b =
    if is_indexed order_id b
    then reject client_id order_id side price qty b
    else rest_remainder client_id order_id limit side price qty now (
        match_incoming client_id order_id side price true qty
          (answer accepted client_id order_id side price 0 qty b))

unfoldable pub add_market_order :
    ClientId → OrderId → Side → Qty → SymbolOrderBook → SymbolOrderBook
unfolding cancel_remainder
add_market_order client_id order_id side qty b =
    if is_indexed order_id b
    then reject client_id order_id side invalid_price qty b
    else cancel_remainder client_id order_id side invalid_price qty (
        match_incoming client_id order_id side invalid_price false qty
          (answer accepted client_id order_id side invalid_price 0 qty b))

unfoldable pub add_ioc_order :
    ClientId → OrderId → Side → Price → Qty → SymbolOrderBook → SymbolOrderBook
unfolding cancel_remainder
add_ioc_order client_id order_id side price qty b =
    if is_indexed order_id b
    then reject client_id order_id side price qty b
    else cancel_remainder client_id order_id side price qty (
        match_incoming client_id order_id side price true qty
          (answer accepted client_id order_id side price 0 qty b))

unfoldable pub cancel_order : ClientId → OrderId → SymbolOrderBook → SymbolOrderBook
cancel_order client_id order_id b = elim (find_order order_id b) [
  | none ↦ refuse cancel_rejected client_id order_id b
  | some order ↦
      if not (order.client_id == client_id)
      then refuse cancel_rejected client_id order_id b
      else send_book_update cancel order_id order.side order.price order.qty
          (answer canceled client_id order_id order.side order.price 0 0 (remove_order order b))
]

-- A new price: out of the book, and in again like a fresh limit order.
unfoldable pub reprice :
    BookOrder → ClientId → OrderId → Price → Qty → Nanos → SymbolOrderBook → SymbolOrderBook
unfolding rest_remainder
reprice order client_id order_id new_price new_qty now b =
    rest_remainder client_id order_id order.order_type order.side new_price new_qty now (
      match_incoming client_id order_id order.side new_price true new_qty
        (answer modified client_id order_id order.side new_price 0 new_qty (remove_order order b)))

-- The same price: a smaller quantity in place, a larger one at the back of the level.
unfoldable pub requantify :
    BookOrder → ClientId → OrderId → Qty → Nanos → SymbolOrderBook → SymbolOrderBook
requantify order client_id order_id new_qty now b =
    if ltb new_qty order.qty
    then send_book_update modify order_id order.side order.price new_qty (
        answer modified client_id order_id order.side order.price 0 new_qty
          (resize_order order new_qty b))
    else if ltb order.qty new_qty
    then send_book_update modify order_id order.side order.price new_qty (
        answer modified client_id order_id order.side order.price 0 new_qty (
          rest_order client_id order_id order.order_type order.side order.price new_qty new_qty now
            (remove_order order b)))
    else answer modified client_id order_id order.side order.price 0 order.qty b

abbrev pub is_bad_change : Price → Qty → Bool
is_bad_change new_price new_qty =
    new_qty == 0 || new_qty == invalid_qty || not (ltb_ℤ (pos 0) new_price)

unfoldable pub modify_order :
    ClientId → OrderId → Price → Qty → Nanos → SymbolOrderBook → SymbolOrderBook
unfolding reprice requantify
modify_order client_id order_id new_price new_qty now b = elim (find_order order_id b) [
  | none ↦ refuse modify_rejected client_id order_id b
  | some order ↦
      if not (order.client_id == client_id) || is_bad_change new_price new_qty
      then refuse modify_rejected client_id order_id b
      else if not (eqb_ℤ new_price order.price)
      then reprice order client_id order_id new_price new_qty now b
      else requantify order client_id order_id new_qty now b
]
