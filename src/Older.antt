-- ===== src/Older.antt =====
-- exchange/market_data/order_book.cpp, the older copy of the order book that is not compiled into
-- the engine: the book and its maintenance. The types that it is written against are not kept;
-- of an order it uses the six fields that it allocates it with. Index places, the side that an
-- order meets, and the incoming order are those of the current book.
pub mod Match
pub mod Entry
pub mod View
pub mod Requests
use trading_matching_engine.Base.{
  Bool, true, false, List, [], ◌∷◌, ◌++◌, Option, none, some, ◌==◌, if◌then◌else◌, update,
}
use trading_matching_engine.Base.Int.{eqb_ℤ}
use trading_matching_engine.Types.{OrderId, ClientId, Symbol, Price, Qty, Nanos, Side, is_buy}
use trading_matching_engine.Messages.{EngineOrderResponse, BookUpdate, MarketUpdateType}
use trading_matching_engine.Book.{Place, before}

pub record BookOrder : Type 0 where
  pub order_id : OrderId
  pub client_id : ClientId
  pub side : Side
  pub price : Price
  pub qty : Qty
  pub priority_ts : Nanos

pub record PriceLevel : Type 0 where
  pub price : Price
  pub orders : List BookOrder

pub record SymbolOrderBook : Type 0 where
  pub symbol : Symbol
  pub bids : List PriceLevel
  pub asks : List PriceLevel
  pub order_index : OrderId → Option Place
  pub responses : List EngineOrderResponse
  pub updates : List BookUpdate

-- The constructor.
unfoldable pub new_book : Symbol → SymbolOrderBook
new_book symbol = record {
  symbol = symbol;
  bids = [];
  asks = [];
  order_index = λ id. none;
  responses = [];
  updates = [];
}

abbrev pub levels : Side → SymbolOrderBook → List PriceLevel
levels side b = if is_buy side then b.bids else b.asks

abbrev pub set_levels : Side → List PriceLevel → SymbolOrderBook → SymbolOrderBook
set_levels side ls b = if is_buy side then record b { bids = ls } else record b { asks = ls }

abbrev pub send_response : EngineOrderResponse → SymbolOrderBook → SymbolOrderBook
send_response r b = record b { responses = b.responses ++ (r ∷ []) }

abbrev pub send_book_update :
    MarketUpdateType → OrderId → Side → Price → Qty → SymbolOrderBook → SymbolOrderBook
send_book_update kind order_id side price qty b = record b {
  updates =
      b.updates
      ++ (record {
        kind = kind;
        order_id = order_id;
        symbol = b.symbol;
        side = side;
        price = price;
        qty = qty;
      }
          ∷ []);
}

unfoldable pub find_level : Price → List PriceLevel → Option PriceLevel
find_level p [] = none
find_level p (l ∷ ls) = if eqb_ℤ l.price p then some l else find_level p ls

unfoldable pub find_node : OrderId → List BookOrder → Option BookOrder
find_node id [] = none
find_node id (o ∷ os) = if o.order_id == id then some o else find_node id os

-- Find or insert the level, then append at its tail.
unfoldable pub append_order : Side → BookOrder → List PriceLevel → List PriceLevel
append_order side o [] = record { price = o.price; orders = o ∷ [] } ∷ []
append_order side o (l ∷ ls) =
    if before side o.price l.price
    then record { price = o.price; orders = o ∷ [] } ∷ l ∷ ls
    else if eqb_ℤ l.price o.price
    then record { price = l.price; orders = l.orders ++ (o ∷ []) } ∷ ls
    else l ∷ append_order side o ls

-- An empty level is erased.
abbrev pub put_level : Price → List BookOrder → List PriceLevel → List PriceLevel
put_level p [] ls = ls
put_level p (o ∷ os) ls = record { price = p; orders = o ∷ os } ∷ ls

unfoldable pub unlink : OrderId → List BookOrder → List BookOrder
unlink id [] = []
unlink id (o ∷ os) = if o.order_id == id then os else o ∷ unlink id os

unfoldable pub unlink_order : Price → OrderId → List PriceLevel → List PriceLevel
unlink_order p id [] = []
unlink_order p id (l ∷ ls) =
    if eqb_ℤ l.price p then put_level l.price (unlink id l.orders) ls else l ∷ unlink_order p id ls

-- `order->qty_ = qty`, at the order's node.
unfoldable pub set_node : OrderId → Qty → List BookOrder → List BookOrder
set_node id qty [] = []
set_node id qty (o ∷ os) =
    if o.order_id == id then record o { qty = qty } ∷ os else o ∷ set_node id qty os

unfoldable pub set_order : Price → OrderId → Qty → List PriceLevel → List PriceLevel
set_order p id qty [] = []
set_order p id qty (l ∷ ls) =
    if eqb_ℤ l.price p
    then record l { orders = set_node id qty l.orders } ∷ ls
    else l ∷ set_order p id qty ls

unfoldable pub rest_order :
    ClientId → OrderId → Side → Price → Qty → Nanos → SymbolOrderBook → SymbolOrderBook
rest_order client_id order_id side price qty priority_ts b =
    record (set_levels side (append_order side order (levels side b)) b) {
      order_index = update b.order_index order_id (some (record { side = side; price = price }));
    }
  where
    order : BookOrder
    order = record {
      order_id = order_id;
      client_id = client_id;
      side = side;
      price = price;
      qty = qty;
      priority_ts = priority_ts;
    }

unfoldable pub remove_order : BookOrder → SymbolOrderBook → SymbolOrderBook
remove_order order b = elim (find_level order.price (levels order.side b)) [
  | none ↦ b
  | some level ↦
      record (set_levels order.side (unlink_order order.price order.order_id (levels order.side b))
        b) { order_index = update b.order_index order.order_id none }
]

unfoldable pub resize_order : BookOrder → Qty → SymbolOrderBook → SymbolOrderBook
resize_order order qty b =
    set_levels order.side (set_order order.price order.order_id qty (levels order.side b)) b

abbrev pub is_indexed : OrderId → SymbolOrderBook → Bool
is_indexed id b = elim (b.order_index id) [ none ↦ false | some place ↦ true ]

unfoldable pub find_order : OrderId → SymbolOrderBook → Option BookOrder
find_order id b = elim (b.order_index id) [
  | none ↦ none
  | some place ↦ elim (find_level place.price (levels place.side b)) [
    | none ↦ none
    | some level ↦ find_node id level.orders
  ]
]
