-- ===== src/Book.antt =====
-- One symbol's order book: book_order.h, order_book.h and the maintenance part of order_book.cpp
-- (exchange/matcher). A price level's linked list is the list of its orders, head first; a side
-- is the list of its levels, best first, as its `std::map` iterates. What the book has sent is the
-- history in `responses` and `updates`, oldest first.
pub mod Nodes
pub mod Levels
pub mod Append
pub mod Valid
pub mod Maintenance
pub mod Rest
pub mod Priority
use trading_matching_engine.Base.{
  Bool, true, false, List, [], ◌∷◌, ◌++◌, Option, none, some, ◌==◌, if◌then◌else◌, update,
}
use trading_matching_engine.Base.Int.{ltb_ℤ, eqb_ℤ}
use trading_matching_engine.Types.{
  OrderId, ClientId, Symbol, Price, Qty, Nanos, Side, OrderType, is_buy,
}
use trading_matching_engine.Messages.{EngineOrderResponse, BookUpdate, MarketUpdateType}

pub record BookOrder : Type 0 where
  pub order_id : OrderId
  pub client_id : ClientId
  pub symbol : Symbol
  pub order_type : OrderType
  pub side : Side
  pub price : Price
  pub original_qty : Qty
  pub qty : Qty
  pub priority_ts : Nanos

pub record PriceLevel : Type 0 where
  pub price : Price
  pub orders : List BookOrder

-- Where the node stands that an entry of `order_index_` points to.
pub record Place : Type 0 where
  pub side : Side
  pub price : Price

pub record SymbolOrderBook : Type 0 where
  pub symbol : Symbol
  pub bids : List PriceLevel
  pub asks : List PriceLevel
  pub order_index : OrderId → Option Place
  pub responses : List EngineOrderResponse
  pub updates : List BookUpdate

-- The constructor: no levels, no orders, nothing sent.
unfoldable pub new_book : Symbol → SymbolOrderBook
new_book symbol = record {
  symbol = symbol;
  bids = [];
  asks = [];
  order_index = λ id. none;
  responses = [];
  updates = [];
}

-- `std::greater` on the bids, `std::less` on the asks: whether a level stands before another.
abbrev pub before : Side → Price → Price → Bool
before side p q = if is_buy side then ltb_ℤ q p else ltb_ℤ p q

abbrev pub levels : Side → SymbolOrderBook → List PriceLevel
levels side b = if is_buy side then b.bids else b.asks

abbrev pub set_levels : Side → List PriceLevel → SymbolOrderBook → SymbolOrderBook
set_levels side ls b = if is_buy side then record b { bids = ls } else record b { asks = ls }

abbrev pub send_response : EngineOrderResponse → SymbolOrderBook → SymbolOrderBook
send_response r b = record b { responses = b.responses ++ (r ∷ []) }

abbrev pub send_book_update :
    MarketUpdateType → OrderId → Side → Price → Qty → SymbolOrderBook → SymbolOrderBook
send_book_update kind order_id side price qty b = record b {
  updates =
      b.updates
      ++ (record {
        kind = kind;
        order_id = order_id;
        symbol = b.symbol;
        side = side;
        price = price;
        qty = qty;
      }
          ∷ []);
}

-- The map's `find`.
unfoldable pub find_level : Price → List PriceLevel → Option PriceLevel
find_level p [] = none
find_level p (l ∷ ls) = if eqb_ℤ l.price p then some l else find_level p ls

-- The node of a list with an id.
unfoldable pub find_node : OrderId → List BookOrder → Option BookOrder
find_node id [] = none
find_node id (o ∷ os) = if o.order_id == id then some o else find_node id os

-- Find the level or insert a new one at its place in the map, then append at the tail.
unfoldable pub append_order : Side → BookOrder → List PriceLevel → List PriceLevel
append_order side o [] = record { price = o.price; orders = o ∷ [] } ∷ []
append_order side o (l ∷ ls) =
    if before side o.price l.price
    then record { price = o.price; orders = o ∷ [] } ∷ l ∷ ls
    else if eqb_ℤ l.price o.price
    then record { price = l.price; orders = l.orders ++ (o ∷ []) } ∷ ls
    else l ∷ append_order side o ls

-- A level in front of others, or nothing if its list has become empty.
abbrev pub put_level : Price → List BookOrder → List PriceLevel → List PriceLevel
put_level p [] ls = ls
put_level p (o ∷ os) ls = record { price = p; orders = o ∷ os } ∷ ls

-- Unlink a node from its list.
unfoldable pub unlink : OrderId → List BookOrder → List BookOrder
unlink id [] = []
unlink id (o ∷ os) = if o.order_id == id then os else o ∷ unlink id os

-- Unlink a node from the level at its price, and erase the level if that leaves it empty.
unfoldable pub unlink_order : Price → OrderId → List PriceLevel → List PriceLevel
unlink_order p id [] = []
unlink_order p id (l ∷ ls) =
    if eqb_ℤ l.price p then put_level l.price (unlink id l.orders) ls else l ∷ unlink_order p id ls

-- Write a node's quantities in place.
unfoldable pub set_node : OrderId → Qty → List BookOrder → List BookOrder
set_node id qty [] = []
set_node id qty (o ∷ os) =
    if o.order_id == id
    then record o { qty = qty; original_qty = qty } ∷ os
    else o ∷ set_node id qty os

unfoldable pub set_order : Price → OrderId → Qty → List PriceLevel → List PriceLevel
set_order p id qty [] = []
set_order p id qty (l ∷ ls) =
    if eqb_ℤ l.price p
    then record l { orders = set_node id qty l.orders } ∷ ls
    else l ∷ set_order p id qty ls

abbrev pub place_of : BookOrder → Place
place_of o = record { side = o.side; price = o.price }

unfoldable pub rest_order :
    ClientId
    → OrderId
    → OrderType
    → Side
    → Price
    → Qty
    → Qty
    → Nanos
    → SymbolOrderBook
    → SymbolOrderBook
rest_order client_id order_id order_type side price original_qty qty priority_ts b =
    record (set_levels side (append_order side order (levels side b)) b) {
      order_index = update b.order_index order_id (some (place_of order));
    }
  where
    order : BookOrder
    order = record {
      order_id = order_id;
      client_id = client_id;
      symbol = b.symbol;
      order_type = order_type;
      side = side;
      price = price;
      original_qty = original_qty;
      qty = qty;
      priority_ts = priority_ts;
    }

-- Without a level at the order's price nothing happens.
unfoldable pub remove_order : BookOrder → SymbolOrderBook → SymbolOrderBook
remove_order order b = elim (find_level order.price (levels order.side b)) [
  | none ↦ b
  | some level ↦
      record (set_levels order.side (unlink_order order.price order.order_id (levels order.side b))
        b) { order_index = update b.order_index order.order_id none }
]

-- `order->qty_ = order->original_qty_ = qty` through the pointer of the index.
unfoldable pub resize_order : BookOrder → Qty → SymbolOrderBook → SymbolOrderBook
resize_order order qty b =
    set_levels order.side (set_order order.price order.order_id qty (levels order.side b)) b

-- `order_index_.count(order_id)`.
abbrev pub is_indexed : OrderId → SymbolOrderBook → Bool
is_indexed id b = elim (b.order_index id) [ none ↦ false | some place ↦ true ]

-- `order_index_.find(order_id)`, and the node that the entry points to.
unfoldable pub find_order : OrderId → SymbolOrderBook → Option BookOrder
find_order id b = elim (b.order_index id) [
  | none ↦ none
  | some place ↦ elim (find_level place.price (levels place.side b)) [
    | none ↦ none
    | some level ↦ find_node id level.orders
  ]
]
