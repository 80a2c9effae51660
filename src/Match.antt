-- ===== src/Match.antt =====
-- `matchIncoming` of exchange/matcher/order_book.cpp. The loop over the nodes of a level gives the
-- nodes that stay; the loop over the levels of a side gives the levels that stay.
pub mod Orders
pub mod Quantity
pub mod Survivors
pub mod Watch
pub mod Book
pub mod Reach
pub mod Uncrossed
use trading_matching_engine.Base.{
  ◌-◌, min, Bool, not, ◌&&◌, List, [], ◌∷◌, ◌++◌, Option, none, ltb, ◌==◌, if◌then◌else◌, update,
}
use trading_matching_engine.Base.Int.{ltb_ℤ}
use trading_matching_engine.Types.{OrderId, ClientId, Symbol, Price, Qty, Side, buy, sell, is_buy}
use trading_matching_engine.Messages.{
  EngineOrderResponse, BookUpdate, MarketUpdateType, trade, cancel, modify, filled,
}
use trading_matching_engine.Book.{BookOrder, PriceLevel, Place, SymbolOrderBook, put_level, levels}

-- The incoming order, with the symbol of the book that it meets.
pub record Taker : Type 0 where
  pub client_id : ClientId
  pub order_id : OrderId
  pub symbol : Symbol
  pub side : Side
  pub limit_price : Price
  pub has_limit_price : Bool

-- What the loops change beside the levels.
pub record Matching : Type 0 where
  pub leaves_qty : Qty
  pub order_index : OrderId → Option Place
  pub responses : List EngineOrderResponse
  pub updates : List BookUpdate

-- The loop leaves at this price: the best ask is too expensive, or the best bid too cheap.
abbrev pub too_far : Taker → Price → Bool
too_far t level_price =
    t.has_limit_price
    && (if is_buy t.side then ltb_ℤ t.limit_price level_price else ltb_ℤ level_price t.limit_price)

abbrev pub taker_fill : Taker → Price → Qty → Qty → EngineOrderResponse
taker_fill t level_price fill_qty leaves_qty = record {
  status = filled;
  client_id = t.client_id;
  symbol = t.symbol;
  client_order_id = t.order_id;
  market_order_id = t.order_id;
  side = t.side;
  price = level_price;
  exec_qty = fill_qty;
  leaves_qty = leaves_qty;
}

abbrev pub maker_fill : Taker → Price → Qty → BookOrder → Qty → EngineOrderResponse
maker_fill t level_price fill_qty node left = record {
  status = filled;
  client_id = node.client_id;
  symbol = t.symbol;
  client_order_id = node.order_id;
  market_order_id = node.order_id;
  side = node.side;
  price = level_price;
  exec_qty = fill_qty;
  leaves_qty = left;
}

abbrev pub node_update : Taker → MarketUpdateType → BookOrder → Price → Qty → BookUpdate
node_update t kind node level_price qty = record {
  kind = kind;
  order_id = node.order_id;
  symbol = t.symbol;
  side = node.side;
  price = level_price;
  qty = qty;
}

-- One fill: both quantities fall, both sides are told, and an order that is fully filled leaves
-- the book.
unfoldable pub fill : Taker → Price → BookOrder → Matching → List BookOrder × Matching
fill t level_price node m =
    let fill_qty = min m.leaves_qty node.qty in
    let leaves = m.leaves_qty - fill_qty in
    let left = node.qty - fill_qty in
    let responses =
      m.responses
      ++ (taker_fill t level_price fill_qty leaves
          ∷ maker_fill t level_price fill_qty node left
          ∷ []) in
    let traded = node_update t trade node level_price fill_qty in
    if left == 0
    then (
      [],
      record {
        leaves_qty = leaves;
        order_index = update m.order_index node.order_id none;
        responses = responses;
        updates = m.updates ++ (traded ∷ node_update t cancel node level_price 0 ∷ []);
      },
    )
    else (
      record node { qty = left } ∷ [],
      record {
        leaves_qty = leaves;
        order_index = m.order_index;
        responses = responses;
        updates = m.updates ++ (traded ∷ node_update t modify node level_price left ∷ []);
      },
    )

-- A node of the taker's own client is skipped, and so is every node once nothing is left to fill.
unfoldable pub visit : Taker → Price → BookOrder → Matching → List BookOrder × Matching
unfolding fill
visit t level_price node m =
    if not (node.client_id == t.client_id) && ltb 0 m.leaves_qty
    then fill t level_price node m
    else (node ∷ [], m)

unfoldable pub match_level : Taker → Price → List BookOrder → Matching → List BookOrder × Matching
match_level t level_price [] m = ([], m)
match_level t level_price (node ∷ next) m =
    let (kept, m') = visit t level_price node m in
    let (rest, m'') = match_level t level_price next m' in (kept ++ rest, m'')

unfoldable pub match_levels : Taker → List PriceLevel → Matching → List PriceLevel × Matching
match_levels t [] m = ([], m)
match_levels t (level ∷ next) m =
    if ltb 0 m.leaves_qty && not (too_far t level.price)
    then (let (orders, m') = match_level t level.price level.orders m in
        let (rest, m'') = match_levels t next m' in (put_level level.price orders rest, m''))
    else (level ∷ next, m)

-- The side that an incoming order meets.
abbrev pub opposite : Side → Side
opposite buy = sell
opposite _ = buy

abbrev pub matching : SymbolOrderBook → Qty → Matching
matching b leaves = record {
  leaves_qty = leaves;
  order_index = b.order_index;
  responses = b.responses;
  updates = b.updates;
}

abbrev pub matched : Side → SymbolOrderBook → List PriceLevel × Matching → SymbolOrderBook
matched side b (ls, m) = record {
  symbol = b.symbol;
  bids = if is_buy side then b.bids else ls;
  asks = if is_buy side then ls else b.asks;
  order_index = m.order_index;
  responses = m.responses;
  updates = m.updates;
}

abbrev pub taker : ClientId → OrderId → Side → Price → Bool → SymbolOrderBook → Taker
taker client_id order_id side limit_price has_limit_price b = record {
  client_id = client_id;
  order_id = order_id;
  symbol = b.symbol;
  side = side;
  limit_price = limit_price;
  has_limit_price = has_limit_price;
}

-- The book afterwards, and the quantity that is left.
unfoldable pub match_incoming :
    ClientId → OrderId → Side → Price → Bool → Qty → SymbolOrderBook → SymbolOrderBook × Qty
match_incoming client_id order_id side limit_price has_limit_price leaves_qty b =
    let t = taker client_id order_id side limit_price has_limit_price b in
    let r = match_levels t (levels (opposite side) b) (matching b leaves_qty) in
    (matched side b r, r.1.leaves_qty)
