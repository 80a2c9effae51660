-- ===== src/Older/Match.antt =====
-- `matchIncoming` of exchange/market_data/order_book.cpp.
use trading_matching_engine.Base.{
  ◌-◌, min, Bool, not, ◌&&◌, List, [], ◌∷◌, ◌++◌, none, ltb, ◌==◌, if◌then◌else◌, update,
}
use trading_matching_engine.Types.{OrderId, ClientId, Price, Qty, Side, is_buy}
use trading_matching_engine.Messages.{
  EngineOrderResponse, BookUpdate, MarketUpdateType, trade, modify, filled,
}
use trading_matching_engine.Match.{Taker, Matching, too_far, taker_fill, opposite}
use trading_matching_engine.Older.{BookOrder, PriceLevel, SymbolOrderBook, put_level, levels}

abbrev pub maker_fill : Taker → Price → Qty → BookOrder → Qty → EngineOrderResponse
maker_fill t level_price fill_qty node left = record {
  status = filled;
  client_id = node.client_id;
  symbol = t.symbol;
  client_order_id = node.order_id;
  market_order_id = node.order_id;
  side = node.side;
  price = level_price;
  exec_qty = fill_qty;
  leaves_qty = left;
}

abbrev pub node_update : Taker → MarketUpdateType → BookOrder → Price → Qty → BookUpdate
node_update t kind node level_price qty = record {
  kind = kind;
  order_id = node.order_id;
  symbol = t.symbol;
  side = node.side;
  price = level_price;
  qty = qty;
}

-- An order that is fully filled leaves the book with no update but the trade.
unfoldable pub fill : Taker → Price → BookOrder → Matching → List BookOrder × Matching
fill t level_price node m =
    let fill_qty = min m.leaves_qty node.qty in
    let leaves = m.leaves_qty - fill_qty in
    let left = node.qty - fill_qty in
    let responses =
      m.responses
      ++ (taker_fill t level_price fill_qty leaves
          ∷ maker_fill t level_price fill_qty node left
          ∷ []) in
    let traded = node_update t trade node level_price fill_qty in
    if left == 0
    then (
      [],
      record {
        leaves_qty = leaves;
        order_index = update m.order_index node.order_id none;
        responses = responses;
        updates = m.updates ++ (traded ∷ []);
      },
    )
    else (
      record node { qty = left } ∷ [],
      record {
        leaves_qty = leaves;
        order_index = m.order_index;
        responses = responses;
        updates = m.updates ++ (traded ∷ node_update t modify node level_price left ∷ []);
      },
    )

unfoldable pub visit : Taker → Price → BookOrder → Matching → List BookOrder × Matching
unfolding fill
visit t level_price node m =
    if not (node.client_id == t.client_id) && ltb 0 m.leaves_qty
    then fill t level_price node m
    else (node ∷ [], m)

unfoldable pub match_level : Taker → Price → List BookOrder → Matching → List BookOrder × Matching
match_level t level_price [] m = ([], m)
match_level t level_price (node ∷ next) m =
    let (kept, m') = visit t level_price node m in
    let (rest, m'') = match_level t level_price next m' in (kept ++ rest, m'')

unfoldable pub match_levels : Taker → List PriceLevel → Matching → List PriceLevel × Matching
match_levels t [] m = ([], m)
match_levels t (level ∷ next) m =
    if ltb 0 m.leaves_qty && not (too_far t level.price)
    then (let (orders, m') = match_level t level.price level.orders m in
        let (rest, m'') = match_levels t next m' in (put_level level.price orders rest, m''))
    else (level ∷ next, m)

abbrev pub taker : ClientId → OrderId → Side → Price → Bool → SymbolOrderBook → Taker
taker client_id order_id side limit_price has_limit_price b = record {
  client_id = client_id;
  order_id = order_id;
  symbol = b.symbol;
  side = side;
  limit_price = limit_price;
  has_limit_price = has_limit_price;
}

abbrev pub matching : SymbolOrderBook → Qty → Matching
matching b leaves = record {
  leaves_qty = leaves;
  order_index = b.order_index;
  responses = b.responses;
  updates = b.updates;
}

abbrev pub matched : Side → SymbolOrderBook → List PriceLevel × Matching → SymbolOrderBook
matched side b (ls, m) = record {
  symbol = b.symbol;
  bids = if is_buy side then b.bids else ls;
  asks = if is_buy side then ls else b.asks;
  order_index = m.order_index;
  responses = m.responses;
  updates = m.updates;
}

unfoldable pub match_incoming :
    ClientId → OrderId → Side → Price → Bool → Qty → SymbolOrderBook → SymbolOrderBook × Qty
match_incoming client_id order_id side limit_price has_limit_price leaves_qty b =
    let t = taker client_id order_id side limit_price has_limit_price b in
    let r = match_levels t (levels (opposite side) b) (matching b leaves_qty) in
    (matched side b r, r.1.leaves_qty)
