-- ===== src/Older/View.antt =====
-- What exchange/market_data/order_book.cpp keeps of the current book of exchange/matcher.
pub mod Maintenance
pub mod Match
pub mod Entry
pub mod Change
use trading_matching_engine.Base.{
  ◌≡◌, refl, ap, ap₂, Bool, true, false, not, ◌&&◌, List, [], ◌∷◌, ◌++◌, Option, none, some, arith,
  ◌==◌, if◌then◌else◌, update, map, Bool-cases, Option-cases, inl, inr,
}
use trading_matching_engine.Base.Int.{eqb_ℤ}
use trading_matching_engine.Types.{OrderId, ClientId, OrderType, Nanos, Qty, Price, Side, is_buy}
use trading_matching_engine.Messages.{BookUpdate, MarketUpdateType, cancel}
use trading_matching_engine.Book.{
  BookOrder, PriceLevel, SymbolOrderBook, before, find_level, find_node, append_order, put_level,
  unlink, unlink_order, set_node, set_order, levels, set_levels, rest_order, remove_order,
  resize_order, find_order, new_book,
}
use trading_matching_engine.Book.Nodes.{seen}
use trading_matching_engine.Older

abbrev pub view_order : BookOrder → Older.BookOrder
view_order o = record {
  order_id = o.order_id;
  client_id = o.client_id;
  side = o.side;
  price = o.price;
  qty = o.qty;
  priority_ts = o.priority_ts;
}

abbrev pub view_orders : List BookOrder → List Older.BookOrder
view_orders = map view_order

abbrev pub view_level : PriceLevel → Older.PriceLevel
view_level l = record { price = l.price; orders = view_orders l.orders }

abbrev pub view_levels : List PriceLevel → List Older.PriceLevel
view_levels = map view_level

-- The CANCEL of an order that a fill has emptied.
abbrev pub is_cleared : BookUpdate → Bool
is_cleared u = elim u.kind [ cancel ↦ u.qty == 0 | _ ↦ false ]

-- The updates but for those.
unfoldable pub view_updates : List BookUpdate → List BookUpdate
view_updates [] = []
view_updates (u ∷ us) = let rest = view_updates us in if is_cleared u then rest else u ∷ rest

abbrev pub view : SymbolOrderBook → Older.SymbolOrderBook
view b = record {
  symbol = b.symbol;
  bids = view_levels b.bids;
  asks = view_levels b.asks;
  order_index = b.order_index;
  responses = b.responses;
  updates = view_updates b.updates;
}

pub view_updates-append :
    (us vs : List BookUpdate) → view_updates (us ++ vs) ≡ view_updates us ++ view_updates vs
unfolding view_updates
view_updates-append [] vs = refl
view_updates-append (u ∷ us) vs = ground (arith, view_updates-append us vs)
