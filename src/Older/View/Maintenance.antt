-- ===== src/Older/View/Maintenance.antt =====
-- The maintenance functions of exchange/market_data/order_book.cpp against those of
-- exchange/matcher.
use trading_matching_engine.Base.{
  ◌≡◌, refl, ap, List, [], ◌∷◌, ◌++◌, Option, none, some, arith, Bool-cases, Option-cases, inl, inr,
}
use trading_matching_engine.Base.Int.{eqb_ℤ}
use trading_matching_engine.Types.{OrderId, ClientId, OrderType, Nanos, Qty, Price, Side, is_buy}
use trading_matching_engine.Book.{
  BookOrder, PriceLevel, SymbolOrderBook, find_level, find_node, append_order, put_level, unlink,
  unlink_order, set_node, set_order, levels, set_levels, rest_order, remove_order, resize_order,
  find_order,
}
use trading_matching_engine.Book.Nodes.{seen}
use trading_matching_engine.Older
use trading_matching_engine.Older.View.{view_order, view_orders, view_level, view_levels, view}

pub find_node-view :
    (id : OrderId) (os : List BookOrder)
    → Older.find_node id (view_orders os) ≡ seen view_order (find_node id os)
unfolding find_node Older.find_node
find_node-view id [] = refl
find_node-view id (o ∷ os) = ground (arith, find_node-view id os)

abbrev pub view_found : Option PriceLevel → Option Older.PriceLevel
view_found none = none
view_found (some l) = some (view_level l)

pub find_level-view :
    (p : Price) (ls : List PriceLevel)
    → Older.find_level p (view_levels ls) ≡ view_found (find_level p ls)
unfolding find_level Older.find_level
find_level-view p [] = refl
find_level-view p (l ∷ ls) = elim (Bool-cases (eqb_ℤ l.price p)) [
  | inl e ↦ rw e
  | inr e ↦ rw e (find_level-view p ls)
]

pub view_orders-append :
    (os ps : List BookOrder) → view_orders (os ++ ps) ≡ view_orders os ++ view_orders ps
view_orders-append [] ps = refl
view_orders-append (o ∷ os) ps = ap (◌∷◌ (view_order o)) (view_orders-append os ps)

append_order-view :
    (side : Side) (o : BookOrder) (ls : List PriceLevel)
    → Older.append_order side (view_order o) (view_levels ls) ≡ view_levels (append_order side o ls)
unfolding append_order Older.append_order
append_order-view side o [] = refl
append_order-view side o (l ∷ ls) =
    ground (arith, append_order-view side o ls, view_orders-append l.orders (o ∷ []))

pub put_level-view :
    (p : Price) (os : List BookOrder) (ls : List PriceLevel)
    → Older.put_level p (view_orders os) (view_levels ls) ≡ view_levels (put_level p os ls)
put_level-view p [] ls = refl
put_level-view p (o ∷ os) ls = refl

unlink-view :
    (id : OrderId) (os : List BookOrder)
    → Older.unlink id (view_orders os) ≡ view_orders (unlink id os)
unfolding unlink Older.unlink
unlink-view id [] = refl
unlink-view id (o ∷ os) = ground (arith, unlink-view id os)

unlink_order-view :
    (p : Price) (id : OrderId) (ls : List PriceLevel)
    → Older.unlink_order p id (view_levels ls) ≡ view_levels (unlink_order p id ls)
unfolding unlink_order Older.unlink_order
unlink_order-view p id [] = refl
unlink_order-view p id (l ∷ ls) = elim (Bool-cases (eqb_ℤ l.price p)) [
  | inl e ↦ rw (e, unlink-view id l.orders) (put_level-view l.price (unlink id l.orders) ls)
  | inr e ↦ rw e (ap (◌∷◌ (view_level l)) (unlink_order-view p id ls))
]

set_node-view :
    (id : OrderId) (q : Qty) (os : List BookOrder)
    → Older.set_node id q (view_orders os) ≡ view_orders (set_node id q os)
unfolding set_node Older.set_node
set_node-view id q [] = refl
set_node-view id q (o ∷ os) = ground (arith, set_node-view id q os)

set_order-view :
    (p : Price) (id : OrderId) (q : Qty) (ls : List PriceLevel)
    → Older.set_order p id q (view_levels ls) ≡ view_levels (set_order p id q ls)
unfolding set_order Older.set_order
set_order-view p id q [] = refl
set_order-view p id q (l ∷ ls) =
    ground (arith, set_order-view p id q ls, set_node-view id q l.orders)

pub levels-view :
    (side : Side) (b : SymbolOrderBook) → Older.levels side (view b) ≡ view_levels (levels side b)
levels-view side b = elim (Bool-cases (is_buy side)) [ inl s ↦ rw s | inr s ↦ rw s ]

set_levels-view :
    (side : Side) (ls : List PriceLevel) (b : SymbolOrderBook)
    → Older.set_levels side (view_levels ls) (view b) ≡ view (set_levels side ls b)
set_levels-view side ls b = elim (Bool-cases (is_buy side)) [ inl s ↦ rw s | inr s ↦ rw s ]

module _ (client_id : ClientId) (order_id : OrderId) (order_type : OrderType) (side : Side)
    (price : Price) (original_qty qty : Qty) (now : Nanos) (b : SymbolOrderBook) where
  pub rest_order-view :
      Older.rest_order client_id order_id side price qty now (view b)
      ≡ view (rest_order client_id order_id order_type side price original_qty qty now b)
  unfolding rest_order Older.rest_order
  rest_order-view =
      let o : BookOrder = record {
        order_id = order_id;
        client_id = client_id;
        symbol = b.symbol;
        order_type = order_type;
        side = side;
        price = price;
        original_qty = original_qty;
        qty = qty;
        priority_ts = now;
      } in
      elim (Bool-cases (is_buy side)) [
        | inl s ↦ rw (s, append_order-view side o b.bids)
        | inr s ↦ rw (s, append_order-view side o b.asks)
      ]

pub resize_order-view :
    (o : BookOrder) (q : Qty) (b : SymbolOrderBook)
    → Older.resize_order (view_order o) q (view b) ≡ view (resize_order o q b)
unfolding resize_order Older.resize_order
resize_order-view o q b = elim (Bool-cases (is_buy o.side)) [
  | inl s ↦ rw (s, set_order-view o.price o.order_id q b.bids)
  | inr s ↦ rw (s, set_order-view o.price o.order_id q b.asks)
]

pub remove_order-view :
    (o : BookOrder) (b : SymbolOrderBook)
    → Older.remove_order (view_order o) (view b) ≡ view (remove_order o b)
unfolding remove_order Older.remove_order
remove_order-view o b =
    let old = find_level-view o.price (levels o.side b) in
    let here = levels-view o.side b in
    elim (Option-cases (find_level o.price (levels o.side b))) [
      | inl e ↦ rw (Older.remove_order, here, old, e, remove_order)
      | inr (l, e) ↦ elim (Bool-cases (is_buy o.side)) [
        | inl s ↦ rw (
          Older.remove_order,
          here,
          old,
          e,
          remove_order,
          s,
          unlink_order-view o.price o.order_id b.bids,
        )
        | inr s ↦ rw (
          Older.remove_order,
          here,
          old,
          e,
          remove_order,
          s,
          unlink_order-view o.price o.order_id b.asks,
        )
      ]
    ]

pub find_order-view :
    (id : OrderId) (b : SymbolOrderBook)
    → Older.find_order id (view b) ≡ seen view_order (find_order id b)
unfolding find_order Older.find_order
find_order-view id b = elim (Option-cases (b.order_index id)) [
  | inl e ↦ rw (e, find_order, Older.find_order)
  | inr (p, e) ↦
      let old = find_level-view p.price (levels p.side b) in
      let here = levels-view p.side b in
      elim (Option-cases (find_level p.price (levels p.side b))) [
        | inl g ↦ rw (e, find_order, Older.find_order, g, here, old, g)
        | inr (l, g) ↦
            rw (e, find_order, Older.find_order, g, here, old, g) (find_node-view id l.orders)
      ]
]
