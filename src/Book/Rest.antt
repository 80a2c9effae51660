-- ===== src/Book/Rest.antt =====
-- What resting a new order does to a well-formed book.
use trading_matching_engine.Base.{
  ◌+◌, ◌≤◌, ◌<◌, ◌≡◌, refl, sym, ◌∙◌, true, List, [], ◌∷◌, some, arith, ◌==◌, if◌then◌else◌,
  All-map, Bool-cases, inl, inr,
}
use trading_matching_engine.Types.{
  OrderId, ClientId, OrderType, Nanos, Qty, Price, Side, is_buy, buy, sell,
}
use trading_matching_engine.Book.{
  BookOrder, PriceLevel, SymbolOrderBook, place_of, find_node, append_order, rest_order, before,
}
use trading_matching_engine.Book.Nodes.{copies, copies-append, find_node-append, find_node_absent}
use trading_matching_engine.Book.Levels.{flat, Fits, IsSide}
use trading_matching_engine.Book.Append.{
  append_order-IsSide, copies-append_order, find_node-append_order,
}
use trading_matching_engine.Book.Valid.{resting, IsValid}

before-transfer :
    (s t : Side) (p q : Price) → is_buy s ≡ is_buy t → before s p q ≡ true → before t p q ≡ true
before-transfer s t p q e h = ground arith

-- A side of the book is one for every order side that goes there.
pub IsSide-transfer :
    (s t : Side) (ls : List PriceLevel) → is_buy s ≡ is_buy t → IsSide s ls → IsSide t ls
IsSide-transfer s t [] e h = tt
IsSide-transfer s t (l ∷ ls) e h = (
  h.0,
  All-map (Fits s l.price) (Fits t l.price) l.orders
      (λ o f. record { at_price = f.at_price; on_side = f.on_side ∙ e; live = f.live }) h.1,
  All-map (λ x. before s l.price x.price ≡ true) (λ x. before t l.price x.price ≡ true) ls
      (λ x. before-transfer s t l.price x.price e) h.2,
  IsSide-transfer s t ls e h.3,
)

module _ (client_id : ClientId) (order_id : OrderId) (order_type : OrderType) (side : Side)
    (price : Price) (original_qty qty : Qty) (ts : Nanos) (b : SymbolOrderBook) where
  abbrev pub order : BookOrder
  order = record {
    order_id = order_id;
    client_id = client_id;
    symbol = b.symbol;
    order_type = order_type;
    side = side;
    price = price;
    original_qty = original_qty;
    qty = qty;
    priority_ts = ts;
  }

  abbrev rested : SymbolOrderBook
  rested = rest_order client_id order_id order_type side price original_qty qty ts b

  copies-rest_order :
      (j : OrderId) → copies j (resting rested) ≡ copies j (order ∷ []) + copies j (resting b)
  unfolding rest_order
  copies-rest_order j = elim (Bool-cases (is_buy side)) [
    | inl s ↦ rw s (
        omega (
          arith,
          copies-append j (flat (append_order side order b.bids)) (flat b.asks),
          copies-append j (flat b.bids) (flat b.asks),
          copies-append_order side order j b.bids,
        ))
    | inr s ↦ rw s (
        omega (
          arith,
          copies-append j (flat b.bids) (flat (append_order side order b.asks)),
          copies-append j (flat b.bids) (flat b.asks),
          copies-append_order side order j b.asks,
        ))
  ]

  pub find_node-rest_order :
      (j : OrderId)
      → copies order_id (resting b) ≡ 0
      → find_node j (resting rested)
        ≡ (if order_id == j then some order else find_node j (resting b))
  unfolding rest_order
  find_node-rest_order j h =
      let parts = copies-append order_id (flat b.bids) (flat b.asks) in
      elim (Bool-cases (is_buy side)) [
        | inl s ↦ rw s (
            ground (
              arith,
              find_node-append j (flat (append_order side order b.bids)) (flat b.asks),
              find_node-append j (flat b.bids) (flat b.asks),
              find_node-append_order side order j b.bids,
            ))
        | inr s ↦ rw s (
            ground (
              arith,
              find_node-append j (flat b.bids) (flat (append_order side order b.asks)),
              find_node-append j (flat b.bids) (flat b.asks),
              find_node-append_order side order j b.asks,
              find_node_absent j (flat b.bids),
            ))
      ]

  rest_order-order_index :
      (j : OrderId)
      → rested.order_index j ≡ (if order_id == j then some (place_of order) else b.order_index j)
  unfolding rest_order
  rest_order-order_index j = ground arith

  order-Fits : 0 < qty → Fits side price order
  order-Fits live = record { at_price = refl; on_side = refl; live = live }

  rest_order-bids : 0 < qty → IsValid b → IsSide buy rested.bids
  unfolding rest_order
  rest_order-bids live v = elim (Bool-cases (is_buy side)) [
    | inl s ↦
        let there = IsSide-transfer buy side b.bids (sym s) v.bids_side in
        rw s (
          IsSide-transfer side buy (append_order side order b.bids) s
            (append_order-IsSide side order b.bids (order-Fits live) there))
    | inr s ↦ rw s v.bids_side
  ]

  rest_order-asks : 0 < qty → IsValid b → IsSide sell rested.asks
  unfolding rest_order
  rest_order-asks live v = elim (Bool-cases (is_buy side)) [
    | inl s ↦ rw s v.asks_side
    | inr s ↦
        let there = IsSide-transfer sell side b.asks (sym s) v.asks_side in
        rw s (
          IsSide-transfer side sell (append_order side order b.asks) s
            (append_order-IsSide side order b.asks (order-Fits live) there))
  ]

  copies-order : (j : OrderId) → copies j (order ∷ []) ≡ (if order_id == j then 1 else 0)
  unfolding copies
  copies-order j = refl

  rest_order_unique :
      (j : OrderId)
      → copies order_id (resting b) ≡ 0
      → copies j (resting b) ≤ 1
      → copies j (resting rested) ≤ 1
  rest_order_unique j fresh u = rw copies-rest_order (ground (arith, copies-order j))

  -- Resting a new order with a positive quantity keeps the book well-formed.
  pub rest_order-IsValid : copies order_id (resting b) ≡ 0 → 0 < qty → IsValid b → IsValid rested
  rest_order-IsValid fresh live v = record {
    bids_side = rest_order-bids live v;
    asks_side = rest_order-asks live v;
    unique = λ j. rest_order_unique j fresh (v.unique j);
    indexed =
        λ j. ground (arith, rest_order-order_index j, find_node-rest_order j fresh, v.indexed j);
  }
