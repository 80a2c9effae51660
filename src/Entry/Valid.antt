-- ===== src/Entry/Valid.antt =====
-- The adding order-entry calls of order_book.cpp and the well-formedness of the book.
use trading_matching_engine.Base.{
  ◌≡◌, sym, ◌∙◌, Bool, true, false, List, some, arith, ltb, Bool-cases, Option-cases, inl, inr,
  subst,
}
use trading_matching_engine.Types.{
  OrderId, ClientId, OrderType, Nanos, Qty, Price, Side, limit, invalid_price,
}
use trading_matching_engine.Messages.{EngineOrderResponse, BookUpdate, accepted}
use trading_matching_engine.Book.{BookOrder, SymbolOrderBook, find_node, find_order, is_indexed}
use trading_matching_engine.Book.Nodes.{copies, copies_of_none, find_node-order_id}
use trading_matching_engine.Book.Valid.{resting, IsValid, find_order-resting}
use trading_matching_engine.Book.Rest.{rest_order-IsValid}
use trading_matching_engine.Match.{match_incoming}
use trading_matching_engine.Match.Book.{match_incoming-IsValid, match_incoming-copies-le}
use trading_matching_engine.Entry.{
  rest_remainder, cancel_remainder, add_limit_order, add_market_order, add_ioc_order, answer,
}

-- Messages do not touch the levels or the index.
pub sent-IsValid :
    {b : SymbolOrderBook} (rs : List EngineOrderResponse) (us : List BookUpdate)
    → IsValid b
    → IsValid (record b { responses = rs; updates = us })
sent-IsValid rs us v = record {
  bids_side = v.bids_side;
  asks_side = v.asks_side;
  unique = v.unique;
  indexed = v.indexed;
}

-- An id that the index does not have is not in the book.
pub fresh_id :
    {b : SymbolOrderBook} (id : OrderId)
    → IsValid b
    → is_indexed id b ≡ false
    → copies id (resting b) ≡ 0
fresh_id {b} id v h = elim (Option-cases (find_node id (resting b))) [
  | inl e ↦ copies_of_none id (resting b) e
  | inr (o, e) ↦ absurd (ground (arith, v.indexed id))
]

-- An order that the index finds is in the book under that id.
pub found_order :
    {b : SymbolOrderBook} (id : OrderId) {o : BookOrder}
    → IsValid b
    → find_order id b ≡ some o
    → (find_node id (resting b) ≡ some o) × (o.order_id ≡ id)
found_order {b} id {o} v h =
    let e : find_node id (resting b) ≡ some o = sym (find_order-resting id v) ∙ h in
    (e, find_node-order_id id (resting b) o e)

pub found_self :
    {b : SymbolOrderBook} (id : OrderId) {o : BookOrder}
    → IsValid b
    → find_order id b ≡ some o
    → find_node o.order_id (resting b) ≡ some o
found_self {b} id {o} v h =
    let e = found_order id v h in subst (λ i. find_node i (resting b) ≡ some o) (sym e.1) e.0

pub rest_remainder-IsValid :
    (client_id : ClientId) (order_id : OrderId) (order_type : OrderType) (side : Side)
    (price : Price) (qty : Qty) (now : Nanos) (r : SymbolOrderBook × Qty)
    → copies order_id (resting r.0) ≡ 0
    → IsValid r.0
    → IsValid (rest_remainder client_id order_id order_type side price qty now r)
unfolding rest_remainder
rest_remainder-IsValid client_id order_id order_type side price qty now (b, leaves) fresh v =
    elim (Bool-cases (ltb 0 leaves)) [
      | inl more ↦ rw more (
          sent-IsValid _ _ (
            rest_order-IsValid client_id order_id order_type side price qty leaves now b fresh
              (ground arith) v))
      | inr done ↦ rw done v
    ]

pub cancel_remainder-IsValid :
    (client_id : ClientId) (order_id : OrderId) (side : Side) (price : Price) (qty : Qty)
    (r : SymbolOrderBook × Qty)
    → IsValid r.0
    → IsValid (cancel_remainder client_id order_id side price qty r)
unfolding cancel_remainder
cancel_remainder-IsValid client_id order_id side price qty (b, leaves) v =
    elim (Bool-cases (ltb 0 leaves)) [
      | inl more ↦ rw more (sent-IsValid _ _ v)
      | inr done ↦ rw done v
    ]

-- Matching brings in no id.
pub still_fresh :
    (client_id : ClientId) (order_id : OrderId) (side : Side) (price : Price) (has_limit : Bool)
    (qty : Qty) (b : SymbolOrderBook)
    → IsValid b
    → copies order_id (resting b) ≡ 0
    → copies order_id (resting (match_incoming client_id order_id side price has_limit qty b).0) ≡ 0
still_fresh client_id order_id side price has_limit qty b v h =
    omega (arith, match_incoming-copies-le client_id order_id side price has_limit qty b v order_id)

module _ (client_id : ClientId) (order_id : OrderId) where
  pub add_limit_order-IsValid :
      (side : Side) (price : Price) (qty : Qty) (now : Nanos) {b : SymbolOrderBook}
      → IsValid b
      → IsValid (add_limit_order client_id order_id side price qty now b)
  unfolding add_limit_order
  add_limit_order-IsValid side price qty now {b} v = elim (Bool-cases (is_indexed order_id b)) [
    | inl old ↦ rw old (sent-IsValid _ _ v)
    | inr new ↦
        let b' = answer accepted client_id order_id side price 0 qty b in
        let v' : IsValid b' = sent-IsValid _ _ v in
        rw new (
          rest_remainder-IsValid client_id order_id limit side price qty now
            (match_incoming client_id order_id side price true qty b')
            (still_fresh client_id order_id side price true qty b' v' (fresh_id order_id v new))
            (match_incoming-IsValid client_id order_id side price true qty b' v'))
  ]

  pub add_market_order-IsValid :
      (side : Side) (qty : Qty) {b : SymbolOrderBook}
      → IsValid b
      → IsValid (add_market_order client_id order_id side qty b)
  unfolding add_market_order
  add_market_order-IsValid side qty {b} v = elim (Bool-cases (is_indexed order_id b)) [
    | inl old ↦ rw old (sent-IsValid _ _ v)
    | inr new ↦
        let b' = answer accepted client_id order_id side invalid_price 0 qty b in
        rw new (
          cancel_remainder-IsValid client_id order_id side invalid_price qty
            (match_incoming client_id order_id side invalid_price false qty b')
            (match_incoming-IsValid client_id order_id side invalid_price false qty b'
              (sent-IsValid _ _ v)))
  ]

  pub add_ioc_order-IsValid :
      (side : Side) (price : Price) (qty : Qty) {b : SymbolOrderBook}
      → IsValid b
      → IsValid (add_ioc_order client_id order_id side price qty b)
  unfolding add_ioc_order
  add_ioc_order-IsValid side price qty {b} v = elim (Bool-cases (is_indexed order_id b)) [
    | inl old ↦ rw old (sent-IsValid _ _ v)
    | inr new ↦
        let b' = answer accepted client_id order_id side price 0 qty b in
        rw new (
          cancel_remainder-IsValid client_id order_id side price qty
            (match_incoming client_id order_id side price true qty b')
            (match_incoming-IsValid client_id order_id side price true qty b' (sent-IsValid _ _ v)))
  ]
