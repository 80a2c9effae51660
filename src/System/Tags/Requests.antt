-- ===== src/System/Tags/Requests.antt =====
-- The symbol that the updates of the order-entry calls of order_book.cpp, and of the requests of
-- matching_core.h, carry.
use trading_matching_engine.Base.{
  true, false, not, ◌||◌, List, [], ◌∷◌, ltb, ◌==◌, Bool-cases, Option-cases, inl, inr,
}
use trading_matching_engine.Base.Int.{eqb_ℤ}
use trading_matching_engine.Types.{
  OrderId, ClientId, Qty, Price, Side, Symbol, Nanos, OrderType, limit, market, ioc, cancel, modify,
  invalid_price,
}
use trading_matching_engine.Messages.{
  EngineOrderRequest, add, cancel as canceling, modify as modifying,
}
use trading_matching_engine.Book.{
  BookOrder, SymbolOrderBook, rest_order, remove_order, resize_order, is_indexed, find_order,
}
use trading_matching_engine.Entry.{
  rest_remainder, cancel_remainder, add_limit_order, add_market_order, add_ioc_order, cancel_order,
  reprice, requantify, is_bad_change, modify_order,
}
use trading_matching_engine.Entry.Sync.{updates-resize_order}
use trading_matching_engine.Core.{dispatch, process_request, bad_qty, bad_price}
use trading_matching_engine.Core.Valid.{process_all}
use trading_matching_engine.System.Tags.{
  IsTagged, match_incoming-IsTagged, IsTagged-same, IsTagged-send, rest_order-IsTagged,
  remove_order-IsTagged, symbol-resize_order,
}

module _ (s : Symbol) where
  rest_remainder-IsTagged :
      (client_id : ClientId) (order_id : OrderId) (type : OrderType) (side : Side) (price : Price)
      (qty : Qty) (now : Nanos) (r : SymbolOrderBook × Qty)
      → IsTagged s r.0
      → IsTagged s (rest_remainder client_id order_id type side price qty now r)
  unfolding rest_remainder
  rest_remainder-IsTagged client_id order_id type side price qty now (b, leaves) (e, h) =
      elim (Bool-cases (ltb 0 leaves)) [
        | inl more ↦ rw more (
            IsTagged-send s add order_id side price leaves
              (rest_order client_id order_id type side price qty leaves now b)
              (rest_order-IsTagged s client_id order_id type side price qty leaves now b (e, h)))
        | inr done ↦ rw done (e, h)
      ]

  cancel_remainder-IsTagged :
      (client_id : ClientId) (order_id : OrderId) (side : Side) (price : Price) (qty : Qty)
      (r : SymbolOrderBook × Qty)
      → IsTagged s r.0
      → IsTagged s (cancel_remainder client_id order_id side price qty r)
  unfolding cancel_remainder
  cancel_remainder-IsTagged client_id order_id side price qty (b, leaves) h =
      elim (Bool-cases (ltb 0 leaves)) [ inl more ↦ rw more h | inr done ↦ rw done h ]

  add_limit_order-IsTagged :
      (client_id : ClientId) (order_id : OrderId) (side : Side) (price : Price) (qty : Qty)
      (now : Nanos) (b : SymbolOrderBook)
      → IsTagged s b
      → IsTagged s (add_limit_order client_id order_id side price qty now b)
  unfolding add_limit_order
  add_limit_order-IsTagged client_id order_id side price qty now b h =
      elim (Bool-cases (is_indexed order_id b)) [
        | inl old ↦ rw old h
        | inr new ↦ rw new (
            rest_remainder-IsTagged client_id order_id limit side price qty now _
              (match_incoming-IsTagged s client_id order_id side price true qty _ h))
      ]

  add_market_order-IsTagged :
      (client_id : ClientId) (order_id : OrderId) (side : Side) (qty : Qty) (b : SymbolOrderBook)
      → IsTagged s b
      → IsTagged s (add_market_order client_id order_id side qty b)
  unfolding add_market_order
  add_market_order-IsTagged client_id order_id side qty b h =
      elim (Bool-cases (is_indexed order_id b)) [
        | inl old ↦ rw old h
        | inr new ↦ rw new (
            cancel_remainder-IsTagged client_id order_id side invalid_price qty _
              (match_incoming-IsTagged s client_id order_id side invalid_price false qty _ h))
      ]

  add_ioc_order-IsTagged :
      (client_id : ClientId) (order_id : OrderId) (side : Side) (price : Price) (qty : Qty)
      (b : SymbolOrderBook)
      → IsTagged s b
      → IsTagged s (add_ioc_order client_id order_id side price qty b)
  unfolding add_ioc_order
  add_ioc_order-IsTagged client_id order_id side price qty b h =
      elim (Bool-cases (is_indexed order_id b)) [
        | inl old ↦ rw old h
        | inr new ↦ rw new (
            cancel_remainder-IsTagged client_id order_id side price qty _
              (match_incoming-IsTagged s client_id order_id side price true qty _ h))
      ]

  cancel_order-IsTagged :
      (client_id : ClientId) (order_id : OrderId) (b : SymbolOrderBook)
      → IsTagged s b
      → IsTagged s (cancel_order client_id order_id b)
  unfolding cancel_order
  cancel_order-IsTagged client_id order_id b h = elim (Option-cases (find_order order_id b)) [
    | inl none_there ↦ rw (none_there, cancel_order) h
    | inr (o, there) ↦ elim (Bool-cases (o.client_id == client_id)) [
      | inl own ↦
          rw (there, cancel_order, own)
            (IsTagged-send s canceling order_id o.side o.price o.qty (remove_order o b)
              (remove_order-IsTagged s o b h))
      | inr other ↦ rw (there, cancel_order, other) h
    ]
  ]

  reprice-IsTagged :
      (o : BookOrder) (client_id : ClientId) (order_id : OrderId) (price : Price) (qty : Qty)
      (now : Nanos) (b : SymbolOrderBook)
      → IsTagged s b
      → IsTagged s (reprice o client_id order_id price qty now b)
  unfolding reprice
  reprice-IsTagged o client_id order_id price qty now b h =
      rest_remainder-IsTagged client_id order_id o.order_type o.side price qty now _ (
        match_incoming-IsTagged s client_id order_id o.side price true qty _
          (remove_order-IsTagged s o b h))

  requantify-IsTagged :
      (o : BookOrder) (client_id : ClientId) (order_id : OrderId) (qty : Qty) (now : Nanos)
      (b : SymbolOrderBook)
      → IsTagged s b
      → IsTagged s (requantify o client_id order_id qty now b)
  unfolding requantify
  requantify-IsTagged o client_id order_id qty now b h = elim (Bool-cases (ltb qty o.qty)) [
    | inl less ↦ rw less (
        IsTagged-send s modifying order_id o.side o.price qty (resize_order o qty b) (
          IsTagged-same s b (resize_order o qty b) (symbol-resize_order o qty b)
            (updates-resize_order o qty b) h))
    | inr not_less ↦ elim (Bool-cases (ltb o.qty qty)) [
      | inl more ↦
          rw (not_less, more)
            (IsTagged-send s modifying order_id o.side o.price qty
              (rest_order client_id order_id o.order_type o.side o.price qty qty now
                (remove_order o b))
              (rest_order-IsTagged s client_id order_id o.order_type o.side o.price qty qty now
                (remove_order o b) (remove_order-IsTagged s o b h)))
      | inr same ↦ rw (not_less, same) h
    ]
  ]

  modify_order-IsTagged :
      (client_id : ClientId) (order_id : OrderId) (price : Price) (qty : Qty) (now : Nanos)
      (b : SymbolOrderBook)
      → IsTagged s b
      → IsTagged s (modify_order client_id order_id price qty now b)
  unfolding modify_order
  modify_order-IsTagged client_id order_id price qty now b h =
      elim (Option-cases (find_order order_id b)) [
        | inl none_there ↦ rw (none_there, modify_order) h
        | inr (o, there) ↦
            elim (Bool-cases (not (o.client_id == client_id) || is_bad_change price qty)) [
              | inl bad ↦ rw (there, modify_order, bad) h
              | inr good ↦ elim (Bool-cases (eqb_ℤ price o.price)) [
                | inl same ↦
                    rw (there, modify_order, good, same)
                      (requantify-IsTagged o client_id order_id qty now b h)
                | inr new ↦
                    rw (there, modify_order, good, new)
                      (reprice-IsTagged o client_id order_id price qty now b h)
              ]
            ]
      ]

  dispatch-IsTagged :
      (type : OrderType) (req : EngineOrderRequest) (now : Nanos) (b : SymbolOrderBook)
      → IsTagged s b
      → IsTagged s (dispatch type req now b)
  unfolding dispatch
  dispatch-IsTagged limit req now b h =
      add_limit_order-IsTagged req.client_id req.order_id req.side req.price req.qty now b h
  dispatch-IsTagged market req now b h =
      add_market_order-IsTagged req.client_id req.order_id req.side req.qty b h
  dispatch-IsTagged ioc req now b h =
      add_ioc_order-IsTagged req.client_id req.order_id req.side req.price req.qty b h
  dispatch-IsTagged cancel req now b h = cancel_order-IsTagged req.client_id req.order_id b h
  dispatch-IsTagged modify req now b h =
      modify_order-IsTagged req.client_id req.order_id req.price req.qty now b h
  dispatch-IsTagged _ req now b h = h

  process_request-IsTagged :
      (req : EngineOrderRequest) (now : Nanos) (b : SymbolOrderBook)
      → IsTagged s b
      → IsTagged s (process_request req now b)
  unfolding process_request
  process_request-IsTagged req now b h = elim (Bool-cases (bad_qty req)) [
    | inl q ↦ rw q h
    | inr q ↦ elim (Bool-cases (bad_price req)) [
      | inl p ↦ rw (q, p) h
      | inr p ↦ rw (q, p) (dispatch-IsTagged req.order_type req now b h)
    ]
  ]

  pub process_all-IsTagged :
      (reqs : List (EngineOrderRequest × Nanos)) (b : SymbolOrderBook)
      → IsTagged s b
      → IsTagged s (process_all reqs b)
  unfolding process_all
  process_all-IsTagged [] b h = h
  process_all-IsTagged ((req, now) ∷ rest) b h =
      process_all-IsTagged rest (process_request req now b) (process_request-IsTagged req now b h)
