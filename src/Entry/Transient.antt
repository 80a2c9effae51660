-- ===== src/Entry/Transient.antt =====
-- `addMarketOrder` and `addIOCOrder` of order_book.cpp and what rests after them.
use trading_matching_engine.Base.{
  ◌≡◌, refl, ap, ◌∙◌, Bool, true, false, none, ltb, Bool-cases, inl, inr,
}
use trading_matching_engine.Types.{OrderId, ClientId, Qty, Price, Side, invalid_price}
use trading_matching_engine.Messages.{accepted}
use trading_matching_engine.Book.{SymbolOrderBook, find_node, is_indexed}
use trading_matching_engine.Book.Nodes.{copies, find_node_absent}
use trading_matching_engine.Book.Valid.{resting, IsValid}
use trading_matching_engine.Match.{match_incoming}
use trading_matching_engine.Entry.{cancel_remainder, add_market_order, add_ioc_order, answer}
use trading_matching_engine.Entry.Valid.{sent-IsValid, fresh_id, still_fresh}

module _ (client_id : ClientId) (order_id : OrderId) (side : Side) where
  resting-cancel_remainder :
      (price : Price) (qty : Qty) (r : SymbolOrderBook × Qty)
      → resting (cancel_remainder client_id order_id side price qty r) ≡ resting r.0
  unfolding cancel_remainder
  resting-cancel_remainder price qty (b, leaves) = elim (Bool-cases (ltb 0 leaves)) [
    | inl more ↦ rw more refl
    | inr done ↦ rw done refl
  ]

  not_resting :
      (price : Price) (has_limit : Bool) (qty : Qty) (b : SymbolOrderBook)
      → IsValid b
      → copies order_id (resting b) ≡ 0
      → find_node order_id (
          resting (
            cancel_remainder client_id order_id side price qty
              (match_incoming client_id order_id side price has_limit qty b)))
        ≡ none
  not_resting price has_limit qty b v h =
      let r = match_incoming client_id order_id side price has_limit qty b in
      ap (find_node order_id) (resting-cancel_remainder price qty r)
      ∙ find_node_absent order_id (resting r.0)
          (still_fresh client_id order_id side price has_limit qty b v h)

  -- If the id is not in use, then after a market order and after an immediate-or-cancel order the
  -- book, well-formed before, holds no order with that id, whatever was filled.
  pub add_market_order-find_node :
      (price : Price) (qty : Qty) (b : SymbolOrderBook)
      → IsValid b
      → is_indexed order_id b ≡ false
      → (find_node order_id (resting (add_market_order client_id order_id side qty b)) ≡ none)
        × (find_node order_id (resting (add_ioc_order client_id order_id side price qty b)) ≡ none)
  unfolding add_market_order add_ioc_order
  add_market_order-find_node price qty b v new =
      let h = fresh_id order_id v new in
      (
        rw new (
            not_resting invalid_price false qty
              (answer accepted client_id order_id side invalid_price 0 qty b) (sent-IsValid _ _ v)
              h),
        rw new (
            not_resting price true qty (answer accepted client_id order_id side price 0 qty b)
              (sent-IsValid _ _ v) h),
      )
