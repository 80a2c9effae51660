-- ===== src/Entry/Answers/Calls.antt =====
-- The first response of each order-entry call of order_book.cpp.
use trading_matching_engine.Base.{
  ◌≡◌, refl, ap, ◌∙◌, true, false, not, ◌||◌, List, [], ◌∷◌, ◌++◌, append_assoc, ltb, ◌==◌, Bool,
  Bool-cases, Option-cases, inl, inr,
}
use trading_matching_engine.Base.Int.{eqb_ℤ}
use trading_matching_engine.Types.{OrderId, ClientId, Qty, Price, Side, Nanos, limit, invalid_price}
use trading_matching_engine.Messages.{
  EngineOrderResponse, ResponseStatus, accepted, canceled, modified,
}
use trading_matching_engine.Book.{
  BookOrder, SymbolOrderBook, rest_order, remove_order, resize_order, is_indexed, find_order,
  send_response,
}
use trading_matching_engine.Match.{match_incoming}
use trading_matching_engine.Entry.{
  rest_remainder, cancel_remainder, add_limit_order, add_market_order, add_ioc_order, cancel_order,
  reprice, requantify, is_bad_change, modify_order, answer,
}
use trading_matching_engine.Entry.Answers.{
  Decides, Verdict, owns, is_refusal, Extends, Extends-refl, Extends-trans,
  cancel_remainder-Extends, match_incoming-Extends, responses-remove_order, responses-resize_order,
  responses-rest_order, responses-rest_remainder,
}

module _ (client_id : ClientId) (order_id : OrderId) (b : SymbolOrderBook) where
  -- An answer from a book with the responses of `b`, and what comes behind it.
  answer-Decides :
      (status : ResponseStatus) (side : Side) (price : Price) (exec_qty leaves_qty : Qty)
      (c : SymbolOrderBook) (after : List EngineOrderResponse)
      → c.responses ≡ b.responses
      → Extends (answer status client_id order_id side price exec_qty leaves_qty c).responses after
      → Verdict client_id order_id (is_refusal status) b.responses after
  answer-Decides status side price exec_qty leaves_qty c after same (rs, e) =
      let r : EngineOrderResponse = record {
        status = status;
        client_id = client_id;
        symbol = c.symbol;
        client_order_id = order_id;
        market_order_id = order_id;
        side = side;
        price = price;
        exec_qty = exec_qty;
        leaves_qty = leaves_qty;
      } in
      (
        r,
        rs,
        e ∙ append_assoc c.responses (r ∷ []) rs ∙ ap (λ l. l ++ (r ∷ rs)) same,
        refl,
        refl,
        refl,
      )

  -- A refusal of `b` itself.
  pub send-Decides :
      (r : EngineOrderResponse)
      → r.client_id ≡ client_id
      → r.client_order_id ≡ order_id
      → Decides client_id order_id (is_refusal r.status) b (send_response r b)
  send-Decides r c o = (r, [], refl, c, o, refl)

  module _ (side : Side) (price : Price) (qty : Qty) where
    -- The book that has accepted an order.
    abbrev accepting : SymbolOrderBook
    accepting = answer accepted client_id order_id side price 0 qty b

    pub add_limit_order-Decides :
        (now : Nanos)
        → Decides client_id order_id
            (is_indexed order_id b)
            b
            (add_limit_order client_id order_id side price qty now b)
    unfolding add_limit_order
    add_limit_order-Decides now = elim (Bool-cases (is_indexed order_id b)) [
      | inl old ↦ rw old (send-Decides _ refl refl)
      | inr new ↦
          let r = match_incoming client_id order_id side price true qty accepting in
          let (rs, e) = match_incoming-Extends client_id order_id side price true qty accepting in
          rw new (
            answer-Decides accepted side price 0 qty b
              (rest_remainder client_id order_id limit side price qty now r).responses refl
              (rs, responses-rest_remainder client_id order_id limit side price qty now r ∙ e))
    ]

    -- Matching with a limit or without, and a cancelled rest.
    cancelled-Decides :
        (has_limit : Bool)
        → Decides client_id order_id false b (
            cancel_remainder client_id order_id side price qty
              (match_incoming client_id order_id side price has_limit qty accepting))
    cancelled-Decides has_limit =
        let r = match_incoming client_id order_id side price has_limit qty accepting in
        let b' = cancel_remainder client_id order_id side price qty r in
        answer-Decides accepted side price 0 qty b b'.responses refl (
          Extends-trans accepting.responses r.0.responses b'.responses
            (match_incoming-Extends client_id order_id side price has_limit qty accepting)
            (cancel_remainder-Extends client_id order_id side price qty r))

    pub add_ioc_order-Decides :
        Decides client_id order_id
          (is_indexed order_id b)
          b
          (add_ioc_order client_id order_id side price qty b)
    unfolding add_ioc_order
    add_ioc_order-Decides = elim (Bool-cases (is_indexed order_id b)) [
      | inl old ↦ rw old (send-Decides _ refl refl)
      | inr new ↦ rw new (cancelled-Decides true)
    ]

  pub add_market_order-Decides :
      (side : Side) (qty : Qty)
      → Decides client_id order_id
          (is_indexed order_id b)
          b
          (add_market_order client_id order_id side qty b)
  unfolding add_market_order
  add_market_order-Decides side qty = elim (Bool-cases (is_indexed order_id b)) [
    | inl old ↦ rw old (send-Decides _ refl refl)
    | inr new ↦ rw new (cancelled-Decides side invalid_price qty false)
  ]

  pub cancel_order-Decides :
      Decides client_id order_id
        (not (owns client_id order_id b))
        b
        (cancel_order client_id order_id b)
  unfolding cancel_order
  cancel_order-Decides = elim (Option-cases (find_order order_id b)) [
    | inl gone ↦ rw (gone, cancel_order, owns) (send-Decides _ refl refl)
    | inr (o, there) ↦ elim (Bool-cases (o.client_id == client_id)) [
      | inl own ↦
          rw (there, cancel_order, owns, own)
            (answer-Decides canceled o.side o.price 0 0 (remove_order o b) _
              (responses-remove_order o b) (Extends-refl _))
      | inr other ↦ rw (there, cancel_order, owns, other) (send-Decides _ refl refl)
    ]
  ]

  reprice-Decides :
      (o : BookOrder) (price : Price) (qty : Qty) (now : Nanos)
      → Decides client_id order_id false b (reprice o client_id order_id price qty now b)
  unfolding reprice
  reprice-Decides o price qty now =
      let c = remove_order o b in
      let c' = answer modified client_id order_id o.side price 0 qty c in
      let r = match_incoming client_id order_id o.side price true qty c' in
      let (rs, e) = match_incoming-Extends client_id order_id o.side price true qty c' in
      answer-Decides modified o.side price 0 qty c
        (rest_remainder client_id order_id o.order_type o.side price qty now r).responses
        (responses-remove_order o b)
        (rs, responses-rest_remainder client_id order_id o.order_type o.side price qty now r ∙ e)

  requantify-Decides :
      (o : BookOrder) (qty : Qty) (now : Nanos)
      → Decides client_id order_id false b (requantify o client_id order_id qty now b)
  unfolding requantify
  requantify-Decides o qty now = elim (Bool-cases (ltb qty o.qty)) [
    | inl less ↦ rw less (
        answer-Decides modified o.side o.price 0 qty (resize_order o qty b) _
          (responses-resize_order o qty b) (Extends-refl _))
    | inr not_less ↦ elim (Bool-cases (ltb o.qty qty)) [
      | inl more ↦
          rw (not_less, more)
            (answer-Decides modified o.side o.price 0 qty
              (rest_order client_id order_id o.order_type o.side o.price qty qty now
                (remove_order o b))
              _
              (responses-rest_order client_id order_id o.order_type o.side o.price qty qty now
                  (remove_order o b)
                ∙ responses-remove_order o b)
              (Extends-refl _))
      | inr same ↦ rw (not_less, same) (send-Decides _ refl refl)
    ]
  ]

  pub modify_order-Decides :
      (price : Price) (qty : Qty) (now : Nanos)
      → Decides client_id order_id
          (not (owns client_id order_id b) || is_bad_change price qty)
          b
          (modify_order client_id order_id price qty now b)
  unfolding modify_order
  modify_order-Decides price qty now = elim (Option-cases (find_order order_id b)) [
    | inl gone ↦ rw (gone, modify_order, owns) (send-Decides _ refl refl)
    | inr (o, there) ↦
        elim (Bool-cases (not (o.client_id == client_id) || is_bad_change price qty)) [
          | inl bad ↦ rw (there, modify_order, owns, bad) (send-Decides _ refl refl)
          | inr good ↦ elim (Bool-cases (eqb_ℤ price o.price)) [
            | inl same ↦ rw (there, modify_order, owns, good, same) (requantify-Decides o qty now)
            | inr new ↦ rw (there, modify_order, owns, good, new) (reprice-Decides o price qty now)
          ]
        ]
  ]
