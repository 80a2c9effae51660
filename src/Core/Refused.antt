-- ===== src/Core/Refused.antt =====
-- The requests that matching_core.h and order_book.cpp refuse.
use trading_matching_engine.Base.{
  ◌≡◌, refl, true, false, not, ◌||◌, ◌==◌, Bool-cases, Option-cases, inl, inr,
}
use trading_matching_engine.Types.{
  Nanos, OrderType, OrderId, ClientId, limit, market, ioc, cancel, modify,
}
use trading_matching_engine.Messages.{EngineOrderRequest, EngineOrderResponse}
use trading_matching_engine.Book.{SymbolOrderBook, send_response, find_order}
use trading_matching_engine.Entry.{
  add_limit_order, add_market_order, add_ioc_order, cancel_order, modify_order, is_bad_change,
}
use trading_matching_engine.Entry.Answers.{is_refusal, owns}
use trading_matching_engine.Core.{dispatch, process_request, bad_qty, bad_price, rejection}
use trading_matching_engine.Core.Answers.{refuses, is_refused}

-- Nothing but one refusal has been sent.
abbrev pub OnlyRefuses : ClientId → OrderId → SymbolOrderBook → SymbolOrderBook → Type 0
OnlyRefuses client_id order_id b b' =
    (r : EngineOrderResponse) × (b' ≡ send_response r b)
    × (r.client_id ≡ client_id)
    × (r.client_order_id ≡ order_id)
    × (is_refusal r.status ≡ true)

send-OnlyRefuses :
    (client_id : ClientId) (order_id : OrderId) (b : SymbolOrderBook) (r : EngineOrderResponse)
    → r.client_id ≡ client_id
    → r.client_order_id ≡ order_id
    → is_refusal r.status ≡ true
    → OnlyRefuses client_id order_id b (send_response r b)
send-OnlyRefuses client_id order_id b r c o refused = (r, refl, c, o, refused)

dispatch-OnlyRefuses :
    (type : OrderType) (req : EngineOrderRequest) (now : Nanos) (b : SymbolOrderBook)
    → refuses type req b ≡ true
    → OnlyRefuses req.client_id req.order_id b (dispatch type req now b)
unfolding dispatch add_limit_order add_market_order add_ioc_order cancel_order modify_order
dispatch-OnlyRefuses limit req now b h = rw h (send-OnlyRefuses _ _ b _ refl refl refl)
dispatch-OnlyRefuses market req now b h = rw h (send-OnlyRefuses _ _ b _ refl refl refl)
dispatch-OnlyRefuses ioc req now b h = rw h (send-OnlyRefuses _ _ b _ refl refl refl)
dispatch-OnlyRefuses cancel req now b h = elim (Option-cases (find_order req.order_id b)) [
  | inl gone ↦ rw (cancel_order, gone) (send-OnlyRefuses _ _ b _ refl refl refl)
  | inr (o, there) ↦ elim (Bool-cases (o.client_id == req.client_id)) [
    | inl own ↦ (let k : false ≡ true = rw (owns, there, own) at h in absurd cc)
    | inr other ↦ rw (cancel_order, there, other) (send-OnlyRefuses _ _ b _ refl refl refl)
  ]
]
dispatch-OnlyRefuses modify req now b h = elim (Option-cases (find_order req.order_id b)) [
  | inl gone ↦ rw (modify_order, gone) (send-OnlyRefuses _ _ b _ refl refl refl)
  | inr (o, there) ↦
      let bad : (not (o.client_id == req.client_id) || is_bad_change req.price req.qty) ≡ true =
        rw (owns, there) at h in
      rw (modify_order, there, bad) (send-OnlyRefuses _ _ b _ refl refl refl)
]
dispatch-OnlyRefuses _ req now b h = send-OnlyRefuses _ _ b (rejection req) refl refl refl

-- A request that fails the validation or is refused by the book changes nothing: no order, level,
-- index entry or update of the book, and of the responses only that one refusal for its client and
-- order id is added.
pub process_request-OnlyRefuses :
    (req : EngineOrderRequest) (now : Nanos) (b : SymbolOrderBook)
    → is_refused req b ≡ true
    → OnlyRefuses req.client_id req.order_id b (process_request req now b)
unfolding process_request
process_request-OnlyRefuses req now b h = elim (Bool-cases (bad_qty req)) [
  | inl q ↦ rw q (send-OnlyRefuses _ _ b _ refl refl refl)
  | inr q ↦ elim (Bool-cases (bad_price req)) [
    | inl p ↦ rw (q, p) (send-OnlyRefuses _ _ b _ refl refl refl)
    | inr p ↦ rw (q, p) (dispatch-OnlyRefuses req.order_type req now b (rw (q, p) at h))
  ]
]
