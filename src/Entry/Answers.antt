-- ===== src/Entry/Answers.antt =====
-- The responses that the parts of the calls of order_book.cpp put behind those that are there.
pub mod Calls
use trading_matching_engine.Base.{
  ◌-◌, ◌≡◌, refl, sym, ap, ◌∙◌, true, false, min, not, ◌&&◌, ◌||◌, List, [], ◌∷◌, ◌++◌,
  append_assoc, append-nil, none, some, arith, ltb, ◌==◌, Bool, Bool-cases, Option-cases, inl, inr,
}
use trading_matching_engine.Base.Int.{eqb_ℤ}
use trading_matching_engine.Types.{
  OrderId, ClientId, Qty, Price, Side, Nanos, OrderType, limit, invalid_price,
}
use trading_matching_engine.Messages.{
  EngineOrderResponse, ResponseStatus, accepted, canceled, modified, rejected, cancel_rejected,
  modify_rejected,
}
use trading_matching_engine.Book.{
  BookOrder, PriceLevel, SymbolOrderBook, rest_order, remove_order, resize_order, is_indexed,
  find_order, levels, send_response,
}
use trading_matching_engine.Match.{
  Taker, Matching, fill, visit, match_level, match_levels, match_incoming, taker, matching, too_far,
  opposite, taker_fill, maker_fill,
}
use trading_matching_engine.Entry.{
  rest_remainder, cancel_remainder, add_limit_order, add_market_order, add_ioc_order, cancel_order,
  reprice, requantify, is_bad_change, modify_order, answer,
}

-- Some responses, and then more.
abbrev pub Extends : List EngineOrderResponse → List EngineOrderResponse → Type 0
Extends before after = (more : List EngineOrderResponse) × (after ≡ before ++ more)

pub Extends-refl : (rs : List EngineOrderResponse) → Extends rs rs
Extends-refl rs = ([], sym (append-nil rs))

pub Extends-trans :
    (rs ss ts : List EngineOrderResponse) → Extends rs ss → Extends ss ts → Extends rs ts
Extends-trans rs ss ts (xs, e) (ys, f) = (xs ++ ys, f ∙ ap (λ l. l ++ ys) e ∙ append_assoc rs xs ys)

module _ (t : Taker) where
  visit-Extends :
      (p : Price) (o : BookOrder) (m : Matching) → Extends m.responses (visit t p o m).1.responses
  unfolding visit fill
  visit-Extends p o m =
      let q = min m.leaves_qty o.qty in
      let both : Extends m.responses (
          m.responses
          ++ (taker_fill t p q (m.leaves_qty - q) ∷ maker_fill t p q o (o.qty - q) ∷ [])) =
        (taker_fill t p q (m.leaves_qty - q) ∷ maker_fill t p q o (o.qty - q) ∷ [], refl) in
      elim (Bool-cases (not (o.client_id == t.client_id) && ltb 0 m.leaves_qty)) [
        | inl meets ↦ elim (Bool-cases (o.qty - q == 0)) [
          | inl gone ↦ rw (meets, fill, gone) both
          | inr left ↦ rw (meets, fill, left) both
        ]
        | inr passes ↦ rw passes (Extends-refl m.responses)
      ]

  match_level-Extends :
      (p : Price) (os : List BookOrder) (m : Matching)
      → Extends m.responses (match_level t p os m).1.responses
  unfolding match_level
  match_level-Extends p [] m = Extends-refl m.responses
  match_level-Extends p (o ∷ os) m =
      let m' = (visit t p o m).1 in
      Extends-trans m.responses m'.responses (match_level t p os m').1.responses
        (visit-Extends p o m) (match_level-Extends p os m')

  match_levels-Extends :
      (ls : List PriceLevel) (m : Matching) → Extends m.responses (match_levels t ls m).1.responses
  unfolding match_levels
  match_levels-Extends [] m = Extends-refl m.responses
  match_levels-Extends (l ∷ ls) m =
      elim (Bool-cases (ltb 0 m.leaves_qty && not (too_far t l.price))) [
        | inl goes ↦
            let m' = (match_level t l.price l.orders m).1 in
            rw (goes, match_levels)
              (Extends-trans m.responses m'.responses (match_levels t ls m').1.responses
                (match_level-Extends l.price l.orders m) (match_levels-Extends ls m'))
        | inr stops ↦ rw (stops, match_levels) (Extends-refl m.responses)
      ]

pub match_incoming-Extends :
    (client_id : ClientId) (order_id : OrderId) (side : Side) (price : Price) (has_limit : Bool)
    (qty : Qty) (b : SymbolOrderBook)
    → Extends b.responses (match_incoming client_id order_id side price has_limit qty b).0.responses
unfolding match_incoming
match_incoming-Extends client_id order_id side price has_limit qty b =
    match_levels-Extends (taker client_id order_id side price has_limit b)
      (levels (opposite side) b) (matching b qty)

pub responses-rest_order :
    (client_id : ClientId) (order_id : OrderId) (type : OrderType) (side : Side) (price : Price)
    (original_qty qty : Qty) (now : Nanos) (b : SymbolOrderBook)
    → (rest_order client_id order_id type side price original_qty qty now b).responses ≡ b.responses
unfolding rest_order
responses-rest_order client_id order_id type side price original_qty qty now b = ground arith

pub responses-remove_order :
    (o : BookOrder) (b : SymbolOrderBook) → (remove_order o b).responses ≡ b.responses
unfolding remove_order
responses-remove_order o b = ground arith

pub responses-resize_order :
    (o : BookOrder) (q : Qty) (b : SymbolOrderBook) → (resize_order o q b).responses ≡ b.responses
unfolding resize_order
responses-resize_order o q b = ground arith

pub responses-rest_remainder :
    (client_id : ClientId) (order_id : OrderId) (type : OrderType) (side : Side) (price : Price)
    (qty : Qty) (now : Nanos) (r : SymbolOrderBook × Qty)
    → (rest_remainder client_id order_id type side price qty now r).responses ≡ r.0.responses
unfolding rest_remainder
responses-rest_remainder client_id order_id type side price qty now (b, leaves) =
    elim (Bool-cases (ltb 0 leaves)) [
      | inl more ↦
          rw more (responses-rest_order client_id order_id type side price qty leaves now b)
      | inr done ↦ rw done refl
    ]

pub cancel_remainder-Extends :
    (client_id : ClientId) (order_id : OrderId) (side : Side) (price : Price) (qty : Qty)
    (r : SymbolOrderBook × Qty)
    → Extends r.0.responses (cancel_remainder client_id order_id side price qty r).responses
unfolding cancel_remainder
cancel_remainder-Extends client_id order_id side price qty (b, leaves) =
    elim (Bool-cases (ltb 0 leaves)) [
      | inl more ↦ rw more (_, refl)
      | inr done ↦ rw done (Extends-refl b.responses)
    ]

-- The first new response names the client and the order of a call.
abbrev pub Leads : ClientId → OrderId → List EngineOrderResponse → List EngineOrderResponse → Type 0
Leads client_id order_id before after =
    (r : EngineOrderResponse) × (rs : List EngineOrderResponse) × (after ≡ before ++ (r ∷ rs))
    × (r.client_id ≡ client_id)
    × (r.client_order_id ≡ order_id)

abbrev pub Answers : ClientId → OrderId → SymbolOrderBook → SymbolOrderBook → Type 0
Answers client_id order_id b b' = Leads client_id order_id b.responses b'.responses

-- The statuses that refuse a request.
abbrev pub is_refusal : ResponseStatus → Bool
is_refusal rejected = true
is_refusal cancel_rejected = true
is_refusal modify_rejected = true
is_refusal _ = false

-- The first new response names the client and the order of a call, and says whether it is refused.
abbrev pub Verdict :
    ClientId → OrderId → Bool → List EngineOrderResponse → List EngineOrderResponse → Type 0
Verdict client_id order_id refused before after =
    (r : EngineOrderResponse) × (rs : List EngineOrderResponse) × (after ≡ before ++ (r ∷ rs))
    × (r.client_id ≡ client_id)
    × (r.client_order_id ≡ order_id)
    × (is_refusal r.status ≡ refused)

abbrev pub Decides : ClientId → OrderId → Bool → SymbolOrderBook → SymbolOrderBook → Type 0
Decides client_id order_id refused b b' =
    Verdict client_id order_id refused b.responses b'.responses

-- Whether the client's order of an id rests in the book.
abbrev pub owns : ClientId → OrderId → SymbolOrderBook → Bool
owns client_id order_id b = elim (find_order order_id b) [
  | none ↦ false
  | some o ↦ o.client_id == client_id
]
