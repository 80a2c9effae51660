-- ===== src/Core/Answers.antt =====
-- The responses to the requests of matching_core.h.
use trading_matching_engine.Base.{
  Bool, true, not, ◌||◌, ◌≡◌, refl, sym, append-nil, ap, ◌∙◌, List, [], ◌∷◌, ◌++◌, append_assoc,
  Bool-cases, inl, inr,
}
use trading_matching_engine.Types.{Nanos, OrderType, limit, market, ioc, cancel, modify}
use trading_matching_engine.Messages.{EngineOrderRequest, EngineOrderResponse}
use trading_matching_engine.Book.{SymbolOrderBook, is_indexed}
use trading_matching_engine.Entry.{is_bad_change}
use trading_matching_engine.Entry.Answers.{Answers, Decides, owns}
use trading_matching_engine.Entry.Answers.Calls.{
  send-Decides, add_limit_order-Decides, add_market_order-Decides, add_ioc_order-Decides,
  cancel_order-Decides, modify_order-Decides,
}
use trading_matching_engine.Core.{dispatch, process_request, bad_qty, bad_price, rejection}
use trading_matching_engine.Core.Valid.{process_all}
use trading_matching_engine.Core.Runs.{requests}

-- Whether a book refuses a request of a type: a new order whose id rests, a cancellation or a
-- modification of what is not the client's resting order, a modification to what no order may have,
-- and any request of another type.
abbrev pub refuses : OrderType → EngineOrderRequest → SymbolOrderBook → Bool
refuses limit req b = is_indexed req.order_id b
refuses market req b = is_indexed req.order_id b
refuses ioc req b = is_indexed req.order_id b
refuses cancel req b = not (owns req.client_id req.order_id b)
refuses modify req b = not (owns req.client_id req.order_id b) || is_bad_change req.price req.qty
refuses _ req b = true

-- Whether a request fails the validation or is refused by the book.
abbrev pub is_refused : EngineOrderRequest → SymbolOrderBook → Bool
is_refused req b = bad_qty req || bad_price req || refuses req.order_type req b

dispatch-Decides :
    (type : OrderType) (req : EngineOrderRequest) (now : Nanos) (b : SymbolOrderBook)
    → Decides req.client_id req.order_id (refuses type req b) b (dispatch type req now b)
unfolding dispatch
dispatch-Decides limit req now b =
    add_limit_order-Decides req.client_id req.order_id b req.side req.price req.qty now
dispatch-Decides market req now b =
    add_market_order-Decides req.client_id req.order_id b req.side req.qty
dispatch-Decides ioc req now b =
    add_ioc_order-Decides req.client_id req.order_id b req.side req.price req.qty
dispatch-Decides cancel req now b = cancel_order-Decides req.client_id req.order_id b
dispatch-Decides modify req now b =
    modify_order-Decides req.client_id req.order_id b req.price req.qty now
dispatch-Decides _ req now b = send-Decides req.client_id req.order_id b (rejection req) refl refl

-- Every request of whatever type, valid or not, is answered: handling it adds at least one response
-- behind those that are there, and the first that it adds names the client and the order id of the
-- request. Its status is a rejection, of whichever kind, exactly if the request fails the
-- validation, is a new order whose id rests in the book, is a cancellation or modification of what
-- is not a resting order of the client, or is of no known type.
pub process_request-Decides :
    (req : EngineOrderRequest) (now : Nanos) (b : SymbolOrderBook)
    → Decides req.client_id req.order_id (is_refused req b) b (process_request req now b)
unfolding process_request
process_request-Decides req now b =
    let rejected = send-Decides req.client_id req.order_id b (rejection req) refl refl in
    elim (Bool-cases (bad_qty req)) [
      | inl q ↦ rw q rejected
      | inr q ↦ elim (Bool-cases (bad_price req)) [
        | inl p ↦ rw (q, p) rejected
        | inr p ↦ rw (q, p) (dispatch-Decides req.order_type req now b)
      ]
    ]

-- Every request is answered: the first response that its handling adds names its client and its
-- order id.
pub process_request-Answers :
    (req : EngineOrderRequest) (now : Nanos) (b : SymbolOrderBook)
    → Answers req.client_id req.order_id b (process_request req now b)
process_request-Answers req now b =
    let (r, rs, e, c, o, _) = process_request-Decides req now b in (r, rs, e, c, o)

-- Some responses are an answer of their own to each of some requests, in the order of the requests:
-- a response that names the client and the order id, and what else the request has led to.
abbrev pub AnswersAll : List EngineOrderRequest → List EngineOrderResponse → Type 0
AnswersAll [] rs = rs ≡ []
AnswersAll (req ∷ reqs) rs =
    (r : EngineOrderResponse) × (more : List EngineOrderResponse) × (rest : List
      EngineOrderResponse)
    × (rs ≡ r ∷ (more ++ rest))
    × (r.client_id ≡ req.client_id)
    × (r.client_order_id ≡ req.order_id)
    × AnswersAll reqs rest

pub process_all-AnswersAll :
    (reqs : List (EngineOrderRequest × Nanos)) (b : SymbolOrderBook)
    → (rs : List EngineOrderResponse) × ((process_all reqs b).responses ≡ b.responses ++ rs)
      × AnswersAll (requests reqs) rs
unfolding process_all
process_all-AnswersAll [] b = ([], sym (append-nil b.responses), refl)
process_all-AnswersAll ((req, now) ∷ reqs) b =
    let b' = process_request req now b in
    let (r, more, e, c, o) = process_request-Answers req now b in
    let (rest, f, answers) = process_all-AnswersAll reqs b' in
    (
      r ∷ (more ++ rest),
      f ∙ ap (λ l. l ++ rest) e ∙ append_assoc b.responses (r ∷ more) rest,
      (r, more, rest, refl, c, o, answers),
    )
