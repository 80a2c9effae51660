-- ===== src/Gateway/Responses.antt =====
-- The way of the responses through `drainResponses` of exchange/order_server/order_server.h.
use trading_matching_engine.Base.{
  ◌≡◌, refl, sym, ap, ◌∙◌, List, [], ◌∷◌, ◌++◌, map, append-nil, append_assoc, if◌then◌else◌,
}
use trading_matching_engine.Messages.{EngineOrderRequest, EngineOrderResponse}
use trading_matching_engine.Gateway.{
  OrderGatewayServer, deliver, drain_responses, drain_inbox, run_round,
}

-- What waits in the queues, one queue after the other.
unfoldable pub responses_in : List (List EngineOrderResponse) → List EngineOrderResponse
responses_in [] = []
responses_in (q ∷ qs) = q ++ responses_in qs

deliver-responses_in :
    (qs : List (List EngineOrderResponse)) (d : List EngineOrderResponse)
    → deliver qs d ≡ d ++ responses_in qs
unfolding deliver responses_in
deliver-responses_in [] d = sym (append-nil d)
deliver-responses_in (q ∷ qs) d =
    deliver-responses_in qs (d ++ q) ∙ append_assoc d q (responses_in qs)

none_left : (qs : List (List EngineOrderResponse)) → responses_in (map (λ q. []) qs) ≡ []
unfolding responses_in
none_left [] = refl
none_left (q ∷ qs) = none_left qs

-- A round of the gateway reads every response that waits in its queues. If a callback is
-- registered, it is called with each of them once, in the order of the queues and within a queue in
-- the order of writing; if none is, they are lost.
pub run_round-delivered :
    (sort : List EngineOrderRequest → List EngineOrderRequest) (g : OrderGatewayServer)
    → ((run_round sort g).delivered ≡ (
        if g.response_callback
        then g.delivered ++ responses_in g.incoming_responses
        else g.delivered))
      × (responses_in (run_round sort g).incoming_responses ≡ [])
unfolding run_round drain_responses drain_inbox
run_round-delivered sort g = (
  ap (λ d. if g.response_callback then d else g.delivered)
      (deliver-responses_in g.incoming_responses g.delivered),
  none_left g.incoming_responses,
)
