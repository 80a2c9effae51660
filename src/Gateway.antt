-- ===== src/Gateway.antt =====
-- exchange/order_server/order_server.h: the inbox of the producers, the sequencer, and the way of
-- the responses back. A queue of responses is the list of what waits in it, oldest first.
pub mod Responses
use trading_matching_engine.Base.{
  List, [], ◌∷◌, ◌++◌, map, ◌≡◌, ◌≤◌, refl, ap, ◌∙◌, length, arith, ◌+◌, Bool, true, if◌then◌else◌,
}
use trading_matching_engine.Types.{Nanos}
use trading_matching_engine.Messages.{EngineOrderRequest, EngineOrderResponse}
use trading_matching_engine.Sequencer.{RequestSequencer, flush, max_pending_gateway_requests}
use trading_matching_engine.Sequencer.Order.{
  SortLaws, IsSorted, count, enqueue_all, enqueue_all_short, enqueue_all-count, flush-count,
  flush_all, count_nil, flush-routed, tags,
}

pub record OrderGatewayServer : Type 0 where
  pub inbox : List (Nanos × EngineOrderRequest)
  pub sequencer : RequestSequencer
  pub incoming_responses : List (List EngineOrderResponse)
  -- Whether a callback is registered, and what it has been called with.
  pub response_callback : Bool
  pub delivered : List EngineOrderResponse

-- A producer's call; `rx_time` is its reading of the clock.
unfoldable pub submit : Nanos → EngineOrderRequest → OrderGatewayServer → OrderGatewayServer
submit rx_time request g = record g { inbox = g.inbox ++ ((rx_time, request) ∷ []) }

unfoldable pub on_response : OrderGatewayServer → OrderGatewayServer
on_response g = record g { response_callback = true }

-- Every queue is read until it is empty, one after the other.
unfoldable pub deliver :
    List (List EngineOrderResponse) → List EngineOrderResponse → List EngineOrderResponse
deliver [] d = d
deliver (q ∷ qs) d = deliver qs (d ++ q)

-- Without a callback the responses are read and forgotten.
unfoldable pub drain_responses : OrderGatewayServer → OrderGatewayServer
unfolding deliver
drain_responses g = record g {
  incoming_responses = map (λ q. []) g.incoming_responses;
  delivered = if g.response_callback then deliver g.incoming_responses g.delivered else g.delivered;
}

module _ (sort : List EngineOrderRequest → List EngineOrderRequest) where
  unfoldable pub drain_inbox : OrderGatewayServer → OrderGatewayServer
  unfolding enqueue_all
  drain_inbox g = record g { inbox = []; sequencer = enqueue_all sort g.inbox g.sequencer }

  -- One round of `run`.
  unfoldable pub run_round : OrderGatewayServer → OrderGatewayServer
  unfolding drain_inbox drain_responses flush
  run_round g =
      let g' = drain_inbox g in drain_responses (record g' { sequencer = flush sort g'.sequencer })

  module _ (laws : SortLaws sort) where
    -- A round of the gateway that starts with an empty buffer and finds at most 8192 requests in
    -- the inbox routes them all, in the order of their receive times, and keeps none.
    pub run_round-routed :
        (g : OrderGatewayServer)
        → g.sequencer.pending ≡ []
        → length g.inbox ≤ max_pending_gateway_requests
        → (batch : List EngineOrderRequest) × ((run_round g).sequencer.routed
            ≡ g.sequencer.routed ++ batch)
          × IsSorted batch
          × ((p : EngineOrderRequest → Bool) → count p batch ≡ count p (tags g.inbox))
          × ((run_round g).sequencer.pending ≡ [])
          × ((run_round g).inbox ≡ [])
    unfolding run_round drain_inbox drain_responses
    run_round-routed g empty short =
        let s = g.sequencer in
        let filled : enqueue_all sort g.inbox s ≡ record s { pending = tags g.inbox } =
          enqueue_all_short sort g.inbox s (ground arith)
          ∙ ap (λ l. record s { pending = l ++ tags g.inbox }) empty in
        let routed = ap (flush sort) filled in
        let (batch, at_end, in_order, all) =
          flush-routed sort laws (record s { pending = tags g.inbox }) in
        (
          batch,
          ap (λ x. x.routed) routed ∙ at_end,
          in_order,
          all,
          flush_all sort (enqueue_all sort g.inbox s),
          refl,
        )

    -- However many requests wait, a round of the gateway loses none and invents none: what has been
    -- routed after it is what had been routed, what was pending and what was in the inbox, as
    -- often.
    pub run_round-count :
        (g : OrderGatewayServer) (p : EngineOrderRequest → Bool)
        → count p (run_round g).sequencer.routed
          ≡ count p g.sequencer.routed + count p g.sequencer.pending + count p (tags g.inbox)
    unfolding run_round drain_inbox drain_responses
    run_round-count g p =
        let s = enqueue_all sort g.inbox g.sequencer in
        omega (
          arith,
          enqueue_all-count sort laws p g.inbox g.sequencer,
          flush-count sort laws p s,
          ap (count p) (flush_all sort s),
          count_nil p,
        )
