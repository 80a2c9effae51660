-- ===== src/Scenarios.antt =====
-- tests/test_order_book.cpp: the harness of its tests, and what a test is.
pub mod Cases
pub mod Outcomes
use trading_matching_engine.Base.{
  ℕ, zero, suc, Bool, true, false, not, ◌&&◌, ◌||◌, List, [], ◌∷◌, ◌==◌, map,
}
use trading_matching_engine.Base.Int.{ℤ, pos, negsuc}
use trading_matching_engine.Types.{
  Symbol, ClientId, OrderId, Price, Qty, Side, OrderType, buy, sell, limit, market, ioc, cancel,
  modify,
}
use trading_matching_engine.Messages.{
  EngineOrderRequest, EngineOrderResponse, ResponseStatus, filled, canceled, rejected,
  cancel_rejected,
}
use trading_matching_engine.Core.{MatchingCore, new_core, route_request, serve_symbol}
use trading_matching_engine.Gateway.Responses.{responses_in}
use trading_matching_engine.System.{response_queues, read_all}

-- The members of `Harness` that change it: `send`, and `settle`, in whose pause each thread has
-- four rounds, as many as a test sends requests at most.
pub data Step : Type 0 where
  send : EngineOrderRequest → Step
  settle : Step

unfoldable pub serve_rounds : ℕ → Symbol → MatchingCore → MatchingCore
unfolding serve_symbol
serve_rounds zero s core = core
serve_rounds (suc n) s core = serve_rounds n s (serve_symbol s (pos 0) core)

unfoldable pub serve_all : List Symbol → MatchingCore → MatchingCore
unfolding serve_rounds
serve_all [] core = core
serve_all (s ∷ ss) core = serve_all ss (serve_rounds 4 s core)

unfoldable pub run_steps : List Symbol → List Step → MatchingCore → MatchingCore
unfolding serve_all route_request
run_steps symbols [] core = core
run_steps symbols (send req ∷ steps) core = run_steps symbols steps (route_request req core)
run_steps symbols (settle ∷ steps) core = run_steps symbols steps (serve_all symbols core)

unfoldable pub any : (EngineOrderResponse → Bool) → List EngineOrderResponse → Bool
any pred [] = false
any pred (r ∷ rs) = pred r || any pred rs

pub record Scenario : Type 0 where
  pub symbols : List Symbol
  pub steps : List Step
  pub checks : List (List EngineOrderResponse → Bool)

-- A size of the rings that no test fills; the tests run with SYMBOL_QUEUE_SIZE.
abbrev ring_size : ℕ
ring_size = 16

-- `settle` collects what is in the response queues.
unfoldable pub responses_after : Scenario → List EngineOrderResponse
unfolding run_steps new_core response_queues responses_in read_all
responses_after t = responses_in (
    map (λ q. read_all q.num_elements q)
      (response_queues ring_size t.symbols
        (run_steps t.symbols t.steps (new_core ring_size t.symbols))))

abbrev all_hold : List (List EngineOrderResponse → Bool) → List EngineOrderResponse → Bool
all_hold [] rs = true
all_hold (c ∷ cs) rs = c rs && all_hold cs rs

unfoldable pub passes : Scenario → Bool
unfolding responses_after
passes t = all_hold t.checks (responses_after t)

abbrev pub is_status : ResponseStatus → ResponseStatus → Bool
is_status filled filled = true
is_status canceled canceled = true
is_status rejected rejected = true
is_status cancel_rejected cancel_rejected = true
is_status _ _ = false
