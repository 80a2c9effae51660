-- ===== src/Sequencer.antt =====
-- exchange/order_server/request_sequencer.h. `std::sort` by receive time is the parameter `sort`;
-- the calls of the router are the history `routed`, oldest first.
pub mod Order
use trading_matching_engine.Base.{List, [], ◌∷◌, ◌++◌, ℕ, length, leb, ◌==◌, if◌then◌else◌, ◌+◌}
use trading_matching_engine.Types.{Nanos}
use trading_matching_engine.Messages.{EngineOrderRequest}

abbrev pub max_pending_gateway_requests : ℕ
max_pending_gateway_requests = 8192

-- The used part of the scratch buffer, and what the router was given.
pub record RequestSequencer : Type 0 where
  pub pending : List EngineOrderRequest
  pub routed : List EngineOrderRequest

abbrev pub new_sequencer : RequestSequencer
new_sequencer = record { pending = []; routed = [] }

abbrev pub tag : Nanos → EngineOrderRequest → EngineOrderRequest
tag rx_time request = record request { recv_time = rx_time }

module _ (sort : List EngineOrderRequest → List EngineOrderRequest) where
  unfoldable pub flush : RequestSequencer → RequestSequencer
  flush s =
      if length s.pending == 0
      then s
      else record { pending = []; routed = s.routed ++ sort s.pending }

  -- A full buffer is flushed first.
  unfoldable pub enqueue : Nanos → EngineOrderRequest → RequestSequencer → RequestSequencer
  unfolding flush
  enqueue rx_time request s =
      let s' = if leb max_pending_gateway_requests (length s.pending) then flush s else s in
      record s' { pending = s'.pending ++ (tag rx_time request ∷ []) }
