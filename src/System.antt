-- ===== src/System.antt =====
-- The queues of matching_core.h, as the gateway and the market data feed are given them: rings that
-- are written to by the threads of the core and by `routeRequest`.
pub mod Tags
pub mod Rings
pub mod Snapshots
pub mod Replies
use trading_matching_engine.Base.{ℕ, zero, suc, List, [], ◌∷◌, ◌++◌, Option, none, some, map}
use trading_matching_engine.Dict.{lookup, string_Eq}
use trading_matching_engine.Types.{
  Symbol, Side, invalid_client_id, invalid_order_id, invalid_price, invalid_qty,
}
use trading_matching_engine.Messages.{
  EngineOrderResponse, ResponseStatus, BookUpdate, MarketUpdateType,
}
use trading_matching_engine.Queue.{LfQueue, new_queue, push, get_next_to_read, advance_read}
use trading_matching_engine.Core.{SymbolContext, MatchingCore}

-- What the slots of a new ring of responses hold.
abbrev pub blank_response : EngineOrderResponse
blank_response = record {
  status = ResponseStatus.invalid;
  client_id = invalid_client_id;
  symbol = "";
  client_order_id = invalid_order_id;
  market_order_id = invalid_order_id;
  side = Side.invalid;
  price = invalid_price;
  exec_qty = invalid_qty;
  leaves_qty = invalid_qty;
}

module _ {T : Type 0} where
  -- A ring after some writes.
  unfoldable pub write_all : List T → LfQueue T → LfQueue T
  write_all [] q = q
  write_all (v ∷ vs) q = write_all vs (push v q)

  -- What the reader of a ring gets, if it reads a number of times.
  unfoldable pub read_all : ℕ → LfQueue T → List T
  read_all zero q = []
  read_all (suc n) q =
      let rest = read_all n (advance_read q) in
      elim (get_next_to_read q) [ none ↦ [] | some v ↦ v ∷ rest ]

abbrev pub responses_of : Option SymbolContext → List EngineOrderResponse
responses_of none = []
responses_of (some ctx) = ctx.book.responses

-- What has been written to the queues of `response_queues_`, in the order of the symbols that the
-- constructor was given, and to the one for unknown symbols behind them.
abbrev pub responses_sent : List Symbol → MatchingCore → List (List EngineOrderResponse)
responses_sent symbols core =
    map (λ s. responses_of (lookup s core.contexts)) symbols ++ (core.unknown_symbol_responses ∷ [])

-- These queues, before the gateway reads any.
unfoldable pub response_queues : ℕ → List Symbol → MatchingCore → List (LfQueue EngineOrderResponse)
unfolding write_all
response_queues size symbols core =
    map (λ rs. write_all rs (new_queue size blank_response)) (responses_sent symbols core)

-- What the slots of a new ring of updates hold.
abbrev pub blank_update : BookUpdate
blank_update = record {
  kind = MarketUpdateType.invalid;
  order_id = invalid_order_id;
  symbol = "";
  side = Side.invalid;
  price = invalid_price;
  qty = invalid_qty;
}

abbrev pub updates_from : Option SymbolContext → List BookUpdate
updates_from none = []
updates_from (some ctx) = ctx.book.updates

-- The ring of a symbol's updates, or of what the feed hands to the snapshot service, before
-- anything is read.
abbrev pub update_ring : ℕ → List BookUpdate → LfQueue BookUpdate
update_ring size us = write_all us (new_queue size blank_update)

unfoldable pub update_queues : ℕ → List Symbol → MatchingCore → List (LfQueue BookUpdate)
unfolding write_all
update_queues size symbols core =
    map (λ s. update_ring size (updates_from (lookup s core.contexts))) symbols

-- What a reader gets that reads a ring until it is empty.
abbrev pub drained : LfQueue BookUpdate → List BookUpdate
drained q = read_all q.num_elements q
