-- ===== src/Tests/Queues.antt =====
-- Examples for the ring buffer, the sequencer and the gateway.
use trading_matching_engine.Base.{
  ℕ, ◌≡◌, refl, ◌≤◌, ◌++◌, List, [], ◌∷◌, some, Bool, true, arith, length,
}
use trading_matching_engine.Base.Int.{pos, ltb_ℤ}
use trading_matching_engine.Messages.{EngineOrderRequest}
use trading_matching_engine.Queue.{LfQueue, push, get_next_to_read}
use trading_matching_engine.Queue.Ring.{IsRing, push_full}
use trading_matching_engine.Sequencer.{new_sequencer, enqueue, max_pending_gateway_requests}
use trading_matching_engine.Sequencer.Order.{count, tags, IsSorted, enqueue-bounds}
use trading_matching_engine.Gateway.{OrderGatewayServer, run_round, run_round-routed}
use trading_matching_engine.Tests.Sorting.{insertion_sort, insertion_sort-SortLaws}
use trading_matching_engine.Tests.Market.{first_ask, first_bid}

-- 8 and 9, round the end of the store.
abbrev wrapped : LfQueue ℕ
wrapped = record {
  store = 9 ∷ 7 ∷ 8 ∷ [];
  next_write_index = 1;
  next_read_index = 2;
  num_elements = 2;
}

wrapped-IsRing : IsRing wrapped
wrapped-IsRing = record { read_in = omega arith; fits = omega arith; write_at = refl }

abbrev filled : LfQueue ℕ
filled = record {
  store = 9 ∷ 7 ∷ 8 ∷ [];
  next_write_index = 2;
  next_read_index = 2;
  num_elements = 3;
}

filled-IsRing : IsRing filled
filled-IsRing = record { read_in = omega arith; fits = omega arith; write_at = refl }

push_full_example : get_next_to_read (push 6 filled) ≡ some 6
push_full_example = push_full 6 filled filled-IsRing refl

-- Two requests in the inbox, the later one first.
abbrev busy : OrderGatewayServer
busy = record {
  inbox = (pos 9, first_ask) ∷ (pos 4, first_bid) ∷ [];
  sequencer = new_sequencer;
  incoming_responses = [];
  response_callback = true;
  delivered = [];
}

run_round-routed_example :
    (batch : List EngineOrderRequest) × ((run_round insertion_sort busy).sequencer.routed
      ≡ [] ++ batch)
    × IsSorted batch
    × ((p : EngineOrderRequest → Bool) → count p batch ≡ count p (tags busy.inbox))
    × ((run_round insertion_sort busy).sequencer.pending ≡ [])
    × ((run_round insertion_sort busy).inbox ≡ [])
run_round-routed_example =
    run_round-routed insertion_sort insertion_sort-SortLaws busy refl (omega arith)

abbrev is_early : EngineOrderRequest → Bool
is_early r = ltb_ℤ r.recv_time (pos 5)

enqueue-bounds_example :
    length (enqueue insertion_sort (pos 9) first_ask new_sequencer).pending
    ≤ max_pending_gateway_requests
enqueue-bounds_example = enqueue-bounds insertion_sort (pos 9) first_ask new_sequencer (omega arith)
