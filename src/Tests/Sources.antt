-- ===== src/Tests/Sources.antt =====
-- Examples for the memory pool, the market data feed and the order lines.
use trading_matching_engine.Base.{ℕ, zero, suc, ◌≡◌, ◌≢◌, refl, [], ◌∷◌, true, false, arith}
use trading_matching_engine.Base.Int.{pos}
use trading_matching_engine.Types.{buy}
use trading_matching_engine.Messages.{BookUpdate, add, cancel}
use trading_matching_engine.Pool.{
  ObjectBlock, MemPool, is_free_at, allocate, update_next_free_index, search, returned, asserted,
  no_space,
}
use trading_matching_engine.Pool.Space.{allocate_last}
use trading_matching_engine.Pool.Progress.{AllocationEnds, allocate-AllocationEnds}
use trading_matching_engine.Feed.{MarketDataFeed}

abbrev free_block : ObjectBlock ℕ
free_block = record { object = 0; is_free = true }

abbrev used_block : ObjectBlock ℕ
used_block = record { object = 5; is_free = false }

abbrev fresh : MemPool ℕ
fresh = record { store = free_block ∷ free_block ∷ []; next_free_index = 0 }

abbrev one_left : MemPool ℕ
one_left = record { store = used_block ∷ free_block ∷ []; next_free_index = 1 }

fresh-allocate : allocate 5 fresh ≡ returned (0, one_left)
unfolding allocate update_next_free_index search
fresh-allocate = refl

others_used : (i : ℕ) → i ≢ 1 → is_free_at one_left.store i ≡ false
others_used zero h = refl
others_used (suc zero) h = absurd (h refl)
others_used (suc (suc i)) h = refl

allocate-AllocationEnds_example : AllocationEnds 6 one_left
allocate-AllocationEnds_example = allocate-AllocationEnds 6 one_left (omega arith)

-- The second block of two is never handed out.
allocate_last_example : allocate 6 one_left ≡ asserted no_space
allocate_last_example = allocate_last 6 one_left (omega arith) refl others_used

abbrev added : BookUpdate
added = record { kind = add; order_id = 1; symbol = "AAPL"; side = buy; price = pos 100; qty = 5 }

abbrev canceled_one : BookUpdate
canceled_one = record added { kind = cancel }

abbrev feed : MarketDataFeed
feed = record {
  engine_updates = (added ∷ canceled_one ∷ []) ∷ (added ∷ []) ∷ [];
  subscribers = [] ∷ (added ∷ []) ∷ [];
  snapshot_feed = [];
}
