-- ===== src/Tests/Links.antt =====
-- A level of three orders in the blocks 4, 7 and 2 of the pool.
use trading_matching_engine.Base.{
  Option, Bool, false, ◌≡◌, refl, ◌++◌, ◌↔◌, [], ◌∷◌, none, some, true, arith, update,
}
use trading_matching_engine.Base.Int.{pos}
use trading_matching_engine.Types.{OrderId, ClientId, Qty, sell, buy, limit}
use trading_matching_engine.Book.{BookOrder, unlink}
use trading_matching_engine.Book.Nodes.{copies}
use trading_matching_engine.Match.{Taker, Matching, match_level}
use trading_matching_engine.Links.{
  put_node, Node, Pointer, LinkedLevel, append_node, remove_node, match_nodes,
}
use trading_matching_engine.Links.Chain.{Absent, Blocks, Represents, orders_of}
use trading_matching_engine.Pool.{
  ObjectBlock, MemPool, allocate, update_next_free_index, search, returned,
}
use trading_matching_engine.Links.Pool.{in_use, IsPooled, allocate-append_node}
use trading_matching_engine.Links.Append.{append_node-Represents}
use trading_matching_engine.Links.Remove.{remove_node-unlink}
use trading_matching_engine.Links.Loop.{match_nodes-match_level}

abbrev ask : OrderId → ClientId → Qty → BookOrder
ask order_id client_id qty = record {
  order_id = order_id;
  client_id = client_id;
  symbol = "AAPL";
  order_type = limit;
  side = sell;
  price = pos 100;
  original_qty = qty;
  qty = qty;
  priority_ts = pos 1;
}

abbrev blocks : Blocks
blocks = (4, ask 1 10 5) ∷ (7, ask 2 20 3) ∷ (2, ask 3 10 6) ∷ []

abbrev level : LinkedLevel
level = record {
  store =
      update
        (update
          (update (λ p. none) 4 (some (record { order = ask 1 10 5; prev = none; next = some 7 })))
          7 (some (record { order = ask 2 20 3; prev = some 4; next = some 2 })))
        2 (some (record { order = ask 3 10 6; prev = some 7; next = none }));
  head = some 4;
  tail = some 2;
  order_count = 3;
}

level-Represents : Represents level blocks
level-Represents = record {
  chain = (refl, (refl, (refl, tt)));
  distinct = ((refl, (refl, tt)), ((refl, tt), (tt, tt)));
  head = refl;
  tail = refl;
  order_count = refl;
  in_range = omega arith;
}

append_node-Represents_example :
    (l' : LinkedLevel) × (append_node 9 (ask 4 30 1) level ≡ some l')
    × Represents l' (blocks ++ ((9, ask 4 30 1) ∷ []))
append_node-Represents_example =
    append_node-Represents blocks 9 (ask 4 30 1) level level-Represents (refl, (refl, (refl, tt)))
      (omega arith)

-- The order in the middle is removed.
remove_node-unlink_example :
    (l' : LinkedLevel) × (remove_node 7 level ≡ some l')
    × Represents l' ((4, ask 1 10 5) ∷ (2, ask 3 10 6) ∷ [])
    × (ask 1 10 5 ∷ ask 3 10 6 ∷ [] ≡ unlink 2 (orders_of blocks))
    × ((l'.order_count ≡ 0) ↔ (ask 1 10 5 ∷ ask 3 10 6 ∷ [] ≡ []))
remove_node-unlink_example =
    remove_node-unlink ((4, ask 1 10 5) ∷ []) 7 (ask 2 20 3) ((2, ask 3 10 6) ∷ []) level
      level-Represents (unfold copies in refl)

abbrev buyer : Taker
buyer = record {
  client_id = 20;
  order_id = 9;
  symbol = "AAPL";
  side = buy;
  limit_price = pos 100;
  has_limit_price = true;
}

abbrev before : Matching
before = record { leaves_qty = 7; order_index = λ id. none; responses = []; updates = [] }

-- The first order is filled and removed, the second one is of the buyer's client, the third one is
-- filled in part.
match_nodes-match_level_example :
    (l' : LinkedLevel) × (kept : Blocks) × (match_nodes 3 buyer (pos 100) (some 4) level before
      ≡ some (l', (match_level buyer (pos 100) (orders_of blocks) before).1))
    × Represents l' kept
    × (orders_of kept ≡ (match_level buyer (pos 100) (orders_of blocks) before).0)
match_nodes-match_level_example =
    match_nodes-match_level buyer (pos 100) blocks level before level-Represents

-- A pool of three blocks, the first of them in use.
abbrev block : BookOrder → Option Pointer → Bool → ObjectBlock Node
block o prev is_free = record {
  object = record { order = o; prev = prev; next = none };
  is_free = is_free;
}

abbrev pool : MemPool Node
pool = record {
  store =
      block (ask 1 10 5) none false
      ∷ block (ask 0 0 0) none true
      ∷ block (ask 0 0 0) none true
      ∷ [];
  next_free_index = 1;
}

abbrev pool_after : MemPool Node
pool_after = record {
  store =
      block (ask 1 10 5) none false
      ∷ block (ask 2 20 3) (some 0) false
      ∷ block (ask 0 0 0) none true
      ∷ [];
  next_free_index = 2;
}

abbrev pooled_level : LinkedLevel
pooled_level = record { store = in_use pool.store; head = some 0; tail = some 0; order_count = 1 }

pooled_level-Represents : Represents pooled_level ((0, ask 1 10 5) ∷ [])
pooled_level-Represents = record {
  chain = (refl, tt);
  distinct = (tt, tt);
  head = refl;
  tail = refl;
  order_count = refl;
  in_range = omega arith;
}

allocated :
    allocate (record { order = ask 2 20 3; prev = some 0; next = none }) pool
    ≡ returned (1, pool_after)
unfolding allocate update_next_free_index search
allocated = refl

allocate-append_node_example :
    Absent 1 ((0, ask 1 10 5) ∷ [])
    × ((l' : LinkedLevel) × (append_node 1 (ask 2 20 3) pooled_level ≡ some l')
        × Represents l' ((0, ask 1 10 5) ∷ (1, ask 2 20 3) ∷ []))
    × IsPooled pool_after
        (put_node 1 (record { order = ask 2 20 3; prev = some 0; next = none }) pooled_level)
allocate-append_node_example =
    allocate-append_node pool pool_after pooled_level ((0, ask 1 10 5) ∷ []) (ask 2 20 3) 1
      (λ p. refl) pooled_level-Represents (omega arith) allocated
