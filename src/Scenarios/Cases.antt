-- ===== src/Scenarios/Cases.antt =====
-- The tests of tests/test_order_book.cpp, as data.
use trading_matching_engine.Base.{not, ◌&&◌, [], ◌∷◌, ◌==◌, Bool}
use trading_matching_engine.Base.Int.{pos, negsuc}
use trading_matching_engine.Types.{
  Symbol, ClientId, OrderId, Price, Qty, Side, OrderType, buy, sell, limit, market, ioc, cancel,
  modify,
}
use trading_matching_engine.Messages.{
  EngineOrderResponse, ResponseStatus, filled, canceled, rejected, cancel_rejected,
}
use trading_matching_engine.Scenarios.{Step, send, settle, any, Scenario, is_status}

abbrev request : OrderType → ClientId → Symbol → OrderId → Side → Price → Qty → Step
request type client_id symbol order_id side price qty = send (record {
  order_type = type;
  client_id = client_id;
  symbol = symbol;
  order_id = order_id;
  side = side;
  price = price;
  qty = qty;
  recv_time = pos 0;
})

-- A response to the order with an id, of a status.
abbrev of_order : OrderId → ResponseStatus → EngineOrderResponse → Bool
of_order id status r = r.client_order_id == id && is_status r.status status

abbrev pub basic_match : Scenario
basic_match = record {
  symbols = "TST" ∷ [];
  steps =
      request limit 1 "TST" 1 buy (pos 100) 10
      ∷ request limit 2 "TST" 2 sell (pos 100) 4
      ∷ settle
      ∷ [];
  checks =
      (λ rs. any (λ r. of_order 1 filled r && r.exec_qty == 4) rs)
      ∷ (λ rs. any (λ r. of_order 2 filled r && r.exec_qty == 4) rs)
      ∷ [];
}

abbrev pub partial_fill_leaves_remainder : Scenario
partial_fill_leaves_remainder = record {
  symbols = "TST" ∷ [];
  steps =
      request limit 1 "TST" 1 buy (pos 100) 10
      ∷ request limit 2 "TST" 2 sell (pos 100) 4
      ∷ settle
      ∷ [];
  checks = (λ rs. any (λ r. of_order 1 filled r && r.leaves_qty == 6) rs) ∷ [];
}

abbrev pub price_time_priority : Scenario
price_time_priority = record {
  symbols = "TST" ∷ [];
  steps =
      request limit 1 "TST" 1 buy (pos 100) 5
      ∷ request limit 2 "TST" 2 buy (pos 101) 5
      ∷ request limit 3 "TST" 3 sell (pos 100) 5
      ∷ settle
      ∷ [];
  checks = (λ rs. any (of_order 2 filled) rs) ∷ (λ rs. not (any (of_order 1 filled) rs)) ∷ [];
}

abbrev pub time_priority_at_same_price : Scenario
time_priority_at_same_price = record {
  symbols = "TST" ∷ [];
  steps =
      request limit 1 "TST" 1 buy (pos 100) 5
      ∷ request limit 2 "TST" 2 buy (pos 100) 5
      ∷ request limit 3 "TST" 3 sell (pos 100) 5
      ∷ settle
      ∷ [];
  checks = (λ rs. any (of_order 1 filled) rs) ∷ (λ rs. not (any (of_order 2 filled) rs)) ∷ [];
}

abbrev pub cancel_test : Scenario
cancel_test = record {
  symbols = "TST" ∷ [];
  steps =
      request limit 1 "TST" 1 buy (pos 100) 5
      ∷ request cancel 1 "TST" 1 Side.invalid (pos 0) 0
      ∷ settle
      ∷ [];
  checks = (λ rs. any (of_order 1 canceled) rs) ∷ [];
}

abbrev pub cancel_unknown_order_is_graceful : Scenario
cancel_unknown_order_is_graceful = record {
  symbols = "TST" ∷ [];
  steps = request cancel 1 "TST" 999 Side.invalid (pos 0) 0 ∷ settle ∷ [];
  checks = (λ rs. any (of_order 999 cancel_rejected) rs) ∷ [];
}

abbrev pub modify_qty_decrease_keeps_priority : Scenario
modify_qty_decrease_keeps_priority = record {
  symbols = "TST" ∷ [];
  steps =
      request limit 1 "TST" 1 buy (pos 100) 10
      ∷ request limit 2 "TST" 2 buy (pos 100) 10
      ∷ request modify 1 "TST" 1 Side.invalid (pos 100) 5
      ∷ request limit 3 "TST" 3 sell (pos 100) 5
      ∷ settle
      ∷ [];
  checks = (λ rs. any (of_order 1 filled) rs) ∷ [];
}

abbrev pub modify_qty_increase_resets_priority : Scenario
modify_qty_increase_resets_priority = record {
  symbols = "TST" ∷ [];
  steps =
      request limit 1 "TST" 1 buy (pos 100) 10
      ∷ request limit 2 "TST" 2 buy (pos 100) 10
      ∷ request modify 1 "TST" 1 Side.invalid (pos 100) 15
      ∷ request limit 3 "TST" 3 sell (pos 100) 10
      ∷ settle
      ∷ [];
  checks = (λ rs. any (of_order 2 filled) rs) ∷ [];
}

abbrev pub modify_price_change_can_match_immediately : Scenario
modify_price_change_can_match_immediately = record {
  symbols = "TST" ∷ [];
  steps =
      request limit 1 "TST" 1 sell (pos 110) 5
      ∷ request limit 2 "TST" 2 buy (pos 100) 5
      ∷ request modify 2 "TST" 2 Side.invalid (pos 110) 5
      ∷ settle
      ∷ [];
  checks = (λ rs. any (of_order 2 filled) rs) ∷ [];
}

abbrev pub self_trade_prevention : Scenario
self_trade_prevention = record {
  symbols = "TST" ∷ [];
  steps =
      request limit 1 "TST" 1 buy (pos 100) 10
      ∷ request limit 1 "TST" 2 sell (pos 100) 10
      ∷ settle
      ∷ [];
  checks = (λ rs. not (any (λ r. is_status r.status filled) rs)) ∷ [];
}

abbrev pub market_order_cancels_unfilled_remainder : Scenario
market_order_cancels_unfilled_remainder = record {
  symbols = "TST" ∷ [];
  steps =
      request limit 1 "TST" 1 buy (pos 100) 3
      ∷ request market 2 "TST" 2 sell (pos 0) 10
      ∷ settle
      ∷ [];
  checks = (λ rs. any (λ r. of_order 2 canceled r && r.leaves_qty == 7) rs) ∷ [];
}

abbrev pub ioc_never_rests : Scenario
ioc_never_rests = record {
  symbols = "TST" ∷ [];
  steps = request ioc 1 "TST" 1 buy (pos 100) 10 ∷ settle ∷ [];
  checks = (λ rs. any (of_order 1 canceled) rs) ∷ [];
}

abbrev pub unknown_symbol_is_rejected : Scenario
unknown_symbol_is_rejected = record {
  symbols = "TST" ∷ [];
  steps = request limit 1 "NOPE" 1 buy (pos 100) 10 ∷ settle ∷ [];
  checks = (λ rs. any (λ r. is_status r.status rejected) rs) ∷ [];
}

abbrev pub zero_quantity_is_rejected : Scenario
zero_quantity_is_rejected = record {
  symbols = "TST" ∷ [];
  steps = request limit 1 "TST" 1 buy (pos 100) 0 ∷ settle ∷ [];
  checks = (λ rs. any (λ r. is_status r.status rejected) rs) ∷ [];
}

abbrev pub invalid_price_is_rejected : Scenario
invalid_price_is_rejected = record {
  symbols = "TST" ∷ [];
  steps = request limit 1 "TST" 1 buy (negsuc 4) 10 ∷ settle ∷ [];
  checks = (λ rs. any (λ r. is_status r.status rejected) rs) ∷ [];
}

abbrev pub duplicate_order_id_is_rejected : Scenario
duplicate_order_id_is_rejected = record {
  symbols = "TST" ∷ [];
  steps =
      request limit 1 "TST" 1 buy (pos 100) 5
      ∷ settle
      ∷ request limit 2 "TST" 1 buy (pos 101) 5
      ∷ settle
      ∷ [];
  checks = (λ rs. any (λ r. r.client_id == 2 && is_status r.status rejected) rs) ∷ [];
}

abbrev pub multiple_symbols_stay_independent : Scenario
multiple_symbols_stay_independent = record {
  symbols = "AAA" ∷ "BBB" ∷ [];
  steps =
      request limit 1 "AAA" 1 buy (pos 100) 5
      ∷ request limit 2 "BBB" 2 sell (pos 100) 5
      ∷ settle
      ∷ [];
  checks = (λ rs. not (any (of_order 2 filled) rs)) ∷ [];
}
