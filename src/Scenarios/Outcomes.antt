-- ===== src/Scenarios/Outcomes.antt =====
-- The outcomes of the tests of tests/test_order_book.cpp.
use trading_matching_engine.Base.{◌≡◌, refl, true, List, [], ◌∷◌, All}
use trading_matching_engine.Dict.{lookup, insert}
use trading_matching_engine.Book.{
  new_book, append_order, rest_order, remove_order, unlink_order, unlink, find_level, find_node,
  find_order, resize_order, set_order, set_node,
}
use trading_matching_engine.Match.{match_incoming, match_levels, match_level, visit, fill}
use trading_matching_engine.Entry.{
  add_limit_order, add_market_order, add_ioc_order, cancel_order, modify_order, reprice, requantify,
  rest_remainder, cancel_remainder,
}
use trading_matching_engine.Core.{
  new_contexts, route_request, serve_symbol, serve, process_request, dispatch, new_core,
}
use trading_matching_engine.Gateway.Responses.{responses_in}
use trading_matching_engine.System.{response_queues, write_all, read_all}
use trading_matching_engine.Queue.{new_queue, push, get_next_to_read}
use trading_matching_engine.Scenarios.{
  Scenario, serve_rounds, serve_all, run_steps, any, responses_after, passes,
}
use trading_matching_engine.Scenarios.Cases.{
  basic_match, partial_fill_leaves_remainder, price_time_priority, time_priority_at_same_price,
  cancel_test, cancel_unknown_order_is_graceful, modify_qty_decrease_keeps_priority,
  modify_qty_increase_resets_priority, modify_price_change_can_match_immediately,
  self_trade_prevention, market_order_cancels_unfilled_remainder, ioc_never_rests,
  unknown_symbol_is_rejected, zero_quantity_is_rejected, invalid_price_is_rejected,
  duplicate_order_id_is_rejected, multiple_symbols_stay_independent,
}

abbrev scenarios : List Scenario
scenarios =
    basic_match ∷ partial_fill_leaves_remainder ∷ price_time_priority ∷ time_priority_at_same_price
    ∷ cancel_test ∷ cancel_unknown_order_is_graceful ∷ modify_qty_decrease_keeps_priority
    ∷ modify_qty_increase_resets_priority ∷ modify_price_change_can_match_immediately
    ∷ self_trade_prevention ∷ market_order_cancels_unfilled_remainder ∷ ioc_never_rests
    ∷ unknown_symbol_is_rejected ∷ zero_quantity_is_rejected ∷ invalid_price_is_rejected
    ∷ duplicate_order_id_is_rejected ∷ multiple_symbols_stay_independent ∷ []

-- All tests of the suite pass.
passes-scenarios : All (λ t. passes t ≡ true) scenarios
unfolding write_all read_all new_queue push get_next_to_read passes responses_after run_steps
    serve_all serve_rounds any responses_in response_queues new_core new_contexts route_request
    serve_symbol serve process_request dispatch add_limit_order add_market_order add_ioc_order
    cancel_order modify_order reprice requantify rest_remainder cancel_remainder match_incoming
    match_levels match_level visit fill new_book append_order rest_order remove_order unlink_order
    unlink find_level find_node find_order resize_order set_order set_node lookup insert
passes-scenarios = (
  refl,
  (
    refl,
    (
      refl,
      (
        refl,
        (
          refl,
          (
            refl,
            (
              refl,
              (refl, (refl, (refl, (refl, (refl, (refl, (refl, (refl, (refl, (refl, tt)))))))))),
            ),
          ),
        ),
      ),
    ),
  ),
)
