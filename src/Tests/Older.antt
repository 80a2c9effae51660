-- ===== src/Tests/Older.antt =====
-- The older copy of the book and the current one on a few calls: an order fills one and a half
-- others, and the rest is changed and cancelled.
use trading_matching_engine.Base.{◌≡◌, refl, List, [], ◌∷◌, length, ap, ◌∙◌}
use trading_matching_engine.Base.Int.{pos}
use trading_matching_engine.Types.{Nanos, buy, sell}
use trading_matching_engine.Book.{
  new_book, rest_order, append_order, remove_order, unlink_order, unlink, resize_order, set_order,
  set_node, find_order, find_level, find_node,
}
use trading_matching_engine.Match.{match_incoming, match_levels, match_level, visit, fill}
use trading_matching_engine.Entry.{
  add_limit_order, add_market_order, cancel_order, modify_order, requantify, reprice,
  rest_remainder, cancel_remainder,
}
use trading_matching_engine.Older
use trading_matching_engine.Older.View.{view, view_updates}
use trading_matching_engine.Older.Requests.{
  Call, limit_call, market_call, cancel_call, modify_call, run_calls, older_run_calls,
  older_run_calls-view,
}

abbrev calls : List (Call × Nanos)
calls =
    (limit_call 1 1 sell (pos 100) 5, pos 1)
    ∷ (limit_call 2 2 sell (pos 100) 6, pos 2)
    ∷ (market_call 3 3 buy 8, pos 3)
    ∷ (modify_call 2 2 (pos 101) 9, pos 4)
    ∷ (modify_call 2 2 (pos 101) 7, pos 5)
    ∷ (cancel_call 2 2, pos 6)
    ∷ []

older_run_calls-view_example :
    older_run_calls calls (Older.new_book "AAPL") ≡ view (run_calls calls (new_book "AAPL"))
older_run_calls-view_example = older_run_calls-view "AAPL" calls

-- The current book has sent one update more, the CANCEL of order 1.
updates_of_both :
    (length (run_calls calls (new_book "AAPL")).updates ≡ 9)
    × (length (older_run_calls calls (Older.new_book "AAPL")).updates ≡ 8)
unfolding new_book run_calls match_incoming match_levels match_level visit fill add_limit_order
    add_market_order cancel_order modify_order requantify reprice rest_remainder cancel_remainder
    rest_order append_order remove_order unlink_order unlink resize_order set_order set_node
    find_order find_level find_node
updates_of_both = (
  refl,
  ap (λ b. length b.updates) (older_run_calls-view "AAPL" calls) ∙ (unfold view_updates in refl),
)
