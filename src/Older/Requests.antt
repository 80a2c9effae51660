-- ===== src/Older/Requests.antt =====
-- The order-entry interface of `SymbolOrderBook` (exchange/matcher/order_book.h), as calls that the
-- current book and the older copy of exchange/market_data both serve.
use trading_matching_engine.Base.{◌≡◌, refl, ◌∙◌, ap, List, [], ◌∷◌}
use trading_matching_engine.Types.{Symbol, OrderId, ClientId, Side, Price, Qty, Nanos}
use trading_matching_engine.Book.{SymbolOrderBook, new_book}
use trading_matching_engine.Book.Valid.{IsValid, new_book-IsValid}
use trading_matching_engine.Entry.{
  add_limit_order, add_market_order, add_ioc_order, cancel_order, modify_order,
}
use trading_matching_engine.Entry.Valid.{
  add_limit_order-IsValid, add_market_order-IsValid, add_ioc_order-IsValid,
}
use trading_matching_engine.Entry.Change.{cancel_order-IsValid, modify_order-IsValid}
use trading_matching_engine.Older
use trading_matching_engine.Older.Entry as Earlier
use trading_matching_engine.Older.View.{view, view_updates}
use trading_matching_engine.Older.View.Entry.{
  add_limit_order-view, add_market_order-view, add_ioc_order-view, cancel_order-view,
}
use trading_matching_engine.Older.View.Change.{modify_order-view}

-- A public member function with its arguments.
pub data Call : Type 0 where
  limit_call : ClientId → OrderId → Side → Price → Qty → Call
  market_call : ClientId → OrderId → Side → Qty → Call
  ioc_call : ClientId → OrderId → Side → Price → Qty → Call
  cancel_call : ClientId → OrderId → Call
  modify_call : ClientId → OrderId → Price → Qty → Call

abbrev pub call : Call → Nanos → SymbolOrderBook → SymbolOrderBook
call (limit_call client_id order_id side price qty) now b =
    add_limit_order client_id order_id side price qty now b
call (market_call client_id order_id side qty) now b =
    add_market_order client_id order_id side qty b
call (ioc_call client_id order_id side price qty) now b =
    add_ioc_order client_id order_id side price qty b
call (cancel_call client_id order_id) now b = cancel_order client_id order_id b
call (modify_call client_id order_id price qty) now b =
    modify_order client_id order_id price qty now b

abbrev pub older_call : Call → Nanos → Older.SymbolOrderBook → Older.SymbolOrderBook
older_call (limit_call client_id order_id side price qty) now b =
    Earlier.add_limit_order client_id order_id side price qty now b
older_call (market_call client_id order_id side qty) now b =
    Earlier.add_market_order client_id order_id side qty b
older_call (ioc_call client_id order_id side price qty) now b =
    Earlier.add_ioc_order client_id order_id side price qty b
older_call (cancel_call client_id order_id) now b = Earlier.cancel_order client_id order_id b
older_call (modify_call client_id order_id price qty) now b =
    Earlier.modify_order client_id order_id price qty now b

-- Calls one after the other, each with its time.
unfoldable pub run_calls : List (Call × Nanos) → SymbolOrderBook → SymbolOrderBook
run_calls [] b = b
run_calls ((c, now) ∷ cs) b = run_calls cs (call c now b)

unfoldable pub older_run_calls : List (Call × Nanos) → Older.SymbolOrderBook → Older.SymbolOrderBook
older_run_calls [] b = b
older_run_calls ((c, now) ∷ cs) b = older_run_calls cs (older_call c now b)

call-IsValid : (c : Call) (now : Nanos) {b : SymbolOrderBook} → IsValid b → IsValid (call c now b)
call-IsValid (limit_call client_id order_id side price qty) now v =
    add_limit_order-IsValid client_id order_id side price qty now v
call-IsValid (market_call client_id order_id side qty) now v =
    add_market_order-IsValid client_id order_id side qty v
call-IsValid (ioc_call client_id order_id side price qty) now v =
    add_ioc_order-IsValid client_id order_id side price qty v
call-IsValid (cancel_call client_id order_id) now v = cancel_order-IsValid client_id order_id v
call-IsValid (modify_call client_id order_id price qty) now v =
    modify_order-IsValid client_id order_id price qty now v

call-view :
    (c : Call) (now : Nanos) (b : SymbolOrderBook)
    → IsValid b
    → older_call c now (view b) ≡ view (call c now b)
call-view (limit_call client_id order_id side price qty) now b v =
    add_limit_order-view client_id order_id side price qty now b
call-view (market_call client_id order_id side qty) now b v =
    add_market_order-view client_id order_id side qty b
call-view (ioc_call client_id order_id side price qty) now b v =
    add_ioc_order-view client_id order_id side price qty b
call-view (cancel_call client_id order_id) now b v = cancel_order-view client_id order_id b v
call-view (modify_call client_id order_id price qty) now b v =
    modify_order-view client_id order_id price qty now b

pub run_calls-IsValid :
    (cs : List (Call × Nanos)) {b : SymbolOrderBook} → IsValid b → IsValid (run_calls cs b)
unfolding run_calls
run_calls-IsValid [] v = v
run_calls-IsValid ((c, now) ∷ cs) v = run_calls-IsValid cs (call-IsValid c now v)

run_calls-view :
    (cs : List (Call × Nanos)) (b : SymbolOrderBook)
    → IsValid b
    → older_run_calls cs (view b) ≡ view (run_calls cs b)
unfolding run_calls older_run_calls
run_calls-view [] b v = refl
run_calls-view ((c, now) ∷ cs) b v =
    ap (older_run_calls cs) (call-view c now b v)
    ∙ run_calls-view cs (call c now b) (call-IsValid c now v)

new_book-view : (s : Symbol) → Older.new_book s ≡ view (new_book s)
unfolding new_book Older.new_book view_updates
new_book-view s = refl

-- Whatever calls a new book is given, the older copy of the book has the levels, the orders, the
-- index and the responses of the current one, an order's symbol, type and original quantity left
-- out, and has sent the same updates but for the CANCELs of quantity zero, those of the orders that
-- fills have emptied.
pub older_run_calls-view :
    (s : Symbol) (cs : List (Call × Nanos))
    → older_run_calls cs (Older.new_book s) ≡ view (run_calls cs (new_book s))
older_run_calls-view s cs =
    ap (older_run_calls cs) (new_book-view s) ∙ run_calls-view cs (new_book s) (new_book-IsValid s)
