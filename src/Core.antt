-- ===== src/Core.antt =====
-- exchange/matcher/matching_core.h: validation and dispatch of the requests of one symbol, and the
-- routing of requests to the symbols.
pub mod Valid
pub mod Sync
pub mod Uncrossed
pub mod Runs
pub mod Handled
pub mod Reachable
pub mod Answers
pub mod Refused
pub mod Drained
use trading_matching_engine.Base.{
  ℕ, Bool, true, false, ◌&&◌, ◌||◌, not, List, [], ◌∷◌, ◌++◌, Option, none, some, ◌==◌,
  if◌then◌else◌,
}
use trading_matching_engine.Base.Int.{pos, ltb_ℤ}
use trading_matching_engine.Dict.{lookup, insert, string_Eq}
use trading_matching_engine.Types.{
  Symbol, Nanos, OrderType, limit, market, ioc, cancel, modify, invalid_order_id, invalid_qty,
  invalid_client_id, invalid_price, Side,
}
use trading_matching_engine.Messages.{EngineOrderRequest, EngineOrderResponse, rejected}
use trading_matching_engine.Queue.{LfQueue, new_queue, push, get_next_to_read, advance_read}
use trading_matching_engine.Book.{SymbolOrderBook, new_book, send_response}
use trading_matching_engine.Entry.{
  add_limit_order, add_market_order, add_ioc_order, cancel_order, modify_order,
}

abbrev pub needs_price : OrderType → Bool
needs_price limit = true
needs_price ioc = true
needs_price modify = true
needs_price _ = false

abbrev pub needs_qty : OrderType → Bool
needs_qty limit = true
needs_qty market = true
needs_qty ioc = true
needs_qty modify = true
needs_qty _ = false

-- The response of `publishReject`.
abbrev pub rejection : EngineOrderRequest → EngineOrderResponse
rejection req = record {
  status = rejected;
  client_id = req.client_id;
  symbol = req.symbol;
  client_order_id = req.order_id;
  market_order_id = invalid_order_id;
  side = req.side;
  price = req.price;
  exec_qty = 0;
  leaves_qty = req.qty;
}

-- The `switch` of `processRequest`.
unfoldable pub dispatch : OrderType → EngineOrderRequest → Nanos → SymbolOrderBook → SymbolOrderBook
dispatch limit req now b =
    add_limit_order req.client_id req.order_id req.side req.price req.qty now b
dispatch market req now b = add_market_order req.client_id req.order_id req.side req.qty b
dispatch ioc req now b = add_ioc_order req.client_id req.order_id req.side req.price req.qty b
dispatch cancel req now b = cancel_order req.client_id req.order_id b
dispatch modify req now b = modify_order req.client_id req.order_id req.price req.qty now b
dispatch _ req now b = send_response (rejection req) b

abbrev pub bad_qty : EngineOrderRequest → Bool
bad_qty req = needs_qty req.order_type && (req.qty == 0 || req.qty == invalid_qty)

abbrev pub bad_price : EngineOrderRequest → Bool
bad_price req = needs_price req.order_type && not (ltb_ℤ (pos 0) req.price)

unfoldable pub process_request : EngineOrderRequest → Nanos → SymbolOrderBook → SymbolOrderBook
unfolding dispatch
process_request req now b =
    if bad_qty req
    then send_response (rejection req) b
    else if bad_price req
    then send_response (rejection req) b
    else dispatch req.order_type req now b

-- What one symbol's thread owns: the ring of its requests, and its book, with the history of the
-- responses and updates that it has written to its two other rings.
pub record SymbolContext : Type 0 where
  pub request_queue : LfQueue EngineOrderRequest
  pub book : SymbolOrderBook

-- What the slots of a new ring of requests hold.
abbrev pub blank_request : EngineOrderRequest
blank_request = record {
  order_type = OrderType.invalid;
  client_id = invalid_client_id;
  symbol = "";
  order_id = invalid_order_id;
  side = Side.invalid;
  price = invalid_price;
  qty = invalid_qty;
  recv_time = pos 0;
}

abbrev pub new_context : ℕ → Symbol → SymbolContext
new_context size s = record { request_queue = new_queue size blank_request; book = new_book s }

pub record MatchingCore : Type 0 where
  pub contexts : List (Symbol × SymbolContext)
  pub unknown_symbol_responses : List EngineOrderResponse

-- `emplace` keeps the context that is there, if the symbol comes twice. The number of slots of a
-- ring, SYMBOL_QUEUE_SIZE in the source, is an argument.
unfoldable pub new_contexts :
    ℕ → List Symbol → List (Symbol × SymbolContext) → List (Symbol × SymbolContext)
new_contexts size [] d = d
new_contexts size (s ∷ ss) d =
    new_contexts size ss
      (elim (lookup s d) [ none ↦ insert s (new_context size s) d | some ctx ↦ d ])

unfoldable pub new_core : ℕ → List Symbol → MatchingCore
unfolding new_contexts
new_core size symbols = record {
  contexts = new_contexts size symbols [];
  unknown_symbol_responses = [];
}

unfoldable pub route_request : EngineOrderRequest → MatchingCore → MatchingCore
route_request req core = elim (lookup req.symbol core.contexts) [
  | none ↦ record core {
    unknown_symbol_responses = core.unknown_symbol_responses ++ (rejection req ∷ []);
  }
  | some ctx ↦ record core {
    contexts =
        insert req.symbol (record ctx { request_queue = push req ctx.request_queue }) core.contexts;
  }
]

-- One round of the loop of `run`; `now` is the time at which it handles the request. A read that
-- has given a request has seen an element, so that the assertion of `updateReadIndex` holds.
unfoldable pub serve : Nanos → SymbolContext → SymbolContext
serve now ctx = elim (get_next_to_read ctx.request_queue) [
  | none ↦ ctx
  | some req ↦ record {
    request_queue = advance_read ctx.request_queue;
    book = process_request req now ctx.book;
  }
]

-- A round of the thread of a symbol.
unfoldable pub serve_symbol : Symbol → Nanos → MatchingCore → MatchingCore
unfolding serve
serve_symbol s now core = elim (lookup s core.contexts) [
  | none ↦ core
  | some ctx ↦ record core { contexts = insert s (serve now ctx) core.contexts }
]
