-- ===== src/Printing.antt =====
-- The `toString` members of the orders and messages, for the log: book_order.h, market_update.h,
-- order_response.h and order_request.h. How a stream prints the two kinds of numbers is a
-- parameter.
use Prim.Native.String.{◌++◌ as append}
use trading_matching_engine.Base.{ℕ, String, List, [], ◌∷◌}
use trading_matching_engine.Base.Int.{ℤ}
use trading_matching_engine.Types.{side_to_string, order_type_to_string}
use trading_matching_engine.Messages.{
  EngineOrderRequest, EngineOrderResponse, BookUpdate, response_status_to_string,
  market_update_type_to_string,
}
use trading_matching_engine.Book.{BookOrder}

-- What a stream holds after some texts.
unfoldable stream : List String → String
stream [] = ""
stream (s ∷ ss) = append s (stream ss)

module _ (show_nat : ℕ → String) (show_int : ℤ → String) where
  unfoldable pub book_order_to_string : BookOrder → String
  unfolding stream
  book_order_to_string o = stream (
      "BookOrder ["
      ∷ "oid:"
      ∷ show_nat o.order_id
      ∷ " client:"
      ∷ show_nat o.client_id
      ∷ " symbol:"
      ∷ o.symbol
      ∷ " type:"
      ∷ order_type_to_string o.order_type
      ∷ " side:"
      ∷ side_to_string o.side
      ∷ " price:"
      ∷ show_int o.price
      ∷ " orig_qty:"
      ∷ show_nat o.original_qty
      ∷ " qty:"
      ∷ show_nat o.qty
      ∷ " ts:"
      ∷ show_int o.priority_ts
      ∷ "]"
      ∷ [])

  unfoldable pub book_update_to_string : BookUpdate → String
  unfolding stream
  book_update_to_string u = stream (
      "BookUpdate ["
      ∷ "type:"
      ∷ market_update_type_to_string u.kind
      ∷ " oid:"
      ∷ show_nat u.order_id
      ∷ " symbol:"
      ∷ u.symbol
      ∷ " side:"
      ∷ side_to_string u.side
      ∷ " qty:"
      ∷ show_nat u.qty
      ∷ " price:"
      ∷ show_int u.price
      ∷ "]"
      ∷ [])

  unfoldable pub response_to_string : EngineOrderResponse → String
  unfolding stream
  response_to_string r = stream (
      "EngineOrderResponse ["
      ∷ "status:"
      ∷ response_status_to_string r.status
      ∷ " client:"
      ∷ show_nat r.client_id
      ∷ " symbol:"
      ∷ r.symbol
      ∷ " coid:"
      ∷ show_nat r.client_order_id
      ∷ " moid:"
      ∷ show_nat r.market_order_id
      ∷ " side:"
      ∷ side_to_string r.side
      ∷ " exec:"
      ∷ show_nat r.exec_qty
      ∷ " leaves:"
      ∷ show_nat r.leaves_qty
      ∷ " price:"
      ∷ show_int r.price
      ∷ "]"
      ∷ [])

  unfoldable pub request_to_string : EngineOrderRequest → String
  unfolding stream
  request_to_string r = stream (
      "EngineOrderRequest ["
      ∷ "type:"
      ∷ order_type_to_string r.order_type
      ∷ " client:"
      ∷ show_nat r.client_id
      ∷ " symbol:"
      ∷ r.symbol
      ∷ " oid:"
      ∷ show_nat r.order_id
      ∷ " side:"
      ∷ side_to_string r.side
      ∷ " qty:"
      ∷ show_nat r.qty
      ∷ " price:"
      ∷ show_int r.price
      ∷ " rx:"
      ∷ show_int r.recv_time
      ∷ "]"
      ∷ [])
