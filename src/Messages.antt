-- ===== src/Messages.antt =====
-- The messages between the parts: order_request.h, order_response.h and market_update.h.
use trading_matching_engine.Base.{String}
use trading_matching_engine.Types.{
  OrderId, ClientId, Symbol, Price, Qty, Nanos, Side, OrderType, invalid_price, invalid_qty,
  invalid_order_id,
}

pub record EngineOrderRequest : Type 0 where
  pub order_type : OrderType
  pub client_id : ClientId
  pub symbol : Symbol
  pub order_id : OrderId
  pub side : Side
  pub price : Price
  pub qty : Qty
  pub recv_time : Nanos

pub data ResponseStatus : Type 0 where
  invalid accepted rejected filled canceled cancel_rejected modified modify_rejected :
      ResponseStatus

abbrev pub response_status_to_string : ResponseStatus → String
response_status_to_string accepted = "ACCEPTED"
response_status_to_string rejected = "REJECTED"
response_status_to_string filled = "FILLED"
response_status_to_string canceled = "CANCELED"
response_status_to_string cancel_rejected = "CANCEL_REJECTED"
response_status_to_string modified = "MODIFIED"
response_status_to_string modify_rejected = "MODIFY_REJECTED"
response_status_to_string _ = "INVALID"

pub record EngineOrderResponse : Type 0 where
  pub status : ResponseStatus
  pub client_id : ClientId
  pub symbol : Symbol
  pub client_order_id : OrderId
  pub market_order_id : OrderId
  pub side : Side
  pub price : Price
  pub exec_qty : Qty
  pub leaves_qty : Qty

pub data MarketUpdateType : Type 0 where
  invalid add modify cancel trade : MarketUpdateType

abbrev pub market_update_type_to_string : MarketUpdateType → String
market_update_type_to_string add = "ADD"
market_update_type_to_string modify = "MODIFY"
market_update_type_to_string cancel = "CANCEL"
market_update_type_to_string trade = "TRADE"
market_update_type_to_string _ = "INVALID"

pub record BookUpdate : Type 0 where
  pub kind : MarketUpdateType
  pub order_id : OrderId
  pub symbol : Symbol
  pub side : Side
  pub price : Price
  pub qty : Qty

-- The shape that `cancelOrder` and `modifyOrder` answer a refused request with.
abbrev pub refusal : ResponseStatus → ClientId → Symbol → OrderId → EngineOrderResponse
refusal status client_id symbol order_id = record {
  status = status;
  client_id = client_id;
  symbol = symbol;
  client_order_id = order_id;
  market_order_id = invalid_order_id;
  side = Side.invalid;
  price = invalid_price;
  exec_qty = invalid_qty;
  leaves_qty = invalid_qty;
}
