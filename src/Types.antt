-- ===== src/Types.antt =====
-- Common/types.h: the basic types of the engine. Identifiers and quantities are `uint64_t`,
-- prices `int64_t`; symbols are texts.
use trading_matching_engine.Base.{ℕ, ◌-◌, ◌^◌, String, Bool, true, false}
use trading_matching_engine.Base.Int.{ℤ, negsuc}

abbrev pub OrderId : Type 0
OrderId = ℕ

abbrev pub ClientId : Type 0
ClientId = ℕ

abbrev pub Price : Type 0
Price = ℤ

abbrev pub Qty : Type 0
Qty = ℕ

abbrev pub Symbol : Type 0
Symbol = String

abbrev pub Nanos : Type 0
Nanos = ℤ

abbrev pub invalid_order_id : OrderId
invalid_order_id = 2 ^ 64 - 1

abbrev pub invalid_client_id : ClientId
invalid_client_id = 2 ^ 64 - 1

-- The least `int64_t`, -2^63.
abbrev pub invalid_price : Price
invalid_price = negsuc (2 ^ 63 - 1)

abbrev pub invalid_qty : Qty
invalid_qty = 2 ^ 64 - 1

pub data Side : Type 0 where
  invalid buy sell : Side

pub data OrderType : Type 0 where
  invalid limit market ioc cancel modify : OrderType

abbrev pub is_buy : Side → Bool
is_buy buy = true
is_buy _ = false

-- The printed names.
abbrev pub side_to_string : Side → String
side_to_string buy = "BUY"
side_to_string sell = "SELL"
side_to_string _ = "INVALID"

abbrev pub order_type_to_string : OrderType → String
order_type_to_string limit = "LIMIT"
order_type_to_string market = "MARKET"
order_type_to_string ioc = "IOC"
order_type_to_string cancel = "CANCEL"
order_type_to_string modify = "MODIFY"
order_type_to_string _ = "INVALID"
