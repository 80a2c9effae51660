-- ===== src/Csv/Orders.antt =====
-- The lines that the comment at the top of exchange_main.cpp describes, and what parseLine makes of
-- them.
use trading_matching_engine.Base.{ℕ, String, ◌≡◌, ◌≢◌, refl, false, List, [], ◌∷◌, some}
use trading_matching_engine.Base.Int.{ℤ, pos}
use trading_matching_engine.Types.{
  OrderType, limit, market, ioc, cancel, modify, buy, order_type_to_string,
}
use trading_matching_engine.Messages.{EngineOrderRequest}
use trading_matching_engine.Csv.{
  parsed, parse_side, parse_numbers, parse_typed, parse_fields, split_fields, is_comment,
  parse_line, parse_type-order_type_to_string,
}
use trading_matching_engine.Csv.Number.{stoull, stoll}
use trading_matching_engine.Csv.Lines.{IsField, LastIsField, join, split_fields-join}

-- The fields of a line.
pub record Fields : Type 0 where
  pub type : OrderType
  pub client_id : String
  pub symbol : String
  pub order_id : String
  pub side : String
  pub price : String
  pub qty : String

abbrev pub texts : Fields → List String
texts f =
    order_type_to_string f.type
    ∷ f.client_id
    ∷ f.symbol
    ∷ f.order_id
    ∷ f.side
    ∷ f.price
    ∷ f.qty
    ∷ []

-- The fields are an order with these numbers, and none has a comma in it.
pub record IsOrder (f : Fields) (c o q : ℕ) (p : ℤ) : Type 0 where
  pub known : f.type ≢ OrderType.invalid
  pub client_id_is : stoull f.client_id ≡ some c
  pub order_id_is : stoull f.order_id ≡ some o
  pub price_is : stoll f.price ≡ some p
  pub qty_is : stoull f.qty ≡ some q
  pub client_id_field : IsField f.client_id
  pub symbol_field : IsField f.symbol
  pub order_id_field : IsField f.order_id
  pub side_field : IsField f.side
  pub price_field : IsField f.price
  pub qty_field : LastIsField (f.qty ∷ [])

abbrev pub order_of : Fields → ℕ → ℕ → ℕ → ℤ → EngineOrderRequest
order_of f c o q p = record {
  order_type = f.type;
  client_id = c;
  symbol = f.symbol;
  order_id = o;
  side = parse_side f.side;
  price = p;
  qty = q;
  recv_time = pos 0;
}

order_type_to_string-IsField : (t : OrderType) → IsField (order_type_to_string t)
order_type_to_string-IsField limit = (refl, (refl, (refl, (refl, (refl, tt)))))
order_type_to_string-IsField market = (refl, (refl, (refl, (refl, (refl, (refl, tt))))))
order_type_to_string-IsField ioc = (refl, (refl, (refl, tt)))
order_type_to_string-IsField cancel = (refl, (refl, (refl, (refl, (refl, (refl, tt))))))
order_type_to_string-IsField modify = (refl, (refl, (refl, (refl, (refl, (refl, tt))))))
order_type_to_string-IsField _ = (refl, (refl, (refl, (refl, (refl, (refl, (refl, tt)))))))

-- A line that starts with a type is no comment.
is_comment-join :
    (t : OrderType) (g : String) (fs : List String)
    → is_comment (join (order_type_to_string t ∷ g ∷ fs)) ≡ false
unfolding join
is_comment-join limit g fs = refl
is_comment-join market g fs = refl
is_comment-join ioc g fs = refl
is_comment-join cancel g fs = refl
is_comment-join modify g fs = refl
is_comment-join _ g fs = refl

parse_typed_known :
    (t : OrderType) (client_id symbol order_id side price qty : String)
    → t ≢ OrderType.invalid
    → parse_typed t client_id symbol order_id side price qty
      ≡ parse_numbers t client_id symbol order_id side price qty
unfolding parse_typed
parse_typed_known OrderType.invalid client_id symbol order_id side price qty h = absurd (h refl)
parse_typed_known _ client_id symbol order_id side price qty h = refl

-- Every line of the documented format is accepted: seven fields with commas between them, none with
-- a comma in it and the last not empty, the first the name of an order type, the second, fourth,
-- sixth and seventh numbers that `stoull` and `stoll` accept, give the request with these values,
-- the third field as its symbol and the side that the fifth names, or the invalid one if it names
-- none; it has no receive time yet.
pub parse_line-join :
    (f : Fields) {c o q : ℕ} {p : ℤ}
    → IsOrder f c o q p
    → parse_line (join (texts f)) ≡ parsed (order_of f c o q p)
unfolding parse_line parse_fields parse_numbers
parse_line-join f d =
    let whole : split_fields (join (texts f)) ≡ texts f = split_fields-join (texts f) (
      order_type_to_string-IsField f.type,
      (
        d.client_id_field,
        (d.symbol_field, (d.order_id_field, (d.side_field, (d.price_field, d.qty_field)))),
      ),
    ) in
    let (type, _) = parse_type-order_type_to_string f.type buy in
    rw
      (
        is_comment-join f.type f.client_id _,
        whole,
        type,
        parse_typed_known f.type f.client_id f.symbol f.order_id f.side f.price f.qty d.known,
        d.client_id_is,
        d.order_id_is,
        d.price_is,
        d.qty_is,
        parse_numbers,
      )
      refl
