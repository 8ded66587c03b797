-- ===== src/Coinbase/Parse.antt =====
-- Reading Coinbase's replies and frames, crates/wickra-exchange-core/src/exchanges/coinbase.rs.
use wickra_exchange.Prelude.{◌||◌, Option, none, some, List, [], ◌∷◌, ◌++◌, if◌then◌else◌}
use wickra_exchange.Prelude.Text.{Text, codes}
use wickra_exchange.Prelude.Ord.{text_ord, same}
use wickra_exchange.Decimal.{Decimal, ltd}
use wickra_exchange.Error.{
  Result, ok, err, deserialization, with_retry_after, ok_or, to_option, map_all, ◌>>=◌,
}
use wickra_exchange.Symbol.{Symbol}
use wickra_exchange.Types.{
  OrderSide, buy, sell, OrderStatus, new, filled, canceled, expired, rejected, OrderType, market,
  limit, Order,
}
use wickra_exchange.Events.{BookLevel}
use wickra_exchange.Transport.{HttpResponse, is_success, retry_after}
use wickra_exchange.Platform.{Platform, and_then, get_str, or_default}
use wickra_exchange.Normalize.{parse_decimal}
use wickra_exchange.Coinbase.{map_error}

abbrev pub non_empty : Text → Option Text
non_empty [] = none
non_empty (c ∷ t) = some (c ∷ t)

module _ {J D F K : Type 0} (pf : Platform J D F K) where
  unfoldable pub parse_side : Text → Result OrderSide
  parse_side raw =
      if same raw (codes "BUY")
      then ok buy
      else if same raw (codes "SELL")
      then ok sell
      else err (deserialization (codes "unknown side " ++ pf.debug raw))

  unfoldable pub parse_status : Text → Result OrderStatus
  parse_status raw =
      if same raw (codes "OPEN") || same raw (codes "PENDING") || same raw (codes "QUEUED")
      then ok new
      else if same raw (codes "FILLED")
      then ok filled
      else if same raw (codes "CANCELLED") || same raw (codes "CANCEL_QUEUED")
      then ok canceled
      else if same raw (codes "EXPIRED")
      then ok expired
      else if same raw (codes "FAILED") || same raw (codes "REJECTED")
      then ok rejected
      else err (deserialization (codes "unknown status " ++ pf.debug raw))

  unfoldable pub parse_body : HttpResponse → Result J
  unfolding is_success map_error with_retry_after retry_after
  parse_body response =
      if is_success response
      then ok_or (pf.from_json response.body) (deserialization (pf.json_error response.body))
      else let value = or_default (pf.from_json response.body) pf.null in
        let error = or_default (get_str pf value (codes "error")) [] in
        let message = or_default (get_str pf value (codes "message")) [] in
        err (
          with_retry_after (map_error error message response.status)
            (retry_after pf.read_seconds response))

  unfoldable pub str_field : J → Text → Result Text
  str_field value key =
      ok_or (get_str pf value key) (deserialization (codes "missing string field " ++ pf.debug key))

  -- `parse_decimal(str_field(value, key)?)?`
  abbrev pub decimal_of : J → Text → Result D
  decimal_of value key = str_field value key >>= parse_decimal pf

  unfoldable pub nested_value : J → Text → Text
  nested_value value key =
      or_default (and_then (pf.get value key) (λ v. get_str pf v (codes "value"))) (codes "0")

  abbrev pub object_level : J → Result (BookLevel D)
  object_level level = do
    price ← decimal_of level (codes "price")
    quantity ← decimal_of level (codes "size")
    ok (record { price = price; quantity = quantity })

  unfoldable pub object_levels : Option J → Result (List (BookLevel D))
  unfolding str_field parse_decimal
  object_levels value = do
    levels ← ok_or (and_then value pf.as_array) (deserialization (codes "missing levels"))
    map_all object_level levels

  -- A number of a candle, which is in text.
  abbrev pub number_of : J → Text → Result F
  number_of candle key = do
    s ← str_field candle key
    ok_or (pf.read_f64 s)
        (deserialization (codes "candle " ++ key ++ codes " not a number: " ++ pf.f64_error s))

  unfoldable pub parse_candle : J → Result K
  unfolding str_field
  parse_candle candle = do
    start ← str_field candle (codes "start")
    ts ←
        ok_or (pf.read_i64 start)
          (deserialization (codes "candle start not an integer: " ++ pf.i64_error start))
    opening ← number_of candle (codes "open")
    high ← number_of candle (codes "high")
    low ← number_of candle (codes "low")
    close ← number_of candle (codes "close")
    volume ← number_of candle (codes "volume")
    ok_or (pf.candle opening high low close volume ts)
        (deserialization (pf.candle_error opening high low close volume ts))

module _ {J D F K : Type 0} ⦃d : Decimal D⦄ (pf : Platform J D F K) where
  unfoldable pub nonzero : D → Option D
  nonzero value = if ltd d.nought value then some value else none

  unfoldable pub opt_dec : J → Text → D
  unfolding parse_decimal
  opt_dec value key =
      or_default (and_then (get_str pf value key) (λ s. to_option (parse_decimal pf s))) d.nought

  -- The order type and limit price that a configuration is read as.
  unfoldable pub type_of : Option J → OrderType × D
  unfolding opt_dec
  type_of config =
      elim (and_then config (λ c. elim (pf.get c (codes "limit_limit_gtc")) [
        | some v ↦ some v
        | none ↦ pf.get c (codes "limit_limit_gtd")
      ])) [ some v ↦ (limit, opt_dec v (codes "limit_price")) | none ↦ (market, d.nought) ]

  unfoldable pub quantity_of : Option J → D
  unfolding opt_dec
  quantity_of config = elim (and_then config pf.first_value) [
    | none ↦ d.nought
    | some cfg ↦ opt_dec cfg (codes "base_size")
  ]

  unfoldable pub order_from_value : Symbol → J → Result (Order D)
  unfolding str_field parse_side parse_status type_of quantity_of opt_dec nonzero
  order_from_value symbol order = do
    side ← str_field pf order (codes "side")
    status ← str_field pf order (codes "status")
    id ← str_field pf order (codes "order_id")
    parsed_side ← parse_side pf side
    parsed_status ← parse_status pf status
    ok (
        let config = pf.get order (codes "order_configuration") in
        let (order_type, limit_price) = type_of config in
        record {
          id = id;
          client_order_id = and_then (get_str pf order (codes "client_order_id")) non_empty;
          symbol = symbol;
          side = parsed_side;
          order_type = order_type;
          status = parsed_status;
          quantity = quantity_of config;
          filled_quantity = opt_dec order (codes "filled_size");
          price = nonzero limit_price;
          average_price = nonzero (opt_dec order (codes "average_filled_price"));
        })
