-- ===== src/Upbit/Parse.antt =====
-- Reading Upbit's replies and frames, crates/wickra-exchange-core/src/exchanges/upbit.rs.
use wickra_exchange.Prelude.{◌||◌, Option, none, some, List, [], ◌∷◌, ◌++◌, map, if◌then◌else◌}
use wickra_exchange.Prelude.Int.{pos}
use wickra_exchange.Prelude.Text.{Text, codes}
use wickra_exchange.Prelude.Ord.{text_ord, same}
use wickra_exchange.Decimal.{Decimal, ltd}
use wickra_exchange.Error.{
  Result, ok, err, deserialization, with_retry_after, ok_or, unwrap_or, to_option, map_all, ◌>>=◌,
}
use wickra_exchange.Symbol.{Symbol}
use wickra_exchange.Types.{OrderSide, buy, sell, OrderStatus, new, filled, canceled, Order, Ticker}
use wickra_exchange.Events.{
  Event, trade, ticker, book_snapshot, BookLevel, OrderBookSnapshot, TradePrint,
}
use wickra_exchange.Transport.{HttpResponse, is_success, retry_after}
use wickra_exchange.Platform.{Platform, and_then, get_str, get_i64, get_array, or_default}
use wickra_exchange.Normalize.{parse_decimal}
use wickra_exchange.Upbit.{map_error, parse_order_type, split_wire_symbol}

abbrev non_empty : Text → Option Text
non_empty [] = none
non_empty (c ∷ t) = some (c ∷ t)

module _ {J D F K : Type 0} (pf : Platform J D F K) where
  unfoldable pub parse_side : Text → Result OrderSide
  parse_side raw =
      if same raw (codes "bid")
      then ok buy
      else if same raw (codes "ask")
      then ok sell
      else err (deserialization (codes "unknown side " ++ pf.debug raw))

  unfoldable pub parse_status : Text → Result OrderStatus
  parse_status raw =
      if same raw (codes "wait") || same raw (codes "watch")
      then ok new
      else if same raw (codes "done")
      then ok filled
      else if same raw (codes "cancel")
      then ok canceled
      else err (deserialization (codes "unknown state " ++ pf.debug raw))

  unfoldable pub parse_body : HttpResponse → Result J
  unfolding is_success map_error with_retry_after retry_after
  parse_body response =
      if is_success response
      then ok_or (pf.from_json response.body) (deserialization (pf.json_error response.body))
      else let value = or_default (pf.from_json response.body) pf.null in
        let error = pf.get value (codes "error") in
        let name = or_default (and_then error (λ e. get_str pf e (codes "name"))) [] in
        let message = or_default (and_then error (λ e. get_str pf e (codes "message"))) [] in
        err (
          with_retry_after (map_error name message response.status)
            (retry_after pf.read_seconds response))

  unfoldable pub decimal_value : J → Result D
  unfolding parse_decimal
  decimal_value field = elim (pf.as_str field) [
    | some s ↦ parse_decimal pf s
    | none ↦ elim (pf.number_text field) [
      | some n ↦ parse_decimal pf n
      | none ↦ err (deserialization (codes "not a number: " ++ pf.show_json field))
    ]
  ]

  abbrev pub missing_field : {A : Type 0} → Text → Option A → Result A
  missing_field key field = ok_or field (deserialization (codes "missing field " ++ pf.debug key))

  unfoldable pub decimal_field : J → Text → Result D
  unfolding decimal_value
  decimal_field value key = missing_field key (pf.get value key) >>= decimal_value

  unfoldable pub f64_field : J → Text → Result F
  f64_field value key = do
    field ← missing_field key (pf.get value key)
    ok_or
        (elim (pf.as_f64 field) [ some x ↦ some x | none ↦ and_then (pf.as_str field) pf.read_f64 ])
        (deserialization (codes "field " ++ pf.debug key ++ codes " not a number"))

  unfoldable pub parse_candle : J → Result K
  unfolding f64_field
  parse_candle c = do
    ts ←
        ok_or (get_i64 pf c (codes "timestamp"))
          (deserialization (codes "candle timestamp missing"))
    opening ← f64_field c (codes "opening_price")
    high ← f64_field c (codes "high_price")
    low ← f64_field c (codes "low_price")
    close ← f64_field c (codes "trade_price")
    volume ← f64_field c (codes "candle_acc_trade_volume")
    ok_or (pf.candle opening high low close volume ts)
        (deserialization (pf.candle_error opening high low close volume ts))

module _ {J D F K : Type 0} ⦃d : Decimal D⦄ (pf : Platform J D F K) where
  unfoldable pub nonzero : D → Option D
  nonzero value = if ltd d.nought value then some value else none

  unfoldable pub order_from_value : Symbol → J → Result (Order D)
  unfolding parse_side parse_status decimal_field nonzero parse_order_type
  order_from_value symbol order = do
    side ← parse_side pf (or_default (get_str pf order (codes "side")) [])
    status ← parse_status pf (or_default (get_str pf order (codes "state")) (codes "wait"))
    ok (record {
      id = or_default (get_str pf order (codes "uuid")) [];
      client_order_id = and_then (get_str pf order (codes "identifier")) non_empty;
      symbol = symbol;
      side = side;
      order_type =
          parse_order_type (or_default (get_str pf order (codes "ord_type")) (codes "limit"));
      status = status;
      quantity = unwrap_or (decimal_field pf order (codes "volume")) d.nought;
      filled_quantity = unwrap_or (decimal_field pf order (codes "executed_volume")) d.nought;
      price = and_then (to_option (decimal_field pf order (codes "price"))) nonzero;
      average_price = none;
    })

  -- One unit of a book: its bid, then its ask.
  unfoldable pub parse_unit : J → Result (BookLevel D × BookLevel D)
  unfolding decimal_field
  parse_unit unit = do
    bid_price ← decimal_field pf unit (codes "bid_price")
    bid_size ← decimal_field pf unit (codes "bid_size")
    ask_price ← decimal_field pf unit (codes "ask_price")
    ask_size ← decimal_field pf unit (codes "ask_size")
    ok (
      record { price = bid_price; quantity = bid_size },
      record { price = ask_price; quantity = ask_size },
    )

  -- The book of a reply or frame that has these units.
  unfoldable pub book_of : Symbol → J → List J → Result (OrderBookSnapshot D)
  unfolding parse_unit
  book_of symbol entry units = do
    levels ← map_all parse_unit units
    ok (record {
      symbol = symbol;
      last_update_id = 0;
      bids = map (λ l. l.0) levels;
      asks = map (λ l. l.1) levels;
      timestamp = or_default (get_i64 pf entry (codes "timestamp")) (pos 0);
    })

  unfoldable pub trade_of : Symbol → J → Result (TradePrint D)
  unfolding decimal_field
  trade_of symbol value = do
    price ← decimal_field pf value (codes "trade_price")
    quantity ← decimal_field pf value (codes "trade_volume")
    ok (record {
      symbol = symbol;
      price = price;
      quantity = quantity;
      aggressor =
          if same (or_default (get_str pf value (codes "ask_bid")) []) (codes "ASK")
          then sell
          else buy;
      timestamp = or_default (get_i64 pf value (codes "trade_timestamp")) (pos 0);
    })

  unfoldable pub ticker_of : Symbol → J → Result (Ticker D)
  unfolding decimal_field
  ticker_of symbol value = do
    last ← decimal_field pf value (codes "trade_price")
    ok (record {
      symbol = symbol;
      last = last;
      bid = unwrap_or (decimal_field pf value (codes "trade_price")) d.nought;
      ask = unwrap_or (decimal_field pf value (codes "trade_price")) d.nought;
      volume = unwrap_or (decimal_field pf value (codes "acc_trade_volume_24h")) d.nought;
      timestamp = or_default (get_i64 pf value (codes "trade_timestamp")) (pos 0);
    })

  -- The `match kind` of `parse_ws_message`.
  unfoldable pub parse_frame : Text → Symbol → J → Result (Option (Event D))
  unfolding trade_of ticker_of book_of
  parse_frame kind symbol value =
      if same kind (codes "trade")
      then (trade_of symbol value >>= λ t. ok (some (trade t)))
      else if same kind (codes "ticker")
      then (ticker_of symbol value >>= λ t. ok (some (ticker t)))
      else if same kind (codes "orderbook")
      then (book_of symbol value (or_default (get_array pf value (codes "orderbook_units")) [])
          >>= λ b. ok (some (book_snapshot b)))
      else ok none

  unfoldable pub parse_ws_message : Text → Result (Option (Event D))
  unfolding parse_frame split_wire_symbol
  parse_ws_message text = do
    value ← ok_or (pf.from_json text) (deserialization (pf.json_error text))
    elim (get_str pf value (codes "type")) [
      | none ↦ ok none
      | some kind ↦
          let symbol = split_wire_symbol (or_default (get_str pf value (codes "code")) []) in
          parse_frame kind symbol value
    ]
