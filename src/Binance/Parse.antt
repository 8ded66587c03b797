-- ===== src/Binance/Parse.antt =====
-- Reading Binance's replies, crates/wickra-exchange-core/src/exchanges/binance.rs. The records are
-- what `serde` reads; reading them is left out.
use wickra_exchange.Upbit.{is_empty}
use wickra_exchange.Prelude.{
  Bool, false, suc, ◌==◌, ℕ, ◌||◌, ◌&&◌, not, Option, none, some, List, [], ◌∷◌, ◌++◌,
  if◌then◌else◌,
}
use wickra_exchange.Prelude.Int.{ℤ, pos, negsuc}
use wickra_exchange.Prelude.Text.{Text, codes, show}
use wickra_exchange.Prelude.Ord.{text_ord, same}
use wickra_exchange.Decimal.{Decimal, ltd}
use wickra_exchange.Error.{
  Duration, Error, Result, ok, err, deserialization, insufficient_balance, auth, rate_limited,
  invalid_symbol, exchange, ok_or, unwrap_or, to_option, map_all, ◌>>=◌,
}
use wickra_exchange.Instruments.{Instrument}
use wickra_exchange.Symbol.{Symbol}
use wickra_exchange.Symbol
use wickra_exchange.Types.{
  OrderSide, buy, sell, OrderStatus, new, partially_filled, filled, canceled, rejected, expired,
  OrderType, market, limit, stop_market, stop_limit, Order,
}
use wickra_exchange.Events.{BookLevel}
use wickra_exchange.Transport.{HttpResponse, retry_after}
use wickra_exchange.Platform.{Platform, and_then, get_str, or_default}
use wickra_exchange.Normalize.{parse_decimal}
use wickra_exchange.Venue.{show_ℤ}

pub record RawOrder : Type 0 where
  pub symbol : Text
  pub order_id : ℕ
  pub client_order_id : Text
  pub side : Text
  pub order_type : Text
  pub status : Text
  pub orig_qty : Text
  pub executed_qty : Text
  pub cummulative_quote_qty : Text
  pub avg_price : Text
  pub price : Text

pub record BinanceError : Type 0 where
  pub code : ℤ
  pub msg : Text

pub record RawSymbol (J : Type 0) : Type 0 where
  pub base_asset : Text
  pub quote_asset : Text
  pub base_asset_precision : ℕ
  pub quote_asset_precision : ℕ
  pub filters : List J

abbrev pub non_empty : Text → Option Text
non_empty [] = none
non_empty (c ∷ t) = some (c ∷ t)

-- Whether a code is this number below zero.
abbrev pub is_negative : ℕ → ℤ → Bool
is_negative n (pos _) = false
is_negative n (negsuc k) = suc k == n

-- The `match err.code`
unfoldable pub of_code : Option Duration → BinanceError → Error
unfolding show_ℤ
of_code wait e =
    if is_negative 1121 e.code
    then invalid_symbol e.msg
    else if is_negative 2010 e.code || is_negative 2018 e.code || is_negative 2019 e.code
    then insufficient_balance
    else if is_negative 1003 e.code
    then rate_limited wait
    else if is_negative 1022 e.code || is_negative 2014 e.code || is_negative 2015 e.code
    then auth e.msg
    else exchange (show_ℤ e.code) e.msg

module _ {J D F K : Type 0} (pf : Platform J D F K) where
  -- `read` is `serde_json::from_str::<BinanceError>`.
  unfoldable pub map_error : (Text → Option BinanceError) → HttpResponse → Error
  unfolding of_code retry_after
  map_error read response = elim (read response.body) [
    | none ↦ exchange (show response.status) response.body
    | some e ↦ of_code (retry_after pf.read_seconds response) e
  ]

  unfoldable pub parse_side : Text → Result OrderSide
  parse_side raw =
      if same raw (codes "BUY")
      then ok buy
      else if same raw (codes "SELL")
      then ok sell
      else err (deserialization (codes "unknown side " ++ pf.debug raw))

  unfoldable pub parse_order_type : Text → Result OrderType
  parse_order_type raw =
      if same raw (codes "MARKET")
      then ok market
      else if same raw (codes "LIMIT") || same raw (codes "LIMIT_MAKER")
      then ok limit
      else if same raw (codes "STOP_LOSS") || same raw (codes "TAKE_PROFIT")
      then ok stop_market
      else if same raw (codes "STOP_LOSS_LIMIT") || same raw (codes "TAKE_PROFIT_LIMIT")
      then ok stop_limit
      else err (deserialization (codes "unknown order type " ++ pf.debug raw))

  unfoldable pub parse_status : Text → Result OrderStatus
  parse_status raw =
      if same raw (codes "NEW")
      then ok new
      else if same raw (codes "PARTIALLY_FILLED")
      then ok partially_filled
      else if same raw (codes "FILLED")
      then ok filled
      else if same raw (codes "CANCELED") || same raw (codes "PENDING_CANCEL")
      then ok canceled
      else if same raw (codes "REJECTED")
      then ok rejected
      else if same raw (codes "EXPIRED") || same raw (codes "EXPIRED_IN_MATCH")
      then ok expired
      else err (deserialization (codes "unknown status " ++ pf.debug raw))

  unfoldable pub parse_levels : List (Text × Text) → Result (List (BookLevel D))
  unfolding parse_decimal
  parse_levels levels =
      map_all
        (λ (price, qty). do
          p ← parse_decimal pf price
          q ← parse_decimal pf qty
          ok (record { price = p; quantity = q }))
        levels

  unfoldable pub kline_f64 : J → Result F
  kline_f64 value = do
    s ← ok_or (pf.as_str value) (deserialization (codes "kline field not a string"))
    ok_or (pf.read_f64 s) (deserialization (codes "kline field not a number: " ++ pf.f64_error s))

  unfoldable pub parse_kline_row : List J → Result K
  unfolding kline_f64
  parse_kline_row (t ∷ o ∷ h ∷ l ∷ c ∷ v ∷ _) = do
    open_time ← ok_or (pf.as_i64 t) (deserialization (codes "kline open time not an integer"))
    opening ← kline_f64 o
    high ← kline_f64 h
    low ← kline_f64 l
    close ← kline_f64 c
    volume ← kline_f64 v
    ok_or (pf.candle opening high low close volume open_time)
        (deserialization (pf.candle_error opening high low close volume open_time))
  parse_kline_row _ = err (deserialization (codes "kline row too short"))

  unfoldable pub find_filter : List J → Text → Option J
  find_filter [] kind = none
  find_filter (f ∷ fs) kind =
      let later = find_filter fs kind in
      elim (get_str pf f (codes "filterType")) [
        | none ↦ later
        | some t ↦ if same t kind then some f else later
      ]

module _ {J D F K : Type 0} ⦃d : Decimal D⦄ (pf : Platform J D F K) where
  unfoldable pub filter_decimal : Option J → Text → D
  unfolding parse_decimal
  filter_decimal filter key =
      or_default
        (and_then (and_then filter (λ f. get_str pf f key)) (λ s. to_option (parse_decimal pf s)))
        d.nought

  unfoldable pub parse_instrument : RawSymbol J → Instrument D
  unfolding find_filter filter_decimal wickra_exchange.Symbol.new
  parse_instrument raw =
      let lot = find_filter pf raw.filters (codes "LOT_SIZE") in
      let price = find_filter pf raw.filters (codes "PRICE_FILTER") in
      let notional : Option J = elim (find_filter pf raw.filters (codes "NOTIONAL")) [
        | some f ↦ some f
        | none ↦ find_filter pf raw.filters (codes "MIN_NOTIONAL")
      ] in
      record {
        symbol = wickra_exchange.Symbol.new raw.base_asset raw.quote_asset;
        base_precision = raw.base_asset_precision;
        quote_precision = raw.quote_asset_precision;
        filters = record {
          min_quantity = filter_decimal lot (codes "minQty");
          max_quantity = filter_decimal lot (codes "maxQty");
          step_size = filter_decimal lot (codes "stepSize");
          min_price = filter_decimal price (codes "minPrice");
          max_price = filter_decimal price (codes "maxPrice");
          tick_size = filter_decimal price (codes "tickSize");
          min_notional = filter_decimal notional (codes "minNotional");
        };
      }

  -- `avgPrice` of a futures order; else the quote quantity over what is executed.
  unfoldable pub average_of : RawOrder → D → Result (Option D)
  unfolding parse_decimal
  average_of raw executed =
      let avg = unwrap_or (parse_decimal pf raw.avg_price) d.nought in
      if ltd d.nought avg
      then ok (some avg)
      else if ltd d.nought executed && not (is_empty raw.cummulative_quote_qty)
      then (parse_decimal pf raw.cummulative_quote_qty >>= λ quote.
          ok (some (d.div quote executed)))
      else ok none

  unfoldable pub order_from_raw : Symbol → RawOrder → Result (Order D)
  unfolding average_of parse_decimal parse_side parse_order_type parse_status
  order_from_raw symbol raw = do
    executed ← parse_decimal pf raw.executed_qty
    average_price ← average_of raw executed
    price ← parse_decimal pf raw.price
    side ← parse_side pf raw.side
    order_type ← parse_order_type pf raw.order_type
    status ← parse_status pf raw.status
    quantity ← parse_decimal pf raw.orig_qty
    ok (record {
      id = show raw.order_id;
      client_order_id = non_empty raw.client_order_id;
      symbol = symbol;
      side = side;
      order_type = order_type;
      status = status;
      quantity = quantity;
      filled_quantity = executed;
      price = if ltd d.nought price then some price else none;
      average_price = average_price;
    })
