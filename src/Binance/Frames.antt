-- ===== src/Binance/Frames.antt =====
-- The frames of Binance's streams, `parse_ws_message` of
-- crates/wickra-exchange-core/src/exchanges/binance.rs.
use wickra_exchange.Prelude.{Bool, true, false, Option, none, some, [], if◌then◌else◌}
use wickra_exchange.Prelude.Int.{pos}
use wickra_exchange.Prelude.Text.{Text, codes}
use wickra_exchange.Prelude.Ord.{text_ord, same}
use wickra_exchange.Decimal.{Decimal}
use wickra_exchange.Error.{Result, ok, deserialization, ok_or, ◌>>=◌}
use wickra_exchange.Symbol.{Symbol}
use wickra_exchange.Types.{buy, sell}
use wickra_exchange.Events.{Event, trade, ticker, book_delta, order_update, balance_update}
use wickra_exchange.Platform.{Platform, and_then, get_str, get_i64, or_default}
use wickra_exchange.Normalize.{parse_decimal}
use wickra_exchange.Binance.{split_wire_symbol}
use wickra_exchange.Binance.UserStream.{order_from_user_stream, parse_stream_balances}
use wickra_exchange.Binance.Fields.{field_str, decimal_at, parse_ws_levels, payload_of}

abbrev pub is_true : Option Bool → Bool
is_true (some true) = true
is_true _ = false

module _ {J D F K : Type 0} ⦃d : Decimal D⦄ (pf : Platform J D F K) where
  -- The frames of the market's streams, whose symbol `resolve` finds.
  unfoldable pub trade_frame : (Text → Symbol) → J → Result (Event D)
  unfolding field_str parse_decimal
  trade_frame resolve payload = do
    wire ← field_str pf payload (codes "s")
    price ← decimal_at pf payload (codes "p")
    quantity ← decimal_at pf payload (codes "q")
    ok (
        trade (record {
          symbol = resolve wire;
          price = price;
          quantity = quantity;
          aggressor =
              if is_true (and_then (pf.get payload (codes "m")) pf.as_bool) then sell else buy;
          timestamp = or_default (get_i64 pf payload (codes "T")) (pos 0);
        }))

  unfoldable pub depth_frame : (Text → Symbol) → J → Result (Event D)
  unfolding field_str parse_ws_levels
  depth_frame resolve payload = do
    wire ← field_str pf payload (codes "s")
    bids ← parse_ws_levels pf (pf.get payload (codes "b"))
    asks ← parse_ws_levels pf (pf.get payload (codes "a"))
    ok (
        book_delta (record {
          symbol = resolve wire;
          first_update_id = or_default (and_then (pf.get payload (codes "U")) pf.as_u64) 0;
          final_update_id = or_default (and_then (pf.get payload (codes "u")) pf.as_u64) 0;
          bids = bids;
          asks = asks;
          timestamp = or_default (get_i64 pf payload (codes "E")) (pos 0);
        }))

  unfoldable pub ticker_frame : (Text → Symbol) → J → Result (Event D)
  unfolding field_str parse_decimal
  ticker_frame resolve payload = do
    wire ← field_str pf payload (codes "s")
    last ← decimal_at pf payload (codes "c")
    bid ← decimal_at pf payload (codes "b")
    ask ← decimal_at pf payload (codes "a")
    volume ← decimal_at pf payload (codes "v")
    ok (
        ticker (record {
          symbol = resolve wire;
          last = last;
          bid = bid;
          ask = ask;
          volume = volume;
          timestamp = or_default (get_i64 pf payload (codes "E")) (pos 0);
        }))

  unfoldable pub order_frame : J → Bool → Result (Event D)
  unfolding field_str split_wire_symbol order_from_user_stream
  order_frame order futures = do
    wire ← field_str pf order (codes "s")
    update ← order_from_user_stream pf (split_wire_symbol wire) order futures
    ok (order_update update)

  unfoldable pub balance_frame : J → Text → Text → Result (Event D)
  unfolding parse_stream_balances
  balance_frame payload free_key locked_key =
      parse_stream_balances pf payload free_key locked_key >>= λ balances.
      ok (balance_update balances)

  abbrev pub some_event : Result (Event D) → Result (Option (Event D))
  some_event r = r >>= λ event. ok (some event)

  -- The `match event_type` of `parse_ws_message`.
  unfoldable pub parse_event : (Text → Symbol) → Text → J → Result (Option (Event D))
  unfolding trade_frame depth_frame ticker_frame order_frame balance_frame
  parse_event resolve event_type payload =
      if same event_type (codes "trade")
      then some_event (trade_frame resolve payload)
      else if same event_type (codes "depthUpdate")
      then some_event (depth_frame resolve payload)
      else if same event_type (codes "24hrTicker")
      then some_event (ticker_frame resolve payload)
      else if same event_type (codes "executionReport")
      then some_event (order_frame payload false)
      else if same event_type (codes "outboundAccountPosition")
      then some_event (balance_frame payload (codes "f") (codes "l"))
      else if same event_type (codes "ORDER_TRADE_UPDATE")
      then some_event (
          ok_or (pf.get payload (codes "o")) (deserialization (codes "missing order payload 'o'"))
          >>= λ order. order_frame order true)
      else if same event_type (codes "ACCOUNT_UPDATE")
      then some_event (
          ok_or (pf.get payload (codes "a")) (deserialization (codes "missing account payload 'a'"))
          >>= λ account. balance_frame account (codes "wb") [])
      else ok none

  unfoldable pub parse_ws_message : Text → (Text → Symbol) → Result (Option (Event D))
  unfolding parse_event
  parse_ws_message text resolve = do
    value ← ok_or (pf.from_json text) (deserialization (pf.json_error text))
    elim (get_str pf (payload_of pf value) (codes "e")) [
      | none ↦ ok none
      | some event_type ↦ parse_event resolve event_type (payload_of pf value)
    ]
