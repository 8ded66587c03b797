-- ===== src/Upbit/Replies.antt =====
-- What the Upbit client makes of the reply to each call,
-- crates/wickra-exchange-core/src/exchanges/upbit.rs.
use wickra_exchange.Prelude.{Option, List, [], ◌++◌, reverse, map}
use wickra_exchange.Prelude.Int.{pos}
use wickra_exchange.Prelude.Text.{codes}
use wickra_exchange.Decimal.{Decimal}
use wickra_exchange.Error.{Result, ok, deserialization, not_found, ok_or, unwrap_or, map_all, ◌>>=◌}
use wickra_exchange.Symbol.{Symbol, display}
use wickra_exchange.Types.{Order, Balance, Ticker}
use wickra_exchange.Events.{OrderBookSnapshot}
use wickra_exchange.Platform.{Platform, and_then, get_str, get_i64, get_array, or_default, first}
use wickra_exchange.Upbit.{split_wire_symbol}
use wickra_exchange.Upbit.Parse.{parse_candle, decimal_field, order_from_value, book_of}

module _ {J D F K : Type 0} (pf : Platform J D F K) where
  -- Newest first in the reply, oldest first in the result.
  unfoldable pub klines_reply : J → Result (List K)
  unfolding parse_candle
  klines_reply value = do
    rows ← ok_or (pf.as_array value) (deserialization (codes "missing candles"))
    candles ← map_all (parse_candle pf) rows
    ok (reverse candles)

module _ {J D F K : Type 0} ⦃d : Decimal D⦄ (pf : Platform J D F K) where
  unfoldable pub ticker_reply : Symbol → J → Result (Ticker D)
  unfolding decimal_field display
  ticker_reply symbol value = do
    entry ←
        ok_or (and_then (pf.as_array value) first)
          (not_found (codes "no ticker for " ++ display symbol))
    last ← decimal_field pf entry (codes "trade_price")
    ok (record {
      symbol = symbol;
      last = last;
      bid = last;
      ask = last;
      volume = unwrap_or (decimal_field pf entry (codes "acc_trade_volume_24h")) d.nought;
      timestamp = or_default (get_i64 pf entry (codes "trade_timestamp")) (pos 0);
    })

  unfoldable pub order_book_reply : Symbol → J → Result (OrderBookSnapshot D)
  unfolding book_of display
  order_book_reply symbol value = do
    entry ←
        ok_or (and_then (pf.as_array value) first)
          (not_found (codes "no book for " ++ display symbol))
    units ←
        ok_or (get_array pf entry (codes "orderbook_units"))
          (deserialization (codes "missing orderbook_units"))
    book_of pf symbol entry units

  unfoldable pub open_orders_reply : Option Symbol → J → Result (List (Order D))
  unfolding order_from_value split_wire_symbol
  open_orders_reply symbol value = do
    orders ← ok_or (pf.as_array value) (deserialization (codes "missing orders"))
    map_all
        (λ order.
          order_from_value pf
            (or_default symbol
              (split_wire_symbol (or_default (get_str pf order (codes "market")) [])))
            order)
        orders

  unfoldable pub balance_of : J → Balance D
  unfolding decimal_field
  balance_of a = record {
    asset = or_default (get_str pf a (codes "currency")) [];
    free = unwrap_or (decimal_field pf a (codes "balance")) d.nought;
    locked = unwrap_or (decimal_field pf a (codes "locked")) d.nought;
  }

  unfoldable pub balances_reply : J → Result (List (Balance D))
  unfolding balance_of
  balances_reply value = do
    accounts ← ok_or (pf.as_array value) (deserialization (codes "missing accounts"))
    ok (map balance_of accounts)
