-- ===== src/Coinbase/Replies.antt =====
-- What the Coinbase client makes of the reply to each call,
-- crates/wickra-exchange-core/src/exchanges/coinbase.rs.
use wickra_exchange.Prelude.{Bool, true, false, Option, none, some, List, [], ◌++◌, reverse}
use wickra_exchange.Prelude.Int.{pos}
use wickra_exchange.Prelude.Text.{Text, codes}
use wickra_exchange.Decimal.{Decimal}
use wickra_exchange.Error.{
  Result, ok, err, deserialization, not_found, order_rejected, ok_or, map_all, ◌>>=◌,
}
use wickra_exchange.Normalize.{parse_decimal}
use wickra_exchange.Symbol.{Symbol}
use wickra_exchange.Types.{Order, OrderRequest, new, Balance, Ticker}
use wickra_exchange.Events.{OrderBookSnapshot}
use wickra_exchange.Platform.{Platform, and_then, get_str, get_array, or_default, first}
use wickra_exchange.Coinbase.{product_symbol}
use wickra_exchange.Coinbase.Parse.{
  parse_candle, str_field, decimal_of, object_levels, nested_value, order_from_value,
}

module _ {J D F K : Type 0} (pf : Platform J D F K) where
  unfoldable pub klines_reply : J → Result (List K)
  unfolding parse_candle
  klines_reply value = do
    rows ← ok_or (get_array pf value (codes "candles")) (deserialization (codes "missing candles"))
    parsed ← map_all (parse_candle pf) rows
    ok (reverse parsed)

  unfoldable pub order_book_reply : Symbol → J → Result (OrderBookSnapshot D)
  unfolding object_levels
  order_book_reply symbol value = do
    book ← ok_or (pf.get value (codes "pricebook")) (deserialization (codes "missing pricebook"))
    bids ← object_levels pf (pf.get book (codes "bids"))
    asks ← object_levels pf (pf.get book (codes "asks"))
    ok (record { symbol = symbol; last_update_id = 0; bids = bids; asks = asks; timestamp = pos 0 })

  unfoldable pub balance_of : J → Result (Balance D)
  unfolding nested_value parse_decimal
  balance_of a = do
    free ← parse_decimal pf (nested_value pf a (codes "available_balance"))
    locked ← parse_decimal pf (nested_value pf a (codes "hold"))
    ok (record {
      asset = or_default (get_str pf a (codes "currency")) [];
      free = free;
      locked = locked;
    })

  unfoldable pub balances_reply : J → Result (List (Balance D))
  unfolding balance_of
  balances_reply value = do
    accounts ←
        ok_or (get_array pf value (codes "accounts")) (deserialization (codes "missing accounts"))
    map_all balance_of accounts

module _ {J D F K : Type 0} ⦃d : Decimal D⦄ (pf : Platform J D F K) where
  unfoldable pub ticker_reply : Symbol → J → Result (Ticker D)
  unfolding parse_decimal str_field
  ticker_reply symbol value = do
    price ←
        ok_or
          (and_then (and_then (get_array pf value (codes "trades")) first)
            (λ t. get_str pf t (codes "price")))
          (deserialization (codes "missing last price"))
    last ← parse_decimal pf price
    bid ← decimal_of pf value (codes "best_bid")
    ask ← decimal_of pf value (codes "best_ask")
    ok (record {
      symbol = symbol;
      last = last;
      bid = bid;
      ask = ask;
      volume = d.nought;
      timestamp = pos 0;
    })

  unfoldable pub query_order_reply : Symbol → Text → J → Result (Order D)
  unfolding order_from_value
  query_order_reply symbol order_id value = do
    order ← ok_or (pf.get value (codes "order")) (not_found (codes "order " ++ order_id))
    order_from_value pf symbol order

  unfoldable pub open_orders_reply : Option Symbol → J → Result (List (Order D))
  unfolding order_from_value product_symbol
  open_orders_reply symbol value = do
    orders ← ok_or (get_array pf value (codes "orders")) (deserialization (codes "missing orders"))
    map_all
        (λ order.
          order_from_value pf
            (or_default symbol
              (product_symbol (or_default (get_str pf order (codes "product_id")) [])))
            order)
        orders

  -- `success` is there and false.
  abbrev pub is_failure : Option Bool → Bool
  is_failure (some false) = true
  is_failure _ = false

  abbrev pub order_id_of : J → Option Text
  order_id_of value =
      and_then
        (elim (and_then (pf.get value (codes "success_response"))
          (λ r. pf.get r (codes "order_id"))) [
            | some id ↦ some id
            | none ↦ pf.get value (codes "order_id")
          ])
        pf.as_str

  -- The part of `submit_order` behind the request.
  unfoldable pub submit_reply : OrderRequest D → Text → J → Result (Order D)
  submit_reply r client_order_id value =
      elim (is_failure (and_then (pf.get value (codes "success")) pf.as_bool)) [
        | true ↦
            let error = pf.get value (codes "error_response") in
            err (
              order_rejected
                (or_default (and_then error (λ e. get_str pf e (codes "error"))) (codes "rejected"))
                (or_default (and_then error (λ e. get_str pf e (codes "message"))) []))
        | false ↦ (do
          order_id ← ok_or (order_id_of value) (deserialization (codes "missing order id"))
          ok (record {
            id = order_id;
            client_order_id = some client_order_id;
            symbol = r.symbol;
            side = r.side;
            order_type = r.order_type;
            status = new;
            quantity = r.quantity;
            filled_quantity = d.nought;
            price = r.price;
            average_price = none;
          }))
      ]
