-- ===== src/Coinbase/Orders.antt =====
-- What a Coinbase order is sent as, crates/wickra-exchange-core/src/exchanges/coinbase.rs: its
-- `order_configuration`, or the refusal of an order that has none.
use wickra_exchange.Prelude.{Bool, true, false, Option, none, some, List, [], ◌∷◌}
use wickra_exchange.Prelude.Text.{Text, codes}
use wickra_exchange.Error.{Result, ok, err, invalid_order, unsupported_field}
use wickra_exchange.Types.{
  OrderRequest, OrderSide, buy, sell, OrderType, market, limit, stop_market, stop_limit,
  TimeInForce, ioc, fok, is_trigger,
}
use wickra_exchange.Normalize.{format_decimal}
use wickra_exchange.Platform.{Platform}

unfoldable pub stop_direction : OrderSide → Text
stop_direction sell = codes "STOP_DIRECTION_STOP_DOWN"
stop_direction buy = codes "STOP_DIRECTION_STOP_UP"

module _ {J D F K : Type 0} (pf : Platform J D F K) where
  -- An object with one key.
  abbrev pub keyed : Text → List (Text × J) → J
  keyed key fields = pf.object ((key, pf.object fields) ∷ [])

  -- By the stop price and the price of the request.
  unfoldable pub stop_with : OrderSide → Option D → Option D → Text → Result J
  unfolding stop_direction format_decimal unsupported_field
  stop_with side none price base_size =
      err (invalid_order (codes "a trigger order requires a stop price"))
  stop_with side (some stop) none base_size = err (
      unsupported_field (codes "Coinbase") (codes "a stop-market order") (
        codes
          "Coinbase's only trigger configuration is `stop_limit_stop_limit_gtc`, and choosing a limit price here would decide how much slippage the caller's stop may take"))
  stop_with side (some stop) (some price) base_size = ok (
      keyed (codes "stop_limit_stop_limit_gtc") (
        (codes "base_size", pf.text base_size)
        ∷ (codes "limit_price", pf.text (format_decimal pf price))
        ∷ (codes "stop_price", pf.text (format_decimal pf stop))
        ∷ (codes "stop_direction", pf.text (stop_direction side))
        ∷ []))

  unfoldable pub stop_configuration : OrderRequest D → Text → Result J
  unfolding stop_with
  stop_configuration r base_size = stop_with r.side r.stop_price r.price base_size

  -- The arm of a market order that is not FOK, by `post_only`.
  unfoldable pub market_configuration : Bool → Text → Result J
  unfolding unsupported_field
  market_configuration true base_size = err (
      unsupported_field (codes "Coinbase") (codes "post_only on a market order")
        (codes "`post_only` belongs to the limit configurations"))
  market_configuration false base_size =
      ok (keyed (codes "market_market_ioc") ((codes "base_size", pf.text base_size) ∷ []))

  -- The arm of a limit order that is FOK or GTC, by `post_only` and the price.
  unfoldable pub limit_configuration : TimeInForce → Bool → Option D → Text → Result J
  unfolding unsupported_field format_decimal
  limit_configuration tif post_only none base_size =
      err (invalid_order (codes "limit order requires a price"))
  limit_configuration fok true (some price) base_size = err (
      unsupported_field (codes "Coinbase") (codes "post_only together with a FOK time-in-force")
        (codes "`limit_limit_fok` carries no post-only flag"))
  limit_configuration fok false (some price) base_size = ok (
      keyed (codes "limit_limit_fok") (
        (codes "base_size", pf.text base_size)
        ∷ (codes "limit_price", pf.text (format_decimal pf price))
        ∷ []))
  limit_configuration _ post_only (some price) base_size = ok (
      keyed (codes "limit_limit_gtc") (
        (codes "base_size", pf.text base_size)
        ∷ (codes "limit_price", pf.text (format_decimal pf price))
        ∷ (codes "post_only", pf.boolean post_only)
        ∷ []))

  -- The `match` on the order type and the time in force.
  unfoldable pub plain_configuration : OrderType → TimeInForce → OrderRequest D → Text → Result J
  unfolding market_configuration limit_configuration unsupported_field
  plain_configuration market fok r base_size = err (
      unsupported_field (codes "Coinbase") (codes "a FOK time-in-force on a market order")
        (codes "Coinbase's market configuration is `market_market_ioc`"))
  plain_configuration stop_market fok r base_size = err (
      unsupported_field (codes "Coinbase") (codes "a FOK time-in-force on a market order")
        (codes "Coinbase's market configuration is `market_market_ioc`"))
  plain_configuration market _ r base_size = market_configuration r.post_only base_size
  plain_configuration stop_market _ r base_size = market_configuration r.post_only base_size
  plain_configuration limit ioc r base_size = err (
      unsupported_field (codes "Coinbase") (codes "an IOC time-in-force on a limit order")
        (codes "Coinbase's limit configurations are GTC, GTD and FOK"))
  plain_configuration stop_limit ioc r base_size = err (
      unsupported_field (codes "Coinbase") (codes "an IOC time-in-force on a limit order")
        (codes "Coinbase's limit configurations are GTC, GTD and FOK"))
  plain_configuration limit tif r base_size = limit_configuration tif r.post_only r.price base_size
  plain_configuration stop_limit tif r base_size =
      limit_configuration tif r.post_only r.price base_size

  unfoldable pub configuration : OrderRequest D → Result J
  unfolding stop_configuration plain_configuration format_decimal is_trigger
  configuration r =
      let base_size = format_decimal pf r.quantity in
      elim (is_trigger r.order_type) [
        | true ↦ stop_configuration r base_size
        | false ↦ plain_configuration r.order_type r.time_in_force r base_size
      ]
