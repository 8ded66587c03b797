-- ===== src/Upbit.antt =====
-- The Upbit client, crates/wickra-exchange-core/src/exchanges/upbit.rs: the mappings between the
-- unified types and Upbit's. The state and signed requests are in Upbit/Client, the
-- calls in Upbit/Calls, the parsers in Upbit/Parse.
pub mod Parse
pub mod Replies
pub mod Client
pub mod Calls
pub mod WireSymbol
pub mod Refusals
pub mod Requests
pub mod Polling
mod Tests
use wickra_exchange.Prelude.{
  ℕ, Bool, true, false, not, ◌||◌, ◌&&◌, ◌==◌, Option, none, some, List, [], ◌∷◌, ◌++◌,
  if◌then◌else◌,
}
use wickra_exchange.Prelude.Text.{Text, codes, show}
use wickra_exchange.Prelude.Strings.{contains, split_at}
use wickra_exchange.Prelude.Ord.{text_ord, same}
use wickra_exchange.Error.{
  Error, Result, ok, err, deserialization, insufficient_balance, auth, rate_limited, not_found,
  invalid_symbol, exchange, unsupported_field,
}
use wickra_exchange.Options.{SelfTradePrevention, allow, expire_maker, expire_taker, expire_both}
use wickra_exchange.Symbol.{Symbol, new}
use wickra_exchange.Types.{
  OrderSide, buy, sell, OrderType, market, limit, stop_market, stop_limit, TimeInForce, gtc, ioc,
  fok, OrderStatus, filled, canceled, OrderRequest,
}
use wickra_exchange.Types

-- `Upbit::wire_symbol`, quote first.
unfoldable pub wire_symbol : Symbol → Text
wire_symbol s = s.quote ++ (b'-' ∷ s.base)

abbrev pub is_empty : Text → Bool
is_empty [] = true
is_empty (_ ∷ _) = false

unfoldable pub split_wire_symbol : Text → Symbol
unfolding new split_at
split_wire_symbol wire = elim (split_at b'-' wire) [
  | none ↦ new wire []
  | some (quote, base) ↦
      if not (is_empty quote) && not (is_empty base) then new base quote else new wire []
]

unfoldable pub candle_path : Text → Text
candle_path interval =
    if same interval (codes "1m")
    then codes "/v1/candles/minutes/1"
    else if same interval (codes "3m")
    then codes "/v1/candles/minutes/3"
    else if same interval (codes "5m")
    then codes "/v1/candles/minutes/5"
    else if same interval (codes "15m")
    then codes "/v1/candles/minutes/15"
    else if same interval (codes "30m")
    then codes "/v1/candles/minutes/30"
    else if same interval (codes "4h")
    then codes "/v1/candles/minutes/240"
    else if same interval (codes "1d")
    then codes "/v1/candles/days"
    else if same interval (codes "1w")
    then codes "/v1/candles/weeks"
    else codes "/v1/candles/minutes/60"

-- The UTF-8 bytes of the four characters that the source searches a message for.
abbrev orderable : Text
orderable = 0xec ∷ 0xa3 ∷ 0xbc ∷ 0xeb ∷ 0xac ∷ 0xb8 ∷ 0xea ∷ 0xb0 ∷ 0x80 ∷ 0xeb ∷ 0x8a ∷ 0xa5 ∷ []

unfoldable pub map_error : Text → Text → ℕ → Error
unfolding contains
map_error name message status =
    if contains name (codes "insufficient_funds") || contains message orderable
    then insufficient_balance
    else if (status == 401)
        || contains name (codes "invalid_access_key")
        || contains name (codes "jwt")
    then auth message
    else if (status == 429) || contains name (codes "too_many")
    then rate_limited none
    else if contains name (codes "order_not_found")
    then not_found message
    else if contains name (codes "market")
    then invalid_symbol message
    else exchange (if is_empty name then show status else name) message

unfoldable pub side_str : OrderSide → Text
side_str buy = codes "bid"
side_str sell = codes "ask"

abbrev pub is_allow : SelfTradePrevention → Bool
is_allow allow = true
is_allow _ = false

-- The last `match` of `tif_str`.
unfoldable pub tif_of : OrderType → TimeInForce → Result (Option Text)
unfolding unsupported_field
tif_of _ gtc = ok none
tif_of market ioc = ok none
tif_of stop_market ioc = ok none
tif_of limit ioc = ok (some (codes "ioc"))
tif_of stop_limit ioc = ok (some (codes "ioc"))
tif_of limit fok = ok (some (codes "fok"))
tif_of stop_limit fok = ok (some (codes "fok"))
tif_of _ fok = err (
    unsupported_field (codes "Upbit") (codes "a FOK time-in-force on a market order")
      (codes "Upbit accepts time_in_force only on a limit order"))

unfoldable pub tif_str : {D : Type 0} → OrderRequest D → Result (Option Text)
unfolding tif_of unsupported_field
tif_str r =
    if r.post_only
    then err (
        unsupported_field (codes "Upbit") (codes "post_only")
          (codes "Upbit's order API carries no post-only flag"))
    else if not (is_allow r.stp)
    then err (
        unsupported_field (codes "Upbit") (codes "a self-trade-prevention policy")
          (codes "Upbit's order API carries no STP field"))
    else if r.reduce_only
    then err (
        unsupported_field (codes "Upbit") (codes "reduce_only")
          (codes "Upbit is spot-only and has no positions to reduce"))
    else tif_of r.order_type r.time_in_force

unfoldable pub ord_type_str : OrderType → OrderSide → Text
ord_type_str limit _ = codes "limit"
ord_type_str stop_limit _ = codes "limit"
ord_type_str _ buy = codes "price"
ord_type_str _ sell = codes "market"

unfoldable pub parse_order_type : Text → OrderType
parse_order_type raw =
    if same raw (codes "price") || same raw (codes "market") then market else limit
