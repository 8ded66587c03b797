-- ===== src/Coinbase.antt =====
-- The Coinbase client, crates/wickra-exchange-core/src/exchanges/coinbase.rs: the mappings between
-- the unified types and Coinbase's, and the order fields that it refuses. The configurations of
-- orders are in Coinbase/Orders, the parsers in Coinbase/Parse, the calls in Coinbase/Calls.
pub mod Parse
pub mod Frames
pub mod Orders
pub mod Client
pub mod Replies
pub mod Calls
pub mod Configurations
pub mod Written
pub mod ReadBack
mod Tests
use wickra_exchange.Prelude.{ℕ, ◌&&◌, ◌||◌, ◌==◌, none, ◌++◌, [], ◌∷◌, if◌then◌else◌}
use wickra_exchange.Prelude.Int.{ℤ, pos}
use wickra_exchange.Prelude.Text.{Text, codes, show}
use wickra_exchange.Prelude.Strings.{contains}
use wickra_exchange.Prelude.Ord.{text_ord, same}
use wickra_exchange.Error.{
  Error, Result, ok, err, insufficient_balance, auth, rate_limited, not_found, invalid_symbol,
  exchange, unsupported_field, err_if,
}
use wickra_exchange.Prelude.{not}
use wickra_exchange.Symbol.{Symbol, from_str, new}
use wickra_exchange.Types.{OrderSide, buy, sell, OrderRequest}
use wickra_exchange.Upbit.{is_allow, is_empty}

-- `HOST`
abbrev pub host : Text
host = codes "api.coinbase.com"

-- `Coinbase::wire_symbol`
unfoldable pub wire_symbol : Symbol → Text
wire_symbol s = s.base ++ (b'-' ∷ s.quote)

-- `product.parse().unwrap_or_else(|_| Symbol::new(product, ""))`
unfoldable pub product_symbol : Text → Symbol
unfolding from_str new
product_symbol product = elim (from_str product) [ ok s ↦ s | err _ ↦ new product [] ]

unfoldable pub granularity : Text → Text × ℤ
granularity interval =
    if same interval (codes "1m")
    then (codes "ONE_MINUTE", pos 60)
    else if same interval (codes "5m")
    then (codes "FIVE_MINUTE", pos 300)
    else if same interval (codes "15m")
    then (codes "FIFTEEN_MINUTE", pos 900)
    else if same interval (codes "30m")
    then (codes "THIRTY_MINUTE", pos 1800)
    else if same interval (codes "2h")
    then (codes "TWO_HOUR", pos 7200)
    else if same interval (codes "6h")
    then (codes "SIX_HOUR", pos 21600)
    else if same interval (codes "1d")
    then (codes "ONE_DAY", pos 86400)
    else (codes "ONE_HOUR", pos 3600)

unfoldable pub map_error : Text → Text → ℕ → Error
unfolding contains
map_error error message status =
    let text = error ++ (b' ' ∷ message) in
    if contains error (codes "INSUFFICIENT_FUND") || contains text (codes "Insufficient")
    then insufficient_balance
    else if (status == 401)
        || contains error (codes "UNAUTHORIZED")
        || contains text (codes "authentication")
    then auth message
    else if (status == 429) || contains error (codes "RATE")
    then rate_limited none
    else if (status == 404) || contains error (codes "NOT_FOUND")
    then not_found message
    else if contains error (codes "INVALID") && contains text (codes "product")
    then invalid_symbol message
    else exchange (if is_empty error then show status else error) message

unfoldable pub side_str : OrderSide → Text
side_str buy = codes "BUY"
side_str sell = codes "SELL"

unfoldable pub ensure_no_stp_inner : {D : Type 0} → OrderRequest D → Result (Unit {0})
unfolding unsupported_field
ensure_no_stp_inner r = err_if (not (is_allow r.stp)) (
    unsupported_field (codes "Coinbase") (codes "a per-order self-trade-prevention policy")
      (codes "Coinbase sets self-trade prevention per portfolio"))

unfoldable pub ensure_reduce_only_is_reducible : {D : Type 0} → OrderRequest D → Result (Unit {0})
unfolding unsupported_field
ensure_reduce_only_is_reducible r = err_if r.reduce_only (
    unsupported_field (codes "Coinbase") (codes "reduce_only on a spot order")
      (codes "Coinbase Advanced Trade is spot-only and holds no positions to reduce"))
