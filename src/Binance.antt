-- ===== src/Binance.antt =====
-- Binance's names for the unified types, crates/wickra-exchange-core/src/exchanges/binance.rs. The
-- parsers are in Binance/Parse and Binance/Frames.
pub mod Parse
pub mod Fields
pub mod UserStream
pub mod Frames
pub mod Derivatives
pub mod Encoding
pub mod Batch
mod Tests
use wickra_exchange.Prelude.{
  ℕ, Bool, true, false, ◌||◌, ◌&&◌, not, ltb, leb, ◌==◌, ◌/◌, ◌%◌, ◌+◌, ◌-◌, Option, none, some,
  List, [], ◌∷◌, ◌++◌, if◌then◌else◌,
}
use wickra_exchange.Prelude.Text.{Text, codes}
use wickra_exchange.Prelude.Strings.{strip_suffix}
use wickra_exchange.Error.{Result, ok, err, unsupported_field}
use wickra_exchange.Options.{
  MarketType, usd_m_futures, SelfTradePrevention, allow, expire_maker, expire_taker, expire_both,
}
use wickra_exchange.Symbol.{Symbol, new}
use wickra_exchange.Types.{
  OrderSide, buy, sell, OrderType, market, limit, stop_market, stop_limit, TimeInForce, gtc, ioc,
  fok, OrderRequest, requires_price,
}

-- A digit of the constant `HEX`, in upper case.
abbrev pub hex_upper : ℕ → ℕ
hex_upper n = if ltb n 10 then b'0' + n else b'A' + (n - 10)

-- The bytes that stand for themselves in a query.
unfoldable pub is_unreserved : ℕ → Bool
is_unreserved b =
    (leb b'A' b && leb b b'Z')
    || (leb b'a' b && leb b b'z')
    || (leb b'0' b && leb b b'9')
    || (b == b'-')
    || (b == b'_')
    || (b == b'.')
    || (b == b'~')

unfoldable pub percent_encode : Text → Text
unfolding is_unreserved
percent_encode [] = []
percent_encode (b ∷ s) =
    if is_unreserved b
    then b ∷ percent_encode s
    else b'%' ∷ hex_upper (b / 16) ∷ hex_upper (b % 16) ∷ percent_encode s

unfoldable pub side_str : OrderSide → Text
side_str buy = codes "BUY"
side_str sell = codes "SELL"

unfoldable pub order_type_str : OrderType → Text
order_type_str market = codes "MARKET"
order_type_str limit = codes "LIMIT"
order_type_str stop_market = codes "STOP_LOSS"
order_type_str stop_limit = codes "STOP_LOSS_LIMIT"

abbrev pub is_fok : TimeInForce → Bool
is_fok fok = true
is_fok _ = false

abbrev pub is_gtc : TimeInForce → Bool
is_gtc gtc = true
is_gtc _ = false

abbrev pub is_limit : OrderType → Bool
is_limit limit = true
is_limit _ = false

unfoldable pub type_for : {D : Type 0} → OrderRequest D → Result Text
unfolding requires_price unsupported_field order_type_str
type_for r =
    if not (requires_price r.order_type) && is_fok r.time_in_force
    then err (
        unsupported_field (codes "Binance") (codes "a FOK time-in-force on a market order")
          (codes "Binance accepts timeInForce only on the limit order types"))
    else if r.post_only && is_limit r.order_type
    then (if not (is_gtc r.time_in_force)
        then err (
            unsupported_field (codes "Binance")
              (codes "post_only together with a non-GTC time-in-force")
              (codes "`LIMIT_MAKER` is Binance's post-only type and accepts no timeInForce"))
        else ok (codes "LIMIT_MAKER"))
    else ok (order_type_str r.order_type)

unfoldable pub tif_str : TimeInForce → Text
tif_str gtc = codes "GTC"
tif_str ioc = codes "IOC"
tif_str fok = codes "FOK"

unfoldable pub stp_str : SelfTradePrevention → Option Text
stp_str allow = none
stp_str expire_maker = some (codes "EXPIRE_MAKER")
stp_str expire_taker = some (codes "EXPIRE_TAKER")
stp_str expire_both = some (codes "EXPIRE_BOTH")

abbrev pub known_quotes : List Text
known_quotes =
    codes "FDUSD"
    ∷ codes "USDT"
    ∷ codes "USDC"
    ∷ codes "TUSD"
    ∷ codes "BUSD"
    ∷ codes "DAI"
    ∷ codes "EUR"
    ∷ codes "TRY"
    ∷ codes "BTC"
    ∷ codes "ETH"
    ∷ codes "BNB"
    ∷ codes "USD"
    ∷ []

-- The base in front of a quote, where there is one.
abbrev pub base_before : Text → Text → Option Text
base_before wire quote = elim (strip_suffix wire quote) [
  | none ↦ none
  | some base ↦ elim base [ [] ↦ none | c ∷ t ↦ some (c ∷ t) ]
]

-- The loop over the quotes.
unfoldable pub split_by : List Text → Text → Symbol
unfolding new strip_suffix
split_by [] wire = new wire []
split_by (quote ∷ quotes) wire =
    let later = split_by quotes wire in
    elim (base_before wire quote) [ some base ↦ new base quote | none ↦ later ]

unfoldable pub split_wire_symbol : Text → Symbol
unfolding split_by
split_wire_symbol wire = split_by known_quotes wire

unfoldable pub rest_base_url : MarketType → Bool → Text
rest_base_url usd_m_futures false = codes "https://fapi.binance.com"
rest_base_url usd_m_futures true = codes "https://testnet.binancefuture.com"
rest_base_url _ true = codes "https://testnet.binance.vision"
rest_base_url _ false = codes "https://api.binance.com"

unfoldable pub ws_api_url : MarketType → Bool → Text
ws_api_url usd_m_futures false = codes "wss://ws-fapi.binance.com/ws-fapi/v1"
ws_api_url usd_m_futures true = codes "wss://testnet.binancefuture.com/ws-fapi/v1"
ws_api_url _ true = codes "wss://ws-api.testnet.binance.vision/ws-api/v3"
ws_api_url _ false = codes "wss://ws-api.binance.com:443/ws-api/v3"
