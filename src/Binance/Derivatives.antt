-- ===== src/Binance/Derivatives.antt =====
-- The derivatives frames of Binance's stream, `parse_derivatives_message` of
-- crates/wickra-exchange-core/src/exchanges/binance.rs.
use wickra_exchange.Prelude.{
  Bool, true, false, ◌&&◌, ◌||◌, Option, none, some, List, [], ◌∷◌, ◌++◌, if◌then◌else◌,
}
use wickra_exchange.Prelude.Int.{pos}
use wickra_exchange.Prelude.Text.{Text, codes}
use wickra_exchange.Prelude.Ord.{text_ord, same}
use wickra_exchange.Error.{to_option}
use wickra_exchange.Symbol.{Symbol}
use wickra_exchange.Types.{OrderSide, buy, sell}
use wickra_exchange.Events.{Event, derivatives, funding, mark_index, liquidation}
use wickra_exchange.Feeds.{
  DerivativesChannel, funding_channel, mark_index_channel, liquidations_channel,
}
use wickra_exchange.Platform.{Platform, get_str, get_i64, or_default}
use wickra_exchange.Normalize.{parse_decimal}
use wickra_exchange.Binance.Fields.{field_str, decimal_at, payload_of}

abbrev pub is_channel : DerivativesChannel → DerivativesChannel → Bool
is_channel funding_channel funding_channel = true
is_channel mark_index_channel mark_index_channel = true
is_channel liquidations_channel liquidations_channel = true
is_channel _ _ = false

-- `subscribed`
abbrev pub is_subscribed : List (Text × DerivativesChannel) → Text → DerivativesChannel → Bool
is_subscribed [] wire channel = false
is_subscribed ((w, c) ∷ rest) wire channel =
    (same w wire && is_channel c channel) || is_subscribed rest wire channel

-- `Some("SELL")` or `Some("BUY")`
abbrev pub forced_side : Option Text → Option OrderSide
forced_side none = none
forced_side (some s) =
    if same s (codes "SELL") then some sell else if same s (codes "BUY") then some buy else none

-- The events of what is there.
abbrev pub to_events {ℓ κ} : {A : Type ℓ} {B : Type κ} → Option A → (A → List B) → List B
to_events none f = []
to_events (some a) f = f a

module _ {J D F K : Type 0} (pf : Platform J D F K) (resolve : Text → Symbol)
    (channels : List (Text × DerivativesChannel)) where
  -- The funding and the index of a mark, each where it is subscribed to and can be read.
  unfoldable pub mark_events : J → List (Event D)
  unfolding field_str parse_decimal
  mark_events payload = to_events (to_option (field_str pf payload (codes "s"))) (λ wire.
      let timestamp = or_default (get_i64 pf payload (codes "E")) (pos 0) in
      to_events (to_option (decimal_at pf payload (codes "p"))) (λ mark_price.
        (if is_subscribed channels wire funding_channel
          then to_events (to_option (decimal_at pf payload (codes "r"))) (λ rate.
            derivatives (
              funding (record {
                symbol = resolve wire;
                rate = rate;
                mark_price = mark_price;
                timestamp = timestamp;
              }))
            ∷ [])
          else [])
        ++ (if is_subscribed channels wire mark_index_channel
            then to_events (to_option (decimal_at pf payload (codes "i"))) (λ index_price.
              derivatives (
                mark_index (record {
                  symbol = resolve wire;
                  mark_price = mark_price;
                  index_price = index_price;
                  timestamp = timestamp;
                }))
              ∷ [])
            else [])))

  -- The liquidation of a forced order.
  unfoldable pub liquidation_events : J → List (Event D)
  unfolding field_str parse_decimal
  liquidation_events payload = to_events (pf.get payload (codes "o")) (λ order.
      to_events (to_option (field_str pf order (codes "s"))) (λ wire.
        if is_subscribed channels wire liquidations_channel
        then to_events (forced_side (get_str pf order (codes "S"))) (λ side.
          to_events (to_option (decimal_at pf order (codes "p"))) (λ price.
            to_events (to_option (decimal_at pf order (codes "q"))) (λ quantity.
              derivatives (
                liquidation (record {
                  symbol = resolve wire;
                  side = side;
                  price = price;
                  quantity = quantity;
                  timestamp = or_default (get_i64 pf order (codes "T")) (pos 0);
                }))
              ∷ [])))
        else []))

  unfoldable pub parse_derivatives_message : Text → List (Event D)
  unfolding mark_events liquidation_events
  parse_derivatives_message text = to_events (pf.from_json text) (λ value.
      to_events (get_str pf (payload_of pf value) (codes "e")) (λ event_type.
        if same event_type (codes "markPriceUpdate")
        then mark_events (payload_of pf value)
        else if same event_type (codes "forceOrder")
        then liquidation_events (payload_of pf value)
        else []))
