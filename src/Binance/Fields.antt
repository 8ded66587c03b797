-- ===== src/Binance/Fields.antt =====
-- Fields and levels of Binance's frames, crates/wickra-exchange-core/src/exchanges/binance.rs.
use wickra_exchange.Prelude.{Option, none, some, List, ◌∷◌, ◌++◌}
use wickra_exchange.Prelude.Text.{Text, codes}
use wickra_exchange.Prelude.Ord.{text_ord}
use wickra_exchange.Error.{Result, ok, deserialization, ok_or, map_all, ◌>>=◌}
use wickra_exchange.Events.{BookLevel}
use wickra_exchange.Platform.{Platform, and_then, get_str, or_default, first}
use wickra_exchange.Normalize.{parse_decimal}

abbrev pub second {ℓ} : {A : Type ℓ} → List A → Option A
second (_ ∷ x ∷ _) = some x
second _ = none

module _ {J D F K : Type 0} (pf : Platform J D F K) where
  unfoldable pub field_str : J → Text → Result Text
  field_str value key =
      ok_or (get_str pf value key) (deserialization (codes "missing string field " ++ pf.debug key))

  -- `parse_decimal(field_str(value, key)?)?`
  abbrev pub decimal_at : J → Text → Result D
  decimal_at value key = field_str value key >>= parse_decimal pf

  -- A price and a quantity in an array.
  abbrev pub ws_level : J → Result (BookLevel D)
  ws_level level = do
    pair ← ok_or (pf.as_array level) (deserialization (codes "depth level not an array"))
    price_text ←
        ok_or (and_then (first pair) pf.as_str) (deserialization (codes "depth price missing"))
    price ← parse_decimal pf price_text
    quantity_text ←
        ok_or (and_then (second pair) pf.as_str) (deserialization (codes "depth quantity missing"))
    quantity ← parse_decimal pf quantity_text
    ok (record { price = price; quantity = quantity })

  unfoldable pub parse_ws_levels : Option J → Result (List (BookLevel D))
  unfolding parse_decimal
  parse_ws_levels value = do
    levels ← ok_or (and_then value pf.as_array) (deserialization (codes "missing depth levels"))
    map_all ws_level levels

  -- `value.get("data").unwrap_or(&value)`
  abbrev pub payload_of : J → J
  payload_of value = or_default (pf.get value (codes "data")) value
