-- ===== src/Instruments/Tests.antt =====
-- Filters and a cache in whole numbers.
use wickra_exchange.Prelude.{ℕ, ◌≡◌, ◌↔◌, true, none, some, [], ◌∷◌, arith}
use wickra_exchange.Prelude.Int.{ℤ, pos, ◌-ℤ◌, ◌≤ℤ◌}
use wickra_exchange.Prelude.Text.{codes}
use wickra_exchange.Decimal.Integers.{ℤ_ord, ℤ_decimal}
use wickra_exchange.Symbol.{Symbol}
use wickra_exchange.Instruments.{
  InstrumentFilters, Instrument, InstrumentCache, new, replace, get, needs_refresh, validate,
}
use wickra_exchange.Instruments.Filters.{is_acceptable, Answers, validate_lem}
use wickra_exchange.Instruments.Cache.{last_of, get-replace}

abbrev lots : InstrumentFilters ℤ
lots = record {
  min_quantity = pos 1;
  max_quantity = pos 1000;
  step_size = pos 5;
  min_price = pos 1;
  max_price = pos 0;
  tick_size = pos 2;
  min_notional = pos 100;
}

validate_lem_example :
    Answers (is_acceptable lots (pos 10) (some (pos 20))) (validate lots (pos 10) (some (pos 20)))
validate_lem_example = validate_lem lots (pos 10) (some (pos 20))

abbrev btc_usdt : Symbol
btc_usdt = record { base = codes "BTC"; quote = codes "USDT" }

abbrev listed : ℕ → Instrument ℤ
listed precision = record {
  symbol = btc_usdt;
  base_precision = precision;
  quote_precision = 2;
  filters = lots;
}

abbrev cache : InstrumentCache ℤ
cache = record { by_symbol = []; fetched_at_ms = none }

get-replace_example :
    let c' = replace cache (listed 8 ∷ listed 9 ∷ []) (pos 500) in
    (get c' btc_usdt ≡ last_of btc_usdt (listed 8 ∷ listed 9 ∷ []) none)
    × ((needs_refresh c' (pos 700) (pos 100) ≡ true) ↔ (pos 100 ≤ℤ pos 700 -ℤ pos 500))
    × (needs_refresh (new {D = ℤ}) (pos 700) (pos 100) ≡ true)
unfolding ◌-ℤ◌
get-replace_example =
    get-replace cache (listed 8 ∷ listed 9 ∷ []) (pos 500) (pos 700) (pos 100) btc_usdt
      (omega arith, omega arith)
