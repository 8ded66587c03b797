-- ===== src/Instruments.antt =====
-- Instrument filters, rounding and the metadata cache,
-- crates/wickra-exchange-core/src/instruments.rs.
pub mod Filters
pub mod Cache
mod Tests
use wickra_exchange.Prelude.{
  ℕ, Bool, true, false, not, ◌&&◌, Option, none, some, List, [], ◌∷◌, ◌++◌, if◌then◌else◌, length,
}
use wickra_exchange.Prelude.Int.{ℤ, leb_ℤ}
use wickra_exchange.Prelude.Word.{sub_i64}
use wickra_exchange.Prelude.Text.{Text, codes}
use wickra_exchange.Prelude.Ord.{same}
use wickra_exchange.OrdMap.{OrdMap, lookup, insert}
use wickra_exchange.Decimal.{Decimal, decimal_ord, ltd, led}
use wickra_exchange.Error.{Result, ok, err, filter, err_if, ◌>>◌}
use wickra_exchange.Symbol.{Symbol, symbol_ord}

pub record InstrumentFilters (D : Type 0) : Type 0 where
  pub min_quantity : D
  pub max_quantity : D
  pub step_size : D
  pub min_price : D
  pub max_price : D
  pub tick_size : D
  pub min_notional : D

pub record Instrument (D : Type 0) : Type 0 where
  pub symbol : Symbol
  pub base_precision : ℕ
  pub quote_precision : ℕ
  pub filters : InstrumentFilters D

pub record InstrumentCache (D : Type 0) : Type 0 where
  pub by_symbol : OrdMap Symbol (Instrument D)
  pub fetched_at_ms : Option ℤ

module _ {D : Type 0} ⦃d : Decimal D⦄ where
  unfoldable pub round_down_to : D → D → D
  round_down_to value increment =
      if led increment d.nought then value else elim (d.checked_div value increment) [
        | none ↦ value
        | some steps ↦ elim (d.checked_mul (d.floor steps) increment) [
          | none ↦ value
          | some rounded ↦ rounded
        ]
      ]

  unfoldable pub round_quantity : InstrumentFilters D → D → D
  unfolding round_down_to
  round_quantity f quantity = round_down_to quantity f.step_size

  unfoldable pub round_price : InstrumentFilters D → D → D
  unfolding round_down_to
  round_price f price = round_down_to price f.tick_size

  -- `format!("{a} {words} {b}")` behind the filter's name.
  abbrev message : Text → D → Text → D → Text
  message name a words b = name ++ d.show a ++ words ++ d.show b

  -- The tests on the price, where there is one.
  unfoldable pub validate_price : InstrumentFilters D → D → D → Result (Unit {0})
  validate_price f quantity price =
      err_if (ltd price f.min_price) (
        filter (message (codes "PRICE_FILTER: price ") price (codes " below minimum ") f.min_price))
      >> err_if (ltd d.nought f.max_price && ltd f.max_price price) (
          filter
            (message (codes "PRICE_FILTER: price ") price (codes " above maximum ") f.max_price))
      >> err_if (ltd d.nought f.tick_size && not (same (d.rem price f.tick_size) d.nought)) (
          filter (
            message (codes "PRICE_FILTER: price ") price (codes " not a multiple of tick ")
              f.tick_size))
      >> err_if (ltd d.nought f.min_notional && ltd (d.mul quantity price) f.min_notional) (
          filter (
            message (codes "MIN_NOTIONAL: notional ") (d.mul quantity price)
              (codes " below minimum ") f.min_notional))

  -- The tests on the quantity.
  unfoldable pub validate_quantity : InstrumentFilters D → D → Result (Unit {0})
  validate_quantity f quantity =
      err_if (ltd quantity f.min_quantity) (
        filter
          (message (codes "LOT_SIZE: quantity ") quantity (codes " below minimum ") f.min_quantity))
      >> err_if (ltd d.nought f.max_quantity && ltd f.max_quantity quantity) (
          filter (
            message (codes "LOT_SIZE: quantity ") quantity (codes " above maximum ")
              f.max_quantity))
      >> err_if (ltd d.nought f.step_size && not (same (d.rem quantity f.step_size) d.nought)) (
          filter (
            message (codes "LOT_SIZE: quantity ") quantity (codes " not a multiple of step ")
              f.step_size))

  unfoldable pub validate : InstrumentFilters D → D → Option D → Result (Unit {0})
  unfolding validate_quantity validate_price
  validate f quantity price =
      validate_quantity f quantity
      >> elim price [ none ↦ ok tt | some p ↦ validate_price f quantity p ]

module _ {D : Type 0} where
  unfoldable pub new : InstrumentCache D
  new = record { by_symbol = []; fetched_at_ms = none }

  -- `collect` into the map: a later instrument of the same symbol replaces an earlier one.
  unfoldable pub collect :
      List (Instrument D) → OrdMap Symbol (Instrument D) → OrdMap Symbol (Instrument D)
  collect [] m = m
  collect (i ∷ rest) m = collect rest (insert i.symbol i m)

  unfoldable pub replace : InstrumentCache D → List (Instrument D) → ℤ → InstrumentCache D
  unfolding collect
  replace c instruments now_ms = record {
    by_symbol = collect instruments [];
    fetched_at_ms = some now_ms;
  }

  unfoldable pub get : InstrumentCache D → Symbol → Option (Instrument D)
  get c symbol = lookup symbol c.by_symbol

  unfoldable pub needs_refresh : InstrumentCache D → ℤ → ℤ → Bool
  needs_refresh c now_ms ttl_ms = elim c.fetched_at_ms [
    | none ↦ true
    | some fetched ↦ leb_ℤ ttl_ms (sub_i64 now_ms fetched)
  ]
