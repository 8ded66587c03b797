-- ===== src/Normalize.antt =====
-- Numbers on the wire, crates/wickra-exchange-core/src/normalize.rs.
use wickra_exchange.Prelude.{Option, none, some, ◌||◌, ◌++◌, if◌then◌else◌}
use wickra_exchange.Prelude.Text.{Text, codes}
use wickra_exchange.Prelude.Ord.{text_ord, same}
use wickra_exchange.Error.{Result, ok, err, deserialization}
use wickra_exchange.Platform.{Platform}

module _ {J D F K : Type 0} (pf : Platform J D F K) where
  unfoldable pub parse_decimal : Text → Result D
  parse_decimal s = elim (pf.read_decimal (pf.trim s)) [
    | some value ↦ ok value
    | none ↦ err (
        deserialization
          (codes "invalid decimal " ++ pf.debug s ++ codes ": " ++ pf.decimal_error (pf.trim s)))
  ]

  unfoldable pub parse_opt_decimal : Option Text → Result (Option D)
  unfolding parse_decimal
  parse_opt_decimal none = ok none
  parse_opt_decimal (some s) =
      let value = pf.trim s in
      if same value (codes "") || same value (codes "null")
      then ok none
      else elim (parse_decimal value) [ ok x ↦ ok (some x) | err e ↦ err e ]

  unfoldable pub format_decimal : D → Text
  format_decimal value = pf.normalized value
