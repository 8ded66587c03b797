-- ===== src/Decimal.antt =====
-- `rust_decimal::Decimal`, which the program calls and does not implement: an interface of the
-- operations that it uses. Two decimals that compare equal are one value here (`1.0` and `1.00`).
pub mod Exact
pub mod Integers
use wickra_exchange.Prelude.{ℕ, Option, Bool, true, false}
use wickra_exchange.Prelude.Text.{Text}
use wickra_exchange.Prelude.Ord.{Ord}
use Prim.Native.Nat.Ordering.{lt, eq, gt}

pub record Decimal (D : Type 0) : Type 0 where
  pub nought : D
  pub one : D
  pub negative_one : D
  -- `Decimal::from` of an unsigned integer.
  pub from : ℕ → D
  pub add : D → D → D
  pub sub : D → D → D
  pub mul : D → D → D
  pub div : D → D → D
  pub rem : D → D → D
  pub floor : D → D
  pub checked_div : D → D → Option D
  pub checked_mul : D → D → Option D
  -- `Display`
  pub show : D → Text
  pub order : Ord D

module _ {D : Type 0} ⦃d : Decimal D⦄ where
  instance abbrev pub decimal_ord : Ord D
  decimal_ord = d.order

  -- `a < b` and `a <= b`
  abbrev pub ltd : D → D → Bool
  ltd a b = elim (d.order.cmp a b) [ lt ↦ true | _ ↦ false ]

  abbrev pub led : D → D → Bool
  led a b = elim (d.order.cmp a b) [ gt ↦ false | _ ↦ true ]
