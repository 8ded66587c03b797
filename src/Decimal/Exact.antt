-- ===== src/Decimal/Exact.antt =====
-- What the program relies on of `Decimal`, as hypotheses: within its range a decimal is a whole
-- number of units of the last place, sums and differences have no round-off, and products and
-- quotients respect the order of what they are made of.
use wickra_exchange.Prelude.{ℕ, ◌≡◌, ◌<◌}
use wickra_exchange.Prelude.Int.{ℤ, pos, ◌+ℤ◌, ◌-ℤ◌, ◌≤ℤ◌, ◌<ℤ◌, cmp_ℤ}
use wickra_exchange.Decimal.{Decimal}

pub record IsExact (D : Type 0) ⦃d : Decimal D⦄ : Type 0 where
  pub units : D → ℤ
  pub eq_of_units : (a b : D) → units a ≡ units b → a ≡ b
  pub cmp_units : (a b : D) → d.order.cmp a b ≡ cmp_ℤ (units a) (units b)
  pub units_nought : units d.nought ≡ pos 0
  pub units_add : (a b : D) → units (d.add a b) ≡ units a +ℤ units b
  pub units_sub : (a b : D) → units (d.sub a b) ≡ units a -ℤ units b

-- Products and quotients against the order.
pub record IsOrdered (D : Type 0) ⦃d : Decimal D⦄ ⦃x : IsExact D⦄ : Type 0 where
  pub mul_nonneg :
      (a b : D) → pos 0 ≤ℤ x.units a → pos 0 ≤ℤ x.units b → pos 0 ≤ℤ x.units (d.mul a b)
  pub mul_le :
      (a b : D) → pos 0 ≤ℤ x.units a → x.units b ≤ℤ x.units d.one → x.units (d.mul a b) ≤ℤ x.units a
  pub div_le_one :
      (a b : D) → pos 0 <ℤ x.units b → x.units a ≤ℤ x.units b → x.units (d.div a b) ≤ℤ x.units d.one
  pub div_nonneg :
      (a b : D) → pos 0 ≤ℤ x.units a → pos 0 <ℤ x.units b → pos 0 ≤ℤ x.units (d.div a b)
  pub one_pos : pos 0 <ℤ x.units d.one
  pub from_pos : (n : ℕ) → 0 < n → pos 0 <ℤ x.units (d.from n)
