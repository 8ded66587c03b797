-- ===== src/Decimal/Integers.antt =====
-- A concrete decimal that meets the hypotheses: whole numbers, with quotients rounded down.
use Prim.Native.Nat.Ordering.{lt, eq, gt}
use wickra_exchange.Prelude.{
  ℕ, zero, suc, ◌+◌, ◌/◌, ◌%◌, ◌≡◌, refl, ◌<◌, Bool, true, false, none, some, arith, if◌then◌else◌,
  ◌∷◌,
}
use wickra_exchange.Prelude.Int.{
  ℤ, pos, negsuc, pos_part, neg_part, sub_ℕ, ◌+ℤ◌, ◌-ℤ◌, ◌*ℤ◌, ◌≤ℤ◌, ◌<ℤ◌, cmp_ℤ, *ℤ_nonneg,
}
use wickra_exchange.Prelude.Text.{Text, show}
use wickra_exchange.Prelude.Ord.{Ord}
use wickra_exchange.Decimal.{Decimal}
use wickra_exchange.Decimal.Exact.{IsExact, IsOrdered}

-- Rounded down; a divisor that is not positive gives 0.
abbrev pub div_ℤ : ℤ → ℤ → ℤ
div_ℤ (pos a) (pos b) = pos (a / b)
div_ℤ (negsuc a) (pos zero) = pos 0
div_ℤ (negsuc a) (pos (suc b)) = negsuc (a / suc b)
div_ℤ a (negsuc b) = pos 0

-- The sign is the dividend's.
abbrev pub rem_ℤ : ℤ → ℤ → ℤ
rem_ℤ (pos a) b = pos (a % (pos_part b + neg_part b))
rem_ℤ (negsuc a) b = sub_ℕ 0 (suc a % (pos_part b + neg_part b))

abbrev pub is_zero : ℤ → Bool
is_zero (pos zero) = true
is_zero _ = false

abbrev pub show_ℤ : ℤ → Text
show_ℤ (pos n) = show n
show_ℤ (negsuc n) = b'-' ∷ show (suc n)

pub ℤ_lt_trans : (a b c : ℤ) → cmp_ℤ a b ≡ lt → cmp_ℤ b c ≡ lt → cmp_ℤ a c ≡ lt
ℤ_lt_trans a b c h k = ground arith

pub ℤ_lt_of_gt : (a b : ℤ) → cmp_ℤ a b ≡ gt → cmp_ℤ b a ≡ lt
ℤ_lt_of_gt a b h = ground arith

pub ℤ_gt_of_lt : (a b : ℤ) → cmp_ℤ a b ≡ lt → cmp_ℤ b a ≡ gt
ℤ_gt_of_lt a b h = ground arith

pub ℤ_eq_of_cmp : (a b : ℤ) → cmp_ℤ a b ≡ eq → a ≡ b
ℤ_eq_of_cmp a b h = ground arith

pub ℤ_cmp_refl : (a : ℤ) → cmp_ℤ a a ≡ eq
ℤ_cmp_refl a = ground arith

instance abbrev pub ℤ_ord : Ord ℤ
ℤ_ord = record {
  cmp = cmp_ℤ;
  cmp_refl = ℤ_cmp_refl;
  eq_of_cmp = ℤ_eq_of_cmp;
  lt_of_gt = ℤ_lt_of_gt;
  gt_of_lt = ℤ_gt_of_lt;
  lt_trans = ℤ_lt_trans;
}

instance abbrev pub ℤ_decimal : Decimal ℤ
ℤ_decimal = record {
  nought = pos 0;
  one = pos 1;
  negative_one = negsuc 0;
  from = pos;
  add = ◌+ℤ◌;
  sub = ◌-ℤ◌;
  mul = ◌*ℤ◌;
  div = div_ℤ;
  rem = rem_ℤ;
  floor = λ a. a;
  checked_div = λ a b. if is_zero b then none else some (div_ℤ a b);
  checked_mul = λ a b. some (a *ℤ b);
  show = show_ℤ;
  order = ℤ_ord;
}

instance abbrev pub ℤ-IsExact : IsExact ℤ
ℤ-IsExact = record {
  units = λ a. a;
  eq_of_units = λ a b h. h;
  cmp_units = λ a b. refl;
  units_nought = refl;
  units_add = λ a b. refl;
  units_sub = λ a b. refl;
}

pub ℤ_mul_le : (a b : ℤ) → pos 0 ≤ℤ a → b ≤ℤ pos 1 → a *ℤ b ≤ℤ a
unfolding ◌*ℤ◌
ℤ_mul_le (pos a) (pos zero) h k = ground arith
ℤ_mul_le (pos a) (pos (suc zero)) h k = ground arith
ℤ_mul_le (pos a) (pos (suc (suc b))) h k = absurd (omega arith)
ℤ_mul_le (pos a) (negsuc b) h k = ground arith
ℤ_mul_le (negsuc a) b h k = absurd (omega arith)

pub ℤ_div_le_one : (a b : ℤ) → pos 0 <ℤ b → a ≤ℤ b → div_ℤ a b ≤ℤ pos 1
ℤ_div_le_one (pos a) (pos b) h k = grind arith
ℤ_div_le_one (negsuc a) (pos zero) h k = absurd (omega arith)
ℤ_div_le_one (negsuc a) (pos (suc b)) h k = omega arith
ℤ_div_le_one a (negsuc b) h k = absurd (omega arith)

pub ℤ_div_nonneg : (a b : ℤ) → pos 0 ≤ℤ a → pos 0 <ℤ b → pos 0 ≤ℤ div_ℤ a b
ℤ_div_nonneg (pos a) (pos b) h k = omega arith
ℤ_div_nonneg (negsuc a) b h k = absurd (omega arith)
ℤ_div_nonneg (pos a) (negsuc b) h k = absurd (omega arith)

pub ℤ_one_pos : pos 0 <ℤ pos 1
ℤ_one_pos = omega arith

pub ℤ_from_pos : (n : ℕ) → 0 < n → pos 0 <ℤ pos n
ℤ_from_pos n h = omega arith

instance abbrev pub ℤ-IsOrdered : IsOrdered ℤ
ℤ-IsOrdered = record {
  mul_nonneg = *ℤ_nonneg;
  mul_le = ℤ_mul_le;
  div_le_one = ℤ_div_le_one;
  div_nonneg = ℤ_div_nonneg;
  one_pos = ℤ_one_pos;
  from_pos = ℤ_from_pos;
}
