-- ===== src/Retry/Delay.antt =====
-- The delay curve.
use wickra_exchange.Prelude.{
  ℕ, suc, ◌≡◌, ◌≤◌, ◌<◌, ◌*◌, ◌^◌, ◌-◌, min, arith, ◌⊎◌, inl, inr, zero, ap, refl,
}
use native.Mathlib.Numerals.{unary_clauses}
use wickra_exchange.Prelude.Word.{u64_mod}
use wickra_exchange.Retry.{Backoff, delay_ms, saturating_mul, saturating_pow}

le_or_lt : (a b : ℕ) → (a ≤ b) ⊎ (b < a)
le_or_lt a b = omega arith

below_mul : (a p m : ℕ) → m ≤ p → m ≤ suc a * p
below_mul zero p m h = omega arith
below_mul (suc a) p m h = omega (arith, below_mul a p m h)

-- A product whose second factor is cut at `m` is the product, once it is cut at `m` itself.
min_mul : (a p m : ℕ) → min (a * min p m) m ≡ min (a * p) m
min_mul zero p m = omega arith
min_mul (suc a) p m = elim (le_or_lt p m) [
  | inl le ↦ ap (λ q. min (suc a * q) m) (omega arith)
  | inr lt ↦
      let small : min p m ≡ m = omega arith in
      rw small (ground (arith, below_mul a m m (omega arith), below_mul a p m (omega arith)))
]

pow_suc : (n : ℕ) → 2 ^ suc n ≡ 2 * 2 ^ n
pow_suc n = simp unary_clauses (omega arith)

-- Cutting at the `u64` range on the way does not show in what is cut at `m`.
capped :
    (a p m : ℕ) → m < u64_mod → min (min (a * min p (u64_mod - 1)) (u64_mod - 1)) m ≡ min (a * p) m
capped a p m h = ground (arith, min_mul a p (u64_mod - 1))

mul_twice : (a p : ℕ) → a * (2 * p) ≡ 2 * (a * p)
mul_twice a p = omega arith

-- The delay is the base doubled once per attempt and cut at the maximum, although both saturate on
-- the way; it never falls from an attempt to the next, and at most doubles.
pub delay_ms_lem :
    (b : Backoff) (attempt : ℕ)
    → b.max_ms < u64_mod
    → (delay_ms b attempt ≡ min (b.base_ms * 2 ^ attempt) b.max_ms)
      × (delay_ms b attempt ≤ delay_ms b (suc attempt))
      × (delay_ms b (suc attempt) ≤ 2 * delay_ms b attempt)
unfolding delay_ms saturating_mul saturating_pow
delay_ms_lem b attempt h =
    let now = capped b.base_ms (2 ^ attempt) b.max_ms h in
    let next = capped b.base_ms (2 ^ suc attempt) b.max_ms h in
    let twice = mul_twice b.base_ms (2 ^ attempt) in
    rw (now, next, pow_suc attempt, twice) (refl, omega arith, omega arith)
