-- ===== src/Retry.antt =====
-- The backoff policy, crates/wickra-exchange-core/src/retry.rs.
pub mod Delay
mod Tests
use wickra_exchange.Prelude.{ℕ, Bool, ◌*◌, ◌^◌, ◌-◌, min, ltb}
use wickra_exchange.Prelude.Word.{u64_mod}

pub record Backoff : Type 0 where
  pub base_ms : ℕ
  pub max_ms : ℕ
  pub max_retries : ℕ

unfoldable pub new : ℕ → ℕ → ℕ → Backoff
new base_ms max_ms max_retries = record {
  base_ms = base_ms;
  max_ms = max_ms;
  max_retries = max_retries;
}

-- `u64::saturating_mul` and `saturating_pow`
unfoldable pub saturating_mul : ℕ → ℕ → ℕ
saturating_mul a b = min (a * b) (u64_mod - 1)

unfoldable pub saturating_pow : ℕ → ℕ → ℕ
saturating_pow a n = min (a ^ n) (u64_mod - 1)

unfoldable pub delay_ms : Backoff → ℕ → ℕ
unfolding saturating_mul saturating_pow
delay_ms b attempt = min (saturating_mul b.base_ms (saturating_pow 2 attempt)) b.max_ms

-- `jittered_delay_ms`, over the machine's `f64`: `scaled delay r` is the part of the delay that
-- the fraction `r`, clamped to the unit interval, asks for.
unfoldable pub jittered_delay_ms : {F : Type 0} → (ℕ → F → ℕ) → Backoff → ℕ → F → ℕ
unfolding delay_ms
jittered_delay_ms scaled b attempt rand01 = scaled (delay_ms b attempt) rand01

unfoldable pub should_retry : Backoff → ℕ → Bool
should_retry b attempt = ltb attempt b.max_retries
