-- ===== src/RateLimiter.antt =====
-- The weighted rate limiter, crates/wickra-exchange-core/src/ratelimiter.rs. Weights are `u32` and
-- times `i64`; both wrap, as they do in a release build.
pub mod Budget
pub mod CoolOff
mod Tests
use wickra_exchange.Prelude.{
  ℕ, Bool, true, false, Option, none, some, ltb, if◌then◌else◌, ◌≡◌, refl, ◌⊎◌, inl, inr,
}
use wickra_exchange.Prelude.Int.{ℤ, ltb_ℤ}
use wickra_exchange.Prelude.Word.{add_u32, add_i64, sub_i64}

pub data Acquire : Type 0 where
  allowed : Acquire
  throttled : ℤ → Acquire

-- To split on an answer and keep the equation.
pub Acquire-cases : (a : Acquire) → (a ≡ allowed) ⊎ ((r : ℤ) × (a ≡ throttled r))
Acquire-cases allowed = inl refl
Acquire-cases (throttled r) = inr (r, refl)

pub record WeightedRateLimiter : Type 0 where
  pub capacity : ℕ
  pub window_ms : ℤ
  pub used : ℕ
  pub window_start_ms : Option ℤ
  pub banned_until_ms : Option ℤ

unfoldable pub new : ℕ → ℤ → WeightedRateLimiter
new capacity window_ms = record {
  capacity = capacity;
  window_ms = window_ms;
  used = 0;
  window_start_ms = none;
  banned_until_ms = none;
}

unfoldable pub note_rate_limited : WeightedRateLimiter → ℤ → ℤ → WeightedRateLimiter
note_rate_limited l retry_after_ms now_ms = record l {
  banned_until_ms = some (add_i64 now_ms retry_after_ms);
}

-- Rolls the window if it has elapsed, or starts it.
unfoldable pub roll : WeightedRateLimiter → ℤ → Option ℤ → WeightedRateLimiter × ℤ
roll l now_ms none = (record l { window_start_ms = some now_ms; used = 0 }, now_ms)
roll l now_ms (some start) =
    if ltb_ℤ now_ms (add_i64 start l.window_ms)
    then (l, start)
    else (record l { window_start_ms = some now_ms; used = 0 }, now_ms)

-- The charge against the window that began at `start`.
unfoldable pub charge : WeightedRateLimiter → ℕ → ℤ → ℤ → WeightedRateLimiter × Acquire
charge l weight now_ms start =
    if ltb l.capacity (add_u32 l.used weight)
    then (l, throttled (sub_i64 (add_i64 start l.window_ms) now_ms))
    else (record l { used = add_u32 l.used weight }, allowed)

-- The part of `try_acquire` behind the cool-off.
unfoldable pub acquire_in_window : WeightedRateLimiter → ℕ → ℤ → WeightedRateLimiter × Acquire
unfolding roll charge
acquire_in_window l weight now_ms =
    let (rolled, start) = roll l now_ms l.window_start_ms in charge rolled weight now_ms start

-- `try_acquire`, by the cool-off in force.
unfoldable pub acquire_under :
    WeightedRateLimiter → ℕ → ℤ → Option ℤ → WeightedRateLimiter × Acquire
unfolding acquire_in_window
acquire_under l weight now_ms none = acquire_in_window l weight now_ms
acquire_under l weight now_ms (some until) =
    if ltb_ℤ now_ms until
    then (l, throttled (sub_i64 until now_ms))
    else acquire_in_window (record l { banned_until_ms = none }) weight now_ms

unfoldable pub try_acquire : WeightedRateLimiter → ℕ → ℤ → WeightedRateLimiter × Acquire
unfolding acquire_under
try_acquire l weight now_ms = acquire_under l weight now_ms l.banned_until_ms
