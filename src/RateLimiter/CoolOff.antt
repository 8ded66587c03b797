-- ===== src/RateLimiter/CoolOff.antt =====
-- The cool-off that a venue asks for.
use wickra_exchange.Prelude.{ℕ, ◌≡◌, none, arith, ◌<◌, ◌≤◌, ◌+◌, ◌-◌}
use wickra_exchange.Prelude.Int.{ℤ, pos, negsuc, ◌+ℤ◌, ◌-ℤ◌, ◌≤ℤ◌, ◌<ℤ◌, -ℤ_parts}
use wickra_exchange.Prelude.Word.{
  add_i64, add_i64_exact, sub_i64_exact, wrap, IsI64, i64_half, u64_mod,
}
use wickra_exchange.RateLimiter.{WeightedRateLimiter, throttled, note_rate_limited, try_acquire}

-- Where the end of the advised wait and the time that is left of it fit in an `i64`: until the wait
-- is over every request is refused, whatever its weight, with a positive wait that ends at the same
-- moment, and the limiter is not changed.
pub cool_off_refuses :
    (l : WeightedRateLimiter) (weight : ℕ) (retry_after_ms t now_ms : ℤ)
    → IsI64 (t +ℤ retry_after_ms)
    → IsI64 (t +ℤ retry_after_ms -ℤ now_ms)
    → now_ms <ℤ t +ℤ retry_after_ms
    → let banned = note_rate_limited l retry_after_ms t in
      let wait = t +ℤ retry_after_ms -ℤ now_ms in
      (try_acquire banned weight now_ms ≡ (banned, throttled wait)) × (pos 0 <ℤ wait)
unfolding note_rate_limited try_acquire
cool_off_refuses l weight retry_after_ms t now_ms r w h = ground (
  arith,
  add_i64_exact t retry_after_ms r,
  sub_i64_exact (t +ℤ retry_after_ms) now_ms w,
  -ℤ_parts (t +ℤ retry_after_ms) now_ms,
)

-- Where the end of the advised wait fits in an `i64`: once the wait is over a request is answered as
-- if there had been none.
pub cool_off_ends :
    (l : WeightedRateLimiter) (weight : ℕ) (retry_after_ms t now_ms : ℤ)
    → IsI64 (t +ℤ retry_after_ms)
    → t +ℤ retry_after_ms ≤ℤ now_ms
    → try_acquire (note_rate_limited l retry_after_ms t) weight now_ms
      ≡ try_acquire (record l { banned_until_ms = none }) weight now_ms
unfolding note_rate_limited try_acquire
cool_off_ends l weight retry_after_ms t now_ms r h =
    ground (arith, add_i64_exact t retry_after_ms r)

-- The end of a wait that is beyond the range of an `i64` lies before every time since the epoch.
add_i64_wraps :
    (a b : ℕ)
    → a < i64_half
    → b < i64_half
    → i64_half ≤ a + b
    → add_i64 (pos a) (pos b) ≡ negsuc (u64_mod - 1 - (a + b))
unfolding add_i64 wrap ◌+ℤ◌
add_i64_wraps a b ha hb h = ground arith

-- Where the advised wait and the time at which it was asked for sum to 2^63 or more, both not
-- negative and themselves in the range of an `i64`, the wait is no wait: from the epoch on every
-- request is answered as if there had been none.
pub cool_off_overflow :
    (l : WeightedRateLimiter) (weight retry_after_ms t now_ms : ℕ)
    → t < i64_half
    → retry_after_ms < i64_half
    → i64_half ≤ t + retry_after_ms
    → try_acquire (note_rate_limited l (pos retry_after_ms) (pos t)) weight (pos now_ms)
      ≡ try_acquire (record l { banned_until_ms = none }) weight (pos now_ms)
unfolding note_rate_limited try_acquire
cool_off_overflow l weight retry_after_ms t now_ms ht hr h =
    ground (arith, add_i64_wraps t retry_after_ms ht hr h)
