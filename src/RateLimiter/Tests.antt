-- ===== src/RateLimiter/Tests.antt =====
-- The rate limiter on a budget of 100 in a minute.
use wickra_exchange.Prelude.{◌≡◌, refl, ◌≤◌, ◌<◌, ◌+◌, none, some, [], ◌∷◌, arith}
use wickra_exchange.Prelude.Int.{pos, ◌+ℤ◌, ◌-ℤ◌, ◌<ℤ◌}
use wickra_exchange.Prelude.Word.{add_i64, wrap}
use wickra_exchange.RateLimiter.{
  WeightedRateLimiter, allowed, throttled, note_rate_limited, try_acquire,
}
use wickra_exchange.RateLimiter.Budget.{
  count_after, run, try_acquire_within, run_within, try_acquire_overflow,
}
use wickra_exchange.RateLimiter.CoolOff.{cool_off_refuses, cool_off_ends, cool_off_overflow}

-- 60 of the budget are used in the window that began at 1000.
abbrev limiter : WeightedRateLimiter
limiter = record {
  capacity = 100;
  window_ms = pos 60000;
  used = 60;
  window_start_ms = some (pos 1000);
  banned_until_ms = none;
}

try_acquire_within_example :
    let (l', a) = try_acquire limiter 50 (pos 2000) in
    (l'.used ≤ l'.capacity)
    × (l'.capacity ≡ limiter.capacity)
    × (l'.window_ms ≡ limiter.window_ms)
    × (l'.used ≡ count_after limiter (pos 2000) 50 a)
try_acquire_within_example = try_acquire_within limiter 50 (pos 2000) (omega arith)

run_within_example :
    let (l', sum) = run limiter ((50, pos 2000) ∷ (40, pos 3000) ∷ []) 0 in
    (sum + limiter.used ≡ 0 + l'.used) × (l'.used ≤ limiter.capacity)
unfolding add_i64 wrap ◌+ℤ◌
run_within_example =
    run_within limiter ((50, pos 2000) ∷ (40, pos 3000) ∷ []) (pos 1000) 0 refl (omega arith)
      ((refl, omega arith), ((refl, omega arith), tt))

-- 60 and a weight of 2^32 - 10 wrap to 50.
try_acquire_overflow_example :
    let (l', a) = try_acquire limiter 0xffff_fff6 (pos 2000) in
    (a ≡ allowed) × (l'.used < limiter.used)
unfolding add_i64 wrap ◌+ℤ◌
try_acquire_overflow_example =
    try_acquire_overflow limiter 0xffff_fff6 (pos 2000) (pos 1000) refl refl refl (omega arith)
      (omega arith) (omega arith) (omega arith)

cool_off_refuses_example :
    let banned = note_rate_limited limiter (pos 5000) (pos 2000) in
    let wait = pos 2000 +ℤ pos 5000 -ℤ pos 3000 in
    (try_acquire banned 1 (pos 3000) ≡ (banned, throttled wait)) × (pos 0 <ℤ wait)
unfolding ◌+ℤ◌ ◌-ℤ◌
cool_off_refuses_example =
    cool_off_refuses limiter 1 (pos 5000) (pos 2000) (pos 3000) (omega arith, omega arith)
      (omega arith, omega arith) (omega arith)

cool_off_ends_example :
    try_acquire (note_rate_limited limiter (pos 5000) (pos 2000)) 1 (pos 8000)
    ≡ try_acquire (record limiter { banned_until_ms = none }) 1 (pos 8000)
unfolding ◌+ℤ◌
cool_off_ends_example =
    cool_off_ends limiter 1 (pos 5000) (pos 2000) (pos 8000) (omega arith, omega arith)
      (omega arith)

-- A wait of 2^63 - 1 milliseconds, asked for at 2000.
cool_off_overflow_example :
    try_acquire (note_rate_limited limiter (pos 0x7fff_ffff_ffff_ffff) (pos 2000)) 1 (pos 3000)
    ≡ try_acquire (record limiter { banned_until_ms = none }) 1 (pos 3000)
cool_off_overflow_example =
    cool_off_overflow limiter 1 0x7fff_ffff_ffff_ffff 2000 3000 (omega arith) (omega arith)
      (omega arith)
