-- ===== src/Retry/Tests.antt =====
-- A backoff from 100 ms to 2 s.
use wickra_exchange.Prelude.{◌≡◌, refl, ◌≤◌, ◌*◌, ◌^◌, min, arith}
use wickra_exchange.Retry.{Backoff, delay_ms, saturating_mul, saturating_pow}
use wickra_exchange.Retry.Delay.{delay_ms_lem}

abbrev backoff : Backoff
backoff = record { base_ms = 100; max_ms = 2000; max_retries = 5 }

late_delay : delay_ms backoff 64 ≡ 2000
unfolding delay_ms saturating_mul saturating_pow
late_delay = refl

delay_ms_lem_example :
    (delay_ms backoff 3 ≡ min (100 * 2 ^ 3) 2000)
    × (delay_ms backoff 3 ≤ delay_ms backoff 4)
    × (delay_ms backoff 4 ≤ 2 * delay_ms backoff 3)
delay_ms_lem_example = delay_ms_lem backoff 3 (omega arith)
