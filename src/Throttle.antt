-- ===== src/Throttle.antt =====
-- The rate-limiting, retrying transport, crates/wickra-exchange-core/src/throttle.rs. What is
-- injected into it (the inner transport, the clock, the sleep, the jitter source, the weigher) and
-- the machine's `f64` form a `World`, over a state of its own. A request runs alone: the limiter's
-- lock is not contended. Tracing is left out.
pub mod Repeats
mod Tests
use wickra_exchange.Prelude.{
  ℕ, suc, zero, Bool, true, false, Option, none, some, ◌+◌, ◌*◌, ◌/◌, ◌-◌, min, ◌||◌, ◌==◌,
}
use wickra_exchange.Prelude.Int.{ℤ, pos, pos_part}
use wickra_exchange.Prelude.Word.{i64_half}
use wickra_exchange.Prelude.Text.{Text}
use wickra_exchange.Error.{Duration, Result, ok, err, is_retryable}
use wickra_exchange.RateLimiter.{
  WeightedRateLimiter, Acquire, allowed, throttled, try_acquire, note_rate_limited,
}
use wickra_exchange.Retry.{Backoff, should_retry, jittered_delay_ms}
use wickra_exchange.Transport.{
  HttpMethod, get, post, put, patch, delete, HttpRequest, HttpResponse, retry_after,
}

pub record World (W F : Type 0) : Type 0 where
  -- `inner.execute`
  pub send : HttpRequest → W → Result HttpResponse × W
  pub now_ms : W → ℤ × W
  pub sleep : Duration → W → W
  pub jitter : W → F × W
  pub weigh : HttpRequest → ℕ
  -- The `f64` arithmetic of `jittered_delay_ms` and of `retry_after`.
  pub scaled : ℕ → F → ℕ
  pub read_seconds : Text → Option Duration

-- The fields that a request reads or changes.
pub record ThrottledTransport : Type 0 where
  pub limiter : Option WeightedRateLimiter
  pub backoff : Backoff

unfoldable pub new : Backoff → ThrottledTransport
new backoff = record { limiter = none; backoff = backoff }

unfoldable pub from_millis : ℕ → Duration
from_millis n = n * 1_000_000

-- `i64::try_from(d.as_millis()).unwrap_or(i64::MAX)`
unfoldable pub as_millis : Duration → ℤ
as_millis d = pos (min (d / 1_000_000) (i64_half - 1))

unfoldable pub with_budget : ThrottledTransport → ℕ → Duration → ThrottledTransport
unfolding as_millis
with_budget t capacity window = record t {
  limiter = some (wickra_exchange.RateLimiter.new capacity (as_millis window));
}

-- `DEFAULT_COOL_OFF`, one second.
abbrev pub default_cool_off : Duration
default_cool_off = 1_000_000_000

-- `RATE_LIMIT_STATUSES.contains`
abbrev pub is_rate_limit_status : ℕ → Bool
is_rate_limit_status status = status == 429 || status == 418

unfoldable pub may_repeat : HttpMethod → Bool → Bool
may_repeat get refused = true
may_repeat _ refused = refused

unfoldable pub millis : ℤ → Duration
unfolding from_millis
millis value = from_millis (pos_part value)

-- `cool_off.is_some()`
abbrev pub is_some : Option Duration → Bool
is_some none = false
is_some (some _) = true

module _ {W F : Type 0} (sys : World W F) where
  -- The first `match` of the loop: `none` where it returns the outcome, else `cool_off`.
  unfoldable pub classify : Result HttpResponse → Option (Option Duration)
  classify (ok response) = elim (is_rate_limit_status response.status) [
    | true ↦ elim (retry_after sys.read_seconds response) [
      | none ↦ some (some default_cool_off)
      | some wait ↦ some (some wait)
    ]
    | false ↦ none
  ]
  classify (err e) = elim (is_retryable e) [ true ↦ some none | false ↦ none ]

  -- The `for` loop of `await_budget`, with the rounds that are left.
  unfoldable pub await_rounds : ℕ → ℕ → WeightedRateLimiter → W → WeightedRateLimiter × W
  unfolding millis
  await_rounds zero weight limiter w = (limiter, w)
  await_rounds (suc rounds) weight limiter w =
      let (now, w1) = sys.now_ms w in
      let (limiter', advice) = try_acquire limiter weight now in
      elim advice [
        | allowed ↦ (limiter', w1)
        | throttled retry_after_ms ↦
            await_rounds rounds weight limiter' (sys.sleep (millis retry_after_ms) w1)
      ]

  unfoldable pub await_budget : ThrottledTransport → HttpRequest → W → ThrottledTransport × W
  await_budget t request w = elim t.limiter [
    | none ↦ (t, w)
    | some limiter ↦
        let (limiter', w') =
          await_rounds (suc t.backoff.max_retries) (sys.weigh request) limiter w in
        (record t { limiter = some limiter' }, w')
  ]

  unfoldable pub note_cool_off : ThrottledTransport → Duration → W → ThrottledTransport × W
  unfolding as_millis
  note_cool_off t wait w = elim t.limiter [
    | none ↦ (t, w)
    | some limiter ↦
        let (now, w') = sys.now_ms w in
        (record t { limiter = some (note_rate_limited limiter (as_millis wait) now) }, w')
  ]

  -- `if let Some(wait) = cool_off`
  unfoldable pub heed : ThrottledTransport → Option Duration → W → ThrottledTransport × W
  unfolding note_cool_off
  heed t none w = (t, w)
  heed t (some wait) w = note_cool_off t wait w

  -- `cool_off.unwrap_or_else`
  unfoldable pub delay_after : ThrottledTransport → Option Duration → ℕ → W → Duration × W
  unfolding from_millis
  delay_after t none attempt w =
      let (r, w') = sys.jitter w in
      (from_millis (jittered_delay_ms sys.scaled t.backoff attempt r), w')
  delay_after t (some wait) attempt w = (wait, w)

  -- The loop of `execute`; `none` where the fuel is used up.
  unfoldable pub execute_loop :
      ℕ
      → HttpRequest
      → ℕ
      → ThrottledTransport
      → W
      → Option (Result HttpResponse × ThrottledTransport × W)
  unfolding await_budget heed delay_after classify
  execute_loop zero request attempt t w = none
  execute_loop (suc fuel) request attempt t w =
      let (t1, w1) = await_budget t request w in
      let (outcome, w2) = sys.send request w1 in
      elim (classify outcome) [
        | none ↦ some (outcome, t1, w2)
        | some cool_off ↦
            let (t2, w3) = heed t1 cool_off w2 in
            elim (may_repeat request.method (is_some cool_off)) [
              | false ↦ some (outcome, t2, w3)
              | true ↦ elim (should_retry t2.backoff attempt) [
                | false ↦ some (outcome, t2, w3)
                | true ↦
                    let (delay, w4) = delay_after t2 cool_off attempt w3 in
                    execute_loop fuel request (suc attempt) t2 (sys.sleep delay w4)
              ]
            ]
      ]

  -- The fuel is one attempt more than the retries.
  unfoldable pub execute :
      ThrottledTransport → HttpRequest → W → Option (Result HttpResponse × ThrottledTransport × W)
  unfolding execute_loop
  execute t request w = execute_loop (suc t.backoff.max_retries) request 0 t w
