-- ===== src/RateLimiter/Budget.antt =====
-- Requests against the budget of a window.
use wickra_exchange.Prelude.{
  ℕ, ◌≡◌, ◌≤◌, ◌<◌, ◌+◌, Bool, true, false, Option, none, some, if◌then◌else◌, List, [], ◌∷◌, arith,
  All, All-imp,
}
use wickra_exchange.Prelude.Int.{ℤ, ltb_ℤ}
use wickra_exchange.Prelude.Word.{add_u32, u32_mod, add_i64}
use wickra_exchange.RateLimiter.{WeightedRateLimiter, Acquire, allowed, throttled, try_acquire}

-- What the window had used when a request came: nothing, where it is the first one or comes at or
-- behind the end of the window.
abbrev pub used_at : WeightedRateLimiter → ℤ → Option ℤ → ℕ
used_at l now_ms none = 0
used_at l now_ms (some start) = if ltb_ℤ now_ms (add_i64 start l.window_ms) then l.used else 0

-- A cool-off is in force.
abbrev pub is_cooling : ℤ → Option ℤ → Bool
is_cooling now_ms none = false
is_cooling now_ms (some until) = ltb_ℤ now_ms until

-- The count that a request with this weight and answer has to leave.
abbrev pub count_after : WeightedRateLimiter → ℤ → ℕ → Acquire → ℕ
count_after l now_ms weight allowed = add_u32 (used_at l now_ms l.window_start_ms) weight
count_after l now_ms weight (throttled _) =
    if is_cooling now_ms l.banned_until_ms then l.used else used_at l now_ms l.window_start_ms

-- Whatever the times, the window and the cool-off are: an admitted request adds its weight, modulo
-- 2^32, to what its window had used, which is nothing in a new window; a refusal charges nothing: in
-- a cool-off the count is the one before it, and else what its window had used. A count within the
-- capacity stays there (where the sum wraps around it is the count that is within, not the weight
-- admitted), and the capacity and the length of the window never change.
pub try_acquire_within :
    (l : WeightedRateLimiter) (weight : ℕ) (now_ms : ℤ)
    → l.used ≤ l.capacity
    → let (l', a) = try_acquire l weight now_ms in
      (l'.used ≤ l'.capacity)
      × (l'.capacity ≡ l.capacity)
      × (l'.window_ms ≡ l.window_ms)
      × (l'.used ≡ count_after l now_ms weight a)
unfolding try_acquire add_u32
try_acquire_within l weight now_ms h = ground arith

-- The weight that an answer admits.
abbrev pub admitted : ℕ → Acquire → ℕ
admitted weight allowed = weight
admitted weight (throttled _) = 0

-- A run of requests, with the total weight admitted.
unfoldable pub run : WeightedRateLimiter → List (ℕ × ℤ) → ℕ → WeightedRateLimiter × ℕ
run l [] total = (l, total)
run l ((weight, now_ms) ∷ rest) total =
    let (l', a) = try_acquire l weight now_ms in run l' rest (total + admitted weight a)

-- A request whose time lies in the window that began at `start`, and whose weight does not
-- overflow on top of a full budget.
abbrev pub IsWithin : ℤ → WeightedRateLimiter → ℕ × ℤ → Type 0
IsWithin start l (weight, now_ms) =
    (ltb_ℤ now_ms (add_i64 start l.window_ms) ≡ true) × (l.capacity + weight < u32_mod)

IsWithin-same :
    (start : ℤ) (l l' : WeightedRateLimiter)
    → l'.capacity ≡ l.capacity
    → l'.window_ms ≡ l.window_ms
    → (request : ℕ × ℤ) → IsWithin start l request
    → IsWithin start l' request
IsWithin-same start l l' c w (weight, now_ms) h = ground arith

-- One request in the window: the charge is what was admitted, and the window stays.
charge_in_window :
    (l : WeightedRateLimiter) (weight : ℕ) (now_ms start : ℤ)
    → l.window_start_ms ≡ some start
    → l.used ≤ l.capacity
    → IsWithin start l (weight, now_ms)
    → let (l', a) = try_acquire l weight now_ms in
      (l'.used ≡ l.used + admitted weight a)
      × (l'.window_start_ms ≡ some start)
      × (l'.used ≤ l'.capacity)
      × (l'.capacity ≡ l.capacity)
      × (l'.window_ms ≡ l.window_ms)
unfolding try_acquire add_u32
charge_in_window l weight now_ms start s u h = ground arith

-- Over a run of requests whose times fall into the window that is open at its start, where capacity
-- and weight of each request sum to less than 2^32 and the count is within the capacity at the
-- start: the weights admitted, on top of what the window had used, add up to the limiter's count,
-- and that is at most the capacity.
pub run_within :
    (l : WeightedRateLimiter) (requests : List (ℕ × ℤ)) (start : ℤ) (total : ℕ)
    → l.window_start_ms ≡ some start
    → l.used ≤ l.capacity
    → All (IsWithin start l) requests
    → let (l', sum) = run l requests total in
      (sum + l.used ≡ total + l'.used) × (l'.used ≤ l.capacity)
unfolding run
run_within l [] start total s u h = omega arith
run_within l ((weight, now_ms) ∷ rest) start total s u (h, hs) =
    let (l', a) = try_acquire l weight now_ms in
    let (charged, s', u', c', w') = charge_in_window l weight now_ms start s u h in
    let ih =
      run_within l' rest start (total + admitted weight a) s' u'
        (All-imp (IsWithin-same start l l' c' w') rest hs) in
    ground arith

-- Where the sum of the used and the asked weight wraps around `u32` to at most the capacity, a
-- request that is heavier than the whole budget is admitted, and the count falls.
pub try_acquire_overflow :
    (l : WeightedRateLimiter) (weight : ℕ) (now_ms start : ℤ)
    → l.banned_until_ms ≡ none
    → l.window_start_ms ≡ some start
    → ltb_ℤ now_ms (add_i64 start l.window_ms) ≡ true
    → weight < u32_mod
    → l.used ≤ l.capacity
    → l.capacity < weight
    → u32_mod ≤ l.used + weight
    → let (l', a) = try_acquire l weight now_ms in (a ≡ allowed) × (l'.used < l.used)
unfolding try_acquire add_u32
try_acquire_overflow l weight now_ms start b s w lt u big wraps = ground arith
