-- ===== src/Clock/Nonces.antt =====
-- The nonces that interleaved calls return.
use wickra_exchange.Prelude.{
  ℕ, suc, ◌≡◌, refl, ◌≤◌, ◌<◌, ◌+◌, Option, none, some, List, [], ◌∷◌, arith, ◌==◌, All, length,
  Option-cases, inl, inr, if_case,
}
use wickra_exchange.Prelude.Word.{add_u64, u64_mod}
use wickra_exchange.Clock.{
  NonceGenerator, NonceCall, NonceStep, load, exchange_fails, exchange, new_nonces, next_nonce,
  nonce_step, nonce_run, set_call,
}

-- The newest nonce, or the seed.
abbrev pub newest : ℕ → List ℕ → ℕ
newest start [] = start
newest start (n ∷ _) = n

-- Each nonce, newest first, is above the one before it, and the oldest above the seed.
abbrev pub IsIncreasing : ℕ → List ℕ → Type 0
IsIncreasing start [] = Unit
IsIncreasing start (n ∷ issued) = (newest start issued < n) × IsIncreasing start issued

-- The candidates of the calls that a step begins.
abbrev pub HasCandidate : ℕ → NonceStep → Type 0
HasCandidate bound (load _ candidate_ms _) = candidate_ms ≤ bound
HasCandidate bound _ = Unit

abbrev candidate_of : Option NonceCall → ℕ
candidate_of none = 0
candidate_of (some c) = c.candidate_ms

-- What holds after `n` more steps than the bound speaks of.
abbrev Holds : ℕ → ℕ → ℕ → NonceGenerator → Type 0
Holds start bound n g =
    (g.last ≡ newest start g.issued)
    × IsIncreasing start g.issued
    × (g.last ≤ bound + n)
    × ((i : ℕ) → candidate_of (g.calls i) ≤ bound)

set_call_bound :
    (calls : ℕ → Option NonceCall) (thread : ℕ) (c : Option NonceCall) (bound : ℕ)
    → ((i : ℕ) → candidate_of (calls i) ≤ bound)
    → candidate_of c ≤ bound
    → (i : ℕ) → candidate_of (set_call calls thread c i) ≤ bound
set_call_bound calls thread c bound h k i = ground (arith, h i)

candidate_within :
    (calls : ℕ → Option NonceCall) (thread : ℕ) (c : NonceCall) (bound : ℕ)
    → calls thread ≡ some c
    → ((i : ℕ) → candidate_of (calls i) ≤ bound)
    → c.candidate_ms ≤ bound
candidate_within calls thread c bound e h = ground (arith, h thread)

-- What a call returns lies above the value it saw, and within the room.
next_nonce_within :
    (c : NonceCall) (bound n : ℕ)
    → c.candidate_ms ≤ bound
    → c.prev ≤ bound + n
    → bound + n + 1 < u64_mod
    → (c.prev < next_nonce c) × (next_nonce c ≤ bound + n + 1)
unfolding next_nonce add_u64
next_nonce_within c bound n h k room = ground arith

step-Holds :
    (start bound n : ℕ) (g : NonceGenerator) (s : NonceStep)
    → Holds start bound n g
    → HasCandidate bound s
    → bound + n + 1 < u64_mod
    → Holds start bound (suc n) (nonce_step g s)
unfolding nonce_step add_u64
step-Holds start bound n g (load thread candidate_ms value) (h1, h2, h3, h4) c room = (
  h1,
  h2,
  omega arith,
  set_call_bound g.calls thread (some (record { candidate_ms = candidate_ms; prev = value })) bound
      h4 c,
)
step-Holds start bound n g (exchange_fails thread actual) (h1, h2, h3, h4) c room =
    elim (Option-cases (g.calls thread)) [
      | inl e ↦ rw (e, nonce_step) (h1, h2, omega arith, h4)
      | inr (call, e) ↦
          rw (e, nonce_step)
            (
              h1,
              h2,
              omega arith,
              set_call_bound g.calls thread (some (record call { prev = actual })) bound h4
                  (candidate_within g.calls thread call bound e h4),
            )
    ]
step-Holds start bound n g (exchange thread) (h1, h2, h3, h4) c room =
    elim (Option-cases (g.calls thread)) [
      | inl e ↦ rw (e, nonce_step) (h1, h2, omega arith, h4)
      | inr (call, e) ↦
          rw (e, nonce_step)
            (let within = candidate_within g.calls thread call bound e h4 in
              if_case (Holds start bound (suc n)) (g.last == call.prev) _ _
                (λ same. (
                  refl,
                  (ground (arith, next_nonce_within call bound n), h2),
                  ground (arith, next_nonce_within call bound n),
                  set_call_bound g.calls thread none bound h4 (omega arith),
                ))
                (λ other. (
                  h1,
                  h2,
                  omega arith,
                  set_call_bound g.calls thread (some (record call { prev = g.last })) bound h4
                      within,
                )))
    ]

run-Holds :
    (start bound n : ℕ) (g : NonceGenerator) (steps : List NonceStep)
    → Holds start bound n g
    → All (HasCandidate bound) steps
    → bound + n + length steps < u64_mod
    → Holds start bound (n + length steps) (nonce_run g steps)
unfolding nonce_run
run-Holds start bound n g [] h c room = ground (arith, h)
run-Holds start bound n g (s ∷ steps) h (c, cs) room =
    let ih =
      run-Holds start bound (suc n) (nonce_step g s) steps
        (step-Holds start bound n g s h c (omega arith)) cs (omega arith) in
    (ih.0, ih.1, omega arith, ih.3)

-- However the atomic operations of any number of threads are ordered, and whatever values their
-- loads and failed exchanges see, the nonces returned strictly increase from the seed on, as long
-- as the seed and the candidates leave room in a `u64` for one increment per operation.
pub issued-IsIncreasing :
    (start bound : ℕ) (steps : List NonceStep)
    → start ≤ bound
    → All (HasCandidate bound) steps
    → bound + length steps < u64_mod
    → IsIncreasing start (nonce_run (new_nonces start) steps).issued
unfolding new_nonces
issued-IsIncreasing start bound steps h cs room =
    (run-Holds start bound 0 (new_nonces start) steps (refl, tt, omega arith, λ i. omega arith) cs
      (omega arith)).1
