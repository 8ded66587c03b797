-- ===== src/Throttle/Repeats.antt =====
-- The times that the loop sends a request.
use wickra_exchange.Prelude.{
  ℕ, suc, zero, ◌≡◌, refl, ◌≤◌, ◌+◌, Bool, true, false, Option, none, some, List, [], ◌∷◌, arith,
  ◌||◌, ◌==◌, All, length, ◌⊎◌, inl, inr, ap, ◌∙◌, sym, Bool-cases, Option-cases,
}
use mathlib.Core.Path.{subst}
use wickra_exchange.Error.{Result, ok, err, is_retryable}
use wickra_exchange.RateLimiter.{WeightedRateLimiter, try_acquire, Acquire-cases}
use wickra_exchange.Retry.{should_retry}
use wickra_exchange.Transport.{HttpMethod, get, HttpRequest, HttpResponse}
use wickra_exchange.Throttle.{
  World, ThrottledTransport, classify, await_rounds, await_budget, note_cool_off, heed, delay_after,
  execute_loop, execute, may_repeat, is_some,
}

-- The world with a record of every outcome of the inner transport, newest first.
unfoldable pub recording : {W F : Type 0} → World W F → World (W × List (Result HttpResponse)) F
recording sys = record {
  send = λ request w. let (outcome, w') = sys.send request w.0 in (outcome, (w', outcome ∷ w.1));
  now_ms = λ w. let (now, w') = sys.now_ms w.0 in (now, (w', w.1));
  sleep = λ d w. (sys.sleep d w.0, w.1);
  jitter = λ w. let (r, w') = sys.jitter w.0 in (r, (w', w.1));
  weigh = sys.weigh;
  scaled = sys.scaled;
  read_seconds = sys.read_seconds;
}

-- Whether a request of this method that came out so may be sent again without a risk that it is
-- executed twice: the venue refused it, or it reads only and the failure is transient.
abbrev pub is_safe_again : HttpMethod → Result HttpResponse → Bool
is_safe_again method (ok response) = response.status == 429 || response.status == 418
is_safe_again get (err e) = is_retryable e
is_safe_again _ (err e) = false

-- The outcomes of one request, newest first, of which the newest is returned: all the others were
-- safe to send again, and the newest is not, or the retries are used up.
abbrev pub IsLog : ℕ → HttpMethod → Result HttpResponse → List (Result HttpResponse) → Type 0
IsLog retries method outcome [] = ⊥
IsLog retries method outcome (newest ∷ earlier) =
    (outcome ≡ newest)
    × All (λ o. is_safe_again method o ≡ true) earlier
    × (length earlier ≤ retries)
    × ((is_safe_again method newest ≡ false) ⊎ (length earlier ≡ retries))

is_log :
    (retries : ℕ) (method : HttpMethod) (outcome : Result HttpResponse)
    (earlier log : List (Result HttpResponse))
    → log ≡ outcome ∷ earlier
    → All (λ o. is_safe_again method o ≡ true) earlier
    → length earlier ≤ retries
    → (is_safe_again method outcome ≡ false) ⊎ (length earlier ≡ retries)
    → IsLog retries method outcome log
is_log retries method outcome earlier log e h n last = rw e (refl, h, n, last)

sent :
    {o : Result HttpResponse} {log earlier : List (Result HttpResponse)}
    → log ≡ earlier
    → o ∷ log ≡ o ∷ earlier
sent {o} e = ap (λ l. o ∷ l) e

module _ {W F : Type 0} (sys : World W F) where
  -- The record of a run of the loop.
  abbrev pub HasLog :
      ℕ
      → HttpMethod
      → Option (Result HttpResponse × ThrottledTransport × (W × List (Result HttpResponse)))
      → Type 0
  HasLog retries method none = ⊥
  HasLog retries method (some (outcome, t, w)) = IsLog retries method outcome w.1

  await_rounds_log :
      (rounds weight : ℕ) (l : WeightedRateLimiter) (w : W × List (Result HttpResponse))
      → (await_rounds (recording sys) rounds weight l w).1.1 ≡ w.1
  unfolding await_rounds recording
  await_rounds_log zero weight l w = refl
  await_rounds_log (suc rounds) weight l w =
      let (now, w0) = sys.now_ms w.0 in
      let (l', a) = try_acquire l weight now in
      elim (Acquire-cases a) [
        | inl e ↦ rw (e, await_rounds) refl
        | inr (r, e) ↦ rw (e, await_rounds) (await_rounds_log rounds weight l' _)
      ]

  await_budget_log :
      (t : ThrottledTransport) (request : HttpRequest) (w : W × List (Result HttpResponse))
      → let (t', w') = await_budget (recording sys) t request w in
        (w'.1 ≡ w.1) × (t'.backoff ≡ t.backoff)
  unfolding await_budget recording
  await_budget_log t request w = elim (Option-cases t.limiter) [
    | inl e ↦ ground (arith, e)
    | inr (l, e) ↦
        rw (e, await_budget)
          (await_rounds_log (suc t.backoff.max_retries) (sys.weigh request) l w, refl)
  ]

  heed_log :
      (t : ThrottledTransport) (c : Option ℕ) (w : W × List (Result HttpResponse))
      → let (t', w') = heed (recording sys) t c w in (w'.1 ≡ w.1) × (t'.backoff ≡ t.backoff)
  unfolding heed note_cool_off recording
  heed_log t none w = (refl, refl)
  heed_log t (some wait) w = ground arith

  delay_after_log :
      (t : ThrottledTransport) (c : Option ℕ) (n : ℕ) (w : W × List (Result HttpResponse))
      → (delay_after (recording sys) t c n w).1.1 ≡ w.1
  unfolding delay_after recording
  delay_after_log t none n w = refl
  delay_after_log t (some wait) n w = refl

  -- The code's two tests agree with the description.
  classify_safe :
      (method : HttpMethod) (outcome : Result HttpResponse) (c : Option ℕ)
      → classify (recording sys) outcome ≡ some c
      → may_repeat method (is_some c) ≡ is_safe_again method outcome
  unfolding classify may_repeat recording
  classify_safe method (ok response) c h = ground arith
  classify_safe method (err e) c h = ground arith

  classify_final :
      (method : HttpMethod) (outcome : Result HttpResponse)
      → classify (recording sys) outcome ≡ none
      → is_safe_again method outcome ≡ false
  unfolding classify recording
  classify_final method (ok response) h = ground arith
  classify_final get (err e) h = ground arith
  classify_final _ (err e) h = ground arith

  loop_log :
      (fuel attempt : ℕ) (request : HttpRequest) (t : ThrottledTransport)
      (w : W × List (Result HttpResponse))
      → fuel + attempt ≡ suc t.backoff.max_retries
      → attempt ≡ length w.1
      → attempt ≤ t.backoff.max_retries
      → All (λ o. is_safe_again request.method o ≡ true) w.1
      → HasLog t.backoff.max_retries request.method
          (execute_loop (recording sys) fuel request attempt t w)
  unfolding execute_loop should_retry recording
  loop_log zero attempt request t w f a m h = absurd (omega arith)
  loop_log (suc fuel) attempt request t w f a m h =
      let rec = recording sys in
      let (t1, w1) = await_budget rec t request w in
      let (log1, b1) = await_budget_log t request w in
      let (outcome, w2) = rec.send request w1 in
      elim (Option-cases (classify rec outcome)) [
        | inl e ↦
            rw (e, execute_loop)
              (is_log t.backoff.max_retries request.method outcome w.1 w2.1 (sent log1) h
                (omega arith) (inl (classify_final request.method outcome e)))
        | inr (c, e) ↦
            let (t2, w3) = heed rec t1 c w2 in
            let (log2, b2) = heed_log t1 c w2 in
            let agrees = classify_safe request.method outcome c e in
            let retries : t2.backoff.max_retries ≡ t.backoff.max_retries =
              ap (λ b. b.max_retries) (b2 ∙ b1) in
            elim (Bool-cases (may_repeat request.method (is_some c))) [
              | inr not_again ↦
                  rw (e, not_again, execute_loop)
                    (is_log t.backoff.max_retries request.method outcome w.1 w3.1 (log2 ∙ sent log1)
                      h (omega arith) (inl (sym agrees ∙ not_again)))
              | inl may ↦ elim (Bool-cases (should_retry t2.backoff attempt)) [
                | inr over ↦
                    rw (e, may, over, execute_loop)
                      (is_log t.backoff.max_retries request.method outcome w.1 w3.1
                        (log2 ∙ sent log1) h (omega arith) (inr (ground (arith, retries))))
                | inl again ↦
                    rw (e, may, again, execute_loop)
                      (let (delay, w4) = delay_after rec t2 c attempt w3 in
                        let log4 = delay_after_log t2 c attempt w3 ∙ log2 ∙ sent log1 in
                        let w5 = rec.sleep delay w4 in
                        let result = execute_loop rec fuel request (suc attempt) t2 w5 in
                        subst (λ r. HasLog r request.method result) retries
                          (loop_log fuel (suc attempt) request t2 w5 (ground (arith, retries))
                            (ap suc a ∙ sym (ap length log4)) (ground (arith, retries))
                            (subst (All (λ o. is_safe_again request.method o ≡ true)) (sym log4)
                              (sym agrees ∙ may, h))))
              ]
            ]
      ]

  -- A request always comes to an end, with the outcome of the last time it was sent. It is sent
  -- once more than the policy's retries at most. It was sent again only after outcomes that were
  -- safe to repeat: a status 429 or 418, or for a GET a transient failure; and where the returned
  -- outcome is itself safe to repeat, all the retries were used.
  pub execute_safe :
      (t : ThrottledTransport) (request : HttpRequest) (w : W)
      → HasLog t.backoff.max_retries request.method (execute (recording sys) t request (w, []))
  unfolding execute
  execute_safe t request w =
      loop_log (suc t.backoff.max_retries) 0 request t (w, []) (omega arith) refl (omega arith) tt
