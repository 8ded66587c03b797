-- ===== src/Clock.antt =====
-- Time and nonces for signed requests, crates/wickra-exchange-core/src/clock.rs: the server clock,
-- the nonce generator as a machine whose steps are the threads' atomic operations, the lifetime
-- of a token; and the dead-man's switch, crates/wickra-exchange-core/src/deadman.rs.
pub mod Laws
pub mod Nonces
mod Tests
use wickra_exchange.Prelude.{
  ℕ, Bool, true, false, Option, none, some, List, [], ◌∷◌, max, ◌/◌, ◌==◌, if◌then◌else◌,
}
use wickra_exchange.Prelude.Int.{ℤ, pos, leb_ℤ}
use wickra_exchange.Prelude.Word.{add_u64, add_i64, sub_i64, wrap}
use wickra_exchange.Error.{Duration}

pub record ServerClock : Type 0 where
  pub offset_ms : ℤ

unfoldable pub sync : ServerClock → ℤ → ℤ → ServerClock
sync c local_ms server_ms = record c { offset_ms = sub_i64 server_ms local_ms }

unfoldable pub server_time_ms : ServerClock → ℤ → ℤ
server_time_ms c local_ms = add_i64 local_ms c.offset_ms

pub record TokenTtl : Type 0 where
  pub issued_at_ms : ℤ
  pub ttl_ms : ℤ

unfoldable pub expires_at_ms : TokenTtl → ℤ
expires_at_ms t = add_i64 t.issued_at_ms t.ttl_ms

unfoldable pub is_token_expired : TokenTtl → ℤ → Bool
unfolding expires_at_ms
is_token_expired t now_ms = leb_ℤ (expires_at_ms t) now_ms

-- A call of `NonceGenerator::next` between its load and its successful exchange.
pub record NonceCall : Type 0 where
  pub candidate_ms : ℕ
  pub prev : ℕ

-- The shared cell, the calls under way by thread, and the nonces returned so far, newest first.
pub record NonceGenerator : Type 0 where
  pub last : ℕ
  pub calls : ℕ → Option NonceCall
  pub issued : List ℕ

unfoldable pub new_nonces : ℕ → NonceGenerator
new_nonces start = record { last = start; calls = λ _. none; issued = [] }

-- The atomic operations. A relaxed load, and a weak exchange that fails, give some value of the
-- cell, which need not be the newest: the step carries it.
pub data NonceStep : Type 0 where
  load : (thread candidate_ms value : ℕ) → NonceStep
  exchange_fails : (thread actual : ℕ) → NonceStep
  exchange : (thread : ℕ) → NonceStep

abbrev pub set_call : (ℕ → Option NonceCall) → ℕ → Option NonceCall → ℕ → Option NonceCall
set_call calls thread c i = if i == thread then c else calls i

-- `candidate_ms.max(prev + 1)`
unfoldable pub next_nonce : NonceCall → ℕ
next_nonce c = max c.candidate_ms (add_u64 c.prev 1)

unfoldable pub nonce_step : NonceGenerator → NonceStep → NonceGenerator
unfolding next_nonce
nonce_step g (load thread candidate_ms value) = record g {
  calls = set_call g.calls thread (some (record { candidate_ms = candidate_ms; prev = value }));
}
nonce_step g (exchange_fails thread actual) = elim (g.calls thread) [
  | none ↦ g
  | some c ↦ record g { calls = set_call g.calls thread (some (record c { prev = actual })) }
]
nonce_step g (exchange thread) = elim (g.calls thread) [
  | none ↦ g
  | some c ↦
      if g.last == c.prev
      then record {
        last = next_nonce c;
        calls = set_call g.calls thread none;
        issued = next_nonce c ∷ g.issued;
      }
      else record g { calls = set_call g.calls thread (some (record c { prev = g.last })) }
]

unfoldable pub nonce_run : NonceGenerator → List NonceStep → NonceGenerator
nonce_run g [] = g
nonce_run g (s ∷ steps) = nonce_run (nonce_step g s) steps

pub record DeadMansSwitch : Type 0 where
  pub timeout_ms : ℤ
  pub deadline_ms : Option ℤ

-- `timeout.as_millis() as i64` wraps.
unfoldable pub new_switch : Duration → DeadMansSwitch
new_switch timeout = record { timeout_ms = wrap (pos (timeout / 1_000_000)); deadline_ms = none }

unfoldable pub heartbeat : DeadMansSwitch → ℤ → DeadMansSwitch
heartbeat s now_ms = record s { deadline_ms = some (add_i64 now_ms s.timeout_ms) }

unfoldable pub is_expired : DeadMansSwitch → ℤ → Bool
is_expired s now_ms = elim s.deadline_ms [ none ↦ false | some deadline ↦ leb_ℤ deadline now_ms ]

unfoldable pub is_armed : DeadMansSwitch → Bool
is_armed s = elim s.deadline_ms [ none ↦ false | some _ ↦ true ]

unfoldable pub disarm : DeadMansSwitch → DeadMansSwitch
disarm s = record s { deadline_ms = none }
