-- ===== src/Clock/Tests.antt =====
-- Clocks, switches and nonces at concrete times.
use wickra_exchange.Prelude.{◌≡◌, ◌↔◌, true, false, none, List, [], ◌∷◌, arith}
use wickra_exchange.Prelude.Int.{pos, ◌+ℤ◌, ◌-ℤ◌, ◌≤ℤ◌}
use wickra_exchange.Clock.{
  sync, server_time_ms, DeadMansSwitch, heartbeat, is_armed, is_expired, disarm, NonceStep, load,
  exchange, exchange_fails, new_nonces, nonce_run,
}
use wickra_exchange.Clock.Laws.{beats, server_time_ms-sync, is_expired-heartbeat}
use wickra_exchange.Clock.Nonces.{IsIncreasing, issued-IsIncreasing}

server_time_ms-sync_example :
    server_time_ms (sync (record { offset_ms = pos 7 }) (pos 5000) (pos 4900)) (pos 5000 +ℤ pos 10)
    ≡ pos 4900 +ℤ pos 10
unfolding ◌-ℤ◌ ◌+ℤ◌
server_time_ms-sync_example =
    server_time_ms-sync (record { offset_ms = pos 7 }) (pos 5000) (pos 4900) (pos 10)
      (omega arith, omega arith) (omega arith, omega arith)

abbrev switch : DeadMansSwitch
switch = record { timeout_ms = pos 1000; deadline_ms = none }

is_expired-heartbeat_example :
    let after = heartbeat (beats switch (pos 9000 ∷ [])) (pos 500) in
    (is_armed after ≡ true)
    × ((is_expired after (pos 1500) ≡ true) ↔ (pos 500 +ℤ pos 1000 ≤ℤ pos 1500))
    × (is_armed (disarm after) ≡ false)
    × (is_expired (disarm after) (pos 1500) ≡ false)
unfolding ◌+ℤ◌
is_expired-heartbeat_example =
    is_expired-heartbeat switch (pos 9000 ∷ []) (pos 500) (pos 1500) (omega arith, omega arith)

-- Two threads load the same value; the second exchange fails once and is repeated.
abbrev race : List NonceStep
race =
    load 1 1000 0
    ∷ load 2 1000 0
    ∷ exchange 1
    ∷ exchange 2
    ∷ exchange_fails 2 1000
    ∷ exchange 2
    ∷ []

issued-IsIncreasing_example : IsIncreasing 0 (nonce_run (new_nonces 0) race).issued
issued-IsIncreasing_example =
    issued-IsIncreasing 0 1000 race (omega arith)
      (omega arith, (omega arith, (tt, (tt, (tt, (tt, tt)))))) (omega arith)
