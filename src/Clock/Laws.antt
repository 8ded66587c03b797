-- ===== src/Clock/Laws.antt =====
-- The server clock after a sync, and the switch after heartbeats.
use wickra_exchange.Prelude.{◌≡◌, refl, true, false, List, [], ◌∷◌, arith, ◌↔◌, ◌∙◌}
use wickra_exchange.Prelude.Int.{ℤ, ◌+ℤ◌, ◌-ℤ◌, ◌≤ℤ◌, int_laws}
use wickra_exchange.Prelude.Word.{IsI64, add_i64_exact, sub_i64_exact}
use wickra_exchange.Clock.{
  ServerClock, sync, server_time_ms, DeadMansSwitch, heartbeat, is_expired, is_armed, disarm,
}

-- After a sync at `(local, server)`, a local time that has moved on by some number of
-- milliseconds is the server's time moved on by the same number, where the offset and the result
-- fit an `i64`.
pub server_time_ms-sync :
    (c : ServerClock) (local_ms server_ms elapsed : ℤ)
    → IsI64 (server_ms -ℤ local_ms)
    → IsI64 (server_ms +ℤ elapsed)
    → server_time_ms (sync c local_ms server_ms) (local_ms +ℤ elapsed) ≡ server_ms +ℤ elapsed
unfolding server_time_ms sync
server_time_ms-sync c local_ms server_ms elapsed h k =
    let moved : local_ms +ℤ elapsed +ℤ (server_ms -ℤ local_ms) ≡ server_ms +ℤ elapsed =
      omega int_laws in
    rw (sub_i64_exact server_ms local_ms h)
      (add_i64_exact (local_ms +ℤ elapsed) (server_ms -ℤ local_ms) (rw moved k) ∙ moved)

-- The heartbeats of a run, then one look at the switch.
unfoldable pub beats : DeadMansSwitch → List ℤ → DeadMansSwitch
beats s [] = s
beats s (now_ms ∷ rest) = beats (heartbeat s now_ms) rest

beats_timeout : (s : DeadMansSwitch) (h : List ℤ) → (beats s h).timeout_ms ≡ s.timeout_ms
unfolding beats heartbeat
beats_timeout s [] = refl
beats_timeout s (t ∷ rest) = beats_timeout (heartbeat s t) rest

-- After any heartbeats of which `at_ms` is the last, the switch is armed, and it is expired exactly
-- from one timeout after `at_ms` on, however late the earlier heartbeats were, where the deadline
-- fits an `i64`; once disarmed it is neither.
pub is_expired-heartbeat :
    (s : DeadMansSwitch) (earlier : List ℤ) (at_ms now_ms : ℤ)
    → IsI64 (at_ms +ℤ s.timeout_ms)
    → let after = heartbeat (beats s earlier) at_ms in
      (is_armed after ≡ true)
      × ((is_expired after now_ms ≡ true) ↔ (at_ms +ℤ s.timeout_ms ≤ℤ now_ms))
      × (is_armed (disarm after) ≡ false)
      × (is_expired (disarm after) now_ms ≡ false)
unfolding heartbeat is_armed is_expired disarm
is_expired-heartbeat s earlier at_ms now_ms h =
    ground (arith, beats_timeout s earlier, add_i64_exact at_ms s.timeout_ms h)
