-- ===== src/WsUtil/Tests.antt =====
-- A network with one closed stream.
use wickra_exchange.Prelude.{ℕ, ◌≡◌, refl, none, some, [], ◌∷◌, ◌==◌}
use wickra_exchange.Prelude.Int.{ℤ}
use wickra_exchange.Prelude.Text.{codes}
use wickra_exchange.Error.{ok, err, timeout}
use wickra_exchange.WsUtil.{WsConnection, WsTransport, is_dropped, reopen, reconnect_if_dropped}
use wickra_exchange.WsUtil.Outcomes.{
  recording, recording_transport, IsSentOn, poll_times, reconnect_if_dropped_lem,
  failed_reconnect_stays,
}
use wickra_exchange.WsUtil.Reopening.{IsReopened, IsTold}

-- A handle is a number, and the state is the number of the open stream.
abbrev streams : WsConnection ℕ ℕ
streams = record {
  is_connected = λ w c. w == c;
  send = λ c text w. (ok tt, w);
  recv = λ c w. (ok none, w);
}

abbrev opens : WsTransport ℕ ℕ
opens = record { connect = λ url w. (ok w, w) }

abbrev refuses : WsTransport ℕ ℕ
refuses = record { connect = λ url w. (err timeout, w) }

reconnect_if_dropped_lem_example :
    let (c, after, w') =
      reconnect_if_dropped {D = ℤ}
        (recording streams)
        (recording_transport (some opens))
        (codes "wss://x")
        (some 0)
        (codes "sub" ∷ [])
        []
        (7, []) in
    IsReopened streams (some opens) (codes "wss://x") (codes "sub" ∷ []) 7 c
    × IsTold [] c after
    × IsSentOn (codes "sub" ∷ []) c w'.1
reconnect_if_dropped_lem_example =
    reconnect_if_dropped_lem streams (some opens) (codes "wss://x") 0 (codes "sub") [] [] 7 refl

-- The second poll could connect, and does not.
failed_reconnect_stays_example :
    let (c, after, w') =
      reconnect_if_dropped {D = ℤ} streams
        (some refuses)
        (codes "wss://x")
        (some 0)
        (codes "sub" ∷ [])
        []
        7 in
    poll_times streams ((some opens, λ w. w) ∷ []) (codes "wss://x") c (codes "sub" ∷ []) after w'
    ≡ (none, after)
unfolding reconnect_if_dropped is_dropped reopen
failed_reconnect_stays_example =
    failed_reconnect_stays streams (some refuses) (codes "wss://x") (some 0) (codes "sub" ∷ []) [] 7
      ((some opens, λ w. w) ∷ []) refl
