-- ===== src/WsUtil/Outcomes.antt =====
-- What a reconnect leaves behind, on a network that records what is sent, and the polls after it.
use wickra_exchange.Prelude.{
  append_nil, append_assoc, ◌≡◌, refl, true, false, Option, none, some, List, [], ◌∷◌, ◌++◌, ◌⊎◌,
  inl, inr, ap, sym, ◌∙◌,
}
use wickra_exchange.Prelude.Text.{Text}
use wickra_exchange.Error.{ok, err, Result-cases}
use wickra_exchange.Events.{Event, disconnected, reconnected}
use wickra_exchange.WsUtil.{
  WsConnection, WsTransport, is_dropped, replay_messages, reopen, reconnect_if_dropped,
}
use wickra_exchange.WsUtil.Reopening.{TakesAll, RefusesOne, IsReopened, IsTold}

-- The network with a record of the frames that were sent without an error, oldest first.
unfoldable pub recording : {W C : Type 0} → WsConnection W C → WsConnection (W × List (C × Text)) C
recording conn = record {
  is_connected = λ w c. conn.is_connected w.0 c;
  recv = λ c w. let (r, w') = conn.recv c w.0 in (r, (w', w.1));
  send = λ c text w.
      let (r, w') = conn.send c text w.0 in
      (r, (w', elim r [ ok _ ↦ w.1 ++ ((c, text) ∷ []) | err _ ↦ w.1 ]));
}

unfoldable pub recording_transport :
    {W C : Type 0} → Option (WsTransport W C) → Option (WsTransport (W × List (C × Text)) C)
recording_transport none = none
recording_transport (some ws) =
    some (record { connect = λ url w. let (r, w') = ws.connect url w.0 in (r, (w', w.1)) })

-- Every message, on one connection.
abbrev pub all_on : {C : Type 0} → C → List Text → List (C × Text)
all_on c [] = []
all_on c (m ∷ ms) = (c, m) ∷ all_on c ms

module _ {W C : Type 0} (conn : WsConnection W C) where
  replay_log :
      (c : C) (ms : List Text) (w : W × List (C × Text))
      → let (sent, w') = replay_messages (recording conn) c ms w in
        ((sent ≡ false) × RefusesOne conn c ms w.0)
        ⊎ ((sent ≡ true) × TakesAll conn c ms w.0 × (w'.1 ≡ w.1 ++ all_on c ms))
  unfolding replay_messages recording
  replay_log c [] w = inr (refl, tt, sym (append_nil w.1))
  replay_log c (m ∷ ms) w =
      let (r, w1) = conn.send c m w.0 in
      elim (Result-cases r) [
        | inr (e, q) ↦ rw (q, replay_messages, recording) (inl (refl, inl (e, refl)))
        | inl (u, q) ↦
            rw (q, replay_messages)
              (let (_, w2) = (recording conn).send c m w in
                let logged : w2.1 ≡ w.1 ++ ((c, m) ∷ []) = rw (q, recording) refl in
                let ih = replay_log c ms w2 in
                elim ih [
                  | inl (cut, refused) ↦ inl (cut, inr (refl, refused))
                  | inr (whole, taken, log) ↦ inr (
                    whole,
                    (refl, taken),
                    log
                        ∙ ap (λ l. l ++ all_on c ms) logged
                        ∙ append_assoc w.1 ((c, m) ∷ []) (all_on c ms),
                  )
                ])
      ]

-- The frames that a reconnect has to have sent where it ends with a connection: every message once
-- and in order, on that connection, and no other.
abbrev pub IsSentOn : {C : Type 0} → List Text → Option C → List (C × Text) → Type 0
IsSentOn ms none sent = Unit
IsSentOn ms (some c) sent = sent ≡ all_on c ms

module _ {D W C : Type 0} (conn : WsConnection W C) where
  reopen_log :
      (ws : Option (WsTransport W C)) (url : Text) (ms : List Text) (events : List (Event D))
      (w : W)
      → let (c, after, w') =
          reopen
            (recording conn)
            (recording_transport ws)
            url
            ms
            (events ++ (disconnected ∷ []))
            (w, []) in
        IsReopened conn ws url ms w c × IsTold events c after × IsSentOn ms c w'.1
  unfolding reopen recording_transport
  reopen_log none url ms events w = (tt, refl, tt)
  reopen_log (some ws) url ms events w =
      let (r, w1) = ws.connect url w in
      elim (Result-cases r) [
        | inr (e, q) ↦ rw (q, reopen) (inl (e, q), refl, tt)
        | inl (fresh, q) ↦ elim (replay_log conn fresh ms (w1, [])) [
          | inl (cut, refused) ↦ rw (q, reopen, cut) (inr (fresh, q, refused), refl, tt)
          | inr (whole, taken, log) ↦
              rw (q, reopen, whole)
                ((q, taken), append_assoc events (disconnected ∷ []) (reconnected ∷ []), log)
        ]
      ]

  -- A stream with subscriptions that the peer has closed: the transport is asked for a fresh
  -- connection. Where it opens one and every subscription is sent on it without an error, the client
  -- has that connection, the events are followed by `Disconnected` and `Reconnected`, and every
  -- subscription was sent on it, once and in order. Where there is no transport, it does not
  -- connect, or a subscription is refused, the client has no connection, and only `Disconnected`
  -- follows the events.
  pub reconnect_if_dropped_lem :
      (ws : Option (WsTransport W C)) (url : Text) (old : C) (m : Text) (ms : List Text)
      (events : List (Event D)) (w : W)
      → conn.is_connected w old ≡ false
      → let (c, after, w') =
          reconnect_if_dropped
            (recording conn)
            (recording_transport ws)
            url
            (some old)
            (m ∷ ms)
            events
            (w, []) in
        IsReopened conn ws url (m ∷ ms) w c × IsTold events c after × IsSentOn (m ∷ ms) c w'.1
  unfolding reconnect_if_dropped is_dropped recording
  reconnect_if_dropped_lem ws url old m ms events w h =
      rw (h, reconnect_if_dropped) (reopen_log ws url (m ∷ ms) events w)

  -- Polls with transports of their own, on a network that changes between them.
  unfoldable pub poll_times :
      List (Option (WsTransport W C) × (W → W))
      → Text
      → Option C
      → List Text
      → List (Event D)
      → W
      → Option C × List (Event D)
  poll_times [] url connection ms events w = (connection, events)
  poll_times ((ws, change) ∷ rest) url connection ms events w =
      let (c, after, w') = reconnect_if_dropped conn ws url connection ms events (change w) in
      poll_times rest url c ms after w'

  never_again :
      (later : List (Option (WsTransport W C) × (W → W))) (url : Text) (ms : List Text)
      (events : List (Event D)) (w : W)
      → poll_times later url none ms events w ≡ (none, events)
  unfolding poll_times reconnect_if_dropped is_dropped
  never_again [] url ms events w = refl
  never_again ((ws, change) ∷ rest) url ms events w = never_again rest url ms events (change w)

  -- Once a reconnect has failed it is never tried again: however often the stream is polled, and
  -- even if the transport would connect by then, there is no connection and no further event.
  pub failed_reconnect_stays :
      (ws : Option (WsTransport W C)) (url : Text) (connection : Option C) (ms : List Text)
      (events : List (Event D)) (w : W) (later : List (Option (WsTransport W C) × (W → W)))
      → (reconnect_if_dropped conn ws url connection ms events w).0 ≡ none
      → let (c, after, w') = reconnect_if_dropped conn ws url connection ms events w in
        poll_times later url c ms after w' ≡ (none, after)
  failed_reconnect_stays ws url connection ms events w later h =
      let (c, after, w') = reconnect_if_dropped conn ws url connection ms events w in
      rw h (never_again later url ms after w')
