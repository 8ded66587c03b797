-- ===== src/WsUtil/Reopening.antt =====
-- The connection and the events that a reconnect has to end with, by what the transport and the
-- network answer, against `reopen` of crates/wickra-exchange-core/src/wsutil.rs.
use wickra_exchange.Prelude.{
  ◌≡◌, refl, true, false, Option, none, some, List, [], ◌∷◌, ◌++◌, ◌⊎◌, inl, inr, append_assoc,
}
use wickra_exchange.Prelude.Text.{Text}
use wickra_exchange.Error.{Error, ok, err, Result-cases}
use wickra_exchange.Events.{Event, disconnected, reconnected}
use wickra_exchange.WsUtil.{WsConnection, WsTransport, replay_messages, reopen}

module _ {W C : Type 0} (conn : WsConnection W C) where
  -- Every message is sent on the connection without an error, from this state of the network on.
  abbrev pub TakesAll : C → List Text → W → Type 0
  TakesAll c [] w = Unit
  TakesAll c (m ∷ ms) w = let (r, w1) = conn.send c m w in (r ≡ ok tt) × TakesAll c ms w1

  -- One of the messages meets an error, and those before it do not.
  abbrev pub RefusesOne : C → List Text → W → Type 0
  RefusesOne c [] w = ⊥
  RefusesOne c (m ∷ ms) w =
      let (r, w1) = conn.send c m w in
      ((e : Error) × (r ≡ err e)) ⊎ ((r ≡ ok tt) × RefusesOne c ms w1)

  -- The connection that a reconnect has to end with: the one that the transport opens, where every
  -- message is sent on it; none, where there is no transport, it does not connect, or one of the
  -- messages is refused.
  abbrev pub IsReopened : Option (WsTransport W C) → Text → List Text → W → Option C → Type 0
  IsReopened none url ms w none = Unit
  IsReopened none url ms w (some c) = ⊥
  IsReopened (some ws) url ms w none =
      let (r, w1) = ws.connect url w in
      ((e : Error) × (r ≡ err e)) ⊎ ((fresh : C) × (r ≡ ok fresh) × RefusesOne fresh ms w1)
  IsReopened (some ws) url ms w (some c) =
      let (r, w1) = ws.connect url w in (r ≡ ok c) × TakesAll c ms w1

-- What is told of it behind the events.
abbrev pub IsTold : {D C : Type 0} → List (Event D) → Option C → List (Event D) → Type 0
IsTold events none all = all ≡ events ++ (disconnected ∷ [])
IsTold events (some c) all = all ≡ events ++ (disconnected ∷ reconnected ∷ [])

module _ {W C : Type 0} (conn : WsConnection W C) where
  replay_messages_outcome :
      (c : C) (ms : List Text) (w : W)
      → let sent = (replay_messages conn c ms w).0 in
        ((sent ≡ false) × RefusesOne conn c ms w) ⊎ ((sent ≡ true) × TakesAll conn c ms w)
  unfolding replay_messages
  replay_messages_outcome c [] w = inr (refl, tt)
  replay_messages_outcome c (m ∷ ms) w =
      let (r, w1) = conn.send c m w in
      elim (Result-cases r) [
        | inr (e, q) ↦ rw (q, replay_messages) (inl (refl, inl (e, refl)))
        | inl (u, q) ↦
            rw (q, replay_messages)
              (elim (replay_messages_outcome c ms w1) [
                | inl (cut, refused) ↦ inl (cut, inr (refl, refused))
                | inr (whole, taken) ↦ inr (whole, (refl, taken))
              ])
      ]

module _ {D W C : Type 0} (conn : WsConnection W C) where
  pub reopen_lem :
      (ws : Option (WsTransport W C)) (url : Text) (ms : List Text) (events : List (Event D))
      (w : W)
      → let (c, all, w') = reopen conn ws url ms (events ++ (disconnected ∷ [])) w in
        IsReopened conn ws url ms w c × IsTold events c all
  unfolding reopen
  reopen_lem none url ms events w = (tt, refl)
  reopen_lem (some ws) url ms events w =
      let (r, w1) = ws.connect url w in
      elim (Result-cases r) [
        | inr (e, q) ↦ rw (q, reopen) (inl (e, q), refl)
        | inl (fresh, q) ↦ elim (replay_messages_outcome conn fresh ms w1) [
          | inl (cut, refused) ↦ rw (q, reopen, cut) (inr (fresh, q, refused), refl)
          | inr (whole, taken) ↦
              rw (q, reopen, whole)
                ((q, taken), append_assoc events (disconnected ∷ []) (reconnected ∷ []))
        ]
      ]
