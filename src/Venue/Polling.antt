-- ===== src/Venue/Polling.antt =====
-- Polling a stream, as every client's `poll_events` does: what is pending, then the reconnect.
use wickra_exchange.Prelude.{
  ℕ, ◌≡◌, refl, ap, true, false, Bool-cases, Option, none, some, List, [], ◌∷◌, ◌<◌, ◌⊎◌, inl, inr,
  length,
}
use wickra_exchange.Prelude.Text.{Text}
use wickra_exchange.Events.{Event}
use wickra_exchange.WsUtil.{WsTransport, WsConnection, is_dropped, reconnect_if_dropped}
use wickra_exchange.WsUtil.Reopening.{IsReopened, IsTold, reopen_lem}
use wickra_exchange.Venue.Stream.{drain, drain_lem, Pending, events_of}

module _ {D W C : Type 0} (conn : WsConnection W C) (events_in : Text → List (Event D)) where
  -- The frames that are pending, by `drain` on fuel.
  unfoldable pub pending_events : ℕ → Option C → W → Option (List (Event D) × W)
  unfolding drain
  pending_events fuel none w = some ([], w)
  pending_events fuel (some connection) w = drain conn events_in fuel connection [] w

  -- The connection that is left, the events and the world; `none` where the fuel is used up.
  unfoldable pub poll :
      Option (WsTransport W C)
      → Text
      → List Text
      → ℕ
      → Option C
      → W
      → Option (Option C × List (Event D) × W)
  unfolding pending_events reconnect_if_dropped
  poll ws url messages fuel connection w = elim (pending_events fuel connection w) [
    | none ↦ none
    | some (events, after) ↦
        some (reconnect_if_dropped conn ws url connection messages events after)
  ]

module _ {D W C : Type 0} (conn : WsConnection W C) where
  -- The end of a poll behind its frames. A client with no subscriptions keeps its connection, and
  -- nothing is done; so does one whose stream is up. A stream with subscriptions that is closed is
  -- opened again as `IsReopened` asks, and that is told behind the events.
  abbrev pub IsEnded :
      Option (WsTransport W C)
      → Text
      → C
      → List Text
      → List (Event D)
      → W
      → Option C × List (Event D) × W
      → Type 0
  IsEnded ws url old [] events w ended = ended ≡ (some old, events, w)
  IsEnded ws url old (m ∷ ms) events w ended =
      let (left, all, w') = ended in
      ((conn.is_connected w old ≡ true) × (ended ≡ (some old, events, w)))
      ⊎ ((conn.is_connected w old ≡ false)
          × IsReopened conn ws url (m ∷ ms) w left
          × IsTold events left all)

  reconnect_if_dropped-IsEnded :
      (ws : Option (WsTransport W C)) (url : Text) (old : C) (ms : List Text)
      (events : List (Event D)) (w : W)
      → IsEnded ws url old ms events w (reconnect_if_dropped conn ws url (some old) ms events w)
  unfolding reconnect_if_dropped is_dropped
  reconnect_if_dropped-IsEnded ws url old [] events w =
      elim (Bool-cases (conn.is_connected w old)) [
        | inl up ↦ rw (up, reconnect_if_dropped) refl
        | inr down ↦ rw (down, reconnect_if_dropped) refl
      ]
  reconnect_if_dropped-IsEnded ws url old (m ∷ ms) events w =
      elim (Bool-cases (conn.is_connected w old)) [
        | inl up ↦ rw (up, reconnect_if_dropped) (inl (refl, refl))
        | inr down ↦
            rw (down, reconnect_if_dropped)
              (let (opened, told) = reopen_lem conn ws url (m ∷ ms) events w in
                inr (refl, opened, told))
      ]

module _ {D W C : Type 0} (conn : WsConnection W C) (events_in : Text → List (Event D)) where
  -- With fuel for the frames that are pending, a poll of an open connection ends.
  pub poll_lem :
      (ws : Option (WsTransport W C)) (url : Text) (messages : List Text) (fuel : ℕ)
      (connection : C) (frames : List Text) (w after : W)
      → Pending conn events_in connection frames w after
      → length frames < fuel
      → (ended : Option C × List (Event D) × W) × (poll conn events_in ws url messages fuel
            (some connection)
            w
          ≡ some ended)
        × IsEnded conn ws url connection messages (events_of conn events_in frames) after ended
  unfolding poll pending_events
  poll_lem ws url messages fuel connection frames w after h n =
      let events = events_of conn events_in frames in
      (
        reconnect_if_dropped conn ws url (some connection) messages events after,
        ap
            (λ p. elim p [
              | none ↦ none
              | some (l, v) ↦ some (reconnect_if_dropped conn ws url (some connection) messages l v)
            ])
            (drain_lem conn events_in fuel connection frames [] w after h n),
        reconnect_if_dropped-IsEnded conn ws url connection messages events after,
      )
