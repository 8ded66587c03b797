-- ===== src/WsUtil.antt =====
-- Reconnect and resubscribe, crates/wickra-exchange-core/src/wsutil.rs, over the WebSocket traits
-- of crates/wickra-exchange-core/src/transport.rs, which act on a network of any kind `W` through
-- handles `C`. Logging is left out.
pub mod Reopening
pub mod Outcomes
mod Tests
use wickra_exchange.Prelude.{
  Bool, true, false, not, ◌||◌, Option, none, some, List, [], ◌∷◌, ◌++◌, if◌then◌else◌,
}
use wickra_exchange.Prelude.Text.{Text}
use wickra_exchange.Error.{Result, ok, err}
use wickra_exchange.Events.{Event, disconnected, reconnected}

-- The operations of `WsConnection` that the clients call.
pub record WsConnection (W C : Type 0) : Type 0 where
  pub is_connected : W → C → Bool
  pub send : C → Text → W → Result (Unit {0}) × W
  -- The next frame, or nothing where none is pending or the peer has closed the stream.
  pub recv : C → W → Result (Option Text) × W

pub record WsTransport (W C : Type 0) : Type 0 where
  pub connect : Text → W → Result C × W

abbrev pub is_empty : List Text → Bool
is_empty [] = true
is_empty (_ ∷ _) = false

module _ {W C : Type 0} (conn : WsConnection W C) where
  -- `connection.as_ref().is_some_and(|c| !c.is_connected())`
  unfoldable pub is_dropped : W → Option C → Bool
  is_dropped w none = false
  is_dropped w (some c) = not (conn.is_connected w c)

  -- The loop over the subscriptions, which ends at the first that is not sent.
  unfoldable pub replay_messages : C → List Text → W → Bool × W
  replay_messages fresh [] w = (true, w)
  replay_messages fresh (message ∷ rest) w =
      let (r, w') = conn.send fresh message w in
      elim r [ ok _ ↦ replay_messages fresh rest w' | err _ ↦ (false, w') ]

module _ {D W C : Type 0} (conn : WsConnection W C) where
  -- The part behind the `Disconnected` event; `events` has that event already.
  unfoldable pub reopen :
      Option (WsTransport W C)
      → Text
      → List Text
      → List (Event D)
      → W
      → Option C × List (Event D) × W
  unfolding replay_messages
  reopen none url messages events w = (none, events, w)
  reopen (some ws) url messages events w =
      let (r, w1) = ws.connect url w in
      elim r [
        | err _ ↦ (none, events, w1)
        | ok fresh ↦
            let (sent, w2) = replay_messages conn fresh messages w1 in
            elim sent [
              | false ↦ (none, events, w2)
              | true ↦ (some fresh, events ++ (reconnected ∷ []), w2)
            ]
      ]

  unfoldable pub reconnect_if_dropped :
      Option (WsTransport W C)
      → Text
      → Option C
      → List Text
      → List (Event D)
      → W
      → Option C × List (Event D) × W
  unfolding is_dropped reopen
  reconnect_if_dropped ws url connection subscribe_messages events w =
      if not (is_dropped conn w connection) || is_empty subscribe_messages
      then (connection, events, w)
      else reopen ws url subscribe_messages (events ++ (disconnected ∷ [])) w
