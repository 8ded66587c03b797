-- ===== src/Upbit/Polling.antt =====
-- What a poll of the Upbit client returns.
use wickra_exchange.Prelude.{ℕ, ◌≡◌, ap, ◌∙◌, Option, some, List, ◌<◌, length}
use wickra_exchange.Prelude.Text.{Text}
use wickra_exchange.Decimal.{Decimal}
use wickra_exchange.Events.{Event}
use wickra_exchange.Platform.{Platform}
use wickra_exchange.Venue.{World}
use wickra_exchange.Venue.Stream.{Pending, events_of, one_event}
use wickra_exchange.Venue.Polling.{poll, poll_lem, IsEnded}
use wickra_exchange.Upbit.Client.{Upbit, stream_url}
use wickra_exchange.Upbit.Parse.{parse_ws_message}
use wickra_exchange.Upbit.Calls.{poll_events, left_by_poll}

module _ {W C J D F K : Type 0} ⦃d : Decimal D⦄ (pf : Platform J D F K) (world : World W C) where
  -- A poll of an open connection with fuel for the frames that are pending ends. It returns the
  -- events of those frames, in order. While the stream is up, or where nothing is subscribed, that
  -- is all: the client keeps its connection. A closed stream with subscriptions is opened again:
  -- the client has the connection that its transport opens, where every subscription is sent on it,
  -- and `Disconnected` and `Reconnected` stand behind the events; it has none, and only
  -- `Disconnected` stands there, where it has no transport, the transport does not connect, or one
  -- of the subscriptions is refused.
  pub poll_events_lem :
      (fuel : ℕ) (c : Upbit W C) (connection : C) (frames : List Text) (w after : W)
      → c.connection ≡ some connection
      → Pending world.stream (one_event (parse_ws_message pf)) connection frames w after
      → length frames < fuel
      → (left : Option C) × (all : List (Event D)) × (w' : W) × (poll_events pf world fuel (c, w)
          ≡ some (all, (record c { connection = left }, w')))
        × IsEnded world.stream c.ws stream_url connection c.sub_messages
            (events_of world.stream (one_event (parse_ws_message pf)) frames)
            after
            (left, all, w')
  unfolding poll_events
  poll_events_lem fuel c connection frames w after k h n =
      let events_in = one_event (parse_ws_message pf) in
      let ((left, all, w'), e, ended) =
        poll_lem world.stream events_in c.ws stream_url c.sub_messages fuel connection frames w
          after h n in
      (
        left,
        all,
        w',
        ap (left_by_poll c)
            (ap (λ o. poll world.stream events_in c.ws stream_url c.sub_messages fuel o w) k ∙ e),
        ended,
      )
