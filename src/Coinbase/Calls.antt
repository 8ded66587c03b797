-- ===== src/Coinbase/Calls.antt =====
-- The Coinbase client's calls, crates/wickra-exchange-core/src/exchanges/coinbase.rs.
use wickra_exchange.Prelude.{ℕ, Option, none, some, List, [], ◌∷◌, ◌++◌}
use wickra_exchange.Prelude.Int.{pos, ◌*ℤ◌}
use wickra_exchange.Prelude.Word.{wrap, sub_i64}
use wickra_exchange.Prelude.Text.{Text, codes, show}
use wickra_exchange.Decimal.{Decimal}
use wickra_exchange.Error.{ok, err}
use wickra_exchange.ClientIds.{next_id}
use wickra_exchange.Symbol.{Symbol}
use wickra_exchange.Types.{OrderRequest, Order, Balance, Ticker, validate}
use wickra_exchange.Events.{Event, OrderBookSnapshot}
use wickra_exchange.Platform.{Platform}
use wickra_exchange.Venue.{
  World, Call, pure, lift, ◌>>=◌, ◌>>◌, ensure_market_is_routed, show_ℤ, push_new, connect_if_none,
}
use wickra_exchange.Venue.Stream.{all_events}
use wickra_exchange.Venue.Polling.{poll}
use wickra_exchange.Coinbase.{
  wire_symbol, granularity, side_str, ensure_no_stp_inner, ensure_reduce_only_is_reducible,
}
use wickra_exchange.Coinbase.Orders.{configuration}
use wickra_exchange.Coinbase.Frames.{parse_ws_message}
use wickra_exchange.Coinbase.Replies.{
  ticker_reply, klines_reply, order_book_reply, query_order_reply, open_orders_reply,
  balances_reply, submit_reply,
}
use wickra_exchange.Coinbase.Client.{
  Coinbase, State, guard_market, local_now_ms, seconds, build_jwt, signed_get, signed_post,
  stream_url,
}

unfoldable pub subscribe_message : Text → Text → Text → Text
subscribe_message product channel jwt =
    codes "{\"type\":\"subscribe\",\"product_ids\":[\""
    ++ product
    ++ codes "\"],\"channel\":\""
    ++ channel
    ++ codes "\",\"jwt\":\""
    ++ jwt
    ++ codes "\"}"

module _ {W C : Type 0} (world : World W C) where
  unfoldable pub ensure_connection : Call (State W C) C
  unfolding connect_if_none
  ensure_connection (c, w) =
      let (r, w') = connect_if_none c.ws stream_url c.connection w in
      elim r [
        | err e ↦ (err e, (c, w'))
        | ok connection ↦ (ok connection, (record c { connection = some connection }, w'))
      ]

  -- The part of `subscribe` behind the connection.
  unfoldable pub send_subscription : Text → C → Call (State W C) (Unit {0})
  unfolding push_new
  send_subscription message connection (c, w) =
      let (r, w') = (world.stream).send connection message w in
      elim r [
        | err e ↦ (err e, (c, w'))
        | ok _ ↦ (ok tt, (record c { sub_messages = push_new c.sub_messages message }, w'))
      ]

-- The order's own id, or the next one of the generator.
unfoldable pub order_id_for : {W C : Type 0} → Option Text → Call (State W C) Text
unfolding next_id
order_id_for (some id) s = (ok id, s)
order_id_for none (c, w) =
    let (client_ids, id) = next_id c.client_ids in
    (ok id, (record c { client_ids = client_ids }, w))

module _ {D W C : Type 0} where
  abbrev pub left_by_poll :
      Coinbase W C → Option (Option C × List (Event D) × W) → Option (List (Event D) × State W C)
  left_by_poll c none = none
  left_by_poll c (some (connection, events, w)) =
      some (events, (record c { connection = connection }, w))

module _ {W C J D F K : Type 0} ⦃d : Decimal D⦄ (pf : Platform J D F K) (world : World W C) where
  unfoldable pub subscribe : Symbol → Text → Call (State W C) (Unit {0})
  unfolding ensure_connection send_subscription wire_symbol ensure_market_is_routed build_jwt
      subscribe_message
  subscribe symbol channel s =
      (guard_market >> build_jwt pf world none >>= λ jwt. ensure_connection world >>= λ connection.
      send_subscription world (subscribe_message (wire_symbol symbol) channel jwt) connection)
        s

  unfoldable pub subscribe_trades : Symbol → Call (State W C) (Unit {0})
  unfolding subscribe
  subscribe_trades symbol s = subscribe symbol (codes "market_trades") s

  unfoldable pub subscribe_book : Symbol → Call (State W C) (Unit {0})
  unfolding subscribe
  subscribe_book symbol s = subscribe symbol (codes "level2") s

  unfoldable pub subscribe_ticker : Symbol → Call (State W C) (Unit {0})
  unfolding subscribe
  subscribe_ticker symbol s = subscribe symbol (codes "ticker") s

  -- `none` where the fuel is used up.
  unfoldable pub poll_events : ℕ → State W C → Option (List (Event D) × State W C)
  unfolding poll all_events parse_ws_message
  poll_events fuel (c, w) = left_by_poll c (
      poll world.stream (all_events (parse_ws_message pf)) c.ws stream_url c.sub_messages fuel
        c.connection w)

  unfoldable pub ticker : Symbol → Call (State W C) (Ticker D)
  unfolding signed_get wire_symbol ticker_reply
  ticker symbol s =
      (signed_get pf world
            (codes "/api/v3/brokerage/products/" ++ wire_symbol symbol ++ codes "/ticker")
            (codes "limit=1")
          >>= λ value. lift (ticker_reply pf symbol value))
        s

  -- `limit` is a `u32`.
  abbrev pub candle_query : Text → ℕ → wickra_exchange.Prelude.Int.ℤ → Text
  candle_query interval limit now =
      let (name, step) = granularity interval in
      let end = seconds now in
      codes "granularity="
      ++ name
      ++ codes "&start="
      ++ show_ℤ (sub_i64 end (wrap (pos limit *ℤ step)))
      ++ codes "&end="
      ++ show_ℤ end

  unfoldable pub klines : Symbol → Text → ℕ → Call (State W C) (List K)
  unfolding signed_get wire_symbol granularity klines_reply local_now_ms seconds show_ℤ sub_i64 wrap
  klines symbol interval limit s =
      (local_now_ms world >>= λ now.
      signed_get pf world
        (codes "/api/v3/brokerage/products/" ++ wire_symbol symbol ++ codes "/candles")
        (candle_query interval limit now)
      >>= λ value. lift (klines_reply pf value))
        s

  unfoldable pub order_book : Symbol → ℕ → Call (State W C) (OrderBookSnapshot D)
  unfolding signed_get wire_symbol order_book_reply
  order_book symbol depth s =
      (signed_get pf world (codes "/api/v3/brokerage/product_book")
            (codes "product_id=" ++ wire_symbol symbol ++ codes "&limit=" ++ show depth)
          >>= λ value. lift (order_book_reply pf symbol value))
        s

  abbrev pub order_body : OrderRequest D → Text → J → Text
  order_body r client_order_id config = pf.show_json (
      pf.object (
        (codes "client_order_id", pf.text client_order_id)
        ∷ (codes "product_id", pf.text (wire_symbol r.symbol))
        ∷ (codes "side", pf.text (side_str r.side))
        ∷ (codes "order_configuration", config)
        ∷ []))

  unfoldable pub submit_order : OrderRequest D → Text → J → Call (State W C) (Order D)
  unfolding signed_post wire_symbol side_str submit_reply
  submit_order r client_order_id config s =
      (signed_post pf world (codes "/api/v3/brokerage/orders") (order_body r client_order_id config)
          >>= λ value. lift (submit_reply pf r client_order_id value))
        s

  unfoldable pub place_order : OrderRequest D → Call (State W C) (Order D)
  unfolding ensure_reduce_only_is_reducible validate order_id_for ensure_no_stp_inner configuration
      submit_order
  place_order r s =
      (lift (ensure_reduce_only_is_reducible r)
          >> lift (validate r)
          >> order_id_for r.client_order_id
          >>= λ client_order_id.
              lift (ensure_no_stp_inner r) >> lift (configuration pf r) >>= λ config.
              submit_order r client_order_id config)
        s

  unfoldable pub cancel_order : Symbol → Text → Call (State W C) (Unit {0})
  unfolding signed_post
  cancel_order _ order_id s =
      (signed_post pf world (codes "/api/v3/brokerage/orders/batch_cancel")
            (pf.show_json (pf.object ((codes "order_ids", pf.array (pf.text order_id ∷ [])) ∷ [])))
          >>= λ _. pure tt)
        s

  unfoldable pub query_order : Symbol → Text → Call (State W C) (Order D)
  unfolding signed_get query_order_reply
  query_order symbol order_id s =
      (signed_get pf world (codes "/api/v3/brokerage/orders/historical/" ++ order_id) []
          >>= λ value. lift (query_order_reply pf symbol order_id value))
        s

  abbrev pub open_orders_query : Option Symbol → Text
  open_orders_query none = codes "order_status=OPEN"
  open_orders_query (some symbol) =
      codes "order_status=OPEN" ++ codes "&product_id=" ++ wire_symbol symbol

  unfoldable pub open_orders : Option Symbol → Call (State W C) (List (Order D))
  unfolding signed_get wire_symbol open_orders_reply
  open_orders symbol s =
      (signed_get pf world (codes "/api/v3/brokerage/orders/historical/batch")
            (open_orders_query symbol)
          >>= λ value. lift (open_orders_reply pf symbol value))
        s

  unfoldable pub balances : Call (State W C) (List (Balance D))
  unfolding signed_get balances_reply
  balances s =
      (signed_get pf world (codes "/api/v3/brokerage/accounts") [] >>= λ value.
      lift (balances_reply pf value))
        s
