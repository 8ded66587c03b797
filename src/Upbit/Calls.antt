-- ===== src/Upbit/Calls.antt =====
-- The Upbit client's calls, crates/wickra-exchange-core/src/exchanges/upbit.rs.
use wickra_exchange.Prelude.{ℕ, Option, none, some, List, [], ◌∷◌, ◌++◌}
use wickra_exchange.Prelude.Text.{Text, codes, show}
use wickra_exchange.Prelude.Ord.{text_ord}
use wickra_exchange.Decimal.{Decimal}
use wickra_exchange.Error.{ok, err, unsupported_trigger, err_if}
use wickra_exchange.Symbol.{Symbol}
use wickra_exchange.Types.{OrderRequest, Order, Balance, Ticker, is_trigger, validate}
use wickra_exchange.Events.{Event, OrderBookSnapshot}
use wickra_exchange.Normalize.{format_decimal}
use wickra_exchange.Transport.{get, post, delete}
use wickra_exchange.Platform.{Platform}
use wickra_exchange.Venue.{
  World, Call, pure, lift, ◌>>=◌, ◌>>◌, ensure_market_is_routed, show_ℤ, push_new, connect_if_none,
}
use wickra_exchange.Venue.Stream.{one_event}
use wickra_exchange.Venue.Polling.{poll}
use wickra_exchange.Upbit.{wire_symbol, candle_path, side_str, ord_type_str, tif_str}
use wickra_exchange.Upbit.Parse.{order_from_value, parse_ws_message}
use wickra_exchange.Upbit.Replies.{
  ticker_reply, klines_reply, order_book_reply, open_orders_reply, balances_reply,
}
use wickra_exchange.Upbit.Client.{
  Upbit, State, guard_market, public_get, signed_request, stream_url,
}

unfoldable pub subscribe_message : Text → Text → Text → Text
subscribe_message ticket kind market =
    codes "[{\"ticket\":\""
    ++ ticket
    ++ codes "\"},{\"type\":\""
    ++ kind
    ++ codes "\",\"codes\":[\""
    ++ market
    ++ codes "\"]},{\"format\":\"DEFAULT\"}]"

abbrev pub opt_param : Text → Option Text → List (Text × Text)
opt_param key none = []
opt_param key (some value) = (key, value) ∷ []

module _ {D W C : Type 0} where
  abbrev pub left_by_poll :
      Upbit W C → Option (Option C × List (Event D) × W) → Option (List (Event D) × State W C)
  left_by_poll c none = none
  left_by_poll c (some (connection, events, w)) =
      some (events, (record c { connection = connection }, w))

module _ {J D F K : Type 0} (pf : Platform J D F K) where
  abbrev pub price_param : Option D → List (Text × Text)
  price_param none = []
  price_param (some price) = (codes "price", format_decimal pf price) ∷ []

  -- What `place_order` sends, where `tif` is the time in force in Upbit's words.
  unfoldable pub order_params : OrderRequest D → Option Text → List (Text × Text)
  unfolding wire_symbol side_str ord_type_str format_decimal
  order_params r tif =
      (codes "market", wire_symbol r.symbol)
      ∷ (codes "side", side_str r.side)
      ∷ (codes "ord_type", ord_type_str r.order_type r.side)
      ∷ (codes "volume", format_decimal pf r.quantity)
      ∷ (price_param r.price
          ++ opt_param (codes "time_in_force") tif
          ++ opt_param (codes "identifier") r.client_order_id)

module _ {W C : Type 0} (world : World W C) where
  -- The connection, opened where there is none.
  unfoldable pub ensure_connection : Call (State W C) C
  unfolding connect_if_none
  ensure_connection (c, w) =
      let (r, w') = connect_if_none c.ws stream_url c.connection w in
      elim r [
        | err e ↦ (err e, (c, w'))
        | ok connection ↦ (ok connection, (record c { connection = some connection }, w'))
      ]

  -- The part of `subscribe` behind the connection.
  unfoldable pub send_subscription : Text → Text → C → Call (State W C) (Unit {0})
  unfolding subscribe_message push_new show_ℤ
  send_subscription kind market connection (c, w) =
      let (now, w1) = world.now_ms w in
      let message = subscribe_message (codes "wkex-" ++ show_ℤ now) kind market in
      let (r, w2) = (world.stream).send connection message w1 in
      elim r [
        | err e ↦ (err e, (c, w2))
        | ok _ ↦ (ok tt, (record c { sub_messages = push_new c.sub_messages message }, w2))
      ]

  unfoldable pub subscribe : Symbol → Text → Call (State W C) (Unit {0})
  unfolding ensure_connection send_subscription wire_symbol ensure_market_is_routed
  subscribe symbol kind s =
      (guard_market >> ensure_connection >>= λ connection.
      send_subscription kind (wire_symbol symbol) connection)
        s

  unfoldable pub subscribe_trades : Symbol → Call (State W C) (Unit {0})
  unfolding subscribe
  subscribe_trades symbol s = subscribe symbol (codes "trade") s

  unfoldable pub subscribe_book : Symbol → Call (State W C) (Unit {0})
  unfolding subscribe
  subscribe_book symbol s = subscribe symbol (codes "orderbook") s

  unfoldable pub subscribe_ticker : Symbol → Call (State W C) (Unit {0})
  unfolding subscribe
  subscribe_ticker symbol s = subscribe symbol (codes "ticker") s

module _ {W C J D F K : Type 0} ⦃d : Decimal D⦄ (pf : Platform J D F K) (world : World W C) where
  unfoldable pub ticker : Symbol → Call (State W C) (Ticker D)
  unfolding public_get wire_symbol ticker_reply
  ticker symbol s =
      (public_get pf world (codes "/v1/ticker") (codes "markets=" ++ wire_symbol symbol)
          >>= λ value. lift (ticker_reply pf symbol value))
        s

  unfoldable pub klines : Symbol → Text → ℕ → Call (State W C) (List K)
  unfolding public_get wire_symbol candle_path klines_reply
  klines symbol interval limit s =
      (public_get pf world (candle_path interval)
            (codes "market=" ++ wire_symbol symbol ++ codes "&count=" ++ show limit)
          >>= λ value. lift (klines_reply pf value))
        s

  unfoldable pub order_book : Symbol → ℕ → Call (State W C) (OrderBookSnapshot D)
  unfolding public_get wire_symbol order_book_reply
  order_book symbol _ s =
      (public_get pf world (codes "/v1/orderbook") (codes "markets=" ++ wire_symbol symbol)
          >>= λ value. lift (order_book_reply pf symbol value))
        s

  unfoldable pub place_order : OrderRequest D → Call (State W C) (Order D)
  unfolding signed_request validate tif_str order_params is_trigger order_from_value
      unsupported_trigger
  place_order r s =
      (lift (err_if (is_trigger r.order_type) (unsupported_trigger (codes "Upbit")))
          >> lift (validate r)
          >> lift (tif_str r)
          >>= λ tif.
              signed_request pf world post (codes "/v1/orders") (order_params pf r tif) >>= λ value.
              lift (order_from_value pf r.symbol value))
        s

  unfoldable pub cancel_order : Symbol → Text → Call (State W C) (Unit {0})
  unfolding signed_request
  cancel_order _ order_id s =
      (signed_request pf world delete (codes "/v1/order") ((codes "uuid", order_id) ∷ []) >>= λ _.
      pure tt)
        s

  unfoldable pub query_order : Symbol → Text → Call (State W C) (Order D)
  unfolding signed_request order_from_value
  query_order symbol order_id s =
      (signed_request pf world get (codes "/v1/order") ((codes "uuid", order_id) ∷ []) >>= λ value.
      lift (order_from_value pf symbol value))
        s

  abbrev pub market_param : Option Symbol → List (Text × Text)
  market_param none = []
  market_param (some symbol) = (codes "market", wire_symbol symbol) ∷ []

  unfoldable pub open_orders : Option Symbol → Call (State W C) (List (Order D))
  unfolding signed_request wire_symbol open_orders_reply
  open_orders symbol s =
      (signed_request pf world get (codes "/v1/orders")
            ((codes "state", codes "wait") ∷ market_param symbol)
          >>= λ value. lift (open_orders_reply pf symbol value))
        s

  unfoldable pub balances : Call (State W C) (List (Balance D))
  unfolding signed_request balances_reply
  balances s =
      (signed_request pf world get (codes "/v1/accounts") [] >>= λ value.
      lift (balances_reply pf value))
        s

  -- `none` where the fuel is used up.
  unfoldable pub poll_events : ℕ → State W C → Option (List (Event D) × State W C)
  unfolding poll one_event parse_ws_message
  poll_events fuel (c, w) = left_by_poll c (
      poll world.stream (one_event (parse_ws_message pf)) c.ws stream_url c.sub_messages fuel
        c.connection w)
