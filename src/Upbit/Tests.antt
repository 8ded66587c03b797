-- ===== src/Upbit/Tests.antt =====
-- An Upbit client in a small world: an order, a signed request and a poll.
use wickra_exchange.Prelude.{
  ℕ, ◌≡◌, refl, false, none, some, List, [], ◌∷◌, ◌<◌, Option, if◌then◌else◌, arith,
}
use wickra_exchange.Prelude.Int.{ℤ, pos}
use wickra_exchange.Prelude.Text.{Text, codes, to_ascii_uppercase, upper_byte}
use wickra_exchange.Prelude.Ord.{text_ord, same}
use wickra_exchange.Prelude.Strings.{split_at}
use wickra_exchange.Decimal.Integers.{ℤ_decimal}
use wickra_exchange.Options.{spot, allow, usd_m_futures, mainnet}
use wickra_exchange.Credentials
use wickra_exchange.Error
use wickra_exchange.Symbol.{Symbol, new}
use wickra_exchange.Types.{OrderRequest, buy, market, gtc}
use wickra_exchange.Events.{Event}
use wickra_exchange.Transport.{HttpRequest, get}
use wickra_exchange.WsUtil.{WsTransport}
use wickra_exchange.Venue.{World}
use wickra_exchange.Venue.Calls.{IsRefused}
use wickra_exchange.Venue.Record.{recorded}
use wickra_exchange.Venue.Stream.{events_of, one_event}
use wickra_exchange.Venue.Samples.{
  Json, null, text, fields, sample_platform, frame_world, frame_stream,
}
use wickra_exchange.Upbit.{wire_symbol, split_wire_symbol}
use wickra_exchange.Upbit.WireSymbol.{split_wire_symbol-wire_symbol}
use wickra_exchange.Upbit.Client.{Upbit, build, with_credentials, signed_request, stream_url}
use wickra_exchange.Upbit.Parse.{parse_ws_message}
use wickra_exchange.Upbit.Calls.{place_order, poll_events}
use wickra_exchange.Upbit.Refusals.{unrouted, place_order-IsRefused}
use wickra_exchange.Upbit.Requests.{IsSigned, signed_request-IsSigned}
use wickra_exchange.Upbit.Polling.{poll_events_lem}
use wickra_exchange.Venue.Polling.{IsEnded}

abbrev btc_usdt : Symbol
btc_usdt = record { base = codes "BTC"; quote = codes "USDT" }

abbrev futures_order : OrderRequest ℤ
futures_order = record {
  symbol = btc_usdt;
  side = buy;
  order_type = market;
  quantity = pos 1;
  price = none;
  stop_price = none;
  time_in_force = gtc;
  client_order_id = none;
  reduce_only = false;
  post_only = false;
  stp = allow;
}

abbrev frames : Text → Option Json
frames t =
    if same t (codes "trade-frame")
    then some (
        fields (
          (codes "type", text (codes "trade"))
          ∷ (codes "trade_price", text (codes "100"))
          ∷ (codes "trade_volume", text (codes "1"))
          ∷ []))
    else if same t (codes "status-frame")
    then some null
    else none

abbrev creds : wickra_exchange.Credentials.Credentials
creds = record {
  api_key = codes "k";
  api_secret = codes "s";
  passphrase = none;
  private_key = none;
}

abbrev client : {W : Type 0} → Upbit W (Unit {0})
client = record {
  ws = none;
  rest_base = codes "https://api.upbit.com";
  market_type = spot;
  credentials = some creds;
  last_nonce = 9;
  connection = some tt;
  sub_messages = [];
}

client_built :
    {W : Type 0}
    → record (client {W = W}) { last_nonce = 0; connection = none }
      ≡ with_credentials (mainnet spot) creds
unfolding with_credentials build mainnet
client_built = refl

split_wire_symbol-wire_symbol_example :
    split_wire_symbol (wire_symbol (new (codes "btc") (codes "usdt")))
    ≡ new (codes "btc") (codes "usdt")
unfolding to_ascii_uppercase upper_byte split_at
split_wire_symbol-wire_symbol_example =
    split_wire_symbol-wire_symbol (codes "btc") (codes "usdt") refl (ground arith) (ground arith)

-- A client for futures does not send an order, and leaves the two frames in the stream.
place_order-IsRefused_example :
    IsRefused
      (place_order
        (sample_platform frames)
        (frame_world (codes "{}"))
        futures_order
        (record client { market_type = usd_m_futures }, codes "a" ∷ []))
      (record client { market_type = usd_m_futures }, codes "a" ∷ [])
place_order-IsRefused_example =
    place_order-IsRefused (sample_platform frames) (frame_world (codes "{}"))
      (record client { market_type = usd_m_futures }) (codes "a" ∷ []) futures_order (unrouted refl)

signed_request-IsSigned_example :
    let (_, (after, w')) =
      signed_request
        (sample_platform frames)
        (recorded (frame_world (codes "{}")))
        get
        (codes "/v1/order")
        ((codes "uuid", codes "7") ∷ [])
        (client, ([], [])) in
    (n : ℕ) × (request : HttpRequest) × (9 < n)
    × (after ≡ record client { last_nonce = n })
    × (w'.1 ≡ request ∷ [])
    × IsSigned (sample_platform frames) creds get ((codes "uuid", codes "7") ∷ []) n request
unfolding split_at
signed_request-IsSigned_example =
    signed_request-IsSigned (sample_platform frames) (frame_world (codes "{}")) client creds [] []
      get (codes "/v1/order") ((codes "uuid", codes "7") ∷ []) refl refl refl (omega arith)
      ((((refl, refl, refl), refl, refl), ((refl, refl, refl), refl, refl)), tt)

-- The stream of the peer that has closed it, and a client with a subscription that can reconnect.
abbrev closed_world : World (List Text) (Unit {0})
closed_world = record (frame_world (codes "{}")) {
  stream = record frame_stream { is_connected = λ w c. false };
}

abbrev opens : WsTransport (List Text) (Unit {0})
opens = record { connect = λ url w. (wickra_exchange.Error.ok tt, w) }

abbrev subscriber : Upbit (List Text) (Unit {0})
subscriber = record client { ws = some opens; sub_messages = codes "sub" ∷ [] }

-- Two frames, one of them no event, and then the end of the stream.
poll_events_lem_example :
    (left : Option (Unit {0})) × (all : List (Event ℤ)) × (w' : List Text) × (poll_events
        (sample_platform frames)
        closed_world
        3
        (subscriber, codes "status-frame" ∷ codes "trade-frame" ∷ [])
      ≡ some (all, (record subscriber { connection = left }, w')))
    × IsEnded closed_world.stream
        (some opens)
        stream_url
        tt
        (codes "sub" ∷ [])
        (events_of closed_world.stream
          (one_event (parse_ws_message (sample_platform frames)))
          (codes "status-frame" ∷ codes "trade-frame" ∷ []))
        []
        (left, all, w')
poll_events_lem_example =
    poll_events_lem (sample_platform frames) closed_world 3 subscriber tt
      (codes "status-frame" ∷ codes "trade-frame" ∷ [])
      (codes "status-frame" ∷ codes "trade-frame" ∷ []) [] refl
      (codes "trade-frame" ∷ [], refl, ([], refl, (wickra_exchange.Error.ok none, refl, tt)))
      (omega arith)
