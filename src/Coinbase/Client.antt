-- ===== src/Coinbase/Client.antt =====
-- The Coinbase client's state and signed requests,
-- crates/wickra-exchange-core/src/exchanges/coinbase.rs. Its `Debug` is left out.
use wickra_exchange.Prelude.{
  ℕ, zero, suc, ◌-◌, ◌+◌, ◌/◌, Option, none, some, List, [], ◌∷◌, ◌++◌, length, if◌then◌else◌,
}
use wickra_exchange.Prelude.Int.{ℤ, pos, negsuc}
use wickra_exchange.Prelude.Word.{add_i64, to_bits}
use wickra_exchange.Prelude.Text.{Text, codes}
use wickra_exchange.Prelude.Strings.{show_hex}
use wickra_exchange.Error.{Result, ok, err, deserialization, invalid_credentials, ok_or}
use wickra_exchange.Credentials.{Credentials}
use wickra_exchange.Options.{ExchangeOptions, MarketType}
use wickra_exchange.Clock.{ServerClock, sync, server_time_ms}
use wickra_exchange.ClientIds.{ClientIdGenerator, with_seed}
use wickra_exchange.Transport.{get, post, HttpRequest, new_request}
use wickra_exchange.WsUtil.{WsTransport}
use wickra_exchange.Platform.{Platform, get_str}
use wickra_exchange.Venue.{World, Call, pure, lift, ◌>>=◌, ◌>>◌, ensure_market_is_routed, spot_only}
use wickra_exchange.Coinbase.{host}
use wickra_exchange.Coinbase.Parse.{parse_body}
use wickra_exchange.Upbit.Client.{to_u64, is_empty}

pub record Coinbase (W C : Type 0) : Type 0 where
  pub ws : Option (WsTransport W C)
  pub rest_base : Text
  pub market_type : MarketType
  pub credentials : Option Credentials
  pub client_ids : ClientIdGenerator
  pub clock : ServerClock
  pub connection : Option C
  pub sub_messages : List Text

-- `now` is `system_now_ms()`.
unfoldable pub build : {W C : Type 0} → ExchangeOptions → Option Credentials → ℤ → Coinbase W C
unfolding with_seed
build options credentials now = record {
  ws = none;
  rest_base = codes "https://" ++ host;
  market_type = options.market_type;
  credentials = credentials;
  client_ids = with_seed (codes "wkex") (to_u64 now);
  clock = record { offset_ms = pos 0 };
  connection = none;
  sub_messages = [];
}

unfoldable pub with_http : {W C : Type 0} → ExchangeOptions → ℤ → Coinbase W C
unfolding build
with_http options now = build options none now

unfoldable pub with_credentials : {W C : Type 0} → ExchangeOptions → Credentials → ℤ → Coinbase W C
unfolding build
with_credentials options credentials now = build options (some credentials) now

unfoldable pub with_ws : {W C : Type 0} → Coinbase W C → WsTransport W C → Coinbase W C
with_ws c ws = record c { ws = some ws }

abbrev pub stream_url : Text
stream_url = codes "wss://advanced-trade-ws.coinbase.com"

abbrev pub State : Type 0 → Type 0 → Type 0
State W C = Coinbase W C × W

abbrev pub guard_market : {W C : Type 0} → Call (State W C) (Unit {0})
guard_market (c, w) = (ensure_market_is_routed (codes "Coinbase") c.market_type spot_only, (c, w))

-- `i64` division by a thousand rounds towards zero.
unfoldable pub seconds : ℤ → ℤ
seconds (pos n) = pos (n / 1000)
seconds (negsuc n) = elim ((n + 1) / 1000) [ zero ↦ pos 0 | suc k ↦ negsuc k ]

abbrev zeros : ℕ → Text
zeros zero = []
zeros (suc n) = b'0' ∷ zeros n

-- `format!("{:016x}")` of an `i64`.
unfoldable pub show_hex_16 : ℤ → Text
unfolding show_hex
show_hex_16 z = let digits = show_hex (to_bits z) in zeros (16 - length digits) ++ digits

module _ {J D F K : Type 0} (pf : Platform J D F K) where
  abbrev pub token_header : Text → Text → List (Text × J)
  token_header api_key nonce =
      (codes "alg", pf.text (codes "ES256"))
      ∷ (codes "kid", pf.text api_key)
      ∷ (codes "typ", pf.text (codes "JWT"))
      ∷ (codes "nonce", pf.text nonce)
      ∷ []

  abbrev pub token_uri : Option Text → List (Text × J)
  token_uri none = []
  token_uri (some uri) = (codes "uri", pf.text uri) ∷ []

  abbrev pub token_payload : Text → ℤ → Option Text → List (Text × J)
  token_payload api_key now uri =
      (codes "sub", pf.text api_key)
      ∷ (codes "iss", pf.text (codes "cdp"))
      ∷ (codes "nbf", pf.integer now)
      ∷ (codes "exp", pf.integer (add_i64 now (pos 120)))
      ∷ token_uri uri

  unfoldable pub signing_input : Text → Text → ℤ → Option Text → Text
  unfolding add_i64
  signing_input api_key nonce now uri =
      pf.base64_url (pf.show_json (pf.object (token_header api_key nonce)))
      ++ codes "."
      ++ pf.base64_url (pf.show_json (pf.object (token_payload api_key now uri)))

  unfoldable pub sign_token : Text → Text → Text
  sign_token key input = input ++ codes "." ++ pf.base64_url (pf.sign_es256 key input)

  -- The key's name and the key.
  unfoldable pub key_of : Option Credentials → Result (Text × Text)
  key_of none = err (invalid_credentials (codes "signed endpoint requires credentials"))
  key_of (some creds) = elim creds.private_key [
    | none ↦ err (invalid_credentials (codes "Coinbase requires an EC private key"))
    | some pem ↦ elim (pf.es256_key pem) [
      | none ↦ err (invalid_credentials (codes "invalid EC private key"))
      | some key ↦ ok (creds.api_key, key)
    ]
  ]

module _ {W C : Type 0} (world : World W C) where
  -- `signed_now_ms`
  unfoldable pub signed_now_ms : Call (State W C) ℤ
  unfolding server_time_ms
  signed_now_ms (c, w) =
      let (now, w') = world.now_ms w in (ok (server_time_ms c.clock now), (c, w'))

  unfoldable pub local_now_ms : Call (State W C) ℤ
  local_now_ms (c, w) = let (now, w') = world.now_ms w in (ok now, (c, w'))

module _ {W C J D F K : Type 0} (pf : Platform J D F K) (world : World W C) where
  unfoldable pub build_jwt : Option Text → Call (State W C) Text
  unfolding signed_now_ms local_now_ms signing_input sign_token seconds show_hex_16 key_of
  build_jwt uri (c, w) =
      (lift (key_of pf c.credentials) >>= λ (api_key, key). signed_now_ms world >>= λ now.
      local_now_ms world >>= λ local.
      pure (sign_token pf key (signing_input pf api_key (show_hex_16 local) (seconds now) uri)))
        (c, w)

  abbrev pub execute : HttpRequest → Call (State W C) J
  execute request (c, w) =
      let (r, w') = world.execute request w in
      elim r [ err e ↦ (err e, (c, w')) | ok response ↦ (parse_body pf response, (c, w')) ]

  abbrev pub bearer : Text → List (Text × Text)
  bearer jwt = (codes "Authorization", codes "Bearer " ++ jwt) ∷ []

  abbrev pub url_of : Text → Text → Text → Text
  url_of rest_base path query =
      if is_empty query then rest_base ++ path else rest_base ++ path ++ (b'?' ∷ query)

  unfoldable pub signed_get : Text → Text → Call (State W C) J
  unfolding build_jwt new_request ensure_market_is_routed
  signed_get path query s =
      (guard_market >> build_jwt (some (codes "GET " ++ host ++ path)) >>= λ jwt (c, w).
      execute (record (new_request get (url_of c.rest_base path query)) { headers = bearer jwt })
        (c, w))
        s

  unfoldable pub signed_post : Text → Text → Call (State W C) J
  unfolding build_jwt new_request ensure_market_is_routed
  signed_post path body s =
      (guard_market >> build_jwt (some (codes "POST " ++ host ++ path)) >>= λ jwt (c, w).
      execute
        (record (new_request post (c.rest_base ++ path)) {
          headers = bearer jwt ++ ((codes "Content-Type", codes "application/json") ∷ []);
          body = some body;
        })
        (c, w))
        s

  abbrev pub server_ms_of : J → Result ℤ
  server_ms_of value = elim (get_str pf value (codes "epochMillis")) [
    | none ↦ err (deserialization (codes "brokerage/time: no epochMillis"))
    | some text ↦
        ok_or (pf.read_i64 text)
          (deserialization (codes "brokerage/time: epochMillis not an integer"))
  ]

  abbrev pub sync_clock : ℤ → ℤ → Call (State W C) ℤ
  sync_clock local_before server_ms (c, w) =
      let clock = sync c.clock local_before server_ms in
      (ok clock.offset_ms, (record c { clock = clock }, w))

  unfoldable pub sync_time : Call (State W C) ℤ
  unfolding local_now_ms new_request ensure_market_is_routed sync
  sync_time s =
      (guard_market >> local_now_ms world >>= λ local_before.
      (λ (c, w). execute (new_request get (c.rest_base ++ codes "/api/v3/brokerage/time")) (c, w))
      >>= λ value. lift (server_ms_of value) >>= λ server_ms. sync_clock local_before server_ms)
        s
