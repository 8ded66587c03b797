-- ===== src/Upbit/Client.antt =====
-- The Upbit client's state and signed requests,
-- crates/wickra-exchange-core/src/exchanges/upbit.rs. The client is used from one thread, so that a
-- nonce is drawn in one step; its `Debug` is left out.
use wickra_exchange.Prelude.{
  ℕ, Bool, true, false, not, ◌&&◌, Option, none, some, List, [], ◌∷◌, ◌++◌, map, if◌then◌else◌,
}
use wickra_exchange.Prelude.Int.{ℤ, pos, negsuc}
use wickra_exchange.Prelude.Text.{Text, codes}
use wickra_exchange.Prelude.Ord.{text_ord}
use wickra_exchange.Prelude.Strings.{join, show_hex}
use wickra_exchange.Error.{ok, err, invalid_credentials}
use wickra_exchange.Credentials.{Credentials}
use wickra_exchange.Options.{ExchangeOptions, MarketType}
use wickra_exchange.Clock.{next_nonce}
use wickra_exchange.Signing.{sha512_hex, hmac_sha512_bytes}
use wickra_exchange.Transport.{HttpMethod, get, HttpRequest, new_request}
use wickra_exchange.WsUtil.{WsTransport}
use wickra_exchange.Platform.{Platform}
use wickra_exchange.Venue.{World, Call, ◌>>=◌, ◌>>◌, ensure_market_is_routed, spot_only}
use wickra_exchange.Upbit.Parse.{parse_body}

-- `last_nonce` is the cell of `nonces`.
pub record Upbit (W C : Type 0) : Type 0 where
  pub ws : Option (WsTransport W C)
  pub rest_base : Text
  pub market_type : MarketType
  pub credentials : Option Credentials
  pub last_nonce : ℕ
  pub connection : Option C
  pub sub_messages : List Text

unfoldable pub build : {W C : Type 0} → ExchangeOptions → Option Credentials → Upbit W C
build options credentials = record {
  ws = none;
  rest_base = codes "https://api.upbit.com";
  market_type = options.market_type;
  credentials = credentials;
  last_nonce = 0;
  connection = none;
  sub_messages = [];
}

unfoldable pub with_http : {W C : Type 0} → ExchangeOptions → Upbit W C
unfolding build
with_http options = build options none

unfoldable pub with_credentials : {W C : Type 0} → ExchangeOptions → Credentials → Upbit W C
unfolding build
with_credentials options credentials = build options (some credentials)

unfoldable pub with_ws : {W C : Type 0} → Upbit W C → WsTransport W C → Upbit W C
with_ws c ws = record c { ws = some ws }

abbrev pub stream_url : Text
stream_url = codes "wss://api.upbit.com/websocket/v1"

-- `u64::try_from(..).unwrap_or(0)`
abbrev pub to_u64 : ℤ → ℕ
to_u64 (pos n) = n
to_u64 (negsuc _) = 0

abbrev pub param_text : Text × Text → Text
param_text (key, value) = key ++ (b'=' ∷ value)

unfoldable pub query_string : List (Text × Text) → Text
unfolding join
query_string params = join (codes "&") (map param_text params)

-- The request of `signed_request`, whose token is `jwt`.
abbrev pub is_get : HttpMethod → Bool
is_get get = true
is_get _ = false

abbrev pub is_empty : Text → Bool
is_empty [] = true
is_empty (_ ∷ _) = false

unfoldable pub request_of : Text → HttpMethod → Text → Text → Text → HttpRequest
unfolding new_request
request_of rest_base method path query jwt =
    let url =
      if is_get method && not (is_empty query)
      then rest_base ++ path ++ (b'?' ∷ query)
      else rest_base ++ path in
    let signed = record (new_request method url) {
      headers = (codes "Authorization", codes "Bearer " ++ jwt) ∷ [];
    } in
    if not (is_get method) && not (is_empty query)
    then record signed {
      headers =
          signed.headers
          ++ ((codes "Content-Type", codes "application/x-www-form-urlencoded") ∷ []);
      body = some query;
    }
    else signed

abbrev pub State : Type 0 → Type 0 → Type 0
State W C = Upbit W C × W

abbrev pub guard_market : {W C : Type 0} → Call (State W C) (Unit {0})
guard_market (c, w) = (ensure_market_is_routed (codes "Upbit") c.market_type spot_only, (c, w))

module _ {J D F K : Type 0} (pf : Platform J D F K) where
  abbrev pub payload_of : Credentials → Text → Option Text → List (Text × J)
  payload_of creds nonce none =
      (codes "access_key", pf.text creds.api_key) ∷ (codes "nonce", pf.text nonce) ∷ []
  payload_of creds nonce (some hash) =
      (codes "access_key", pf.text creds.api_key)
      ∷ (codes "nonce", pf.text nonce)
      ∷ (codes "query_hash", pf.text hash)
      ∷ (codes "query_hash_alg", pf.text (codes "SHA512"))
      ∷ []

  -- The token of a payload with this nonce.
  unfoldable pub token_of : Credentials → ℕ → Option Text → Text
  unfolding hmac_sha512_bytes
  token_of creds n hash =
      let payload =
        pf.show_json (pf.object (payload_of creds (codes "wkex-" ++ show_hex n) hash)) in
      let signing_input =
        pf.base64_url (codes "{\"alg\":\"HS512\",\"typ\":\"JWT\"}")
        ++ codes "."
        ++ pf.base64_url payload in
      signing_input
      ++ codes "."
      ++ pf.base64_url (hmac_sha512_bytes pf creds.api_secret signing_input)

  unfoldable pub query_hash : List (Text × Text) → Option Text
  unfolding sha512_hex query_string
  query_hash [] = none
  query_hash (p ∷ params) = some (sha512_hex pf (query_string (p ∷ params)))

module _ {W C J D F K : Type 0} (pf : Platform J D F K) (world : World W C) where
  abbrev pub execute : HttpRequest → Call (State W C) J
  execute request (c, w) =
      let (r, w') = world.execute request w in
      elim r [ err e ↦ (err e, (c, w')) | ok response ↦ (parse_body pf response, (c, w')) ]

  unfoldable pub build_jwt : Option Text → Call (State W C) Text
  unfolding token_of next_nonce
  build_jwt hash (c, w) = elim c.credentials [
    | none ↦ (err (invalid_credentials (codes "signed endpoint requires credentials")), (c, w))
    | some creds ↦
        let (now, w') = world.now_ms w in
        let n = next_nonce (record { candidate_ms = to_u64 now; prev = c.last_nonce }) in
        (ok (token_of pf creds n hash), (record c { last_nonce = n }, w'))
  ]

  unfoldable pub send_with : HttpMethod → Text → List (Text × Text) → Text → Call (State W C) J
  unfolding request_of query_string
  send_with method path params jwt (c, w) =
      execute (request_of c.rest_base method path (query_string params) jwt) (c, w)

  unfoldable pub signed_request : HttpMethod → Text → List (Text × Text) → Call (State W C) J
  unfolding build_jwt send_with query_hash ensure_market_is_routed
  signed_request method path params s =
      (guard_market >> build_jwt (query_hash pf params) >>= send_with method path params) s

  -- `Upbit::get`
  unfoldable pub public_get : Text → Text → Call (State W C) J
  unfolding ensure_market_is_routed new_request
  public_get path query s =
      (guard_market >> λ (c, w).
      execute (new_request get (c.rest_base ++ path ++ (b'?' ∷ query))) (c, w))
        s
