-- ===== src/Upbit/Requests.antt =====
-- What a signed request of the Upbit client puts on the wire.
use wickra_exchange.Prelude.{
  ℕ, ◌≡◌, refl, ap, sym, ◌∙◌, true, false, Option, none, some, List, [], ◌∷◌, ◌++◌, ◌+◌, ◌<◌, ◌^◌,
  arith, inl, inr, map, All, All-imp,
}
use wickra_exchange.Prelude.Text.{Text, codes}
use wickra_exchange.Prelude.Strings.{split_at, split_at-append, join, show_hex}
use wickra_exchange.Prelude.Word.{add_u64}
use wickra_exchange.Error.{ok, Result-cases}
use wickra_exchange.Credentials.{Credentials}
use wickra_exchange.Clock.{next_nonce}
use wickra_exchange.Signing.{sha512_hex, hmac_sha512_bytes}
use wickra_exchange.Transport.{
  HttpMethod, get, put, post, patch, delete, HttpRequest, new_request, find_header,
  eq_ignore_ascii_case,
}
use wickra_exchange.Transport.Query.{read_query, IsPlainPair}
use wickra_exchange.Transport.Query.Laws.{read_query-pairs_text, map-decoded_plain}
use wickra_exchange.Platform.{Platform}
use wickra_exchange.Venue.{World, ◌>>◌, is_routed, spot_only}
use wickra_exchange.Venue.Calls.{call_ok}
use wickra_exchange.Venue.Record.{recorded}
use wickra_exchange.Upbit.Client.{
  Upbit, guard_market, build_jwt, query_hash, query_string, param_text, request_of, token_of,
  to_u64, execute, send_with, signed_request, is_empty,
}
use wickra_exchange.Upbit.Refusals.{guard_ok}

-- The part behind the question mark.
abbrev pub behind : Option (Text × Text) → Text
behind none = []
behind (some (_, query)) = query

-- The parameters as the venue finds them in a request: the body, or else the query of the URL.
abbrev pub parameters_of : HttpRequest → Text
parameters_of request = elim request.body [
  | some body ↦ body
  | none ↦ behind (split_at b'?' request.url)
]

parameters_of-request_of :
    (base : Text) (method : HttpMethod) (path query jwt : Text)
    → split_at b'?' (base ++ path) ≡ none
    → parameters_of (request_of base method path query jwt) ≡ query
unfolding request_of new_request
parameters_of-request_of base get path [] jwt h = rw h refl
parameters_of-request_of base post path [] jwt h = rw h refl
parameters_of-request_of base put path [] jwt h = rw h refl
parameters_of-request_of base patch path [] jwt h = rw h refl
parameters_of-request_of base delete path [] jwt h = rw h refl
parameters_of-request_of base get path (c ∷ query) jwt h =
    ap behind (split_at-append b'?' (base ++ path) (c ∷ query) h)
parameters_of-request_of base post path (c ∷ query) jwt h = refl
parameters_of-request_of base put path (c ∷ query) jwt h = refl
parameters_of-request_of base patch path (c ∷ query) jwt h = refl
parameters_of-request_of base delete path (c ∷ query) jwt h = refl

authorization-request_of :
    (base : Text) (method : HttpMethod) (path query jwt : Text)
    → find_header (codes "authorization") (request_of base method path query jwt).headers
      ≡ some (codes "Bearer " ++ jwt)
unfolding request_of new_request find_header eq_ignore_ascii_case
authorization-request_of base get path query jwt = refl
authorization-request_of base post path [] jwt = refl
authorization-request_of base post path (c ∷ query) jwt = refl
authorization-request_of base put path [] jwt = refl
authorization-request_of base put path (c ∷ query) jwt = refl
authorization-request_of base patch path [] jwt = refl
authorization-request_of base patch path (c ∷ query) jwt = refl
authorization-request_of base delete path [] jwt = refl
authorization-request_of base delete path (c ∷ query) jwt = refl

-- What a venue computes to check a token.
module _ {J D F K : Type 0} (pf : Platform J D F K) where
  -- A JSON Web Token under HMAC-SHA-512: header, payload and signature.
  abbrev pub jwt_of : Text → Text → Text → Text
  jwt_of secret header payload =
      let signed = pf.base64_url header ++ codes "." ++ pf.base64_url payload in
      signed ++ codes "." ++ pf.base64_url (pf.hmac_sha512 secret signed)

  -- The claims over the text of the parameters, whose hash stands in them where there are any.
  abbrev pub claims_of : Text → Text → Text → List (Text × J)
  claims_of key nonce [] = (codes "access_key", pf.text key) ∷ (codes "nonce", pf.text nonce) ∷ []
  claims_of key nonce (c ∷ query) =
      (codes "access_key", pf.text key)
      ∷ (codes "nonce", pf.text nonce)
      ∷ (codes "query_hash", pf.text (pf.hex (pf.sha512 (c ∷ query))))
      ∷ (codes "query_hash_alg", pf.text (codes "SHA512"))
      ∷ []

  -- The token of an account for a nonce and a text of parameters.
  abbrev pub expected_token : Credentials → ℕ → Text → Text
  expected_token creds n query =
      jwt_of creds.api_secret (codes "{\"alg\":\"HS512\",\"typ\":\"JWT\"}")
        (pf.show_json (pf.object (claims_of creds.api_key (codes "wkex-" ++ show_hex n) query)))

is_empty-append : (a b : Text) → is_empty a ≡ false → is_empty (a ++ b) ≡ false
is_empty-append [] b h = cc
is_empty-append (c ∷ a) b h = refl

is_empty-param_text : (p : Text × Text) → is_empty (param_text p) ≡ false
is_empty-param_text ([], value) = refl
is_empty-param_text (c ∷ key, value) = refl

is_empty-query_string :
    (p : Text × Text) (params : List (Text × Text)) → is_empty (query_string (p ∷ params)) ≡ false
unfolding query_string join
is_empty-query_string p [] = is_empty-param_text p
is_empty-query_string p (q ∷ params) =
    is_empty-append (param_text p ++ codes "&") (join (codes "&") (map param_text (q ∷ params)))
      (is_empty-append (param_text p) (codes "&") (is_empty-param_text p))

module _ {J D F K : Type 0} (pf : Platform J D F K) where
  token_of-some :
      (creds : Credentials) (n : ℕ) (t : Text)
      → is_empty t ≡ false
      → token_of pf creds n (some (sha512_hex pf t)) ≡ expected_token pf creds n t
  unfolding token_of hmac_sha512_bytes sha512_hex
  token_of-some creds n [] h = cc
  token_of-some creds n (c ∷ t) h = refl

  -- The token is the one that the venue expects for the parameters.
  token_of-expected_token :
      (creds : Credentials) (n : ℕ) (params : List (Text × Text))
      → token_of pf creds n (query_hash pf params) ≡ expected_token pf creds n (query_string params)
  unfolding token_of hmac_sha512_bytes query_string query_hash join
  token_of-expected_token creds n [] = refl
  token_of-expected_token creds n (p ∷ params) =
      token_of-some creds n (query_string (p ∷ params)) (is_empty-query_string p params)

read_query-query_string :
    (params : List (Text × Text))
    → All IsPlainPair params
    → read_query (query_string params) ≡ params
unfolding query_string
read_query-query_string params h =
    read_query-pairs_text params (All-imp (λ p (q : IsPlainPair p). (q.0.0, q.1.0)) params h)
    ∙ map-decoded_plain params h

module _ {W C J D F K : Type 0} (pf : Platform J D F K) (world : World W C) where
  -- A call's request is in the record, and the client is as before.
  execute_lem :
      (request : HttpRequest) (c : Upbit (W × List HttpRequest) C) (w : W) (log : List HttpRequest)
      → let (_, (after, w')) = execute pf (recorded world) request (c, (w, log)) in
        (after ≡ c) × (w'.1 ≡ log ++ (request ∷ []))
  unfolding recorded
  execute_lem request c w log =
      let (r, w1) = world.execute request w in
      elim (Result-cases r) [
        | inl (response, q) ↦ rw (q, execute, recorded) (refl, refl)
        | inr (e, q) ↦ rw (q, execute, recorded) (refl, refl)
      ]

  build_jwt-some :
      (hash : Option Text) (c : Upbit (W × List HttpRequest) C) (w : W) (log : List HttpRequest)
      (creds : Credentials)
      → c.credentials ≡ some creds
      → let (now, w1) = world.now_ms w in
        let n = next_nonce (record { candidate_ms = to_u64 now; prev = c.last_nonce }) in
        build_jwt pf (recorded world) hash (c, (w, log))
        ≡ (ok (token_of pf creds n hash), (record c { last_nonce = n }, (w1, log)))
  unfolding build_jwt recorded
  build_jwt-some hash c w log creds h = simp h

-- What is known of a request and the nonce that it was signed with: the venue reads the parameters
-- in it that the caller gave, and finds the token that it expects for the nonce and their text.
pub record IsSigned {J D F K : Type 0} (pf : Platform J D F K) (creds : Credentials)
    (method : HttpMethod) (params : List (Text × Text)) (n : ℕ) (request : HttpRequest)
    : Type 0 where
  pub same_method : request.method ≡ method
  pub same_params : read_query (parameters_of request) ≡ params
  pub token :
      find_header (codes "authorization") request.headers
      ≡ some (codes "Bearer " ++ expected_token pf creds n (parameters_of request))

next_nonce_above :
    (candidate prev : ℕ)
    → prev + 1 < 2 ^ 64
    → prev < next_nonce (record { candidate_ms = candidate; prev = prev })
unfolding next_nonce add_u64
next_nonce_above candidate prev b = omega arith

method-request_of :
    (base : Text) (method : HttpMethod) (path query jwt : Text)
    → (request_of base method path query jwt).method ≡ method
unfolding request_of new_request
method-request_of base get path query jwt = refl
method-request_of base post path [] jwt = refl
method-request_of base post path (c ∷ query) jwt = refl
method-request_of base put path [] jwt = refl
method-request_of base put path (c ∷ query) jwt = refl
method-request_of base patch path [] jwt = refl
method-request_of base patch path (c ∷ query) jwt = refl
method-request_of base delete path [] jwt = refl
method-request_of base delete path (c ∷ query) jwt = refl

module _ {W C J D F K : Type 0} (pf : Platform J D F K) (world : World W C) where
  request_of-IsSigned :
      (creds : Credentials) (base : Text) (method : HttpMethod) (path : Text)
      (params : List (Text × Text)) (n : ℕ)
      → split_at b'?' (base ++ path) ≡ none
      → All IsPlainPair params
      → IsSigned pf creds method params n (
          request_of base method path
            (query_string params)
            (token_of pf creds n (query_hash pf params)))
  request_of-IsSigned creds base method path params n h plain =
      let q = query_string params in
      let jwt = token_of pf creds n (query_hash pf params) in
      let same : parameters_of (request_of base method path q jwt) ≡ q =
        parameters_of-request_of base method path q jwt h in
      record {
        same_method = method-request_of base method path q jwt;
        same_params = ap read_query same ∙ read_query-query_string params plain;
        token =
            authorization-request_of base method path q jwt
            ∙ ap (λ token. some (codes "Bearer " ++ token))
                (token_of-expected_token pf creds n params
                  ∙ sym (ap (expected_token pf creds n) same));
      }

  -- A signed call of a spot client with credentials hands one request to the transport. Its method
  -- is the call's. A venue that takes the parameters from the body, or else from the URL, and splits
  -- and decodes them reads those of the call, in their order, where no key and no value has one of
  -- `&`, `=`, `#`, `%` and `+`, which are sent as they are. The bearer token is header, payload and
  -- HMAC-SHA-512 under the API secret, with the API key, the nonce and the SHA-512 of the text of
  -- those parameters as its claims, and the nonce is above every earlier one of the client; of the
  -- client only the nonce has changed. The base URL and path have no question mark, and the nonces
  -- are below 2^64 - 1.
  pub signed_request-IsSigned :
      (c : Upbit (W × List HttpRequest) C) (creds : Credentials) (w : W) (log : List HttpRequest)
      (method : HttpMethod) (path : Text) (params : List (Text × Text))
      → is_routed c.market_type spot_only ≡ true
      → c.credentials ≡ some creds
      → split_at b'?' (c.rest_base ++ path) ≡ none
      → c.last_nonce + 1 < 2 ^ 64
      → All IsPlainPair params
      → let (_, (after, w')) =
          signed_request pf (recorded world) method path params (c, (w, log)) in
        (n : ℕ) × (request : HttpRequest) × (c.last_nonce < n)
        × (after ≡ record c { last_nonce = n })
        × (w'.1 ≡ log ++ (request ∷ []))
        × IsSigned pf creds method params n request
  unfolding signed_request send_with
  signed_request-IsSigned c creds w log method path params m k h b plain =
      let (now, w1) = world.now_ms w in
      let n = next_nonce (record { candidate_ms = to_u64 now; prev = c.last_nonce }) in
      let request =
        request_of c.rest_base method path (query_string params)
          (token_of pf creds n (query_hash pf params)) in
      let jwt = build_jwt pf (recorded world) (query_hash pf params) in
      let signed : (guard_market >> jwt) (c, (w, log)) ≡ (
        ok (token_of pf creds n (query_hash pf params)),
        (record c { last_nonce = n }, (w1, log)),
      ) =
        call_ok guard_market (λ _. jwt) (c, (w, log)) (c, (w, log)) tt (guard_ok c (w, log) m)
        ∙ build_jwt-some pf world (query_hash pf params) c w log creds k in
      let whole =
        call_ok (guard_market >> jwt) (send_with pf (recorded world) method path params)
          (c, (w, log)) (record c { last_nonce = n }, (w1, log))
          (token_of pf creds n (query_hash pf params)) signed in
      let (same, logged) = execute_lem pf world request (record c { last_nonce = n }) w1 log in
      (
        n,
        request,
        next_nonce_above (to_u64 now) c.last_nonce b,
        ap (λ p. p.1.0) whole ∙ same,
        ap (λ p. p.1.1.1) whole ∙ logged,
        request_of-IsSigned creds c.rest_base method path params n h plain,
      )
