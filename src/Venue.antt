-- ===== src/Venue.antt =====
-- What the venue clients share: the routed markets and the blame for an unreadable reply
-- (crates/wickra-exchange-core/src/exchanges/mod.rs), the world that a client is given (transports
-- and clock), and calls on a client's state that may fail.
pub mod Stream
pub mod Polling
pub mod Calls
pub mod Record
pub mod Samples
use wickra_exchange.Prelude.{
  ℕ, suc, zero, Bool, true, false, ◌||◌, ◌==◌, Option, none, some, List, [], ◌∷◌, ◌++◌,
  if◌then◌else◌,
}
use wickra_exchange.Prelude.Int.{ℤ, pos, negsuc}
use wickra_exchange.Prelude.Text.{Text, codes, show}
use wickra_exchange.Prelude.Ord.{text_ord, same}
use wickra_exchange.Error.{
  Error, Result, ok, err, deserialization, exchange, unsupported_market, not_connected,
}
use wickra_exchange.Options.{MarketType, spot, usd_m_futures, coin_m_futures, margin}
use wickra_exchange.Transport.{HttpRequest, HttpResponse, is_success}
use wickra_exchange.WsUtil.{WsConnection, WsTransport}

-- The injected transports and clock of a client, over a state of any type.
pub record World (W C : Type 0) : Type 0 where
  -- `http.execute`
  pub execute : HttpRequest → W → Result HttpResponse × W
  pub now_ms : W → ℤ × W
  pub stream : WsConnection W C

-- A call on a state, which stays changed where the call fails.
abbrev pub Call : Type 0 → Type 0 → Type 0
Call S A = S → Result A × S

abbrev pub pure : {S A : Type 0} → A → Call S A
pure a s = (ok a, s)

abbrev pub lift : {S A : Type 0} → Result A → Call S A
lift r s = (r, s)

infixl 5 ◌>>=◌ ◌>>◌
abbrev pub ◌>>=◌ : {S A B : Type 0} → Call S A → (A → Call S B) → Call S B
◌>>=◌ call next s =
    let (r, after) = call s in elim r [ err e ↦ (err e, after) | ok a ↦ next a after ]

abbrev pub ◌>>◌ : {S A B : Type 0} → Call S A → Call S B → Call S B
call >> next = call >>= λ _. next

-- An `i64` in decimal.
unfoldable pub show_ℤ : ℤ → Text
show_ℤ (pos n) = show n
show_ℤ (negsuc n) = b'-' ∷ show (suc n)

abbrev pub is_market : MarketType → MarketType → Bool
is_market spot spot = true
is_market usd_m_futures usd_m_futures = true
is_market coin_m_futures coin_m_futures = true
is_market margin margin = true
is_market _ _ = false

-- `routed.contains(&asked)`
abbrev pub is_routed : MarketType → List MarketType → Bool
is_routed asked [] = false
is_routed asked (m ∷ routed) = is_market m asked || is_routed asked routed

abbrev pub spot_and_linear : List MarketType
spot_and_linear = spot ∷ usd_m_futures ∷ []

abbrev pub spot_only : List MarketType
spot_only = spot ∷ []

unfoldable pub ensure_market_is_routed : Text → MarketType → List MarketType → Result (Unit {0})
unfolding unsupported_market
ensure_market_is_routed venue asked routed =
    if is_routed asked routed then ok tt else err (unsupported_market venue asked)

-- Whether a byte begins a character: it is no continuation byte of UTF-8.
abbrev pub begins_char : ℕ → Bool
begins_char c =
    if wickra_exchange.Prelude.ltb c 0x80 then true else wickra_exchange.Prelude.leb 0xc0 c

-- `char_indices().nth(n)`: the text before the character that has `n` others in front of it.
unfoldable pub before_char : ℕ → Text → Option Text
before_char n [] = none
before_char zero (c ∷ t) =
    if begins_char c
    then some []
    else elim (before_char zero t) [ none ↦ none | some head ↦ some (c ∷ head) ]
before_char (suc n) (c ∷ t) =
    let rest = if begins_char c then before_char n t else before_char (suc n) t in
    elim rest [ none ↦ none | some head ↦ some (c ∷ head) ]

-- `BODY_EXCERPT_CHARS`
abbrev pub body_excerpt_chars : ℕ
body_excerpt_chars = 200

unfoldable pub body_excerpt : Text → Text
unfolding before_char
body_excerpt body = elim (before_char body_excerpt_chars body) [
  | some head ↦ head ++ codes "..."
  | none ↦ body
]

unfoldable pub attribute_to_http_status : HttpResponse → Error → Error
unfolding body_excerpt
attribute_to_http_status response (deserialization detail) =
    if is_success response
    then deserialization (detail ++ codes " (body: " ++ body_excerpt response.body ++ codes ")")
    else exchange (show response.status) response.body
attribute_to_http_status response error = error

abbrev pub has_text : Text → List Text → Bool
has_text t [] = false
has_text t (u ∷ us) = same u t || has_text t us

-- `if !v.contains(&t) { v.push(t) }`
unfoldable pub push_new : List Text → Text → List Text
push_new us t = if has_text t us then us else us ++ (t ∷ [])

-- `if connection.is_none() { connect(url)? }`: the connection that there is, or a new one.
unfoldable pub connect_if_none :
    {W C : Type 0} → Option (WsTransport W C) → Text → Option C → W → Result C × W
connect_if_none ws url (some connection) w = (ok connection, w)
connect_if_none none url none w = (err not_connected, w)
connect_if_none (some ws) url none w = ws.connect url w
