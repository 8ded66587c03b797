-- ===== src/Transport.antt =====
-- HTTP requests and responses, crates/wickra-exchange-core/src/transport.rs. A transport is the
-- send operation of `Throttle`'s world or of a venue's; the mocks are in Mocks.
pub mod Mocks
pub mod Query
use wickra_exchange.Prelude.{
  ℕ, Bool, true, false, Option, none, some, List, [], ◌∷◌, ◌++◌, ◌&&◌, leb, ltb, ◌==◌, ◌+◌,
  if◌then◌else◌,
}
use wickra_exchange.Prelude.Text.{Text, codes}
use wickra_exchange.Error.{Duration}

pub data HttpMethod : Type 0 where
  get : HttpMethod
  post : HttpMethod
  put : HttpMethod
  patch : HttpMethod
  delete : HttpMethod

unfoldable pub as_str : HttpMethod → Text
as_str get = codes "GET"
as_str post = codes "POST"
as_str put = codes "PUT"
as_str patch = codes "PATCH"
as_str delete = codes "DELETE"

pub record HttpRequest : Type 0 where
  pub method : HttpMethod
  pub url : Text
  pub headers : List (Text × Text)
  pub body : Option Text

unfoldable pub new_request : HttpMethod → Text → HttpRequest
new_request method url = record { method = method; url = url; headers = []; body = none }

-- `HttpRequest::with_header` and `HttpRequest::with_body`
unfoldable pub request_header : HttpRequest → Text → Text → HttpRequest
request_header r name value = record r { headers = r.headers ++ ((name, value) ∷ []) }

unfoldable pub request_body : HttpRequest → Text → HttpRequest
request_body r body = record r { body = some body }

pub record HttpResponse : Type 0 where
  pub status : ℕ
  pub headers : List (Text × Text)
  pub body : Text

unfoldable pub new_response : ℕ → Text → HttpResponse
new_response status body = record { status = status; headers = []; body = body }

unfoldable pub with_header : HttpResponse → Text → Text → HttpResponse
with_header r name value = record r { headers = r.headers ++ ((name, value) ∷ []) }

-- `to_ascii_lowercase` of a byte, under which `eq_ignore_ascii_case` compares.
abbrev pub lower_byte : ℕ → ℕ
lower_byte c = if leb b'A' c && leb c b'Z' then c + 32 else c

unfoldable pub eq_ignore_ascii_case : Text → Text → Bool
eq_ignore_ascii_case [] [] = true
eq_ignore_ascii_case (a ∷ s) (b ∷ t) = lower_byte a == lower_byte b && eq_ignore_ascii_case s t
eq_ignore_ascii_case _ _ = false

unfoldable pub find_header : Text → List (Text × Text) → Option Text
find_header name [] = none
find_header name ((key, value) ∷ rest) =
    if eq_ignore_ascii_case key name then some value else find_header name rest

-- `HttpResponse::header`
unfoldable pub header : HttpResponse → Text → Option Text
header r name = find_header name r.headers

-- `retry_after`, over the standard library's `f64` parser: `read_seconds` trims and parses the
-- value, and gives the duration of a number that is finite and not negative.
unfoldable pub retry_after : (Text → Option Duration) → HttpResponse → Option Duration
retry_after read_seconds r = elim (header r (codes "Retry-After")) [
  | none ↦ none
  | some raw ↦ read_seconds raw
]

unfoldable pub is_success : HttpResponse → Bool
is_success r = leb 200 r.status && ltb r.status 300
