-- ===== src/Platform.antt =====
-- The libraries that a venue client calls and does not implement: JSON (`serde_json::Value`), the
-- text of decimals (`rust_decimal`), floats, candles (`wickra_core`), hashes and encodings, and
-- `str::trim` and `{:?}`, whose tables of Unicode are the standard library's.
use wickra_exchange.Prelude.{ℕ, Bool, Option, none, some, List, [], ◌∷◌}
use wickra_exchange.Prelude.Int.{ℤ}
use wickra_exchange.Prelude.Text.{Text}
use wickra_exchange.Error.{Duration}

-- `J` is a JSON value, `D` a decimal, `F` an `f64`, `K` a candle.
pub record Platform (J D F K : Type 0) : Type 0 where
  -- `serde_json::from_str`, and the message of its error.
  pub from_json : Text → Option J
  pub json_error : Text → Text
  -- `Value::default()`
  pub null : J
  -- The values that `json!` builds.
  pub text : Text → J
  pub boolean : Bool → J
  pub integer : ℤ → J
  pub array : List J → J
  pub object : List (Text × J) → J
  pub get : J → Text → Option J
  pub as_array : J → Option (List J)
  -- `as_object()` and the first of its `values()`.
  pub first_value : J → Option J
  pub as_bool : J → Option Bool
  pub as_str : J → Option Text
  pub as_i64 : J → Option ℤ
  pub as_u64 : J → Option ℕ
  pub as_f64 : J → Option F
  -- The text of a `Value::Number`, and of any value.
  pub number_text : J → Option Text
  pub show_json : J → Text
  -- `Decimal::from_str`, the text of its error, and `normalize().to_string()`.
  pub read_decimal : Text → Option D
  pub decimal_error : Text → Text
  pub normalized : D → Text
  -- `parse::<i64>()`, `parse::<f64>()`, and the texts of their errors.
  pub read_i64 : Text → Option ℤ
  pub i64_error : Text → Text
  pub f64_error : Text → Text
  pub read_f64 : Text → Option F
  -- `Retry-After` as `HttpResponse::retry_after` reads it: an `f64`, where it is a duration.
  pub read_seconds : Text → Option Duration
  -- `Candle::new`, and the text of its error.
  pub candle : F → F → F → F → F → ℤ → Option K
  pub candle_error : F → F → F → F → F → ℤ → Text
  pub trim : Text → Text
  pub debug : Text → Text
  -- Raw digests and encodings.
  pub hmac_sha256 : Text → Text → Text
  pub hmac_sha512 : Text → Text → Text
  pub sha256 : Text → Text
  pub sha512 : Text → Text
  -- The key in a PKCS#8 PEM, where it can be read, and the signature under a key.
  pub es256_key : Text → Option Text
  pub sign_es256 : Text → Text → Text
  pub hex : Text → Text
  pub base64 : Text → Text
  pub read_base64 : Text → Option Text
  pub base64_url : Text → Text

abbrev pub and_then {ℓ κ} : {A : Type ℓ} {B : Type κ} → Option A → (A → Option B) → Option B
and_then none next = none
and_then (some a) next = next a

-- Fields of a JSON object: `value.get(key).and_then(Value::as_str)`, and so on.
module _ {J D F K : Type 0} (pf : Platform J D F K) where
  abbrev pub get_str : J → Text → Option Text
  get_str value key = and_then (pf.get value key) pf.as_str

  abbrev pub get_i64 : J → Text → Option ℤ
  get_i64 value key = and_then (pf.get value key) pf.as_i64

  abbrev pub get_array : J → Text → Option (List J)
  get_array value key = and_then (pf.get value key) pf.as_array

-- `.unwrap_or(..)`
abbrev pub or_default {ℓ} : {A : Type ℓ} → Option A → A → A
or_default none a = a
or_default (some a) _ = a

abbrev pub first {ℓ} : {A : Type ℓ} → List A → Option A
first [] = none
first (a ∷ _) = some a
