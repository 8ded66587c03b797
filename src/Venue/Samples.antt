-- ===== src/Venue/Samples.antt =====
-- Small platforms and worlds for the venue clients' tests: integers for decimals, a data type for
-- JSON, and a stream whose frames are the state.
use wickra_exchange.Prelude.{
  ℕ, zero, suc, ◌==◌, Bool, true, Option, none, some, List, [], ◌∷◌, ◌++◌, if◌then◌else◌, length,
}
use wickra_exchange.Prelude.Int.{ℤ, pos, negsuc}
use wickra_exchange.Prelude.Text.{Text, codes}
use wickra_exchange.Prelude.Ord.{text_ord, same}
use wickra_exchange.Error.{ok}
use wickra_exchange.Transport.{new_response}
use wickra_exchange.WsUtil.{WsConnection}
use wickra_exchange.Platform.{Platform}
use wickra_exchange.Venue.{World}

mutual
  pub data Json : Type 0 where
    null : Json
    text : Text → Json
    bool : Bool → Json
    number : ℤ → Json
    array : Items → Json
    object : Fields → Json

  pub data Items : Type 0 where
    nil : Items
    item : Json → Items → Items

  pub data Fields : Type 0 where
    end : Fields
    field : Text → Json → Fields → Fields

abbrev pub of_list : List (Text × Json) → Fields
of_list [] = end
of_list ((key, value) ∷ rest) = field key value (of_list rest)

abbrev pub items_of : List Json → Items
items_of [] = nil
items_of (j ∷ js) = item j (items_of js)

abbrev pub list_of : Items → List Json
list_of nil = []
list_of (item j js) = j ∷ list_of js

abbrev pub fields : List (Text × Json) → Json
fields l = object (of_list l)

abbrev pub look_up : Text → Fields → Option Json
look_up key end = none
look_up key (field k v rest) = if same k key then some v else look_up key rest

abbrev pub get_field : Json → Text → Option Json
get_field (object fs) key = look_up key fs
get_field _ key = none

abbrev pub first_of : Json → Option Json
first_of (object (field k v rest)) = some v
first_of _ = none

-- Integers in unary, behind a sign where they are negative.
abbrev pub ones : ℕ → Text
ones zero = []
ones (suc n) = b'1' ∷ ones n

abbrev pub unary : ℤ → Text
unary (pos n) = ones n
unary (negsuc n) = b'-' ∷ ones n

abbrev pub of_unary : Text → ℤ
of_unary [] = pos 0
of_unary (c ∷ t) = if c == b'-' then negsuc (length t) else pos (suc (length t))

-- `parse` gives the value of each text that parses.
abbrev pub sample_platform : (Text → Option Json) → Platform Json ℤ (Unit {0}) (Unit {0})
sample_platform parse = record {
  from_json = parse;
  json_error = λ t. codes "expected value";
  null = null;
  text = text;
  boolean = bool;
  integer = number;
  array = λ js. array (items_of js);
  object = fields;
  get = get_field;
  first_value = first_of;
  as_array = λ v. elim v [ array js ↦ some (list_of js) | _ ↦ none ];
  as_str = λ v. elim v [ text t ↦ some t | _ ↦ none ];
  as_bool = λ v. elim v [ bool b ↦ some b | _ ↦ none ];
  as_i64 = λ v. elim v [ number n ↦ some n | _ ↦ none ];
  as_u64 = λ v. none;
  as_f64 = λ v. none;
  number_text = λ v. none;
  show_json = λ v. codes "{}";
  read_decimal = λ t. some (of_unary t);
  decimal_error = λ t. codes "empty";
  normalized = unary;
  read_i64 = λ t. none;
  i64_error = λ t. codes "invalid digit";
  read_f64 = λ t. none;
  f64_error = λ t. codes "invalid float";
  read_seconds = λ t. none;
  candle = λ o h l c v t. none;
  candle_error = λ o h l c v t. codes "invalid candle";
  trim = λ t. t;
  debug = λ t. b'"' ∷ (t ++ (b'"' ∷ []));
  hmac_sha256 = λ k t. k ++ t;
  hmac_sha512 = λ k t. k ++ t;
  sha256 = λ t. t;
  sha512 = λ t. t;
  es256_key = λ k. some k;
  sign_es256 = λ k t. k ++ t;
  hex = λ t. t;
  base64 = λ t. t;
  read_base64 = λ t. some t;
  base64_url = λ t. t;
}

-- Frames that are waiting; the stream is open.
abbrev pub frame_stream : WsConnection (List Text) (Unit {0})
frame_stream = record {
  is_connected = λ w c. true;
  send = λ c t w. (ok tt, w);
  recv = λ c w. elim w [ [] ↦ (ok none, []) | frame ∷ frames ↦ (ok (some frame), frames) ];
}

-- Every request is answered with 200 and the same body.
abbrev pub frame_world : Text → World (List Text) (Unit {0})
frame_world body = record {
  execute = λ request w. (ok (new_response 200 body), w);
  now_ms = λ w. (pos 5, w);
  stream = frame_stream;
}
