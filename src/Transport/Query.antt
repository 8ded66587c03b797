-- ===== src/Transport/Query.antt =====
-- How a venue reads the parameters of a request (`application/x-www-form-urlencoded`): the text up
-- to `#`, a pair between the ampersands, its key up to the first `=`, and in both `+` for a blank
-- and `%XY` for a byte. The requests of the venue clients are held against it.
pub mod Laws
use wickra_exchange.Prelude.{
  ℕ, ◌≡◌, refl, ap, ◌∙◌, sym, Bool, true, false, not, ◌&&◌, ◌||◌, Bool-cases, Option, none, some,
  List, [], ◌∷◌, ◌++◌, map, ltb, leb, ◌==◌, ◌+◌, ◌-◌, ◌*◌, ◌/◌, ◌%◌, ◌<◌, inl, inr, arith, All,
  append_assoc, if◌then◌else◌,
}
use wickra_exchange.Prelude.Text.{Text, codes}
use wickra_exchange.Prelude.Strings.{split_at, split_at-append, join}

-- A hexadecimal digit, and its value.
unfoldable pub is_hex_digit : ℕ → Bool
is_hex_digit c =
    (leb b'0' c && leb c b'9') || (leb b'A' c && leb c b'F') || (leb b'a' c && leb c b'f')

unfoldable pub hex_digit_value : ℕ → ℕ
hex_digit_value c =
    if ltb c b'A' then c - b'0' else if ltb c b'a' then c - b'A' + 10 else c - b'a' + 10

abbrev pub decoded_byte : ℕ → ℕ
decoded_byte c = if c == b'+' then b' ' else c

unfoldable pub percent_decode : Text → Text
unfolding is_hex_digit hex_digit_value
percent_decode (c ∷ x ∷ y ∷ t) =
    let escaped = percent_decode t in
    let plain = percent_decode (x ∷ y ∷ t) in
    if c == b'%' && (is_hex_digit x && is_hex_digit y)
    then (hex_digit_value x * 16 + hex_digit_value y) ∷ escaped
    else decoded_byte c ∷ plain
percent_decode (c ∷ t) = decoded_byte c ∷ percent_decode t
percent_decode [] = []

abbrev pub push_first : ℕ → List Text → List Text
push_first c [] = (c ∷ []) ∷ []
push_first c (t ∷ ts) = (c ∷ t) ∷ ts

-- The texts between the separators.
unfoldable pub split_all : ℕ → Text → List Text
split_all s [] = [] ∷ []
split_all s (c ∷ t) = let rest = split_all s t in if c == s then [] ∷ rest else push_first c rest

abbrev pub before : ℕ → Text → Text
before s t = elim (split_at s t) [ none ↦ t | some (l, _) ↦ l ]

abbrev pub read_pair : Text → Text × Text
read_pair t = elim (split_at b'=' t) [
  | none ↦ (percent_decode t, [])
  | some (key, value) ↦ (percent_decode key, percent_decode value)
]

abbrev pub read_pairs : Text → List (Text × Text)
read_pairs [] = []
read_pairs (c ∷ t) = map read_pair (split_all b'&' (c ∷ t))

unfoldable pub read_query : Text → List (Text × Text)
unfolding split_at split_all percent_decode
read_query t = read_pairs (before b'#' t)

abbrev pub pair_text : Text × Text → Text
pair_text (key, value) = key ++ (b'=' ∷ value)

-- A byte does not occur in a text.
abbrev pub lacks : ℕ → Text → Bool
lacks s [] = true
lacks s (c ∷ t) = not (c == s) && lacks s t

-- None of the bytes that end a key or a value.
abbrev pub IsUnbroken : Text → Type 0
IsUnbroken t = (lacks b'&' t ≡ true) × (lacks b'=' t ≡ true) × (lacks b'#' t ≡ true)

-- None of those, and none that stands for another byte.
abbrev pub IsPlain : Text → Type 0
IsPlain t = IsUnbroken t × (lacks b'%' t ≡ true) × (lacks b'+' t ≡ true)

abbrev pub IsUnbrokenPair : Text × Text → Type 0
IsUnbrokenPair (key, value) = IsUnbroken key × IsUnbroken value

abbrev pub IsPlainPair : Text × Text → Type 0
IsPlainPair (key, value) = IsPlain key × IsPlain value
