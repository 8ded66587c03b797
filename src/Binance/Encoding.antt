-- ===== src/Binance/Encoding.antt =====
-- Percent-encoding as a venue reads it, crates/wickra-exchange-core/src/exchanges/binance.rs.
use wickra_exchange.Prelude.{
  ℕ, ◌≡◌, refl, ap, ◌∙◌, true, false, Bool-cases, List, [], ◌∷◌, map, ◌==◌, ◌/◌, ◌%◌, ◌<◌, inl, inr,
  arith, All,
}
use wickra_exchange.Prelude.Text.{Text}
use wickra_exchange.Binance.{hex_upper, is_unreserved, percent_encode}
use wickra_exchange.Transport.Query.{
  is_hex_digit, hex_digit_value, percent_decode, read_query, lacks, IsUnbroken, IsUnbrokenPair,
  IsPlain,
}
use wickra_exchange.Transport.Query.Laws.{
  pairs_text, decoded, read_query-pairs_text, percent_decode_plain,
}

hex_upper_digit :
    (n : ℕ) → n < 16 → (is_hex_digit (hex_upper n) ≡ true) × (hex_digit_value (hex_upper n) ≡ n)
unfolding is_hex_digit hex_digit_value
hex_upper_digit n h = ground arith

decode_unreserved :
    (c : ℕ) (t : Text) → is_unreserved c ≡ true → percent_decode (c ∷ t) ≡ c ∷ percent_decode t
unfolding percent_decode is_unreserved
decode_unreserved c [] h = ground arith
decode_unreserved c (x ∷ []) h = ground arith
decode_unreserved c (x ∷ y ∷ t) h = ground arith

decode_escape :
    (b : ℕ) (t : Text)
    → b < 256
    → percent_decode (b'%' ∷ hex_upper (b / 16) ∷ hex_upper (b % 16) ∷ t) ≡ b ∷ percent_decode t
unfolding percent_decode
decode_escape b t h =
    let (high, high_value) = hex_upper_digit (b / 16) (omega arith) in
    let (low, low_value) = hex_upper_digit (b % 16) (omega arith) in
    rw (high, low) (ap (λ n. n ∷ percent_decode t) (omega (arith, high_value, low_value)))

pub percent_decode-percent_encode :
    (s : Text) → All (λ b. b < 256) s → percent_decode (percent_encode s) ≡ s
unfolding percent_encode percent_decode
percent_decode-percent_encode [] h = refl
percent_decode-percent_encode (b ∷ s) (hb, hs) = elim (Bool-cases (is_unreserved b)) [
  | inl q ↦
      rw (q, percent_encode)
        (decode_unreserved b (percent_encode s) q
          ∙ ap (λ t. b ∷ t) (percent_decode-percent_encode s hs))
  | inr q ↦
      rw (q, percent_encode)
        (decode_escape b (percent_encode s) hb
          ∙ ap (λ t. b ∷ t) (percent_decode-percent_encode s hs))
]

unreserved_other : (b s : ℕ) → is_unreserved b ≡ true → is_unreserved s ≡ false → (b == s) ≡ false
unreserved_other b s h k = ground arith

hex_upper_unreserved : (n : ℕ) → n < 16 → is_unreserved (hex_upper n) ≡ true
unfolding is_unreserved
hex_upper_unreserved n h = ground arith

-- A reserved byte other than `%` does not occur in what is encoded.
lacks-percent_encode :
    (s : ℕ) (t : Text)
    → is_unreserved s ≡ false
    → (b'%' == s) ≡ false
    → All (λ b. b < 256) t
    → lacks s (percent_encode t) ≡ true
unfolding percent_encode
lacks-percent_encode s [] r p h = refl
lacks-percent_encode s (b ∷ t) r p (hb, hs) =
    let rest = lacks-percent_encode s t r p hs in
    elim (Bool-cases (is_unreserved b)) [
      | inl q ↦ rw (q, percent_encode) (rw (unreserved_other b s q r) rest)
      | inr q ↦
          let high = hex_upper_unreserved (b / 16) (omega arith) in
          let low = hex_upper_unreserved (b % 16) (omega arith) in
          rw (q, percent_encode)
            (rw
              (
                p,
                unreserved_other (hex_upper (b / 16)) s high r,
                unreserved_other (hex_upper (b % 16)) s low r,
              )
              rest)
    ]

percent_encode-IsUnbroken : (s : Text) → All (λ b. b < 256) s → IsUnbroken (percent_encode s)
unfolding is_unreserved
percent_encode-IsUnbroken s h = (
  lacks-percent_encode b'&' s refl refl h,
  lacks-percent_encode b'=' s refl refl h,
  lacks-percent_encode b'#' s refl refl h,
)

-- A parameter with its value percent-encoded.
abbrev pub encoded : Text × Text → Text × Text
encoded (key, value) = (key, percent_encode value)

-- A key with no special byte, and a value of bytes.
abbrev pub IsParameter : Text × Text → Type 0
IsParameter (key, value) = IsPlain key × All (λ b. b < 256) value

encoded-IsUnbrokenPair :
    (ps : List (Text × Text)) → All IsParameter ps → All IsUnbrokenPair (map encoded ps)
encoded-IsUnbrokenPair [] h = tt
encoded-IsUnbrokenPair ((key, value) ∷ ps) ((hk, hv), hs) =
    ((hk.0, percent_encode-IsUnbroken value hv), encoded-IsUnbrokenPair ps hs)

decoded-encoded : (ps : List (Text × Text)) → All IsParameter ps → map decoded (map encoded ps) ≡ ps
decoded-encoded [] h = refl
decoded-encoded ((key, value) ∷ ps) ((hk, hv), hs) = cc (
  percent_decode_plain key hk.1 hk.2,
  percent_decode-percent_encode value hv,
  decoded-encoded ps hs,
)

-- Parameters whose values are percent-encoded, joined by `&`, are read back by a venue as just these
-- parameters, whatever bytes their values hold: it ends its reading at `#`, splits at `&` and at the
-- first `=`, and decodes `+` and `%XY`. The keys have none of those bytes.
pub read_query-percent_encode :
    (ps : List (Text × Text)) → All IsParameter ps → read_query (pairs_text (map encoded ps)) ≡ ps
read_query-percent_encode ps h =
    read_query-pairs_text (map encoded ps) (encoded-IsUnbrokenPair ps h) ∙ decoded-encoded ps h
