-- ===== src/Coinbase/Written.antt =====
-- Reading what was written into a JSON object: the fields and configurations of Coinbase's orders.
use wickra_exchange.Prelude.{
  ◌≡◌, refl, ap, ◌∙◌, Bool, true, false, not, ◌&&◌, ◌||◌, Option, none, some, List, [], ◌∷◌,
  if◌then◌else◌,
}
use wickra_exchange.Prelude.Text.{Text, codes}
use wickra_exchange.Prelude.Ord.{text_ord, same}
use wickra_exchange.Decimal.{Decimal}
use wickra_exchange.Error.{ok, to_option}
use wickra_exchange.Types.{market, limit}
use wickra_exchange.Normalize.{format_decimal, parse_decimal}
use wickra_exchange.Platform.{Platform, and_then, or_default}
use wickra_exchange.Coinbase.Orders.{keyed}
use wickra_exchange.Coinbase.Parse.{type_of, quantity_of, opt_dec, str_field}

abbrev pub has_key {ℓ} : {A : Type ℓ} → Text → List (Text × A) → Bool
has_key key [] = false
has_key key ((k, _) ∷ rest) = same k key || has_key key rest

abbrev pub distinct_keys {ℓ} : {A : Type ℓ} → List (Text × A) → Bool
distinct_keys [] = true
distinct_keys ((k, _) ∷ rest) = not (has_key k rest) && distinct_keys rest

abbrev pub value_at {ℓ} : {A : Type ℓ} → Text → List (Text × A) → Option A
value_at key [] = none
value_at key ((k, v) ∷ rest) = if same k key then some v else value_at key rest

-- What is asked of the platform: an object with distinct keys gives the values it was built of,
-- the first value of an object with one key is that key's, text is text, and the text of a decimal
-- is read as that decimal.
pub record ReadsBack {J D F K : Type 0} (pf : Platform J D F K) : Type 0 where
  pub get_object :
      (fields : List (Text × J)) (key : Text)
      → distinct_keys fields ≡ true
      → pf.get (pf.object fields) key ≡ value_at key fields
  pub first_of_one : (key : Text) (v : J) → pf.first_value (pf.object ((key, v) ∷ [])) ≡ some v
  pub as_str_text : (t : Text) → pf.as_str (pf.text t) ≡ some t
  pub read_normalized : (x : D) → pf.read_decimal (pf.trim (pf.normalized x)) ≡ some x

module _ {J D F K : Type 0} ⦃d : Decimal D⦄ (pf : Platform J D F K) (laws : ReadsBack pf) where
  -- A number that was written under a key.
  pub opt_dec_lem :
      (fields : List (Text × J)) (key : Text) (x : D)
      → distinct_keys fields ≡ true
      → value_at key fields ≡ some (pf.text (format_decimal pf x))
      → opt_dec pf (pf.object fields) key ≡ x
  unfolding opt_dec parse_decimal format_decimal
  opt_dec_lem fields key x h k =
      ap
        (λ o.
          or_default (and_then (and_then o pf.as_str) (λ s. to_option (parse_decimal pf s)))
            d.nought)
        (laws.get_object fields key h ∙ k)
      ∙ ap (λ o. or_default (and_then o (λ s. to_option (parse_decimal pf s))) d.nought)
          (laws.as_str_text (pf.normalized x))
      ∙ rw (laws.read_normalized x, parse_decimal) refl

  pub quantity_of_lem :
      (key : Text) (fields : List (Text × J)) (x : D)
      → distinct_keys fields ≡ true
      → value_at (codes "base_size") fields ≡ some (pf.text (format_decimal pf x))
      → quantity_of pf (some (keyed pf key fields)) ≡ x
  unfolding quantity_of
  quantity_of_lem key fields x h k =
      ap (λ o. elim o [ none ↦ d.nought | some cfg ↦ opt_dec pf cfg (codes "base_size") ])
        (laws.first_of_one key (pf.object fields))
      ∙ opt_dec_lem fields (codes "base_size") x h k

  -- A configuration under any key but the two that are read as a limit order's.
  pub type_of_other :
      (key : Text) (fields : List (Text × J))
      → same key (codes "limit_limit_gtc") ≡ false
      → same key (codes "limit_limit_gtd") ≡ false
      → type_of pf (some (keyed pf key fields)) ≡ (market, d.nought)
  unfolding type_of
  type_of_other key fields h k =
      let read = laws.get_object ((key, pf.object fields) ∷ []) in
      rw (read (codes "limit_limit_gtc") refl, h, read (codes "limit_limit_gtd") refl, k, type_of)
        refl

  pub type_of_gtc :
      (fields : List (Text × J)) (x : D)
      → distinct_keys fields ≡ true
      → value_at (codes "limit_price") fields ≡ some (pf.text (format_decimal pf x))
      → type_of pf (some (keyed pf (codes "limit_limit_gtc") fields)) ≡ (limit, x)
  unfolding type_of
  type_of_gtc fields x h k =
      rw
        (
          laws.get_object ((codes "limit_limit_gtc", pf.object fields) ∷ [])
              (codes "limit_limit_gtc") refl,
          type_of,
        )
        (ap (λ p. (limit, p)) (opt_dec_lem fields (codes "limit_price") x h k))

  pub str_field_lem :
      (fields : List (Text × J)) (key t : Text)
      → distinct_keys fields ≡ true
      → value_at key fields ≡ some (pf.text t)
      → str_field pf (pf.object fields) key ≡ ok t
  unfolding str_field
  str_field_lem fields key t h k =
      rw (laws.get_object fields key h, k, str_field) (rw (laws.as_str_text t) refl)

  pub opt_dec_missing :
      (fields : List (Text × J)) (key : Text)
      → distinct_keys fields ≡ true
      → value_at key fields ≡ none
      → opt_dec pf (pf.object fields) key ≡ d.nought
  unfolding opt_dec
  opt_dec_missing fields key h k = rw (laws.get_object fields key h, k, opt_dec) refl
