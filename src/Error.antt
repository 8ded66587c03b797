-- ===== src/Error.antt =====
-- The unified error taxonomy, crates/wickra-exchange-core/src/error.rs, and the crate's `Result`.
-- A `Duration` is a number of nanoseconds.
use wickra_exchange.Prelude.{
  ◌≡◌, refl, ◌⊎◌, inl, inr, ℕ, Bool, true, false, Option, none, some, List, [], ◌∷◌, ◌++◌,
}
use wickra_exchange.Prelude.Text.{Text, codes}
use wickra_exchange.Options.{MarketType, describe}

abbrev pub Duration : Type 0
Duration = ℕ

pub data Error : Type 0 where
  unsupported_exchange : Text → Error
  invalid_symbol : Text → Error
  invalid_credentials : Text → Error
  invalid_order : Text → Error
  filter : Text → Error
  auth : Text → Error
  insufficient_balance : Error
  rate_limited : Option Duration → Error
  order_rejected : Text → Text → Error
  exchange : Text → Text → Error
  not_found : Text → Error
  timeout : Error
  not_connected : Error
  network : Text → Error
  deserialization : Text → Error

pub data Result {ℓ} (A : Type ℓ) : Type ℓ where
  ok : A → Result A
  err : Error → Result A

unfoldable pub is_retryable : Error → Bool
is_retryable (rate_limited _) = true
is_retryable timeout = true
is_retryable (network _) = true
is_retryable _ = false

unfoldable pub code : Error → Option Text
code (order_rejected c _) = some c
code (exchange c _) = some c
code _ = none

unfoldable pub with_retry_after : Error → Option Duration → Error
with_retry_after (rate_limited none) wait = rate_limited wait
with_retry_after other _ = other

-- `?`: an error ends the function, a value is handed on.
infixl 5 ◌>>◌ ◌>>=◌
abbrev pub ◌>>=◌ {ℓ κ} : {X : Type ℓ} {Y : Type κ} → Result X → (X → Result Y) → Result Y
err refused >>= rest = err refused
ok x >>= rest = rest x

-- `?` on a check that returns nothing, then the rest.
abbrev pub ◌>>◌ {ℓ} : {A : Type ℓ} → Result (Unit {0}) → Result A → Result A
ok _ >> rest = rest
err refused >> rest = err refused

-- `if test { return Err(e) }`
abbrev pub err_if : Bool → Error → Result (Unit {0})
err_if true e = err e
err_if false e = ok tt

-- `.ok()`, `.unwrap_or(..)` and `.ok_or_else(..)`
abbrev pub to_option {ℓ} : {A : Type ℓ} → Result A → Option A
to_option (ok a) = some a
to_option (err _) = none

abbrev pub unwrap_or {ℓ} : {A : Type ℓ} → Result A → A → A
unwrap_or (ok a) _ = a
unwrap_or (err _) a = a

abbrev pub ok_or {ℓ} : {A : Type ℓ} → Option A → Error → Result A
ok_or (some a) _ = ok a
ok_or none e = err e

-- `.map(f).collect::<Result<Vec<_>>>()`: the first error ends it.
abbrev pub map_all {ℓ κ} : {A : Type ℓ} {B : Type κ} → (A → Result B) → List A → Result (List B)
map_all f [] = ok []
map_all f (x ∷ xs) = f x >>= λ y. map_all f xs >>= λ ys. ok (y ∷ ys)

-- Refusals of what a venue path cannot express. The messages have the source's runs of spaces.
unfoldable pub unsupported_trigger : Text → Error
unsupported_trigger venue = exchange (codes "unsupported") (
    venue
    ++ codes
        ": trigger (stop) orders are not implemented on this path;                  sending one without its trigger price would execute immediately                  instead of resting")

unfoldable pub unsupported_market : Text → MarketType → Error
unfolding describe
unsupported_market venue market = exchange (codes "unsupported") (
    venue
    ++ codes ": "
    ++ describe market
    ++ codes
        " is not routed by this client; the request would reach                  a different market than the one asked for")

unfoldable pub unsupported_field : Text → Text → Text → Error
unsupported_field venue field detail = exchange (codes "unsupported") (
    venue
    ++ codes ": "
    ++ field
    ++ codes " cannot be expressed on this order path ("
    ++ detail
    ++ codes
        ");                  sending the order without it would place a different order than requested")

-- To split on a result and keep the equation.
pub Result-cases {ℓ} :
    {A : Type ℓ} (r : Result A) → ((a : A) × (r ≡ ok a)) ⊎ ((e : Error) × (r ≡ err e))
Result-cases (ok a) = inl (a, refl)
Result-cases (err e) = inr (e, refl)
