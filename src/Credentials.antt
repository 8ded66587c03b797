-- ===== src/Credentials.antt =====
-- API credentials, crates/wickra-exchange-core/src/credentials.rs. Their `Debug` and the wiping
-- of the memory are left out.
use wickra_exchange.Prelude.{Bool, true, false, Option, none, some, [], ◌∷◌}
use wickra_exchange.Prelude.Text.{Text, codes}
use wickra_exchange.Error.{Result, ok, invalid_credentials, err_if, ◌>>◌}

pub record Credentials : Type 0 where
  pub api_key : Text
  pub api_secret : Text
  pub passphrase : Option Text
  pub private_key : Option Text

unfoldable pub new : Text → Text → Credentials
new api_key api_secret = record {
  api_key = api_key;
  api_secret = api_secret;
  passphrase = none;
  private_key = none;
}

unfoldable pub with_passphrase : Credentials → Text → Credentials
with_passphrase c passphrase = record c { passphrase = some passphrase }

unfoldable pub with_private_key : Credentials → Text → Credentials
with_private_key c private_key = record c { private_key = some private_key }

abbrev pub is_empty : Text → Bool
is_empty [] = true
is_empty (_ ∷ _) = false

unfoldable pub validate : Credentials → Result (Unit {0})
validate c =
    err_if (is_empty c.api_key) (invalid_credentials (codes "api key must not be empty"))
    >> err_if (is_empty c.api_secret) (invalid_credentials (codes "api secret must not be empty"))
    >> ok tt

abbrev pub is_some : Option Text → Bool
is_some none = false
is_some (some _) = true

unfoldable pub has_passphrase : Credentials → Bool
has_passphrase c = is_some c.passphrase

unfoldable pub has_private_key : Credentials → Bool
has_private_key c = is_some c.private_key
