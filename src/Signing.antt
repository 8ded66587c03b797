-- ===== src/Signing.antt =====
-- The signing primitives, crates/wickra-exchange-core/src/signing.rs, over the digests and
-- encodings of the platform.
use wickra_exchange.Prelude.{none, some}
use wickra_exchange.Prelude.Text.{Text, codes}
use wickra_exchange.Error.{Result, ok, err, invalid_credentials}
use wickra_exchange.Platform.{Platform}

module _ {J D F K : Type 0} (pf : Platform J D F K) where
  unfoldable pub hmac_sha256_hex : Text → Text → Text
  hmac_sha256_hex secret message = pf.hex (pf.hmac_sha256 secret message)

  unfoldable pub hmac_sha256_base64 : Text → Text → Text
  hmac_sha256_base64 secret message = pf.base64 (pf.hmac_sha256 secret message)

  unfoldable pub hmac_sha512_hex : Text → Text → Text
  hmac_sha512_hex secret message = pf.hex (pf.hmac_sha512 secret message)

  unfoldable pub hmac_sha512_base64 : Text → Text → Text
  hmac_sha512_base64 secret message = pf.base64 (pf.hmac_sha512 secret message)

  unfoldable pub hmac_sha512_bytes : Text → Text → Text
  hmac_sha512_bytes secret message = pf.hmac_sha512 secret message

  unfoldable pub sha256 : Text → Text
  sha256 bytes = pf.sha256 bytes

  unfoldable pub sha512_hex : Text → Text
  sha512_hex bytes = pf.hex (pf.sha512 bytes)

  unfoldable pub hmac_sha512_base64_with_b64_secret : Text → Text → Result Text
  unfolding hmac_sha512_base64
  hmac_sha512_base64_with_b64_secret secret_b64 message =
      elim (pf.read_base64 (pf.trim secret_b64)) [
        | none ↦ err (invalid_credentials (codes "api secret must be valid base64"))
        | some secret ↦ ok (hmac_sha512_base64 secret message)
      ]
