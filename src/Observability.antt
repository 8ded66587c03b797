-- ===== src/Observability.antt =====
-- Health of a connection and redaction of secrets, crates/wickra-exchange-core/src/observability.rs.
use wickra_exchange.Prelude.{
  ℕ, zero, suc, Bool, false, ◌&&◌, Option, none, some, [], ◌∷◌, ◌++◌, length, ◌-◌, if◌then◌else◌,
}
use wickra_exchange.Prelude.Int.{ℤ, leb_ℤ}
use wickra_exchange.Prelude.Word.{sub_i64}
use wickra_exchange.Prelude.Text.{Text, codes}
use wickra_exchange.Prelude.Strings.{starts_with}

pub record Health : Type 0 where
  pub connected : Bool
  pub last_message_ms : Option ℤ
  pub clock_offset_ms : ℤ
  pub rate_budget_used : ℕ
  pub reconnects : ℕ

unfoldable pub staleness_ms : Health → ℤ → Option ℤ
unfolding sub_i64
staleness_ms h now_ms = elim h.last_message_ms [
  | none ↦ none
  | some last ↦ some (sub_i64 now_ms last)
]

unfoldable pub is_healthy : Health → ℤ → ℤ → Bool
unfolding staleness_ms
is_healthy h now_ms max_staleness_ms =
    h.connected && elim (staleness_ms h now_ms) [ none ↦ false | some s ↦ leb_ℤ s max_staleness_ms ]

-- `text.replace(secret, mark)`, where `skip` bytes of an occurrence are still to pass.
unfoldable pub replace_from : ℕ → Text → Text → Text → Text
unfolding starts_with
replace_from skip secret mark [] = []
replace_from (suc skip) secret mark (c ∷ text) = replace_from skip secret mark text
replace_from zero secret mark (c ∷ text) =
    let inside = replace_from (length secret - 1) secret mark text in
    let outside = replace_from zero secret mark text in
    if starts_with (c ∷ text) secret then mark ++ inside else c ∷ outside

unfoldable pub redact : Text → Text → Text
unfolding replace_from
redact text [] = text
redact text (c ∷ secret) = replace_from zero (c ∷ secret) (codes "<redacted>") text
