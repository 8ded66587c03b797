-- ===== src/Upbit/WireSymbol.antt =====
-- The wire symbol, printed and split.
use wickra_exchange.Prelude.{◌≡◌, ◌≢◌, refl, false, none, [], ◌∷◌, ◌++◌, ◌∙◌}
use wickra_exchange.Prelude.Text.{Text, to_ascii_uppercase}
use wickra_exchange.Prelude.Strings.{split_at, split_at-append}
use wickra_exchange.Symbol.{new}
use wickra_exchange.Symbol.RoundTrip.{new_idem}
use wickra_exchange.Upbit.{wire_symbol, split_wire_symbol, is_empty}

split_lem :
    (quote base : Text)
    → split_at b'-' quote ≡ none
    → is_empty quote ≡ false
    → is_empty base ≡ false
    → split_wire_symbol (quote ++ (b'-' ∷ base)) ≡ new base quote
unfolding split_wire_symbol
split_lem quote base h hq hb =
    rw (split_at-append b'-' quote base h, hq, hb, split_wire_symbol) refl

-- A symbol made by `Symbol::new` from two parts that are not empty, the quote without a dash, is
-- read back from its quote-first wire form, base and quote in their places again.
pub split_wire_symbol-wire_symbol :
    (base quote : Text)
    → split_at b'-' (to_ascii_uppercase quote) ≡ none
    → base ≢ []
    → quote ≢ []
    → split_wire_symbol (wire_symbol (new base quote)) ≡ new base quote
unfolding wire_symbol new to_ascii_uppercase
split_wire_symbol-wire_symbol [] quote h hb hq = absurd (hb refl)
split_wire_symbol-wire_symbol (b ∷ base) [] h hb hq = absurd (hq refl)
split_wire_symbol-wire_symbol (b ∷ base) (q ∷ quote) h hb hq =
    split_lem (to_ascii_uppercase (q ∷ quote)) (to_ascii_uppercase (b ∷ base)) h refl refl
    ∙ new_idem (b ∷ base) (q ∷ quote)
