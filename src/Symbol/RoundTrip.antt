-- ===== src/Symbol/RoundTrip.antt =====
-- Printing a symbol and parsing it back.
use wickra_exchange.Prelude.{ℕ, ◌≡◌, ◌≢◌, refl, ap, false, [], ◌∷◌, ◌++◌, some, arith, All}
use wickra_exchange.Prelude.Text.{Text, to_ascii_uppercase, to_ascii_uppercase_idem}
use wickra_exchange.Error.{ok}
use wickra_exchange.Symbol.{display, split_once, from_str, new, is_empty}

-- No separator among the bytes.
abbrev pub IsPlain : Text → Type 0
IsPlain t = All (λ c. (c ≢ b'/') × (c ≢ b'-')) t

split_once-plain : (l r : Text) → IsPlain l → split_once (l ++ (b'/' ∷ r)) ≡ some (l, r)
unfolding split_once
split_once-plain [] r h = refl
split_once-plain (c ∷ l) r h = ground (arith, split_once-plain l r h.1)

-- Upper-casing a second time changes nothing.
pub new_idem :
    (base quote : Text) → new (to_ascii_uppercase base) (to_ascii_uppercase quote) ≡ new base quote
unfolding new
new_idem base quote = simp to_ascii_uppercase_idem

is_empty-to_ascii_uppercase : (c : ℕ) (t : Text) → is_empty (to_ascii_uppercase (c ∷ t)) ≡ false
unfolding to_ascii_uppercase
is_empty-to_ascii_uppercase c t = refl

-- A symbol made by `Symbol::new` from a base without a separator and two parts that are not
-- empty is parsed back from its canonical text.
pub from_str-display :
    (base quote : Text)
    → IsPlain (to_ascii_uppercase base)
    → base ≢ []
    → quote ≢ []
    → from_str (display (new base quote)) ≡ ok (new base quote)
unfolding display from_str
from_str-display [] quote plain hb hq = absurd (hb refl)
from_str-display (b ∷ base) [] plain hb hq = absurd (hq refl)
from_str-display (b ∷ base) (q ∷ quote) plain hb hq =
    rw
      (
        split_once-plain (to_ascii_uppercase (b ∷ base)) (to_ascii_uppercase (q ∷ quote)) plain,
        from_str,
        is_empty-to_ascii_uppercase b base,
        is_empty-to_ascii_uppercase q quote,
      )
      (ap ok (new_idem (b ∷ base) (q ∷ quote)))
