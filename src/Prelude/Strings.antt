-- ===== src/Prelude/Strings.antt =====
-- Searching, joining and rendering text, as the standard library does it on bytes.
use Prim.Native.Nat.{ℕ, zero, suc, ◌+◌, ◌-◌, ◌*◌, ◌/◌, ◌%◌, ◌<◌}
use mathlib.Core.Path.{◌≡◌, ap, ◌∙◌, sym}
use mathlib.Core.Bool.{Bool, true, false, ◌&&◌, ◌||◌}
use mathlib.Core.List.{List, [], ◌∷◌, ◌++◌}
use mathlib.Core.Logic.{inl, inr}
use mathlib.Core.Option.{Option, none, some}
use native.Mathlib.Omega.{arith}
use wickra_exchange.Prelude.Tests.{ltb, ◌==◌, if◌then◌else◌, Bool-cases}
use wickra_exchange.Prelude.Text.{Text}

unfoldable pub starts_with : Text → Text → Bool
starts_with t [] = true
starts_with [] (c ∷ p) = false
starts_with (d ∷ t) (c ∷ p) = (d == c) && starts_with t p

-- `t.contains(p)`
unfoldable pub contains : Text → Text → Bool
unfolding starts_with
contains [] p = starts_with [] p
contains (d ∷ t) p = starts_with (d ∷ t) p || contains t p

-- `split_once(c)` at one byte
unfoldable pub split_at : ℕ → Text → Option (Text × Text)
split_at s [] = none
split_at s (c ∷ t) =
    if c == s
    then some ([], t)
    else elim (split_at s t) [ none ↦ none | some (l, r) ↦ some (c ∷ l, r) ]

-- The first separator is the one behind a text that has none.
pub split_at-append :
    (s : ℕ) (a b : Text) → split_at s a ≡ none → split_at s (a ++ (s ∷ b)) ≡ some (a, b)
unfolding split_at
split_at-append s [] b h = ground arith
split_at-append s (c ∷ a) b h = ground (arith, split_at-append s a b)

-- `t.strip_suffix(p)`
unfoldable pub strip_suffix : Text → Text → Option Text
unfolding starts_with
strip_suffix [] p = if starts_with [] p then some [] else none
strip_suffix (c ∷ t) p =
    let shorter = strip_suffix t p in
    if starts_with (c ∷ t) p && starts_with p (c ∷ t)
    then some []
    else elim shorter [ none ↦ none | some head ↦ some (c ∷ head) ]

unfoldable pub join : Text → List Text → Text
join separator [] = []
join separator (t ∷ []) = t
join separator (t ∷ u ∷ ts) = t ++ separator ++ join separator (u ∷ ts)

-- A hexadecimal digit, in lower case.
unfoldable pub hex_digit : ℕ → ℕ
hex_digit n = if ltb n 10 then b'0' + n else b'a' + (n - 10)

abbrev pub hex_digits : ℕ → ℕ → Text → Text
hex_digits zero n rest = rest
hex_digits (suc fuel) n rest =
    let more = hex_digits fuel (n / 16) (hex_digit (n % 16) ∷ rest) in
    if ltb n 16 then hex_digit n ∷ rest else more

-- `format!("{n:x}")`
unfoldable pub show_hex : ℕ → Text
show_hex n = hex_digits (suc n) n []

unfoldable digit_value : ℕ → ℕ
digit_value c = if ltb c b'a' then c - b'0' else c - b'a' + 10

abbrev hex_value : ℕ → Text → ℕ
hex_value acc [] = acc
hex_value acc (c ∷ t) = hex_value (acc * 16 + digit_value c) t

digit_value-hex_digit : (n : ℕ) → n < 16 → digit_value (hex_digit n) ≡ n
unfolding digit_value hex_digit
digit_value-hex_digit n h = ground arith

hex_value-hex_digits :
    (fuel n : ℕ) (rest : Text) → n < fuel → hex_value 0 (hex_digits fuel n rest) ≡ hex_value n rest
hex_value-hex_digits zero n rest h = absurd (omega arith)
hex_value-hex_digits (suc fuel) n rest h = elim (Bool-cases (ltb n 16)) [
  | inl one ↦
      rw one (ap (λ k. hex_value k rest) (omega (arith, digit_value-hex_digit n (ground arith))))
  | inr more ↦ rw more (
      hex_value-hex_digits fuel (n / 16) (hex_digit (n % 16) ∷ rest) (ground arith)
      ∙ ap (λ k. hex_value k rest) (omega (arith, digit_value-hex_digit (n % 16) (omega arith))))
]

pub show_hex_injective : (m n : ℕ) → show_hex m ≡ show_hex n → m ≡ n
unfolding show_hex
show_hex_injective m n h =
    sym (hex_value-hex_digits (suc m) m [] (omega arith))
    ∙ ap (hex_value 0) h
    ∙ hex_value-hex_digits (suc n) n [] (omega arith)
