-- ===== src/Symbol.antt =====
-- The venue-neutral market, crates/wickra-exchange-core/src/symbol.rs: a base asset against a
-- quote asset.
pub mod RoundTrip
mod Tests
use Prim.Native.Nat.{Ordering}
use Prim.Native.Nat.Ordering.{lt, eq, gt}
use wickra_exchange.Prelude.{
  ℕ, ◌≡◌, Bool, true, false, ◌&&◌, ◌||◌, Option, none, some, List, [], ◌∷◌, ◌++◌, arith, ◌==◌,
  if◌then◌else◌,
}
use wickra_exchange.Prelude.Text.{Text, codes, to_ascii_uppercase}
use wickra_exchange.Prelude.Ord.{Ord, text_ord, same, text_cmp}
use wickra_exchange.Error.{Result, ok, err, invalid_symbol}

pub record Symbol : Type 0 where
  pub base : Text
  pub quote : Text

-- `Symbol::new`
unfoldable pub new : Text → Text → Symbol
new base quote = record { base = to_ascii_uppercase base; quote = to_ascii_uppercase quote }

unfoldable pub to_concatenated : Symbol → Text
to_concatenated s = s.base ++ s.quote

-- `Display`
unfoldable pub display : Symbol → Text
display s = s.base ++ (b'/' ∷ s.quote)

-- `split_once(['/', '-'])`: the parts before and after the first separator.
unfoldable pub split_once : Text → Option (Text × Text)
split_once [] = none
split_once (c ∷ t) =
    if (c == b'/') || (c == b'-')
    then some ([], t)
    else elim (split_once t) [ none ↦ none | some (l, r) ↦ some (c ∷ l, r) ]

abbrev pub is_empty : Text → Bool
is_empty [] = true
is_empty (c ∷ t) = false

-- `FromStr`
unfoldable pub from_str : Text → Result Symbol
unfolding split_once new
from_str s = elim (split_once s) [
  | none ↦ err (invalid_symbol s)
  | some (base, quote) ↦
      if is_empty base || is_empty quote then err (invalid_symbol s) else ok (new base quote)
]

-- The derived `Eq`, and an order by which a map is keyed.
abbrev pub then_cmp : Ordering → Ordering → Ordering
then_cmp eq second = second
then_cmp first _ = first

abbrev pub symbol_cmp : Symbol → Symbol → Ordering
symbol_cmp a b = then_cmp (text_cmp a.base b.base) (text_cmp a.quote b.quote)

pub symbol_cmp_refl : (a : Symbol) → symbol_cmp a a ≡ eq
symbol_cmp_refl a = simp (text_ord.cmp_refl)

pub symbol_eq_of_cmp : (a b : Symbol) → symbol_cmp a b ≡ eq → a ≡ b
symbol_eq_of_cmp a b h =
    ground (arith, text_ord.eq_of_cmp a.base b.base, text_ord.eq_of_cmp a.quote b.quote)

pub symbol_lt_of_gt : (a b : Symbol) → symbol_cmp a b ≡ gt → symbol_cmp b a ≡ lt
symbol_lt_of_gt a b h = ground (
  arith,
  text_ord.eq_of_cmp a.base b.base,
  text_ord.cmp_refl b.base,
  text_ord.lt_of_gt a.base b.base,
  text_ord.lt_of_gt a.quote b.quote,
)

pub symbol_gt_of_lt : (a b : Symbol) → symbol_cmp a b ≡ lt → symbol_cmp b a ≡ gt
symbol_gt_of_lt a b h = ground (
  arith,
  text_ord.eq_of_cmp a.base b.base,
  text_ord.cmp_refl b.base,
  text_ord.gt_of_lt a.base b.base,
  text_ord.gt_of_lt a.quote b.quote,
)

pub symbol_lt_trans :
    (a b c : Symbol) → symbol_cmp a b ≡ lt → symbol_cmp b c ≡ lt → symbol_cmp a c ≡ lt
symbol_lt_trans a b c h k = ground (
  arith,
  text_ord.eq_of_cmp a.base b.base,
  text_ord.eq_of_cmp b.base c.base,
  text_ord.lt_trans a.base b.base c.base,
  text_ord.lt_trans a.quote b.quote c.quote,
)

instance abbrev pub symbol_ord : Ord Symbol
symbol_ord = record {
  cmp = symbol_cmp;
  cmp_refl = symbol_cmp_refl;
  eq_of_cmp = symbol_eq_of_cmp;
  lt_of_gt = symbol_lt_of_gt;
  gt_of_lt = symbol_gt_of_lt;
  lt_trans = symbol_lt_trans;
}
