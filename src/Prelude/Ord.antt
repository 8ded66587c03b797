-- ===== src/Prelude/Ord.antt =====
-- The bound `K: Ord` of the standard library's ordered maps, with the laws that the trait asks of
-- `cmp`, and the order of text.
use Prim.Native.Nat.{compare, Ordering}
use Prim.Native.Nat.Ordering.{lt, eq, gt}
use mathlib.Core.Path.{◌≡◌, refl}
use mathlib.Core.Bool.{Bool, true, false}
use mathlib.Core.List.{[], ◌∷◌}
use native.Mathlib.Omega.{arith}
use wickra_exchange.Prelude.Text.{Text}

pub record Ord {ℓ} (K : Type ℓ) : Type ℓ where
  pub cmp : K → K → Ordering
  pub lt_trans : (x y z : K) → cmp x y ≡ lt → cmp y z ≡ lt → cmp x z ≡ lt
  pub gt_of_lt : (x y : K) → cmp x y ≡ lt → cmp y x ≡ gt
  pub lt_of_gt : (x y : K) → cmp x y ≡ gt → cmp y x ≡ lt
  pub eq_of_cmp : (x y : K) → cmp x y ≡ eq → x ≡ y
  pub cmp_refl : (x : K) → cmp x x ≡ eq

-- Strictly before, in the key order.
infix 50 ◌≺◌
abbrev pub ◌≺◌ {ℓ} : {K : Type ℓ} ⦃key : Ord K⦄ → K → K → Type 0
◌≺◌ ⦃key⦄ i j = key.cmp i j ≡ lt

-- `==`, as the order decides it.
abbrev pub same {ℓ} : {K : Type ℓ} ⦃o : Ord K⦄ → K → K → Bool
same ⦃o⦄ a b = elim (o.cmp a b) [ eq ↦ true | _ ↦ false ]

-- Bytes are compared from the left, and a prefix comes first.
abbrev pub text_cmp : Text → Text → Ordering
text_cmp [] [] = eq
text_cmp [] (d ∷ t) = lt
text_cmp (c ∷ s) [] = gt
text_cmp (c ∷ s) (d ∷ t) = elim (compare c d) [ lt ↦ lt | eq ↦ text_cmp s t | gt ↦ gt ]

pub text_cmp_refl : (a : Text) → text_cmp a a ≡ eq
text_cmp_refl [] = refl
text_cmp_refl (c ∷ s) = ground (arith, text_cmp_refl s)

pub text_eq_of_cmp : (a b : Text) → text_cmp a b ≡ eq → a ≡ b
text_eq_of_cmp [] [] h = refl
text_eq_of_cmp [] (d ∷ t) h = cc
text_eq_of_cmp (c ∷ s) [] h = cc
text_eq_of_cmp (c ∷ s) (d ∷ t) h = ground (arith, text_eq_of_cmp s t)

pub text_lt_of_gt : (a b : Text) → text_cmp a b ≡ gt → text_cmp b a ≡ lt
text_lt_of_gt [] [] h = cc
text_lt_of_gt [] (d ∷ t) h = cc
text_lt_of_gt (c ∷ s) [] h = refl
text_lt_of_gt (c ∷ s) (d ∷ t) h = ground (arith, text_lt_of_gt s t)

pub text_gt_of_lt : (a b : Text) → text_cmp a b ≡ lt → text_cmp b a ≡ gt
text_gt_of_lt [] [] h = cc
text_gt_of_lt [] (d ∷ t) h = refl
text_gt_of_lt (c ∷ s) [] h = cc
text_gt_of_lt (c ∷ s) (d ∷ t) h = ground (arith, text_gt_of_lt s t)

pub text_lt_trans : (a b c : Text) → text_cmp a b ≡ lt → text_cmp b c ≡ lt → text_cmp a c ≡ lt
text_lt_trans [] [] c h k = cc
text_lt_trans [] (y ∷ b) [] h k = cc
text_lt_trans [] (y ∷ b) (z ∷ c) h k = refl
text_lt_trans (x ∷ a) [] c h k = cc
text_lt_trans (x ∷ a) (y ∷ b) [] h k = cc
text_lt_trans (x ∷ a) (y ∷ b) (z ∷ c) h k = ground (arith, text_lt_trans a b c)

instance abbrev pub text_ord : Ord Text
text_ord = record {
  cmp = text_cmp;
  cmp_refl = text_cmp_refl;
  eq_of_cmp = text_eq_of_cmp;
  lt_of_gt = text_lt_of_gt;
  gt_of_lt = text_gt_of_lt;
  lt_trans = text_lt_trans;
}
