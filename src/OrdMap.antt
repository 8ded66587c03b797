-- ===== src/OrdMap.antt =====
-- The standard library's `BTreeMap`, as the list of its entries in key order. A `HashMap` of the
-- program is the same model: nothing the program returns depends on the order it is walked in.
pub mod Laws
pub mod Sums
use wickra_exchange.Prelude.{Option, none, some, List, [], ◌∷◌}
use wickra_exchange.Prelude.Ord.{Ord}
use Prim.Native.Nat.Ordering.{lt, eq, gt}

abbrev pub OrdMap {ℓ κ} : Type ℓ → Type κ → Type (ℓ ⊔ κ)
OrdMap K V = List (K × V)

-- `values().cloned()`
abbrev pub values {ℓ κ} : {K : Type ℓ} {V : Type κ} → OrdMap K V → List V
values [] = []
values ((k, v) ∷ m) = v ∷ values m

module _ {ℓ κ} {K : Type ℓ} {V : Type κ} ⦃o : Ord K⦄ where
  unfoldable pub lookup : K → OrdMap K V → Option V
  lookup k [] = none
  lookup k ((j, w) ∷ m) = elim (o.cmp k j) [ lt ↦ none | eq ↦ some w | gt ↦ lookup k m ]

  unfoldable pub insert : K → V → OrdMap K V → OrdMap K V
  insert k v [] = (k, v) ∷ []
  insert k v ((j, w) ∷ m) = elim (o.cmp k j) [
    | lt ↦ (k, v) ∷ (j, w) ∷ m
    | eq ↦ (k, v) ∷ m
    | gt ↦ (j, w) ∷ insert k v m
  ]

  unfoldable pub remove : K → OrdMap K V → OrdMap K V
  remove k [] = []
  remove k ((j, w) ∷ m) = elim (o.cmp k j) [ lt ↦ (j, w) ∷ m | eq ↦ m | gt ↦ (j, w) ∷ remove k m ]
