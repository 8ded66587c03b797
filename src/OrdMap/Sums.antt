-- ===== src/OrdMap/Sums.antt =====
-- A sum of integers over the values of a map, under each update.
use wickra_exchange.Prelude.{◌≡◌, Option, none, some, [], ◌∷◌}
use wickra_exchange.Prelude.Int.{ℤ, pos, ◌+ℤ◌, int_laws}
use wickra_exchange.Prelude.Ord.{Ord}
use wickra_exchange.OrdMap.{OrdMap, lookup, insert}

abbrev pub sum_of {ℓ κ} : {K : Type ℓ} {V : Type κ} → (V → ℤ) → OrdMap K V → ℤ
sum_of f [] = pos 0
sum_of f ((k, v) ∷ m) = f v +ℤ sum_of f m

-- What the entry at a key contributes.
abbrev pub share {κ} : {V : Type κ} → (V → ℤ) → Option V → ℤ
share f none = pos 0
share f (some v) = f v

module _ {ℓ κ} {K : Type ℓ} {V : Type κ} ⦃o : Ord K⦄ where
  pub sum_of-insert :
      (f : V → ℤ) (k : K) (v : V) (m : OrdMap K V)
      → sum_of f (insert k v m) +ℤ share f (lookup k m) ≡ sum_of f m +ℤ f v
  unfolding insert lookup
  sum_of-insert f k v [] = omega int_laws
  sum_of-insert f k v ((j, w) ∷ m) = grind (int_laws, sum_of-insert f k v m)
