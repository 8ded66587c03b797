-- ===== src/OrdMap/Laws.antt =====
-- The order of the entries, and what is read back after an insertion or a removal.
use wickra_exchange.Prelude.{◌≡◌, refl, none, some, [], ◌∷◌, arith, if◌then◌else◌}
use wickra_exchange.Prelude.Ord.{Ord, ◌≺◌, same}
use wickra_exchange.OrdMap.{OrdMap, lookup, insert, remove}

module _ {ℓ κ} {K : Type ℓ} {V : Type κ} ⦃o : Ord K⦄ where
  -- Every key of the map comes after `k`.
  abbrev pub Above : K → OrdMap K V → Type 0
  Above k [] = Unit
  Above k ((j, w) ∷ m) = (k ≺ j) × Above k m

  abbrev pub IsSorted : OrdMap K V → Type 0
  IsSorted [] = Unit
  IsSorted ((j, w) ∷ m) = Above j m × IsSorted m

  Above-trans : (i j : K) (m : OrdMap K V) → i ≺ j → Above j m → Above i m
  Above-trans i j [] h a = tt
  Above-trans i j ((k, w) ∷ m) h a = (o.lt_trans i j k h a.0, Above-trans i j m h a.1)

  Above-insert : (i k : K) (v : V) (m : OrdMap K V) → i ≺ k → Above i m → Above i (insert k v m)
  unfolding insert
  Above-insert i k v [] h a = (h, tt)
  Above-insert i k v ((j, w) ∷ m) h a = ground (arith, Above-insert i k v m)

  Above-remove : (i k : K) (m : OrdMap K V) → Above i m → Above i (remove k m)
  unfolding remove
  Above-remove i k [] a = tt
  Above-remove i k ((j, w) ∷ m) a = ground (arith, Above-remove i k m)

  pub insert-IsSorted : (k : K) (v : V) (m : OrdMap K V) → IsSorted m → IsSorted (insert k v m)
  unfolding insert
  insert-IsSorted k v [] s = (tt, tt)
  insert-IsSorted k v ((j, w) ∷ m) s = ground (
    arith,
    insert-IsSorted k v m,
    Above-insert j k v m,
    Above-trans k j m,
    o.lt_of_gt k j,
    o.eq_of_cmp k j,
  )

  pub remove-IsSorted : (k : K) (m : OrdMap K V) → IsSorted m → IsSorted (remove k m)
  unfolding remove
  remove-IsSorted k [] s = tt
  remove-IsSorted k ((j, w) ∷ m) s = ground (arith, remove-IsSorted k m, Above-remove j k m)

  pub lookup-Above : (k : K) (m : OrdMap K V) → Above k m → lookup k m ≡ none
  unfolding lookup
  lookup-Above k [] a = refl
  lookup-Above k ((j, w) ∷ m) a = ground arith

  -- The first entry of a sorted map, and the rest.
  pub lookup-cons :
      (k j : K) (w : V) (m : OrdMap K V)
      → Above j m
      → lookup k ((j, w) ∷ m) ≡ (if same j k then some w else lookup k m)
  unfolding lookup
  lookup-cons k j w m a = ground (
    arith,
    lookup-Above k m,
    Above-trans k j m,
    o.lt_of_gt k j,
    o.gt_of_lt k j,
    o.eq_of_cmp k j,
    o.eq_of_cmp j k,
    o.cmp_refl k,
  )

  -- An insertion is read back at its key and changes no other.
  pub lookup-insert :
      (k j : K) (v : V) (m : OrdMap K V)
      → lookup j (insert k v m) ≡ (if same k j then some v else lookup j m)
  unfolding lookup insert
  lookup-insert k j v [] = ground (
    arith,
    o.lt_of_gt k j,
    o.gt_of_lt k j,
    o.eq_of_cmp k j,
    o.cmp_refl k,
    o.cmp_refl j,
    o.lt_of_gt j k,
    o.eq_of_cmp j k,
  )
  lookup-insert k j v ((i, w) ∷ m) = ground (
    arith,
    lookup-insert k j v m,
    o.lt_of_gt k j,
    o.gt_of_lt k j,
    o.eq_of_cmp k j,
    o.eq_of_cmp j k,
    o.lt_of_gt j k,
    o.cmp_refl j,
    o.eq_of_cmp k i,
    o.eq_of_cmp j i,
    o.lt_trans j k i,
  )

  -- A removal, in a map that is in order, is read back as an absence at its key alone.
  pub lookup-remove :
      (k j : K) (m : OrdMap K V)
      → IsSorted m
      → lookup j (remove k m) ≡ (if same k j then none else lookup j m)
  unfolding lookup remove
  lookup-remove k j [] s = ground arith
  lookup-remove k j ((i, w) ∷ m) s = ground (
    arith,
    lookup-remove k j m s.1,
    lookup-Above i m s.0,
    o.eq_of_cmp k j,
    o.eq_of_cmp j k,
    o.eq_of_cmp k i,
    o.eq_of_cmp j i,
    o.lt_of_gt k j,
    o.gt_of_lt k j,
    o.lt_of_gt j k,
    o.cmp_refl j,
    o.cmp_refl i,
    o.lt_trans j k i,
    lookup-Above j m,
    Above-trans j i m,
  )

  -- A statement about every entry.
  abbrev pub AllEntries {μ} : (K → V → Type μ) → OrdMap K V → Type μ
  AllEntries P [] = Unit
  AllEntries P ((k, v) ∷ m) = P k v × AllEntries P m

  pub insert-AllEntries {μ} :
      (P : K → V → Type μ) (k : K) (v : V) (m : OrdMap K V)
      → P k v
      → AllEntries P m
      → AllEntries P (insert k v m)
  unfolding insert
  insert-AllEntries P k v [] h s = (h, tt)
  insert-AllEntries P k v ((j, w) ∷ m) h s = ground (arith, insert-AllEntries P k v m)

  pub lookup-AllEntries {μ} :
      (P : K → V → Type μ) (k : K) (v : V) (m : OrdMap K V)
      → lookup k m ≡ some v
      → AllEntries P m
      → P k v
  unfolding lookup
  lookup-AllEntries P k v [] h s = cc
  lookup-AllEntries P k v ((j, w) ∷ m) h s =
      ground (arith, lookup-AllEntries P k v m, o.eq_of_cmp k j)

  AllEntries-imp {μ ν} :
      (P : K → V → Type μ) (Q : K → V → Type ν) (j : K) (m : OrdMap K V)
      → ((k : K) (v : V) → j ≺ k → P k v → Q k v)
      → Above j m
      → AllEntries P m
      → AllEntries Q m
  AllEntries-imp P Q j [] f a h = tt
  AllEntries-imp P Q j ((k, v) ∷ m) f a h = (f k v a.0 h.0, AllEntries-imp P Q j m f a.1 h.1)

  -- In a map that is in order, every entry is the one read at its key.
  pub AllEntries-lookup :
      (m : OrdMap K V) → IsSorted m → AllEntries (λ (k : K) (v : V). lookup k m ≡ some v) m
  AllEntries-lookup [] s = tt
  AllEntries-lookup ((j, w) ∷ m) s = (
    unfold lookup in ground (arith, o.cmp_refl j),
    AllEntries-imp (λ (k : K) (v : V). lookup k m ≡ some v) _ j m
        (λ k v after e. unfold lookup in ground (arith, o.lt_of_gt k j, o.gt_of_lt j k)) s.0
        (AllEntries-lookup m s.1),
  )
