-- ===== src/Paper/Units.antt =====
-- The free and locked units of each asset, and the sum of the reserves, under one change.
use wickra_exchange.Prelude.{
  ℕ, ◌≡◌, sym, ◌∙◌, ◌<◌, ◌+◌, true, false, none, some, arith, if◌then◌else◌,
}
use wickra_exchange.Prelude.Int.{pos, ◌+ℤ◌, ◌-ℤ◌, ◌≤ℤ◌, +ℤ_zero, -ℤ_zero, sub_nonneg, add_nonneg}
use wickra_exchange.Prelude.Word.{u64_mod, add_u64}
use wickra_exchange.Prelude.Text.{Text, show_injective}
use wickra_exchange.Prelude.Ord.{text_ord, same}
use wickra_exchange.OrdMap.{OrdMap, lookup, insert}
use wickra_exchange.OrdMap.Laws.{lookup-insert}
use wickra_exchange.OrdMap.Sums.{sum_of, sum_of-insert}
use wickra_exchange.Decimal.{Decimal, ltd}
use wickra_exchange.Decimal.Exact.{IsExact}
use wickra_exchange.Types.{Order, Balance}
use wickra_exchange.Paper.{
  balance_of, balance_mut, free_of, add_free, sub_free, lock, release, paper_id,
}
use wickra_exchange.Paper.Balances.{balance_of-balance_mut, free_of-eq}
use wickra_exchange.Paper.Invariant.{reserve, free_units, locked_units}

-- Ids made from two counts are the same only when the counts are.
pub same-paper_id : (m n : ℕ) → same (paper_id m) (paper_id n) ≡ true → m ≡ n
unfolding paper_id
same-paper_id m n h =
    show_injective m n (ground (arith, text_ord.eq_of_cmp (paper_id m) (paper_id n)))

pub add_u64_next : (n : ℕ) → n + 1 < u64_mod → add_u64 n 1 ≡ n + 1
unfolding add_u64
add_u64_next n h = omega arith

module _ {D : Type 0} ⦃d : Decimal D⦄ ⦃x : IsExact D⦄ where
  -- `a < b` failed: the units are the other way round.
  pub units_of_ltd : (a b : D) → ltd a b ≡ false → x.units b ≤ℤ x.units a
  units_of_ltd a b h = ground (arith, x.cmp_units a b)

  -- Releasing moves the amount back from what is locked to what is free.
  pub units-release :
      (a k : Text) (v : D) (m : OrdMap Text (Balance D))
      → let m' = balance_mut k (release v) m in
        let moved = if same k a then x.units v else pos 0 in
        (free_units a m' ≡ free_units a m +ℤ moved)
        × (locked_units a m' ≡ locked_units a m -ℤ moved)
  units-release a k v m = ground (
    arith,
    balance_of-balance_mut a k (release v) m,
    text_ord.eq_of_cmp k a,
    x.units_add (balance_of k m).free v,
    x.units_sub (balance_of k m).locked v,
    +ℤ_zero (free_units a m),
    -ℤ_zero (free_units a m),
    +ℤ_zero (locked_units a m),
    -ℤ_zero (locked_units a m),
  )

  pub units-lock :
      (a k : Text) (v : D) (m : OrdMap Text (Balance D))
      → let m' = balance_mut k (lock v) m in
        let moved = if same k a then x.units v else pos 0 in
        (free_units a m' ≡ free_units a m -ℤ moved)
        × (locked_units a m' ≡ locked_units a m +ℤ moved)
  units-lock a k v m = ground (
    arith,
    balance_of-balance_mut a k (lock v) m,
    text_ord.eq_of_cmp k a,
    x.units_sub (balance_of k m).free v,
    x.units_add (balance_of k m).locked v,
    +ℤ_zero (free_units a m),
    -ℤ_zero (free_units a m),
    +ℤ_zero (locked_units a m),
    -ℤ_zero (locked_units a m),
  )

  pub units-add_free :
      (a k : Text) (v : D) (m : OrdMap Text (Balance D))
      → let m' = balance_mut k (add_free v) m in
        (free_units a m' ≡ free_units a m +ℤ (if same k a then x.units v else pos 0))
        × (locked_units a m' ≡ locked_units a m)
  units-add_free a k v m = ground (
    arith,
    balance_of-balance_mut a k (add_free v) m,
    text_ord.eq_of_cmp k a,
    x.units_add (balance_of k m).free v,
    +ℤ_zero (free_units a m),
  )

  pub units-sub_free :
      (a k : Text) (v : D) (m : OrdMap Text (Balance D))
      → let m' = balance_mut k (sub_free v) m in
        (free_units a m' ≡ free_units a m -ℤ (if same k a then x.units v else pos 0))
        × (locked_units a m' ≡ locked_units a m)
  units-sub_free a k v m = ground (
    arith,
    balance_of-balance_mut a k (sub_free v) m,
    text_ord.eq_of_cmp k a,
    x.units_sub (balance_of k m).free v,
    -ℤ_zero (free_units a m),
  )

  -- Spending what the free balance covers overdraws nothing.
  pub sub_free_solvent :
      (a k : Text) (v : D) (m : OrdMap Text (Balance D))
      → ((a : Text) → pos 0 ≤ℤ free_units a m)
      → ltd (free_of k m) v ≡ false
      → pos 0 ≤ℤ free_units a (balance_mut k (sub_free v) m)
  sub_free_solvent a k v m free covered = ground (
    arith,
    units-sub_free a k v m,
    free a,
    units_of_ltd (free_of k m) v covered,
    free_of-eq k m,
    text_ord.eq_of_cmp k a,
    sub_nonneg (free_units a m) (x.units v),
    -ℤ_zero (free_units a m),
  )

  pub add_free_solvent :
      (a k : Text) (v : D) (m : OrdMap Text (Balance D))
      → ((a : Text) → pos 0 ≤ℤ free_units a m)
      → pos 0 ≤ℤ x.units v
      → pos 0 ≤ℤ free_units a (balance_mut k (add_free v) m)
  add_free_solvent a k v m free nonneg = ground (
    arith,
    units-add_free a k v m,
    free a,
    add_nonneg (free_units a m) (x.units v),
    +ℤ_zero (free_units a m),
  )

  -- One more open order, at an id that was free, adds its reserve; the sum of the reserves of an
  -- asset counts nothing else.
  pub sum-insert_new :
      (a id : Text) (o : Order D) (m : OrdMap Text (Order D))
      → lookup id m ≡ none
      → sum_of (reserve a) (insert id o m) ≡ sum_of (reserve a) m +ℤ reserve a o
  sum-insert_new a id o m h =
      let e = sum_of-insert (reserve a) id o m in
      sym (+ℤ_zero (sum_of (reserve a) (insert id o m))) ∙ (rw h at e)

  pub sum-insert_old :
      (a id : Text) (o o' : Order D) (m : OrdMap Text (Order D))
      → lookup id m ≡ some o'
      → sum_of (reserve a) (insert id o m) +ℤ reserve a o' ≡ sum_of (reserve a) m +ℤ reserve a o
  sum-insert_old a id o o' m h = let e = sum_of-insert (reserve a) id o m in rw h at e

  -- No later id is taken by an order that is recorded under the next one.
  pub fresh-insert :
      (next : ℕ) (o : Order D) (m : OrdMap Text (Order D))
      → ((n : ℕ) → next < n → lookup (paper_id n) m ≡ none)
      → (n : ℕ) → next + 1 < n
      → lookup (paper_id n) (insert (paper_id (next + 1)) o m) ≡ none
  fresh-insert next o m f n h = ground (
    arith,
    lookup-insert (paper_id (next + 1)) (paper_id n) o m,
    same-paper_id (next + 1) n,
    f n (omega arith),
  )
