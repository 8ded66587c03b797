-- ===== src/Reconcile.antt =====
-- Order-state reconciliation, crates/wickra-exchange-core/src/reconcile.rs. A `HashSet` of ids is
-- a map to nothing, in key order, so that what is taken out of it is sorted.
pub mod Sets
mod Tests
use wickra_exchange.Prelude.{Bool, true, false, not, ◌||◌, List, [], ◌∷◌, if◌then◌else◌, none, some}
use wickra_exchange.Prelude.Text.{Text}
use wickra_exchange.Prelude.Ord.{text_ord}
use wickra_exchange.OrdMap.{OrdMap, lookup, insert}
use wickra_exchange.Types.{Order}

pub record Reconciliation : Type 0 where
  pub appeared : List Text
  pub vanished : List Text
  pub still_open : List Text

abbrev pub is_empty : List Text → Bool
is_empty [] = true
is_empty (_ ∷ _) = false

unfoldable pub has_divergence : Reconciliation → Bool
has_divergence r = not (is_empty r.appeared) || not (is_empty r.vanished)

-- `collect` into a set.
unfoldable pub id_set : List Text → OrdMap Text (Unit {0})
id_set [] = []
id_set (id ∷ ids) = insert id tt (id_set ids)

unfoldable pub contains : Text → OrdMap Text (Unit {0}) → Bool
contains id set = elim (lookup id set) [ none ↦ false | some _ ↦ true ]

-- The members of a set that pass a test, in order.
unfoldable pub members : (Text → Bool) → OrdMap Text (Unit {0}) → List Text
members keep [] = []
members keep ((id, _) ∷ set) = if keep id then id ∷ members keep set else members keep set

abbrev pub ids : {D : Type 0} → List (Order D) → List Text
ids [] = []
ids (o ∷ os) = o.id ∷ ids os

unfoldable pub reconcile_orders : {D : Type 0} → List Text → List (Order D) → Reconciliation
unfolding id_set contains members
reconcile_orders local_open_ids venue_open =
    let local = id_set local_open_ids in
    let venue = id_set (ids venue_open) in
    record {
      appeared = members (λ id. not (contains id local)) venue;
      vanished = members (λ id. not (contains id venue)) local;
      still_open = members (λ id. contains id venue) local;
    }
