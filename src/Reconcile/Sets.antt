-- ===== src/Reconcile/Sets.antt =====
-- The three outputs as sets of ids.
use wickra_exchange.Prelude.{
  ◌≡◌, refl, Bool, true, false, not, ◌||◌, ◌&&◌, List, [], ◌∷◌, arith, if◌then◌else◌, none, some,
  Option, sym,
}
use wickra_exchange.Prelude.Text.{Text}
use wickra_exchange.Prelude.Ord.{text_ord, same}
use wickra_exchange.OrdMap.{OrdMap, lookup}
use wickra_exchange.OrdMap.Laws.{IsSorted, Above, insert-IsSorted, lookup-insert, lookup-cons}
use wickra_exchange.Types.{Order}
use wickra_exchange.Reconcile.{id_set, contains, members, ids, reconcile_orders}

-- Whether an id is in a list.
abbrev pub is_in : Text → List Text → Bool
is_in id [] = false
is_in id (x ∷ xs) = same x id || is_in id xs

id_set-IsSorted : (l : List Text) → IsSorted (id_set l)
unfolding id_set
id_set-IsSorted [] = tt
id_set-IsSorted (x ∷ xs) = insert-IsSorted x tt (id_set xs) (id_set-IsSorted xs)

contains-id_set : (id : Text) (l : List Text) → contains id (id_set l) ≡ is_in id l
unfolding contains id_set lookup
contains-id_set id [] = refl
contains-id_set id (x ∷ xs) =
    ground (arith, contains-id_set id xs, lookup-insert x id tt (id_set xs))

-- The test that `contains` makes, on a conditional.
if_some :
    (b : Bool) (w : Unit {0}) (o : Option (Unit {0}))
    → (elim (if b then some w else o) as (λ _. Bool) [ none ↦ false | some _ ↦ true ])
      ≡ (b || elim o as (λ _. Bool) [ none ↦ false | some _ ↦ true ])
if_some true w o = refl
if_some false w o = refl

contains_none : (id : Text) → contains id [] ≡ false
unfolding contains lookup
contains_none id = refl

contains-cons :
    (id j : Text) (w : Unit {0}) (set : OrdMap Text (Unit {0}))
    → Above j set
    → contains id ((j, w) ∷ set) ≡ (same j id || contains id set)
unfolding contains
contains-cons id j w set above =
    rw (lookup-cons id j w set above, contains) (if_some (same j id) w (lookup id set))

is_in-members :
    (id : Text) (keep : Text → Bool) (set : OrdMap Text (Unit {0}))
    → IsSorted set
    → is_in id (members keep set) ≡ (keep id && contains id set)
unfolding members
is_in-members id keep [] s = ground (arith, contains_none id)
is_in-members id keep ((j, w) ∷ set) s =
    ground
      (arith, is_in-members id keep set s.1, contains-cons id j w set s.0, text_ord.eq_of_cmp j id)

-- For every id, whatever order the inputs are in and however often they name it: it appeared if the
-- venue lists it open and it was not believed open, it vanished if it was believed open and the
-- venue does not list it, and it is still open if both have it.
pub reconcile_orders_lem :
    {D : Type 0}
    → (local_open_ids : List Text) (venue_open : List (Order D)) (id : Text)
    → let r = reconcile_orders local_open_ids venue_open in
      (is_in id r.appeared ≡ (not (is_in id local_open_ids) && is_in id (ids venue_open)))
      × (is_in id r.vanished ≡ (not (is_in id (ids venue_open)) && is_in id local_open_ids))
      × (is_in id r.still_open ≡ (is_in id (ids venue_open) && is_in id local_open_ids))
unfolding reconcile_orders
reconcile_orders_lem local_open_ids venue_open id =
    let local = id_set local_open_ids in
    let venue = id_set (ids venue_open) in
    let l = contains-id_set id local_open_ids in
    let v = contains-id_set id (ids venue_open) in
    rw (sym l, sym v)
      (
        is_in-members id (λ i. not (contains i local)) venue (id_set-IsSorted (ids venue_open)),
        is_in-members id (λ i. not (contains i venue)) local (id_set-IsSorted local_open_ids),
        is_in-members id (λ i. contains i venue) local (id_set-IsSorted local_open_ids),
      )
