-- ===== src/Paper/Invariant.antt =====
-- The portfolio's invariant, over the units that are free, locked and reserved of an asset.
use wickra_exchange.Prelude.{ℕ, ◌≡◌, ◌<◌, none, if◌then◌else◌}
use wickra_exchange.Prelude.Int.{ℤ, pos, ◌≤ℤ◌}
use wickra_exchange.Prelude.Text.{Text}
use wickra_exchange.Prelude.Ord.{text_ord, same}
use wickra_exchange.OrdMap.{OrdMap, lookup}
use wickra_exchange.OrdMap.Laws.{IsSorted, AllEntries}
use wickra_exchange.OrdMap.Sums.{sum_of}
use wickra_exchange.Decimal.{Decimal}
use wickra_exchange.Decimal.Exact.{IsExact}
use wickra_exchange.Types.{Order, Balance, is_open}
use wickra_exchange.Paper.{PaperExchange, balance_of, paper_id}
use wickra_exchange.Paper.Execution.{released}

-- Every order stands under its own id.
abbrev pub HasOwnId : {D : Type 0} → Text → Order D → Type 0
HasOwnId k o = o.id ≡ k

module _ {D : Type 0} ⦃d : Decimal D⦄ ⦃x : IsExact D⦄ where
  -- What an order holds back of an asset: nothing unless it is open and reserves that asset.
  abbrev pub reserve : Text → Order D → ℤ
  reserve a o =
      if is_open o then (if same (released o).0 a then x.units (released o).1 else pos 0) else pos 0

  abbrev pub free_units : Text → OrdMap Text (Balance D) → ℤ
  free_units a m = x.units (balance_of a m).free

  abbrev pub locked_units : Text → OrdMap Text (Balance D) → ℤ
  locked_units a m = x.units (balance_of a m).locked

  -- An order holds back no negative amount.
  abbrev pub HasReserve : Text → Order D → Type 0
  HasReserve k o = (a : Text) → pos 0 ≤ℤ reserve a o

  pub record IsValid (ex : PaperExchange D) : Type 0 where
    pub solvent : (a : Text) → pos 0 ≤ℤ free_units a ex.balances
    pub accounted : (a : Text) → locked_units a ex.balances ≡ sum_of (reserve a) ex.orders
    pub fresh : (n : ℕ) → ex.next_id < n → lookup (paper_id n) ex.orders ≡ none
    pub sorted : IsSorted ex.orders
    pub own_ids : AllEntries HasOwnId ex.orders
    pub reserves : AllEntries HasReserve ex.orders
