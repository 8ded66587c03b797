-- ===== src/Paper/Balances.antt =====
-- What the portfolio reads after each kind of change to it.
use wickra_exchange.Prelude.{◌≡◌, arith, if◌then◌else◌}
use wickra_exchange.Prelude.Text.{Text}
use wickra_exchange.Prelude.Ord.{text_ord, same}
use wickra_exchange.OrdMap.{OrdMap}
use wickra_exchange.OrdMap.Laws.{lookup-insert}
use wickra_exchange.Decimal.{Decimal}
use wickra_exchange.Types.{Balance}
use wickra_exchange.Paper.{balance_of, balance_mut, free_of}

module _ {D : Type 0} ⦃d : Decimal D⦄ where
  pub balance_of-balance_mut :
      (a k : Text) (f : Balance D → Balance D) (m : OrdMap Text (Balance D))
      → balance_of a (balance_mut k f m) ≡ (if same k a then f (balance_of k m) else balance_of a m)
  unfolding balance_of balance_mut
  balance_of-balance_mut a k f m = ground (arith, lookup-insert k a (f (balance_of k m)) m)

  pub free_of-eq : (a : Text) (m : OrdMap Text (Balance D)) → free_of a m ≡ (balance_of a m).free
  unfolding free_of balance_of
  free_of-eq a m = ground arith
