-- ===== src/Paper/Refusals.antt =====
-- What a refused call of the paper exchange leaves behind.
use wickra_exchange.Prelude.{◌≡◌, arith}
use wickra_exchange.Prelude.Text.{Text}
use wickra_exchange.Decimal.{Decimal}
use wickra_exchange.Error.{Result, ok, err}
use wickra_exchange.Symbol.{Symbol}
use wickra_exchange.Types.{OrderRequest}
use wickra_exchange.Paper.{PaperExchange}
use wickra_exchange.Paper.Execution.{
  place_resting, place_crossing, place_at, place_order, cancel_order,
}

-- A refusal leaves the exchange as it was.
abbrev pub RefusesCleanly : {D A : Type 0} → PaperExchange D → PaperExchange D × Result A → Type 0
RefusesCleanly ex (ex', ok _) = Unit
RefusesCleanly ex (ex', err _) = ex' ≡ ex

module _ {D : Type 0} ⦃d : Decimal D⦄ where
  -- Whatever the reason for which an order is refused (validation, a trigger type, a missing mark,
  -- post-only, too little balance), balances, orders, events and the id counter are untouched.
  pub place_order-RefusesCleanly :
      (ex : PaperExchange D) (r : OrderRequest D) → RefusesCleanly ex (place_order ex r)
  unfolding place_order place_at place_resting place_crossing
  place_order-RefusesCleanly ex r = ground arith

  -- A cancel that is refused, for an id that is unknown or not open, changes nothing either.
  pub cancel_order-RefusesCleanly :
      (ex : PaperExchange D) (s : Symbol) (id : Text) → RefusesCleanly ex (cancel_order ex s id)
  unfolding cancel_order
  cancel_order-RefusesCleanly ex s id = ground arith
