-- ===== src/Paper/Tests.antt =====
-- Sessions on a paper account, with whole numbers for decimals.
use wickra_exchange.Prelude.{◌≡◌, refl, true, false, none, some, List, [], ◌∷◌, arith, length}
use mathlib.Core.Path.{subst}
use wickra_exchange.Prelude.Int.{ℤ, pos, ◌+ℤ◌, ◌-ℤ◌, ◌*ℤ◌}
use wickra_exchange.Prelude.Word.{add_u64}
use wickra_exchange.Prelude.Text.{Text, codes}
use wickra_exchange.Decimal.Integers.{ℤ_ord, ℤ_decimal, ℤ-IsExact, ℤ-IsOrdered}
use wickra_exchange.OrdMap.{lookup, insert, values}
use wickra_exchange.Error.{ok}
use wickra_exchange.Options.{spot}
use wickra_exchange.Symbol.{Symbol, symbol_ord}
use wickra_exchange.Types.{
  OrderRequest, market_buy, limit_buy, bare, validate, is_open, status_is_open, is_trigger,
  requires_price,
}
use wickra_exchange.Paper.{
  PaperExchange, new, with_balance, balance_mut, balance_of, free_of, paper_id, filled_order,
  resting_order, fill_price, bps_fraction, settle_fill, settle, rest_order,
}
use wickra_exchange.Paper.Execution.{
  place_order, place_at, place_crossing, place_resting, crosses, cancel_order, cancel_all, open_ids,
  open_orders_of,
}
use wickra_exchange.Paper.Invariant.{IsValid, locked_units}
use wickra_exchange.Paper.Placing.{IsPriced, place_order-IsValid, cancel_order-IsValid}
use wickra_exchange.Paper.Refusals.{RefusesCleanly, place_order-RefusesCleanly}
use wickra_exchange.Paper.Closing.{cancel_all_closes}
use wickra_exchange.Paper.Effects.{
  SameBalances, IsFillAt, cancel_order-place_order, place_order_fill,
}
use wickra_exchange.Paper.Session.{Call, credit, quote, place, run, new-IsValid, run-IsValid}

abbrev btc_usdt : Symbol
btc_usdt = record { base = codes "BTC"; quote = codes "USDT" }

-- 10000 USDT, a mark of 100, a fee of 10 bps and no slippage.
abbrev account : PaperExchange ℤ
account = record {
  market_type = spot;
  maker_bps = pos 0;
  taker_bps = pos 10;
  slippage_bps = pos 0;
  marks = (btc_usdt, pos 100) ∷ [];
  balances = (codes "USDT", record { asset = codes "USDT"; free = pos 10000; locked = pos 0 }) ∷ [];
  orders = [];
  events = [];
  next_id = 0;
}

abbrev empty_account : PaperExchange ℤ
empty_account = record {
  market_type = spot;
  maker_bps = pos 0;
  taker_bps = pos 10;
  slippage_bps = pos 0;
  marks = (btc_usdt, pos 100) ∷ [];
  balances = [];
  orders = [];
  events = [];
  next_id = 0;
}

empty_account-IsValid : IsValid empty_account
empty_account-IsValid =
    let v = new-IsValid {D = ℤ} in
    unfold new in
    record {
      solvent = v.solvent;
      accounted = v.accounted;
      fresh = v.fresh;
      sorted = v.sorted;
      own_ids = v.own_ids;
      reserves = v.reserves;
    }

empty_account-IsPriced : IsPriced empty_account
empty_account-IsPriced = record {
  taker_le = omega arith;
  slippage_nonneg = omega arith;
  slippage_le = omega arith;
  marks_nonneg = (omega arith, tt);
}

abbrev buy_now : OrderRequest ℤ
unfolding market_buy
buy_now = market_buy btc_usdt (pos 5)

abbrev bid_90 : OrderRequest ℤ
unfolding limit_buy
bid_90 = limit_buy btc_usdt (pos 5) (pos 90)

account_funded : run empty_account (credit (codes "USDT") (pos 10000) ∷ []) ≡ account
unfolding run with_balance balance_mut balance_of lookup insert ◌+ℤ◌
account_funded = refl

account-IsValid : IsValid account
account-IsValid = subst IsValid account_funded (
    run-IsValid empty_account (credit (codes "USDT") (pos 10000) ∷ []) empty_account-IsValid
      empty_account-IsPriced (omega arith) (omega arith, tt))

account-IsPriced : IsPriced account
account-IsPriced = record {
  taker_le = omega arith;
  slippage_nonneg = omega arith;
  slippage_le = omega arith;
  marks_nonneg = (omega arith, tt);
}

-- The calls of a short session: a deposit, a new price, a fill and a resting bid.
abbrev session : List (Call ℤ)
session =
    credit (codes "USDT") (pos 10000) ∷ quote btc_usdt (pos 95) ∷ place buy_now ∷ place bid_90 ∷ []

run-IsValid_example : IsValid (run empty_account session)
run-IsValid_example =
    run-IsValid empty_account session empty_account-IsValid empty_account-IsPriced (omega arith)
      (omega arith, (omega arith, (tt, (tt, tt))))

one_order-IsValid : IsValid (place_order account bid_90).0
one_order-IsValid =
    place_order-IsValid account bid_90 account-IsValid account-IsPriced (omega arith)

cancel_order-IsValid_example :
    IsValid (cancel_order (place_order account bid_90).0 btc_usdt (paper_id 1)).0
cancel_order-IsValid_example =
    cancel_order-IsValid (place_order account bid_90).0 btc_usdt (paper_id 1) one_order-IsValid

place_order-RefusesCleanly_example : RefusesCleanly empty_account (place_order empty_account bid_90)
place_order-RefusesCleanly_example = place_order-RefusesCleanly empty_account bid_90

bid_90_rests :
    place_order account bid_90
    ≡ ((place_order account bid_90).0, ok (resting_order (paper_id 1) bid_90 (pos 90)))
unfolding buy_now bid_90 bare place_order place_at place_resting place_crossing crosses validate
    requires_price is_trigger lookup rest_order settle_fill settle fill_price bps_fraction free_of
    balance_mut balance_of insert add_u64 ◌+ℤ◌ ◌-ℤ◌ ◌*ℤ◌
bid_90_rests = refl

bid_90_open : is_open (resting_order (paper_id 1) bid_90 (pos 90)) ≡ true
unfolding is_open status_is_open
bid_90_open = refl

bid_90_open_orders : length (open_ids (values (place_order account bid_90).0.orders)) ≡ 1
unfolding buy_now bid_90 bare place_order place_at place_resting place_crossing crosses validate
    requires_price is_trigger lookup rest_order settle_fill settle fill_price bps_fraction free_of
    balance_mut balance_of insert add_u64 ◌+ℤ◌ ◌-ℤ◌ ◌*ℤ◌ open_ids is_open status_is_open
bid_90_open_orders = refl

-- One order rests, and is cancelled.
cancel_all_closes_example :
    let ex = (place_order account bid_90).0 in
    let (ex', n) = cancel_all ex in
    IsValid ex'
    × (open_orders_of none (values ex'.orders) ≡ [])
    × (n ≡ length (open_ids (values ex.orders)))
    × ((a : Text) → locked_units a ex'.balances ≡ pos 0)
cancel_all_closes_example =
    cancel_all_closes (place_order account bid_90).0 one_order-IsValid
      (omega (arith, bid_90_open_orders))

buy_now_fills :
    place_order account buy_now
    ≡ ((place_order account buy_now).0, ok (filled_order (paper_id 1) buy_now (pos 100)))
unfolding buy_now bid_90 bare place_order place_at place_resting place_crossing crosses validate
    requires_price is_trigger lookup rest_order settle_fill settle fill_price bps_fraction free_of
    balance_mut balance_of insert add_u64 ◌+ℤ◌ ◌-ℤ◌ ◌*ℤ◌
buy_now_fills = refl

buy_now_closed : is_open (filled_order (paper_id 1) buy_now (pos 100)) ≡ false
unfolding is_open status_is_open
buy_now_closed = refl

cancel_order-place_order_example :
    let order = resting_order (paper_id 1) bid_90 (pos 90) in
    let (ex2, done) = cancel_order (place_order account bid_90).0 btc_usdt order.id in
    (done ≡ ok tt) × SameBalances ex2.balances account.balances
cancel_order-place_order_example =
    cancel_order-place_order account (place_order account bid_90).0 bid_90
      (resting_order (paper_id 1) bid_90 (pos 90)) btc_usdt bid_90_rests bid_90_open

place_order_fill_example :
    let order = filled_order (paper_id 1) buy_now (pos 100) in
    (mark : ℤ) × (lookup buy_now.symbol account.marks ≡ some mark)
    × IsFillAt account buy_now mark ((place_order account buy_now).0, order)
place_order_fill_example =
    place_order_fill account (place_order account buy_now).0 buy_now
      (filled_order (paper_id 1) buy_now (pos 100)) buy_now_fills buy_now_closed
