-- ===== src/Paper/Execution.antt =====
-- `impl Execution` and `impl MarketData` for the paper exchange, and `cancel_all`.
use wickra_exchange.Prelude.{
  ℕ, Bool, true, false, ◌&&◌, Option, none, some, List, [], ◌∷◌, ◌++◌, if◌then◌else◌,
}
use wickra_exchange.Prelude.Int.{pos}
use wickra_exchange.Prelude.Word.{add_u32}
use wickra_exchange.Prelude.Text.{Text, codes}
use wickra_exchange.Prelude.Ord.{text_ord, same}
use wickra_exchange.OrdMap.{lookup, insert, values}
use wickra_exchange.Decimal.{Decimal, ltd, led}
use wickra_exchange.Error.{
  Result, ok, err, invalid_order, exchange, not_found, insufficient_balance, order_rejected,
}
use wickra_exchange.Symbol.{Symbol, symbol_ord, display}
use wickra_exchange.Types.{
  OrderSide, buy, sell, market, limit, stop_market, stop_limit, canceled, OrderRequest, Order,
  Balance, Ticker, is_open, is_trigger, validate,
}
use wickra_exchange.Events.{Event, order_update, balance_update, OrderBookSnapshot}
use wickra_exchange.Paper.{
  PaperExchange, or_else, bps_fraction, balance_mut, release, free_of, balance_snapshot, fill_price,
  settle_fill, reserve_asset, reserve_amount, rest_order,
}

abbrev pub no_price : Symbol → Text
no_price s = codes "no paper price set for " ++ display s

abbrev pub is_ok {ℓ} : {A : Type ℓ} → Result A → Bool
is_ok (ok _) = true
is_ok (err _) = false

module _ {D : Type 0} ⦃d : Decimal D⦄ where
  -- Whether a limit at a price fills now against the mark.
  abbrev pub marketable : OrderSide → D → D → Bool
  marketable buy price mark = led mark price
  marketable sell price mark = led price mark

  unfoldable pub crosses : OrderRequest D → D → Bool
  crosses r mark = elim r.order_type [
    | market ↦ true
    | stop_market ↦ true
    | limit ↦ marketable r.side (or_else r.price mark) mark
    | stop_limit ↦ marketable r.side (or_else r.price mark) mark
  ]

  -- The branch of `place_order` for a limit that does not cross.
  unfoldable pub place_resting :
      PaperExchange D → OrderRequest D → D → PaperExchange D × Result (Order D)
  place_resting ex r mark =
      let price = or_else r.price mark in
      let amount = reserve_amount r.side r.quantity price in
      if ltd (free_of (reserve_asset r.side r.symbol) ex.balances) amount
      then (ex, err insufficient_balance)
      else let (ex', order) = rest_order ex r price in (ex', ok order)

  -- The pre-flight test: the asset that a fill spends does not cover it.
  abbrev pub short_of : PaperExchange D → OrderRequest D → D → Bool
  short_of ex r price =
      let notional = d.mul r.quantity price in
      let fee = d.mul notional (bps_fraction ex.taker_bps) in
      elim r.side [
        | buy ↦ ltd (free_of r.symbol.quote ex.balances) (d.add notional fee)
        | sell ↦ ltd (free_of r.symbol.base ex.balances) r.quantity
      ]

  -- The branch of `place_order` for an order that fills at once.
  unfoldable pub place_crossing :
      PaperExchange D → OrderRequest D → D → PaperExchange D × Result (Order D)
  unfolding bps_fraction
  place_crossing ex r mark =
      if r.post_only
      then (
        ex,
        err (order_rejected (codes "post_only") (codes "post-only order would take liquidity")),
      )
      else if short_of ex r (fill_price ex r.side mark)
      then (ex, err insufficient_balance)
      else let (ex', order) = settle_fill ex r (fill_price ex r.side mark) in (ex', ok order)

  -- Once the mark is looked up.
  unfoldable pub place_at :
      PaperExchange D → OrderRequest D → Option D → PaperExchange D × Result (Order D)
  place_at ex r none = (ex, err (not_found (no_price r.symbol)))
  place_at ex r (some mark) =
      if crosses r mark then place_crossing ex r mark else place_resting ex r mark

  unfoldable pub place_order : PaperExchange D → OrderRequest D → PaperExchange D × Result (Order D)
  place_order ex r = elim (validate r) [
    | err e ↦ (ex, err e)
    | ok _ ↦
        if is_trigger r.order_type
        then (
          ex,
          err (invalid_order (codes "paper exchange supports only market and limit orders")),
        )
        else place_at ex r (lookup r.symbol ex.marks)
  ]

  -- What a cancelled order hands back.
  abbrev pub released : Order D → Text × D
  released o =
      (reserve_asset o.side o.symbol, reserve_amount o.side o.quantity (or_else o.price d.nought))

  -- The part of `cancel_order` behind the lookup of an open order.
  unfoldable pub cancel_found : PaperExchange D → Text → Order D → PaperExchange D
  cancel_found ex id o =
      let order = record o { status = canceled } in
      let balances = balance_mut (released o).0 (release (released o).1) ex.balances in
      record ex {
        balances = balances;
        orders = insert id order ex.orders;
        events = ex.events ++ (order_update order ∷ balance_update (values balances) ∷ []);
      }

  unfoldable pub cancel_order :
      PaperExchange D → Symbol → Text → PaperExchange D × Result (Unit {0})
  cancel_order ex symbol id = elim (lookup id ex.orders) [
    | none ↦ (ex, err (not_found (codes "no open paper order " ++ id)))
    | some o ↦
        if is_open o
        then (cancel_found ex id o, ok tt)
        else (ex, err (not_found (codes "no open paper order " ++ id)))
  ]

  -- `filter(is_open)` and the symbol and id of each.
  unfoldable pub open_ids : List (Order D) → List (Symbol × Text)
  open_ids [] = []
  open_ids (o ∷ os) = if is_open o then (o.symbol, o.id) ∷ open_ids os else open_ids os

  -- The loop of `cancel_all`, with its count.
  unfoldable pub cancel_each : PaperExchange D → List (Symbol × Text) → ℕ → PaperExchange D × ℕ
  cancel_each ex [] cancelled = (ex, cancelled)
  cancel_each ex ((symbol, id) ∷ rest) cancelled =
      let (ex', r) = cancel_order ex symbol id in
      cancel_each ex' rest (if is_ok r then add_u32 cancelled 1 else cancelled)

  unfoldable pub cancel_all : PaperExchange D → PaperExchange D × ℕ
  unfolding open_ids cancel_each
  cancel_all ex = cancel_each ex (open_ids (values ex.orders)) 0

  unfoldable pub query_order : PaperExchange D → Symbol → Text → Result (Order D)
  query_order ex symbol id = elim (lookup id ex.orders) [
    | none ↦ err (not_found (codes "no paper order " ++ id))
    | some o ↦ ok o
  ]

  abbrev pub of_symbol : Option Symbol → Order D → Bool
  of_symbol none o = true
  of_symbol (some s) o = same o.symbol s

  -- The two filters of `open_orders`, over the orders in key order.
  unfoldable pub open_orders_of : Option Symbol → List (Order D) → List (Order D)
  open_orders_of s [] = []
  open_orders_of s (o ∷ os) =
      if is_open o && of_symbol s o then o ∷ open_orders_of s os else open_orders_of s os

  unfoldable pub open_orders : PaperExchange D → Option Symbol → Result (List (Order D))
  unfolding open_orders_of
  open_orders ex symbol = ok (open_orders_of symbol (values ex.orders))

  unfoldable pub balances : PaperExchange D → Result (List (Balance D))
  unfolding balance_snapshot
  balances ex = ok (balance_snapshot ex)

  unfoldable pub ticker : PaperExchange D → Symbol → Result (Ticker D)
  ticker ex s = elim (lookup s ex.marks) [
    | none ↦ err (not_found (no_price s))
    | some mark ↦ ok (record {
      symbol = s;
      last = mark;
      bid = mark;
      ask = mark;
      volume = d.nought;
      timestamp = pos 0;
    })
  ]

  unfoldable pub order_book : PaperExchange D → Symbol → ℕ → Result (OrderBookSnapshot D)
  order_book ex s depth = err (
      exchange (codes "unsupported")
        (codes "paper exchange has no depth feed; pair it with a live or replay feed"))

  -- Returns the pending events and drains them.
  unfoldable pub poll_events : PaperExchange D → PaperExchange D × List (Event D)
  poll_events ex = (record ex { events = [] }, ex.events)
