-- ===== src/Paper.antt =====
-- The paper exchange, crates/wickra-exchange-core/src/exchanges/paper.rs: orders filled against
-- injected prices and an internal portfolio. A method that takes `&mut self` returns the new state
-- and its result. Runs in which a `Decimal` operation panics on overflow are outside the model.
pub mod Balances
pub mod Execution
pub mod Invariant
pub mod Units
pub mod Preservation
pub mod Placing
pub mod Refusals
pub mod Closing
pub mod Effects
pub mod Session
mod Tests
use wickra_exchange.Prelude.{
  ℕ, ◌≡◌, Bool, true, false, not, ◌&&◌, ◌||◌, Option, none, some, List, [], ◌∷◌, ◌++◌,
  if◌then◌else◌,
}
use wickra_exchange.Prelude.Int.{ℤ, pos}
use wickra_exchange.Prelude.Word.{add_u32, add_u64}
use wickra_exchange.Prelude.Text.{Text, codes, show}
use wickra_exchange.Prelude.Ord.{text_ord, same}
use wickra_exchange.OrdMap.{OrdMap, lookup, insert, values}
use wickra_exchange.Decimal.{Decimal, ltd, led}
use wickra_exchange.Error.{
  Result, ok, err, invalid_order, exchange, not_found, insufficient_balance, order_rejected,
}
use wickra_exchange.Options.{MarketType, spot}
use wickra_exchange.Symbol.{Symbol, symbol_ord, display}
use wickra_exchange.Types.{
  OrderSide, buy, sell, OrderType, market, limit, stop_market, stop_limit, OrderStatus, filled,
  canceled, OrderRequest, Order, Balance, Ticker, is_open, is_trigger, validate,
}
use wickra_exchange.Types
use wickra_exchange.Events.{Event, order_update, balance_update, OrderBookSnapshot}

pub record PaperExchange (D : Type 0) : Type 0 where
  pub market_type : MarketType
  pub maker_bps : D
  pub taker_bps : D
  pub slippage_bps : D
  pub marks : OrdMap Symbol D
  pub balances : OrdMap Text (Balance D)
  pub orders : OrdMap Text (Order D)
  pub events : List (Event D)
  pub next_id : ℕ

-- `unwrap_or`
abbrev pub or_else {ℓ} : {A : Type ℓ} → Option A → A → A
or_else none a = a
or_else (some b) _ = b

-- `format!("paper-{n}")`
unfoldable pub paper_id : ℕ → Text
paper_id n = codes "paper-" ++ show n

-- The asset that a resting order reserves.
abbrev pub reserve_asset : OrderSide → Symbol → Text
reserve_asset buy s = s.quote
reserve_asset sell s = s.base

module _ {D : Type 0} ⦃d : Decimal D⦄ where
  unfoldable pub bps_fraction : D → D
  bps_fraction bps = d.div bps (d.from 10000)

  unfoldable pub new : PaperExchange D
  new = record {
    market_type = spot;
    maker_bps = d.nought;
    taker_bps = d.nought;
    slippage_bps = d.nought;
    marks = [];
    balances = [];
    orders = [];
    events = [];
    next_id = 0;
  }

  unfoldable pub with_fees : PaperExchange D → D → D → PaperExchange D
  with_fees ex maker taker = record ex { maker_bps = maker; taker_bps = taker }

  unfoldable pub with_slippage_bps : PaperExchange D → D → PaperExchange D
  with_slippage_bps ex bps = record ex { slippage_bps = bps }

  abbrev pub no_balance : Text → Balance D
  no_balance asset = record { asset = asset; free = d.nought; locked = d.nought }

  -- `entry(asset).or_insert(..)`: the balance, or an empty one.
  unfoldable pub balance_of : Text → OrdMap Text (Balance D) → Balance D
  balance_of asset m = or_else (lookup asset m) (no_balance asset)

  -- `balance_mut(asset)` and a change through the reference.
  unfoldable pub balance_mut :
      Text → (Balance D → Balance D) → OrdMap Text (Balance D) → OrdMap Text (Balance D)
  balance_mut asset f m = insert asset (f (balance_of asset m)) m

  abbrev pub add_free : D → Balance D → Balance D
  add_free x b = record b { free = d.add b.free x }

  abbrev pub sub_free : D → Balance D → Balance D
  sub_free x b = record b { free = d.sub b.free x }

  abbrev pub lock : D → Balance D → Balance D
  lock x b = record b { free = d.sub b.free x; locked = d.add b.locked x }

  abbrev pub release : D → Balance D → Balance D
  release x b = record b { free = d.add b.free x; locked = d.sub b.locked x }

  unfoldable pub with_balance : PaperExchange D → Text → D → PaperExchange D
  with_balance ex asset amount = record ex {
    balances = balance_mut asset (add_free amount) ex.balances;
  }

  unfoldable pub set_price : PaperExchange D → Symbol → D → PaperExchange D
  set_price ex symbol price = record ex { marks = insert symbol price ex.marks }

  -- `free_of`
  unfoldable pub free_of : Text → OrdMap Text (Balance D) → D
  free_of asset m = elim (lookup asset m) [ none ↦ d.nought | some b ↦ b.free ]

  unfoldable pub balance_snapshot : PaperExchange D → List (Balance D)
  balance_snapshot ex = values ex.balances

  unfoldable pub fill_price : PaperExchange D → OrderSide → D → D
  unfolding bps_fraction
  fill_price ex buy mark = d.mul mark (d.add d.one (bps_fraction ex.slippage_bps))
  fill_price ex sell mark = d.mul mark (d.sub d.one (bps_fraction ex.slippage_bps))

  -- The portfolio after a fill.
  unfoldable pub settle :
      OrderSide → Symbol → D → D → D → OrdMap Text (Balance D) → OrdMap Text (Balance D)
  settle buy s qty notional fee m =
      balance_mut s.base (add_free qty) (balance_mut s.quote (sub_free (d.add notional fee)) m)
  settle sell s qty notional fee m =
      balance_mut s.quote (add_free (d.sub notional fee)) (balance_mut s.base (sub_free qty) m)

  -- The order that `settle_fill` records.
  abbrev pub filled_order : Text → OrderRequest D → D → Order D
  filled_order id r price = record {
    id = id;
    client_order_id = r.client_order_id;
    symbol = r.symbol;
    side = r.side;
    order_type = r.order_type;
    status = filled;
    quantity = r.quantity;
    filled_quantity = r.quantity;
    price = r.price;
    average_price = some price;
  }

  unfoldable pub settle_fill : PaperExchange D → OrderRequest D → D → PaperExchange D × Order D
  unfolding settle bps_fraction balance_snapshot
  settle_fill ex r price =
      let notional = d.mul r.quantity price in
      let fee = d.mul notional (bps_fraction ex.taker_bps) in
      let balances = settle r.side r.symbol r.quantity notional fee ex.balances in
      let n = add_u64 ex.next_id 1 in
      let order = filled_order (paper_id n) r price in
      (
        record ex {
          balances = balances;
          orders = insert (paper_id n) order ex.orders;
          events = ex.events ++ (order_update order ∷ balance_update (values balances) ∷ []);
          next_id = n;
        },
        order,
      )

  -- The amount that a resting order reserves.
  abbrev pub reserve_amount : OrderSide → D → D → D
  reserve_amount buy qty price = d.mul qty price
  reserve_amount sell qty price = qty

  -- The order that `rest_order` records.
  abbrev pub resting_order : Text → OrderRequest D → D → Order D
  resting_order id r price = record {
    id = id;
    client_order_id = r.client_order_id;
    symbol = r.symbol;
    side = r.side;
    order_type = r.order_type;
    status = Types.new;
    quantity = r.quantity;
    filled_quantity = d.nought;
    price = some price;
    average_price = none;
  }

  unfoldable pub rest_order : PaperExchange D → OrderRequest D → D → PaperExchange D × Order D
  rest_order ex r price =
      let n = add_u64 ex.next_id 1 in
      let order = resting_order (paper_id n) r price in
      (
        record ex {
          balances =
              balance_mut (reserve_asset r.side r.symbol)
                (lock (reserve_amount r.side r.quantity price)) ex.balances;
          orders = insert (paper_id n) order ex.orders;
          events = ex.events ++ (order_update order ∷ []);
          next_id = n;
        },
        order,
      )
