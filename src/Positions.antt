-- ===== src/Positions.antt =====
-- Derivatives positions, crates/wickra-exchange-core/src/positions.rs.
use wickra_exchange.Prelude.{Bool, true, false}
use wickra_exchange.Decimal.{Decimal}
use wickra_exchange.Options.{MarginMode}
use wickra_exchange.Symbol.{Symbol}
use wickra_exchange.Types.{OrderSide, buy, sell}

pub data PositionSide : Type 0 where
  long short : PositionSide

unfoldable pub for_order : OrderSide → Bool → PositionSide
for_order buy false = long
for_order sell true = long
for_order sell false = short
for_order buy true = short

pub record Position (D : Type 0) : Type 0 where
  pub symbol : Symbol
  pub side : PositionSide
  pub quantity : D
  pub entry_price : D
  pub mark_price : D
  pub leverage : D
  pub unrealized_pnl : D
  pub margin_mode : MarginMode

module _ {D : Type 0} ⦃d : Decimal D⦄ where
  unfoldable pub sign : PositionSide → D
  sign long = d.one
  sign short = d.negative_one

  unfoldable pub signed_quantity : Position D → D
  unfolding sign
  signed_quantity p = d.mul p.quantity (sign p.side)

  unfoldable pub notional : Position D → D
  notional p = d.mul p.quantity p.mark_price

  unfoldable pub computed_unrealized_pnl : Position D → D
  unfolding signed_quantity
  computed_unrealized_pnl p = d.mul (d.sub p.mark_price p.entry_price) (signed_quantity p)
