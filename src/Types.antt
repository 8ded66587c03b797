-- ===== src/Types.antt =====
-- The order layer's values, crates/wickra-exchange-core/src/types.rs.
use wickra_exchange.Prelude.{Bool, true, false, ◌&&◌, ◌||◌, Option, none, some, if◌then◌else◌}
use wickra_exchange.Prelude.Int.{ℤ}
use wickra_exchange.Prelude.Text.{Text, codes}
use wickra_exchange.Decimal.{Decimal, led}
use wickra_exchange.Error.{Result, ok, err, invalid_order, err_if, ◌>>◌}
use wickra_exchange.Options.{SelfTradePrevention, allow}
use wickra_exchange.Symbol.{Symbol}

pub data OrderSide : Type 0 where
  buy sell : OrderSide

unfoldable pub opposite : OrderSide → OrderSide
opposite buy = sell
opposite sell = buy

pub data OrderType : Type 0 where
  market limit stop_market stop_limit : OrderType

unfoldable pub requires_price : OrderType → Bool
requires_price limit = true
requires_price stop_limit = true
requires_price _ = false

unfoldable pub is_trigger : OrderType → Bool
is_trigger stop_market = true
is_trigger stop_limit = true
is_trigger _ = false

-- The type that `with_stop_price` turns an order's into.
abbrev pub triggered : OrderType → OrderType
triggered market = stop_market
triggered stop_market = stop_market
triggered limit = stop_limit
triggered stop_limit = stop_limit

pub data TimeInForce : Type 0 where
  gtc ioc fok : TimeInForce

pub data OrderStatus : Type 0 where
  new partially_filled filled canceled rejected expired : OrderStatus

-- `OrderStatus::is_open`
unfoldable pub status_is_open : OrderStatus → Bool
status_is_open new = true
status_is_open partially_filled = true
status_is_open _ = false

pub record OrderRequest (D : Type 0) : Type 0 where
  pub symbol : Symbol
  pub side : OrderSide
  pub order_type : OrderType
  pub quantity : D
  pub price : Option D
  pub stop_price : Option D
  pub time_in_force : TimeInForce
  pub client_order_id : Option Text
  pub reduce_only : Bool
  pub post_only : Bool
  pub stp : SelfTradePrevention

pub record Order (D : Type 0) : Type 0 where
  pub id : Text
  pub client_order_id : Option Text
  pub symbol : Symbol
  pub side : OrderSide
  pub order_type : OrderType
  pub status : OrderStatus
  pub quantity : D
  pub filled_quantity : D
  pub price : Option D
  pub average_price : Option D

pub record Balance (D : Type 0) : Type 0 where
  pub asset : Text
  pub free : D
  pub locked : D

pub record Ticker (D : Type 0) : Type 0 where
  pub symbol : Symbol
  pub last : D
  pub bid : D
  pub ask : D
  pub volume : D
  pub timestamp : ℤ

pub record OcoRequest (D : Type 0) : Type 0 where
  pub symbol : Symbol
  pub side : OrderSide
  pub quantity : D
  pub price : D
  pub stop_price : D
  pub stop_limit_price : Option D
  pub client_order_id : Option Text

module _ {D : Type 0} where
  -- `Order::is_open`
  unfoldable pub is_open : Order D → Bool
  unfolding status_is_open
  is_open o = status_is_open o.status

  -- `OrderRequest::bare`
  unfoldable pub bare : Symbol → OrderSide → OrderType → D → OrderRequest D
  bare symbol side order_type quantity = record {
    symbol = symbol;
    side = side;
    order_type = order_type;
    quantity = quantity;
    price = none;
    stop_price = none;
    time_in_force = gtc;
    client_order_id = none;
    reduce_only = false;
    post_only = false;
    stp = allow;
  }

  unfoldable pub market_buy : Symbol → D → OrderRequest D
  unfolding bare
  market_buy symbol quantity = bare symbol buy market quantity

  unfoldable pub market_sell : Symbol → D → OrderRequest D
  unfolding bare
  market_sell symbol quantity = bare symbol sell market quantity

  unfoldable pub limit_buy : Symbol → D → D → OrderRequest D
  unfolding bare
  limit_buy symbol quantity price = record (bare symbol buy limit quantity) { price = some price }

  unfoldable pub limit_sell : Symbol → D → D → OrderRequest D
  unfolding bare
  limit_sell symbol quantity price = record (bare symbol sell limit quantity) { price = some price }

  unfoldable pub with_stop_price : OrderRequest D → D → OrderRequest D
  with_stop_price r stop = record r { order_type = triggered r.order_type; stop_price = some stop }

  unfoldable pub with_time_in_force : OrderRequest D → TimeInForce → OrderRequest D
  with_time_in_force r tif = record r { time_in_force = tif }

  unfoldable pub with_client_order_id : OrderRequest D → Text → OrderRequest D
  with_client_order_id r id = record r { client_order_id = some id }

  -- `reduce_only` and `post_only`
  unfoldable pub set_reduce_only : OrderRequest D → OrderRequest D
  set_reduce_only r = record r { reduce_only = true }

  unfoldable pub set_post_only : OrderRequest D → OrderRequest D
  set_post_only r = record r { post_only = true }

  unfoldable pub with_stp : OrderRequest D → SelfTradePrevention → OrderRequest D
  with_stp r stp = record r { stp = stp }

  -- `OcoRequest::new`
  unfoldable pub new_oco : Symbol → OrderSide → D → D → D → OcoRequest D
  new_oco symbol side quantity price stop_price = record {
    symbol = symbol;
    side = side;
    quantity = quantity;
    price = price;
    stop_price = stop_price;
    stop_limit_price = none;
    client_order_id = none;
  }

  unfoldable pub with_stop_limit_price : OcoRequest D → D → OcoRequest D
  with_stop_limit_price r price = record r { stop_limit_price = some price }

  -- `OcoRequest::with_client_order_id`
  unfoldable pub with_oco_id : OcoRequest D → Text → OcoRequest D
  with_oco_id r id = record r { client_order_id = some id }

module _ {D : Type 0} ⦃d : Decimal D⦄ where
  unfoldable pub remaining_quantity : Order D → D
  remaining_quantity o = d.sub o.quantity o.filled_quantity

  -- `Balance::total`
  unfoldable pub total : Balance D → D
  total b = d.add b.free b.locked

  -- The price check of a limit order, by the price it carries.
  abbrev pub check_price : Option D → Result (Unit {0})
  check_price none = err (invalid_order (codes "limit order requires a price"))
  check_price (some p) = err_if (led p d.nought) (invalid_order (codes "price must be positive"))

  abbrev pub is_none : Option D → Bool
  is_none none = true
  is_none (some _) = false

  -- `OrderRequest::validate`
  unfoldable pub validate : OrderRequest D → Result (Unit {0})
  unfolding requires_price is_trigger
  validate r = do
    err_if (led r.quantity d.nought) (invalid_order (codes "quantity must be positive"))
    if requires_price r.order_type then check_price r.price else ok tt
    err_if (is_trigger r.order_type && is_none r.stop_price)
        (invalid_order (codes "stop order requires a stop price"))

  -- `OcoRequest::validate`
  unfoldable pub validate_oco : OcoRequest D → Result (Unit {0})
  validate_oco r = do
    err_if (led r.quantity d.nought) (invalid_order (codes "quantity must be positive"))
    err_if (led r.price d.nought || led r.stop_price d.nought)
        (invalid_order (codes "OCO prices must be positive"))
    elim r.stop_limit_price [
      | none ↦ ok tt
      | some slp ↦
          err_if (led slp d.nought) (invalid_order (codes "stop limit price must be positive"))
    ]
