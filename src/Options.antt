-- ===== src/Options.antt =====
-- Market types, account modes and the connection options, crates/wickra-exchange-core/src/options.rs.
use wickra_exchange.Prelude.{ℕ, Bool, true, false, Option, none}
use wickra_exchange.Prelude.Text.{Text, codes}

pub data MarketType : Type 0 where
  spot usd_m_futures coin_m_futures margin : MarketType

unfoldable pub is_derivatives : MarketType → Bool
is_derivatives usd_m_futures = true
is_derivatives coin_m_futures = true
is_derivatives _ = false

pub data PositionMode : Type 0 where
  one_way hedge : PositionMode

pub data MarginMode : Type 0 where
  cross isolated : MarginMode

pub data SelfTradePrevention : Type 0 where
  allow expire_maker expire_taker expire_both : SelfTradePrevention

-- The market in words, for the message a client refuses with.
unfoldable pub describe : MarketType → Text
describe spot = codes "the spot market"
describe usd_m_futures = codes "USD-margined (linear) futures"
describe coin_m_futures = codes "coin-margined (inverse) futures"
describe margin = codes "the margin market"

-- `timeout` is in nanoseconds.
pub record ExchangeOptions : Type 0 where
  pub market_type : MarketType
  pub testnet : Bool
  pub recv_window_ms : ℕ
  pub timeout : ℕ
  pub user_agent : Option Text
  pub proxy : Option Text
  pub position_mode : PositionMode
  pub margin_mode : MarginMode

unfoldable pub mainnet : MarketType → ExchangeOptions
mainnet market_type = record {
  market_type = market_type;
  testnet = false;
  recv_window_ms = 5000;
  timeout = 10_000_000_000;
  user_agent = none;
  proxy = none;
  position_mode = one_way;
  margin_mode = cross;
}

-- `ExchangeOptions::testnet`
unfoldable pub on_testnet : MarketType → ExchangeOptions
unfolding mainnet
on_testnet market_type = record (mainnet market_type) { testnet = true }

unfoldable pub with_recv_window : ExchangeOptions → ℕ → ExchangeOptions
with_recv_window o ms = record o { recv_window_ms = ms }

unfoldable pub with_timeout : ExchangeOptions → ℕ → ExchangeOptions
with_timeout o timeout = record o { timeout = timeout }

unfoldable pub with_position_mode : ExchangeOptions → PositionMode → ExchangeOptions
with_position_mode o mode = record o { position_mode = mode }

unfoldable pub with_margin_mode : ExchangeOptions → MarginMode → ExchangeOptions
with_margin_mode o mode = record o { margin_mode = mode }
