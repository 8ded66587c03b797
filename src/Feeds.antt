-- ===== src/Feeds.antt =====
-- The derivatives feeds and the conversions into wickra-core's inputs,
-- crates/wickra-exchange-core/src/feeds.rs. wickra-core and `f64` are a parameter.
pub mod Fold
mod Tests
use wickra_exchange.Prelude.{Bool, Option, none, some, List, [], ◌∷◌, map}
use wickra_exchange.Prelude.Int.{ℤ, pos}
use wickra_exchange.Prelude.Text.{Text}
use wickra_exchange.Decimal.{Decimal}
use wickra_exchange.Error.{Result, ok, err, deserialization, ok_or, map_all, ◌>>=◌}
use wickra_exchange.Types.{OrderSide, buy, sell}
use wickra_exchange.Events.{
  TradePrint, BookLevel, OrderBookSnapshot, DerivativesFeed, funding, open_interest, liquidation,
  long_short_ratio, mark_index, FundingRate, OpenInterest, Liquidation, LongShortRatio, MarkIndex,
}

pub data Side : Type 0 where
  core_buy core_sell : Side

-- The twelve arguments of `DerivativesTick::new`.
pub record TickInput (F : Type 0) : Type 0 where
  pub funding_rate : F
  pub mark_price : F
  pub index_price : F
  pub futures_price : F
  pub open_interest : F
  pub long_size : F
  pub short_size : F
  pub taker_buy_volume : F
  pub taker_sell_volume : F
  pub long_liquidation : F
  pub short_liquidation : F
  pub timestamp : ℤ

-- wickra-core: its trades `T`, levels `L`, books `B`, members `M`, cross sections `X` and ticks `Y`.
-- A constructor returns a value or the text of its error.
pub record Core (D F T L B M X Y : Type 0) : Type 0 where
  pub to_f64 : D → Option F
  pub nan : F
  pub zero : F
  pub add : F → F → F
  pub trade : F → F → Side → ℤ → Option T
  pub trade_error : F → F → Side → ℤ → Text
  pub level : F → F → Option L
  pub level_error : F → F → Text
  pub book : List L → List L → Option B
  pub book_error : List L → List L → Text
  pub member : F → F → Bool → Bool → M
  pub cross_section : List M → ℤ → Option X
  pub cross_section_error : List M → ℤ → Text
  pub tick : TickInput F → Option Y
  pub tick_error : TickInput F → Text

unfoldable pub core_side : OrderSide → Side
core_side buy = core_buy
core_side sell = core_sell

pub record BreadthMember (D : Type 0) : Type 0 where
  pub change : D
  pub volume : D
  pub new_high : Bool
  pub new_low : Bool

pub data DerivativesChannel : Type 0 where
  funding_channel mark_index_channel liquidations_channel : DerivativesChannel

pub record DerivativesTickBuilder (F : Type 0) : Type 0 where
  pub funding_rate : F
  pub mark_price : F
  pub index_price : F
  pub futures_price : F
  pub open_interest : F
  pub long_size : F
  pub short_size : F
  pub long_liquidation : F
  pub short_liquidation : F
  pub timestamp : ℤ

module _ {D F T L B M X Y : Type 0} (core : Core D F T L B M X Y) where
  -- `to_f64`
  unfoldable pub float : D → F
  float value = elim (core.to_f64 value) [ some x ↦ x | none ↦ core.nan ]

  unfoldable pub trade_from_print : TradePrint D → Result T
  unfolding float core_side
  trade_from_print t =
      let price = float t.price in
      let size = float t.quantity in
      ok_or (core.trade price size (core_side t.aggressor) t.timestamp)
        (deserialization (core.trade_error price size (core_side t.aggressor) t.timestamp))

  -- `to_levels`
  abbrev pub level_of : BookLevel D → Result L
  level_of l =
      ok_or (core.level (float l.price) (float l.quantity))
        (deserialization (core.level_error (float l.price) (float l.quantity)))

  unfoldable pub order_book_from_snapshot : OrderBookSnapshot D → Result B
  unfolding float
  order_book_from_snapshot s = do
    bids ← map_all level_of s.bids
    asks ← map_all level_of s.asks
    ok_or (core.book bids asks) (deserialization (core.book_error bids asks))

  unfoldable pub cross_section : List (BreadthMember D) → ℤ → Result X
  unfolding float
  cross_section members timestamp =
      let all =
        map
          (λ (m : BreadthMember D).
            core.member (float m.change) (float m.volume) m.new_high m.new_low)
          members in
      ok_or (core.cross_section all timestamp)
        (deserialization (core.cross_section_error all timestamp))

  unfoldable pub new_builder : DerivativesTickBuilder F
  new_builder = record {
    funding_rate = core.zero;
    mark_price = core.zero;
    index_price = core.zero;
    futures_price = core.zero;
    open_interest = core.zero;
    long_size = core.zero;
    short_size = core.zero;
    long_liquidation = core.zero;
    short_liquidation = core.zero;
    timestamp = pos 0;
  }

  unfoldable pub reset_flows : DerivativesTickBuilder F → DerivativesTickBuilder F
  reset_flows b = record b { long_liquidation = core.zero; short_liquidation = core.zero }

  unfoldable pub build : DerivativesTickBuilder F → Result Y
  build b =
      let input : TickInput F = record {
        funding_rate = b.funding_rate;
        mark_price = b.mark_price;
        index_price = b.index_price;
        futures_price = b.futures_price;
        open_interest = b.open_interest;
        long_size = b.long_size;
        short_size = b.short_size;
        taker_buy_volume = core.zero;
        taker_sell_volume = core.zero;
        long_liquidation = b.long_liquidation;
        short_liquidation = b.short_liquidation;
        timestamp = b.timestamp;
      } in
      ok_or (core.tick input) (deserialization (core.tick_error input))

module _ {D F T L B M X Y : Type 0} ⦃d : Decimal D⦄ (core : Core D F T L B M X Y) where
  -- The liquidated side's total grows: a forced sell closes longs.
  abbrev pub liquidate : DerivativesTickBuilder F → OrderSide → F → DerivativesTickBuilder F
  liquidate b sell notional = record b { long_liquidation = core.add b.long_liquidation notional }
  liquidate b buy notional = record b { short_liquidation = core.add b.short_liquidation notional }

  unfoldable pub apply : DerivativesTickBuilder F → DerivativesFeed D → DerivativesTickBuilder F
  unfolding float
  apply b (funding f) = record b {
    funding_rate = float core f.rate;
    mark_price = float core f.mark_price;
    timestamp = f.timestamp;
  }
  apply b (open_interest oi) = record b {
    open_interest = float core oi.open_interest;
    timestamp = oi.timestamp;
  }
  apply b (liquidation l) = record (liquidate b l.side (float core (d.mul l.price l.quantity))) {
    timestamp = l.timestamp;
  }
  apply b (long_short_ratio r) = record b {
    long_size = float core r.long_size;
    short_size = float core r.short_size;
    timestamp = r.timestamp;
  }
  apply b (mark_index m) = record b {
    mark_price = float core m.mark_price;
    index_price = float core m.index_price;
    futures_price = float core m.mark_price;
    timestamp = m.timestamp;
  }
