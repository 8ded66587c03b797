-- ===== src/Events.antt =====
-- Market-data and account streaming items, crates/wickra-exchange-core/src/events.rs, with the
-- derivatives frames of crates/wickra-exchange-core/src/feeds.rs.
use wickra_exchange.Prelude.{ℕ, Option, none, some, List, [], ◌∷◌}
use wickra_exchange.Prelude.Int.{ℤ}
use wickra_exchange.Prelude.Text.{Text}
use wickra_exchange.Decimal.{Decimal}
use wickra_exchange.Symbol.{Symbol}
use wickra_exchange.Types.{OrderSide, Order, Balance, Ticker}

pub record BookLevel (D : Type 0) : Type 0 where
  pub price : D
  pub quantity : D

pub record OrderBookSnapshot (D : Type 0) : Type 0 where
  pub symbol : Symbol
  pub last_update_id : ℕ
  pub bids : List (BookLevel D)
  pub asks : List (BookLevel D)
  pub timestamp : ℤ

pub record BookDelta (D : Type 0) : Type 0 where
  pub symbol : Symbol
  pub first_update_id : ℕ
  pub final_update_id : ℕ
  pub bids : List (BookLevel D)
  pub asks : List (BookLevel D)
  pub timestamp : ℤ

pub record TradePrint (D : Type 0) : Type 0 where
  pub symbol : Symbol
  pub price : D
  pub quantity : D
  pub aggressor : OrderSide
  pub timestamp : ℤ

pub record FundingRate (D : Type 0) : Type 0 where
  pub symbol : Symbol
  pub rate : D
  pub mark_price : D
  pub timestamp : ℤ

pub record OpenInterest (D : Type 0) : Type 0 where
  pub symbol : Symbol
  pub open_interest : D
  pub timestamp : ℤ

pub record Liquidation (D : Type 0) : Type 0 where
  pub symbol : Symbol
  pub side : OrderSide
  pub price : D
  pub quantity : D
  pub timestamp : ℤ

pub record LongShortRatio (D : Type 0) : Type 0 where
  pub symbol : Symbol
  pub long_size : D
  pub short_size : D
  pub timestamp : ℤ

pub record MarkIndex (D : Type 0) : Type 0 where
  pub symbol : Symbol
  pub mark_price : D
  pub index_price : D
  pub timestamp : ℤ

pub data DerivativesFeed (D : Type 0) : Type 0 where
  funding : FundingRate D → DerivativesFeed D
  open_interest : OpenInterest D → DerivativesFeed D
  liquidation : Liquidation D → DerivativesFeed D
  long_short_ratio : LongShortRatio D → DerivativesFeed D
  mark_index : MarkIndex D → DerivativesFeed D

pub data Event (D : Type 0) : Type 0 where
  trade : TradePrint D → Event D
  ticker : Ticker D → Event D
  book_snapshot : OrderBookSnapshot D → Event D
  book_delta : BookDelta D → Event D
  order_update : Order D → Event D
  balance_update : List (Balance D) → Event D
  subscribed : Text → Event D
  disconnected : Event D
  reconnected : Event D
  derivatives : DerivativesFeed D → Event D

abbrev pub first {ℓ} : {A : Type ℓ} → List A → Option A
first [] = none
first (x ∷ xs) = some x

module _ {D : Type 0} ⦃d : Decimal D⦄ where
  -- `OrderBookSnapshot::mid_price`
  unfoldable pub mid_price : OrderBookSnapshot D → Option D
  mid_price b = elim (first b.bids) [
    | none ↦ none
    | some bid ↦ elim (first b.asks) [
      | none ↦ none
      | some ask ↦ some (d.div (d.add bid.price ask.price) (d.from 2))
    ]
  ]

  -- `OrderBookSnapshot::spread`
  unfoldable pub spread : OrderBookSnapshot D → Option D
  spread b = elim (first b.bids) [
    | none ↦ none
    | some bid ↦ elim (first b.asks) [ none ↦ none | some ask ↦ some (d.sub ask.price bid.price) ]
  ]
