-- ===== src/OrderBook.antt =====
-- The local level-2 order book, crates/wickra-exchange-core/src/orderbook.rs: `OrderBookBuilder`
-- and its methods. A side is a `BTreeMap` from price to quantity.
pub mod Invariant
pub mod Updates
pub mod Replay
pub mod Best
pub mod Export
mod Tests
use wickra_exchange.Prelude.{
  ℕ, ◌<◌, ◌≤◌, Bool, true, false, not, Option, none, some, List, [], ◌∷◌, map, take, ltb, leb,
  if◌then◌else◌,
}
use mathlib.Core.List.{reverse}
use wickra_exchange.Prelude.Int.{ℤ, pos}
use wickra_exchange.Prelude.Word.{add_u64}
use wickra_exchange.OrdMap.{OrdMap, insert, remove}
use wickra_exchange.Decimal.{Decimal, decimal_ord, ltd, led}
use wickra_exchange.Symbol.{Symbol}
use wickra_exchange.Events.{BookLevel, OrderBookSnapshot, BookDelta, first}

pub data BookUpdate : Type 0 where
  applied stale gap uninitialized : BookUpdate

pub record OrderBookBuilder (D : Type 0) : Type 0 where
  pub symbol : Symbol
  pub bids : OrdMap D D
  pub asks : OrdMap D D
  pub last_update_id : ℕ
  pub timestamp : ℤ
  pub initialized : Bool

unfoldable pub new : {D : Type 0} → Symbol → OrderBookBuilder D
new symbol = record {
  symbol = symbol;
  bids = [];
  asks = [];
  last_update_id = 0;
  timestamp = pos 0;
  initialized = false;
}

module _ {D : Type 0} ⦃d : Decimal D⦄ where
  -- `filter(quantity > 0)`, then `collect` into the map: the last of equal prices stays.
  unfoldable pub collect : OrdMap D D → List (BookLevel D) → OrdMap D D
  collect m [] = m
  collect m (l ∷ ls) =
      collect (if ltd d.nought l.quantity then insert l.price l.quantity m else m) ls

  unfoldable pub apply_snapshot : OrderBookBuilder D → OrderBookSnapshot D → OrderBookBuilder D
  unfolding collect
  apply_snapshot b s = record b {
    bids = collect [] s.bids;
    asks = collect [] s.asks;
    last_update_id = s.last_update_id;
    timestamp = s.timestamp;
    initialized = true;
  }

  unfoldable pub apply_level : OrdMap D D → BookLevel D → OrdMap D D
  apply_level side l =
      if led l.quantity d.nought then remove l.price side else insert l.price l.quantity side

  -- The loop over one side of a diff.
  unfoldable pub apply_levels : OrdMap D D → List (BookLevel D) → OrdMap D D
  apply_levels side [] = side
  apply_levels side (l ∷ ls) = apply_levels (apply_level side l) ls

  unfoldable pub apply_delta : OrderBookBuilder D → BookDelta D → OrderBookBuilder D × BookUpdate
  apply_delta b delta =
      if not b.initialized
      then (b, uninitialized)
      else if leb delta.final_update_id b.last_update_id
      then (b, stale)
      else if ltb (add_u64 b.last_update_id 1) delta.first_update_id
      then (record b { initialized = false }, gap)
      else (
        record b {
          bids = apply_levels b.bids delta.bids;
          asks = apply_levels b.asks delta.asks;
          last_update_id = delta.final_update_id;
          timestamp = delta.timestamp;
        },
        applied,
      )

  -- `iter().next_back()`
  unfoldable pub last_entry : OrdMap D D → Option (D × D)
  last_entry [] = none
  last_entry (e ∷ []) = some e
  last_entry (e ∷ f ∷ m) = last_entry (f ∷ m)

  unfoldable pub best_bid : OrderBookBuilder D → Option (D × D)
  unfolding last_entry
  best_bid b = last_entry b.bids

  unfoldable pub best_ask : OrderBookBuilder D → Option (D × D)
  best_ask b = first b.asks

  unfoldable pub mid_price : OrderBookBuilder D → Option D
  unfolding best_bid best_ask
  mid_price b = elim (best_bid b) [
    | none ↦ none
    | some (bid, _) ↦ elim (best_ask b) [
      | none ↦ none
      | some (ask, _) ↦ some (d.div (d.add bid ask) (d.from 2))
    ]
  ]

  unfoldable pub spread : OrderBookBuilder D → Option D
  unfolding best_bid best_ask
  spread b = elim (best_bid b) [
    | none ↦ none
    | some (bid, _) ↦ elim (best_ask b) [ none ↦ none | some (ask, _) ↦ some (d.sub ask bid) ]
  ]

  abbrev pub level : D × D → BookLevel D
  level (p, q) = record { price = p; quantity = q }

  unfoldable pub to_snapshot : OrderBookBuilder D → ℕ → OrderBookSnapshot D
  to_snapshot b depth = record {
    symbol = b.symbol;
    last_update_id = b.last_update_id;
    bids = map level (take depth (reverse b.bids));
    asks = map level (take depth b.asks);
    timestamp = b.timestamp;
  }
