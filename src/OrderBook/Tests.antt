-- ===== src/OrderBook/Tests.antt =====
-- The order book on concrete books and diffs, with whole numbers for decimals.
use wickra_exchange.Prelude.{
  ℕ, ◌≡◌, refl, ◌≤◌, ◌<◌, true, false, some, [], ◌∷◌, arith, length, ◌⊎◌, ◌+◌,
}
use mathlib.Core.Path.{subst}
use wickra_exchange.Prelude.Int.{ℤ, pos}
use wickra_exchange.Prelude.Word.{add_u64}
use wickra_exchange.Prelude.Text.{codes}
use wickra_exchange.Decimal.Integers.{ℤ_ord, ℤ_decimal}
use wickra_exchange.OrdMap.{lookup, insert, remove}
use wickra_exchange.Symbol.{Symbol}
use wickra_exchange.Events.{BookLevel, BookDelta, OrderBookSnapshot}
use wickra_exchange.OrderBook.{
  OrderBookBuilder, new, collect, apply_snapshot, apply_level, apply_levels, apply_delta, stale,
  applied, gap, last_entry, best_bid, best_ask, to_snapshot,
}
use wickra_exchange.OrderBook.Invariant.{IsValid, apply_snapshot-IsValid, apply_delta-IsValid}
use wickra_exchange.OrderBook.Updates.{last_at, amended, lookup-apply_levels, apply_delta_outcome}
use wickra_exchange.OrderBook.Replay.{replay, Covered, replay-Covered}
use wickra_exchange.OrderBook.Best.{AtMost, AtLeast, best_levels}
use wickra_exchange.OrderBook.Export.{
  mid_price-to_snapshot, length-to_snapshot, apply_snapshot-to_snapshot,
}
use wickra_exchange.OrderBook
use wickra_exchange.Events

abbrev btc_usdt : Symbol
btc_usdt = record { base = codes "BTC"; quote = codes "USDT" }

abbrev at : ℕ → ℕ → BookLevel ℤ
at price quantity = record { price = pos price; quantity = pos quantity }

abbrev snapshot : OrderBookSnapshot ℤ
snapshot = record {
  symbol = btc_usdt;
  last_update_id = 10;
  bids = at 100 1 ∷ at 99 0 ∷ at 98 5 ∷ [];
  asks = at 102 2 ∷ [];
  timestamp = pos 0;
}

abbrev book : OrderBookBuilder ℤ
book = record {
  symbol = btc_usdt;
  bids = (pos 98, pos 5) ∷ (pos 100, pos 1) ∷ [];
  asks = (pos 102, pos 2) ∷ [];
  last_update_id = 10;
  timestamp = pos 0;
  initialized = true;
}

abbrev diff : ℕ → ℕ → BookDelta ℤ
diff from to = record {
  symbol = btc_usdt;
  first_update_id = from;
  final_update_id = to;
  bids = at 100 0 ∷ at 97 3 ∷ [];
  asks = [];
  timestamp = pos 1;
}

book-snapshot : apply_snapshot (new btc_usdt) snapshot ≡ book
unfolding apply_snapshot new collect insert
book-snapshot = refl

book-IsValid : IsValid book
book-IsValid = subst IsValid book-snapshot (apply_snapshot-IsValid (new btc_usdt) snapshot)

gap_lost : (apply_delta book (diff 12 13)).1 ≡ gap
unfolding apply_delta add_u64
gap_lost = refl

stale_kept : apply_delta book (diff 9 10) ≡ (book, stale)
unfolding apply_delta add_u64
stale_kept = refl

replay-Covered_example : Covered 12 (diff 11 11 ∷ diff 12 14 ∷ [])
unfolding replay apply_delta apply_levels apply_level insert remove add_u64
replay-Covered_example =
    replay-Covered book (diff 11 11 ∷ diff 12 14 ∷ []) 12 (omega arith)
      (omega arith, (omega arith, tt)) refl (omega arith) (omega arith)

lookup-apply_levels_example :
    lookup (pos 100) (apply_levels book.bids (diff 11 12).bids)
    ≡ amended (last_at (pos 100) (diff 11 12).bids) (lookup (pos 100) book.bids)
lookup-apply_levels_example =
    lookup-apply_levels (pos 100) book.bids (diff 11 12).bids (book-IsValid.bids_sorted)

apply_delta_outcome_example :
    let (b', u) = apply_delta book (diff 11 12) in
    (((diff 11 12).final_update_id ≤ book.last_update_id) × (u ≡ stale) × (b' ≡ book))
    ⊎ ((book.last_update_id < (diff 11 12).final_update_id)
        × (book.last_update_id + 1 < (diff 11 12).first_update_id)
        × (u ≡ gap)
        × (b' ≡ record book { initialized = false }))
    ⊎ ((book.last_update_id < (diff 11 12).final_update_id)
        × ((diff 11 12).first_update_id ≤ book.last_update_id + 1)
        × (u ≡ applied)
        × (b'.last_update_id ≡ (diff 11 12).final_update_id)
        × (b'.timestamp ≡ (diff 11 12).timestamp)
        × (b'.initialized ≡ true)
        × (b'.bids ≡ apply_levels book.bids (diff 11 12).bids)
        × (b'.asks ≡ apply_levels book.asks (diff 11 12).asks))
apply_delta_outcome_example = apply_delta_outcome book (diff 11 12) refl (omega arith)

apply_delta-IsValid_example : IsValid (apply_delta book (diff 11 12)).0
apply_delta-IsValid_example = apply_delta-IsValid book (diff 11 12) book-IsValid

apply_snapshot-IsValid_example : IsValid (apply_snapshot (new btc_usdt) snapshot)
apply_snapshot-IsValid_example = apply_snapshot-IsValid (new btc_usdt) snapshot

best_levels_example :
    ((lookup (pos 100) book.bids ≡ some (pos 1)) × AtMost (pos 100) book.bids)
    × ((lookup (pos 102) book.asks ≡ some (pos 2)) × AtLeast (pos 102) book.asks)
unfolding best_bid best_ask last_entry
best_levels_example = best_levels book book-IsValid

mid_price-to_snapshot_example :
    (Events.mid_price (to_snapshot book 1) ≡ OrderBook.mid_price book)
    × (Events.spread (to_snapshot book 1) ≡ OrderBook.spread book)
mid_price-to_snapshot_example = mid_price-to_snapshot book 0

length-to_snapshot_example :
    (length (to_snapshot book 1).bids ≤ 1) × (length (to_snapshot book 1).asks ≤ 1)
length-to_snapshot_example = length-to_snapshot book 1

apply_snapshot-to_snapshot_example : apply_snapshot (new btc_usdt) (to_snapshot book 5) ≡ book
unfolding new
apply_snapshot-to_snapshot_example =
    apply_snapshot-to_snapshot book (new btc_usdt) 5 book-IsValid refl refl (omega arith)
      (omega arith)
