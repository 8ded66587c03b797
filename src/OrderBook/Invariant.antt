-- ===== src/OrderBook/Invariant.antt =====
-- The well-formedness of a book: each side in strict price order, with positive quantities.
use wickra_exchange.Prelude.{◌≡◌, true, false, [], ◌∷◌, List, arith, if◌then◌else◌}
use wickra_exchange.OrdMap.{OrdMap, insert, remove}
use wickra_exchange.OrdMap.Laws.{IsSorted, insert-IsSorted, remove-IsSorted}
use wickra_exchange.Decimal.{Decimal, decimal_ord, ltd, led}
use wickra_exchange.Symbol.{Symbol}
use wickra_exchange.Events.{BookLevel, OrderBookSnapshot, BookDelta}
use wickra_exchange.OrderBook.{
  OrderBookBuilder, new, collect, apply_snapshot, apply_level, apply_levels, apply_delta,
}

module _ {D : Type 0} ⦃d : Decimal D⦄ where
  abbrev pub IsPositive : OrdMap D D → Type 0
  IsPositive [] = Unit
  IsPositive ((p, q) ∷ m) = (ltd d.nought q ≡ true) × IsPositive m

  pub record IsValid (b : OrderBookBuilder D) : Type 0 where
    pub bids_sorted : IsSorted b.bids
    pub asks_sorted : IsSorted b.asks
    pub bids_positive : IsPositive b.bids
    pub asks_positive : IsPositive b.asks

  insert-IsPositive :
      (p q : D) (m : OrdMap D D) → ltd d.nought q ≡ true → IsPositive m → IsPositive (insert p q m)
  unfolding insert
  insert-IsPositive p q [] h s = (h, tt)
  insert-IsPositive p q ((j, w) ∷ m) h s = ground (arith, insert-IsPositive p q m h)

  remove-IsPositive : (p : D) (m : OrdMap D D) → IsPositive m → IsPositive (remove p m)
  unfolding remove
  remove-IsPositive p [] s = tt
  remove-IsPositive p ((j, w) ∷ m) s = ground (arith, remove-IsPositive p m)

  -- `q <= 0` and `0 < q` are opposite tests.
  led-ltd : (q : D) → led q d.nought ≡ false → ltd d.nought q ≡ true
  led-ltd q h = ground (arith, d.order.lt_of_gt q d.nought)

  pub IsSide : OrdMap D D → Type 0
  IsSide m = IsSorted m × IsPositive m

  collect-IsSide : (m : OrdMap D D) (ls : List (BookLevel D)) → IsSide m → IsSide (collect m ls)
  unfolding collect IsSide
  collect-IsSide m [] s = s
  collect-IsSide m (l ∷ ls) s =
      collect-IsSide (if ltd d.nought l.quantity then insert l.price l.quantity m else m) ls (
        ground
          (arith, insert-IsSorted l.price l.quantity m, insert-IsPositive l.price l.quantity m))

  apply_level-IsSide : (m : OrdMap D D) (l : BookLevel D) → IsSide m → IsSide (apply_level m l)
  unfolding apply_level IsSide
  apply_level-IsSide m l s = ground (
    arith,
    insert-IsSorted l.price l.quantity m,
    insert-IsPositive l.price l.quantity m,
    remove-IsSorted l.price m,
    remove-IsPositive l.price m,
    led-ltd l.quantity,
  )

  apply_levels-IsSide :
      (m : OrdMap D D) (ls : List (BookLevel D)) → IsSide m → IsSide (apply_levels m ls)
  unfolding apply_levels
  apply_levels-IsSide m [] s = s
  apply_levels-IsSide m (l ∷ ls) s =
      apply_levels-IsSide (apply_level m l) ls (apply_level-IsSide m l s)

  pub new-IsValid : (symbol : Symbol) → IsValid (new symbol)
  unfolding new
  new-IsValid symbol = record {
    bids_sorted = tt;
    asks_sorted = tt;
    bids_positive = tt;
    asks_positive = tt;
  }

  -- Whatever the levels of the snapshot, its order, zero quantities and repeated prices included,
  -- the book built from it is well formed.
  pub apply_snapshot-IsValid :
      (b : OrderBookBuilder D) (s : OrderBookSnapshot D) → IsValid (apply_snapshot b s)
  unfolding apply_snapshot IsSide
  apply_snapshot-IsValid b s =
      let bids = collect-IsSide [] s.bids (tt, tt) in
      let asks = collect-IsSide [] s.asks (tt, tt) in
      record {
        bids_sorted = bids.0;
        asks_sorted = asks.0;
        bids_positive = bids.1;
        asks_positive = asks.1;
      }

  -- A diff keeps a well-formed book well formed, on every one of its four outcomes.
  pub apply_delta-IsValid :
      (b : OrderBookBuilder D) (delta : BookDelta D) → IsValid b → IsValid (apply_delta b delta).0
  unfolding apply_delta IsSide
  apply_delta-IsValid b delta v = ground (
    arith,
    apply_levels-IsSide b.bids delta.bids (v.bids_sorted, v.bids_positive),
    apply_levels-IsSide b.asks delta.asks (v.asks_sorted, v.asks_positive),
  )
