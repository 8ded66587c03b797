-- ===== src/OrderBook/Updates.antt =====
-- What a side reads after a diff, and how each diff is handled.
use wickra_exchange.Prelude.{
  ◌≡◌, refl, ◌≤◌, ◌<◌, ◌+◌, true, false, Option, none, some, List, [], ◌∷◌, arith, if◌then◌else◌,
  ◌⊎◌,
}
use wickra_exchange.Prelude.Ord.{same}
use wickra_exchange.Prelude.Word.{add_u64, u64_mod}
use wickra_exchange.OrdMap.{OrdMap, lookup}
use wickra_exchange.OrdMap.Laws.{
  IsSorted, lookup-insert, lookup-remove, insert-IsSorted, remove-IsSorted,
}
use wickra_exchange.Decimal.{Decimal, decimal_ord, led}
use wickra_exchange.Events.{BookLevel, BookDelta}
use wickra_exchange.OrderBook.{
  OrderBookBuilder, applied, stale, gap, apply_level, apply_levels, apply_delta,
}

module _ {D : Type 0} ⦃d : Decimal D⦄ where
  -- The quantity that the last level at a price carries, if any level is at that price.
  abbrev pub last_at : D → List (BookLevel D) → Option D
  last_at p [] = none
  last_at p (l ∷ ls) = elim (last_at p ls) [
    | some q ↦ some q
    | none ↦ if same l.price p then some l.quantity else none
  ]

  -- What the levels leave of a quantity that stood before: a quantity that is not positive
  -- takes the price off the book.
  abbrev pub amended : Option D → Option D → Option D
  amended none old = old
  amended (some q) old = if led q d.nought then none else some q

  apply_level-IsSorted :
      (m : OrdMap D D) (l : BookLevel D) → IsSorted m → IsSorted (apply_level m l)
  unfolding apply_level
  apply_level-IsSorted m l s =
      ground (arith, insert-IsSorted l.price l.quantity m, remove-IsSorted l.price m)

  lookup-apply_level :
      (p : D) (m : OrdMap D D) (l : BookLevel D)
      → IsSorted m
      → lookup p (apply_level m l)
        ≡ (if same l.price p then amended (some l.quantity) none else lookup p m)
  unfolding apply_level
  lookup-apply_level p m l s =
      ground (arith, lookup-insert l.price p l.quantity m, lookup-remove l.price p m s)

  -- After the levels of a diff, on a side with its prices in order, each price reads what the last level at that price says, and a
  -- price that no level names is as before.
  pub lookup-apply_levels :
      (p : D) (m : OrdMap D D) (ls : List (BookLevel D))
      → IsSorted m
      → lookup p (apply_levels m ls) ≡ amended (last_at p ls) (lookup p m)
  unfolding apply_levels
  lookup-apply_levels p m [] s = refl
  lookup-apply_levels p m (l ∷ ls) s = ground (
    arith,
    lookup-apply_levels p (apply_level m l) ls (apply_level-IsSorted m l s),
    lookup-apply_level p m l s,
  )

  -- A diff meets an initialized book in one of three ways, told apart by the ids: it ends at or
  -- before the book's id, is stale and changes nothing; or it starts beyond the next id, is a gap
  -- and only marks the book as not initialized; or it is applied: its levels are folded into the
  -- sides, its final id and its stamp become the book's, and the book stays initialized. The
  -- book's id leaves room for the next in a `u64`.
  pub apply_delta_outcome :
      (b : OrderBookBuilder D) (delta : BookDelta D)
      → b.initialized ≡ true
      → b.last_update_id + 1 < u64_mod
      → let (b', u) = apply_delta b delta in
        ((delta.final_update_id ≤ b.last_update_id) × (u ≡ stale) × (b' ≡ b))
        ⊎ ((b.last_update_id < delta.final_update_id)
            × (b.last_update_id + 1 < delta.first_update_id)
            × (u ≡ gap)
            × (b' ≡ record b { initialized = false }))
        ⊎ ((b.last_update_id < delta.final_update_id)
            × (delta.first_update_id ≤ b.last_update_id + 1)
            × (u ≡ applied)
            × (b'.last_update_id ≡ delta.final_update_id)
            × (b'.timestamp ≡ delta.timestamp)
            × (b'.initialized ≡ true)
            × (b'.bids ≡ apply_levels b.bids delta.bids)
            × (b'.asks ≡ apply_levels b.asks delta.asks))
  unfolding apply_delta add_u64
  apply_delta_outcome b delta i h = ground arith
