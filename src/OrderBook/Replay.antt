-- ===== src/OrderBook/Replay.antt =====
-- A stream of diffs, and the update ids that it covers.
use wickra_exchange.Prelude.{
  ℕ, ◌≡◌, ◌≤◌, ◌<◌, ◌+◌, ◌⊎◌, inl, inr, true, false, List, [], ◌∷◌, arith, All,
}
use wickra_exchange.Prelude.Word.{add_u64, u64_mod}
use wickra_exchange.Decimal.{Decimal}
use wickra_exchange.Events.{BookDelta}
use wickra_exchange.OrderBook.{OrderBookBuilder, apply_delta}

lt_or_ge : (a n : ℕ) → (a < n) ⊎ (n ≤ a)
lt_or_ge a n = omega arith

module _ {D : Type 0} ⦃d : Decimal D⦄ where
  -- The diffs of a stream, folded into a book one by one.
  unfoldable pub replay : OrderBookBuilder D → List (BookDelta D) → OrderBookBuilder D
  replay b [] = b
  replay b (delta ∷ ds) = replay (apply_delta b delta).0 ds

  -- Some diff of the stream spans the id.
  abbrev pub Covered : ℕ → List (BookDelta D) → Type 0
  Covered n [] = ⊥
  Covered n (delta ∷ ds) =
      ((delta.first_update_id ≤ n) × (n ≤ delta.final_update_id)) ⊎ Covered n ds

  -- Diffs alone never bring a book back that is not initialized.
  replay_uninitialized :
      (b : OrderBookBuilder D) (ds : List (BookDelta D))
      → b.initialized ≡ false
      → (replay b ds).initialized ≡ false
  unfolding replay apply_delta
  replay_uninitialized b [] h = h
  replay_uninitialized b (delta ∷ ds) h = ground (arith, replay_uninitialized b ds h)

  -- The diffs' ids leave room for the next id in a `u64`.
  abbrev pub HasRoom : List (BookDelta D) → Type 0
  HasRoom ds = All (λ delta. delta.final_update_id + 1 < u64_mod) ds

  -- The step: a diff leaves the id where it was, or moves it over ids that it spans, or the book
  -- is not initialized any more.
  step_covers :
      (b : OrderBookBuilder D) (delta : BookDelta D) (n : ℕ)
      → b.last_update_id + 1 < u64_mod
      → b.last_update_id < n
      → let b' = (apply_delta b delta).0 in
        (b'.initialized ≡ false)
        ⊎ (b' ≡ b)
        ⊎ ((b'.last_update_id ≡ delta.final_update_id)
            × (n ≤ delta.final_update_id → delta.first_update_id ≤ n))
  unfolding apply_delta add_u64
  step_covers b delta n room h = ground arith

  -- In a book that is still initialized after a stream, every update id from the one after the
  -- starting id up to the book's own lies in some diff of the stream: nothing is missing. The
  -- starting id and the final ids of the diffs leave room for the next id in a `u64`.
  pub replay-Covered :
      (b : OrderBookBuilder D) (ds : List (BookDelta D)) (n : ℕ)
      → b.last_update_id + 1 < u64_mod
      → HasRoom ds
      → (replay b ds).initialized ≡ true
      → b.last_update_id < n
      → n ≤ (replay b ds).last_update_id
      → Covered n ds
  unfolding replay
  replay-Covered b [] n room hs i lo hi = absurd (omega arith)
  replay-Covered b (delta ∷ ds) n room hs i lo hi = elim (step_covers b delta n room lo) [
    | inl lost ↦ cc (replay_uninitialized (apply_delta b delta).0 ds lost)
    | inr (inl same) ↦
        inr (replay-Covered (apply_delta b delta).0 ds n (rw same room) hs.1 i (rw same lo) hi)
    | inr (inr moved) ↦ elim (lt_or_ge delta.final_update_id n) [
      | inl beyond ↦ inr (
          replay-Covered (apply_delta b delta).0 ds n (rw (moved.0) hs.0) hs.1 i
            (rw (moved.0) beyond) hi)
      | inr within ↦ inl (moved.1 within, within)
    ]
  ]
