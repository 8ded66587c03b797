-- ===== src/Paper/Session.antt =====
-- A whole session: a sequence of calls on one account.
use wickra_exchange.Prelude.{
  ℕ, ◌≡◌, refl, ◌≤◌, ◌<◌, ◌+◌, List, [], ◌∷◌, arith, if◌then◌else◌, All, length, ◌∙◌, if_case,
}
use wickra_exchange.Prelude.Int.{pos, ◌≤ℤ◌, add_nonneg}
use wickra_exchange.Prelude.Word.{u64_mod, add_u64, add_u32}
use wickra_exchange.Prelude.Text.{Text}
use wickra_exchange.Prelude.Ord.{text_ord, same}
use wickra_exchange.OrdMap.{lookup, values}
use wickra_exchange.OrdMap.Laws.{insert-AllEntries}
use wickra_exchange.Decimal.{Decimal}
use wickra_exchange.Decimal.Exact.{IsExact, IsOrdered}
use wickra_exchange.Symbol.{Symbol, symbol_ord}
use wickra_exchange.Types.{OrderRequest}
use wickra_exchange.Paper.{
  PaperExchange, balance_of, new, with_balance, set_price, settle_fill, rest_order,
}
use wickra_exchange.Paper.Execution.{
  place_order, place_at, place_resting, place_crossing, cancel_order, cancel_found, cancel_all,
  cancel_each, open_ids, poll_events, is_ok,
}
use wickra_exchange.Paper.Invariant.{IsValid, free_units}
use wickra_exchange.Paper.Units.{units-add_free}
use wickra_exchange.Paper.Placing.{IsPriced, place_order-IsValid, cancel_order-IsValid}

-- The calls of a session.
pub data Call (D : Type 0) : Type 0 where
  credit : Text → D → Call D
  quote : Symbol → D → Call D
  place : OrderRequest D → Call D
  cancel : Symbol → Text → Call D
  clear : Call D
  drain : Call D

module _ {D : Type 0} ⦃d : Decimal D⦄ where
  unfoldable pub run : PaperExchange D → List (Call D) → PaperExchange D
  run ex [] = ex
  run ex (credit asset amount ∷ rest) = run (with_balance ex asset amount) rest
  run ex (quote symbol price ∷ rest) = run (set_price ex symbol price) rest
  run ex (place r ∷ rest) = run (place_order ex r).0 rest
  run ex (cancel symbol id ∷ rest) = run (cancel_order ex symbol id).0 rest
  run ex (clear ∷ rest) = run (cancel_all ex).0 rest
  run ex (drain ∷ rest) = run (poll_events ex).0 rest

  -- What no order and no cancel touches.
  abbrev Keeps : ℕ → PaperExchange D → PaperExchange D → Type 0
  Keeps n ex ex' =
      (ex'.marks ≡ ex.marks)
      × (ex'.taker_bps ≡ ex.taker_bps)
      × (ex'.slippage_bps ≡ ex.slippage_bps)
      × (ex'.next_id ≤ ex.next_id + n)

  place_order-Keeps :
      (ex : PaperExchange D) (r : OrderRequest D)
      → ex.next_id + 1 < u64_mod
      → Keeps 1 ex (place_order ex r).0
  unfolding place_order place_at place_resting place_crossing settle_fill rest_order add_u64
  place_order-Keeps ex r room = ground arith

  cancel_order-Keeps :
      (ex : PaperExchange D) (s : Symbol) (id : Text) → Keeps 0 ex (cancel_order ex s id).0
  unfolding cancel_order cancel_found
  cancel_order-Keeps ex s id = ground arith

  cancel_each-Keeps :
      (ex : PaperExchange D) (ids : List (Symbol × Text)) (n : ℕ)
      → Keeps 0 ex (cancel_each ex ids n).0
  unfolding cancel_each
  cancel_each-Keeps ex [] n = (refl, refl, refl, omega arith)
  cancel_each-Keeps ex ((s, id) ∷ rest) n = ground (
    arith,
    cancel_order-Keeps ex s id,
    cancel_each-Keeps (cancel_order ex s id).0 rest
        (if is_ok (cancel_order ex s id).1 then add_u32 n 1 else n),
  )

module _ {D : Type 0} ⦃d : Decimal D⦄ ⦃x : IsExact D⦄ ⦃y : IsOrdered D⦄ where
  -- A deposit or a price is not negative.
  abbrev pub IsSensible : Call D → Type 0
  IsSensible (credit asset amount) = pos 0 ≤ℤ x.units amount
  IsSensible (quote symbol price) = pos 0 ≤ℤ x.units price
  IsSensible _ = Unit

  pub new-IsValid : IsValid (new {D = D})
  unfolding new balance_of lookup
  new-IsValid = record {
    solvent = λ a. rw x.units_nought (omega arith);
    accounted = λ a. x.units_nought;
    fresh = λ n h. refl;
    sorted = tt;
    own_ids = tt;
    reserves = tt;
  }

  with_balance-IsValid :
      (ex : PaperExchange D) (a : Text) (amount : D)
      → pos 0 ≤ℤ x.units amount
      → IsValid ex
      → IsValid (with_balance ex a amount)
  unfolding with_balance
  with_balance-IsValid ex a amount h v = record {
    solvent = λ k. rw ((units-add_free k a amount ex.balances).0) (
        add_nonneg (free_units k ex.balances) _ (v.solvent k)
          (if_case (λ z. pos 0 ≤ℤ z) (same a k) _ _ (λ _. h) (λ _. omega arith)));
    accounted = λ k. (units-add_free k a amount ex.balances).1 ∙ v.accounted k;
    fresh = v.fresh;
    sorted = v.sorted;
    own_ids = v.own_ids;
    reserves = v.reserves;
  }

  cancel_each-IsValid :
      (ex : PaperExchange D) (ids : List (Symbol × Text)) (n : ℕ)
      → IsValid ex
      → IsValid (cancel_each ex ids n).0
  unfolding cancel_each
  cancel_each-IsValid ex [] n v = v
  cancel_each-IsValid ex ((s, id) ∷ rest) n v =
      cancel_each-IsValid (cancel_order ex s id).0 rest _ (cancel_order-IsValid ex s id v)

  -- A changed exchange whose frame is kept.
  kept-IsPriced : (n : ℕ) (ex ex' : PaperExchange D) → Keeps n ex ex' → IsPriced ex → IsPriced ex'
  kept-IsPriced n ex ex' (m, t, s, _) p = record {
    taker_le = rw t (p.taker_le);
    slippage_nonneg = rw s (p.slippage_nonneg);
    slippage_le = rw s (p.slippage_le);
    marks_nonneg = rw m (p.marks_nonneg);
  }

  set_price-IsPriced :
      (ex : PaperExchange D) (s : Symbol) (price : D)
      → pos 0 ≤ℤ x.units price
      → IsPriced ex
      → IsPriced (set_price ex s price)
  unfolding set_price
  set_price-IsPriced ex s price h p = record {
    taker_le = p.taker_le;
    slippage_nonneg = p.slippage_nonneg;
    slippage_le = p.slippage_le;
    marks_nonneg =
        insert-AllEntries (λ (s : Symbol) (p : D). pos 0 ≤ℤ x.units p) s price ex.marks h
          p.marks_nonneg;
  }

  set_price-IsValid :
      (ex : PaperExchange D) (s : Symbol) (price : D) → IsValid ex → IsValid (set_price ex s price)
  unfolding set_price
  set_price-IsValid ex s price v = record {
    solvent = v.solvent;
    accounted = v.accounted;
    fresh = v.fresh;
    sorted = v.sorted;
    own_ids = v.own_ids;
    reserves = v.reserves;
  }

  poll_events-IsValid : (ex : PaperExchange D) → IsValid ex → IsValid (poll_events ex).0
  unfolding poll_events
  poll_events-IsValid ex v = record {
    solvent = v.solvent;
    accounted = v.accounted;
    fresh = v.fresh;
    sorted = v.sorted;
    own_ids = v.own_ids;
    reserves = v.reserves;
  }

  -- From a valid exchange, any sequence of deposits, price updates, orders, cancels, cancel-alls
  -- and polls leads to a valid exchange. The deposits and prices are not negative, the fee is at
  -- most the whole notional, the slippage at most the whole price, an id is left for every call, and
  -- decimals are exact under sums and ordered under products.
  pub run-IsValid :
      (ex : PaperExchange D) (calls : List (Call D))
      → IsValid ex
      → IsPriced ex
      → ex.next_id + length calls < u64_mod
      → All IsSensible calls
      → IsValid (run ex calls)
  unfolding run cancel_all
  run-IsValid ex [] v p room h = v
  run-IsValid ex (credit asset amount ∷ rest) v p room (h, hs) =
      run-IsValid (with_balance ex asset amount) rest (with_balance-IsValid ex asset amount h v)
        (kept-IsPriced 0 ex (with_balance ex asset amount)
          (unfold with_balance in (refl, refl, refl, omega arith)) p)
        (unfold with_balance in omega arith) hs
  run-IsValid ex (quote symbol price ∷ rest) v p room (h, hs) =
      run-IsValid (set_price ex symbol price) rest (set_price-IsValid ex symbol price v)
        (set_price-IsPriced ex symbol price h p) (unfold set_price in omega arith) hs
  run-IsValid ex (place r ∷ rest) v p room (_, hs) =
      let kept = place_order-Keeps ex r (omega arith) in
      run-IsValid (place_order ex r).0 rest (place_order-IsValid ex r v p (omega arith))
        (kept-IsPriced 1 ex (place_order ex r).0 kept p) (omega arith) hs
  run-IsValid ex (cancel symbol id ∷ rest) v p room (_, hs) =
      let kept = cancel_order-Keeps ex symbol id in
      run-IsValid (cancel_order ex symbol id).0 rest (cancel_order-IsValid ex symbol id v)
        (kept-IsPriced 0 ex (cancel_order ex symbol id).0 kept p) (omega arith) hs
  run-IsValid ex (clear ∷ rest) v p room (_, hs) =
      let ids = open_ids (values ex.orders) in
      let kept = cancel_each-Keeps ex ids 0 in
      run-IsValid (cancel_all ex).0 rest (cancel_each-IsValid ex ids 0 v)
        (kept-IsPriced 0 ex (cancel_all ex).0 kept p) (omega arith) hs
  run-IsValid ex (drain ∷ rest) v p room (_, hs) =
      run-IsValid (poll_events ex).0 rest (poll_events-IsValid ex v)
        (kept-IsPriced 0 ex (poll_events ex).0
          (unfold poll_events in (refl, refl, refl, omega arith)) p)
        (unfold poll_events in omega arith) hs
