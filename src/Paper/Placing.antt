-- ===== src/Paper/Placing.antt =====
-- The portfolio's invariant behind `place_order` and `cancel_order`.
use wickra_exchange.Prelude.{
  ◌≡◌, refl, sym, ◌∙◌, ◌<◌, ◌+◌, true, false, Option, none, some, arith, if_case, Option-cases, inl,
  inr,
}
use wickra_exchange.Prelude.Int.{pos, ◌≤ℤ◌, sub_nonneg, add_nonneg, +ℤ_zero}
use wickra_exchange.Prelude.Word.{u64_mod}
use wickra_exchange.Prelude.Text.{Text}
use wickra_exchange.Prelude.Ord.{text_ord}
use wickra_exchange.OrdMap.{lookup}
use wickra_exchange.OrdMap.Sums.{sum_of}
use wickra_exchange.OrdMap.Laws.{AllEntries, insert-AllEntries, lookup-AllEntries, insert-IsSorted}
use wickra_exchange.Decimal.{Decimal, ltd}
use wickra_exchange.Decimal.Exact.{IsExact, IsOrdered}
use wickra_exchange.Error.{Result, ok, Result-cases}
use wickra_exchange.Symbol.{Symbol, symbol_ord}
use wickra_exchange.Types.{
  OrderSide, buy, sell, OrderRequest, is_open, status_is_open, is_trigger, requires_price,
  check_price, validate,
}
use wickra_exchange.Paper.{
  PaperExchange, or_else, bps_fraction, fill_price, paper_id, free_of, reserve_asset,
  reserve_amount, settle_fill, filled_order,
}
use wickra_exchange.Paper.Execution.{
  crosses, short_of, place_resting, place_crossing, place_at, place_order, cancel_order,
}
use wickra_exchange.Paper.Invariant.{IsValid, HasOwnId, HasReserve, reserve}
use wickra_exchange.Paper.Units.{add_u64_next, sum-insert_new, fresh-insert}
use wickra_exchange.Paper.Preservation.{
  rest_order-IsValid, cancel_found-IsValid, settle_solvent, spent_asset, spent_amount,
}

module _ {D : Type 0} ⦃d : Decimal D⦄ ⦃x : IsExact D⦄ ⦃y : IsOrdered D⦄ where
  -- The fee is at most the whole notional, the slippage lies between nothing and the whole price,
  -- and no mark is negative.
  pub record IsPriced (ex : PaperExchange D) : Type 0 where
    pub taker_le : x.units ex.taker_bps ≤ℤ x.units (d.from 10000)
    pub slippage_nonneg : pos 0 ≤ℤ x.units ex.slippage_bps
    pub slippage_le : x.units ex.slippage_bps ≤ℤ x.units (d.from 10000)
    pub marks_nonneg : AllEntries (λ (s : Symbol) (p : D). pos 0 ≤ℤ x.units p) ex.marks

  fill_price_nonneg :
      (ex : PaperExchange D) (side : OrderSide) (mark : D)
      → IsPriced ex
      → pos 0 ≤ℤ x.units mark
      → pos 0 ≤ℤ x.units (fill_price ex side mark)
  unfolding fill_price bps_fraction
  fill_price_nonneg ex buy mark p h =
      let slip = d.div ex.slippage_bps (d.from 10000) in
      y.mul_nonneg mark (d.add d.one slip) h (
        rw (x.units_add d.one slip) (
          add_nonneg (x.units d.one) (x.units slip) (omega (arith, y.one_pos)) (
            y.div_nonneg ex.slippage_bps (d.from 10000) p.slippage_nonneg
              (y.from_pos 10000 (omega arith)))))
  fill_price_nonneg ex sell mark p h =
      let slip = d.div ex.slippage_bps (d.from 10000) in
      y.mul_nonneg mark (d.sub d.one slip) h (
        rw (x.units_sub d.one slip) (
          sub_nonneg (x.units d.one) (x.units slip) (
            y.div_le_one ex.slippage_bps (d.from 10000) (y.from_pos 10000 (omega arith))
              p.slippage_le)))

  -- A validated order has a quantity that is not negative, and a limit order such a price.
  validate_quantity : (r : OrderRequest D) → validate r ≡ ok tt → pos 0 ≤ℤ x.units r.quantity
  unfolding validate
  validate_quantity r h = ground (arith, x.cmp_units r.quantity d.nought, x.units_nought)

  check_price_ok : (o : Option D) (z : D) → check_price o ≡ ok tt → pos 0 ≤ℤ x.units (or_else o z)
  check_price_ok none z h = cc
  check_price_ok (some p) z h = ground (arith, x.cmp_units p d.nought, x.units_nought)

  validate_price :
      (r : OrderRequest D) (z : D)
      → validate r ≡ ok tt
      → requires_price r.order_type ≡ true
      → pos 0 ≤ℤ x.units (or_else r.price z)
  unfolding validate
  validate_price r z h k = ground (arith, check_price_ok r.price z)

  reserve_amount_nonneg :
      (side : OrderSide) (qty price : D)
      → pos 0 ≤ℤ x.units qty
      → pos 0 ≤ℤ x.units price
      → pos 0 ≤ℤ x.units (reserve_amount side qty price)
  reserve_amount_nonneg buy qty price q h = y.mul_nonneg qty price q h
  reserve_amount_nonneg sell qty price q h = q

  -- A covered fill keeps the invariant.
  settle_fill-IsValid :
      (ex : PaperExchange D) (r : OrderRequest D) (price : D)
      → IsValid ex
      → IsPriced ex
      → ex.next_id + 1 < u64_mod
      → pos 0 ≤ℤ x.units r.quantity
      → pos 0 ≤ℤ x.units price
      → let notional = d.mul r.quantity price in
        let fee = d.mul notional (bps_fraction ex.taker_bps) in
        ltd
            (free_of (spent_asset r.side r.symbol) ex.balances)
            (spent_amount r.side r.quantity notional fee)
          ≡ false
        → IsValid (settle_fill ex r price).0
  unfolding settle_fill status_is_open is_open bps_fraction
  settle_fill-IsValid ex r price v p room q h covered =
      let notional = d.mul r.quantity price in
      let fee = d.mul notional (d.div ex.taker_bps (d.from 10000)) in
      let id = paper_id (ex.next_id + 1) in
      let order = filled_order id r price in
      let settled =
        settle_solvent r.side r.symbol r.quantity notional fee ex.balances v.solvent q
          (λ _.
            y.mul_le notional (d.div ex.taker_bps (d.from 10000))
              (y.mul_nonneg r.quantity price q h)
              (y.div_le_one ex.taker_bps (d.from 10000) (y.from_pos 10000 (omega arith))
                p.taker_le))
          covered in
      rw (add_u64_next ex.next_id room) (record {
        solvent = λ a. (settled a).0;
        accounted = λ a. ground (
          arith,
          (settled a).1,
          v.accounted a,
          sum-insert_new a id order ex.orders (v.fresh (ex.next_id + 1) (omega arith)),
          +ℤ_zero (sum_of (reserve a) ex.orders),
        );
        fresh = fresh-insert ex.next_id order ex.orders v.fresh;
        sorted = insert-IsSorted id order ex.orders v.sorted;
        own_ids = insert-AllEntries HasOwnId id order ex.orders refl v.own_ids;
        reserves = insert-AllEntries HasReserve id order ex.orders (λ a. ground arith) v.reserves;
      })

  -- The state that an operation leaves is valid.
  abbrev Leaves : {A : Type 0} → PaperExchange D × Result A → Type 0
  Leaves o = IsValid o.0

  short_of_lem :
      (ex : PaperExchange D) (r : OrderRequest D) (price : D)
      → let notional = d.mul r.quantity price in
        short_of ex r price
        ≡ ltd
            (free_of (spent_asset r.side r.symbol) ex.balances)
            (spent_amount r.side r.quantity notional (d.mul notional (bps_fraction ex.taker_bps)))
  short_of_lem ex r price = ground arith

  place_crossing-IsValid :
      (ex : PaperExchange D) (r : OrderRequest D) (mark : D)
      → IsValid ex
      → IsPriced ex
      → ex.next_id + 1 < u64_mod
      → pos 0 ≤ℤ x.units r.quantity
      → pos 0 ≤ℤ x.units mark
      → Leaves (place_crossing ex r mark)
  unfolding place_crossing
  place_crossing-IsValid ex r mark v p room q h =
      let price = fill_price ex r.side mark in
      let filled =
        settle_fill-IsValid ex r price v p room q (fill_price_nonneg ex r.side mark p h) in
      if_case Leaves r.post_only _ _ (λ _. v)
        (λ _.
          if_case Leaves (short_of ex r price) _ _ (λ _. v)
            (λ covered. filled (sym (short_of_lem ex r price) ∙ covered)))

  place_resting-IsValid :
      (ex : PaperExchange D) (r : OrderRequest D) (mark : D)
      → IsValid ex
      → ex.next_id + 1 < u64_mod
      → pos 0 ≤ℤ x.units r.quantity
      → pos 0 ≤ℤ x.units (or_else r.price mark)
      → Leaves (place_resting ex r mark)
  unfolding place_resting
  place_resting-IsValid ex r mark v room q h =
      let price = or_else r.price mark in
      if_case Leaves
        (ltd (free_of (reserve_asset r.side r.symbol) ex.balances)
          (reserve_amount r.side r.quantity price))
        _ _ (λ _. v)
        (λ covered.
          rest_order-IsValid ex r price v room covered
            (reserve_amount_nonneg r.side r.quantity price q h))

  -- Only a limit order can fail to cross.
  crosses-requires_price :
      (r : OrderRequest D) (mark : D) → crosses r mark ≡ false → requires_price r.order_type ≡ true
  unfolding crosses requires_price
  crosses-requires_price r mark h = ground arith

  place_at-IsValid :
      (ex : PaperExchange D) (r : OrderRequest D) (o : Option D)
      → IsValid ex
      → IsPriced ex
      → ex.next_id + 1 < u64_mod
      → validate r ≡ ok tt
      → lookup r.symbol ex.marks ≡ o
      → Leaves (place_at ex r o)
  unfolding place_at
  place_at-IsValid ex r none v p room ok_r found = v
  place_at-IsValid ex r (some mark) v p room ok_r found =
      let q = validate_quantity r ok_r in
      let h : pos 0 ≤ℤ x.units mark =
        lookup-AllEntries (λ (s : Symbol) (p : D). pos 0 ≤ℤ x.units p) r.symbol mark ex.marks found
          p.marks_nonneg in
      if_case Leaves (crosses r mark) _ _ (λ _. place_crossing-IsValid ex r mark v p room q h)
        (λ rests.
          place_resting-IsValid ex r mark v room q
            (validate_price r mark ok_r (crosses-requires_price r mark rests)))

  -- Placing any order, however it ends, keeps the portfolio's invariant: no asset is overdrawn, and
  -- what is locked of each asset is what the open orders reserve of it. The fee is at most the whole
  -- notional, the slippage at most the whole price, no mark is negative, an order id is left, and
  -- decimals are exact under sums and ordered under products.
  pub place_order-IsValid :
      (ex : PaperExchange D) (r : OrderRequest D)
      → IsValid ex
      → IsPriced ex
      → ex.next_id + 1 < u64_mod
      → IsValid (place_order ex r).0
  unfolding place_order
  place_order-IsValid ex r v p room = elim (Result-cases (validate r)) [
    | inl (u, e) ↦
        rw (e, place_order)
          (if_case Leaves (is_trigger r.order_type) _ _ (λ _. v)
            (λ _. place_at-IsValid ex r (lookup r.symbol ex.marks) v p room e refl))
    | inr (e, h) ↦ rw (h, place_order) v
  ]

  -- Cancelling any order, open or not, keeps the portfolio's invariant, where decimals are exact
  -- under sums.
  pub cancel_order-IsValid :
      (ex : PaperExchange D) (s : Symbol) (id : Text)
      → IsValid ex
      → IsValid (cancel_order ex s id).0
  unfolding cancel_order
  cancel_order-IsValid ex s id v = elim (Option-cases (lookup id ex.orders)) [
    | inl missing ↦ rw (missing, cancel_order) v
    | inr (o, found) ↦
        rw (found, cancel_order)
          (if_case Leaves (is_open o) _ _ (cancel_found-IsValid ex id o v found) (λ _. v))
  ]
