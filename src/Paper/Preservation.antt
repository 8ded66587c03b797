-- ===== src/Paper/Preservation.antt =====
-- The portfolio's invariant behind a rest, a fill and a cancellation.
use wickra_exchange.Prelude.{◌≡◌, refl, sym, ◌∙◌, ◌<◌, ◌+◌, true, false, some, arith}
use wickra_exchange.Prelude.Int.{
  ℤ, pos, ◌+ℤ◌, ◌-ℤ◌, ◌≤ℤ◌, int_laws, +ℤ_zero, -ℤ_zero, sub_nonneg, add_nonneg,
}
use wickra_exchange.Prelude.Word.{u64_mod}
use wickra_exchange.Prelude.Text.{Text}
use wickra_exchange.Prelude.Ord.{text_ord}
use wickra_exchange.OrdMap.{OrdMap, lookup, insert}
use wickra_exchange.OrdMap.Laws.{
  insert-IsSorted, lookup-insert, insert-AllEntries, lookup-AllEntries,
}
use wickra_exchange.OrdMap.Sums.{sum_of}
use wickra_exchange.Decimal.{Decimal, ltd}
use wickra_exchange.Decimal.Exact.{IsExact}
use wickra_exchange.Symbol.{Symbol}
use wickra_exchange.Types.{
  OrderSide, buy, sell, OrderRequest, Order, Balance, is_open, status_is_open, canceled,
}
use wickra_exchange.Paper.{
  PaperExchange, balance_mut, free_of, sub_free, paper_id, resting_order, reserve_asset,
  reserve_amount, rest_order, settle,
}
use wickra_exchange.Paper.Balances.{free_of-eq}
use wickra_exchange.Paper.Units.{
  add_u64_next, units_of_ltd, units-release, units-lock, units-add_free, units-sub_free,
  sub_free_solvent, add_free_solvent, sum-insert_new, sum-insert_old, fresh-insert,
}
use wickra_exchange.Paper.Execution.{cancel_found, released}
use wickra_exchange.Paper.Invariant.{
  IsValid, reserve, free_units, locked_units, HasOwnId, HasReserve,
}

-- The sum behind `accounted`, when an open order is closed.
cancel_accounted : (l s t moved : ℤ) → l ≡ s → t +ℤ moved ≡ s +ℤ pos 0 → l -ℤ moved ≡ t
cancel_accounted l s t moved e h = rw (e ∙ (sym (+ℤ_zero s) ∙ sym h)) (omega int_laws)

-- The asset that a fill spends.
abbrev pub spent_asset : OrderSide → Symbol → Text
spent_asset buy s = s.quote
spent_asset sell s = s.base

module _ {D : Type 0} ⦃d : Decimal D⦄ ⦃x : IsExact D⦄ where
  -- A resting order that the free balance covers keeps the invariant.
  pub rest_order-IsValid :
      (ex : PaperExchange D) (r : OrderRequest D) (price : D)
      → IsValid ex
      → ex.next_id + 1 < u64_mod
      → ltd
          (free_of (reserve_asset r.side r.symbol) ex.balances)
          (reserve_amount r.side r.quantity price)
        ≡ false
      → pos 0 ≤ℤ x.units (reserve_amount r.side r.quantity price)
      → IsValid (rest_order ex r price).0
  unfolding rest_order status_is_open is_open
  rest_order-IsValid ex r price v room covered nonneg =
      let k = reserve_asset r.side r.symbol in
      let amount = reserve_amount r.side r.quantity price in
      let id = paper_id (ex.next_id + 1) in
      let order = resting_order id r price in
      rw (add_u64_next ex.next_id room) (record {
        solvent = λ a. ground (
          arith,
          units-lock a k amount ex.balances,
          v.solvent a,
          units_of_ltd (free_of k ex.balances) amount covered,
          free_of-eq k ex.balances,
          text_ord.eq_of_cmp k a,
          sub_nonneg (free_units a ex.balances) (x.units amount),
          -ℤ_zero (free_units a ex.balances),
        );
        accounted = λ a. ground (
          arith,
          units-lock a k amount ex.balances,
          v.accounted a,
          sum-insert_new a id order ex.orders (v.fresh (ex.next_id + 1) (omega arith)),
        );
        fresh = fresh-insert ex.next_id order ex.orders v.fresh;
        sorted = insert-IsSorted id order ex.orders v.sorted;
        own_ids = insert-AllEntries HasOwnId id order ex.orders refl v.own_ids;
        reserves = insert-AllEntries HasReserve id order ex.orders (λ a. ground arith) v.reserves;
      })

  -- A cancelled order gives back what it reserved, and the invariant holds.
  pub cancel_found-IsValid :
      (ex : PaperExchange D) (id : Text) (o : Order D)
      → IsValid ex
      → lookup id ex.orders ≡ some o
      → is_open o ≡ true
      → IsValid (cancel_found ex id o)
  unfolding cancel_found status_is_open is_open
  cancel_found-IsValid ex id o v found open_now =
      let k = (released o).0 in
      let amount = (released o).1 in
      let order = record o { status = canceled } in
      let held : HasReserve id o = lookup-AllEntries HasReserve id o ex.orders found v.reserves in
      record {
        solvent = λ a. ground (
          arith,
          units-release a k amount ex.balances,
          v.solvent a,
          held a,
          add_nonneg (free_units a ex.balances) (x.units amount),
          +ℤ_zero (free_units a ex.balances),
        );
        accounted = λ a. ground (
          arith,
          units-release a k amount ex.balances,
          sum-insert_old a id order o ex.orders found,
          cancel_accounted (locked_units a ex.balances) (sum_of (reserve a) ex.orders)
              (sum_of (reserve a) (insert id order ex.orders)) (x.units amount) (v.accounted a),
          cancel_accounted (locked_units a ex.balances) (sum_of (reserve a) ex.orders)
              (sum_of (reserve a) (insert id order ex.orders)) (pos 0) (v.accounted a),
        );
        fresh = λ n h. ground (
          arith,
          v.fresh n h,
          lookup-insert id (paper_id n) order ex.orders,
          text_ord.eq_of_cmp id (paper_id n),
        );
        sorted = insert-IsSorted id order ex.orders v.sorted;
        own_ids =
            insert-AllEntries HasOwnId id order ex.orders
              (lookup-AllEntries HasOwnId id o ex.orders found v.own_ids) v.own_ids;
        reserves = insert-AllEntries HasReserve id order ex.orders (λ a. ground arith) v.reserves;
      }

  -- The amount that a fill spends.
  abbrev pub spent_amount : OrderSide → D → D → D → D
  spent_amount buy qty notional fee = d.add notional fee
  spent_amount sell qty notional fee = qty

  -- A fill of what the free balances cover keeps the invariant: a buy spends the notional and the
  -- fee, a sell earns a notional that is not below its fee.
  pub settle_solvent :
      (side : OrderSide) (s : Symbol) (qty notional fee : D) (m : OrdMap Text (Balance D))
      → ((a : Text) → pos 0 ≤ℤ free_units a m)
      → pos 0 ≤ℤ x.units qty
      → (side ≡ sell → x.units fee ≤ℤ x.units notional)
      → ltd (free_of (spent_asset side s) m) (spent_amount side qty notional fee) ≡ false
      → (a : Text)
      → (pos 0 ≤ℤ free_units a (settle side s qty notional fee m))
        × (locked_units a (settle side s qty notional fee m) ≡ locked_units a m)
  unfolding settle
  settle_solvent buy s qty notional fee m free q f covered a = (
    add_free_solvent a s.base qty (balance_mut s.quote (sub_free (d.add notional fee)) m)
        (λ b. sub_free_solvent b s.quote (d.add notional fee) m free covered) q,
    (units-add_free a s.base qty (balance_mut s.quote (sub_free (d.add notional fee)) m)).1
        ∙ (units-sub_free a s.quote (d.add notional fee) m).1,
  )
  settle_solvent sell s qty notional fee m free q f covered a = (
    add_free_solvent a s.quote (d.sub notional fee) (balance_mut s.base (sub_free qty) m)
        (λ b. sub_free_solvent b s.base qty m free covered)
        (rw (x.units_sub notional fee) (sub_nonneg (x.units notional) (x.units fee) (f refl))),
    (units-add_free a s.quote (d.sub notional fee) (balance_mut s.base (sub_free qty) m)).1
        ∙ (units-sub_free a s.base qty m).1,
  )
