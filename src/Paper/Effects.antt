-- ===== src/Paper/Effects.antt =====
-- The balances behind a successful `place_order`: of a fill, and of an order that rests and is
-- cancelled.
use wickra_exchange.Prelude.{
  ◌≡◌, refl, ap, sym, ◌∙◌, true, false, Option, none, some, arith, if◌then◌else◌,
}
use mathlib.Core.Path.{subst}
use wickra_exchange.Prelude.Int.{ℤ, pos, ◌+ℤ◌, ◌-ℤ◌, int_laws}
use wickra_exchange.Prelude.Word.{add_u64}
use wickra_exchange.Prelude.Text.{Text}
use wickra_exchange.Prelude.Ord.{text_ord, same}
use wickra_exchange.OrdMap.{OrdMap, lookup, insert}
use wickra_exchange.OrdMap.Laws.{lookup-insert}
use wickra_exchange.Decimal.{Decimal}
use wickra_exchange.Decimal.Exact.{IsExact}
use wickra_exchange.Error.{ok}
use wickra_exchange.Symbol.{Symbol, symbol_ord}
use wickra_exchange.Types.{
  OrderSide, buy, sell, OrderRequest, Order, Balance, is_open, status_is_open,
}
use wickra_exchange.Paper.{
  PaperExchange, bps_fraction, fill_price, paper_id, or_else, balance_mut, sub_free, reserve_asset,
  reserve_amount, resting_order, rest_order, settle, settle_fill, filled_order, lock, release,
}
use wickra_exchange.Paper.Execution.{
  crosses, place_resting, place_crossing, place_at, place_order, cancel_order, cancel_found,
}
use wickra_exchange.Paper.Closing.{cancel_order_open}
use wickra_exchange.Paper.Invariant.{free_units, locked_units}
use wickra_exchange.Paper.Units.{units-add_free, units-sub_free, units-lock, units-release}

module _ {D : Type 0} ⦃d : Decimal D⦄ where
  -- A successful order at a mark is a rest at its limit price, or a fill at the slipped mark.
  place_at_ok :
      (ex ex1 : PaperExchange D) (r : OrderRequest D) (mark : D) (order : Order D)
      → place_at ex r (some mark) ≡ (ex1, ok order)
      → (if crosses r mark
          then settle_fill ex r (fill_price ex r.side mark)
          else rest_order ex r (or_else r.price mark))
        ≡ (ex1, order)
  unfolding place_at place_resting place_crossing
  place_at_ok ex ex1 r mark order h = ground arith

  -- A successful order has a mark and is placed at it.
  place_order_ok :
      (ex ex1 : PaperExchange D) (r : OrderRequest D) (order : Order D)
      → place_order ex r ≡ (ex1, ok order)
      → place_at ex r (lookup r.symbol ex.marks) ≡ (ex1, ok order)
  unfolding place_order
  place_order_ok ex ex1 r order h = ground arith

  settle_fill_filled :
      (ex : PaperExchange D) (r : OrderRequest D) (price : D)
      → is_open (settle_fill ex r price).1 ≡ false
  unfolding settle_fill is_open status_is_open
  settle_fill_filled ex r price = refl

  rest_order_open :
      (ex : PaperExchange D) (r : OrderRequest D) (price : D)
      → is_open (rest_order ex r price).1 ≡ true
  unfolding rest_order is_open status_is_open
  rest_order_open ex r price = refl

  -- An open order comes from resting at a price, a closed one from a fill at the slipped mark.
  place_order_open :
      (ex ex1 : PaperExchange D) (r : OrderRequest D) (order : Order D)
      → place_order ex r ≡ (ex1, ok order)
      → is_open order ≡ true
      → (price : D) × (rest_order ex r price ≡ (ex1, order))
  place_order_open ex ex1 r order h e =
      go (lookup r.symbol ex.marks) (place_order_ok ex ex1 r order h)
    where
      go :
          (o : Option D)
          → place_at ex r o ≡ (ex1, ok order)
          → (price : D) × (rest_order ex r price ≡ (ex1, order))
      go none k = unfold place_at in cc k
      go (some mark) k = (
        or_else r.price mark,
        ground (
          arith,
          place_at_ok ex ex1 r mark order k,
          settle_fill_filled ex r (fill_price ex r.side mark),
        ),
      )

  place_order_closed :
      (ex ex1 : PaperExchange D) (r : OrderRequest D) (order : Order D)
      → place_order ex r ≡ (ex1, ok order)
      → is_open order ≡ false
      → (mark : D) × (lookup r.symbol ex.marks ≡ some mark)
        × (settle_fill ex r (fill_price ex r.side mark) ≡ (ex1, order))
  place_order_closed ex ex1 r order h e =
      go (lookup r.symbol ex.marks) refl (place_order_ok ex ex1 r order h)
    where
      go :
          (o : Option D)
          → lookup r.symbol ex.marks ≡ o
          → place_at ex r o ≡ (ex1, ok order)
          → (mark : D) × (lookup r.symbol ex.marks ≡ some mark)
            × (settle_fill ex r (fill_price ex r.side mark) ≡ (ex1, order))
      go none found k = unfold place_at in cc k
      go (some mark) found k = (
        mark,
        found,
        ground
            (arith, place_at_ok ex ex1 r mark order k, rest_order_open ex r (or_else r.price mark)),
      )

sub-add_cancel : (a b : ℤ) → a -ℤ b +ℤ b ≡ a
sub-add_cancel a b = omega int_laws

add-sub_cancel : (a b : ℤ) → a +ℤ b -ℤ b ≡ a
add-sub_cancel a b = omega int_laws

module _ {D : Type 0} ⦃d : Decimal D⦄ ⦃x : IsExact D⦄ where
  -- Two portfolios read the same.
  abbrev pub SameBalances : OrdMap Text (Balance D) → OrdMap Text (Balance D) → Type 0
  SameBalances m m' =
      (a : Text) → (free_units a m ≡ free_units a m') × (locked_units a m ≡ locked_units a m')

  lock-release :
      (k : Text) (v : D) (m : OrdMap Text (Balance D))
      → SameBalances (balance_mut k (release v) (balance_mut k (lock v) m)) m
  lock-release k v m a = ground (
    arith,
    units-release a k v (balance_mut k (lock v) m),
    units-lock a k v m,
    sub-add_cancel (free_units a m) (x.units v),
    add-sub_cancel (locked_units a m) (x.units v),
    sub-add_cancel (free_units a m) (pos 0),
    add-sub_cancel (locked_units a m) (pos 0),
  )

  rest_cancel :
      (ex : PaperExchange D) (r : OrderRequest D) (price : D) (s : Symbol)
      → let (ex1, order) = rest_order ex r price in
        let (ex2, done) = cancel_order ex1 s order.id in
        (done ≡ ok tt) × SameBalances ex2.balances ex.balances
  unfolding rest_order is_open status_is_open
  rest_cancel ex r price s =
      let id = paper_id (add_u64 ex.next_id 1) in
      let order = resting_order id r price in
      let ex1 = (rest_order ex r price).0 in
      let found : lookup id (insert id order ex.orders) ≡ some order =
        ground (arith, lookup-insert id id order ex.orders, text_ord.cmp_refl id) in
      rw (cancel_order_open ex1 s id order found refl) (
        refl,
        unfold cancel_found in
            lock-release (reserve_asset r.side r.symbol) (reserve_amount r.side r.quantity price)
              ex.balances,
      )

  -- An order that was placed and rests can be cancelled at once, under any symbol, and then every
  -- asset has the free and the locked balance that it had before the order, where decimals are
  -- exact under sums.
  pub cancel_order-place_order :
      (ex ex1 : PaperExchange D) (r : OrderRequest D) (order : Order D) (s : Symbol)
      → place_order ex r ≡ (ex1, ok order)
      → is_open order ≡ true
      → let (ex2, done) = cancel_order ex1 s order.id in
        (done ≡ ok tt) × SameBalances ex2.balances ex.balances
  cancel_order-place_order ex ex1 r order s h e =
      let (price, rested) = place_order_open ex ex1 r order h e in
      subst
        (λ (o : PaperExchange D × Order D).
          ((cancel_order o.0 s o.1.id).1 ≡ ok tt)
          × SameBalances (cancel_order o.0 s o.1.id).0.balances ex.balances)
        rested (rest_cancel ex r price s)

  -- What a fill brings in and takes out of an asset.
  abbrev pub credit : OrderSide → Symbol → D → D → D → Text → ℤ
  credit buy s qty notional fee a = if same s.base a then x.units qty else pos 0
  credit sell s qty notional fee a =
      if same s.quote a then x.units notional -ℤ x.units fee else pos 0

  abbrev pub debit : OrderSide → Symbol → D → D → D → Text → ℤ
  debit buy s qty notional fee a = if same s.quote a then x.units notional +ℤ x.units fee else pos 0
  debit sell s qty notional fee a = if same s.base a then x.units qty else pos 0

  units-settle :
      (side : OrderSide) (s : Symbol) (qty notional fee : D) (m : OrdMap Text (Balance D))
      (a : Text)
      → let m' = settle side s qty notional fee m in
        (free_units a m'
          ≡ free_units a m -ℤ debit side s qty notional fee a +ℤ credit side s qty notional fee a)
        × (locked_units a m' ≡ locked_units a m)
  unfolding settle
  units-settle buy s qty notional fee m a = ground (
    arith,
    units-add_free a s.base qty (balance_mut s.quote (sub_free (d.add notional fee)) m),
    units-sub_free a s.quote (d.add notional fee) m,
    x.units_add notional fee,
  )
  units-settle sell s qty notional fee m a = ground (
    arith,
    units-add_free a s.quote (d.sub notional fee) (balance_mut s.base (sub_free qty) m),
    units-sub_free a s.base qty m,
    x.units_sub notional fee,
  )

  -- A price that is worse than the mark by some basis points: higher for a buy, lower for a sell.
  abbrev pub slipped : OrderSide → D → D → D
  slipped buy mark bps = d.mul mark (d.add d.one (d.div bps (d.from 10000)))
  slipped sell mark bps = d.mul mark (d.sub d.one (d.div bps (d.from 10000)))

  fill_price-slipped :
      (ex : PaperExchange D) (side : OrderSide) (mark : D)
      → fill_price ex side mark ≡ slipped side mark ex.slippage_bps
  unfolding fill_price bps_fraction
  fill_price-slipped ex buy mark = refl
  fill_price-slipped ex sell mark = refl

  -- The exchange and the order after a fill against a mark, from the exchange and the request
  -- before it.
  abbrev pub IsFillAt : PaperExchange D → OrderRequest D → D → PaperExchange D × Order D → Type 0
  IsFillAt ex r mark (ex1, order) =
      let price = slipped r.side mark ex.slippage_bps in
      let notional = d.mul r.quantity price in
      let fee = d.mul notional (d.div ex.taker_bps (d.from 10000)) in
      (order.average_price ≡ some price)
      × (order.filled_quantity ≡ r.quantity)
      × (lookup order.id ex1.orders ≡ some order)
      × ((a : Text)
          → (free_units a ex1.balances
              ≡ free_units a ex.balances
                -ℤ debit r.side r.symbol r.quantity notional fee a
                +ℤ credit r.side r.symbol r.quantity notional fee a)
            × (locked_units a ex1.balances ≡ locked_units a ex.balances))

  settle_fill-IsFillAt :
      (ex : PaperExchange D) (r : OrderRequest D) (mark : D)
      → IsFillAt ex r mark (settle_fill ex r (slipped r.side mark ex.slippage_bps))
  unfolding settle_fill bps_fraction
  settle_fill-IsFillAt ex r mark =
      let price = slipped r.side mark ex.slippage_bps in
      let notional = d.mul r.quantity price in
      let fee = d.mul notional (d.div ex.taker_bps (d.from 10000)) in
      let id = paper_id (add_u64 ex.next_id 1) in
      let order = filled_order id r price in
      (
        refl,
        refl,
        ground (arith, lookup-insert id id order ex.orders, text_ord.cmp_refl id),
        units-settle r.side r.symbol r.quantity notional fee ex.balances,
      )

  -- An order that is filled is filled whole, at the mark times 1 + slippage / 10000 for a buy and
  -- 1 - slippage / 10000 for a sell, and moves exactly this: with the notional at that price and a
  -- fee of notional times taker / 10000, a buy takes notional and fee from the quote asset and adds
  -- the quantity to the base asset, a sell takes the quantity from the base asset and adds the
  -- notional less the fee to the quote asset. Nothing locked moves, and the order is recorded under
  -- its id. Decimals are exact under sums.
  pub place_order_fill :
      (ex ex1 : PaperExchange D) (r : OrderRequest D) (order : Order D)
      → place_order ex r ≡ (ex1, ok order)
      → is_open order ≡ false
      → (mark : D) × (lookup r.symbol ex.marks ≡ some mark) × IsFillAt ex r mark (ex1, order)
  place_order_fill ex ex1 r order h e =
      let (mark, found, settled) = place_order_closed ex ex1 r order h e in
      (
        mark,
        found,
        subst (IsFillAt ex r mark)
            (ap (settle_fill ex r) (sym (fill_price-slipped ex r.side mark)) ∙ settled)
            (settle_fill-IsFillAt ex r mark),
      )
