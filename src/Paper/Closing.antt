-- ===== src/Paper/Closing.antt =====
-- `cancel_all`, order by order.
use wickra_exchange.Prelude.{
  ℕ, ◌≡◌, refl, sym, ◌∙◌, ◌<◌, ◌+◌, inl, inr, true, false, none, some, List, [], ◌∷◌, length, arith,
  if_case, Bool-cases,
}
use mathlib.Core.Path.{subst}
use wickra_exchange.Prelude.Int.{pos, +ℤ_zero}
use wickra_exchange.Prelude.Word.{u32_mod, add_u32}
use wickra_exchange.Prelude.Text.{Text}
use wickra_exchange.Prelude.Ord.{text_ord, same}
use wickra_exchange.OrdMap.{OrdMap, lookup, insert, values}
use wickra_exchange.OrdMap.Laws.{IsSorted, Above, AllEntries, AllEntries-lookup, lookup-insert}
use wickra_exchange.OrdMap.Sums.{sum_of}
use wickra_exchange.Decimal.{Decimal}
use wickra_exchange.Decimal.Exact.{IsExact}
use wickra_exchange.Error.{ok}
use wickra_exchange.Symbol.{Symbol}
use wickra_exchange.Types.{Order, is_open, status_is_open, canceled}
use wickra_exchange.Paper.{PaperExchange}
use wickra_exchange.Paper.Execution.{
  cancel_found, cancel_order, cancel_each, cancel_all, open_ids, open_orders_of,
}
use wickra_exchange.Paper.Invariant.{IsValid, HasOwnId, reserve, locked_units}
use wickra_exchange.Paper.Preservation.{cancel_found-IsValid}

add_u32_next : (n : ℕ) → n + 1 < u32_mod → add_u32 n 1 ≡ n + 1
unfolding add_u32
add_u32_next n h = omega arith

-- The id is not in the list.
abbrev pub NotIn : Text → List (Symbol × Text) → Type 0
NotIn k [] = Unit
NotIn k ((s, i) ∷ r) = (same k i ≡ false) × NotIn k r

module _ {D : Type 0} ⦃d : Decimal D⦄ ⦃x : IsExact D⦄ where
  abbrev pub IsOpenAt : OrdMap Text (Order D) → Text → Type 0
  IsOpenAt m k = (o : Order D) × (lookup k m ≡ some o) × (is_open o ≡ true)

  -- The ids are different, and each is that of an open order.
  abbrev pub AreOpen : OrdMap Text (Order D) → List (Symbol × Text) → Type 0
  AreOpen m [] = Unit
  AreOpen m ((s, i) ∷ r) = IsOpenAt m i × NotIn i r × AreOpen m r

  -- No order is open but those of the list.
  abbrev pub OnlyOpen : OrdMap Text (Order D) → List (Symbol × Text) → Type 0
  OnlyOpen m r = (k : Text) (o : Order D) → lookup k m ≡ some o → NotIn k r → is_open o ≡ false

  AreOpen-insert :
      (i : Text) (o : Order D) (m : OrdMap Text (Order D)) (r : List (Symbol × Text))
      → NotIn i r
      → AreOpen m r
      → AreOpen (insert i o m) r
  AreOpen-insert i o m [] n h = tt
  AreOpen-insert i o m ((s, j) ∷ r) n h =
      ((h.0.0, ground (arith, lookup-insert i j o m), h.0.2), h.1, AreOpen-insert i o m r n.1 h.2)

  OnlyOpen-insert :
      (s : Symbol) (i : Text) (o : Order D) (m : OrdMap Text (Order D)) (r : List (Symbol × Text))
      → is_open o ≡ false
      → OnlyOpen m ((s, i) ∷ r)
      → OnlyOpen (insert i o m) r
  OnlyOpen-insert s i o m r closed h k p found out = ground (
    arith,
    lookup-insert i k o m,
    h k p,
    text_ord.eq_of_cmp k i,
    text_ord.eq_of_cmp i k,
    text_ord.cmp_refl k,
    text_ord.lt_of_gt k i,
    text_ord.gt_of_lt k i,
  )

  -- A map without open orders.
  open_orders_of-closed :
      (m : OrdMap Text (Order D))
      → AllEntries (λ (k : Text) (o : Order D). is_open o ≡ false) m
      → open_orders_of none (values m) ≡ []
  unfolding open_orders_of
  open_orders_of-closed [] h = refl
  open_orders_of-closed ((k, o) ∷ m) h = ground (arith, open_orders_of-closed m h.1)

  NotIn-Above :
      (k : Text) (m : OrdMap Text (Order D))
      → Above k m
      → AllEntries HasOwnId m
      → NotIn k (open_ids (values m))
  unfolding open_ids
  NotIn-Above k [] a h = tt
  NotIn-Above k ((j, o) ∷ m) a h =
      let rest = NotIn-Above k m a.1 h.1 in
      if_case (NotIn k) (is_open o) _ _ (λ _. (rw (h.0) (ground arith), rest)) (λ _. rest)

  NotIn-open_ids :
      (k : Text) (o : Order D) (os : List (Order D))
      → NotIn k (open_ids (o ∷ os))
      → NotIn k (open_ids os)
  unfolding open_ids
  NotIn-open_ids k o os = elim (Bool-cases (is_open o)) [
    | inl e ↦ rw (e, open_ids) (λ h. h.1)
    | inr e ↦ rw (e, open_ids) (λ h. h)
  ]

  NotIn-first :
      (k : Text) (o : Order D) (os : List (Order D))
      → is_open o ≡ true
      → NotIn k (open_ids (o ∷ os))
      → same k o.id ≡ false
  unfolding open_ids
  NotIn-first k o os e = rw (e, open_ids) (λ h. h.0)

  AreOpen-open_ids :
      (n m : OrdMap Text (Order D))
      → AllEntries (λ (k : Text) (o : Order D). lookup k n ≡ some o) m
      → IsSorted m
      → AllEntries HasOwnId m
      → AreOpen n (open_ids (values m))
  unfolding open_ids
  AreOpen-open_ids n [] l s h = tt
  AreOpen-open_ids n ((j, o) ∷ m) l s h =
      let rest = AreOpen-open_ids n m l.1 s.1 h.1 in
      if_case (AreOpen n) (is_open o) _ _
        (λ e. (
          (o, subst (λ i. lookup i n ≡ some o) (sym (h.0)) l.0, e),
          rw (h.0) (NotIn-Above j m s.0 h.1),
          rest,
        ))
        (λ _. rest)

  OnlyOpen-open_ids :
      (m : OrdMap Text (Order D)) → AllEntries HasOwnId m → OnlyOpen m (open_ids (values m))
  unfolding lookup
  OnlyOpen-open_ids [] h k o found out = cc
  OnlyOpen-open_ids ((j, w) ∷ m) h k o found out = ground (
    arith,
    h.0,
    OnlyOpen-open_ids m h.1 k o,
    NotIn-open_ids k w (values m) out,
    λ (e : is_open w ≡ true). NotIn-first k w (values m) e out,
  )

  sum_of-closed :
      (a : Text) (m : OrdMap Text (Order D))
      → AllEntries (λ (k : Text) (o : Order D). is_open o ≡ false) m
      → sum_of (reserve a) m ≡ pos 0
  sum_of-closed a [] h = refl
  sum_of-closed a ((k, o) ∷ m) h = rw (h.0, sum_of-closed a m h.1) (+ℤ_zero (pos 0))

  -- When no order is open under any key, none is in the walk over the entries.
  closed-AllEntries :
      (n m : OrdMap Text (Order D))
      → OnlyOpen n []
      → AllEntries (λ (k : Text) (o : Order D). lookup k n ≡ some o) m
      → AllEntries (λ (k : Text) (o : Order D). is_open o ≡ false) m
  closed-AllEntries n [] c l = tt
  closed-AllEntries n ((k, o) ∷ m) c l = (c k o l.0 tt, closed-AllEntries n m c l.1)

  pub cancel_order_open :
      (ex : PaperExchange D) (s : Symbol) (id : Text) (o : Order D)
      → lookup id ex.orders ≡ some o
      → is_open o ≡ true
      → cancel_order ex s id ≡ (cancel_found ex id o, ok tt)
  unfolding cancel_order
  cancel_order_open ex s id o found e = ground arith

  -- What the loop has done when it ends.
  abbrev IsClosed : PaperExchange D → Type 0
  IsClosed ex = IsValid ex × OnlyOpen ex.orders []

  canceled_closed : (o : Order D) → is_open (record o { status = canceled }) ≡ false
  unfolding is_open status_is_open
  canceled_closed o = refl

  cancel_each_step :
      (ex : PaperExchange D) (s : Symbol) (i : Text) (r : List (Symbol × Text)) (n : ℕ)
      (o : Order D)
      → lookup i ex.orders ≡ some o
      → is_open o ≡ true
      → n + 1 < u32_mod
      → cancel_each ex ((s, i) ∷ r) n ≡ cancel_each (cancel_found ex i o) r (n + 1)
  unfolding cancel_each
  cancel_each_step ex s i r n o found e h =
      rw (cancel_order_open ex s i o found e, add_u32_next n h)

  cancel_each_lem :
      (ex : PaperExchange D) (ids : List (Symbol × Text)) (n : ℕ)
      → IsValid ex
      → AreOpen ex.orders ids
      → OnlyOpen ex.orders ids
      → n + length ids < u32_mod
      → IsClosed (cancel_each ex ids n).0 × ((cancel_each ex ids n).1 ≡ n + length ids)
  unfolding cancel_each
  cancel_each_lem ex [] n v a c h = ((v, c), omega arith)
  cancel_each_lem ex ((s, i) ∷ r) n v a c h =
      let (o, found, e) = a.0 in
      let closed = canceled_closed o in
      let ih =
        cancel_each_lem (cancel_found ex i o) r (n + 1) (cancel_found-IsValid ex i o v found e)
          (unfold cancel_found in
            AreOpen-insert i (record o { status = canceled }) ex.orders r a.1 a.2)
          (unfold cancel_found in
            OnlyOpen-insert s i (record o { status = canceled }) ex.orders r closed c)
          (omega arith) in
      rw (cancel_each_step ex s i r n o found e (omega arith)) (ih.0, omega (arith, ih.1))

  -- From a valid portfolio with fewer than 2^32 open orders `cancel_all` leaves no order open,
  -- counts each order that was open, and leaves nothing locked of any asset and the portfolio
  -- valid. Decimals are exact under sums.
  pub cancel_all_closes :
      (ex : PaperExchange D)
      → IsValid ex
      → length (open_ids (values ex.orders)) < u32_mod
      → let (ex', n) = cancel_all ex in
        IsValid ex'
        × (open_orders_of none (values ex'.orders) ≡ [])
        × (n ≡ length (open_ids (values ex.orders)))
        × ((a : Text) → locked_units a ex'.balances ≡ pos 0)
  unfolding cancel_all
  cancel_all_closes ex v h =
      let ids = open_ids (values ex.orders) in
      let entries = AllEntries-lookup ex.orders v.sorted in
      let done =
        cancel_each_lem ex ids 0 v (AreOpen-open_ids ex.orders ex.orders entries v.sorted v.own_ids)
          (OnlyOpen-open_ids ex.orders v.own_ids) (omega arith) in
      let after = (cancel_each ex ids 0).0 in
      let closed =
        closed-AllEntries after.orders after.orders done.0.1
          (AllEntries-lookup after.orders done.0.0.sorted) in
      (
        done.0.0,
        open_orders_of-closed after.orders closed,
        omega (arith, done.1),
        λ a. done.0.0.accounted a ∙ sum_of-closed a after.orders closed,
      )
