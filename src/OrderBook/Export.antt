-- ===== src/OrderBook/Export.antt =====
-- The exported snapshot, and a book that is built from it.
use wickra_exchange.Prelude.{
  ℕ, zero, suc, ◌≡◌, refl, sym, ap, ◌∙◌, ◌≤◌, true, Option, none, some, List, [], ◌∷◌, ◌++◌, map,
  take, length, length-take, length-append, arith, if◌then◌else◌,
}
use mathlib.Core.List.{reverse, reverse-cons, append_assoc, append-nil, map-append}
use wickra_exchange.Prelude.Ord.{◌≺◌}
use wickra_exchange.OrdMap.{OrdMap, insert}
use wickra_exchange.OrdMap.Laws.{IsSorted, Above}
use wickra_exchange.Decimal.{Decimal, decimal_ord, ltd}
use wickra_exchange.Events
use wickra_exchange.Events.{BookLevel, OrderBookSnapshot, first}
use wickra_exchange.OrderBook.{
  OrderBookBuilder, collect, apply_snapshot, last_entry, mid_price, spread, level, to_snapshot,
}
use wickra_exchange.OrderBook.Invariant.{IsValid, IsPositive}

module _ {ℓ} {A : Type ℓ} where
  first-append : (x : A) (xs ys : List A) → first xs ≡ some x → first (xs ++ ys) ≡ some x
  first-append x [] ys h = cc
  first-append x (z ∷ xs) ys h = h

  take_all : (n : ℕ) (xs : List A) → length xs ≤ n → take n xs ≡ xs
  take_all zero [] h = refl
  take_all zero (x ∷ xs) h = absurd (omega arith)
  take_all (suc n) [] h = refl
  take_all (suc n) (x ∷ xs) h = ap (λ r. x ∷ r) (take_all n xs (omega arith))

  length-reverse : (xs : List A) → length (reverse xs) ≡ length xs
  length-reverse [] = refl
  length-reverse (x ∷ xs) =
      rw reverse-cons (omega (arith, length-append (reverse xs) (x ∷ []), length-reverse xs))

length-map {ℓ κ} :
    {A : Type ℓ} {B : Type κ} (xs : List A) (f : A → B) → length (map f xs) ≡ length xs
length-map [] f = refl
length-map (x ∷ xs) f = ap suc (length-map xs f)

module _ {D : Type 0} ⦃d : Decimal D⦄ where
  last_entry-cons : (e f : D × D) (m : OrdMap D D) → last_entry (e ∷ f ∷ m) ≡ last_entry (f ∷ m)
  unfolding last_entry
  last_entry-cons e f m = refl

  last_entry-some : (e : D × D) (m : OrdMap D D) → (x : D × D) × (last_entry (e ∷ m) ≡ some x)
  unfolding last_entry
  last_entry-some e [] = (e, refl)
  last_entry-some e (f ∷ m) = last_entry-some f m

  first-reverse : (m : OrdMap D D) → first (reverse m) ≡ last_entry m
  unfolding last_entry
  first-reverse [] = refl
  first-reverse (e ∷ []) = refl
  first-reverse (e ∷ f ∷ m) =
      let (x, h) = last_entry-some f m in
      rw reverse-cons
        (first-append x (reverse (f ∷ m)) (e ∷ []) (first-reverse (f ∷ m) ∙ h) ∙ sym h)

  -- An entry as the level it is exported as.
  abbrev as_level : Option (D × D) → Option (BookLevel D)
  as_level none = none
  as_level (some e) = some (level e)

  first-levels : (n : ℕ) (m : OrdMap D D) → first (map level (take (suc n) m)) ≡ as_level (first m)
  first-levels n [] = refl
  first-levels n (e ∷ m) = refl

  -- The snapshot exported at any positive depth has the mid price and the spread of the book.
  pub mid_price-to_snapshot :
      (b : OrderBookBuilder D) (n : ℕ)
      → (Events.mid_price (to_snapshot b (suc n)) ≡ mid_price b)
        × (Events.spread (to_snapshot b (suc n)) ≡ spread b)
  unfolding Events.mid_price Events.spread to_snapshot mid_price spread
  mid_price-to_snapshot b n =
      ground (arith, first-levels n (reverse b.bids), first-levels n b.asks, first-reverse b.bids)

  -- An exported side holds at most `depth` levels.
  pub length-to_snapshot :
      (b : OrderBookBuilder D) (depth : ℕ)
      → (length (to_snapshot b depth).bids ≤ depth) × (length (to_snapshot b depth).asks ≤ depth)
  unfolding to_snapshot
  length-to_snapshot b depth = omega (
    arith,
    length-map (take depth (reverse b.bids)) level,
    length-map (take depth b.asks) level,
    length-take depth (reverse b.bids),
    length-take depth b.asks,
  )

  Above-middle : (j p q : D) (m ls : OrdMap D D) → Above j (m ++ ((p, q) ∷ ls)) → j ≺ p
  Above-middle j p q [] ls a = a.0
  Above-middle j p q ((k, v) ∷ m) ls a = Above-middle j p q m ls a.1

  -- Inserting beyond the last price appends.
  insert-append :
      (p q : D) (m ls : OrdMap D D)
      → IsSorted (m ++ ((p, q) ∷ ls))
      → insert p q m ≡ m ++ ((p, q) ∷ [])
  unfolding insert
  insert-append p q [] ls s = refl
  insert-append p q ((j, w) ∷ m) ls s =
      ground (arith, insert-append p q m ls s.1, Above-middle j p q m ls s.0, d.order.gt_of_lt j p)

  collect-positive :
      (m : OrdMap D D) (p q : D) (ls : List (BookLevel D))
      → ltd d.nought q ≡ true
      → collect m (level (p, q) ∷ ls) ≡ collect (insert p q m) ls
  unfolding collect
  collect-positive m p q ls h = ap (λ t. collect (if t then insert p q m else m) ls) h

  collect-ascending :
      (m ls : OrdMap D D) → IsSorted (m ++ ls) → IsPositive ls → collect m (map level ls) ≡ m ++ ls
  collect-ascending m [] s h = unfold collect in sym (append-nil m)
  collect-ascending m ((p, q) ∷ ls) s h =
      let regroup = append_assoc m ((p, q) ∷ []) ls in
      collect-positive m p q (map level ls) h.0
      ∙ ap (λ r. collect r (map level ls)) (insert-append p q m ls s)
      ∙ collect-ascending (m ++ ((p, q) ∷ [])) ls (rw regroup s) h.1
      ∙ regroup

  collect-append :
      (m : OrdMap D D) (xs ys : List (BookLevel D))
      → collect m (xs ++ ys) ≡ collect (collect m xs) ys
  unfolding collect
  collect-append m [] ys = refl
  collect-append m (x ∷ xs) ys =
      collect-append (if ltd d.nought x.quantity then insert x.price x.quantity m else m) xs ys

  insert-cons : (p q : D) (m : OrdMap D D) → Above p m → insert p q m ≡ (p, q) ∷ m
  unfolding insert
  insert-cons p q [] a = refl
  insert-cons p q ((j, w) ∷ m) a = ground arith

  collect-descending :
      (m : OrdMap D D) → IsSorted m → IsPositive m → collect [] (map level (reverse m)) ≡ m
  collect-descending [] s h = unfold collect in refl
  collect-descending ((p, q) ∷ m) s h =
      rw (reverse-cons, map-append, collect-append, collect-descending m s.1 h.1)
        (collect-positive m p q [] h.0 ∙ unfold collect in insert-cons p q m s.0)

  -- A well-formed, initialized book is rebuilt from an export that is deep enough for both its sides,
  -- by any builder of the same symbol, whatever else that builder held before.
  pub apply_snapshot-to_snapshot :
      (b c : OrderBookBuilder D) (depth : ℕ)
      → IsValid b
      → b.initialized ≡ true
      → c.symbol ≡ b.symbol
      → length b.bids ≤ depth
      → length b.asks ≤ depth
      → apply_snapshot c (to_snapshot b depth) ≡ b
  unfolding apply_snapshot to_snapshot
  apply_snapshot-to_snapshot b c depth v i e hb ha = ground (
    arith,
    take_all depth (reverse b.bids) (omega (arith, length-reverse b.bids)),
    take_all depth b.asks,
    collect-descending b.bids v.bids_sorted v.bids_positive,
    collect-ascending [] b.asks v.asks_sorted v.asks_positive,
  )
