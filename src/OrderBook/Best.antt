-- ===== src/OrderBook/Best.antt =====
-- The best levels of a book.
use wickra_exchange.Prelude.{◌≡◌, refl, true, Option, none, some, [], ◌∷◌, arith, All}
use wickra_exchange.OrdMap.{OrdMap, lookup}
use wickra_exchange.OrdMap.Laws.{IsSorted, Above}
use wickra_exchange.Decimal.{Decimal, decimal_ord, led}
use wickra_exchange.Events.{first}
use wickra_exchange.OrderBook.{OrderBookBuilder, last_entry, best_bid, best_ask}
use wickra_exchange.OrderBook.Invariant.{IsValid}

module _ {D : Type 0} ⦃d : Decimal D⦄ where
  -- Every price of the map is at most `p`.
  abbrev pub AtMost : D → OrdMap D D → Type 0
  AtMost p m = All (λ (e : D × D). led e.0 p ≡ true) m

  abbrev pub AtLeast : D → OrdMap D D → Type 0
  AtLeast p m = All (λ (e : D × D). led p e.0 ≡ true) m

  Above-AtLeast : (p : D) (m : OrdMap D D) → Above p m → AtLeast p m
  Above-AtLeast p [] a = tt
  Above-AtLeast p ((j, w) ∷ m) a = (ground arith, Above-AtLeast p m a.1)

  -- The last entry of a map in order has the highest price.
  last_entry-AtMost :
      (j w : D) (m : OrdMap D D) (p q : D)
      → IsSorted ((j, w) ∷ m)
      → last_entry ((j, w) ∷ m) ≡ some (p, q)
      → AtMost p ((j, w) ∷ m) × (lookup p ((j, w) ∷ m) ≡ some q)
  unfolding last_entry lookup
  last_entry-AtMost j w [] p q s e = ground (arith, d.order.cmp_refl j)
  last_entry-AtMost j w ((k, v) ∷ m) p q s e = ground (
    arith,
    last_entry-AtMost k v m p q s.1 e,
    d.order.lt_trans j k p,
    d.order.eq_of_cmp k p,
    d.order.gt_of_lt j p,
  )

  last_entry_best :
      (m : OrdMap D D) (p q : D)
      → IsSorted m
      → last_entry m ≡ some (p, q)
      → (lookup p m ≡ some q) × AtMost p m
  last_entry_best [] p q s e = unfold last_entry in cc
  last_entry_best ((j, w) ∷ m) p q s e = let h = last_entry-AtMost j w m p q s e in (h.1, h.0)

  first_best :
      (m : OrdMap D D) (p q : D)
      → IsSorted m
      → first m ≡ some (p, q)
      → (lookup p m ≡ some q) × AtLeast p m
  unfolding lookup
  first_best [] p q s e = cc
  first_best ((j, w) ∷ m) p q s e = ground (arith, d.order.cmp_refl j, Above-AtLeast j m s.0)

  -- A best bid is held by the bids, and no bid is higher.
  pub best_bid_lem :
      (b : OrderBookBuilder D) (p q : D)
      → IsValid b
      → best_bid b ≡ some (p, q)
      → (lookup p b.bids ≡ some q) × AtMost p b.bids
  unfolding best_bid
  best_bid_lem b p q v e = last_entry_best b.bids p q v.bids_sorted e

  -- A best ask is held by the asks, and no ask is lower.
  pub best_ask_lem :
      (b : OrderBookBuilder D) (p q : D)
      → IsValid b
      → best_ask b ≡ some (p, q)
      → (lookup p b.asks ≡ some q) × AtLeast p b.asks
  unfolding best_ask
  best_ask_lem b p q v e = first_best b.asks p q v.asks_sorted e

  -- What the best bid says of the bids: there are none, or it is the level of the highest price.
  abbrev pub IsBestBid : OrdMap D D → Option (D × D) → Type 0
  IsBestBid m none = m ≡ []
  IsBestBid m (some (p, q)) = (lookup p m ≡ some q) × AtMost p m

  abbrev pub IsBestAsk : OrdMap D D → Option (D × D) → Type 0
  IsBestAsk m none = m ≡ []
  IsBestAsk m (some (p, q)) = (lookup p m ≡ some q) × AtLeast p m

  no_last_entry : (m : OrdMap D D) → last_entry m ≡ none → m ≡ []
  unfolding last_entry
  no_last_entry [] e = refl
  no_last_entry (x ∷ []) e = cc
  no_last_entry (x ∷ y ∷ m) e = let h : y ∷ m ≡ [] = no_last_entry (y ∷ m) e in cc

  best_bid-IsBestBid :
      (b : OrderBookBuilder D) (o : Option (D × D))
      → IsValid b
      → best_bid b ≡ o
      → IsBestBid b.bids o
  unfolding best_bid
  best_bid-IsBestBid b none v e = no_last_entry b.bids e
  best_bid-IsBestBid b (some (p, q)) v e = best_bid_lem b p q v e

  no_first : (m : OrdMap D D) → first m ≡ none → m ≡ []
  no_first [] e = refl
  no_first (x ∷ m) e = cc

  best_ask-IsBestAsk :
      (b : OrderBookBuilder D) (o : Option (D × D))
      → IsValid b
      → best_ask b ≡ o
      → IsBestAsk b.asks o
  unfolding best_ask
  best_ask-IsBestAsk b none v e = no_first b.asks e
  best_ask-IsBestAsk b (some (p, q)) v e = best_ask_lem b p q v e

  -- In a well-formed book the best bid is at a price that the bids hold, with its quantity, and no
  -- bid is higher; there is none only where there are no bids. The best ask is held by the asks,
  -- and no ask is lower; there is none only where there are no asks.
  pub best_levels :
      (b : OrderBookBuilder D)
      → IsValid b
      → IsBestBid b.bids (best_bid b) × IsBestAsk b.asks (best_ask b)
  best_levels b v =
      (best_bid-IsBestBid b (best_bid b) v refl, best_ask-IsBestAsk b (best_ask b) v refl)
