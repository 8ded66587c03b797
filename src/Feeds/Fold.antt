-- ===== src/Feeds/Fold.antt =====
-- What a tick builder holds after a run of feeds.
use wickra_exchange.Prelude.{◌≡◌, refl, Option, none, some, List, [], ◌∷◌}
use wickra_exchange.Prelude.Int.{ℤ}
use wickra_exchange.Decimal.{Decimal}
use wickra_exchange.Types.{OrderSide, buy, sell}
use wickra_exchange.Events.{
  DerivativesFeed, funding, open_interest, liquidation, long_short_ratio, mark_index, Liquidation,
}
use wickra_exchange.Platform.{or_default}
use wickra_exchange.Feeds.{Core, DerivativesTickBuilder, float, apply, reset_flows}

-- The newest of the values that the feeds carry, or else the one from before.
abbrev pub newest {ℓ κ} : {A : Type ℓ} {B : Type κ} → (A → Option B) → B → List A → B
newest carried before [] = before
newest carried before (f ∷ fs) = newest carried (or_default (carried f) before) fs

module _ {D F T L B M X Y : Type 0} ⦃d : Decimal D⦄ (core : Core D F T L B M X Y) where
  abbrev pub apply_all :
      DerivativesTickBuilder F → List (DerivativesFeed D) → DerivativesTickBuilder F
  apply_all b [] = b
  apply_all b (f ∷ fs) = apply_all (apply core b f) fs

  -- What a feed carries for each field.
  abbrev pub funding_rate_in : DerivativesFeed D → Option F
  funding_rate_in (funding f) = some (float core f.rate)
  funding_rate_in _ = none

  abbrev pub mark_price_in : DerivativesFeed D → Option F
  mark_price_in (funding f) = some (float core f.mark_price)
  mark_price_in (mark_index m) = some (float core m.mark_price)
  mark_price_in _ = none

  abbrev pub index_price_in : DerivativesFeed D → Option F
  index_price_in (mark_index m) = some (float core m.index_price)
  index_price_in _ = none

  abbrev pub futures_price_in : DerivativesFeed D → Option F
  futures_price_in (mark_index m) = some (float core m.mark_price)
  futures_price_in _ = none

  abbrev pub open_interest_in : DerivativesFeed D → Option F
  open_interest_in (open_interest oi) = some (float core oi.open_interest)
  open_interest_in _ = none

  abbrev pub long_size_in : DerivativesFeed D → Option F
  long_size_in (long_short_ratio r) = some (float core r.long_size)
  long_size_in _ = none

  abbrev pub short_size_in : DerivativesFeed D → Option F
  short_size_in (long_short_ratio r) = some (float core r.short_size)
  short_size_in _ = none

  abbrev pub timestamp_of : DerivativesFeed D → ℤ
  timestamp_of (funding f) = f.timestamp
  timestamp_of (open_interest oi) = oi.timestamp
  timestamp_of (liquidation l) = l.timestamp
  timestamp_of (long_short_ratio r) = r.timestamp
  timestamp_of (mark_index m) = m.timestamp

  -- The notionals of the liquidations of a side, added in order.
  abbrev pub with_side : OrderSide → OrderSide → F → F → F
  with_side sell sell total notional = core.add total notional
  with_side buy buy total notional = core.add total notional
  with_side _ _ total notional = total

  abbrev pub liquidated : OrderSide → F → List (DerivativesFeed D) → F
  liquidated side total [] = total
  liquidated side total (liquidation l ∷ fs) =
      liquidated side (with_side side l.side total (float core (d.mul l.price l.quantity))) fs
  liquidated side total (f ∷ fs) = liquidated side total fs

  -- The fields of a builder, by what it held before and the feeds since.
  abbrev pub Holds :
      DerivativesTickBuilder F → List (DerivativesFeed D) → DerivativesTickBuilder F → Type 0
  Holds b fs after =
      (after.funding_rate ≡ newest funding_rate_in b.funding_rate fs)
      × (after.mark_price ≡ newest mark_price_in b.mark_price fs)
      × (after.index_price ≡ newest index_price_in b.index_price fs)
      × (after.futures_price ≡ newest futures_price_in b.futures_price fs)
      × (after.open_interest ≡ newest open_interest_in b.open_interest fs)
      × (after.long_size ≡ newest long_size_in b.long_size fs)
      × (after.short_size ≡ newest short_size_in b.short_size fs)
      × (after.long_liquidation ≡ liquidated sell b.long_liquidation fs)
      × (after.short_liquidation ≡ liquidated buy b.short_liquidation fs)
      × (after.timestamp ≡ newest (λ f. some (timestamp_of f)) b.timestamp fs)

  liquidation-Holds :
      (b : DerivativesTickBuilder F) (l : Liquidation D) (fs : List (DerivativesFeed D))
      (side : OrderSide)
      → l.side ≡ side
      → ((b' : DerivativesTickBuilder F) → Holds b' fs (apply_all b' fs))
      → Holds b (liquidation l ∷ fs) (apply_all b (liquidation l ∷ fs))
  unfolding apply
  liquidation-Holds b l fs sell e ih =
      rw (e, apply)
        (ih (record b {
          long_liquidation = core.add b.long_liquidation (float core (d.mul l.price l.quantity));
          timestamp = l.timestamp;
        }))
  liquidation-Holds b l fs buy e ih =
      rw (e, apply)
        (ih (record b {
          short_liquidation = core.add b.short_liquidation (float core (d.mul l.price l.quantity));
          timestamp = l.timestamp;
        }))

  apply_all-Holds :
      (b : DerivativesTickBuilder F) (fs : List (DerivativesFeed D)) → Holds b fs (apply_all b fs)
  unfolding apply
  apply_all-Holds b [] = (refl, refl, refl, refl, refl, refl, refl, refl, refl, refl)
  apply_all-Holds b (funding f ∷ fs) = apply_all-Holds (apply core b (funding f)) fs
  apply_all-Holds b (open_interest f ∷ fs) = apply_all-Holds (apply core b (open_interest f)) fs
  apply_all-Holds b (liquidation f ∷ fs) =
      liquidation-Holds b f fs f.side refl (λ b'. apply_all-Holds b' fs)
  apply_all-Holds b (long_short_ratio f ∷ fs) =
      apply_all-Holds (apply core b (long_short_ratio f)) fs
  apply_all-Holds b (mark_index f ∷ fs) = apply_all-Holds (apply core b (mark_index f)) fs

  -- After a run of feeds, in any order, each field of a tick builder is the newest value that a
  -- feed carried for it, or what it was; the liquidations of each side are added up since the last
  -- reset, whatever came before it; and the time is that of the last feed.
  pub reset_flows-Holds :
      (b : DerivativesTickBuilder F) (before after : List (DerivativesFeed D))
      → Holds b before (apply_all b before)
        × Holds
            (record (apply_all b before) {
              long_liquidation = core.zero;
              short_liquidation = core.zero;
            })
            after
            (apply_all (reset_flows core (apply_all b before)) after)
  unfolding reset_flows
  reset_flows-Holds b before after =
      (apply_all-Holds b before, apply_all-Holds (reset_flows core (apply_all b before)) after)
