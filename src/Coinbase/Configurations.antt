-- ===== src/Coinbase/Configurations.antt =====
-- Reading back the order that a Coinbase configuration was built for.
use wickra_exchange.Prelude.{
  ◌≡◌, refl, Bool, true, false, Option, none, some, List, [], ◌∷◌, inl, inr, Bool-cases,
}
use wickra_exchange.Prelude.Text.{Text, codes}
use wickra_exchange.Prelude.Ord.{text_ord}
use wickra_exchange.Error.{ok}
use wickra_exchange.Types.{
  OrderRequest, OrderType, market, limit, stop_market, stop_limit, TimeInForce, gtc, ioc, fok,
  is_trigger,
}
use wickra_exchange.Normalize.{format_decimal}
use wickra_exchange.Platform.{Platform}
use wickra_exchange.Coinbase.Orders.{
  keyed, stop_direction, stop_with, stop_configuration, market_configuration, limit_configuration,
  plain_configuration, configuration,
}

ok_injective : {A : Type 0} {a b : A} → ok a ≡ ok b → b ≡ a
ok_injective h = cc

-- How a configuration is built: a stop-limit, a market, a fill-or-kill or a resting limit order.
module _ {J D F K : Type 0} (pf : Platform J D F K) where
  abbrev size_and_price : D → D → List (Text × J)
  size_and_price size price =
      (codes "base_size", pf.text (format_decimal pf size))
      ∷ (codes "limit_price", pf.text (format_decimal pf price))
      ∷ []

  pub data Form (r : OrderRequest D) (cfg : J) : Type 0 where
    stopped :
        (price trigger : D)
        → cfg
          ≡ keyed pf (codes "stop_limit_stop_limit_gtc") (
              (codes "base_size", pf.text (format_decimal pf r.quantity))
              ∷ (codes "limit_price", pf.text (format_decimal pf price))
              ∷ (codes "stop_price", pf.text (format_decimal pf trigger))
              ∷ (codes "stop_direction", pf.text (stop_direction r.side))
              ∷ [])
        → is_trigger r.order_type ≡ true
        → Form r cfg
    immediate :
        cfg
          ≡ keyed pf
              (codes "market_market_ioc")
              ((codes "base_size", pf.text (format_decimal pf r.quantity)) ∷ [])
        → r.order_type ≡ market
        → Form r cfg
    killed :
        (price : D)
        → cfg
          ≡ keyed pf (codes "limit_limit_fok") (
              (codes "base_size", pf.text (format_decimal pf r.quantity))
              ∷ (codes "limit_price", pf.text (format_decimal pf price))
              ∷ [])
        → r.order_type ≡ limit
        → r.time_in_force ≡ fok
        → Form r cfg
    resting :
        (price : D)
        → cfg
          ≡ keyed pf (codes "limit_limit_gtc") (
              (codes "base_size", pf.text (format_decimal pf r.quantity))
              ∷ (codes "limit_price", pf.text (format_decimal pf price))
              ∷ (codes "post_only", pf.boolean r.post_only)
              ∷ [])
        → r.order_type ≡ limit
        → r.time_in_force ≡ gtc
        → r.price ≡ some price
        → Form r cfg

  stop_with-Form :
      (r : OrderRequest D) (cfg : J) (trigger price : Option D)
      → is_trigger r.order_type ≡ true
      → stop_with pf r.side trigger price (format_decimal pf r.quantity) ≡ ok cfg
      → Form r cfg
  unfolding stop_with
  stop_with-Form r cfg none price t h = absurd (cc)
  stop_with-Form r cfg (some s) none t h = absurd (cc)
  stop_with-Form r cfg (some s) (some p) t h = stopped p s (ok_injective h) t

  market_configuration-Form :
      (r : OrderRequest D) (cfg : J) (post_only : Bool)
      → r.order_type ≡ market
      → market_configuration pf post_only (format_decimal pf r.quantity) ≡ ok cfg
      → Form r cfg
  unfolding market_configuration
  market_configuration-Form r cfg true t h = absurd (cc)
  market_configuration-Form r cfg false t h = immediate (ok_injective h) t

  fok-Form :
      (r : OrderRequest D) (cfg : J) (post_only : Bool) (price : Option D)
      → r.order_type ≡ limit
      → r.time_in_force ≡ fok
      → limit_configuration pf fok post_only price (format_decimal pf r.quantity) ≡ ok cfg
      → Form r cfg
  unfolding limit_configuration
  fok-Form r cfg post_only none t f h = absurd (cc)
  fok-Form r cfg true (some p) t f h = absurd (cc)
  fok-Form r cfg false (some p) t f h = killed p (ok_injective h) t f

  gtc-Form :
      (r : OrderRequest D) (cfg : J) (price : Option D)
      → r.order_type ≡ limit
      → r.time_in_force ≡ gtc
      → r.price ≡ price
      → limit_configuration pf gtc r.post_only price (format_decimal pf r.quantity) ≡ ok cfg
      → Form r cfg
  unfolding limit_configuration
  gtc-Form r cfg none t f e h = absurd (cc)
  gtc-Form r cfg (some p) t f e h = resting p (ok_injective h) t f e

  plain_configuration-Form :
      (t : OrderType) (tif : TimeInForce) (r : OrderRequest D) (cfg : J)
      → r.order_type ≡ t
      → r.time_in_force ≡ tif
      → is_trigger t ≡ false
      → plain_configuration pf t tif r (format_decimal pf r.quantity) ≡ ok cfg
      → Form r cfg
  unfolding plain_configuration is_trigger
  plain_configuration-Form stop_market tif r cfg et ef n h = absurd (cc)
  plain_configuration-Form stop_limit tif r cfg et ef n h = absurd (cc)
  plain_configuration-Form market fok r cfg et ef n h = absurd (cc)
  plain_configuration-Form limit ioc r cfg et ef n h = absurd (cc)
  plain_configuration-Form market gtc r cfg et ef n h =
      market_configuration-Form r cfg r.post_only et h
  plain_configuration-Form market ioc r cfg et ef n h =
      market_configuration-Form r cfg r.post_only et h
  plain_configuration-Form limit fok r cfg et ef n h = fok-Form r cfg r.post_only r.price et ef h
  plain_configuration-Form limit gtc r cfg et ef n h = gtc-Form r cfg r.price et ef refl h

  pub configuration-Form : (r : OrderRequest D) (cfg : J) → configuration pf r ≡ ok cfg → Form r cfg
  unfolding configuration stop_configuration
  configuration-Form r cfg h = elim (Bool-cases (is_trigger r.order_type)) [
    | inl t ↦ stop_with-Form r cfg r.stop_price r.price t (cc)
    | inr t ↦ plain_configuration-Form r.order_type r.time_in_force r cfg refl refl t (cc)
  ]
