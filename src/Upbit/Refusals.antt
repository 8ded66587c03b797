-- ===== src/Upbit/Refusals.antt =====
-- What the Upbit client refuses before it asks anything of the venue.
use wickra_exchange.Prelude.{
  arith, ◌≡◌, ◌≢◌, refl, ◌∙◌, List, ◌⊎◌, inl, inr, true, false, Bool-cases, Option, none,
}
use wickra_exchange.Prelude.Text.{Text, codes}
use wickra_exchange.Decimal.{Decimal}
use wickra_exchange.Error.{
  invalid_credentials, err_if, unsupported_trigger, unsupported_market, ok, err,
}
use wickra_exchange.Types.{OrderRequest, market, fok, validate, is_trigger}
use wickra_exchange.Transport.{HttpMethod, post}
use wickra_exchange.Platform.{Platform}
use wickra_exchange.Venue.{World, ◌>>=◌, ◌>>◌, lift, is_routed, spot_only, ensure_market_is_routed}
use wickra_exchange.Venue.Calls.{IsRefused, call_err, call_ok, three_checks}
use wickra_exchange.Upbit.{is_allow, tif_of, tif_str}
use wickra_exchange.Upbit.Client.{
  Upbit, guard_market, State, signed_request, build_jwt, send_with, query_hash,
}
use wickra_exchange.Upbit.Parse.{order_from_value}
use wickra_exchange.Upbit.Calls.{place_order, order_params}

-- Why an order is not sent: what Upbit's order endpoint has no field for, a market that the client
-- does not route, and no credentials.
pub data Obstacle {D W C : Type 0} (c : Upbit W C) (r : OrderRequest D) : Type 0 where
  trigger : is_trigger r.order_type ≡ true → Obstacle c r
  post_only : r.post_only ≡ true → Obstacle c r
  stp : is_allow r.stp ≡ false → Obstacle c r
  reduce_only : r.reduce_only ≡ true → Obstacle c r
  fill_or_kill : r.order_type ≡ market → r.time_in_force ≡ fok → Obstacle c r
  unrouted : is_routed c.market_type spot_only ≡ false → Obstacle c r
  anonymous : c.credentials ≡ none → Obstacle c r

tif_str_lem :
    {D : Type 0} (r : OrderRequest D) (tif : Option Text)
    → tif_str r ≡ ok tif
    → (r.post_only ≡ false)
      × (is_allow r.stp ≡ true)
      × (r.reduce_only ≡ false)
      × (tif_of r.order_type r.time_in_force ≡ ok tif)
unfolding tif_str
tif_str_lem r tif h = ground (arith, h)

tif_of_lem : (tif : Option Text) → tif_of market fok ≢ ok tif
unfolding tif_of
tif_of_lem tif h = ground (arith, h)

module _ {W C : Type 0} (c : Upbit W C) (w : W) where
  guard_err :
      is_routed c.market_type spot_only ≡ false
      → guard_market (c, w) ≡ (err (unsupported_market (codes "Upbit") c.market_type), (c, w))
  unfolding ensure_market_is_routed
  guard_err h = rw h refl

  pub guard_ok : is_routed c.market_type spot_only ≡ true → guard_market (c, w) ≡ (ok tt, (c, w))
  unfolding ensure_market_is_routed
  guard_ok h = rw h refl

-- Behind the checks of the order only the market and the credentials are left in the way.
checks_left :
    {D W C : Type 0} (c : Upbit W C) (r : OrderRequest D) (tif : Option Text)
    → (err_if (is_trigger r.order_type) (unsupported_trigger (codes "Upbit"))) ≡ ok tt
    → tif_str r ≡ ok tif
    → Obstacle c r
    → (is_routed c.market_type spot_only ≡ false) ⊎ (c.credentials ≡ none)
checks_left c r tif t q (trigger h) = absurd (ground (arith, t, h))
checks_left c r tif t q (post_only h) = absurd (ground (arith, tif_str_lem r tif q, h))
checks_left c r tif t q (stp h) = absurd (ground (arith, tif_str_lem r tif q, h))
checks_left c r tif t q (reduce_only h) = absurd (ground (arith, tif_str_lem r tif q, h))
checks_left c r tif t q (fill_or_kill h k) =
    absurd (tif_of_lem tif (ground (arith, tif_str_lem r tif q, h, k)))
checks_left c r tif t q (unrouted h) = inl h
checks_left c r tif t q (anonymous h) = inr h

module _ {W C J D F K : Type 0} ⦃d : Decimal D⦄ (pf : Platform J D F K) (world : World W C) where
  build_jwt-none :
      (hash : Option Text) (c : Upbit W C) (w : W)
      → c.credentials ≡ none
      → build_jwt pf world hash (c, w)
        ≡ (err (invalid_credentials (codes "signed endpoint requires credentials")), (c, w))
  unfolding build_jwt
  build_jwt-none hash c w h = simp h

  unrouted-IsRefused :
      (c : Upbit W C) (w : W) (method : HttpMethod) (path : Text) (params : List (Text × Text))
      → is_routed c.market_type spot_only ≡ false
      → IsRefused (signed_request pf world method path params (c, w)) (c, w)
  unfolding signed_request
  unrouted-IsRefused c w method path params h = (
    _,
    call_err (guard_market >> build_jwt pf world (query_hash pf params))
        (send_with pf world method path params) (c, w) (c, w) _
        (call_err guard_market (λ _. build_jwt pf world (query_hash pf params)) (c, w) (c, w) _
          (guard_err c w h)),
  )

  signed_request-IsRefused :
      (c : Upbit W C) (w : W) (method : HttpMethod) (path : Text) (params : List (Text × Text))
      → (is_routed c.market_type spot_only ≡ false) ⊎ (c.credentials ≡ none)
      → IsRefused (signed_request pf world method path params (c, w)) (c, w)
  unfolding signed_request build_jwt ensure_market_is_routed
  signed_request-IsRefused c w method path params (inl h) =
      unrouted-IsRefused c w method path params h
  signed_request-IsRefused c w method path params (inr h) =
      elim (Bool-cases (is_routed c.market_type spot_only)) [
        | inr q ↦ unrouted-IsRefused c w method path params q
        | inl q ↦ (
          _,
          call_err (guard_market >> build_jwt pf world (query_hash pf params))
              (send_with pf world method path params) (c, w) (c, w) _
              (call_ok guard_market (λ _. build_jwt pf world (query_hash pf params)) (c, w) (c, w)
                  tt (guard_ok c w q)
                ∙ build_jwt-none (query_hash pf params) c w h),
        )
      ]

  -- Either the order is refused, or it has passed the checks and is what a signed request sends.
  place_order-stages :
      (r : OrderRequest D) (s : State W C)
      → ◌⊎◌ {0, 0} (IsRefused (place_order pf world r s) s) (
          (tif : Option Text) × ((err_if
              (is_trigger r.order_type)
              (unsupported_trigger (codes "Upbit")))
            ≡ ok tt)
          × (tif_str r ≡ ok tif)
          × (place_order pf world r s
              ≡ (signed_request pf world post (codes "/v1/orders") (order_params pf r tif)
                    >>= λ value. lift (order_from_value pf r.symbol value))
                  s))
  unfolding place_order
  place_order-stages r s =
      three_checks (err_if (is_trigger r.order_type) (unsupported_trigger (codes "Upbit")))
        (validate r) (tif_str r)
        (λ tif.
          signed_request pf world post (codes "/v1/orders") (order_params pf r tif) >>= λ value.
          lift (order_from_value pf r.symbol value))
        s

  -- An order that Upbit's endpoint has no field for, a client built for a market other than spot,
  -- or one without credentials: `place_order` returns an error, and neither the client nor the
  -- world has changed, so that no request went out and no nonce was used.
  pub place_order-IsRefused :
      (c : Upbit W C) (w : W) (r : OrderRequest D)
      → Obstacle c r
      → IsRefused (place_order pf world r (c, w)) (c, w)
  place_order-IsRefused c w r h = elim (place_order-stages r (c, w)) [
    | inl refused ↦ refused
    | inr (tif, t, q, e) ↦
        let (x, refused) =
          signed_request-IsRefused c w post (codes "/v1/orders") (order_params pf r tif)
            (checks_left c r tif t q h) in
        (
          x,
          e
              ∙ call_err (signed_request pf world post (codes "/v1/orders") (order_params pf r tif))
                  (λ value. lift (order_from_value pf r.symbol value)) (c, w) (c, w) x refused,
        )
  ]
