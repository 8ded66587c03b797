-- ===== src/Coinbase/ReadBack.antt =====
-- An order that Coinbase lists, read by the client that sent it.
use wickra_exchange.Prelude.{
  ◌≡◌, refl, ◌∙◌, true, Option, none, some, List, [], ◌∷◌, ◌⊎◌, inl, inr, arith,
}
use wickra_exchange.Prelude.Text.{Text, codes}
use wickra_exchange.Prelude.Ord.{text_ord}
use wickra_exchange.Decimal.{Decimal}
use wickra_exchange.Error.{ok}
use wickra_exchange.Symbol.{Symbol}
use wickra_exchange.Types.{
  requires_price, Order, OrderRequest, OrderSide, buy, sell, OrderType, market, limit, stop_market,
  stop_limit, TimeInForce, gtc, new, is_trigger, validate,
}
use wickra_exchange.Platform.{Platform}
use wickra_exchange.Coinbase.{side_str}
use wickra_exchange.Coinbase.Orders.{configuration}
use wickra_exchange.Coinbase.Parse.{
  type_of, quantity_of, order_from_value, nonzero, parse_side, parse_status,
}
use wickra_exchange.Coinbase.Configurations.{
  Form, stopped, immediate, killed, resting, configuration-Form,
}
use wickra_exchange.Coinbase.Written.{
  ReadsBack, value_at, distinct_keys, quantity_of_lem, type_of_other, type_of_gtc, str_field_lem,
  opt_dec_missing,
}

-- What an order is read as: a limit order where it is one that rests until it is cancelled, and
-- a market order without a price in every other case.
abbrev pub read_type : OrderType → TimeInForce → OrderType
read_type limit gtc = limit
read_type _ _ = market

abbrev pub read_price : {D : Type 0} → OrderType → TimeInForce → Option D → Option D
read_price limit gtc price = price
read_price _ _ _ = none

module _ {D : Type 0} ⦃d : Decimal D⦄ where
  -- The order that is read, by the order that was sent.
  abbrev pub read_order : OrderRequest D → Text → Order D
  read_order r id = record {
    id = id;
    client_order_id = none;
    symbol = r.symbol;
    side = r.side;
    order_type = read_type r.order_type r.time_in_force;
    status = new;
    quantity = r.quantity;
    filled_quantity = d.nought;
    price = read_price r.order_type r.time_in_force r.price;
    average_price = none;
  }

module _ {J D F K : Type 0} (pf : Platform J D F K) where
  -- The order as the venue lists it.
  abbrev pub listed : OrderRequest D → Text → J → J
  listed r id cfg = pf.object (
      (codes "order_id", pf.text id)
      ∷ (codes "side", pf.text (side_str r.side))
      ∷ (codes "status", pf.text (codes "OPEN"))
      ∷ (codes "order_configuration", cfg)
      ∷ [])

module _ {J D F K : Type 0} ⦃d : Decimal D⦄ (pf : Platform J D F K) (laws : ReadsBack pf) where
  -- What is read of an order that is not at rest under `limit_limit_gtc`.
  abbrev IsOther : OrderType → TimeInForce → Option D → J → Type 0
  IsOther t tif price cfg =
      (read_type t tif ≡ market)
      × (read_price t tif price ≡ none)
      × (type_of pf (some cfg) ≡ (market, d.nought))

  trigger-IsOther :
      (t : OrderType) (tif : TimeInForce) (price : Option D) (cfg : J)
      → is_trigger t ≡ true
      → type_of pf (some cfg) ≡ (market, d.nought)
      → IsOther t tif price cfg
  unfolding is_trigger
  trigger-IsOther stop_market tif price cfg t e = (refl, refl, e)
  trigger-IsOther stop_limit tif price cfg t e = (refl, refl, e)
  trigger-IsOther market tif price cfg t e = (refl, refl, e)
  trigger-IsOther limit tif price cfg t e = absurd (cc)

  -- The parts of a configuration that the reader takes.
  config_lem :
      (r : OrderRequest D) (cfg : J)
      → Form pf r cfg
      → (quantity_of pf (some cfg) ≡ r.quantity)
        × (((r.order_type ≡ limit)
              × (r.time_in_force ≡ gtc)
              × (x : D) × (r.price ≡ some x)
              × (type_of pf (some cfg) ≡ (limit, x)))
            ⊎ IsOther r.order_type r.time_in_force r.price cfg)
  config_lem r cfg (stopped p s e t) = rw e (
    quantity_of_lem pf laws _ _ r.quantity refl refl,
    inr (
        trigger-IsOther r.order_type r.time_in_force r.price _ t
          (type_of_other pf laws _ _ refl refl)),
  )
  config_lem r cfg (immediate e t) =
      rw (e, t)
        (
          quantity_of_lem pf laws _ _ r.quantity refl refl,
          inr (refl, refl, type_of_other pf laws _ _ refl refl),
        )
  config_lem r cfg (killed p e t f) =
      rw (e, t, f)
        (
          quantity_of_lem pf laws _ _ r.quantity refl refl,
          inr (refl, refl, type_of_other pf laws _ _ refl refl),
        )
  config_lem r cfg (resting p e t f q) = rw e (
    quantity_of_lem pf laws _ _ r.quantity refl refl,
    inl (t, f, p, q, type_of_gtc pf laws _ p refl refl),
  )

  parse_side-side_str : (side : OrderSide) → parse_side pf (side_str side) ≡ ok side
  unfolding parse_side side_str
  parse_side-side_str buy = refl
  parse_side-side_str sell = refl

  parse_status_open : parse_status pf (codes "OPEN") ≡ ok new
  unfolding parse_status
  parse_status_open = refl

  nonzero_nought : nonzero pf d.nought ≡ none
  unfolding nonzero
  nonzero_nought = ground (arith, d.order.cmp_refl d.nought)

  nonzero_limit :
      (r : OrderRequest D) (x : D)
      → validate r ≡ ok tt
      → r.order_type ≡ limit
      → r.price ≡ some x
      → nonzero pf x ≡ some x
  unfolding nonzero validate requires_price is_trigger
  nonzero_limit r x v t q = ground (arith, v, t, q, d.order.lt_of_gt x d.nought)

  order_from_value_lem :
      (fields : List (Text × J)) (symbol : Symbol) (id : Text) (side : OrderSide) (cfg : J)
      (t : OrderType) (price quantity : D)
      → distinct_keys fields ≡ true
      → value_at (codes "order_id") fields ≡ some (pf.text id)
      → value_at (codes "side") fields ≡ some (pf.text (side_str side))
      → value_at (codes "status") fields ≡ some (pf.text (codes "OPEN"))
      → value_at (codes "order_configuration") fields ≡ some cfg
      → value_at (codes "client_order_id") fields ≡ none
      → value_at (codes "filled_size") fields ≡ none
      → value_at (codes "average_filled_price") fields ≡ none
      → type_of pf (some cfg) ≡ (t, price)
      → quantity_of pf (some cfg) ≡ quantity
      → order_from_value pf symbol (pf.object fields)
        ≡ ok (record {
          id = id;
          client_order_id = none;
          symbol = symbol;
          side = side;
          order_type = t;
          status = new;
          quantity = quantity;
          filled_quantity = d.nought;
          price = nonzero pf price;
          average_price = none;
        })
  unfolding order_from_value
  order_from_value_lem fields symbol id side cfg t price quantity h hi hs hst hc hn hf ha ht hq =
      rw
        (
          str_field_lem pf laws fields (codes "side") (side_str side) h hs,
          str_field_lem pf laws fields (codes "status") (codes "OPEN") h hst,
          str_field_lem pf laws fields (codes "order_id") id h hi,
          parse_side-side_str side,
          laws.get_object fields (codes "order_configuration") h,
          hc,
          laws.get_object fields (codes "client_order_id") h,
          hn,
          opt_dec_missing pf laws fields (codes "filled_size") h hf,
          opt_dec_missing pf laws fields (codes "average_filled_price") h ha,
          ht,
          hq,
          nonzero_nought,
          order_from_value,
        )
        refl

  -- Every order that passes validation and that Coinbase has a configuration for is read back,
  -- where the venue lists it as open under that configuration, with the side and the quantity it
  -- was sent with. A limit order good till cancelled keeps its type and price; every other one,
  -- a stop-limit or fill-or-kill limit order too, is read as a market order without a price. The
  -- platform has the laws of `ReadsBack`.
  pub order_from_value-configuration :
      (r : OrderRequest D) (id : Text) (cfg : J)
      → validate r ≡ ok tt
      → configuration pf r ≡ ok cfg
      → order_from_value pf r.symbol (listed pf r id cfg) ≡ ok (read_order r id)
  order_from_value-configuration r id cfg v h =
      let (q, read) = config_lem r cfg (configuration-Form pf r cfg h) in
      let from =
        order_from_value_lem
          ((codes "order_id", pf.text id)
            ∷ (codes "side", pf.text (side_str r.side))
            ∷ (codes "status", pf.text (codes "OPEN"))
            ∷ (codes "order_configuration", cfg)
            ∷ [])
          r.symbol id r.side cfg in
      elim read [
        | inl (t, f, x, p, e) ↦
            rw (t, f, p)
              (from limit x r.quantity refl refl refl refl refl refl refl refl e q
                ∙ rw (nonzero_limit r x v t p) refl)
        | inr (t, p, e) ↦
            rw (t, p)
              (from market d.nought r.quantity refl refl refl refl refl refl refl refl e q
                ∙ rw nonzero_nought refl)
      ]
