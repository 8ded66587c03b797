-- ===== src/Binance/Batch.antt =====
-- Orders of a batch and positions, crates/wickra-exchange-core/src/exchanges/binance.rs.
use wickra_exchange.Prelude.{not, ◌&&◌, Option, none, some, List, [], ◌∷◌, ◌++◌, if◌then◌else◌}
use wickra_exchange.Prelude.Text.{Text, codes}
use wickra_exchange.Prelude.Ord.{text_ord, same}
use wickra_exchange.Decimal.{Decimal, ltd}
use wickra_exchange.Error.{Result, ok, err, deserialization, order_rejected, ok_or, ◌>>=◌}
use wickra_exchange.Options.{PositionMode, one_way, hedge, cross, isolated}
use wickra_exchange.Positions.{Position, PositionSide, long, short, for_order}
use wickra_exchange.Symbol.{Symbol, to_concatenated}
use wickra_exchange.Types.{OrderRequest, Order, requires_price}
use wickra_exchange.Transport.{eq_ignore_ascii_case}
use wickra_exchange.Normalize.{format_decimal, parse_decimal}
use wickra_exchange.Platform.{Platform, get_str, get_i64, or_default}
use wickra_exchange.Venue.{show_ℤ}
use wickra_exchange.Binance.{side_str, type_for, tif_str, stp_str, split_wire_symbol}
use wickra_exchange.Binance.Parse.{RawOrder, order_from_raw}

-- `Binance::wire_symbol`
unfoldable pub wire_symbol : Symbol → Text
unfolding to_concatenated
wire_symbol s = to_concatenated s

pub record RawPosition : Type 0 where
  pub symbol : Text
  pub position_amt : Text
  pub entry_price : Text
  pub mark_price : Text
  pub unrealized : Text
  pub leverage : Text
  pub margin_type : Text

unfoldable pub side_name : PositionSide → Text
side_name long = codes "LONG"
side_name short = codes "SHORT"

module _ {J D F K : Type 0} (pf : Platform J D F K) where
  -- A field that is set where there is a value.
  abbrev pub opt_field : Text → Option Text → List (Text × J)
  opt_field key none = []
  opt_field key (some value) = (key, pf.text value) ∷ []

  abbrev pub opt_decimal : Text → Option D → List (Text × J)
  opt_decimal key none = []
  opt_decimal key (some value) = (key, pf.text (format_decimal pf value)) ∷ []

  -- A hedged account names the side of the position in place of `reduceOnly`.
  unfoldable pub position_fields : PositionMode → OrderRequest D → List (Text × J)
  unfolding side_name for_order
  position_fields hedge r =
      (codes "positionSide", pf.text (side_name (for_order r.side r.reduce_only))) ∷ []
  position_fields one_way r =
      if r.reduce_only then (codes "reduceOnly", pf.text (codes "true")) ∷ [] else []

  abbrev pub tif_field : OrderRequest D → Text → List (Text × J)
  tif_field r type_str =
      if requires_price r.order_type && not (same type_str (codes "LIMIT_MAKER"))
      then (codes "timeInForce", pf.text (tif_str r.time_in_force)) ∷ []
      else []

  unfoldable pub batch_order_json : OrderRequest D → PositionMode → Result Text
  unfolding type_for wire_symbol side_str format_decimal requires_price tif_str stp_str
      position_fields
  batch_order_json r position_mode = do
    type_str ← type_for r
    ok (
        pf.show_json (
          pf.object (
            (codes "symbol", pf.text (wire_symbol r.symbol))
            ∷ (codes "side", pf.text (side_str r.side))
            ∷ (codes "type", pf.text type_str)
            ∷ (codes "quantity", pf.text (format_decimal pf r.quantity))
            ∷ (opt_decimal (codes "price") r.price
                ++ tif_field r type_str
                ++ opt_field (codes "selfTradePreventionMode") (stp_str r.stp)
                ++ opt_decimal (codes "stopPrice") r.stop_price
                ++ opt_field (codes "newClientOrderId") r.client_order_id
                ++ position_fields position_mode r))))

module _ {J D F K : Type 0} ⦃d : Decimal D⦄ (pf : Platform J D F K) where
  -- `read` is `serde_json::from_value::<RawOrder>`, and `read_error` the text of its error.
  unfoldable pub batch_element_to_order : (J → Option RawOrder) → (J → Text) → J → Result (Order D)
  unfolding order_from_raw split_wire_symbol show_ℤ
  batch_element_to_order read read_error value = elim (get_i64 pf value (codes "code")) [
    | some code ↦
        err (order_rejected (show_ℤ code) (or_default (get_str pf value (codes "msg")) []))
    | none ↦ (do
      raw ← ok_or (read value) (deserialization (read_error value))
      order_from_raw pf (split_wire_symbol raw.symbol) raw)
  ]

  -- `read` is `serde_json::from_str::<RawOrder>`, and `read_error` the text of its error.
  unfoldable pub parse_order :
      (Text → Option RawOrder) → (Text → Text) → Symbol → Text → Result (Order D)
  unfolding order_from_raw
  parse_order read read_error symbol body = do
    raw ← ok_or (read body) (deserialization (read_error body))
    order_from_raw pf symbol raw

  -- A position of an amount that is not zero.
  unfoldable pub position_of : RawPosition → D → Result (Position D)
  unfolding parse_decimal split_wire_symbol eq_ignore_ascii_case
  position_of raw amount = do
    entry_price ← parse_decimal pf raw.entry_price
    mark_price ← parse_decimal pf raw.mark_price
    leverage ← parse_decimal pf raw.leverage
    unrealized ← parse_decimal pf raw.unrealized
    ok (record {
      symbol = split_wire_symbol raw.symbol;
      side = if ltd amount d.nought then short else long;
      quantity = if ltd amount d.nought then d.sub d.nought amount else amount;
      entry_price = entry_price;
      mark_price = mark_price;
      leverage = leverage;
      unrealized_pnl = unrealized;
      margin_mode =
          if eq_ignore_ascii_case raw.margin_type (codes "isolated") then isolated else cross;
    })

  -- The loop over the entries, which leaves out what is zero.
  unfoldable pub positions_of : List RawPosition → Result (List (Position D))
  unfolding parse_decimal position_of
  positions_of [] = ok []
  positions_of (raw ∷ rest) =
      let others = positions_of rest in
      parse_decimal pf raw.position_amt >>= λ amount.
      if not (ltd amount d.nought) && not (ltd d.nought amount)
      then others
      else (position_of raw amount >>= λ position. others >>= λ all. ok (position ∷ all))

  -- `read` is `deserialize::<Vec<RawPosition>>`.
  unfoldable pub parse_positions :
      (Text → Result (List RawPosition)) → Text → Result (List (Position D))
  unfolding positions_of
  parse_positions read body = read body >>= positions_of
