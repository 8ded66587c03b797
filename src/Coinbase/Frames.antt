-- ===== src/Coinbase/Frames.antt =====
-- The frames of Coinbase's stream, crates/wickra-exchange-core/src/exchanges/coinbase.rs.
use wickra_exchange.Prelude.{
  Bool, true, false, Option, none, some, List, [], ◌∷◌, ◌++◌, if◌then◌else◌,
}
use wickra_exchange.Prelude.Int.{pos}
use wickra_exchange.Prelude.Text.{Text, codes}
use wickra_exchange.Prelude.Ord.{text_ord, same}
use wickra_exchange.Decimal.{Decimal}
use wickra_exchange.Error.{Result, ok, deserialization, ok_or, map_all, ◌>>=◌}
use wickra_exchange.Events.{Event, trade, ticker, book_delta, BookLevel}
use wickra_exchange.Platform.{Platform, get_str, get_array, or_default}
use wickra_exchange.Normalize.{parse_decimal}
use wickra_exchange.Coinbase.{product_symbol}
use wickra_exchange.Coinbase.Parse.{str_field, decimal_of, parse_side, opt_dec}

abbrev pub concat {ℓ} : {A : Type ℓ} → List (List A) → List A
concat [] = []
concat (xs ∷ rest) = xs ++ concat rest

-- The levels of one side of the updates, in order.
abbrev pub side_of {ℓ} : {A : Type ℓ} → Bool → List (Bool × A) → List A
side_of bid [] = []
side_of true ((true, x) ∷ rest) = x ∷ side_of true rest
side_of false ((false, x) ∷ rest) = x ∷ side_of false rest
side_of bid ((_, x) ∷ rest) = side_of bid rest

abbrev pub is_bid : Option Text → Bool
is_bid none = false
is_bid (some side) = same side (codes "bid")

module _ {J D F K : Type 0} ⦃d : Decimal D⦄ (pf : Platform J D F K) where
  unfoldable pub trade_of : J → Result (Event D)
  unfolding str_field parse_decimal parse_side product_symbol
  trade_of t = do
    product ← str_field pf t (codes "product_id")
    price ← decimal_of pf t (codes "price")
    quantity ← decimal_of pf t (codes "size")
    side ← str_field pf t (codes "side")
    aggressor ← parse_side pf side
    ok (
        trade (record {
          symbol = product_symbol product;
          price = price;
          quantity = quantity;
          aggressor = aggressor;
          timestamp = pos 0;
        }))

  unfoldable pub ticker_of : J → Result (Event D)
  unfolding str_field parse_decimal opt_dec product_symbol
  ticker_of t = do
    product ← str_field pf t (codes "product_id")
    last ← decimal_of pf t (codes "price")
    ok (
        ticker (record {
          symbol = product_symbol product;
          last = last;
          bid = opt_dec pf t (codes "best_bid");
          ask = opt_dec pf t (codes "best_ask");
          volume = opt_dec pf t (codes "volume_24_h");
          timestamp = pos 0;
        }))

  -- A level, and whether it is a bid; what is no bid is an ask.
  unfoldable pub update_of : J → Result (Bool × BookLevel D)
  unfolding str_field parse_decimal
  update_of update = do
    price ← decimal_of pf update (codes "price_level")
    quantity ← decimal_of pf update (codes "new_quantity")
    ok (is_bid (get_str pf update (codes "side")), record { price = price; quantity = quantity })

  unfoldable pub delta_of : J → Result (Event D)
  unfolding update_of product_symbol
  delta_of event = do
    updates ← map_all update_of (or_default (get_array pf event (codes "updates")) [])
    ok (
        book_delta (record {
          symbol = product_symbol (or_default (get_str pf event (codes "product_id")) []);
          first_update_id = 0;
          final_update_id = 0;
          bids = side_of true updates;
          asks = side_of false updates;
          timestamp = pos 0;
        }))

  -- The events of a frame's lists under `key`, one after the other.
  abbrev pub all_of : Text → (J → Result (Event D)) → List J → Result (List (Event D))
  all_of key read events = do
    lists ← map_all (λ event. map_all read (or_default (get_array pf event key) [])) events
    ok (concat lists)

  -- The `match channel` of `parse_ws_message`.
  unfoldable pub parse_channel : Text → List J → Result (List (Event D))
  unfolding trade_of ticker_of delta_of
  parse_channel channel events =
      if same channel (codes "market_trades")
      then all_of (codes "trades") trade_of events
      else if same channel (codes "ticker")
      then all_of (codes "tickers") ticker_of events
      else if same channel (codes "l2_data")
      then map_all delta_of events
      else ok []

  unfoldable pub parse_ws_message : Text → Result (List (Event D))
  unfolding parse_channel
  parse_ws_message text = do
    value ← ok_or (pf.from_json text) (deserialization (pf.json_error text))
    elim (get_str pf value (codes "channel")) [
      | none ↦ ok []
      | some channel ↦ parse_channel channel (or_default (get_array pf value (codes "events")) [])
    ]
