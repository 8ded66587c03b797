-- ===== src/Binance/UserStream.antt =====
-- Orders and balances of Binance's user stream,
-- crates/wickra-exchange-core/src/exchanges/binance.rs.
use wickra_exchange.Prelude.{
  Bool, true, false, ◌&&◌, Option, none, some, List, [], ◌∷◌, if◌then◌else◌,
}
use wickra_exchange.Prelude.Text.{Text, codes}
use wickra_exchange.Prelude.Ord.{text_ord}
use wickra_exchange.Decimal.{Decimal, ltd}
use wickra_exchange.Error.{Result, ok, err, deserialization, ok_or, to_option, map_all, ◌>>=◌}
use wickra_exchange.Symbol.{Symbol}
use wickra_exchange.Types.{Order, Balance}
use wickra_exchange.Platform.{Platform, get_str, get_i64, get_array, or_default}
use wickra_exchange.Normalize.{parse_decimal}
use wickra_exchange.Venue.{show_ℤ}
use wickra_exchange.Binance.Parse.{parse_side, parse_order_type, parse_status, non_empty}
use wickra_exchange.Binance.Fields.{field_str, decimal_at}

abbrev pub is_nil : Text → Bool
is_nil [] = true
is_nil (_ ∷ _) = false

module _ {J D F K : Type 0} ⦃d : Decimal D⦄ (pf : Platform J D F K) where
  -- The average price of an order of the user's stream.
  unfoldable pub stream_average : J → Bool → D → Result (Option D)
  unfolding field_str parse_decimal
  stream_average order true executed = do
    text ← field_str pf order (codes "ap")
    let ap = wickra_exchange.Error.unwrap_or (parse_decimal pf text) d.nought in
        ok (if ltd d.nought ap then some ap else none)
  stream_average order false executed = do
    quote ← elim (get_str pf order (codes "Z")) [ none ↦ ok d.nought | some z ↦ parse_decimal pf z ]
    ok (if ltd d.nought executed && ltd d.nought quote then some (d.div quote executed) else none)

  unfoldable pub order_from_user_stream : Symbol → J → Bool → Result (Order D)
  unfolding stream_average field_str parse_decimal parse_side parse_order_type parse_status show_ℤ
  order_from_user_stream symbol order futures = do
    executed ← decimal_at pf order (codes "z")
    average_price ← stream_average order futures executed
    price ← decimal_at pf order (codes "p")
    order_id ← ok_or (get_i64 pf order (codes "i")) (deserialization (codes "missing order id 'i'"))
    side_text ← field_str pf order (codes "S")
    side ← parse_side pf side_text
    type_text ← field_str pf order (codes "o")
    order_type ← parse_order_type pf type_text
    status_text ← field_str pf order (codes "X")
    status ← parse_status pf status_text
    quantity ← decimal_at pf order (codes "q")
    ok (record {
      id = show_ℤ order_id;
      client_order_id = non_empty (or_default (get_str pf order (codes "c")) []);
      symbol = symbol;
      side = side;
      order_type = order_type;
      status = status;
      quantity = quantity;
      filled_quantity = executed;
      price = if ltd d.nought price then some price else none;
      average_price = average_price;
    })

  abbrev pub stream_balance : Text → Text → J → Result (Balance D)
  stream_balance free_key locked_key balance = do
    locked ← elim (is_nil locked_key) [
      | true ↦ ok d.nought
      | false ↦ decimal_at pf balance locked_key
    ]
    asset ← field_str pf balance (codes "a")
    free ← decimal_at pf balance free_key
    ok (record { asset = asset; free = free; locked = locked })

  unfoldable pub parse_stream_balances : J → Text → Text → Result (List (Balance D))
  unfolding field_str parse_decimal
  parse_stream_balances payload free_key locked_key = do
    entries ←
        ok_or (get_array pf payload (codes "B")) (deserialization (codes "missing balances 'B'"))
    map_all (stream_balance free_key locked_key) entries
