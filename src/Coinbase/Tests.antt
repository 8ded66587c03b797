-- ===== src/Coinbase/Tests.antt =====
-- A limit order, sent to Coinbase in a small world and read back.
use wickra_exchange.Prelude.{
  Option, false, ℕ, zero, suc, ◌≡◌, refl, ap, none, some, List, [], ◌∷◌, length, if◌then◌else◌,
}
use wickra_exchange.Prelude.Int.{ℤ, pos, negsuc}
use wickra_exchange.Prelude.Text.{Text, codes}
use wickra_exchange.Prelude.Ord.{text_ord, same}
use wickra_exchange.Decimal.Integers.{ℤ_decimal}
use wickra_exchange.Error.{ok}
use wickra_exchange.Options.{allow}
use wickra_exchange.Types.{OrderRequest, buy, limit, gtc, validate, requires_price, is_trigger}
use wickra_exchange.Normalize.{format_decimal}
use wickra_exchange.Venue.Samples.{
  Json, text, bool, fields, get_field, ones, unary, of_unary, sample_platform,
}
use wickra_exchange.Coinbase.Orders.{configuration, plain_configuration, limit_configuration}
use wickra_exchange.Coinbase.Parse.{order_from_value}
use wickra_exchange.Coinbase.Written.{ReadsBack, value_at}
use wickra_exchange.Coinbase.ReadBack.{listed, read_order, order_from_value-configuration}

abbrev no_json : Text → Option Json
no_json t = none

get_fields : (l : List (Text × Json)) (key : Text) → get_field (fields l) key ≡ value_at key l
get_fields [] key = refl
get_fields ((k, v) ∷ l) key = ap (λ o. if same k key then some v else o) (get_fields l key)

length-ones : (n : ℕ) → length (ones n) ≡ n
length-ones zero = refl
length-ones (suc n) = ap suc (length-ones n)

of_unary-unary : (x : ℤ) → of_unary (unary x) ≡ x
of_unary-unary (pos zero) = refl
of_unary-unary (pos (suc n)) = ap (λ k. pos (suc k)) (length-ones n)
of_unary-unary (negsuc n) = ap negsuc (length-ones n)

sample-ReadsBack : ReadsBack (sample_platform no_json)
sample-ReadsBack = record {
  get_object = λ l key h. get_fields l key;
  first_of_one = λ key v. refl;
  as_str_text = λ t. refl;
  read_normalized = λ x. ap some (of_unary-unary x);
}

abbrev order : OrderRequest ℤ
order = record {
  symbol = record { base = codes "BTC"; quote = codes "USD" };
  side = buy;
  order_type = limit;
  quantity = pos 2;
  price = some (pos 3);
  stop_price = none;
  time_in_force = gtc;
  client_order_id = none;
  reduce_only = false;
  post_only = false;
  stp = allow;
}

abbrev sent : Json
sent = fields (
    (
      codes "limit_limit_gtc",
      fields (
          (codes "base_size", text (codes "11"))
          ∷ (codes "limit_price", text (codes "111"))
          ∷ (codes "post_only", bool false)
          ∷ []),
    )
    ∷ [])

order_from_value-configuration_example :
    order_from_value
      (sample_platform no_json)
      order.symbol
      (listed (sample_platform no_json) order (codes "id") sent)
    ≡ ok (read_order order (codes "id"))
unfolding configuration plain_configuration limit_configuration format_decimal validate
    requires_price is_trigger
order_from_value-configuration_example =
    order_from_value-configuration (sample_platform no_json) sample-ReadsBack order (codes "id")
      sent refl refl
