-- ===== src/Binance/Tests.antt =====
-- The parameters of a call that cancels a batch of orders, encoded.
use wickra_exchange.Prelude.{◌≡◌, refl, List, [], ◌∷◌, map, arith}
use wickra_exchange.Prelude.Text.{Text, codes}
use wickra_exchange.Transport.Query.{read_query}
use wickra_exchange.Transport.Query.Laws.{pairs_text}
use wickra_exchange.Binance.Encoding.{encoded, read_query-percent_encode}

abbrev parameters : List (Text × Text)
parameters = (codes "symbol", codes "BTCUSDT") ∷ (codes "orderIdList", codes "[1,2]&a=b +#%") ∷ []

read_query-percent_encode_example : read_query (pairs_text (map encoded parameters)) ≡ parameters
read_query-percent_encode_example = read_query-percent_encode parameters (
  (((refl, refl, refl), refl, refl), ground arith),
  ((((refl, refl, refl), refl, refl), ground arith), tt),
)
