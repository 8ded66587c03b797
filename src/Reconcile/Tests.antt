-- ===== src/Reconcile/Tests.antt =====
-- One order vanished, one appeared, one is still open.
use wickra_exchange.Prelude.{◌≡◌, not, ◌&&◌, none, [], ◌∷◌, List}
use wickra_exchange.Prelude.Int.{ℤ, pos}
use wickra_exchange.Prelude.Text.{codes}
use wickra_exchange.Types.{Order, buy, limit}
use wickra_exchange.Types
use wickra_exchange.Reconcile.{ids, reconcile_orders}
use wickra_exchange.Reconcile.Sets.{is_in, reconcile_orders_lem}

abbrev open_order : Order ℤ
open_order = record {
  id = codes "b";
  client_order_id = none;
  symbol = record { base = codes "BTC"; quote = codes "USDT" };
  side = buy;
  order_type = limit;
  status = Types.new;
  quantity = pos 1;
  filled_quantity = pos 0;
  price = none;
  average_price = none;
}

abbrev venue : List (Order ℤ)
venue = open_order ∷ record open_order { id = codes "c" } ∷ []

reconcile_orders_lem_example :
    let r = reconcile_orders (codes "a" ∷ codes "b" ∷ []) venue in
    (is_in (codes "a") r.appeared
      ≡ (not (is_in (codes "a") (codes "a" ∷ codes "b" ∷ [])) && is_in (codes "a") (ids venue)))
    × (is_in (codes "a") r.vanished
        ≡ (not (is_in (codes "a") (ids venue)) && is_in (codes "a") (codes "a" ∷ codes "b" ∷ [])))
    × (is_in (codes "a") r.still_open
        ≡ (is_in (codes "a") (ids venue) && is_in (codes "a") (codes "a" ∷ codes "b" ∷ [])))
reconcile_orders_lem_example = reconcile_orders_lem (codes "a" ∷ codes "b" ∷ []) venue (codes "a")
