-- ===== src/Replay/Tests.antt =====
-- A recording of two trades.
use wickra_exchange.Prelude.{ℕ, ◌≡◌, refl, ◌-◌, leb, List, [], ◌∷◌, length, take}
use wickra_exchange.Prelude.Int.{ℤ, pos}
use wickra_exchange.Prelude.Text.{codes}
use wickra_exchange.Decimal.Integers.{ℤ_ord, ℤ_decimal}
use wickra_exchange.OrdMap.{lookup}
use wickra_exchange.Symbol.{Symbol, symbol_ord}
use wickra_exchange.Types.{buy}
use wickra_exchange.Events.{Event, trade, subscribed}
use wickra_exchange.Paper.{PaperExchange, new}
use wickra_exchange.Replay.{with_paper, remaining, is_finished}
use wickra_exchange.Replay.Tape.{polls, last_price, polls_lem}

abbrev btc_usdt : Symbol
btc_usdt = record { base = codes "BTC"; quote = codes "USDT" }

abbrev print_at : ℕ → Event ℤ
print_at price = trade (record {
  symbol = btc_usdt;
  price = pos price;
  quantity = pos 1;
  aggressor = buy;
  timestamp = pos 0;
})

abbrev frames : List (Event ℤ)
frames = subscribed (codes "trade") ∷ print_at 100 ∷ print_at 200 ∷ []

abbrev paper : PaperExchange ℤ
unfolding new
paper = new

polls_lem_example :
    let (ex, out) = polls 2 (with_paper frames paper) in
    (out ≡ take 2 frames)
    × (remaining ex ≡ length frames - 2)
    × (is_finished ex ≡ leb (length frames) 2)
    × (lookup btc_usdt ex.paper.marks
        ≡ last_price btc_usdt (take 2 frames) (lookup btc_usdt paper.marks))
    × (ex.paper.balances ≡ paper.balances)
    × (ex.paper.orders ≡ paper.orders)
unfolding new
polls_lem_example = polls_lem frames paper 2 btc_usdt refl
