-- ===== src/Feeds/Tests.antt =====
-- A builder over integers for floats: a long is liquidated on both sides of a reset.
use wickra_exchange.Prelude.{some, [], ◌∷◌}
use wickra_exchange.Prelude.Int.{ℤ, pos, ◌+ℤ◌}
use wickra_exchange.Prelude.Text.{codes}
use wickra_exchange.Decimal.Integers.{ℤ_decimal}
use wickra_exchange.Symbol.{Symbol}
use wickra_exchange.Types.{sell}
use wickra_exchange.Events.{DerivativesFeed, funding, liquidation}
use wickra_exchange.Feeds.{Core, new_builder, reset_flows}
use wickra_exchange.Feeds.Fold.{Holds, apply_all, reset_flows-Holds}

abbrev integers : Core ℤ ℤ (Unit {0}) (Unit {0}) (Unit {0}) (Unit {0}) (Unit {0}) (Unit {0})
integers = record {
  to_f64 = λ x. some x;
  nan = pos 0;
  zero = pos 0;
  add = λ a b. a +ℤ b;
  trade = λ p q s t. some tt;
  trade_error = λ p q s t. [];
  level = λ p q. some tt;
  level_error = λ p q. [];
  book = λ b a. some tt;
  book_error = λ b a. [];
  member = λ c v h l. tt;
  cross_section = λ m t. some tt;
  cross_section_error = λ m t. [];
  tick = λ i. some tt;
  tick_error = λ i. [];
}

abbrev btc : Symbol
btc = record { base = codes "BTC"; quote = codes "USDT" }

abbrev forced_sell : DerivativesFeed ℤ
forced_sell =
    liquidation
      (record { symbol = btc; side = sell; price = pos 100; quantity = pos 2; timestamp = pos 7 })

abbrev rate : DerivativesFeed ℤ
rate = funding (record { symbol = btc; rate = pos 1; mark_price = pos 99; timestamp = pos 9 })

reset_flows-Holds_example :
    Holds integers
      (new_builder integers)
      (forced_sell ∷ rate ∷ [])
      (apply_all integers (new_builder integers) (forced_sell ∷ rate ∷ []))
    × Holds integers
        (record (apply_all integers (new_builder integers) (forced_sell ∷ rate ∷ [])) {
          long_liquidation = pos 0;
          short_liquidation = pos 0;
        })
        (forced_sell ∷ [])
        (apply_all integers
          (reset_flows integers
            (apply_all integers (new_builder integers) (forced_sell ∷ rate ∷ [])))
          (forced_sell ∷ []))
reset_flows-Holds_example =
    reset_flows-Holds integers (new_builder integers) (forced_sell ∷ rate ∷ []) (forced_sell ∷ [])
