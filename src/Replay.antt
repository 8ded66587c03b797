-- ===== src/Replay.antt =====
-- The replay exchange, crates/wickra-exchange-core/src/exchanges/replay.rs: a recorded feed that
-- drives a paper exchange. Its execution methods hand on to the paper exchange's.
pub mod Tape
mod Tests
use wickra_exchange.Prelude.{
  ℕ, Bool, Option, none, some, List, [], ◌∷◌, ◌++◌, ◌+◌, ◌-◌, leb, length, get_elem?,
}
use wickra_exchange.Prelude.Text.{Text}
use wickra_exchange.Decimal.{Decimal}
use wickra_exchange.Error.{Result}
use wickra_exchange.Symbol.{Symbol}
use wickra_exchange.Types.{Order, OrderRequest, Ticker}
use wickra_exchange.Events.{Event, trade, ticker, book_snapshot, mid_price}
use wickra_exchange.Paper.{PaperExchange, set_price}
use wickra_exchange.Paper
use wickra_exchange.Paper.Execution

pub record ReplayExchange (D : Type 0) : Type 0 where
  pub frames : List (Event D)
  pub cursor : ℕ
  pub paper : PaperExchange D

module _ {D : Type 0} ⦃d : Decimal D⦄ where
  unfoldable pub with_paper : List (Event D) → PaperExchange D → ReplayExchange D
  with_paper frames paper = record { frames = frames; cursor = 0; paper = paper }

  unfoldable pub new : List (Event D) → ReplayExchange D
  unfolding with_paper
  new frames = with_paper frames Paper.new

  unfoldable pub is_finished : ReplayExchange D → Bool
  is_finished ex = leb (length ex.frames) ex.cursor

  unfoldable pub remaining : ReplayExchange D → ℕ
  remaining ex = length ex.frames - ex.cursor

  unfoldable pub absorb : PaperExchange D → Event D → PaperExchange D
  absorb paper (ticker t) = set_price paper t.symbol t.last
  absorb paper (trade t) = set_price paper t.symbol t.price
  absorb paper (book_snapshot book) = elim (mid_price book) [
    | none ↦ paper
    | some mid ↦ set_price paper book.symbol mid
  ]
  absorb paper _ = paper

  -- The next frame, if there is one, then the paper exchange's events.
  unfoldable pub poll_events : ReplayExchange D → ReplayExchange D × List (Event D)
  unfolding absorb
  poll_events ex = elim (get_elem? ex.frames ex.cursor) [
    | none ↦
        let (paper, es) = Paper.Execution.poll_events ex.paper in (record ex { paper = paper }, es)
    | some event ↦
        let (paper, es) = Paper.Execution.poll_events (absorb ex.paper event) in
        (record ex { cursor = ex.cursor + 1; paper = paper }, event ∷ es)
  ]

  unfoldable pub place_order :
      ReplayExchange D → OrderRequest D → ReplayExchange D × Result (Order D)
  place_order ex request =
      let (paper, r) = Paper.Execution.place_order ex.paper request in
      (record ex { paper = paper }, r)

  unfoldable pub cancel_order :
      ReplayExchange D → Symbol → Text → ReplayExchange D × Result (Unit {0})
  cancel_order ex symbol order_id =
      let (paper, r) = Paper.Execution.cancel_order ex.paper symbol order_id in
      (record ex { paper = paper }, r)
