-- ===== src/Replay/Tape.antt =====
-- The recording after some polls: its frames, its cursor and the marks.
use wickra_exchange.Prelude.{
  append_nil, ℕ, suc, zero, ◌≡◌, refl, ◌≤◌, ◌<◌, ◌-◌, Option, none, some, List, [], ◌∷◌, ◌++◌,
  arith, leb, length, take, get_elem?, min, if◌then◌else◌, ap, sym, ◌∙◌, Option-cases, inl, inr,
}
use mathlib.Core.Path.{subst}
use wickra_exchange.Prelude.Ord.{same}
use wickra_exchange.OrdMap.{lookup}
use wickra_exchange.OrdMap.Laws.{lookup-insert}
use wickra_exchange.Decimal.{Decimal}
use wickra_exchange.Symbol.{Symbol, symbol_ord}
use wickra_exchange.Events.{Event, trade, ticker, book_snapshot, mid_price}
use wickra_exchange.Paper.{PaperExchange, set_price}
use wickra_exchange.Paper.Execution
use wickra_exchange.Replay.{ReplayExchange, with_paper, is_finished, remaining, absorb, poll_events}

take_next {ℓ} :
    {A : Type ℓ} (xs : List A) (k : ℕ) (x : A)
    → get_elem? xs k ≡ some x
    → (take (suc k) xs ≡ take k xs ++ (x ∷ [])) × (k < length xs)
take_next [] k x h = absurd (ground (arith, h))
take_next (y ∷ xs) zero x h = (ground (arith, h), omega arith)
take_next (y ∷ xs) (suc k) x h = let (e, n) = take_next xs k x h in (ap (λ l. y ∷ l) e, omega arith)

get_none {ℓ} : {A : Type ℓ} (xs : List A) (i : ℕ) → get_elem? xs i ≡ none → length xs ≤ i
get_none [] i h = omega arith
get_none (y ∷ xs) zero h = absurd (ground (arith, h))
get_none (y ∷ xs) (suc i) h = omega (arith, get_none xs i h)

take_long {ℓ} : {A : Type ℓ} (xs : List A) (k : ℕ) → length xs ≤ k → take (suc k) xs ≡ take k xs
take_long [] zero h = refl
take_long [] (suc k) h = refl
take_long (y ∷ xs) zero h = absurd (omega arith)
take_long (y ∷ xs) (suc k) h = ap (λ l. y ∷ l) (take_long xs k (omega arith))

module _ {D : Type 0} ⦃d : Decimal D⦄ where
  -- The price that a frame bears.
  unfoldable pub frame_price : Event D → Option (Symbol × D)
  frame_price (ticker t) = some (t.symbol, t.last)
  frame_price (trade t) = some (t.symbol, t.price)
  frame_price (book_snapshot b) = elim (mid_price b) [ none ↦ none | some p ↦ some (b.symbol, p) ]
  frame_price _ = none

  abbrev heard : Symbol → Option D → Option (Symbol × D) → Option D
  heard s before none = before
  heard s before (some (other, p)) = if same other s then some p else before

  -- The newest price of a symbol among the frames, or the one before them.
  unfoldable pub last_price : Symbol → List (Event D) → Option D → Option D
  last_price s [] before = before
  last_price s (e ∷ es) before = last_price s es (heard s before (frame_price e))

  last_price_append :
      (s : Symbol) (es : List (Event D)) (e : Event D) (before : Option D)
      → last_price s (es ++ (e ∷ [])) before ≡ heard s (last_price s es before) (frame_price e)
  unfolding last_price
  last_price_append s [] e before = refl
  last_price_append s (f ∷ es) e before = last_price_append s es e (heard s before (frame_price f))

  absorb_mark :
      (s : Symbol) (paper : PaperExchange D) (e : Event D)
      → lookup s (absorb paper e).marks ≡ heard s (lookup s paper.marks) (frame_price e)
  unfolding absorb frame_price set_price
  absorb_mark s paper (ticker t) = lookup-insert t.symbol s t.last paper.marks
  absorb_mark s paper (trade t) = lookup-insert t.symbol s t.price paper.marks
  absorb_mark s paper (book_snapshot b) = elim (Option-cases (mid_price b)) [
    | inl e ↦ rw (e, absorb, frame_price) refl
    | inr (p, e) ↦ rw (e, absorb, frame_price) (lookup-insert b.symbol s p paper.marks)
  ]
  absorb_mark s paper _ = refl

  absorb_portfolio :
      (paper : PaperExchange D) (e : Event D)
      → ((absorb paper e).balances ≡ paper.balances)
        × ((absorb paper e).orders ≡ paper.orders)
        × ((absorb paper e).events ≡ paper.events)
  unfolding absorb set_price
  absorb_portfolio paper e = ground arith

  -- A number of polls, with all that they returned.
  unfoldable pub polls : ℕ → ReplayExchange D → ReplayExchange D × List (Event D)
  polls zero ex = (ex, [])
  polls (suc k) ex =
      let (ex', out) = polls k ex in let (ex'', es) = poll_events ex' in (ex'', out ++ es)

  -- What is true after `k` polls, with what they returned.
  abbrev Played :
      List (Event D) → PaperExchange D → ℕ → Symbol → ReplayExchange D → List (Event D) → Type 0
  Played frames paper k s ex out =
      (out ≡ take k frames)
      × (lookup s ex.paper.marks ≡ last_price s (take k frames) (lookup s paper.marks))
      × (ex.paper.balances ≡ paper.balances)
      × (ex.paper.orders ≡ paper.orders)
      × (ex.paper.events ≡ [])
      × (ex.frames ≡ frames)
      × (ex.cursor ≡ min k (length frames))

  poll-Played :
      (frames : List (Event D)) (paper : PaperExchange D) (k : ℕ) (s : Symbol)
      (ex : ReplayExchange D) (out : List (Event D))
      → Played frames paper k s ex out
      → let (ex', es) = poll_events ex in Played frames paper (suc k) s ex' (out ++ es)
  unfolding poll_events Execution.poll_events
  poll-Played frames paper k s ex out (o, m, b, r, v, f, c) =
      elim (Option-cases (get_elem? ex.frames ex.cursor)) [
        | inl e ↦
            let long = get_none ex.frames ex.cursor e in
            let n = ap length f in
            let same_take = take_long frames k (ground (arith, n)) in
            rw (e, poll_events, v, same_take)
              (append_nil out ∙ o, m, b, r, refl, f, ground (arith, n))
        | inr (x, e) ↦
            let (_, inside) = take_next ex.frames ex.cursor x e in
            let n = ap length f in
            let at : ex.cursor ≡ k = ground (arith, n) in
            let (more, _) = take_next frames k x (
              subst (λ i. get_elem? frames i ≡ some x) at
                (subst (λ l. get_elem? l ex.cursor ≡ some x) f e)) in
            let (b', r', v') = absorb_portfolio ex.paper x in
            rw (e, poll_events, more, v' ∙ v)
              (
                ap (λ l. l ++ (x ∷ [])) o,
                absorb_mark s ex.paper x
                    ∙ ap (λ p. heard s p (frame_price x)) m
                    ∙ sym (last_price_append s (take k frames) x (lookup s paper.marks)),
                b' ∙ b,
                r' ∙ r,
                refl,
                f,
                ground (arith, n),
              )
      ]

  polls-Played :
      (frames : List (Event D)) (paper : PaperExchange D) (k : ℕ) (s : Symbol)
      → paper.events ≡ []
      → let (ex, out) = polls k (with_paper frames paper) in Played frames paper k s ex out
  unfolding polls with_paper last_price
  polls-Played frames paper zero s h = (refl, refl, refl, refl, h, refl, omega arith)
  polls-Played frames paper (suc k) s h =
      let (ex, out) = polls k (with_paper frames paper) in
      poll-Played frames paper k s ex out (polls-Played frames paper k s h)

  -- After `k` polls of a recording over a paper exchange that has no event pending: exactly the
  -- first `k` frames were returned, in order, the rest remains, the recording is finished when
  -- `k` reaches its length, and the mark of every symbol is the newest price that those first
  -- `k` frames bear for it, or the mark from before. The portfolio and the orders are untouched.
  pub polls_lem :
      (frames : List (Event D)) (paper : PaperExchange D) (k : ℕ) (s : Symbol)
      → paper.events ≡ []
      → let (ex, out) = polls k (with_paper frames paper) in
        (out ≡ take k frames)
        × (remaining ex ≡ length frames - k)
        × (is_finished ex ≡ leb (length frames) k)
        × (lookup s ex.paper.marks ≡ last_price s (take k frames) (lookup s paper.marks))
        × (ex.paper.balances ≡ paper.balances)
        × (ex.paper.orders ≡ paper.orders)
  unfolding remaining is_finished
  polls_lem frames paper k s h =
      let (o, m, b, r, v, f, c) = polls-Played frames paper k s h in
      let n = ap length f in (o, ground (arith, n), ground (arith, n), m, b, r)
