-- ===== src/Instruments/Cache.antt =====
-- What the cache answers after a refresh.
use wickra_exchange.Prelude.{
  ◌≡◌, refl, true, Option, none, some, List, [], ◌∷◌, arith, if◌then◌else◌, ◌↔◌, ap, ◌∙◌,
}
use wickra_exchange.Prelude.Int.{ℤ, ◌-ℤ◌, ◌≤ℤ◌}
use wickra_exchange.Prelude.Word.{IsI64, sub_i64_exact}
use wickra_exchange.Prelude.Ord.{same}
use wickra_exchange.OrdMap.{OrdMap, lookup, insert}
use wickra_exchange.OrdMap.Laws.{lookup-insert}
use wickra_exchange.Symbol.{Symbol, symbol_ord}
use wickra_exchange.Instruments.{
  Instrument, InstrumentCache, new, collect, replace, get, needs_refresh,
}

module _ {D : Type 0} where
  -- The last instrument of the list with this symbol.
  unfoldable pub last_of :
      Symbol → List (Instrument D) → Option (Instrument D) → Option (Instrument D)
  last_of s [] before = before
  last_of s (i ∷ rest) before = last_of s rest (if same i.symbol s then some i else before)

  lookup-collect :
      (s : Symbol) (is : List (Instrument D)) (m : OrdMap Symbol (Instrument D))
      → lookup s (collect is m) ≡ last_of s is (lookup s m)
  unfolding collect last_of
  lookup-collect s [] m = refl
  lookup-collect s (i ∷ rest) m =
      lookup-collect s rest (insert i.symbol i m)
      ∙ ap (last_of s rest) (lookup-insert i.symbol s i m)

  -- After a refresh the cache holds the fetched instruments and no other: for every symbol the last
  -- of the list that has it. It asks for the next refresh exactly when `ttl_ms` has passed since,
  -- where the age fits an `i64`; a new cache asks at once.
  pub get-replace :
      (c : InstrumentCache D) (instruments : List (Instrument D)) (fetched now_ms ttl_ms : ℤ)
      (s : Symbol)
      → IsI64 (now_ms -ℤ fetched)
      → let c' = replace c instruments fetched in
        (get c' s ≡ last_of s instruments none)
        × ((needs_refresh c' now_ms ttl_ms ≡ true) ↔ (ttl_ms ≤ℤ now_ms -ℤ fetched))
        × (needs_refresh (new {D = D}) now_ms ttl_ms ≡ true)
  unfolding get replace needs_refresh new lookup
  get-replace c instruments fetched now_ms ttl_ms s h =
      (lookup-collect s instruments [], ground (arith, sub_i64_exact now_ms fetched h), refl)
