-- ===== src/ClientIds/Unique.antt =====
-- The ids that calls of one generator give out.
use wickra_exchange.Prelude.{
  ℕ, suc, zero, ◌≡◌, refl, ◌≢◌, ◌<◌, ◌+◌, ◌%◌, List, [], ◌∷◌, ◌++◌, arith, ap, ◌∙◌,
}
use wickra_exchange.Prelude.Word.{add_u64, u64_mod}
use wickra_exchange.Prelude.Text.{Text, codes, show, show_injective}
use wickra_exchange.ClientIds.{ClientIdGenerator, next_id, client_id}

-- The generator after a number of calls.
unfoldable pub after : ℕ → ClientIdGenerator → ClientIdGenerator
after zero g = g
after (suc n) g = after n (next_id g).0

append_cancel : (p s t : List ℕ) → p ++ s ≡ p ++ t → s ≡ t
append_cancel [] s t h = h
append_cancel (x ∷ p) s t h = append_cancel p s t (ground (arith, h))

client_id-injective : (p : Text) (m n : ℕ) → client_id p m ≡ client_id p n → m ≡ n
client_id-injective p m n h =
    show_injective m n (append_cancel (p ++ codes "-") (show m) (show n) h)

after_state :
    (n : ℕ) (g : ClientIdGenerator)
    → g.counter < u64_mod
    → ((after n g).prefix ≡ g.prefix) × ((after n g).counter ≡ (g.counter + n) % u64_mod)
unfolding after next_id add_u64
after_state zero g h = (refl, omega arith)
after_state (suc n) g h = let (p, c) = after_state n (next_id g).0 (omega arith) in (p, omega arith)

-- The ids of two calls of one generator differ, however many calls lie between them, as long as
-- those are fewer than 2^64.
pub next_id_distinct :
    (g : ClientIdGenerator) (n : ℕ)
    → g.counter < u64_mod
    → suc n < u64_mod
    → (next_id g).1 ≢ (next_id (after (suc n) g)).1
unfolding next_id
next_id_distinct g n h room e =
    let (p, c) = after_state (suc n) g h in
    let same_id : client_id g.prefix g.counter ≡ client_id g.prefix (after (suc n) g).counter =
      e ∙ ap (λ q. client_id q (after (suc n) g).counter) p in
    let same_counter = client_id-injective g.prefix g.counter (after (suc n) g).counter same_id in
    absurd (omega arith)
