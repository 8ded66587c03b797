-- ===== src/ClientIds.antt =====
-- Client order ids, crates/wickra-exchange-core/src/idempotency.rs. The counter is one atomic
-- `fetch_add`, so that any interleaving of calls is a sequence of them.
pub mod Unique
mod Tests
use wickra_exchange.Prelude.{ℕ, List, [], ◌∷◌, ◌++◌}
use wickra_exchange.Prelude.Word.{add_u64}
use wickra_exchange.Prelude.Text.{Text, codes, show}

pub record ClientIdGenerator : Type 0 where
  pub prefix : Text
  pub counter : ℕ

unfoldable pub with_seed : Text → ℕ → ClientIdGenerator
with_seed prefix seed = record { prefix = prefix; counter = seed }

unfoldable pub new : Text → ClientIdGenerator
unfolding with_seed
new prefix = with_seed prefix 0

-- `format!("{}-{n}", self.prefix)`
abbrev pub client_id : Text → ℕ → Text
client_id prefix n = prefix ++ codes "-" ++ show n

unfoldable pub next_id : ClientIdGenerator → ClientIdGenerator × Text
next_id g = (record g { counter = add_u64 g.counter 1 }, client_id g.prefix g.counter)
