-- ===== src/ClientIds/Tests.antt =====
-- Two ids of a generator with a prefix.
use wickra_exchange.Prelude.{◌≢◌, arith}
use wickra_exchange.Prelude.Text.{codes}
use wickra_exchange.ClientIds.{ClientIdGenerator, next_id}
use wickra_exchange.ClientIds.Unique.{after, next_id_distinct}

abbrev generator : ClientIdGenerator
generator = record { prefix = codes "bot"; counter = 41 }

next_id_distinct_example : (next_id generator).1 ≢ (next_id (after 5 generator)).1
next_id_distinct_example = next_id_distinct generator 4 (omega arith) (omega arith)
