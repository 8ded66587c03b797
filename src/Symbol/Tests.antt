-- ===== src/Symbol/Tests.antt =====
-- A symbol, printed and parsed.
use wickra_exchange.Prelude.{◌≡◌, arith}
use wickra_exchange.Prelude.Text.{codes, to_ascii_uppercase, upper_byte}
use wickra_exchange.Error.{ok}
use wickra_exchange.Symbol.{new, display, from_str}
use wickra_exchange.Symbol.RoundTrip.{from_str-display}

from_str-display_example :
    from_str (display (new (codes "btc") (codes "usdt"))) ≡ ok (new (codes "btc") (codes "usdt"))
unfolding to_ascii_uppercase upper_byte
from_str-display_example =
    from_str-display (codes "btc") (codes "usdt") (ground arith) (ground arith) (ground arith)
