-- ===== src/Throttle/Tests.antt =====
-- A transport that answers from a script, with a clock that stands still.
use wickra_exchange.Prelude.{ℕ, none, List, [], ◌∷◌}
use wickra_exchange.Prelude.Int.{pos}
use wickra_exchange.Prelude.Text.{codes}
use wickra_exchange.Error.{Result, ok, err, timeout}
use wickra_exchange.Transport.{post, HttpRequest, HttpResponse}
use wickra_exchange.Throttle.{World, ThrottledTransport, execute}
use wickra_exchange.Throttle.Repeats.{recording, HasLog, execute_safe}

-- The state is the script that is left; an empty script times out.
abbrev answer : List (Result HttpResponse) → Result HttpResponse × List (Result HttpResponse)
answer [] = (err timeout, [])
answer (r ∷ rest) = (r, rest)

abbrev scripted : World (List (Result HttpResponse)) ℕ
scripted = record {
  send = λ request script. answer script;
  now_ms = λ script. (pos 0, script);
  sleep = λ d script. script;
  jitter = λ script. (1, script);
  weigh = λ request. 1;
  scaled = λ delay r. delay;
  read_seconds = λ raw. none;
}

abbrev transport : ThrottledTransport
transport = record {
  limiter = none;
  backoff = record { base_ms = 100; max_ms = 1000; max_retries = 2 };
}

abbrev order : HttpRequest
order = record { method = post; url = codes "/order"; headers = []; body = none }

abbrev refusal : HttpResponse
refusal = record { status = 429; headers = []; body = [] }

-- A refusal, then a time-out of a POST.
abbrev script : List (Result HttpResponse)
script = ok refusal ∷ err timeout ∷ ok refusal ∷ []

execute_safe_example :
    HasLog scripted 2 post (execute (recording scripted) transport order (script, []))
execute_safe_example = execute_safe scripted transport order script
