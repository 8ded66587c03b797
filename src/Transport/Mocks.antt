-- ===== src/Transport/Mocks.antt =====
-- The scripted transports, crates/wickra-exchange-core/src/transport.rs: a queue of responses, and
-- scripted connections. A connection is a number, its place in the list of those that were made.
use wickra_exchange.Prelude.{
  ℕ, zero, suc, Bool, true, false, not, ◌||◌, Option, none, some, List, [], ◌∷◌, ◌++◌, length,
}
use wickra_exchange.Prelude.Text.{Text, codes}
use wickra_exchange.Error.{Error, Result, ok, err, network, not_connected}
use wickra_exchange.Transport.{HttpRequest, HttpResponse, new_response}

pub record MockHttpTransport : Type 0 where
  pub responses : List (Result HttpResponse)
  pub requests : List HttpRequest

unfoldable pub push_response : MockHttpTransport → HttpResponse → MockHttpTransport
push_response m response = record m { responses = m.responses ++ (ok response ∷ []) }

unfoldable pub push_json : MockHttpTransport → ℕ → Text → MockHttpTransport
unfolding push_response new_response
push_json m status body = push_response m (new_response status body)

unfoldable pub push_error : MockHttpTransport → Error → MockHttpTransport
push_error m error = record m { responses = m.responses ++ (err error ∷ []) }

unfoldable pub execute : MockHttpTransport → HttpRequest → Result HttpResponse × MockHttpTransport
execute m request =
    let asked = m.requests ++ (request ∷ []) in
    elim m.responses [
      | [] ↦ (err (network (codes "mock: no queued response")), record m { requests = asked })
      | response ∷ left ↦ (response, record { responses = left; requests = asked })
    ]

pub data ScriptedConnection : Type 0 where
  opened : List (Result (Option Text)) → ScriptedConnection
  refused : ScriptedConnection
  open_but_unsendable : ScriptedConnection

pub record MockWsConnection : Type 0 where
  pub incoming : List (Result (Option Text))
  pub closed : Bool
  pub unsendable : Bool

-- `connections` are those that were made, and `sent` what was sent on any of them.
pub record MockWsTransport : Type 0 where
  pub scripts : List ScriptedConnection
  pub connected_urls : List Text
  pub sent : List Text
  pub connections : List MockWsConnection

unfoldable pub push_connection : MockWsTransport → List (Result (Option Text)) → MockWsTransport
push_connection m frames = record m { scripts = m.scripts ++ (opened frames ∷ []) }

unfoldable pub push_refused_connection : MockWsTransport → MockWsTransport
push_refused_connection m = record m { scripts = m.scripts ++ (refused ∷ []) }

unfoldable pub push_unsendable_connection : MockWsTransport → MockWsTransport
push_unsendable_connection m = record m { scripts = m.scripts ++ (open_but_unsendable ∷ []) }

-- A new connection behind the others, with its handle.
abbrev pub add_connection :
    MockWsTransport → List (Result (Option Text)) → Bool → Result ℕ × MockWsTransport
add_connection m frames unsendable =
    let fresh : MockWsConnection = record {
      incoming = frames;
      closed = false;
      unsendable = unsendable;
    } in
    (ok (length m.connections), record m { connections = m.connections ++ (fresh ∷ []) })

abbrev pub next_script : List ScriptedConnection → ScriptedConnection × List ScriptedConnection
next_script [] = (opened [], [])
next_script (script ∷ left) = (script, left)

unfoldable pub connect : MockWsTransport → Text → Result ℕ × MockWsTransport
connect m url =
    let (script, left) = next_script m.scripts in
    let asked = record m { scripts = left; connected_urls = m.connected_urls ++ (url ∷ []) } in
    elim script [
      | opened frames ↦ add_connection asked frames false
      | open_but_unsendable ↦ add_connection asked [] true
      | refused ↦ (err (network (codes "mock: connection refused")), asked)
    ]

-- The connection of a handle, and another in its place.
abbrev pub connection_at : ℕ → List MockWsConnection → Option MockWsConnection
connection_at i [] = none
connection_at zero (c ∷ cs) = some c
connection_at (suc i) (c ∷ cs) = connection_at i cs

abbrev pub set_connection : ℕ → MockWsConnection → List MockWsConnection → List MockWsConnection
set_connection i new [] = []
set_connection zero new (c ∷ cs) = new ∷ cs
set_connection (suc i) new (c ∷ cs) = c ∷ set_connection i new cs

unfoldable pub send : ℕ → Text → MockWsTransport → Result (Unit {0}) × MockWsTransport
send i text m = elim (connection_at i m.connections) [
  | none ↦ (err not_connected, m)
  | some c ↦ elim (c.closed || c.unsendable) [
    | true ↦ (err not_connected, m)
    | false ↦ (ok tt, record m { sent = m.sent ++ (text ∷ []) })
  ]
]

-- An `Ok(None)` in the script is a peer close; with no frame left the stream is open and silent.
unfoldable pub receive : MockWsConnection → Result (Option Text) × MockWsConnection
receive c = elim c.incoming [
  | [] ↦ (ok none, c)
  | frame ∷ left ↦ elim frame [
    | err e ↦ (err e, record c { incoming = left })
    | ok o ↦ elim o [
      | none ↦ (ok none, record c { incoming = left; closed = true })
      | some text ↦ (ok (some text), record c { incoming = left })
    ]
  ]
]

unfoldable pub recv : ℕ → MockWsTransport → Result (Option Text) × MockWsTransport
unfolding receive
recv i m = elim (connection_at i m.connections) [
  | none ↦ (ok none, m)
  | some c ↦
      let (frame, left) = receive c in
      (frame, record m { connections = set_connection i left m.connections })
]

unfoldable pub is_connected : MockWsTransport → ℕ → Bool
is_connected m i = elim (connection_at i m.connections) [ none ↦ false | some c ↦ not c.closed ]

unfoldable pub close : ℕ → MockWsTransport → Result (Unit {0}) × MockWsTransport
close i m = elim (connection_at i m.connections) [
  | none ↦ (ok tt, m)
  | some c ↦ (
    ok tt,
    record m { connections = set_connection i (record c { closed = true }) m.connections },
  )
]
