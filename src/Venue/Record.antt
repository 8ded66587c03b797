-- ===== src/Venue/Record.antt =====
-- A world that keeps the requests which were handed to the HTTP transport.
use wickra_exchange.Prelude.{List, [], ◌∷◌, ◌++◌}
use wickra_exchange.Transport.{HttpRequest}
use wickra_exchange.WsUtil.{WsConnection}
use wickra_exchange.Venue.{World}

unfoldable pub recorded_stream :
    {W C : Type 0} → WsConnection W C → WsConnection (W × List HttpRequest) C
recorded_stream conn = record {
  is_connected = λ w c. conn.is_connected w.0 c;
  recv = λ c w. let (r, w') = conn.recv c w.0 in (r, (w', w.1));
  send = λ c text w. let (r, w') = conn.send c text w.0 in (r, (w', w.1));
}

-- The oldest request comes first.
unfoldable pub recorded : {W C : Type 0} → World W C → World (W × List HttpRequest) C
unfolding recorded_stream
recorded world = record {
  execute =
      λ request w. let (r, w') = world.execute request w.0 in (r, (w', w.1 ++ (request ∷ [])));
  now_ms = λ w. let (t, w') = world.now_ms w.0 in (t, (w', w.1));
  stream = recorded_stream world.stream;
}
