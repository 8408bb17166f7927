-- ===== src/Tests/Sockets.antt =====
-- The theorems on the websocket server at concrete inputs.
use server.Prelude.{
  ℕ, ◌≡◌, ◌≢◌, refl, true, false, List, [], ◌∷◌, length, Outcome, ok, blocks, some, ◌≤◌, ◌<◌, ◌⊎◌,
  ◌>>◌, arith,
}
use server.Prelude.Table.{find}
use server.Websocket.{
  WebsocketServer, new_server, Event, SocketMsg, opening, closing, message, connected, received,
  closed, serve, send, on_message, join, lock, unlock, on_server_msg, on_open, on_closed, next_fd,
}
use server.Prelude.Table.{insert, erase}
use server.Websocket.Steps.{IsPaired}
use server.Websocket.Conversations.{IsServing, after_all}
use server.Websocket.Phases.{follows, phase_of}
use server.Websocket.Callbacks.{serve_reporting, serve_reporting_lem}
use server.Msg.{ServiceMsg}
use server.Server.{Server}
use server.Tests.Data.{echo_server, echo_server-IsSound}
use server.Websocket.Race.{joined_twice, join_twice}

-- A server that listens, with its three callbacks.
abbrev pub serving : WebsocketServer
serving = record new_server {
  has_server = true;
  on_connection = true;
  on_msg = true;
  on_close = true;
}

serving-IsPaired : IsPaired serving
unfolding find
serving-IsPaired = record {
  free = refl;
  ordered = tt;
  reverse_ordered = tt;
  used = tt;
  there = λ fd socket e. cc;
  back = λ socket fd e. cc;
}

serving-IsServing : IsServing (λ q. false) serving
unfolding find
serving-IsServing = record {
  paired = serving-IsPaired;
  calls = (refl, refl, refl);
  known = λ q. refl;
}

-- Two sockets, of which the first closes and is opened again.
abbrev pub inputs : List (ℕ × SocketMsg)
inputs =
    (70, opening) ∷ (80, opening) ∷ (80, message (104 ∷ [])) ∷ (70, closing) ∷ (70, opening) ∷ []

abbrev pub reported : Outcome (List Event × WebsocketServer) → List Event
reported (ok (events, s)) = events
reported _ = []

inputs_served :
    reported (serve inputs serving)
    ≡ connected 1 ∷ connected 2 ∷ received 2 (104 ∷ []) ∷ closed 1 ∷ connected 3 ∷ []
unfolding serve on_server_msg on_open on_closed on_message next_fd join lock unlock find insert
    erase
inputs_served = refl

-- What the callbacks write does not matter here.
abbrev left : Event → ServiceMsg → ServiceMsg
left event m = m

serve_reporting_lem_example :
    (events : List Event) × (u : WebsocketServer) × (serve inputs serving ≡ ok (events, u))
    × IsServing (after_all inputs (λ q. false)) u
    × ((fd : ℕ) → follows fd events (phase_of serving fd) ≡ some (phase_of u fd))
    × (((length events ≤ 1)
          × (t : Server) × (serve_reporting 1 left inputs
                (record { socket = serving; services = echo_server })
              ≡ ok (events, record { socket = u; services = t })))
        ⊎ ((1 < length events)
            × (serve_reporting 1 left inputs (record { socket = serving; services = echo_server })
                ≡ blocks)))
serve_reporting_lem_example =
    serve_reporting_lem 1 left (λ q. false) inputs serving echo_server serving-IsServing
      (refl, (refl, (refl, tt))) (omega arith) echo_server-IsSound refl

abbrev pub first_socket : ℕ
first_socket = 70

abbrev pub second_socket : ℕ
second_socket = 80

different : first_socket ≢ second_socket
different e = absurd (omega arith)

join_twice_example :
    ((do join 1 70; join 1 80) serving ≡ ok (tt, joined_twice 1 70 80 serving))
    × (on_message 80 (104 ∷ []) (joined_twice 1 70 80 serving)
        ≡ ok (received 1 (104 ∷ []) ∷ [], joined_twice 1 70 80 serving))
    × (send (λ socket text. true) 1 (104 ∷ []) (joined_twice 1 70 80 serving)
        ≡ ok (true, joined_twice 1 70 80 serving))
unfolding find
join_twice_example =
    join_twice (λ socket text. true) 1 70 80 (104 ∷ []) serving serving-IsPaired refl different refl
      refl refl
