-- ===== src/Websocket/Conversations.antt =====
-- What the callbacks see of one connection.
use server.Prelude.{
  ℕ, ◌+◌, ◌%◌, ◌^◌, ◌≤◌, ◌<◌, ◌≡◌, refl, ◌∙◌, Bool, true, false, not, ◌&&◌, ◌||◌, List, [], ◌∷◌,
  ◌++◌, Option, none, some, Outcome, ok, ◌>>=◌, arith, ◌==◌, length,
}
use server.Prelude.Table.{find, find-insert, find-erase}
use server.Websocket.{
  WebsocketServer, Event, connected, received, closed, SocketMsg, opening, closing, message, other,
  on_open, on_closed, on_message, on_server_msg, serve, forget,
}
use server.Websocket.Steps.{
  IsPaired, joined, on_open_lem, on_closed-none, on_closed-some, on_message-none, on_message-some,
  joined-IsPaired, forget-IsPaired, next-fresh,
}
use server.Websocket.Phases.{
  follows, phase_of, open_phase, close_phase, message_phase, used_before, follows-append,
}

-- The sockets that are open after a message.
abbrev pub after : ℕ → SocketMsg → (ℕ → Bool) → ℕ → Bool
after p opening f q = p == q || f q
after p closing f q = not (p == q) && f q
after p (message text) f q = f q
after p other f q = f q

-- The library opens no socket that is open.
abbrev pub IsProper : (ℕ → Bool) → List (ℕ × SocketMsg) → Type 0
IsProper f [] = Unit
IsProper f ((p, opening) ∷ inputs) = (f p ≡ false) × IsProper (after p opening f) inputs
IsProper f ((p, msg) ∷ inputs) = IsProper (after p msg f) inputs

abbrev pub is_some {ℓ} : {A : Type ℓ} → Option A → Bool
is_some none = false
is_some (some a) = true

-- A server with its three callbacks, for which exactly the sockets of `f` are open.
pub record IsServing (f : ℕ → Bool) (s : WebsocketServer) : Type 0 where
  pub paired : IsPaired s
  pub calls : (s.on_connection ≡ true) × (s.on_msg ≡ true) × (s.on_close ≡ true)
  pub known : (q : ℕ) → f q ≡ is_some (find q s.reverse_sessions)

-- What one message or more do.
abbrev pub Serves :
    (f : ℕ → Bool) (s : WebsocketServer) (bound : ℕ)
    → Outcome (List Event × WebsocketServer)
    → Type 0
Serves f s bound result =
    (events : List Event) × (t : WebsocketServer) × (result ≡ ok (events, t))
    × IsServing f t
    × (t.auto_id ≤ s.auto_id + bound)
    × ((fd : ℕ) → follows fd events (phase_of s fd) ≡ some (phase_of t fd))

open-Serves :
    (f : ℕ → Bool) (socket : ℕ) (s : WebsocketServer)
    → IsServing f s
    → f socket ≡ false
    → s.auto_id + 1 < 2 ^ 64
    → Serves (after socket opening f) s 1 (on_open socket s)
open-Serves f socket s w h b =
    let bound : (s.auto_id + 1) % 2 ^ 64 ≡ s.auto_id + 1 = ground arith in
    let new : find socket s.reverse_sessions ≡ none = ground (arith, w.known socket) in
    (
      connected s.auto_id ∷ [],
      joined socket s,
      on_open_lem socket s w.paired.free ∙ (rw w.calls.0 refl),
      record {
        paired = joined-IsPaired socket s w.paired new b;
        calls = w.calls;
        known =
            λ q. ground (arith, find-insert socket q s.auto_id s.reverse_sessions new, w.known q);
      },
      ground arith,
      λ fd. open_phase fd socket s (next-fresh s w.paired) bound,
    )

-- A message that changes and reports nothing.
idle-Serves :
    (f g : ℕ → Bool) (s : WebsocketServer) (result : Outcome (List Event × WebsocketServer))
    → IsServing f s
    → result ≡ ok ([], s)
    → ((q : ℕ) → g q ≡ f q)
    → Serves g s 1 result
unfolding follows
idle-Serves f g s result w e same = (
  [],
  s,
  e,
  record { paired = w.paired; calls = w.calls; known = λ q. same q ∙ w.known q },
  omega arith,
  λ fd. refl,
)

close-Serves :
    (f : ℕ → Bool) (socket : ℕ) (found : Option ℕ) (s : WebsocketServer)
    → IsServing f s
    → find socket s.reverse_sessions ≡ found
    → Serves (after socket closing f) s 1 (on_closed socket s)
close-Serves f socket none s w h =
    idle-Serves f (after socket closing f) s (on_closed socket s) w
      (on_closed-none socket s w.paired.free h) (λ q. ground (arith, w.known socket, h))
close-Serves f socket (some gd) s w h =
    let there = w.paired.back socket gd h in
    (
      closed gd ∷ [],
      forget socket gd s,
      on_closed-some socket gd s w.paired.free h ∙ (rw w.calls.2 refl),
      record {
        paired = forget-IsPaired socket gd s w.paired h;
        calls = w.calls;
        known = λ q.
            ground
              (arith, find-erase 0 socket q s.reverse_sessions w.paired.reverse_ordered, w.known q);
      },
      omega arith,
      λ fd. close_phase fd gd socket s w.paired there (used_before gd socket s w.paired there),
    )

message-Serves :
    (f : ℕ → Bool) (socket : ℕ) (text : List ℕ) (found : Option ℕ) (s : WebsocketServer)
    → IsServing f s
    → find socket s.reverse_sessions ≡ found
    → Serves f s 1 (on_message socket text s)
message-Serves f socket text none s w h =
    idle-Serves f f s (on_message socket text s) w (on_message-none socket text s w.paired.free h)
      (λ q. refl)
message-Serves f socket text (some gd) s w h =
    let there = w.paired.back socket gd h in
    (
      received gd text ∷ [],
      s,
      on_message-some socket gd text s w.paired.free h ∙ (rw w.calls.1 refl),
      w,
      omega arith,
      λ fd. message_phase fd gd socket text s there (used_before gd socket s w.paired there),
    )

-- The sockets that are open after some messages.
abbrev pub after_all : List (ℕ × SocketMsg) → (ℕ → Bool) → ℕ → Bool
after_all [] f = f
after_all ((p, msg) ∷ inputs) f = after_all inputs (after p msg f)

server_msg-Serves :
    (f : ℕ → Bool) (p : ℕ) (msg : SocketMsg) (inputs : List (ℕ × SocketMsg)) (s : WebsocketServer)
    → IsServing f s
    → IsProper f ((p, msg) ∷ inputs)
    → s.auto_id + 1 < 2 ^ 64
    → Serves (after p msg f) s 1 (on_server_msg p msg s) × IsProper (after p msg f) inputs
unfolding on_server_msg
server_msg-Serves f p opening inputs s w h b = (open-Serves f p s w h.0 b, h.1)
server_msg-Serves f p closing inputs s w h b =
    (close-Serves f p (find p s.reverse_sessions) s w refl, h)
server_msg-Serves f p (message text) inputs s w h b =
    (message-Serves f p text (find p s.reverse_sessions) s w refl, h)
server_msg-Serves f p other inputs s w h b =
    (idle-Serves f f s (on_server_msg p other s) w refl (λ q. refl), h)

-- The library calls a server with its three callbacks, whose maps are inverse to each other, with any
-- messages for any sockets, as long as it opens no socket that is open and the numbers last. Then
-- every call returns, the maps stay inverse to each other, and the callbacks report each connection
-- number by the rule: once connected, if it is the number of a new connection, then what it receives,
-- then once its end; so a number is never used again, and is in the map exactly while it lasts.
pub serve_conversations :
    (f : ℕ → Bool) (inputs : List (ℕ × SocketMsg)) (s : WebsocketServer)
    → IsServing f s
    → IsProper f inputs
    → s.auto_id + length inputs < 2 ^ 64
    → Serves (after_all inputs f) s (length inputs) (serve inputs s)
unfolding serve follows
serve_conversations f [] s w h b = ([], s, refl, w, omega arith, λ fd. refl)
serve_conversations f ((p, msg) ∷ inputs) s w h b =
    let (first, proper) = server_msg-Serves f p msg inputs s w h (omega arith) in
    let (events, t, e, w', less, phases) = first in
    let (later, u, e', w'', less', phases') =
      serve_conversations (after p msg f) inputs t w' proper (omega arith) in
    (
      events ++ later,
      u,
      rw (e, ◌>>=◌) (rw (e', ◌>>=◌) refl),
      w'',
      omega arith,
      λ fd. follows-append fd events later (phase_of s fd) (phase_of t fd) (phases fd) ∙ phases' fd,
    )
