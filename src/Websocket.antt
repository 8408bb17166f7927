-- ===== src/Websocket.antt =====
-- src/websocket/server/websocketServer.hpp and websocketServer.cpp. A `WebSocket*` is a number; what
-- the library does on a call is a parameter, and a call of a callback is an event.
pub mod Steps
pub mod Phases
pub mod Conversations
pub mod Callbacks
pub mod Race
use server.Prelude.{
  ℕ, zero, suc, ◌+◌, ◌%◌, ◌^◌, Bool, true, false, List, [], ◌∷◌, ◌++◌, Option, none, some,
  if◌then◌else◌, Outcome, ok, blocks, fault, ◌>>=◌, ◌>>◌, return, get, modify,
}
use server.Prelude.Table.{Table, find, insert, erase}

-- The message types that `onServerMsg` tells apart.
pub data SocketMsg : Type 0 where
  opening : SocketMsg
  closing : SocketMsg
  message : List ℕ → SocketMsg
  other : SocketMsg

-- A call of `mOnConnetionFunc`, `mOnMsgFunc` or `mOnCloseFunc`.
pub data Event : Type 0 where
  connected : (fd : ℕ) → Event
  received : (fd : ℕ) → List ℕ → Event
  closed : (fd : ℕ) → Event

-- `has_server` and the three `on_` fields say whether the pointer or the callback is there.
pub record WebsocketServer : Type 0 where
  pub has_server : Bool
  pub auto_id : ℕ
  pub sessions : Table ℕ
  pub reverse_sessions : Table ℕ
  pub locked : Bool
  pub on_connection : Bool
  pub on_msg : Bool
  pub on_close : Bool

abbrev pub new_server : WebsocketServer
new_server = record {
  has_server = false;
  auto_id = 1;
  sessions = [];
  reverse_sessions = [];
  locked = false;
  on_connection = false;
  on_msg = false;
  on_close = false;
}

abbrev pub set_on_connect_func : Bool → WebsocketServer → WebsocketServer
set_on_connect_func func s = record s { on_connection = func }

abbrev pub set_on_msg_func : Bool → WebsocketServer → WebsocketServer
set_on_msg_func func s = record s { on_msg = func }

abbrev pub set_on_close_func : Bool → WebsocketServer → WebsocketServer
set_on_close_func func s = record s { on_close = func }

unfoldable pub lock : WebsocketServer → Outcome (Unit {0} × WebsocketServer)
lock s = elim s.locked [ true ↦ blocks | false ↦ ok (tt, record s { locked = true }) ]

unfoldable pub unlock : WebsocketServer → Outcome (Unit {0} × WebsocketServer)
unlock s = ok (tt, record s { locked = false })

-- `listen`, which the library answers with `listens`. A server that does not listen stays.
unfoldable pub listen : (listens : Bool) → WebsocketServer → Bool × WebsocketServer
listen listens s = if s.has_server then (false, s) else (listens, record s { has_server = true })

-- `send`; the library answers the session's own `send` with `deliver`.
unfoldable pub send :
    (deliver : ℕ → List ℕ → Bool) (fd : ℕ)
    → List ℕ
    → WebsocketServer
    → Outcome (Bool × WebsocketServer)
unfolding lock unlock
send deliver fd text = do
  lock
  s ← get
  unlock
  elim (find fd s.sessions) [ none ↦ return false | some socket ↦ return (deliver socket text) ]

-- `close` of one connection: the session whose `close` it calls, if any.
unfoldable pub close_fd : ℕ → WebsocketServer → Outcome (Option ℕ × WebsocketServer)
unfolding lock unlock
close_fd fd = do lock; s ← get; unlock; return (find fd s.sessions)

-- `mAutoId++`, which is done before the mutex is taken.
unfoldable pub next_fd : WebsocketServer → Outcome (ℕ × WebsocketServer)
next_fd s = ok (s.auto_id, record s { auto_id = (s.auto_id + 1) % 2 ^ 64 })

-- The part of the opening that has the mutex.
unfoldable pub join : (fd socket : ℕ) → WebsocketServer → Outcome (Unit {0} × WebsocketServer)
unfolding lock unlock
join fd socket = do
  lock
  modify (λ s. record s {
    sessions = insert fd socket s.sessions;
    reverse_sessions = insert socket fd s.reverse_sessions;
  })
  unlock

unfoldable pub on_open : ℕ → WebsocketServer → Outcome (List Event × WebsocketServer)
unfolding next_fd join
on_open socket = do
  fd ← next_fd
  join fd socket
  s ← get
  return (if s.on_connection then connected fd ∷ [] else [])

-- The session's entries go away.
abbrev pub forget : (socket fd : ℕ) → WebsocketServer → WebsocketServer
forget socket fd s = record s {
  sessions = erase fd s.sessions;
  reverse_sessions = erase socket s.reverse_sessions;
}

unfoldable pub on_closed : ℕ → WebsocketServer → Outcome (List Event × WebsocketServer)
unfolding lock unlock
on_closed socket = do
  lock
  s ← get
  elim (find socket s.reverse_sessions) [
    | none ↦ (do unlock; return [])
    | some fd ↦ do
      modify (forget socket fd)
      unlock
      return (if s.on_close then closed fd ∷ [] else [])
  ]

unfoldable pub on_message : ℕ → List ℕ → WebsocketServer → Outcome (List Event × WebsocketServer)
unfolding lock unlock
on_message socket text = do
  lock
  s ← get
  unlock
  elim (find socket s.reverse_sessions) [
    | none ↦ return []
    | some fd ↦ return (if s.on_msg then received fd text ∷ [] else [])
  ]

-- `onServerMsg`
unfoldable pub on_server_msg :
    ℕ → SocketMsg → WebsocketServer → Outcome (List Event × WebsocketServer)
on_server_msg socket opening = on_open socket
on_server_msg socket closing = on_closed socket
on_server_msg socket (message text) = on_message socket text
on_server_msg socket other = return []

-- The library calls `onServerMsg` for one message after another.
unfoldable pub serve :
    List (ℕ × SocketMsg) → WebsocketServer → Outcome (List Event × WebsocketServer)
serve [] = return []
serve ((socket, msg) ∷ inputs) = do
  events ← on_server_msg socket msg
  later ← serve inputs
  return (events ++ later)

-- `close` of the server: `stopping` is what the library still reports while it stops.
unfoldable pub close_server :
    List (ℕ × SocketMsg) → WebsocketServer → Outcome (List Event × WebsocketServer)
close_server stopping s = elim s.has_server [
  | false ↦ ok ([], s)
  | true ↦
      (do
        modify (λ t. set_on_msg_func false (set_on_connect_func false t))
        events ← serve stopping
        modify (λ t. record t {
          has_server = false;
          sessions = [];
          reverse_sessions = [];
          auto_id = 1;
        })
        return events)
        s
]
