-- ===== src/TcpServer.antt =====
-- src/socket/tcp/server/tcpServer.hpp and .cpp, and src/socket/tcp/session/tcpSession.hpp and .cpp:
-- one server with its sessions. What the network library does on a call is a parameter, and a call of
-- a callback is an event. A `TcpSession` is the number of its socket.
pub mod Sessions
use server.Prelude.{
  ℕ, zero, suc, ◌+◌, ◌-◌, ◌%◌, ◌^◌, Bool, true, false, List, [], ◌∷◌, ◌++◌, Option, none, some, ltb,
  if◌then◌else◌, Outcome, ok, blocks, fault, ◌>>=◌, ◌>>◌, return, get, modify,
}
use server.Prelude.Table.{Table, find, insert, erase}

-- A call of `mOnConnectFunc`, `mOnMsgFunc` or `mOnCloseFunc`.
pub data TcpEvent : Type 0 where
  connected : (fd : ℕ) → TcpEvent
  received : (fd : ℕ) → List ℕ → TcpEvent
  closed : (fd : ℕ) → TcpEvent

pub record RemoteInfo : Type 0 where
  pub host : List ℕ
  pub port : ℕ

-- What the library answers: whether `write_some` sets no error, and the other end of a socket.
pub record Network : Type 0 where
  pub write_some : (socket : ℕ) → List ℕ → Bool
  pub remote_endpoint : (socket : ℕ) → RemoteInfo

-- `has_acceptor` and the three `on_` fields say whether the pointer or the callback is there.
pub record TcpServer : Type 0 where
  pub has_acceptor : Bool
  pub auto_id : ℕ
  pub sessions : Table ℕ
  pub locked : Bool
  pub on_connect : Bool
  pub on_close : Bool
  pub on_message : Bool

abbrev pub new_server : TcpServer
new_server = record {
  has_acceptor = false;
  auto_id = 1;
  sessions = [];
  locked = false;
  on_connect = false;
  on_close = false;
  on_message = false;
}

unfoldable pub lock : TcpServer → Outcome (Unit {0} × TcpServer)
lock s = elim s.locked [ true ↦ blocks | false ↦ ok (tt, record s { locked = true }) ]

unfoldable pub unlock : TcpServer → Outcome (Unit {0} × TcpServer)
unlock s = ok (tt, record s { locked = false })

-- `listen`, where the library takes the endpoint; it throws otherwise.
unfoldable pub listen : TcpServer → Bool × TcpServer
listen s = if s.has_acceptor then (false, s) else (true, record s { has_acceptor = true })

-- `setOnConnectFunc`, `setOnCloseFunc` and `setOnMsgFunc`, as `listenTcpServer` calls them.
abbrev pub set_funcs : TcpServer → TcpServer
set_funcs s = record s { on_connect = true; on_close = true; on_message = true }

-- `close` of the server.
unfoldable pub close_server : TcpServer → Outcome (Unit {0} × TcpServer)
unfolding lock unlock
close_server s = elim s.has_acceptor [
  | false ↦ ok (tt, s)
  | true ↦
      (do
        modify (λ t. record t { has_acceptor = false })
        lock
        modify (λ t. record t { sessions = [] })
        unlock)
        s
]

-- `close` of one connection: the callback comes first, whether or not there is such a connection.
unfoldable pub close : (fd : ℕ) → TcpServer → Outcome (List TcpEvent × TcpServer)
unfolding lock unlock
close fd = do
  before ← get
  let events = if before.on_close then closed fd ∷ [] else []
  lock
  modify (λ s. record s { sessions = erase fd s.sessions })
  unlock
  return events

-- The session under a number, which `send` and `getRemoteInfo` look up with the mutex taken.
unfoldable pub find_session : (fd : ℕ) → TcpServer → Outcome (Option ℕ × TcpServer)
unfolding lock unlock
find_session fd = do lock; s ← get; unlock; return (find fd s.sessions)

-- An `int32_t` made of the number and converted back to `uint64_t`.
abbrev pub as_int32 : ℕ → ℕ
as_int32 fd = if ltb (fd % 2 ^ 32) (2 ^ 31) then fd % 2 ^ 32 else 2 ^ 64 - 2 ^ 32 + fd % 2 ^ 32

-- `getRemoteInfo`, whose parameter is an `int32_t`; none is the null pointer.
unfoldable pub get_remote_info :
    Network → (fd : ℕ) → TcpServer → Outcome (Option RemoteInfo × TcpServer)
unfolding find_session
get_remote_info network fd = do
  session ← find_session (as_int32 fd)
  elim session [ none ↦ return none | some socket ↦ return (some (network.remote_endpoint socket)) ]

-- `getRemoteInfoTcpServer` on a server that is there: it reads through the pointer without a test.
unfoldable pub get_remote_info_tcp_server :
    Network → (fd : ℕ) → TcpServer → Outcome (RemoteInfo × TcpServer)
unfolding get_remote_info
get_remote_info_tcp_server network fd = do
  info ← get_remote_info network fd
  elim info [ none ↦ λ s. fault | some remote ↦ return remote ]

-- `send`, with `TcpSession::send`: on an error the session closes itself, by `TcpServerMgr::close` of
-- this server.
unfoldable pub send :
    Network → (fd : ℕ) → List ℕ → TcpServer → Outcome ((Bool × List TcpEvent) × TcpServer)
unfolding find_session close
send network fd text = do
  session ← find_session fd
  elim session [
    | none ↦ return (false, [])
    | some socket ↦ elim (network.write_some socket text) [
      | true ↦ return (true, [])
      | false ↦ (do events ← close fd; return (false, events))
    ]
  ]

-- `onAcceptor` without an error.
unfoldable pub on_acceptor : (socket : ℕ) → TcpServer → Outcome (List TcpEvent × TcpServer)
unfolding lock unlock
on_acceptor socket = do
  lock
  s ← get
  let fd = s.auto_id
  modify (λ t. record t { auto_id = (fd + 1) % 2 ^ 64; sessions = insert fd socket t.sessions })
  unlock
  return (if s.on_connect then connected fd ∷ [] else [])

-- `TcpSession::onMsg` of the session with this number, on a server that is registered: what is
-- reported, and whether the session reads on. After an error it does nothing more.
unfoldable pub on_msg :
    (fd : ℕ) (error : Bool) → List ℕ → TcpServer → (List TcpEvent × Bool) × TcpServer
on_msg fd true text s = (([], false), s)
on_msg fd false [] s = (([], true), s)
on_msg fd false (b ∷ text) s = ((if s.on_message then received fd (b ∷ text) ∷ [] else [], true), s)
