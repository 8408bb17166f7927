-- ===== src/WebsocketServerMgr.antt =====
-- src/websocket/server/websocketServerMgr.hpp and .cpp, and the functions of luaWebsocketServer.cpp. A
-- `WebsocketServer*` is the number that the server was made with; `heap` holds the objects, none of
-- which is ever deleted. What the library does on a call is a parameter. The numbers that Lua passes are
-- integers already.
pub mod Bindings
use server.Prelude.{
  ℕ, ◌+◌, ◌%◌, ◌^◌, Bool, true, false, List, [], Option, none, some, Outcome, ok, blocks, fault,
  ◌>>=◌, ◌>>◌, return, get, modify,
}
use server.Prelude.Table.{Table, find, insert, erase, assign}
use server.Websocket.{WebsocketServer, new_server}

pub record WebsocketServerMgr : Type 0 where
  pub servers : Table ℕ
  pub locked : Bool
  pub auto_id : ℕ
  pub heap : Table WebsocketServer

abbrev pub new_mgr : WebsocketServerMgr
new_mgr = record { servers = []; locked = false; auto_id = 1; heap = [] }

unfoldable pub lock : WebsocketServerMgr → Outcome (Unit {0} × WebsocketServerMgr)
lock m = elim m.locked [ true ↦ blocks | false ↦ ok (tt, record m { locked = true }) ]

unfoldable pub unlock : WebsocketServerMgr → Outcome (Unit {0} × WebsocketServerMgr)
unlock m = ok (tt, record m { locked = false })

-- `newServer`; the next number is an `int32_t`, taken before the mutex.
unfoldable pub make_server : WebsocketServerMgr → Outcome (ℕ × WebsocketServerMgr)
unfolding lock unlock
make_server = do
  before ← get
  let id = before.auto_id
  modify (λ m. record m { auto_id = (id + 1) % 2 ^ 32; heap = insert id new_server m.heap })
  lock
  modify (λ m. record m { servers = insert id id m.servers })
  unlock
  return id

-- `getServer`; none is the null pointer.
unfoldable pub get_server : (id : ℕ) → WebsocketServerMgr → Outcome (Option ℕ × WebsocketServerMgr)
unfolding lock unlock
get_server id = do lock; m ← get; unlock; return (find id m.servers)

unfoldable pub destroy_server :
    (id : ℕ) → WebsocketServerMgr → Outcome (Unit {0} × WebsocketServerMgr)
unfolding lock unlock
destroy_server id = do lock; modify (λ m. record m { servers = erase id m.servers }); unlock

module _ {A : Type 0} where
  -- A method of the server that a pointer names.
  unfoldable pub on_server :
      ℕ
      → (WebsocketServer → Outcome (A × WebsocketServer))
      → WebsocketServerMgr
      → Outcome (A × WebsocketServerMgr)
  on_server a f m = elim (find a m.heap) [
    | none ↦ fault
    | some s ↦ elim (f s) [
      | ok (r, t) ↦ ok (r, record m { heap = assign a t m.heap })
      | blocks ↦ blocks
      | fault ↦ fault
    ]
  ]

  -- A function of Lua on the server with a number: what it returns where there is none, and the method.
  unfoldable pub by_number :
      (id : ℕ)
      → A
      → (WebsocketServer → Outcome (A × WebsocketServer))
      → WebsocketServerMgr
      → Outcome (A × WebsocketServerMgr)
  unfolding get_server on_server
  by_number id missing f = do
    server ← get_server id
    elim server [ none ↦ return missing | some a ↦ on_server a f ]
