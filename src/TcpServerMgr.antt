-- ===== src/TcpServerMgr.antt =====
-- src/socket/tcp/server/tcpServerMgr.hpp and tcpServerMgr.cpp. A `TcpServer*` is the number that the
-- server was made with; `heap` holds the objects, none of which is ever deleted.
pub mod Bindings
use server.Prelude.{
  ℕ, ◌+◌, ◌%◌, ◌^◌, ◌≡◌, refl, ◌∙◌, Bool, true, false, List, [], Option, none, some, arith, ==_self,
  Outcome, ok, blocks, fault, ◌>>=◌, ◌>>◌, return, get, modify,
}
use server.Prelude.Table.{Table, find, insert, erase, assign, IsAbove, find-erase}
use server.TcpServer.{TcpServer, TcpEvent, new_server}
use server.TcpServer

pub record TcpServerMgr : Type 0 where
  pub servers : Table ℕ
  pub locked : Bool
  pub auto_id : ℕ
  pub heap : Table TcpServer

abbrev pub new_mgr : TcpServerMgr
new_mgr = record { servers = []; locked = false; auto_id = 1; heap = [] }

unfoldable pub lock : TcpServerMgr → Outcome (Unit {0} × TcpServerMgr)
lock m = elim m.locked [ true ↦ blocks | false ↦ ok (tt, record m { locked = true }) ]

unfoldable pub unlock : TcpServerMgr → Outcome (Unit {0} × TcpServerMgr)
unlock m = ok (tt, record m { locked = false })

-- `newServer`; the next number is an `int32_t`, taken before the mutex.
unfoldable pub make_server : TcpServerMgr → Outcome (ℕ × TcpServerMgr)
unfolding lock unlock
make_server = do
  before ← get
  let id = before.auto_id
  modify (λ m. record m { auto_id = (id + 1) % 2 ^ 32; heap = insert id new_server m.heap })
  lock
  modify (λ m. record m { servers = insert id id m.servers })
  unlock
  return id

unfoldable pub get_server : (id : ℕ) → TcpServerMgr → Outcome (Option ℕ × TcpServerMgr)
unfolding lock unlock
get_server id = do lock; m ← get; unlock; return (find id m.servers)

unfoldable pub destroy_server : (id : ℕ) → TcpServerMgr → Outcome (Unit {0} × TcpServerMgr)
unfolding lock unlock
destroy_server id = do lock; modify (λ m. record m { servers = erase id m.servers }); unlock

-- A method of the server that a pointer names.
unfoldable pub on_server {ℓ} :
    {A : Type ℓ}
    → ℕ
    → (TcpServer → Outcome (A × TcpServer))
    → TcpServerMgr
    → Outcome (A × TcpServerMgr)
on_server a f m = elim (find a m.heap) [
  | none ↦ fault
  | some s ↦ elim (f s) [
    | ok (r, t) ↦ ok (r, record m { heap = assign a t m.heap })
    | blocks ↦ blocks
    | fault ↦ fault
  ]
]

-- A function of Lua on the server with a number: what it returns where there is none, and the method.
unfoldable pub by_number :
    {A : Type 0}
    → (id : ℕ) → A
    → (TcpServer → Outcome (A × TcpServer))
    → TcpServerMgr
    → Outcome (A × TcpServerMgr)
unfolding get_server on_server
by_number id missing f = do
  server ← get_server id
  elim server [ none ↦ return missing | some a ↦ on_server a f ]

-- `close`, which holds the mutex while the server closes the connection.
unfoldable pub close : (id fd : ℕ) → TcpServerMgr → Outcome (List TcpEvent × TcpServerMgr)
unfolding lock unlock on_server
close id fd = do
  lock
  m ← get
  elim (find id m.servers) [
    | none ↦ (do unlock; return [])
    | some a ↦ (do events ← on_server a (TcpServer.close fd); unlock; return events)
  ]

-- The manager without a server.
abbrev pub dropped : (id : ℕ) → TcpServerMgr → TcpServerMgr
dropped id m = record m { servers = erase id m.servers }

-- On a manager whose mutex is free and whose map is ordered, destroyServer returns; after it no call
-- finds the server and closing one of its connections does nothing, but the object stays as it was,
-- with its acceptor and its sessions.
destroy_server_keeps :
    (id fd : ℕ) (m : TcpServerMgr)
    → m.locked ≡ false
    → IsAbove 0 m.servers
    → (destroy_server id m ≡ ok (tt, dropped id m))
      × (get_server id (dropped id m) ≡ ok (none, dropped id m))
      × (close id fd (dropped id m) ≡ ok ([], dropped id m))
      × ((dropped id m).heap ≡ m.heap)
unfolding destroy_server get_server close lock unlock
destroy_server_keeps id fd m u w =
    let gone : find id (erase id m.servers) ≡ none =
      find-erase 0 id id m.servers w ∙ (rw (==_self id) refl) in
    (rw (u, ◌>>◌, ◌>>=◌) refl, ground (arith, gone), ground (arith, gone), refl)
