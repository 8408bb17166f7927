-- ===== src/TcpClientMgr.antt =====
-- src/socket/tcp/client/tcpClientMgr.hpp and .cpp, and the calls of luaTcpClient.cpp by a client's
-- number. A `TcpClient*` is the number that the client was made with; `heap` holds the objects, none of
-- which is ever deleted.
use server.Prelude.{
  ℕ, ◌+◌, ◌%◌, ◌^◌, ◌≡◌, refl, ◌∙◌, Bool, true, false, [], ◌∷◌, Option, none, some, ==_self,
  Outcome, ok, blocks, fault, ◌>>=◌, ◌>>◌, return, get, modify,
}
use server.Prelude.Table.{Table, find, insert, erase, assign, IsAbove, find-erase}
use server.TcpClient.{
  TcpClient, Reports, new_client, connect_returned, send_returned, connect_tcp_client, close, send,
}

pub record TcpClientMgr : Type 0 where
  pub clients : Table ℕ
  pub locked : Bool
  pub auto_id : ℕ
  pub heap : Table TcpClient

abbrev pub new_mgr : TcpClientMgr
new_mgr = record { clients = []; locked = false; auto_id = 1; heap = [] }

abbrev pub lock : TcpClientMgr → Outcome (Unit {0} × TcpClientMgr)
lock m = elim m.locked [ true ↦ blocks | false ↦ ok (tt, record m { locked = true }) ]

abbrev pub unlock : TcpClientMgr → Outcome (Unit {0} × TcpClientMgr)
unlock m = ok (tt, record m { locked = false })

-- `newClient`; the next number is an `int32_t`, taken before the mutex.
unfoldable pub make_client : TcpClientMgr → Outcome (ℕ × TcpClientMgr)
make_client = do
  before ← get
  let id = before.auto_id
  modify (λ m. record m { auto_id = (id + 1) % 2 ^ 32; heap = insert id new_client m.heap })
  lock
  modify (λ m. record m { clients = insert id id m.clients })
  unlock
  return id

unfoldable pub get_client : (id : ℕ) → TcpClientMgr → Outcome (Option ℕ × TcpClientMgr)
get_client id = do lock; m ← get; unlock; return (find id m.clients)

unfoldable pub destroy_client : (id : ℕ) → TcpClientMgr → Outcome (Unit {0} × TcpClientMgr)
destroy_client id = do lock; modify (λ m. record m { clients = erase id m.clients }); unlock

-- A method of the client that a pointer names; none is an exception.
unfoldable pub on_client :
    ℕ → (TcpClient → Option (Reports × TcpClient)) → TcpClientMgr → Outcome (Reports × TcpClientMgr)
on_client a f m = elim (find a m.heap) [
  | none ↦ fault
  | some c ↦ elim (f c) [
    | none ↦ fault
    | some (reports, d) ↦ ok (reports, record m { heap = assign a d m.heap })
  ]
]

-- A call by number: what it returns where there is no such client, and the method.
unfoldable pub by_number :
    (id : ℕ)
    → Reports
    → (TcpClient → Option (Reports × TcpClient))
    → TcpClientMgr
    → Outcome (Reports × TcpClientMgr)
unfolding get_client on_client
by_number id missing f = do
  client ← get_client id
  elim client [ none ↦ return missing | some a ↦ on_client a f ]

-- `connectTcpClient`, `closeTcpClient` and `sendTcpClient`
unfoldable pub connect_client :
    (id : ℕ) (resolves : Option Bool) → TcpClientMgr → Outcome (Reports × TcpClientMgr)
unfolding by_number
connect_client id resolves =
    by_number id (connect_returned false ∷ []) (connect_tcp_client resolves)

unfoldable pub close_client : (id : ℕ) → TcpClientMgr → Outcome (Reports × TcpClientMgr)
unfolding by_number
close_client id = by_number id [] (λ c. some (close c))

unfoldable pub send_client :
    (id : ℕ) (written : Bool) → TcpClientMgr → Outcome (Reports × TcpClientMgr)
unfolding by_number
send_client id written =
    by_number id (send_returned false ∷ [])
      (λ c. let (ret, d) = send written c in some (send_returned ret ∷ [], d))

-- The manager without a client.
abbrev pub dropped : (id : ℕ) → TcpClientMgr → TcpClientMgr
dropped id m = record {
  clients = erase id m.clients;
  locked = false;
  auto_id = m.auto_id;
  heap = m.heap;
}

-- On a manager whose mutex is free and whose map is ordered, destroyClient returns; after it connect,
-- close and send by the number find no client, but the object stays as it was, with its connection.
destroy_client_keeps :
    (id : ℕ) (resolves : Option Bool) (written : Bool) (m : TcpClientMgr)
    → m.locked ≡ false
    → IsAbove 0 m.clients
    → (destroy_client id m ≡ ok (tt, dropped id m))
      × (connect_client id resolves (dropped id m) ≡ ok (connect_returned false ∷ [], dropped id m))
      × (close_client id (dropped id m) ≡ ok ([], dropped id m))
      × (send_client id written (dropped id m) ≡ ok (send_returned false ∷ [], dropped id m))
      × ((dropped id m).heap ≡ m.heap)
unfolding destroy_client connect_client close_client send_client
destroy_client_keeps id resolves written m u w =
    let gone : find id (erase id m.clients) ≡ none =
      find-erase 0 id id m.clients w ∙ (rw (==_self id) refl) in
    (
      rw (u, ◌>>◌, ◌>>=◌) refl,
      rw (connect_client, by_number, ◌>>=◌, get_client, gone) refl,
      rw (close_client, by_number, ◌>>=◌, get_client, gone) refl,
      rw (send_client, by_number, ◌>>=◌, get_client, gone) refl,
      refl,
    )
