-- ===== src/Registry/TcpServers.antt =====
-- src/socket/tcp/server/tcpServerMgr.cpp: the manager of the TCP servers is a registry.
use server.Prelude.{
  ℕ, ◌+◌, ◌%◌, ◌^◌, ◌<◌, ◌≡◌, refl, sym, ap, ◌∙◌, false, none, some, inl, inr, arith, Option-cases,
  List, Outcome, ok, blocks, fault, ◌>>=◌,
}
use server.Prelude.Table.{find, assign}
use server.TcpServer.{TcpServer, new_server}
use server.TcpServerMgr.{
  TcpServerMgr, make_server, get_server, destroy_server, on_server, by_number, lock, unlock,
}
use server.Registry.{View, Registry, same_view, Agrees, put, grown, write_view, call_view}
use server.Registry.Calls.{Call, makes, run, replay, run-Agrees}
use server.Registry.Links.{IsLinked, object_of, insert_lem, erase_lem, assign_lem}

-- The mutex is free, and the map and the objects belong together.
abbrev pub IsValid : TcpServerMgr → Type 0
IsValid m = (m.locked ≡ false) × IsLinked m.auto_id m.servers m.heap

abbrev pub view : TcpServerMgr → View TcpServer
view m = record { next = m.auto_id; object = object_of m.servers m.heap }

module _ (m : TcpServerMgr) (w : IsValid m) where
  pub make_lem :
      m.auto_id + 1 < 2 ^ 31
      → Agrees IsValid view (make_server m) (ok (m.auto_id, grown new_server (view m)))
  unfolding make_server lock unlock
  make_lem b =
      let bound : (m.auto_id + 1) % 2 ^ 32 ≡ m.auto_id + 1 = ground arith in
      let (inside, objects) = insert_lem m.auto_id new_server m.servers m.heap w.1 in
      rw (w.0, bound) (refl, (refl, inside), same_view (m.auto_id + 1) _ _ objects)

  pub destroy_lem :
      (k : ℕ) → Agrees IsValid view (destroy_server k m) (ok (tt, put k none (view m)))
  unfolding destroy_server lock unlock
  destroy_lem k =
      let (inside, objects) = erase_lem k m.auto_id m.servers m.heap w.1 in
      rw w.0 (refl, (refl, inside), same_view m.auto_id _ _ objects)

  get_server_lem : (k : ℕ) → get_server k m ≡ ok (find k m.servers, m)
  unfolding get_server lock unlock
  get_server_lem k = rw w.0 refl

  -- The object is written back as the method left it.
  stored :
      {A : Type 0} (k : ℕ) (x : Outcome (A × TcpServer))
      → find k m.servers ≡ some k
      → Agrees IsValid view
          (elim x [
            | ok (r, t) ↦ ok (r, record m { heap = assign k t m.heap })
            | blocks ↦ blocks
            | fault ↦ fault
          ])
          (write_view k (view m) x)
  stored k (ok (r, t)) there =
      let (inside, objects) = assign_lem k m.auto_id t m.servers m.heap w.1 there in
      (refl, (w.0, inside), same_view m.auto_id _ _ objects)
  stored k blocks there = tt
  stored k fault there = tt

  pub by_number_lem :
      {A : Type 0} (k : ℕ) (missing : A) (f : TcpServer → Outcome (A × TcpServer))
      → Agrees IsValid view (by_number k missing f m) (call_view k missing f (view m))
  unfolding by_number on_server
  by_number_lem k missing f = elim (Option-cases (find k m.servers)) [
    | inl gone ↦ rw (◌>>=◌, call_view, object_of, get_server_lem k, gone) (refl, w, refl)
    | inr (a, e) ↦
        let (alike, o, found) = w.1.linked k a e in
        let e : find k m.servers ≡ some k = cc in
        let found : find k m.heap ≡ some o = ap (λ b. find b m.heap) (sym alike) ∙ found in
        rw (◌>>=◌, call_view, object_of, get_server_lem k, e, on_server, found) (stored k (f o) e)
  ]

abbrev pub tcp_servers : Registry TcpServerMgr TcpServer
tcp_servers = record {
  fresh = new_server;
  make = make_server;
  destroy = destroy_server;
  by_number = by_number;
  IsValid = IsValid;
  view = view;
  make_lem = make_lem;
  destroy_lem = λ k m w. destroy_lem m w k;
  by_number_lem = λ k missing f m w. by_number_lem m w k missing f;
}

-- Any calls from Lua on a valid manager of the TCP servers (new, destroy, or a function on the server
-- with a number), as long as the numbers last, end as they do on a map from numbers to servers: with
-- the same answers in a valid manager with the same map, or blocked or faulting alike.
pub tcp_servers-Agrees :
    {A : Type 0} (calls : List (Call TcpServer A)) (m : TcpServerMgr)
    → IsValid m
    → m.auto_id + makes calls < 2 ^ 31
    → Agrees IsValid view (run tcp_servers calls m) (replay tcp_servers calls (view m))
tcp_servers-Agrees = run-Agrees tcp_servers
