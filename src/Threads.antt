-- ===== src/Threads.antt =====
-- src/worker/worker.cpp: the loop of a worker thread, one access to shared state at a time, and the
-- threads together with the calls that Lua code makes of the manager.
pub mod Tokens
pub mod Moves
pub mod Exclusive
pub mod Dangling
use Prim.Native.String.{String}
use server.Prelude.{
  ℕ, zero, suc, ◌≡◌, true, false, List, Option, none, some, get_elem?, set, replicate, Outcome, ok,
  blocks, fault, ◌>>=◌, ◌>>◌, return,
}
use server.Prelude.Table.{find, assign}
use server.Service.{Host, Service, Polling}
use server.Service
use server.WorkerMgr.{Worker}
use server.WorkerMgr
use server.Server.{Server, on_mgr, get_service, get_free_service_id, push_free_service_id}
use server.Server.History.{Call, call, get_free_call, push_free_call}
use server.Server.Boot.{boot}

-- Where the loop stands, with the local variables `service` and `serviceId` that are live there.
pub data Pc : Type 0 where
  at_top : Pc
  fetched : (service_id : ℕ) → Pc
  holding : (service service_id : ℕ) → Pc
  polled : (service_id : ℕ) → Pc
  stopped : Pc

-- `service->poll()` through a pointer; of a deleted service, a fault.
unfoldable pub poll_service : Host → ℕ → Server → Outcome (Unit {0} × Server)
poll_service host a s = elim (find a s.heap) [
  | none ↦ fault
  | some t ↦ elim (Service.poll host (record { service = t; pool = s.pool })) [
    | ok (view, p) ↦ ok (tt, record s { heap = assign a p.service s.heap; pool = p.pool })
    | blocks ↦ blocks
    | fault ↦ fault
  ]
]

-- The worker's own service, or the front of the queue.
unfoldable pub look : Worker → Server → Outcome (Pc × Server)
look w s = elim w.is_run [
  | false ↦ ok (stopped, s)
  | true ↦ elim (WorkerMgr.get_service w) [
    | some a ↦ ok (holding a 0, s)
    | none ↦ elim (on_mgr get_free_service_id s) [
      | ok (id, t) ↦ elim id [ zero ↦ ok (at_top, t) | suc k ↦ ok (fetched (suc k), t) ]
      | blocks ↦ blocks
      | fault ↦ fault
    ]
  ]
]

-- `getService`: a number that is no longer registered is dropped.
unfoldable pub resolve : ℕ → Server → Outcome (Pc × Server)
resolve id s = elim (on_mgr (get_service id) s) [
  | ok (found, t) ↦ elim found [ none ↦ ok (at_top, t) | some a ↦ ok (holding a id, t) ]
  | blocks ↦ blocks
  | fault ↦ fault
]

unfoldable pub poll_held : Host → (a id : ℕ) → Server → Outcome (Pc × Server)
unfolding poll_service
poll_held host a id = do poll_service host a; return (polled id)

-- `if (serviceId > 0) pushFreeServiceId(serviceId)`
unfoldable pub give_back : ℕ → Server → Outcome (Pc × Server)
give_back zero = return at_top
give_back (suc k) = do on_mgr (push_free_service_id (suc k)); return at_top

-- One step of the thread of the worker at index `i`.
unfoldable pub turn : Host → ℕ → Pc → Server → Outcome (Pc × Server)
unfolding look resolve poll_held give_back
turn host i at_top s = elim (get_elem? s.worker_mgr.workers i) [ none ↦ fault | some w ↦ look w s ]
turn host i (fetched id) s = resolve id s
turn host i (holding a id) s = poll_held host a id s
turn host i (polled id) s = give_back id s
turn host i stopped s = ok (stopped, s)

-- The server, and where the thread of each worker stands.
pub record System : Type 0 where
  pub server : Server
  pub pcs : List Pc

-- A call that Lua code can make; only the threads take from the queue of free services.
abbrev pub IsLuaCall : Call → Type 0
IsLuaCall get_free_call = ⊥
IsLuaCall (push_free_call id) = ⊥
IsLuaCall _ = Unit

-- A thread makes a step, or some thread completes a call of the manager.
pub data Step (host : Host) (s : System) : System → Type 0 where
  work :
      (i : ℕ) (pc pc' : Pc) (t : Server)
      → get_elem? s.pcs i ≡ some pc
      → turn host i pc s.server ≡ ok (pc', t)
      → Step host s (record { server = t; pcs = set s.pcs i pc' })
  manage :
      (c : Call) (t : Server)
      → IsLuaCall c
      → call host c s.server ≡ ok (tt, t)
      → Step host s (record { server = t; pcs = s.pcs })

abbrev pub start : ℕ → List String → System
start thread_num paths = record {
  server = boot thread_num paths;
  pcs = replicate thread_num at_top;
}

pub data Reach (host : Host) (thread_num : ℕ) (paths : List String) : System → Type 0 where
  booted : Reach host thread_num paths (start thread_num paths)
  next :
      {s t : System} → Reach host thread_num paths s → Step host s t → Reach host thread_num paths t
