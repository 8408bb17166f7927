-- ===== src/Server/Steps.antt =====
-- The state in which each operation of the service manager ends.
use Prim.Native.String.{String}
use server.Prelude.{
  ℕ, suc, ◌+◌, ◌%◌, ◌^◌, ◌<◌, ◌≡◌, Bool, true, false, [], ◌∷◌, ◌++◌, Option, none, some,
  if◌then◌else◌, length, Outcome, ok, blocks, arith,
}
use server.Prelude.Table.{Table, find, insert, erase, assign}
use server.Msg.{ServiceMsg}
use server.Service.{Host, Service, make_service}
use server.Service
use server.WorkerMgr.{WorkerMgr, worker_of}
use server.WorkerMgr
use server.Server.{
  ServiceMgr, Server, on_service, new_service, get_service, destory_service, delete_all, poll, send,
}

-- No mutex of the managers is taken.
pub record IsFree (s : Server) : Type 0 where
  pub services : s.mgr.locked ≡ false
  pub free_services : s.mgr.free_locked ≡ false
  pub pre_destroy : s.mgr.pre_locked ≡ false
  pub workers : s.worker_mgr.locked ≡ false

pub get_service_lem :
    (id : ℕ) (m : ServiceMgr) → m.locked ≡ false → get_service id m ≡ ok (find id m.services, m)
unfolding get_service
get_service_lem id m u = ground arith

-- The worker that serves `a`, if any, gives it up.
abbrev pub unassign : ℕ → WorkerMgr → WorkerMgr
unassign a w = elim (worker_of (some a) 0 w.workers) [
  | none ↦ w
  | some i ↦ WorkerMgr.assign_service i none w
]

abbrev pub closed : Service → Service
closed t = record t { is_init = false }

close_lem : (t : Service) → t.locked ≡ false → Service.close t ≡ ok (tt, closed t)
unfolding Service.close
close_lem t u = ground arith

get_service_worker_lem :
    (value : Option ℕ) (w : WorkerMgr)
    → w.locked ≡ false
    → WorkerMgr.get_service_worker value w ≡ ok (worker_of value 0 w.workers, w)
unfolding WorkerMgr.get_service_worker
get_service_worker_lem value w u = ground arith

on_service_lem :
    (a : ℕ) (m : Service → Outcome (Unit {0} × Service)) (t t' : Service) (s : Server)
    → find a s.heap ≡ some t
    → m t ≡ ok (tt, t')
    → on_service a m s ≡ ok (tt, record s { heap = assign a t' s.heap })
unfolding on_service
on_service_lem a m t t' s e f = ground arith

-- `destoryService` of a number that is registered.
pub destory_service_lem :
    (id a : ℕ) (t : Service) (s : Server)
    → IsFree s
    → find id s.mgr.services ≡ some a
    → find a s.heap ≡ some t
    → t.locked ≡ false
    → destory_service id s
      ≡ ok (
        tt,
        record s {
          worker_mgr = unassign a s.worker_mgr;
          mgr = record s.mgr {
            services = erase id s.mgr.services;
            pre_destroy = a ∷ s.mgr.pre_destroy;
          };
          heap = assign a (closed t) s.heap;
        },
      )
unfolding destory_service
destory_service_lem id a t s free e h u =
    ground (arith, close_lem t u, get_service_worker_lem (some a) s.worker_mgr free.workers)

pub destory_service_missing :
    (id : ℕ) (s : Server)
    → IsFree s
    → find id s.mgr.services ≡ none
    → destory_service id s ≡ ok (tt, s)
unfolding destory_service
destory_service_missing id s free e = ground arith

pub send_lem :
    (id a : ℕ) (m : ServiceMsg) (t t' : Service) (s : Server)
    → IsFree s
    → find id s.mgr.services ≡ some a
    → find a s.heap ≡ some t
    → Service.push_msg m t ≡ ok (tt, t')
    → send id m s ≡ ok (tt, record s { heap = assign a t' s.heap })
unfolding send
send_lem id a m t t' s free e h p = ground arith

pub send_missing :
    (id : ℕ) (m : ServiceMsg) (s : Server)
    → IsFree s
    → find id s.mgr.services ≡ none
    → send id m s ≡ ok (tt, s)
unfolding send
send_missing id m s free e = ground arith

-- `poll` when every retired service is still on the heap.
pub poll_lem :
    (heap : Table Service) (s : Server)
    → IsFree s
    → delete_all s.mgr.pre_destroy s.heap ≡ ok heap
    → poll s ≡ ok (tt, record s { heap = heap; mgr = record s.mgr { pre_destroy = [] } })
unfolding poll
poll_lem heap s free e = ground arith

-- The server after `newService`, with worker `i + 1` claimed and `others` still free.
abbrev pub created :
    Host → (name src args : String) (is_unique : Bool) (i : ℕ) → Table Bool → Server → Server
created host name src args is_unique i others s =
    let id = s.mgr.auto_id in
    let (service, exits) = make_service host s.mgr.service_paths id name src args in
    let claimed = record s.worker_mgr { free_workers = others } in
    let listed = record s.mgr {
      auto_id = (id + 1) % 2 ^ 32;
      services = insert id id s.mgr.services;
    } in
    record {
      pool = s.pool;
      worker_mgr = if is_unique then WorkerMgr.assign_service i (some id) claimed else claimed;
      mgr =
          if is_unique
          then listed
          else record listed { free_services = s.mgr.free_services ++ id ∷ [] };
      heap = insert id service s.heap;
      is_run = if exits then false else s.is_run;
    }

use_worker_lem :
    (i : ℕ) (b : Bool) (others : Table Bool) (w : WorkerMgr)
    → w.locked ≡ false
    → w.free_workers ≡ (suc i, b) ∷ others
    → WorkerMgr.use_worker w ≡ ok (suc i, record w { free_workers = others })
unfolding WorkerMgr.use_worker
use_worker_lem i b others w u e = ground arith

get_worker_lem :
    (i : ℕ) (w : WorkerMgr) → i < length w.workers → WorkerMgr.get_worker (suc i) w ≡ some i
unfolding WorkerMgr.get_worker
get_worker_lem i w h = ground arith

pub new_service_lem :
    (host : Host) (name src args : String) (is_unique : Bool) (i : ℕ) (b : Bool)
    (others : Table Bool) (s : Server)
    → IsFree s
    → s.worker_mgr.free_workers ≡ (suc i, b) ∷ others
    → i < length s.worker_mgr.workers
    → new_service host name src args is_unique s
      ≡ ok (s.mgr.auto_id, created host name src args is_unique i others s)
unfolding new_service
new_service_lem host name src args true i b others s free e h = ground (
  arith,
  use_worker_lem i b others s.worker_mgr free.workers e,
  get_worker_lem i (record s.worker_mgr { free_workers = others }) h,
)
new_service_lem host name src args false i b others s free e h =
    ground (arith, use_worker_lem i b others s.worker_mgr free.workers e)

-- With no free worker `newService` never returns.
pub new_service_blocks :
    (host : Host) (name src args : String) (is_unique : Bool) (s : Server)
    → IsFree s
    → s.worker_mgr.free_workers ≡ []
    → new_service host name src args is_unique s ≡ blocks
unfolding new_service WorkerMgr.use_worker
new_service_blocks host name src args is_unique s free e = ground arith
