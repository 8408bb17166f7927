-- ===== src/Server.antt =====
-- The managers together: src/service/serviceMgr.cpp and .hpp over the services, the workers
-- (src/worker) and the message pool. A `Service*` is the number that the service was made with, since
-- `newService` makes one object for each number; `heap` holds the objects that are not deleted, and a
-- use of any other number is a fault. An `int32_t` is its bit pattern: the numbers of services count
-- from 1, and a lookup of a negative one finds nothing.
pub mod Steps
pub mod Sound
pub mod Keeps
pub mod Retires
pub mod Creates
pub mod Query
pub mod History
pub mod Boot
pub mod Shutdown
use Prim.Native.String.{String}
use text.Mathlib.Text.{◌==◌ as str_eq}
use server.Prelude.{
  ℕ, zero, suc, ◌+◌, ◌%◌, ◌^◌, Bool, true, false, List, [], ◌∷◌, ◌++◌, Option, none, some, ◌==◌,
  if◌then◌else◌, Outcome, ok, blocks, fault, ◌>>=◌, ◌>>◌, return, get, modify, zoom,
}
use server.Prelude.Table.{Table, find, insert, erase, assign, keys}
use server.Msg.{ServiceMsg, ServiceMsgType, type_code}
use server.MsgPool.{MsgPool}
use server.MsgPool
use server.Service.{Host, Service, make_service}
use server.Service
use server.WorkerMgr.{WorkerMgr}
use server.WorkerMgr

-- `mPreDestroyServices` has its top first, `mFreeServices` its front.
pub record ServiceMgr : Type 0 where
  pub services : Table ℕ
  pub auto_id : ℕ
  pub service_paths : List String
  pub locked : Bool
  pub free_services : List ℕ
  pub free_locked : Bool
  pub pre_destroy : List ℕ
  pub pre_locked : Bool

pub record Server : Type 0 where
  pub pool : MsgPool
  pub worker_mgr : WorkerMgr
  pub mgr : ServiceMgr
  pub heap : Table Service
  pub is_run : Bool

-- `new ServiceMgr()` of `getInst`.
abbrev pub new_mgr : ServiceMgr
new_mgr = record {
  services = [];
  auto_id = 1;
  service_paths = [];
  locked = false;
  free_services = [];
  free_locked = false;
  pre_destroy = [];
  pre_locked = false;
}

abbrev pub on_pool {ℓ} :
    {A : Type ℓ} → (MsgPool → Outcome (A × MsgPool)) → Server → Outcome (A × Server)
on_pool = zoom (λ s. s.pool) (λ p s. record s { pool = p })

abbrev pub on_workers {ℓ} :
    {A : Type ℓ} → (WorkerMgr → Outcome (A × WorkerMgr)) → Server → Outcome (A × Server)
on_workers = zoom (λ s. s.worker_mgr) (λ w s. record s { worker_mgr = w })

abbrev pub on_mgr {ℓ} :
    {A : Type ℓ} → (ServiceMgr → Outcome (A × ServiceMgr)) → Server → Outcome (A × Server)
on_mgr = zoom (λ s. s.mgr) (λ m s. record s { mgr = m })

-- A method of the service that a pointer names.
unfoldable pub on_service {ℓ} :
    {A : Type ℓ} → ℕ → (Service → Outcome (A × Service)) → Server → Outcome (A × Server)
on_service a m s = elim (find a s.heap) [
  | none ↦ fault
  | some t ↦ elim (m t) [
    | ok (r, t') ↦ ok (r, record s { heap = assign a t' s.heap })
    | blocks ↦ blocks
    | fault ↦ fault
  ]
]

-- `mServiceLock`
unfoldable pub lock : ServiceMgr → Outcome (Unit {0} × ServiceMgr)
lock m = elim m.locked [ true ↦ blocks | false ↦ ok (tt, record m { locked = true }) ]

unfoldable pub unlock : ServiceMgr → Outcome (Unit {0} × ServiceMgr)
unlock m = ok (tt, record m { locked = false })

-- `mFreeServiceLock`
unfoldable pub lock_free : ServiceMgr → Outcome (Unit {0} × ServiceMgr)
lock_free m = elim m.free_locked [
  | true ↦ blocks
  | false ↦ ok (tt, record m { free_locked = true })
]

unfoldable pub unlock_free : ServiceMgr → Outcome (Unit {0} × ServiceMgr)
unlock_free m = ok (tt, record m { free_locked = false })

-- `mPreDestroyServiceLock`
unfoldable pub lock_pre : ServiceMgr → Outcome (Unit {0} × ServiceMgr)
lock_pre m = elim m.pre_locked [ true ↦ blocks | false ↦ ok (tt, record m { pre_locked = true }) ]

unfoldable pub unlock_pre : ServiceMgr → Outcome (Unit {0} × ServiceMgr)
unlock_pre m = ok (tt, record m { pre_locked = false })

-- `addServicePath`
unfoldable pub add_service_path : String → ServiceMgr → ServiceMgr
add_service_path value m = record m { service_paths = m.service_paths ++ value ∷ [] }

-- The `while` of `newService`: it ends when some worker is free. Nothing in the source calls
-- `freeWorker`, so with none free it never ends.
unfoldable pub claim_worker : Server → Outcome (ℕ × Server)
claim_worker = do
  worker_id ← on_workers WorkerMgr.use_worker
  elim worker_id [ zero ↦ λ s. blocks | suc i ↦ return (suc i) ]

-- `mAutoId++`
unfoldable pub next_id : ServiceMgr → Outcome (ℕ × ServiceMgr)
next_id m = ok (m.auto_id, record m { auto_id = (m.auto_id + 1) % 2 ^ 32 })

-- `new Service(id, name, src, args)`; `luaExit` clears `IsRun`.
unfoldable pub create :
    Host → (id : ℕ) (name src args : String) → Server → Outcome (Unit {0} × Server)
create host id name src args s =
    let (service, exits) = make_service host s.mgr.service_paths id name src args in
    ok
      (tt, record s { heap = insert id service s.heap; is_run = if exits then false else s.is_run })

-- `worker->setService(service)`, where the worker may be null.
unfoldable pub set_worker_service : Option ℕ → Option ℕ → Server → Outcome (Unit {0} × Server)
set_worker_service none value s = fault
set_worker_service (some i) value s =
    ok (tt, record s { worker_mgr = WorkerMgr.assign_service i value s.worker_mgr })

-- The end of `newService`: the service gets a worker of its own, or its number joins the queue (which
-- the source does without the queue's mutex: a thread that is in `getFreeServiceId` then races with it,
-- which a call that is one step cannot show).
unfoldable pub place : Bool → Option ℕ → ℕ → Server → Outcome (Unit {0} × Server)
unfolding set_worker_service
place true worker id s = set_worker_service worker (some id) s
place false worker id s =
    ok (tt, record s { mgr = record s.mgr { free_services = s.mgr.free_services ++ id ∷ [] } })

unfoldable pub register : ℕ → ServiceMgr → Outcome (Unit {0} × ServiceMgr)
unfolding lock unlock
register id = do lock; modify (λ m. record m { services = insert id id m.services }); unlock

unfoldable pub new_service :
    Host → (name src args : String) (is_unique : Bool) → Server → Outcome (ℕ × Server)
unfolding claim_worker next_id create place register
new_service host name src args is_unique = do
  worker_id ← claim_worker
  s ← get
  let worker = WorkerMgr.get_worker worker_id s.worker_mgr
  id ← on_mgr next_id
  create host id name src args
  on_mgr (register id)
  place is_unique worker id
  return id

unfoldable pub get_service : ℕ → ServiceMgr → Outcome (Option ℕ × ServiceMgr)
unfolding lock unlock
get_service id = do lock; m ← get; unlock; return (find id m.services)

-- The loop of `queryService`, by ascending number.
unfoldable pub name_loop : String → Table Service → Table ℕ → Outcome ℕ
name_loop name heap [] = ok 0
name_loop name heap ((id, a) ∷ services) = elim (find a heap) [
  | none ↦ fault
  | some t ↦ elim (str_eq t.name name) [ true ↦ ok id | false ↦ name_loop name heap services ]
]

unfoldable pub search_name : String → Server → Outcome (ℕ × Server)
unfolding name_loop
search_name name s = elim (name_loop name s.heap s.mgr.services) [
  | ok id ↦ ok (id, s)
  | blocks ↦ blocks
  | fault ↦ fault
]

unfoldable pub query_service : String → Server → Outcome (ℕ × Server)
unfolding lock unlock search_name
query_service name = do on_mgr lock; id ← search_name name; on_mgr unlock; return id

-- A worker of the service gives it up.
unfoldable pub release_worker : Option ℕ → Server → Outcome (Unit {0} × Server)
release_worker none s = ok (tt, s)
release_worker (some i) s =
    ok (tt, record s { worker_mgr = WorkerMgr.assign_service i none s.worker_mgr })

-- `destoryService` for a number that is found, up to its last two lines.
unfoldable pub retire : (id service : ℕ) → Server → Outcome (Unit {0} × Server)
unfolding on_service release_worker lock_pre
retire id service = do
  worker ← on_workers (WorkerMgr.get_service_worker (some service))
  release_worker worker
  on_service service Service.close
  on_mgr (modify (λ m. record m { services = erase id m.services }))
  on_mgr lock_pre
  on_mgr (modify (λ m. record m { pre_destroy = service ∷ m.pre_destroy }))

unfoldable pub destory_service : ℕ → Server → Outcome (Unit {0} × Server)
unfolding lock unlock unlock_pre retire
destory_service id = do
  on_mgr lock
  s ← get
  elim (find id s.mgr.services) [
    | none ↦ on_mgr unlock
    | some service ↦ (do retire id service; on_mgr unlock; on_mgr unlock_pre)
  ]

-- `delete service`: of a service that is deleted already, a fault.
unfoldable pub delete_service : ℕ → Table Service → Outcome (Table Service)
delete_service a heap = elim (find a heap) [ none ↦ fault | some t ↦ ok (erase a heap) ]

-- The `while` of `ServiceMgr::poll`.
unfoldable pub delete_all : List ℕ → Table Service → Outcome (Table Service)
unfolding delete_service
delete_all [] heap = ok heap
delete_all (a ∷ rest) heap = elim (delete_service a heap) [
  | ok heap' ↦ delete_all rest heap'
  | blocks ↦ blocks
  | fault ↦ fault
]

unfoldable pub delete_retired : Server → Outcome (Unit {0} × Server)
delete_retired s = elim (delete_all s.mgr.pre_destroy s.heap) [
  | ok heap ↦ ok (tt, record s { heap = heap; mgr = record s.mgr { pre_destroy = [] } })
  | blocks ↦ blocks
  | fault ↦ fault
]

-- `ServiceMgr::poll`, and the destructor.
unfoldable pub poll : Server → Outcome (Unit {0} × Server)
unfolding lock_pre unlock_pre delete_retired
poll = do on_mgr lock_pre; delete_retired; on_mgr unlock_pre

unfoldable pub send : ℕ → ServiceMsg → Server → Outcome (Unit {0} × Server)
unfolding get_service on_service
send id msg = do
  service ← on_mgr (get_service id)
  elim service [ none ↦ return tt | some a ↦ on_service a (Service.push_msg msg) ]

-- The queue's front, or 0.
unfoldable pub take_free : ServiceMgr → Outcome (ℕ × ServiceMgr)
take_free m = elim m.free_services [
  | [] ↦ ok (0, m)
  | id ∷ ids ↦ ok (id, record m { free_services = ids })
]

unfoldable pub get_free_service_id : ServiceMgr → Outcome (ℕ × ServiceMgr)
unfolding lock_free unlock_free take_free
get_free_service_id = do lock_free; id ← take_free; unlock_free; return id

unfoldable pub push_free_service_id : ℕ → ServiceMgr → Outcome (Unit {0} × ServiceMgr)
unfolding lock_free unlock_free
push_free_service_id value = do
  lock_free
  modify (λ m. record m { free_services = m.free_services ++ value ∷ [] })
  unlock_free

-- The loop of `waitAllServiceClose` that sends each service its close message.
unfoldable pub close_loop : List ℕ → Server → Outcome (Unit {0} × Server)
close_loop [] = return tt
close_loop (id ∷ ids) = do
  msg ← on_pool MsgPool.pop
  send id (record msg { msg_type = type_code ServiceMsgType.close })
  close_loop ids

-- `waitAllServiceClose` up to the loop that waits for other threads to destroy the services.
unfoldable pub close_all : Server → Outcome (Unit {0} × Server)
unfolding lock unlock close_loop
close_all = do on_mgr lock; s ← get; on_mgr unlock; close_loop (keys s.mgr.services)
