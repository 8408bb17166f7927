-- ===== src/WorkerMgr.antt =====
-- src/worker/worker.hpp (the fields of `Worker`), workerMgr.cpp and workerMgr.hpp. A `Service*` is
-- the number of the service (see Server.antt), and a `Worker*` the index of the worker in `mWorkers`.
pub mod Laws
use server.Prelude.{
  ℕ, zero, suc, ◌+◌, ◌-◌, Bool, true, false, ◌||◌, List, [], ◌∷◌, ◌++◌, Option, none, some, ltb,
  ◌==◌, length, if◌then◌else◌, get_elem?, set, Outcome, ok, blocks, fault, ◌>>=◌, ◌>>◌, return,
  modify, get,
}
use server.Prelude.Table.{Table, insert}

pub record Worker : Type 0 where
  pub id : ℕ
  pub is_run : Bool
  pub service : Option ℕ

-- The constructor, which also starts the thread.
unfoldable pub make_worker : ℕ → Worker
make_worker id = record { id = id; is_run = true; service = none }

-- `Worker::getService` and `Worker::setService`
abbrev pub get_service : Worker → Option ℕ
get_service w = w.service

abbrev pub set_service : Option ℕ → Worker → Worker
set_service value w = record w { service = value }

pub record WorkerMgr : Type 0 where
  pub locked : Bool
  pub free_workers : Table Bool
  pub workers : List Worker

-- `new WorkerMgr()` of `getInst`.
abbrev pub new_mgr : WorkerMgr
new_mgr = record { locked = false; free_workers = []; workers = [] }

-- The loop of `initWorker` from `i` on, with `n` rounds left.
unfoldable pub init_from : (i n : ℕ) → WorkerMgr → WorkerMgr
unfolding make_worker
init_from i zero w = w
init_from i (suc n) w = init_from (i + 1) n (record w {
  free_workers = insert i true w.free_workers;
  workers = w.workers ++ make_worker i ∷ [];
})

unfoldable pub init_worker : ℕ → WorkerMgr → WorkerMgr
init_worker num w = init_from 1 num w

-- `id < 1 || id > size()`
abbrev pub out_of_range : ℕ → WorkerMgr → Bool
out_of_range id w = ltb id 1 || ltb (length w.workers) id

unfoldable pub get_worker : ℕ → WorkerMgr → Option ℕ
get_worker id w = if out_of_range id w then none else some (id - 1)

unfoldable pub lock : WorkerMgr → Outcome (Unit {0} × WorkerMgr)
lock w = elim w.locked [ true ↦ blocks | false ↦ ok (tt, record w { locked = true }) ]

unfoldable pub unlock : WorkerMgr → Outcome (Unit {0} × WorkerMgr)
unlock w = ok (tt, record w { locked = false })

-- `mFreeWorkers.begin()` and its removal; 0 if there is none.
unfoldable pub take_first : WorkerMgr → Outcome (ℕ × WorkerMgr)
take_first w = elim w.free_workers [
  | [] ↦ ok (0, w)
  | (id, _) ∷ others ↦ ok (id, record w { free_workers = others })
]

unfoldable pub use_worker : WorkerMgr → Outcome (ℕ × WorkerMgr)
unfolding lock unlock take_first
use_worker = do lock; id ← take_first; unlock; return id

unfoldable pub free_worker : ℕ → WorkerMgr → Outcome (Unit {0} × WorkerMgr)
unfolding lock unlock
free_worker id w = elim (out_of_range id w) [
  | true ↦ ok (tt, w)
  | false ↦
      (do lock; modify (λ v. record v { free_workers = insert id true v.free_workers }); unlock) w
]

-- Two pointers are the same.
abbrev pub same : Option ℕ → Option ℕ → Bool
same none none = true
same none (some b) = false
same (some a) none = false
same (some a) (some b) = a == b

-- The loop of `getServiceWorker` from index `i` on.
unfoldable pub worker_of : Option ℕ → ℕ → List Worker → Option ℕ
worker_of value i [] = none
worker_of value i (w ∷ ws) =
    if same (get_service w) value then some i else worker_of value (i + 1) ws

unfoldable pub get_service_worker : Option ℕ → WorkerMgr → Outcome (Option ℕ × WorkerMgr)
unfolding lock unlock worker_of
get_service_worker value = do lock; w ← get; unlock; return (worker_of value 0 w.workers)

-- `worker->setService(value)` through a `Worker*`.
unfoldable pub assign_service : ℕ → Option ℕ → WorkerMgr → WorkerMgr
assign_service i value w = elim (get_elem? w.workers i) [
  | none ↦ w
  | some worker ↦ record w { workers = set w.workers i (set_service value worker) }
]
