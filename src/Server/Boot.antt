-- ===== src/Server/Boot.antt =====
-- The start of the server: the parts of `main` (src/main.cpp) that make the pool, the managers and
-- the workers, before the start script runs.
use Prim.Native.String.{String}
use server.Prelude.{
  ℕ, zero, suc, ◌+◌, ◌^◌, ◌<◌, ◌≤◌, ◌≡◌, ◌≢◌, some, refl, true, List, [], ◌∷◌, none, blocks, All,
  arith, length,
}
use server.Prelude.Table.{find}
use server.MsgPool
use server.Service.{Host}
use server.WorkerMgr
use server.WorkerMgr.Laws.{entries, init_worker_lem, length-fresh_workers}
use server.Server.{Server, ServiceMgr, new_mgr, add_service_path}
use server.Server.Sound.{IsSound, IsWorker}
use server.Server.History.{Call, run, creations, Returns, run-IsSound}

-- The loop over `config.servicePaths`.
pub add_paths : List String → ServiceMgr → ServiceMgr
unfolding add_service_path
add_paths [] m = m
add_paths (p ∷ ps) m = add_paths ps (add_service_path p m)

-- `ServiceMsgPool::newInst(10)`, the service paths, and `initWorker(config.threadNum)`.
unfoldable pub boot : (thread_num : ℕ) → List String → Server
unfolding add_paths MsgPool.new_inst
boot thread_num paths = record {
  pool = MsgPool.new_inst 10 none;
  worker_mgr = WorkerMgr.init_worker thread_num WorkerMgr.new_mgr;
  mgr = add_paths paths new_mgr;
  heap = [];
  is_run = true;
}

-- The paths are all that `addServicePath` changes.
record SameMgr (m n : ServiceMgr) : Type 0 where
  services : n.services ≡ m.services
  auto_id : n.auto_id ≡ m.auto_id
  locked : n.locked ≡ m.locked
  free_locked : n.free_locked ≡ m.free_locked
  pre_destroy : n.pre_destroy ≡ m.pre_destroy
  pre_locked : n.pre_locked ≡ m.pre_locked
  free_services : n.free_services ≡ m.free_services

add_paths-same : (ps : List String) (m : ServiceMgr) → SameMgr m (add_paths ps m)
unfolding add_paths
add_paths-same [] m = ground arith
add_paths-same (p ∷ ps) m = ground (arith, add_paths-same ps (add_service_path p m))

length-entries : (i n : ℕ) → length (entries i n) ≡ n
unfolding entries
length-entries i zero = refl
length-entries i (suc n) = omega (arith, length-entries (i + 1) n)

entries-IsWorker : (i n m : ℕ) → 0 < i → i + n ≤ suc m → All (IsWorker m) (entries i n)
unfolding entries
entries-IsWorker i zero m h k = tt
entries-IsWorker i (suc n) m h k =
    ((h, omega arith), entries-IsWorker (i + 1) n m (omega arith) (omega arith))

pub boot-free :
    (thread_num : ℕ) (paths : List String)
    → length (boot thread_num paths).worker_mgr.free_workers ≡ thread_num
unfolding boot
boot-free num paths = rw (init_worker_lem num) (length-entries 1 num)

pub boot-queue :
    (thread_num : ℕ) (paths : List String) → (boot thread_num paths).mgr.free_services ≡ []
unfolding boot
boot-queue num paths = (add_paths-same paths new_mgr).free_services

no_service : (k a : ℕ) → find k [] ≢ some a
unfolding find
no_service k a e = cc

-- The server that `main` makes is sound, for any number of threads below 2 ^ 31.
pub boot-IsSound :
    (thread_num : ℕ) (paths : List String) → thread_num < 2 ^ 31 → IsSound (boot thread_num paths)
unfolding boot
boot-IsSound num paths h =
    let m = add_paths-same paths new_mgr in
    rw (init_worker_lem num) (record {
      free = record {
        services = m.locked;
        free_services = m.free_locked;
        pre_destroy = m.pre_locked;
        workers = refl;
      };
      services_sorted = rw m.services tt;
      services_below = rw m.services tt;
      heap_sorted = tt;
      heap_below = tt;
      unlocked = tt;
      positive = omega (arith, m.auto_id);
      budget = omega (arith, m.auto_id, length-entries 1 num, length-fresh_workers 1 num);
      few_workers = omega (arith, length-fresh_workers 1 num);
      workers_known =
          entries-IsWorker 1 num _ (omega arith) (omega (arith, length-fresh_workers 1 num));
      live = λ k a e. absurd (no_service k a (rw m.services at e));
      retired = rw m.pre_destroy tt;
      distinct = rw m.pre_destroy tt;
    })

-- From the start of the server, a history of calls of the manager returns, with the invariant at its
-- end, exactly if it makes at most as many services as there are threads.  With one more, whether or
-- not services were destroyed in between, a `newService` never returns.
pub boot-run :
    (host : Host) (thread_num : ℕ) (paths : List String) (cs : List Call)
    → thread_num < 2 ^ 31
    → (creations cs ≤ thread_num → Returns host cs (boot thread_num paths))
      × (thread_num < creations cs → run host cs (boot thread_num paths) ≡ blocks)
boot-run host num paths cs h =
    let (ends, stuck) = run-IsSound host cs (boot num paths) (boot-IsSound num paths h) in
    let free = boot-free num paths in
    (λ k. ends (omega (arith, free)), λ k. stuck (omega (arith, free)))
