-- ===== src/WorkerMgr/Laws.antt =====
-- Which worker `useWorker` hands out, and for how long.
use server.Prelude.{
  ℕ, zero, suc, ◌+◌, ◌≤◌, ◌<◌, ◌≡◌, refl, ◌∙◌, Bool, true, false, List, [], ◌∷◌, ◌++◌, some, length,
  arith, Outcome, ok, ◌>>=◌, return, ◌↔◌,
}
use server.Prelude.Table.{Table, insert, insert_front, IsAbove}
use server.WorkerMgr.{
  Worker, make_worker, WorkerMgr, new_mgr, init_from, init_worker, get_worker, use_worker,
  free_worker,
}
use mathlib.Core.List.{append_assoc, append-nil}

-- The entries `i`, `i + 1`, … of `n` free workers, and the workers themselves.
unfoldable pub entries : (i n : ℕ) → Table Bool
entries i zero = []
entries i (suc n) = (i, true) ∷ entries (i + 1) n

unfoldable pub fresh_workers : (i n : ℕ) → List Worker
fresh_workers i zero = []
fresh_workers i (suc n) = make_worker i ∷ fresh_workers (i + 1) n

insert-entries : (i k n : ℕ) → k ≡ i + n → insert k true (entries i n) ≡ entries i (suc n)
unfolding entries insert
insert-entries i k zero e = ground arith
insert-entries i k (suc n) e = ground (arith, insert-entries (i + 1) k n)

init_from_lem :
    (k n : ℕ) (w : WorkerMgr)
    → w.free_workers ≡ entries 1 k
    → init_from (suc k) n w ≡ record w {
      free_workers = entries 1 (k + n);
      workers = w.workers ++ fresh_workers (suc k) n;
    }
unfolding init_from fresh_workers
init_from_lem k zero w e = ground (arith, append-nil w.workers)
init_from_lem k (suc n) w e = ground (
  arith,
  append_assoc w.workers (make_worker (suc k) ∷ []) (fresh_workers (suc (suc k)) n),
  insert-entries 1 (suc k) k,
  init_from_lem (suc k) n (record w {
    free_workers = insert (suc k) true w.free_workers;
    workers = w.workers ++ make_worker (suc k) ∷ [];
  }),
)

pub length-fresh_workers : (i n : ℕ) → length (fresh_workers i n) ≡ n
unfolding fresh_workers
length-fresh_workers i zero = refl
length-fresh_workers i (suc n) = omega (arith, length-fresh_workers (i + 1) n)

-- `initWorker` on a new manager makes `num` workers that run, with the ids 1 to `num`, free and with no service.
pub init_worker_lem :
    (num : ℕ)
    → init_worker num new_mgr
      ≡ record { locked = false; free_workers = entries 1 num; workers = fresh_workers 1 num }
unfolding init_worker entries
init_worker_lem num = init_from_lem 0 num new_mgr refl ∙ ground arith

pub use_worker_some :
    (w : WorkerMgr) (i n : ℕ)
    → w.locked ≡ false
    → w.free_workers ≡ entries i (suc n)
    → use_worker w ≡ ok (i, record w { free_workers = entries (i + 1) n })
unfolding use_worker entries
use_worker_some w i n u e = ground arith

pub use_worker_none :
    (w : WorkerMgr) → w.locked ≡ false → w.free_workers ≡ [] → use_worker w ≡ ok (0, w)
unfolding use_worker
use_worker_none w u e = ground arith

-- `k` calls of `useWorker` in a row.
pub use_times : ℕ → WorkerMgr → Outcome (List ℕ × WorkerMgr)
use_times zero = return []
use_times (suc k) = do id ← use_worker; ids ← use_times k; return (id ∷ ids)

pub ascending : (i n : ℕ) → List ℕ
ascending i zero = []
ascending i (suc n) = i ∷ ascending (i + 1) n

use_times_lem :
    (w : WorkerMgr) (i n : ℕ)
    → w.locked ≡ false
    → w.free_workers ≡ entries i n
    → use_times n w ≡ ok (ascending i n, record w { free_workers = [] })
unfolding use_times entries ascending
use_times_lem w i zero u e = ground arith
use_times_lem w i (suc n) u e =
    rw (use_worker_some w i n u e, ◌>>=◌)
      (rw (use_times_lem (record w { free_workers = entries (i + 1) n }) (i + 1) n u refl, ◌>>=◌))

-- After `initWorker num` the first `num` calls of `useWorker` hand out the ids 1 to `num`, each once
-- and in this order, and every further call returns 0 until a worker is freed.
use_times-init_worker :
    (num : ℕ)
    → (w : WorkerMgr) × (use_times num (init_worker num new_mgr) ≡ ok (ascending 1 num, w))
      × (use_worker w ≡ ok (0, w))
      × (length w.workers ≡ num)
use_times-init_worker num = (
  record { locked = false; free_workers = []; workers = fresh_workers 1 num },
  rw (init_worker_lem num) (use_times_lem _ 1 num refl refl),
  use_worker_none _ refl refl,
  length-fresh_workers 1 num,
)

-- `getWorker` finds a worker exactly for the ids 1 to `num`, and each worker under its own id.
get_worker_iff :
    (id i : ℕ) (w : WorkerMgr)
    → (get_worker id w ≡ some i) ↔ ((id ≡ suc i) × (i < length w.workers))
unfolding get_worker
get_worker_iff id i w = ground arith

-- A worker that is freed is what `useWorker` hands out next if no free worker has a smaller id.
free_worker-use_worker :
    (w : WorkerMgr) (id : ℕ)
    → w.locked ≡ false
    → 0 < id
    → id ≤ length w.workers
    → IsAbove (id + 1) w.free_workers
    → (v : WorkerMgr) × (free_worker id w ≡ ok (tt, v)) × (use_worker v ≡ ok (id, w))
unfolding free_worker use_worker
free_worker-use_worker w id u h k a = (
  record w { free_workers = (id, true) ∷ w.free_workers },
  ground (arith, insert_front id true w.free_workers a),
  ground arith,
)
