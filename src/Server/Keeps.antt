-- ===== src/Server/Keeps.antt =====
-- Each operation of the service manager returns and keeps the invariant, or, with no free worker,
-- `newService` never returns.
use Prim.Native.String.{String}
use server.Prelude.{
  ℕ, zero, suc, ◌≡◌, ◌≢◌, refl, ap, false, List, [], ◌∷◌, ◌++◌, Option, none, some, length, set,
  get_elem?, Outcome, ok, All, All-map, arith, inl, inr, Bool-cases, Option-cases,
}
use server.Prelude.Table.{
  Table, find, assign, IsAbove, IsBelow, assign-IsAbove, assign-IsBelow, AllValues,
  assign-AllValues,
}
use server.Msg.{ServiceMsg}
use server.Service.{Host, Service, make_service}
use server.Service
use server.WorkerMgr.{WorkerMgr, worker_of}
use server.WorkerMgr
use server.Server.{Server, poll, send}
use server.Server.Steps.{unassign, poll_lem, send_lem, send_missing}
use server.Server.Sound.{IsSound, IsUnlocked, IsLive, assign-IsLive, delete_all_lem}

-- What most calls leave: how many workers are free, the next number, the queue and the pool.
pub record IsSteady (s t : Server) : Type 0 where
  pub workers : length t.worker_mgr.free_workers ≡ length s.worker_mgr.free_workers
  pub next_id : t.mgr.auto_id ≡ s.mgr.auto_id
  pub queue : t.mgr.free_services ≡ s.mgr.free_services
  pub pool : t.pool ≡ s.pool

-- The call returns, and the invariant holds after it.
abbrev pub Keeps {ℓ} : {A : Type ℓ} → Server → Outcome (A × Server) → Type ℓ
Keeps {A = A} s o = (a : A) × (t : Server) × (o ≡ ok (a, t)) × IsSound t × IsSteady s t

length-set {ℓ} : {A : Type ℓ} (xs : List A) (i : ℕ) (v : A) → length (set xs i v) ≡ length xs
length-set [] i v = refl
length-set (x ∷ xs) zero v = refl
length-set (x ∷ xs) (suc i) v = ap suc (length-set xs i v)

-- A write to the service of a worker leaves the rest of the manager.
pub record SameWorkers (w v : WorkerMgr) : Type 0 where
  pub locked : v.locked ≡ w.locked
  pub free : v.free_workers ≡ w.free_workers
  pub count : length v.workers ≡ length w.workers

pub assign_service-same :
    (i : ℕ) (value : Option ℕ) (w : WorkerMgr) → SameWorkers w (WorkerMgr.assign_service i value w)
unfolding WorkerMgr.assign_service
assign_service-same i value w = elim (Option-cases (get_elem? w.workers i)) [
  | inl e ↦ ground arith
  | inr (x, e) ↦ ground (arith, length-set w.workers i (WorkerMgr.set_service value x))
]

pub unassign-same : (a : ℕ) (w : WorkerMgr) → SameWorkers w (unassign a w)
unassign-same a w = elim (Option-cases (worker_of (some a) 0 w.workers)) [
  | inl e ↦ ground arith
  | inr (i, e) ↦ ground (arith, assign_service-same i none w)
]

pub make_service-locked :
    (host : Host) (paths : List String) (id : ℕ) (name src args : String)
    → (make_service host paths id name src args).0.locked ≡ false
unfolding make_service
make_service-locked host paths id name src args = ground arith

not_retired :
    (k : ℕ) (s : Server) (xs : List ℕ) (a : ℕ)
    → find k s.mgr.services ≡ some a
    → All (λ x. (find x s.mgr.services ≡ none) × IsLive x s.heap) xs
    → All (λ x. k ≢ x) xs
not_retired k s [] a e r = tt
not_retired k s (x ∷ xs) a e r = (λ p. ground (arith, r.0.0), not_retired k s xs a e r.1)

-- `ServiceMgr::poll` deletes every retired service, none twice, and keeps the invariant.
pub poll-Keeps : (s : Server) → IsSound s → Keeps s (poll s)
poll-Keeps s v =
    let lives = All-map (λ x h. h.1) s.mgr.pre_destroy v.retired in
    let (heap, r) =
      delete_all_lem s.mgr.auto_id s.mgr.pre_destroy s.heap v.heap_sorted v.heap_below v.unlocked
        lives v.distinct in
    (
      tt,
      record s { heap = heap; mgr = record s.mgr { pre_destroy = [] } },
      poll_lem heap s v.free r.deleted,
      record {
        free = record {
          services = v.free.services;
          free_services = v.free.free_services;
          pre_destroy = v.free.pre_destroy;
          workers = v.free.workers;
        };
        services_sorted = v.services_sorted;
        services_below = v.services_below;
        heap_sorted = r.sorted;
        heap_below = r.below;
        unlocked = r.unlocked;
        positive = v.positive;
        budget = v.budget;
        few_workers = v.few_workers;
        workers_known = v.workers_known;
        live = λ k a e.
            let (same, (t, at, free)) = v.live k a e in
            (
              same,
              (
                t,
                ground (arith, r.others k (not_retired k s s.mgr.pre_destroy a e v.retired)),
                free,
              ),
            );
        retired = tt;
        distinct = tt;
      },
      record { workers = refl; next_id = refl; queue = refl; pool = refl },
    )

-- The same managers with other objects on the heap.
pub with_heap :
    (s : Server) (heap : Table Service)
    → IsSound s
    → IsAbove 1 heap
    → IsBelow s.mgr.auto_id heap
    → AllValues IsUnlocked heap
    → ((b : ℕ) → IsLive b s.heap → IsLive b heap)
    → IsSound (record s { heap = heap })
with_heap s heap v up low un keep = record {
  free = record {
    services = v.free.services;
    free_services = v.free.free_services;
    pre_destroy = v.free.pre_destroy;
    workers = v.free.workers;
  };
  services_sorted = v.services_sorted;
  services_below = v.services_below;
  heap_sorted = up;
  heap_below = low;
  unlocked = un;
  positive = v.positive;
  budget = v.budget;
  few_workers = v.few_workers;
  workers_known = v.workers_known;
  live = λ k a e. let l = v.live k a e in (l.0, keep a l.1);
  retired = All-map (λ x h. (h.0, keep x h.1)) s.mgr.pre_destroy v.retired;
  distinct = v.distinct;
}

-- `Service::pushMsg` on an object that is free.
push_msg-free :
    (m : ServiceMsg) (t : Service)
    → t.locked ≡ false
    → (t' : Service) × (Service.push_msg m t ≡ ok (tt, t')) × (t'.locked ≡ false)
unfolding Service.push_msg
push_msg-free m t u = elim (Bool-cases t.is_init) [
  | inl e ↦ (record t { msgs = t.msgs ++ m ∷ [] }, ground arith, u)
  | inr e ↦ (t, ground arith, u)
]

-- `send` returns whether or not the service is registered, and keeps the invariant.
pub send-Keeps : (id : ℕ) (m : ServiceMsg) (s : Server) → IsSound s → Keeps s (send id m s)
send-Keeps id m s v = elim (Option-cases (find id s.mgr.services)) [
  | inl e ↦ (
    tt,
    s,
    send_missing id m s v.free e,
    v,
    record { workers = refl; next_id = refl; queue = refl; pool = refl },
  )
  | inr (a, e) ↦
      let (same, (t, at, u)) = v.live id a e in
      let (t', p, u') = push_msg-free m t u in
      (
        tt,
        record s { heap = assign a t' s.heap },
        send_lem id a m t t' s v.free e at p,
        with_heap s (assign a t' s.heap) v (assign-IsAbove 1 a t' s.heap v.heap_sorted)
            (assign-IsBelow s.mgr.auto_id a t' s.heap v.heap_below)
            (assign-AllValues IsUnlocked a t' s.heap u' v.unlocked)
            (λ b l. assign-IsLive a b t' s.heap u' l),
        record { workers = refl; next_id = refl; queue = refl; pool = refl },
      )
]
