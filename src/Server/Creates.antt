-- ===== src/Server/Creates.antt =====
-- `newService`: with a free worker it returns the next number and keeps the invariant, with none it
-- never returns.
use Prim.Native.String.{String}
use server.Prelude.{
  ℕ, zero, suc, ◌+◌, ◌%◌, ◌^◌, ◌≡◌, refl, ap, subst, Bool, true, false, [], ◌∷◌, ◌++◌, none, some,
  ◌==◌, length, Outcome, ok, blocks, All, All-map, arith, inl, inr, Bool-cases, if◌then◌else◌,
}
use server.Prelude.Table.{
  Table, find, insert, find-insert, insert-AllValues, find_late, insert-IsAbove, insert-IsBelow,
  IsBelow-mono,
}
use server.Service.{Host, Service, make_service}
use server.Server.{Server, ServiceMgr, new_service}
use server.Server.Steps.{IsFree, created, new_service_lem, new_service_blocks}
use server.Server.Sound.{IsSound, IsUnlocked, IsLive, IsWorker, insert-IsLive}
use server.Server.Keeps.{SameWorkers, assign_service-same, make_service-locked}

-- What `newService` does to the lists of the manager and to the workers.
created-IsFree :
    (host : Host) (name src args : String) (is_unique : Bool) (i : ℕ) (others : Table Bool)
    (s : Server)
    → IsFree s
    → IsFree (created host name src args is_unique i others s)
created-IsFree host name src args true i others s v = record {
  services = v.services;
  free_services = v.free_services;
  pre_destroy = v.pre_destroy;
  workers = ground (
    arith,
    (assign_service-same i (some s.mgr.auto_id)
        (record s.worker_mgr { free_workers = others })).locked,
    v.workers,
  );
}
created-IsFree host name src args false i others s v = record {
  services = v.services;
  free_services = v.free_services;
  pre_destroy = v.pre_destroy;
  workers = v.workers;
}

created-workers :
    (host : Host) (name src args : String) (is_unique : Bool) (i : ℕ) (others : Table Bool)
    (s : Server)
    → SameWorkers
        (record s.worker_mgr { free_workers = others })
        (created host name src args is_unique i others s).worker_mgr
created-workers host name src args true i others s =
    assign_service-same i (some s.mgr.auto_id) (record s.worker_mgr { free_workers = others })
created-workers host name src args false i others s = record {
  locked = refl;
  free = refl;
  count = refl;
}

record SameLists (is_unique : Bool) (m n : ServiceMgr) (id : ℕ) : Type 0 where
  next : n.auto_id ≡ (id + 1) % 2 ^ 32
  listed : n.services ≡ insert id id m.services
  waiting : n.pre_destroy ≡ m.pre_destroy
  queue : n.free_services ≡ (if is_unique then m.free_services else m.free_services ++ id ∷ [])

created-lists :
    (host : Host) (name src args : String) (is_unique : Bool) (i : ℕ) (others : Table Bool)
    (s : Server)
    → SameLists is_unique s.mgr (created host name src args is_unique i others s).mgr s.mgr.auto_id
created-lists host name src args true i others s = record {
  next = refl;
  listed = refl;
  waiting = refl;
  queue = refl;
}
created-lists host name src args false i others s = record {
  next = refl;
  listed = refl;
  waiting = refl;
  queue = refl;
}

-- A server that has one more service, `x`, under the next number, and `n` workers still free.
added-IsSound :
    (is_unique : Bool) (s t : Server) (x : Service) (e : ℕ × Bool) (others : Table Bool)
    → IsSound s
    → IsFree t
    → s.worker_mgr.free_workers ≡ e ∷ others
    → SameWorkers (record s.worker_mgr { free_workers = others }) t.worker_mgr
    → SameLists is_unique s.mgr t.mgr s.mgr.auto_id
    → t.heap ≡ insert s.mgr.auto_id x s.heap
    → x.locked ≡ false
    → IsSound t
added-IsSound is_unique s t x e others v free fw w l h u =
    let id : ℕ = s.mgr.auto_id in
    let unlisted : find id s.mgr.services ≡ none =
      find_late id id s.mgr.services v.services_below (omega arith) in
    let absent : find id s.heap ≡ none = find_late id id s.heap v.heap_below (omega arith) in
    let next : t.mgr.auto_id ≡ id + 1 =
      omega (arith, l.next, v.budget, v.few_workers, ap length fw) in
    let keep : (b : ℕ) → IsLive b s.heap → IsLive b t.heap =
      λ b live. rw h (insert-IsLive id b x s.heap absent live) in
    record {
      free = free;
      services_sorted =
          rw l.listed (insert-IsAbove 1 id id s.mgr.services v.positive v.services_sorted);
      services_below =
          rw (l.listed, next)
            (insert-IsBelow (id + 1) id id s.mgr.services (omega arith)
              (IsBelow-mono id (id + 1) s.mgr.services (omega arith) v.services_below));
      heap_sorted = rw h (insert-IsAbove 1 id x s.heap v.positive v.heap_sorted);
      heap_below =
          rw (h, next)
            (insert-IsBelow (id + 1) id x s.heap (omega arith)
              (IsBelow-mono id (id + 1) s.heap (omega arith) v.heap_below));
      unlocked = rw h (insert-AllValues IsUnlocked id x s.heap u v.unlocked);
      positive = omega (arith, next);
      budget = omega (arith, next, v.budget, ap length fw, ap length w.free, w.count);
      few_workers = omega (arith, v.few_workers, w.count);
      workers_known =
          rw (w.free, w.count)
            ((subst (All (IsWorker (length s.worker_mgr.workers))) fw v.workers_known).1);
      live = λ k a f.
          let g : find k (insert id id s.mgr.services) ≡ some a = rw l.listed at f in
          elim (Bool-cases (id == k)) [
            | inl same ↦
                let number : a ≡ id =
                  ground (arith, find-insert id k id s.mgr.services unlisted, g) in
                (
                  ground (arith, number),
                  (x, ground (arith, number, h, find-insert id id x s.heap absent), u),
                )
            | inr other ↦
                let l' =
                  v.live k a (ground (arith, find-insert id k id s.mgr.services unlisted, g)) in
                (l'.0, keep a l'.1)
          ];
      retired = rw l.waiting (
          All-map
            (λ y r. (
              ground (
                arith,
                find-insert id y id s.mgr.services unlisted,
                l.listed,
                r.0,
                r.1.1,
                absent,
              ),
              keep y r.1,
            ))
            s.mgr.pre_destroy v.retired);
      distinct = rw l.waiting v.distinct;
    }

-- What a call of `newService` comes to: it returns the next number, of a service that is registered,
-- takes a free worker, and queues the number of a shared service; or no worker is free and it does
-- not return.
pub data Creates (is_unique : Bool) (s : Server) (id : ℕ) (o : Outcome (ℕ × Server)) : Type 0 where
  returns :
      (t : Server)
      → o ≡ ok (id, t)
      → IsSound t
      → find id t.mgr.services ≡ some id
      → suc (length t.worker_mgr.free_workers) ≡ length s.worker_mgr.free_workers
      → t.mgr.auto_id ≡ suc id
      → t.mgr.free_services
        ≡ (if is_unique then s.mgr.free_services else s.mgr.free_services ++ id ∷ [])
      → Creates is_unique s id o
  never : s.worker_mgr.free_workers ≡ [] → o ≡ blocks → Creates is_unique s id o

Creates-from :
    (host : Host) (name src args : String) (is_unique : Bool) (s : Server) (ws : Table Bool)
    → IsSound s
    → s.worker_mgr.free_workers ≡ ws
    → Creates is_unique s s.mgr.auto_id (new_service host name src args is_unique s)
Creates-from host name src args is_unique s [] v e =
    never e (new_service_blocks host name src args is_unique s v.free e)
Creates-from host name src args is_unique s ((zero, b) ∷ others) v e =
    let known = subst (All (IsWorker (length s.worker_mgr.workers))) e v.workers_known in
    absurd (omega (arith, known.0.0))
Creates-from host name src args is_unique s ((suc i, b) ∷ others) v e =
    let known = subst (All (IsWorker (length s.worker_mgr.workers))) e v.workers_known in
    let id : ℕ = s.mgr.auto_id in
    let t : Server = created host name src args is_unique i others s in
    let x : Service = (make_service host s.mgr.service_paths id name src args).0 in
    let workers = created-workers host name src args is_unique i others s in
    let lists = created-lists host name src args is_unique i others s in
    returns t (new_service_lem host name src args is_unique i b others s v.free e known.0.1)
      (added-IsSound is_unique s t x (suc i, b) others v
        (created-IsFree host name src args is_unique i others s v.free) e workers lists refl
        (make_service-locked host s.mgr.service_paths id name src args))
      (rw lists.listed (
        ground (
          arith,
          find-insert id id id s.mgr.services
              (find_late id id s.mgr.services v.services_below (omega arith)),
        )))
      (omega (arith, ap length e, ap length workers.free))
      (omega (arith, lists.next, v.budget, v.few_workers, ap length e)) lists.queue

pub new_service-Creates :
    (host : Host) (name src args : String) (is_unique : Bool) (s : Server)
    → IsSound s
    → Creates is_unique s s.mgr.auto_id (new_service host name src args is_unique s)
new_service-Creates host name src args is_unique s v =
    Creates-from host name src args is_unique s s.worker_mgr.free_workers v refl
