-- ===== src/Server/Retires.antt =====
-- `destoryService` keeps the invariant of the server.
use server.Prelude.{
  ℕ, ◌≡◌, ◌≢◌, refl, ap, ◌∷◌, some, length, All-map, arith, inl, inr, Option-cases,
}
use server.Prelude.Table.{
  Table, find, erase, assign, IsAbove, find-erase, erase-IsAbove, erase-IsBelow, assign-IsAbove,
  assign-IsBelow, assign-AllValues,
}
use server.Service.{Service}
use server.Server.{Server, destory_service}
use server.Server.Steps.{closed, unassign, destory_service_lem, destory_service_missing}
use server.Server.Sound.{IsSound, IsUnlocked, IsLive, assign-IsLive}
use server.Server.Keeps.{Keeps, unassign-same}

erased :
    (id k a : ℕ) (services : Table ℕ)
    → IsAbove 1 services
    → find k (erase id services) ≡ some a
    → (find k services ≡ some a) × (k ≢ id)
erased id k a services up e = (
  ground (arith, find-erase 1 id k services up),
  λ p. ground (arith, find-erase 1 id k services up),
)

-- `destoryService` returns whether or not the number is registered, and keeps the invariant.
pub destory_service-Keeps : (id : ℕ) (s : Server) → IsSound s → Keeps s (destory_service id s)
destory_service-Keeps id s v = elim (Option-cases (find id s.mgr.services)) [
  | inl e ↦ (
    tt,
    s,
    destory_service_missing id s v.free e,
    v,
    record { workers = refl; next_id = refl; queue = refl; pool = refl },
  )
  | inr (a, e) ↦
      let (same, (t, at, u)) = v.live id a e in
      let workers = unassign-same a s.worker_mgr in
      let heap : Table Service = assign a (closed t) s.heap in
      let live : (b : ℕ) → IsLive b s.heap → IsLive b heap =
        λ b l. assign-IsLive a b (closed t) s.heap u l in
      (
        tt,
        record s {
          worker_mgr = unassign a s.worker_mgr;
          mgr = record s.mgr {
            services = erase id s.mgr.services;
            pre_destroy = a ∷ s.mgr.pre_destroy;
          };
          heap = heap;
        },
        destory_service_lem id a t s v.free e at u,
        record {
          free = record {
            services = v.free.services;
            free_services = v.free.free_services;
            pre_destroy = v.free.pre_destroy;
            workers = ground (arith, workers.locked, v.free.workers);
          };
          services_sorted = erase-IsAbove 1 id s.mgr.services v.services_sorted;
          services_below = erase-IsBelow s.mgr.auto_id id s.mgr.services v.services_below;
          heap_sorted = assign-IsAbove 1 a (closed t) s.heap v.heap_sorted;
          heap_below = assign-IsBelow s.mgr.auto_id a (closed t) s.heap v.heap_below;
          unlocked = assign-AllValues IsUnlocked a (closed t) s.heap u v.unlocked;
          positive = v.positive;
          budget = omega (arith, v.budget, ap length workers.free, workers.count);
          few_workers = omega (arith, v.few_workers, workers.count);
          workers_known = rw (workers.free, workers.count) v.workers_known;
          live = λ k b f.
              let (g, _) = erased id k b s.mgr.services v.services_sorted f in
              let l = v.live k b g in (l.0, live b l.1);
          retired = (
            (
              ground (arith, find-erase 1 id a s.mgr.services v.services_sorted, same),
              live a (t, at, u),
            ),
            All-map
                (λ x h. (
                  ground (arith, find-erase 1 id x s.mgr.services v.services_sorted, h.0),
                  live x h.1,
                ))
                s.mgr.pre_destroy v.retired,
          );
          distinct = (
            All-map (λ x r (p : x ≡ a). ground (arith, r.0, e, same)) s.mgr.pre_destroy v.retired,
            v.distinct,
          );
        },
        record { workers = ap length workers.free; next_id = refl; queue = refl; pool = refl },
      )
]
