-- ===== src/Threads/Dangling.antt =====
-- A thread that holds a pointer to a service while the service is destroyed.
use server.Prelude.{ℕ, ◌≡◌, List, [], ◌∷◌, none, some, ok, fault, ◌>>◌, All, All-map, arith, subst}
use server.Prelude.Table.{find}
use server.Service.{Host}
use server.Server.{Server, destory_service, poll}
use server.Server.Steps.{destory_service_lem, poll_lem}
use server.Server.Sound.{IsSound, delete_all_lem}
use server.Server.Retires.{destory_service-Keeps}
use server.Server.History.{destory_call, poll_call, run}
use server.Threads.{holding, turn}

-- `destoryService` puts the object on the stack of services to delete.
destory-retires :
    (id a : ℕ) (s : Server)
    → IsSound s
    → find id s.mgr.services ≡ some a
    → (t : Server) × (destory_service id s ≡ ok (tt, t))
      × IsSound t
      × (t.mgr.pre_destroy ≡ a ∷ s.mgr.pre_destroy)
destory-retires id a s v e =
    let (x, t, f, w, _) = destory_service-Keeps id s v in
    let (_, (u, there, free)) = v.live id a e in
    (t, f, w, ground (arith, f, destory_service_lem id a u s v.free e there free))

-- `ServiceMgr::poll` deletes the first of them.
poll-deletes :
    (a : ℕ) (rest : List ℕ) (s : Server)
    → IsSound s
    → s.mgr.pre_destroy ≡ a ∷ rest
    → (t : Server) × (poll s ≡ ok (tt, t)) × (find a t.heap ≡ none)
poll-deletes a rest s v e =
    let (heap, r) =
      delete_all_lem s.mgr.auto_id s.mgr.pre_destroy s.heap v.heap_sorted v.heap_below v.unlocked
        (All-map (λ x h. h.1) s.mgr.pre_destroy v.retired) v.distinct in
    (
      record s { heap = heap; mgr = record s.mgr { pre_destroy = [] } },
      poll_lem heap s v.free r.deleted,
      (subst (All (λ x. find x heap ≡ none)) e r.gone).0,
    )

-- A thread that took the pointer of a registered service before another thread destroyed it and
-- `main` polled polls a deleted service: `destoryService` and `ServiceMgr::poll` wait for no thread.
pub destory-dangles :
    (host : Host) (id a : ℕ) (s : Server)
    → IsSound s
    → find id s.mgr.services ≡ some a
    → (t : Server) × (run host (destory_call id ∷ poll_call ∷ []) s ≡ ok (tt, t))
      × ((i service_id : ℕ) → turn host i (holding a service_id) t ≡ fault)
unfolding run turn
destory-dangles host id a s v e =
    let (t, f, w, retired) = destory-retires id a s v e in
    let (u, g, gone) = poll-deletes a s.mgr.pre_destroy t w retired in
    (u, rw (f, ◌>>◌) (rw (g, ◌>>◌)), λ i service_id. ground (arith, gone))
