-- ===== src/Server/History.antt =====
-- Every history of calls of the service manager.
use Prim.Native.String.{String}
use server.Prelude.{
  ℕ, suc, ◌+◌, ◌<◌, ◌≤◌, ◌≡◌, refl, ap, Bool, List, [], ◌∷◌, ◌++◌, Outcome, ok, blocks, fault, ◌>>◌,
  return, arith, length,
}
use server.Msg.{ServiceMsg}
use server.Service.{Host}
use server.Server.{
  Server, new_service, destory_service, poll, send, query_service, get_free_service_id,
  push_free_service_id, on_mgr,
}
use server.Server.Sound.{IsSound}
use server.Server.Keeps.{Keeps, poll-Keeps, send-Keeps}
use server.Server.Retires.{destory_service-Keeps}
use server.Server.Creates.{Creates, returns, never, new_service-Creates}
use server.Server.Query.{query_service_lem}

-- A call of the manager, by any thread.
pub data Call : Type 0 where
  create_call : (name src args : String) (is_unique : Bool) → Call
  destory_call : ℕ → Call
  send_call : ℕ → ServiceMsg → Call
  query_call : String → Call
  poll_call : Call
  get_free_call : Call
  push_free_call : ℕ → Call

abbrev pub forget {ℓ} : {A : Type ℓ} → Outcome (A × Server) → Outcome (Unit {0} × Server)
forget (ok (a, t)) = ok (tt, t)
forget blocks = blocks
forget fault = fault

unfoldable pub call : Host → Call → Server → Outcome (Unit {0} × Server)
call host (create_call name src args is_unique) s =
    forget (new_service host name src args is_unique s)
call host (destory_call id) s = destory_service id s
call host (send_call id m) s = send id m s
call host (query_call name) s = forget (query_service name s)
call host poll_call s = poll s
call host get_free_call s = forget (on_mgr get_free_service_id s)
call host (push_free_call id) s = on_mgr (push_free_service_id id) s

-- The calls in the order in which they take the manager's mutexes.
unfoldable pub run : Host → List Call → Server → Outcome (Unit {0} × Server)
unfolding call
run host [] = return tt
run host (c ∷ cs) = do call host c; run host cs

-- How many services the calls ask for.
abbrev pub creations : List Call → ℕ
creations [] = 0
creations (create_call name src args is_unique ∷ cs) = suc (creations cs)
creations (c ∷ cs) = creations cs

-- The queue of free services is no part of the invariant.
pub with_free_services :
    (s : Server) (ids : List ℕ)
    → IsSound s
    → IsSound (record s { mgr = record s.mgr { free_services = ids } })
with_free_services s ids v = record {
  free = record {
    services = v.free.services;
    free_services = v.free.free_services;
    pre_destroy = v.free.pre_destroy;
    workers = v.free.workers;
  };
  services_sorted = v.services_sorted;
  services_below = v.services_below;
  heap_sorted = v.heap_sorted;
  heap_below = v.heap_below;
  unlocked = v.unlocked;
  positive = v.positive;
  budget = v.budget;
  few_workers = v.few_workers;
  workers_known = v.workers_known;
  live = v.live;
  retired = v.retired;
  distinct = v.distinct;
}

-- The call returns, and as many workers are free.
abbrev Works {ℓ} : {A : Type ℓ} → Server → Outcome (A × Server) → Type ℓ
Works {A = A} s o =
    (a : A) × (t : Server) × (o ≡ ok (a, t))
    × IsSound t
    × (length t.worker_mgr.free_workers ≡ length s.worker_mgr.free_workers)

Keeps-Works : (s : Server) (o : Outcome (Unit {0} × Server)) → Keeps s o → Works s o
Keeps-Works s o (a, t, e, v, same) = (a, t, e, v, same.workers)

get_free-keeps :
    (s : Server) (ids : List ℕ)
    → IsSound s
    → s.mgr.free_services ≡ ids
    → Works s (forget (on_mgr get_free_service_id s))
unfolding get_free_service_id
get_free-keeps s [] v e = (tt, s, ground (arith, v.free.free_services), v, refl)
get_free-keeps s (id ∷ ids) v e =
    (tt, _, ground (arith, v.free.free_services), with_free_services s ids v, refl)

push_free-keeps : (id : ℕ) (s : Server) → IsSound s → Works s (on_mgr (push_free_service_id id) s)
unfolding push_free_service_id
push_free-keeps id s v = (
  tt,
  _,
  ground (arith, v.free.free_services),
  with_free_services s (s.mgr.free_services ++ id ∷ []) v,
  refl,
)

-- Every other call than `newService` returns and keeps the invariant.
call-keeps :
    (host : Host) (c : Call) (s : Server)
    → creations (c ∷ []) ≡ 0
    → IsSound s
    → Works s (call host c s)
unfolding call
call-keeps host (create_call name src args is_unique) s h v = cc
call-keeps host (destory_call id) s h v = Keeps-Works s _ (destory_service-Keeps id s v)
call-keeps host (send_call id m) s h v = Keeps-Works s _ (send-Keeps id m s v)
call-keeps host (query_call name) s h v =
    let (id, e, _) = query_service_lem name s v in (tt, s, rw e, v, refl)
call-keeps host poll_call s h v = Keeps-Works s _ (poll-Keeps s v)
call-keeps host get_free_call s h v = get_free-keeps s s.mgr.free_services v refl
call-keeps host (push_free_call id) s h v = push_free-keeps id s v

pub call_create :
    (host : Host) (name src args : String) (is_unique : Bool) (s : Server)
    (o : Outcome (ℕ × Server))
    → new_service host name src args is_unique s ≡ o
    → call host (create_call name src args is_unique) s ≡ forget o
unfolding call
call_create host name src args is_unique s o e = rw e

-- The calls return, and leave as many free workers as there were less the services made.
abbrev pub Returns : Host → List Call → Server → Type 0
Returns host cs s =
    (t : Server) × (run host cs s ≡ ok (tt, t))
    × IsSound t
    × (length t.worker_mgr.free_workers + creations cs ≡ length s.worker_mgr.free_workers)

-- From a sound server, a history of calls returns exactly if it makes at most as many services as
-- there are free workers, and then the invariant holds after it; otherwise some `newService` never
-- returns.  No call ever uses or deletes a service that is deleted already.
pub run-IsSound :
    (host : Host) (cs : List Call) (s : Server)
    → IsSound s
    → (creations cs ≤ length s.worker_mgr.free_workers → Returns host cs s)
      × (length s.worker_mgr.free_workers < creations cs → run host cs s ≡ blocks)
unfolding run
run-IsSound host [] s v = (λ h. (s, refl, v, omega arith), λ h. absurd (omega arith))
run-IsSound host (create_call name src args is_unique ∷ cs) s v =
    after (new_service-Creates host name src args is_unique s v) (λ t w. run-IsSound host cs t w)
  where
    after :
        Creates is_unique s s.mgr.auto_id (new_service host name src args is_unique s)
        → ((t : Server)
            → IsSound t
            → (creations cs ≤ length t.worker_mgr.free_workers → Returns host cs t)
              × (length t.worker_mgr.free_workers < creations cs → run host cs t ≡ blocks))
        → (suc (creations cs) ≤ length s.worker_mgr.free_workers
            → Returns host (create_call name src args is_unique ∷ cs) s)
          × (length s.worker_mgr.free_workers < suc (creations cs)
              → run host (create_call name src args is_unique ∷ cs) s ≡ blocks)
    after (returns t e w found less next queued) ih =
        let e' = call_create host name src args is_unique s _ e in
        (
          λ h.
              let (u, f, x, count) = (ih t w).0 (omega arith) in
              (u, rw (e', ◌>>◌) f, x, omega arith),
          λ h. rw (e', ◌>>◌) ((ih t w).1 (omega arith)),
        )
    after (never none_free e) ih = (
      λ h. absurd (omega (arith, ap length none_free)),
      λ h. rw (call_create host name src args is_unique s _ e, ◌>>◌),
    )
run-IsSound host (c ∷ cs) s v =
    let (a, t, e, w, same) = call-keeps host c s refl v in
    let ih = run-IsSound host cs t w in
    (
      λ h. let (u, f, x, count) = ih.0 (omega arith) in (u, rw (e, ◌>>◌) f, x, omega arith),
      λ h. rw (e, ◌>>◌) (ih.1 (omega arith)),
    )
