-- ===== src/Threads/Moves.antt =====
-- What one step of a worker thread does to the queue of free services and to what the thread has.
use mathlib.Core.Path.{subst₂}
use native.Mathlib.Nat.{le_refl}
use server.Prelude.{
  ℕ, zero, suc, ◌+◌, ◌≤◌, ◌≡◌, refl, ◌∙◌, true, false, List, [], ◌∷◌, ◌++◌, Option, none, some,
  get_elem?, Outcome, ok, blocks, fault, arith, inl, inr, Bool-cases, Option-cases, ◌==◌,
}
use server.Prelude.Table.{
  find-AllValues, assign-AllValues, find, assign, assign-IsAbove, assign-IsBelow,
}
use server.Msg.{LuaMsg}
use server.Service.{Host, Service, Polling}
use server.Service
use server.WorkerMgr.{Worker}
use server.Server.{Server, get_free_service_id, push_free_service_id}
use server.Server.Steps.{get_service_lem}
use server.Server.Sound.{IsSound, IsUnlocked, assign-IsLive}
use server.Server.Keeps.{with_heap}
use server.Server.Shutdown.{with_pool}
use server.Server.History.{with_free_services}
use server.Threads.{
  Pc, at_top, fetched, holding, polled, stopped, look, resolve, poll_service, poll_held, give_back,
  turn,
}
use server.Threads.Tokens.{one_if, count, token, count-append}

-- A step of one thread keeps the manager's invariant and moves a number between the queue and the
-- thread, or drops it.
pub record Moves (s t : Server) (p q : Pc) : Type 0 where
  pub sound : IsSound t
  pub same_id : t.mgr.auto_id ≡ s.mgr.auto_id
  pub balance :
      (k : ℕ)
      → 1 ≤ k
      → count k t.mgr.free_services + one_if (token q == k)
        ≤ count k s.mgr.free_services + one_if (token p == k)

abbrev pub MovesTo : Server → Pc → Outcome (Pc × Server) → Type 0
MovesTo s p o = (q : Pc) (t : Server) → o ≡ ok (q, t) → Moves s t p q

moves_to :
    (s : Server) (p : Pc) (o : Outcome (Pc × Server)) (q : Pc) (t : Server)
    → o ≡ ok (q, t)
    → Moves s t p q
    → MovesTo s p o
moves_to s p o q t e m q' t' f =
    let same_pc : q ≡ q' = ground arith in
    let same : t ≡ t' = ground arith in subst₂ (λ x y. Moves s y p x) same_pc same m

moves_blocks : (s : Server) (p : Pc) (o : Outcome (Pc × Server)) → o ≡ blocks → MovesTo s p o
moves_blocks s p o e q t f = cc

-- A step that leaves the server.
stays :
    (s : Server) (p q : Pc)
    → IsSound s
    → ((k : ℕ) → 1 ≤ k → one_if (token q == k) ≤ one_if (token p == k))
    → Moves s s p q
stays s p q v h = record { sound = v; same_id = refl; balance = λ k pos. omega (arith, h k pos) }

-- A free worker takes the front of the queue.
look_queue :
    (w : Worker) (s : Server) (ids : List ℕ)
    → IsSound s
    → w.is_run ≡ true
    → w.service ≡ none
    → s.mgr.free_services ≡ ids
    → MovesTo s at_top (look w s)
unfolding look get_free_service_id count
look_queue w s [] v r n e =
    moves_to s at_top _ at_top s (ground (arith, v.free.free_services))
      (stays s _ _ v (λ k h. le_refl _))
look_queue w s (zero ∷ ids) v r n e =
    moves_to s at_top _ at_top (record s { mgr = record s.mgr { free_services = ids } })
      (ground (arith, v.free.free_services))
      (record {
        sound = with_free_services s ids v;
        same_id = refl;
        balance = λ k h. rw e (ground arith);
      })
look_queue w s (suc id ∷ ids) v r n e =
    moves_to s at_top _ (fetched (suc id)) (record s { mgr = record s.mgr { free_services = ids } })
      (ground (arith, v.free.free_services))
      (record {
        sound = with_free_services s ids v;
        same_id = refl;
        balance = λ k h. rw e (ground arith);
      })

look-moves : (w : Worker) (s : Server) → IsSound s → MovesTo s at_top (look w s)
look-moves w s v = elim (Bool-cases w.is_run) [
  | inr r ↦
      moves_to s at_top _ stopped s (unfold look in ground arith) (stays s _ _ v (λ k h. le_refl _))
  | inl r ↦ elim (Option-cases w.service) [
    | inl n ↦ look_queue w s s.mgr.free_services v r n refl
    | inr (a, n) ↦
        moves_to s at_top _ (holding a 0) s (unfold look in ground arith)
          (stays s _ _ v (λ k h. le_refl _))
  ]
]

resolve-moves : (id : ℕ) (s : Server) → IsSound s → MovesTo s (fetched id) (resolve id s)
unfolding resolve
resolve-moves id s v = elim (Option-cases (find id s.mgr.services)) [
  | inl e ↦
      moves_to s (fetched id) _ at_top s (ground (arith, get_service_lem id s.mgr v.free.services))
        (stays s _ _ v (λ k h. ground arith))
  | inr (a, e) ↦
      moves_to s (fetched id) _ (holding a id) s
        (ground (arith, get_service_lem id s.mgr v.free.services))
        (stays s _ _ v (λ k h. le_refl _))
]

give_back-moves : (id : ℕ) (s : Server) → IsSound s → MovesTo s (polled id) (give_back id s)
unfolding give_back count
give_back-moves zero s v = moves_to s (polled 0) _ at_top s refl (stays s _ _ v (λ k h. le_refl _))
give_back-moves (suc n) s v =
    moves_to s (polled (suc n)) _ at_top
      (record s { mgr = record s.mgr { free_services = s.mgr.free_services ++ suc n ∷ [] } })
      (unfold push_free_service_id in ground (arith, v.free.free_services))
      (record {
        sound = with_free_services s (s.mgr.free_services ++ suc n ∷ []) v;
        same_id = refl;
        balance = λ k h. ground (arith, count-append k s.mgr.free_services (suc n ∷ []));
      })

-- `Service::poll` gives back the mutex of the service.
poll-unlocks :
    (host : Host) (p q : Polling) (r : Option (List LuaMsg))
    → p.service.locked ≡ false
    → Service.poll host p ≡ ok (r, q)
    → q.service.locked ≡ false
unfolding Service.poll Service.hand_over
poll-unlocks host p q r u e = ground arith

-- What `poll_service` does to the server when it returns.
data Polls (a : ℕ) (s t : Server) : Type 0 where
  polls :
      (p : Polling)
      → p.service.locked ≡ false
      → t ≡ record s { heap = assign a p.service s.heap; pool = p.pool }
      → Polls a s t

poll_service-Polls :
    (host : Host) (a : ℕ) (s t : Server) (x : Service)
    (o : Outcome (Option (List LuaMsg) × Polling))
    → find a s.heap ≡ some x
    → x.locked ≡ false
    → Service.poll host (record { service = x; pool = s.pool }) ≡ o
    → poll_service host a s ≡ ok (tt, t)
    → Polls a s t
unfolding poll_service
poll_service-Polls host a s t x (ok (r, p)) e u f g =
    polls p (poll-unlocks host (record { service = x; pool = s.pool }) p r u f) (ground arith)
poll_service-Polls host a s t x blocks e u f g = ground arith
poll_service-Polls host a s t x fault e u f g = ground arith

-- The poll of a deleted service does not return, and that of any other is as in `Polls`.
poll_held-Polls :
    (host : Host) (a id : ℕ) (s t : Server) (q : Pc) (o : Outcome (Unit {0} × Server))
    → IsSound s
    → poll_service host a s ≡ o
    → poll_held host a id s ≡ ok (q, t)
    → Polls a s t × (q ≡ polled id)
unfolding poll_held
poll_held-Polls host a id s t q (ok (_, t')) v f e = elim (Option-cases (find a s.heap)) [
  | inl gone ↦ absurd (unfold poll_service in ground arith)
  | inr (x, there) ↦ (
    poll_service-Polls host a s t x _ there (find-AllValues IsUnlocked a x s.heap v.unlocked there)
        refl (f ∙ ground arith),
    ground arith,
  )
]
poll_held-Polls host a id s t q blocks v f e = ground arith
poll_held-Polls host a id s t q fault v f e = ground arith

poll_held-moves :
    (host : Host) (a id : ℕ) (s : Server)
    → IsSound s
    → MovesTo s (holding a id) (poll_held host a id s)
poll_held-moves host a id s v q t e = moved (poll_held-Polls host a id s t q _ v refl e)
  where
    moved : Polls a s t × (q ≡ polled id) → Moves s t (holding a id) q
    moved (polls p u same, done) =
        rw (same, done)
          (record {
            sound =
                with_pool (record s { heap = assign a p.service s.heap }) p.pool
                  (with_heap s (assign a p.service s.heap) v
                    (assign-IsAbove 1 a p.service s.heap v.heap_sorted)
                    (assign-IsBelow s.mgr.auto_id a p.service s.heap v.heap_below)
                    (assign-AllValues IsUnlocked a p.service s.heap u v.unlocked)
                    (λ b l. assign-IsLive a b p.service s.heap u l));
            same_id = refl;
            balance = λ k h. le_refl _;
          })

pub turn-moves :
    (host : Host) (i : ℕ) (p : Pc) (s : Server) → IsSound s → MovesTo s p (turn host i p s)
unfolding turn
turn-moves host i at_top s v = elim (Option-cases (get_elem? s.worker_mgr.workers i)) [
  | inl e ↦ λ q t f. ground arith
  | inr (w, e) ↦ rw (e, turn) (look-moves w s v)
]
turn-moves host i (fetched id) s v = resolve-moves id s v
turn-moves host i (holding a id) s v = poll_held-moves host a id s v
turn-moves host i (polled id) s v = give_back-moves id s v
turn-moves host i stopped s v =
    moves_to s stopped _ stopped s refl (stays s _ _ v (λ k h. le_refl _))
