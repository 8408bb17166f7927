-- ===== src/Threads/Exclusive.antt =====
-- No two threads work on the same shared service.
use Prim.Native.String.{String}
use server.Prelude.{
  ℕ, ◌+◌, ◌^◌, ◌<◌, ◌≤◌, ◌≡◌, refl, subst, Bool, List, [], ◌∷◌, some, get_elem?, set, Outcome, ok,
  arith, ◌==◌, ℕ_discrete,
}
use server.Service.{Host}
use server.Server.{Server}
use server.Server.Sound.{IsSound}
use server.Server.Keeps.{Keeps, poll-Keeps, send-Keeps}
use server.Server.Retires.{destory_service-Keeps}
use server.Server.Creates.{Creates, returns, never, new_service-Creates}
use server.Server.Query.{query_service_lem}
use server.Server.History.{
  Call, create_call, destory_call, send_call, query_call, poll_call, get_free_call, push_free_call,
  call, forget,
}
use server.Server.Boot.{boot, boot-IsSound, boot-queue}
use server.Threads.{Pc, System, Step, work, manage, Reach, booted, next, start, IsLuaCall}
use server.Threads.Tokens.{
  one_if, count, token, held, count-append, held-set, held-start, held_one, held_two,
}
use server.Threads.Moves.{Moves, turn-moves}

-- Each number is at most once in the queue or with a thread, and a number not given out is nowhere.
record IsExclusive (s : System) : Type 0 where
  sound : IsSound s.server
  single : (k : ℕ) → 1 ≤ k → count k s.server.mgr.free_services + held k s.pcs ≤ 1
  fresh : (k : ℕ) → s.server.mgr.auto_id ≤ k → count k s.server.mgr.free_services + held k s.pcs ≡ 0

work-IsExclusive :
    (s : System) (i : ℕ) (p q : Pc) (t : Server)
    → get_elem? s.pcs i ≡ some p
    → Moves s.server t p q
    → IsExclusive s
    → IsExclusive (record { server = t; pcs = set s.pcs i q })
work-IsExclusive s i p q t e m v = record {
  sound = m.sound;
  single = λ k h. omega (arith, m.balance k h, held-set k s.pcs i p q e, v.single k h);
  fresh = λ k h. omega (
    arith,
    m.same_id,
    v.sound.positive,
    m.balance k (omega (arith, m.same_id, v.sound.positive)),
    held-set k s.pcs i p q e,
    v.fresh k (omega (arith, m.same_id)),
  );
}

-- A call that leaves the queue and the next number.
steady-IsExclusive :
    (s : System) (t : Server) (o : Outcome (Unit {0} × Server))
    → Keeps s.server o
    → o ≡ ok (tt, t)
    → IsExclusive s
    → IsExclusive (record { server = t; pcs = s.pcs })
steady-IsExclusive s t o (_, t', e, w, steady) f v =
    let same : t' ≡ t = ground arith in
    subst (λ x. IsExclusive (record { server = x; pcs = s.pcs })) same
      (record {
        sound = w;
        single = λ k h. rw steady.queue (v.single k h);
        fresh = λ k h. rw steady.queue (v.fresh k (omega (arith, steady.next_id)));
      })

-- A new service: only the number of a shared one joins the queue.
create-IsExclusive :
    (s : System) (t : Server) (is_unique : Bool) (o : Outcome (ℕ × Server))
    → Creates is_unique s.server s.server.mgr.auto_id o
    → forget o ≡ ok (tt, t)
    → IsExclusive s
    → IsExclusive (record { server = t; pcs = s.pcs })
unfolding count
create-IsExclusive s t is_unique o (never none_free e) f v = absurd (ground arith)
create-IsExclusive s t is_unique o (returns t' e w found less next_id queue) f v =
    let same : t' ≡ t = ground arith in
    let id : ℕ = s.server.mgr.auto_id in
    let grown : (k : ℕ)
        → count k t'.mgr.free_services ≤ count k s.server.mgr.free_services + one_if (id == k) =
      λ k. ground (arith, queue, count-append k s.server.mgr.free_services (id ∷ [])) in
    subst (λ x. IsExclusive (record { server = x; pcs = s.pcs })) same
      (record {
        sound = w;
        single = λ k h. ground (arith, grown k, v.single k h, v.fresh k);
        fresh = λ k h. ground (arith, grown k, v.fresh k, next_id);
      })

manage-IsExclusive :
    (host : Host) (c : Call) (s : System) (t : Server)
    → IsLuaCall c
    → call host c s.server ≡ ok (tt, t)
    → IsExclusive s
    → IsExclusive (record { server = t; pcs = s.pcs })
unfolding call
manage-IsExclusive host (create_call name src args is_unique) s t l e v =
    create-IsExclusive s t is_unique _
      (new_service-Creates host name src args is_unique s.server v.sound) e v
manage-IsExclusive host (destory_call id) s t l e v =
    steady-IsExclusive s t _ (destory_service-Keeps id s.server v.sound) e v
manage-IsExclusive host (send_call id m) s t l e v =
    steady-IsExclusive s t _ (send-Keeps id m s.server v.sound) e v
manage-IsExclusive host (query_call name) s t l e v =
    let (id, f, _) = query_service_lem name s.server v.sound in
    subst (λ x. IsExclusive (record { server = x; pcs = s.pcs })) (ground (arith, f)) v
manage-IsExclusive host poll_call s t l e v =
    steady-IsExclusive s t _ (poll-Keeps s.server v.sound) e v
manage-IsExclusive host get_free_call s t l e v = elim l [ ]
manage-IsExclusive host (push_free_call id) s t l e v = elim l [ ]

Step-IsExclusive : {host : Host} {s t : System} → Step host s t → IsExclusive s → IsExclusive t
Step-IsExclusive {host} {s} (work i p q t e f) v =
    work-IsExclusive s i p q t e (turn-moves host i p s.server v.sound q t f) v
Step-IsExclusive {host} {s} (manage c t l e) v = manage-IsExclusive host c s t l e v

start-IsExclusive :
    (thread_num : ℕ) (paths : List String)
    → thread_num < 2 ^ 31
    → IsExclusive (start thread_num paths)
unfolding count
start-IsExclusive num paths h =
    let v = boot-IsSound num paths h in
    let empty : (boot num paths).mgr.free_services ≡ [] = boot-queue num paths in
    record {
      sound = v;
      single = λ k p. rw empty (omega (arith, held-start k num p));
      fresh = λ k p. rw empty (omega (arith, held-start k num (omega (arith, v.positive))));
    }

Reach-IsExclusive :
    {host : Host} {thread_num : ℕ} {paths : List String} {s : System}
    → thread_num < 2 ^ 31
    → Reach host thread_num paths s
    → IsExclusive s
Reach-IsExclusive {thread_num = num} {paths} h booted = start-IsExclusive num paths h
Reach-IsExclusive h (next r st) = Step-IsExclusive st (Reach-IsExclusive h r)

-- In every state that the threads and Lua's calls can reach, where each call of the manager is one step
-- (so that a push by `newService`, which does not take the queue's mutex, is never in the middle of a
-- `getFreeServiceId`), two threads never have the same shared service, so none is polled by two threads
-- at once; and a number that a thread has is not in the queue.
pub Reach-exclusive :
    (host : Host) (thread_num : ℕ) (paths : List String) (s : System) (i j : ℕ) (p q : Pc)
    → thread_num < 2 ^ 31
    → Reach host thread_num paths s
    → get_elem? s.pcs i ≡ some p
    → 1 ≤ token p
    → (get_elem? s.pcs j ≡ some q → token q ≡ token p → i ≡ j)
      × (count (token p) s.server.mgr.free_services ≡ 0)
Reach-exclusive host num paths s i j p q h r e pos =
    let single = (Reach-IsExclusive h r).single (token p) pos in
    let one = held_one (token p) s.pcs i p e refl in
    (
      λ f same. elim (ℕ_discrete i j) [
        | yes d ↦ d
        | no d ↦ absurd (omega (arith, single, held_two (token p) s.pcs i j p q e f refl same d))
      ],
      omega (arith, single, one),
    )
