-- ===== src/Server/Shutdown.antt =====
-- The end of the server: `waitAllServiceClose`, up to the loop that waits for the services to go.
use server.Prelude.{
  ℕ, suc, ◌<◌, ◌≤◌, ◌≡◌, refl, ap, ◌∙◌, true, false, List, [], ◌∷◌, ok, blocks, ◌>>=◌, ◌>>◌, arith,
  length, inl, inr, Bool-cases,
}
use server.Prelude.Table.{Table, keys}
use server.Msg.{ServiceMsgType, type_code}
use server.MsgPool.{MsgPool}
use server.MsgPool
use server.MsgPool.Laws.{pop_lem, front, rest}
use server.Server.{Server, close_loop, close_all, on_pool}
use server.Server.Sound.{IsSound}
use server.Server.Keeps.{send-Keeps}

pub with_pool : (s : Server) (p : MsgPool) → IsSound s → IsSound (record s { pool = p })
with_pool s p v = record {
  free = record {
    services = v.free.services;
    free_services = v.free.free_services;
    pre_destroy = v.free.pre_destroy;
    workers = v.free.workers;
  };
  services_sorted = v.services_sorted;
  services_below = v.services_below;
  heap_sorted = v.heap_sorted;
  heap_below = v.heap_below;
  unlocked = v.unlocked;
  positive = v.positive;
  budget = v.budget;
  few_workers = v.few_workers;
  workers_known = v.workers_known;
  live = v.live;
  retired = v.retired;
  distinct = v.distinct;
}

-- `pop` from a server whose pool is free, and from one whose pool is taken.
pub popped :
    (s : Server)
    → s.pool.locked ≡ false
    → on_pool MsgPool.pop s
      ≡ ok
          (front s.pool.msgs, record s { pool = record { locked = true; msgs = rest s.pool.msgs } })
popped s u = ground (arith, pop_lem s.pool u)

pub pop_taken : (s : Server) → s.pool.locked ≡ true → on_pool MsgPool.pop s ≡ blocks
unfolding MsgPool.pop
pop_taken s u = ground arith

close_taken :
    (id : ℕ) (ids : List ℕ) (s : Server) → s.pool.locked ≡ true → close_loop (id ∷ ids) s ≡ blocks
unfolding close_loop
close_taken id ids s u = rw (pop_taken s u, ◌>>=◌)

length-keys {ℓ} : {V : Type ℓ} (m : Table V) → length (keys m) ≡ length m
unfolding keys
length-keys [] = refl
length-keys ((k, v) ∷ m) = ap suc (length-keys m)

-- With one service its message is sent, and the pool stays taken.
close_one :
    (id : ℕ) (s : Server)
    → IsSound s
    → s.pool.locked ≡ false
    → (t : Server) × ((rest_ids : List ℕ) → close_loop (id ∷ rest_ids) s ≡ close_loop rest_ids t)
      × (t.pool.locked ≡ true)
unfolding close_loop
close_one id s v u =
    let message = record (front s.pool.msgs) { msg_type = type_code ServiceMsgType.close } in
    let taken : MsgPool = record { locked = true; msgs = rest s.pool.msgs } in
    let (a, t, e, w, steady) =
      send-Keeps id message (record s { pool = taken }) (with_pool s taken v) in
    (t, λ ids. rw (popped s u, ◌>>=◌) (rw (e, ◌>>◌)), ap (λ p. p.locked) steady.pool)

close_loop-cases :
    (ids : List ℕ) (s : Server)
    → IsSound s
    → (s.pool.locked ≡ true → 0 < length ids → close_loop ids s ≡ blocks)
      × (1 < length ids → close_loop ids s ≡ blocks)
      × (s.pool.locked ≡ false → length ids ≤ 1 → (t : Server) × (close_loop ids s ≡ ok (tt, t)))
unfolding close_loop
close_loop-cases [] s v = (λ u h. absurd (omega arith), λ h. absurd (omega arith), λ u h. (s, refl))
close_loop-cases (id ∷ []) s v = (
  λ u h. close_taken id [] s u,
  λ h. absurd (omega arith),
  λ u h. let (t, e, taken) = close_one id s v u in (t, e []),
)
close_loop-cases (id ∷ j ∷ ids) s v = (
  λ u h. close_taken id (j ∷ ids) s u,
  λ h. elim (Bool-cases s.pool.locked) [
    | inl u ↦ close_taken id (j ∷ ids) s u
    | inr u ↦ let (t, e, taken) = close_one id s v u in e (j ∷ ids) ∙ close_taken j ids t taken
  ],
  λ u h. absurd (omega arith),
)

close_all_lem : (s : Server) → IsSound s → close_all s ≡ close_loop (keys s.mgr.services) s
unfolding close_all
close_all_lem s v = ground (arith, v.free.services)

-- `waitAllServiceClose` sends the close messages and comes to its last loop only if there is at most
-- one service and the mutex of the pool is free: with two services it never returns, and after a
-- `pop` not even with one.
pub close_all-cases :
    (s : Server)
    → IsSound s
    → (s.pool.locked ≡ true → 0 < length s.mgr.services → close_all s ≡ blocks)
      × (1 < length s.mgr.services → close_all s ≡ blocks)
      × (s.pool.locked ≡ false
          → length s.mgr.services ≤ 1
          → (t : Server) × (close_all s ≡ ok (tt, t)))
close_all-cases s v =
    rw (close_all_lem s v, ← length-keys s.mgr.services)
      (close_loop-cases (keys s.mgr.services) s v)
