-- ===== src/MsgPool/Blocking.antt =====
-- `pop` never gives the mutex back, so nobody uses the pool after the first `pop`.
use server.Prelude.{
  ◌≡◌, refl, true, false, List, [], ◌∷◌, ◌++◌, arith, Outcome, ok, blocks, fault, ◌>>◌, return,
}
use server.Msg.{ServiceMsg, reset}
use server.MsgPool.{MsgPool, push, pop}
use server.MsgPool.Laws.{push_lem, pop_lem, rest}

-- A call of the pool, by any thread.
pub data Call : Type 0 where
  push_call : ServiceMsg → Call
  pop_call : Call

unfoldable pub call : Call → MsgPool → Outcome (Unit {0} × MsgPool)
call (push_call m) p = push m p
call pop_call p = elim (pop p) [ ok (m, q) ↦ ok (tt, q) | blocks ↦ blocks | fault ↦ fault ]

-- The calls in the order in which they take the mutex.
unfoldable pub run : List Call → MsgPool → Outcome (Unit {0} × MsgPool)
unfolding call
run [] = return tt
run (c ∷ cs) = do call c; run cs

-- No call follows a `pop`.
abbrev pub PopIsLast : List Call → Type 0
PopIsLast [] = Unit
PopIsLast (push_call m ∷ cs) = PopIsLast cs
PopIsLast (pop_call ∷ []) = Unit
PopIsLast (pop_call ∷ c ∷ cs) = ⊥

call_taken : (c : Call) (p : MsgPool) → p.locked ≡ true → call c p ≡ blocks
unfolding call push pop
call_taken (push_call m) p h = ground arith
call_taken pop_call p h = ground arith

run_taken : (c : Call) (cs : List Call) (p : MsgPool) → p.locked ≡ true → run (c ∷ cs) p ≡ blocks
unfolding run
run_taken c cs p h = rw (call_taken c p h, ◌>>◌)

call_push :
    (m : ServiceMsg) (p : MsgPool)
    → p.locked ≡ false
    → call (push_call m) p ≡ ok (tt, record p { msgs = p.msgs ++ reset m ∷ [] })
unfolding call
call_push m p u = push_lem m p u

call_pop :
    (p : MsgPool)
    → p.locked ≡ false
    → call pop_call p ≡ ok (tt, record { locked = true; msgs = rest p.msgs })
unfolding call
call_pop p u = ground (arith, pop_lem p u)

-- From a free pool, the calls all return exactly if none follows a `pop`; in any other order some
-- call never leaves its loop.
pub run-blocks :
    (cs : List Call) (p : MsgPool)
    → p.locked ≡ false
    → (PopIsLast cs → (q : MsgPool) × (run cs p ≡ ok (tt, q)))
      × ((¬ PopIsLast cs) → run cs p ≡ blocks)
unfolding run
run-blocks [] p u = (λ _. (p, refl), λ n. absurd (n tt))
run-blocks (push_call m ∷ cs) p u =
    let (ends, stuck) = run-blocks cs (record p { msgs = p.msgs ++ reset m ∷ [] }) u in
    (
      λ h. ((ends h).0, rw (call_push m p u, ◌>>◌) (ends h).1),
      λ n. rw (call_push m p u, ◌>>◌) (stuck n),
    )
run-blocks (pop_call ∷ []) p u = (
  λ _. (record { locked = true; msgs = rest p.msgs }, rw (call_pop p u, ◌>>◌)),
  λ n. absurd (n tt),
)
run-blocks (pop_call ∷ c ∷ cs) p u =
    (λ h. elim h [ ], λ n. rw (call_pop p u, ◌>>◌) (run_taken c cs _ refl))
