-- ===== src/MsgPool/Laws.antt =====
-- What the pool hands out.
use server.Prelude.{
  ℕ, zero, suc, ◌≤◌, ◌≡◌, true, false, List, [], ◌∷◌, ◌++◌, none, length, length-map,
  length-replicate, All, All-append, arith, ok,
}
use server.Msg.{ServiceMsg, IsReset, make_msg, reset, buffer_size}
use server.MsgPool.{MsgPool, new_inst, push, pop}

-- A message as the handlers expect it.
pub record IsUsable (m : ServiceMsg) : Type 0 where
  pub clean : IsReset m
  pub roomy : buffer_size ≤ length m.buffer

make_msg-IsUsable : IsUsable make_msg
unfolding make_msg
make_msg-IsUsable = record {
  clean = ground arith;
  roomy = omega (arith, length-replicate {A = ℕ} buffer_size 0);
}

pub reset-IsUsable : (m : ServiceMsg) → buffer_size ≤ length m.buffer → IsUsable (reset m)
unfolding reset
reset-IsUsable m h = record {
  clean = ground arith;
  roomy = omega (arith, length-map {A = ℕ} {B = ℕ} (λ _. 0) m.buffer);
}

-- Every message of the pool is as the handlers expect it.
abbrev pub IsPool : MsgPool → Type 0
IsPool p = All IsUsable p.msgs

pub new_inst-IsPool : (num : ℕ) → IsPool (new_inst num none)
unfolding new_inst
new_inst-IsPool zero = tt
new_inst-IsPool (suc n) = (make_msg-IsUsable, new_inst-IsPool n)

pub push_lem :
    (value : ServiceMsg) (p : MsgPool)
    → p.locked ≡ false
    → push value p ≡ ok (tt, record p { msgs = p.msgs ++ reset value ∷ [] })
unfolding push
push_lem value p u = ground arith

pub push-IsPool :
    (value : ServiceMsg) (p : MsgPool)
    → buffer_size ≤ length value.buffer
    → IsPool p
    → IsPool (record p { msgs = p.msgs ++ reset value ∷ [] })
push-IsPool value p h w =
    All-append p.msgs (reset value ∷ []) IsUsable (w, (reset-IsUsable value h, tt))

-- The message that `pop` hands out, and what it leaves.
abbrev pub front : List ServiceMsg → ServiceMsg
front [] = make_msg
front (m ∷ ms) = m

abbrev pub rest : List ServiceMsg → List ServiceMsg
rest [] = []
rest (m ∷ ms) = ms

pub pop_lem :
    (p : MsgPool)
    → p.locked ≡ false
    → pop p ≡ ok (front p.msgs, record { locked = true; msgs = rest p.msgs })
unfolding pop
pop_lem p u = ground arith

front-IsUsable :
    (ms : List ServiceMsg) → All IsUsable ms → IsUsable (front ms) × All IsUsable (rest ms)
front-IsUsable [] w = (make_msg-IsUsable, tt)
front-IsUsable (m ∷ ms) w = w

-- `pop` on a free pool whose messages are as they should be hands out a message that is clean but
-- for `fd` and has a buffer of at least 4096 bytes, whether the pool is empty or not, and leaves such
-- a pool.
pop-IsUsable :
    (p : MsgPool)
    → p.locked ≡ false
    → IsPool p
    → (m : ServiceMsg) × (q : MsgPool) × (pop p ≡ ok (m, q)) × IsUsable m × IsPool q
pop-IsUsable p u w =
    let (usable, others) = front-IsUsable p.msgs w in (_, _, pop_lem p u, usable, others)
