-- ===== src/MsgPool.antt =====
-- src/service/msg/serviceMsgPool.cpp and .hpp: the pool of messages that are used again.
pub mod Laws
pub mod Blocking
use server.Prelude.{
  ℕ, zero, suc, Bool, true, false, List, [], ◌∷◌, ◌++◌, Option, none, some, if◌then◌else◌, Outcome,
  ok, blocks, fault, ◌>>=◌, ◌>>◌, return, modify,
}
use server.Msg.{ServiceMsg, make_msg, reset}

-- `msgs` is the queue `mPool`, its front first; `locked` says that somebody holds `mLock`.
pub record MsgPool : Type 0 where
  pub locked : Bool
  pub msgs : List ServiceMsg

-- The constructor's loop.
unfoldable pub fill_pool : ℕ → List ServiceMsg
fill_pool zero = []
fill_pool (suc n) = make_msg ∷ fill_pool n

-- `newInst`: `mInst` is made once.
unfoldable pub new_inst : ℕ → Option MsgPool → MsgPool
unfolding fill_pool
new_inst num none = record { locked = false; msgs = fill_pool num }
new_inst num (some p) = p

-- `while (!mLock.try_lock())`: nobody else runs within an action, so a mutex that is taken is never
-- given back.
unfoldable pub lock : MsgPool → Outcome (Unit {0} × MsgPool)
lock p = elim p.locked [ true ↦ blocks | false ↦ ok (tt, record p { locked = true }) ]

unfoldable pub unlock : MsgPool → Outcome (Unit {0} × MsgPool)
unlock p = ok (tt, record p { locked = false })

unfoldable pub push : ServiceMsg → MsgPool → Outcome (Unit {0} × MsgPool)
unfolding lock unlock
push value = do lock; modify (λ p. record p { msgs = p.msgs ++ reset value ∷ [] }); unlock

unfoldable pub take_front : MsgPool → Outcome (ServiceMsg × MsgPool)
take_front p = elim p.msgs [ [] ↦ ok (make_msg, p) | m ∷ ms ↦ ok (m, record p { msgs = ms }) ]

-- `pop` returns with the mutex taken: the source has no `unlock` here.
unfoldable pub pop : MsgPool → Outcome (ServiceMsg × MsgPool)
unfolding lock take_front
pop = do lock; take_front
