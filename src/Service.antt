-- ===== src/Service.antt =====
-- src/service/service.cpp and service.hpp: one Lua state with a queue of messages.
pub mod Poll
use Prim.Native.String.{String, ◌++◌ as str_append}
use server.Prelude.{
  ℕ, ◌≡◌, Bool, true, false, List, [], ◌∷◌, ◌++◌, Option, none, some, if◌then◌else◌, Outcome, ok,
  blocks, fault, ◌>>=◌, ◌>>◌, return, modify, get, zoom,
}
use server.Msg.{ServiceMsg, LuaMsg, lua_view}
use server.MsgPool.{MsgPool}
use server.MsgPool

-- What the service takes from Lua and the file system: `std::filesystem::exists`, whether
-- `luaL_dofile` of a file returns `LUA_OK` in a state, and whether `onPoll` is a function there.
pub record LuaState : Type 0 where
  pub extern_path : String
  pub service_id : ℕ
  pub service_name : String
  pub sys_args : String

pub record Host : Type 0 where
  pub exists : String → Bool
  pub do_file : LuaState → String → Bool
  pub has_on_poll : LuaState → Bool

-- `state` is `mState`, `none` for a null pointer; `msgs` is `mMsgs`, its front first; `locked` says
-- that somebody holds `mMsgLock`.
pub record Service : Type 0 where
  pub id : ℕ
  pub name : String
  pub state : Option LuaState
  pub is_init : Bool
  pub msgs : List ServiceMsg
  pub locked : Bool

-- `(*it) + "/" + src`
abbrev pub path_under : String → String → String
path_under base src = str_append base (str_append "/" src)

-- The loop over the service paths: the first under which the file exists, and the file's path.
unfoldable pub find_file : Host → List String → String → Option (String × String)
find_file host [] src = none
find_file host (base ∷ paths) src =
    if host.exists (path_under base src)
    then some (base, path_under base src)
    else find_file host paths src

-- The constructor; the flag says that it called `luaExit`.
unfoldable pub make_service :
    Host → List String → (id : ℕ) (name src args : String) → Service × Bool
unfolding find_file
make_service host paths id name src args = elim (find_file host paths src) [
  | none ↦ (
    record { id = id; name = name; state = none; is_init = false; msgs = []; locked = false },
    true,
  )
  | some (root, file) ↦
      let L : LuaState = record {
        extern_path = str_append root "/?.lua";
        service_id = id;
        service_name = name;
        sys_args = args;
      } in
      let started = host.do_file L file in
      (
        record {
          id = id;
          name = name;
          state = some L;
          is_init = started;
          msgs = [];
          locked = false;
        },
        if started then false else true,
      )
]

unfoldable pub lock : Service → Outcome (Unit {0} × Service)
lock s = elim s.locked [ true ↦ blocks | false ↦ ok (tt, record s { locked = true }) ]

unfoldable pub unlock : Service → Outcome (Unit {0} × Service)
unlock s = ok (tt, record s { locked = false })

-- `Service::close`
unfoldable pub close : Service → Outcome (Unit {0} × Service)
unfolding lock unlock
close s = elim s.is_init [
  | false ↦ ok (tt, s)
  | true ↦ (do lock; modify (λ t. record t { is_init = false }); unlock) s
]

-- `Service::pushMsg`
unfoldable pub push_msg : ServiceMsg → Service → Outcome (Unit {0} × Service)
unfolding lock unlock
push_msg msg s = elim s.is_init [
  | false ↦ ok (tt, s)
  | true ↦ (do lock; modify (λ t. record t { msgs = t.msgs ++ msg ∷ [] }); unlock) s
]

-- A service with the pool that its `poll` gives the messages back to.
pub record Polling : Type 0 where
  pub service : Service
  pub pool : MsgPool

abbrev pub on_service {ℓ} :
    {A : Type ℓ} → (Service → Outcome (A × Service)) → Polling → Outcome (A × Polling)
on_service = zoom (λ p. p.service) (λ s p. record p { service = s })

-- A read past the end of the buffer is a fault.
unfoldable pub read_msg : ServiceMsg → MsgPool → Outcome (LuaMsg × MsgPool)
read_msg m p = elim (lua_view m) [ none ↦ fault | some v ↦ ok (v, p) ]

-- The `while` of `Service::poll`: each message becomes a Lua table and goes back to the pool.
unfoldable pub drain : List ServiceMsg → MsgPool → Outcome (List LuaMsg × MsgPool)
unfolding read_msg
drain [] = return []
drain (m ∷ ms) = do v ← read_msg m; MsgPool.push m; vs ← drain ms; return (v ∷ vs)

-- The messages are taken with the mutex held.
unfoldable pub drain_all : Polling → Outcome (List LuaMsg × Polling)
drain_all p =
    zoom (λ q. q.pool)
      (λ pool q. record q { service = record q.service { msgs = [] }; pool = pool })
      (drain p.service.msgs) p

unfoldable pub hand_over : Polling → Outcome (Option (List LuaMsg) × Polling)
unfolding lock unlock drain_all
hand_over = do on_service lock; vs ← drain_all; on_service unlock; return (some vs)

-- `Service::poll`: the table with which `onPoll` is called, if it is called. `fault` is a null state.
-- What the called function does next is other calls, and an error of it is only logged.
unfoldable pub poll : Host → Polling → Outcome (Option (List LuaMsg) × Polling)
poll host p = elim p.service.is_init [
  | false ↦ ok (none, p)
  | true ↦ elim p.service.state [
    | none ↦ fault
    | some L ↦ elim (host.has_on_poll L) [ true ↦ hand_over p | false ↦ ok (none, p) ]
  ]
]
