-- ===== src/Tests/Data.antt =====
-- A host, a server with one shared service, and messages.
use server.Prelude.{ℕ, ◌≡◌, refl, true, false, [], ◌∷◌, some, none, arith}
use server.Prelude.Table.{find}
use server.Msg.{ServiceMsg}
use server.Service.{Host, Service, LuaState}
use server.WorkerMgr.{Worker}
use server.Server.{Server}
use server.Server.Sound.{IsSound}

abbrev pub host : Host
host = record { exists = λ p. true; do_file = λ s p. true; has_on_poll = λ s. true }

abbrev pub lua_state : LuaState
lua_state = record { extern_path = "s/?.lua"; service_id = 1; service_name = "echo"; sys_args = "" }

abbrev pub ping : ServiceMsg
ping = record {
  source = 0;
  session = 7;
  msg_type = 2;
  status = 0;
  fd = 0;
  data_len = 2;
  is_ok = false;
  buffer = 104 ∷ 105 ∷ 0 ∷ 0 ∷ [];
  error = [];
}

abbrev pub echo : Service
echo = record {
  id = 1;
  name = "echo";
  state = some lua_state;
  is_init = true;
  msgs = [];
  locked = false;
}

abbrev pub worker : ℕ → Worker
worker i = record { id = i; is_run = true; service = none }

-- Two workers, one of them used for `echo`.
abbrev pub echo_server : Server
echo_server = record {
  pool = record { locked = false; msgs = [] };
  worker_mgr = record {
    locked = false;
    free_workers = (2, true) ∷ [];
    workers = worker 1 ∷ worker 2 ∷ [];
  };
  mgr = record {
    services = (1, 1) ∷ [];
    auto_id = 2;
    service_paths = "s" ∷ [];
    locked = false;
    free_services = 1 ∷ [];
    free_locked = false;
    pre_destroy = [];
    pre_locked = false;
  };
  heap = (1, echo) ∷ [];
  is_run = true;
}

only_echo : (k a : ℕ) → find k echo_server.mgr.services ≡ some a → (a ≡ 1) × (k ≡ 1)
unfolding find
only_echo k a e = ground arith

pub echo_server-IsSound : IsSound echo_server
unfolding find
echo_server-IsSound = record {
  free = record { services = refl; free_services = refl; pre_destroy = refl; workers = refl };
  services_sorted = omega arith;
  services_below = omega arith;
  heap_sorted = omega arith;
  heap_below = omega arith;
  unlocked = (refl, tt);
  positive = omega arith;
  budget = omega arith;
  few_workers = omega arith;
  workers_known = omega arith;
  live = λ k a e.
      let (p, q) = only_echo k a e in (omega (arith, p, q), (echo, ground (arith, p), refl));
  retired = tt;
  distinct = tt;
}
