-- ===== src/Main/Start.antt =====
-- src/main.cpp: `main` up to the start script, and what the settings mean for the calls that follow.
use Prim.Native.String.{String}
use server.Prelude.{ℕ, ◌≡◌, Bool, true, false, List, map, Option, none, some, if◌then◌else◌, ltb}
use server.Prelude.Int.{ℤ, pos, negsuc}
use server.Lua.{LuaValue, Result, ok, raise, undefined}
use server.Config.{Numbers}
use server.LuaApi.{LuaApi, new_api, lua_set_lua_path, lua_set_c_path}
use server.Server.{Server}
use server.Server.Boot.{boot}
use server.Main.{ServerConfig, new_config, read_config}

-- What the system answers: whether the config's script and the start script load, the global `Config`
-- after the config's script (none where this raises an error), and whether the log can be set.
pub record System (F : Type 0) : Type 0 where
  pub hardware_concurrency : ℤ
  pub loads_config : Bool
  pub config : Option (LuaValue F)
  pub set_log : ServerConfig → Bool
  pub loads_script : List ℕ → Bool
  pub to_string : List ℕ → String

-- `main` returns, or an error that nothing catches ends it, or the start script is called.
pub data Start : Type 0 where
  exits : (code : ℤ) → Start
  aborts : Start
  ready : ServerConfig → LuaApi → Server → Start

-- As many threads as `initWorker` makes for a number.
abbrev pub thread_count : ℤ → ℕ
thread_count (pos num) = num
thread_count (negsuc num) = 0

module _ {F G : Type 0} (n : Numbers F G) (check_thread_num : LuaValue F → Result ℤ) where
  -- From the config on.
  unfoldable pub start_with : System F → Bool × ServerConfig → Start
  unfolding boot
  start_with sys (false, c) = exits (negsuc 0)
  start_with sys (true, c) =
      if sys.set_log c
      then (if sys.loads_script c.start_script
          then ready c (lua_set_c_path c.c_path (lua_set_lua_path c.lua_path new_api))
              (boot (thread_count c.thread_num) (map sys.to_string c.service_paths))
          else exits (negsuc 0))
      else exits (negsuc 0)

  unfoldable pub main_start : (arg : ℕ) → System F → Start
  unfolding start_with read_config
  main_start arg sys =
      if ltb arg 2
      then exits (pos 0)
      else if sys.loads_config
      then elim sys.config [
        | none ↦ exits (negsuc 0)
        | some v ↦ elim (read_config n check_thread_num v (new_config sys.hardware_concurrency)) [
          | ok result ↦ start_with sys result
          | raise ↦ aborts
          | undefined ↦ aborts
        ]
      ]
      else exits (negsuc 0)

  -- Where `main` comes to its start script, the settings were read and are valid, and the server is the
  -- one that they stand for.
  record Started (sys : System F) (c : ServerConfig) (api : LuaApi) (s : Server) : Type 0 where
    made : s ≡ boot (thread_count c.thread_num) (map sys.to_string c.service_paths)
    paths : (api.lua_path ≡ c.lua_path) × (api.c_path ≡ c.c_path)
