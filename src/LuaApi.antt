-- ===== src/LuaApi.antt =====
-- src/lua/luaApi.cpp: what it keeps beside the Lua states (the environment that all services share, the
-- paths for packages, and whether the server runs), and the functions of Lua that work on it.
pub mod Envs
use server.Prelude.{
  ℕ, Bool, true, false, List, [], ◌∷◌, ◌++◌, Option, none, some, Outcome, ok, blocks, fault, ◌>>=◌,
  ◌>>◌, return, get, modify,
}
use server.Prelude.Dict.{Dict, find_key, insert_key}
use server.Lua.{
  LuaValue, string, table, other, integer, number, boolean, nil, LuaTable, done, set_field, Result,
}
use server.Lua
use server.Msg.{c_str}
use server.Config.{Numbers, check_string}

-- `Envs` with its mutex, `IsRun`, `CPath` and `LuaPath`
pub record LuaApi : Type 0 where
  pub envs : Dict (List ℕ)
  pub env_locked : Bool
  pub is_run : Bool
  pub c_path : List ℕ
  pub lua_path : List ℕ

abbrev pub new_api : LuaApi
new_api = record { envs = []; env_locked = false; is_run = true; c_path = []; lua_path = [] }

unfoldable pub lock : LuaApi → Outcome (Unit {0} × LuaApi)
lock s = elim s.env_locked [ true ↦ blocks | false ↦ ok (tt, record s { env_locked = true }) ]

unfoldable pub unlock : LuaApi → Outcome (Unit {0} × LuaApi)
unlock s = ok (tt, record s { env_locked = false })

-- `exit` and `luaExit`, `luaSetCPath`, `luaSetLuaPath` and `luaIsRun`
abbrev pub lua_exit : LuaApi → LuaApi
lua_exit s = record s { is_run = false }

abbrev pub lua_set_c_path : List ℕ → LuaApi → LuaApi
lua_set_c_path path s = record s { c_path = path }

abbrev pub lua_set_lua_path : List ℕ → LuaApi → LuaApi
lua_set_lua_path path s = record s { lua_path = path }

abbrev pub lua_is_run : LuaApi → Bool
lua_is_run s = s.is_run

-- "path" and "cpath"
abbrev pub path_key : List ℕ
path_key = 112 ∷ 97 ∷ 116 ∷ 104 ∷ []

abbrev pub cpath_key : List ℕ
cpath_key = 99 ∷ 112 ∷ 97 ∷ 116 ∷ 104 ∷ []

-- The path of `luaNewState`: the extern path, a semicolon and the server's.
abbrev pub state_path : (extern_lua_path : List ℕ) → LuaApi → List ℕ
state_path [] s = s.lua_path
state_path (c ∷ path) s = (c ∷ path) ++ 59 ∷ s.lua_path

module _ {F G : Type 0} (n : Numbers F G) where
  -- What `luaNewState` writes into the table `package` of the new state.
  unfoldable pub set_paths : (extern_lua_path : List ℕ) → LuaApi → LuaTable F → LuaTable F
  set_paths extern_lua_path s t =
      set_field cpath_key (string (c_str s.c_path))
        (set_field path_key (string (c_str (state_path extern_lua_path s))) t)

  -- An argument after `luaL_checkstring`, which makes a number a text in place.
  abbrev pub checked : LuaValue F → (text : List ℕ) → LuaValue F
  checked (string s) text = string s
  checked _ text = string text

  -- `setEnv` with two arguments. It returns the top of the stack, which is its second argument.
  unfoldable pub set_env :
      (key value : LuaValue F) → LuaApi → Outcome (Result (LuaValue F) × LuaApi)
  unfolding lock unlock
  set_env key value = elim (check_string n key) [
    | Lua.ok k ↦ elim (check_string n value) [
      | Lua.ok v ↦ (do
        lock
        modify (λ s. record s { envs = insert_key k v s.envs })
        unlock
        return (Lua.ok (checked value v)))
      | Lua.raise ↦ return Lua.raise
      | Lua.undefined ↦ return Lua.undefined
    ]
    | Lua.raise ↦ return Lua.raise
    | Lua.undefined ↦ return Lua.undefined
  ]

  -- What `env` pushed, or else its argument.
  abbrev pub env_answer :
      (key : LuaValue F) (text : List ℕ) (found : Option (List ℕ)) → Result (LuaValue F)
  env_answer key text none = Lua.ok (checked key text)
  env_answer key text (some v) = Lua.ok (string (c_str v))

  -- `env` with one argument. It returns the top of the stack: what it pushed, or else its argument.
  unfoldable pub env : (key : LuaValue F) → LuaApi → Outcome (Result (LuaValue F) × LuaApi)
  unfolding lock unlock
  env key = elim (check_string n key) [
    | Lua.ok k ↦ (do lock; s ← get; unlock; return (env_answer key k (find_key k s.envs)))
    | Lua.raise ↦ return Lua.raise
    | Lua.undefined ↦ return Lua.undefined
  ]
