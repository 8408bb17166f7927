-- ===== src/Main.antt =====
-- src/main.cpp: `readConfig`, and `main` up to the main loop. What the system answers is a parameter.
-- `readConfig` runs outside `lua_pcall`, so that a Lua error in it ends the process.
pub mod Settings
pub mod Start
use server.Prelude.{ℕ, Bool, true, false, List, [], ◌∷◌, ◌++◌, Option, none, some, if◌then◌else◌}
use server.Prelude.Int.{ℤ, pos, is_positive}
use server.Prelude.Dict.{same_text}
use server.Lua.{LuaValue, table, LuaTable, done, entry, Result, ok, raise, undefined, ◌>>=◌}
use server.Config.{Numbers, check_key, check_string}

pub record ServerConfig : Type 0 where
  pub thread_num : ℤ
  pub start_script : List ℕ
  pub log_file_path : List ℕ
  pub c_path : List ℕ
  pub lua_path : List ℕ
  pub service_paths : List (List ℕ)
  pub args : List (List ℕ)

abbrev pub new_config : (hardware_concurrency : ℤ) → ServerConfig
new_config hardware_concurrency = record {
  thread_num = hardware_concurrency;
  start_script = [];
  log_file_path = [];
  c_path = [];
  lua_path = [];
  service_paths = [];
  args = [];
}

-- The keys that the loop compares with: thread, start, logFile, luaPath, cPath, servicePath, args.
pub data Setting : Type 0 where
  thread start log_file lua_path c_path service_path args : Setting

abbrev pub name_of : Setting → List ℕ
name_of thread = 116 ∷ 104 ∷ 114 ∷ 101 ∷ 97 ∷ 100 ∷ []
name_of start = 115 ∷ 116 ∷ 97 ∷ 114 ∷ 116 ∷ []
name_of log_file = 108 ∷ 111 ∷ 103 ∷ 70 ∷ 105 ∷ 108 ∷ 101 ∷ []
name_of lua_path = 108 ∷ 117 ∷ 97 ∷ 80 ∷ 97 ∷ 116 ∷ 104 ∷ []
name_of c_path = 99 ∷ 80 ∷ 97 ∷ 116 ∷ 104 ∷ []
name_of service_path = 115 ∷ 101 ∷ 114 ∷ 118 ∷ 105 ∷ 99 ∷ 101 ∷ 80 ∷ 97 ∷ 116 ∷ 104 ∷ []
name_of args = 97 ∷ 114 ∷ 103 ∷ 115 ∷ []

-- The chain of comparisons, in its order.
abbrev pub first_named : List Setting → List ℕ → Option Setting
first_named [] key = none
first_named (s ∷ ss) key = if same_text key (name_of s) then some s else first_named ss key

abbrev pub setting_of : List ℕ → Option Setting
setting_of = first_named (thread ∷ start ∷ log_file ∷ lua_path ∷ c_path ∷ service_path ∷ args ∷ [])

module _ {F G : Type 0} (n : Numbers F G) (check_thread_num : LuaValue F → Result ℤ) where
  -- The loop over a list, whose keys are not read.
  unfoldable pub push_texts : LuaTable F → List (List ℕ) → Result (List (List ℕ))
  push_texts done texts = ok texts
  push_texts (entry k v t) texts = check_string n v >>= (λ text. push_texts t (texts ++ text ∷ []))

  -- `lua_next` on a value that is no table is undefined.
  abbrev pub push_list : LuaValue F → List (List ℕ) → Result (List (List ℕ))
  push_list (table t) texts = push_texts t texts
  push_list v texts = undefined

  -- One entry of the table; `check_thread_num` is `luaL_checknumber` and the conversion to `int32_t`.
  unfoldable pub read_setting : Option Setting → LuaValue F → ServerConfig → Result ServerConfig
  unfolding push_texts
  read_setting none v c = ok c
  read_setting (some thread) v c =
      check_thread_num v >>= (λ num. ok (record c { thread_num = num }))
  read_setting (some start) v c =
      check_string n v >>= (λ text. ok (record c { start_script = text }))
  read_setting (some log_file) v c =
      check_string n v >>= (λ text. ok (record c { log_file_path = text }))
  read_setting (some lua_path) v c =
      check_string n v >>= (λ text. ok (record c { lua_path = text }))
  read_setting (some c_path) v c = check_string n v >>= (λ text. ok (record c { c_path = text }))
  read_setting (some service_path) v c =
      push_list v c.service_paths >>= (λ texts. ok (record c { service_paths = texts }))
  read_setting (some args) v c = push_list v c.args >>= (λ texts. ok (record c { args = texts }))

  unfoldable pub read_settings : LuaTable F → ServerConfig → Result ServerConfig
  unfolding read_setting
  read_settings done c = ok c
  read_settings (entry k v t) c =
      check_key k >>= (λ key. read_setting (setting_of key) v c >>= (λ d. read_settings t d))

  abbrev pub is_empty : List ℕ → Bool
  is_empty [] = true
  is_empty (x ∷ xs) = false

  -- The two tests after the loop.
  abbrev pub is_valid : ServerConfig → Bool
  is_valid c = if is_empty c.start_script then false else is_positive c.thread_num

  -- `readConfig`, on the value of the global `Config`.
  unfoldable pub read_config : LuaValue F → ServerConfig → Result (Bool × ServerConfig)
  unfolding read_settings
  read_config (table t) c = read_settings t c >>= (λ d. ok (is_valid d, d))
  read_config v c = ok (false, c)
