-- ===== src/Tests/Mains.antt =====
-- The theorem on the configuration at concrete tables.
use server.Prelude.{ℕ, ◌≡◌, refl, true, [], ◌∷◌, some}
use server.Prelude.Int.{ℤ, pos}
use server.Prelude.Dict.{same_text}
use server.Lua.{LuaValue, integer, string, table, LuaTable, done, entry, Result, ok, raise}
use server.Msg.{c_str}
use server.Config.{check_key, check_string}
use server.Tests.Configs.{tenths}
use server.Main.{ServerConfig, new_config, read_config, read_settings, read_setting, push_texts}
use server.Main.Start.{System}

-- `luaL_checknumber` of a number; an integer is taken as it is.
abbrev thread_num_of : LuaValue ℕ → Result ℤ
thread_num_of (integer z) = ok z
thread_num_of v = raise

-- {thread = 4, args = {"x"}}
abbrev no_start : LuaTable ℕ
no_start = entry (string (116 ∷ 104 ∷ 114 ∷ 101 ∷ 97 ∷ 100 ∷ [])) (integer (pos 4)) (
    entry (string (97 ∷ 114 ∷ 103 ∷ 115 ∷ []))
      (table (entry (integer (pos 1)) (string (120 ∷ [])) done)) done)

abbrev read_args : ServerConfig
read_args = record (new_config (pos 8)) { thread_num = pos 4; args = (120 ∷ []) ∷ [] }

-- {start = "m", thread = 4, args = {"x"}}
abbrev with_start : LuaTable ℕ
with_start = entry (string (115 ∷ 116 ∷ 97 ∷ 114 ∷ 116 ∷ [])) (string (109 ∷ [])) no_start

accepted :
    read_config tenths thread_num_of (table with_start) (new_config (pos 8))
    ≡ ok (true, record read_args { start_script = 109 ∷ [] })
unfolding read_config read_settings read_setting push_texts check_key check_string c_str same_text
accepted = refl

-- A config that loads, with the start script "m".
abbrev system : System ℕ
system = record {
  hardware_concurrency = pos 8;
  loads_config = true;
  config = some (table with_start);
  set_log = λ c. true;
  loads_script = λ s. true;
  to_string = λ s. "";
}

abbrev settings : ServerConfig
settings = record read_args { start_script = 109 ∷ [] }
