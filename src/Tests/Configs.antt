-- ===== src/Tests/Configs.antt =====
-- The theorems on the configs and on the encodings at concrete inputs.
use server.Prelude.{ℕ, ◌/◌, ◌≡◌, refl, true, false, List, [], ◌∷◌, none, some}
use server.Prelude.Int.{pos}
use server.Prelude.Dict.{insert_key, find_key, same_text}
use server.Lua.{integer, number, string, table, LuaTable, done, entry, ok}
use server.Config.{
  Numbers, ConfigMgr, find_value, find_line, find_config, init_config, load_configs, load_lines,
  load_keys, check_key, check_string, read_value,
}
use server.Config.Source.{source_value, table_loads, config_loads, line_loads}
use server.Config.Shown.{shown, init_config-get_config_value}
use server.Config.Read.{get_config_value, push_found, push_value, push_float}
use server.Encode.{Icu}
use server.Msg.{c_str}

-- A Lua number in tenths, narrowed without loss.
abbrev pub tenths : Numbers ℕ ℕ
tenths = record {
  narrow = λ x. x;
  zero_float = 0;
  truncate = λ x. some (pos (x / 10));
  integer_text = λ z. [];
  number_text = λ x. [];
  stoi = λ s. none;
}

abbrev pub empty_mgr : ConfigMgr ℕ
empty_mgr = record { configs = [] }

-- {a = {["1"] = {x = 2.5, y = 7}}}
abbrev pub sample : LuaTable ℕ
sample =
    entry (string (97 ∷ []))
      (table (
        entry (string (49 ∷ []))
          (table (
            entry (string (120 ∷ [])) (number 25)
              (entry (string (121 ∷ [])) (integer (pos 7)) done)))
          done))
      done

sample-loads : table_loads sample ≡ true
unfolding table_loads config_loads line_loads
sample-loads = refl

-- A float comes back cut, and a missing key gives nothing.
sample-shown :
    (get_config_value tenths
        (string (97 ∷ []))
        (string (49 ∷ []))
        (string (120 ∷ []))
        (init_config tenths (table sample) empty_mgr).1
      ≡ ok (integer (pos 2) ∷ []))
    × (get_config_value tenths
          (string (97 ∷ []))
          (string (49 ∷ []))
          (string (122 ∷ []))
          (init_config tenths (table sample) empty_mgr).1
        ≡ ok [])
unfolding get_config_value init_config load_configs load_lines load_keys check_key check_string
    read_value insert_key find_key find_value find_line find_config push_found push_value push_float
    same_text c_str
sample-shown = (refl, refl)

init_config-get_config_value_example :
    (mgr' : ConfigMgr ℕ) × (init_config tenths (table sample) empty_mgr ≡ (ok true, mgr'))
    × ((c i k : List ℕ)
        → get_config_value tenths (string c) (string i) (string k) mgr'
          ≡ shown tenths (source_value (c_str c) (c_str i) (c_str k) sample))
init_config-get_config_value_example =
    init_config-get_config_value tenths sample empty_mgr sample-loads

-- {a = {[1] = {}}}, with a number for the key of a line.
abbrev pub faulty : LuaTable ℕ
faulty = entry (string (97 ∷ [])) (table (entry (integer (pos 1)) (table done) done)) done

faulty-fails : table_loads faulty ≡ false
unfolding table_loads config_loads
faulty-fails = refl

-- A converter that copies.
abbrev pub copying : Icu
copying = record { convert = λ to_name from_name capacity bytes. (0, bytes) }
