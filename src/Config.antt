-- ===== src/Config.antt =====
-- src/config/configMgr.hpp, configMgr.cpp and luaConfig.cpp. A map is a list of entries; the order in
-- which an iteration of an `unordered_map` visits them is a parameter. A `lua_State*` argument is the
-- list of the call's arguments, of which each binding takes as many as it reads.
pub mod Source
pub mod Keys
pub mod Load
pub mod Read
pub mod Shown
use server.Prelude.{
  ℕ, zero, suc, ◌+◌, ◌≡◌, Bool, true, false, not, List, [], ◌∷◌, ◌++◌, Option, none, some, ◌==◌,
  if◌then◌else◌,
}
use server.Prelude.Int.{ℤ, pos, same_integer}
use server.Prelude.Dict.{Dict, find_key, insert_key}
use server.Lua.{
  LuaValue, nil, boolean, integer, number, string, table, other, LuaTable, done, entry, Result, ok,
  raise, undefined, ◌>>=◌, get_field, set_field, set_index,
}
use server.Msg.{c_str}

-- What the bindings use of the numbers of C++ and Lua. `truncate` is the conversion of a `float` to
-- `lua_Integer`, undefined out of range; the texts are those of `luaL_checkstring` on a number; `stoi`
-- is none where `std::stoi` throws.
pub record Numbers (F G : Type 0) : Type 0 where
  pub narrow : F → G
  pub zero_float : G
  pub truncate : G → Option ℤ
  pub integer_text : ℤ → List ℕ
  pub number_text : F → List ℕ
  pub stoi : List ℕ → Option ℤ

pub data ConfigValueType : Type 0 where
  no_value : ConfigValueType
  int : ConfigValueType
  float : ConfigValueType
  bool : ConfigValueType
  text : ConfigValueType
  json : ConfigValueType

pub record Config (G : Type 0) : Type 0 where
  pub value_type : ConfigValueType
  pub int_value : ℤ
  pub float_value : G
  pub string_value : List ℕ

abbrev pub ConfigMgrKeyType : Type 0 → Type 0
ConfigMgrKeyType G = Dict (Config G)

abbrev pub ConfigMgrLineType : Type 0 → Type 0
ConfigMgrLineType G = Dict (ConfigMgrKeyType G)

abbrev pub ConfigMgrType : Type 0 → Type 0
ConfigMgrType G = Dict (ConfigMgrLineType G)

pub record ConfigMgr (G : Type 0) : Type 0 where
  pub configs : ConfigMgrType G

module _ {G : Type 0} where
  unfoldable pub find_config : List ℕ → ConfigMgr G → Option (ConfigMgrLineType G)
  find_config config_name mgr = find_key config_name mgr.configs

  unfoldable pub find_line : (config_name id : List ℕ) → ConfigMgr G → Option (ConfigMgrKeyType G)
  unfolding find_config
  find_line config_name id mgr = elim (find_config config_name mgr) [
    | none ↦ none
    | some config ↦ find_key id config
  ]

  unfoldable pub find_value : (config_name id key : List ℕ) → ConfigMgr G → Option (Config G)
  unfolding find_line
  find_value config_name id key mgr = elim (find_line config_name id mgr) [
    | none ↦ none
    | some line ↦ find_key key line
  ]

-- The text of the field of a Json value.
abbrev pub data_key : List ℕ
data_key = 100 ∷ 97 ∷ 116 ∷ 97 ∷ []

-- `luaL_checkstring` on a key of a table that `lua_next` visits. It turns a number into a text in
-- place, so that the next `lua_next` does not find the key and raises an error.
unfoldable pub check_key : {F : Type 0} → LuaValue F → Result (List ℕ)
check_key (string k) = ok (c_str k)
check_key _ = raise

module _ {F G : Type 0} (n : Numbers F G) where
  -- `luaL_checkstring` on a value.
  unfoldable pub check_string : LuaValue F → Result (List ℕ)
  check_string (string s) = ok (c_str s)
  check_string (integer z) = ok (n.integer_text z)
  check_string (number x) = ok (n.number_text x)
  check_string _ = raise

  -- `std::make_shared<Config>()`
  abbrev pub new_config : Config G
  new_config = record {
    value_type = no_value;
    int_value = pos 0;
    float_value = n.zero_float;
    string_value = [];
  }

  -- The switch of `initConfig`: none where it only goes on with the next key.
  unfoldable pub read_value : LuaValue F → Result (Option (Config G))
  unfolding check_string
  read_value nil = ok none
  read_value (boolean b) =
      ok (some (record new_config { value_type = bool; int_value = pos (if b then 1 else 0) }))
  read_value (integer z) = ok (some (record new_config { value_type = int; int_value = z }))
  read_value (number x) =
      ok (some (record new_config { value_type = float; float_value = n.narrow x }))
  read_value (string s) =
      ok (some (record new_config { value_type = text; string_value = c_str s }))
  read_value (table t) = do
    s ← check_string (get_field data_key t)
    ok (some (record new_config { value_type = json; string_value = s }))
  read_value other = ok none

  -- `insert`, where the loop gets so far.
  abbrev pub insert_value : List ℕ → Option (Config G) → ConfigMgrKeyType G → ConfigMgrKeyType G
  insert_value key none m = m
  insert_value key (some value) m = insert_key key value m

  -- The loop over the keys of a line.
  unfoldable pub load_keys : LuaTable F → ConfigMgrKeyType G → Result (ConfigMgrKeyType G)
  load_keys done m = ok m
  load_keys (entry k v t) m = do
    key ← check_key k
    value ← read_value v
    load_keys t (insert_value key value m)

  -- The loop over the lines of a config.
  unfoldable pub load_lines : LuaTable F → ConfigMgrLineType G → Result (ConfigMgrLineType G)
  load_lines done m = ok m
  load_lines (entry k (table line) t) m = do
    id ← check_key k
    keys ← load_keys line []
    load_lines t (insert_key id keys m)
  load_lines (entry k _ t) m = load_lines t m

  -- The loop over the configs.
  unfoldable pub load_configs : LuaTable F → ConfigMgrType G → Result (ConfigMgrType G)
  load_configs done m = ok m
  load_configs (entry k (table config) t) m = do
    config_name ← check_key k
    lines ← load_lines config []
    load_configs t (insert_key config_name lines m)
  load_configs (entry k _ t) m = load_configs t m

  -- `initConfig`: what it returns, and the manager afterwards.
  unfoldable pub init_config : LuaValue F → ConfigMgr G → Result Bool × ConfigMgr G
  init_config (table t) mgr = elim (load_configs t []) [
    | ok configs ↦ (ok true, record mgr { configs = configs })
    | raise ↦ (raise, mgr)
    | undefined ↦ (undefined, mgr)
  ]
  init_config _ mgr = (ok false, mgr)
