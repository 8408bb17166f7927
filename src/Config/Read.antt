-- ===== src/Config/Read.antt =====
-- src/config/luaConfig.cpp: the bindings that read the configs.
use server.Prelude.{
  ℕ, ◌+◌, Bool, true, false, not, List, [], ◌∷◌, ◌++◌, Option, none, some, if◌then◌else◌,
}
use server.Prelude.Int.{ℤ, pos, same_integer}
use server.Prelude.Dict.{Dict, insert_key}
use server.Lua.{
  LuaValue, boolean, integer, string, table, LuaTable, done, entry, Result, ok, raise, undefined,
  ◌>>=◌, set_field, set_index,
}
use server.Msg.{c_str}
use server.Config.{
  Numbers, Config, ConfigValueType, no_value, int, float, bool, text, json, ConfigMgr,
  ConfigMgrKeyType, ConfigMgrLineType, find_config, find_line, find_value, data_key, check_string,
}

-- The order in which an iteration of an `unordered_map` visits the entries.
pub record MapOrder : Type 1 where
  pub visit : {V : Type 0} → Dict V → Dict V

-- `{data = s}`
abbrev pub data_table : {F : Type 0} → List ℕ → LuaValue F
data_table s = table (set_field data_key (string (c_str s)) done)

abbrev pub push_integer : {F : Type 0} → Option ℤ → Result (LuaValue F)
push_integer none = undefined
push_integer (some z) = ok (integer z)

module _ {F G : Type 0} (n : Numbers F G) where
  -- `lua_pushinteger` of a `float`.
  unfoldable pub push_float : G → Result (LuaValue F)
  push_float x = push_integer (n.truncate x)

  -- The switch on the type: none for a value without a type, for which nothing is pushed.
  unfoldable pub push_value : Config G → Result (Option (LuaValue F))
  unfolding push_float
  push_value c = elim c.value_type [
    | no_value ↦ ok none
    | int ↦ ok (some (integer c.int_value))
    | float ↦ do v ← push_float c.float_value; ok (some v)
    | bool ↦ ok (some (boolean (not (same_integer c.int_value (pos 0)))))
    | text ↦ ok (some (string (c_str c.string_value)))
    | json ↦ ok (some (data_table c.string_value))
  ]

  abbrev pub is_json : ConfigValueType → Bool
  is_json json = true
  is_json _ = false

  -- `jsonKeys.emplace_back`
  abbrev pub note_key : ConfigValueType → List ℕ → List (List ℕ) → List (List ℕ)
  note_key type key keys = if is_json type then keys ++ key ∷ [] else keys

  -- The loop of `getConfigLine` over the entries, which sets the fields of the line's table and
  -- collects the keys of the Json values. Without a value on the stack, `lua_setfield` takes the
  -- table for the value, and the argument under it, a text, for the table: an error.
  unfoldable pub push_line :
      ConfigMgrKeyType G → LuaTable F → List (List ℕ) → Result (LuaTable F × List (List ℕ))
  push_line [] t keys = ok (t, keys)
  push_line ((key, c) ∷ m) t keys = do
    pushed ← push_value c
    elim pushed [
      | none ↦ raise
      | some v ↦ push_line m (set_field (c_str key) v t) (note_key c.value_type key keys)
    ]

  -- The array of the collected keys, from index `i` on.
  unfoldable pub push_keys : ℕ → List (List ℕ) → LuaTable F
  push_keys i [] = done
  push_keys i (key ∷ keys) =
      entry (integer (pos (i + 1))) (string (c_str key)) (push_keys (i + 1) keys)

  module _ (order : MapOrder) where
    -- `getConfigLine`: the values that it returns.
    unfoldable pub get_config_line :
        (config_name id : LuaValue F) → ConfigMgr G → Result (List (LuaValue F))
    get_config_line config_name id mgr = do
      c ← check_string n config_name
      i ← check_string n id
      elim (find_line c i mgr) [
        | none ↦ ok []
        | some line ↦ do
          (t, keys) ← push_line (order.visit line) done []
          ok (table t ∷ table (push_keys 0 keys) ∷ [])
      ]

    -- `toInt`
    unfoldable pub to_int : List ℕ → ℤ
    to_int str = elim (n.stoi str) [ none ↦ pos 0 | some z ↦ z ]

    -- A table is stored at the number that the id begins with, or at the id.
    unfoldable pub set_id : List ℕ → LuaValue F → LuaTable F → LuaTable F
    unfolding to_int
    set_id id v t =
        if same_integer (to_int id) (pos 0)
        then set_field (c_str id) v t
        else set_index (to_int id) v t

    -- The inner loop of `getConfig`, which is that of `getConfigLine` but for a value without a type,
    -- where it pops the line's table and goes on with the wrong one.
    unfoldable pub push_entries :
        ConfigMgrKeyType G → LuaTable F → List (List ℕ) → Result (LuaTable F × List (List ℕ))
    push_entries [] t keys = ok (t, keys)
    push_entries ((key, c) ∷ m) t keys = do
      pushed ← push_value c
      elim pushed [
        | none ↦ undefined
        | some v ↦ push_entries m (set_field (c_str key) v t) (note_key c.value_type key keys)
      ]

    -- `jsonMaps` has an entry for the lines with a Json value only.
    abbrev pub note_line : List ℕ → List (List ℕ) → Dict (List (List ℕ)) → Dict (List (List ℕ))
    note_line id [] maps = maps
    note_line id (key ∷ keys) maps = insert_key id (key ∷ keys) maps

    -- The outer loop.
    unfoldable pub push_lines :
        ConfigMgrLineType G
        → LuaTable F
        → Dict (List (List ℕ))
        → Result (LuaTable F × Dict (List (List ℕ)))
    push_lines [] t maps = ok (t, maps)
    push_lines ((id, line) ∷ m) t maps = do
      (u, keys) ← push_entries (order.visit line) done []
      push_lines m (set_id id (table u) t) (note_line id keys maps)

    -- The loop over `jsonMaps`.
    unfoldable pub push_maps : Dict (List (List ℕ)) → LuaTable F → LuaTable F
    push_maps [] t = t
    push_maps ((id, keys) ∷ m) t = push_maps m (set_id id (table (push_keys 0 keys)) t)

    unfoldable pub get_config : LuaValue F → ConfigMgr G → Result (List (LuaValue F))
    get_config config_name mgr = do
      c ← check_string n config_name
      elim (find_config c mgr) [
        | none ↦ ok []
        | some config ↦ do
          (t, maps) ← push_lines (order.visit config) done []
          ok (table t ∷ table (push_maps (order.visit maps) done) ∷ [])
      ]

  abbrev pub or_key : List ℕ → Option (LuaValue F) → List (LuaValue F)
  or_key key none = string key ∷ []
  or_key key (some v) = v ∷ []

  -- `getConfigValue` from the lookup on. Where nothing is pushed, it returns the top of the stack, its
  -- last argument.
  unfoldable pub push_found : (key : List ℕ) → Option (Config G) → Result (List (LuaValue F))
  push_found key none = ok []
  push_found key (some value) = do pushed ← push_value value; ok (or_key key pushed)

  unfoldable pub get_config_value :
      (config_name id key : LuaValue F) → ConfigMgr G → Result (List (LuaValue F))
  get_config_value config_name id key mgr = do
    c ← check_string n config_name
    i ← check_string n id
    k ← check_string n key
    push_found k (find_value c i k mgr)
