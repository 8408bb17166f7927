-- ===== src/Config/Source.antt =====
-- The Lua tables that `init` takes, and what they hold.
use server.Prelude.{ℕ, Bool, true, false, ◌&&◌, List, Option, none, some, if◌then◌else◌}
use server.Prelude.Dict.{same_text}
use server.Lua.{
  LuaValue, nil, integer, number, string, table, other, LuaTable, done, entry, get_field,
}
use server.Msg.{c_str}
use server.Config.{data_key}

module _ {F : Type 0} where
  abbrev pub is_table : LuaValue F → Bool
  is_table (table t) = true
  is_table _ = false

  -- A value that a config can hold.
  abbrev pub is_kept : LuaValue F → Bool
  is_kept nil = false
  is_kept other = false
  is_kept _ = true

  -- The key is a text that C++ reads as `k`.
  abbrev pub reads_as : List ℕ → LuaValue F → Bool
  reads_as k (string j) = same_text (c_str j) k
  reads_as k _ = false

  abbrev pub is_string : LuaValue F → Bool
  is_string (string s) = true
  is_string _ = false

  -- The first value under a key that reads as `k`, among those that pass the test.
  unfoldable pub entry_at : (LuaValue F → Bool) → List ℕ → LuaTable F → Option (LuaValue F)
  entry_at test k done = none
  entry_at test k (entry j v t) = if test v && reads_as k j then some v else entry_at test k t

  -- What the test says of a table, if the value is one.
  abbrev pub in_table {ℓ} : {V : Type ℓ} → (LuaTable F → Option V) → Option (LuaValue F) → Option V
  in_table f (some (table t)) = f t
  in_table f _ = none

  -- The value that a table of tables of tables holds under the three keys.
  abbrev pub source_value : (config_name id key : List ℕ) → LuaTable F → Option (LuaValue F)
  source_value c i k t =
      in_table (λ config. in_table (entry_at is_kept k) (entry_at is_table i config))
        (entry_at is_table c t)

  -- `luaL_checkstring` accepts the value.
  abbrev pub has_text : LuaValue F → Bool
  has_text (string s) = true
  has_text (integer z) = true
  has_text (number x) = true
  has_text _ = false

  abbrev pub value_loads : LuaValue F → Bool
  value_loads (table t) = has_text (get_field data_key t)
  value_loads _ = true

  -- Every key is a text, and every table among the values has a text as its data.
  unfoldable pub line_loads : LuaTable F → Bool
  line_loads done = true
  line_loads (entry k v t) = is_string k && (value_loads v && line_loads t)

  -- Every line has a text for its key, and loads.
  unfoldable pub config_loads : LuaTable F → Bool
  config_loads done = true
  config_loads (entry k (table line) t) = is_string k && (line_loads line && config_loads t)
  config_loads (entry k _ t) = config_loads t

  unfoldable pub table_loads : LuaTable F → Bool
  table_loads done = true
  table_loads (entry k (table config) t) = is_string k && (config_loads config && table_loads t)
  table_loads (entry k _ t) = table_loads t

  -- A table of tables of tables that `init` accepts.
  abbrev pub loads : LuaValue F → Bool
  loads (table t) = table_loads t
  loads _ = false
