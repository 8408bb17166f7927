-- ===== src/Config/Load.antt =====
-- What `init` stores of a Lua table, and when it fails.
use server.Prelude.{
  ℕ, ◌≡◌, refl, ap, ◌∙◌, true, false, List, [], Option, none, some, if◌then◌else◌, Bool-cases, inl,
  inr, arith,
}
use server.Prelude.Dict.{Dict, find_key, insert_key, same_text, find_key-insert_key}
use server.Lua.{LuaValue, table, LuaTable, done, entry, ok, raise}
use server.Config.{
  Numbers, Config, ConfigMgr, ConfigMgrKeyType, ConfigMgrLineType, ConfigMgrType, find_config,
  find_line, find_value, load_lines, load_configs, init_config,
}
use server.Config.Source.{
  is_table, is_kept, reads_as, is_string, entry_at, in_table, source_value, line_loads,
  config_loads, table_loads, loads,
}
use server.Config.Keys.{
  check_key_fails, check_key_lem, config_of, value_at, load_keys_fails, load_keys_lem,
}

module _ {F G : Type 0} (n : Numbers F G) where
  -- The value under two keys of a map of maps.
  abbrev pub look {ℓ} : {V : Type ℓ} → (i k : List ℕ) → Dict (Dict V) → Option V → Option V
  look i k m rest = elim (find_key i m) [ none ↦ rest | some line ↦ find_key k line ]

  -- A line that the second loop meets, and one that it steps over.
  abbrev pub line_value : (id key : List ℕ) → LuaTable F → Option (Config G)
  line_value i k t = in_table (value_at n k) (entry_at is_table i t)

  abbrev pub config_value : (config_name id key : List ℕ) → LuaTable F → Option (Config G)
  config_value c i k t = in_table (line_value i k) (entry_at is_table c t)

  look-insert_key {ℓ} :
      {V : Type ℓ} (i k j : List ℕ) (line : Dict V) (m : Dict (Dict V)) (rest : Option V)
      → look i k (insert_key j line m) rest
        ≡ look i k m (if same_text j i then find_key k line else rest)
  look-insert_key i k j line m rest = rw (look, find_key-insert_key j i line m) (ground arith)

  line_step :
      (i k id : List ℕ) (j : LuaValue F) (line t : LuaTable F) (keys : ConfigMgrKeyType G)
      → reads_as i j ≡ same_text id i
      → find_key k keys ≡ value_at n k line
      → (if same_text id i then find_key k keys else line_value i k t)
        ≡ line_value i k (entry j (table line) t)
  unfolding entry_at
  line_step i k id j line t keys r e = elim (Bool-cases (same_text id i)) [
    | inl here ↦ rw (here, e, r ∙ here) refl
    | inr there ↦ rw (there, r ∙ there) refl
  ]

  load_lines_fails :
      (t : LuaTable F) (m : ConfigMgrLineType G) → config_loads t ≡ false → load_lines n t m ≡ raise
  unfolding load_lines config_loads
  load_lines_fails done m h = cc
  load_lines_fails (entry k (table line) t) m h = elim (Bool-cases (is_string k)) [
    | inr bad ↦ rw (check_key_fails k bad) refl
    | inl text ↦ elim (Bool-cases (line_loads line)) [
      | inr bad ↦
          let (id, e, reads) = check_key_lem k text in
          rw e (rw (load_keys_fails n line [] bad) refl)
      | inl fine ↦
          let (id, e, reads) = check_key_lem k text in
          let (keys, e', found) = load_keys_lem n line [] fine in
          rw e (rw e' (load_lines_fails t (insert_key id keys m) (ground arith)))
    ]
  ]
  load_lines_fails (entry k _ t) m h = load_lines_fails t m h

  load_lines_lem :
      (t : LuaTable F) (m : ConfigMgrLineType G)
      → config_loads t ≡ true
      → (m' : ConfigMgrLineType G) × (load_lines n t m ≡ ok m')
        × ((i k : List ℕ) → look i k m' none ≡ look i k m (line_value i k t))
  unfolding load_lines config_loads entry_at find_key
  load_lines_lem done m h = (m, refl, λ i k. refl)
  load_lines_lem (entry j (table line) t) m h =
      let (id, e, reads) = check_key_lem j (ground arith) in
      let (keys, e', inside) = load_keys_lem n line [] (ground arith) in
      let (m', e'', found) = load_lines_lem t (insert_key id keys m) (ground arith) in
      (
        m',
        rw (e, e') e'',
        λ i k.
            found i k
            ∙ look-insert_key i k id keys m (line_value i k t)
            ∙ ap (look i k m) (line_step i k id j line t keys (reads i) (inside k)),
      )
  load_lines_lem (entry j _ t) m h = load_lines_lem t m h

  -- The value under three keys.
  abbrev pub look_in {ℓ} :
      {V : Type ℓ} → (c i k : List ℕ) → Dict (Dict (Dict V)) → Option V → Option V
  look_in c i k m rest = elim (find_key c m) [ none ↦ rest | some config ↦ look i k config none ]

  look_in-insert_key {ℓ} :
      {V : Type ℓ} (c i k j : List ℕ) (config : Dict (Dict V)) (m : Dict (Dict (Dict V)))
      (rest : Option V)
      → look_in c i k (insert_key j config m) rest
        ≡ look_in c i k m (if same_text j c then look i k config none else rest)
  look_in-insert_key c i k j config m rest =
      rw (look_in, find_key-insert_key j c config m) (ground arith)

  config_step :
      (c i k name : List ℕ) (j : LuaValue F) (config t : LuaTable F) (lines : ConfigMgrLineType G)
      → reads_as c j ≡ same_text name c
      → look i k lines none ≡ line_value i k config
      → (if same_text name c then look i k lines none else config_value c i k t)
        ≡ config_value c i k (entry j (table config) t)
  unfolding entry_at
  config_step c i k name j config t lines r e = elim (Bool-cases (same_text name c)) [
    | inl here ↦ rw (here, e, r ∙ here) refl
    | inr there ↦ rw (there, r ∙ there) refl
  ]

  load_configs_fails :
      (t : LuaTable F) (m : ConfigMgrType G) → table_loads t ≡ false → load_configs n t m ≡ raise
  unfolding load_configs table_loads
  load_configs_fails done m h = cc
  load_configs_fails (entry k (table config) t) m h = elim (Bool-cases (is_string k)) [
    | inr bad ↦ rw (check_key_fails k bad) refl
    | inl text ↦ elim (Bool-cases (config_loads config)) [
      | inr bad ↦
          let (name, e, reads) = check_key_lem k text in
          rw e (rw (load_lines_fails config [] bad) refl)
      | inl fine ↦
          let (name, e, reads) = check_key_lem k text in
          let (lines, e', found) = load_lines_lem config [] fine in
          rw e (rw e' (load_configs_fails t (insert_key name lines m) (ground arith)))
    ]
  ]
  load_configs_fails (entry k _ t) m h = load_configs_fails t m h

  load_configs_lem :
      (t : LuaTable F) (m : ConfigMgrType G)
      → table_loads t ≡ true
      → (m' : ConfigMgrType G) × (load_configs n t m ≡ ok m')
        × ((c i k : List ℕ) → look_in c i k m' none ≡ look_in c i k m (config_value c i k t))
  unfolding load_configs table_loads entry_at find_key
  load_configs_lem done m h = (m, refl, λ c i k. refl)
  load_configs_lem (entry j (table config) t) m h =
      let (name, e, reads) = check_key_lem j (ground arith) in
      let (lines, e', inside) = load_lines_lem config [] (ground arith) in
      let (m', e'', found) = load_configs_lem t (insert_key name lines m) (ground arith) in
      (
        m',
        rw (e, e') e'',
        λ c i k.
            found c i k
            ∙ look_in-insert_key c i k name lines m (config_value c i k t)
            ∙ ap (look_in c i k m) (config_step c i k name j config t lines (reads c) (inside i k)),
      )
  load_configs_lem (entry j _ t) m h = load_configs_lem t m h

  find_value_lem :
      (c i k : List ℕ) (mgr : ConfigMgr G) → find_value c i k mgr ≡ look_in c i k mgr.configs none
  unfolding find_value find_line find_config
  find_value_lem c i k mgr = ground arith

  -- What `init` makes of a value that may be missing.
  abbrev pub stored : Option (LuaValue F) → Option (Config G)
  stored none = none
  stored (some v) = config_of n v

  stored-line :
      (k : List ℕ) (o : Option (LuaValue F))
      → in_table (value_at n k) o ≡ stored (in_table (entry_at is_kept k) o)
  stored-line k none = refl
  stored-line k (some (table t)) = elim (entry_at is_kept k t) [ none ↦ refl | some v ↦ refl ]
  stored-line k (some _) = refl

  stored-config :
      (i k : List ℕ) (o : Option (LuaValue F))
      → in_table (line_value i k) o
        ≡ stored (in_table (λ config. in_table (entry_at is_kept k) (entry_at is_table i config)) o)
  stored-config i k none = refl
  stored-config i k (some (table t)) = stored-line k (entry_at is_table i t)
  stored-config i k (some _) = refl

  -- `init` on a table of tables of tables whose keys are texts and whose tables among the values have a
  -- text or number as their data returns true, and from then on a lookup by three keys finds what
  -- `init` makes of the value that the Lua table has first under these keys, as C++ reads them, or
  -- nothing where it has none: whatever the configs were before.
  pub init_config-find_value :
      (t : LuaTable F) (mgr : ConfigMgr G)
      → table_loads t ≡ true
      → (mgr' : ConfigMgr G) × (init_config n (table t) mgr ≡ (ok true, mgr'))
        × ((c i k : List ℕ) → find_value c i k mgr' ≡ stored (source_value c i k t))
  unfolding init_config find_key
  init_config-find_value t mgr h =
      let (m, e, found) = load_configs_lem t [] h in
      (
        record { configs = m },
        rw (init_config, e) refl,
        λ c i k.
            find_value_lem c i k (record { configs = m })
            ∙ found c i k
            ∙ stored-config i k (entry_at is_table c t),
      )

  -- `init` raises an error on a table in which a config, a line or a key of a line that it reads has a
  -- key other than a text, or in which a table among the values has no text or number as its data, and
  -- on what is not a table it returns false; the configs stay as they were, also where entries were
  -- read before the faulty one.
  init_config_keeps :
      (v : LuaValue F) (mgr : ConfigMgr G)
      → loads v ≡ false
      → init_config n v mgr ≡ (if is_table v then raise else ok false, mgr)
  unfolding init_config
  init_config_keeps (table t) mgr h = rw (init_config, load_configs_fails t [] h) refl
  init_config_keeps _ mgr h = refl
