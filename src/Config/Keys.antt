-- ===== src/Config/Keys.antt =====
-- What the innermost loop of `init` makes of the keys of a line.
use server.Prelude.{
  ℕ, ◌≡◌, refl, ap, sym, ◌∙◌, Bool, true, false, ◌&&◌, List, Option, none, some, if◌then◌else◌,
  Bool-cases, inl, inr, arith,
}
use server.Prelude.Dict.{Dict, find_key, insert_key, same_text, find_key-insert_key}
use server.Lua.{
  LuaValue, nil, boolean, integer, number, string, table, other, LuaTable, done, entry, ok, raise,
  undefined, get_field,
}
use server.Msg.{c_str}
use server.Config.{
  Numbers, Config, ConfigMgrKeyType, new_config, json, data_key, check_key, check_string,
  read_value, insert_value, load_keys,
}
use server.Config.Source.{is_kept, reads_as, is_string, entry_at, has_text, value_loads, line_loads}

abbrev pub is_some {ℓ} : {A : Type ℓ} → Option A → Bool
is_some none = false
is_some (some a) = true

-- The entry that is there, or else the other one.
abbrev pub or_else {ℓ} : {V : Type ℓ} → Option V → Option V → Option V
or_else (some v) w = some v
or_else none w = w

pub check_key_fails : {F : Type 0} (k : LuaValue F) → is_string k ≡ false → check_key k ≡ raise
unfolding check_key
check_key_fails (string k) h = cc
check_key_fails _ h = refl

pub check_key_lem :
    {F : Type 0} (k : LuaValue F)
    → is_string k ≡ true
    → (s : List ℕ) × (check_key k ≡ ok s) × ((i : List ℕ) → reads_as i k ≡ same_text s i)
unfolding check_key
check_key_lem (string k) h = (c_str k, refl, λ i. refl)
check_key_lem nil h = cc
check_key_lem other h = cc
check_key_lem (table t) h = cc
check_key_lem (boolean b) h = cc
check_key_lem (integer z) h = cc
check_key_lem (number x) h = cc

or_else-none {ℓ} : {V : Type ℓ} (v : Option V) → v ≡ or_else v none
or_else-none none = refl
or_else-none (some v) = refl

or_else-insert_key {ℓ} :
    {V : Type ℓ} (j k : List ℕ) (v : V) (m : Dict V) (rest : Option V)
    → or_else (find_key j (insert_key k v m)) rest
      ≡ or_else (find_key j m) (if same_text k j then some v else rest)
or_else-insert_key j k v m rest = rw (find_key-insert_key k j v m) (ground arith)

module _ {F G : Type 0} (n : Numbers F G) where
  -- What `init` makes of a value.
  abbrev pub config_of : LuaValue F → Option (Config G)
  config_of v = elim (read_value n v) [ ok c ↦ c | raise ↦ none | undefined ↦ none ]

  abbrev pub value_at : List ℕ → LuaTable F → Option (Config G)
  value_at k t = elim (entry_at is_kept k t) [ none ↦ none | some v ↦ config_of v ]

  pub text_fails : (v : LuaValue F) → has_text v ≡ false → check_string n v ≡ raise
  unfolding check_string
  text_fails nil h = refl
  text_fails (table t) h = refl
  text_fails (boolean b) h = refl
  text_fails other h = refl
  text_fails (string s) h = cc
  text_fails (integer z) h = cc
  text_fails (number x) h = cc

  pub text_loads : (v : LuaValue F) → has_text v ≡ true → (s : List ℕ) × (check_string n v ≡ ok s)
  unfolding check_string
  text_loads nil h = cc
  text_loads (table t) h = cc
  text_loads (boolean b) h = cc
  text_loads other h = cc
  text_loads (string s) h = (c_str s, refl)
  text_loads (integer z) h = (n.integer_text z, refl)
  text_loads (number x) h = (n.number_text x, refl)

  read_value_fails : (v : LuaValue F) → value_loads v ≡ false → read_value n v ≡ raise
  unfolding read_value
  read_value_fails (table t) h = rw (text_fails (get_field data_key t) h) refl
  read_value_fails nil h = cc
  read_value_fails other h = cc
  read_value_fails (boolean b) h = cc
  read_value_fails (string s) h = cc
  read_value_fails (integer z) h = cc
  read_value_fails (number x) h = cc

  read_value_lem :
      (v : LuaValue F)
      → value_loads v ≡ true
      → (c : Option (Config G)) × (read_value n v ≡ ok c) × (is_kept v ≡ is_some c)
  unfolding read_value
  read_value_lem (table t) h =
      let (s, e) = text_loads (get_field data_key t) h in
      (some (record (new_config n) { value_type = json; string_value = s }), rw e refl, refl)
  read_value_lem nil h = (none, refl, refl)
  read_value_lem other h = (none, refl, refl)
  read_value_lem (boolean b) h = (some _, refl, refl)
  read_value_lem (string s) h = (some _, refl, refl)
  read_value_lem (integer z) h = (some _, refl, refl)
  read_value_lem (number x) h = (some _, refl, refl)

  pub load_keys_fails :
      (t : LuaTable F) (m : ConfigMgrKeyType G) → line_loads t ≡ false → load_keys n t m ≡ raise
  unfolding load_keys line_loads check_key
  load_keys_fails done m h = cc
  load_keys_fails (entry (string k) v t) m h = elim (Bool-cases (value_loads v)) [
    | inl fine ↦
        let (c, e, kept) = read_value_lem v fine in
        rw e (load_keys_fails t (insert_value n (c_str k) c m) (ground arith))
    | inr bad ↦ rw (read_value_fails v bad) refl
  ]
  load_keys_fails (entry _ v t) m h = refl

  value_at_entry :
      (j k : List ℕ) (v : LuaValue F) (t : LuaTable F) (c : Option (Config G))
      → read_value n v ≡ ok c
      → is_kept v ≡ is_some c
      → value_at j (entry (string k) v t)
        ≡ (if is_some c && same_text (c_str k) j then c else value_at j t)
  unfolding entry_at
  value_at_entry j k v t c e kept =
      rw (value_at, kept)
        (elim (Bool-cases (is_some c && same_text (c_str k) j)) [
          | inl here ↦ rw (here, config_of, e) refl
          | inr there ↦ rw there refl
        ])

  insert_value_lem :
      (j k : List ℕ) (c : Option (Config G)) (m : ConfigMgrKeyType G) (rest : Option (Config G))
      → or_else (find_key j (insert_value n k c m)) rest
        ≡ or_else (find_key j m) (if is_some c && same_text k j then c else rest)
  insert_value_lem j k none m rest = refl
  insert_value_lem j k (some c) m rest = or_else-insert_key j k c m rest

  pub load_keys_lem :
      (t : LuaTable F) (m : ConfigMgrKeyType G)
      → line_loads t ≡ true
      → (m' : ConfigMgrKeyType G) × (load_keys n t m ≡ ok m')
        × ((k : List ℕ) → find_key k m' ≡ or_else (find_key k m) (value_at k t))
  unfolding load_keys line_loads check_key entry_at
  load_keys_lem done m h = (m, refl, λ k. or_else-none (find_key k m))
  load_keys_lem (entry (string k) v t) m h =
      let (c, e, kept) = read_value_lem v (ground arith) in
      let (m', e', found) = load_keys_lem t (insert_value n (c_str k) c m) (ground arith) in
      (
        m',
        rw e e',
        λ j.
            found j
            ∙ insert_value_lem j (c_str k) c m (value_at j t)
            ∙ ap (or_else (find_key j m)) (sym (value_at_entry j k v t c e kept)),
      )
  load_keys_lem (entry _ v t) m h = cc
