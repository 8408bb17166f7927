-- ===== src/Config/Shown.antt =====
-- What `getValue` returns of a table that `init` has stored.
use server.Prelude.{
  ℕ, zero, suc, ◌≡◌, refl, ap, sym, ◌∙◌, true, false, List, [], ◌∷◌, Option, none, some, Bool-cases,
  inl, inr,
}
use server.Prelude.Int.{ℤ}
use server.Lua.{
  LuaValue, nil, boolean, integer, number, string, table, other, LuaTable, Result, ok, raise,
  undefined, ◌>>=◌, get_field,
}
use server.Msg.{c_str}
use server.Config.{
  new_config, json, Numbers, ConfigMgr, find_value, data_key, check_string, read_value, init_config,
}
use server.Config.Source.{source_value, has_text, table_loads}
use server.Config.Keys.{config_of, text_loads, text_fails}
use server.Config.Load.{stored, init_config-find_value}
use server.Config.Read.{
  data_table, push_float, push_value, push_integer, or_key, push_found, get_config_value,
}

c_str_twice : (s : List ℕ) → c_str (c_str s) ≡ c_str s
unfolding c_str
c_str_twice [] = refl
c_str_twice (zero ∷ s) = refl
c_str_twice (suc b ∷ s) = ap (◌∷◌ (suc b)) (c_str_twice s)

-- A table comes back with its data only, if this is a text.
abbrev pub data_shown : {F : Type 0} → Result (List ℕ) → Result (List (LuaValue F))
data_shown (ok s) = ok (data_table s ∷ [])
data_shown raise = ok []
data_shown undefined = ok []

module _ {F G : Type 0} (n : Numbers F G) where
  -- A truth value, an integer and a text up to its first zero byte come back; a float comes back as
  -- the integer it is cut to, after narrowing, and a table as one with its data only.
  abbrev pub shown : Option (LuaValue F) → Result (List (LuaValue F))
  shown none = ok []
  shown (some nil) = ok []
  shown (some other) = ok []
  shown (some (boolean b)) = ok (boolean b ∷ [])
  shown (some (integer z)) = ok (integer z ∷ [])
  shown (some (number x)) = (do v ← push_integer (n.truncate (n.narrow x)); ok (v ∷ []))
  shown (some (string s)) = ok (string (c_str s) ∷ [])
  shown (some (table t)) = data_shown (check_string n (get_field data_key t))

  push_found-number :
      (k : List ℕ) (o : Option ℤ)
      → (do pushed ← (do v ← push_integer o; ok (some v)); ok (or_key n k pushed))
        ≡ (do v ← push_integer o; ok (v ∷ []))
  push_found-number k none = refl
  push_found-number k (some z) = refl

  config_of_table :
      (t : LuaTable F) (s : List ℕ)
      → check_string n (get_field data_key t) ≡ ok s
      → config_of n (table t) ≡ some (record (new_config n) { value_type = json; string_value = s })
  unfolding read_value
  config_of_table t s e = rw (config_of, e) refl

  config_of_no_table :
      (t : LuaTable F)
      → check_string n (get_field data_key t) ≡ raise
      → config_of n (table t) ≡ none
  unfolding read_value
  config_of_no_table t e = rw (config_of, e) refl

  shown_table :
      (t : LuaTable F) (r : Result (List ℕ))
      → check_string n (get_field data_key t) ≡ r
      → shown (some (table t)) ≡ data_shown r
  shown_table t r e = ap data_shown e

  push_found-stored : (k : List ℕ) (o : Option (LuaValue F)) → push_found n k (stored n o) ≡ shown o
  unfolding push_found read_value push_value push_float
  push_found-stored k none = refl
  push_found-stored k (some nil) = refl
  push_found-stored k (some other) = refl
  push_found-stored k (some (boolean true)) = refl
  push_found-stored k (some (boolean false)) = refl
  push_found-stored k (some (integer z)) = refl
  push_found-stored k (some (number x)) = push_found-number k (n.truncate (n.narrow x))
  push_found-stored k (some (string s)) = ap (λ u. ok (string u ∷ [])) (c_str_twice s)
  push_found-stored k (some (table t)) = elim (Bool-cases (has_text (get_field data_key t))) [
    | inl text ↦
        let (s, e) = text_loads n (get_field data_key t) text in
        ap (push_found n k) (config_of_table t s e) ∙ sym (shown_table t (ok s) e)
    | inr no_text ↦
        let e = text_fails n (get_field data_key t) no_text in
        ap (push_found n k) (config_of_no_table t e) ∙ sym (shown_table t raise e)
  ]

  get_config_value_lem :
      (c i k : List ℕ) (mgr : ConfigMgr G)
      → get_config_value n (string c) (string i) (string k) mgr
        ≡ push_found n (c_str k) (find_value (c_str c) (c_str i) (c_str k) mgr)
  unfolding get_config_value check_string
  get_config_value_lem c i k mgr = refl

  -- After an `init` on a table that it accepts, `getValue` with three texts returns what the Lua table
  -- has under these texts, each up to its first zero byte, or nothing where it has nothing: truth
  -- values and integers as they were, a text up to its first zero byte, a table with its data only,
  -- and a float cut to an integer, where that is defined.
  pub init_config-get_config_value :
      (t : LuaTable F) (mgr : ConfigMgr G)
      → table_loads t ≡ true
      → (mgr' : ConfigMgr G) × (init_config n (table t) mgr ≡ (ok true, mgr'))
        × ((c i k : List ℕ)
            → get_config_value n (string c) (string i) (string k) mgr'
              ≡ shown (source_value (c_str c) (c_str i) (c_str k) t))
  init_config-get_config_value t mgr h =
      let (mgr', e, found) = init_config-find_value n t mgr h in
      (
        mgr',
        e,
        λ c i k.
            get_config_value_lem c i k mgr'
            ∙ ap (push_found n (c_str k)) (found (c_str c) (c_str i) (c_str k))
            ∙ push_found-stored (c_str k) (source_value (c_str c) (c_str i) (c_str k) t),
      )
