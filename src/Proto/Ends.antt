-- ===== src/Proto/Ends.antt =====
-- src/protobuf/protobuf.cpp: the recursion of `foreachToMsg`, and the depth of a Lua table.
use server.Prelude.{
  bind, ℕ, zero, suc, ◌+◌, ◌≤◌, ◌≡◌, refl, List, [], ◌∷◌, Option, none, some, arith, Bool-cases,
  Option-cases, inl, inr, ◌<◌, max,
}
use server.Prelude.Int.{ℤ, pos}
use server.Lua.{
  LuaValue, nil, boolean, integer, number, string, table, other, LuaTable, done, entry, get_field,
  get_index,
}
use server.Proto.{
  Field, Schema, nested, Reflection, Conversions, scalar_of, is_message, is_table, add_element,
  add_elements, add_all, set_value, fill_field, fill_fields, foreach_to_msg, Filler,
}

-- How deep the tables of a value are nested.
abbrev mutual
  pub depth : {F : Type 0} → LuaValue F → ℕ
  depth (table t) = suc (table_depth t)
  depth nil = 0
  depth (boolean b) = 0
  depth (integer z) = 0
  depth (number x) = 0
  depth (string k) = 0
  depth other = 0

  pub table_depth : {F : Type 0} → LuaTable F → ℕ
  table_depth done = 0
  table_depth (entry k v t) = max (depth v) (table_depth t)

depth-get_field : {F : Type 0} (k : List ℕ) (t : LuaTable F) → depth (get_field k t) ≤ table_depth t
unfolding get_field
depth-get_field k done = omega arith
depth-get_field k (entry j v t) = let rest = depth-get_field k t in ground arith

depth-get_index : {F : Type 0} (k : ℤ) (t : LuaTable F) → depth (get_index k t) ≤ table_depth t
unfolding get_index
depth-get_index k done = omega arith
depth-get_index k (entry j v t) = let rest = depth-get_index k t in ground arith

-- The option has a value.
abbrev pub Ends {ℓ} : {A : Type ℓ} → Option A → Type ℓ
Ends {A = A} o = (a : A) × (o ≡ some a)

pub Ends-bind {ℓ κ} :
    {A : Type ℓ} {B : Type κ} (o : Option A) (f : A → Option B)
    → Ends o
    → ((a : A) → Ends (f a))
    → Ends (bind o f)
Ends-bind none f (a, h) k = cc
Ends-bind (some b) f h k = k b

module _ {F G : Type 0} (c : Conversions F G) (s : Schema) (r : Reflection F G) where
  open r use {Message, make, set, add, get, items}

  module _ (fill : Filler c s r) (bound : ℕ)
      (ends : (v : LuaValue F) (d : ℕ) (m : Message) → depth v ≤ bound → Ends (fill v d m)) where
    add_element-Ends :
        (f : Field) (i : ℕ) (v : LuaValue F) (m : Message)
        → depth v ≤ bound
        → Ends (add_element c s r fill f i v m)
    unfolding add_element
    add_element-Ends f i v m h = elim (Bool-cases (is_message f.field_type)) [
      | inl msg ↦ elim (Bool-cases (is_table v)) [
        | inl tab ↦
            rw (msg, tab)
              (Ends-bind (fill v f.message_type (make f.message_type))
                (λ n. some (add m i (nested n))) (ends v f.message_type (make f.message_type) h)
                (λ n. (add m i (nested n), refl)))
        | inr stay ↦ rw (msg, stay) (m, refl)
      ]
      | inr plain ↦ elim (Option-cases (scalar_of c {M = Message} f.field_type v)) [
        | inl e ↦ rw (plain, e) (m, refl)
        | inr (x, e) ↦ rw (plain, e) (add m i x, refl)
      ]
    ]

    set_value-Ends :
        (f : Field) (i : ℕ) (v : LuaValue F) (m : Message)
        → depth v ≤ bound
        → Ends (set_value c s r fill f i v m)
    unfolding set_value
    set_value-Ends f i v m h = elim (Bool-cases (is_message f.field_type)) [
      | inl msg ↦ rw msg (
          Ends-bind (fill v f.message_type (make f.message_type)) (λ n. some (set m i (nested n)))
            (ends v f.message_type (make f.message_type) h) (λ n. (set m i (nested n), refl)))
      | inr plain ↦ elim (Option-cases (scalar_of c {M = Message} f.field_type v)) [
        | inl e ↦ rw (plain, e) (m, refl)
        | inr (x, e) ↦ rw (plain, e) (set m i x, refl)
      ]
    ]

    add_elements-Ends :
        (f : Field) (i : ℕ) (t : LuaTable F) (j k : ℕ) (m : Message)
        → table_depth t ≤ bound
        → Ends (add_elements c s r fill f i t j k m)
    unfolding add_elements
    add_elements-Ends f i t j zero m h = (m, refl)
    add_elements-Ends f i t j (suc k) m h =
        let v = get_index (pos (j + 1)) t in
        let le = depth-get_index (pos (j + 1)) t in
        Ends-bind (add_element c s r fill f i v m) (add_elements c s r fill f i t (j + 1) k)
          (add_element-Ends f i v m (omega arith)) (λ n. add_elements-Ends f i t (j + 1) k n h)

    add_all-Ends :
        (f : Field) (i : ℕ) (v : LuaValue F) (m : Message)
        → depth v ≤ bound
        → Ends (add_all c s r fill f i v m)
    add_all-Ends f i (table t) m h = add_elements-Ends f i t 0 (c.len t) m (omega arith)
    add_all-Ends f i nil m h = (m, refl)
    add_all-Ends f i (boolean b) m h = (m, refl)
    add_all-Ends f i (integer z) m h = (m, refl)
    add_all-Ends f i (number x) m h = (m, refl)
    add_all-Ends f i (string k) m h = (m, refl)
    add_all-Ends f i other m h = (m, refl)

    fill_field-Ends :
        (f : Field) (i : ℕ) (v : LuaValue F) (m : Message)
        → depth v ≤ bound
        → Ends (fill_field c s r fill f i v m)
    unfolding fill_field
    fill_field-Ends f i v m h = elim (Bool-cases f.is_repeated) [
      | inl many ↦ rw many (add_all-Ends f i v m h)
      | inr one ↦ rw one (set_value-Ends f i v m h)
    ]

    fill_fields-Ends :
        (fs : List Field) (i : ℕ) (t : LuaTable F) (m : Message)
        → table_depth t ≤ bound
        → Ends (fill_fields c s r fill fs i t m)
    unfolding fill_fields
    fill_fields-Ends [] i t m h = (m, refl)
    fill_fields-Ends (f ∷ fs) i t m h =
        let v = get_field f.name t in
        let le = depth-get_field f.name t in
        Ends-bind (fill_field c s r fill f i v m) (fill_fields c s r fill fs (i + 1) t)
          (fill_field-Ends f i v m (omega arith)) (λ n. fill_fields-Ends fs (i + 1) t n h)

  -- `foreachToMsg` ends on every Lua value, at a depth of calls that is one more than that of its
  -- tables, whatever the message types are.
  foreach_to_msg-Ends :
      (fuel : ℕ) (v : LuaValue F) (d : ℕ) (m : Message)
      → depth v < fuel
      → Ends (foreach_to_msg c s r fuel v d m)
  unfolding foreach_to_msg
  foreach_to_msg-Ends zero v d m h = absurd (omega arith)
  foreach_to_msg-Ends (suc fuel) (table t) d m h =
      fill_fields-Ends (foreach_to_msg c s r fuel) (table_depth t)
        (λ v d m le. foreach_to_msg-Ends fuel v d m (omega arith)) (s d) 0 t m (omega arith)
  foreach_to_msg-Ends (suc fuel) nil d m h = (m, refl)
  foreach_to_msg-Ends (suc fuel) (boolean b) d m h = (m, refl)
  foreach_to_msg-Ends (suc fuel) (integer z) d m h = (m, refl)
  foreach_to_msg-Ends (suc fuel) (number x) d m h = (m, refl)
  foreach_to_msg-Ends (suc fuel) (string k) d m h = (m, refl)
  foreach_to_msg-Ends (suc fuel) other d m h = (m, refl)
