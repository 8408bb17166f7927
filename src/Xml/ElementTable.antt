-- ===== src/Xml/ElementTable.antt =====
-- src/xml/xml.cpp: what `encode` writes of the table that `decode` makes of one element.
use server.Prelude.{ℕ, ◌≡◌, refl, ◌∙◌, false, List, [], ◌∷◌, Option, none, some, if◌then◌else◌}
use server.Prelude.Dict.{same_text}
use server.Lua.{
  LuaValue, nil, string, table, LuaTable, done, entry, is_text, set_field, get_field, Result, ok,
  ◌>>=◌,
}
use server.Lua.Ends.{snoc, has_field, set_field-snoc, append, append_done}
use server.Msg.{c_str}
use server.Config.{Numbers, check_key, check_string}
use server.Xml.{
  WriterCall, name_key, attrs_key, children_key, data_key, add_attributes, set_attrs,
  write_attributes, write_attrs, write_data, text_of, element_calls, fetch_create_xml, write_value,
  write_children, write_nested,
}
use server.Xml.Encode.{attribute_calls}

module _ {F G : Type 0} (n : Numbers F G) where
  -- Attributes with different names, none of them in `acc`, and without zero bytes.
  abbrev pub AreNew : LuaTable F → List (List ℕ × List ℕ) → Type 0
  AreNew acc [] = Unit
  AreNew acc ((name, value) ∷ attrs) =
      (c_str name ≡ name)
      × (c_str value ≡ value)
      × (has_field name acc ≡ false)
      × AreNew (snoc acc (string name) (string value)) attrs

  -- The table of the attributes.
  abbrev pub attrs_table : List (List ℕ × List ℕ) → LuaTable F
  attrs_table [] = done
  attrs_table ((name, value) ∷ attrs) = entry (string name) (string value) (attrs_table attrs)

  add_attributes_lem :
      (attrs : List (List ℕ × List ℕ)) (acc : LuaTable F)
      → AreNew acc attrs
      → add_attributes attrs acc ≡ append acc (attrs_table attrs)
  unfolding add_attributes append
  add_attributes_lem [] acc h = refl
  add_attributes_lem ((name, value) ∷ attrs) acc (e, f, new, later) =
      rw (set_field-snoc name (string value) acc new)
        (add_attributes_lem attrs (snoc acc (string name) (string value)) later)

  write_attributes_lem :
      (attrs : List (List ℕ × List ℕ)) (acc : LuaTable F)
      → AreNew acc attrs
      → write_attributes n (attrs_table attrs) ≡ ok (attribute_calls attrs)
  unfolding write_attributes check_key check_string
  write_attributes_lem [] acc h = refl
  write_attributes_lem ((name, value) ∷ attrs) acc (e, f, new, later) =
      rw (e, f, write_attributes_lem attrs (snoc acc (string name) (string value)) later) refl

  write_value_lem :
      (t : LuaTable F)
      → write_value n (table t) ≡ elim (text_of n (get_field name_key t)) [
        | none ↦ ok []
        | some name ↦ write_attrs n (get_field attrs_key t) >>= (λ attrs.
            write_children n t >>= (λ inner.
              ok (element_calls name attrs (write_data (text_of n (get_field data_key t))) inner)))
      ]
  unfolding write_value
  write_value_lem t = refl

  write_children-entry :
      (k v : LuaValue F) (t : LuaTable F)
      → write_children n (entry k v t)
        ≡ (if is_text children_key k then write_nested n v else write_children n t)
  unfolding write_children
  write_children-entry k v t = refl

  write_children-done : write_children n done ≡ ok []
  unfolding write_children
  write_children-done = refl

  write_nested-table : (u : LuaTable F) → write_nested n (table u) ≡ fetch_create_xml n u
  unfolding write_nested
  write_nested-table u = refl

  -- The table of an element, and what it writes.
  abbrev pub element_table :
      List ℕ → List (List ℕ × List ℕ) → (children : Option (LuaTable F)) → LuaTable F
  element_table name [] none = entry (string name_key) (string name) done
  element_table name [] (some u) =
      entry (string name_key) (string name) (entry (string children_key) (table u) done)
  element_table name (attr ∷ attrs) none =
      entry (string name_key) (string name)
        (entry (string attrs_key) (table (attrs_table (attr ∷ attrs))) done)
  element_table name (attr ∷ attrs) (some u) = entry (string name_key) (string name) (
      entry (string attrs_key) (table (attrs_table (attr ∷ attrs)))
        (entry (string children_key) (table u) done))

  abbrev pub children_calls : Option (LuaTable F) → Result (List WriterCall)
  children_calls none = ok []
  children_calls (some u) = fetch_create_xml n u

  name_field :
      (name : List ℕ) (attrs : List (List ℕ × List ℕ)) (o : Option (LuaTable F))
      → (get_field name_key (element_table name attrs o) ≡ string name)
        × (get_field data_key (element_table name attrs o) ≡ nil)
  unfolding get_field same_text
  name_field name [] none = (refl, refl)
  name_field name [] (some u) = (refl, refl)
  name_field name (attr ∷ attrs) none = (refl, refl)
  name_field name (attr ∷ attrs) (some u) = (refl, refl)

  attrs_field :
      (name : List ℕ) (attrs : List (List ℕ × List ℕ)) (o : Option (LuaTable F))
      → AreNew done attrs
      → write_attrs n (get_field attrs_key (element_table name attrs o))
        ≡ ok (attribute_calls attrs)
  unfolding get_field same_text
  attrs_field name [] none new = refl
  attrs_field name [] (some u) new = refl
  attrs_field name (attr ∷ attrs) none new = write_attributes_lem (attr ∷ attrs) done new
  attrs_field name (attr ∷ attrs) (some u) new = write_attributes_lem (attr ∷ attrs) done new

  children_field :
      (name : List ℕ) (attrs : List (List ℕ × List ℕ)) (o : Option (LuaTable F))
      → write_children n (element_table name attrs o) ≡ children_calls o
  unfolding same_text
  children_field name [] none = rw (write_children-entry, write_children-done) refl
  children_field name [] (some u) =
      rw (write_children-entry, write_children-entry, write_nested-table) refl
  children_field name (attr ∷ attrs) none =
      rw (write_children-entry, write_children-entry, write_children-done) refl
  children_field name (attr ∷ attrs) (some u) =
      rw (write_children-entry, write_children-entry, write_children-entry, write_nested-table) refl

  pub write_value-element :
      (name : List ℕ) (attrs : List (List ℕ × List ℕ)) (o : Option (LuaTable F))
      (calls : List WriterCall)
      → c_str name ≡ name
      → AreNew done attrs
      → children_calls o ≡ ok calls
      → write_value n (table (element_table name attrs o))
        ≡ ok (element_calls name (attribute_calls attrs) [] calls)
  write_value-element name attrs o calls e new h =
      write_value_lem (element_table name attrs o)
      ∙ rw
          (
            (name_field name attrs o).0,
            e,
            attrs_field name attrs o new,
            (name_field name attrs o).1,
            children_field name attrs o,
            h,
          )
          refl

  pub set_attrs_lem :
      (name : List ℕ) (attrs : List (List ℕ × List ℕ))
      → AreNew done attrs
      → set_attrs attrs (entry (string name_key) (string name) done) ≡ element_table name attrs none
  unfolding set_field same_text
  set_attrs_lem name [] new = refl
  set_attrs_lem name (attr ∷ attrs) new =
      rw (add_attributes_lem (attr ∷ attrs) done new, append_done (attrs_table (attr ∷ attrs))) refl

  pub set_children_key :
      (name : List ℕ) (attrs : List (List ℕ × List ℕ)) (u : LuaTable F)
      → set_field children_key (table u) (element_table name attrs none)
        ≡ element_table name attrs (some u)
  unfolding set_field same_text
  set_children_key name [] u = refl
  set_children_key name (attr ∷ attrs) u = refl
