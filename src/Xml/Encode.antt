-- ===== src/Xml/Encode.antt =====
-- src/xml/xml.cpp: the calls of the writer as a forest of elements.
use server.Prelude.{
  ℕ, ◌≡◌, refl, ap, ◌∙◌, Bool, true, false, List, [], ◌∷◌, ◌++◌, Option, none, some, Bool-cases,
  inl, inr, ◌⊎◌, Option-cases, append_assoc,
}
use server.Lua.{
  LuaValue, nil, boolean, integer, number, string, table, other, LuaTable, done, entry, is_text,
  get_field, Result, ok, bind-ok, ◌>>=◌,
}
use server.Config.{Numbers, check_key, check_string}
use server.Xml.{
  WriterCall, start_element, end_element, write_string, write_attribute, element_calls, write_data,
  write_attributes, write_attrs, text_of, fetch_create_xml, write_value, write_children,
  write_nested, name_key, attrs_key, data_key, children_key,
}

-- Elements side by side: each has a name, attributes, perhaps a text, and elements inside.
pub data Elements : Type 0 where
  no_elements : Elements
  element :
      (name : List ℕ) (attrs : List (List ℕ × List ℕ)) (text : Option (List ℕ))
      (inner rest : Elements)
      → Elements

abbrev pub attribute_calls : List (List ℕ × List ℕ) → List WriterCall
attribute_calls [] = []
attribute_calls ((name, value) ∷ attrs) = write_attribute name value ∷ attribute_calls attrs

abbrev pub text_calls : Option (List ℕ) → List WriterCall
text_calls none = []
text_calls (some s) = write_string s ∷ []

-- The calls that write them: each element is started, given its attributes, its text and its elements,
-- and ended.
unfoldable pub calls_of : Elements → List WriterCall
calls_of no_elements = []
calls_of (element name attrs text inner rest) =
    start_element name
    ∷ (attribute_calls attrs
        ++ (text_calls text ++ (calls_of inner ++ (end_element ∷ calls_of rest))))

flatten :
    (a t c r : List WriterCall)
    → a ++ t ++ c ++ (end_element ∷ []) ++ r ≡ a ++ (t ++ (c ++ (end_element ∷ r)))
flatten a t c r =
    append_assoc (a ++ t ++ c) (end_element ∷ []) r
    ∙ append_assoc (a ++ t) c (end_element ∷ r)
    ∙ append_assoc a t (c ++ (end_element ∷ r))

-- The calls for an element, before those for the next ones.
pub element_calls_lem :
    (name : List ℕ) (attrs : List (List ℕ × List ℕ)) (text : Option (List ℕ))
    (inner rest : Elements)
    → element_calls name (attribute_calls attrs) (write_data text) (calls_of inner) ++ calls_of rest
      ≡ calls_of (element name attrs text inner rest)
unfolding calls_of
element_calls_lem name attrs none inner rest =
    ap (◌∷◌ (start_element name))
      (flatten (attribute_calls attrs) [] (calls_of inner) (calls_of rest))
element_calls_lem name attrs (some s) inner rest =
    ap (◌∷◌ (start_element name))
      (flatten (attribute_calls attrs) (write_string s ∷ []) (calls_of inner) (calls_of rest))

module _ {F G : Type 0} (n : Numbers F G) where
  abbrev pub is_table : LuaValue F → Bool
  is_table (table u) = true
  is_table _ = false

  -- No table, or one without a name.
  abbrev pub IsNameless : LuaValue F → Type 0
  IsNameless (table u) = text_of n (get_field name_key u) ≡ none
  IsNameless _ = Unit

  mutual
    -- The elements of a table: one for each value that is a table with a name, by this table's fields.
    pub data Describes : LuaTable F → Elements → Type 0 where
      nothing : Describes done no_elements
      skipped :
          {k v : LuaValue F} {t : LuaTable F} {es : Elements}
          → IsNameless v
          → Describes t es
          → Describes (entry k v t) es
      described :
          {k : LuaValue F} {u t : LuaTable F} {name : List ℕ} {attrs : List (List ℕ × List ℕ)}
          {inner es : Elements}
          → text_of n (get_field name_key u) ≡ some name
          → write_attrs n (get_field attrs_key u) ≡ ok (attribute_calls attrs)
          → IsInside (get_field children_key u) inner
          → Describes t es
          → Describes
              (entry k (table u) t)
              (element name attrs (text_of n (get_field data_key u)) inner es)

    -- The elements of a value, which has some if it is a table.
    pub data IsInside : LuaValue F → Elements → Type 0 where
      inside : {u : LuaTable F} {es : Elements} → Describes u es → IsInside (table u) es
      outside : {v : LuaValue F} → is_table v ≡ false → IsInside v no_elements

  attributes_lem :
      (t : LuaTable F) (calls : List WriterCall)
      → write_attributes n t ≡ ok calls
      → (attrs : List (List ℕ × List ℕ)) × (calls ≡ attribute_calls attrs)
  unfolding write_attributes
  attributes_lem done calls h = ([], cc)
  attributes_lem (entry k v t) calls h =
      let written = λ (name value : List ℕ) (calls : List WriterCall).
        ok (write_attribute name value ∷ calls) in
      let (name, e, h) =
        bind-ok (check_key k)
          (λ name. check_string n v >>= (λ value. write_attributes n t >>= written name value))
          calls h in
      let (value, f, h) =
        bind-ok (check_string n v) (λ value. write_attributes n t >>= written name value) calls h in
      let (later, g, h) = bind-ok (write_attributes n t) (written name value) calls h in
      let (attrs, same) = attributes_lem t later g in
      let here : calls ≡ write_attribute name value ∷ later = cc in
      ((name, value) ∷ attrs, here ∙ ap (◌∷◌ (write_attribute name value)) same)

  attrs_lem :
      (v : LuaValue F) (calls : List WriterCall)
      → write_attrs n v ≡ ok calls
      → (attrs : List (List ℕ × List ℕ)) × (calls ≡ attribute_calls attrs)
  attrs_lem (table t) calls h = attributes_lem t calls h
  attrs_lem nil calls h = ([], cc)
  attrs_lem (boolean b) calls h = ([], cc)
  attrs_lem (integer z) calls h = ([], cc)
  attrs_lem (number x) calls h = ([], cc)
  attrs_lem (string s) calls h = ([], cc)
  attrs_lem other calls h = ([], cc)

  mutual
    unfolding fetch_create_xml write_value write_children write_nested calls_of get_field

    table_lem :
        (t : LuaTable F) (calls : List WriterCall)
        → fetch_create_xml n t ≡ ok calls
        → (es : Elements) × Describes t es × (calls ≡ calls_of es)
    table_lem done calls h = (no_elements, nothing, cc)
    table_lem (entry k v t) calls h =
        let (here, e, h) =
          bind-ok (write_value n v) (λ here. fetch_create_xml n t >>= (λ later. ok (here ++ later)))
            calls h in
        let (later, f, h) = bind-ok (fetch_create_xml n t) (λ later. ok (here ++ later)) calls h in
        let all : calls ≡ here ++ later = cc in
        let (es, rest, same) = table_lem t later f in
        elim (value_lem v here e) [
          | inl (nameless, none_here) ↦ (es, skipped nameless rest, all ∙ rw (none_here, same) refl)
          | inr (u, name, attrs, inner, is, named, given, under, calls_here) ↦ (
            element name attrs (text_of n (get_field data_key u)) inner es,
            rw is (described named given under rest),
            all
                ∙ rw (calls_here, same)
                    (element_calls_lem name attrs (text_of n (get_field data_key u)) inner es),
          )
        ]

    value_lem :
        (v : LuaValue F) (calls : List WriterCall)
        → write_value n v ≡ ok calls
        → (IsNameless v × (calls ≡ []))
          ⊎ ((u : LuaTable F) × (name : List ℕ) × (attrs : List (List ℕ × List ℕ))
              × (inner : Elements) × (v ≡ table u)
              × (text_of n (get_field name_key u) ≡ some name)
              × (write_attrs n (get_field attrs_key u) ≡ ok (attribute_calls attrs))
              × IsInside (get_field children_key u) inner
              × (calls
                  ≡ element_calls name
                      (attribute_calls attrs)
                      (write_data (text_of n (get_field data_key u)))
                      (calls_of inner)))
    value_lem (table u) calls h = elim (Option-cases (text_of n (get_field name_key u))) [
      | inl nameless ↦
          let h : ◌≡◌ {A = Result (List WriterCall)} (ok []) (ok calls) =
            rw (write_value, nameless) at h in
          inl (nameless, cc)
      | inr (name, named) ↦
          let text = write_data (text_of n (get_field data_key u)) in
          let ending =
            λ (attrs inner : List WriterCall). ok (element_calls name attrs text inner) in
          let h : (write_attrs n (get_field attrs_key u)
                >>= (λ attrs. write_children n u >>= ending attrs))
              ≡ ok calls =
            rw (write_value, named) at h in
          let (given, e, h) =
            bind-ok (write_attrs n (get_field attrs_key u))
              (λ attrs. write_children n u >>= ending attrs) calls h in
          let (under, f, h) = bind-ok (write_children n u) (ending given) calls h in
          let (attrs, same) = attrs_lem (get_field attrs_key u) given e in
          let (inner, d, alike) = children_lem u under f in
          let all : calls ≡ element_calls name given text under = cc in
          inr (u, name, attrs, inner, refl, named, e ∙ ap ok same, d, all ∙ rw (same, alike) refl)
    ]
    value_lem nil calls h = inl (tt, cc)
    value_lem (boolean b) calls h = inl (tt, cc)
    value_lem (integer z) calls h = inl (tt, cc)
    value_lem (number x) calls h = inl (tt, cc)
    value_lem (string s) calls h = inl (tt, cc)
    value_lem other calls h = inl (tt, cc)

    children_lem :
        (t : LuaTable F) (calls : List WriterCall)
        → write_children n t ≡ ok calls
        → (es : Elements) × IsInside (get_field children_key t) es × (calls ≡ calls_of es)
    children_lem done calls h = (no_elements, outside refl, cc)
    children_lem (entry k v t) calls h = elim (Bool-cases (is_text children_key k)) [
      | inl here ↦ rw here (nested_lem v calls (rw here at h))
      | inr there ↦ rw there (children_lem t calls (rw there at h))
    ]

    nested_lem :
        (v : LuaValue F) (calls : List WriterCall)
        → write_nested n v ≡ ok calls
        → (es : Elements) × IsInside v es × (calls ≡ calls_of es)
    nested_lem (table t) calls h = let (es, d, same) = table_lem t calls h in (es, inside d, same)
    nested_lem nil calls h = (no_elements, outside refl, cc)
    nested_lem (boolean b) calls h = (no_elements, outside refl, cc)
    nested_lem (integer z) calls h = (no_elements, outside refl, cc)
    nested_lem (number x) calls h = (no_elements, outside refl, cc)
    nested_lem (string s) calls h = (no_elements, outside refl, cc)
    nested_lem other calls h = (no_elements, outside refl, cc)
