-- ===== src/Xml.antt =====
-- src/xml/xml.cpp: the translation of XML trees into Lua tables and of tables into calls of the XML
-- writer. The parser and the writer of libxml2 are parameters. The slots of the Lua stack are not counted,
-- a text is shorter than 2 ^ 31 bytes, and memory does not run out.
pub mod Trim
pub mod Encode
pub mod ElementTable
pub mod Writes
pub mod RoundTrip
use server.Prelude.{
  ℕ, zero, suc, ◌+◌, ◌-◌, Bool, true, false, not, ◌&&◌, ◌||◌, List, [], ◌∷◌, ◌++◌, Option, none,
  some, ltb, ◌==◌, if◌then◌else◌, length, take, drop, get_elem?,
}
use server.Prelude.Int.{ℤ, pos}
use server.Prelude.Dict.{same_text}
use server.Lua.{
  LuaValue, nil, integer, number, string, table, LuaTable, done, entry, is_text, get_field,
  set_field, set_index, Result, ok, raise, undefined, ◌>>=◌,
}
use server.Msg.{c_str}
use server.Config.{Numbers, check_string, check_key}

-- `xmlNode::type`
pub data NodeType : Type 0 where
  element_node : NodeType
  text_node : NodeType
  -- comments, sections and all else
  other_node : NodeType

-- An `xmlNode` with its name and content, where they are no null pointers, and its children. An
-- attribute has the value that `xmlGetProp` answers for its name.
mutual
  pub data Node : Type 0 where
    node :
        NodeType
        → (name content : Option (List ℕ)) → (properties : List (List ℕ × List ℕ))
        → (children : Siblings) → Node

  -- A node and those that `next` leads to.
  pub data Siblings : Type 0 where
    last : Siblings
    sibling : Node → Siblings → Siblings

-- A call of the writer.
pub data WriterCall : Type 0 where
  start_element : List ℕ → WriterCall
  write_attribute : (name value : List ℕ) → WriterCall
  write_string : List ℕ → WriterCall
  end_element : WriterCall

-- `xmlReadMemory` with `xmlDocGetRootElement`, and the buffer that the calls fill between
-- `xmlTextWriterStartDocument` and `xmlTextWriterEndDocument`.
pub record XmlLibrary : Type 0 where
  pub read : List ℕ → Option Siblings
  pub write : List WriterCall → List ℕ

-- "text", "name", "attrs", "children" and "data"
abbrev pub text_name : List ℕ
text_name = 116 ∷ 101 ∷ 120 ∷ 116 ∷ []

abbrev pub name_key : List ℕ
name_key = 110 ∷ 97 ∷ 109 ∷ 101 ∷ []

abbrev pub attrs_key : List ℕ
attrs_key = 97 ∷ 116 ∷ 116 ∷ 114 ∷ 115 ∷ []

abbrev pub children_key : List ℕ
children_key = 99 ∷ 104 ∷ 105 ∷ 108 ∷ 100 ∷ 114 ∷ 101 ∷ 110 ∷ []

abbrev pub data_key : List ℕ
data_key = 100 ∷ 97 ∷ 116 ∷ 97 ∷ []

-- A newline or a space.
abbrev pub is_blank : ℕ → Bool
is_blank c = c == 10 || c == 32

-- The first loop over the text; none is -1.
unfoldable pub first_index : List ℕ → (i : ℕ) → Option ℕ
first_index [] i = none
first_index (c ∷ cs) i = if is_blank c then first_index cs (i + 1) else some i

-- What the second loop tests of the byte at an index.
abbrev pub is_skipped : Option ℕ → Bool
is_skipped none = true
is_skipped (some c) = is_blank c || c == 0

-- The second loop, down from the index before `n`.
unfoldable pub last_index : List ℕ → (n : ℕ) → Option ℕ
last_index data_ zero = none
last_index data_ (suc i) =
    if is_skipped (get_elem? data_ i) then last_index data_ i else some (suc i)

-- The part of a text that is stored, if any is.
abbrev pub between : List ℕ → Option ℕ → Option ℕ → Option (List ℕ)
between data_ none b = none
between data_ (some a) none = none
between data_ (some a) (some b) = if ltb a b then some (take (b - a) (drop a data_)) else none

unfoldable pub trimmed : List ℕ → Option (List ℕ)
unfolding first_index last_index
trimmed data_ = between data_ (first_index data_ 0) (last_index data_ (length data_))

-- The test of the first node's type, which the loop makes for every node.
abbrev pub is_supported : Siblings → Bool
is_supported last = false
is_supported (sibling (node element_node name content attrs children) rest) = true
is_supported (sibling (node text_node name content attrs children) rest) = true
is_supported (sibling (node other_node name content attrs children) rest) = false

abbrev pub write_data : Option (List ℕ) → List WriterCall
write_data none = []
write_data (some s) = write_string s ∷ []

-- The calls for an element; the last three are for its attributes, its text and its children.
abbrev pub element_calls : List ℕ → (attrs text children : List WriterCall) → List WriterCall
element_calls name attrs text children =
    start_element name ∷ attrs ++ text ++ children ++ end_element ∷ []

module _ {F : Type 0} where
  abbrev pub set_data : Option (List ℕ) → LuaTable F → LuaTable F
  set_data none t = t
  set_data (some s) t = set_field data_key (string s) t

  -- The loop over the attributes. The entries keep the order of insertion, which for two or more is not the
  -- order in which `lua_next` gives them.
  unfoldable pub add_attributes : List (List ℕ × List ℕ) → LuaTable F → LuaTable F
  add_attributes [] t = t
  add_attributes ((name, value) ∷ attrs) t = add_attributes attrs (set_field name (string value) t)

  abbrev pub set_attrs : List (List ℕ × List ℕ) → LuaTable F → LuaTable F
  set_attrs [] t = t
  set_attrs (attr ∷ attrs) t = set_field attrs_key (table (add_attributes (attr ∷ attrs) done)) t

  -- The children's table, where there are any.
  abbrev pub set_children : Siblings → Result (LuaTable F) → LuaTable F → Result (LuaTable F)
  set_children last inner t = ok t
  set_children (sibling it rest) inner t = inner >>= (λ u. ok (set_field children_key (table u) t))

  -- `fetchCreateLuaTable`: the loop over the siblings with `index`; a null pointer is read by `strcmp` or
  -- `strlen`.
  unfoldable mutual
    pub fetch_nodes : (supported : Bool) → Siblings → (index : ℕ) → LuaTable F → Result (LuaTable F)
    fetch_nodes supported last index t = ok t
    fetch_nodes false (sibling it rest) index t = ok t
    fetch_nodes true (sibling it rest) index t =
        fetch_node it index t >>= (λ (i, t). fetch_nodes true rest i t)

    -- The body of the loop: the next index, and the table.
    pub fetch_node : Node → (index : ℕ) → LuaTable F → Result (ℕ × LuaTable F)
    fetch_node (node type none content attrs children) index t = undefined
    fetch_node (node type (some name) content attrs children) index t =
        if same_text name text_name
        then (elim content [
          | none ↦ undefined
          | some data_ ↦ ok (index, set_data (trimmed data_) t)
        ])
        else (let inner = fetch_nodes (is_supported children) children 1 done in
            set_children children inner
              (set_attrs attrs (entry (string name_key) (string name) done))
            >>= (λ v. ok (index + 1, set_index (pos index) (table v) t)))

  unfoldable pub fetch_create_lua_table : Siblings → LuaTable F → Result (LuaTable F)
  unfolding fetch_nodes fetch_node trimmed add_attributes
  fetch_create_lua_table nodes t = fetch_nodes (is_supported nodes) nodes 1 t

  -- What is left to return; none is no value.
  unfoldable pub xml_decode : XmlLibrary → List (LuaValue F) → Result (Option (LuaValue F))
  unfolding fetch_create_lua_table
  xml_decode lib (string s ∷ args) = elim (lib.read s) [
    | none ↦ ok none
    | some root ↦ fetch_create_lua_table root done >>= (λ t. ok (some (table t)))
  ]
  xml_decode lib args = raise

  module _ {G : Type 0} (n : Numbers F G) where
    -- `lua_isstring` with `lua_tostring`
    abbrev pub text_of : LuaValue F → Option (List ℕ)
    text_of (string s) = some (c_str s)
    text_of (integer z) = some (n.integer_text z)
    text_of (number x) = some (n.number_text x)
    text_of _ = none

    -- The loop over the attributes, in the order of `lua_next`, which is that of the entries here.
    unfoldable pub write_attributes : LuaTable F → Result (List WriterCall)
    write_attributes done = ok []
    write_attributes (entry k v t) = check_key k >>= (λ name.
        check_string n v
        >>= (λ value. write_attributes t >>= (λ calls. ok (write_attribute name value ∷ calls))))

    abbrev pub write_attrs : LuaValue F → Result (List WriterCall)
    write_attrs (table t) = write_attributes t
    write_attrs _ = ok []

    -- `fetchCreateXml`: the loop over the entries, in the order of `lua_next`.
    unfoldable mutual
      pub fetch_create_xml : LuaTable F → Result (List WriterCall)
      fetch_create_xml done = ok []
      fetch_create_xml (entry k v t) =
          write_value v >>= (λ calls. fetch_create_xml t >>= (λ later. ok (calls ++ later)))

      -- The body of the loop.
      pub write_value : LuaValue F → Result (List WriterCall)
      write_value (table t) =
          let children = write_children t in
          elim (text_of (get_field name_key t)) [
            | none ↦ ok []
            | some name ↦ write_attrs (get_field attrs_key t) >>= (λ attrs. children >>= (λ inner.
                ok (element_calls name attrs (write_data (text_of (get_field data_key t))) inner)))
          ]
      write_value _ = ok []

      -- The children of an element's table: `lua_getfield`, and the call where it gives a table.
      pub write_children : LuaTable F → Result (List WriterCall)
      write_children done = ok []
      write_children (entry k v t) =
          let here = write_nested v in
          let there = write_children t in if is_text children_key k then here else there

      pub write_nested : LuaValue F → Result (List WriterCall)
      write_nested (table t) = fetch_create_xml t
      write_nested _ = ok []

    unfoldable pub xml_encode : XmlLibrary → List (LuaValue F) → Result (Option (LuaValue F))
    unfolding fetch_create_xml write_value write_children write_nested write_attributes
    xml_encode lib (table t ∷ args) =
        fetch_create_xml t >>= (λ calls. ok (some (string (c_str (lib.write calls)))))
    xml_encode lib args = ok none
