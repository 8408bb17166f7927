-- ===== src/Xml/RoundTrip.antt =====
-- src/xml/xml.cpp: what `encode` writes of a table that `decode` made. `decode` puts the text of an
-- element into the table of its children, and `encode` looks for it beside that table.
use server.Prelude.{
  ℕ, ◌+◌, ◌≡◌, refl, sym, ap, ◌∙◌, true, false, List, [], ◌∷◌, ◌++◌, Option, none, some,
  if◌then◌else◌, append_assoc, append_nil, length, ◌≤◌,
}
use server.Prelude.Int.{pos}
use server.Prelude.Dict.{same_text}
use server.Lua.{string, table, LuaTable, done, set_field, set_index, ok, ◌>>=◌}
use server.Msg.{c_str}
use server.Config.{Numbers}
use server.Xml.{
  Siblings, NodeType, last, sibling, Node, node, element_node, text_node, other_node, WriterCall,
  text_name, data_key, trimmed, set_data, is_supported, fetch_nodes, fetch_node,
  fetch_create_lua_table, XmlLibrary, xml_decode, xml_encode, element_calls, fetch_create_xml,
  write_value,
}
use server.Xml.ElementTable.{
  AreNew, element_table, children_calls, write_value-element, set_attrs_lem, set_children_key,
}
use server.Xml.Writes.{
  fetch_create_xml-done, fetch_create_xml-text, Writes, set_data-Writes, snoc-Writes,
}
use server.Xml.Encode.{Elements, no_elements, element, attribute_calls, calls_of, element_calls_lem}

-- The elements of a document, without their texts.
abbrev pub elements : Siblings → Elements
elements last = no_elements
elements (sibling (node type none content attrs children) rest) = elements rest
elements (sibling (node type (some name) content attrs children) rest) =
    let inner = elements children in
    let later = elements rest in
    if same_text name text_name then later else element name attrs none inner later

module _ {F G : Type 0} (n : Numbers F G) where
  -- A document of elements and texts, in which no element is called "text" or has two attributes.
  abbrev pub IsPlain : Siblings → Type 0
  IsPlain last = Unit
  IsPlain (sibling (node element_node (some name) content attrs children) rest) =
      (c_str name ≡ name)
      × (same_text name text_name ≡ false)
      × (length attrs ≤ 1)
      × AreNew n done attrs
      × IsPlain children
      × IsPlain rest
  IsPlain (sibling (node text_node (some name) (some data_) attrs children) rest) =
      (same_text name text_name ≡ true) × IsPlain rest
  IsPlain _ = ⊥

  IsPlain-is_supported :
      (it : Node) (rest : Siblings)
      → IsPlain (sibling it rest)
      → is_supported (sibling it rest) ≡ true
  IsPlain-is_supported (node element_node name content attrs children) rest h = refl
  IsPlain-is_supported (node text_node name content attrs children) rest h = refl
  IsPlain-is_supported (node other_node name content attrs children) rest h = absurd h

  fetch_nodes-sibling :
      (it : Node) (rest : Siblings) (i : ℕ) (t : LuaTable F)
      → fetch_nodes true (sibling it rest) i t
        ≡ (fetch_node it i t >>= (λ (j, u). fetch_nodes true rest j u))
  unfolding fetch_nodes
  fetch_nodes-sibling it rest i t = refl

  fetch_nodes-last : (i : ℕ) (t : LuaTable F) → fetch_nodes true last i t ≡ ok t
  unfolding fetch_nodes
  fetch_nodes-last i t = refl

  fetch_node-text :
      (type : NodeType) (name data_ : List ℕ) (attrs : List (List ℕ × List ℕ)) (children : Siblings)
      (i : ℕ) (t : LuaTable F)
      → same_text name text_name ≡ true
      → fetch_node (node type (some name) (some data_) attrs children) i t
        ≡ ok (i, set_data (trimmed data_) t)
  unfolding fetch_node
  fetch_node-text type name data_ attrs children i t h = rw h refl

  -- The children's table, where there are children.
  abbrev given : Siblings → LuaTable F → Option (LuaTable F)
  given last u = none
  given (sibling it rest) u = some u

  fetch_node-element :
      (type : NodeType) (name : List ℕ) (content : Option (List ℕ)) (attrs : List (List ℕ × List ℕ))
      (children : Siblings) (i : ℕ) (t u : LuaTable F)
      → same_text name text_name ≡ false
      → AreNew n done attrs
      → IsPlain children
      → fetch_nodes true children 1 done ≡ ok u
      → fetch_node (node type (some name) content attrs children) i t
        ≡ ok (i + 1, set_index (pos i) (table (element_table n name attrs (given children u))) t)
  unfolding fetch_node
  fetch_node-element type name content attrs last i t u h new plain e =
      rw (h, set_attrs_lem n name attrs new) refl
  fetch_node-element type name content attrs (sibling it rest) i t u h new plain e =
      let inner : fetch_nodes (is_supported (sibling it rest)) (sibling it rest) 1 done ≡ ok u =
        rw (IsPlain-is_supported it rest plain) e in
      rw (h, inner, set_attrs_lem n name attrs new, set_children_key n name attrs u) refl

  given_calls :
      (children : Siblings) (u : LuaTable F)
      → fetch_create_xml n u ≡ ok (calls_of (elements children))
      → children_calls n (given children u) ≡ ok (calls_of (elements children))
  unfolding calls_of
  given_calls last u h = refl
  given_calls (sibling it rest) u h = h

  done-Writes : Writes n done 1 []
  unfolding set_field
  done-Writes = record {
    plain = fetch_create_xml-done n;
    with_data = λ s. fetch_create_xml-text n (string data_key) s done ∙ fetch_create_xml-done n;
    below = λ j le. refl;
  }

  fetch_nodes_lem :
      (ns : Siblings) (i : ℕ) (t : LuaTable F) (calls : List WriterCall)
      → IsPlain ns
      → Writes n t i calls
      → (u : LuaTable F) × (fetch_nodes true ns i t ≡ ok u)
        × (fetch_create_xml n u ≡ ok (calls ++ calls_of (elements ns)))
  unfolding calls_of
  fetch_nodes_lem last i t calls h w =
      (t, fetch_nodes-last i t, w.plain ∙ ap ok (sym (append_nil calls)))
  fetch_nodes_lem (sibling (node element_node (some name) content attrs children) rest) i t calls
        (e, other, one, new, inside, later) w =
      let (u, f, g) = fetch_nodes_lem children 1 done [] inside done-Writes in
      let v = element_table n name attrs (given children u) in
      let here = element_calls name (attribute_calls attrs) [] (calls_of (elements children)) in
      let written : write_value n (table v) ≡ ok here =
        write_value-element n name attrs (given children u) _ e new (given_calls children u g) in
      let (r, k, l) =
        fetch_nodes_lem rest (i + 1) (set_index (pos i) (table v) t) (calls ++ here) later
          (snoc-Writes n t i calls here (table v) w written) in
      (
        r,
        fetch_nodes-sibling (node element_node (some name) content attrs children) rest i t
            ∙ rw
                (fetch_node-element element_node name content attrs children i t u other new inside
                  f)
                k,
        rw other (
            l
            ∙ ap ok (append_assoc calls here (calls_of (elements rest)))
            ∙ ap (λ later. ok (calls ++ later))
                (element_calls_lem name attrs none (elements children) (elements rest))),
      )
  fetch_nodes_lem (sibling (node text_node (some name) (some data_) attrs children) rest) i t calls
        (named, later) w =
      let (r, k, l) =
        fetch_nodes_lem rest i (set_data (trimmed data_) t) calls later
          (set_data-Writes n t i calls (trimmed data_) w) in
      (
        r,
        fetch_nodes-sibling (node text_node (some name) (some data_) attrs children) rest i t
            ∙ rw (fetch_node-text text_node name data_ attrs children i t named) k,
        rw named l,
      )
  fetch_nodes_lem (sibling (node element_node none content attrs children) rest) i t calls h w =
      absurd h
  fetch_nodes_lem (sibling (node text_node none content attrs children) rest) i t calls h w =
      absurd h
  fetch_nodes_lem (sibling (node text_node (some name) none attrs children) rest) i t calls h w =
      absurd h
  fetch_nodes_lem (sibling (node other_node name content attrs children) rest) i t calls h w =
      absurd h

  fetch_create_lua_table_lem :
      (ns : Siblings)
      → IsPlain ns
      → (u : LuaTable F) × (fetch_create_lua_table ns done ≡ ok u)
        × (fetch_create_xml n u ≡ ok (calls_of (elements ns)))
  unfolding fetch_create_lua_table calls_of
  fetch_create_lua_table_lem last h = (done, refl, fetch_create_xml-done n)
  fetch_create_lua_table_lem (sibling it rest) h =
      let (u, e, f) = fetch_nodes_lem (sibling it rest) 1 done [] h done-Writes in
      (u, rw (IsPlain-is_supported it rest h) e, f)

  -- Where the parser reads a text as a document of elements and texts (no element is called "text" or
  -- has more than one attribute), `xml.decode` returns a table, and `xml.encode` of this table writes
  -- the document's elements with their names, attributes and nesting, but none of its texts.
  pub xml_encode-xml_decode :
      (lib : XmlLibrary) (s : List ℕ) (root : Siblings)
      → lib.read s ≡ some root
      → IsPlain root
      → (u : LuaTable F) × (xml_decode lib (string s ∷ []) ≡ ok (some (table u)))
        × (xml_encode n lib (table u ∷ [])
            ≡ ok (some (string (c_str (lib.write (calls_of (elements root)))))))
  unfolding xml_decode xml_encode
  xml_encode-xml_decode lib s root read plain =
      let (u, e, f) = fetch_create_lua_table_lem root plain in
      (u, rw (xml_decode, read, e) refl, rw (xml_encode, f) refl)
