-- ===== src/Tests/Xmls.antt =====
-- The theorems on XML at concrete inputs.
use server.Prelude.{ℕ, ◌≡◌, ◌⊎◌, refl, List, [], ◌∷◌, ◌++◌, none, some, All, arith}
use server.Prelude.Dict.{same_text}
use server.Lua.{LuaTable, done, entry, string, table, ok}
use server.Msg.{c_str}
use server.Xml.{
  Siblings, last, sibling, node, element_node, text_node, text_name, name_key, data_key, XmlLibrary,
  trimmed, xml_decode, xml_encode,
}
use server.Xml.Trim.{IsBlank, IsTrim, trimmed_lem}
use server.Xml.Encode.{calls_of}
use server.Xml.RoundTrip.{elements, xml_encode-xml_decode}
use server.Tests.Configs.{tenths}

-- " a b\n"
abbrev spaced : List ℕ
spaced = 32 ∷ 97 ∷ 32 ∷ 98 ∷ 10 ∷ []

trimmed_lem_example :
    (All IsBlank spaced × (trimmed spaced ≡ none))
    ⊎ ((front : List ℕ) × (body : List ℕ) × (back : List ℕ) × (spaced ≡ front ++ (body ++ back))
        × All IsBlank front
        × All IsBlank back
        × IsTrim body
        × (trimmed spaced ≡ some body))
trimmed_lem_example =
    trimmed_lem spaced
      (ground arith, (ground arith, (ground arith, (ground arith, (ground arith, tt)))))

-- {{name = "a", data = "x"}}
abbrev one_element : LuaTable ℕ
one_element =
    entry (string [])
      (table (
        entry (string name_key) (string (97 ∷ []))
          (entry (string data_key) (string (120 ∷ [])) done)))
      done

-- <a>x</a>
abbrev document : Siblings
document =
    sibling
      (node element_node (some (97 ∷ [])) none []
        (sibling (node text_node (some text_name) (some (120 ∷ [])) [] last) last))
      last

abbrev library : XmlLibrary
library = record { read = λ s. some document; write = λ calls. [] }

xml_encode-xml_decode_example :
    (u : LuaTable ℕ) × (xml_decode library (string [] ∷ []) ≡ ok (some (table u)))
    × (xml_encode tenths library (table u ∷ [])
        ≡ ok (some (string (c_str (library.write (calls_of (elements document)))))))
unfolding c_str same_text
xml_encode-xml_decode_example =
    xml_encode-xml_decode tenths library [] document refl
      (refl, refl, omega arith, tt, (refl, tt), tt)
