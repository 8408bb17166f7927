-- ===== src/Tests/Jsons.antt =====
-- The theorems on JSON at concrete inputs, with whole numbers for floats: a float stands for twice its
-- value.
use server.Prelude.{
  ℕ, ◌*◌, ◌/◌, ◌≡◌, refl, sym, ◌∙◌, true, List, [], ◌∷◌, none, some, arith, ◌==◌, Bool,
  if◌then◌else◌,
}
use server.Prelude.Int.{ℤ, pos, negsuc}
use server.Prelude.Dict.{same_text}
use server.Lua.{integer, number, string, table, LuaTable, done, entry, ok, set_field, set_index}
use server.Msg.{c_str}
use server.Lua.Fields.{erase_index, erase_field}
use server.Json.{
  Json, array, object, chars, amount, truth, null, last, child, JsonLibrary, item_of,
  fetch_create_json, decode, encode, parsed, text_of,
}
use server.Json.Decode.{value_of, table_of, decoded, decode_lem}
use server.Json.Encode.{IsPlain, decode-encode}

abbrev doubled : ℤ → ℕ
doubled (pos n) = n * 2
doubled (negsuc n) = 0

abbrev is_doubled : ℤ → ℕ → Bool
is_doubled z x = doubled z == x

-- {"a":[1,null,true],"b":2.5,"a":null}
abbrev sample_tree : Json ℕ
sample_tree = object (
    child (some (97 ∷ []))
      (array (child none (amount (pos 1) 2) (child none null (child none (truth true) last))))
      (child (some (98 ∷ [])) (amount (pos 2) 5) (child (some (97 ∷ [])) null last)))

-- {x = {7, "q"}, y = 1.5}
abbrev sample_table : LuaTable ℕ
sample_table =
    entry (string (120 ∷ []))
      (table (
        entry (integer (pos 1)) (integer (pos 7))
          (entry (integer (pos 2)) (string (113 ∷ [])) done)))
      (entry (string (121 ∷ [])) (number 3) done)

abbrev encoded_tree : Json ℕ
encoded_tree = object (
    child (some (120 ∷ []))
      (array (child none (amount (pos 7) 14) (child none (chars (113 ∷ [])) last)))
      (child (some (121 ∷ [])) (amount (pos 1) 3) last))

-- A parser that knows the two texts "s" and "t".
abbrev two_texts : JsonLibrary ℕ
two_texts = record {
  parse = λ s. if same_text s (115 ∷ []) then some sample_tree else some encoded_tree;
  print = λ root. 116 ∷ [];
  of_integer = doubled;
  valueint = λ x. pos (x / 2);
  same = is_doubled;
  number_text = λ v. [];
}

decode_lem_example :
    decode two_texts (string (115 ∷ []) ∷ [])
    ≡ decoded two_texts
        (string (115 ∷ []) ∷ [])
        (parsed two_texts (text_of two_texts (string (115 ∷ []) ∷ [])))
decode_lem_example = decode_lem two_texts (string (115 ∷ []) ∷ [])

-- A null takes an index of an array, and takes away an earlier field.
decoded_sample :
    decode two_texts (string (115 ∷ []) ∷ [])
    ≡ ok (table (entry (string (98 ∷ [])) (number 5) done))
unfolding same_text c_str value_of table_of set_field set_index erase_index erase_field
decoded_sample = decode_lem_example

sample-IsPlain : IsPlain two_texts (table sample_table)
unfolding c_str same_text
sample-IsPlain = (
  tt,
  (
    120 ∷ [],
    refl,
    refl,
    refl,
    (tt, (refl, (refl, refl), (refl, refl, tt))),
    (121 ∷ [], refl, refl, refl, refl, tt),
  ),
)

tree_of_sample : fetch_create_json two_texts sample_table ≡ ok (some encoded_tree)
unfolding fetch_create_json item_of c_str
tree_of_sample = refl

read_back :
    (root : Json ℕ)
    → fetch_create_json two_texts sample_table ≡ ok (some root)
    → two_texts.parse (c_str (two_texts.print root)) ≡ some root
unfolding c_str same_text
read_back root e =
    let e : ok (some encoded_tree) ≡ ok (some root) = sym tree_of_sample ∙ e in
    let q : encoded_tree ≡ root = cc in rw (← q) refl

decode-encode_example :
    (s : List ℕ) × (encode two_texts (table sample_table ∷ []) ≡ ok (string s))
    × (decode two_texts (string s ∷ []) ≡ ok (table sample_table))
decode-encode_example = decode-encode two_texts sample_table sample-IsPlain (omega arith) read_back
