-- ===== src/Tests/Protos.antt =====
-- The theorems on the translation of messages at concrete inputs.
use server.Prelude.{
  ℕ, zero, suc, ◌≡◌, refl, sym, subst, ◌∙◌, Bool, true, false, List, [], ◌∷◌, none, some,
  if◌then◌else◌, arith,
}
use server.Prelude.Int.{pos, to_u32}
use server.Prelude.Dict.{same_text}
use server.Lua.{
  integer, string, table, boolean, LuaTable, done, entry, get_field, get_index, set_field, ok,
}
use server.Msg.{c_str}
use server.Config.{check_string}
use server.Tests.Configs.{tenths}
use server.Proto.{
  bool, message, Schema, Item, truth, signed, chars, nested, Reflection, scalar_of, add_element,
  add_elements, set_value, fill_field, fill_fields, foreach_to_msg, foreach_to_table,
}
use server.Proto.View.{
  kept, absent, view_element, view_elements, array, view_field, view_fields, view,
}
use server.Proto.View.Whole.{foreach_to_table-foreach_to_msg}
use server.Proto.Ends.{Ends}
use server.Proto.Loops.{IsRanked, foreach_to_table-Ends, Recurs, foreach_to_table_overflows}
use server.Proto.Binding.{Library, encode_proto, decode_proto, decode_proto-encode_proto}
use server.Tests.Logs.{Log, made, value, sub, field, schema, plain, logs, logs-Obeys}

-- {i = 7, n = "a", t = {"x", 3, "y"}, m = {f = true}, b = "z"}
abbrev sample_table : LuaTable ℕ
sample_table = entry (string (105 ∷ [])) (integer (pos 7)) (
    entry (string (110 ∷ [])) (string (97 ∷ [])) (
      entry (string (116 ∷ []))
        (table (
          entry (integer (pos 1)) (string (120 ∷ [])) (
            entry (integer (pos 2)) (integer (pos 3))
              (entry (integer (pos 3)) (string (121 ∷ [])) done))))
        (entry (string (109 ∷ [])) (table (entry (string (102 ∷ [])) (boolean true) done))
          (entry (string (98 ∷ [])) (string (122 ∷ [])) done))))

-- {i = 7, n = "a", t = {"x", "y"}, m = {f = true}}
abbrev sample_view : LuaTable ℕ
sample_view = entry (string (105 ∷ [])) (integer (pos 7)) (
    entry (string (110 ∷ [])) (string (97 ∷ [])) (
      entry (string (116 ∷ []))
        (table (
          entry (integer (pos 1)) (string (120 ∷ []))
            (entry (integer (pos 2)) (string (121 ∷ [])) done)))
        (entry (string (109 ∷ [])) (table (entry (string (102 ∷ [])) (boolean true) done)) done)))

-- {i = 0, n = "", t = {}, m = {f = false}}
abbrev default_view : LuaTable ℕ
default_view = entry (string (105 ∷ [])) (integer (pos 0)) (
    entry (string (110 ∷ [])) (string []) (
      entry (string (116 ∷ [])) (table done)
        (entry (string (109 ∷ [])) (table (entry (string (102 ∷ [])) (boolean false) done)) done)))

sample-view : view plain 0 0 schema 3 (table sample_table) 1 ≡ some sample_view
unfolding view view_fields view_field view_elements view_element array kept absent c_str get_field
    set_field get_index to_u32 same_text
sample-view = refl

-- The wrong type of a value, or no value, gives the defaults.
default-view :
    view plain 0 0 schema 3 (table (entry (string (105 ∷ [])) (boolean true) done)) 1
    ≡ some default_view
unfolding view view_fields view_field view_elements view_element array kept absent c_str get_field
    set_field get_index to_u32 same_text
default-view = refl

-- The message that is made of the table.
abbrev sample_message : Log
sample_message =
    sub false
      (value true
        (value true (value false (value false (made 1) 0 (signed (pos 7))) 1 (chars (97 ∷ []))) 2
          (chars (120 ∷ [])))
        2 (chars (121 ∷ [])))
      3 (value false (made 0) 0 (truth true))

sample-made :
    foreach_to_msg plain schema logs 3 (table sample_table) 1 (made 1) ≡ some sample_message
unfolding foreach_to_msg fill_fields fill_field add_elements add_element set_value scalar_of c_str
    get_field get_index to_u32 same_text
sample-made = refl

foreach_to_table-foreach_to_msg_example :
    foreach_to_table plain schema logs 3 1 sample_message
    ≡ view plain 0 0 schema 3 (table sample_table) 1
foreach_to_table-foreach_to_msg_example =
    foreach_to_table-foreach_to_msg plain 0 0 schema logs logs-Obeys 3 (table sample_table) 1
      sample_message sample-made

schema-IsRanked : IsRanked schema (λ d. d)
schema-IsRanked zero = (λ h. cc, tt)
schema-IsRanked (suc zero) = (λ h. cc, (λ h. cc, (λ h. cc, (λ h. omega arith, (λ h. cc, tt)))))
schema-IsRanked (suc (suc d)) = tt

foreach_to_table-Ends_example : Ends (foreach_to_table plain schema logs 2 1 sample_message)
foreach_to_table-Ends_example =
    foreach_to_table-Ends plain schema logs (λ d. d) schema-IsRanked 2 1 sample_message
      (omega arith)

-- message 0 { bool f; 0 n; }: a list, whose last node holds no other.
abbrev list_schema : Schema
list_schema d = field 102 bool false 0 ∷ field 110 message false 0 ∷ []

data Node : Type 0 where
  last : Bool → Node
  cons : Bool → Node → Node

abbrev node_get : Node → ℕ → Item ℕ ℕ Node
node_get (last b) zero = truth b
node_get (last b) (suc j) = nested (last false)
node_get (cons b n) zero = truth b
node_get (cons b n) (suc j) = nested n

-- The setters are not called to read.
abbrev nodes : Reflection ℕ ℕ
nodes = record {
  Message = Node;
  make = λ d. last false;
  set = λ m i x. m;
  add = λ m i x. m;
  get = node_get;
  items = λ m i. [];
}

nodes-Recurs : (d : ℕ) (m : Node) → Unit {0} → Recurs plain list_schema nodes (λ d. Unit {0}) d m
nodes-Recurs d (last b) p = (1, field 110 message false 0, refl, refl, refl, tt, last false, refl)
nodes-Recurs d (cons b n) p = (1, field 110 message false 0, refl, refl, refl, tt, n, refl)

foreach_to_table_overflows_example :
    foreach_to_table plain list_schema nodes 1000 0 (cons true (last false)) ≡ none
foreach_to_table_overflows_example =
    foreach_to_table_overflows plain list_schema nodes (λ d. Unit {0}) nodes-Recurs 1000 0
      (cons true (last false)) tt

abbrev sample_type : ℕ
sample_type = 1

abbrev sample_bytes : List ℕ
sample_bytes = 8 ∷ 7 ∷ []

-- A library that knows the type "s" and the bytes of one message.
abbrev one_message : Library Unit Unit Log
one_message = record {
  empty_pool = tt;
  find_message_type = λ p name. if same_text name (115 ∷ []) then some 1 else none;
  serialize = λ m. some sample_bytes;
  parse = λ d b. some sample_message;
  build_file = λ p f. none;
  read_file = λ path. none;
  parse_set = λ b. none;
}

sample-encoded :
    encode_proto tenths plain schema logs one_message 3
      (some tt)
      (string (115 ∷ []) ∷ table sample_table ∷ [])
    ≡ ok (some (string sample_bytes))
unfolding encode_proto check_string same_text c_str
sample-encoded = rw sample-made refl

known :
    (d : ℕ) (m : Log)
    → some sample_type ≡ some d
    → foreach_to_msg plain schema logs 3 (table sample_table) d (made d) ≡ some m
    → some sample_bytes ≡ some sample_bytes
    → some sample_message ≡ some m
known d m e o i =
    let q : 1 ≡ d = cc in
    sym sample-made
    ∙ subst (λ d. foreach_to_msg plain schema logs 3 (table sample_table) d (made d) ≡ some m)
        (sym q) o

decode_proto-encode_proto_example :
    (d : ℕ) × (some sample_type ≡ some d)
    × (u : LuaTable ℕ) × (view plain 0 0 schema 3 (table sample_table) d ≡ some u)
    × (decode_proto tenths plain schema logs one_message 3
          (some tt)
          (string (115 ∷ []) ∷ string sample_bytes ∷ [])
        ≡ ok (some (table u)))
unfolding same_text c_str
decode_proto-encode_proto_example =
    decode_proto-encode_proto tenths plain schema logs one_message 0 0 logs-Obeys (λ d. d)
      schema-IsRanked 3 (some tt) (115 ∷ []) sample_bytes sample_table
      (λ d e. let same : sample_type ≡ d = cc in omega arith) sample-encoded known
