-- ===== src/Tests/Logs.antt =====
-- Messages as logs of their changes, of a schema where messages hold messages.
use server.Prelude.{
  ℕ, zero, suc, ◌==◌, ◌≡◌, refl, Bool, true, false, List, [], ◌∷◌, ◌++◌, none, some, if◌then◌else◌,
  get_elem?,
}
use server.Prelude.Int.{pos}
use server.Lua.{LuaTable, done, entry}
use server.Proto.{
  FieldType, int32, text, bool, message, bytes, Field, Schema, Item, truth, signed, unsigned,
  single, real, chars, nested, Reflection, Conversions,
}
use server.Proto.Laws.{default_item, IsFresh, Obeys}

pub data Log : Type 0 where
  made : ℕ → Log
  value : (is_added : Bool) → Log → ℕ → Item ℕ ℕ Unit → Log
  sub : (is_added : Bool) → Log → ℕ → Log → Log

abbrev pub change : Bool → Log → ℕ → Item ℕ ℕ Log → Log
change b m i (truth x) = value b m i (truth x)
change b m i (signed x) = value b m i (signed x)
change b m i (unsigned x) = value b m i (unsigned x)
change b m i (single x) = value b m i (single x)
change b m i (real x) = value b m i (real x)
change b m i (chars x) = value b m i (chars x)
change b m i (nested n) = sub b m i n

abbrev pub lift : Item ℕ ℕ Unit → Item ℕ ℕ Log
lift (truth x) = truth x
lift (signed x) = signed x
lift (unsigned x) = unsigned x
lift (single x) = single x
lift (real x) = real x
lift (chars x) = chars x
lift (nested n) = nested (made 0)

abbrev pub field : (name : ℕ) → FieldType → Bool → ℕ → Field
field name type is_repeated message_type = record {
  name = name ∷ [];
  field_type = type;
  is_repeated = is_repeated;
  message_type = message_type;
}

-- message 0 { bool f; }
-- message 1 { int32 i; string n; repeated string t; 0 m; bytes b; }
abbrev pub schema : Schema
schema zero = field 102 bool false 0 ∷ []
schema (suc zero) =
    field 105 int32 false 0
    ∷ field 110 text false 0
    ∷ field 116 text true 0
    ∷ field 109 message false 0
    ∷ field 98 bytes false 0
    ∷ []
schema (suc (suc d)) = []

abbrev pub entries : LuaTable ℕ → ℕ
entries done = 0
entries (entry k v t) = suc (entries t)

abbrev pub plain : Conversions ℕ ℕ
plain = record {
  float_to_integer = λ x. pos x;
  of_integer = λ z. 0;
  narrow = λ x. x;
  widen = λ x. x;
  len = entries;
}

abbrev pub log_get : Log → ℕ → Item ℕ ℕ Log
log_get (made d) j = elim (get_elem? (schema d) j) [
  | none ↦ truth false
  | some f ↦ default_item plain 0 0 made f f.field_type
]
log_get (value true m i x) j = log_get m j
log_get (value false m i x) j = if i == j then lift x else log_get m j
log_get (sub true m i n) j = log_get m j
log_get (sub false m i n) j = if i == j then nested n else log_get m j

abbrev pub log_items : Log → ℕ → List (Item ℕ ℕ Log)
log_items (made d) j = []
log_items (value true m i x) j = if i == j then log_items m j ++ lift x ∷ [] else log_items m j
log_items (value false m i x) j = log_items m j
log_items (sub true m i n) j = if i == j then log_items m j ++ nested n ∷ [] else log_items m j
log_items (sub false m i n) j = log_items m j

abbrev pub logs : Reflection ℕ ℕ
logs = record {
  Message = Log;
  make = made;
  set = change false;
  add = change true;
  get = log_get;
  items = log_items;
}

get-set_lem :
    (m : Log) (i j : ℕ) (x : Item ℕ ℕ Log)
    → log_get (change false m i x) j ≡ (if i == j then x else log_get m j)
get-set_lem m i j (truth x) = refl
get-set_lem m i j (signed x) = refl
get-set_lem m i j (unsigned x) = refl
get-set_lem m i j (single x) = refl
get-set_lem m i j (real x) = refl
get-set_lem m i j (chars x) = refl
get-set_lem m i j (nested x) = refl

items-set_lem :
    (m : Log) (i j : ℕ) (x : Item ℕ ℕ Log) → log_items (change false m i x) j ≡ log_items m j
items-set_lem m i j (truth x) = refl
items-set_lem m i j (signed x) = refl
items-set_lem m i j (unsigned x) = refl
items-set_lem m i j (single x) = refl
items-set_lem m i j (real x) = refl
items-set_lem m i j (chars x) = refl
items-set_lem m i j (nested x) = refl

get-add_lem : (m : Log) (i j : ℕ) (x : Item ℕ ℕ Log) → log_get (change true m i x) j ≡ log_get m j
get-add_lem m i j (truth x) = refl
get-add_lem m i j (signed x) = refl
get-add_lem m i j (unsigned x) = refl
get-add_lem m i j (single x) = refl
get-add_lem m i j (real x) = refl
get-add_lem m i j (chars x) = refl
get-add_lem m i j (nested x) = refl

items-add_lem :
    (m : Log) (i j : ℕ) (x : Item ℕ ℕ Log)
    → log_items (change true m i x) j ≡ (if i == j then log_items m j ++ x ∷ [] else log_items m j)
items-add_lem m i j (truth x) = refl
items-add_lem m i j (signed x) = refl
items-add_lem m i j (unsigned x) = refl
items-add_lem m i j (single x) = refl
items-add_lem m i j (real x) = refl
items-add_lem m i j (chars x) = refl
items-add_lem m i j (nested x) = refl

made-IsFresh : (d : ℕ) → IsFresh plain 0 0 schema logs (schema d) 0 (made d)
made-IsFresh zero = (refl, refl, tt)
made-IsFresh (suc zero) = (refl, refl, (refl, refl, (refl, refl, (refl, refl, (refl, refl, tt)))))
made-IsFresh (suc (suc d)) = tt

pub logs-Obeys : Obeys plain 0 0 schema logs
logs-Obeys = record {
  get-set = get-set_lem;
  items-set = items-set_lem;
  get-add = get-add_lem;
  items-add = items-add_lem;
  make-IsFresh = made-IsFresh;
}
