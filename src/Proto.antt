-- ===== src/Proto.antt =====
-- src/protobuf/protobuf.cpp: the translation of Lua tables into messages and back. The messages are
-- the protobuf library's, and the calls of its reflection are parameters; a dynamic factory has a
-- prototype of every type. A recursion that the fuel does not end is `none`: the C++ stack overflows.
-- The room on the Lua stack is not counted.
pub mod Laws
pub mod View
pub mod Ends
pub mod Loops
pub mod Binding
use server.Prelude.{
  bind, ℕ, zero, suc, ◌+◌, ◌-◌, ◌%◌, ◌^◌, Bool, true, false, List, [], ◌∷◌, ◌++◌, Option, none,
  some, ltb, if◌then◌else◌,
}
use server.Prelude.Int.{ℤ, pos, negsuc, to_u32}
use server.Lua.{
  LuaValue, nil, boolean, integer, number, string, table, other, LuaTable, done, entry, get_field,
  set_field, get_index,
}
use server.Msg.{c_str, signed32}

-- `google::protobuf::FieldDescriptor::Type`
pub data FieldType : Type 0 where
  double : FieldType
  float : FieldType
  int64 : FieldType
  uint64 : FieldType
  int32 : FieldType
  fixed64 : FieldType
  fixed32 : FieldType
  bool : FieldType
  text : FieldType
  group : FieldType
  message : FieldType
  bytes : FieldType
  uint32 : FieldType
  enum : FieldType
  sfixed32 : FieldType
  sfixed64 : FieldType
  sint32 : FieldType
  sint64 : FieldType

-- A field's descriptor; `message_type` is the number of the type of its messages.
pub record Field : Type 0 where
  pub name : List ℕ
  pub field_type : FieldType
  pub is_repeated : Bool
  pub message_type : ℕ

-- The fields of each message type.
abbrev pub Schema : Type 0
Schema = ℕ → List Field

-- What a setter is called with and a getter returns: a signed value of `int32_t` or `int64_t`, an
-- unsigned one of `uint32_t` or `uint64_t`, and so on.
pub data Item (F G M : Type 0) : Type 0 where
  truth : Bool → Item F G M
  signed : ℤ → Item F G M
  unsigned : ℕ → Item F G M
  single : G → Item F G M
  real : F → Item F G M
  chars : List ℕ → Item F G M
  nested : M → Item F G M

-- What the code uses of `Message`, `Reflection` and the factory. A field is called by its index in its
-- type. `get` is the getter of the field's type, and `MutableMessage`; `items` is what the getters of
-- a repeated field return for the indices below `FieldSize`.
pub record Reflection (F G : Type 0) : Type 1 where
  pub Message : Type 0
  pub make : ℕ → Message
  pub set : Message → ℕ → Item F G Message → Message
  pub add : Message → ℕ → Item F G Message → Message
  pub get : Message → ℕ → Item F G Message
  pub items : Message → ℕ → List (Item F G Message)

-- The conversions of numbers: `lua_tointeger` of a float (0 where it has no integer), `lua_tonumber`
-- of an integer, `float` and back; and `luaL_len`, which is any border of the table.
pub record Conversions (F G : Type 0) : Type 0 where
  pub float_to_integer : F → ℤ
  pub of_integer : ℤ → F
  pub narrow : F → G
  pub widen : G → F
  pub len : LuaTable F → ℕ

-- The conversion to `uint64_t`, and the `lua_Integer` of a bit pattern.
abbrev pub to_u64 : ℤ → ℕ
to_u64 (pos n) = n % 2 ^ 64
to_u64 (negsuc n) = 2 ^ 64 - 1 - n % 2 ^ 64

abbrev pub signed64 : ℕ → ℤ
signed64 n = if ltb n (2 ^ 63) then pos n else negsuc (2 ^ 64 - 1 - n)

abbrev pub on {ℓ κ} : {A : Type ℓ} {B : Type κ} → (A → B) → Option A → Option B
on f none = none
on f (some a) = some (f a)

abbrev pub is_message : FieldType → Bool
is_message message = true
is_message _ = false

-- The cases of the switches that only log.
abbrev pub is_unsupported : FieldType → Bool
is_unsupported group = true
is_unsupported bytes = true
is_unsupported enum = true
is_unsupported _ = false

abbrev pub is_table : {F : Type 0} → LuaValue F → Bool
is_table (table t) = true
is_table _ = false

abbrev pub set_pushed : {F : Type 0} → List ℕ → Option (LuaValue F) → LuaTable F → LuaTable F
set_pushed k none t = t
set_pushed k (some v) t = set_field k v t

module _ {F G : Type 0} (c : Conversions F G) where
  -- `lua_tointeger` and `lua_tonumber` of a number.
  abbrev pub integer_of : LuaValue F → Option ℤ
  integer_of (integer z) = some z
  integer_of (number x) = some (c.float_to_integer x)
  integer_of _ = none

  abbrev pub number_of : LuaValue F → Option F
  number_of (integer z) = some (c.of_integer z)
  number_of (number x) = some x
  number_of _ = none

  abbrev pub truth_of : LuaValue F → Option Bool
  truth_of (boolean b) = some b
  truth_of _ = none

  abbrev pub chars_of : LuaValue F → Option (List ℕ)
  chars_of (string s) = some (c_str s)
  chars_of _ = none

  module _ {M : Type 0} where
    -- What the setter of the field's type is called with, where the value has the Lua type for it.
    unfoldable pub scalar_of : FieldType → LuaValue F → Option (Item F G M)
    scalar_of bool v = on truth (truth_of v)
    scalar_of int32 v = on (λ z. signed (signed32 (to_u32 z))) (integer_of v)
    scalar_of sfixed32 v = on (λ z. signed (signed32 (to_u32 z))) (integer_of v)
    scalar_of sint32 v = on (λ z. signed (signed32 (to_u32 z))) (integer_of v)
    scalar_of int64 v = on signed (integer_of v)
    scalar_of sfixed64 v = on signed (integer_of v)
    scalar_of sint64 v = on signed (integer_of v)
    scalar_of fixed32 v = on (λ z. unsigned (to_u32 z)) (integer_of v)
    scalar_of uint32 v = on (λ z. unsigned (to_u32 z)) (integer_of v)
    scalar_of uint64 v = on (λ z. unsigned (to_u64 z)) (integer_of v)
    scalar_of fixed64 v = on (λ z. unsigned (to_u64 z)) (integer_of v)
    scalar_of float v = on (λ x. single (c.narrow x)) (number_of v)
    scalar_of double v = on real (number_of v)
    scalar_of text v = on chars (chars_of v)
    scalar_of message v = none
    scalar_of group v = none
    scalar_of bytes v = none
    scalar_of enum v = none

    -- `lua_pushinteger` and the like of what a getter returns; of a message, nothing.
    unfoldable pub push_item : Item F G M → LuaValue F
    push_item (truth b) = boolean b
    push_item (signed z) = integer z
    push_item (unsigned n) = integer (signed64 n)
    push_item (single x) = number (c.widen x)
    push_item (real x) = number x
    push_item (chars s) = string (c_str s)
    push_item (nested m) = nil

  module _ (s : Schema) (r : Reflection F G) where
    open r use {Message, make, set, add, get, items}

    abbrev pub Filler : Type 0
    Filler = LuaValue F → ℕ → Message → Option Message

    -- The switch on one element of a repeated field; `i` is the field's index.
    unfoldable pub add_element : Filler → Field → ℕ → LuaValue F → Message → Option Message
    add_element fill f i v m =
        if is_message f.field_type
        then (if is_table v
            then bind (fill v f.message_type (make f.message_type)) (λ n. some (add m i (nested n)))
            else some m)
        else elim (scalar_of f.field_type v) [ none ↦ some m | some x ↦ some (add m i x) ]

    -- The loop over the elements from index `j` on, with `k` of them left.
    unfoldable pub add_elements :
        Filler → Field → ℕ → LuaTable F → (j k : ℕ) → Message → Option Message
    unfolding add_element
    add_elements fill f i t j zero m = some m
    add_elements fill f i t j (suc k) m =
        bind (add_element fill f i (get_index (pos (j + 1)) t) m)
          (add_elements fill f i t (j + 1) k)

    abbrev pub add_all : Filler → Field → ℕ → LuaValue F → Message → Option Message
    add_all fill f i (table t) m = add_elements fill f i t 0 (c.len t) m
    add_all fill f i _ m = some m

    -- A field that is not repeated: a message is made and set whatever the value is.
    unfoldable pub set_value : Filler → Field → ℕ → LuaValue F → Message → Option Message
    set_value fill f i v m =
        if is_message f.field_type
        then bind (fill v f.message_type (make f.message_type)) (λ n. some (set m i (nested n)))
        else elim (scalar_of f.field_type v) [ none ↦ some m | some x ↦ some (set m i x) ]

    unfoldable pub fill_field : Filler → Field → ℕ → LuaValue F → Message → Option Message
    unfolding add_elements set_value
    fill_field fill f i v m = if f.is_repeated then add_all fill f i v m else set_value fill f i v m

    -- The loop over the fields from index `i` on.
    unfoldable pub fill_fields : Filler → List Field → ℕ → LuaTable F → Message → Option Message
    unfolding fill_field
    fill_fields fill [] i t m = some m
    fill_fields fill (f ∷ fs) i t m =
        bind (fill_field fill f i (get_field f.name t) m) (fill_fields fill fs (i + 1) t)

    -- `foreachToMsg`, of a message of type `d`.
    unfoldable pub foreach_to_msg : ℕ → Filler
    unfolding fill_fields
    foreach_to_msg zero v d m = none
    foreach_to_msg (suc fuel) (table t) d m = fill_fields (foreach_to_msg fuel) (s d) 0 t m
    foreach_to_msg (suc fuel) _ d m = some m

    abbrev pub Reader : Type 0
    Reader = ℕ → Message → Option (LuaTable F)

    abbrev pub push_message : Reader → Field → Item F G Message → Option (LuaValue F)
    push_message read f (nested m) = bind (read f.message_type m) (λ t. some (table t))
    push_message read f x = some (push_item x)

    -- What is pushed for one value of a field: a table for a message.
    unfoldable pub push_value : Reader → Field → Item F G Message → Option (LuaValue F)
    push_value read f x =
        if is_message f.field_type then push_message read f x else some (push_item x)

    -- The loop over a repeated field: the array from index `flag` on.
    unfoldable pub push_items : Reader → Field → ℕ → List (Item F G Message) → Option (LuaTable F)
    unfolding push_value
    push_items read f flag [] = some done
    push_items read f flag (x ∷ xs) =
        bind (push_value read f x)
          (λ v. bind (push_items read f (flag + 1) xs) (λ t. some (entry (integer (pos flag)) v t)))

    -- The value that the table gets for a field with this value or these elements; none of a field that
    -- is stepped over.
    unfoldable pub push_slot :
        Reader → Field → Item F G Message → List (Item F G Message) → Option (Option (LuaValue F))
    unfolding push_items push_value
    push_slot read f x xs =
        if f.is_repeated
        then (if is_unsupported f.field_type
            then some (some (table done))
            else bind (push_items read f 1 xs) (λ t. some (some (table t))))
        else (if is_unsupported f.field_type
            then some none
            else bind (push_value read f x) (λ v. some (some v)))

    unfoldable pub push_fields :
        Reader → List Field → ℕ → Message → LuaTable F → Option (LuaTable F)
    unfolding push_slot
    push_fields read [] i m t = some t
    push_fields read (f ∷ fs) i m t =
        bind (push_slot read f (get m i) (items m i))
          (λ v. push_fields read fs (i + 1) m (set_pushed f.name v t))

    -- `foreachToTable`, on a new table.
    unfoldable pub foreach_to_table : ℕ → Reader
    unfolding push_fields
    foreach_to_table zero d m = none
    foreach_to_table (suc fuel) d m = push_fields (foreach_to_table fuel) (s d) 0 m done
