-- ===== src/Proto/View.antt =====
-- The normal form of a Lua table for src/protobuf/protobuf.cpp: what is read back from the message that
-- is made of it.
mod Scalars
pub mod Elements
pub mod Whole
use server.Prelude.{
  bind, ℕ, zero, suc, ◌+◌, ◌-◌, ◌≤◌, ◌<◌, ◌≡◌, ◌≢◌, refl, ap, sym, ◌∙◌, subst, Bool, true, false,
  List, [], ◌∷◌, ◌++◌, Option, none, some, ltb, if◌then◌else◌, arith, ◌==◌, ==_self, Bool-cases,
  Option-cases, inl, inr,
}
use server.Msg.{c_str, signed32}
use server.Prelude.Int.{ℤ, pos, negsuc, to_u32}
use server.Lua.{
  LuaValue, nil, boolean, integer, number, string, table, other, LuaTable, done, entry, get_field,
  set_field, get_index,
}
use server.Proto.{
  FieldType, double, float, int64, uint64, int32, fixed64, fixed32, bool, text, group, message,
  bytes, uint32, enum, sfixed32, sfixed64, sint32, sint64, Field, Schema, Item, truth, signed,
  unsigned, single, real, chars, nested, Reflection, Conversions, scalar_of, push_item, on,
  truth_of, integer_of, number_of, chars_of, to_u64, signed64, is_message, is_unsupported, is_table,
  add_element, add_elements, add_all, set_value, fill_field, fill_fields, foreach_to_msg,
  push_value, push_items, push_slot, set_pushed, push_fields, foreach_to_table, Filler, Reader,
}

abbrev pub or_default {ℓ} : {A : Type ℓ} → A → Option A → A
or_default d none = d
or_default d (some a) = a

abbrev pub cons_some : {F : Type 0} → Option (LuaValue F) → List (LuaValue F) → List (LuaValue F)
cons_some none vs = vs
cons_some (some v) vs = v ∷ vs

-- The array of these values, from index `flag` on.
unfoldable pub array : {F : Type 0} → (flag : ℕ) → List (LuaValue F) → LuaTable F
array flag [] = done
array flag (v ∷ vs) = entry (integer (pos flag)) v (array (flag + 1) vs)

abbrev pub as_table : {F : Type 0} → LuaValue F → LuaTable F
as_table (table t) = t
as_table _ = done

module _ {F G : Type 0} (c : Conversions F G) where
  -- What a value of the right Lua type comes back as, where no message is made for it.
  unfoldable pub kept : FieldType → LuaValue F → Option (LuaValue F)
  kept bool v = on boolean (truth_of c v)
  kept int32 v = on (λ z. integer (signed32 (to_u32 z))) (integer_of c v)
  kept sfixed32 v = on (λ z. integer (signed32 (to_u32 z))) (integer_of c v)
  kept sint32 v = on (λ z. integer (signed32 (to_u32 z))) (integer_of c v)
  kept int64 v = on integer (integer_of c v)
  kept sfixed64 v = on integer (integer_of c v)
  kept sint64 v = on integer (integer_of c v)
  kept fixed32 v = on (λ z. integer (pos (to_u32 z))) (integer_of c v)
  kept uint32 v = on (λ z. integer (pos (to_u32 z))) (integer_of c v)
  kept uint64 v = on (λ z. integer (signed64 (to_u64 z))) (integer_of c v)
  kept fixed64 v = on (λ z. integer (signed64 (to_u64 z))) (integer_of c v)
  kept float v = on (λ x. number (c.widen (c.narrow x))) (number_of c v)
  kept double v = on number (number_of c v)
  kept text v = on string (chars_of c v)
  kept message v = none
  kept group v = none
  kept bytes v = none
  kept enum v = none

  abbrev pub Viewer : Type 0
  Viewer = LuaValue F → ℕ → Option (LuaTable F)

  -- An element of an array, if it has the right type.
  unfoldable pub view_element : Viewer → Field → LuaValue F → Option (Option (LuaValue F))
  view_element view f v =
      if is_message f.field_type
      then (if is_table v
          then bind (view v f.message_type) (λ u. some (some (table u)))
          else some none)
      else some (kept f.field_type v)

  -- The elements of the right type among those from index `j` on, `k` of them.
  unfoldable pub view_elements :
      Viewer → Field → LuaTable F → (j k : ℕ) → Option (List (LuaValue F))
  unfolding view_element
  view_elements view f t j zero = some []
  view_elements view f t j (suc k) =
      bind (view_element view f (get_index (pos (j + 1)) t))
        (λ o. bind (view_elements view f t (j + 1) k) (λ vs. some (cons_some o vs)))

  abbrev pub view_array : Viewer → Field → LuaValue F → Option (List (LuaValue F))
  view_array view f (table t) = view_elements view f t 0 (c.len t)
  view_array view f _ = some []

  module _ (zero_real : F) (zero_single : G) where
    -- What a field comes back as that no value of the right type was given for.
    unfoldable pub absent : FieldType → LuaValue F
    absent double = number zero_real
    absent float = number (c.widen zero_single)
    absent bool = boolean false
    absent text = string []
    absent bytes = string []
    absent message = nil
    absent group = nil
    absent int64 = integer (pos 0)
    absent uint64 = integer (pos 0)
    absent int32 = integer (pos 0)
    absent fixed64 = integer (pos 0)
    absent fixed32 = integer (pos 0)
    absent uint32 = integer (pos 0)
    absent enum = integer (pos 0)
    absent sfixed32 = integer (pos 0)
    absent sfixed64 = integer (pos 0)
    absent sint32 = integer (pos 0)
    absent sint64 = integer (pos 0)

    -- A field's value, or its default; a message is read whatever the value is.
    abbrev pub view_value : Viewer → Field → LuaValue F → Option (LuaValue F)
    view_value view f v =
        if is_message f.field_type
        then bind (view v f.message_type) (λ u. some (table u))
        else some (or_default (absent f.field_type) (kept f.field_type v))

    -- An array of an unsupported type is empty, and a single value of one is left out.
    unfoldable pub view_field : Viewer → Field → LuaValue F → Option (Option (LuaValue F))
    unfolding view_elements
    view_field view f v =
        if f.is_repeated
        then (if is_unsupported f.field_type
            then some (some (table done))
            else bind (view_array view f v) (λ vs. some (some (table (array 1 vs)))))
        else (if is_unsupported f.field_type
            then some none
            else bind (view_value view f v) (λ w. some (some w)))

    unfoldable pub view_fields : Viewer → List Field → (t out : LuaTable F) → Option (LuaTable F)
    unfolding view_field
    view_fields view [] t out = some out
    view_fields view (f ∷ fs) t out =
        bind (view_field view f (get_field f.name t))
          (λ v. view_fields view fs t (set_pushed f.name v out))

    -- What is read back from the message of type `d` made of a value.
    unfoldable pub view : Schema → ℕ → Viewer
    unfolding view_fields
    view s zero v d = none
    view s (suc fuel) v d = view_fields (view s fuel) (s d) (as_table v) done
