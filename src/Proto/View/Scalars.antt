-- ===== src/Proto/View/Scalars.antt =====
-- The values that no message is made for: what is set or added, and what is pushed of it.
use server.Prelude.{
  ℕ, zero, suc, ◌^◌, ◌≡◌, ◌⊎◌, refl, ap, sym, true, false, List, [], ◌∷◌, Option, none, some, ltb,
  arith, inl, inr,
}
use server.Prelude.Int.{ℤ, pos, negsuc, to_u32}
use server.Lua.{LuaValue, nil, boolean, integer, number, string, table, other}
use server.Msg.{c_str, signed32}
use server.Proto.{
  FieldType, double, float, int64, uint64, int32, fixed64, fixed32, bool, text, group, message,
  bytes, uint32, enum, sfixed32, sfixed64, sint32, sint64, Field, Conversions, scalar_of, push_item,
  is_message, is_unsupported, on, truth_of, integer_of, number_of, signed64, to_u64, truth, signed,
  unsigned, single, real, nested, Item,
}
use server.Proto.Laws.{default_item}
use server.Proto.View.{kept, absent}

to_u32_small : (z : ℤ) → ltb (to_u32 z) (2 ^ 63) ≡ true
unfolding to_u32
to_u32_small (pos n) = ground arith
to_u32_small (negsuc n) = ground arith

c_str-c_str : (s : List ℕ) → c_str (c_str s) ≡ c_str s
unfolding c_str
c_str-c_str [] = refl
c_str-c_str (zero ∷ s) = refl
c_str-c_str (suc n ∷ s) = ap (◌∷◌ (suc n)) (c_str-c_str s)

on-on {ℓ κ ι} :
    {A : Type ℓ} {B : Type κ} {C : Type ι} (f : A → B) (g : B → C) (h : A → C) (o : Option A)
    → ((a : A) → g (f a) ≡ h a)
    → on g (on f o) ≡ on h o
on-on f g h none e = refl
on-on f g h (some a) e = ap some (e a)

both_cases {ℓ κ} :
    {A : Type ℓ} {B : Type κ} (o : Option A) (g : A → B) (k : Option B)
    → on g o ≡ k
    → ((o ≡ none) × (k ≡ none)) ⊎ ((a : A) × (o ≡ some a) × (k ≡ some (g a)))
both_cases none g k h = inl (refl, sym h)
both_cases (some a) g k h = inr (a, refl, sym h)

module _ {F G : Type 0} (M : Type 0) (c : Conversions F G) where
  abbrev push : Item F G M → LuaValue F
  push = push_item c

  push-unsigned : (z : ℤ) → push (unsigned (to_u32 z)) ≡ integer (pos (to_u32 z))
  unfolding push_item
  push-unsigned z = rw (to_u32_small z) refl

  push-scalar_of :
      (type : FieldType) (v : LuaValue F) → on push (scalar_of c type v) ≡ kept c type v
  unfolding scalar_of kept push_item
  push-scalar_of bool v = on-on truth push boolean (truth_of c v) (λ b. refl)
  push-scalar_of int32 v =
      on-on (λ z. signed (signed32 (to_u32 z))) push (λ z. integer (signed32 (to_u32 z)))
        (integer_of c v) (λ z. refl)
  push-scalar_of sfixed32 v =
      on-on (λ z. signed (signed32 (to_u32 z))) push (λ z. integer (signed32 (to_u32 z)))
        (integer_of c v) (λ z. refl)
  push-scalar_of sint32 v =
      on-on (λ z. signed (signed32 (to_u32 z))) push (λ z. integer (signed32 (to_u32 z)))
        (integer_of c v) (λ z. refl)
  push-scalar_of int64 v = on-on signed push integer (integer_of c v) (λ z. refl)
  push-scalar_of sfixed64 v = on-on signed push integer (integer_of c v) (λ z. refl)
  push-scalar_of sint64 v = on-on signed push integer (integer_of c v) (λ z. refl)
  push-scalar_of fixed32 v =
      on-on (λ z. unsigned (to_u32 z)) push (λ z. integer (pos (to_u32 z))) (integer_of c v)
        push-unsigned
  push-scalar_of uint32 v =
      on-on (λ z. unsigned (to_u32 z)) push (λ z. integer (pos (to_u32 z))) (integer_of c v)
        push-unsigned
  push-scalar_of uint64 v =
      on-on (λ z. unsigned (to_u64 z)) push (λ z. integer (signed64 (to_u64 z))) (integer_of c v)
        (λ z. refl)
  push-scalar_of fixed64 v =
      on-on (λ z. unsigned (to_u64 z)) push (λ z. integer (signed64 (to_u64 z))) (integer_of c v)
        (λ z. refl)
  push-scalar_of float v =
      on-on (λ x. single (c.narrow x)) push (λ x. number (c.widen (c.narrow x))) (number_of c v)
        (λ x. refl)
  push-scalar_of double v = on-on real push number (number_of c v) (λ x. refl)
  push-scalar_of text (string s) = ap (λ s. some (string s)) (c_str-c_str s)
  push-scalar_of text nil = refl
  push-scalar_of text (boolean b) = refl
  push-scalar_of text (integer z) = refl
  push-scalar_of text (number x) = refl
  push-scalar_of text (table t) = refl
  push-scalar_of text other = refl
  push-scalar_of message v = refl
  push-scalar_of group v = refl
  push-scalar_of bytes v = refl
  push-scalar_of enum v = refl

  -- A value has the wrong type for the setter, or it is set and comes back as `kept` says.
  pub scalar_cases :
      (type : FieldType) (v : LuaValue F)
      → ((scalar_of c {M = M} type v ≡ none) × (kept c type v ≡ none))
        ⊎ ((x : Item F G M) × (scalar_of c type v ≡ some x) × (kept c type v ≡ some (push x)))
  scalar_cases type v = both_cases (scalar_of c type v) push (kept c type v) (push-scalar_of type v)

  module _ (make : ℕ → M) (f : Field) (zero_real : F) (zero_single : G) where
    pub push-default_item :
        (type : FieldType)
        → is_message type ≡ false
        → is_unsupported type ≡ false
        → push (default_item c zero_real zero_single make f type)
          ≡ absent c zero_real zero_single type
    unfolding default_item absent push_item c_str
    push-default_item bool h u = refl
    push-default_item double h u = refl
    push-default_item float h u = refl
    push-default_item int64 h u = refl
    push-default_item uint64 h u = refl
    push-default_item int32 h u = refl
    push-default_item fixed64 h u = refl
    push-default_item fixed32 h u = refl
    push-default_item text h u = refl
    push-default_item uint32 h u = refl
    push-default_item sfixed32 h u = refl
    push-default_item sfixed64 h u = refl
    push-default_item sint32 h u = refl
    push-default_item sint64 h u = refl
    push-default_item message h u = cc
    push-default_item group h u = cc
    push-default_item bytes h u = cc
    push-default_item enum h u = cc

    pub default_item-message :
        (type : FieldType)
        → is_message type ≡ true
        → default_item c zero_real zero_single make f type ≡ nested (make f.message_type)
    unfolding default_item
    default_item-message message h = refl
    default_item-message bool h = cc
    default_item-message double h = cc
    default_item-message float h = cc
    default_item-message int64 h = cc
    default_item-message uint64 h = cc
    default_item-message int32 h = cc
    default_item-message fixed64 h = cc
    default_item-message fixed32 h = cc
    default_item-message text h = cc
    default_item-message uint32 h = cc
    default_item-message sfixed32 h = cc
    default_item-message sfixed64 h = cc
    default_item-message sint32 h = cc
    default_item-message sint64 h = cc
    default_item-message group h = cc
    default_item-message bytes h = cc
    default_item-message enum h = cc

module _ {F G : Type 0} (c : Conversions F G) where
  pub kept-nil : (type : FieldType) → kept c type nil ≡ none
  unfolding kept
  kept-nil bool = refl
  kept-nil double = refl
  kept-nil float = refl
  kept-nil int64 = refl
  kept-nil uint64 = refl
  kept-nil int32 = refl
  kept-nil fixed64 = refl
  kept-nil fixed32 = refl
  kept-nil text = refl
  kept-nil uint32 = refl
  kept-nil sfixed32 = refl
  kept-nil sfixed64 = refl
  kept-nil sint32 = refl
  kept-nil sint64 = refl
  kept-nil message = refl
  kept-nil group = refl
  kept-nil bytes = refl
  kept-nil enum = refl
