-- ===== src/Proto/Laws.antt =====
-- What the translations rely on of the protobuf library: a setter and an adder change one field only
-- (so no field is a member of a `oneof`), and a new message has the default of each field.
use server.Prelude.{ℕ, ◌+◌, ◌≡◌, false, List, [], ◌∷◌, ◌++◌, if◌then◌else◌, ◌==◌}
use server.Prelude.Int.{pos}
use server.Proto.{
  FieldType, double, float, int64, uint64, int32, fixed64, fixed32, bool, text, group, message,
  bytes, uint32, enum, sfixed32, sfixed64, sint32, sint64, Field, Schema, Item, truth, signed,
  unsigned, single, real, chars, nested, Reflection, Conversions,
}

module _ {F G : Type 0} (c : Conversions F G) (zero_real : F) (zero_single : G) where
  -- The value of a field that was never set.
  unfoldable pub default_item : {M : Type 0} → (make : ℕ → M) → Field → FieldType → Item F G M
  default_item make f double = real zero_real
  default_item make f float = single zero_single
  default_item make f int64 = signed (pos 0)
  default_item make f sint64 = signed (pos 0)
  default_item make f sfixed64 = signed (pos 0)
  default_item make f int32 = signed (pos 0)
  default_item make f sint32 = signed (pos 0)
  default_item make f sfixed32 = signed (pos 0)
  default_item make f uint64 = unsigned 0
  default_item make f fixed64 = unsigned 0
  default_item make f uint32 = unsigned 0
  default_item make f fixed32 = unsigned 0
  default_item make f bool = truth false
  default_item make f text = chars []
  default_item make f bytes = chars []
  default_item make f enum = signed (pos 0)
  default_item make f message = nested (make f.message_type)
  default_item make f group = nested (make f.message_type)

  module _ (s : Schema) (r : Reflection F G) where
    open r use {Message, make, set, add, get, items}

    -- These fields, by index from `i` on, have their defaults.
    abbrev pub IsFresh : List Field → ℕ → Message → Type 0
    IsFresh [] i m = Unit
    IsFresh (f ∷ fs) i m =
        (get m i ≡ default_item make f f.field_type) × (items m i ≡ []) × IsFresh fs (i + 1) m

    pub record Obeys : Type 0 where
      pub get-set :
          (m : Message) (i j : ℕ) (x : Item F G Message)
          → get (set m i x) j ≡ (if i == j then x else get m j)
      pub items-set :
          (m : Message) (i j : ℕ) (x : Item F G Message) → items (set m i x) j ≡ items m j
      pub get-add : (m : Message) (i j : ℕ) (x : Item F G Message) → get (add m i x) j ≡ get m j
      pub items-add :
          (m : Message) (i j : ℕ) (x : Item F G Message)
          → items (add m i x) j ≡ (if i == j then items m j ++ x ∷ [] else items m j)
      pub make-IsFresh : (d : ℕ) → IsFresh (s d) 0 (make d)
