-- ===== src/Proto/Loops.antt =====
-- src/protobuf/protobuf.cpp: the recursion of `foreachToTable`, which reads the message of every single
-- field of a message type, also of one that was never set.
use server.Prelude.{
  bind, ℕ, zero, suc, ◌+◌, ◌≡◌, refl, subst, true, false, List, [], ◌∷◌, none, some, arith,
  Bool-cases, Option-cases, inl, inr, ◌<◌, All, All-map, get_elem?,
}
use server.Prelude.Int.{pos}
use server.Lua.{integer, table, LuaTable, done, entry}
use server.Proto.{
  message, Field, Schema, Item, truth, signed, unsigned, single, real, chars, nested, Reflection,
  Conversions, push_item, is_message, is_unsupported, push_value, push_message, push_items,
  push_slot, set_pushed, push_fields, foreach_to_table, Reader,
}
use server.Proto.Ends.{Ends, Ends-bind}

-- Every field of a message type has a type of lower rank than the type it is a field of.
abbrev pub IsRanked : Schema → (ℕ → ℕ) → Type 0
IsRanked s rank =
    (d : ℕ) → All (λ f. is_message f.field_type ≡ true → rank f.message_type < rank d) (s d)

bounded : (a b n : ℕ) → a < b → b < suc n → a < n
bounded a b n p q = omega arith

module _ {F G : Type 0} (c : Conversions F G) (s : Schema) (r : Reflection F G) where
  open r use {Message, make, set, add, get, items}

  module _ (read : Reader c s r) (rank : ℕ → ℕ) (bound : ℕ)
      (ends : (d : ℕ) (m : Message) → rank d < bound → Ends (read d m)) where
    abbrev IsBelow : Field → Type 0
    IsBelow f = is_message f.field_type ≡ true → rank f.message_type < bound

    push_message-Ends :
        (f : Field) (x : Item F G Message)
        → rank f.message_type < bound
        → Ends (push_message c s r read f x)
    push_message-Ends f (nested n) h =
        Ends-bind (read f.message_type n) (λ t. some (table t)) (ends f.message_type n h)
          (λ t. (table t, refl))
    push_message-Ends f (truth x) h = (push_item c (truth x), refl)
    push_message-Ends f (signed x) h = (push_item c (signed x), refl)
    push_message-Ends f (unsigned x) h = (push_item c (unsigned x), refl)
    push_message-Ends f (single x) h = (push_item c (single x), refl)
    push_message-Ends f (real x) h = (push_item c (real x), refl)
    push_message-Ends f (chars x) h = (push_item c (chars x), refl)

    push_value-Ends :
        (f : Field) (x : Item F G Message) → IsBelow f → Ends (push_value c s r read f x)
    unfolding push_value
    push_value-Ends f x h = elim (Bool-cases (is_message f.field_type)) [
      | inl msg ↦ rw msg (push_message-Ends f x (h msg))
      | inr plain ↦ rw plain (push_item c x, refl)
    ]

    push_items-Ends :
        (f : Field) (flag : ℕ) (xs : List (Item F G Message))
        → IsBelow f
        → Ends (push_items c s r read f flag xs)
    unfolding push_items
    push_items-Ends f flag [] h = (done, refl)
    push_items-Ends f flag (x ∷ xs) h =
        Ends-bind (push_value c s r read f x)
          (λ v.
            bind (push_items c s r read f (flag + 1) xs)
              (λ t. some (entry (integer (pos flag)) v t)))
          (push_value-Ends f x h)
          (λ v.
            Ends-bind (push_items c s r read f (flag + 1) xs)
              (λ t. some (entry (integer (pos flag)) v t)) (push_items-Ends f (flag + 1) xs h)
              (λ t. (entry (integer (pos flag)) v t, refl)))

    push_slot-Ends :
        (f : Field) (x : Item F G Message) (xs : List (Item F G Message))
        → IsBelow f
        → Ends (push_slot c s r read f x xs)
    unfolding push_slot
    push_slot-Ends f x xs h = elim (Bool-cases f.is_repeated) [
      | inl many ↦ elim (Bool-cases (is_unsupported f.field_type)) [
        | inl u ↦ rw (many, u) (some (table done), refl)
        | inr u ↦
            rw (many, u)
              (Ends-bind (push_items c s r read f 1 xs) (λ t. some (some (table t)))
                (push_items-Ends f 1 xs h) (λ t. (some (table t), refl)))
      ]
      | inr one ↦ elim (Bool-cases (is_unsupported f.field_type)) [
        | inl u ↦ rw (one, u) (none, refl)
        | inr u ↦
            rw (one, u)
              (Ends-bind (push_value c s r read f x) (λ v. some (some v)) (push_value-Ends f x h)
                (λ v. (some v, refl)))
      ]
    ]

    push_fields-Ends :
        (fs : List Field) (i : ℕ) (m : Message) (t : LuaTable F)
        → All IsBelow fs
        → Ends (push_fields c s r read fs i m t)
    unfolding push_fields
    push_fields-Ends [] i m t h = (t, refl)
    push_fields-Ends (f ∷ fs) i m t h =
        Ends-bind (push_slot c s r read f (get m i) (items m i))
          (λ v. push_fields c s r read fs (i + 1) m (set_pushed f.name v t))
          (push_slot-Ends f (get m i) (items m i) h.0)
          (λ v. push_fields-Ends fs (i + 1) m (set_pushed f.name v t) h.1)

  -- `foreachToTable` ends on every message, at a depth of calls that is one more than the rank of its
  -- type, in a schema where no type holds itself.
  pub foreach_to_table-Ends :
      (rank : ℕ → ℕ)
      → IsRanked s rank
      → (fuel d : ℕ) (m : Message) → rank d < fuel
      → Ends (foreach_to_table c s r fuel d m)
  unfolding foreach_to_table
  foreach_to_table-Ends rank ranked zero d m h = absurd (omega arith)
  foreach_to_table-Ends rank ranked (suc fuel) d m h =
      push_fields-Ends (foreach_to_table c s r fuel) rank fuel
        (foreach_to_table-Ends rank ranked fuel) (s d) 0 m done
        (All-map (λ f below msg. bounded (rank f.message_type) (rank d) fuel (below msg) h) (s d)
          (ranked d))

  push_fields-none :
      (read : Reader c s r) (fs : List Field) (i k : ℕ) (f : Field) (m : Message) (t : LuaTable F)
      → get_elem? fs k ≡ some f
      → push_slot c s r read f (get m (i + k)) (items m (i + k)) ≡ none
      → push_fields c s r read fs i m t ≡ none
  unfolding push_fields
  push_fields-none read [] i k f m t h e = cc
  push_fields-none read (g ∷ fs) i zero f m t h e =
      let q : g ≡ f = cc in
      let e : push_slot c s r read f (get m i) (items m i) ≡ none =
        subst (λ j. push_slot c s r read f (get m j) (items m j) ≡ none) (omega arith) e in
      rw (q, e) refl
  push_fields-none read (g ∷ fs) i (suc k) f m t h e =
      elim (Option-cases (push_slot c s r read g (get m i) (items m i))) [
        | inl o ↦ rw o refl
        | inr (v, o) ↦ rw o (
            push_fields-none read fs (i + 1) k f m (set_pushed g.name v t) h
              (subst (λ j. push_slot c s r read f (get m j) (items m j) ≡ none) (omega arith) e))
      ]

  -- A single field of a message type, whose getter returns a message, and whose type has `P` again.
  abbrev pub Recurs : (ℕ → Type 0) → ℕ → Message → Type 0
  Recurs P d m =
      (i : ℕ) × (f : Field) × (get_elem? (s d) i ≡ some f)
      × (f.is_repeated ≡ false)
      × (f.field_type ≡ message)
      × P f.message_type
      × (n : Message) × (get m i ≡ nested n)

  -- Where the types with `P` have a single field of such a type each, `foreachToTable` ends on no
  -- message of one, at no depth of calls.
  pub foreach_to_table_overflows :
      (P : ℕ → Type 0)
      → ((d : ℕ) (m : Message) → P d → Recurs P d m)
      → (fuel d : ℕ) (m : Message) → P d
      → foreach_to_table c s r fuel d m ≡ none
  unfolding foreach_to_table push_slot push_value
  foreach_to_table_overflows P recurs zero d m p = refl
  foreach_to_table_overflows P recurs (suc fuel) d m p =
      let (i, f, at, one, msg, p, n, e) = recurs d m p in
      let z : 0 + i ≡ i = omega arith in
      push_fields-none (foreach_to_table c s r fuel) (s d) 0 i f m done at
        (rw (one, msg, z, e, foreach_to_table_overflows P recurs fuel f.message_type n p) refl)
