-- ===== src/Proto/View/Whole.antt =====
-- A message made of a Lua table and read back, field by field.
use server.Prelude.{
  bind_inv, bind-bind, ℕ, zero, suc, ◌+◌, ◌≤◌, ◌≡◌, ◌≢◌, refl, ap, ◌∙◌, false, List, [], ◌∷◌, some,
  arith, ==_self, ==_of_ne, Bool-cases, Option-cases, inl, inr, ◌<◌,
}
use server.Lua.{
  LuaValue, nil, boolean, integer, number, string, table, other, LuaTable, done, get_field,
}
use server.Proto.{
  Field, Schema, Item, nested, Reflection, Conversions, is_message, is_unsupported, add_all,
  set_value, fill_field, fill_fields, foreach_to_msg, push_value, push_items, push_slot, set_pushed,
  push_fields, foreach_to_table, Filler, Reader,
}
use server.Proto.Laws.{default_item, IsFresh, Obeys}
use server.Proto.View.{Viewer, array, view_array, view_value, view_field, view_fields, view}
use server.Proto.View.Scalars.{scalar_cases, push-default_item, default_item-message, kept-nil}
use server.Proto.View.Elements.{Grows, Grows-unchanged, push_items-array, elements}

module _ {F G : Type 0} (c : Conversions F G) (zero_real : F) (zero_single : G) (s : Schema)
    (r : Reflection F G) (obeys : Obeys c zero_real zero_single s r) where
  open r use {Message, make, set, add, get, items}

  -- The message `after` is `before` in field `j`.
  abbrev Same : ℕ → (before after : Message) → Type 0
  Same j m m' = (get m' j ≡ get m j) × (items m' j ≡ items m j)

  Same-trans : (j : ℕ) (a b d : Message) → Same j a b → Same j b d → Same j a d
  Same-trans j a b d p q = (q.0 ∙ p.0, q.1 ∙ p.1)

  IsFresh-frame :
      (fs : List Field) (i : ℕ) (m m' : Message)
      → ((j : ℕ) → i ≤ j → Same j m m')
      → IsFresh c zero_real zero_single s r fs i m
      → IsFresh c zero_real zero_single s r fs i m'
  IsFresh-frame [] i m m' same h = tt
  IsFresh-frame (f ∷ fs) i m m' same h =
      let here = same i (omega arith) in
      (here.0 ∙ h.0, here.1 ∙ h.1, IsFresh-frame fs (i + 1) m m' (λ j le. same j (omega arith)) h.2)

  module _ (read : Reader c s r) (viewer : Viewer c)
      (agree_fresh : (d : ℕ) → read d (make d) ≡ viewer nil d) where
    fresh_value :
        (f : Field)
        → is_unsupported f.field_type ≡ false
        → push_value c s r read f (default_item c zero_real zero_single make f f.field_type)
          ≡ view_value c zero_real zero_single viewer f nil
    unfolding push_value
    fresh_value f u = elim (Bool-cases (is_message f.field_type)) [
      | inl msg ↦
          rw
            (
              msg,
              default_item-message Message c make f zero_real zero_single f.field_type msg,
              agree_fresh f.message_type,
            )
            refl
      | inr plain ↦
          rw (plain, kept-nil c f.field_type)
            (ap some
              (push-default_item Message c make f zero_real zero_single f.field_type plain u))
    ]

    fresh_field :
        (f : Field) (i : ℕ) (m : Message)
        → get m i ≡ default_item c zero_real zero_single make f f.field_type
        → items m i ≡ []
        → push_slot c s r read f (get m i) (items m i)
          ≡ view_field c zero_real zero_single viewer f nil
    unfolding push_slot view_field push_items array
    fresh_field f i m d e = elim (Bool-cases f.is_repeated) [
      | inl many ↦ rw (many, e) refl
      | inr one ↦ elim (Bool-cases (is_unsupported f.field_type)) [
        | inl u ↦ rw (one, u) refl
        | inr u ↦ rw (one, u, d, fresh_value f u) refl
      ]
    ]

    fresh_fields :
        (fs : List Field) (i : ℕ) (out : LuaTable F) (m : Message)
        → IsFresh c zero_real zero_single s r fs i m
        → push_fields c s r read fs i m out ≡ view_fields c zero_real zero_single viewer fs done out
    unfolding push_fields view_fields get_field
    fresh_fields [] i out m h = refl
    fresh_fields (f ∷ fs) i out m h =
        rw (fresh_field f i m h.0 h.1)
          (elim (Option-cases (view_field c zero_real zero_single viewer f nil)) [
            | inl e ↦ rw e refl
            | inr (o, e) ↦ rw e (fresh_fields fs (i + 1) (set_pushed f.name o out) m h.2)
          ])

  fresh_message :
      (fuel d : ℕ)
      → foreach_to_table c s r fuel d (make d) ≡ view c zero_real zero_single s fuel nil d
  unfolding foreach_to_table view
  fresh_message zero d = refl
  fresh_message (suc fuel) d =
      fresh_fields (foreach_to_table c s r fuel) (view c zero_real zero_single s fuel)
        (fresh_message fuel) (s d) 0 done (make d) (obeys.make-IsFresh d)

  module _ (fill : Filler c s r) (read : Reader c s r) (viewer : Viewer c)
      (agree : (v : LuaValue F) (d : ℕ) (m : Message)
        → fill v d (make d) ≡ some m
        → read d m ≡ viewer v d) where
    -- What a single field is after the switch on it.
    abbrev SetsField : Field → ℕ → LuaValue F → (before after : Message) → Type 0
    SetsField f i v m m' =
        ((j : ℕ) → i ≢ j → Same j m m')
        × (is_unsupported f.field_type ≡ false
            → get m i ≡ default_item c zero_real zero_single make f f.field_type
            → push_value c s r read f (get m' i) ≡ view_value c zero_real zero_single viewer f v)

    set_frame : (i j : ℕ) (m : Message) (x : Item F G Message) → i ≢ j → Same j m (set m i x)
    set_frame i j m x ne =
        (rw (obeys.get-set m i j x, ==_of_ne i j ne) refl, obeys.items-set m i j x)

    set_here : (i : ℕ) (m : Message) (x : Item F G Message) → get (set m i x) i ≡ x
    set_here i m x = rw (obeys.get-set m i i x, ==_self i) refl

    single_value :
        (f : Field) (i : ℕ) (v : LuaValue F) (m m' : Message)
        → set_value c s r fill f i v m ≡ some m'
        → SetsField f i v m m'
    unfolding set_value push_value
    single_value f i v m m' h = elim (Bool-cases (is_message f.field_type)) [
      | inl msg ↦
          let (n, e, q) =
            bind_inv (fill v f.message_type (make f.message_type)) (λ n. some (set m i (nested n)))
              m' (rw msg at h) in
          let q : set m i (nested n) ≡ m' = cc in
          rw (msg, ← q)
            (
              λ j. set_frame i j m (nested n),
              λ u d. rw (set_here i m (nested n), agree v f.message_type n e) refl,
            )
      | inr plain ↦ elim (scalar_cases Message c f.field_type v) [
        | inl (e, k) ↦
            let q : some m ≡ some m' = rw (plain, e) at h in
            let q : m ≡ m' = cc in
            rw (plain, k, ← q)
              (
                λ j ne. (refl, refl),
                λ u d.
                    rw
                      (
                        d,
                        push-default_item Message c make f zero_real zero_single f.field_type plain
                            u,
                      )
                      refl,
              )
        | inr (x, e, k) ↦
            let q : some (set m i x) ≡ some m' = rw (plain, e) at h in
            let q : set m i x ≡ m' = cc in
            rw (plain, k, ← q) (λ j. set_frame i j m x, λ u d. rw (set_here i m x) refl)
      ]
    ]

    -- The elements of a repeated field, whatever the value is.
    all_elements :
        (f : Field) (i : ℕ) (v : LuaValue F) (m m' : Message)
        → add_all c s r fill f i v m ≡ some m'
        → Grows c zero_real zero_single s r obeys fill read viewer agree f i m m'
            (view_array c viewer f v)
    all_elements f i (table t) m m' h =
        elements c zero_real zero_single s r obeys fill read viewer agree f i t 0 (c.len t) m m' h
    all_elements f i nil m m' h =
        Grows-unchanged c zero_real zero_single s r obeys fill read viewer agree f i m m' h
    all_elements f i (boolean b) m m' h =
        Grows-unchanged c zero_real zero_single s r obeys fill read viewer agree f i m m' h
    all_elements f i (integer z) m m' h =
        Grows-unchanged c zero_real zero_single s r obeys fill read viewer agree f i m m' h
    all_elements f i (number x) m m' h =
        Grows-unchanged c zero_real zero_single s r obeys fill read viewer agree f i m m' h
    all_elements f i (string k) m m' h =
        Grows-unchanged c zero_real zero_single s r obeys fill read viewer agree f i m m' h
    all_elements f i other m m' h =
        Grows-unchanged c zero_real zero_single s r obeys fill read viewer agree f i m m' h

    field_frame :
        (f : Field) (i : ℕ) (v : LuaValue F) (m m' : Message)
        → fill_field c s r fill f i v m ≡ some m'
        → (j : ℕ) → i ≢ j
        → Same j m m'
    unfolding fill_field
    field_frame f i v m m' h j ne = elim (Bool-cases f.is_repeated) [
      | inl many ↦ let (xs, a, p) = all_elements f i v m m' (rw many at h) in (a.2 j, a.1 j ne)
      | inr one ↦ (single_value f i v m m' (rw one at h)).0 j ne
    ]

    field :
        (f : Field) (i : ℕ) (v : LuaValue F) (m m' : Message)
        → fill_field c s r fill f i v m ≡ some m'
        → get m i ≡ default_item c zero_real zero_single make f f.field_type
        → items m i ≡ []
        → push_slot c s r read f (get m' i) (items m' i)
          ≡ view_field c zero_real zero_single viewer f v
    unfolding fill_field push_slot view_field
    field f i v m m' h d e = elim (Bool-cases f.is_repeated) [
      | inl many ↦ elim (Bool-cases (is_unsupported f.field_type)) [
        | inl u ↦ rw (many, u) refl
        | inr u ↦
            let (xs, a, p) = all_elements f i v m m' (rw many at h) in
            rw
              (
                many,
                u,
                a.0,
                e,
                push_items-array c zero_real zero_single s r obeys fill read viewer agree f 1 xs,
                p,
              )
              (bind-bind (view_array c viewer f v) (λ vs. some (array 1 vs))
                (λ t. some (some (table t))))
      ]
      | inr one ↦ elim (Bool-cases (is_unsupported f.field_type)) [
        | inl u ↦ rw (one, u) refl
        | inr u ↦ rw (one, u, (single_value f i v m m' (rw one at h)).1 u d) refl
      ]
    ]

    -- The two loops over the fields from index `i` on; the fields before it stay as they are.
    fields :
        (fs : List Field) (i : ℕ) (t out : LuaTable F) (m m' : Message)
        → fill_fields c s r fill fs i t m ≡ some m'
        → IsFresh c zero_real zero_single s r fs i m
        → ((j : ℕ) → j < i → Same j m m')
          × (push_fields c s r read fs i m' out
              ≡ view_fields c zero_real zero_single viewer fs t out)
    unfolding fill_fields push_fields view_fields
    fields [] i t out m m' h fresh = let q : m ≡ m' = cc in rw (← q) (λ j lt. (refl, refl), refl)
    fields (f ∷ fs) i t out m m' h fresh =
        let v = get_field f.name t in
        let (n, e, rest) =
          bind_inv (fill_field c s r fill f i v m) (fill_fields c s r fill fs (i + 1) t) m' h in
        let frame = field_frame f i v m n e in
        let ready = IsFresh-frame fs (i + 1) m n (λ j le. frame j (λ same. omega arith)) fresh.2 in
        let after : (out : LuaTable F)
            → ((j : ℕ) → j < i + 1 → Same j n m')
              × (push_fields c s r read fs (i + 1) m' out
                  ≡ view_fields c zero_real zero_single viewer fs t out) =
          λ out. fields fs (i + 1) t out n m' rest ready in
        let here = (after out).0 i (omega arith) in
        (
          λ j lt.
              Same-trans j m n m' (frame j (λ same. omega arith)) ((after out).0 j (omega arith)),
          rw (here.0, here.1, field f i v m n e fresh.0 fresh.1)
              (elim (Option-cases (view_field c zero_real zero_single viewer f v)) [
                | inl none_ ↦ rw none_ refl
                | inr (o, e) ↦ rw e (after (set_pushed f.name o out)).1
              ]),
        )

  -- With setters and adders that change one field only and new messages that have their defaults: a
  -- message that is made of a Lua value by `foreachToMsg` is read back by `foreachToTable` as `view` says,
  -- whatever the depth of calls that both have room for.
  pub foreach_to_table-foreach_to_msg :
      (fuel : ℕ) (v : LuaValue F) (d : ℕ) (m : Message)
      → foreach_to_msg c s r fuel v d (make d) ≡ some m
      → foreach_to_table c s r fuel d m ≡ view c zero_real zero_single s fuel v d
  unfolding foreach_to_msg foreach_to_table view
  foreach_to_table-foreach_to_msg zero v d m h = refl
  foreach_to_table-foreach_to_msg (suc fuel) (table t) d m h =
      (fields (foreach_to_msg c s r fuel) (foreach_to_table c s r fuel)
        (view c zero_real zero_single s fuel) (foreach_to_table-foreach_to_msg fuel) (s d) 0 t done
        (make d) m h (obeys.make-IsFresh d)).1
  foreach_to_table-foreach_to_msg (suc fuel) nil d m h =
      let q : make d ≡ m = cc in rw (← q) (fresh_message (suc fuel) d)
  foreach_to_table-foreach_to_msg (suc fuel) (boolean b) d m h =
      let q : make d ≡ m = cc in rw (← q) (fresh_message (suc fuel) d)
  foreach_to_table-foreach_to_msg (suc fuel) (integer z) d m h =
      let q : make d ≡ m = cc in rw (← q) (fresh_message (suc fuel) d)
  foreach_to_table-foreach_to_msg (suc fuel) (number x) d m h =
      let q : make d ≡ m = cc in rw (← q) (fresh_message (suc fuel) d)
  foreach_to_table-foreach_to_msg (suc fuel) (string k) d m h =
      let q : make d ≡ m = cc in rw (← q) (fresh_message (suc fuel) d)
  foreach_to_table-foreach_to_msg (suc fuel) other d m h =
      let q : make d ≡ m = cc in rw (← q) (fresh_message (suc fuel) d)
