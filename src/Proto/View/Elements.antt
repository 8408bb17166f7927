-- ===== src/Proto/View/Elements.antt =====
-- A repeated field: what the elements of a Lua array add to a message, and the array pushed of them.
use server.Prelude.{
  bind, bind_inv, bind-bind, ℕ, zero, suc, ◌+◌, ◌≡◌, ◌≢◌, refl, ap, sym, ◌∙◌, true, List, [], ◌∷◌,
  ◌++◌, Option, none, some, ==_self, ==_of_ne, Bool-cases, Option-cases, inl, inr, append_assoc,
  append_nil,
}
use server.Prelude.Int.{pos}
use server.Lua.{LuaValue, integer, table, LuaTable, entry, get_index}
use server.Proto.{
  Field, Schema, Item, nested, Reflection, Conversions, is_message, is_table, add_element,
  add_elements, push_value, push_items, Filler, Reader,
}
use server.Proto.Laws.{Obeys}
use server.Proto.View.{Viewer, view_element, view_elements, cons_some, array}
use server.Proto.View.Scalars.{scalar_cases}

cons_some-append :
    {F : Type 0} (o : Option (LuaValue F)) (vs : List (LuaValue F))
    → cons_some o vs ≡ cons_some o [] ++ vs
cons_some-append none vs = refl
cons_some-append (some v) vs = refl

chain :
    {F : Type 0} (o : Option (Option (LuaValue F))) (rest : Option (List (LuaValue F)))
    → bind (bind o (λ o. some (cons_some o []))) (λ vs. bind rest (λ ws. some (vs ++ ws)))
      ≡ bind o (λ o. bind rest (λ vs. some (cons_some o vs)))
chain none rest = refl
chain (some o) none = refl
chain (some o) (some vs) = ap some (sym (cons_some-append o vs))

link {ℓ} :
    {A : Type ℓ} (o : Option A) (xs ys : Option (List A))
    → bind o (λ v. bind (bind xs (λ vs. bind ys (λ ws. some (vs ++ ws)))) (λ vs. some (v ∷ vs)))
      ≡ bind (bind o (λ v. bind xs (λ vs. some (v ∷ vs)))) (λ vs. bind ys (λ ws. some (vs ++ ws)))
link none xs ys = refl
link (some v) none ys = refl
link (some v) (some vs) none = refl
link (some v) (some vs) (some ws) = refl

module _ {F G : Type 0} (c : Conversions F G) (zero_real : F) (zero_single : G) (s : Schema)
    (r : Reflection F G) (obeys : Obeys c zero_real zero_single s r) where
  open r use {Message, make, set, add, get, items}

  -- The message `after` is `before` with these elements added to field `i`.
  abbrev pub Adds : ℕ → List (Item F G Message) → (before after : Message) → Type 0
  Adds i xs before after =
      (items after i ≡ items before i ++ xs)
      × ((j : ℕ) → i ≢ j → items after j ≡ items before j)
      × ((j : ℕ) → get after j ≡ get before j)

  Adds-none : (i : ℕ) (m : Message) → Adds i [] m m
  Adds-none i m = (sym (append_nil (items m i)), λ j h. refl, λ j. refl)

  Adds-add : (i : ℕ) (m : Message) (x : Item F G Message) → Adds i (x ∷ []) m (add m i x)
  Adds-add i m x = (
    rw (obeys.items-add m i i x, ==_self i) refl,
    λ j h. rw (obeys.items-add m i j x, ==_of_ne i j h) refl,
    λ j. obeys.get-add m i j x,
  )

  Adds-append :
      (i : ℕ) (xs ys : List (Item F G Message)) (a b d : Message)
      → Adds i xs a b
      → Adds i ys b d
      → Adds i (xs ++ ys) a d
  Adds-append i xs ys a b d h k = (
    k.0 ∙ ap (λ zs. zs ++ ys) h.0 ∙ append_assoc (items a i) xs ys,
    λ j ne. k.1 j ne ∙ h.1 j ne,
    λ j. k.2 j ∙ h.2 j,
  )

  module _ (fill : Filler c s r) (read : Reader c s r) (viewer : Viewer c)
      (agree : (v : LuaValue F) (d : ℕ) (m : Message)
        → fill v d (make d) ≡ some m
        → read d m ≡ viewer v d) where
    -- What is pushed of these elements.
    pub pushed : Field → List (Item F G Message) → Option (List (LuaValue F))
    pushed f [] = some []
    pushed f (x ∷ xs) =
        bind (push_value c s r read f x) (λ v. bind (pushed f xs) (λ vs. some (v ∷ vs)))

    pub push_items-array :
        (f : Field) (flag : ℕ) (xs : List (Item F G Message))
        → push_items c s r read f flag xs ≡ bind (pushed f xs) (λ vs. some (array flag vs))
    unfolding push_items pushed array push_value
    push_items-array f flag [] = refl
    push_items-array f flag (x ∷ xs) = elim (Option-cases (push_value c s r read f x)) [
      | inl e ↦ rw e refl
      | inr (v, e) ↦
          rw (e, push_items-array f (flag + 1) xs)
            (bind-bind (pushed f xs) (λ vs. some (array (flag + 1) vs))
                (λ t. some (entry (integer (pos flag)) v t))
              ∙ sym (bind-bind (pushed f xs) (λ vs. some (v ∷ vs)) (λ vs. some (array flag vs))))
    ]

    -- The message grew by elements of which this is pushed.
    abbrev pub Grows : Field → ℕ → (before after : Message) → Option (List (LuaValue F)) → Type 0
    Grows f i m m' out = (xs : List (Item F G Message)) × Adds i xs m m' × (pushed f xs ≡ out)

    pub Grows-unchanged :
        (f : Field) (i : ℕ) (m m' : Message) → some m ≡ some m' → Grows f i m m' (some [])
    unfolding pushed
    Grows-unchanged f i m m' h = let q : m ≡ m' = cc in rw (← q) ([], Adds-none i m, refl)

    table_element :
        (f : Field) (i : ℕ) (v : LuaValue F) (m n : Message)
        → fill v f.message_type (make f.message_type) ≡ some n
        → is_message f.field_type ≡ true
        → Grows f i m (add m i (nested n)) (
            bind
              (bind (viewer v f.message_type) (λ u. some (some (table u))))
              (λ o. some (cons_some o [])))
    unfolding pushed push_value
    table_element f i v m n h msg = (
      nested n ∷ [],
      Adds-add i m (nested n),
      rw (msg, agree v f.message_type n h)
          (bind-bind (viewer v f.message_type) (λ t. some (table t)) (λ v. some (v ∷ []))
            ∙ sym (
                bind-bind (viewer v f.message_type) (λ u. some (some (table u)))
                  (λ o. some (cons_some o [])))),
    )

    element :
        (f : Field) (i : ℕ) (v : LuaValue F) (m m' : Message)
        → add_element c s r fill f i v m ≡ some m'
        → Grows f i m m' (bind (view_element c viewer f v) (λ o. some (cons_some o [])))
    unfolding add_element view_element pushed push_value
    element f i v m m' h = elim (Bool-cases (is_message f.field_type)) [
      | inl msg ↦ elim (Bool-cases (is_table v)) [
        | inl tab ↦
            let (n, e, q) =
              bind_inv (fill v f.message_type (make f.message_type))
                (λ n. some (add m i (nested n))) m' (rw (msg, tab) at h) in
            let q : add m i (nested n) ≡ m' = cc in
            rw (msg, tab, ← q) (table_element f i v m n e msg)
        | inr stay ↦
            let e : some m ≡ some m' = rw (msg, stay) at h in
            let q : m ≡ m' = cc in rw (msg, stay, ← q) ([], Adds-none i m, refl)
      ]
      | inr plain ↦ elim (scalar_cases Message c f.field_type v) [
        | inl (e, k) ↦
            let q : some m ≡ some m' = rw (plain, e) at h in
            let q : m ≡ m' = cc in rw (plain, k, ← q) ([], Adds-none i m, refl)
        | inr (x, e, k) ↦
            let q : some (add m i x) ≡ some m' = rw (plain, e) at h in
            let q : add m i x ≡ m' = cc in
            rw (plain, k, ← q) (x ∷ [], Adds-add i m x, rw plain refl)
      ]
    ]

    pushed-append :
        (f : Field) (xs ys : List (Item F G Message))
        → pushed f (xs ++ ys)
          ≡ bind (pushed f xs) (λ vs. bind (pushed f ys) (λ ws. some (vs ++ ws)))
    unfolding pushed
    pushed-append f [] ys = elim (Option-cases (pushed f ys)) [
      | inl e ↦ rw e refl
      | inr (ws, e) ↦ rw e refl
    ]
    pushed-append f (x ∷ xs) ys =
        rw (pushed-append f xs ys) (link (push_value c s r read f x) (pushed f xs) (pushed f ys))

    pub elements :
        (f : Field) (i : ℕ) (t : LuaTable F) (j k : ℕ) (m m' : Message)
        → add_elements c s r fill f i t j k m ≡ some m'
        → Grows f i m m' (view_elements c viewer f t j k)
    unfolding add_elements view_elements pushed
    elements f i t j zero m m' h = Grows-unchanged f i m m' h
    elements f i t j (suc k) m m' h =
        let v = get_index (pos (j + 1)) t in
        let (n, e, rest) =
          bind_inv (add_element c s r fill f i v m) (add_elements c s r fill f i t (j + 1) k) m'
            h in
        let (xs, a, p) = element f i v m n e in
        let (ys, b, q) = elements f i t (j + 1) k n m' rest in
        (
          xs ++ ys,
          Adds-append i xs ys m n m' a b,
          pushed-append f xs ys
              ∙ rw (p, q)
                  (chain (view_element c viewer f v) (view_elements c viewer f t (j + 1) k)),
        )
