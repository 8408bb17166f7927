-- ===== src/Lua/Fields.antt =====
-- What is read back of a Lua table whose keys are texts, each once, and of one that is filled by index.
use server.Prelude.{
  ℕ, ◌≡◌, refl, sym, ap, ◌∙◌, true, false, List, if◌then◌else◌, ◌==◌, Bool-cases, inl, inr, arith,
}
use server.Prelude.Int.{ℤ, pos, negsuc, same_integer}
use server.Prelude.Dict.{same_text, same_text-eq, same_text_self}
use server.Lua.{
  LuaValue, nil, boolean, integer, number, string, table, other, LuaTable, done, entry, is_text,
  is_integer, get_field, set_field, get_index, set_index, get_field-set_field,
}
use server.Lua.Ends.{has_field, has_index}

-- Nil erases.
unfoldable pub erase_field : {F : Type 0} → List ℕ → LuaTable F → LuaTable F
erase_field k done = done
erase_field k (entry j v t) = if is_text k j then t else entry j v (erase_field k t)

unfoldable pub erase_index : {F : Type 0} → ℤ → LuaTable F → LuaTable F
erase_index k done = done
erase_index k (entry j v t) = if is_integer k j then t else entry j v (erase_index k t)

abbrev pub put_field : {F : Type 0} → List ℕ → LuaValue F → LuaTable F → LuaTable F
put_field k nil t = erase_field k t
put_field k v t = set_field k v t

abbrev pub put_index : {F : Type 0} → ℤ → LuaValue F → LuaTable F → LuaTable F
put_index k nil t = erase_index k t
put_index k v t = set_index k v t

same_text_apart : (i k : List ℕ) → same_text i k ≡ false → same_text k i ≡ false
same_text_apart i k h = elim (Bool-cases (same_text k i)) [
  | inr apart ↦ apart
  | inl alike ↦
      let e : same_text i k ≡ true = rw (same_text-eq k i alike) (same_text_self i) in
      absurd (ground (arith, e, h))
]

module _ {F : Type 0} where
  -- The keys are texts, each once.
  abbrev pub AreTexts : LuaTable F → Type 0
  AreTexts done = Unit
  AreTexts (entry (string s) v t) = (has_field s t ≡ false) × AreTexts t
  AreTexts _ = ⊥

  get_field_missing : (k : List ℕ) (t : LuaTable F) → has_field k t ≡ false → get_field k t ≡ nil
  unfolding get_field
  get_field_missing k done h = refl
  get_field_missing k (entry j v t) h = elim (Bool-cases (is_text k j)) [
    | inl here ↦ let h : true ≡ false = rw here at h in cc
    | inr there ↦ rw there (get_field_missing k t (rw there at h))
  ]

  has_field-set_field :
      (j k : List ℕ) (v : LuaValue F) (t : LuaTable F)
      → same_text k j ≡ false
      → has_field j t ≡ false
      → has_field j (set_field k v t) ≡ false
  unfolding set_field
  has_field-set_field j k v done d h = rw d refl
  has_field-set_field j k v (entry i w t) d h = elim (Bool-cases (is_text k i)) [
    | inl here ↦ rw here h
    | inr there ↦ elim (Bool-cases (is_text j i)) [
      | inl found ↦ let h : true ≡ false = rw found at h in cc
      | inr missed ↦ rw (there, missed) (has_field-set_field j k v t d (rw missed at h))
    ]
  ]

  get_field-erase_field :
      (j k : List ℕ) (t : LuaTable F)
      → AreTexts t
      → get_field j (erase_field k t) ≡ (if same_text k j then nil else get_field j t)
  unfolding get_field erase_field
  get_field-erase_field j k done a = ground arith
  get_field-erase_field j k (entry (string i) v t) (new, a) = elim (Bool-cases (same_text i k)) [
    | inl here ↦
        let e : i ≡ k = same_text-eq i k here in
        rw (here, ← e)
          (elim (Bool-cases (same_text i j)) [
            | inl same ↦
                let f : i ≡ j = same_text-eq i j same in rw (same, ← f) (get_field_missing i t new)
            | inr differ ↦ rw differ refl
          ])
    | inr there ↦ elim (Bool-cases (same_text i j)) [
      | inl same ↦ elim (Bool-cases (same_text k j)) [
        | inr apart ↦ rw (there, same, apart) refl
        | inl alike ↦
            let f : i ≡ k = same_text-eq i j same ∙ sym (same_text-eq k j alike) in
            let e : same_text i k ≡ true = rw f (same_text_self k) in
            absurd (ground (arith, e, there))
      ]
      | inr differ ↦ rw (there, differ) (get_field-erase_field j k t a)
    ]
  ]
  get_field-erase_field j k (entry nil v t) a = absurd a
  get_field-erase_field j k (entry (boolean b) v t) a = absurd a
  get_field-erase_field j k (entry (integer z) v t) a = absurd a
  get_field-erase_field j k (entry (number x) v t) a = absurd a
  get_field-erase_field j k (entry (table u) v t) a = absurd a
  get_field-erase_field j k (entry other v t) a = absurd a

  erase_has_field :
      (j k : List ℕ) (t : LuaTable F)
      → has_field j t ≡ false
      → has_field j (erase_field k t) ≡ false
  unfolding erase_field
  erase_has_field j k done h = refl
  erase_has_field j k (entry i w t) h = elim (Bool-cases (is_text j i)) [
    | inl found ↦ let h : true ≡ false = rw found at h in cc
    | inr missed ↦
        let h : has_field j t ≡ false = rw missed at h in
        elim (Bool-cases (is_text k i)) [
          | inl here ↦ rw here h
          | inr there ↦ rw (there, missed) (erase_has_field j k t h)
        ]
  ]

  erase_field-AreTexts : (k : List ℕ) (t : LuaTable F) → AreTexts t → AreTexts (erase_field k t)
  unfolding erase_field
  erase_field-AreTexts k done a = tt
  erase_field-AreTexts k (entry (string i) w t) (new, a) = elim (Bool-cases (same_text i k)) [
    | inl here ↦ rw here a
    | inr there ↦ rw there (erase_has_field i k t new, erase_field-AreTexts k t a)
  ]
  erase_field-AreTexts k (entry nil v t) a = absurd a
  erase_field-AreTexts k (entry (boolean b) v t) a = absurd a
  erase_field-AreTexts k (entry (integer z) v t) a = absurd a
  erase_field-AreTexts k (entry (number x) v t) a = absurd a
  erase_field-AreTexts k (entry (table u) v t) a = absurd a
  erase_field-AreTexts k (entry other v t) a = absurd a

  set_field-AreTexts :
      (k : List ℕ) (v : LuaValue F) (t : LuaTable F) → AreTexts t → AreTexts (set_field k v t)
  unfolding set_field
  set_field-AreTexts k v done a = (refl, tt)
  set_field-AreTexts k v (entry (string i) w t) (new, a) = elim (Bool-cases (same_text i k)) [
    | inl here ↦ rw here (new, a)
    | inr there ↦
        rw there
          (has_field-set_field i k v t (same_text_apart i k there) new, set_field-AreTexts k v t a)
  ]
  set_field-AreTexts k v (entry nil w t) a = absurd a
  set_field-AreTexts k v (entry (boolean b) w t) a = absurd a
  set_field-AreTexts k v (entry (integer z) w t) a = absurd a
  set_field-AreTexts k v (entry (number x) w t) a = absurd a
  set_field-AreTexts k v (entry (table u) w t) a = absurd a
  set_field-AreTexts k v (entry other w t) a = absurd a

  pub put_field-AreTexts :
      (k : List ℕ) (v : LuaValue F) (t : LuaTable F) → AreTexts t → AreTexts (put_field k v t)
  put_field-AreTexts k nil t a = erase_field-AreTexts k t a
  put_field-AreTexts k (boolean b) t a = set_field-AreTexts k (boolean b) t a
  put_field-AreTexts k (integer z) t a = set_field-AreTexts k (integer z) t a
  put_field-AreTexts k (number x) t a = set_field-AreTexts k (number x) t a
  put_field-AreTexts k (string s) t a = set_field-AreTexts k (string s) t a
  put_field-AreTexts k (table u) t a = set_field-AreTexts k (table u) t a
  put_field-AreTexts k other t a = set_field-AreTexts k other t a

  pub get_field-put_field :
      (j k : List ℕ) (v : LuaValue F) (t : LuaTable F)
      → AreTexts t
      → get_field j (put_field k v t) ≡ (if same_text k j then v else get_field j t)
  get_field-put_field j k nil t a = get_field-erase_field j k t a
  get_field-put_field j k (boolean b) t a = get_field-set_field j k (boolean b) t
  get_field-put_field j k (integer z) t a = get_field-set_field j k (integer z) t
  get_field-put_field j k (number x) t a = get_field-set_field j k (number x) t
  get_field-put_field j k (string s) t a = get_field-set_field j k (string s) t
  get_field-put_field j k (table u) t a = get_field-set_field j k (table u) t
  get_field-put_field j k other t a = get_field-set_field j k other t

  pub get_index-set_index :
      (j k : ℕ) (v : LuaValue F) (t : LuaTable F)
      → get_index (pos j) (set_index (pos k) v t) ≡ (if k == j then v else get_index (pos j) t)
  unfolding get_index set_index
  get_index-set_index j k v done = refl
  get_index-set_index j k v (entry (integer (pos i)) w t) =
      ground (arith, get_index-set_index j k v t)
  get_index-set_index j k v (entry (integer (negsuc i)) w t) = get_index-set_index j k v t
  get_index-set_index j k v (entry nil w t) = get_index-set_index j k v t
  get_index-set_index j k v (entry (boolean b) w t) = get_index-set_index j k v t
  get_index-set_index j k v (entry (number x) w t) = get_index-set_index j k v t
  get_index-set_index j k v (entry (string s) w t) = get_index-set_index j k v t
  get_index-set_index j k v (entry (table u) w t) = get_index-set_index j k v t
  get_index-set_index j k v (entry other w t) = get_index-set_index j k v t

  pub get_field-set_index :
      (k : List ℕ) (i : ℤ) (v : LuaValue F) (t : LuaTable F)
      → get_field k (set_index i v t) ≡ get_field k t
  unfolding get_field set_index
  get_field-set_index k i v done = refl
  get_field-set_index k i v (entry (integer z) w t) = elim (Bool-cases (same_integer z i)) [
    | inl here ↦ rw here refl
    | inr there ↦ rw there (get_field-set_index k i v t)
  ]
  get_field-set_index k i v (entry (string s) w t) =
      ap (λ u. if same_text s k then w else u) (get_field-set_index k i v t)
  get_field-set_index k i v (entry nil w t) = get_field-set_index k i v t
  get_field-set_index k i v (entry (boolean b) w t) = get_field-set_index k i v t
  get_field-set_index k i v (entry (number x) w t) = get_field-set_index k i v t
  get_field-set_index k i v (entry (table u) w t) = get_field-set_index k i v t
  get_field-set_index k i v (entry other w t) = get_field-set_index k i v t

  pub get_index_missing : (z : ℤ) (t : LuaTable F) → has_index z t ≡ false → get_index z t ≡ nil
  unfolding get_index
  get_index_missing z done h = refl
  get_index_missing z (entry j v t) h = elim (Bool-cases (is_integer z j)) [
    | inl here ↦ let h : true ≡ false = rw here at h in cc
    | inr there ↦ rw there (get_index_missing z t (rw there at h))
  ]

  pub erase_index_missing : (z : ℤ) (t : LuaTable F) → has_index z t ≡ false → erase_index z t ≡ t
  unfolding erase_index
  erase_index_missing z done h = refl
  erase_index_missing z (entry j v t) h = elim (Bool-cases (is_integer z j)) [
    | inl here ↦ let h : true ≡ false = rw here at h in cc
    | inr there ↦
        let h : has_index z t ≡ false = rw there at h in
        rw there (ap (entry j v) (erase_index_missing z t h))
  ]
