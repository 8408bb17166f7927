-- ===== src/Lua/Ends.antt =====
-- Entries at the end of a Lua table: where a key is new, a table that is written to grows by one.
use server.Prelude.{
  ℕ, suc, ◌≤◌, ◌≡◌, refl, ap, ◌∙◌, Bool, true, false, ◌||◌, List, Bool-cases, inl, inr, arith,
}
use server.Prelude.Int.{ℤ, pos}
use server.Lua.{
  LuaValue, integer, string, LuaTable, done, entry, is_text, is_integer, set_field, set_index,
}

-- An entry at the end.
abbrev pub snoc : {F : Type 0} → LuaTable F → (key value : LuaValue F) → LuaTable F
snoc done k v = entry k v done
snoc (entry j w t) k v = entry j w (snoc t k v)

abbrev pub has_field : {F : Type 0} → List ℕ → LuaTable F → Bool
has_field k done = false
has_field k (entry j v t) = is_text k j || has_field k t

abbrev pub has_index : {F : Type 0} → ℤ → LuaTable F → Bool
has_index k done = false
has_index k (entry j v t) = is_integer k j || has_index k t

pub set_field-snoc :
    {F : Type 0} (k : List ℕ) (v : LuaValue F) (t : LuaTable F)
    → has_field k t ≡ false
    → set_field k v t ≡ snoc t (string k) v
unfolding set_field
set_field-snoc k v done h = refl
set_field-snoc k v (entry j w t) h = elim (Bool-cases (is_text k j)) [
  | inl e ↦ let h : true ≡ false = rw e at h in cc
  | inr e ↦
      let h : has_field k t ≡ false = rw e at h in rw e (ap (entry j w) (set_field-snoc k v t h))
]

pub set_index-snoc :
    {F : Type 0} (k : ℤ) (v : LuaValue F) (t : LuaTable F)
    → has_index k t ≡ false
    → set_index k v t ≡ snoc t (integer k) v
unfolding set_index
set_index-snoc k v done h = refl
set_index-snoc k v (entry j w t) h = elim (Bool-cases (is_integer k j)) [
  | inl e ↦ let h : true ≡ false = rw e at h in cc
  | inr e ↦
      let h : has_index k t ≡ false = rw e at h in rw e (ap (entry j w) (set_index-snoc k v t h))
]

-- The table `acc` with the entries of another one at its end.
unfoldable pub append : {F : Type 0} → (acc t : LuaTable F) → LuaTable F
append acc done = acc
append acc (entry k v t) = append (snoc acc k v) t

append-entry :
    {F : Type 0} (k v : LuaValue F) (acc t : LuaTable F)
    → append (entry k v acc) t ≡ entry k v (append acc t)
unfolding append
append-entry k v acc done = refl
append-entry k v acc (entry j w t) = append-entry k v (snoc acc j w) t

pub append_done : {F : Type 0} (t : LuaTable F) → append done t ≡ t
unfolding append
append_done done = refl
append_done (entry k v t) = append-entry k v done t ∙ ap (entry k v) (append_done t)

-- No entry has the key `j` or an integer above.
abbrev pub IsBelow : {F : Type 0} → ℕ → LuaTable F → Type 0
IsBelow i t = (j : ℕ) → i ≤ j → has_index (pos j) t ≡ false

pub has_index-snoc :
    {F : Type 0} (j i : ℕ) (v : LuaValue F) (t : LuaTable F)
    → suc i ≤ j
    → has_index (pos j) t ≡ false
    → has_index (pos j) (snoc t (integer (pos i)) v) ≡ false
has_index-snoc j i v done le h = ground arith
has_index-snoc j i v (entry k w t) le h = elim (Bool-cases (is_integer (pos j) k)) [
  | inl e ↦ let h : true ≡ false = rw e at h in cc
  | inr e ↦ let h : has_index (pos j) t ≡ false = rw e at h in rw e (has_index-snoc j i v t le h)
]

pub has_index-set_field :
    {F : Type 0} (z : ℤ) (k : List ℕ) (v : LuaValue F) (t : LuaTable F)
    → has_index z (set_field k v t) ≡ has_index z t
unfolding set_field
has_index-set_field z k v done = refl
has_index-set_field z k v (entry j w t) = elim (Bool-cases (is_text k j)) [
  | inl here ↦ rw here refl
  | inr there ↦ rw there (ap (λ b. is_integer z j || b) (has_index-set_field z k v t))
]
