-- ===== src/Lua.antt =====
-- Lua values as the bindings read and build them. The types of `lua_Number` and of the C numbers that
-- a binding stores are parameters. A table lists its entries in the order of `lua_next`.
pub mod Ends
pub mod Fields
use server.Prelude.{
  ℕ, Bool, true, false, ◌≡◌, refl, List, if◌then◌else◌, arith, Bool-cases, inl, inr, ◌⊎◌, subst,
  false,
}
use server.Prelude.Int.{ℤ, same_integer}
use server.Prelude.Dict.{same_text, same_text-eq}

mutual
  pub data LuaValue (F : Type 0) : Type 0 where
    nil : LuaValue F
    boolean : Bool → LuaValue F
    integer : ℤ → LuaValue F
    number : F → LuaValue F
    string : List ℕ → LuaValue F
    table : LuaTable F → LuaValue F
    -- functions, threads and user data
    other : LuaValue F

  pub data LuaTable (F : Type 0) : Type 0 where
    done : LuaTable F
    entry : (key value : LuaValue F) → LuaTable F → LuaTable F

-- A binding returns, or raises a Lua error, after which none of its later statements runs.
pub data Result {ℓ} (A : Type ℓ) : Type ℓ where
  ok : A → Result A
  raise : Result A
  -- C++ or the Lua API leaves open what happens
  undefined : Result A

infixl 5 ◌>>=◌
abbrev pub ◌>>=◌ {ℓ κ} : {A : Type ℓ} {B : Type κ} → Result A → (A → Result B) → Result B
ok a >>= f = f a
raise >>= f = raise
undefined >>= f = undefined

-- A binding that returned has returned from its first part.
pub bind-ok {ℓ κ} :
    {A : Type ℓ} {B : Type κ} (r : Result A) (f : A → Result B) (b : B)
    → (r >>= f) ≡ ok b
    → (a : A) × (r ≡ ok a) × (f a ≡ ok b)
bind-ok (ok a) f b h = (a, refl, h)
bind-ok raise f b h = cc
bind-ok undefined f b h = cc

pub Result-cases :
    {A : Type 0} (r : Result A) → ((a : A) × (r ≡ ok a)) ⊎ ((r ≡ raise) ⊎ (r ≡ undefined))
Result-cases (ok a) = inl (a, refl)
Result-cases raise = inr (inl refl)
Result-cases undefined = inr (inr refl)

-- `LUA_MINSTACK`: the slots that a C function has beside its arguments.
abbrev pub min_stack : ℕ
min_stack = 20

-- The key is this text.
abbrev pub is_text : {F : Type 0} → List ℕ → LuaValue F → Bool
is_text k (string j) = same_text j k
is_text k _ = false

-- The key is this integer.
abbrev pub is_integer : {F : Type 0} → ℤ → LuaValue F → Bool
is_integer k (integer j) = same_integer j k
is_integer k _ = false

-- `lua_getfield`
unfoldable pub get_field : {F : Type 0} → List ℕ → LuaTable F → LuaValue F
get_field k done = nil
get_field k (entry j v t) = if is_text k j then v else get_field k t

-- `lua_setfield`, for a value other than nil.
unfoldable pub set_field : {F : Type 0} → List ℕ → LuaValue F → LuaTable F → LuaTable F
set_field k v done = entry (string k) v done
set_field k v (entry j w t) = if is_text k j then entry j v t else entry j w (set_field k v t)

-- `lua_rawgeti` and `lua_rawseti`
unfoldable pub get_index : {F : Type 0} → ℤ → LuaTable F → LuaValue F
get_index k done = nil
get_index k (entry j v t) = if is_integer k j then v else get_index k t

unfoldable pub set_index : {F : Type 0} → ℤ → LuaValue F → LuaTable F → LuaTable F
set_index k v done = entry (integer k) v done
set_index k v (entry j w t) = if is_integer k j then entry j v t else entry j w (set_index k v t)

same_text_trans : (j k i : List ℕ) → same_text i k ≡ true → same_text i j ≡ same_text k j
same_text_trans j k i h = rw (same_text-eq i k h) refl

is_text_same :
    {F : Type 0} (j k : List ℕ) (i : LuaValue F) → is_text k i ≡ true → is_text j i ≡ same_text k j
is_text_same j k nil h = cc
is_text_same j k (boolean b) h = cc
is_text_same j k (integer n) h = cc
is_text_same j k (number x) h = cc
is_text_same j k (string i) h = same_text_trans j k i h
is_text_same j k (table u) h = cc
is_text_same j k other h = cc

-- Two tests of which at most one holds can be made in either order.
differs :
    {F : Type 0} (j k : List ℕ) (i v w x : LuaValue F)
    → is_text k i ≡ false
    → (if is_text j i then w else if same_text k j then v else x)
      ≡ (if same_text k j then v else if is_text j i then w else x)
differs j k i v w x h = elim (Bool-cases (same_text k j)) [
  | inl same ↦
      let e : is_text j i ≡ false = subst (λ u. is_text u i ≡ false) (same_text-eq k j same) h in
      rw (same, e) refl
  | inr differ ↦ rw differ refl
]

pub get_field-set_field :
    {F : Type 0} (j k : List ℕ) (v : LuaValue F) (t : LuaTable F)
    → get_field j (set_field k v t) ≡ (if same_text k j then v else get_field j t)
unfolding get_field set_field
get_field-set_field j k v done = refl
get_field-set_field j k v (entry i w t) = elim (Bool-cases (is_text k i)) [
  | inl here ↦ rw (here, is_text_same j k i here) (ground arith)
  | inr there ↦
      rw there (rw (get_field-set_field j k v t) (differs j k i v w (get_field j t) there))
]
