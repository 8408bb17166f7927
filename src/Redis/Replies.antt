-- ===== src/Redis/Replies.antt =====
-- src/sql/redis/redis.cpp: the table that `cmd` returns, element by element.
use server.Prelude.{
  ℕ, suc, ◌+◌, ◌≤◌, ◌≡◌, refl, sym, subst, ◌∙◌, true, false, some, ==_of_ne, ==_self, arith, ◌⊎◌,
  inl, inr, leb, max, Bool-cases,
}
use server.Prelude.Int.{pos}
use server.Lua.{
  LuaValue, nil, boolean, integer, number, string, table, other, LuaTable, done, ok, undefined,
  min_stack, get_index, set_index,
}
use server.Lua.Ends.{set_index-snoc, IsBelow, has_index-snoc}
use server.Lua.Fields.{put_index, get_index-set_index, get_index_missing, erase_index_missing}
use server.Msg.{c_str}
use server.Redis.{
  Reply, array, integer_reply, nil_reply, double, text, unknown, Elements, no_elements, element,
  new_table_from_redis_reply, add_elements, slots_of, slots_of_all, cmd_redis,
}

max_zero : (a : ℕ) → max 0 a ≡ a
max_zero a = ground arith

low_of : (a b : ℕ) → a ≡ b → leb (1 + a) 20 ≡ true → b ≤ 19
low_of a b same h = ground arith

high_of : (a b : ℕ) → a ≡ b → leb (1 + a) 20 ≡ false → 20 ≤ b
high_of a b same h = ground arith

module _ {F : Type 0} where
  -- The value stands for the reply: a text up to its first zero byte, nothing for nil and for a reply of an
  -- unknown type, and a table with the elements by their places for an array.
  abbrev mutual
    pub Shows : LuaValue F → Reply F → Type 0
    Shows v (array elements) = (t : LuaTable F) × (v ≡ table t) × ShowsAll t elements 1
    Shows v (integer_reply z) = v ≡ integer z
    Shows v nil_reply = v ≡ nil
    Shows v (double x) = v ≡ number x
    Shows v (text s) = v ≡ string (c_str s)
    Shows v unknown = v ≡ nil

    pub ShowsAll : LuaTable F → Elements F → (first : ℕ) → Type 0
    ShowsAll t no_elements first = (j : ℕ) → first ≤ j → get_index (pos j) t ≡ nil
    ShowsAll t (element r elements) first =
        Shows (get_index (pos first) t) r × ShowsAll t elements (first + 1)

  -- What a write to the first free place does.
  record Puts (i : ℕ) (v : LuaValue F) (t u : LuaTable F) : Type 0 where
    here : get_index (pos i) u ≡ v
    before : (j : ℕ) → suc j ≤ i → get_index (pos j) u ≡ get_index (pos j) t
    above : IsBelow (i + 1) u

  set-Puts :
      (i : ℕ) (v : LuaValue F) (t : LuaTable F) → IsBelow i t → Puts i v t (set_index (pos i) v t)
  set-Puts i v t below = record {
    here = get_index-set_index i i v t ∙ rw (==_self i) refl;
    before = λ j le. get_index-set_index j i v t ∙ rw (==_of_ne i j (omega arith)) refl;
    above =
        rw (set_index-snoc (pos i) v t (below i (omega arith)))
          (λ j le. has_index-snoc j i v t (omega arith) (below j (omega arith)));
  }

  nothing-Puts : (i : ℕ) (t : LuaTable F) → IsBelow i t → Puts i nil t t
  nothing-Puts i t below = record {
    here = get_index_missing (pos i) t (below i (omega arith));
    before = λ j le. refl;
    above = λ j le. below j (omega arith);
  }

  put-Puts :
      (i : ℕ) (v : LuaValue F) (t : LuaTable F) → IsBelow i t → Puts i v t (put_index (pos i) v t)
  put-Puts i nil t below =
      rw (erase_index_missing (pos i) t (below i (omega arith))) (nothing-Puts i t below)
  put-Puts i (boolean b) t below = set-Puts i (boolean b) t below
  put-Puts i (integer z) t below = set-Puts i (integer z) t below
  put-Puts i (number x) t below = set-Puts i (number x) t below
  put-Puts i (string s) t below = set-Puts i (string s) t below
  put-Puts i (table u) t below = set-Puts i (table u) t below
  put-Puts i other t below = set-Puts i other t below

  mutual
    unfolding new_table_from_redis_reply add_elements

    reply_lem :
        (r : Reply F) (i : ℕ) (t : LuaTable F)
        → IsBelow i t
        → (v : LuaValue F) × Puts i v t (new_table_from_redis_reply r i false t) × Shows v r
    reply_lem (array elements) i t below =
        let u = add_elements elements 1 done in
        let (shows, before) = elements_lem elements 1 done (λ j le. refl) in
        (table u, put-Puts i (table u) t below, (u, refl, shows))
    reply_lem (integer_reply z) i t below = (integer z, put-Puts i (integer z) t below, refl)
    reply_lem nil_reply i t below = (nil, put-Puts i nil t below, refl)
    reply_lem (double x) i t below = (number x, put-Puts i (number x) t below, refl)
    reply_lem (text s) i t below = (string (c_str s), put-Puts i (string (c_str s)) t below, refl)
    reply_lem unknown i t below = (nil, nothing-Puts i t below, refl)

    elements_lem :
        (elements : Elements F) (i : ℕ) (t : LuaTable F)
        → IsBelow i t
        → ShowsAll (add_elements elements i t) elements i
          × ((j : ℕ)
              → suc j ≤ i
              → get_index (pos j) (add_elements elements i t) ≡ get_index (pos j) t)
    elements_lem no_elements i t below =
        (λ j le. get_index_missing (pos j) t (below j le), λ j le. refl)
    elements_lem (element r elements) i t below =
        let (v, puts, shows) = reply_lem r i t below in
        let u = new_table_from_redis_reply r i false t in
        let (all, before) = elements_lem elements (i + 1) u puts.above in
        (
          (subst (λ w. Shows w r) (sym (before i (omega arith) ∙ puts.here)) shows, all),
          λ j le. before j (omega arith) ∙ puts.before j le,
        )

  -- The elements that `cmd` returns: those of an array, or the one reply.
  abbrev pub elements_of : Reply F → Elements F
  elements_of (array elements) = elements
  elements_of r = element r no_elements

  root_lem : (r : Reply F) → ShowsAll (new_table_from_redis_reply r 1 true done) (elements_of r) 1
  unfolding new_table_from_redis_reply add_elements
  root_lem (array elements) = (elements_lem elements 1 done (λ j le. refl)).0
  root_lem (integer_reply z) =
      (elements_lem (element (integer_reply z) no_elements) 1 done (λ j le. refl)).0
  root_lem nil_reply = (elements_lem (element nil_reply no_elements) 1 done (λ j le. refl)).0
  root_lem (double x) = (elements_lem (element (double x) no_elements) 1 done (λ j le. refl)).0
  root_lem (text s) = (elements_lem (element (text s) no_elements) 1 done (λ j le. refl)).0
  root_lem unknown = (elements_lem (element unknown no_elements) 1 done (λ j le. refl)).0

  -- How deep arrays nest in the elements: a value is one deep, as is an empty array, and a reply of an
  -- unknown type is not counted.
  abbrev pub depth : Elements F → ℕ
  depth no_elements = 0
  depth (element (array inner) elements) = max (1 + depth inner) (depth elements)
  depth (element unknown elements) = depth elements
  depth (element r elements) = max 1 (depth elements)

  depth_lem : (elements : Elements F) → slots_of_all elements ≡ depth elements
  depth_lem no_elements = refl
  depth_lem (element (array inner) elements) = rw (depth_lem inner, depth_lem elements) refl
  depth_lem (element unknown elements) = max_zero (slots_of_all elements) ∙ depth_lem elements
  depth_lem (element (integer_reply z) elements) = rw (depth_lem elements) refl
  depth_lem (element nil_reply elements) = rw (depth_lem elements) refl
  depth_lem (element (double x) elements) = rw (depth_lem elements) refl
  depth_lem (element (text s) elements) = rw (depth_lem elements) refl

  root_slots : (r : Reply F) → slots_of true r ≡ depth (elements_of r)
  root_slots (array elements) = depth_lem elements
  root_slots unknown = refl
  root_slots (integer_reply z) = refl
  root_slots nil_reply = refl
  root_slots (double x) = refl
  root_slots (text s) = refl

  -- Where the elements of the reply nest at most 19 deep (a value is one deep, and so is an empty array),
  -- `cmd` returns a table with the elements of an array, or with any other reply as its only element: from
  -- 1 on, in their order, arrays inside as tables of the same kind, and nothing after the last one. Above
  -- that the behaviour is undefined.
  pub cmd_redis_lem :
      (r : Reply F)
      → ((depth (elements_of r) ≤ 19)
          × (t : LuaTable F) × (cmd_redis (some r) ≡ ok (some t))
          × ShowsAll t (elements_of r) 1)
        ⊎ ((20 ≤ depth (elements_of r)) × (cmd_redis (some r) ≡ undefined))
  unfolding cmd_redis
  cmd_redis_lem r = elim (Bool-cases (leb (1 + slots_of true r) min_stack)) [
    | inl fits ↦ inl (
      low_of (slots_of true r) (depth (elements_of r)) (root_slots r) fits,
      new_table_from_redis_reply r 1 true done,
      rw fits refl,
      root_lem r,
    )
    | inr deep ↦
        inr (high_of (slots_of true r) (depth (elements_of r)) (root_slots r) deep, rw deep refl)
  ]
