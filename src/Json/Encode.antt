-- ===== src/Json/Encode.antt =====
-- src/json/json.cpp: `encode` and then `decode`, and the tables that JSON keeps.
use server.Prelude.{
  ℕ, suc, ◌+◌, ◌≤◌, ◌≡◌, ◌-◌, refl, ap, ◌∙◌, true, false, List, [], ◌∷◌, none, some, leb, ltb, max,
  if◌then◌else◌, Bool-cases, inl, inr, arith,
}
use server.Prelude.Int.{ℤ, pos}
use server.Lua.{
  LuaValue, nil, boolean, integer, number, string, table, other, LuaTable, done, entry, set_field,
  set_index, ok, min_stack,
}
use server.Lua.Ends.{
  snoc, has_field, set_field-snoc, set_index-snoc, IsBelow, has_index-snoc, append, append_done,
}
use server.Lua.Fields.{put_field, put_index}
use server.Msg.{c_str}
use server.Json.{
  Json, array, object, chars, amount, truth, null, unsupported, Children, last, child, JsonLibrary,
  is_supported, is_string, starts_array, item_of, add_items, fetch_create_json, decode, encode,
}
use server.Json.Decode.{value_of, table_of, max_height, children_of, decode_lem, height}

-- How many slots of the stack a value takes in `decode`, and the most that a value in a table takes.
abbrev mutual
  pub levels : {F : Type 0} → LuaValue F → ℕ
  levels (table t) = suc (table_levels t)
  levels nil = 1
  levels (boolean b) = 1
  levels (integer z) = 1
  levels (number x) = 1
  levels (string s) = 1
  levels other = 1

  pub table_levels : {F : Type 0} → LuaTable F → ℕ
  table_levels done = 0
  table_levels (entry k v t) = max (levels v) (table_levels t)

-- How many slots the loop over a table takes: two for an entry, with those of the entry's value, and one
-- at the end.
abbrev mutual
  pub slots_of : {F : Type 0} → LuaValue F → ℕ
  slots_of (table t) = slots t
  slots_of nil = 0
  slots_of (boolean b) = 0
  slots_of (integer z) = 0
  slots_of (number x) = 0
  slots_of (string s) = 0
  slots_of other = 0

  pub slots : {F : Type 0} → LuaTable F → ℕ
  slots done = 1
  slots (entry k v t) = max (2 + slots_of v) (slots t)

mutual
  levels_le : {F : Type 0} (v : LuaValue F) → levels v ≤ 1 + slots_of v
  levels_le (table t) = let le = table_levels_le t in omega arith
  levels_le nil = omega arith
  levels_le (boolean b) = omega arith
  levels_le (integer z) = omega arith
  levels_le (number x) = omega arith
  levels_le (string s) = omega arith
  levels_le other = omega arith

  table_levels_le : {F : Type 0} (t : LuaTable F) → table_levels t ≤ slots t
  table_levels_le done = omega arith
  table_levels_le (entry k v t) =
      let here = levels_le v in let there = table_levels_le t in ground arith

module _ {F : Type 0} (lib : JsonLibrary F) where
  abbrev IsFilled : LuaTable F → Type 0
  IsFilled done = ⊥
  IsFilled (entry k v t) = Unit

  -- The values that JSON keeps: texts without a zero byte, integers of 32 bits, floats that are no such
  -- integer, and tables with entries that are an array from 1 on or have texts for keys, each once.
  abbrev mutual
    pub IsPlain : LuaValue F → Type 0
    IsPlain nil = ⊥
    IsPlain other = ⊥
    IsPlain (boolean b) = Unit
    IsPlain (string s) = c_str s ≡ s
    IsPlain (integer z) =
        (lib.valueint (lib.of_integer z) ≡ z) × (lib.same z (lib.of_integer z) ≡ true)
    IsPlain (number x) = lib.same (lib.valueint x) x ≡ false
    IsPlain (table t) = IsFilled t × (if starts_array lib t then AreItems 1 t else AreFields done t)

    pub AreItems : ℕ → LuaTable F → Type 0
    AreItems i done = Unit
    AreItems i (entry k v t) = (k ≡ integer (pos i)) × IsPlain v × AreItems (i + 1) t

    pub AreFields : LuaTable F → LuaTable F → Type 0
    AreFields acc done = Unit
    AreFields acc (entry k v t) =
        (s : List ℕ) × (k ≡ string s)
        × (c_str s ≡ s)
        × (has_field s acc ≡ false)
        × IsPlain v
        × AreFields (snoc acc k v) t

  put_field-plain :
      (k : List ℕ) (v : LuaValue F) (t : LuaTable F) → IsPlain v → put_field k v t ≡ set_field k v t
  put_field-plain k nil t h = absurd h
  put_field-plain k other t h = refl
  put_field-plain k (boolean b) t h = refl
  put_field-plain k (integer z) t h = refl
  put_field-plain k (number x) t h = refl
  put_field-plain k (string s) t h = refl
  put_field-plain k (table u) t h = refl

  put_index-plain :
      (k : ℤ) (v : LuaValue F) (t : LuaTable F) → IsPlain v → put_index k v t ≡ set_index k v t
  put_index-plain k nil t h = absurd h
  put_index-plain k other t h = refl
  put_index-plain k (boolean b) t h = refl
  put_index-plain k (integer z) t h = refl
  put_index-plain k (number x) t h = refl
  put_index-plain k (string s) t h = refl
  put_index-plain k (table u) t h = refl

  room_for :
      (a b room : ℕ) → max (2 + a) b ≤ room → (ltb room 2 ≡ false) × (a ≤ room - 2) × (b ≤ room)
  room_for a b room le = (ground arith, ground arith, ground arith)

  -- The item of a value is translated back to the value.
  abbrev Returns : ℕ → LuaValue F → Type 0
  Returns room v =
      (j : Json F) × (item_of lib room v ≡ ok (some j))
      × (is_supported j ≡ true)
      × (value_of lib j ≡ v)
      × (height j ≡ levels v)

  mutual
    unfolding item_of add_items value_of table_of append

    item-Returns : (room : ℕ) (v : LuaValue F) → IsPlain v → slots_of v ≤ room → Returns room v
    item-Returns room nil h le = absurd h
    item-Returns room other h le = absurd h
    item-Returns room (boolean b) h le = (truth b, refl, refl, refl, refl)
    item-Returns room (string s) h le = (chars (c_str s), refl, refl, ap string h, refl)
    item-Returns room (integer z) h le = (
      amount (lib.valueint (lib.of_integer z)) (lib.of_integer z),
      refl,
      refl,
      rw (h.0, h.1) refl,
      refl,
    )
    item-Returns room (number x) h le = (amount (lib.valueint x) x, refl, refl, rw h refl, refl)
    item-Returns room (table done) h le = absurd h.0
    item-Returns room (table (entry k v t)) h le = elim (Bool-cases (is_string lib k)) [
      | inl e ↦
          let (cs, f, g, n) = fields_lem room (entry k v t) (entry k v t) done (rw e at h.1) le in
          (object cs, rw (e, f) refl, refl, ap table (g 1 ∙ append_done (entry k v t)), ap suc n)
      | inr e ↦
          let (cs, f, g, n) =
            items_lem room (entry k v t) (entry k v t) 1 done (rw e at h.1) (λ j le. refl) le in
          (array cs, rw (e, f) refl, refl, ap table (g ∙ append_done (entry k v t)), ap suc n)
    ]

    items_lem :
        (room : ℕ) (whole t : LuaTable F) (i : ℕ) (acc : LuaTable F)
        → AreItems i t
        → IsBelow i acc
        → slots t ≤ room
        → (cs : Children F) × (add_items lib room whole true t ≡ ok cs)
          × (table_of lib cs (i, acc) ≡ append acc t)
          × (max_height cs ≡ table_levels t)
    items_lem room whole done i acc h below le =
        let low : ltb room 1 ≡ false = ground arith in (last, rw low refl, refl, refl)
    items_lem room whole (entry k v t) i acc (same, plain, rest) below le =
        let (low, inner, later) = room_for (slots_of v) (slots t) room le in
        let (j, e, supported, value, m) = item-Returns (room - 2) v plain inner in
        let (cs, f, g, n) =
          items_lem room whole t (i + 1) (snoc acc (integer (pos i)) v) rest
            (λ j le. has_index-snoc j i v acc (omega arith) (below j (omega arith))) later in
        (
          child none j cs,
          rw (low, e, f) refl,
          rw
              (
                supported,
                value,
                same,
                put_index-plain (pos i) v acc plain,
                set_index-snoc (pos i) v acc (below i (omega arith)),
              )
              g,
          rw (m, n) refl,
        )

    fields_lem :
        (room : ℕ) (whole t acc : LuaTable F)
        → AreFields acc t
        → slots t ≤ room
        → (cs : Children F) × (add_items lib room whole false t ≡ ok cs)
          × ((i : ℕ) → table_of lib cs (i, acc) ≡ append acc t)
          × (max_height cs ≡ table_levels t)
    fields_lem room whole done acc h le =
        let low : ltb room 1 ≡ false = ground arith in (last, rw low refl, λ i. refl, refl)
    fields_lem room whole (entry k v t) acc (s, text, plain_key, fresh, plain, rest) le =
        let (low, inner, later) = room_for (slots_of v) (slots t) room le in
        let (j, e, supported, value, m) = item-Returns (room - 2) v plain inner in
        let (cs, f, g, n) = fields_lem room whole t (snoc acc k v) rest later in
        (
          child (some s) j cs,
          rw (low, text, e, f, plain_key) refl,
          λ i.
              rw
                (
                  supported,
                  value,
                  put_field-plain s v acc plain,
                  set_field-snoc s v acc fresh,
                  ← text,
                )
                (g i),
          rw (m, n) refl,
        )

  children_of_table :
      (root : Json F) (t : LuaTable F) (n : ℕ)
      → value_of lib root ≡ table t
      → height root ≡ suc n
      → (table_of lib (children_of lib root) (1, done) ≡ t)
        × (max_height (children_of lib root) ≡ n)
  unfolding value_of table_of
  children_of_table (array cs) t n e h = (cc, omega arith)
  children_of_table (object cs) t n e h = (cc, omega arith)
  children_of_table (chars s) t n e h = cc
  children_of_table (amount i x) t n e h = elim (Bool-cases (lib.same i x)) [
    | inl b ↦ let e : integer i ≡ table t = rw b at e in cc
    | inr b ↦ let e : number x ≡ table t = rw b at e in cc
  ]
  children_of_table (truth b) t n e h = cc
  children_of_table null t n e h = cc
  children_of_table unsupported t n e h = cc

  -- A filled plain table for which `json.encode` takes at most the 20 slots that Lua gives, two for each
  -- level of nesting, comes back from `json.decode` as it was given to
  -- `json.encode`, where the parser reads the printed tree back.
  pub decode-encode :
      (t : LuaTable F)
      → IsPlain (table t)
      → slots t ≤ min_stack
      → ((root : Json F)
          → fetch_create_json lib t ≡ ok (some root)
          → lib.parse (c_str (lib.print root)) ≡ some root)
      → (s : List ℕ) × (encode lib (table t ∷ []) ≡ ok (string s))
        × (decode lib (string s ∷ []) ≡ ok (table t))
  unfolding encode fetch_create_json
  decode-encode t plain low parses =
      let (root, e, supported, value, m) = item-Returns min_stack (table t) plain low in
      let inside = children_of_table root t (table_levels t) value m in
      let least = table_levels_le t in
      let fits : leb (1 + table_levels t) 21 ≡ true = ground arith in
      (
        lib.print root,
        rw e refl,
        decode_lem lib (string (lib.print root) ∷ [])
            ∙ rw (parses root e, inside.1, fits, inside.0) refl,
      )
