-- ===== src/Json/Decode.antt =====
-- `fetchCreateLuaTable` of src/json/json.cpp against a direct translation of the tree, and the nesting
-- that Lua's stack has room for.
use server.Prelude.{
  bind, ℕ, suc, ◌+◌, ◌≤◌, ◌≡◌, refl, true, false, List, [], ◌∷◌, Option, none, some, ltb, leb, max,
  if◌then◌else◌, length, Bool-cases, Option-cases, inl, inr, arith,
}
use server.Prelude.Int.{pos}
use server.Lua.{
  LuaValue, nil, boolean, integer, number, string, table, LuaTable, done, Result, ok, undefined,
  min_stack,
}
use server.Lua.Fields.{put_field, put_index}
use server.Json.{
  Json, array, object, chars, amount, truth, null, unsupported, Children, last, child, JsonLibrary,
  is_supported, push, store, push_node, fetch_children, fetch_create_lua_table, decode, returned,
  parsed, text_of,
}

-- How many slots of the stack a node takes, and the most that a child takes.
abbrev mutual
  pub height : {F : Type 0} → Json F → ℕ
  height (array cs) = suc (max_height cs)
  height (object cs) = suc (max_height cs)
  height (chars s) = 1
  height (amount i x) = 1
  height (truth b) = 1
  height null = 1
  height unsupported = 0

  pub max_height : {F : Type 0} → Children F → ℕ
  max_height last = 0
  max_height (child name node cs) = max (height node) (max_height cs)

module _ {F : Type 0} (lib : JsonLibrary F) where
  abbrev put : Option (List ℕ) → LuaValue F → ℕ × LuaTable F → ℕ × LuaTable F
  put (some k) v (i, t) = (i, put_field k v t)
  put none v (i, t) = (i + 1, put_index (pos i) v t)

  -- The value of a node: a child with a name is a field, one without has the next index.
  unfoldable mutual
    pub value_of : Json F → LuaValue F
    value_of (array cs) = table (table_of cs (1, done))
    value_of (object cs) = table (table_of cs (1, done))
    value_of (chars s) = string s
    value_of (amount i x) = if lib.same i x then integer i else number x
    value_of (truth b) = boolean b
    value_of null = nil
    value_of unsupported = nil

    pub table_of : Children F → ℕ × LuaTable F → LuaTable F
    table_of last (i, t) = t
    table_of (child name node cs) (i, t) =
        table_of cs (if is_supported node then put name (value_of node) (i, t) else (i, t))

  module _ (room : ℕ) where
    push_lem :
        (v : LuaValue F) (stack : List (LuaValue F))
        → push room lib v stack ≡ (if leb (length stack + 1) room then some (v ∷ stack) else none)
    push_lem v stack = ground arith

    store-put :
        (name : Option (List ℕ)) (i : ℕ) (v : LuaValue F) (t : LuaTable F)
        (stack : List (LuaValue F))
        → store room lib name i (v ∷ table t ∷ stack)
          ≡ some ((put name v (i, t)).0, table (put name v (i, t)).1 ∷ stack)
    store-put (some k) i v t stack = refl
    store-put none i v t stack = refl

    container :
        (cs : Children F) (stack : List (LuaValue F)) (result : List (LuaValue F))
        → (length stack + 1 ≤ room
            → fetch_children room lib cs 1 (table done ∷ stack)
              ≡ (if leb (length stack + 1 + max_height cs) room then some result else none))
        → bind (push room lib (table done) stack) (λ stack. fetch_children room lib cs 1 stack)
          ≡ (if leb (length stack + suc (max_height cs)) room then some result else none)
    container cs stack result h = elim (Bool-cases (ltb (length stack) room)) [
      | inl e ↦
          let more : length stack + suc (max_height cs) ≡ length stack + 1 + max_height cs =
            omega arith in
          rw (e, more) (h (ground arith))
      | inr e ↦
          let full : leb (length stack + suc (max_height cs)) room ≡ false = ground arith in
          rw (e, full) refl
    ]

    fits_left :
        (n a b : ℕ)
        → leb (suc n + a) room ≡ true
        → leb (n + 1 + max a b) room ≡ leb (n + 1 + b) room
    fits_left n a b h = ground arith

    too_high : (n a b : ℕ) → leb (suc n + a) room ≡ false → leb (n + 1 + max a b) room ≡ false
    too_high n a b h = ground arith

    height_unsupported : (node : Json F) → is_supported node ≡ false → height node ≡ 0
    height_unsupported (array cs) h = cc
    height_unsupported (object cs) h = cc
    height_unsupported (chars s) h = cc
    height_unsupported (amount i x) h = cc
    height_unsupported (truth b) h = cc
    height_unsupported null h = cc
    height_unsupported unsupported h = refl

    mutual
      unfolding push_node fetch_children value_of table_of

      push_node_lem :
          (node : Json F) (stack : List (LuaValue F))
          → is_supported node ≡ true
          → push_node room lib node stack
            ≡ (if leb (length stack + height node) room then some (value_of node ∷ stack) else none)
      push_node_lem (array cs) stack h =
          container cs stack (table (table_of cs (1, done)) ∷ stack)
            (fetch_children_lem cs 1 done stack)
      push_node_lem (object cs) stack h =
          container cs stack (table (table_of cs (1, done)) ∷ stack)
            (fetch_children_lem cs 1 done stack)
      push_node_lem (chars s) stack h = push_lem (string s) stack
      push_node_lem (amount i x) stack h = elim (Bool-cases (lib.same i x)) [
        | inl e ↦ rw e (push_lem (integer i) stack)
        | inr e ↦ rw e (push_lem (number x) stack)
      ]
      push_node_lem (truth b) stack h = push_lem (boolean b) stack
      push_node_lem null stack h = push_lem nil stack
      push_node_lem unsupported stack h = cc

      fetch_children_lem :
          (cs : Children F) (i : ℕ) (t : LuaTable F) (stack : List (LuaValue F))
          → length stack + 1 ≤ room
          → fetch_children room lib cs i (table t ∷ stack) ≡ (
              if leb (length stack + 1 + max_height cs) room
              then some (table (table_of cs (i, t)) ∷ stack)
              else none)
      fetch_children_lem last i t stack h =
          let fits : leb (length stack + 1 + 0) room ≡ true = ground arith in rw fits refl
      fetch_children_lem (child name node cs) i t stack h = elim (Bool-cases (is_supported node)) [
        | inl e ↦ elim (Bool-cases (leb (suc (length stack) + height node) room)) [
          | inl fits ↦
              let next = put name (value_of node) (i, t) in
              rw
                (
                  e,
                  push_node_lem node (table t ∷ stack) e,
                  fits,
                  fits_left (length stack) (height node) (max_height cs) fits,
                  store-put name i (value_of node) t stack,
                )
                (fetch_children_lem cs next.0 next.1 stack h)
          | inr full ↦
              rw
                (
                  e,
                  push_node_lem node (table t ∷ stack) e,
                  full,
                  too_high (length stack) (height node) (max_height cs) full,
                )
                refl
        ]
        | inr e ↦
            let low : max (height node) (max_height cs) ≡ max_height cs =
              rw (height_unsupported node e) (ground arith) in
            rw (e, low) (fetch_children_lem cs i t stack h)
      ]

module _ {F : Type 0} (lib : JsonLibrary F) where
  abbrev pub children_of : Json F → Children F
  children_of (array cs) = cs
  children_of (object cs) = cs
  children_of node = last

  -- What a tree is decoded to where the stack has room for its nesting.
  abbrev pub decoded : (args : List (LuaValue F)) → Option (Json F) → Result (LuaValue F)
  decoded args none = ok nil
  decoded args (some root) =
      if leb (1 + max_height (children_of root)) (min_stack + length args)
      then ok (table (table_of lib (children_of root) (1, done)))
      else undefined

  fetch_top :
      (room : ℕ) (cs : Children F)
      → 1 ≤ room
      → returned lib (fetch_children room lib cs 1 (table done ∷ [])) ≡ (
          if leb (1 + max_height cs) room
          then ok (table (table_of lib cs (1, done)))
          else undefined)
  fetch_top room cs h =
      rw (fetch_children_lem lib room cs 1 done [] (omega arith))
        (elim (Bool-cases (leb (1 + max_height cs) room)) [ inl e ↦ rw e refl | inr e ↦ rw e refl ])

  fetch_root :
      (room : ℕ) (root : Json F)
      → 1 ≤ room
      → returned lib (fetch_create_lua_table room lib root (table done ∷ [])) ≡ (
          if leb (1 + max_height (children_of root)) room
          then ok (table (table_of lib (children_of root) (1, done)))
          else undefined)
  unfolding fetch_create_lua_table
  fetch_root room (array cs) h = fetch_top room cs h
  fetch_root room (object cs) h = fetch_top room cs h
  fetch_root room (chars s) h = fetch_top room last h
  fetch_root room (amount i x) h = fetch_top room last h
  fetch_root room (truth b) h = fetch_top room last h
  fetch_root room null h = fetch_top room last h
  fetch_root room unsupported h = fetch_top room last h

  -- `json.decode` gives the direct translation of the parsed tree, nil where the text has no tree, where
  -- the tree's nesting takes no more slots than Lua gives a function beside its arguments; else it
  -- writes over the end of the stack.
  pub decode_lem :
      (args : List (LuaValue F)) → decode lib args ≡ decoded args (parsed lib (text_of lib args))
  unfolding decode
  decode_lem args = elim (Option-cases (parsed lib (text_of lib args))) [
    | inl e ↦ rw (decode, e) refl
    | inr (root, e) ↦ rw (decode, e) (fetch_root (min_stack + length args) root (omega arith))
  ]
