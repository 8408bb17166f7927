-- ===== src/Json.antt =====
-- src/json/json.cpp: the translation of JSON trees into Lua tables and back. The parser and the printer
-- of cJSON are parameters. The room on the Lua stack is counted: each level of nesting takes
-- one slot in `decode` and two in `encode`, and nothing asks Lua for more.
pub mod Decode
pub mod Encode
use server.Prelude.{
  ℕ, zero, suc, ◌+◌, ◌-◌, Bool, true, false, List, [], ◌∷◌, Option, none, some, ltb, if◌then◌else◌,
  length, bind, not,
}
use server.Prelude.Int.{ℤ, pos}
use server.Lua.{
  LuaValue, nil, boolean, integer, number, string, table, other, LuaTable, done, entry, is_text,
  is_integer, set_field, set_index, Result, ok, raise, undefined, ◌>>=◌, min_stack,
}
use server.Lua.Ends.{has_field}
use server.Lua.Fields.{put_field, put_index}
use server.Msg.{c_str}

-- A `cJSON` by its type; a child has a name in an object.
mutual
  pub data Json (F : Type 0) : Type 0 where
    array : Children F → Json F
    object : Children F → Json F
    chars : List ℕ → Json F
    amount : (valueint : ℤ) (valuedouble : F) → Json F
    truth : Bool → Json F
    null : Json F
    unsupported : Json F

  pub data Children (F : Type 0) : Type 0 where
    last : Children F
    child : (name : Option (List ℕ)) → Json F → Children F → Children F

-- `cJSON_Parse` and `cJSON_PrintUnformatted`, the conversions of numbers, the test of an `int` against
-- a `double`, and the text of a number.
pub record JsonLibrary (F : Type 0) : Type 0 where
  pub parse : List ℕ → Option (Json F)
  pub print : Json F → List ℕ
  pub of_integer : ℤ → F
  pub valueint : F → ℤ
  pub same : ℤ → F → Bool
  pub number_text : LuaValue F → List ℕ

-- "{}"
abbrev pub empty_object : List ℕ
empty_object = 123 ∷ 125 ∷ []

module _ {F : Type 0} where
  -- The switch has a case for the type.
  abbrev pub is_supported : Json F → Bool
  is_supported unsupported = false
  is_supported _ = true

  module _ (room : ℕ) (lib : JsonLibrary F) where
    -- A push of one value; none is undefined: the stack has no room.
    abbrev pub push : LuaValue F → List (LuaValue F) → Option (List (LuaValue F))
    push v stack = if ltb (length stack) room then some (v ∷ stack) else none

    -- `lua_setfield` or `lua_rawseti` into the table below the top, with the next index.
    abbrev pub store : Option (List ℕ) → ℕ → List (LuaValue F) → Option (ℕ × List (LuaValue F))
    store (some k) i (v ∷ table t ∷ stack) = some (i, table (put_field k v t) ∷ stack)
    store none i (v ∷ table t ∷ stack) = some (i + 1, table (put_index (pos i) v t) ∷ stack)
    store name i stack = none

    -- `fetchCreateLuaTable`: the switch on a child, and the loop over the children with `index`.
    unfoldable mutual
      pub push_node : Json F → List (LuaValue F) → Option (List (LuaValue F))
      push_node (array cs) stack =
          bind (push (table done) stack) (λ stack. fetch_children cs 1 stack)
      push_node (object cs) stack =
          bind (push (table done) stack) (λ stack. fetch_children cs 1 stack)
      push_node (chars s) stack = push (string s) stack
      push_node (amount i x) stack =
          if lib.same i x then push (integer i) stack else push (number x) stack
      push_node (truth b) stack = push (boolean b) stack
      push_node null stack = push nil stack
      push_node unsupported stack = some stack

      pub fetch_children : Children F → (index : ℕ) → List (LuaValue F) → Option (List (LuaValue F))
      fetch_children last i stack = some stack
      fetch_children (child name node cs) i stack =
          bind
            (if is_supported node
              then bind (push_node node stack) (store name i)
              else some (i, stack))
            (λ (i, stack). fetch_children cs i stack)

    unfoldable pub fetch_create_lua_table : Json F → List (LuaValue F) → Option (List (LuaValue F))
    unfolding push_node fetch_children
    fetch_create_lua_table (array cs) stack = fetch_children cs 1 stack
    fetch_create_lua_table (object cs) stack = fetch_children cs 1 stack
    fetch_create_lua_table node stack = some stack

  module _ (lib : JsonLibrary F) where
    -- The item of an entry's value, and the loop over the entries. A step takes two slots, for the key and
    -- the value, and the last one takes one, for a key. `lua_tostring` turns a key that is a number into a
    -- text in place, after which `lua_next` raises an error; where another entry has that text for its key,
    -- the loop goes on from there, and `undefined` stands for all that it may then do.
    abbrev pub is_string : LuaValue F → Bool
    is_string (string s) = true
    is_string _ = false

    abbrev pub breaks_next : (is_array : Bool) → LuaValue F → Bool
    breaks_next true k = false
    breaks_next false (integer z) = true
    breaks_next false (number x) = true
    breaks_next false _ = false

    -- `lua_next` after a key, with what the loop does where it goes on to the next entry.
    abbrev pub after_key :
        (whole : LuaTable F) (is_array : Bool)
        → LuaValue F
        → Result (Children F)
        → Result (Children F)
    after_key whole is_array k rest =
        if breaks_next is_array k
        then (if has_field (lib.number_text k) whole then undefined else raise)
        else rest

    -- `cJSON_AddItemToArray` or `cJSON_AddItemToObject`, which adds nothing under a null pointer.
    abbrev pub add_item : (is_array : Bool) → LuaValue F → Option (Json F) → Children F → Children F
    add_item is_array k none cs = cs
    add_item true k (some item) cs = child none item cs
    add_item false (string s) (some item) cs = child (some (c_str s)) item cs
    add_item false k (some item) cs = cs

    abbrev pub starts_array : LuaTable F → Bool
    starts_array done = false
    starts_array (entry k v t) = not (is_string k)

    abbrev pub root_of : LuaTable F → Children F → Option (Json F)
    root_of done cs = none
    root_of (entry k v t) cs = some (if is_string k then object cs else array cs)

    unfoldable mutual
      pub item_of : (room : ℕ) → LuaValue F → Result (Option (Json F))
      item_of room nil = ok none
      item_of room other = ok none
      item_of room (boolean b) = ok (some (truth b))
      item_of room (integer z) =
          ok (some (amount (lib.valueint (lib.of_integer z)) (lib.of_integer z)))
      item_of room (number x) = ok (some (amount (lib.valueint x) x))
      item_of room (string s) = ok (some (chars (c_str s)))
      item_of room (table t) = add_items room t (starts_array t) t >>= (λ cs. ok (root_of t cs))

      -- The loop over the entries.
      pub add_items :
          (room : ℕ) (whole : LuaTable F) (is_array : Bool) → LuaTable F → Result (Children F)
      add_items room whole is_array done = if ltb room 1 then undefined else ok last
      add_items room whole is_array (entry k v t) =
          let here = item_of (room - 2) v in
          let rest = add_items room whole is_array t in
          if ltb room 2
          then undefined
          else here >>= (λ item.
            after_key whole is_array k rest >>= (λ cs. ok (add_item is_array k item cs)))

    unfoldable pub fetch_create_json : LuaTable F → Result (Option (Json F))
    unfolding item_of add_items
    fetch_create_json t = item_of min_stack (table t)

    -- `lua_tostring` of the first argument, null where it is neither a text nor a number.
    abbrev pub text_of : List (LuaValue F) → Option (List ℕ)
    text_of (string s ∷ args) = some (c_str s)
    text_of (integer z ∷ args) = some (lib.number_text (integer z))
    text_of (number x ∷ args) = some (lib.number_text (number x))
    text_of args = none

    abbrev pub parsed : Option (List ℕ) → Option (Json F)
    parsed none = none
    parsed (some s) = lib.parse s

    -- The top of a stack with one table on it.
    abbrev pub returned : Option (List (LuaValue F)) → Result (LuaValue F)
    returned (some (v ∷ stack)) = ok v
    returned (some []) = undefined
    returned none = undefined

    unfoldable pub decode : List (LuaValue F) → Result (LuaValue F)
    unfolding fetch_create_lua_table
    decode args = elim (parsed (text_of args)) [
      | none ↦ ok nil
      | some root ↦
          returned (fetch_create_lua_table (min_stack + length args) lib root (table done ∷ []))
    ]

    -- `fetchCreateJson` reads the top of the stack, which is the last argument.
    abbrev pub last_argument : LuaValue F → List (LuaValue F) → LuaValue F
    last_argument v [] = v
    last_argument v (w ∷ args) = last_argument w args

    abbrev pub printed : Option (Json F) → List ℕ
    printed none = empty_object
    printed (some root) = lib.print root

    abbrev pub encode_table : LuaValue F → Result (LuaValue F)
    encode_table (table t) = fetch_create_json t >>= (λ root. ok (string (printed root)))
    encode_table v = undefined

    unfoldable pub encode : List (LuaValue F) → Result (LuaValue F)
    unfolding fetch_create_json
    encode (table t ∷ args) = encode_table (last_argument (table t) args)
    encode args = ok (string empty_object)
