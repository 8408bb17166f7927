-- ===== src/Proto/Binding.antt =====
-- src/protobuf/protobuf.cpp: `newProto`, `destroyProto`, `loadfileProto`, `encodeProto` and
-- `decodeProto`, on their arguments after the pointer. The pool of types, the serialization and the file
-- system are parameters.
use server.Prelude.{
  bind, ℕ, ◌<◌, ◌≡◌, refl, sym, ap, ◌∙◌, Bool, true, false, List, [], ◌∷◌, Option, none, some,
  get_elem?, Option-cases, inl, inr, if◌then◌else◌,
}
use server.Lua.{LuaValue, nil, string, table, other, LuaTable, Result, ok, undefined, ◌>>=◌}
use server.Msg.{c_str}
use server.Config.{Numbers, check_string}
use server.Proto.{Schema, Reflection, Conversions, is_table, foreach_to_msg, foreach_to_table}
use server.Proto.Laws.{Obeys}
use server.Proto.Loops.{IsRanked, foreach_to_table-Ends}
use server.Proto.View.{view}
use server.Proto.View.Whole.{foreach_to_table-foreach_to_msg}

-- What the code calls of the library: a type's number by its name, the bytes of a message, a message of
-- this type of its bytes, a new pool and a file's types added to a pool; and of a file, its parts.
pub record Library (P D M : Type 0) : Type 0 where
  pub empty_pool : P
  pub find_message_type : P → List ℕ → Option ℕ
  pub serialize : M → Option (List ℕ)
  pub parse : ℕ → List ℕ → Option M
  pub build_file : P → D → Option P
  pub read_file : List ℕ → Option (List ℕ)
  pub parse_set : List ℕ → Option (List D)

module _ {P D M : Type 0} (lib : Library P D M) where
  -- What a `ProtoPtr` points to: its pool, until it is deleted.
  unfoldable pub new_proto : Option P
  new_proto = some lib.empty_pool

  unfoldable pub destroy_proto : Option P → Result (Option P)
  destroy_proto none = undefined
  destroy_proto (some p) = ok none

  -- The loop over the files: what it returns, and the pool.
  unfoldable pub build_files : List D → P → Bool × P
  build_files [] p = (true, p)
  build_files (f ∷ fs) p = elim (lib.build_file p f) [
    | none ↦ (false, p)
    | some q ↦ build_files fs q
  ]

  -- `loadfileProto`: what it returns, and what the pointer points to then.
  unfoldable pub load_file : List ℕ → Option P → Result (Bool × Option P)
  unfolding build_files
  load_file path ptr = elim (bind (lib.read_file path) lib.parse_set) [
    | none ↦ ok (false, ptr)
    | some fs ↦ elim ptr [
      | none ↦ undefined
      | some p ↦ let (done_, q) = build_files fs p in ok (done_, some q)
    ]
  ]

module _ {F G P D : Type 0} (n : Numbers F G) (c : Conversions F G) (s : Schema)
    (r : Reflection F G) (lib : Library P D r.Message) where
  open r use {Message, make}

  abbrev pub argument : List (LuaValue F) → ℕ → LuaValue F
  argument args i = elim (get_elem? args i) [ none ↦ nil | some v ↦ v ]

  -- The top of the stack: the last argument, or the pointer.
  abbrev pub top : List (LuaValue F) → LuaValue F
  top [] = other
  top (v ∷ []) = v
  top (v ∷ w ∷ vs) = top (w ∷ vs)

  -- The bytes of a string argument: `luaL_checkstring` with the length of `luaL_len`.
  abbrev pub check_bytes : LuaValue F → Result (List ℕ)
  check_bytes (string b) = ok b
  check_bytes v = check_string n v

  -- A pointer that is not deleted, or a recursion that ends.
  abbrev pub ended {ℓ} : {A : Type ℓ} → Option A → Result A
  ended none = undefined
  ended (some a) = ok a

  -- A result of type `B` where the option has a value, none otherwise.
  abbrev pub where_some {ℓ} :
      {A : Type ℓ} → Option A → (A → Result (Option (LuaValue F))) → Result (Option (LuaValue F))
  where_some none k = ok none
  where_some (some a) k = k a

  -- The returned value, if one is.
  unfoldable pub encode_proto :
      (fuel : ℕ) → Option P → List (LuaValue F) → Result (Option (LuaValue F))
  encode_proto fuel ptr args = do
    name ← check_string n (argument args 0)
    if is_table (argument args 1)
        then (do
          pool ← ended ptr
          where_some (lib.find_message_type pool name) (λ d. do
            m ← ended (foreach_to_msg c s r fuel (top args) d (make d))
            where_some (lib.serialize m) (λ b. ok (some (string b)))))
        else ok none

  unfoldable pub decode_proto :
      (fuel : ℕ) → Option P → List (LuaValue F) → Result (Option (LuaValue F))
  decode_proto fuel ptr args = do
    name ← check_string n (argument args 0)
    data_ ← check_bytes (argument args 1)
    pool ← ended ptr
    where_some (lib.find_message_type pool name) (λ d.
        where_some (lib.parse d data_)
          (λ m. do t ← ended (foreach_to_table c s r fuel d m); ok (some (table t))))

  module _ (zero_real : F) (zero_single : G) (obeys : Obeys c zero_real zero_single s r) where
    -- With setters and adders that change one field only and new messages that have their defaults, and
    -- message types that are ranked above those that they hold: bytes that `encode` returned for a table are
    -- decoded, by the same type name and with room for more calls than the type's rank, to a table, which
    -- is `view` of the one given, where the bytes parse to the message that was made of it.
    pub decode_proto-encode_proto :
        (rank : ℕ → ℕ)
        → IsRanked s rank
        → (fuel : ℕ) (ptr : Option P) (name b : List ℕ) (t : LuaTable F)
        → ((d : ℕ)
            → bind ptr (λ pool. lib.find_message_type pool (c_str name)) ≡ some d
            → rank d < fuel)
        → encode_proto fuel ptr (string name ∷ table t ∷ []) ≡ ok (some (string b))
        → ((d : ℕ) (m : Message)
            → bind ptr (λ pool. lib.find_message_type pool (c_str name)) ≡ some d
            → foreach_to_msg c s r fuel (table t) d (make d) ≡ some m
            → lib.serialize m ≡ some b
            → lib.parse d b ≡ some m)
        → (d : ℕ) × (bind ptr (λ pool. lib.find_message_type pool (c_str name)) ≡ some d)
          × (u : LuaTable F) × (view c zero_real zero_single s fuel (table t) d ≡ some u)
          × (decode_proto fuel ptr (string name ∷ string b ∷ []) ≡ ok (some (table u)))
    unfolding encode_proto decode_proto check_string
    decode_proto-encode_proto rank ranked fuel none name b t low h parses = cc
    decode_proto-encode_proto rank ranked fuel (some pool) name b t low h parses =
        elim (Option-cases (lib.find_message_type pool (c_str name))) [
          | inl e ↦ let h : ok none ≡ ok (some (string b)) = rw e at h in cc
          | inr (d, e) ↦ elim (Option-cases (foreach_to_msg c s r fuel (table t) d (make d))) [
            | inl o ↦ let h : undefined ≡ ok (some (string b)) = rw (e, o) at h in cc
            | inr (m, o) ↦ elim (Option-cases (lib.serialize m)) [
              | inl i ↦ let h : ok none ≡ ok (some (string b)) = rw (e, o, i) at h in cc
              | inr (b', i) ↦
                  let h : ok (some (string b')) ≡ ok (some (string b)) = rw (e, o, i) at h in
                  let q : b' ≡ b = cc in
                  let (u, f) = foreach_to_table-Ends c s r rank ranked fuel d m (low d e) in
                  let same =
                    foreach_to_table-foreach_to_msg c zero_real zero_single s r obeys fuel (table t)
                      d m o in
                  (d, e, u, sym same ∙ f, rw (e, parses d m e o (i ∙ ap some q), f) refl)
            ]
          ]
        ]
