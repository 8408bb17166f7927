-- ===== src/LuaApi/Envs.antt =====
-- src/lua/luaApi.cpp: the environment over any calls of `setEnv` and `env`, by any services.
use server.Prelude.{
  ℕ, ◌≡◌, refl, sym, ap, ◌∙◌, false, List, [], ◌∷◌, Option, none, some, if◌then◌else◌, Outcome, ok,
  ◌>>=◌, ◌>>◌, return, Option-cases, inl, inr,
}
use server.Prelude.Dict.{Dict, find_key, insert_key, find_key-insert_key, same_text}
use server.Lua.{LuaValue, Result, Result-cases}
use server.Lua
use server.Msg.{c_str}
use server.Config.{Numbers, check_string}
use server.LuaApi.{LuaApi, set_env, env, env_answer, checked, lock, unlock}

-- A call from Lua.
pub data Call (F : Type 0) : Type 0 where
  set_env_call : (key value : LuaValue F) → Call F
  env_call : (key : LuaValue F) → Call F

abbrev pub or_else : Option (List ℕ) → Option (List ℕ) → Option (List ℕ)
or_else none o = o
or_else (some v) o = some v

module _ {F G : Type 0} (n : Numbers F G) where
  -- The text that a call gives to a key, if it gives one.
  abbrev pub gives : List ℕ → Call F → Option (List ℕ)
  gives k (env_call key) = none
  gives k (set_env_call key value) = elim (check_string n key) [
    | Lua.ok j ↦ elim (check_string n value) [
      | Lua.ok v ↦ if same_text j k then some v else none
      | Lua.raise ↦ none
      | Lua.undefined ↦ none
    ]
    | Lua.raise ↦ none
    | Lua.undefined ↦ none
  ]

  -- The first text that the calls give to a key.
  abbrev pub first_given : List ℕ → List (Call F) → Option (List ℕ)
  first_given k [] = none
  first_given k (c ∷ calls) = or_else (gives k c) (first_given k calls)

  abbrev pub step : Call F → LuaApi → Outcome (Result (LuaValue F) × LuaApi)
  step (set_env_call key value) = set_env n key value
  step (env_call key) = env n key

  abbrev pub run : List (Call F) → LuaApi → Outcome (List (Result (LuaValue F)) × LuaApi)
  run [] = return []
  run (c ∷ calls) = do a ← step c; later ← run calls; return (a ∷ later)

  -- What is kept after a call that changes the environment only.
  pub record Follows (s t : LuaApi) (given : List ℕ → Option (List ℕ)) : Type 0 where
    pub free : t.env_locked ≡ false
    pub found : (k : List ℕ) → find_key k t.envs ≡ or_else (find_key k s.envs) (given k)
    pub kept : (t.is_run ≡ s.is_run) × (t.c_path ≡ s.c_path) × (t.lua_path ≡ s.lua_path)

  inserted :
      (k j v : List ℕ) (m : Dict (List ℕ))
      → find_key k (insert_key j v m)
        ≡ or_else (find_key k m) (if same_text j k then some v else none)
  inserted k j v m = find_key-insert_key j k v m ∙ (elim (Option-cases (find_key k m)) [
    | inl gone ↦ rw gone refl
    | inr (w, there) ↦ rw there refl
  ])

  or_none : (o : Option (List ℕ)) → o ≡ or_else o none
  or_none none = refl
  or_none (some v) = refl

  or_assoc : (o p q : Option (List ℕ)) → or_else (or_else o p) q ≡ or_else o (or_else p q)
  or_assoc none p q = refl
  or_assoc (some v) p q = refl

  same-Follows : (s : LuaApi) → s.env_locked ≡ false → Follows s s (λ k. none)
  same-Follows s free = record {
    free = free;
    found = λ k. or_none (find_key k s.envs);
    kept = (refl, refl, refl);
  }

  step_lem :
      (c : Call F) (s : LuaApi)
      → s.env_locked ≡ false
      → (a : Result (LuaValue F)) × (t : LuaApi) × (step c s ≡ ok (a, t))
        × Follows s t (λ k. gives k c)
  unfolding set_env env lock unlock
  step_lem (set_env_call key value) s free = elim (Result-cases (check_string n key)) [
    | inl (j, e) ↦ elim (Result-cases (check_string n value)) [
      | inl (v, f) ↦ (
        Lua.ok (checked n value v),
        record s { env_locked = false; envs = insert_key j v s.envs },
        rw (set_env, e, f, ◌>>◌, free) refl,
        rw (gives, e, f)
            (record { free = refl; found = λ k. inserted k j v s.envs; kept = (refl, refl, refl) }),
      )
      | inr (inl f) ↦
          (Lua.raise, s, rw (set_env, e, f) refl, rw (gives, e, f) (same-Follows s free))
      | inr (inr f) ↦
          (Lua.undefined, s, rw (set_env, e, f) refl, rw (gives, e, f) (same-Follows s free))
    ]
    | inr (inl e) ↦ (Lua.raise, s, rw (set_env, e) refl, rw (gives, e) (same-Follows s free))
    | inr (inr e) ↦ (Lua.undefined, s, rw (set_env, e) refl, rw (gives, e) (same-Follows s free))
  ]
  step_lem (env_call key) s free = elim (Result-cases (check_string n key)) [
    | inl (k, e) ↦ (
      env_answer n key k (find_key k s.envs),
      record s { env_locked = false },
      rw (env, e, ◌>>◌, ◌>>=◌, free) refl,
      record { free = refl; found = λ k. or_none (find_key k s.envs); kept = (refl, refl, refl) },
    )
    | inr (inl e) ↦ (Lua.raise, s, rw (env, e) refl, same-Follows s free)
    | inr (inr e) ↦ (Lua.undefined, s, rw (env, e) refl, same-Follows s free)
  ]

  -- Where no call is at work, any calls of `setEnv` and `env` return one after another (an argument that
  -- is no text and no number raises an error), give the mutex back, and leave each key with the text that
  -- it had, or else with the first one that a call gave to it: a later `setEnv` changes nothing.
  pub run_lem :
      (calls : List (Call F)) (s : LuaApi)
      → s.env_locked ≡ false
      → (answers : List (Result (LuaValue F))) × (t : LuaApi) × (run calls s ≡ ok (answers, t))
        × Follows s t (λ k. first_given k calls)
  run_lem [] s free = ([], s, refl, same-Follows s free)
  run_lem (c ∷ calls) s free =
      let (a, t, e, here) = step_lem c s free in
      let (answers, u, f, later) = run_lem calls t here.free in
      (
        a ∷ answers,
        u,
        rw (run, ◌>>=◌, e, f) refl,
        record {
          free = later.free;
          found = λ k.
              later.found k
              ∙ ap (λ o. or_else o (first_given k calls)) (here.found k)
              ∙ or_assoc (find_key k s.envs) (gives k c) (first_given k calls);
          kept =
              (later.kept.0 ∙ here.kept.0, later.kept.1 ∙ here.kept.1, later.kept.2 ∙ here.kept.2);
        },
      )

  -- Where no call is at work: after any calls of `setEnv` and `env`, which all return, `env` of a key
  -- returns the text that the key had before them, or else the first one that a call gave to it, or else
  -- the key itself.
  pub env-run :
      (calls : List (Call F)) (s : LuaApi) (key : List ℕ)
      → s.env_locked ≡ false
      → (answers : List (Result (LuaValue F))) × (t : LuaApi) × (run calls s ≡ ok (answers, t))
        × (env n (Lua.string key) t
            ≡ ok (
              env_answer n
                  (Lua.string key)
                  (c_str key)
                  (or_else (find_key (c_str key) s.envs) (first_given (c_str key) calls)),
              t,
            ))
  unfolding env check_string lock unlock
  env-run calls s key free =
      let (answers, t, e, w) = run_lem calls s free in
      let open_again : record t { env_locked = false } ≡ t =
        ap (λ b. record t { env_locked = b }) (sym w.free) in
      (answers, t, e, rw (◌>>◌, ◌>>=◌, w.free, open_again, w.found (c_str key)) refl)
