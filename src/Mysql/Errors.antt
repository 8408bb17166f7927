-- ===== src/Mysql/Errors.antt =====
-- src/sql/mysql/mysql.cpp: the errors that `exec` reports.
use server.Prelude.{
  ℕ, ◌≡◌, refl, ◌∙◌, inl, inr, Bool, true, false, List, none, some, if◌then◌else◌, ltb, length, All,
  Bool-cases, Option-cases,
}
use server.Prelude.Dict.{same_text}
use server.Lua.{LuaValue, nil, boolean, LuaTable, done, get_field, set_field, ok}
use server.Mysql.{
  Field, Numerals, Status, Execution, Param, exec_rows, executed, bind_params, bad_result, no_rows,
  without_result, badresult_key, invalid_args, exec_mariadb,
}
use server.Mysql.Exec.{before_error, starts, starts_lem, executed_lem}

-- The client library reports an error before any row is fetched.
abbrev pub is_error : Execution → Status → Bool
is_error e s =
    if starts e
    then (elim e.metadata [ none ↦ ltb 0 s.errno | some fields ↦ e.bind_result_fails ])
    else true

-- Every row that is fetched has a value for each column.
abbrev pub Fits : Execution → Type 0
Fits e =
    (fields : List Field)
    → e.metadata ≡ some fields
    → All (λ cells. length cells ≡ length fields) (before_error e.fetches)

module _ {F : Type 0} (n : Numerals F) where
  bad_result_field : (s : Status) → get_field {F = F} badresult_key (bad_result s) ≡ boolean true
  unfolding bad_result set_field get_field same_text
  bad_result_field s = refl

  no_rows_field : (s : Status) → get_field {F = F} badresult_key (no_rows s) ≡ nil
  unfolding no_rows set_field get_field same_text
  no_rows_field s = elim (Bool-cases (ltb 0 s.insert_id)) [ inl e ↦ rw e refl | inr e ↦ rw e refl ]

  executed_fails :
      (e : Execution) (s : Status) → starts e ≡ false → executed n e s ≡ ok (bad_result s)
  unfolding executed
  executed_fails e s h = elim (Bool-cases e.bind_param_fails) [
    | inl a ↦ rw a refl
    | inr a ↦ elim (Bool-cases e.execute_fails) [
      | inl b ↦ rw (a, b) refl
      | inr b ↦ elim (Bool-cases e.store_result_fails) [
        | inl c ↦ rw (a, b, c) refl
        | inr c ↦ let h : true ≡ false = rw (a, b, c) at h in cc
      ]
    ]
  ]

  executed_begun :
      (e : Execution) (s : Status)
      → starts e ≡ true
      → executed n e s ≡ elim e.metadata [
        | none ↦ ok (without_result s)
        | some fields ↦
            if e.bind_result_fails then ok (bad_result s) else exec_rows n fields e.fetches 1 done
      ]
  unfolding executed
  executed_begun e s begins =
      let (a, b, c) = starts_lem e.bind_param_fails e.execute_fails e.store_result_fails begins in
      rw (a, b, c) refl

  without_result_field :
      (s : Status)
      → get_field {F = F} badresult_key (without_result s)
        ≡ (if ltb 0 s.errno then boolean true else nil)
  unfolding without_result
  without_result_field s = elim (Bool-cases (ltb 0 s.errno)) [
    | inl e ↦ rw e (bad_result_field s)
    | inr e ↦ rw e (no_rows_field s)
  ]

  invalid_args_field :
      (error : List ℕ) → get_field {F = F} badresult_key (invalid_args n error) ≡ boolean false
  unfolding invalid_args set_field get_field same_text
  invalid_args_field error = refl

  executed_badresult :
      (e : Execution) (s : Status)
      → Fits e
      → (t : LuaTable F) × (executed n e s ≡ ok t)
        × (get_field badresult_key t ≡ (if is_error e s then boolean true else nil))
  executed_badresult e s fits = elim (Bool-cases (starts e)) [
    | inr fails ↦ (bad_result s, executed_fails e s fails, rw fails (bad_result_field s))
    | inl begins ↦ elim (Option-cases e.metadata) [
      | inl missing ↦ (
        without_result s,
        executed_begun e s begins ∙ rw missing refl,
        rw (begins, missing) (without_result_field s),
      )
      | inr (fields, meta) ↦ elim (Bool-cases e.bind_result_fails) [
        | inl bad ↦ (
          bad_result s,
          executed_begun e s begins ∙ rw (meta, bad) refl,
          rw (begins, meta, bad) (bad_result_field s),
        )
        | inr bound ↦
            let (t, f, holds, after, text) =
              executed_lem n e s fields begins meta bound (fits fields meta) in
            (t, f, rw (begins, meta, bound) text)
      ]
    ]
  ]

  -- Where every row that is fetched has a value for each column (perhaps null), `exec` always returns a
  -- table: with "badresult" false where arguments are missing, true where the
  -- client library reports an error before any row is fetched, and without it otherwise, also where
  -- fetching a row fails.
  pub exec_mariadb-badresult :
      (format : (need get : ℕ) → List ℕ) (to_string : LuaValue F → List ℕ) (param_count : ℕ)
      (run : List Param → Execution × Status) (args : List (LuaValue F))
      → Fits (run (bind_params n to_string param_count args)).0
      → (t : LuaTable F) × (exec_mariadb n format to_string param_count run args ≡ ok t)
        × (get_field badresult_key t ≡ (
            if ltb (length args) param_count
            then boolean false
            else let (e, s) = run (bind_params n to_string param_count args) in
              if is_error e s then boolean true else nil))
  unfolding exec_mariadb
  exec_mariadb-badresult format to_string param_count run args fits =
      elim (Bool-cases (ltb (length args) param_count)) [
        | inl few ↦ (
          invalid_args n (format param_count (length args)),
          rw few refl,
          rw few (invalid_args_field (format param_count (length args))),
        )
        | inr enough ↦
            let (e, s) = run (bind_params n to_string param_count args) in
            let (t, f, flag) = executed_badresult e s fits in (t, rw enough f, rw enough flag)
      ]
