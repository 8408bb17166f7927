-- ===== src/Mysql/Exec.antt =====
-- src/sql/mysql/mysql.cpp: what `exec` returns.
use server.Prelude.{
  ℕ, zero, suc, ◌+◌, ◌≤◌, ◌≡◌, ◌≢◌, refl, sym, ◌∙◌, ◌⊎◌, inl, inr, subst, get_elem?, Bool, true,
  false, not, ◌||◌, List, [], ◌∷◌, Option, none, some, ==_of_ne, ==_self, length, All, Bool-cases,
  Option-cases, arith,
}
use server.Prelude.Int.{pos}
use server.Prelude.Dict.{same_text}
use server.Lua.{
  LuaValue, nil, integer, number, string, table, LuaTable, done, get_field, get_index, set_index,
  ok,
}
use server.Lua.Fields.{get_index-set_index, get_field-set_index}
use server.Msg.{c_str}
use server.Mysql.{
  FieldType, string_type, var_string, blob, tiny, short, long, longlong, decimal, float, double,
  other_type, Field, Row, Numerals, Status, Fetch, fetched, fetch_error, Execution, exec_value,
  exec_rows, executed, badresult_key,
}
use server.Mysql.Columns.{is_readable, column, shown, Holds, Holds-cons, read_row, is_ok, value_or}

-- The rows that are fetched before an error.
abbrev pub before_error : List Fetch → List Row
before_error [] = []
before_error (fetched cells ∷ fetches) = cells ∷ before_error fetches
before_error (fetch_error ∷ fetches) = []

-- The first three calls of the execution succeed.
abbrev pub starts : Execution → Bool
starts e = not (e.bind_param_fails || e.execute_fails || e.store_result_fails)

pub starts_lem : (a b c : Bool) → not (a || b || c) ≡ true → (a ≡ false) × (b ≡ false) × (c ≡ false)
starts_lem false false false h = (refl, refl, refl)
starts_lem true b c h = cc
starts_lem false true c h = cc
starts_lem false false true h = cc

module _ {F : Type 0} (n : Numerals F) where
  exec_value_ok :
      (type : FieldType) (cell : Option (List ℕ)) → is_ok (exec_value n type cell) ≡ true
  unfolding exec_value
  exec_value_ok type none = refl
  exec_value_ok string_type (some s) = refl
  exec_value_ok var_string (some s) = refl
  exec_value_ok blob (some s) = refl
  exec_value_ok tiny (some s) = refl
  exec_value_ok short (some s) = refl
  exec_value_ok long (some s) = refl
  exec_value_ok longlong (some s) = refl
  exec_value_ok decimal (some s) = refl
  exec_value_ok float (some s) = refl
  exec_value_ok double (some s) = refl
  exec_value_ok other_type (some s) = refl

  exec_readable :
      (fields : List Field) (cells : Row)
      → length cells ≡ length fields
      → is_readable (exec_value n) fields cells ≡ true
  exec_readable [] cells h = refl
  exec_readable (f ∷ fields) [] h = absurd (omega arith)
  exec_readable (f ∷ fields) (cell ∷ cells) h =
      rw (exec_value_ok f.field_type cell) (exec_readable fields cells (omega arith))

  exec_rows_lem :
      (fields : List Field) (fetches : List Fetch) (row : ℕ) (t : LuaTable F)
      → All (λ cells. length cells ≡ length fields) (before_error fetches)
      → (u : LuaTable F) × (exec_rows n fields fetches row t ≡ ok u)
        × Holds (exec_value n) fields (before_error fetches) row u
        × ((j : ℕ) → suc j ≤ row → get_index (pos j) u ≡ get_index (pos j) t)
        × ((j : ℕ)
            → row + length (before_error fetches) ≤ j
            → get_index (pos j) u ≡ get_index (pos j) t)
        × ((k : List ℕ) → get_field k u ≡ get_field k t)
  unfolding exec_rows
  exec_rows_lem fields [] row t h =
      (t, refl, λ i cells e. cc, λ j le. refl, λ j le. refl, λ k. refl)
  exec_rows_lem fields (fetch_error ∷ fetches) row t h =
      (t, refl, λ i cells e. cc, λ j le. refl, λ j le. refl, λ k. refl)
  exec_rows_lem fields (fetched cells ∷ fetches) row t h =
      let (r, e, values) = read_row (exec_value n) fields cells (exec_readable fields cells h.0) in
      let (u, f, all, before, after, texts) =
        exec_rows_lem fields fetches (row + 1) (set_index (pos row) (table r) t) h.1 in
      let put = λ (j : ℕ). get_index-set_index j row (table r) t in
      (
        u,
        rw e f,
        Holds-cons (exec_value n) fields cells (before_error fetches) row r u
            (before row (omega arith) ∙ put row ∙ rw (==_self row) refl) values all,
        λ j le. before j (omega arith) ∙ put j ∙ rw (==_of_ne row j (omega arith)) refl,
        λ j le. after j (omega arith) ∙ put j ∙ rw (==_of_ne row j (omega arith)) refl,
        λ k. texts k ∙ get_field-set_index k (pos row) (table r) t,
      )

  -- The Lua type for a column's type.
  abbrev pub HasType : FieldType → LuaValue F → Type 0
  HasType string_type (string s) = Unit
  HasType var_string (string s) = Unit
  HasType blob (string s) = Unit
  HasType tiny (integer z) = Unit
  HasType short (integer z) = Unit
  HasType long (integer z) = Unit
  HasType longlong (integer z) = Unit
  HasType float (number x) = Unit
  HasType double (number x) = Unit
  HasType _ _ = ⊥

  exec_value-HasType :
      (type : FieldType) (cell : Option (List ℕ)) (v : LuaValue F)
      → shown (exec_value n type cell) ≡ some v
      → HasType type v
  unfolding exec_value
  exec_value-HasType type none v h = cc
  exec_value-HasType string_type (some s) v h =
      let e : string (c_str s) ≡ v = cc in subst (HasType string_type) e tt
  exec_value-HasType var_string (some s) v h =
      let e : string (c_str s) ≡ v = cc in subst (HasType var_string) e tt
  exec_value-HasType blob (some s) v h =
      let e : string (c_str s) ≡ v = cc in subst (HasType blob) e tt
  exec_value-HasType tiny (some s) v h =
      let e : integer (n.atoll s) ≡ v = cc in subst (HasType tiny) e tt
  exec_value-HasType short (some s) v h =
      let e : integer (n.atoll s) ≡ v = cc in subst (HasType short) e tt
  exec_value-HasType long (some s) v h =
      let e : integer (n.atoll s) ≡ v = cc in subst (HasType long) e tt
  exec_value-HasType longlong (some s) v h =
      let e : integer (n.atoll s) ≡ v = cc in subst (HasType longlong) e tt
  exec_value-HasType float (some s) v h =
      let e : number (n.atof s) ≡ v = cc in subst (HasType float) e tt
  exec_value-HasType double (some s) v h =
      let e : number (n.atof s) ≡ v = cc in subst (HasType double) e tt
  exec_value-HasType decimal (some s) v h = cc
  exec_value-HasType other_type (some s) v h = cc

  -- A column of the row has this name and the value's type.
  abbrev pub HasColumn : List ℕ → LuaValue F → List Field → Type 0
  HasColumn name v [] = ⊥
  HasColumn name v (f ∷ fields) =
      ((same_text f.name name ≡ true) × HasType f.field_type v) ⊎ HasColumn name v fields

  -- The value that a row has under a name has the type of a column of this name.
  column-HasColumn :
      (name : List ℕ) (fields : List Field) (cells : Row) (v : LuaValue F)
      → column (exec_value n) name fields cells ≡ some v
      → HasColumn name v fields
  column-HasColumn name [] cells v h = cc
  column-HasColumn name (f ∷ fields) [] v h = cc
  column-HasColumn name (f ∷ fields) (cell ∷ cells) v h =
      elim (Option-cases (column (exec_value n) name fields cells)) [
        | inl missing ↦ elim (Bool-cases (same_text f.name name)) [
          | inl same ↦ inl (same, exec_value-HasType f.field_type cell v (rw (missing, same) at h))
          | inr differ ↦
              let h : ◌≡◌ {A = Option (LuaValue F)} none (some v) = rw (missing, differ) at h in cc
        ]
        | inr (w, there) ↦
            let e : ◌≡◌ {A = Option (LuaValue F)} (some w) (some v) = rw there at h in
            inr (column-HasColumn name fields cells v (there ∙ e))
      ]

  pub executed_lem :
      (e : Execution) (s : Status) (fields : List Field)
      → starts e ≡ true
      → e.metadata ≡ some fields
      → e.bind_result_fails ≡ false
      → All (λ cells. length cells ≡ length fields) (before_error e.fetches)
      → (t : LuaTable F) × (executed n e s ≡ ok t)
        × Holds (exec_value n) fields (before_error e.fetches) 1 t
        × ((j : ℕ) → 1 + length (before_error e.fetches) ≤ j → get_index (pos j) t ≡ nil)
        × (get_field badresult_key t ≡ nil)
  unfolding executed get_index get_field
  executed_lem e s fields begins meta bound fits =
      let (t, f, holds, before, after, texts) = exec_rows_lem fields e.fetches 1 done fits in
      let (a, b, c) = starts_lem e.bind_param_fails e.execute_fails e.store_result_fails begins in
      (t, rw (executed, a, b, c, meta, bound) f, holds, after, texts badresult_key)

  row_at :
      (rows : List Row) (i : ℕ) → suc i ≤ length rows → (row : Row) × (get_elem? rows i ≡ some row)
  row_at [] i le = absurd (omega arith)
  row_at (row ∷ rows) zero le = (row, refl)
  row_at (row ∷ rows) (suc i) le = row_at rows i (omega arith)

  shown-HasColumn :
      (name : List ℕ) (fields : List Field) (cells : Row) (v : LuaValue F)
      → v ≡ value_or nil (column (exec_value n) name fields cells)
      → v ≢ nil
      → HasColumn name v fields
  shown-HasColumn name fields cells v e there =
      elim (Option-cases (column (exec_value n) name fields cells)) [
        | inl missing ↦ absurd (there (e ∙ rw missing refl))
        | inr (w, found) ↦
            let same : v ≡ w = e ∙ rw found refl in
            subst (λ u. HasColumn name u fields) (sym same)
              (column-HasColumn name fields cells w found)
      ]

  -- In the table that a statement returns that is executed without an error, with rows that have a value
  -- for each column (perhaps null), the table of each row that is fetched before the first error has under
  -- a name nothing, or a text, an integer or a float, where some column has this name and is one of texts,
  -- of integers or of floats.
  pub executed-HasColumn :
      (e : Execution) (s : Status) (fields : List Field)
      → starts e ≡ true
      → e.metadata ≡ some fields
      → e.bind_result_fails ≡ false
      → All (λ cells. length cells ≡ length fields) (before_error e.fetches)
      → (t : LuaTable F) × (executed n e s ≡ ok t)
        × ((i : ℕ)
            → suc i ≤ length (before_error e.fetches)
            → (r : LuaTable F) × (get_index (pos (1 + i)) t ≡ table r)
              × ((name : List ℕ)
                  → get_field name r ≢ nil
                  → HasColumn name (get_field name r) fields))
  executed-HasColumn e s fields begins meta bound fits =
      let (t, f, holds, after, flag) = executed_lem e s fields begins meta bound fits in
      (
        t,
        f,
        λ i le.
            let (row, at) = row_at (before_error e.fetches) i le in
            let (r, here, values) = holds i row at in
            (
              r,
              here,
              λ name there. shown-HasColumn name fields row (get_field name r) (values name) there,
            ),
      )
