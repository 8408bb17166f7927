-- ===== src/Mysql/Query.antt =====
-- src/sql/mysql/mysql.cpp: what `query` returns of a result with rows.
use server.Prelude.{
  ℕ, suc, ◌+◌, ◌≤◌, ◌≡◌, ◌≢◌, refl, ◌∙◌, ◌⊎◌, inl, inr, Bool, true, false, not, ◌&&◌, subst,
  fun_ext, List, [], ◌∷◌, Option, none, some, ==_of_ne, ==_self, length, Bool-cases, arith,
}
use server.Prelude.Int.{pos}
use server.Lua.{
  LuaValue, nil, integer, number, string, table, LuaTable, done, get_index, set_index, Result, ok,
  raise, undefined,
}
use server.Msg.{c_str}
use server.Lua.Fields.{get_index-set_index}
use server.Mysql.{
  FieldType, string_type, var_string, blob, tiny, short, long, longlong, decimal, float, double,
  other_type, Field, Row, Numerals, Status, query_value, query_rows, query_mariadb, result_rows,
}
use server.Mysql.Columns.{is_readable, is_ok, Holds, Holds-cons, read_row, read_unreadable, both}

-- A column of texts, of integers, of floats, or of a type that the code does not name.
pub data Kind : Type 0 where
  texts integers floats others : Kind

abbrev pub kind : FieldType → Kind
kind string_type = texts
kind var_string = texts
kind blob = texts
kind tiny = integers
kind short = integers
kind long = integers
kind longlong = integers
kind decimal = floats
kind float = floats
kind double = floats
kind other_type = others

-- No text for a number.
abbrev pub is_null_number : Kind → Option (List ℕ) → Bool
is_null_number integers none = true
is_null_number floats none = true
is_null_number k cell = false

-- The row has a value for each column, and none of its numbers is null.
abbrev pub has_values : List Field → Row → Bool
has_values [] cells = true
has_values (f ∷ fields) [] = false
has_values (f ∷ fields) (cell ∷ cells) =
    not (is_null_number (kind f.field_type) cell) && has_values fields cells

abbrev pub all_have_values : List Field → List Row → Bool
all_have_values fields [] = true
all_have_values fields (row ∷ rows) = has_values fields row && all_have_values fields rows

module _ {F : Type 0} (n : Numerals F) where
  -- The Lua value of a column: a text up to its first zero byte, nil for a null text, and a number.
  abbrev pub value_of : Kind → Option (List ℕ) → Result (Option (LuaValue F))
  value_of texts none = ok (some nil)
  value_of texts (some s) = ok (some (string (c_str s)))
  value_of integers (some s) = ok (some (integer (n.atoll s)))
  value_of floats (some s) = ok (some (number (n.atof s)))
  value_of others cell = ok none
  value_of k none = undefined

  abbrev pub expected : FieldType → Option (List ℕ) → Result (Option (LuaValue F))
  expected type cell = value_of (kind type) cell

  query_value_lem :
      (type : FieldType) (cell : Option (List ℕ)) → query_value n type cell ≡ expected type cell
  unfolding query_value
  query_value_lem string_type none = refl
  query_value_lem string_type (some s) = refl
  query_value_lem var_string none = refl
  query_value_lem var_string (some s) = refl
  query_value_lem blob none = refl
  query_value_lem blob (some s) = refl
  query_value_lem tiny none = refl
  query_value_lem tiny (some s) = refl
  query_value_lem short none = refl
  query_value_lem short (some s) = refl
  query_value_lem long none = refl
  query_value_lem long (some s) = refl
  query_value_lem longlong none = refl
  query_value_lem longlong (some s) = refl
  query_value_lem decimal none = refl
  query_value_lem decimal (some s) = refl
  query_value_lem float none = refl
  query_value_lem float (some s) = refl
  query_value_lem double none = refl
  query_value_lem double (some s) = refl
  query_value_lem other_type none = refl
  query_value_lem other_type (some s) = refl

  is_ok-value_of :
      (k : Kind) (cell : Option (List ℕ)) → is_ok (value_of k cell) ≡ not (is_null_number k cell)
  is_ok-value_of texts none = refl
  is_ok-value_of texts (some s) = refl
  is_ok-value_of integers none = refl
  is_ok-value_of integers (some s) = refl
  is_ok-value_of floats none = refl
  is_ok-value_of floats (some s) = refl
  is_ok-value_of others none = refl
  is_ok-value_of others (some s) = refl

  has_values_lem :
      (fields : List Field) (row : Row) → is_readable expected fields row ≡ has_values fields row
  has_values_lem [] row = refl
  has_values_lem (f ∷ fields) [] = refl
  has_values_lem (f ∷ fields) (cell ∷ row) =
      rw (has_values_lem fields row, is_ok-value_of (kind f.field_type) cell) refl

  -- `query_value` never raises a Lua error.
  query_value_never : (type : FieldType) (cell : Option (List ℕ)) → query_value n type cell ≢ raise
  unfolding query_value
  query_value_never string_type (some s) = λ h. cc
  query_value_never var_string (some s) = λ h. cc
  query_value_never blob (some s) = λ h. cc
  query_value_never tiny (some s) = λ h. cc
  query_value_never short (some s) = λ h. cc
  query_value_never long (some s) = λ h. cc
  query_value_never longlong (some s) = λ h. cc
  query_value_never decimal (some s) = λ h. cc
  query_value_never float (some s) = λ h. cc
  query_value_never double (some s) = λ h. cc
  query_value_never other_type (some s) = λ h. cc
  query_value_never string_type none = λ h. cc
  query_value_never var_string none = λ h. cc
  query_value_never blob none = λ h. cc
  query_value_never tiny none = λ h. cc
  query_value_never short none = λ h. cc
  query_value_never long none = λ h. cc
  query_value_never longlong none = λ h. cc
  query_value_never decimal none = λ h. cc
  query_value_never float none = λ h. cc
  query_value_never double none = λ h. cc
  query_value_never other_type none = λ h. cc

  -- Every row can be read.
  abbrev all_readable : List Field → List Row → Bool
  all_readable fields [] = true
  all_readable fields (row ∷ rows) =
      is_readable (query_value n) fields row && all_readable fields rows

  query_value-expected : query_value n ≡ expected
  query_value-expected = fun_ext (λ type. fun_ext (λ cell. query_value_lem type cell))

  all_readable_lem :
      (fields : List Field) (rows : List Row)
      → all_readable fields rows ≡ all_have_values fields rows
  all_readable_lem fields [] = refl
  all_readable_lem fields (row ∷ rows) =
      rw (query_value-expected, has_values_lem fields row, all_readable_lem fields rows) refl

  query_rows_lem :
      (fields : List Field) (rows : List Row) (index : ℕ) (t : LuaTable F)
      → all_readable fields rows ≡ true
      → (u : LuaTable F) × (query_rows n fields rows index t ≡ ok u)
        × Holds (query_value n) fields rows index u
        × ((j : ℕ) → suc j ≤ index → get_index (pos j) u ≡ get_index (pos j) t)
        × ((j : ℕ) → index + length rows ≤ j → get_index (pos j) u ≡ get_index (pos j) t)
  unfolding query_rows
  query_rows_lem fields [] index t h = (t, refl, λ i row e. cc, λ j le. refl, λ j le. refl)
  query_rows_lem fields (row ∷ rows) index t h =
      let (here, later) =
        both (is_readable (query_value n) fields row) (all_readable fields rows) h in
      let (r, e, holds) = read_row (query_value n) fields row here in
      let (u, f, all, before, after) =
        query_rows_lem fields rows (index + 1) (set_index (pos index) (table r) t) later in
      let put = λ (j : ℕ). get_index-set_index j index (table r) t in
      (
        u,
        rw e f,
        Holds-cons (query_value n) fields row rows index r u
            (before index (omega arith) ∙ put index ∙ rw (==_self index) refl) holds all,
        λ j le. before j (omega arith) ∙ put j ∙ rw (==_of_ne index j (omega arith)) refl,
        λ j le. after j (omega arith) ∙ put j ∙ rw (==_of_ne index j (omega arith)) refl,
      )

  query_rows_undefined :
      (fields : List Field) (rows : List Row) (index : ℕ) (t : LuaTable F)
      → all_readable fields rows ≡ false
      → query_rows n fields rows index t ≡ undefined
  unfolding query_rows
  query_rows_undefined fields [] index t h = cc
  query_rows_undefined fields (row ∷ rows) index t h =
      elim (Bool-cases (is_readable (query_value n) fields row)) [
        | inl here ↦
            let (r, e, holds) = read_row (query_value n) fields row here in
            rw e (
              query_rows_undefined fields rows (index + 1) (set_index (pos index) (table r) t)
                (rw here at h))
        | inr broken ↦
            rw (read_unreadable (query_value n) fields row done broken query_value_never) refl
      ]

  -- A query with rows that have a value for each column, none null in a column of numbers, returns a table
  -- that holds the rows in their order from 1 on, with nothing after the last one, each as a table from the
  -- names of its columns to their values (a text, an integer or a float by the column's type); where a
  -- number is null or a value is missing, the behaviour is undefined.
  pub query_mariadb_lem :
      (fields : List Field) (rows : List Row) (s : Status)
      → ((all_have_values fields rows ≡ true)
          × (t : LuaTable F) × (query_mariadb n (result_rows fields rows) s ≡ ok t)
          × Holds expected fields rows 1 t
          × ((j : ℕ) → 1 + length rows ≤ j → get_index (pos j) t ≡ nil))
        ⊎ ((all_have_values fields rows ≡ false)
            × (query_mariadb n (result_rows fields rows) s ≡ undefined))
  unfolding query_mariadb get_index
  query_mariadb_lem fields rows s = elim (Bool-cases (all_have_values fields rows)) [
    | inl fine ↦
        let (t, e, holds, before, after) =
          query_rows_lem fields rows 1 done (all_readable_lem fields rows ∙ fine) in
        inl (
          fine,
          t,
          e,
          subst (λ value. Holds value fields rows 1 t) query_value-expected holds,
          after,
        )
    | inr broken ↦
        inr
          (broken, query_rows_undefined fields rows 1 done (all_readable_lem fields rows ∙ broken))
  ]
