-- ===== src/Mysql/Columns.antt =====
-- src/sql/mysql/mysql.cpp: the table of one row, by the names of its columns.
use server.Prelude.{
  ℕ, zero, suc, ◌+◌, ◌≡◌, ◌≢◌, refl, ap, ◌∙◌, Bool, true, false, ◌&&◌, List, [], ◌∷◌, Option, none,
  some, if◌then◌else◌, get_elem?, arith,
}
use server.Prelude.Int.{pos}
use server.Prelude.Dict.{same_text}
use server.Lua.{
  LuaValue, nil, table, LuaTable, done, get_field, get_index, Result, ok, raise, undefined, ◌>>=◌,
}
use server.Lua.Fields.{AreTexts, put_field-AreTexts, get_field-put_field}
use server.Mysql.{FieldType, Field, Row, put_column, read_columns}

-- The value, where the function gives one.
abbrev pub shown : {A : Type 0} → Result (Option A) → Option A
shown (ok o) = o
shown raise = none
shown undefined = none

abbrev pub is_ok : {A : Type 0} → Result A → Bool
is_ok (ok a) = true
is_ok raise = false
is_ok undefined = false

pub is_ok_lem : {A : Type 0} (r : Result A) → is_ok r ≡ true → (a : A) × (r ≡ ok a)
is_ok_lem (ok a) h = (a, refl)
is_ok_lem raise h = cc
is_ok_lem undefined h = cc

pub both : (a b : Bool) → (a && b) ≡ true → (a ≡ true) × (b ≡ true)
both true b h = (refl, h)
both false b h = cc

abbrev pub or_else : {A : Type 0} → Option A → Option A → Option A
or_else none o = o
or_else (some a) o = some a

abbrev pub value_or : {A : Type 0} → A → Option A → A
value_or d none = d
value_or d (some a) = a

module _ {F : Type 0} (value : FieldType → Option (List ℕ) → Result (Option (LuaValue F))) where
  -- The value of the last column with a name that has one.
  abbrev pub column : List ℕ → List Field → Row → Option (LuaValue F)
  column name [] cells = none
  column name (f ∷ fields) [] = none
  column name (f ∷ fields) (cell ∷ cells) =
      or_else (column name fields cells)
        (if same_text f.name name then shown (value f.field_type cell) else none)

  -- There is a value for each column, and every one can be read.
  abbrev pub is_readable : List Field → Row → Bool
  is_readable [] cells = true
  is_readable (f ∷ fields) [] = false
  is_readable (f ∷ fields) (cell ∷ cells) =
      is_ok (value f.field_type cell) && is_readable fields cells

  put_column_lem :
      (j name : List ℕ) (o : Option (LuaValue F)) (t : LuaTable F)
      → AreTexts t
      → AreTexts (put_column value name o t)
        × (get_field j (put_column value name o t)
            ≡ value_or (get_field j t) (if same_text name j then o else none))
  put_column_lem j name none t a = (a, ground arith)
  put_column_lem j name (some v) t a =
      (put_field-AreTexts name v t a, get_field-put_field j name v t a ∙ ground arith)

  value_or-or_else :
      (d v : LuaValue F) (o p : Option (LuaValue F))
      → v ≡ value_or d p
      → value_or v o ≡ value_or d (or_else o p)
  value_or-or_else d v none p h = h
  value_or-or_else d v (some w) p h = refl

  read_columns_lem :
      (fields : List Field) (cells : Row) (t : LuaTable F)
      → is_readable fields cells ≡ true
      → AreTexts t
      → (r : LuaTable F) × (read_columns value fields cells t ≡ ok r)
        × ((j : List ℕ) → get_field j r ≡ value_or (get_field j t) (column j fields cells))
  unfolding read_columns
  read_columns_lem [] cells t h a = (t, refl, λ j. refl)
  read_columns_lem (f ∷ fields) [] t h a = cc
  read_columns_lem (f ∷ fields) (cell ∷ cells) t h a =
      let (here, later) = both (is_ok (value f.field_type cell)) (is_readable fields cells) h in
      let (o, e) = is_ok_lem (value f.field_type cell) here in
      let u = put_column value f.name o t in
      let (r, g, k) =
        read_columns_lem fields cells u later ((put_column_lem f.name f.name o t a).0) in
      (
        r,
        rw e g,
        λ j.
            k j
            ∙ rw e (
                value_or-or_else (get_field j t) (get_field j u) (column j fields cells)
                  (if same_text f.name j then o else none) ((put_column_lem j f.name o t a).1)),
      )

  -- The table of a row that can be read has under each name the last value of that name, and nothing
  -- else.
  pub read_row :
      (fields : List Field) (cells : Row)
      → is_readable fields cells ≡ true
      → (r : LuaTable F) × (read_columns value fields cells done ≡ ok r)
        × ((j : List ℕ) → get_field j r ≡ value_or nil (column j fields cells))
  unfolding get_field
  read_row fields cells h = read_columns_lem fields cells done h tt

  unreadable_column :
      (v : Result (Option (LuaValue F))) (fields : List Field) (cells : Row) (name : List ℕ)
      (t : LuaTable F)
      → (is_ok v && is_readable fields cells) ≡ false
      → v ≢ raise
      → ((u : LuaTable F)
          → is_readable fields cells ≡ false
          → read_columns value fields cells u ≡ undefined)
      → (v >>= (λ o. read_columns value fields cells (put_column value name o t))) ≡ undefined
  unreadable_column (ok o) fields cells name t h never k = k (put_column value name o t) h
  unreadable_column raise fields cells name t h never k = absurd (never refl)
  unreadable_column undefined fields cells name t h never k = refl

  -- A row with a value that cannot be read has no table.
  pub read_unreadable :
      (fields : List Field) (cells : Row) (t : LuaTable F)
      → is_readable fields cells ≡ false
      → ((type : FieldType) (cell : Option (List ℕ)) → value type cell ≢ raise)
      → read_columns value fields cells t ≡ undefined
  unfolding read_columns
  read_unreadable [] cells t h never = cc
  read_unreadable (f ∷ fields) [] t h never = refl
  read_unreadable (f ∷ fields) (cell ∷ cells) t h never =
      unreadable_column (value f.field_type cell) fields cells f.name t h (never f.field_type cell)
        (λ u e. read_unreadable fields cells u e never)

  -- The table holds the rows by their places, from `first` on: each row has under a name the value of its
  -- last column of that name, or nothing.
  abbrev pub Holds : List Field → List Row → (first : ℕ) → LuaTable F → Type 0
  Holds fields rows first t =
      (i : ℕ) (row : Row)
      → get_elem? rows i ≡ some row
      → (r : LuaTable F) × (get_index (pos (first + i)) t ≡ table r)
        × ((name : List ℕ) → get_field name r ≡ value_or nil (column name fields row))

  -- A table that holds the first row and those after it.
  pub Holds-cons :
      (fields : List Field) (row : Row) (rows : List Row) (first : ℕ) (r t : LuaTable F)
      → get_index (pos first) t ≡ table r
      → ((name : List ℕ) → get_field name r ≡ value_or nil (column name fields row))
      → Holds fields rows (first + 1) t
      → Holds fields (row ∷ rows) first t
  Holds-cons fields row rows first r t here values later zero other e =
      let same : row ≡ other = cc in
      let at : first + 0 ≡ first = omega arith in
      (r, rw at here, λ name. values name ∙ ap (λ u. value_or nil (column name fields u)) same)
  Holds-cons fields row rows first r t here values later (suc i) other e =
      let (q, found, shows) = later i other e in
      let at : first + suc i ≡ first + 1 + i = omega arith in (q, rw at found, shows)
