-- ===== src/Mysql.antt =====
-- src/sql/mysql/mysql.cpp: how results of MariaDB become Lua tables. What the client library answers is
-- a parameter of each function. A statement or a connection that Lua passes is one.
pub mod Columns
pub mod Query
pub mod Exec
pub mod Errors
use server.Prelude.{
  ℕ, zero, suc, ◌+◌, Bool, true, false, List, [], ◌∷◌, Option, none, some, if◌then◌else◌, ltb, ◌==◌,
  length,
}
use server.Prelude.Int.{ℤ, pos, signed64}
use server.Lua.{
  LuaValue, nil, boolean, integer, number, string, table, LuaTable, done, set_field, set_index,
  Result, ok, undefined, ◌>>=◌,
}
use server.Lua.Fields.{put_field}
use server.Msg.{c_str}

-- `enum_field_types`, as far as the code names them.
pub data FieldType : Type 0 where
  string_type var_string blob : FieldType
  tiny short long longlong : FieldType
  decimal float double : FieldType
  other_type : FieldType

pub record Field : Type 0 where
  pub name : List ℕ
  pub field_type : FieldType

-- `std::atoll` and `std::atof` on a text.
pub record Numerals (F : Type 0) : Type 0 where
  pub atoll : List ℕ → ℤ
  pub atof : List ℕ → F

-- "badresult", "errno", "error", "affectedRows" and "insertId"
abbrev pub badresult_key : List ℕ
badresult_key = 98 ∷ 97 ∷ 100 ∷ 114 ∷ 101 ∷ 115 ∷ 117 ∷ 108 ∷ 116 ∷ []

abbrev pub errno_key : List ℕ
errno_key = 101 ∷ 114 ∷ 114 ∷ 110 ∷ 111 ∷ []

abbrev pub error_key : List ℕ
error_key = 101 ∷ 114 ∷ 114 ∷ 111 ∷ 114 ∷ []

abbrev pub affected_rows_key : List ℕ
affected_rows_key = 97 ∷ 102 ∷ 102 ∷ 101 ∷ 99 ∷ 116 ∷ 101 ∷ 100 ∷ 82 ∷ 111 ∷ 119 ∷ 115 ∷ []

abbrev pub insert_id_key : List ℕ
insert_id_key = 105 ∷ 110 ∷ 115 ∷ 101 ∷ 114 ∷ 116 ∷ 73 ∷ 100 ∷ []

-- What the library says of its last call; the last two are of the type `my_ulonglong`.
pub record Status : Type 0 where
  pub errno : ℕ
  pub error : List ℕ
  pub affected_rows : ℕ
  pub insert_id : ℕ

module _ {F : Type 0} where
  -- `newBadResult`
  unfoldable pub bad_result : Status → LuaTable F
  bad_result s =
      set_field error_key (string (c_str s.error))
        (set_field errno_key (integer (pos s.errno)) (set_field badresult_key (boolean true) done))

  -- What a call without rows returns; an insert id of 0 is left out.
  unfoldable pub no_rows : Status → LuaTable F
  no_rows s =
      let t = set_field affected_rows_key (integer (signed64 s.affected_rows)) done in
      if ltb 0 s.insert_id then set_field insert_id_key (integer (signed64 s.insert_id)) t else t

  -- Without a result: an error, or a call without rows.
  unfoldable pub without_result : Status → LuaTable F
  unfolding bad_result no_rows
  without_result s = if ltb 0 s.errno then bad_result s else no_rows s

module _ {F : Type 0} (n : Numerals F) where
  -- The text of a column that is there, or is null, as the switch of `queryMariadb` pushes it: none where
  -- the type is not supported. `lua_pushstring` takes a null pointer, and `atoll` and `atof` do not.
  unfoldable pub query_value : FieldType → Option (List ℕ) → Result (Option (LuaValue F))
  query_value string_type (some s) = ok (some (string (c_str s)))
  query_value var_string (some s) = ok (some (string (c_str s)))
  query_value blob (some s) = ok (some (string (c_str s)))
  query_value string_type none = ok (some nil)
  query_value var_string none = ok (some nil)
  query_value blob none = ok (some nil)
  query_value tiny (some s) = ok (some (integer (n.atoll s)))
  query_value short (some s) = ok (some (integer (n.atoll s)))
  query_value long (some s) = ok (some (integer (n.atoll s)))
  query_value longlong (some s) = ok (some (integer (n.atoll s)))
  query_value decimal (some s) = ok (some (number (n.atof s)))
  query_value float (some s) = ok (some (number (n.atof s)))
  query_value double (some s) = ok (some (number (n.atof s)))
  query_value other_type cell = ok none
  query_value _ none = undefined

  -- The same of `execMariadb`, which goes on with the next column where the value is null, and whose switch
  -- has no case for a decimal.
  unfoldable pub exec_value : FieldType → Option (List ℕ) → Result (Option (LuaValue F))
  exec_value type none = ok none
  exec_value string_type (some s) = ok (some (string (c_str s)))
  exec_value var_string (some s) = ok (some (string (c_str s)))
  exec_value blob (some s) = ok (some (string (c_str s)))
  exec_value tiny (some s) = ok (some (integer (n.atoll s)))
  exec_value short (some s) = ok (some (integer (n.atoll s)))
  exec_value long (some s) = ok (some (integer (n.atoll s)))
  exec_value longlong (some s) = ok (some (integer (n.atoll s)))
  exec_value float (some s) = ok (some (number (n.atof s)))
  exec_value double (some s) = ok (some (number (n.atof s)))
  exec_value decimal (some s) = ok none
  exec_value other_type (some s) = ok none

-- A row: the values of its columns, where they are not null.
abbrev pub Row : Type 0
Row = List (Option (List ℕ))

module _ {F : Type 0} (value : FieldType → Option (List ℕ) → Result (Option (LuaValue F))) where
  abbrev pub put_column : List ℕ → Option (LuaValue F) → LuaTable F → LuaTable F
  put_column name none t = t
  put_column name (some v) t = put_field name v t

  -- The loop over the columns; a row has a value for each.
  unfoldable pub read_columns : List Field → Row → LuaTable F → Result (LuaTable F)
  read_columns [] cells t = ok t
  read_columns (f ∷ fields) [] t = undefined
  read_columns (f ∷ fields) (cell ∷ cells) t =
      value f.field_type cell >>= (λ v. read_columns fields cells (put_column f.name v t))

-- What `mysql_query` and `mysql_store_result` answer.
pub data QueryAnswer : Type 0 where
  failed : QueryAnswer
  no_result : QueryAnswer
  result_rows : List Field → List Row → QueryAnswer

-- What `mysql_stmt_fetch` answers: a row, or an error; after the last answer there are no data.
pub data Fetch : Type 0 where
  fetched : Row → Fetch
  fetch_error : Fetch

-- A `MYSQL_BIND` of a parameter; `is_string` says whether the type is set, to that of a string.
pub record Param : Type 0 where
  pub is_string : Bool
  pub buffer : Option (List ℕ)

-- What the calls on a statement answer.
pub record Execution : Type 0 where
  pub bind_param_fails : Bool
  pub execute_fails : Bool
  pub store_result_fails : Bool
  pub metadata : Option (List Field)
  pub bind_result_fails : Bool
  pub fetches : List Fetch

module _ {F : Type 0} (n : Numerals F) where
  -- The loop over the rows, with `index`.
  unfoldable pub query_rows : List Field → List Row → (index : ℕ) → LuaTable F → Result (LuaTable F)
  unfolding read_columns query_value
  query_rows fields [] index t = ok t
  query_rows fields (row ∷ rows) index t =
      read_columns (query_value n) fields row done
      >>= (λ r. query_rows fields rows (index + 1) (set_index (pos index) (table r) t))

  unfoldable pub query_mariadb : QueryAnswer → Status → Result (LuaTable F)
  unfolding bad_result without_result query_rows
  query_mariadb failed s = ok (bad_result s)
  query_mariadb no_result s = ok (without_result s)
  query_mariadb (result_rows fields rows) s = query_rows fields rows 1 done

  -- The loop over the rows, with `row`, up to the end or an error.
  unfoldable pub exec_rows : List Field → List Fetch → (row : ℕ) → LuaTable F → Result (LuaTable F)
  unfolding read_columns exec_value
  exec_rows fields [] row t = ok t
  exec_rows fields (fetch_error ∷ fetches) row t = ok t
  exec_rows fields (fetched cells ∷ fetches) row t =
      read_columns (exec_value n) fields cells done
      >>= (λ r. exec_rows fields fetches (row + 1) (set_index (pos row) (table r) t))

  -- The parameter made of an argument; `to_string` is `std::to_string` of a number.
  abbrev pub bind_param : (to_string : LuaValue F → List ℕ) → LuaValue F → Param
  bind_param to_string (string s) = record { is_string = true; buffer = some (c_str s) }
  bind_param to_string (integer z) = record {
    is_string = false;
    buffer = some (to_string (integer z));
  }
  bind_param to_string (number x) = record {
    is_string = false;
    buffer = some (to_string (number x));
  }
  bind_param to_string _ = record { is_string = false; buffer = none }

  -- The loop over the parameters.
  unfoldable pub bind_params :
      (to_string : LuaValue F → List ℕ) (param_count : ℕ) → List (LuaValue F) → List Param
  bind_params to_string zero args = []
  bind_params to_string (suc k) [] = bind_param to_string nil ∷ bind_params to_string k []
  bind_params to_string (suc k) (v ∷ args) = bind_param to_string v ∷ bind_params to_string k args

  -- The table for too few arguments.
  unfoldable pub invalid_args : (error : List ℕ) → LuaTable F
  invalid_args error =
      set_field error_key (string (c_str error)) (set_field badresult_key (boolean false) done)

  -- From `mysql_stmt_bind_param` on.
  unfoldable pub executed : Execution → Status → Result (LuaTable F)
  unfolding bad_result without_result exec_rows
  executed e s =
      if e.bind_param_fails
      then ok (bad_result s)
      else if e.execute_fails
      then ok (bad_result s)
      else if e.store_result_fails
      then ok (bad_result s)
      else elim e.metadata [
        | none ↦ ok (without_result s)
        | some fields ↦
            if e.bind_result_fails then ok (bad_result s) else exec_rows fields e.fetches 1 done
      ]

  -- `execMariadb` with the arguments after the statement; `format` makes the text of the error.
  unfoldable pub exec_mariadb :
      (format : (need get : ℕ) → List ℕ) (to_string : LuaValue F → List ℕ) (param_count : ℕ)
      (run : List Param → Execution × Status)
      → List (LuaValue F)
      → Result (LuaTable F)
  unfolding bind_params invalid_args executed
  exec_mariadb format to_string param_count run args =
      if ltb (length args) param_count
      then ok (invalid_args (format param_count (length args)))
      else let (e, s) = run (bind_params to_string param_count args) in executed e s
