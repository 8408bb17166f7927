-- ===== src/Tests/Mysqls.antt =====
-- The theorems on MariaDB at concrete results.
use server.Prelude.{
  ℕ, suc, ◌+◌, ◌≡◌, ◌≢◌, ◌≤◌, ◌⊎◌, refl, ap, true, false, List, [], ◌∷◌, none, some, length,
}
use server.Prelude.Int.{pos}
use server.Lua.{LuaTable, table, boolean, nil, get_field, get_index, ok, undefined}
use server.Mysql.{
  Field, Row, long, var_string, Numerals, Status, query_mariadb, result_rows, Execution, fetched,
  fetch_error, executed, exec_mariadb, badresult_key,
}
use server.Mysql.Columns.{Holds}
use server.Mysql.Query.{all_have_values, expected, query_mariadb_lem}
use server.Mysql.Exec.{executed-HasColumn, HasColumn}
use server.Mysql.Errors.{exec_mariadb-badresult}

-- Each text is its length.
abbrev numerals : Numerals ℕ
numerals = record { atoll = λ s. pos (length s); atof = length }

abbrev fields : List Field
fields =
    record { name = 105 ∷ []; field_type = long }
    ∷ record { name = 110 ∷ []; field_type = var_string }
    ∷ []

abbrev row : Row
row = some (49 ∷ []) ∷ some (97 ∷ []) ∷ []

abbrev status : Status
status = record { errno = 0; error = []; affected_rows = 0; insert_id = 0 }

-- The second row has no number.
query_mariadb_lem_example :
    ((all_have_values fields (row ∷ (none ∷ none ∷ []) ∷ []) ≡ true)
      × (t : LuaTable ℕ) × (query_mariadb numerals
            (result_rows fields (row ∷ (none ∷ none ∷ []) ∷ []))
            status
          ≡ ok t)
      × Holds (expected numerals) fields (row ∷ (none ∷ none ∷ []) ∷ []) 1 t
      × ((j : ℕ) → 3 ≤ j → get_index (pos j) t ≡ nil))
    ⊎ ((all_have_values fields (row ∷ (none ∷ none ∷ []) ∷ []) ≡ false)
        × (query_mariadb numerals (result_rows fields (row ∷ (none ∷ none ∷ []) ∷ [])) status
            ≡ undefined))
query_mariadb_lem_example = query_mariadb_lem numerals fields (row ∷ (none ∷ none ∷ []) ∷ []) status

abbrev execution : Execution
execution = record {
  bind_param_fails = false;
  execute_fails = false;
  store_result_fails = false;
  metadata = some fields;
  bind_result_fails = false;
  fetches = fetched row ∷ fetch_error ∷ fetched row ∷ [];
}

executed-HasColumn_example :
    (t : LuaTable ℕ) × (executed numerals execution status ≡ ok t)
    × ((i : ℕ)
        → suc i ≤ 1
        → (r : LuaTable ℕ) × (get_index (pos (1 + i)) t ≡ table r)
          × ((name : List ℕ)
              → get_field name r ≢ nil
              → HasColumn numerals name (get_field name r) fields))
executed-HasColumn_example =
    executed-HasColumn numerals execution status fields refl refl refl (refl, tt)

exec_mariadb-badresult_example :
    (t : LuaTable ℕ) × (exec_mariadb numerals
        (λ need given. [])
        (λ v. [])
        2
        (λ params. (execution, status))
        (nil ∷ [])
      ≡ ok t)
    × (get_field badresult_key t ≡ boolean false)
exec_mariadb-badresult_example =
    exec_mariadb-badresult numerals (λ need given. []) (λ v. []) 2 (λ params. (execution, status))
      (nil ∷ []) (λ fs e. let same : ◌≡◌ {A = List Field} fields fs = cc in (ap length same, tt))
