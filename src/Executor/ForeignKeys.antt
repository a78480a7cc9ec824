-- ===== src/Executor/ForeignKeys.antt =====
-- checkFK and fkReferenced of internal/executor/executor.go, over the reads of storage.Accessor.
pub mod Integrity
use tsql.Base.{ℕ, zero, suc, String, Bool, true, false, ◌&&◌, ◌||◌, map, not, Option, none, some}
use tsql.Base.{List, [], ◌∷◌, any, keep, str_eq, if◌then◌else◌, Result, ok, err, ◌>>=◌, ◌>>◌, guard}
use tsql.Base.Int.{ℤ, eqb_ℤ}
use tsql.Platform.{Platform}
use tsql.Types.{Value, null, int}
use tsql.Schema.{Column, TableDef}
use tsql.Storage.Table.{Row}
use tsql.Storage.Engine.{Engine, StorageError, get_engine, unique_get}
use tsql.Storage.Txn.{Txn, all_rows, all_rows_txn, get_txn, unique_get_txn}
use tsql.Executor.Expr.{SqlError, sql_err, runtime_panic}

-- The reads of a view: the committed rows, or those that a transaction sees.
pub record View (P : Platform) : Type 0 where
  pub catalog : List TableDef
  pub rows : String → Result StorageError (List (ℤ × Row P))
  pub get : String → ℤ → Option (Row P)
  pub unique_get : String → ℕ → Value P → Option ℤ

-- A row id of a table.
abbrev pub RowId : Type 0
RowId = String × ℤ

abbrev pub same_row : RowId → RowId → Bool
same_row (n, i) (m, j) = str_eq n m && eqb_ℤ i j

abbrev pub is_some : {A : Type 0} → Option A → Bool
is_some (some a) = true
is_some none = false

module _ {P : Platform} where
  unfoldable pub engine_view : Engine P → View P
  engine_view e = record {
    catalog = map (λ t. record { name = t.name; cols = t.cols }) e.tables;
    rows = λ n. all_rows n e;
    get = λ n i. get_engine n i e;
    unique_get = λ n ci v. unique_get n ci v e;
  }

  unfoldable pub txn_view : Txn P → Engine P → View P
  txn_view t e = record {
    catalog = map (λ t. record { name = t.name; cols = t.cols }) e.tables;
    rows = λ n. all_rows_txn n t e;
    get = λ n i. get_txn n i t e;
    unique_get = λ n ci v. unique_get_txn n ci v t e;
  }

  -- The body of checkFK's loop for a column with a foreign key.
  unfoldable pub check_key : View P → Column → Value P → Result SqlError (Unit {0})
  check_key view c null = ok tt
  check_key view c (int i) = guard (is_some (view.get c.fk_table i)) (sql_err "23503")
  check_key view c v = err (sql_err "23503")

  -- The loop of checkFK: the columns with the row's values.
  unfoldable pub check_keys : View P → List Column → Row P → Result SqlError (Unit {0})
  check_keys view [] row = ok tt
  check_keys view (c ∷ cs) [] =
      let rest = check_keys view cs [] in if str_eq c.fk_table "" then rest else err runtime_panic
  check_keys view (c ∷ cs) (v ∷ vs) =
      let rest = check_keys view cs vs in
      if str_eq c.fk_table "" then rest else (check_key view c v >> rest)

  unfoldable pub check_fk : View P → TableDef → Row P → Result SqlError (Unit {0})
  check_fk view def row = check_keys view def.cols row

  -- `len(r) > ci && r[ci].Kind == types.KindInt && r[ci].I == pkValue`
  unfoldable pub refers : ℤ → ℕ → Row P → Bool
  refers pk ci [] = false
  refers pk zero (int i ∷ vs) = eqb_ℤ i pk
  refers pk zero (v ∷ vs) = false
  refers pk (suc ci) (v ∷ vs) = refers pk ci vs

  -- The loop over the rows of one table, for one column.
  unfoldable pub any_refers : RowId → ℤ → String → ℕ → List (ℤ × Row P) → Bool
  any_refers skip pk name ci [] = false
  any_refers skip pk name ci ((id, r) ∷ rs) =
      (not (same_row (name, id) skip) && refers pk ci r) || any_refers skip pk name ci rs

  -- A table that cannot be read has no rows.
  unfoldable pub rows_of : View P → String → List (ℤ × Row P)
  rows_of view name = elim (view.rows name) [ ok rs ↦ rs | err x ↦ [] ]

  -- The loop over the columns of one table.
  unfoldable pub cols_refer : View P → String → ℤ → RowId → String → ℕ → List Column → Bool
  cols_refer view parent pk skip name ci [] = false
  cols_refer view parent pk skip name ci (c ∷ cs) =
      (str_eq c.fk_table parent && any_refers skip pk name ci (rows_of view name))
      || cols_refer view parent pk skip name (suc ci) cs

  unfoldable pub tables_refer : View P → String → ℤ → RowId → List TableDef → Bool
  tables_refer view parent pk skip [] = false
  tables_refer view parent pk skip (d ∷ ds) =
      cols_refer view parent pk skip d.name 0 d.cols || tables_refer view parent pk skip ds

  -- fkReferenced; `skip` is the row that is deleted or moved
  unfoldable pub fk_referenced : View P → String → ℤ → RowId → Result SqlError (Unit {0})
  fk_referenced view parent pk skip =
      guard (not (tables_refer view parent pk skip view.catalog)) (sql_err "23503")
