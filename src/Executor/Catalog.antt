-- ===== src/Executor/Catalog.antt =====
-- execCreate, execDrop and validateFK of internal/executor/executor.go.
pub mod References
use tsql.Base.{String, Bool, true, false, not, Option, none, some, List, [], ◌∷◌, find, str_eq}
use tsql.Base.{if◌then◌else◌, Result, ok, err, ◌>>=◌}
use tsql.Platform.{Platform}
use tsql.Types.{ColumnType}
use tsql.Schema.{Column}
use tsql.Storage.Table.{Table}
use tsql.Storage.Engine.{
  Engine, StorageError, exists, no_table, find_table, create_table, drop_table,
}
use tsql.Executor.Expr.{SqlError, sql_err}

-- parser.ColumnDef; an empty ref_table is no REFERENCES clause
pub record ColumnDef : Type 0 where
  pub name : String
  pub type : ColumnType
  pub primary : Bool
  pub not_null : Bool
  pub auto_inc : Bool
  pub unique : Bool
  pub ref_table : String
  pub ref_col : String

pub record CreateTable : Type 0 where
  pub name : String
  pub cols : List ColumnDef

pub record DropTable : Type 0 where
  pub name : String
  pub if_exists : Bool

-- The error of a statement: an SQLError, or the storage's own where it is passed on.
pub data StatementError : Type 0 where
  reported : SqlError → StatementError
  passed_on : StorageError → StatementError

unfoldable pub primary_col : List Column → Option Column
unfolding find
primary_col cols = find (λ c. c.primary) cols

unfoldable pub find_col : String → List Column → Option Column
unfolding find
find_col name cols = find (λ c. str_eq c.name name) cols

-- The referenced column's name: the one given, or the parent's primary key.
abbrev pub fk_target : String → List Column → Result SqlError String
fk_target ref_col cols =
    if str_eq ref_col ""
    then (elim (primary_col cols) [ none ↦ err (sql_err "23552") | some c ↦ ok c.name ])
    else ok ref_col

-- The tests on the referenced column, and the column with its foreign key.
abbrev pub link_col : Column → String → String → Option Column → Result SqlError Column
link_col col ref_table target none = err (sql_err "23552")
link_col col ref_table target (some p) =
    if not p.primary
    then err (sql_err "0A000")
    else if not (str_eq p.type col.type)
    then err (sql_err "42804")
    else ok (record col { fk_table = ref_table; fk_col = target })

abbrev pub as_column : ColumnDef → Column
as_column c = record {
  name = c.name;
  type = c.type;
  not_null = c.not_null;
  primary = c.primary;
  auto_inc = c.auto_inc;
  unique = c.unique;
  fk_table = "";
  fk_col = "";
}

abbrev pub create_error : StorageError → SqlError
create_error exists = sql_err "42P07"
create_error _ = sql_err "42601"

module _ {P : Platform} where
  abbrev pub link_parent : Column → String → String → Option (Table P) → Result SqlError Column
  link_parent col ref_table ref_col none = err (sql_err "42P01")
  link_parent col ref_table ref_col (some t) =
      fk_target ref_col t.cols >>= λ target. link_col col ref_table target (find_col target t.cols)

  -- validateFK: the column with its foreign key
  unfoldable pub validate_fk : Engine P → String → Column → String → String → Result SqlError Column
  validate_fk e this_table col ref_table ref_col =
      if str_eq ref_table this_table
      then err (sql_err "42P01")
      else link_parent col ref_table ref_col (find_table ref_table e.tables)

  abbrev pub make_column : Engine P → String → ColumnDef → Result SqlError Column
  make_column e this_table c =
      if str_eq c.ref_table ""
      then ok (as_column c)
      else validate_fk e this_table (as_column c) c.ref_table c.ref_col

  -- The loop of execCreate.
  unfoldable pub make_columns : Engine P → String → List ColumnDef → Result SqlError (List Column)
  make_columns e this_table [] = ok []
  make_columns e this_table (c ∷ cs) = do
    col ← make_column e this_table c
    rest ← make_columns e this_table cs
    ok (col ∷ rest)

  abbrev pub created :
      Engine P × Result StorageError (Unit {0}) → Engine P × Result StatementError (Unit {0})
  created (e, ok u) = (e, ok u)
  created (e, err x) = (e, err (reported (create_error x)))

  -- execCreate
  unfoldable pub exec_create : Engine P → CreateTable → Engine P × Result StatementError (Unit {0})
  exec_create e s = elim (make_columns e s.name s.cols) [
    | err x ↦ (e, err (reported x))
    | ok cols ↦ created (create_table s.name cols e)
  ]

  abbrev pub dropped :
      Bool → Engine P × Result StorageError (Unit {0}) → Engine P × Result StatementError (Unit {0})
  dropped if_exists (e, ok u) = (e, ok u)
  dropped if_exists (e, err no_table) =
      (e, if if_exists then ok tt else err (reported (sql_err "42P01")))
  dropped if_exists (e, err x) = (e, err (passed_on x))

  -- execDrop
  unfoldable pub exec_drop : Engine P → DropTable → Engine P × Result StatementError (Unit {0})
  exec_drop e s = dropped s.if_exists (drop_table s.name e)
