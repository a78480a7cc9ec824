-- ===== src/Executor/Select/Derived.antt =====
-- On derived tables in execSelect: Go's nil for no rows.
use tsql.Base.{any, ◌≡◌, refl, String, true, none, List, [], ◌∷◌, ok, err}
use tsql.Platform.{Platform}
use tsql.Schema.{Column, TableDef}
use tsql.Types.{type_text}
use tsql.Storage.Engine.{StorageError}
use tsql.Executor.Expr.{no_exprs, no_expr, no_order, Select, select, no_tables, derived_table}
use tsql.Executor.Scope.{JoinScope}
use tsql.Executor.Eval.{Context}
use tsql.Executor.ForeignKeys.{View}
use tsql.Executor.Catalog.{passed_on}
use tsql.Executor.Plan.{plan_fields, plan_order, group_positions, has_aggregate}
use tsql.Executor.Join.{unique_equality, collect_joined, load_sources, select_rows}
use tsql.Executor.Select.{
  Query, derived_column, derived_cols, derived_def, joined_table, validate_ons, plan_query,
}
use tsql.Executor.Select.{run_query, exec_select}

abbrev text_columns : List String → List Column
text_columns [] = []
text_columns (h ∷ hs) = derived_column h type_text ∷ text_columns hs

derived_cols-none :
    (P : Platform) (hs : List String) → derived_cols {P = P} hs none ≡ ok (text_columns hs)
unfolding derived_cols
derived_cols-none P [] = refl
derived_cols-none P (h ∷ hs) = rw (derived_cols-none P hs) refl

derived_def_empty :
    (P : Platform) (alias : String) (hs : List String)
    → derived_def {P = P} alias (record { columns = hs; rows = [] })
      ≡ ok (record { name = alias; cols = text_columns hs })
unfolding derived_def
derived_def_empty P alias hs = rw (derived_cols-none P hs) refl

module _ {P : Platform} where
  abbrev all_of : TableDef → String → Query P
  all_of def alias = record {
    tables = (joined_table def alias 0, none) ∷ [];
    ons = no_exprs;
    kinds = [];
    star = true;
    fields = no_exprs;
    aliases = [];
    filter = no_expr;
    group = no_exprs;
    having = no_expr;
    order = no_order;
    limit = none;
  }

  select_rows_missing :
      (view : View P) (c : Context P) (def : TableDef) (alias : String) (x : StorageError)
      → view.rows def.name ≡ err x
      → select_rows view c ((joined_table def alias 0, none) ∷ []) no_exprs [] no_expr
        ≡ err (passed_on x)
  unfolding select_rows unique_equality collect_joined load_sources
  select_rows_missing view c def alias x k = rw k refl

  run_query_missing :
      (view : View P) (now : P.Time) (def : TableDef) (alias : String) (x : StorageError)
      → view.rows def.name ≡ err x
      → run_query view now (all_of def alias) ≡ err (passed_on x)
  unfolding run_query plan_query validate_ons group_positions has_aggregate plan_fields plan_order
  run_query_missing view now def alias x k =
      let sc : JoinScope = joined_table def alias 0 ∷ [] in
      let c : Context P = record { scope = sc; group = none; clock = now } in
      rw (select_rows_missing view c def alias x k) refl

  -- SELECT * FROM (sub) alias
  abbrev pub select_all_from : String → Select P → Select P
  select_all_from alias sub =
      select (derived_table "" alias sub no_tables) no_exprs [] true no_exprs [] no_expr no_exprs
        no_expr no_order none

  -- Where the subquery of `SELECT * FROM (sub) alias` returns no row and the stored table that is
  -- named like the alias cannot be read, the statement fails with that error of the storage.
  pub exec_select_empty_derived :
      (view : View P) (now : P.Time) (alias : String) (sub : Select P) (hs : List String)
      (x : StorageError)
      → exec_select view now sub ≡ ok (record { columns = hs; rows = [] })
      → view.rows alias ≡ err x
      → exec_select view now (select_all_from alias sub) ≡ err (passed_on x)
  unfolding exec_select any
  exec_select_empty_derived view now alias sub hs x h k = rw h (
      rw (derived_def_empty P alias hs)
        (run_query_missing view now (record { name = alias; cols = text_columns hs }) alias x k))
