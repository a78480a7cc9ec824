-- ===== src/Executor/Modify.antt =====
-- collectCandidates, execUpdate and execDelete of internal/executor/executor.go.
pub mod Moved
use tsql.Base.{ℕ, suc, String, Bool, true, false, ◌&&◌, not, Option, none, some}
use tsql.Base.{List, [], ◌∷◌, length, set, str_eq, if◌then◌else◌}
use tsql.Base.{Result, ok, err, ◌>>=◌, ◌>>◌}
use tsql.Base.Int.{ℤ, eqb_ℤ}
use tsql.Platform.{Platform}
use tsql.Types.{Value, int}
use tsql.Schema.{Column, TableDef}
use tsql.Storage.Table.{Row}
use tsql.Executor.Expr.{SqlError, sql_err, Expr, OptExpr, no_expr, an_expr}
use tsql.Executor.Scope.{JoinScope, single_table_scope, validate_expr}
use tsql.Executor.Eval.{Context, eval_value}
use tsql.Executor.ForeignKeys.{View, check_fk, fk_referenced}
use tsql.Executor.Catalog.{StatementError, reported, passed_on}
use tsql.Executor.Join.{lifted, test_row, unique_equality, indexed_rows}
use tsql.Executor.Select.{table_def_of, resolve_opt, validate_opt}
use tsql.Executor.Insert.{col_position, pk_position, column_at, coerce, cell_of}
use tsql.Executor.Accessor.{
  Session, Step, with_ok, and_then, view_of, acc_put, acc_update, acc_delete,
}

-- parser.Update, each SET with its column; parser.Delete
pub record Update (P : Platform) : Type 0 where
  pub table : String
  pub sets : List (String × Expr P)
  pub filter : OptExpr P

pub record Delete (P : Platform) : Type 0 where
  pub table : String
  pub filter : OptExpr P

module _ {P : Platform} where
  -- The rows of a table for which the condition is true, with their ids.
  unfoldable pub filter_pairs :
      Context P → OptExpr P → List (ℤ × Row P) → Result SqlError (List (ℤ × Row P))
  filter_pairs c w [] = ok []
  filter_pairs c w ((id, row) ∷ rs) = do
    b ← test_row c w row
    rest ← filter_pairs c w rs
    ok (if b then (id, row) ∷ rest else rest)

  unfoldable pub collect_candidates :
      View P → Context P → String → TableDef → OptExpr P → Result StatementError (List (ℤ × Row P))
  collect_candidates view c name def w = elim (unique_equality w name def) [
    | some k ↦ lifted (indexed_rows view c name k w)
    | none ↦ (elim (view.rows name) [
      | err x ↦ err (reported (sql_err "42P01"))
      | ok rs ↦ lifted (filter_pairs c w rs)
    ])
  ]

  -- The condition with its subqueries run, and checked.
  abbrev pub ready_filter :
      View P → P.Time → JoinScope → OptExpr P → Result StatementError (OptExpr P)
  ready_filter view now sc w =
      resolve_opt view now w >>= λ w2. lifted (validate_opt sc w2) >>= λ u. ok w2

  abbrev pub table_context : P.Time → TableDef → Context P
  table_context now def = record { scope = single_table_scope def; group = none; clock = now }

  unfoldable pub set_columns :
      List Column → List (String × Expr P) → Result SqlError (List (ℕ × Expr P))
  set_columns cols [] = ok []
  set_columns cols ((name, e) ∷ sets) = elim (col_position name 0 cols) [
    | none ↦ err (sql_err "42703")
    | some i ↦ set_columns cols sets >>= λ rest. ok ((i, e) ∷ rest)
  ]

  unfoldable pub validate_sets : JoinScope → List (String × Expr P) → Result SqlError (Unit {0})
  validate_sets sc [] = ok tt
  validate_sets sc ((name, e) ∷ sets) = validate_expr sc e >> validate_sets sc sets

  -- The new row: every SET reads the old one.
  unfoldable pub apply_sets :
      Context P → List Column → Row P → List (ℕ × Expr P) → Row P → Result SqlError (Row P)
  apply_sets c cols old [] row = ok row
  apply_sets c cols old ((i, e) ∷ sets) row = do
    v ← eval_value c e old
    col ← column_at cols i
    w ← coerce col v
    apply_sets c cols old sets (set row i w)

  -- The new id, where the primary key is an integer that changes.
  abbrev pub moved_key : Value P → Value P → Option ℤ
  moved_key (int i) (int j) = if eqb_ℤ i j then none else some j
  moved_key v w = none

  unfoldable pub moved_to : List Column → Row P → Row P → Option ℤ
  moved_to cols old row = elim (pk_position 0 cols) [
    | none ↦ none
    | some pk ↦ moved_key (cell_of old pk) (cell_of row pk)
  ]

  abbrev pub move_row : String → ℤ → ℤ → Row P → Session P → Step P (Unit {0})
  move_row name rid new_id row s =
      with_ok s (lifted (fk_referenced (view_of s) name rid (name, rid)))
        (λ u. and_then (acc_delete name rid s) (λ s2 v. acc_put name new_id row s2))

  abbrev pub write_updated : String → ℤ → Option ℤ → Row P → Session P → Step P (Unit {0})
  write_updated name rid none row s = acc_update name rid row s
  write_updated name rid (some new_id) row s = move_row name rid new_id row s

  abbrev pub checked_row :
      View P → Context P → TableDef → List (ℕ × Expr P) → Row P → Result SqlError (Row P)
  checked_row view c def sets old = do
    row ← apply_sets c def.cols old sets old
    u ← check_fk view def row
    ok row

  unfoldable pub update_rows :
      Context P
      → TableDef
      → String
      → List (ℕ × Expr P)
      → List (ℤ × Row P)
      → Session P
      → Step P (Unit {0})
  update_rows c def name sets [] s = (s, ok tt)
  update_rows c def name sets ((rid, old) ∷ rest) s =
      with_ok s (lifted (checked_row (view_of s) c def sets old)) (λ row.
        and_then (write_updated name rid (moved_to def.cols old row) row s)
          (λ s2 u. update_rows c def name sets rest s2))

  unfoldable pub exec_update : P.Time → Update P → Session P → Step P ℕ
  exec_update now q s = with_ok s (lifted (table_def_of q.table (view_of s).catalog)) (λ def.
      let c = table_context now def in
      with_ok s (lifted (set_columns def.cols q.sets)) (λ sets.
        with_ok s (lifted (validate_sets c.scope q.sets)) (λ u.
          with_ok s (ready_filter (view_of s) now c.scope q.filter) (λ w.
            with_ok s (collect_candidates (view_of s) c q.table def w) (λ cands.
              and_then (update_rows c def q.table sets cands s)
                (λ s2 v. (s2, ok (length cands))))))))

  unfoldable pub delete_rows : String → List (ℤ × Row P) → Session P → Step P (Unit {0})
  delete_rows name [] s = (s, ok tt)
  delete_rows name ((rid, row) ∷ rest) s =
      with_ok s (lifted (fk_referenced (view_of s) name rid (name, rid)))
        (λ u. and_then (acc_delete name rid s) (λ s2 v. delete_rows name rest s2))

  unfoldable pub exec_delete : P.Time → Delete P → Session P → Step P ℕ
  exec_delete now q s = with_ok s (lifted (table_def_of q.table (view_of s).catalog)) (λ def.
      let c = table_context now def in
      with_ok s (ready_filter (view_of s) now c.scope q.filter) (λ w.
        with_ok s (collect_candidates (view_of s) c q.table def w)
          (λ cands. and_then (delete_rows q.table cands s) (λ s2 u. (s2, ok (length cands))))))
