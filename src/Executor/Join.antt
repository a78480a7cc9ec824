-- ===== src/Executor/Join.antt =====
-- uniqueEquality and collectJoined of internal/executor/executor.go: the rows a query ranges over.
pub mod Product
use tsql.Base.{ℕ, zero, suc, String, Bool, true, false, ◌&&◌, not, Option, none, some}
use tsql.Base.{List, [], ◌∷◌, ◌++◌, map, length, take, str_eq, if◌then◌else◌}
use tsql.Base.{Result, ok, err, ◌>>=◌, ◌>>◌}
use tsql.Platform.{Platform}
use tsql.Types.{Value, null, check}
use tsql.Schema.{Column, TableDef}
use tsql.Storage.Table.{Row}
use tsql.Base.Int.{ℤ}
use tsql.Storage.Engine.{StorageError}
use tsql.Executor.Expr.{SqlError, sql_err, runtime_panic, ColRef, Expr, Exprs, lit, col_ref, cmp}
use tsql.Executor.Expr.{no_exprs, more_exprs, OptExpr, no_expr, an_expr}
use tsql.Executor.Scope.{JoinTable, JoinScope}
use tsql.Executor.Eval.{Context, Truth, eval_bool}
use tsql.Executor.ForeignKeys.{View}
use tsql.Executor.Catalog.{StatementError, reported, passed_on}

-- A table of a FROM clause with the rows that a derived table carries; Go's nil is none.
abbrev pub Source : Platform → Type 0
Source P = JoinTable × Option (List (Row P))

abbrev pub lifted : {A : Type 0} → Result SqlError A → Result StatementError A
lifted (ok a) = ok a
lifted (err x) = err (reported x)

-- `b && !isNull`
abbrev pub is_true : Truth → Bool
is_true (b, is_null) = b && not is_null

module _ {P : Platform} where
  -- The loop of uniqueEquality over the columns.
  unfoldable pub unique_col : Value P → String → ℕ → List Column → Option (ℕ × Value P)
  unique_col v name i [] = none
  unique_col v name i (c ∷ cs) =
      let rest = unique_col v name (suc i) cs in
      if str_eq c.name name && c.unique
      then (elim (check c.type v) [ ok w ↦ some (i, w) | err x ↦ none ])
      else rest

  abbrev pub unique_ref : String → ColRef → Value P → String → TableDef → Option (ℕ × Value P)
  unique_ref op ref v alias def =
      if not (str_eq op "=")
      then none
      else if not (str_eq ref.table "") && not (str_eq ref.table alias)
      then none
      else unique_col v ref.name 0 def.cols

  -- uniqueEquality: the column's position and the literal as the column's type has it
  unfoldable pub unique_equality : OptExpr P → String → TableDef → Option (ℕ × Value P)
  unique_equality (an_expr (cmp op (col_ref ref) (lit v))) alias def = unique_ref op ref v alias def
  unique_equality (an_expr (cmp op (lit v) (col_ref ref))) alias def = unique_ref op ref v alias def
  unique_equality w alias def = none

  unfoldable pub test_row : Context P → OptExpr P → Row P → Result SqlError Bool
  test_row c no_expr row = ok true
  test_row c (an_expr e) row = eval_bool c e row >>= λ b. ok (is_true b)

  -- The rows for which a condition is true, in their order.
  unfoldable pub filter_rows : Context P → OptExpr P → List (Row P) → Result SqlError (List (Row P))
  filter_rows c w [] = ok []
  filter_rows c w (r ∷ rs) = do
    b ← test_row c w r
    rest ← filter_rows c w rs
    ok (if b then r ∷ rest else rest)

  abbrev pub nulls : ℕ → Row P
  nulls zero = []
  nulls (suc n) = null ∷ nulls n

  -- A left row with its matches; LEFT JOIN keeps a row that has none.
  abbrev pub or_padded : Bool → ℕ → Row P → List (Row P) → List (Row P)
  or_padded true width l [] = (l ++ nulls width) ∷ []
  or_padded left width l matches = matches

  -- The nested loop over the left and the right rows.
  unfoldable pub join_rows :
      Context P → Expr P → Bool → ℕ → List (Row P) → List (Row P) → Result SqlError (List (Row P))
  join_rows c on left width [] rights = ok []
  join_rows c on left width (l ∷ ls) rights = do
    matches ← filter_rows c (an_expr on) (map (λ r. l ++ r) rights)
    rest ← join_rows c on left width ls rights
    ok (or_padded left width l matches ++ rest)

  -- The left-deep joins; `n` tables are in scope after the next one.
  unfoldable pub join_tables :
      Context P
      → ℕ
      → List (Row P)
      → List (JoinTable × List (Row P))
      → Exprs P
      → List String
      → Result SqlError (List (Row P))
  join_tables c n joined [] ons kinds = ok joined
  join_tables c n joined ((t, rows) ∷ ts) (more_exprs on ons) (kind ∷ kinds) = do
    next ←
        join_rows (record c { scope = take n c.scope }) on (str_eq kind "left") (length t.def.cols)
          joined rows
    join_tables c (suc n) next ts ons kinds
  join_tables c n joined ts ons kinds = err runtime_panic

  abbrev pub rows_only : {A : Type 0} → List (A × Row P) → List (Row P)
  rows_only rs = map (λ r. r.1) rs

  abbrev pub loaded : Result StorageError (List (ℤ × Row P)) → Result StatementError (List (Row P))
  loaded (ok rs) = ok (rows_only rs)
  loaded (err x) = err (passed_on x)

  abbrev pub load_source : View P → Source P → Result StatementError (List (Row P))
  load_source view (t, some rows) = ok rows
  load_source view (t, none) = loaded (view.rows t.def.name)

  unfoldable pub load_sources :
      View P → List (Source P) → Result StatementError (List (JoinTable × List (Row P)))
  load_sources view [] = ok []
  load_sources view (s ∷ ss) = do
    rows ← load_source view s
    rest ← load_sources view ss
    ok ((s.0, rows) ∷ rest)

  abbrev pub join_loaded :
      Context P
      → List (JoinTable × List (Row P))
      → Exprs P
      → List String
      → Result SqlError (List (Row P))
  join_loaded c [] ons kinds = err runtime_panic
  join_loaded c ((t, rows) ∷ ts) ons kinds = join_tables c 2 rows ts ons kinds

  unfoldable pub collect_joined :
      View P
      → Context P
      → List (Source P)
      → Exprs P
      → List String
      → OptExpr P
      → Result StatementError (List (Row P))
  collect_joined view c sources ons kinds w = do
    loaded ← load_sources view sources
    joined ← lifted (join_loaded c loaded ons kinds)
    lifted (filter_rows c w joined)

  -- The row that the UNIQUE index has for a value, if the condition is true for it.
  unfoldable pub indexed_rows :
      View P → Context P → String → ℕ × Value P → OptExpr P → Result SqlError (List (ℤ × Row P))
  indexed_rows view c name (ci, v) w = elim (view.unique_get name ci v) [
    | none ↦ ok []
    | some id ↦ (elim (view.get name id) [
      | none ↦ ok []
      | some row ↦ test_row c w row >>= λ b. ok (if b then (id, row) ∷ [] else [])
    ])
  ]

  -- The candidate rows of a SELECT: by the index for one stored table, else by the join.
  unfoldable pub select_rows :
      View P
      → Context P
      → List (Source P)
      → Exprs P
      → List String
      → OptExpr P
      → Result StatementError (List (Row P))
  select_rows view c ((t, none) ∷ []) ons kinds w = elim (unique_equality w t.alias t.def) [
    | some k ↦ lifted (indexed_rows view c t.def.name k w >>= λ rs. ok (rows_only rs))
    | none ↦ collect_joined view c ((t, none) ∷ []) ons kinds w
  ]
  select_rows view c sources ons kinds w = collect_joined view c sources ons kinds w
