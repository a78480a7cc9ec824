-- ===== src/Executor/Insert.antt =====
-- execInsert, coerce and evalInsertValue of internal/executor/executor.go.
use tsql.Base.{ℕ, zero, suc, String, Bool, true, false, ◌&&◌, not, Option, none, some}
use tsql.Base.{List, [], ◌∷◌, length, set, ◌==◌, str_eq, if◌then◌else◌}
use tsql.Base.{Result, ok, err, ◌>>=◌, ◌>>◌}
use tsql.Base.Int.{ℤ, pos}
use tsql.Platform.{Platform}
use tsql.Types.{Value, null, int, text, time, is_null, check, type_timestamp}
use tsql.Schema.{Column, TableDef}
use tsql.Storage.Table.{Row}
use tsql.Executor.Expr.{
  SqlError, sql_err, runtime_panic, Expr, Exprs, lit, func, no_exprs, more_exprs,
}
use tsql.Executor.ForeignKeys.{View, check_fk}
use tsql.Executor.Plan.{has_pos}
use tsql.Executor.Join.{lifted, nulls}
use tsql.Executor.Select.{table_def_of}
use tsql.Executor.Accessor.{Session, Step, with_ok, and_then, view_of, acc_put, acc_put_auto}

-- parser.Insert
pub record Insert (P : Platform) : Type 0 where
  pub table : String
  pub cols : List String
  pub rows : List (Exprs P)

unfoldable pub col_position : String → ℕ → List Column → Option ℕ
col_position name i [] = none
col_position name i (c ∷ cs) =
    let rest = col_position name (suc i) cs in if str_eq c.name name then some i else rest

unfoldable pub pk_position : ℕ → List Column → Option ℕ
pk_position i [] = none
pk_position i (c ∷ cs) = let rest = pk_position (suc i) cs in if c.primary then some i else rest

abbrev pub column_at : List Column → ℕ → Result SqlError Column
column_at [] i = err runtime_panic
column_at (c ∷ cs) zero = ok c
column_at (c ∷ cs) (suc i) = column_at cs i

-- The columns that the statement names; `seen` holds the ones before.
unfoldable pub named_targets : List Column → List String → List ℕ → Result SqlError (List ℕ)
named_targets cols [] seen = ok []
named_targets cols (n ∷ ns) seen = elim (col_position n 0 cols) [
  | none ↦ err (sql_err "42703")
  | some i ↦
      let rest = named_targets cols ns (i ∷ seen) in
      if has_pos seen i then err (sql_err "42703") else (rest >>= λ is. ok (i ∷ is))
]

unfoldable pub positions_from : ℕ → List Column → List ℕ
positions_from i [] = []
positions_from i (c ∷ cs) = i ∷ positions_from (suc i) cs

unfoldable pub insert_targets : List Column → List String → Result SqlError (List ℕ)
insert_targets cols [] = ok (positions_from 0 cols)
insert_targets cols (n ∷ ns) = named_targets cols (n ∷ ns) []

module _ {P : Platform} where
  unfoldable pub exprs_length : Exprs P → ℕ
  exprs_length no_exprs = 0
  exprs_length (more_exprs e es) = suc (exprs_length es)

  abbrev pub first_layout : List String → String → Value P
  first_layout [] s = text s
  first_layout (l ∷ ls) s = elim (P.parse_time l s) [ none ↦ first_layout ls s | some t ↦ time t ]

  abbrev pub as_time : Column → Value P → Value P
  as_time c (text s) =
      if str_eq c.type type_timestamp
      then first_layout ("2006-01-02 15:04:05" ∷ "2006-01-02T15:04:05" ∷ "2006-01-02" ∷ []) s
      else text s
  as_time c v = v

  abbrev pub or_22p02 : {E : Type 0} → Result E (Value P) → Result SqlError (Value P)
  or_22p02 (ok w) = ok w
  or_22p02 (err x) = err (sql_err "22P02")

  -- coerce, with the error that its callers give.
  unfoldable pub coerce : Column → Value P → Result SqlError (Value P)
  coerce c v = or_22p02 (check c.type (as_time c v))

  unfoldable pub eval_insert_value : P.Time → Expr P → Result SqlError (Value P)
  eval_insert_value now (lit v) = ok v
  eval_insert_value now (func name star arg) =
      if str_eq name "now" then ok (time now) else err (sql_err "42883")
  eval_insert_value now e = err (sql_err "0A000")

  -- The values at their columns, over a row of NULLs.
  unfoldable pub fill_row :
      P.Time → List Column → List ℕ → Exprs P → Row P → Result SqlError (Row P)
  fill_row now cols (i ∷ is) (more_exprs e es) row = do
    v ← eval_insert_value now e
    c ← column_at cols i
    w ← coerce c v
    fill_row now cols is es (set row i w)
  fill_row now cols is es row = ok row

  abbrev pub key_cell : ℕ → Column → Value P → Result SqlError (Option ℕ × ℤ)
  key_cell pk c null = if c.auto_inc then ok (some pk, pos 0) else err (sql_err "23502")
  key_cell pk c (int i) = ok (none, i)
  key_cell pk c v = err (sql_err "22P02")

  abbrev pub cell_of : Row P → ℕ → Value P
  cell_of row i = tsql.Base.get_or row i null

  -- The column that the storage numbers, if it does, and the row's id.
  unfoldable pub row_key : List Column → Row P → Result SqlError (Option ℕ × ℤ)
  row_key cols row = elim (pk_position 0 cols) [
    | none ↦ ok (none, pos 0)
    | some pk ↦ column_at cols pk >>= λ c. key_cell pk c (cell_of row pk)
  ]

  unfoldable pub check_not_null : List Column → Row P → Result SqlError (Unit {0})
  check_not_null (c ∷ cs) (v ∷ vs) =
      let rest = check_not_null cs vs in
      if not c.primary && (c.not_null && is_null v) then err (sql_err "23502") else rest
  check_not_null cs vs = ok tt

  abbrev pub checked_values :
      View P → P.Time → TableDef → List ℕ → Exprs P → Result SqlError ((Option ℕ × ℤ) × Row P)
  checked_values view now def targets es = do
    row ← fill_row now def.cols targets es (nulls (length def.cols))
    key ← row_key def.cols row
    u ← check_not_null def.cols row
    v ← check_fk view def row
    ok (key, row)

  -- What one row of the statement hands to the storage: the column that the storage is to number, if
  -- any, the id, and the row as it is before the storage puts that number in.
  unfoldable pub insert_values :
      View P → P.Time → TableDef → List ℕ → Exprs P → Result SqlError ((Option ℕ × ℤ) × Row P)
  insert_values view now def targets es =
      if exprs_length es == length targets
      then checked_values view now def targets es
      else err (sql_err "21000")

  abbrev pub put_values : String → (Option ℕ × ℤ) × Row P → Session P → Step P (Unit {0})
  put_values name ((some pk, rid), row) s = acc_put_auto name pk row s
  put_values name ((none, rid), row) s = acc_put name rid row s

  -- The loop over the rows, each checked against what the ones before have written.
  unfoldable pub insert_rows :
      P.Time → TableDef → String → List ℕ → List (Exprs P) → Session P → Step P (Unit {0})
  insert_rows now def name targets [] s = (s, ok tt)
  insert_rows now def name targets (es ∷ rows) s =
      with_ok s (lifted (insert_values (view_of s) now def targets es))
        (λ v. and_then (put_values name v s) (λ s2 u. insert_rows now def name targets rows s2))

  unfoldable pub exec_insert : P.Time → Insert P → Session P → Step P ℕ
  exec_insert now q s = with_ok s (lifted (table_def_of q.table (view_of s).catalog)) (λ def.
      with_ok s (lifted (insert_targets def.cols q.cols)) (λ targets.
        and_then (insert_rows now def q.table targets q.rows s) (λ s2 u. (s2, ok (length q.rows)))))
