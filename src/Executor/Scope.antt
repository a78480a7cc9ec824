-- ===== src/Executor/Scope.antt =====
-- The joinScope of internal/executor/executor.go: column references to positions of a joined row.
pub mod Positions
use tsql.Base.{ℕ, zero, suc, ◌+◌, ◌-◌, String, Bool, true, false, ◌&&◌, not, Option, none, some}
use tsql.Base.{List, [], ◌∷◌, find, length, ltb, leb, str_eq, if◌then◌else◌}
use tsql.Base.{Result, ok, err, ◌>>=◌, ◌>>◌, string_eq}
use tsql.Base.Assoc.{lookup, insert}
use tsql.Platform.{Platform}
use tsql.Schema.{Column, TableDef}
use tsql.Executor.Expr.{SqlError, sql_err, ColRef, Expr, Exprs, lit, col_ref, func, cmp}
use tsql.Executor.Expr.{
  is_null_test, and, or, not_expr, binary, in_list, in_sub, no_exprs, more_exprs,
}
use tsql.Executor.Expr.{is_aggregate_func}

-- The loop of colIndexMap from a position on: of two columns with a name, the later one counts.
unfoldable pub index_cols : ℕ → List Column → List (String × ℕ) → List (String × ℕ)
index_cols i [] m = m
index_cols i (c ∷ cs) m = index_cols (suc i) cs (insert c.name i m)

unfoldable pub col_index_map : TableDef → List (String × ℕ)
unfolding index_cols
col_index_map def = index_cols 0 def.cols []

-- joinTable, less the rows that a derived table carries.
pub record JoinTable : Type 0 where
  pub def : TableDef
  pub alias : String
  pub base_pos : ℕ
  pub col_idx : List (String × ℕ)

abbrev pub JoinScope : Type 0
JoinScope = List JoinTable

unfoldable pub single_table_scope : TableDef → JoinScope
single_table_scope def =
    record { def = def; alias = def.name; base_pos = 0; col_idx = col_index_map def } ∷ []

-- The loop for a qualified reference.
unfoldable pub resolve_qualified : ColRef → JoinScope → Result SqlError ℕ
resolve_qualified ref [] = err (sql_err "42P01")
resolve_qualified ref (t ∷ ts) =
    let rest = resolve_qualified ref ts in
    if str_eq t.alias ref.table
    then (elim (lookup ref.name t.col_idx) [
      | some ci ↦ ok (t.base_pos + ci)
      | none ↦ err (sql_err "42703")
    ])
    else rest

-- The positions that an unqualified name has.
unfoldable pub positions : String → JoinScope → List ℕ
positions name [] = []
positions name (t ∷ ts) = elim (lookup name t.col_idx) [
  | some ci ↦ (t.base_pos + ci) ∷ positions name ts
  | none ↦ positions name ts
]

-- The two tests on the number of positions.
abbrev pub only_one : List ℕ → Result SqlError ℕ
only_one [] = err (sql_err "42703")
only_one (p ∷ []) = ok p
only_one (p ∷ q ∷ ps) = err (sql_err "42703")

unfoldable pub resolve : JoinScope → ColRef → Result SqlError ℕ
resolve sc ref =
    if not (str_eq ref.table "") then resolve_qualified ref sc else only_one (positions ref.name sc)

-- IN lists hold literals only.
unfoldable pub all_literals : {P : Platform} → Exprs P → Result SqlError (Unit {0})
all_literals no_exprs = ok tt
all_literals (more_exprs (lit v) es) = all_literals es
all_literals (more_exprs e es) = err (sql_err "42601")

abbrev pub checked : {A : Type 0} → Result SqlError A → Result SqlError (Unit {0})
checked (ok a) = ok tt
checked (err e) = err e

unfoldable pub validate_expr : {P : Platform} → JoinScope → Expr P → Result SqlError (Unit {0})
validate_expr sc (lit v) = ok tt
validate_expr sc (col_ref ref) = checked (resolve sc ref)
validate_expr sc (func name star arg) = if str_eq name "now" then ok tt else err (sql_err "42883")
validate_expr sc (cmp op l r) = validate_expr sc l >> validate_expr sc r
validate_expr sc (is_null_test x neg) = validate_expr sc x
validate_expr sc (and l r) = validate_expr sc l >> validate_expr sc r
validate_expr sc (or l r) = validate_expr sc l >> validate_expr sc r
validate_expr sc (not_expr x) = validate_expr sc x
validate_expr sc (binary op l r) = validate_expr sc l >> validate_expr sc r
validate_expr sc (in_list x es neg) = validate_expr sc x >> all_literals es
validate_expr sc (in_sub x sub neg) = validate_expr sc x
