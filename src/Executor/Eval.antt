-- ===== src/Executor/Eval.antt =====
-- evalValueCtx, arithmetic and evalBoolCtx of internal/executor/executor.go.
pub mod Logic
pub mod Total
use tsql.Base.{ℕ, String, Bool, true, false, ◌&&◌, ◌||◌, not, Option, none, some, List, [], ◌∷◌}
use tsql.Base.{Ordering, str_eq, if◌then◌else◌, Result, ok, err, ◌>>=◌, ◌>>◌}
use tsql.Base.Int.{ℤ, pos, wrap64, quot64, rem64, ◌+ℤ◌, ◌-ℤ◌, ◌*ℤ◌, eqb_ℤ}
use tsql.Platform.{Platform}
use tsql.Types.{Value, null, int, float, text, bool, time, is_null, compare_values}
use tsql.Storage.Table.{Row}
use tsql.Executor.Expr.{
  SqlError, sql_err, runtime_panic, ColRef, Expr, Exprs, lit, col_ref, func, cmp,
}
use tsql.Executor.Expr.{
  is_null_test, and, or, not_expr, binary, in_list, in_sub, no_exprs, more_exprs,
}
use tsql.Executor.Expr.{OptExpr, no_expr, an_expr, is_aggregate_func}
use tsql.Executor.Scope.{JoinScope, resolve}
use tsql.Executor.Aggregate.{cell_at, eval_aggregate, is_lt, is_gt, is_eq}

-- groupCtx: the rows of a group and the statement's time.
pub record GroupCtx (P : Platform) : Type 0 where
  pub rows : List (Row P)
  pub now_val : Value P

-- What an evaluation reads: the scope, the group if there is one, and the clock.
pub record Context (P : Platform) : Type 0 where
  pub scope : JoinScope
  pub group : Option (GroupCtx P)
  pub clock : P.Time

-- A truth value: the pair (value, isNull).
abbrev pub Truth : Type 0
Truth = Bool × Bool

abbrev pub unknown : Truth
unknown = (false, true)

abbrev pub known : Bool → Truth
known b = (b, false)

-- The tests after both sides of AND, OR and NOT have been evaluated.
unfoldable pub and_truth : Truth → Truth → Truth
and_truth (lt, ln) (rt, rn) = if (ln && not rt) || (rn && not lt) then unknown else known (lt && rt)

unfoldable pub or_truth : Truth → Truth → Truth
or_truth (lt, ln) (rt, rn) = if (ln && not rt) || (rn && not lt) then unknown else known (lt || rt)

unfoldable pub not_truth : Truth → Truth
not_truth (v, n) = if n then unknown else known (not v)

-- The switch on the comparison operator.
unfoldable pub cmp_truth : String → Ordering → Result SqlError Truth
cmp_truth op c =
    if str_eq op "="
    then ok (known (is_eq c))
    else if str_eq op "<>"
    then ok (known (not (is_eq c)))
    else if str_eq op "<"
    then ok (known (is_lt c))
    else if str_eq op "<="
    then ok (known (not (is_gt c)))
    else if str_eq op ">"
    then ok (known (is_gt c))
    else if str_eq op ">="
    then ok (known (not (is_lt c)))
    else err (sql_err "0A000")

-- The test for a zero divisor reads it as a float.
unfoldable pub divides_by_zero : (P : Platform) → String → P.Float → Bool
divides_by_zero P op b = (str_eq op "/" || str_eq op "%") && P.float_eq b (P.of_int (pos 0))

abbrev pub in_truth : Bool → Bool × Bool → Truth
in_truth neg (matched, has_null) =
    if not matched && has_null then unknown else known (if neg then not matched else matched)

module _ {P : Platform} where
  -- The operand as a float64, where it is a number.
  unfoldable pub as_float : Value P → Option P.Float
  as_float (int i) = some (P.of_int i)
  as_float (float f) = some f
  as_float v = none

  -- Go's integer division panics on a zero divisor.
  unfoldable pub int_arithmetic : String → ℤ → ℤ → Result SqlError (Value P)
  int_arithmetic op a b =
      if str_eq op "+"
      then ok (int (wrap64 (a +ℤ b)))
      else if str_eq op "-"
      then ok (int (wrap64 (a -ℤ b)))
      else if str_eq op "*"
      then ok (int (wrap64 (a *ℤ b)))
      else if str_eq op "/"
      then (if eqb_ℤ b (pos 0) then err runtime_panic else ok (int (quot64 a b)))
      else if str_eq op "%"
      then (if eqb_ℤ b (pos 0) then err runtime_panic else ok (int (rem64 a b)))
      else err (sql_err "0A000")

  unfoldable pub float_arithmetic : String → P.Float → P.Float → Result SqlError (Value P)
  float_arithmetic op a b =
      if str_eq op "+"
      then ok (float (P.float_add a b))
      else if str_eq op "-"
      then ok (float (P.float_sub a b))
      else if str_eq op "*"
      then ok (float (P.float_mul a b))
      else if str_eq op "/"
      then ok (float (P.float_div a b))
      else if str_eq op "%"
      then ok (float (P.float_mod a b))
      else err (sql_err "0A000")

  unfoldable pub compute :
      String → Value P → Value P → P.Float → P.Float → Result SqlError (Value P)
  compute op (int a) (int b) x y = int_arithmetic op a b
  compute op l r x y = float_arithmetic op x y

  unfoldable pub arithmetic : String → Value P → Value P → Result SqlError (Value P)
  arithmetic op l r = elim (as_float l) [
    | none ↦ err (sql_err "42883")
    | some a ↦ (elim (as_float r) [
      | none ↦ err (sql_err "42883")
      | some b ↦ if divides_by_zero P op b then err (sql_err "22012") else compute op l r a b
    ])
  ]

  -- The argument's position, none for a star.
  unfoldable pub aggregate_arg : JoinScope → Bool → OptExpr P → Result SqlError (Option ℕ)
  aggregate_arg sc true arg = ok none
  aggregate_arg sc false (an_expr (col_ref ref)) = resolve sc ref >>= λ p. ok (some p)
  aggregate_arg sc false arg = err (sql_err "42883")

  unfoldable pub eval_func : Context P → String → Bool → OptExpr P → Result SqlError (Value P)
  eval_func c name star arg =
      if str_eq name "now"
      then (elim c.group [ none ↦ ok (time c.clock) | some gc ↦ ok gc.now_val ])
      else if is_aggregate_func name
      then (elim c.group [
        | none ↦ err (sql_err "42883")
        | some gc ↦ aggregate_arg c.scope star arg >>= λ p. eval_aggregate name star gc.rows p
      ])
      else err (sql_err "42883")

  -- The strict operators: NULL where an operand is NULL.
  abbrev pub combine : String → Value P → Value P → Result SqlError (Value P)
  combine op l r = if is_null l || is_null r then ok null else arithmetic op l r

  unfoldable pub eval_value : Context P → Expr P → Row P → Result SqlError (Value P)
  eval_value c (lit v) row = ok v
  eval_value c (col_ref ref) row = resolve c.scope ref >>= λ i. cell_at row i
  eval_value c (func name star arg) row = eval_func c name star arg
  eval_value c (binary op l r) row = do
    a ← eval_value c l row
    b ← eval_value c r row
    combine op a b
  eval_value c e row = err (sql_err "0A000")

  -- The loop over an IN list: whether a literal matches, and whether a NULL came before it.
  unfoldable pub scan_list : Value P → Exprs P → Bool → Result SqlError (Bool × Bool)
  scan_list v no_exprs has_null = ok (false, has_null)
  scan_list v (more_exprs (lit w) es) has_null =
      let rest = scan_list v es has_null in
      if is_null w
      then scan_list v es true
      else if is_eq (compare_values v w)
      then ok (true, has_null)
      else rest
  scan_list v (more_exprs e es) has_null = err (sql_err "42601")

  -- A number is true where it is not zero.
  unfoldable pub value_truth : Value P → Result SqlError Truth
  value_truth null = ok unknown
  value_truth (bool b) = ok (known b)
  value_truth (int i) = ok (known (not (eqb_ℤ i (pos 0))))
  value_truth (float f) = ok (known (not (P.float_eq f (P.of_int (pos 0)))))
  value_truth v = err (sql_err "42883")

  -- A literal, where a number is no truth value.
  unfoldable pub literal_truth : Value P → Result SqlError Truth
  literal_truth (bool b) = ok (known b)
  literal_truth null = ok unknown
  literal_truth v = err (sql_err "42883")

  unfoldable pub eval_bool : Context P → Expr P → Row P → Result SqlError Truth
  eval_bool c (cmp op l r) row = do
    a ← eval_value c l row
    b ← eval_value c r row
    if is_null a || is_null b then ok unknown else cmp_truth op (compare_values a b)
  eval_bool c (is_null_test x neg) row = do
    v ← eval_value c x row
    ok (known (if neg then not (is_null v) else is_null v))
  eval_bool c (in_list x es neg) row = do
    v ← eval_value c x row
    if is_null v then ok unknown else scan_list v es false >>= λ m. ok (in_truth neg m)
  eval_bool c (and l r) row = do a ← eval_bool c l row; b ← eval_bool c r row; ok (and_truth a b)
  eval_bool c (or l r) row = do a ← eval_bool c l row; b ← eval_bool c r row; ok (or_truth a b)
  eval_bool c (not_expr x) row = do a ← eval_bool c x row; ok (not_truth a)
  eval_bool c (lit v) row = literal_truth v
  eval_bool c (binary op l r) row = do v ← eval_value c (binary op l r) row; value_truth v
  eval_bool c e row = err (sql_err "0A000")
