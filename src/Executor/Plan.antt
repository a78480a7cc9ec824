-- ===== src/Executor/Plan.antt =====
-- planFields, validateAggregate, validateHaving and the ORDER BY plan of internal/executor/executor.go.
use Prim.Native.String.{◌++◌ as join_text}
use tsql.Base.{
  ℕ, zero, suc, ◌+◌, ◌-◌, String, Bool, true, false, ◌&&◌, ◌||◌, not, Option, none, some,
}
use tsql.Base.{List, [], ◌∷◌, ◌++◌, any, length, ltb, leb, ◌==◌, str_eq, if◌then◌else◌}
use tsql.Base.{Result, ok, err, ◌>>=◌, ◌>>◌, guard}
use tsql.Platform.{Platform}
use tsql.Schema.{Column}
use tsql.Executor.Expr.{SqlError, sql_err, Expr, Exprs, lit, col_ref, func, cmp}
use tsql.Executor.Expr.{
  is_null_test, and, or, not_expr, binary, in_list, in_sub, no_exprs, more_exprs,
}
use tsql.Executor.Expr.{OptExpr, an_expr, OrderTerms, no_order, order_term, is_aggregate_func}
use tsql.Executor.Scope.{JoinScope, resolve, validate_expr, all_literals}

-- fieldPlan: a position of the joined row, an aggregate with its argument's position (none for
-- -1), its name and its star, now(), or an expression.
pub data FieldPlan (P : Platform) : Type 0 where
  field_col : ℕ → FieldPlan P
  field_agg : Option ℕ → String → Bool → FieldPlan P
  field_now : FieldPlan P
  field_expr : Expr P → FieldPlan P

unfoldable pub has_pos : List ℕ → ℕ → Bool
has_pos ps p = any (λ q. q == p) ps

abbrev pub col_name_at : List Column → ℕ → String
col_name_at [] i = "?"
col_name_at (c ∷ cs) zero = c.name
col_name_at (c ∷ cs) (suc i) = col_name_at cs i

-- The loop of headerAt; `single` says that the scope has one table.
unfoldable pub header_from : Bool → JoinScope → ℕ → String
header_from single [] p = "?"
header_from single (t ∷ ts) p =
    let rest = header_from single ts p in
    if leb t.base_pos p && ltb p (t.base_pos + length t.def.cols)
    then (let name = col_name_at t.def.cols (p - t.base_pos) in
        if single then name else join_text t.alias (join_text "." name))
    else rest

unfoldable pub header_at : JoinScope → ℕ → String
header_at sc p = header_from (length sc == 1) sc p

abbrev pub named : String → String → String
named alias h = if str_eq alias "" then h else alias

abbrev pub alias_of : List String → String
alias_of [] = ""
alias_of (a ∷ rest) = a

abbrev pub other_aliases : List String → List String
other_aliases [] = []
other_aliases (a ∷ rest) = rest

module _ {P : Platform} where
  unfoldable pub validate_aggregate :
      JoinScope → String → Bool → OptExpr P → Result SqlError (Option ℕ)
  validate_aggregate sc name true arg =
      if str_eq name "count" then ok none else err (sql_err "42883")
  validate_aggregate sc name false (an_expr (col_ref ref)) = resolve sc ref >>= λ p. ok (some p)
  validate_aggregate sc name false arg = err (sql_err "42883")

  unfoldable pub agg_header : String → Bool → OptExpr P → String
  agg_header name true arg = join_text name "(*)"
  agg_header name false (an_expr (col_ref ref)) =
      if str_eq ref.table ""
      then join_text name (join_text "(" (join_text ref.name ")"))
      else join_text name
          (join_text "(" (join_text ref.table (join_text "." (join_text ref.name ")"))))
  agg_header name false arg = join_text name "(?)"

  -- The fields of `*`, each with its header.
  unfoldable pub star_cols : JoinScope → ℕ → List Column → List (FieldPlan P × String)
  star_cols sc p [] = []
  star_cols sc p (c ∷ cs) = (field_col p, header_at sc p) ∷ star_cols sc (suc p) cs

  unfoldable pub star_fields : JoinScope → JoinScope → List (FieldPlan P × String)
  star_fields sc [] = []
  star_fields sc (t ∷ ts) = star_cols sc t.base_pos t.def.cols ++ star_fields sc ts

  -- One field of the list; `groups` holds the positions of GROUP BY.
  unfoldable pub plan_field :
      JoinScope → Bool → List ℕ → String → Expr P → Result SqlError (FieldPlan P × String)
  plan_field sc grouping groups alias (col_ref ref) = do
    p ← resolve sc ref
    u ← guard (not (grouping && not (has_pos groups p))) (sql_err "42803")
    ok (field_col p, named alias (header_at sc p))
  plan_field sc grouping groups alias (func name star arg) =
      if str_eq name "now"
      then ok (field_now, named alias "now()")
      else if is_aggregate_func name
      then (do
        u ← guard grouping (sql_err "42803")
        p ← validate_aggregate sc name star arg
        ok (field_agg p name star, named alias (agg_header name star arg)))
      else err (sql_err "42883")
  plan_field sc grouping groups alias e = do
    u ← guard (not grouping) (sql_err "42803")
    v ← validate_expr sc e
    ok (field_expr e, named alias "expr")

  unfoldable pub plan_list :
      JoinScope
      → Bool
      → List ℕ
      → Exprs P
      → List String
      → Result SqlError (List (FieldPlan P × String))
  plan_list sc grouping groups no_exprs aliases = ok []
  plan_list sc grouping groups (more_exprs e es) aliases = do
    f ← plan_field sc grouping groups (alias_of aliases) e
    rest ← plan_list sc grouping groups es (other_aliases aliases)
    ok (f ∷ rest)

  unfoldable pub plan_fields :
      JoinScope
      → Bool
      → List ℕ
      → Bool
      → Exprs P
      → List String
      → Result SqlError (List (FieldPlan P × String))
  plan_fields sc grouping groups true fields aliases =
      if grouping then err (sql_err "42803") else ok (star_fields sc sc)
  plan_fields sc grouping groups false fields aliases = plan_list sc grouping groups fields aliases

  -- The positions of GROUP BY.
  unfoldable pub group_positions : JoinScope → Exprs P → Result SqlError (List ℕ)
  group_positions sc no_exprs = ok []
  group_positions sc (more_exprs (col_ref ref) es) = do
    p ← resolve sc ref
    ps ← group_positions sc es
    ok (p ∷ ps)
  group_positions sc (more_exprs e es) = err (sql_err "42601")

  unfoldable pub has_aggregate : Exprs P → Bool
  has_aggregate no_exprs = false
  has_aggregate (more_exprs (func name star arg) es) = is_aggregate_func name || has_aggregate es
  has_aggregate (more_exprs e es) = has_aggregate es

  unfoldable pub validate_having : JoinScope → List ℕ → Expr P → Result SqlError (Unit {0})
  validate_having sc groups (lit v) = ok tt
  validate_having sc groups (col_ref ref) =
      resolve sc ref >>= λ p. guard (has_pos groups p) (sql_err "42803")
  validate_having sc groups (func name star arg) =
      if str_eq name "now"
      then ok tt
      else if is_aggregate_func name
      then (validate_aggregate sc name star arg >>= λ p. ok tt)
      else err (sql_err "42883")
  validate_having sc groups (cmp op l r) =
      validate_having sc groups l >> validate_having sc groups r
  validate_having sc groups (is_null_test x neg) = validate_having sc groups x
  validate_having sc groups (and l r) = validate_having sc groups l >> validate_having sc groups r
  validate_having sc groups (or l r) = validate_having sc groups l >> validate_having sc groups r
  validate_having sc groups (not_expr x) = validate_having sc groups x
  validate_having sc groups (binary op l r) =
      validate_having sc groups l >> validate_having sc groups r
  validate_having sc groups (in_list x es neg) = validate_having sc groups x >> all_literals es
  validate_having sc groups (in_sub x sub neg) = validate_having sc groups x

  -- An ORDER BY term of a grouped query.
  unfoldable pub group_order : JoinScope → List ℕ → Expr P → Result SqlError (FieldPlan P)
  group_order sc groups (col_ref ref) = do
    p ← resolve sc ref
    u ← guard (has_pos groups p) (sql_err "42803")
    ok (field_col p)
  group_order sc groups (func name star arg) =
      if str_eq name "now"
      then ok field_now
      else if is_aggregate_func name
      then (validate_aggregate sc name star arg >>= λ p. ok (field_agg p name star))
      else err (sql_err "42883")
  group_order sc groups (lit v) = ok (field_expr (lit v))
  group_order sc groups e = err (sql_err "42803")

  unfoldable pub row_order : JoinScope → Expr P → Result SqlError (FieldPlan P)
  row_order sc (col_ref ref) =
      validate_expr {P = P} sc (col_ref ref) >> (resolve sc ref >>= λ p. ok (field_col p))
  row_order sc e = validate_expr sc e >> ok (field_expr e)

  -- The ORDER BY plan, each term with its DESC.
  unfoldable pub plan_order :
      JoinScope → Bool → List ℕ → OrderTerms P → Result SqlError (List (FieldPlan P × Bool))
  plan_order sc grouping groups no_order = ok []
  plan_order sc grouping groups (order_term e desc os) = do
    f ← (if grouping then group_order sc groups e else row_order sc e)
    rest ← plan_order sc grouping groups os
    ok ((f, desc) ∷ rest)
