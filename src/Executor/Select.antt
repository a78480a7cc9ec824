-- ===== src/Executor/Select.antt =====
-- execSelect, resolveInSubqueries and derivedDef of internal/executor/executor.go.
pub mod Derived
pub mod Shape
use tsql.Base.{ℕ, zero, suc, ◌+◌, String, Bool, true, false, ◌||◌, not, Option, none, some}
use tsql.Base.{List, [], ◌∷◌, ◌++◌, any, map, find, length, ltb, ◌==◌, str_eq, if◌then◌else◌}
use tsql.Base.{Result, ok, err, ◌>>=◌, ◌>>◌, guard, take}
use tsql.Base.Int.{ℤ}
use tsql.Platform.{Platform}
use tsql.Types.{Value, null, int, float, text, bool, time, ColumnType}
use tsql.Types.{type_int, type_float, type_text, type_bool, type_timestamp}
use tsql.Schema.{Column, TableDef}
use tsql.Storage.Table.{Row}
use tsql.Executor.Expr.{SqlError, sql_err, runtime_panic, Expr, Exprs, lit, col_ref, func, cmp}
use tsql.Executor.Expr.{
  is_null_test, and, or, not_expr, binary, in_list, in_sub, no_exprs, more_exprs,
}
use tsql.Executor.Expr.{OptExpr, no_expr, an_expr, OrderTerms, Select, select}
use tsql.Executor.Expr.{TableRefs, no_tables, plain_table, derived_table}
use tsql.Executor.Scope.{JoinTable, JoinScope, col_index_map, validate_expr}
use tsql.Executor.Eval.{Context}
use tsql.Executor.ForeignKeys.{View}
use tsql.Executor.Catalog.{StatementError, reported}
use tsql.Executor.Plan.{FieldPlan, plan_fields, plan_order, group_positions, has_aggregate}
use tsql.Executor.Plan.{validate_having}
use tsql.Executor.Join.{Source, lifted, select_rows}
use tsql.Executor.Group.{Item, Group, limited, sort_keyed, group_rows, groups_only, or_empty_group}
use tsql.Executor.Group.{filter_groups, keyed_items, output_rows}

-- Result of a SELECT: Columns and Rows.
pub record Output (P : Platform) : Type 0 where
  pub columns : List String
  pub rows : List (Row P)

-- A Select whose subqueries have been run.
pub record Query (P : Platform) : Type 0 where
  pub tables : List (Source P)
  pub ons : Exprs P
  pub kinds : List String
  pub star : Bool
  pub fields : Exprs P
  pub aliases : List String
  pub filter : OptExpr P
  pub group : Exprs P
  pub having : OptExpr P
  pub order : OrderTerms P
  pub limit : Option ℤ

-- What execSelect has worked out before it reads a row.
pub record Plan (P : Platform) : Type 0 where
  pub scope : JoinScope
  pub grouping : Bool
  pub groups : List ℕ
  pub fields : List (FieldPlan P × String)
  pub orders : List (FieldPlan P × Bool)

unfoldable pub table_def_of : String → List TableDef → Result SqlError TableDef
table_def_of name [] = err (sql_err "42P01")
table_def_of name (d ∷ ds) =
    let rest = table_def_of name ds in if str_eq d.name name then ok d else rest

abbrev pub joined_table : TableDef → String → ℕ → JoinTable
joined_table def alias base = record {
  def = def;
  alias = alias;
  base_pos = base;
  col_idx = col_index_map def;
}

abbrev pub derived_column : String → ColumnType → Column
derived_column name ct = record {
  name = name;
  type = ct;
  not_null = false;
  primary = false;
  auto_inc = false;
  unique = false;
  fk_table = "";
  fk_col = "";
}

module _ {P : Platform} where
  abbrev pub has_expr : OptExpr P → Bool
  has_expr no_expr = false
  has_expr (an_expr e) = true

  unfoldable pub inferred_type : Value P → ColumnType
  inferred_type (int i) = type_int
  inferred_type (float f) = type_float
  inferred_type (bool b) = type_bool
  inferred_type (time t) = type_timestamp
  inferred_type v = type_text

  -- The columns of derivedDef, from the headers and the first row if there is one.
  unfoldable pub derived_cols : List String → Option (Row P) → Result SqlError (List Column)
  derived_cols [] row = ok []
  derived_cols (h ∷ hs) none = do
    rest ← derived_cols hs none
    ok (derived_column h type_text ∷ rest)
  derived_cols (h ∷ hs) (some []) = err runtime_panic
  derived_cols (h ∷ hs) (some (v ∷ vs)) = do
    rest ← derived_cols hs (some vs)
    ok (derived_column h (inferred_type v) ∷ rest)

  abbrev pub first_row : List (Row P) → Option (Row P)
  first_row [] = none
  first_row (r ∷ rs) = some r

  unfoldable pub derived_def : String → Output P → Result SqlError TableDef
  derived_def alias res = do
    cols ← derived_cols res.columns (first_row res.rows)
    ok (record { name = alias; cols = cols })

  -- `res.Rows`, which is nil where no row was appended.
  abbrev pub carried : List (Row P) → Option (List (Row P))
  carried [] = none
  carried (r ∷ rs) = some (r ∷ rs)

  -- Each ON is checked against the tables up to the one that it joins.
  unfoldable pub validate_ons : JoinScope → ℕ → Exprs P → Result SqlError (Unit {0})
  validate_ons sc n no_exprs = ok tt
  validate_ons sc n (more_exprs e es) = validate_expr (take n sc) e >> validate_ons sc (suc n) es

  abbrev pub validate_opt : JoinScope → OptExpr P → Result SqlError (Unit {0})
  validate_opt sc no_expr = ok tt
  validate_opt sc (an_expr e) = validate_expr sc e

  abbrev pub validate_group : JoinScope → List ℕ → OptExpr P → Result SqlError (Unit {0})
  validate_group sc groups no_expr = ok tt
  validate_group sc groups (an_expr e) = validate_having sc groups e

  unfoldable pub plan_query : Query P → Result SqlError (Plan P)
  plan_query q = do
    let sc : JoinScope = map (λ s. s.0) q.tables
    u ← validate_ons sc 2 q.ons
    v ← validate_opt sc q.filter
    groups ← group_positions sc q.group
    let grouping = ltb 0 (length groups) || has_aggregate q.fields || has_expr q.having
    w ← validate_group sc groups q.having
    fields ← plan_fields sc grouping groups q.star q.fields q.aliases
    orders ← plan_order sc grouping groups q.order
    ok (record {
      scope = sc;
      grouping = grouping;
      groups = groups;
      fields = fields;
      orders = orders;
    })

  abbrev pub row_items : List (Row P) → List (Item P)
  row_items rows = map (λ r. (r, none)) rows

  abbrev pub group_items : List (Group P) → List (Item P)
  group_items gs = map (λ g. (g.repr, some g.rows)) gs

  -- The rows as they are, or their groups that HAVING keeps.
  unfoldable pub result_items :
      Context P → Plan P → OptExpr P → List (Row P) → Result SqlError (List (Item P))
  result_items c p having rows =
      if p.grouping
      then (do
        gs ← group_rows p.groups rows []
        kept ← filter_groups c having (or_empty_group p.groups (groups_only gs))
        ok (group_items kept))
      else ok (row_items rows)

  -- ORDER BY, LIMIT and the output, of rows or of groups.
  unfoldable pub finish_query :
      Context P → Plan P → Option ℤ → List (Item P) → Result SqlError (Output P)
  finish_query c p limit items = do
    keyed ← keyed_items c (map (λ o. o.0) p.orders) items
    kept ← limited limit (map (λ k. k.1) (sort_keyed (map (λ o. o.1) p.orders) keyed))
    out ← output_rows c (map (λ f. f.0) p.fields) kept
    ok (record { columns = map (λ f. f.1) p.fields; rows = out })

  -- execSelect behind its subqueries; `now` is what the clock shows while the statement runs.
  unfoldable pub run_query : View P → P.Time → Query P → Result StatementError (Output P)
  run_query view now q = do
    p ← lifted (plan_query q)
    let c : Context P = record { scope = p.scope; group = none; clock = now }
    rows ← select_rows view c q.tables q.ons q.kinds q.filter
    items ← lifted (result_items c p q.having rows)
    lifted (finish_query c p q.limit items)

  -- The literals of the only column of a subquery's rows.
  unfoldable pub first_cells : List (Row P) → Result SqlError (Exprs P)
  first_cells [] = ok no_exprs
  first_cells ([] ∷ rs) = err runtime_panic
  first_cells ((v ∷ vs) ∷ rs) = first_cells rs >>= λ es. ok (more_exprs (lit v) es)

  abbrev pub in_results : Expr P → Bool → Output P → Result SqlError (Expr P)
  in_results x neg res =
      if not (length res.columns == 1)
      then err (sql_err "42601")
      else (first_cells res.rows >>= λ es. ok (in_list x es neg))

  -- A table of a FROM clause, in front of the ones behind it.
  abbrev pub with_table :
      TableDef
      → String
      → ℕ
      → List String
      → Option (List (Row P))
      → Result StatementError (List (Source P))
      → Result StatementError (List (Source P))
  with_table def alias base seen rows rest =
      if any (str_eq alias) seen
      then err (reported (sql_err "42703"))
      else (rest >>= λ ts. ok ((joined_table def alias base, rows) ∷ ts))

unfoldable mutual
  pub exec_select : {P : Platform} → View P → P.Time → Select P → Result StatementError (Output P)
  exec_select view now (select ts ons kinds star fields aliases w group having order limit) = do
    tables ← from_tables view now ts 0 []
    w2 ← resolve_opt view now w
    having2 ← resolve_opt view now having
    ons2 ← resolve_each view now ons
    run_query view now (record {
      tables = tables;
      ons = ons2;
      kinds = kinds;
      star = star;
      fields = fields;
      aliases = aliases;
      filter = w2;
      group = group;
      having = having2;
      order = order;
      limit = limit;
    })

  -- The loop over the FROM clause, from a column position on and with the aliases seen.
  pub from_tables :
      {P : Platform}
      → View P
      → P.Time
      → TableRefs P
      → ℕ
      → List String
      → Result StatementError (List (Source P))
  from_tables view now no_tables base seen = ok []
  from_tables view now (plain_table name alias ts) base seen = do
    def ← lifted (table_def_of name view.catalog)
    with_table def alias base seen none
        (from_tables view now ts (base + length def.cols) (alias ∷ seen))
  from_tables view now (derived_table name alias sub ts) base seen = do
    res ← exec_select view now sub
    def ← lifted (derived_def alias res)
    with_table def alias base seen (carried res.rows)
        (from_tables view now ts (base + length def.cols) (alias ∷ seen))

  -- resolveInSubqueries
  pub resolve_in : {P : Platform} → View P → P.Time → Expr P → Result StatementError (Expr P)
  resolve_in view now (in_sub x sub neg) = do
    res ← exec_select view now sub
    lifted (in_results x neg res)
  resolve_in view now (cmp op l r) = do
    a ← resolve_in view now l
    b ← resolve_in view now r
    ok (cmp op a b)
  resolve_in view now (and l r) = do
    a ← resolve_in view now l
    b ← resolve_in view now r
    ok (and a b)
  resolve_in view now (or l r) = do
    a ← resolve_in view now l
    b ← resolve_in view now r
    ok (or a b)
  resolve_in view now (not_expr x) = do a ← resolve_in view now x; ok (not_expr a)
  resolve_in view now (is_null_test x neg) = do a ← resolve_in view now x; ok (is_null_test a neg)
  resolve_in view now (binary op l r) = do
    a ← resolve_in view now l
    b ← resolve_in view now r
    ok (binary op a b)
  resolve_in view now (in_list x es neg) = do a ← resolve_in view now x; ok (in_list a es neg)
  resolve_in view now e = ok e

  pub resolve_opt : {P : Platform} → View P → P.Time → OptExpr P → Result StatementError (OptExpr P)
  resolve_opt view now no_expr = ok no_expr
  resolve_opt view now (an_expr e) = do a ← resolve_in view now e; ok (an_expr a)

  pub resolve_each : {P : Platform} → View P → P.Time → Exprs P → Result StatementError (Exprs P)
  resolve_each view now no_exprs = ok no_exprs
  resolve_each view now (more_exprs e es) = do
    a ← resolve_in view now e
    rest ← resolve_each view now es
    ok (more_exprs a rest)
