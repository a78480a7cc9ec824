-- ===== src/Executor/Group.antt =====
-- The ordering, grouping and output of a SELECT in internal/executor/executor.go.
pub mod Order
pub mod Sorting
use Prim.Native.String.{◌++◌ as join_text}
use tsql.Base.{ℕ, String, Bool, true, false, not, Option, none, some, Ordering}
use tsql.Base.{List, [], ◌∷◌, ◌++◌, take, str_eq, if◌then◌else◌, Result, ok, err, ◌>>=◌}
use tsql.Base.Int.{ℤ, pos, negsuc}
use tsql.Base.Decimal.{format_int}
use tsql.Platform.{Platform}
use tsql.Types.{Value, null, int, float, text, bool, time, compare_values}
use tsql.Storage.Table.{Row}
use tsql.Executor.Expr.{SqlError, sql_err, runtime_panic, Expr, OptExpr, no_expr, an_expr}
use tsql.Executor.Scope.{JoinScope}
use tsql.Executor.Aggregate.{cell_at, eval_aggregate}
use tsql.Executor.Eval.{GroupCtx, Context, eval_value, eval_bool}
use tsql.Executor.Plan.{FieldPlan, field_col, field_agg, field_now, field_expr}
use tsql.Executor.Join.{is_true}

-- grp: the first row of a group, and its rows.
pub record Group (P : Platform) : Type 0 where
  pub repr : Row P
  pub rows : List (Row P)

-- A row or a group of a result: the row that the plans read, and the rows of the group.
abbrev pub Item : Platform → Type 0
Item P = Row P × Option (List (Row P))

-- `xs[:limit]` where there are more than `limit` items; a negative limit panics.
abbrev pub limited : {A : Type 0} → Option ℤ → List A → Result SqlError (List A)
limited none xs = ok xs
limited (some (pos n)) xs = ok (take n xs)
limited (some (negsuc n)) xs = err runtime_panic

module _ {P : Platform} where
  -- Whether the keys of one row come before those of another; a DESC key is turned round.
  unfoldable pub keys_less : List Bool → List (Value P) → List (Value P) → Bool
  keys_less (desc ∷ ds) (a ∷ ks) (b ∷ ls) = elim (compare_values a b) [
    | Ordering.lt ↦ not desc
    | Ordering.eq ↦ keys_less ds ks ls
    | Ordering.gt ↦ desc
  ]
  keys_less ds ks ls = false

  -- sort.SliceStable by the keys: an insertion behind the items that come before it. Any stable sort
  -- gives this list where the order is transitive; with a NaN among the keys it is not.
  unfoldable pub insert_keyed :
      {A : Type 0}
      → List Bool
      → List (Value P) × A
      → List (List (Value P) × A)
      → List (List (Value P) × A)
  insert_keyed ds x [] = x ∷ []
  insert_keyed ds x (y ∷ ys) = if keys_less ds y.0 x.0 then y ∷ insert_keyed ds x ys else x ∷ y ∷ ys

  unfoldable pub sort_keyed :
      {A : Type 0} → List Bool → List (List (Value P) × A) → List (List (Value P) × A)
  sort_keyed ds [] = []
  sort_keyed ds (x ∷ xs) = insert_keyed ds x (sort_keyed ds xs)

  -- The switch on a plan's kind, over a row alone or over a group's first row and its rows.
  unfoldable pub plan_cell :
      Context P → Option (List (Row P)) → FieldPlan P → Row P → Result SqlError (Value P)
  plan_cell c group (field_col p) row = cell_at row p
  plan_cell c none (field_agg p name star) row = err (sql_err "0A000")
  plan_cell c (some rows) (field_agg p name star) row = eval_aggregate name star rows p
  plan_cell c group field_now row = ok (time c.clock)
  plan_cell c group (field_expr e) row = eval_value c e row

  -- The cells of one output row, or the sort keys of one row.
  unfoldable pub plan_cells :
      Context P
      → Option (List (Row P))
      → List (FieldPlan P)
      → Row P
      → Result SqlError (List (Value P))
  plan_cells c group [] row = ok []
  plan_cells c group (f ∷ fs) row = do
    v ← plan_cell c group f row
    vs ← plan_cells c group fs row
    ok (v ∷ vs)

  -- valKeyPart
  unfoldable pub val_key_part : Value P → String
  val_key_part (int i) = join_text "i" (format_int i)
  val_key_part (float f) = join_text "f" (P.format_float f)
  val_key_part (text s) = join_text "s" (P.quote s)
  val_key_part (bool b) = if b then "b1" else "b0"
  val_key_part (time t) = join_text "t" (format_int (P.unix_nano t))
  val_key_part null = "n"

  -- The key of a row's group: each part with a zero byte behind it.
  unfoldable pub group_key : List ℕ → Row P → Result SqlError String
  group_key [] row = ok ""
  group_key (p ∷ ps) row = do
    v ← cell_at row p
    rest ← group_key ps row
    ok (join_text (val_key_part v) (join_text "\0" rest))

  -- A row joins its group, or opens one behind the others.
  unfoldable pub add_to_groups : String → Row P → List (String × Group P) → List (String × Group P)
  add_to_groups key row [] = (key, record { repr = row; rows = row ∷ [] }) ∷ []
  add_to_groups key row ((k, g) ∷ gs) =
      if str_eq k key
      then (k, record g { rows = g.rows ++ row ∷ [] }) ∷ gs
      else (k, g) ∷ add_to_groups key row gs

  unfoldable pub group_rows :
      List ℕ → List (Row P) → List (String × Group P) → Result SqlError (List (String × Group P))
  group_rows ps [] gs = ok gs
  group_rows ps (row ∷ rows) gs = do
    key ← group_key ps row
    group_rows ps rows (add_to_groups key row gs)

  abbrev pub groups_only : List (String × Group P) → List (Group P)
  groups_only [] = []
  groups_only ((k, g) ∷ gs) = g ∷ groups_only gs

  -- Aggregates with no GROUP BY over no rows have one empty group.
  abbrev pub or_empty_group : List ℕ → List (Group P) → List (Group P)
  or_empty_group [] [] = record { repr = []; rows = [] } ∷ []
  or_empty_group ps gs = gs

  abbrev pub test_group : Context P → OptExpr P → Group P → Result SqlError Bool
  test_group c no_expr g = ok true
  test_group c (an_expr e) g =
      let ctx : GroupCtx P = record { rows = g.rows; now_val = time c.clock } in
      eval_bool (record c { group = some ctx }) e g.repr >>= λ b. ok (is_true b)

  -- HAVING
  unfoldable pub filter_groups :
      Context P → OptExpr P → List (Group P) → Result SqlError (List (Group P))
  filter_groups c h [] = ok []
  filter_groups c h (g ∷ gs) = do
    b ← test_group c h g
    rest ← filter_groups c h gs
    ok (if b then g ∷ rest else rest)

  unfoldable pub keyed_items :
      Context P
      → List (FieldPlan P)
      → List (Item P)
      → Result SqlError (List (List (Value P) × Item P))
  keyed_items c fs [] = ok []
  keyed_items c fs ((row, group) ∷ items) = do
    ks ← plan_cells c group fs row
    rest ← keyed_items c fs items
    ok ((ks, (row, group)) ∷ rest)

  unfoldable pub output_rows :
      Context P → List (FieldPlan P) → List (Item P) → Result SqlError (List (Row P))
  output_rows c fs [] = ok []
  output_rows c fs ((row, group) ∷ items) = do
    out ← plan_cells c group fs row
    rest ← output_rows c fs items
    ok (out ∷ rest)
