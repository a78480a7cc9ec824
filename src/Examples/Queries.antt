-- ===== src/Examples/Queries.antt =====
-- The theorems on SELECT at concrete inputs.
use tsql.Base.{
  ℕ, ◌≡◌, refl, arith, String, Bool, true, false, ◌&&◌, str_eq, if◌then◌else◌, Option, none, some,
}
use tsql.Base.{List, [], ◌∷◌, ◌++◌, find, any, length, take, All, Result, ok, err}
use tsql.Base.Int.{pos}
use tsql.Base.{◌≤◌, ◌<◌, sym, arith, inl, inr, Bool-cases, ltb, Ordering}
use mathlib.Core.Path.{subst}
use tsql.Types.{Value, int, float, compare_floats, text, bool, null, compare_values}
use tsql.Storage.Table.{Row}
use tsql.Storage.Engine.{StorageError, no_table}
use mathlib.Core.List.{Perm}
use tsql.Executor.Expr.{Expr, lit, col_ref, cmp, no_exprs, more_exprs, OptExpr, no_expr, an_expr}
use tsql.Executor.Expr.{Select, select, no_tables, plain_table, no_order, order_term}
use tsql.Executor.Scope.{JoinScope, single_table_scope}
use tsql.Executor.Eval.{Context}
use tsql.Executor.ForeignKeys.{engine_view}
use tsql.Executor.Catalog.{passed_on}
use tsql.Executor.Join.{join_rows, filter_rows}
use tsql.Executor.Join.Product.{product, HasFront, join_rows-product, join_rows-HasFront}
use tsql.Executor.Group.{sort_keyed}
use tsql.Executor.Group.Order.{Before, IsInOrder, IsTransitive, AreTied}
use tsql.Executor.Group.Sorting.{IsSorted, with_keys, sort_keyed-IsSorted}
use tsql.Base.{◌==◌, ==_iff, ap}
use tsql.Executor.Select.{Output, exec_select}
use tsql.Executor.Select.Shape.{IsShaped, exec_select-IsShaped}
use tsql.Executor.Select.Derived.{select_all_from, exec_select_empty_derived}
use tsql.Examples.Host.{host}
use tsql.Examples.Values.{host-IsAsymmetric}
use tsql.Examples.Sessions.{engine, items}

abbrev id_ref : Expr host
id_ref = col_ref (record { table = ""; name = "id" })

-- SELECT label FROM items WHERE .. ORDER BY id DESC LIMIT 1
abbrev labels : OptExpr host → Select host
labels w =
    select (plain_table "items" "items" no_tables) no_exprs [] false
      (more_exprs (col_ref (record { table = ""; name = "label" })) no_exprs) [] w no_exprs no_expr
      (order_term id_ref true no_order) (some (pos 1))

abbrev last_label : Output host
last_label = record { columns = "label" ∷ []; rows = (text "b" ∷ []) ∷ [] }

last_selected : exec_select (engine_view engine) 0 (labels no_expr) ≡ ok last_label
unfolding exec_select engine_view any tsql.Executor.Select.table_def_of
    tsql.Executor.Select.run_query tsql.Executor.Select.plan_query tsql.Executor.Select.validate_ons
    tsql.Executor.Plan.group_positions tsql.Executor.Plan.has_aggregate
    tsql.Executor.Plan.plan_fields tsql.Executor.Plan.plan_list tsql.Executor.Plan.plan_field
    tsql.Executor.Plan.header_at tsql.Executor.Plan.header_from tsql.Executor.Plan.plan_order
    tsql.Executor.Plan.row_order tsql.Executor.Scope.resolve tsql.Executor.Scope.positions
    tsql.Executor.Scope.validate_expr tsql.Executor.Scope.col_index_map
    tsql.Executor.Scope.index_cols tsql.Base.Assoc.lookup tsql.Base.Assoc.insert
    tsql.Executor.Join.select_rows tsql.Executor.Join.unique_equality
    tsql.Executor.Join.collect_joined tsql.Executor.Join.load_sources tsql.Executor.Join.join_tables
    filter_rows tsql.Executor.Join.test_row tsql.Executor.Eval.eval_bool
    tsql.Executor.Eval.literal_truth tsql.Executor.Select.result_items
    tsql.Executor.Select.finish_query tsql.Executor.Group.keyed_items tsql.Executor.Group.plan_cells
    tsql.Executor.Group.plan_cell tsql.Executor.Aggregate.cell_at sort_keyed
    tsql.Executor.Group.insert_keyed tsql.Executor.Group.keys_less compare_values
    tsql.Executor.Group.output_rows tsql.Storage.Txn.all_rows tsql.Storage.Engine.find_table find
    tsql.Storage.Txn.sort_rows tsql.Storage.Txn.insert_row
last_selected = refl

exec_select-IsShaped_example : IsShaped (some (pos 1)) last_label
exec_select-IsShaped_example =
    exec_select-IsShaped (engine_view engine) 0 (labels no_expr) last_label last_selected

-- A condition that is false for every row.
abbrev nobody : OptExpr host
nobody = an_expr (lit (bool false))

none_selected :
    exec_select (engine_view engine) 0 (labels nobody)
    ≡ ok (record { columns = "label" ∷ []; rows = [] })
unfolding exec_select engine_view any tsql.Executor.Select.table_def_of
    tsql.Executor.Select.run_query tsql.Executor.Select.plan_query tsql.Executor.Select.validate_ons
    tsql.Executor.Plan.group_positions tsql.Executor.Plan.has_aggregate
    tsql.Executor.Plan.plan_fields tsql.Executor.Plan.plan_list tsql.Executor.Plan.plan_field
    tsql.Executor.Plan.header_at tsql.Executor.Plan.header_from tsql.Executor.Plan.plan_order
    tsql.Executor.Plan.row_order tsql.Executor.Scope.resolve tsql.Executor.Scope.positions
    tsql.Executor.Scope.validate_expr tsql.Executor.Scope.col_index_map
    tsql.Executor.Scope.index_cols tsql.Base.Assoc.lookup tsql.Base.Assoc.insert
    tsql.Executor.Join.select_rows tsql.Executor.Join.unique_equality
    tsql.Executor.Join.collect_joined tsql.Executor.Join.load_sources tsql.Executor.Join.join_tables
    filter_rows tsql.Executor.Join.test_row tsql.Executor.Eval.eval_bool
    tsql.Executor.Eval.literal_truth tsql.Executor.Select.result_items
    tsql.Executor.Select.finish_query tsql.Executor.Group.keyed_items tsql.Executor.Group.plan_cells
    tsql.Executor.Group.plan_cell tsql.Executor.Aggregate.cell_at sort_keyed
    tsql.Executor.Group.insert_keyed tsql.Executor.Group.keys_less compare_values
    tsql.Executor.Group.output_rows tsql.Storage.Txn.all_rows tsql.Storage.Engine.find_table find
    tsql.Storage.Txn.sort_rows tsql.Storage.Txn.insert_row
none_selected = refl

no_x : (engine_view engine).rows "x" ≡ err no_table
unfolding engine_view tsql.Storage.Txn.all_rows tsql.Storage.Engine.find_table
no_x = refl

exec_select_empty_derived_example :
    exec_select (engine_view engine) 0 (select_all_from "x" (labels nobody))
    ≡ err (passed_on no_table)
exec_select_empty_derived_example =
    exec_select_empty_derived (engine_view engine) 0 "x" (labels nobody) ("label" ∷ []) no_table
      none_selected no_x

abbrev descending : List Bool
descending = true ∷ []

abbrev key : ℕ → List (Value host)
key n = float (pos n) ∷ []

abbrev IsKey : List (Value host) → Type 0
IsKey ks = (n : ℕ) × (ks ≡ key n)

greater :
    (m n : ℕ) → m < n → compare_values {P = host} (float (pos n)) (float (pos m)) ≡ Ordering.gt
unfolding compare_values compare_floats
greater m n h = ground (arith, h)

not_greater :
    (m n : ℕ) → n ≤ m → compare_values {P = host} (float (pos n)) (float (pos m)) ≡ Ordering.gt → ⊥
unfolding compare_values compare_floats
not_greater m n h k = ground (arith, h, k)

bounded : (m n : ℕ) → IsInOrder descending (key m) (key n) → n ≤ m
unfolding Before
bounded m n h = elim (Bool-cases (ltb m n)) [
  | inl q ↦ absurd (h (inl (greater m n (ground (arith, q)))))
  | inr q ↦ ground (arith, q)
]

in_order : (m n : ℕ) → n ≤ m → IsInOrder descending (key m) (key n)
unfolding Before
in_order m n h (inl e) = not_greater m n h e
in_order m n h (inr (e, x)) = x

IsKey-IsTransitive : IsTransitive descending IsKey
IsKey-IsTransitive a b c (m, e) (n, f) (k, g) ab bc =
    let first =
      subst (λ z. IsInOrder descending (key m) z) f (subst (λ z. IsInOrder descending z b) e ab) in
    let second =
      subst (λ z. IsInOrder descending (key n) z) g (subst (λ z. IsInOrder descending z c) f bc) in
    let both = in_order m k (omega (arith, bounded m n first, bounded n k second)) in
    subst (λ z. IsInOrder descending z c) (sym e)
      (subst (λ z. IsInOrder descending (key m) z) (sym g) both)

abbrev keyed : List (List (Value host) × ℕ)
keyed = (key 1, 10) ∷ (key 2, 21) ∷ (key 3, 30) ∷ (key 2, 20) ∷ []

abbrev is_two : List (Value host) → Bool
is_two (float (pos n) ∷ []) = n == 2
is_two ks = false

is_two-key : (ks : List (Value host)) → is_two ks ≡ true → ks ≡ key 2
is_two-key (float (pos n) ∷ []) h = ap key ((==_iff n 2).0 h)
is_two-key ks h = cc

is_two-AreTied : AreTied descending is_two
is_two-AreTied ks ls h k b = in_order 2 2 (omega arith) (
    subst (λ z. Before descending z (key 2)) (is_two-key ks h)
      (subst (λ z. Before descending ks z) (is_two-key ls k) b))

sort_keyed-IsSorted_example :
    Perm (sort_keyed descending keyed) keyed
    × IsSorted descending (sort_keyed descending keyed)
    × (with_keys is_two (sort_keyed descending keyed) ≡ with_keys is_two keyed)
sort_keyed-IsSorted_example =
    sort_keyed-IsSorted IsKey host-IsAsymmetric descending keyed is_two IsKey-IsTransitive
      ((1, refl), ((2, refl), ((3, refl), ((2, refl), tt)))) is_two-AreTied

abbrev context : Context host
context = record { scope = single_table_scope items; group = none; clock = 0 }

-- id = 1
abbrev on_one : Expr host
on_one = cmp "=" id_ref (lit (int (pos 1)))

abbrev lefts : List (Row host)
lefts = (int (pos 1) ∷ []) ∷ (int (pos 2) ∷ []) ∷ []

abbrev rights : List (Row host)
rights = (text "a" ∷ []) ∷ []

join_rows-product_example :
    join_rows context on_one false 1 lefts rights
    ≡ filter_rows context (an_expr on_one) (product lefts rights)
join_rows-product_example = join_rows-product context on_one 1 lefts rights

abbrev joined : List (Row host)
joined = (int (pos 1) ∷ text "a" ∷ []) ∷ (int (pos 2) ∷ null ∷ []) ∷ []

left_joined : join_rows context on_one true 1 lefts rights ≡ ok joined
unfolding join_rows filter_rows tsql.Executor.Join.test_row tsql.Executor.Eval.eval_bool
    tsql.Executor.Eval.eval_value tsql.Executor.Scope.resolve tsql.Executor.Scope.positions
    single_table_scope tsql.Base.Assoc.lookup tsql.Executor.Scope.col_index_map
    tsql.Base.Assoc.insert tsql.Executor.Aggregate.cell_at tsql.Executor.Eval.cmp_truth
    compare_values
left_joined = refl

join_rows-HasFront_example : All (HasFront context on_one 1 rights joined) lefts
join_rows-HasFront_example = join_rows-HasFront context on_one 1 lefts rights joined left_joined
