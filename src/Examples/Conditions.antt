-- ===== src/Examples/Conditions.antt =====
-- The theorems on the executor at concrete inputs.
use tsql.Base.{
  ℕ, ◌≤◌, ◌<◌, ◌≡◌, ◌≢◌, ◌↔◌, refl, arith, String, Bool, true, false, Option, none, some,
}
use tsql.Base.{List, [], ◌∷◌, length, Result, ok, err}
use tsql.Base.Int.{ℤ, pos, int_eq}
use tsql.Types.{null, int, bool, type_int}
use tsql.Schema.{Column, TableDef}
use tsql.Storage.Table.{Row}
use tsql.Executor.Expr.{ColRef, Expr, lit, col_ref, cmp, and, not_expr}
use tsql.Executor.Scope.{
  single_table_scope, resolve, validate_expr, col_index_map, index_cols, positions,
}
use tsql.Executor.Scope.Positions.{AreWithin}
use tsql.Executor.Eval.{Context, Truth, unknown, known, eval_bool, eval_value, literal_truth}
use tsql.Executor.Eval.Logic.{holds, meaning, eval_bool-and, eval_bool-not_and}
use tsql.Executor.Eval.Total.{HasZero, IsReady, is_fine, eval_bool-is_fine}
use tsql.Executor.ForeignKeys.{
  View, fk_referenced, check_fk, check_keys, check_key, rows_of, tables_refer, cols_refer,
  any_refers, refers,
}
use tsql.Executor.ForeignKeys.Integrity.{HasIntegrity, without_row, fk_referenced-HasIntegrity}
use tsql.Base.Assoc.{lookup, insert}
use tsql.Base.{All, find}
use tsql.Storage.Engine.{Engine, find_table}
use tsql.Executor.Catalog.{ColumnDef, make_columns, validate_fk, primary_col, find_col}
use tsql.Executor.Catalog.References.{IsLinked, make_columns-IsLinked}
use tsql.Executor.Aggregate.{eval_aggregate}
use tsql.Base.{◌≤◌}
use tsql.Examples.Host.{host}

abbrev column : String → String → Column
column name parent = record {
  name = name;
  type = type_int;
  not_null = false;
  primary = false;
  auto_inc = false;
  unique = false;
  fk_table = parent;
  fk_col = "";
}

abbrev orders : TableDef
orders = record { name = "orders"; cols = column "id" "" ∷ column "buyer" "users" ∷ [] }

abbrev users : TableDef
users = record { name = "users"; cols = column "id" "" ∷ [] }

abbrev buyer : ColRef
buyer = record { table = ""; name = "buyer" }

abbrev context : Context host
context = record { scope = single_table_scope orders; group = none; clock = 0 }

abbrev row : Row host
row = int (pos 1) ∷ null ∷ []

buyer_resolves : resolve (single_table_scope orders) buyer ≡ ok 1
unfolding resolve single_table_scope col_index_map index_cols positions lookup insert
buyer_resolves = refl

orders_within : AreWithin 2 (single_table_scope orders)
unfolding single_table_scope
orders_within = (refl, omega arith, tt)

-- buyer = 3
abbrev is_three : Expr host
is_three = cmp "=" (col_ref buyer) (lit (int (pos 3)))

is_three_valid : validate_expr context.scope is_three ≡ ok tt
unfolding validate_expr resolve single_table_scope col_index_map index_cols positions lookup insert
is_three_valid = refl

ready : IsReady context row
ready = record { within = orders_within; ungrouped = refl }

host_zero : HasZero host
host_zero = refl

eval_bool-is_fine_example : is_fine (eval_bool context is_three row) ≡ true
eval_bool-is_fine_example = eval_bool-is_fine host_zero context is_three row ready is_three_valid

is_three-unknown : eval_bool context is_three row ≡ ok unknown
unfolding eval_bool eval_value resolve single_table_scope col_index_map index_cols positions lookup
    insert tsql.Executor.Aggregate.cell_at
is_three-unknown = refl

abbrev yes : Expr host
yes = lit (bool true)

yes-known : eval_bool context yes row ≡ ok (known true)
unfolding eval_bool literal_truth
yes-known = refl

eval_bool-and_example :
    (t : Truth) × (eval_bool context (and is_three yes) row ≡ ok t)
    × ((meaning t ≡ holds) ↔ ((meaning unknown ≡ holds) × (meaning (known true) ≡ holds)))
eval_bool-and_example =
    eval_bool-and context is_three yes row unknown (known true) is_three-unknown yes-known

eval_bool-not_and_example : eval_bool context (not_expr (and is_three yes)) row ≡ ok (known true)
eval_bool-not_and_example = eval_bool-not_and context is_three yes row is_three-unknown yes-known

-- Two users, of whom the first has an order.
abbrev shop_rows : String → Result tsql.Storage.Engine.StorageError (List (ℤ × Row host))
shop_rows name =
    tsql.Base.if◌then◌else◌ (tsql.Base.str_eq name "users")
      (ok ((pos 1, int (pos 1) ∷ []) ∷ (pos 2, int (pos 2) ∷ []) ∷ []))
      (ok ((pos 5, int (pos 5) ∷ int (pos 1) ∷ []) ∷ (pos 6, int (pos 6) ∷ null ∷ []) ∷ []))

abbrev shop : View host
shop = record {
  catalog = users ∷ orders ∷ [];
  rows = shop_rows;
  get = λ name i.
      tsql.Base.if◌then◌else◌ (tsql.Base.str_eq name "users")
        (lookup i ((pos 1, int (pos 1) ∷ []) ∷ (pos 2, int (pos 2) ∷ []) ∷ []))
        (lookup i ((pos 5, int (pos 5) ∷ int (pos 1) ∷ []) ∷ []));
  unique_get = λ name ci v. none;
}

shop-HasIntegrity : HasIntegrity shop
unfolding check_fk check_keys check_key rows_of lookup
shop-HasIntegrity = ((refl, (refl, tt)), ((refl, (refl, tt)), tt))

two_unreferenced : fk_referenced shop "users" (pos 2) ("users", pos 2) ≡ ok tt
unfolding fk_referenced tables_refer cols_refer any_refers refers rows_of
two_unreferenced = refl

fk_referenced-HasIntegrity_example : HasIntegrity (without_row ("users", pos 2) shop)
fk_referenced-HasIntegrity_example =
    fk_referenced-HasIntegrity shop "users" (pos 2) shop-HasIntegrity two_unreferenced

abbrev registry : Engine host
registry = record {
  mem = record {
    tables =
        record {
          id = 0;
          name = "users";
          cols = record (column "id" "") { primary = true } ∷ [];
          rows = [];
          next_id = pos 1;
          uniq = [];
        }
        ∷ [];
    next_table_id = 1;
  };
  wal = record { log = []; seq = 0; outcomes = [] };
  tx_seq = 0;
  since_checkpoint = 0;
  checkpointing = false;
  snapshots = [];
  manifest = none;
}

abbrev buyer_def : ColumnDef
buyer_def = record {
  name = "buyer";
  type = type_int;
  primary = false;
  not_null = false;
  auto_inc = false;
  unique = false;
  ref_table = "users";
  ref_col = "";
}

abbrev buyer_col : Column
buyer_col = record (column "buyer" "users") { fk_col = "id" }

buyer_made : make_columns registry "orders" (buyer_def ∷ []) ≡ ok (buyer_col ∷ [])
unfolding make_columns validate_fk primary_col find_col find_table find
buyer_made = refl

make_columns-IsLinked_example : All (IsLinked registry "orders") (buyer_col ∷ [])
make_columns-IsLinked_example =
    make_columns-IsLinked registry "orders" (buyer_def ∷ []) (buyer_col ∷ []) buyer_made

abbrev two_rows : List (Row host)
two_rows = row ∷ (int (pos 2) ∷ int (pos 9) ∷ []) ∷ []
