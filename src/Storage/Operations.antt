-- ===== src/Storage/Operations.antt =====
-- The autocommit operations of an engine as data, and runs of them.
use tsql.Base.{ℕ, String, Bool, Option, List, [], ◌∷◌}
use tsql.Base.Int.{ℤ}
use tsql.Platform.{Platform}
use tsql.Schema.{Column}
use tsql.Storage.Table.{Row}
use tsql.Storage.Engine.{Engine, create_table, drop_table, put_shared, delete_engine, reserve_id}

pub data Operation (P : Platform) : Type 0 where
  create_op : String → List Column → Operation P
  drop_op : String → Operation P
  put_op : String → Option ℕ → ℤ → Row P → Bool → Operation P
  delete_op : String → ℤ → Operation P
  reserve_op : String → Operation P

module _ {P : Platform} where
  unfoldable pub run : Operation P → Engine P → Engine P
  run (create_op name cols) e = (create_table name cols e).0
  run (drop_op name) e = (drop_table name e).0
  run (put_op name pk rid row must_exist) e = (put_shared name pk rid row must_exist e).0
  run (delete_op name rid) e = (delete_engine name rid e).0
  run (reserve_op name) e = (reserve_id name e).0

  unfoldable pub run_all : List (Operation P) → Engine P → Engine P
  run_all [] e = e
  run_all (op ∷ ops) e = run_all ops (run op e)
