-- ===== src/Executor/Statement.antt =====
-- Exec of internal/executor/executor.go, and the statements of internal/parser.
use tsql.Base.{ℕ, Result, ok, err}
use tsql.Platform.{Platform}
use tsql.Storage.Engine.{Engine}
use tsql.Executor.Expr.{sql_err, Select}
use tsql.Executor.Catalog.{CreateTable, DropTable, StatementError, reported, exec_create, exec_drop}
use tsql.Executor.Select.{Output, exec_select}
use tsql.Executor.Accessor.{Session, Step, with_ok, and_then, view_of}
use tsql.Executor.Insert.{Insert, exec_insert}
use tsql.Executor.Modify.{Update, Delete, exec_update, exec_delete}

-- parser.Statement
pub data Statement (P : Platform) : Type 0 where
  create_table : CreateTable → Statement P
  drop_table : DropTable → Statement P
  insert : Insert P → Statement P
  select_rows : Select P → Statement P
  update : Update P → Statement P
  delete : Delete P → Statement P
  begin commit rollback : Statement P

-- Result: the rows of a SELECT, or the number of rows affected.
pub data Answer (P : Platform) : Type 0 where
  selected : Output P → Answer P
  affected : ℕ → Answer P

module _ {P : Platform} where
  abbrev pub ran_ddl : Session P → Engine P × Result StatementError (Unit {0}) → Step P (Answer P)
  ran_ddl s (e, ok u) = (record s { engine = e }, ok (affected 0))
  ran_ddl s (e, err x) = (record s { engine = e }, err x)

  unfoldable pub exec : P.Time → Statement P → Session P → Step P (Answer P)
  exec now (create_table q) s = ran_ddl s (exec_create s.engine q)
  exec now (drop_table q) s = ran_ddl s (exec_drop s.engine q)
  exec now (insert q) s = and_then (exec_insert now q s) (λ s2 n. (s2, ok (affected n)))
  exec now (select_rows q) s =
      with_ok s (exec_select (view_of s) now q) (λ res. (s, ok (selected res)))
  exec now (update q) s = and_then (exec_update now q s) (λ s2 n. (s2, ok (affected n)))
  exec now (delete q) s = and_then (exec_delete now q s) (λ s2 n. (s2, ok (affected n)))
  exec now q s = (s, err (reported (sql_err "0A000")))
