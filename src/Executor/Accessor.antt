-- ===== src/Executor/Accessor.antt =====
-- storage.Accessor as internal/executor uses it: the engine itself, or a transaction on it.
use tsql.Base.{ℕ, String, Option, none, some, Result, ok, err}
use tsql.Base.Int.{ℤ}
use tsql.Platform.{Platform}
use tsql.Storage.Table.{Row}
use tsql.Storage.Engine.{Engine, StorageError, exists, unique}
use tsql.Storage.Engine.{put_engine, put_auto, update_engine, delete_engine}
use tsql.Storage.Txn.{Txn, put_txn, put_auto_txn, update_txn, delete_txn}
use tsql.Executor.Expr.{sql_err}
use tsql.Executor.ForeignKeys.{View, engine_view, txn_view}
use tsql.Executor.Catalog.{StatementError, reported, passed_on}

-- The engine with the transaction that is in flight; none is autocommit.
pub record Session (P : Platform) : Type 0 where
  pub engine : Engine P
  pub txn : Option (Txn P)

-- A state and the outcome of the statement that led to it.
abbrev pub Step : Platform → Type 0 → Type 0
Step P A = Session P × Result StatementError A

-- The duplicates of an insert have their own code; other storage errors are passed on.
abbrev pub write_error : StorageError → StatementError
write_error exists = reported (sql_err "23505")
write_error unique = reported (sql_err "23505")
write_error x = passed_on x

abbrev pub update_error : StorageError → StatementError
update_error unique = reported (sql_err "23505")
update_error x = passed_on x

abbrev pub told :
    {A B : Type 0}
    → (StorageError → StatementError)
    → Result StorageError A
    → B
    → Result StatementError B
told f (ok a) b = ok b
told f (err x) b = err (f x)

module _ {P : Platform} where
  -- `if err != nil { return nil, err }` after a check, and after a write.
  abbrev pub with_ok :
      {A B : Type 0} → Session P → Result StatementError A → (A → Step P B) → Step P B
  with_ok s (ok a) f = f a
  with_ok s (err x) f = (s, err x)

  abbrev pub and_then : {A B : Type 0} → Step P A → (Session P → A → Step P B) → Step P B
  and_then (s, ok a) f = f s a
  and_then (s, err x) f = (s, err x)

  unfoldable pub view_of : Session P → View P
  view_of s = elim s.txn [ none ↦ engine_view s.engine | some t ↦ txn_view t s.engine ]

  abbrev pub on_engine :
      {A : Type 0}
      → (StorageError → StatementError)
      → Session P
      → Engine P × Result StorageError A
      → Step P (Unit {0})
  on_engine f s (e, r) = (record s { engine = e }, told f r tt)

  abbrev pub on_both :
      {A : Type 0}
      → (StorageError → StatementError)
      → Engine P × Txn P × Result StorageError A
      → Step P (Unit {0})
  on_both f (e, t, r) = (record { engine = e; txn = some t }, told f r tt)

  abbrev pub on_txn :
      {A : Type 0}
      → (StorageError → StatementError)
      → Session P
      → Txn P × Result StorageError A
      → Step P (Unit {0})
  on_txn f s (t, r) = (record s { txn = some t }, told f r tt)

  unfoldable pub acc_put : String → ℤ → Row P → Session P → Step P (Unit {0})
  acc_put name rid row s = elim s.txn [
    | none ↦ on_engine write_error s (put_engine name rid row s.engine)
    | some t ↦ on_both write_error (put_txn name rid row t s.engine)
  ]

  unfoldable pub acc_put_auto : String → ℕ → Row P → Session P → Step P (Unit {0})
  acc_put_auto name pk row s = elim s.txn [
    | none ↦ on_engine write_error s (put_auto name pk row s.engine)
    | some t ↦ on_both write_error (put_auto_txn name pk row t s.engine)
  ]

  unfoldable pub acc_update : String → ℤ → Row P → Session P → Step P (Unit {0})
  acc_update name rid row s = elim s.txn [
    | none ↦ on_engine update_error s (update_engine name rid row s.engine)
    | some t ↦ on_txn update_error s (update_txn name rid row t s.engine)
  ]

  unfoldable pub acc_delete : String → ℤ → Session P → Step P (Unit {0})
  acc_delete name rid s = elim s.txn [
    | none ↦ on_engine passed_on s (delete_engine name rid s.engine)
    | some t ↦ on_txn passed_on s (delete_txn name rid t s.engine)
  ]
