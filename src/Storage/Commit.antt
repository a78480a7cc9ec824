-- ===== src/Storage/Commit.antt =====
-- Txn.Commit and commitTxn of internal/storage/txn.go: the checks, the log and the tables.
use tsql.Base.{ℕ, String, Bool, true, false, none, some}
use tsql.Base.{List, [], ◌∷◌, ◌++◌, if◌then◌else◌, nat_eq}
use tsql.Base.{string_eq, Result, ok, err, ◌>>=◌}
use tsql.Base.Int.{ℤ, int_eq}
use tsql.Platform.{Platform}
use tsql.Storage.Table.{Table, store_row, delete_row, bump_next_id}
use tsql.Storage.Wal.{WalRecord, commit, put, delete, append_all}
use tsql.Storage.Engine.{Engine, Memory, StorageError, no_table, unique}
use tsql.Storage.Engine.{io_failed, vanished, find_table, edit, set_wal}
use tsql.Storage.Engine.{get_engine, note_write}
use tsql.Storage.Txn.{Op, op_put, op_delete, Txn, clashes, closed, eff_map, op_name, table_def}

module _ {P : Platform} where
  -- The record that commitTxn logs for an operation.
  abbrev pub record_of : ℕ → ℕ → Op P → WalRecord P
  record_of id tid (op_put name rid row) = put id tid rid row
  record_of id tid (op_delete name rid) = delete id tid rid

  unfoldable pub commit_records :
      ℕ → List (Op P) → Engine P → Result StorageError (List (WalRecord P))
  commit_records id [] e = ok []
  commit_records id (o ∷ os) e = elim (find_table (op_name o) e.tables) [
    | none ↦ err (vanished (op_name o))
    | some t ↦ do rest ← commit_records id os e; ok (record_of id t.id o ∷ rest)
  ]

  -- applyPut and applyDelete
  abbrev pub op_effect : Op P → Table P → Table P
  op_effect (op_put name rid row) t = bump_next_id rid (store_row rid row t)
  op_effect (op_delete name rid) t = delete_row rid t

  unfoldable pub apply_op : Op P → Memory P → Result StorageError (Memory P)
  apply_op o m = elim (find_table (op_name o) m.tables) [
    | none ↦ err no_table
    | some t ↦ ok (edit t.id (op_effect o) m)
  ]

  unfoldable pub apply_ops : List (Op P) → Memory P → Result StorageError (Memory P)
  apply_ops [] m = ok m
  apply_ops (o ∷ os) m = do m' ← apply_op o m; apply_ops os m'

  -- An error is not reached: commitTxn has found each table before it logs.
  abbrev pub applied_ops :
      Engine P → Result StorageError (Memory P) → Engine P × Result StorageError (Unit {0})
  applied_ops e (ok m) = (note_write (record e { mem = m }), ok tt)
  applied_ops e (err x) = (e, err x)

  abbrev pub apply_logged :
      List (Op P) → Engine P × Bool → Engine P × Result StorageError (Unit {0})
  apply_logged ops (e, true) = applied_ops e (apply_ops ops e.mem)
  apply_logged ops (e, false) = (e, err io_failed)

  abbrev pub log_and_apply :
      ℕ
      → List (Op P)
      → Engine P
      → Result StorageError (List (WalRecord P))
      → Engine P × Result StorageError (Unit {0})
  log_and_apply id ops e (err x) = (e, err x)
  log_and_apply id ops e (ok recs) =
      apply_logged ops (set_wal e (append_all (recs ++ commit id ∷ []) e.wal))

  -- commitTxn
  unfoldable pub commit_txn : ℕ → List (Op P) → Engine P → Engine P × Result StorageError (Unit {0})
  commit_txn id ops e = log_and_apply id ops e (commit_records id ops e)

  -- The first loop of Commit: every table of the buffer is still there.
  unfoldable pub check_tables : List (Op P) → Engine P → Result StorageError (Unit {0})
  check_tables [] e = ok tt
  check_tables (o ∷ os) e = do cols ← table_def (op_name o) e; check_tables os e

  -- One put of the buffer against the freshest committed rows with the whole buffer on top.
  unfoldable pub revalidate_op : Txn P → Engine P → Op P → Result StorageError (Unit {0})
  revalidate_op t e (op_delete name rid) = ok tt
  revalidate_op t e (op_put name rid row) = do
    cols ← table_def name e
    eff ← eff_map name t e
    if clashes cols rid row eff then err unique else ok tt

  unfoldable pub revalidate_ops : Txn P → Engine P → List (Op P) → Result StorageError (Unit {0})
  revalidate_ops t e [] = ok tt
  revalidate_ops t e (o ∷ os) = do u ← revalidate_op t e o; revalidate_ops t e os

  -- A row that the transaction created has been committed by another one.
  unfoldable pub insert_taken : List (String × ℤ) → Engine P → Bool
  insert_taken [] e = false
  insert_taken ((name, rid) ∷ rest) e = elim (get_engine name rid e) [
    | some row ↦ true
    | none ↦ insert_taken rest e
  ]

  -- All the checks of Commit.
  unfoldable pub commit_checks : Txn P → Engine P → Result StorageError (Unit {0})
  commit_checks t e = do
    tables ← check_tables t.ops e
    u ← revalidate_ops t e t.ops
    if insert_taken t.inserts e then err unique else ok tt

  abbrev pub commit_ops : ℕ → List (Op P) → Engine P → Engine P × Result StorageError (Unit {0})
  commit_ops id [] e = (e, ok tt)
  commit_ops id (o ∷ os) e = commit_txn id (o ∷ os) e

  abbrev pub commit_checked :
      Txn P
      → Engine P
      → Result StorageError (Unit {0})
      → (Engine P × Result StorageError (Unit {0})) × Txn P
  commit_checked t e (err x) = ((e, err x), t)
  commit_checked t e (ok u) = (commit_ops t.id t.ops e, closed t)

  -- Txn.Commit
  unfoldable pub commit_all : Txn P → Engine P → (Engine P × Result StorageError (Unit {0})) × Txn P
  commit_all t e = if t.done then ((e, ok tt), t) else commit_checked t e (commit_checks t e)
