-- ===== src/Storage/Txn.antt =====
-- internal/storage/txn.go: an explicit transaction, whose writes wait in a buffer until Commit.
pub mod Reads
pub mod Writes
pub mod Changes
pub mod Commits
use tsql.Base.{ℕ, suc, ◌+◌, String, Bool, true, false, ◌&&◌, ◌||◌, not, Option, none, some}
use tsql.Base.{List, [], ◌∷◌, ◌++◌, any, find, ltb, ◌==◌, str_eq, length, if◌then◌else◌, nat_eq}
use tsql.Base.{string_eq, Eq, pair_beq, pair_beq_iff, Result, ok, err, ◌>>=◌}
use tsql.Base.Int.{ℤ, pos, eqb_ℤ, ltb_ℤ, int_eq}
use tsql.Base.Assoc.{lookup, insert, remove}
use tsql.Platform.{Platform}
use tsql.Types.{Value, is_null}
use tsql.Schema.{Column}
use tsql.Storage.Table.{
  Row, Table, uniq_key, uniq_cols, cell, stamp, store_row, delete_row, bump_next_id,
}
use tsql.Storage.Wal.{WalRecord, commit, put, delete, append_all}
use tsql.Storage.Engine.{Engine, Memory, StorageError, no_table, exists, no_row, unique, txn_done}
use tsql.Storage.Engine.{bad_arity, io_failed, vanished, find_table, edit, on_mem, set_wal, next_tx}
use tsql.Storage.Engine.{get_engine, unique_get, reserve_id, note_write}

-- op, by its kind
pub data Op (P : Platform) : Type 0 where
  op_put : String → ℤ → Row P → Op P
  op_delete : String → ℤ → Op P

pub record Txn (P : Platform) : Type 0 where
  pub id : ℕ
  pub done : Bool
  pub ops : List (Op P)
  -- the rows that the transaction has created
  pub inserts : List (String × ℤ)

module _ {P : Platform} where
  -- Begin
  unfoldable pub begin_txn : Engine P → Engine P × Txn P
  begin_txn e = (
    record e { tx_seq = next_tx e },
    record { id = next_tx e; done = false; ops = []; inserts = [] },
  )

  abbrev pub op_name : Op P → String
  op_name (op_put name rid row) = name
  op_name (op_delete name rid) = name

  abbrev pub op_id : Op P → ℤ
  op_id (op_put name rid row) = rid
  op_id (op_delete name rid) = rid

  abbrev pub op_row : Op P → Option (Row P)
  op_row (op_put name rid row) = some row
  op_row (op_delete name rid) = none

  -- The last operation of the buffer on a row.
  unfoldable pub last_op : String → ℤ → List (Op P) → Option (Op P)
  last_op name rid [] = none
  last_op name rid (o ∷ os) = elim (last_op name rid os) [
    | some later ↦ some later
    | none ↦ if str_eq (op_name o) name && eqb_ℤ (op_id o) rid then some o else none
  ]

  -- Txn.Get
  unfoldable pub get_txn : String → ℤ → Txn P → Engine P → Option (Row P)
  get_txn name rid t e =
      if t.done
      then get_engine name rid e
      else (elim (last_op name rid t.ops) [ none ↦ get_engine name rid e | some o ↦ op_row o ])

  -- sort.Slice by ascending row id
  unfoldable pub insert_row : ℤ × Row P → List (ℤ × Row P) → List (ℤ × Row P)
  insert_row r [] = r ∷ []
  insert_row r (s ∷ ss) = if ltb_ℤ s.0 r.0 then s ∷ insert_row r ss else r ∷ s ∷ ss

  unfoldable pub sort_rows : List (ℤ × Row P) → List (ℤ × Row P)
  sort_rows [] = []
  sort_rows (r ∷ rs) = insert_row r (sort_rows rs)

  -- Engine.AllRows
  unfoldable pub all_rows : String → Engine P → Result StorageError (List (ℤ × Row P))
  all_rows name e = elim (find_table name e.tables) [
    | none ↦ err no_table
    | some t ↦ ok (sort_rows t.rows)
  ]

  -- The buffer's operations on one table, merged into its rows in order.
  unfoldable pub overlay : String → List (Op P) → List (ℤ × Row P) → List (ℤ × Row P)
  overlay name [] m = m
  overlay name (op_put n rid row ∷ os) m =
      overlay name os (if str_eq n name then insert rid row m else m)
  overlay name (op_delete n rid ∷ os) m =
      overlay name os (if str_eq n name then remove rid m else m)

  -- effMapLocked
  unfoldable pub eff_map : String → Txn P → Engine P → Result StorageError (List (ℤ × Row P))
  eff_map name t e = do rows ← all_rows name e; ok (overlay name t.ops rows)

  -- Txn.AllRows, with effRowsLocked
  unfoldable pub all_rows_txn : String → Txn P → Engine P → Result StorageError (List (ℤ × Row P))
  all_rows_txn name t e =
      if t.done then all_rows name e else (do m ← eff_map name t e; ok (sort_rows m))

  -- The scan of Txn.UniqueGet
  unfoldable pub scan_key : ℕ → String → List (ℤ × Row P) → Option ℤ
  scan_key ci k [] = none
  scan_key ci k ((rid, row) ∷ rs) =
      if ltb ci (length row) && str_eq (uniq_key (cell row ci)) k
      then some rid
      else scan_key ci k rs

  abbrev pub scan_result : ℕ → String → Result StorageError (List (ℤ × Row P)) → Option ℤ
  scan_result ci k (ok rows) = scan_key ci k rows
  scan_result ci k (err x) = none

  -- Txn.UniqueGet
  unfoldable pub unique_get_txn : String → ℕ → Value P → Txn P → Engine P → Option ℤ
  unique_get_txn name ci v t e =
      if is_null v
      then none
      else if not t.done
      then scan_result ci (uniq_key v) (all_rows_txn name t e)
      else unique_get name ci v e

  -- The columns of Txn.tableDef.
  unfoldable pub table_def : String → Engine P → Result StorageError (List Column)
  table_def name e = elim (find_table name e.tables) [ none ↦ err no_table | some t ↦ ok t.cols ]

  -- Another row of the effective state has the key in the column.
  unfoldable pub key_elsewhere : ℕ → String → ℤ → List (ℤ × Row P) → Bool
  key_elsewhere ci k self [] = false
  key_elsewhere ci k self ((rid, row) ∷ rs) =
      if not (eqb_ℤ rid self) && ltb ci (length row) && str_eq (uniq_key (cell row ci)) k
      then true
      else key_elsewhere ci k self rs

  abbrev pub clashes_in : ℤ → Row P → List (ℤ × Row P) → ℕ → Bool
  clashes_in self row eff ci =
      not (is_null (cell row ci)) && key_elsewhere ci (uniq_key (cell row ci)) self eff

  -- checkUnique: true for ErrUnique
  unfoldable pub clashes : List Column → ℤ → Row P → List (ℤ × Row P) → Bool
  clashes cols self row eff = any (clashes_in self row eff) (uniq_cols cols)

  abbrev pub has_key : ℤ → List (ℤ × Row P) → Bool
  has_key rid m = elim (lookup rid m) [ none ↦ false | some row ↦ true ]

  abbrev pub with_op : Op P → Txn P → Txn P
  with_op o t = record t { ops = t.ops ++ o ∷ [] }

  abbrev pub with_insert : String → ℤ → Txn P → Txn P
  with_insert name rid t = record t { inserts = (name, rid) ∷ t.inserts }

  -- What the writes of a transaction check before anything else: the columns and the merged rows.
  abbrev pub opening :
      String → Txn P → Engine P → Result StorageError (List Column × List (ℤ × Row P))
  opening name t e =
      if t.done
      then err txn_done
      else (do cols ← table_def name e; eff ← eff_map name t e; ok (cols, eff))

  -- The rest of Put and PutAuto, from the row id on.
  abbrev pub buffer_insert :
      String → ℤ → Row P → List Column → List (ℤ × Row P) → Txn P → Txn P × Result StorageError ℤ
  buffer_insert name rid row cols eff t =
      if has_key rid eff
      then (t, err exists)
      else if clashes cols rid row eff
      then (t, err unique)
      else (with_op (op_put name rid row) (with_insert name rid t), ok rid)

  -- Whether the row has a cell for each column.
  abbrev pub fits : Row P → List Column → Bool
  fits row cols = length row == length cols

  -- `if rowID == 0 { rowID, err = t.e.ReserveID(name) }`
  abbrev pub reserve_or : String → ℤ → Engine P → Engine P × Result StorageError ℤ
  reserve_or name rid e = if eqb_ℤ rid (pos 0) then reserve_id name e else (e, ok rid)

  abbrev pub insert_at :
      String
      → Option ℕ
      → Row P
      → List Column
      → List (ℤ × Row P)
      → Txn P
      → Engine P × Result StorageError ℤ
      → Engine P × Txn P × Result StorageError ℤ
  insert_at name pk row cols eff t (e, err x) = (e, t, err x)
  insert_at name pk row cols eff t (e, ok rid) =
      let (t', r) = buffer_insert name rid (stamp pk rid row) cols eff t in (e, t', r)

  abbrev pub insert_opened :
      String
      → Option ℕ
      → ℤ
      → Row P
      → Txn P
      → Engine P
      → Result StorageError (List Column × List (ℤ × Row P))
      → Engine P × Txn P × Result StorageError ℤ
  insert_opened name pk rid row t e (err x) = (e, t, err x)
  insert_opened name pk rid row t e (ok (cols, eff)) =
      if fits row cols
      then insert_at name pk row cols eff t (reserve_or name rid e)
      else (e, t, err (bad_arity (length row) (length cols)))

  -- Txn.Put
  unfoldable pub put_txn :
      String → ℤ → Row P → Txn P → Engine P → Engine P × Txn P × Result StorageError ℤ
  put_txn name rid row t e = insert_opened name none rid row t e (opening name t e)

  -- Txn.PutAuto
  unfoldable pub put_auto_txn :
      String → ℕ → Row P → Txn P → Engine P → Engine P × Txn P × Result StorageError ℤ
  put_auto_txn name pk row t e = insert_opened name (some pk) (pos 0) row t e (opening name t e)

  abbrev pub update_opened :
      String
      → ℤ
      → Row P
      → Txn P
      → Result StorageError (List Column × List (ℤ × Row P))
      → Txn P × Result StorageError (Unit {0})
  update_opened name rid row t (err x) = (t, err x)
  update_opened name rid row t (ok (cols, eff)) =
      if not (fits row cols)
      then (t, err (bad_arity (length row) (length cols)))
      else if not (has_key rid eff)
      then (t, err no_row)
      else if clashes cols rid row eff
      then (t, err unique)
      else (with_op (op_put name rid row) t, ok tt)

  -- Txn.Update
  unfoldable pub update_txn :
      String → ℤ → Row P → Txn P → Engine P → Txn P × Result StorageError (Unit {0})
  update_txn name rid row t e = update_opened name rid row t (opening name t e)

  abbrev pub delete_opened :
      String
      → ℤ
      → Txn P
      → Result StorageError (List Column × List (ℤ × Row P))
      → Txn P × Result StorageError (Unit {0})
  delete_opened name rid t (err x) = (t, err x)
  delete_opened name rid t (ok (cols, eff)) =
      if has_key rid eff then (with_op (op_delete name rid) t, ok tt) else (t, err no_row)

  -- Txn.Delete
  unfoldable pub delete_txn : String → ℤ → Txn P → Engine P → Txn P × Result StorageError (Unit {0})
  delete_txn name rid t e = delete_opened name rid t (opening name t e)

  abbrev pub closed : Txn P → Txn P
  closed t = record t { done = true; ops = [] }

  -- Txn.Rollback
  unfoldable pub rollback : Txn P → Txn P
  rollback t = if t.done then t else closed t
