-- ===== src/Storage/Recovery.antt =====
-- Open of internal/storage/engine.go: the latest snapshot, then the committed records of the log.
use tsql.Base.{ℕ, ◌+◌, ◌%◌, ◌^◌, false, Option, none, some, List, [], ◌∷◌, ◌++◌}
use tsql.Base.{ltb, ◌==◌, if◌then◌else◌, Result, ok, err, ◌>>=◌}
use tsql.Base.{length, nat_eq}
use tsql.Base.Assoc.{lookup}
use tsql.Platform.{Platform}
use tsql.Storage.Table.{Table, store_row, delete_row, bump_next_id, build_uniq}
use tsql.Storage.Wal.{WalRecord, begin, put, delete, commit, create, drop, Outcome}
use tsql.Storage.Engine.{Engine, Memory, Snapshot, SnapshotTable, StorageError, unknown_table_id}
use tsql.Storage.Engine.{find_table, find_id, add_table, remove_table, edit}

module _ {P : Platform} where
  -- applyRecord
  unfoldable pub apply_record : WalRecord P → Memory P → Result StorageError (Memory P)
  apply_record (create tx name cols) e = elim (find_table name e.tables) [
    | some t ↦ ok e
    | none ↦ ok (add_table name cols e)
  ]
  apply_record (drop tx name) e = ok (remove_table name e)
  apply_record (put tx id rid row) e = elim (find_id id e.tables) [
    | none ↦ err (unknown_table_id id)
    | some t ↦ ok (edit id (λ t. bump_next_id rid (store_row rid row t)) e)
  ]
  apply_record (delete tx id rid) e = elim (find_id id e.tables) [
    | none ↦ err (unknown_table_id id)
    | some t ↦ ok (edit id (delete_row rid) e)
  ]
  apply_record (begin tx) e = ok e
  apply_record (commit tx) e = ok e

  -- applyPendingLocked: the buffered records of one transaction, in order
  unfoldable pub apply_pending : List (WalRecord P) → Memory P → Result StorageError (Memory P)
  apply_pending [] e = ok e
  apply_pending (r ∷ rs) e = do e' ← apply_record r e; apply_pending rs e'

-- The map `pending` of Open; a transaction that it does not hold has no records.
abbrev pub Pending : Platform → Type 0
Pending P = ℕ → List (WalRecord P)

abbrev pub Replayed : Platform → Type 0
Replayed P = Memory P × Pending P

module _ {P : Platform} where
  abbrev pub update : Pending P → ℕ → List (WalRecord P) → Pending P
  update pending tx rs k = if k == tx then rs else pending k

  abbrev pub buffer : ℕ → WalRecord P → Replayed P → Result StorageError (Replayed P)
  buffer tx r (e, pending) = ok (e, update pending tx (pending tx ++ r ∷ []))

  -- One round of the replay loop.
  unfoldable pub replay_record : WalRecord P → Replayed P → Result StorageError (Replayed P)
  replay_record (begin tx) s = ok s
  replay_record (commit tx) (e, pending) = do
    e' ← apply_pending (pending tx) e
    ok (e', update pending tx [])
  replay_record (put tx id rid row) s = buffer tx (put tx id rid row) s
  replay_record (delete tx id rid) s = buffer tx (delete tx id rid) s
  replay_record (create tx name cols) s = buffer tx (create tx name cols) s
  replay_record (drop tx name) s = buffer tx (drop tx name) s

  unfoldable pub replay : List (WalRecord P) → Replayed P → Result StorageError (Replayed P)
  replay [] s = ok s
  replay (r ∷ rs) s = do s' ← replay_record r s; replay rs s'

  -- A table as Open makes it of the snapshot's.
  abbrev pub restore : SnapshotTable P → Table P
  restore st = build_uniq (record {
    id = st.id;
    name = st.name;
    cols = st.cols;
    rows = st.rows;
    next_id = st.next_id;
    uniq = [];
  })

  unfoldable pub load_tables : List (SnapshotTable P) → Memory P → Memory P
  load_tables [] e = e
  load_tables (st ∷ sts) e = load_tables sts (record {
    tables = restore st ∷ e.tables;
    next_table_id = if ltb st.id e.next_table_id then e.next_table_id else (st.id + 1) % 2 ^ 32;
  })

  -- LoadLatestSnapshot: a missing manifest or a missing file is no snapshot.
  unfoldable pub load_latest : List (ℕ × Snapshot P) → Option ℕ → Option (Snapshot P)
  load_latest files none = none
  load_latest files (some seq) = lookup seq files

  abbrev pub empty : Memory P
  empty = record { tables = []; next_table_id = 0 }

  abbrev pub load : Option (Snapshot P) → Memory P
  load none = empty
  load (some d) = load_tables d.tables empty

  -- The memory from which Open replays the log.
  unfoldable pub loaded : Engine P → Memory P
  loaded e = load (load_latest e.snapshots e.manifest)

  abbrev pub no_pending : Pending P
  no_pending tx = []

  -- The engine that Open returns; `outcomes` is what its disk will do.
  abbrev pub opened : List Outcome → Engine P → Memory P → Engine P
  opened outcomes e m = record {
    mem = m;
    wal = record { log = e.wal.log; seq = length e.wal.log; outcomes = outcomes };
    tx_seq = 0;
    since_checkpoint = 0;
    checkpointing = false;
    snapshots = e.snapshots;
    manifest = e.manifest;
  }

  -- Open on the directory that an engine has left, by a crash or by Close: of that engine it
  -- reads the log, the snapshots and the manifest only.
  unfoldable pub reopen : List Outcome → Engine P → Result StorageError (Engine P)
  reopen outcomes e = do s ← replay e.wal.log (loaded e, no_pending); ok (opened outcomes e s.0)
