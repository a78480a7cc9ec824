-- ===== src/Examples/Stores.antt =====
-- The theorems on the storage engine at concrete inputs.
use tsql.Base.{
  ℕ, ◌≤◌, ◌<◌, ◌^◌, ◌≡◌, ◌≢◌, refl, arith, String, Bool, true, false, Option, none, some,
}
use tsql.Base.{List, [], ◌∷◌, length, ◌==◌, ==_iff, Result, ok, err}
use tsql.Base.Int.{ℤ, pos}
use tsql.Base.Assoc.{lookup}
use tsql.Types.{text, type_text}
use tsql.Schema.{Column}
use tsql.Storage.Table.{Row, Table}
use tsql.Storage.Wal.{Outcome, written, lost, WalRecord, put}
use tsql.Storage.Engine.{Engine, Memory, Snapshot, unique, find_table, get_engine}
use tsql.Storage.Operations.{Operation, create_op, put_op, delete_op, run_all}
use tsql.Storage.Recovery.{reopen, opened, empty, no_pending, replay, load_latest}
use tsql.Storage.Checkpoint.{checkpoint, done, snapshot_of}
use tsql.Storage.Checkpoint.Kept.{load_latest-checkpoint, reopen-checkpoint_lost}
use tsql.Storage.Durable.Recovered.{start, reopen-run_all, IsRecovered}
use tsql.Storage.Durable.Replay.{IsReadable}
use tsql.Storage.Durable.Writes.{IsDurable}
use tsql.Storage.Txn.{Op, op_put, op_delete, Txn, get_txn, put_txn, with_op}
use tsql.Storage.Commit.{commit_txn, commit_records, commit_all}
use tsql.Storage.Txn.{eff_map, all_rows, overlay, sort_rows, insert_row}
use tsql.Storage.Commit.{commit_checks, check_tables}
use tsql.Storage.Txn.{last_op, op_name, op_id, op_row}
use tsql.Storage.Commit.{revalidate_ops, insert_taken}
use tsql.Storage.Txn.Reads.{get_txn-eff_map}
use tsql.Storage.Txn.Writes.{put_txn-IsInserted, IsInserted}
use tsql.Storage.Txn.Commits.{commit_txn-IsDurable, commit_all_failed, without}
use tsql.Storage.Txn.Commits.Logged.{commit_records-IsLoggedFor, IsLoggedFor}
use tsql.Base.{find, str_eq, if◌then◌else◌, ◌&&◌}
use tsql.Base.Int.{int_eq}
use tsql.Base.{eq_iff}
use tsql.Storage.Txn.{update_txn, delete_txn}
use tsql.Storage.Txn.Changes.{IsChanged, update_txn-IsChanged}
use tsql.Storage.Txn.Commits.Visible.{AreDistinct, get_engine-commit_all}
use tsql.Examples.Host.{host}

abbrev label : Column
label = record {
  name = "label";
  type = type_text;
  not_null = false;
  primary = false;
  auto_inc = false;
  unique = true;
  fk_table = "";
  fk_col = "";
}

abbrev operations : List (Operation host)
operations =
    create_op "t" (label ∷ [])
    ∷ put_op "t" none (pos 1) (text "a" ∷ []) false
    ∷ put_op "t" none (pos 2) (text "b" ∷ []) false
    ∷ delete_op "t" (pos 1)
    ∷ []

-- The disk loses the commit record of the second row.
abbrev disk : List Outcome
disk = written ∷ written ∷ written ∷ written ∷ written ∷ written ∷ written ∷ written ∷ lost ∷ []

reopen-run_all_example :
    (r : Engine host) × (reopen [] (run_all operations (start disk)) ≡ ok r)
    × IsRecovered (run_all operations (start disk)) r
reopen-run_all_example = reopen-run_all operations disk [] tt (omega arith)

-- A table with one row, after a checkpoint, and the transaction 1, which is open.
abbrev memory : Memory host
memory = record {
  tables =
      record {
        id = 0;
        name = "t";
        cols = label ∷ [];
        rows = (pos 1, text "a" ∷ []) ∷ [];
        next_id = pos 2;
        uniq = ((0, "sa"), pos 1) ∷ [];
      }
      ∷ [];
  next_table_id = 1;
}

abbrev engine : Engine host
engine = record {
  mem = memory;
  wal = record { log = []; seq = 0; outcomes = [] };
  tx_seq = 1;
  since_checkpoint = 0;
  checkpointing = false;
  snapshots = [];
  manifest = none;
}

abbrev open_one : ℕ → Bool
open_one k = k == 1

engine-IsDurable : IsDurable memory open_one engine
unfolding replay
engine-IsDurable = record {
  rebuilt = memory;
  pending = no_pending;
  replays = refl;
  same_tables = refl;
  same_next = refl;
  fresh = λ tx h. refl;
  clean = λ tx h. refl;
  begun = λ tx h. ground arith;
}

abbrev writes : List (Op host)
writes = op_put "t" (pos 2) (text "b" ∷ []) ∷ op_delete "t" (pos 1) ∷ []

engine-AreDistinct : AreDistinct engine.tables
unfolding find_table find
engine-AreDistinct n k id p q = ground (arith, eq_iff "t" n, eq_iff "t" k)

commit_txn-IsDurable_example :
    IsDurable memory (without 1 open_one) (commit_txn 1 writes engine).0
    × IsReadable (commit_txn 1 writes engine).0.wal.outcomes
commit_txn-IsDurable_example =
    commit_txn-IsDurable engine-IsDurable 1 writes tt engine-AreDistinct refl

abbrev records : List (WalRecord host)
records = put 1 0 (pos 2) (text "b" ∷ []) ∷ WalRecord.delete 1 0 (pos 1) ∷ []

buffer_records : commit_records 1 writes engine ≡ ok records
unfolding commit_records find_table find
buffer_records = refl

commit_records-IsLoggedFor_example : IsLoggedFor 1 writes engine records
commit_records-IsLoggedFor_example =
    commit_records-IsLoggedFor 1 writes engine records buffer_records

abbrev session : Txn host
session = record { id = 1; done = false; ops = writes; inserts = ("t", pos 2) ∷ [] }

put_txn-IsInserted_example :
    IsInserted "t" none
      (text "c" ∷ [])
      session
      engine
      (put_txn "t" (pos 0) (text "c" ∷ []) session engine)
put_txn-IsInserted_example = put_txn-IsInserted "t" (pos 0) (text "c" ∷ []) session engine refl

abbrev effective : List (ℤ × Row host)
effective = (pos 2, text "b" ∷ []) ∷ []

txn_rows : eff_map "t" session engine ≡ ok effective
unfolding eff_map all_rows find_table find sort_rows insert_row overlay tsql.Base.Assoc.insert
    tsql.Base.Assoc.remove
txn_rows = refl

get_txn-eff_map_example : get_txn "t" (pos 2) session engine ≡ lookup (pos 2) effective
get_txn-eff_map_example = get_txn-eff_map "t" (pos 2) session engine effective refl txn_rows

-- Another connection has taken the row id 1 that this transaction has inserted.
abbrev late : Txn host
late = record {
  id = 1;
  done = false;
  ops = op_put "t" (pos 1) (text "z" ∷ []) ∷ [];
  inserts = ("t", pos 1) ∷ [];
}

late_fails : (commit_all late engine).0.1 ≡ err unique
unfolding commit_all commit_checks check_tables revalidate_ops insert_taken find_table find
    get_engine lookup tsql.Storage.Txn.table_def tsql.Storage.Commit.revalidate_op eff_map all_rows
    tsql.Storage.Txn.clashes tsql.Base.any tsql.Storage.Table.uniq_cols
    tsql.Storage.Txn.key_elsewhere overlay tsql.Base.Assoc.insert sort_rows insert_row
late_fails = refl

commit_all_failed_example : (commit_all late engine).0.0.mem ≡ engine.mem
commit_all_failed_example = commit_all_failed late engine unique late_fails

load_latest-checkpoint_example :
    load_latest (checkpoint done engine).snapshots (checkpoint done engine).manifest
    ≡ some (snapshot_of engine)
load_latest-checkpoint_example = load_latest-checkpoint engine (omega arith)

abbrev old_snapshot : Snapshot host
old_snapshot = record { seq = 9; tables = [] }

abbrev aged : Engine host
aged = record engine { snapshots = (9, old_snapshot) ∷ (12, old_snapshot) ∷ [] }

reopen-checkpoint_lost_example :
    reopen [] (checkpoint done aged) ≡ ok (opened [] (checkpoint done aged) empty)
reopen-checkpoint_lost_example =
    reopen-checkpoint_lost aged 9 12 old_snapshot old_snapshot [] refl (omega arith) (omega arith)
      (ground arith)

update_txn-IsChanged_example :
    IsChanged
      (op_put "t" (pos 2) (text "c" ∷ []))
      session
      engine
      (update_txn "t" (pos 2) (text "c" ∷ []) session engine)
update_txn-IsChanged_example = update_txn-IsChanged "t" (pos 2) (text "c" ∷ []) session engine refl

session_commits : (commit_all session engine).0.1 ≡ ok tt
unfolding commit_all commit_checks check_tables revalidate_ops insert_taken find_table find
    get_engine lookup tsql.Storage.Txn.table_def tsql.Storage.Commit.revalidate_op eff_map all_rows
    tsql.Storage.Txn.clashes tsql.Base.any tsql.Storage.Table.uniq_cols
    tsql.Storage.Txn.key_elsewhere overlay tsql.Base.Assoc.insert tsql.Base.Assoc.remove sort_rows
    insert_row tsql.Storage.Table.uniq_key tsql.Storage.Table.uniq_cols_from commit_txn
    commit_records tsql.Storage.Commit.apply_ops tsql.Storage.Commit.apply_op
    tsql.Storage.Wal.append tsql.Storage.Wal.append_all tsql.Storage.Engine.note_write
    tsql.Storage.Engine.on_table tsql.Storage.Table.store_row
session_commits = refl

get_engine-commit_all_example :
    get_engine "t" (pos 2) (commit_all session engine).0.0 ≡ get_txn "t" (pos 2) session engine
get_engine-commit_all_example =
    get_engine-commit_all session engine "t" (pos 2) engine-AreDistinct refl session_commits
