-- ===== src/Storage/Checkpoint.antt =====
-- Checkpoint and pruneSnapshots of internal/storage/engine.go.
pub mod Kept
use tsql.Base.{ℕ, Bool, true, false, Option, none, some, List, [], ◌∷◌, map, ltb, if◌then◌else◌}
use tsql.Base.{length, leb, nat_eq}
use tsql.Base.Assoc.{insert, remove}
use tsql.Platform.{Platform}
use tsql.Storage.Table.{Table}
use tsql.Storage.Wal.{truncate}
use tsql.Storage.Engine.{Engine, Snapshot, SnapshotTable}

-- Where a checkpoint ends: it is done, or the step that is named has failed.
pub data CheckpointEnd : Type 0 where
  done snapshot_failed manifest_failed truncate_failed : CheckpointEnd

-- sort.Slice by descending sequence number
unfoldable pub insert_seq : ℕ → List ℕ → List ℕ
insert_seq s [] = s ∷ []
insert_seq s (t ∷ ts) = if ltb s t then t ∷ insert_seq s ts else s ∷ t ∷ ts

unfoldable pub sort_seqs : List ℕ → List ℕ
unfolding insert_seq
sort_seqs [] = []
sort_seqs (s ∷ ss) = insert_seq s (sort_seqs ss)

-- `list[2:]`
abbrev pub past_two : List ℕ → List ℕ
past_two (a ∷ b ∷ rest) = rest
past_two _ = []

module _ {P : Platform} where
  abbrev pub table_snapshot : Table P → SnapshotTable P
  table_snapshot t = record {
    id = t.id;
    name = t.name;
    cols = t.cols;
    rows = t.rows;
    next_id = t.next_id;
  }

  abbrev pub seqs : List (ℕ × Snapshot P) → List ℕ
  seqs [] = []
  seqs ((seq, d) ∷ files) = seq ∷ seqs files

  unfoldable pub remove_files : List ℕ → List (ℕ × Snapshot P) → List (ℕ × Snapshot P)
  unfolding remove
  remove_files [] files = files
  remove_files (seq ∷ rest) files = remove_files rest (remove seq files)

  -- pruneSnapshots: all files but the two of the highest numbers go.
  unfoldable pub prune_snapshots : List (ℕ × Snapshot P) → List (ℕ × Snapshot P)
  unfolding sort_seqs remove_files
  prune_snapshots files =
      if leb (length files) 2 then files else remove_files (past_two (sort_seqs (seqs files))) files

  abbrev pub snapshot_of : Engine P → Snapshot P
  snapshot_of e = record { seq = e.wal.seq; tables = map table_snapshot e.tables }

  abbrev pub with_snapshot : Engine P → Engine P
  with_snapshot e = record e { snapshots = insert e.wal.seq (snapshot_of e) e.snapshots }

  abbrev pub with_manifest : Engine P → Engine P
  with_manifest e = record (with_snapshot e) { manifest = some e.wal.seq }

  -- Checkpoint
  unfoldable pub checkpoint : CheckpointEnd → Engine P → Engine P
  unfolding insert truncate prune_snapshots
  checkpoint snapshot_failed e = e
  checkpoint manifest_failed e = with_snapshot e
  checkpoint truncate_failed e = with_manifest e
  checkpoint done e = record (with_manifest e) {
    wal = truncate e.wal;
    since_checkpoint = 0;
    snapshots = prune_snapshots (with_snapshot e).snapshots;
  }
