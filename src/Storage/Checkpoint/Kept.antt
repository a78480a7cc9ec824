-- ===== src/Storage/Checkpoint/Kept.antt =====
-- Which snapshot the next Open finds after a checkpoint.
use tsql.Base.{ℕ, ◌+◌, ◌<◌, ◌≤◌, ◌≡◌, ◌≢◌, arith, none, some}
use tsql.Base.{List, [], ◌∷◌, length, nat_eq, ok}
use tsql.Base.Assoc.{lookup, insert, remove, lookup-insert}
use tsql.Platform.{Platform}
use tsql.Storage.Wal.{Outcome, truncate}
use tsql.Storage.Engine.{Engine, Snapshot}
use tsql.Storage.Recovery.{load_latest, loaded, reopen, opened, empty, replay}
use tsql.Storage.Checkpoint.{checkpoint, done, prune_snapshots, remove_files, sort_seqs, insert_seq}
use tsql.Storage.Checkpoint.{snapshot_of}

module _ {P : Platform} where
  length-insert :
      (k : ℕ) (d : Snapshot P) (files : List (ℕ × Snapshot P))
      → length (insert k d files) ≤ length files + 1
  unfolding insert
  length-insert k d [] = omega arith
  length-insert k d ((j, f) ∷ files) = ground (arith, length-insert k d files)

  -- After a checkpoint over at most one older snapshot file, the manifest leads to the snapshot that
  -- it has just written.
  pub load_latest-checkpoint :
      (e : Engine P)
      → length e.snapshots ≤ 1
      → load_latest (checkpoint done e).snapshots (checkpoint done e).manifest
        ≡ some (snapshot_of e)
  unfolding checkpoint prune_snapshots load_latest
  load_latest-checkpoint e h = ground (
    arith,
    length-insert e.wal.seq (snapshot_of e) e.snapshots,
    lookup-insert e.wal.seq e.wal.seq (snapshot_of e) e.snapshots,
  )

  -- With two files of higher numbers the snapshot just written is the one that is pruned.
  pruned :
      (k s t : ℕ) (d a b : Snapshot P)
      → k < s
      → k < t
      → s ≢ t
      → lookup k (prune_snapshots (insert k d ((s, a) ∷ (t, b) ∷ []))) ≡ none
  unfolding prune_snapshots insert lookup sort_seqs insert_seq remove_files remove
  pruned k s t d a b h1 h2 h3 = ground arith

  -- Where two snapshot files exist and both have higher numbers than the log now has, a completed
  -- checkpoint deletes the snapshot that it has written, and the next Open starts with no tables.
  pub reopen-checkpoint_lost :
      (e : Engine P) (s t : ℕ) (a b : Snapshot P) (outcomes : List Outcome)
      → e.snapshots ≡ (s, a) ∷ (t, b) ∷ []
      → e.wal.seq < s
      → e.wal.seq < t
      → s ≢ t
      → reopen outcomes (checkpoint done e) ≡ ok (opened outcomes (checkpoint done e) empty)
  unfolding reopen loaded load_latest checkpoint truncate replay
  reopen-checkpoint_lost e s t a b outcomes h h1 h2 h3 =
      ground (arith, pruned e.wal.seq s t (snapshot_of e) a b)
