-- ===== src/Storage/Wal.antt =====
-- internal/storage/wal.go: the records of the write-ahead log, and appending to it. The file is
-- the list of the records that ReadRecords would decode from it.
use tsql.Base.{ℕ, ◌+◌, String, Bool, true, false, List, [], ◌∷◌, ◌++◌, if◌then◌else◌}
use tsql.Base.Int.{ℤ}
use tsql.Platform.{Platform}
use tsql.Schema.{Column}
use tsql.Storage.Table.{Row}

-- Record, with the payload of each of its types; the first number is the transaction.
pub data WalRecord (P : Platform) : Type 0 where
  begin : ℕ → WalRecord P
  put : ℕ → ℕ → ℤ → Row P → WalRecord P
  delete : ℕ → ℕ → ℤ → WalRecord P
  commit : ℕ → WalRecord P
  create : ℕ → String → List Column → WalRecord P
  drop : ℕ → String → WalRecord P

-- How one append ends: the record is in the file; the write or flush failed and it is not; it is in
-- the file and the fsync failed; or Append returns no error, but ReadRecords does not come to the
-- record, since it or one before it has a longer payload than ReadRecords accepts (Storage.Frame has
-- the bytes).
pub data Outcome : Type 0 where
  written lost unsynced hidden : Outcome

pub record Wal (P : Platform) : Type 0 where
  pub log : List (WalRecord P)
  pub seq : ℕ
  -- what the disk does with the next appends; past the end of the list they succeed
  pub outcomes : List Outcome

module _ {P : Platform} where
  abbrev pub is_commit : WalRecord P → Bool
  is_commit (commit tx) = true
  is_commit _ = false

  abbrev pub write : WalRecord P → List Outcome → Wal P → Wal P × Bool
  write r rest w = (record { log = w.log ++ r ∷ []; seq = w.seq + 1; outcomes = rest }, true)

  abbrev pub append_by : WalRecord P → Bool → Wal P → List Outcome → Wal P × Bool
  append_by r durable w [] = write r [] w
  append_by r durable w (written ∷ rest) = write r rest w
  append_by r durable w (lost ∷ rest) = (record w { outcomes = rest }, false)
  append_by r durable w (hidden ∷ rest) = (record w { seq = w.seq + 1; outcomes = rest }, true)
  append_by r false w (unsynced ∷ rest) = write r rest w
  append_by r true w (unsynced ∷ rest) =
      (record { log = w.log ++ r ∷ []; seq = w.seq; outcomes = rest }, false)

  -- WAL.Append; the fsync is made for a durable record only
  unfoldable pub append : WalRecord P → Bool → Wal P → Wal P × Bool
  append r durable w = append_by r durable w w.outcomes

  -- Appends in a row, up to the first that fails; a commit record is durable.
  unfoldable pub append_all : List (WalRecord P) → Wal P → Wal P × Bool
  unfolding append
  append_all [] w = (w, true)
  append_all (r ∷ rs) w =
      let (w', done) = append r (is_commit r) w in
      let rest = append_all rs w' in if done then rest else (w', false)

  -- WAL.Truncate
  unfoldable pub truncate : Wal P → Wal P
  truncate w = record w { log = []; seq = 0 }
