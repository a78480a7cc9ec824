-- ===== src/Storage/Durable/Writes.antt =====
-- The invariant that recovery rests on, and the two ways in which a transaction extends the log.
use tsql.Base.{ℕ, ◌<◌, ◌≤◌, ◌≡◌, ap, ◌∙◌, sym, arith, Bool, true, false}
use tsql.Base.{List, [], ◌∷◌, ◌++◌, All, Result, ok}
use mathlib.Core.Bool.{false≢true}
use tsql.Platform.{Platform}
use tsql.Storage.Wal.{WalRecord, commit, Wal, append_all}
use tsql.Storage.Engine.{Engine, Memory, StorageError}
use tsql.Storage.Recovery.{Pending, Replayed, no_pending, replay, apply_pending}
use tsql.Storage.Durable.Strip.{strip}
use tsql.Storage.Durable.Replay.{IsReadable, IsBody, payload, replay-append, append_all_ok}
use tsql.Storage.Durable.Replay.{append_all_lost, append_all-IsReadable, replay-body}
use tsql.Storage.Durable.Replay.{replay-committed}

module _ {P : Platform} where
  -- Replaying the log over `base` gives the tables in memory, up to their next ids. Transactions
  -- that are still open (`live`), and those to come, have nothing in the log.
  pub record IsDurable (base : Memory P) (live : ℕ → Bool) (e : Engine P) : Type 0 where
    pub rebuilt : Memory P
    pub pending : Pending P
    pub replays : replay e.wal.log (base, no_pending) ≡ ok (rebuilt, pending)
    pub same_tables : strip rebuilt.tables ≡ strip e.tables
    pub same_next : rebuilt.next_table_id ≡ e.next_table_id
    pub fresh : (tx : ℕ) → e.tx_seq < tx → pending tx ≡ []
    pub clean : (tx : ℕ) → live tx ≡ true → pending tx ≡ []
    pub begun : (tx : ℕ) → live tx ≡ true → tx ≤ e.tx_seq

  -- The same with a disk that fails no fsync and with records that can be read back: replaying the
  -- log over `base` gives the tables in memory, up to their next ids. Transactions
  -- that are still open (`live`), and those to come, have nothing in the log.
  pub record IsKept (base : Memory P) (live : ℕ → Bool) (e : Engine P) : Type 0 where
    pub rebuilt : Memory P
    pub pending : Pending P
    pub replays : replay e.wal.log (base, no_pending) ≡ ok (rebuilt, pending)
    pub same_tables : strip rebuilt.tables ≡ strip e.tables
    pub same_next : rebuilt.next_table_id ≡ e.next_table_id
    pub fresh : (tx : ℕ) → e.tx_seq < tx → pending tx ≡ []
    pub clean : (tx : ℕ) → live tx ≡ true → pending tx ≡ []
    pub begun : (tx : ℕ) → live tx ≡ true → tx ≤ e.tx_seq
    pub synced : IsReadable e.wal.outcomes

  pub IsDurable-IsKept :
      {base : Memory P} {live : ℕ → Bool} {e : Engine P}
      → IsDurable base live e
      → IsReadable e.wal.outcomes
      → IsKept base live e
  IsDurable-IsKept d s = record {
    rebuilt = d.rebuilt;
    pending = d.pending;
    replays = d.replays;
    same_tables = d.same_tables;
    same_next = d.same_next;
    fresh = d.fresh;
    clean = d.clean;
    begun = d.begun;
    synced = s;
  }

  pub IsKept-IsDurable :
      {base : Memory P} {live : ℕ → Bool} {e : Engine P}
      → IsKept base live e
      → IsDurable base live e
  IsKept-IsDurable d = record {
    rebuilt = d.rebuilt;
    pending = d.pending;
    replays = d.replays;
    same_tables = d.same_tables;
    same_next = d.same_next;
    fresh = d.fresh;
    clean = d.clean;
    begun = d.begun;
  }

  extend_log :
      (w w' : Wal P) (base m : Memory P) (p : Pending P) (rs : List (WalRecord P))
      (r : Result StorageError (Replayed P))
      → replay w.log (base, no_pending) ≡ ok (m, p)
      → w'.log ≡ w.log ++ rs
      → replay rs (m, p) ≡ r
      → replay w'.log (base, no_pending) ≡ r
  extend_log w w' base m p rs r h l k =
      ap (λ log. replay log (base, no_pending)) l
      ∙ replay-append w.log rs (base, no_pending)
      ∙ rw h k

  module _ {base : Memory P} {e : Engine P} {live : ℕ → Bool} (d : IsKept base live e) (tx : ℕ)
      (rs : List (WalRecord P)) (body : All (IsBody tx) rs) (e' : Engine P) (live' : ℕ → Bool)
      (wal' : e'.wal ≡ (append_all (rs ++ commit tx ∷ []) e.wal).0) (later : e.tx_seq ≤ e'.tx_seq)
      (fewer : (k : ℕ) → live' k ≡ true → live k ≡ true) where
    synced' : IsReadable e'.wal.outcomes
    synced' = rw wal' (append_all-IsReadable (rs ++ commit tx ∷ []) e.wal d.synced)

    pub committed :
        (m' : Memory P)
        → (append_all (rs ++ commit tx ∷ []) e.wal).1 ≡ true
        → d.pending tx ≡ []
        → apply_pending (payload rs) d.rebuilt ≡ ok m'
        → strip m'.tables ≡ strip e'.tables
        → m'.next_table_id ≡ e'.next_table_id
        → IsKept base live' e'
    committed m' done free applied tables next =
        let (after, e1, kept) = replay-committed tx rs d.rebuilt m' d.pending body free applied in
        record {
          rebuilt = m';
          pending = after;
          replays =
              extend_log e.wal e'.wal base d.rebuilt d.pending (rs ++ commit tx ∷ []) _ d.replays
                (ap (λ w. w.log) wal' ∙ append_all_ok (rs ++ commit tx ∷ []) e.wal d.synced done)
                e1;
          same_tables = tables;
          same_next = next;
          fresh = λ k h. kept k (d.fresh k (omega arith));
          clean = λ k h. kept k (d.clean k (fewer k h));
          begun = λ k h. omega (arith, d.begun k (fewer k h));
          synced = synced';
        }

    pub cut_off :
        (append_all (rs ++ commit tx ∷ []) e.wal).1 ≡ false
        → tx ≤ e'.tx_seq
        → live' tx ≡ false
        → strip e.tables ≡ strip e'.tables
        → e.next_table_id ≡ e'.next_table_id
        → IsKept base live' e'
    cut_off failed old dead tables next =
        let (front, qs, l) =
          append_all_lost (IsBody tx) rs (commit tx) e.wal d.synced body failed in
        let (after, e1, b) = replay-body tx front d.rebuilt d.pending qs in
        record {
          rebuilt = d.rebuilt;
          pending = after;
          replays =
              extend_log e.wal e'.wal base d.rebuilt d.pending front _ d.replays
                (ap (λ w. w.log) wal' ∙ l) e1;
          same_tables = d.same_tables ∙ tables;
          same_next = d.same_next ∙ next;
          fresh = λ k h. b.others k (λ q. absurd (omega arith)) ∙ d.fresh k (omega arith);
          clean = λ k h.
              b.others k (λ q. false≢true (sym dead ∙ ap live' (sym q) ∙ h))
              ∙ d.clean k (fewer k h);
          begun = λ k h. omega (arith, d.begun k (fewer k h));
          synced = synced';
        }

  -- Transactions may end without a trace.
  pub IsKept-fewer :
      {base : Memory P} {e : Engine P} {live live' : ℕ → Bool}
      → IsKept base live e
      → ((k : ℕ) → live' k ≡ true → live k ≡ true)
      → IsKept base live' e
  IsKept-fewer d fewer = record {
    rebuilt = d.rebuilt;
    pending = d.pending;
    replays = d.replays;
    same_tables = d.same_tables;
    same_next = d.same_next;
    fresh = d.fresh;
    clean = λ k h. d.clean k (fewer k h);
    begun = λ k h. d.begun k (fewer k h);
    synced = d.synced;
  }
