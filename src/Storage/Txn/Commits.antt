-- ===== src/Storage/Txn/Commits.antt =====
-- On Txn.Commit and commitTxn: the log, the tables and a commit that fails.
pub mod Logged
pub mod Visible
use tsql.Base.{ℕ, ◌≡◌, refl, sym, ◌∙◌, ap, arith, Bool, true, false, List, [], ◌∷◌, ◌++◌}
use tsql.Base.{Result, ok, err, ◌&&◌, not, ◌==◌, if◌then◌else◌, Bool-cases, Result-cases, inl, inr}
use tsql.Platform.{Platform}
use tsql.Storage.Wal.{WalRecord, Wal, commit, append_all}
use tsql.Storage.Engine.{Engine, Memory, StorageError, set_wal, note_write}
use tsql.Storage.Txn.{Op, Txn}
use tsql.Storage.Commit.{apply_ops, applied_ops, apply_logged, commit_records, log_and_apply}
use tsql.Storage.Txn.{closed}
use tsql.Storage.Commit.{commit_txn, commit_ops, commit_checks, commit_checked, commit_all}
use tsql.Storage.Txn.Commits.Logged.{commit_records-IsLoggedFor}
use tsql.Storage.Recovery.{apply_pending}
use tsql.Storage.Durable.Ops.{note_write_quiet}
use tsql.Storage.Durable.Strip.{strip}
use tsql.Storage.Durable.Replay.{IsReadable}
use tsql.Storage.Durable.Writes.{
  IsDurable, IsKept, IsDurable-IsKept, IsKept-IsDurable, IsKept-fewer, committed, cut_off,
}
use tsql.Storage.Txn.Commits.Visible.{AreDistinct}

-- The transactions that stay open when one ends.
abbrev pub without : ℕ → (ℕ → Bool) → ℕ → Bool
without id live k = live k && not (k == id)

without_fewer : (id : ℕ) (live : ℕ → Bool) (k : ℕ) → without id live k ≡ true → live k ≡ true
without_fewer id live k h = ground arith

without_self : (id : ℕ) (live : ℕ → Bool) → without id live id ≡ false
without_self id live = ground arith

module _ {P : Platform} where
  commit_txn-IsKept :
      {base : Memory P} {e : Engine P} {live : ℕ → Bool} (d : IsKept base live e) (id : ℕ)
      (ops : List (Op P))
      → live id ≡ true
      → IsKept base (without id live) (commit_txn id ops e).0
  unfolding commit_txn
  commit_txn-IsKept {e = e} {live} d id ops open_id =
      elim (Result-cases (commit_records id ops e)) [
        | inr (x, q) ↦ rw (q, commit_txn) (IsKept-fewer d (without_fewer id live))
        | inl (recs, q) ↦
            let l = commit_records-IsLoggedFor id ops e recs q in
            let f = l.follows d.rebuilt e.mem (d.same_tables, d.same_next, λ name. refl) in
            let w = append_all (recs ++ commit id ∷ []) e.wal in
            let e' : Engine P = record e { wal = w.0 } in
            elim (Bool-cases w.1) [
              | inl done ↦
                  rw (q, commit_txn)
                    (rw done (
                      rw (f.applied, applied_ops)
                        (let u : Engine P = record e' { mem = f.stored } in
                          let (a, b, c, s) = note_write_quiet u in
                          committed d id recs l.body (note_write u) (without id live) c
                            (omega (arith, s)) (without_fewer id live) f.rebuilt done
                            (d.clean id open_id) (rw l.plain f.replayed)
                            (f.tables ∙ sym (ap strip a)) (f.next ∙ sym b))))
              | inr failed ↦
                  rw (q, commit_txn)
                    (rw failed (
                      cut_off d id recs l.body e' (without id live) refl (omega arith)
                        (without_fewer id live) failed (d.begun id open_id) (without_self id live)
                        refl refl))
            ]
      ]

  -- From a durable engine, committing the buffer of an open transaction ends in a durable engine,
  -- whether the commit succeeds or fails, and the other open transactions stay clean. No fsync fails,
  -- no record is longer than ReadRecords accepts, and no two names lead to tables with one id.
  pub commit_txn-IsDurable :
      {base : Memory P} {e : Engine P} {live : ℕ → Bool} (d : IsDurable base live e) (id : ℕ)
      (ops : List (Op P))
      → IsReadable e.wal.outcomes
      → AreDistinct e.tables
      → live id ≡ true
      → IsDurable base (without id live) (commit_txn id ops e).0
        × IsReadable (commit_txn id ops e).0.wal.outcomes
  commit_txn-IsDurable d id ops s distinct open_id =
      let k = commit_txn-IsKept (IsDurable-IsKept d s) id ops open_id in
      (IsKept-IsDurable k, k.synced)

  applied_failed :
      (ops : List (Op P)) (e : Engine P) (r : Result StorageError (Memory P)) (x : StorageError)
      → (applied_ops e r).1 ≡ err x
      → (applied_ops e r).0.mem ≡ e.mem
  applied_failed ops e (ok m) x h = cc
  applied_failed ops e (err y) x h = refl

  log_failed :
      (id : ℕ) (ops : List (Op P)) (e : Engine P) (r : Result StorageError (List (WalRecord P)))
      (x : StorageError)
      → (log_and_apply id ops e r).1 ≡ err x
      → (log_and_apply id ops e r).0.mem ≡ e.mem
  log_failed id ops e (err y) x h = refl
  log_failed id ops e (ok recs) x h =
      let w = append_all (recs ++ commit id ∷ []) e.wal in
      elim (Bool-cases w.1) [
        | inl done ↦
            rw done
              (applied_failed ops (record e { wal = w.0 }) (apply_ops ops e.mem) x (rw done at h))
        | inr failed ↦ rw failed refl
      ]

  ops_failed :
      (id : ℕ) (ops : List (Op P)) (e : Engine P) (x : StorageError)
      → (commit_ops id ops e).1 ≡ err x
      → (commit_ops id ops e).0.mem ≡ e.mem
  unfolding commit_txn
  ops_failed id [] e x h = refl
  ops_failed id (o ∷ os) e x h = log_failed id (o ∷ os) e (commit_records id (o ∷ os) e) x h

  checked_failed :
      (t : Txn P) (e : Engine P) (r : Result StorageError (Unit {0})) (x : StorageError)
      → (commit_checked t e r).0.1 ≡ err x
      → (commit_checked t e r).0.0.mem ≡ e.mem
  checked_failed t e (err y) x h = refl
  checked_failed t e (ok u) x h = ops_failed t.id t.ops e x h

  -- A commit that fails has changed no table.
  pub commit_all_failed :
      (t : Txn P) (e : Engine P) (x : StorageError)
      → (commit_all t e).0.1 ≡ err x
      → (commit_all t e).0.0.mem ≡ e.mem
  unfolding commit_all
  commit_all_failed t e x = by_state t.done
    where
      by_state :
          (b : Bool)
          → (if b then ((e, ok tt), t) else commit_checked t e (commit_checks t e)).0.1 ≡ err x
          → (if b then ((e, ok tt), t) else commit_checked t e (commit_checks t e)).0.0.mem ≡ e.mem
      by_state true h = refl
      by_state false h = checked_failed t e (commit_checks t e) x h
