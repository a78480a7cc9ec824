-- ===== src/Storage/Durable/Replay.antt =====
-- The replay of a log that grows by one transaction, committed or cut off by a failed append.
use mathlib.Core.List.{append-nil, append_assoc}
use mathlib.Core.Bool.{false≢true}
use tsql.Base.{ℕ, ◌≡◌, ◌≢◌, refl, ◌∙◌, sym, arith, Bool, true, false, List, [], ◌∷◌, ◌++◌}
use tsql.Base.{inl, inr, Bool-cases, Result-cases, All, Result, ok, ◌>>=◌, ◌==◌}
use tsql.Platform.{Platform}
use tsql.Storage.Wal.{WalRecord, begin, put, delete, commit, create, drop, is_commit}
use tsql.Storage.Wal.{Outcome, written, lost, unsynced, hidden, Wal, append_by, append, append_all}
use tsql.Storage.Engine.{Memory, StorageError}
use tsql.Storage.Recovery.{Pending, Replayed, update, buffer, replay, replay_record, apply_pending}

-- No fsync fails, and no record is hidden from ReadRecords by a payload that is too long.
abbrev pub IsReadable : List Outcome → Type 0
IsReadable [] = Unit {0}
IsReadable (unsynced ∷ rest) = ⊥
IsReadable (hidden ∷ rest) = ⊥
IsReadable (_ ∷ rest) = IsReadable rest

module _ {P : Platform} where
  -- A record of one transaction that does not commit it.
  abbrev pub IsBody : ℕ → WalRecord P → Type 0
  IsBody tx (begin t) = t ≡ tx
  IsBody tx (put t id rid row) = t ≡ tx
  IsBody tx (delete t id rid) = t ≡ tx
  IsBody tx (create t name cols) = t ≡ tx
  IsBody tx (drop t name) = t ≡ tx
  IsBody tx (commit t) = ⊥

  -- What the replay buffers of such records.
  abbrev pub payload : List (WalRecord P) → List (WalRecord P)
  payload [] = []
  payload (begin t ∷ rs) = payload rs
  payload (r ∷ rs) = r ∷ payload rs

  pub replay-append :
      (xs ys : List (WalRecord P)) (s : Replayed P)
      → replay (xs ++ ys) s ≡ (replay xs s >>= replay ys)
  unfolding replay
  replay-append [] ys s = refl
  replay-append (x ∷ xs) ys s = elim (Result-cases (replay_record x s)) [
    | inl (s', e) ↦ rw e (replay-append xs ys s')
    | inr (x', e) ↦ rw e refl
  ]

  append_by_ok :
      (r : WalRecord P) (d : Bool) (w : Wal P) (os : List Outcome)
      → IsReadable os
      → (append_by r d w os).1 ≡ true
      → (append_by r d w os).0.log ≡ w.log ++ r ∷ []
  append_by_ok r d w [] s h = refl
  append_by_ok r d w (written ∷ os) s h = refl
  append_by_ok r d w (lost ∷ os) s h = cc
  append_by_ok r d w (unsynced ∷ os) s h = absurd s
  append_by_ok r d w (hidden ∷ os) s h = absurd s

  append_by_lost :
      (r : WalRecord P) (d : Bool) (w : Wal P) (os : List Outcome)
      → IsReadable os
      → (append_by r d w os).1 ≡ false
      → (append_by r d w os).0.log ≡ w.log
  append_by_lost r d w [] s h = cc
  append_by_lost r d w (written ∷ os) s h = cc
  append_by_lost r d w (lost ∷ os) s h = refl
  append_by_lost r d w (unsynced ∷ os) s h = absurd s
  append_by_lost r d w (hidden ∷ os) s h = absurd s

  append_by-IsReadable :
      (r : WalRecord P) (d : Bool) (w : Wal P) (os : List Outcome)
      → IsReadable os
      → IsReadable (append_by r d w os).0.outcomes
  append_by-IsReadable r d w [] s = tt
  append_by-IsReadable r d w (written ∷ os) s = s
  append_by-IsReadable r d w (lost ∷ os) s = s
  append_by-IsReadable r d w (unsynced ∷ os) s = absurd s
  append_by-IsReadable r d w (hidden ∷ os) s = absurd s

  append_ok :
      (r : WalRecord P) (d : Bool) (w : Wal P)
      → IsReadable w.outcomes
      → (append r d w).1 ≡ true
      → (append r d w).0.log ≡ w.log ++ r ∷ []
  unfolding append
  append_ok r d w = append_by_ok r d w w.outcomes

  append_lost :
      (r : WalRecord P) (d : Bool) (w : Wal P)
      → IsReadable w.outcomes
      → (append r d w).1 ≡ false
      → (append r d w).0.log ≡ w.log
  unfolding append
  append_lost r d w = append_by_lost r d w w.outcomes

  append-IsReadable :
      (r : WalRecord P) (d : Bool) (w : Wal P)
      → IsReadable w.outcomes
      → IsReadable (append r d w).0.outcomes
  unfolding append
  append-IsReadable r d w = append_by-IsReadable r d w w.outcomes

  pub append_all-IsReadable :
      (rs : List (WalRecord P)) (w : Wal P)
      → IsReadable w.outcomes
      → IsReadable (append_all rs w).0.outcomes
  unfolding append_all
  append_all-IsReadable [] w s = s
  append_all-IsReadable (r ∷ rs) w s = elim (Bool-cases (append r (is_commit r) w).1) [
    | inl e ↦ rw e (
        append_all-IsReadable rs (append r (is_commit r) w).0
          (append-IsReadable r (is_commit r) w s))
    | inr e ↦ rw e (append-IsReadable r (is_commit r) w s)
  ]

  -- A transaction whose appends all succeed adds all its records.
  pub append_all_ok :
      (rs : List (WalRecord P)) (w : Wal P)
      → IsReadable w.outcomes
      → (append_all rs w).1 ≡ true
      → (append_all rs w).0.log ≡ w.log ++ rs
  unfolding append_all
  append_all_ok [] w s h = sym (append-nil w.log)
  append_all_ok (r ∷ rs) w s h = elim (Bool-cases (append r (is_commit r) w).1) [
    | inl e ↦ rw e (
        append_all_ok rs (append r (is_commit r) w).0 (append-IsReadable r (is_commit r) w s)
          (rw e at h)
        ∙ rw (append_ok r (is_commit r) w s e) (append_assoc w.log (r ∷ []) rs))
    | inr e ↦ absurd (false≢true (rw e at h))
  ]

  -- One that is cut off adds some of the records before its commit.
  pub append_all_lost :
      (Q : WalRecord P → Type 0) (rs : List (WalRecord P)) (c : WalRecord P) (w : Wal P)
      → IsReadable w.outcomes
      → All Q rs
      → (append_all (rs ++ c ∷ []) w).1 ≡ false
      → (front : List (WalRecord P)) × All Q front
        × ((append_all (rs ++ c ∷ []) w).0.log ≡ w.log ++ front)
  unfolding append_all
  append_all_lost Q [] c w s q h = elim (Bool-cases (append c (is_commit c) w).1) [
    | inl e ↦ absurd (false≢true (sym (rw e at h)))
    | inr e ↦ ([], tt, rw e (append_lost c (is_commit c) w s e ∙ sym (append-nil w.log)))
  ]
  append_all_lost Q (r ∷ rs) c w s q h = elim (Bool-cases (append r (is_commit r) w).1) [
    | inl e ↦
        let w' = (append r (is_commit r) w).0 in
        let (front, qs, l) =
          append_all_lost Q rs c w' (append-IsReadable r (is_commit r) w s) q.1 (rw e at h) in
        (
          r ∷ front,
          (q.0, qs),
          rw e (l ∙ rw (append_ok r (is_commit r) w s e) (append_assoc w.log (r ∷ []) front)),
        )
    | inr e ↦ ([], tt, rw e (append_lost r (is_commit r) w s e ∙ sym (append-nil w.log)))
  ]

  -- After uncommitted records of a transaction: its buffer has grown by them, nothing else changed.
  pub record IsBuffered (tx : ℕ) (before after : Pending P) (rs : List (WalRecord P)) : Type 0 where
    pub own : after tx ≡ before tx ++ rs
    pub others : (k : ℕ) → k ≢ tx → after k ≡ before k

  abbrev Buffers :
      ℕ → Memory P → Pending P → List (WalRecord P) → Result StorageError (Replayed P) → Type 0
  Buffers tx m before rs r =
      (after : Pending P) × (r ≡ ok (m, after)) × IsBuffered tx before after rs

  update_self : (p : Pending P) (k : ℕ) (rs : List (WalRecord P)) → update p k rs k ≡ rs
  update_self p k rs = ground arith

  update_ne : (p : Pending P) (k j : ℕ) (rs : List (WalRecord P)) → j ≢ k → update p k rs j ≡ p j
  update_ne p k j rs h = ground arith

  IsBuffered-cons :
      (tx : ℕ) (r : WalRecord P) (before after : Pending P) (rs : List (WalRecord P))
      → IsBuffered tx (update before tx (before tx ++ r ∷ [])) after rs
      → IsBuffered tx before after (r ∷ rs)
  IsBuffered-cons tx r before after rs b = record {
    own =
        b.own
        ∙ rw (update_self before tx (before tx ++ r ∷ [])) (append_assoc (before tx) (r ∷ []) rs);
    others = λ k ne. b.others k ne ∙ update_ne before tx k (before tx ++ r ∷ []) ne;
  }

  Buffers-cons :
      (t tx : ℕ) (r : WalRecord P) (m : Memory P) (before : Pending P) (rs : List (WalRecord P))
      (next : Replayed P → Result StorageError (Replayed P))
      → t ≡ tx
      → Buffers tx m
          (update before tx (before tx ++ r ∷ []))
          rs
          (next (m, update before tx (before tx ++ r ∷ [])))
      → Buffers tx m before (r ∷ rs) (buffer t r (m, before) >>= next)
  Buffers-cons t tx r m before rs next e (after, q, b) =
      rw e (after, q, IsBuffered-cons tx r before after rs b)

  pub replay-body :
      (tx : ℕ) (rs : List (WalRecord P)) (m : Memory P) (before : Pending P)
      → All (IsBody tx) rs
      → Buffers tx m before (payload rs) (replay rs (m, before))
  unfolding replay replay_record
  replay-body tx [] m before h =
      (before, refl, record { own = sym (append-nil (before tx)); others = λ k ne. refl })
  replay-body tx (begin t ∷ rs) m before h = replay-body tx rs m before h.1
  replay-body tx (put t id rid row ∷ rs) m before h =
      Buffers-cons t tx _ m before (payload rs) (replay rs) h.0 (replay-body tx rs m _ h.1)
  replay-body tx (delete t id rid ∷ rs) m before h =
      Buffers-cons t tx _ m before (payload rs) (replay rs) h.0 (replay-body tx rs m _ h.1)
  replay-body tx (create t name cols ∷ rs) m before h =
      Buffers-cons t tx _ m before (payload rs) (replay rs) h.0 (replay-body tx rs m _ h.1)
  replay-body tx (drop t name ∷ rs) m before h =
      Buffers-cons t tx _ m before (payload rs) (replay rs) h.0 (replay-body tx rs m _ h.1)
  replay-body tx (commit t ∷ rs) m before h = absurd h.0

  replay_commit :
      (tx : ℕ) (m m' : Memory P) (pending : Pending P)
      → apply_pending (pending tx) m ≡ ok m'
      → replay (commit tx ∷ []) (m, pending) ≡ ok (m', update pending tx [])
  unfolding replay replay_record
  replay_commit tx m m' pending h = rw h refl

  -- A committed transaction is applied, all of it and nothing else.
  pub replay-committed :
      (tx : ℕ) (rs : List (WalRecord P)) (m m' : Memory P) (before : Pending P)
      → All (IsBody tx) rs
      → before tx ≡ []
      → apply_pending (payload rs) m ≡ ok m'
      → (after : Pending P) × (replay (rs ++ commit tx ∷ []) (m, before) ≡ ok (m', after))
        × ((k : ℕ) → before k ≡ [] → after k ≡ [])
  replay-committed tx rs m m' before h clean applied =
      let (mid, e, b) = replay-body tx rs m before h in
      (
        update mid tx [],
        rw (replay-append rs (commit tx ∷ []) (m, before), e)
            (replay_commit tx m m' mid (rw (b.own, clean) applied)),
        λ k ck. elim (Bool-cases (k == tx)) [
          | inl same ↦ ground arith
          | inr ne ↦ update_ne mid tx k [] (λ q. ground arith) ∙ b.others k (λ q. ground arith) ∙ ck
        ],
      )
