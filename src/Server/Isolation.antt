-- ===== src/Server/Isolation.antt =====
-- On dispatch in internal/server/server.go: a connection in a transaction and the shared tables.
use tsql.Base.{
  ℕ, ◌≡◌, refl, sym, Option, none, some, Result, ok, err, Option-cases, inl, inr, find, str_eq,
}
use mathlib.Core.Path.{subst}
use tsql.Platform.{Platform}
use tsql.Storage.Engine.{Engine}
use tsql.Storage.Txn.{Txn}
use tsql.Storage.Txn.Writes.{IsUntouched, IsUntouched-refl}
use tsql.Executor.Catalog.{StatementError}
use tsql.Executor.Select.{exec_select}
use tsql.Schema.{TableDef}
use tsql.Executor.Insert.{exec_insert}
use tsql.Executor.Modify.{exec_update, exec_delete}
use tsql.Executor.Accessor.{Session, Step, view_of, and_then}
use tsql.Executor.Statement.{
  Statement, Answer, affected, exec, create_table, drop_table, insert, select_rows,
}
use tsql.Executor.Statement.{update, delete, begin, commit, rollback}
use tsql.Server.{Request, query, tables, databases, describe, other_type, error_code}
use tsql.Server.{
  ready, fail, answered, run_statement, run_query, run_describe, described, dispatch, disconnect,
}
use tsql.Server.Inside.{IsInside, inside, with_ok-IsInside, and_then-IsInside, IsUntouched-trans}
use tsql.Server.Inside.{exec_insert-IsInside, exec_update-IsInside, exec_delete-IsInside}

-- Whether a message is COMMIT.
abbrev pub IsCommit : {P : Platform} → Request P → Type 0
IsCommit (query (some commit)) = Unit {0}
IsCommit r = ⊥

module _ {P : Platform} where
  answered-IsUntouched :
      (e : Engine P) (s : Session P) (r : Result StatementError (Answer P))
      → IsUntouched e s.engine
      → IsUntouched e (answered (s, r)).0.engine
  unfolding ready fail
  answered-IsUntouched e s (ok a) u = u
  answered-IsUntouched e s (err x) u = elim (Option-cases (error_code x)) [
    | inl h ↦ rw h u
    | inr (code, h) ↦ rw h u
  ]

  answered-IsInside :
      (e : Engine P) (r : Step P (Answer P)) → IsInside e r.0 → IsUntouched e (answered r).0.engine
  answered-IsInside e (s, r) (e', t, q, u) =
      answered-IsUntouched e s r (subst (λ s. IsUntouched e s.engine) (sym q) u)

  abbrev counted : ℕ → Result StatementError (Answer P)
  counted n = ok (affected n)

  counted-IsInside :
      (e : Engine P) (r : Step P ℕ)
      → IsInside e r.0
      → IsInside e (and_then r (λ s n. (s, counted n))).0
  counted-IsInside e (s, r) h = and_then-IsInside e s r _ h (λ s2 n k. k)

  run_statement-IsUntouched :
      (now : P.Time) (q : Statement P) (e : Engine P) (t : Txn P)
      → (IsCommit (query (some q)) → ⊥)
      → IsUntouched e (run_statement now q (inside e t)).0.engine
  unfolding run_statement ready fail exec
  run_statement-IsUntouched now begin e t n = IsUntouched-refl e
  run_statement-IsUntouched now commit e t n = absurd (n tt)
  run_statement-IsUntouched now rollback e t n = IsUntouched-refl e
  run_statement-IsUntouched now (create_table q) e t n = IsUntouched-refl e
  run_statement-IsUntouched now (drop_table q) e t n = IsUntouched-refl e
  run_statement-IsUntouched now (insert q) e t n =
      answered-IsInside e (exec now (insert q) (inside e t)) (
        counted-IsInside e (exec_insert now q (inside e t))
          (exec_insert-IsInside e now q (inside e t) (e, t, refl, IsUntouched-refl e)))
  run_statement-IsUntouched now (select_rows q) e t n =
      answered-IsInside e (exec now (select_rows q) (inside e t)) (
        with_ok-IsInside e (inside e t) (exec_select (view_of (inside e t)) now q) _
          (e, t, refl, IsUntouched-refl e) (λ res. (e, t, refl, IsUntouched-refl e)))
  run_statement-IsUntouched now (update q) e t n =
      answered-IsInside e (exec now (update q) (inside e t)) (
        counted-IsInside e (exec_update now q (inside e t))
          (exec_update-IsInside e now q (inside e t) (e, t, refl, IsUntouched-refl e)))
  run_statement-IsUntouched now (delete q) e t n =
      answered-IsInside e (exec now (delete q) (inside e t)) (
        counted-IsInside e (exec_delete now q (inside e t))
          (exec_delete-IsInside e now q (inside e t) (e, t, refl, IsUntouched-refl e)))

  described-IsUntouched :
      (e : Engine P) (t : Txn P) (d : Option TableDef)
      → IsUntouched e (described d (inside e t)).0.engine
  unfolding ready
  described-IsUntouched e t none = IsUntouched-refl e
  described-IsUntouched e t (some d) = IsUntouched-refl e

  dispatch-inside :
      (now : P.Time) (r : Request P) (e : Engine P) (t : Txn P)
      → (IsCommit r → ⊥)
      → IsUntouched e (dispatch now r (inside e t)).0.engine
  unfolding dispatch run_query run_describe ready fail
  dispatch-inside now (query none) e t n = IsUntouched-refl e
  dispatch-inside now (query (some q)) e t n = run_statement-IsUntouched now q e t n
  dispatch-inside now tables e t n = IsUntouched-refl e
  dispatch-inside now databases e t n = IsUntouched-refl e
  dispatch-inside now (describe name) e t n =
      described-IsUntouched e t (find (λ d. str_eq d.name name) (view_of (inside e t)).catalog)
  dispatch-inside now other_type e t n = IsUntouched-refl e

  -- In a transaction every message but COMMIT leaves each committed row and the log as they were,
  -- whatever it answers.
  pub dispatch-IsUntouched :
      (now : P.Time) (r : Request P) (s : Session P) (t : Txn P)
      → s.txn ≡ some t
      → (IsCommit r → ⊥)
      → IsUntouched s.engine (dispatch now r s).0.engine
  dispatch-IsUntouched now r s t h n =
      let q : s ≡ inside s.engine t = λ i. record { engine = s.engine; txn = h i } in
      subst (λ x. IsUntouched s.engine (dispatch now r x).0.engine) (sym q)
        (dispatch-inside now r s.engine t n)

  -- The messages of a connection while its transaction is in flight, COMMIT left out.
  pub data Talk : Session P → Session P → Type 0 where
    silent : (s : Session P) → Talk s s
    said :
        (now : P.Time) (r : Request P) (s s2 : Session P) (t : Txn P)
        → s.txn ≡ some t
        → (IsCommit r → ⊥)
        → Talk (dispatch now r s).0 s2
        → Talk s s2

  -- However long a connection goes on without COMMIT, and whether ROLLBACK, an error or the loss of
  -- the connection ends its transaction, the committed rows and the log are those from before.
  pub Talk-IsUntouched :
      (s s2 : Session P) → Talk s s2 → IsUntouched s.engine (disconnect s2).engine
  Talk-IsUntouched s s2 (silent _) = IsUntouched-refl s.engine
  Talk-IsUntouched s s2 (said now r _ _ t h n k) =
      IsUntouched-trans s.engine (dispatch now r s).0.engine s2.engine
        (dispatch-IsUntouched now r s t h n) (Talk-IsUntouched (dispatch now r s).0 s2 k)
