-- ===== src/Server/Replies.antt =====
-- On runQuery, fail and ready in internal/server/server.go: what a client is told.
use tsql.Base.{
  Bool, true, false, ◌≡◌, refl, String, Option, none, some, Option-cases, List, [], ◌∷◌, find,
  str_eq,
}
use tsql.Base.{Result, ok, err, ◌⊎◌, inl, inr, sym, Bool-cases, Result-cases}
use mathlib.Core.Path.{subst}
use tsql.Base.Bytes.{Bytes}
use tsql.Protocol.{JsonCodec, FrameError, write_frame}
use tsql.Platform.{Platform}
use tsql.Schema.{TableDef}
use tsql.Storage.Engine.{Engine, StorageError}
use tsql.Storage.Txn.{Txn}
use tsql.Storage.Commit.{commit_all}
use tsql.Executor.Accessor.{Session, Step, view_of}
use tsql.Executor.Statement.{Statement, Answer, selected, affected, exec, create_table, drop_table}
use tsql.Executor.Statement.{insert, select_rows, update, delete, begin, commit, rollback}
use tsql.Server.{
  Frame, has_panicked, written, error_frame, ready_frame, panicked, Request, query, tables,
  databases,
}
use tsql.Server.{
  describe, other_type, error_code, commit_code, in_txn, ready, fail, answered, committed,
}
use tsql.Server.{run_statement, run_query, run_describe, described, dispatch}

module _ {P : Platform} where
  -- A frame of type "ready".
  abbrev pub is_ready : Frame P → Bool
  is_ready (ready_frame b) = true
  is_ready f = false

  -- A reply is one frame of another type and a ready frame that tells whether a transaction is in
  -- flight, both handed to WriteFrame, unless the process panics.
  abbrev pub IsReply : Session P × List (Frame P) → Type 0
  IsReply r =
      ((f : Frame P) × (r.1 ≡ f ∷ ready_frame (in_txn r.0) ∷ []) × (is_ready f ≡ false))
      ⊎ (r.1 ≡ panicked ∷ [])

  -- After an error no transaction is in flight.
  abbrev IsEnded : Session P × List (Frame P) → Type 0
  IsEnded r =
      (code : String) (rest : List (Frame P)) → r.1 ≡ error_frame code ∷ rest → r.0.txn ≡ none

  abbrev IsSound : Session P × List (Frame P) → Type 0
  IsSound r = IsReply r × IsEnded r

  fail-IsSound : (code : String) (s : Session P) → IsSound (fail code s)
  unfolding fail ready
  fail-IsSound code s = (inl (error_frame code, refl, refl), λ c rest h. refl)

  answered-IsSound : (r : Step P (Answer P)) → IsSound (answered r)
  unfolding ready
  answered-IsSound (s, ok (selected res)) = (inl (_, refl, refl), λ c rest h. cc)
  answered-IsSound (s, ok (affected n)) = (inl (_, refl, refl), λ c rest h. cc)
  answered-IsSound (s, err x) = elim (Option-cases (error_code x)) [
    | inl h ↦ rw h (inr refl, λ c rest k. cc)
    | inr (code, h) ↦ rw h (fail-IsSound code s)
  ]

  committed-IsSound :
      (r : (Engine P × Result StorageError (Unit {0})) × Txn P) → IsSound (committed r)
  unfolding ready
  committed-IsSound ((e, ok u), t) = (inl (_, refl, refl), λ c rest h. refl)
  committed-IsSound ((e, err x), t) =
      fail-IsSound (commit_code x) (record { engine = e; txn = some t })

  run_statement-IsSound :
      (now : P.Time) (q : Statement P) (e : Engine P) (o : Option (Txn P))
      → IsSound (run_statement now q (record { engine = e; txn = o }))
  unfolding run_statement ready
  run_statement-IsSound now begin e none = (inl (_, refl, refl), λ c rest h. cc)
  run_statement-IsSound now begin e (some t) = (inl (_, refl, refl), λ c rest h. cc)
  run_statement-IsSound now commit e none = fail-IsSound "25006" (record { engine = e; txn = none })
  run_statement-IsSound now commit e (some t) = committed-IsSound (commit_all t e)
  run_statement-IsSound now rollback e none =
      fail-IsSound "25006" (record { engine = e; txn = none })
  run_statement-IsSound now rollback e (some t) = (inl (_, refl, refl), λ c rest h. refl)
  run_statement-IsSound now (create_table q) e none =
      answered-IsSound (exec now (create_table q) (record { engine = e; txn = none }))
  run_statement-IsSound now (create_table q) e (some t) =
      fail-IsSound "25000" (record { engine = e; txn = some t })
  run_statement-IsSound now (drop_table q) e none =
      answered-IsSound (exec now (drop_table q) (record { engine = e; txn = none }))
  run_statement-IsSound now (drop_table q) e (some t) =
      fail-IsSound "25000" (record { engine = e; txn = some t })
  run_statement-IsSound now (insert q) e o =
      answered-IsSound (exec now (insert q) (record { engine = e; txn = o }))
  run_statement-IsSound now (select_rows q) e o =
      answered-IsSound (exec now (select_rows q) (record { engine = e; txn = o }))
  run_statement-IsSound now (update q) e o =
      answered-IsSound (exec now (update q) (record { engine = e; txn = o }))
  run_statement-IsSound now (delete q) e o =
      answered-IsSound (exec now (delete q) (record { engine = e; txn = o }))

  run_query-IsSound :
      (now : P.Time) (q : Option (Statement P)) (s : Session P) → IsSound (run_query now q s)
  unfolding run_query
  run_query-IsSound now none s = fail-IsSound "42601" s
  run_query-IsSound now (some q) s = run_statement-IsSound now q s.engine s.txn

  -- A query that is answered with an error, of syntax, of execution or of a commit, leaves the
  -- connection with no transaction in flight.
  pub run_query-ended :
      (now : P.Time) (q : Option (Statement P)) (s : Session P) (code : String)
      (rest : List (Frame P))
      → (run_query now q s).1 ≡ error_frame code ∷ rest
      → (run_query now q s).0.txn ≡ none
  run_query-ended now q s code rest h = (run_query-IsSound now q s).1 code rest h

  described-IsReply : (d : Option TableDef) (s : Session P) → IsReply (described d s)
  unfolding ready
  described-IsReply none s = inl (_, refl, refl)
  described-IsReply (some d) s = inl (_, refl, refl)

  dispatch_frames : (now : P.Time) (r : Request P) (s : Session P) → IsReply (dispatch now r s)
  unfolding dispatch run_describe ready
  dispatch_frames now (query q) s = (run_query-IsSound now q s).0
  dispatch_frames now tables s = inl (_, refl, refl)
  dispatch_frames now databases s = inl (_, refl, refl)
  dispatch_frames now (describe name) s =
      described-IsReply (find (λ d. str_eq d.name name) (view_of s).catalog) s
  dispatch_frames now other_type s = inl (_, refl, refl)

  -- WriteFrame encodes the frame within the bound of its length.
  abbrev pub IsSendable : JsonCodec (Frame P) → Frame P → Type 0
  IsSendable j f = (b : Bytes) × (write_frame j f ≡ ok b)

  -- What the client receives for an answer: a frame and the ready frame, the ready frame alone where
  -- WriteFrame fails on the frame before it, or nothing from a process that panics.
  abbrev pub IsReceived : JsonCodec (Frame P) → Session P × List (Frame P) → Type 0
  IsReceived j r =
      ((f : Frame P) × (is_ready f ≡ false)
        × (r.1 ≡ f ∷ ready_frame (in_txn r.0) ∷ [])
        × ((IsSendable j f × (written j r.1 ≡ f ∷ ready_frame (in_txn r.0) ∷ []))
            ⊎ ((x : FrameError) × (write_frame j f ≡ err x)
                × (written j r.1 ≡ ready_frame (in_txn r.0) ∷ []))))
      ⊎ ((has_panicked r.1 ≡ true) × (written j r.1 ≡ []))

  written_pair :
      (j : JsonCodec (Frame P)) (f : Frame P) (b : Bool)
      → IsSendable j (ready_frame b)
      → has_panicked (f ∷ ready_frame b ∷ []) ≡ false
      → (IsSendable j f × (written j (f ∷ ready_frame b ∷ []) ≡ f ∷ ready_frame b ∷ []))
        ⊎ ((x : FrameError) × (write_frame j f ≡ err x)
            × (written j (f ∷ ready_frame b ∷ []) ≡ ready_frame b ∷ []))
  unfolding written
  written_pair j f b (bytes, k) p = elim (Result-cases (write_frame j f)) [
    | inl (c, h) ↦ inl ((c, h), rw p (rw h (rw k refl)))
    | inr (x, h) ↦ inr (x, h, rw p (rw h (rw k refl)))
  ]

  written_panic :
      (j : JsonCodec (Frame P)) (f : Frame P) (fs : List (Frame P))
      → has_panicked (f ∷ fs) ≡ true
      → written j (f ∷ fs) ≡ []
  unfolding written
  written_panic j f fs p = rw p refl

  reply-IsReceived :
      (j : JsonCodec (Frame P)) (s : Session P) (fs : List (Frame P))
      → IsSendable j (ready_frame (in_txn s))
      → IsReply (s, fs)
      → IsReceived j (s, fs)
  reply-IsReceived j s fs k (inl (f, q, n)) =
      elim (Bool-cases (has_panicked (f ∷ ready_frame (in_txn s) ∷ []))) [
        | inl p ↦ subst (λ fs. IsReceived j (s, fs)) (sym q) (inr (p, written_panic j f _ p))
        | inr p ↦
            subst (λ fs. IsReceived j (s, fs)) (sym q)
              (inl (f, n, refl, written_pair j f (in_txn s) k p))
      ]
  reply-IsReceived j s fs k (inr q) =
      subst (λ fs. IsReceived j (s, fs)) (sym q) (inr (refl, written_panic j panicked [] refl))

  -- Every message of a client is answered by one frame that is not a ready frame and a ready frame
  -- that tells truly whether a transaction is in flight; where WriteFrame fails on the first of them,
  -- by the ready frame alone; or by nothing where the process panics.
  -- WriteFrame can write that ready frame.
  pub dispatch-IsReceived :
      (j : JsonCodec (Frame P)) (now : P.Time) (r : Request P) (s : Session P)
      → IsSendable j (ready_frame (in_txn (dispatch now r s).0))
      → IsReceived j (dispatch now r s)
  dispatch-IsReceived j now r s k =
      reply-IsReceived j (dispatch now r s).0 (dispatch now r s).1 k (dispatch_frames now r s)
