-- ===== src/Server.antt =====
-- internal/server/server.go: what one connection does with each message, the frames that it hands to
-- WriteFrame, and those of them that WriteFrame sends.
pub mod Inside
pub mod Isolation
pub mod Replies
pub mod Connection
use Prim.Native.String.{◌++◌ as join_text}
use tsql.Base.{ℕ, String, Bool, true, false, ◌||◌, Option, none, some, List, [], ◌∷◌, map, find}
use tsql.Base.{str_eq, if◌then◌else◌, Result, ok, err}
use tsql.Base.Int.{ℤ}
use tsql.Protocol.{JsonCodec, write_frame}
use tsql.Platform.{Platform}
use tsql.Types.{Value, null, int, float, text, bool, time}
use tsql.Schema.{Column, TableDef}
use tsql.Storage.Table.{Row, Table}
use tsql.Storage.Engine.{Engine, StorageError, unique}
use tsql.Storage.Txn.{Txn, begin_txn}
use tsql.Storage.Commit.{commit_all}
use tsql.Executor.Expr.{SqlError, sql_err, runtime_panic}
use tsql.Executor.Catalog.{StatementError, reported, passed_on}
use tsql.Executor.Select.{Output}
use tsql.Executor.Accessor.{Session, Step, view_of}
use tsql.Executor.Statement.{Statement, Answer, selected, affected, exec}
use tsql.Executor.Statement.{create_table, drop_table, begin, commit, rollback}

-- The values of a JSON row.
pub data Json (P : Platform) : Type 0 where
  json_null : Json P
  json_int : ℤ → Json P
  json_float : P.Float → Json P
  json_text : String → Json P
  json_bool : Bool → Json P

-- The messages to the client: Columns and Rows, Affected, Code, whether Txn is "in-txn", Tables, and
-- Name with the Rows of a description. A panic sends nothing and ends the process.
pub data Frame (P : Platform) : Type 0 where
  result_frame : List String → List (List (Json P)) → Frame P
  ok_frame : ℕ → Frame P
  error_frame : String → Frame P
  ready_frame : Bool → Frame P
  tables_frame : List String → Frame P
  databases_frame : List String → Frame P
  describe_frame : String → List (List String) → Frame P
  panicked : Frame P

-- A client's message; a query comes with what Parse makes of it, none for its error.
pub data Request (P : Platform) : Type 0 where
  query : Option (Statement P) → Request P
  tables : Request P
  databases : Request P
  describe : String → Request P
  other_type : Request P

abbrev pub error_code : StatementError → Option String
error_code (reported (sql_err code)) = some code
error_code (reported runtime_panic) = none
error_code (passed_on x) = some "58030"

abbrev pub commit_code : StorageError → String
commit_code unique = "23505"
commit_code x = "58030"

-- One row of runDescribe.
abbrev pub key_of : Column → String
key_of c = if c.primary then "PK" else if c.unique then "UNI" else ""

abbrev pub extra_of : Column → String
extra_of c =
    let auto = if c.auto_inc then "auto_increment" else "" in
    if str_eq c.fk_table ""
    then auto
    else (let ref =
          join_text "references " (join_text c.fk_table (join_text "(" (join_text c.fk_col ")"))) in
        if c.auto_inc then join_text auto (join_text " " ref) else ref)

unfoldable pub describe_column : Column → List String
describe_column c =
    c.name ∷ c.type ∷ key_of c ∷ (if c.not_null || c.primary then "no" else "yes") ∷ extra_of c ∷ []

module _ {P : Platform} where
  unfoldable pub to_json : Value P → Json P
  to_json null = json_null
  to_json (int i) = json_int i
  to_json (float f) = json_float f
  to_json (text s) = json_text s
  to_json (bool b) = json_bool b
  to_json (time t) = json_text (P.format_seconds t)

  abbrev pub in_txn : Session P → Bool
  in_txn s = elim s.txn [ none ↦ false | some t ↦ true ]

  -- The call of WriteFrame on a frame, and the one on the ready frame behind it.
  unfoldable pub ready : Frame P → Session P → Session P × List (Frame P)
  ready f s = (s, f ∷ ready_frame (in_txn s) ∷ [])

  -- fail: the transaction in flight is discarded
  unfoldable pub fail : String → Session P → Session P × List (Frame P)
  unfolding ready
  fail code s = ready (error_frame code) (record s { txn = none })

  abbrev pub answer_frame : Answer P → Frame P
  answer_frame (selected res) = result_frame res.columns (map (map to_json) res.rows)
  answer_frame (affected n) = ok_frame n

  abbrev pub fail_with : Option String → Session P → Session P × List (Frame P)
  fail_with (some code) s = fail code s
  fail_with none s = (s, panicked ∷ [])

  abbrev pub answered : Step P (Answer P) → Session P × List (Frame P)
  answered (s, ok a) = ready (answer_frame a) s
  answered (s, err x) = fail_with (error_code x) s

  abbrev pub begun : Session P → Engine P × Txn P → Session P × List (Frame P)
  begun s (e, t) = ready (ok_frame 0) (record { engine = e; txn = some t })

  abbrev pub committed :
      (Engine P × Result StorageError (Unit {0})) × Txn P → Session P × List (Frame P)
  committed ((e, ok u), t) = ready (ok_frame 0) (record { engine = e; txn = none })
  committed ((e, err x), t) = fail (commit_code x) (record { engine = e; txn = some t })

  -- runQuery behind Parse
  unfoldable pub run_statement : P.Time → Statement P → Session P → Session P × List (Frame P)
  run_statement now begin s = elim s.txn [
    | some t ↦ ready (ok_frame 0) s
    | none ↦ begun s (begin_txn s.engine)
  ]
  run_statement now commit s = elim s.txn [
    | none ↦ fail "25006" s
    | some t ↦ committed (commit_all t s.engine)
  ]
  run_statement now rollback s = elim s.txn [
    | none ↦ fail "25006" s
    | some t ↦ ready (ok_frame 0) (record s { txn = none })
  ]
  run_statement now (create_table q) s = elim s.txn [
    | some t ↦ fail "25000" s
    | none ↦ answered (exec now (create_table q) s)
  ]
  run_statement now (drop_table q) s = elim s.txn [
    | some t ↦ fail "25000" s
    | none ↦ answered (exec now (drop_table q) s)
  ]
  run_statement now q s = answered (exec now q s)

  unfoldable pub run_query : P.Time → Option (Statement P) → Session P → Session P × List (Frame P)
  run_query now none s = fail "42601" s
  run_query now (some q) s = run_statement now q s

  abbrev pub described : Option TableDef → Session P → Session P × List (Frame P)
  described none s = ready (error_frame "42P01") s
  described (some d) s = ready (describe_frame d.name (map describe_column d.cols)) s

  unfoldable pub run_describe : String → Session P → Session P × List (Frame P)
  run_describe name s = described (find (λ d. str_eq d.name name) (view_of s).catalog) s

  unfoldable pub dispatch : P.Time → Request P → Session P → Session P × List (Frame P)
  dispatch now (query q) s = run_query now q s
  dispatch now tables s = ready (tables_frame (map (λ d. d.name) (view_of s).catalog)) s
  dispatch now databases s = ready (databases_frame ("tsql" ∷ [])) s
  dispatch now (describe name) s = run_describe name s
  dispatch now other_type s = ready (error_frame "0A000") s

  -- The deferred call of handle: a connection that ends in a transaction discards it.
  abbrev pub disconnect : Session P → Session P
  disconnect s = record s { txn = none }

  -- A panic ends the process.
  abbrev pub has_panicked : List (Frame P) → Bool
  has_panicked (panicked ∷ fs) = true
  has_panicked fs = false

  -- What the calls of WriteFrame on these frames send. Its error is ignored: a frame that JSON cannot
  -- encode, or one longer than a frame may be, is left out, and the calls behind it go on. A panic
  -- sends nothing.
  unfoldable pub written : JsonCodec (Frame P) → List (Frame P) → List (Frame P)
  written j [] = []
  written j (f ∷ fs) =
      let rest = written j fs in
      if has_panicked (f ∷ fs)
      then []
      else (elim (write_frame j f) [ ok b ↦ f ∷ rest | err x ↦ rest ])
