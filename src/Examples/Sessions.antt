-- ===== src/Examples/Sessions.antt =====
-- The theorems on statements and connections at concrete inputs.
use tsql.Base.{
  ℕ, ◌≡◌, refl, arith, String, Bool, true, false, ◌&&◌, str_eq, if◌then◌else◌, Option, none, some,
}
use tsql.Base.{List, [], ◌∷◌, ◌++◌, find, any, length, set, leb, All, Result, ok, err, eq_iff}
use tsql.Base.Int.{ℤ, pos, eqb_ℤ}
use tsql.Types.{int, text, type_int, type_text, check}
use tsql.Schema.{Column, TableDef}
use tsql.Storage.Table.{Row}
use tsql.Storage.Engine.{Engine, StorageError, exists, no_table, find_table, get_engine, put_shared}
use tsql.Storage.Engine.{put_engine, delete_engine}
use tsql.Storage.Engine.Failed.{SameRows, put_shared_failed}
use tsql.Storage.Txn.{Txn}
use tsql.Storage.Txn.Writes.{IsUntouched}
use tsql.Storage.Txn.Commits.Visible.{AreDistinct}
use tsql.Executor.Expr.{lit, no_exprs, more_exprs}
use tsql.Executor.Expr.{Exprs}
use tsql.Executor.Accessor.{Session}
use tsql.Executor.Insert.{Insert}
use tsql.Executor.Statement.{Statement, insert}
use tsql.Executor.ForeignKeys.{engine_view, fk_referenced, tables_refer, cols_refer, check_fk}
use tsql.Executor.Accessor.{write_error}
use tsql.Executor.Modify.{move_row}
use tsql.Executor.Modify.Moved.{autocommit, move_row_lost}
use tsql.Executor.Insert.{insert_values}
use tsql.Executor.Rows.{IsAcceptable, insert_values-Fits}
use tsql.Server.{Frame, Request, query, error_frame, ready_frame, run_query, dispatch, disconnect}
use tsql.Server.Inside.{inside}
use tsql.Server.Isolation.{silent, said, Talk-IsUntouched}
use tsql.Server.Replies.{IsReceived, run_query-ended, dispatch-IsReceived}
use tsql.Server.{in_txn}
use tsql.Examples.Wire.{small_codec, ready_sent}
use tsql.Examples.Host.{host}

abbrev pub column : String → String → Bool → Bool → Column
column name type primary not_null = record {
  name = name;
  type = type;
  not_null = not_null;
  primary = primary;
  auto_inc = false;
  unique = false;
  fk_table = "";
  fk_col = "";
}

abbrev pub items : TableDef
items = record {
  name = "items";
  cols = column "id" type_int true false ∷ column "label" type_text false true ∷ [];
}

-- Two items, and no transaction begun yet.
abbrev pub engine : Engine host
engine = record {
  mem = record {
    tables =
        record {
          id = 0;
          name = "items";
          cols = items.cols;
          rows = (pos 1, int (pos 1) ∷ text "a" ∷ []) ∷ (pos 2, int (pos 2) ∷ text "b" ∷ []) ∷ [];
          next_id = pos 3;
          uniq = [];
        }
        ∷ [];
    next_table_id = 1;
  };
  wal = record { log = []; seq = 0; outcomes = [] };
  tx_seq = 1;
  since_checkpoint = 0;
  checkpointing = false;
  snapshots = [];
  manifest = none;
}

abbrev txn : Txn host
txn = record { id = 1; done = false; ops = []; inserts = [] }

abbrev third : Exprs host
third = more_exprs (lit (int (pos 3))) (more_exprs (lit (text "c")) no_exprs)

abbrev insert_into : String → Request host
insert_into name = query (some (insert (record { table = name; cols = []; rows = third ∷ [] })))

abbrev conversation : Session host
conversation = (dispatch 0 (insert_into "items") (inside engine txn)).0

Talk-IsUntouched_example : IsUntouched engine (disconnect conversation).engine
Talk-IsUntouched_example = Talk-IsUntouched (inside engine txn) conversation (
    said 0 (insert_into "items") (inside engine txn) conversation txn refl (λ h. h)
      (silent conversation))

abbrev to_missing : Option (Statement host)
to_missing = some (insert (record { table = "missing"; cols = []; rows = third ∷ [] }))

missing_refused :
    (run_query 0 to_missing (inside engine txn)).1 ≡ error_frame "42P01" ∷ ready_frame false ∷ []
unfolding run_query tsql.Server.run_statement tsql.Executor.Statement.exec
    tsql.Executor.Insert.exec_insert tsql.Executor.Select.table_def_of tsql.Server.fail
    tsql.Server.ready tsql.Executor.Accessor.view_of tsql.Executor.ForeignKeys.txn_view
missing_refused = refl

run_query-ended_example : (run_query 0 to_missing (inside engine txn)).0.txn ≡ none
run_query-ended_example =
    run_query-ended 0 to_missing (inside engine txn) "42P01" (ready_frame false ∷ [])
      missing_refused

dispatch-IsReceived_example :
    IsReceived small_codec (dispatch 0 (insert_into "items") (inside engine txn))
dispatch-IsReceived_example =
    dispatch-IsReceived small_codec 0 (insert_into "items") (inside engine txn)
      (ready_sent (in_txn (dispatch 0 (insert_into "items") (inside engine txn)).0))

abbrev taken_row : Row host
taken_row = int (pos 1) ∷ text "c" ∷ []

taken_refused : (put_shared "items" none (pos 1) taken_row false engine).1 ≡ err exists
unfolding put_shared find_table find tsql.Storage.Engine.put_checks tsql.Storage.Engine.has_row
    tsql.Base.Assoc.lookup
taken_refused = refl

put_shared_failed_example :
    SameRows engine (put_shared "items" none (pos 1) taken_row false engine).0
put_shared_failed_example =
    put_shared_failed "items" none (pos 1) taken_row false engine exists taken_refused

engine-AreDistinct : AreDistinct engine.tables
unfolding find_table find
engine-AreDistinct n k id p q = ground (arith, eq_iff "items" n, eq_iff "items" k)

two_unreferenced : fk_referenced (engine_view engine) "items" (pos 2) ("items", pos 2) ≡ ok tt
unfolding fk_referenced engine_view tables_refer cols_refer
two_unreferenced = refl

two_deleted : (delete_engine "items" (pos 2) engine).1 ≡ ok tt
unfolding delete_engine find_table find tsql.Base.Assoc.lookup tsql.Storage.Engine.txn
    tsql.Storage.Wal.append_all
two_deleted = refl

one_taken :
    (put_engine "items" (pos 1) taken_row (delete_engine "items" (pos 2) engine).0).1 ≡ err exists
unfolding put_engine put_shared delete_engine find_table find tsql.Base.Assoc.lookup
    tsql.Storage.Engine.txn tsql.Storage.Wal.append_all tsql.Storage.Engine.note_write
    tsql.Storage.Engine.on_table tsql.Storage.Table.delete_row tsql.Storage.Engine.put_checks
    tsql.Storage.Engine.has_row tsql.Base.Assoc.remove
one_taken = refl

-- UPDATE items SET id = 1 WHERE id = 2
move_row_lost_example :
    ((move_row "items" (pos 2) (pos 1) taken_row (autocommit engine)).1 ≡ err (write_error exists))
    × ((n : String) (i : ℤ)
        → get_engine n i (move_row "items" (pos 2) (pos 1) taken_row (autocommit engine)).0.engine
          ≡ (if str_eq "items" n && eqb_ℤ (pos 2) i then none else get_engine n i engine))
move_row_lost_example =
    move_row_lost "items" (pos 2) (pos 1) taken_row engine exists engine-AreDistinct
      two_unreferenced two_deleted one_taken

abbrev third_row : Row host
third_row = int (pos 3) ∷ text "c" ∷ []

third_inserted :
    insert_values (engine_view engine) 0 items (0 ∷ 1 ∷ []) third ≡ ok ((none, pos 3), third_row)
unfolding insert_values tsql.Executor.Insert.exprs_length tsql.Executor.Insert.fill_row
    tsql.Executor.Insert.eval_insert_value tsql.Executor.Insert.coerce check
    tsql.Executor.Insert.row_key tsql.Executor.Insert.pk_position
    tsql.Executor.Insert.check_not_null check_fk tsql.Executor.ForeignKeys.check_keys
third_inserted = refl

insert_values-Fits_example : IsAcceptable (engine_view engine) items none third_row
insert_values-Fits_example =
    insert_values-Fits (engine_view engine) 0 items (0 ∷ 1 ∷ []) third (none, pos 3) third_row
      third_inserted
