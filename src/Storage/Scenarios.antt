-- ===== src/Storage/Scenarios.antt =====
-- Runs of internal/storage across crashes, for every cell value.
use tsql.Base.{ℕ, String, ◌≡◌, refl, false, none, some, List, [], ◌∷◌, any}
use tsql.Base.{ok, err}
use tsql.Base.Int.{pos, inc64, wrap64, ◌+ℤ◌}
use tsql.Base.Assoc.{lookup, insert}
use tsql.Platform.{Platform}
use tsql.Types.{Value, type_text, valid_types}
use tsql.Schema.{
  Column, validate, validate_cols, check_column, count_primary, is_ident, all_ident_chars,
}
use tsql.Schema.{is_letter, is_digit, normalize_pk_type}
use tsql.Storage.Table.{store_row, violates_unique, uniq_cols, uniq_cols_from, forget_old}
use tsql.Storage.Table.{set_row_keys, set_keys, build_uniq, build_uniq_from}
use tsql.Storage.Wal.{Outcome, written, lost, append, append_all, truncate}
use tsql.Storage.Engine.{Engine, unknown_table_id, find_table, find_id, on_table}
use tsql.Storage.Engine.{
  drop_named, add_table, txn, note_write, create_table, drop_table, has_row, reserved,
}
use tsql.Storage.Engine.{put_row, put_checks, put_shared, get_engine}
use tsql.Storage.Operations.{Operation, create_op, drop_op, put_op, run, run_all}
use tsql.Storage.Recovery.{
  replay, replay_record, apply_record, apply_pending, load_tables, load_latest, loaded, reopen,
}
use tsql.Storage.Checkpoint.{checkpoint, done, prune_snapshots}
use tsql.Storage.Durable.Recovered.{start}

-- A nullable text column.
abbrev plain : String → Column
plain name = record {
  name = name;
  type = type_text;
  not_null = false;
  primary = false;
  auto_inc = false;
  unique = false;
  fk_table = "";
  fk_col = "";
}

-- The disk fails at the sixth append, the commit record of a put.
abbrev cut : List Outcome
cut = written ∷ written ∷ written ∷ written ∷ written ∷ lost ∷ []

module _ {P : Platform} where
  abbrev put_text : String → ℕ → Value P → Operation P
  put_text name rid v = put_op name none (pos rid) (v ∷ []) false

  abbrev create_one : String → Operation P
  create_one name = create_op name (plain "x" ∷ [])

  -- Tables a, b and c, where b is dropped before the checkpoint and c is created after it.
  abbrev recycled : Value P → Engine P
  recycled v =
      run_all (create_one "c" ∷ put_text "c" 1 v ∷ [])
        (checkpoint done (run_all (create_one "a" ∷ create_one "b" ∷ drop_op "b" ∷ []) (start [])))

  -- Open fails after that run: the put refers to a table id that recovery has not given.
  recycled_fails : (v : Value P) → reopen [] (recycled v) ≡ err (unknown_table_id 2)
  unfolding run_all run create_table validate validate_cols check_column count_primary is_ident
      all_ident_chars is_letter is_digit normalize_pk_type any valid_types find_table txn append_all
      append add_table drop_table drop_named put_shared put_checks has_row lookup put_row reserved
      violates_unique uniq_cols uniq_cols_from on_table note_write store_row forget_old insert
      set_row_keys set_keys inc64 checkpoint truncate prune_snapshots reopen loaded load_latest
      load_tables build_uniq build_uniq_from replay replay_record apply_pending apply_record find_id
  recycled_fails v = refl

  abbrev crashed : Value P → Engine P
  crashed v = run_all (create_one "t" ∷ put_text "t" 1 v ∷ []) (start cut)

  abbrev reopened : Engine P → Engine P
  reopened e = elim (reopen [] e) [ ok r ↦ r | err x ↦ e ]

  abbrev resumed : Value P → Value P → Engine P
  resumed v w = run_all (create_one "u" ∷ put_text "t" 2 w ∷ []) (reopened (crashed v))

  -- A put that failed is gone after the first recovery and is back after the second.
  resurrected :
      (v w : Value P)
      → (get_engine "t" (pos 1) (reopened (crashed v)) ≡ none)
        × (get_engine "t" (pos 1) (resumed v w) ≡ none)
        × (get_engine "t" (pos 1) (reopened (resumed v w)) ≡ some (v ∷ []))
  unfolding run_all run create_table validate validate_cols check_column count_primary is_ident
      all_ident_chars is_letter is_digit normalize_pk_type any valid_types find_table txn append_all
      append add_table drop_table drop_named put_shared put_checks has_row lookup put_row reserved
      violates_unique uniq_cols uniq_cols_from on_table note_write store_row forget_old insert
      set_row_keys set_keys inc64 checkpoint truncate prune_snapshots reopen loaded load_latest
      load_tables build_uniq build_uniq_from replay replay_record apply_pending apply_record find_id
      get_engine wrap64 ◌+ℤ◌
  resurrected v w = (refl, refl, refl)
