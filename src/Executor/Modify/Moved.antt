-- ===== src/Executor/Modify/Moved.antt =====
-- On execUpdate: an UPDATE that changes the primary key of a row, outside of a transaction.
use tsql.Base.{◌≡◌, refl, ◌∙◌, String, none, ok, err}
use tsql.Base.{◌&&◌, str_eq, if◌then◌else◌}
use tsql.Base.Int.{ℤ, eqb_ℤ, int_eq}
use tsql.Platform.{Platform}
use tsql.Storage.Table.{Row}
use tsql.Storage.Engine.{Engine, StorageError, get_engine, put_engine, delete_engine}
use tsql.Storage.Engine.Failed.{put_shared_failed, get_engine-delete_engine}
use tsql.Storage.Txn.Commits.Visible.{AreDistinct}
use tsql.Executor.ForeignKeys.{engine_view, fk_referenced}
use tsql.Executor.Accessor.{Session, write_error, view_of, acc_put, acc_delete}
use tsql.Executor.Modify.{move_row}

module _ {P : Platform} where
  abbrev pub autocommit : Engine P → Session P
  autocommit e = record { engine = e; txn = none }

  -- What an UPDATE outside of a transaction leaves of a row that it moves to a new id, where no
  -- foreign key refers to the row and the row can be deleted: if the new id cannot be written, as
  -- when it is taken, the statement reports the error, the old row is gone, and every other row is
  -- as it was. No two tables of the catalog share an id.
  pub move_row_lost :
      (name : String) (rid new_id : ℤ) (row : Row P) (e : Engine P) (x : StorageError)
      → AreDistinct e.tables
      → fk_referenced (engine_view e) name rid (name, rid) ≡ ok tt
      → (delete_engine name rid e).1 ≡ ok tt
      → (put_engine name new_id row (delete_engine name rid e).0).1 ≡ err x
      → let r = move_row name rid new_id row (autocommit e) in
        (r.1 ≡ err (write_error x))
        × ((n : String) (i : ℤ)
            → get_engine n i r.0.engine
              ≡ (if str_eq name n && eqb_ℤ rid i then none else get_engine n i e))
  unfolding acc_put acc_delete view_of put_engine
  move_row_lost name rid new_id row e x d fk del put = rw fk (
      rw del (
        rw put (
          refl,
          λ n i.
              put_shared_failed name none new_id row _ (delete_engine name rid e).0 x put n i
              ∙ get_engine-delete_engine name rid e n i d del,
        )))
