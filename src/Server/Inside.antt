-- ===== src/Server/Inside.antt =====
-- On internal/executor over a transaction: the writes go to the buffer, not to the shared tables.
use tsql.Base.{
  ℕ, ◌≡◌, refl, sym, ◌∙◌, ap, String, Bool, true, false, Option, none, some, List, [], ◌∷◌,
}
use tsql.Base.{Result, ok, err, Bool-cases, inl, inr}
use tsql.Base.Int.{ℤ}
use mathlib.Core.Path.{subst}
use tsql.Platform.{Platform}
use tsql.Schema.{Column, TableDef}
use tsql.Storage.Table.{Row}
use tsql.Storage.Engine.{Engine, StorageError}
use tsql.Storage.Txn.{
  Txn, put_txn, put_auto_txn, insert_at, insert_opened, reserve_or, opening, fits,
}
use tsql.Storage.Txn.Writes.{IsUntouched, IsUntouched-refl, reserve_or-IsUntouched}
use tsql.Executor.Expr.{Expr, Exprs}
use tsql.Executor.Eval.{Context}
use tsql.Executor.ForeignKeys.{fk_referenced}
use tsql.Executor.Catalog.{StatementError}
use tsql.Executor.Join.{lifted}
use tsql.Executor.Select.{table_def_of}
use tsql.Executor.Accessor.{Session, Step, with_ok, and_then, view_of}
use tsql.Executor.Accessor.{acc_put, acc_put_auto, acc_update, acc_delete}
use tsql.Executor.Insert.{
  Insert, insert_targets, insert_values, put_values, insert_rows, exec_insert,
}
use tsql.Executor.Modify.{Update, Delete, exec_update, exec_delete, write_updated, moved_to}
use tsql.Executor.Modify.{update_rows, delete_rows, checked_row, set_columns, validate_sets}
use tsql.Executor.Modify.{ready_filter, table_context, collect_candidates}

module _ {P : Platform} where
  pub IsUntouched-trans : (a b c : Engine P) → IsUntouched a b → IsUntouched b c → IsUntouched a c
  IsUntouched-trans a b c h k = record {
    rows = λ name rid. k.rows name rid ∙ h.rows name rid;
    wal = k.wal ∙ h.wal;
  }

  insert_at-IsUntouched :
      (name : String) (pk : Option ℕ) (row : Row P) (cols : List Column) (eff : List (ℤ × Row P))
      (t : Txn P) (e e' : Engine P) (got : Result StorageError ℤ)
      → IsUntouched e e'
      → IsUntouched e (insert_at name pk row cols eff t (e', got)).0
  insert_at-IsUntouched name pk row cols eff t e e' (err x) u = u
  insert_at-IsUntouched name pk row cols eff t e e' (ok rid) u = u

  insert_opened-IsUntouched :
      (name : String) (pk : Option ℕ) (rid : ℤ) (row : Row P) (t : Txn P) (e : Engine P)
      (o : Result StorageError (List Column × List (ℤ × Row P)))
      → IsUntouched e (insert_opened name pk rid row t e o).0
  insert_opened-IsUntouched name pk rid row t e (err x) = IsUntouched-refl e
  insert_opened-IsUntouched name pk rid row t e (ok (cols, eff)) =
      elim (Bool-cases (fits row cols)) [
        | inl h ↦ rw h (
            insert_at-IsUntouched name pk row cols eff t e (reserve_or name rid e).0
              (reserve_or name rid e).1 (reserve_or-IsUntouched name rid e))
        | inr h ↦ rw h (IsUntouched-refl e)
      ]

  abbrev pub inside : Engine P → Txn P → Session P
  inside e t = record { engine = e; txn = some t }

  -- A transaction is in flight, and the shared tables and the log are those of an engine.
  abbrev pub IsInside : Engine P → Session P → Type 0
  IsInside e s = (e' : Engine P) × (t : Txn P) × (s ≡ inside e' t) × IsUntouched e e'

  pub with_ok-IsInside :
      {A B : Type 0} (e : Engine P) (s : Session P) (r : Result StatementError A) (f : A → Step P B)
      → IsInside e s
      → ((a : A) → IsInside e (f a).0)
      → IsInside e (with_ok s r f).0
  with_ok-IsInside e s (ok a) f h k = k a
  with_ok-IsInside e s (err x) f h k = h

  pub and_then-IsInside :
      {A B : Type 0} (e : Engine P) (s : Session P) (r : Result StatementError A)
      (f : Session P → A → Step P B)
      → IsInside e s
      → ((s2 : Session P) (a : A) → IsInside e s2 → IsInside e (f s2 a).0)
      → IsInside e (and_then (s, r) f).0
  and_then-IsInside e s (ok a) f h k = k s a h
  and_then-IsInside e s (err x) f h k = h

  acc_put-IsInside :
      (e : Engine P) (name : String) (rid : ℤ) (row : Row P) (s : Session P)
      → IsInside e s
      → IsInside e (acc_put name rid row s).0
  unfolding acc_put put_txn
  acc_put-IsInside e name rid row s (e', t, q, u) =
      subst (λ s. IsInside e (acc_put name rid row s).0) (sym q)
        (
          (put_txn name rid row t e').0,
          (put_txn name rid row t e').1,
          refl,
          IsUntouched-trans e e' _ u
              (insert_opened-IsUntouched name none rid row t e' (opening name t e')),
        )

  acc_put_auto-IsInside :
      (e : Engine P) (name : String) (pk : ℕ) (row : Row P) (s : Session P)
      → IsInside e s
      → IsInside e (acc_put_auto name pk row s).0
  unfolding acc_put_auto put_auto_txn
  acc_put_auto-IsInside e name pk row s (e', t, q, u) =
      subst (λ s. IsInside e (acc_put_auto name pk row s).0) (sym q)
        (
          (put_auto_txn name pk row t e').0,
          (put_auto_txn name pk row t e').1,
          refl,
          IsUntouched-trans e e' _ u (
              insert_opened-IsUntouched name (some pk) (tsql.Base.Int.pos 0) row t e'
                (opening name t e')),
        )

  acc_update-IsInside :
      (e : Engine P) (name : String) (rid : ℤ) (row : Row P) (s : Session P)
      → IsInside e s
      → IsInside e (acc_update name rid row s).0
  unfolding acc_update
  acc_update-IsInside e name rid row s (e', t, q, u) =
      subst (λ s. IsInside e (acc_update name rid row s).0) (sym q) (e', _, refl, u)

  acc_delete-IsInside :
      (e : Engine P) (name : String) (rid : ℤ) (s : Session P)
      → IsInside e s
      → IsInside e (acc_delete name rid s).0
  unfolding acc_delete
  acc_delete-IsInside e name rid s (e', t, q, u) =
      subst (λ s. IsInside e (acc_delete name rid s).0) (sym q) (e', _, refl, u)

  put_values-IsInside :
      (e : Engine P) (name : String) (key : Option ℕ × ℤ) (row : Row P) (s : Session P)
      → IsInside e s
      → IsInside e (put_values name (key, row) s).0
  put_values-IsInside e name (some pk, rid) row s h = acc_put_auto-IsInside e name pk row s h
  put_values-IsInside e name (none, rid) row s h = acc_put-IsInside e name rid row s h

  insert_rows-IsInside :
      (e : Engine P) (now : P.Time) (def : TableDef) (name : String) (targets : List ℕ)
      (rows : List (Exprs P)) (s : Session P)
      → IsInside e s
      → IsInside e (insert_rows now def name targets rows s).0
  unfolding insert_rows
  insert_rows-IsInside e now def name targets [] s h = h
  insert_rows-IsInside e now def name targets (es ∷ rows) s h =
      with_ok-IsInside e s (lifted (insert_values (view_of s) now def targets es)) _ h (λ v.
        and_then-IsInside e (put_values name v s).0 (put_values name v s).1 _
          (put_values-IsInside e name v.0 v.1 s h)
          (λ s2 u k. insert_rows-IsInside e now def name targets rows s2 k))

  write_updated-IsInside :
      (e : Engine P) (name : String) (rid : ℤ) (moved : Option ℤ) (row : Row P) (s : Session P)
      → IsInside e s
      → IsInside e (write_updated name rid moved row s).0
  write_updated-IsInside e name rid none row s h = acc_update-IsInside e name rid row s h
  write_updated-IsInside e name rid (some new_id) row s h =
      with_ok-IsInside e s (lifted (fk_referenced (view_of s) name rid (name, rid))) _ h (λ u.
        and_then-IsInside e (acc_delete name rid s).0 (acc_delete name rid s).1 _
          (acc_delete-IsInside e name rid s h) (λ s2 v k. acc_put-IsInside e name new_id row s2 k))

  update_rows-IsInside :
      (e : Engine P) (c : Context P) (def : TableDef) (name : String) (sets : List (ℕ × Expr P))
      (rows : List (ℤ × Row P)) (s : Session P)
      → IsInside e s
      → IsInside e (update_rows c def name sets rows s).0
  unfolding update_rows
  update_rows-IsInside e c def name sets [] s h = h
  update_rows-IsInside e c def name sets ((rid, old) ∷ rest) s h =
      with_ok-IsInside e s (lifted (checked_row (view_of s) c def sets old)) _ h (λ row.
        let w = write_updated name rid (moved_to def.cols old row) row s in
        and_then-IsInside e w.0 w.1 _
          (write_updated-IsInside e name rid (moved_to def.cols old row) row s h)
          (λ s2 u k. update_rows-IsInside e c def name sets rest s2 k))

  delete_rows-IsInside :
      (e : Engine P) (name : String) (rows : List (ℤ × Row P)) (s : Session P)
      → IsInside e s
      → IsInside e (delete_rows name rows s).0
  unfolding delete_rows
  delete_rows-IsInside e name [] s h = h
  delete_rows-IsInside e name ((rid, row) ∷ rest) s h =
      with_ok-IsInside e s (lifted (fk_referenced (view_of s) name rid (name, rid))) _ h (λ u.
        and_then-IsInside e (acc_delete name rid s).0 (acc_delete name rid s).1 _
          (acc_delete-IsInside e name rid s h) (λ s2 v k. delete_rows-IsInside e name rest s2 k))

  pub exec_insert-IsInside :
      (e : Engine P) (now : P.Time) (q : Insert P) (s : Session P)
      → IsInside e s
      → IsInside e (exec_insert now q s).0
  unfolding exec_insert
  exec_insert-IsInside e now q s h =
      with_ok-IsInside e s (lifted (table_def_of q.table (view_of s).catalog)) _ h (λ def.
        with_ok-IsInside e s (lifted (insert_targets def.cols q.cols)) _ h (λ targets.
          let r = insert_rows now def q.table targets q.rows s in
          and_then-IsInside e r.0 r.1 _ (insert_rows-IsInside e now def q.table targets q.rows s h)
            (λ s2 u k. k)))

  pub exec_update-IsInside :
      (e : Engine P) (now : P.Time) (q : Update P) (s : Session P)
      → IsInside e s
      → IsInside e (exec_update now q s).0
  unfolding exec_update
  exec_update-IsInside e now q s h =
      with_ok-IsInside e s (lifted (table_def_of q.table (view_of s).catalog)) _ h (λ def.
        let c = table_context now def in
        with_ok-IsInside e s (lifted (set_columns def.cols q.sets)) _ h (λ sets.
          with_ok-IsInside e s (lifted (validate_sets c.scope q.sets)) _ h (λ u.
            with_ok-IsInside e s (ready_filter (view_of s) now c.scope q.filter) _ h (λ w.
              with_ok-IsInside e s (collect_candidates (view_of s) c q.table def w) _ h (λ cands.
                let r = update_rows c def q.table sets cands s in
                and_then-IsInside e r.0 r.1 _ (update_rows-IsInside e c def q.table sets cands s h)
                  (λ s2 v k. k))))))

  pub exec_delete-IsInside :
      (e : Engine P) (now : P.Time) (q : Delete P) (s : Session P)
      → IsInside e s
      → IsInside e (exec_delete now q s).0
  unfolding exec_delete
  exec_delete-IsInside e now q s h =
      with_ok-IsInside e s (lifted (table_def_of q.table (view_of s).catalog)) _ h (λ def.
        let c = table_context now def in
        with_ok-IsInside e s (ready_filter (view_of s) now c.scope q.filter) _ h (λ w.
          with_ok-IsInside e s (collect_candidates (view_of s) c q.table def w) _ h (λ cands.
            let r = delete_rows q.table cands s in
            and_then-IsInside e r.0 r.1 _ (delete_rows-IsInside e q.table cands s h)
              (λ s2 u k. k))))
