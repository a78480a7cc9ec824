-- ===== src/Storage/Engine/Failed.antt =====
-- On put and Delete in internal/storage/engine.go: the rows after an autocommit write.
use tsql.Base.{
  ℕ, ◌≡◌, refl, sym, ap, ◌∙◌, arith, String, Bool, true, false, ◌&&◌, str_eq, Option, none, some,
}
use tsql.Base.{
  List, Result, ok, err, Bool-cases, Option-cases, Result-cases, inl, inr, if◌then◌else◌,
}
use tsql.Base.Int.{ℤ, pos, eqb_ℤ, ltb_ℤ, int_eq}
use tsql.Base.Assoc.{lookup}
use mathlib.Core.Path.{subst}
use tsql.Platform.{Platform}
use tsql.Storage.Table.{Row, Table, violates_unique, stamp, store_row, delete_row}
use tsql.Storage.Wal.{WalRecord, put, delete}
use tsql.Storage.Engine.{Engine, StorageError, get_engine, find_table, edit, on_mem, txn, finish}
use tsql.Storage.Engine.{put_row, put_found, put_shared, put_checks, put_id, reserved, note_write}
use tsql.Storage.Engine.{delete_found, delete_engine, no_table}
use tsql.Storage.Engine.{on_table, delete_looked}
use tsql.Storage.Txn.{op_delete}
use tsql.Storage.Durable.Ops.{note_write_quiet}
use tsql.Storage.Txn.Commits.Visible.{AreDistinct, row_in, row_in-edit, get_engine-row_in}
use tsql.Storage.Txn.Writes.{find_table-on_table}

module _ {P : Platform} where
  -- The same rows under every name and id.
  abbrev pub SameRows : Engine P → Engine P → Type 0
  SameRows e e' = (n : String) (i : ℤ) → get_engine n i e' ≡ get_engine n i e

  SameRows-refl : (e : Engine P) → SameRows e e
  SameRows-refl e n i = refl

  next_id_only :
      (e : Engine P) (id : ℕ) (next : ℤ)
      → SameRows e (on_mem (edit id (λ u. record u { next_id = next })) e)
  unfolding get_engine
  next_id_only e id next n i =
      ground
        (arith, find_table-on_table n id (λ u. record u { next_id = next }) e.tables (λ u. refl))

  finish_failed :
      {A : Type 0} (effect : Engine P → Engine P) (a : A) (x : StorageError) (r : Engine P × Bool)
      → (finish effect a r).1 ≡ err x
      → (finish effect a r).0 ≡ r.0
  finish_failed effect a x (e, true) h = cc
  finish_failed effect a x (e, false) h = refl

  txn_tables : (fn : ℕ → WalRecord P) (e : Engine P) → SameRows e (txn fn e).0
  unfolding txn get_engine
  txn_tables fn e n i = refl

  logged_failed :
      {A : Type 0} (effect : Engine P → Engine P) (a : A) (x : StorageError) (fn : ℕ → WalRecord P)
      (e : Engine P)
      → (finish effect a (txn fn e)).1 ≡ err x
      → SameRows e (finish effect a (txn fn e)).0
  logged_failed effect a x fn e h =
      subst (SameRows e) (sym (finish_failed effect a x (txn fn e) h)) (txn_tables fn e)

  put_row_failed :
      (t : Table P) (pk : Option ℕ) (rid : ℤ) (row : Row P) (e : Engine P) (x : StorageError)
      → (put_row t pk rid row e).1 ≡ err x
      → SameRows e (put_row t pk rid row e).0
  unfolding put_row
  put_row_failed t pk rid row e x h =
      let t2 : Table P = record t { next_id = reserved t rid } in
      let row2 = stamp pk (put_id t rid) row in
      let e2 = on_mem (edit t.id (λ u. record u { next_id = reserved t rid })) e in
      elim (Bool-cases (violates_unique t2 (put_id t rid) row2)) [
        | inl q ↦ rw q (next_id_only e t.id (reserved t rid))
        | inr q ↦ rw q (λ n i.
            logged_failed (λ e. note_write (on_mem (edit t.id (store_row (put_id t rid) row2)) e))
              (put_id t rid) x (λ tx. put tx t.id (put_id t rid) row2) e2 (rw q at h) n i
            ∙ next_id_only e t.id (reserved t rid) n i)
      ]

  put_found_failed :
      (t : Table P) (pk : Option ℕ) (rid : ℤ) (row : Row P) (must_exist : Bool) (e : Engine P)
      (x : StorageError)
      → (put_found t pk rid row must_exist e).1 ≡ err x
      → SameRows e (put_found t pk rid row must_exist e).0
  put_found_failed t pk rid row must_exist e x h =
      elim (Result-cases (put_checks t rid row must_exist)) [
        | inl (u, q) ↦ rw (q, put_found) (put_row_failed t pk rid row e x (rw (q, put_found) at h))
        | inr (y, q) ↦ rw (q, put_found) (SameRows-refl e)
      ]

  put_shared-put_found :
      (name : String) (pk : Option ℕ) (rid : ℤ) (row : Row P) (must_exist : Bool) (e : Engine P)
      (t : Table P)
      → ltb_ℤ rid (pos 0) ≡ false
      → (must_exist && eqb_ℤ rid (pos 0)) ≡ false
      → find_table name e.tables ≡ some t
      → put_shared name pk rid row must_exist e ≡ put_found t pk rid row must_exist e
  unfolding put_shared
  put_shared-put_found name pk rid row must_exist e t q r z = rw (q, r) (rw (z, put_shared) refl)

  -- A Put, PutAuto or Update that fails, in a check, at the UNIQUE index or at the disk, changes no
  -- row of any table.
  pub put_shared_failed :
      (name : String) (pk : Option ℕ) (rid : ℤ) (row : Row P) (must_exist : Bool) (e : Engine P)
      (x : StorageError)
      → (put_shared name pk rid row must_exist e).1 ≡ err x
      → SameRows e (put_shared name pk rid row must_exist e).0
  unfolding put_shared
  put_shared_failed name pk rid row must_exist e x h = elim (Bool-cases (ltb_ℤ rid (pos 0))) [
    | inl q ↦ rw q (SameRows-refl e)
    | inr q ↦ elim (Bool-cases (must_exist && eqb_ℤ rid (pos 0))) [
      | inl r ↦ rw (q, r) (SameRows-refl e)
      | inr r ↦ elim (Option-cases (find_table name e.tables)) [
        | inl z ↦ rw (q, r) (rw (z, put_shared) (SameRows-refl e))
        | inr (t, z) ↦
            subst (λ w. w.1 ≡ err x → SameRows e w.0)
              (sym (put_shared-put_found name pk rid row must_exist e t q r z))
              (put_found_failed t pk rid row must_exist e x) h
      ]
    ]
  ]

  finish_done :
      {A : Type 0} (effect : Engine P → Engine P) (a b : A) (r : Engine P × Bool)
      → (finish effect a r).1 ≡ ok b
      → (finish effect a r).0 ≡ effect r.0
  finish_done effect a b (e, true) h = refl
  finish_done effect a b (e, false) h = cc

  -- The tables after a Delete that found its row.
  abbrev after_delete : Table P → ℤ → Engine P → List (Table P)
  after_delete t rid e = on_table t.id (delete_row rid) e.tables

  delete_found-tables :
      (t : Table P) (rid : ℤ) (e : Engine P)
      → (delete_found t rid e).1 ≡ ok tt
      → (delete_found t rid e).0.tables ≡ after_delete t rid e
  unfolding txn
  delete_found-tables t rid e h = by_row (lookup rid t.rows) h
    where
      by_row :
          (o : Option (Row P))
          → (delete_looked t rid e o).1 ≡ ok tt
          → (delete_looked t rid e o).0.tables ≡ after_delete t rid e
      by_row none h = cc
      by_row (some old) h =
          let effect = λ (u : Engine P). note_write (on_mem (edit t.id (delete_row rid)) u) in
          let r = txn (λ tx. delete tx t.id rid) e in
          ap (λ (u : Engine P). u.tables) (finish_done effect tt tt r h)
          ∙ (note_write_quiet (on_mem (edit t.id (delete_row rid)) r.0)).0

  delete_engine-found :
      (name : String) (rid : ℤ) (e : Engine P)
      → (delete_engine name rid e).1 ≡ ok tt
      → (t : Table P) × (find_table name e.tables ≡ some t)
        × ((delete_engine name rid e).0.tables ≡ after_delete t rid e)
  unfolding delete_engine
  delete_engine-found name rid e h = elim (Option-cases (find_table name e.tables)) [
    | inl z ↦ absurd (wrong (rw (z, delete_engine) at h))
    | inr (t, z) ↦
        (t, z, rw (z, delete_engine) (delete_found-tables t rid e (rw (z, delete_engine) at h)))
  ]
    where
      wrong : Path (Result StorageError (Unit {0})) (err no_table) (ok tt) → ⊥
      wrong h = cc

  -- A Delete that succeeds removes its row and leaves every other row of every table, where no two
  -- tables of the catalog share an id.
  pub get_engine-delete_engine :
      (name : String) (rid : ℤ) (e : Engine P) (n : String) (i : ℤ)
      → AreDistinct e.tables
      → (delete_engine name rid e).1 ≡ ok tt
      → get_engine n i (delete_engine name rid e).0
        ≡ (if str_eq name n && eqb_ℤ rid i then none else get_engine n i e)
  get_engine-delete_engine name rid e n i d h =
      let (t, z, same) = delete_engine-found name rid e h in
      get_engine-row_in n i (delete_engine name rid e).0
      ∙ ap (row_in n i) same
      ∙ row_in-edit (op_delete name rid) e.tables t n i d z
      ∙ ap (λ r. if str_eq name n && eqb_ℤ rid i then none else r) (sym (get_engine-row_in n i e))
