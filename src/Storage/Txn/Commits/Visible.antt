-- ===== src/Storage/Txn/Commits/Visible.antt =====
-- On Txn.Commit: the rows that it publishes.
use mathlib.Core.Option
use tsql.Base.{
  ℕ, ◌≡◌, refl, sym, ap, ◌∙◌, arith, String, str_eq, eq_iff, ==_iff, Bool, true, false, ◌&&◌, ◌==◌,
  ◌++◌,
}
use tsql.Base.{Option, none, some, List, [], ◌∷◌, if◌then◌else◌, Result, ok, err, bind-eq-ok}
use tsql.Base.{Bool-cases, Option-cases, inl, inr, ok-injective}
use tsql.Base.Int.{ℤ, int_eq, eqb_ℤ}
use tsql.Base.Assoc.{lookup, lookup-insert, lookup-remove}
use tsql.Platform.{Platform}
use tsql.Storage.Table.{
  Row, Table, store_row, delete_row, forget_old, set_row_keys, remove_row_keys,
}
use tsql.Storage.Engine.{Engine, Memory, StorageError, find_table, on_table, edit, get_engine}
use tsql.Storage.Txn.{Op, op_put, op_delete, op_name, op_id, op_row, Txn, last_op, get_txn}
use tsql.Storage.Commit.{op_effect}
use tsql.Storage.Wal.{WalRecord, Wal, commit, append_all}
use tsql.Storage.Engine.{set_wal}
use tsql.Storage.Durable.Ops.{note_write_quiet}
use tsql.Storage.Commit.{
  apply_op, apply_ops, applied_ops, apply_logged, log_and_apply, commit_records,
}
use tsql.Storage.Commit.{commit_ops, commit_checked, commit_checks, commit_txn, commit_all}
use tsql.Storage.Txn.Reads.{row_after}
use tsql.Storage.Txn.Writes.{find_table-on_table}
use tsql.Storage.Txn.Commits.Logged.{table_id, table_id-edit, op_effect-name}

module _ {P : Platform} where
  abbrev pub row_of : ℤ → Option (Table P) → Option (Row P)
  row_of rid none = none
  row_of rid (some t) = lookup rid t.rows

  -- The row of a table by name.
  abbrev pub row_in : String → ℤ → List (Table P) → Option (Row P)
  row_in name rid ts = row_of rid (find_table name ts)

  -- No two names lead to tables with one id.
  abbrev pub AreDistinct : List (Table P) → Type 0
  AreDistinct ts =
      (n k : String) (id : ℕ) → table_id n ts ≡ some id → table_id k ts ≡ some id → n ≡ k

  rows-op_effect :
      (o : Op P) (t : Table P) (rid : ℤ)
      → lookup rid (op_effect o t).rows
        ≡ (if eqb_ℤ (op_id o) rid then op_row o else lookup rid t.rows)
  unfolding store_row delete_row forget_old set_row_keys remove_row_keys
  rows-op_effect (op_put name id row) t rid = ground (arith, lookup-insert id rid row t.rows)
  rows-op_effect (op_delete name id) t rid = ground (arith, lookup-remove id rid t.rows)

  table_id-some :
      (name : String) (ts : List (Table P)) (t : Table P)
      → find_table name ts ≡ some t
      → table_id name ts ≡ some t.id
  table_id-some name ts t h = rw h refl

  same_table :
      (o : Op P) (ts : List (Table P)) (t : Table P) (n : String)
      → find_table (op_name o) ts ≡ some t
      → str_eq (op_name o) n ≡ true
      → find_table n ts ≡ some t
  same_table o ts t n h e = sym (ap (λ k. find_table k ts) ((eq_iff (op_name o) n).0 e)) ∙ h

  found-edit :
      (o : Op P) (ts : List (Table P)) (t : Table P) (n : String) (i : ℤ)
      → AreDistinct ts
      → find_table (op_name o) ts ≡ some t
      → (f : Option (Table P)) → find_table n ts ≡ f
      → row_of i (Option.map (λ u. if u.id == t.id then op_effect o u else u) f)
        ≡ (if str_eq (op_name o) n && eqb_ℤ (op_id o) i then op_row o else row_of i f)
  found-edit o ts t n i d h none z = elim (Bool-cases (str_eq (op_name o) n)) [
    | inl e ↦ absurd (ground (arith, same_table o ts t n h e))
    | inr e ↦ rw e refl
  ]
  found-edit o ts t n i d h (some u) z = elim (Bool-cases (str_eq (op_name o) n)) [
    | inl e ↦ rw e (rw (own e) (rows-op_effect o u i))
    | inr e ↦ rw e (elim (Bool-cases (u.id == t.id)) [
      | inl same ↦ absurd (apart e same)
      | inr other ↦ rw other refl
    ])
  ]
    where
      own : str_eq (op_name o) n ≡ true → (u.id == t.id) ≡ true
      own e = ground (arith, same_table o ts t n h e)

      apart : str_eq (op_name o) n ≡ false → (u.id == t.id) ≡ true → ⊥
      apart e same = ground (
        arith,
        eq_iff (op_name o) n,
        d (op_name o) n t.id (table_id-some (op_name o) ts t h)
            (table_id-some n ts u z ∙ ap some ((==_iff u.id t.id).0 same)),
      )

  pub row_in-edit :
      (o : Op P) (ts : List (Table P)) (t : Table P) (n : String) (i : ℤ)
      → AreDistinct ts
      → find_table (op_name o) ts ≡ some t
      → row_in n i (on_table t.id (op_effect o) ts)
        ≡ (if str_eq (op_name o) n && eqb_ℤ (op_id o) i then op_row o else row_in n i ts)
  row_in-edit o ts t n i d h =
      ap (row_of i) (find_table-on_table n t.id (op_effect o) ts (op_effect-name o))
      ∙ found-edit o ts t n i d h (find_table n ts) refl

  AreDistinct-edit :
      (o : Op P) (ts : List (Table P)) (id : ℕ)
      → AreDistinct ts
      → AreDistinct (on_table id (op_effect o) ts)
  AreDistinct-edit o ts id d n k j p q =
      d n k j (sym (table_id-edit n id o ts) ∙ p) (sym (table_id-edit k id o ts) ∙ q)

  apply_op-edit :
      (o : Op P) (m m' : Memory P)
      → apply_op o m ≡ ok m'
      → (t : Table P) × (find_table (op_name o) m.tables ≡ some t)
        × (m' ≡ edit t.id (op_effect o) m)
  unfolding apply_op
  apply_op-edit o m m' h = elim (Option-cases (find_table (op_name o) m.tables)) [
    | inl q ↦ absurd (ground arith)
    | inr (t, q) ↦ (t, q, sym (ok-injective (rw (q, apply_op) at h)))
  ]

  last_step :
      (later : Option (Op P)) (b : Bool) (r : Option (Row P)) (o : Op P)
      → row_after later (if b then op_row o else r)
        ≡ row_after (elim later [ some p ↦ some p | none ↦ if b then some o else none ]) r
  last_step none true r o = refl
  last_step none false r o = refl
  last_step (some p) b r o = refl

  row_in-apply_ops :
      (ops : List (Op P)) (m m' : Memory P) (n : String) (i : ℤ)
      → AreDistinct m.tables
      → apply_ops ops m ≡ ok m'
      → row_in n i m'.tables ≡ row_after (last_op n i ops) (row_in n i m.tables)
  unfolding apply_ops last_op
  row_in-apply_ops [] m m' n i d h = ap (λ k. row_in n i k.tables) (sym (ok-injective h))
  row_in-apply_ops (o ∷ os) m m' n i d h =
      let (m1, p, q) = bind-eq-ok (apply_op o m) _ h in
      let (t, f, e) = apply_op-edit o m m1 p in
      row_in-apply_ops os m1 m' n i (rw e (AreDistinct-edit o m.tables t.id d)) q
      ∙ ap (row_after (last_op n i os))
          (ap (λ k. row_in n i k.tables) e ∙ row_in-edit o m.tables t n i d f)
      ∙ last_step (last_op n i os) (str_eq (op_name o) n && eqb_ℤ (op_id o) i) (row_in n i m.tables)
          o

  -- The rows after a commit, where `e` holds them before it.
  abbrev IsPublished : List (Op P) → List (Table P) → List (Table P) → Type 0
  IsPublished ops ts us =
      (n : String) (i : ℤ) → row_in n i us ≡ row_after (last_op n i ops) (row_in n i ts)

  applied-IsPublished :
      (ops : List (Op P)) (e : Engine P) (r : Result StorageError (Memory P))
      → AreDistinct e.tables
      → apply_ops ops e.mem ≡ r
      → (applied_ops e r).1 ≡ ok tt
      → IsPublished ops e.tables (applied_ops e r).0.tables
  applied-IsPublished ops e (ok m) d h k n i =
      ap (row_in n i) (note_write_quiet (record e { mem = m })).0
      ∙ row_in-apply_ops ops e.mem m n i d h
  applied-IsPublished ops e (err x) d h k n i = cc

  logged-IsPublished :
      (id : ℕ) (ops : List (Op P)) (e : Engine P) (r : Result StorageError (List (WalRecord P)))
      → AreDistinct e.tables
      → (log_and_apply id ops e r).1 ≡ ok tt
      → IsPublished ops e.tables (log_and_apply id ops e r).0.tables
  logged-IsPublished id ops e (err x) d k n i = cc
  logged-IsPublished id ops e (ok recs) d k n i =
      by_end (append_all (recs ++ commit id ∷ []) e.wal) k
    where
      by_end :
          (w : Wal P × Bool)
          → (apply_logged ops (set_wal e w)).1 ≡ ok tt
          → row_in n i (apply_logged ops (set_wal e w)).0.tables
            ≡ row_after (last_op n i ops) (row_in n i e.tables)
      by_end (w, true) k =
          applied-IsPublished ops (record e { wal = w }) (apply_ops ops e.mem) d refl k n i
      by_end (w, false) k = cc

  commit_ops-IsPublished :
      (id : ℕ) (ops : List (Op P)) (e : Engine P)
      → AreDistinct e.tables
      → (commit_ops id ops e).1 ≡ ok tt
      → IsPublished ops e.tables (commit_ops id ops e).0.tables
  unfolding commit_txn last_op
  commit_ops-IsPublished id [] e d k n i = refl
  commit_ops-IsPublished id (o ∷ os) e d k n i =
      logged-IsPublished id (o ∷ os) e (commit_records id (o ∷ os) e) d k n i

  checked-IsPublished :
      (t : Txn P) (e : Engine P) (r : Result StorageError (Unit {0}))
      → AreDistinct e.tables
      → (commit_checked t e r).0.1 ≡ ok tt
      → IsPublished t.ops e.tables (commit_checked t e r).0.0.tables
  checked-IsPublished t e (err x) d k n i = cc
  checked-IsPublished t e (ok u) d k n i = commit_ops-IsPublished t.id t.ops e d k n i

  pub get_engine-row_in :
      (n : String) (i : ℤ) (e : Engine P) → get_engine n i e ≡ row_in n i e.tables
  unfolding get_engine
  get_engine-row_in n i e = elim (Option-cases (find_table n e.tables)) [
    | inl z ↦ rw (z, get_engine) refl
    | inr (t, z) ↦ rw (z, get_engine) refl
  ]

  get_txn-row_in :
      (n : String) (i : ℤ) (t : Txn P) (e : Engine P)
      → t.done ≡ false
      → get_txn n i t e ≡ row_after (last_op n i t.ops) (row_in n i e.tables)
  unfolding get_txn
  get_txn-row_in n i t e active = elim (Option-cases (last_op n i t.ops)) [
    | inl z ↦ ground (arith, get_engine-row_in n i e)
    | inr (o, z) ↦ ground arith
  ]

  -- Where no two tables of the catalog share an id, a commit of an open transaction that succeeds
  -- makes every row read from the engine what the transaction read before it.
  pub get_engine-commit_all :
      (t : Txn P) (e : Engine P) (n : String) (i : ℤ)
      → AreDistinct e.tables
      → t.done ≡ false
      → (commit_all t e).0.1 ≡ ok tt
      → get_engine n i (commit_all t e).0.0 ≡ get_txn n i t e
  unfolding commit_all
  get_engine-commit_all t e n i d active h = by_state t.done active h
    where
      by_state :
          (b : Bool)
          → b ≡ false
          → (if b then ((e, ok tt), t) else commit_checked t e (commit_checks t e)).0.1 ≡ ok tt
          → get_engine n i
              (if b then ((e, ok tt), t) else commit_checked t e (commit_checks t e)).0.0
            ≡ get_txn n i t e
      by_state true p k = cc
      by_state false p k =
          get_engine-row_in n i (commit_checked t e (commit_checks t e)).0.0
          ∙ checked-IsPublished t e (commit_checks t e) d k n i
          ∙ sym (get_txn-row_in n i t e active)
