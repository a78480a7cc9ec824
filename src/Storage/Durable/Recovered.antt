-- ===== src/Storage/Durable/Recovered.antt =====
-- On runs of autocommit operations and the Open that follows them.
use tsql.Base.{ℕ, ◌+◌, ◌<◌, ◌≤◌, ◌^◌, String, ◌≡◌, refl, sym, arith, Bool, false}
use tsql.Base.{
  List, [], ◌∷◌, length, Option, none, ok, Bool-cases, Option-cases, Result-cases, inl, inr, ◌&&◌,
}
use tsql.Base.Int.{ℤ, pos, ltb_ℤ, eqb_ℤ, int_eq}
use tsql.Base.Assoc.{lookup}
use mathlib.Core.Path.{subst}
use tsql.Platform.{Platform}
use tsql.Schema.{Column, validate}
use tsql.Storage.Table.{Row, Table, store_row, delete_row, stamp, violates_unique}
use tsql.Storage.Wal.{WalRecord, Outcome, append_all}
use tsql.Storage.Engine.{
  Engine, Memory, on_mem, edit, add_table, remove_table, note_write, put_id, reserved, txn, finish,
  next_tx, txn_records,
}
use tsql.Storage.Engine.{find_table, create_table, create_valid, drop_table, put_shared, put_found}
use tsql.Storage.Engine.{put_row, put_checks, delete_engine, delete_found, reserve_id}
use tsql.Storage.Operations.{
  Operation, create_op, drop_op, put_op, delete_op, reserve_op, run, run_all,
}
use tsql.Storage.Recovery.{loaded, load_latest, reopen, opened, empty, no_pending, replay}
use tsql.Storage.Durable.Strip.{strip}
use tsql.Storage.Durable.Replay.{IsReadable}
use tsql.Storage.Durable.Writes.{IsKept}
use tsql.Storage.Durable.Runs.{run-IsKept}

module _ {P : Platform} where
  -- An operation begins at most one transaction and leaves the snapshot files alone.
  pub record IsModest (e e' : Engine P) : Type 0 where
    pub counted : e'.tx_seq ≤ e.tx_seq + 1
    pub snapshots : e'.snapshots ≡ e.snapshots
    pub manifest : e'.manifest ≡ e.manifest

  IsModest-refl : (e : Engine P) → IsModest e e
  IsModest-refl e = ground arith

  txn-IsModest :
      {A : Type 0} (e u : Engine P) (fn : ℕ → WalRecord P) (effect : Engine P → Engine P) (a : A)
      → ((v : Engine P) → IsModest u v → IsModest e (effect v))
      → ((v : Engine P) → IsModest u v → IsModest e v)
      → IsModest e (finish effect a (txn fn u)).0
  unfolding txn
  txn-IsModest e u fn effect a h k =
      elim (Bool-cases (append_all (txn_records (next_tx u) fn) u.wal).1) [
        | inl q ↦ rw q (h _ (ground arith))
        | inr q ↦ rw q (k _ (ground arith))
      ]

  note_write-IsModest : (e v : Engine P) → IsModest e v → IsModest e (note_write v)
  unfolding note_write
  note_write-IsModest e v h = ground arith

  on_mem-IsModest :
      (m : Memory P) (e v : Engine P) → IsModest e v → IsModest e (record v { mem = m })
  on_mem-IsModest m e v h = ground arith

  IsModest-on_mem :
      (m : Memory P) (e v : Engine P) → IsModest (record e { mem = m }) v → IsModest e v
  IsModest-on_mem m e v h = ground arith

  module _ (e : Engine P) where
    create_table-IsModest :
        (name : String) (cols : List Column) → IsModest e (create_table name cols e).0
    unfolding create_table
    create_table-IsModest name cols =
        elim (Result-cases (validate (record { name = name; cols = cols }))) [
          | inr (x, h) ↦ rw (h, create_table) (IsModest-refl e)
          | inl (td, h) ↦ elim (Option-cases (find_table td.name e.tables)) [
            | inl q ↦
                rw (h, create_table)
                  (rw (q, create_valid)
                    (txn-IsModest e e _ (on_mem (add_table td.name td.cols)) _
                      (λ v m. on_mem-IsModest _ e v m) (λ v m. m)))
            | inr (t, q) ↦ rw (h, create_table) (rw (q, create_valid) (IsModest-refl e))
          ]
        ]

    drop_table-IsModest : (name : String) → IsModest e (drop_table name e).0
    unfolding drop_table
    drop_table-IsModest name = elim (Option-cases (find_table name e.tables)) [
      | inl h ↦ rw (h, drop_table) (IsModest-refl e)
      | inr (t, h) ↦
          rw (h, drop_table)
            (txn-IsModest e e _ (on_mem (remove_table name)) _ (λ v m. on_mem-IsModest _ e v m)
              (λ v m. m))
    ]

    delete_engine-IsModest : (name : String) (rid : ℤ) → IsModest e (delete_engine name rid e).0
    unfolding delete_engine
    delete_engine-IsModest name rid = elim (Option-cases (find_table name e.tables)) [
      | inl h ↦ rw (h, delete_engine) (IsModest-refl e)
      | inr (t, h) ↦ elim (Option-cases (lookup rid t.rows)) [
        | inl q ↦ rw (h, delete_engine) (rw (q, delete_found) (IsModest-refl e))
        | inr (old, q) ↦
            rw (h, delete_engine)
              (rw (q, delete_found)
                (txn-IsModest e e _ (λ v. note_write (on_mem (edit t.id (delete_row rid)) v)) _
                  (λ v m. note_write-IsModest e _ (on_mem-IsModest _ e v m)) (λ v m. m)))
      ]
    ]

    put_row-IsModest :
        (t : Table P) (pk : Option ℕ) (rid : ℤ) (row : Row P)
        → IsModest e (put_row t pk rid row e).0
    unfolding put_row
    put_row-IsModest t pk rid row =
        let t' : Table P = record t { next_id = reserved t rid } in
        let id = put_id t rid in
        let u = on_mem (edit t.id (λ u. record u { next_id = reserved t rid })) e in
        let stored = edit t.id (store_row id (stamp pk id row)) in
        elim (Bool-cases (violates_unique t' id (stamp pk id row))) [
          | inl h ↦ rw (h, put_row) (on_mem-IsModest _ e e (IsModest-refl e))
          | inr h ↦
              rw (h, put_row)
                (txn-IsModest e u _ (λ v. note_write (on_mem stored v)) _
                  (λ v m.
                    note_write-IsModest e (on_mem stored v)
                      (on_mem-IsModest (stored v.mem) e v (IsModest-on_mem u.mem e v m)))
                  (λ v m. IsModest-on_mem u.mem e v m))
        ]

    put_found-IsModest :
        (t : Table P) (pk : Option ℕ) (rid : ℤ) (row : Row P) (must_exist : Bool)
        → IsModest e (put_found t pk rid row must_exist e).0
    put_found-IsModest t pk rid row must_exist =
        elim (Result-cases (put_checks t rid row must_exist)) [
          | inl (u, h) ↦ rw (h, put_found) (put_row-IsModest t pk rid row)
          | inr (x, h) ↦ rw (h, put_found) (IsModest-refl e)
        ]

    put_shared-IsModest :
        (name : String) (pk : Option ℕ) (rid : ℤ) (row : Row P) (must_exist : Bool)
        → IsModest e (put_shared name pk rid row must_exist e).0
    unfolding put_shared
    put_shared-IsModest name pk rid row must_exist = elim (Bool-cases (ltb_ℤ rid (pos 0))) [
      | inl a ↦ rw (a, put_shared) (IsModest-refl e)
      | inr a ↦ elim (Bool-cases (must_exist && eqb_ℤ rid (pos 0))) [
        | inl b ↦ rw (a, b, put_shared) (IsModest-refl e)
        | inr b ↦ elim (Option-cases (find_table name e.tables)) [
          | inl h ↦ rw (a, b, h, put_shared) (IsModest-refl e)
          | inr (t, h) ↦ rw (a, b, h, put_shared) (put_found-IsModest t pk rid row must_exist)
        ]
      ]
    ]

    reserve_id-IsModest : (name : String) → IsModest e (reserve_id name e).0
    unfolding reserve_id
    reserve_id-IsModest name = elim (Option-cases (find_table name e.tables)) [
      | inl h ↦ rw (h, reserve_id) (IsModest-refl e)
      | inr (t, h) ↦ rw (h, reserve_id) (on_mem-IsModest _ e e (IsModest-refl e))
    ]

    run-IsModest : (op : Operation P) → IsModest e (run op e)
    unfolding run
    run-IsModest (create_op name cols) = create_table-IsModest name cols
    run-IsModest (drop_op name) = drop_table-IsModest name
    run-IsModest (put_op name pk rid row must_exist) =
        put_shared-IsModest name pk rid row must_exist
    run-IsModest (delete_op name rid) = delete_engine-IsModest name rid
    run-IsModest (reserve_op name) = reserve_id-IsModest name

  loaded-same :
      (e e' : Engine P)
      → e'.snapshots ≡ e.snapshots
      → e'.manifest ≡ e.manifest
      → loaded e' ≡ loaded e
  unfolding loaded
  loaded-same e e' s m = rw (s, m) refl

  -- From a durable engine, a run of operations ends in one, over the same snapshot.
  pub run_all-IsKept :
      {live : ℕ → Bool} (ops : List (Operation P)) (e : Engine P)
      → IsKept (loaded e) live e
      → e.tx_seq + length ops < 2 ^ 64
      → IsKept (loaded (run_all ops e)) live (run_all ops e)
  unfolding run_all
  run_all-IsKept [] e d room = d
  run_all-IsKept {live} (op ∷ ops) e d room =
      let m = run-IsModest e op in
      let d' = run-IsKept d (omega arith) op in
      run_all-IsKept ops (run op e)
        (subst (λ b. IsKept b live (run op e))
          (sym (loaded-same e (run op e) m.snapshots m.manifest)) d')
        (omega (arith, m.counted))

  -- What a recovery must bring back: the tables with their columns, rows and indexes, whatever their
  -- next row ids, and the next table id.
  pub record IsRecovered (e r : Engine P) : Type 0 where
    pub tables : strip r.tables ≡ strip e.tables
    pub next_table_id : r.next_table_id ≡ e.next_table_id

  pub reopen-IsKept :
      {live : ℕ → Bool} (e : Engine P) (outcomes : List Outcome)
      → IsKept (loaded e) live e
      → (r : Engine P) × (reopen outcomes e ≡ ok r) × IsRecovered e r
  unfolding reopen
  reopen-IsKept e outcomes d = (
    opened outcomes e d.rebuilt,
    rw (d.replays, reopen) refl,
    record { tables = d.same_tables; next_table_id = d.same_next },
  )

  -- The engine of an empty directory.
  abbrev pub start : List Outcome → Engine P
  start outcomes = record {
    mem = empty;
    wal = record { log = []; seq = 0; outcomes = outcomes };
    tx_seq = 0;
    since_checkpoint = 0;
    checkpointing = false;
    snapshots = [];
    manifest = none;
  }

  start-IsKept :
      (outcomes : List Outcome)
      → IsReadable outcomes
      → IsKept (loaded (start outcomes)) (λ tx. false) (start outcomes)
  unfolding loaded replay load_latest
  start-IsKept outcomes s = record {
    rebuilt = empty;
    pending = no_pending;
    replays = refl;
    same_tables = refl;
    same_next = refl;
    fresh = λ tx h. refl;
    clean = λ tx h. refl;
    begun = λ tx h. cc;
    synced = s;
  }

  -- After a run of fewer than 2^32 autocommit operations on an empty directory, failing ones and
  -- lost appends included but no checkpoint, no failed fsync and no record longer than ReadRecords
  -- accepts, opening the directory again succeeds and gives the tables with their columns, rows and
  -- indexes and the next table id as they were; nothing is stated of the next row ids.
  pub reopen-run_all :
      (ops : List (Operation P)) (outcomes later : List Outcome)
      → IsReadable outcomes
      → length ops < 2 ^ 32
      → (r : Engine P) × (reopen later (run_all ops (start outcomes)) ≡ ok r)
        × IsRecovered (run_all ops (start outcomes)) r
  reopen-run_all ops outcomes later s room =
      reopen-IsKept (run_all ops (start outcomes)) later
        (run_all-IsKept ops (start outcomes) (start-IsKept outcomes s) (omega arith))
