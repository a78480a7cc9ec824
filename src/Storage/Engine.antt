-- ===== src/Storage/Engine.antt =====
-- The type Engine of internal/storage/engine.go: its catalog, its autocommit writes and its reads.
pub mod Failed
-- Both maps of tables hold the same objects, so they are one list, searched by name or by id.
use tsql.Base.{ℕ, ◌+◌, ◌%◌, ◌^◌, String, Bool, true, false, ◌&&◌, not, Option, none, some}
use tsql.Base.{List, [], ◌∷◌, find, keep, leb, ◌==◌, str_eq, length, if◌then◌else◌}
use tsql.Base.{Result, ok, err}
use tsql.Base.Int.{ℤ, pos, eqb_ℤ, ltb_ℤ, inc64, int_eq}
use tsql.Base.Assoc.{lookup}
use tsql.Platform.{Platform}
use tsql.Types.{Value, is_null}
use tsql.Schema.{Column, TableDef, SchemaError, validate}
use tsql.Storage.Table.{Row, key_eq, Table, uniq_key, store_row, delete_row, stamp}
use tsql.Storage.Table.{violates_unique}
use tsql.Storage.Wal.{WalRecord, begin, put, delete, commit, create, drop, Wal, append_all}

pub data StorageError : Type 0 where
  no_table exists no_row unique txn_done : StorageError
  negative_id update_needs_id : StorageError
  bad_arity : ℕ → ℕ → StorageError
  invalid : SchemaError → StorageError
  io_failed : StorageError
  unknown_table_id : ℕ → StorageError
  vanished : String → StorageError

pub record SnapshotTable (P : Platform) : Type 0 where
  pub id : ℕ
  pub name : String
  pub cols : List Column
  pub rows : List (ℤ × Row P)
  pub next_id : ℤ

pub record Snapshot (P : Platform) : Type 0 where
  pub seq : ℕ
  pub tables : List (SnapshotTable P)

-- What recovery rebuilds: `e.tables` with `e.byID`, and `e.nextTableID`.
pub record Memory (P : Platform) : Type 0 where
  pub tables : List (Table P)
  pub next_table_id : ℕ

pub record Engine (P : Platform) : Type 0 where
  pub mem : Memory P
  pub open mem use *
  pub wal : Wal P
  pub tx_seq : ℕ
  pub since_checkpoint : ℕ
  -- a background checkpoint has been started and has not ended
  pub checkpointing : Bool
  -- the files snapshot-<seq>.bin, and the one that manifest.json names
  pub snapshots : List (ℕ × Snapshot P)
  pub manifest : Option ℕ

abbrev pub auto_checkpoint_every : ℕ
auto_checkpoint_every = 10000

abbrev pub bumped : ℤ → ℤ → ℤ
bumped rid next = if not (ltb_ℤ rid next) then inc64 rid else next

module _ {P : Platform} where
  -- `e.tables[name]` and `e.byID[id]`
  unfoldable pub find_table : String → List (Table P) → Option (Table P)
  unfolding find
  find_table name ts = find (λ t. str_eq t.name name) ts

  unfoldable pub find_id : ℕ → List (Table P) → Option (Table P)
  unfolding find
  find_id id ts = find (λ t. t.id == id) ts

  -- A change of the table object with an id. No two tables have one id before 2^32 tables have been
  -- created and the ids, uint32 in Go, begin again.
  unfoldable pub on_table : ℕ → (Table P → Table P) → List (Table P) → List (Table P)
  on_table id f [] = []
  on_table id f (t ∷ ts) = (if t.id == id then f t else t) ∷ on_table id f ts

  unfoldable pub drop_named : String → List (Table P) → List (Table P)
  unfolding keep
  drop_named name ts = keep (λ t. not (str_eq t.name name)) ts

  abbrev pub new_table : ℕ → String → List Column → Table P
  new_table id name cols = record {
    id = id;
    name = name;
    cols = cols;
    rows = [];
    next_id = pos 1;
    uniq = [];
  }

  -- addTableLocked; the ids are uint32
  unfoldable pub add_table : String → List Column → Memory P → Memory P
  add_table name cols e = record {
    tables = new_table e.next_table_id name cols ∷ e.tables;
    next_table_id = (e.next_table_id + 1) % 2 ^ 32;
  }

  abbrev pub on_mem : (Memory P → Memory P) → Engine P → Engine P
  on_mem f e = record e { mem = f e.mem }

  abbrev pub set_wal : Engine P → Wal P × Bool → Engine P × Bool
  set_wal e (w, done) = (record e { wal = w }, done)

  abbrev pub next_tx : Engine P → ℕ
  next_tx e = (e.tx_seq + 1) % 2 ^ 64

  -- The three records of txn, for the record that its argument logs.
  abbrev pub txn_records : ℕ → (ℕ → WalRecord P) → List (WalRecord P)
  txn_records tx fn = begin tx ∷ fn tx ∷ commit tx ∷ []

  -- txn: begin, the record of `fn` and commit, with the only fsync at the commit
  unfoldable pub txn : (ℕ → WalRecord P) → Engine P → Engine P × Bool
  txn fn e =
      let tx = next_tx e in
      set_wal (record e { tx_seq = tx }) (append_all (txn_records tx fn) e.wal)

  -- noteWrite; the background checkpoint that it starts is `checkpoint`, at any later time
  unfoldable pub note_write : Engine P → Engine P
  note_write e =
      if leb auto_checkpoint_every (e.since_checkpoint + 1)
      then record e { since_checkpoint = 0; checkpointing = true }
      else record e { since_checkpoint = e.since_checkpoint + 1 }

  -- What follows a txn: its effect in memory and the value, or the error and no effect.
  abbrev pub finish :
      {A : Type 0} → (Engine P → Engine P) → A → Engine P × Bool → Engine P × Result StorageError A
  finish effect a (e, true) = (effect e, ok a)
  finish effect a (e, false) = (e, err io_failed)

  abbrev pub create_valid : TableDef → Engine P → Engine P × Result StorageError (Unit {0})
  create_valid td e = elim (find_table td.name e.tables) [
    | some t ↦ (e, err exists)
    | none ↦
        finish (on_mem (add_table td.name td.cols)) tt (txn (λ tx. create tx td.name td.cols) e)
  ]

  -- CreateTable
  unfoldable pub create_table :
      String → List Column → Engine P → Engine P × Result StorageError (Unit {0})
  create_table name cols e = elim (validate (record { name = name; cols = cols })) [
    | err x ↦ (e, err (invalid x))
    | ok td ↦ create_valid td e
  ]

  abbrev pub remove_table : String → Memory P → Memory P
  remove_table name e = record e { tables = drop_named name e.tables }

  -- DropTable
  unfoldable pub drop_table : String → Engine P → Engine P × Result StorageError (Unit {0})
  drop_table name e = elim (find_table name e.tables) [
    | none ↦ (e, err no_table)
    | some t ↦ finish (on_mem (remove_table name)) tt (txn (λ tx. drop tx name) e)
  ]

  -- `_, exists = t.rows[rowID]`
  unfoldable pub has_row : ℤ → Table P → Bool
  has_row rid t = elim (lookup rid t.rows) [ none ↦ false | some row ↦ true ]

  -- The id that put stores under, and the table's next id after the reservation.
  abbrev pub put_id : Table P → ℤ → ℤ
  put_id t rid = if eqb_ℤ rid (pos 0) then t.next_id else rid

  abbrev pub is_old : Table P → ℤ → Bool
  is_old t rid = not (eqb_ℤ rid (pos 0)) && has_row rid t

  unfoldable pub reserved : Table P → ℤ → ℤ
  reserved t rid =
      let next = if eqb_ℤ rid (pos 0) then inc64 t.next_id else t.next_id in
      if is_old t rid then next else bumped (put_id t rid) next

  abbrev pub edit : ℕ → (Table P → Table P) → Memory P → Memory P
  edit id f e = record e { tables = on_table id f e.tables }

  -- put after its checks: the reservation, the UNIQUE test, the log, the table.
  unfoldable pub put_row :
      Table P → Option ℕ → ℤ → Row P → Engine P → Engine P × Result StorageError ℤ
  put_row t pk rid row e =
      let t' : Table P = record t { next_id = reserved t rid } in
      let id = put_id t rid in
      let row' = stamp pk id row in
      let e' = on_mem (edit t.id (λ u. record u { next_id = reserved t rid })) e in
      if violates_unique t' id row'
      then (e', err unique)
      else finish (λ e. note_write (on_mem (edit t.id (store_row id row')) e)) id
          (txn (λ tx. put tx t.id id row') e')

  -- The tests that put makes of a row for a table that it has found.
  unfoldable pub put_checks : Table P → ℤ → Row P → Bool → Result StorageError (Unit {0})
  put_checks t rid row must_exist =
      if not (length row == length t.cols)
      then err (bad_arity (length row) (length t.cols))
      else if eqb_ℤ rid (pos 0)
      then ok tt
      else if has_row rid t && not must_exist
      then err exists
      else if not (has_row rid t) && must_exist
      then err no_row
      else ok tt

  abbrev pub put_found :
      Table P → Option ℕ → ℤ → Row P → Bool → Engine P → Engine P × Result StorageError ℤ
  put_found t pk rid row must_exist e = elim (put_checks t rid row must_exist) [
    | err x ↦ (e, err x)
    | ok _ ↦ put_row t pk rid row e
  ]

  -- put, the write path that Put, PutAuto and Update share; `none` is the pkIdx of -1
  unfoldable pub put_shared :
      String → Option ℕ → ℤ → Row P → Bool → Engine P → Engine P × Result StorageError ℤ
  put_shared name pk rid row must_exist e =
      if ltb_ℤ rid (pos 0)
      then (e, err negative_id)
      else if must_exist && eqb_ℤ rid (pos 0)
      then (e, err update_needs_id)
      else (elim (find_table name e.tables) [
        | none ↦ (e, err no_table)
        | some t ↦ put_found t pk rid row must_exist e
      ])

  -- Put, PutAuto and Update
  unfoldable pub put_engine : String → ℤ → Row P → Engine P → Engine P × Result StorageError ℤ
  put_engine name rid row e = put_shared name none rid row false e

  unfoldable pub put_auto : String → ℕ → Row P → Engine P → Engine P × Result StorageError ℤ
  put_auto name pk row e = put_shared name (some pk) (pos 0) row false e

  unfoldable pub update_engine : String → ℤ → Row P → Engine P → Engine P × Result StorageError ℤ
  update_engine name rid row e = put_shared name none rid row true e

  abbrev pub delete_looked :
      Table P → ℤ → Engine P → Option (Row P) → Engine P × Result StorageError (Unit {0})
  delete_looked t rid e none = (e, err no_row)
  delete_looked t rid e (some old) =
      finish (λ e. note_write (on_mem (edit t.id (delete_row rid)) e)) tt
        (txn (λ tx. delete tx t.id rid) e)

  abbrev pub delete_found : Table P → ℤ → Engine P → Engine P × Result StorageError (Unit {0})
  delete_found t rid e = delete_looked t rid e (lookup rid t.rows)

  -- Delete
  unfoldable pub delete_engine : String → ℤ → Engine P → Engine P × Result StorageError (Unit {0})
  delete_engine name rid e = elim (find_table name e.tables) [
    | none ↦ (e, err no_table)
    | some t ↦ delete_found t rid e
  ]

  -- Get
  unfoldable pub get_engine : String → ℤ → Engine P → Option (Row P)
  get_engine name rid e = elim (find_table name e.tables) [
    | none ↦ none
    | some t ↦ lookup rid t.rows
  ]

  -- UniqueGet
  unfoldable pub unique_get : String → ℕ → Value P → Engine P → Option ℤ
  unique_get name ci v e = elim (find_table name e.tables) [
    | none ↦ none
    | some t ↦ if is_null v then none else lookup (ci, uniq_key v) t.uniq
  ]

  -- ReserveID
  unfoldable pub reserve_id : String → Engine P → Engine P × Result StorageError ℤ
  reserve_id name e = elim (find_table name e.tables) [
    | none ↦ (e, err no_table)
    | some t ↦ (on_mem (edit t.id (λ t. record t { next_id = inc64 t.next_id })) e, ok t.next_id)
  ]
