-- ===== src/Storage/Durable/Runs.antt =====
-- On each autocommit operation of internal/storage/engine.go: the log and the tables.
use tsql.Base.{ℕ, ◌+◌, ◌<◌, ◌^◌, String, ◌≢◌, refl, Bool}
use tsql.Base.{List, Option, none, Bool-cases, Option-cases, Result-cases, inl, inr, ◌&&◌}
use tsql.Base.Int.{ℤ, pos, ltb_ℤ, eqb_ℤ, int_eq, inc64}
use tsql.Base.Assoc.{lookup}
use tsql.Platform.{Platform}
use tsql.Schema.{Column, TableDef, validate}
use tsql.Storage.Table.{Row, Table, stamp, violates_unique}
use tsql.Storage.Wal.{create, drop, put, delete}
use tsql.Storage.Engine.{Engine, Memory, on_mem, edit, put_id, reserved}
use tsql.Storage.Engine.{
  find_table, find_id, create_table, create_valid, drop_table, put_shared, put_found,
}
use tsql.Storage.Engine.{put_row, put_checks, delete_engine, delete_found, reserve_id}
use tsql.Storage.Operations.{Operation, create_op, drop_op, put_op, delete_op, reserve_op, run}
use tsql.Storage.Durable.Strip.{strip-next_id, find_id-none}
use tsql.Storage.Durable.Writes.{IsKept}
use tsql.Storage.Durable.Ops.{IsKept-hidden, txn-IsKept, found_by_id}
use tsql.Storage.Durable.Ops.{create-Agrees, drop-Agrees, put-Agrees, delete-Agrees}

module _ {P : Platform} {base : Memory P} {live : ℕ → Bool} {e : Engine P} (d : IsKept base live e)
    (room : e.tx_seq + 1 < 2 ^ 64) where
  create_valid-IsKept : (td : TableDef) → IsKept base live (create_valid td e).0
  create_valid-IsKept td = elim (Option-cases (find_table td.name e.tables)) [
    | inl h ↦
        rw (h, create_valid)
          (txn-IsKept d room (λ tx. create tx td.name td.cols) (refl, refl) _ _
            (create-Agrees d (e.tx_seq + 1) td.name td.cols h))
    | inr (t, h) ↦ rw (h, create_valid) d
  ]

  pub create_table-IsKept :
      (name : String) (cols : List Column) → IsKept base live (create_table name cols e).0
  unfolding create_table
  create_table-IsKept name cols =
      elim (Result-cases (validate (record { name = name; cols = cols }))) [
        | inl (td, h) ↦ rw (h, create_table) (create_valid-IsKept td)
        | inr (x, h) ↦ rw (h, create_table) d
      ]

  pub drop_table-IsKept : (name : String) → IsKept base live (drop_table name e).0
  unfolding drop_table
  drop_table-IsKept name = elim (Option-cases (find_table name e.tables)) [
    | inl h ↦ rw (h, drop_table) d
    | inr (t, h) ↦
        rw (h, drop_table)
          (txn-IsKept d room (λ tx. drop tx name) (refl, refl) _ _
            (drop-Agrees d (e.tx_seq + 1) name))
  ]

  pub reserve_id-IsKept : (name : String) → IsKept base live (reserve_id name e).0
  unfolding reserve_id
  reserve_id-IsKept name = elim (Option-cases (find_table name e.tables)) [
    | inl h ↦ rw (h, reserve_id) d
    | inr (t, h) ↦
        rw (h, reserve_id)
          (IsKept-hidden _ d (strip-next_id t.id (λ u. inc64 u.next_id) e.tables) refl refl refl)
  ]

  delete_found-IsKept :
      (t : Table P) (rid : ℤ)
      → find_id t.id e.tables ≢ none
      → IsKept base live (delete_found t rid e).0
  delete_found-IsKept t rid found = elim (Option-cases (lookup rid t.rows)) [
    | inl h ↦ rw (h, delete_found) d
    | inr (old, h) ↦
        rw (h, delete_found)
          (txn-IsKept d room (λ tx. delete tx t.id rid) (refl, refl) _ _
            (delete-Agrees d (e.tx_seq + 1) t.id rid found))
  ]

  pub delete_engine-IsKept :
      (name : String) (rid : ℤ) → IsKept base live (delete_engine name rid e).0
  unfolding delete_engine
  delete_engine-IsKept name rid = elim (Option-cases (find_table name e.tables)) [
    | inl h ↦ rw (h, delete_engine) d
    | inr (t, h) ↦ rw (h, delete_engine) (delete_found-IsKept t rid (found_by_id name e.tables t h))
  ]

  put_row-IsKept :
      (t : Table P) (pk : Option ℕ) (rid : ℤ) (row : Row P)
      → find_id t.id e.tables ≢ none
      → IsKept base live (put_row t pk rid row e).0
  unfolding put_row
  put_row-IsKept t pk rid row found =
      let next = reserved t rid in
      let t' : Table P = record t { next_id = next } in
      let id = put_id t rid in
      let row' = stamp pk id row in
      let e' = on_mem (edit t.id (λ u. record u { next_id = next })) e in
      let same = strip-next_id t.id (λ u. next) e.tables in
      let d' = IsKept-hidden e' d same refl refl refl in
      elim (Bool-cases (violates_unique t' id row')) [
        | inl h ↦ rw (h, put_row) d'
        | inr h ↦
            rw (h, put_row)
              (txn-IsKept d' room (λ tx. put tx t.id id row') (refl, refl) _ _
                (put-Agrees d' (e.tx_seq + 1) t.id id row'
                  (λ q. found (find_id-none t.id e'.tables e.tables same q))))
      ]

  put_found-IsKept :
      (t : Table P) (pk : Option ℕ) (rid : ℤ) (row : Row P) (must_exist : Bool)
      → find_id t.id e.tables ≢ none
      → IsKept base live (put_found t pk rid row must_exist e).0
  put_found-IsKept t pk rid row must_exist found =
      elim (Result-cases (put_checks t rid row must_exist)) [
        | inl (u, h) ↦ rw (h, put_found) (put_row-IsKept t pk rid row found)
        | inr (x, h) ↦ rw (h, put_found) d
      ]

  pub put_shared-IsKept :
      (name : String) (pk : Option ℕ) (rid : ℤ) (row : Row P) (must_exist : Bool)
      → IsKept base live (put_shared name pk rid row must_exist e).0
  unfolding put_shared
  put_shared-IsKept name pk rid row must_exist = elim (Bool-cases (ltb_ℤ rid (pos 0))) [
    | inl a ↦ rw (a, put_shared) d
    | inr a ↦ elim (Bool-cases (must_exist && eqb_ℤ rid (pos 0))) [
      | inl b ↦ rw (a, b, put_shared) d
      | inr b ↦ elim (Option-cases (find_table name e.tables)) [
        | inl h ↦ rw (a, b, h, put_shared) d
        | inr (t, h) ↦
            rw (a, b, h, put_shared)
              (put_found-IsKept t pk rid row must_exist (found_by_id name e.tables t h))
      ]
    ]
  ]

  pub run-IsKept : (op : Operation P) → IsKept base live (run op e)
  unfolding run
  run-IsKept (create_op name cols) = create_table-IsKept name cols
  run-IsKept (drop_op name) = drop_table-IsKept name
  run-IsKept (put_op name pk rid row must_exist) = put_shared-IsKept name pk rid row must_exist
  run-IsKept (delete_op name rid) = delete_engine-IsKept name rid
  run-IsKept (reserve_op name) = reserve_id-IsKept name
