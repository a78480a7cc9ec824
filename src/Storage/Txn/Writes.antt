-- ===== src/Storage/Txn/Writes.antt =====
-- On Txn.Put: the transaction and the shared tables.
use mathlib.Core.Option
use tsql.Base.{ℕ, ◌≡◌, refl, ◌∙◌, arith, String, str_eq, false, ◌&&◌, ◌==◌}
use tsql.Base.{Option, none, some, List, [], ◌∷◌, if◌then◌else◌, Result, ok, err}
use tsql.Base.{Bool-cases, Option-cases, inl, inr}
use tsql.Base.Int.{ℤ, int_eq, eqb_ℤ, pos, inc64}
use tsql.Platform.{Platform}
use tsql.Schema.{Column}
use tsql.Storage.Table.{Row, Table, stamp}
use tsql.Storage.Engine.{Engine, StorageError, get_engine, find_table, on_table, reserve_id}
use tsql.Storage.Txn.{op_put, Txn, with_insert, get_txn}
use tsql.Storage.Txn.{buffer_insert, reserve_or, insert_at, insert_opened, opening, put_txn, fits}
use tsql.Storage.Txn.Reads.{get_txn-with_op}

module _ {P : Platform} where
  pub find_table-on_table :
      (name : String) (id : ℕ) (f : Table P → Table P) (ts : List (Table P))
      → ((t : Table P) → (f t).name ≡ t.name)
      → find_table name (on_table id f ts)
        ≡ Option.map (λ t. if t.id == id then f t else t) (find_table name ts)
  unfolding find_table on_table
  find_table-on_table name id f [] h = refl
  find_table-on_table name id f (t ∷ ts) h = ground (arith, h t, find_table-on_table name id f ts h)

  -- The shared state that another connection or a recovery can see.
  pub record IsUntouched (e e' : Engine P) : Type 0 where
    pub rows : (name : String) (rid : ℤ) → get_engine name rid e' ≡ get_engine name rid e
    pub wal : e'.wal ≡ e.wal

  pub IsUntouched-refl : (e : Engine P) → IsUntouched e e
  IsUntouched-refl e = record { rows = λ name rid. refl; wal = refl }

  reserve_id-IsUntouched : (name : String) (e : Engine P) → IsUntouched e (reserve_id name e).0
  unfolding reserve_id get_engine
  reserve_id-IsUntouched name e = elim (Option-cases (find_table name e.tables)) [
    | inl h ↦ rw (h, reserve_id) (IsUntouched-refl e)
    | inr (t, h) ↦
        rw (h, reserve_id)
          (record {
            rows = λ n rid. ground (
              arith,
              find_table-on_table n t.id (λ u. record u { next_id = inc64 u.next_id }) e.tables
                  (λ u. refl),
            );
            wal = refl;
          })
  ]

  pub reserve_or-IsUntouched :
      (name : String) (rid : ℤ) (e : Engine P) → IsUntouched e (reserve_or name rid e).0
  reserve_or-IsUntouched name rid e = elim (Bool-cases (eqb_ℤ rid (pos 0))) [
    | inl h ↦ rw h (reserve_id-IsUntouched name e)
    | inr h ↦ rw h (IsUntouched-refl e)
  ]

  get_txn-IsUntouched :
      (name : String) (rid : ℤ) (t : Txn P) (e e' : Engine P)
      → IsUntouched e e'
      → get_txn name rid t e' ≡ get_txn name rid t e
  unfolding get_txn
  get_txn-IsUntouched name rid t e e' h = ground (arith, h.rows name rid)

  -- The outcome of an insert: the row under its id in the transaction's view, and nothing else.
  pub record IsInserted (name : String) (pk : Option ℕ) (row : Row P) (t : Txn P) (e : Engine P)
      (r : Engine P × Txn P × Result StorageError ℤ) : Type 0 where
    pub untouched : IsUntouched e r.0
    pub failed : (x : StorageError) → r.2 ≡ err x → r.1 ≡ t
    pub inserted :
        (id : ℤ)
        → r.2 ≡ ok id
        → (n : String) (i : ℤ)
        → get_txn n i r.1 r.0
          ≡ (if str_eq name n && eqb_ℤ id i then some (stamp pk id row) else get_txn n i t e)

  get_txn-with_insert :
      (n : String) (i : ℤ) (name : String) (rid : ℤ) (t : Txn P) (e : Engine P)
      → get_txn n i (with_insert name rid t) e ≡ get_txn n i t e
  unfolding get_txn
  get_txn-with_insert n i name rid t e = refl

  buffer_insert-get :
      (name : String) (rid : ℤ) (row : Row P) (cols : List Column) (eff : List (ℤ × Row P))
      (t : Txn P) (e : Engine P) (id : ℤ)
      → t.done ≡ false
      → (buffer_insert name rid row cols eff t).1 ≡ ok id
      → (n : String) (i : ℤ)
      → (id ≡ rid)
        × (get_txn n i (buffer_insert name rid row cols eff t).0 e
            ≡ (if str_eq name n && eqb_ℤ rid i then some row else get_txn n i t e))
  buffer_insert-get name rid row cols eff t e id active h n i = ground (
    arith,
    get_txn-with_op n i (op_put name rid row) (with_insert name rid t) e active,
    get_txn-with_insert n i name rid t e,
  )

  buffer_insert-failed :
      (name : String) (rid : ℤ) (row : Row P) (cols : List Column) (eff : List (ℤ × Row P))
      (t : Txn P) (x : StorageError)
      → (buffer_insert name rid row cols eff t).1 ≡ err x
      → (buffer_insert name rid row cols eff t).0 ≡ t
  buffer_insert-failed name rid row cols eff t x h = ground arith

  insert_at-IsInserted :
      (name : String) (pk : Option ℕ) (row : Row P) (cols : List Column) (eff : List (ℤ × Row P))
      (t : Txn P) (e e' : Engine P) (got : Result StorageError ℤ)
      → t.done ≡ false
      → IsUntouched e e'
      → IsInserted name pk row t e (insert_at name pk row cols eff t (e', got))
  insert_at-IsInserted name pk row cols eff t e e' (err x) active u = record {
    untouched = u;
    failed = λ y h. refl;
    inserted = λ id h. cc;
  }
  insert_at-IsInserted name pk row cols eff t e e' (ok rid) active u = record {
    untouched = u;
    failed = λ x h. buffer_insert-failed name rid (stamp pk rid row) cols eff t x h;
    inserted = λ id h n i.
        let (same, g) =
          buffer_insert-get name rid (stamp pk rid row) cols eff t e' id active h n i in
        g ∙ rw (same, get_txn-IsUntouched n i t e e' u) refl;
  }

  insert_opened-IsInserted :
      (name : String) (pk : Option ℕ) (rid : ℤ) (row : Row P) (t : Txn P) (e : Engine P)
      (o : Result StorageError (List Column × List (ℤ × Row P)))
      → t.done ≡ false
      → IsInserted name pk row t e (insert_opened name pk rid row t e o)
  insert_opened-IsInserted name pk rid row t e (err x) active = record {
    untouched = IsUntouched-refl e;
    failed = λ y h. refl;
    inserted = λ id h. cc;
  }
  insert_opened-IsInserted name pk rid row t e (ok (cols, eff)) active =
      elim (Bool-cases (fits row cols)) [
        | inl h ↦ rw h (
            insert_at-IsInserted name pk row cols eff t e (reserve_or name rid e).0
              (reserve_or name rid e).1 active (reserve_or-IsUntouched name rid e))
        | inr h ↦
            rw h (record {
              untouched = IsUntouched-refl e;
              failed = λ y q. refl;
              inserted = λ id q. cc;
            })
      ]

  -- An insert in an open transaction changes no committed row and not the log; one that fails
  -- leaves the transaction as it was, and after one that succeeds the transaction reads the new row
  -- under its id and every other row as before.
  pub put_txn-IsInserted :
      (name : String) (rid : ℤ) (row : Row P) (t : Txn P) (e : Engine P)
      → t.done ≡ false
      → IsInserted name none row t e (put_txn name rid row t e)
  unfolding put_txn
  put_txn-IsInserted name rid row t e h =
      insert_opened-IsInserted name none rid row t e (opening name t e) h
