-- ===== src/Storage/Txn/Changes.antt =====
-- On Txn.Update and Txn.Delete.
use tsql.Base.{
  ◌≡◌, ◌≢◌, refl, ap, ◌∙◌, length, arith, String, str_eq, Bool, true, false, ◌&&◌, not, none,
}
use tsql.Base.{List, if◌then◌else◌, Result, ok, err, ◌>>=◌, bind-eq-ok, ok-injective}
use tsql.Base.{Bool-cases, inl, inr}
use tsql.Base.Int.{ℤ, int_eq, eqb_ℤ}
use tsql.Platform.{Platform}
use tsql.Schema.{Column}
use tsql.Storage.Table.{Row}
use tsql.Storage.Engine.{Engine, StorageError, no_row, unique, txn_done, bad_arity}
use tsql.Storage.Txn.{
  Op, op_put, op_delete, op_name, op_id, op_row, Txn, with_op, get_txn, clashes, has_key,
}
use tsql.Storage.Txn.{
  opening, fits, eff_map, table_def, update_opened, update_txn, delete_opened, delete_txn,
}
use tsql.Storage.Txn.Reads.{get_txn-with_op, get_txn-eff_map}

module _ {P : Platform} where
  -- The outcome of a change that an operation of the buffer stands for.
  pub record IsChanged (o : Op P) (t : Txn P) (e : Engine P)
      (r : Txn P × Result StorageError (Unit {0})) : Type 0 where
    pub failed : (x : StorageError) → r.1 ≡ err x → r.0 ≡ t
    pub present : r.1 ≡ ok tt → get_txn (op_name o) (op_id o) t e ≢ none
    pub changed :
        r.1 ≡ ok tt
        → (n : String) (i : ℤ)
        → get_txn n i r.0 e
          ≡ (if str_eq (op_name o) n && eqb_ℤ (op_id o) i then op_row o else get_txn n i t e)

  opening-eff_map :
      (name : String) (t : Txn P) (e : Engine P) (cols : List Column) (eff : List (ℤ × Row P))
      → opening name t e ≡ ok (cols, eff)
      → eff_map name t e ≡ ok eff
  opening-eff_map name t e cols eff = by_state t.done
    where
      opened : Bool → Result StorageError (List Column × List (ℤ × Row P))
      opened b =
          if b
          then err txn_done
          else (do cols ← table_def name e; eff ← eff_map name t e; ok (cols, eff))

      by_state : (b : Bool) → opened b ≡ ok (cols, eff) → eff_map name t e ≡ ok eff
      by_state true h = cc
      by_state false h =
          let (c, p, q) = bind-eq-ok (table_def name e) _ h in
          let (m, i, j) = bind-eq-ok (eff_map name t e) _ q in
          i ∙ ap ok (ap (λ p. p.1) (ok-injective j))

  has_key-get_txn :
      (name : String) (rid : ℤ) (t : Txn P) (e : Engine P) (eff : List (ℤ × Row P))
      → t.done ≡ false
      → eff_map name t e ≡ ok eff
      → has_key rid eff ≡ true
      → get_txn name rid t e ≢ none
  has_key-get_txn name rid t e eff active h k z =
      ground (arith, get_txn-eff_map name rid t e eff active h)

  refused : (o : Op P) (t : Txn P) (e : Engine P) (x : StorageError) → IsChanged o t e (t, err x)
  refused o t e x = record { failed = λ y h. refl; present = λ h. cc; changed = λ h. cc }

  accepted :
      (o : Op P) (t : Txn P) (e : Engine P)
      → t.done ≡ false
      → get_txn (op_name o) (op_id o) t e ≢ none
      → IsChanged o t e (with_op o t, ok tt)
  accepted o t e active here = record {
    failed = λ y h. cc;
    present = λ h. here;
    changed = λ h n i. get_txn-with_op n i o t e active;
  }

  delete_opened-IsChanged :
      (name : String) (rid : ℤ) (t : Txn P) (e : Engine P)
      (o : Result StorageError (List Column × List (ℤ × Row P)))
      → opening name t e ≡ o
      → t.done ≡ false
      → IsChanged (op_delete name rid) t e (delete_opened name rid t o)
  delete_opened-IsChanged name rid t e (err x) h active = refused (op_delete name rid) t e x
  delete_opened-IsChanged name rid t e (ok (cols, eff)) h active =
      elim (Bool-cases (has_key rid eff)) [
        | inl k ↦ rw k (
            accepted (op_delete name rid) t e active
              (has_key-get_txn name rid t e eff active (opening-eff_map name t e cols eff h) k))
        | inr k ↦ rw k (refused (op_delete name rid) t e no_row)
      ]

  -- A delete in an open transaction that fails leaves the transaction as it was; one that succeeds
  -- found the row in the transaction's view, which afterwards lacks that row and is otherwise the
  -- same.
  delete_txn-IsChanged :
      (name : String) (rid : ℤ) (t : Txn P) (e : Engine P)
      → t.done ≡ false
      → IsChanged (op_delete name rid) t e (delete_txn name rid t e)
  unfolding delete_txn
  delete_txn-IsChanged name rid t e active =
      delete_opened-IsChanged name rid t e (opening name t e) refl active

  update_opened-IsChanged :
      (name : String) (rid : ℤ) (row : Row P) (t : Txn P) (e : Engine P)
      (o : Result StorageError (List Column × List (ℤ × Row P)))
      → opening name t e ≡ o
      → t.done ≡ false
      → IsChanged (op_put name rid row) t e (update_opened name rid row t o)
  update_opened-IsChanged name rid row t e (err x) h active = refused (op_put name rid row) t e x
  update_opened-IsChanged name rid row t e (ok (cols, eff)) h active =
      by_tests (fits row cols) (has_key rid eff) (clashes cols rid row eff) refl
    where
      by_tests :
          (f k c : Bool)
          → has_key rid eff ≡ k
          → IsChanged (op_put name rid row) t e (
              if not f
              then (t, err (bad_arity (length row) (length cols)))
              else if not k
              then (t, err no_row)
              else if c
              then (t, err unique)
              else (with_op (op_put name rid row) t, ok tt))
      by_tests false k c q = refused (op_put name rid row) t e _
      by_tests true false c q = refused (op_put name rid row) t e no_row
      by_tests true true true q = refused (op_put name rid row) t e unique
      by_tests true true false q =
          accepted (op_put name rid row) t e active
            (has_key-get_txn name rid t e eff active (opening-eff_map name t e cols eff h) q)

  -- An update in an open transaction that fails leaves the transaction as it was; one that succeeds
  -- found the row in the transaction's view, which afterwards has the new row under that id and is
  -- otherwise the same.
  pub update_txn-IsChanged :
      (name : String) (rid : ℤ) (row : Row P) (t : Txn P) (e : Engine P)
      → t.done ≡ false
      → IsChanged (op_put name rid row) t e (update_txn name rid row t e)
  unfolding update_txn
  update_txn-IsChanged name rid row t e active =
      update_opened-IsChanged name rid row t e (opening name t e) refl active
