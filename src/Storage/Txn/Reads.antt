-- ===== src/Storage/Txn/Reads.antt =====
-- On Txn.Get, effMapLocked and AllRows: what an open transaction sees.
use tsql.Base.{◌≡◌, refl, ◌∙◌, arith, String, str_eq, false, ◌&&◌}
use tsql.Base.{Option, none, some, List, [], ◌∷◌, ◌++◌, if◌then◌else◌, ok}
use tsql.Base.{Option-cases, inl, inr}
use tsql.Base.Int.{ℤ, int_eq, eqb_ℤ, eqb_ℤ_iff}
use tsql.Base.Assoc.{lookup, insert, remove, lookup-insert, lookup-remove}
use tsql.Platform.{Platform}
use tsql.Storage.Table.{Row}
use tsql.Storage.Engine.{Engine, get_engine, find_table}
use tsql.Storage.Txn.{Op, op_put, op_delete, op_name, op_id, op_row, Txn, with_op, last_op, get_txn}
use tsql.Storage.Txn.{insert_row, sort_rows, all_rows, overlay, eff_map}

module _ {P : Platform} where
  lookup-insert_row :
      (rid : ℤ) (r : ℤ × Row P) (rs : List (ℤ × Row P))
      → lookup rid (insert_row r rs) ≡ (if eqb_ℤ r.0 rid then some r.1 else lookup rid rs)
  unfolding lookup insert_row
  lookup-insert_row rid r [] = refl
  lookup-insert_row rid r (s ∷ ss) =
      ground (arith, lookup-insert_row rid r ss, eqb_ℤ_iff r.0 rid, eqb_ℤ_iff s.0 rid)

  pub lookup-sort_rows :
      (rid : ℤ) (rs : List (ℤ × Row P)) → lookup rid (sort_rows rs) ≡ lookup rid rs
  unfolding sort_rows lookup
  lookup-sort_rows rid [] = refl
  lookup-sort_rows rid (r ∷ rs) =
      lookup-insert_row rid r (sort_rows rs) ∙ ground (arith, lookup-sort_rows rid rs)

  abbrev pub row_after : Option (Op P) → Option (Row P) → Option (Row P)
  row_after none before = before
  row_after (some o) before = op_row o

  pub lookup-overlay :
      (name : String) (rid : ℤ) (os : List (Op P)) (m : List (ℤ × Row P))
      → lookup rid (overlay name os m) ≡ row_after (last_op name rid os) (lookup rid m)
  unfolding overlay last_op
  lookup-overlay name rid [] m = refl
  lookup-overlay name rid (op_put n i row ∷ os) m =
      lookup-overlay name rid os (if str_eq n name then insert i row m else m)
      ∙ ground (arith, lookup-insert i rid row m)
  lookup-overlay name rid (op_delete n i ∷ os) m =
      lookup-overlay name rid os (if str_eq n name then remove i m else m)
      ∙ ground (arith, lookup-remove i rid m)

  -- In an open transaction, Get and the merged rows that the checks and AllRows use agree on every
  -- row, where the table exists.
  pub get_txn-eff_map :
      (name : String) (rid : ℤ) (t : Txn P) (e : Engine P) (m : List (ℤ × Row P))
      → t.done ≡ false
      → eff_map name t e ≡ ok m
      → get_txn name rid t e ≡ lookup rid m
  unfolding get_txn eff_map all_rows get_engine
  get_txn-eff_map name rid t e m active h = elim (Option-cases (find_table name e.tables)) [
    | inl q ↦ ground arith
    | inr (u, q) ↦
        ground
          (arith, lookup-overlay name rid t.ops (sort_rows u.rows), lookup-sort_rows rid u.rows)
  ]

  last_op-append :
      (name : String) (rid : ℤ) (os : List (Op P)) (o : Op P)
      → last_op name rid (os ++ o ∷ [])
        ≡ (if str_eq (op_name o) name && eqb_ℤ (op_id o) rid then some o else last_op name rid os)
  unfolding last_op
  last_op-append name rid [] o = ground arith
  last_op-append name rid (p ∷ os) o = ground (arith, last_op-append name rid os o)

  -- In an open transaction, one more operation in the buffer decides what Get returns for its row
  -- and for no other.
  pub get_txn-with_op :
      (name : String) (rid : ℤ) (o : Op P) (t : Txn P) (e : Engine P)
      → t.done ≡ false
      → get_txn name rid (with_op o t) e ≡ (
          if str_eq (op_name o) name && eqb_ℤ (op_id o) rid then op_row o else get_txn name rid t e)
  unfolding get_txn
  get_txn-with_op name rid o t e h = ground (arith, last_op-append name rid t.ops o)
