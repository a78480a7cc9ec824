-- ===== src/Storage/Table.antt =====
-- The type Table of internal/storage/engine.go, with its UNIQUE secondary index.
use Prim.Native.String.{◌++◌}
use tsql.Base.{ℕ, ◌+◌, String, Bool, false, ◌&&◌, not, Option, none, some}
use tsql.Base.{List, [], ◌∷◌, any, get_or, set, if◌then◌else◌, Eq, nat_eq}
use tsql.Base.{string_eq, pair_beq, pair_beq_iff}
use tsql.Base.Int.{ℤ, eqb_ℤ, ltb_ℤ, inc64, int_eq}
use tsql.Base.Decimal.{format_int}
use tsql.Base.Assoc.{lookup, insert, remove}
use tsql.Platform.{Platform}
use tsql.Types.{Value, null, int, float, text, bool, time, is_null}
use tsql.Schema.{Column}

abbrev pub Row : Platform → Type 0
Row P = List (Value P)

-- The key of an index entry: the column's position and the value's key.
abbrev pub Key : Type 0
Key = ℕ × String

instance abbrev pub key_eq : Eq Key
key_eq = record { beq = pair_beq nat_eq string_eq; beq_iff = pair_beq_iff nat_eq string_eq }

pub record Table (P : Platform) : Type 0 where
  pub id : ℕ
  pub name : String
  pub cols : List Column
  pub rows : List (ℤ × Row P)
  pub next_id : ℤ
  -- `uniq[ci][key]`, as one map from the pair
  pub uniq : List (Key × ℤ)

-- The positions of the UNIQUE columns, counted from `i`.
unfoldable pub uniq_cols_from : ℕ → List Column → List ℕ
uniq_cols_from i [] = []
uniq_cols_from i (c ∷ cs) =
    let rest = uniq_cols_from (i + 1) cs in if c.unique then i ∷ rest else rest

unfoldable pub uniq_cols : List Column → List ℕ
unfolding uniq_cols_from
uniq_cols cols = uniq_cols_from 0 cols

abbrev pub holds : Option ℤ → ℤ → Bool
holds none rid = false
holds (some cur) rid = eqb_ℤ cur rid

module _ {P : Platform} where
  unfoldable pub uniq_key : Value P → String
  unfolding format_int
  uniq_key (int i) = "i" ++ format_int i
  uniq_key (float f) = "f" ++ P.format_float f
  uniq_key (text s) = "s" ++ s
  uniq_key (bool b) = if b then "b1" else "b0"
  uniq_key (time t) = "t" ++ P.format_time t
  uniq_key null = "n"

  -- `row[ci]`. Go panics past the end; the rows of a table have a cell for each column.
  abbrev pub cell : Row P → ℕ → Value P
  cell row ci = get_or row ci null

  unfoldable pub set_keys : List ℕ → ℤ → Row P → List (Key × ℤ) → List (Key × ℤ)
  set_keys [] rid row u = u
  set_keys (ci ∷ cis) rid row u =
      set_keys cis rid row
        (if is_null (cell row ci) then u else insert (ci, uniq_key (cell row ci)) rid u)

  unfoldable pub remove_keys : List ℕ → ℤ → Row P → List (Key × ℤ) → List (Key × ℤ)
  remove_keys [] rid row u = u
  remove_keys (ci ∷ cis) rid row u =
      let k : Key = (ci, uniq_key (cell row ci)) in
      remove_keys cis rid row
        (if is_null (cell row ci) then u else if holds (lookup k u) rid then remove k u else u)

  -- setRowKeysLocked
  unfoldable pub set_row_keys : ℤ → Row P → Table P → Table P
  set_row_keys rid row t = record t { uniq = set_keys (uniq_cols t.cols) rid row t.uniq }

  -- removeRowKeysLocked
  unfoldable pub remove_row_keys : ℤ → Row P → Table P → Table P
  remove_row_keys rid row t = record t { uniq = remove_keys (uniq_cols t.cols) rid row t.uniq }

  unfoldable pub build_uniq_from : List (ℤ × Row P) → Table P → Table P
  unfolding set_row_keys
  build_uniq_from [] t = t
  build_uniq_from ((rid, row) ∷ rest) t = build_uniq_from rest (set_row_keys rid row t)

  -- buildUniqLocked, which clears the index by initUniq
  unfoldable pub build_uniq : Table P → Table P
  unfolding build_uniq_from
  build_uniq t = build_uniq_from t.rows (record t { uniq = [] })

  -- `if old, ok := t.rows[rowID]; ok { t.removeRowKeysLocked(rowID, old) }`
  unfoldable pub forget_old : ℤ → Table P → Table P
  unfolding remove_row_keys
  forget_old rid t = elim (lookup rid t.rows) [ none ↦ t | some old ↦ remove_row_keys rid old t ]

  -- The in-memory half of put: drop the old row's keys, store the row, index it.
  unfoldable pub store_row : ℤ → Row P → Table P → Table P
  unfolding forget_old set_row_keys
  store_row rid row t =
      let t' = forget_old rid t in
      set_row_keys rid row (record t' { rows = insert rid row t'.rows })

  -- The in-memory half of a delete.
  unfoldable pub delete_row : ℤ → Table P → Table P
  unfolding forget_old
  delete_row rid t = let t' = forget_old rid t in record t' { rows = remove rid t'.rows }

  -- `if rowID >= t.nextID { t.nextID = rowID + 1 }`
  abbrev pub bump_next_id : ℤ → Table P → Table P
  bump_next_id rid t = if not (ltb_ℤ rid t.next_id) then record t { next_id = inc64 rid } else t

  -- One column's test in put: the key is held by another row.
  unfoldable pub is_taken : Table P → ℤ → Row P → ℕ → Bool
  is_taken t rid row ci =
      not (is_null (cell row ci)) && (elim (lookup (ci, uniq_key (cell row ci)) t.uniq) [
        | none ↦ false
        | some old ↦ not (eqb_ℤ old rid)
      ])

  unfoldable pub violates_unique : Table P → ℤ → Row P → Bool
  unfolding is_taken any
  violates_unique t rid row = any (is_taken t rid row) (uniq_cols t.cols)

  abbrev pub stamp : Option ℕ → ℤ → Row P → Row P
  stamp none rid row = row
  stamp (some pk) rid row = set row pk (int rid)
