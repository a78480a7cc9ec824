-- ===== src/Executor/Rows.antt =====
-- On execInsert and execUpdate: the rows that they hand to the storage.
use tsql.Base.{ℕ, zero, suc, ◌≡◌, refl, sym, arith, Bool, true, false, ◌&&◌, not, Option}
use tsql.Base.{List, [], ◌∷◌, length, set, ◌==◌, if◌then◌else◌, Bool-cases, inl, inr}
use tsql.Base.{Result, ok, err, bind-eq-ok, ok-injective, none, some, Option-cases}
use tsql.Executor.Insert.{cell_of, key_cell, column_at, pk_position}
use tsql.Base.Int.{ℤ}
use mathlib.Core.Path.{subst}
use tsql.Platform.{Platform}
use tsql.Types.{Value, int, null, is_null, check}
use tsql.Types.Check.{check-check}
use tsql.Schema.{Column, TableDef}
use tsql.Storage.Table.{Row}
use tsql.Executor.Expr.{SqlError, sql_err, Expr, Exprs, no_exprs, more_exprs}
use tsql.Executor.Eval.{Context, eval_value}
use tsql.Executor.ForeignKeys.{View, check_fk}
use tsql.Executor.Join.{nulls}
use tsql.Executor.Insert.{
  exprs_length, as_time, coerce, or_22p02, column_at, eval_insert_value, fill_row,
}
use tsql.Executor.Insert.{row_key, check_not_null, checked_values, insert_values}
use tsql.Executor.Modify.{apply_sets, checked_row}

or_22p02-ok :
    {P : Platform} {E : Type 0} (r : Result E (Value P)) (w : Value P)
    → or_22p02 r ≡ ok w
    → r ≡ ok w
or_22p02-ok (ok v) w h = cc
or_22p02-ok (err x) w h = cc

module _ {P : Platform} where
  -- A row with one cell for each column, of a value that the column's type takes as it is.
  abbrev pub Fits : List Column → Row P → Type 0
  Fits [] [] = Unit {0}
  Fits (c ∷ cs) (v ∷ vs) = (check c.type v ≡ ok v) × Fits cs vs
  Fits _ _ = ⊥

  -- The cells of the NOT NULL columns, the primary key left out, hold a value.
  abbrev pub IsFilled : List Column → Row P → Type 0
  IsFilled (c ∷ cs) (v ∷ vs) = (not c.primary && (c.not_null && is_null v) ≡ false) × IsFilled cs vs
  IsFilled _ _ = Unit {0}

  nulls-Fits : (cols : List Column) (row : Row P) → row ≡ nulls (length cols) → Fits cols row
  unfolding check
  nulls-Fits [] row h = subst (Fits []) (sym h) tt
  nulls-Fits (c ∷ cs) row h =
      subst (Fits (c ∷ cs)) (sym h) (refl, nulls-Fits cs (nulls (length cs)) refl)

  set-Fits :
      (cols : List Column) (row : Row P) (i : ℕ) (c : Column) (w : Value P)
      → Fits cols row
      → column_at cols i ≡ ok c
      → check c.type w ≡ ok w
      → Fits cols (set row i w)
  set-Fits [] [] i c w f h k = cc
  set-Fits [] (v ∷ vs) i c w f h k = absurd f
  set-Fits (d ∷ cs) [] i c w f h k = absurd f
  set-Fits (d ∷ cs) (v ∷ vs) zero c w f h k =
      (subst (λ d. check d.type w ≡ ok w) (sym (ok-injective h)) k, f.1)
  set-Fits (d ∷ cs) (v ∷ vs) (suc i) c w f h k = (f.0, set-Fits cs vs i c w f.1 h k)

  coerce-check : (c : Column) (v w : Value P) → coerce c v ≡ ok w → check c.type w ≡ ok w
  unfolding coerce
  coerce-check c v w h =
      check-check c.type (as_time c v) w (or_22p02-ok (check c.type (as_time c v)) w h)

  fill_row-Fits :
      (now : P.Time) (cols : List Column) (targets : List ℕ) (es : Exprs P) (row out : Row P)
      → Fits cols row
      → fill_row now cols targets es row ≡ ok out
      → Fits cols out
  unfolding fill_row
  fill_row-Fits now cols [] es row out f h = subst (Fits cols) (ok-injective h) f
  fill_row-Fits now cols (i ∷ is) no_exprs row out f h = subst (Fits cols) (ok-injective h) f
  fill_row-Fits now cols (i ∷ is) (more_exprs e es) row out f h =
      let (v, e1, h1) = bind-eq-ok (eval_insert_value now e) _ h in
      let (c, e2, h2) = bind-eq-ok (column_at cols i) _ h1 in
      let (w, e3, h3) = bind-eq-ok (coerce c v) _ h2 in
      fill_row-Fits now cols is es (set row i w) out
        (set-Fits cols row i c w f e2 (coerce-check c v w e3)) h3

  apply_sets-Fits :
      (c : Context P) (cols : List Column) (old : Row P) (sets : List (ℕ × Expr P))
      (row out : Row P)
      → Fits cols row
      → apply_sets c cols old sets row ≡ ok out
      → Fits cols out
  unfolding apply_sets
  apply_sets-Fits c cols old [] row out f h = subst (Fits cols) (ok-injective h) f
  apply_sets-Fits c cols old ((i, e) ∷ sets) row out f h =
      let (v, e1, h1) = bind-eq-ok (eval_value c e old) _ h in
      let (col, e2, h2) = bind-eq-ok (column_at cols i) _ h1 in
      let (w, e3, h3) = bind-eq-ok (coerce col v) _ h2 in
      apply_sets-Fits c cols old sets (set row i w) out
        (set-Fits cols row i col w f e2 (coerce-check col v w e3)) h3

  check_not_null-IsFilled :
      (cols : List Column) (row : Row P) → check_not_null cols row ≡ ok tt → IsFilled cols row
  unfolding check_not_null
  check_not_null-IsFilled [] row h = tt
  check_not_null-IsFilled (c ∷ cs) [] h = tt
  check_not_null-IsFilled (c ∷ cs) (v ∷ vs) h =
      by_test (not c.primary && (c.not_null && is_null v)) h (check_not_null-IsFilled cs vs)
    where
      by_test :
          (b : Bool)
          → (if b then err (sql_err "23502") else check_not_null cs vs) ≡ ok tt
          → (check_not_null cs vs ≡ ok tt → IsFilled cs vs)
          → (b ≡ false) × IsFilled cs vs
      by_test true h ih = cc
      by_test false h ih = (refl, ih h)

  -- The storage is asked for a number only for an auto_increment column, which has no value yet.
  abbrev pub IsUnnumbered : List Column → Row P → Option ℕ → Type 0
  IsUnnumbered cols row none = Unit {0}
  IsUnnumbered cols row (some pk) =
      (c : Column) × (column_at cols pk ≡ ok c) × (c.auto_inc ≡ true) × (cell_of row pk ≡ null)

  key_cell-IsUnnumbered :
      (cols : List Column) (row : Row P) (pk : ℕ) (c : Column) (v : Value P) (key : Option ℕ × ℤ)
      → column_at cols pk ≡ ok c
      → cell_of row pk ≡ v
      → key_cell pk c v ≡ ok key
      → IsUnnumbered cols row key.0
  key_cell-IsUnnumbered cols row pk c null key e n h = elim (Bool-cases c.auto_inc) [
    | inl a ↦
        subst (λ (k : Option ℕ × ℤ). IsUnnumbered cols row k.0) (ok-injective (rw a at h))
          (c, e, a, n)
    | inr a ↦ absurd (ground (arith, a, h))
  ]
  key_cell-IsUnnumbered cols row pk c (int i) key e n h =
      subst (λ (k : Option ℕ × ℤ). IsUnnumbered cols row k.0) (ok-injective h) tt
  key_cell-IsUnnumbered cols row pk c v key e n h = cc

  row_key-IsUnnumbered :
      (cols : List Column) (row : Row P) (key : Option ℕ × ℤ)
      → row_key cols row ≡ ok key
      → IsUnnumbered cols row key.0
  unfolding row_key
  row_key-IsUnnumbered cols row key h = elim (Option-cases (pk_position 0 cols)) [
    | inl n ↦
        subst (λ (k : Option ℕ × ℤ). IsUnnumbered cols row k.0)
          (ok-injective (rw (n, row_key) at h)) tt
    | inr (pk, n) ↦
        let (c, e, k) = bind-eq-ok (column_at cols pk) _ (rw (n, row_key) at h) in
        key_cell-IsUnnumbered cols row pk c (cell_of row pk) key e refl k
  ]

  -- What holds of a row and of the column that the storage is to number.
  abbrev pub IsAcceptable : View P → TableDef → Option ℕ → Row P → Type 0
  IsAcceptable view def numbered row =
      Fits def.cols row
      × IsFilled def.cols row
      × (check_fk view def row ≡ ok tt)
      × IsUnnumbered def.cols row numbered

  -- The row that an INSERT hands to the storage, before that numbers its key, has a cell of the
  -- column's type or NULL for each column, a value in each NOT NULL column but the primary key, and
  -- only foreign keys that lead to a row. A column that the storage is to number is an
  -- auto_increment column, and it is NULL in that row, so nothing is said of where its number leads.
  pub insert_values-Fits :
      (view : View P) (now : P.Time) (def : TableDef) (targets : List ℕ) (es : Exprs P)
      (key : Option ℕ × ℤ) (row : Row P)
      → insert_values view now def targets es ≡ ok (key, row)
      → IsAcceptable view def key.0 row
  unfolding insert_values
  insert_values-Fits view now def targets es key row h =
      elim (Bool-cases (exprs_length es == length targets)) [
        | inl q ↦ accepted (rw q at h)
        | inr q ↦ absurd (refused (rw q at h))
      ]
    where
      refused :
          Path (Result SqlError ((Option ℕ × ℤ) × Row P)) (err (sql_err "21000")) (ok (key, row))
          → ⊥
      refused k = cc

      accepted :
          checked_values view now def targets es ≡ ok (key, row) → IsAcceptable view def key.0 row
      accepted h =
          let (r, e1, h1) =
            bind-eq-ok (fill_row now def.cols targets es (nulls (length def.cols))) _ h in
          let (k, e2, h2) = bind-eq-ok (row_key def.cols r) _ h1 in
          let (u, e3, h3) = bind-eq-ok (check_not_null def.cols r) _ h2 in
          let (v, e4, h4) = bind-eq-ok (check_fk view def r) _ h3 in
          subst (λ (p : (Option ℕ × ℤ) × Row P). IsAcceptable view def p.0.0 p.1) (ok-injective h4)
            (
              fill_row-Fits now def.cols targets es (nulls (length def.cols)) r
                  (nulls-Fits def.cols (nulls (length def.cols)) refl) e1,
              check_not_null-IsFilled def.cols r e3,
              e4,
              row_key-IsUnnumbered def.cols r k e2,
            )

  -- An UPDATE of a row that fits its columns writes a row that fits them, and only foreign keys that
  -- lead to a row.
  pub checked_row-Fits :
      (view : View P) (c : Context P) (def : TableDef) (sets : List (ℕ × Expr P)) (old row : Row P)
      → Fits def.cols old
      → checked_row view c def sets old ≡ ok row
      → Fits def.cols row × (check_fk view def row ≡ ok tt)
  checked_row-Fits view c def sets old row f h =
      let (r, e1, h1) = bind-eq-ok (apply_sets c def.cols old sets old) _ h in
      let (u, e2, h2) = bind-eq-ok (check_fk view def r) _ h1 in
      subst (λ r. Fits def.cols r × (check_fk view def r ≡ ok tt)) (ok-injective h2)
        (apply_sets-Fits c def.cols old sets old r f e1, e2)
