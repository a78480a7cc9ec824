-- ===== src/Executor/ForeignKeys/Integrity.antt =====
-- On checkFK and fkReferenced: referential integrity under RESTRICT.
use tsql.Base.{◌>>?◌, some, ℕ, suc, ◌≡◌, refl, String, Bool, true, false, ◌&&◌, Option, none}
use tsql.Base.{arith, inl, inr, List, [], ◌∷◌, All, str_eq, Bool-cases}
use tsql.Base.{ok, ◌>>=◌, bind-eq-ok, Result-cases, if◌then◌else◌}
use tsql.Base.Int.{ℤ}
use tsql.Platform.{Platform}
use tsql.Types.{Value, null, int, float, text, bool, time}
use tsql.Schema.{Column, TableDef}
use tsql.Storage.Table.{Row}
use tsql.Executor.ForeignKeys.{View, RowId, same_row, check_key, check_keys, check_fk, refers}
use tsql.Executor.ForeignKeys.{any_refers, rows_of, cols_refer, tables_refer, fk_referenced}

abbrev pub or_none : {A : Type 0} → Bool → Option A → Option A
or_none true o = none
or_none false o = o

abbrev pub kept_rows : {P : Platform} → RowId → String → List (ℤ × Row P) → List (ℤ × Row P)
kept_rows gone name [] = []
kept_rows gone name ((i, r) ∷ rs) =
    if same_row (name, i) gone then kept_rows gone name rs else (i, r) ∷ kept_rows gone name rs

module _ {P : Platform} where
  -- The view after a row has been deleted.
  unfoldable pub without_row : RowId → View P → View P
  without_row gone view = record {
    catalog = view.catalog;
    rows = λ n. view.rows n >>= λ rs. ok (kept_rows gone n rs);
    get = λ n i. or_none (same_row (n, i) gone) (view.get n i);
    unique_get = λ n ci v. view.unique_get n ci v >>? λ i. or_none (same_row (n, i) gone) (some i);
  }

  -- Every foreign key of every row points to a row.
  abbrev pub HasIntegrity : View P → Type 0
  HasIntegrity view =
      All (λ d. All (λ p. check_fk view d p.1 ≡ ok tt) (rows_of view d.name)) view.catalog

  -- No column of the list refers to the row, from its position on.
  abbrev NoneRefers : String → ℤ → ℕ → List Column → Row P → Type 0
  NoneRefers parent pk ci [] row = Unit {0}
  NoneRefers parent pk ci (c ∷ cs) row =
      ((str_eq c.fk_table parent && refers pk ci row) ≡ false)
      × NoneRefers parent pk (suc ci) cs row

  refers_tail :
      (parent : String) (pk : ℤ) (ci : ℕ) (v : Value P) (cs : List Column) (vs : Row P)
      → NoneRefers parent pk (suc ci) cs (v ∷ vs)
      → NoneRefers parent pk ci cs vs
  unfolding refers
  refers_tail parent pk ci v [] vs h = tt
  refers_tail parent pk ci v (c ∷ cs) vs h = (h.0, refers_tail parent pk (suc ci) v cs vs h.1)

  check_key-without :
      (view : View P) (parent : String) (pk : ℤ) (c : Column) (v : Value P) (vs : Row P)
      → (str_eq c.fk_table parent && refers pk 0 (v ∷ vs)) ≡ false
      → check_key view c v ≡ ok tt
      → check_key (without_row (parent, pk) view) c v ≡ ok tt
  unfolding refers check_key without_row
  check_key-without view parent pk c null vs n h = refl
  check_key-without view parent pk c (int i) vs n h = rw n h
  check_key-without view parent pk c (float f) vs n h = cc
  check_key-without view parent pk c (text f) vs n h = cc
  check_key-without view parent pk c (bool f) vs n h = cc
  check_key-without view parent pk c (time f) vs n h = cc

  NoneRefers-empty :
      (view : View P) (parent : String) (pk : ℤ) (ci : ℕ) (cs : List Column)
      → NoneRefers parent pk ci cs []
  unfolding refers
  NoneRefers-empty view parent pk ci [] = tt
  NoneRefers-empty view parent pk ci (c ∷ cs) =
      (ground arith, NoneRefers-empty view parent pk (suc ci) cs)

  check_keys-without :
      (view : View P) (parent : String) (pk : ℤ) (cs : List Column) (row : Row P)
      → NoneRefers parent pk 0 cs row
      → check_keys view cs row ≡ ok tt
      → check_keys (without_row (parent, pk) view) cs row ≡ ok tt
  unfolding check_keys
  check_keys-without view parent pk [] row n h = refl
  check_keys-without view parent pk (c ∷ cs) [] n h = elim (Bool-cases (str_eq c.fk_table "")) [
    | inl e ↦ rw e (
        check_keys-without view parent pk cs [] (NoneRefers-empty view parent pk 0 cs)
          (ground arith))
    | inr e ↦ ground arith
  ]
  check_keys-without view parent pk (c ∷ cs) (v ∷ vs) n h =
      let rest = check_keys-without view parent pk cs vs (refers_tail parent pk 0 v cs vs n.1) in
      elim (Bool-cases (str_eq c.fk_table "")) [
        | inl e ↦ rw e (rest (ground arith))
        | inr e ↦
            let (u, p, q) =
              bind-eq-ok (check_key view c v) (λ x. check_keys view cs vs) (ground arith) in
            rw e (rw (check_key-without view parent pk c v vs n.0 p) (rest q))
      ]

  -- What a table's scan has excluded of each row but the one that goes.
  abbrev IsLeft : String → ℤ → String → ℕ → List Column → ℤ × Row P → Type 0
  IsLeft parent pk name ci cs (id, r) =
      same_row (name, id) (parent, pk) ≡ false → NoneRefers parent pk ci cs r

  any_refers-cons :
      (parent : String) (pk : ℤ) (name : String) (ci : ℕ) (c : Column) (cs : List Column)
      (rs : List (ℤ × Row P))
      → (str_eq c.fk_table parent && any_refers (parent, pk) pk name ci rs) ≡ false
      → All (IsLeft parent pk name (suc ci) cs) rs
      → All (IsLeft parent pk name ci (c ∷ cs)) rs
  unfolding any_refers
  any_refers-cons parent pk name ci c cs [] h a = tt
  any_refers-cons parent pk name ci c cs ((id, r) ∷ rs) h (a, b) =
      (λ k. (ground arith, a k), any_refers-cons parent pk name ci c cs rs (ground arith) b)

  All-IsLeft_nil :
      (parent : String) (pk : ℤ) (name : String) (ci : ℕ) (rs : List (ℤ × Row P))
      → All (IsLeft parent pk name ci []) rs
  All-IsLeft_nil parent pk name ci [] = tt
  All-IsLeft_nil parent pk name ci (r ∷ rs) = (λ k. tt, All-IsLeft_nil parent pk name ci rs)

  cols_refer-IsLeft :
      (view : View P) (parent : String) (pk : ℤ) (name : String) (ci : ℕ) (cs : List Column)
      → cols_refer view parent pk (parent, pk) name ci cs ≡ false
      → All (IsLeft parent pk name ci cs) (rows_of view name)
  unfolding cols_refer
  cols_refer-IsLeft view parent pk name ci [] h =
      All-IsLeft_nil parent pk name ci (rows_of view name)
  cols_refer-IsLeft view parent pk name ci (c ∷ cs) h =
      any_refers-cons parent pk name ci c cs (rows_of view name) (ground arith)
        (cols_refer-IsLeft view parent pk name (suc ci) cs (ground arith))

  abbrev IsChecked : View P → TableDef → List (ℤ × Row P) → Type 0
  IsChecked view d rs = All (λ p. check_fk view d p.1 ≡ ok tt) rs

  kept_rows-IsChecked :
      (view : View P) (parent : String) (pk : ℤ) (d : TableDef) (rs : List (ℤ × Row P))
      → IsChecked view d rs
      → All (IsLeft parent pk d.name 0 d.cols) rs
      → IsChecked (without_row (parent, pk) view) d (kept_rows (parent, pk) d.name rs)
  unfolding check_fk
  kept_rows-IsChecked view parent pk d [] a b = tt
  kept_rows-IsChecked view parent pk d ((id, r) ∷ rs) (a, as_) (b, bs) =
      elim (Bool-cases (same_row (d.name, id) (parent, pk))) [
        | inl e ↦ rw e (kept_rows-IsChecked view parent pk d rs as_ bs)
        | inr e ↦ rw e (
          check_keys-without view parent pk d.cols r (b e) a,
          kept_rows-IsChecked view parent pk d rs as_ bs,
        )
      ]

  rows_of-without :
      (view : View P) (gone : RowId) (name : String)
      → rows_of (without_row gone view) name ≡ kept_rows gone name (rows_of view name)
  unfolding rows_of without_row
  rows_of-without view gone name = elim (Result-cases (view.rows name)) [
    | inl (rs, e) ↦ rw (e, rows_of) refl
    | inr (x, e) ↦ rw (e, rows_of) refl
  ]

  tables_refer-IsChecked :
      (view : View P) (parent : String) (pk : ℤ) (ds : List TableDef)
      → All (λ d. IsChecked view d (rows_of view d.name)) ds
      → tables_refer view parent pk (parent, pk) ds ≡ false
      → All
          (λ d.
            IsChecked
              (without_row (parent, pk) view)
              d
              (rows_of (without_row (parent, pk) view) d.name))
          ds
  unfolding tables_refer
  tables_refer-IsChecked view parent pk [] a h = tt
  tables_refer-IsChecked view parent pk (d ∷ ds) (a, as_) h = (
    rw (rows_of-without view (parent, pk) d.name) (
        kept_rows-IsChecked view parent pk d (rows_of view d.name) a
          (cols_refer-IsLeft view parent pk d.name 0 d.cols (ground arith))),
    tables_refer-IsChecked view parent pk ds as_ (ground arith),
  )

  -- Where every foreign key points to a row and fkReferenced lets a row go, every foreign key
  -- still points to a row once that row is deleted.
  pub fk_referenced-HasIntegrity :
      (view : View P) (parent : String) (pk : ℤ)
      → HasIntegrity view
      → fk_referenced view parent pk (parent, pk) ≡ ok tt
      → HasIntegrity (without_row (parent, pk) view)
  unfolding fk_referenced without_row
  fk_referenced-HasIntegrity view parent pk a h =
      tables_refer-IsChecked view parent pk view.catalog a (ground arith)
