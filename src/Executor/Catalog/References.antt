-- ===== src/Executor/Catalog/References.antt =====
-- On validateFK and the columns of execCreate: what a REFERENCES clause points to.
use tsql.Base.{◌≡◌, refl, arith, String, Bool, true, false, not, Option, none, some, List, [], ◌∷◌}
use tsql.Base.{All, str_eq, eq_iff, if◌then◌else◌, ok, err, bind-eq-ok, ok-injective}
use tsql.Base.{Bool-cases, ◌⊎◌, inl, inr}
use mathlib.Core.Path.{subst}
use tsql.Platform.{Platform}
use tsql.Schema.{Column}
use tsql.Storage.Table.{Table}
use tsql.Storage.Engine.{Engine, find_table}
use tsql.Executor.Expr.{sql_err}
use tsql.Executor.Catalog.{
  ColumnDef, as_column, find_col, fk_target, link_col, link_parent, validate_fk,
}
use tsql.Executor.Catalog.{make_column, make_columns}

link_col-ok :
    (col : Column) (ref_table target : String) (o : Option Column) (c : Column)
    → link_col col ref_table target o ≡ ok c
    → (p : Column) × (o ≡ some p)
      × (p.primary ≡ true)
      × (p.type ≡ col.type)
      × (record col { fk_table = ref_table; fk_col = target } ≡ c)
link_col-ok col ref_table target none c h = cc
link_col-ok col ref_table target (some p) c h =
    by_tests p.primary (str_eq p.type col.type) refl refl h
  where
    linked : Column
    linked = record col { fk_table = ref_table; fk_col = target }

    by_tests :
        (a b : Bool)
        → p.primary ≡ a
        → str_eq p.type col.type ≡ b
        → (if not a
            then err (sql_err "0A000")
            else if not b
            then err (sql_err "42804")
            else ok linked)
          ≡ ok c
        → (q : Column) × (some p ≡ some q) × (q.primary ≡ true) × (q.type ≡ col.type) × (linked ≡ c)
    by_tests false b i j k = cc
    by_tests true false i j k = cc
    by_tests true true i j k = (p, refl, i, (eq_iff p.type col.type).0 j, ok-injective k)

module _ {P : Platform} where
  -- The foreign key of a column is the primary key of another table, of the same type.
  pub record IsReference (e : Engine P) (this_table : String) (c : Column) : Type 0 where
    pub parent : Table P
    pub target : Column
    pub other : str_eq c.fk_table this_table ≡ false
    pub found : find_table c.fk_table e.tables ≡ some parent
    pub column : find_col c.fk_col parent.cols ≡ some target
    pub primary : target.primary ≡ true
    pub type : target.type ≡ c.type

  -- What CREATE TABLE promises of a column's foreign key.
  abbrev pub IsLinked : Engine P → String → Column → Type 0
  IsLinked e this_table c = (c.fk_table ≡ "") ⊎ IsReference e this_table c

  link_parent-IsReference :
      (e : Engine P) (this_table ref_table ref_col : String) (col c : Column) (o : Option (Table P))
      → str_eq ref_table this_table ≡ false
      → find_table ref_table e.tables ≡ o
      → link_parent col ref_table ref_col o ≡ ok c
      → IsReference e this_table c
  link_parent-IsReference e this_table ref_table ref_col col c none d f h = cc
  link_parent-IsReference e this_table ref_table ref_col col c (some t) d f h =
      let (target, p, q) = bind-eq-ok (fk_target ref_col t.cols) _ h in
      let (k, found, primary, type, same) =
        link_col-ok col ref_table target (find_col target t.cols) c q in
      subst (IsReference e this_table) same (record {
        parent = t;
        target = k;
        other = d;
        found = f;
        column = found;
        primary = primary;
        type = type;
      })

  validate_fk-IsReference :
      (e : Engine P) (this_table ref_table ref_col : String) (col c : Column)
      → validate_fk e this_table col ref_table ref_col ≡ ok c
      → IsReference e this_table c
  unfolding validate_fk
  validate_fk-IsReference e this_table ref_table ref_col col c h =
      elim (Bool-cases (str_eq ref_table this_table)) [
        | inl d ↦ absurd (ground arith)
        | inr d ↦
            link_parent-IsReference e this_table ref_table ref_col col c
              (find_table ref_table e.tables) d refl (ground arith)
      ]

  make_column-IsLinked :
      (e : Engine P) (this_table : String) (d : ColumnDef) (c : Column)
      → make_column e this_table d ≡ ok c
      → IsLinked e this_table c
  make_column-IsLinked e this_table d c h = elim (Bool-cases (str_eq d.ref_table "")) [
    | inl q ↦ inl (ground arith)
    | inr q ↦
        inr (
          validate_fk-IsReference e this_table d.ref_table d.ref_col (as_column d) c (ground arith))
  ]

  -- Each column that CREATE TABLE makes has no foreign key, or one that is the primary key of
  -- another table that exists, of the same type.
  pub make_columns-IsLinked :
      (e : Engine P) (this_table : String) (ds : List ColumnDef) (cols : List Column)
      → make_columns e this_table ds ≡ ok cols
      → All (IsLinked e this_table) cols
  unfolding make_columns
  make_columns-IsLinked e this_table [] cols h =
      subst (All (IsLinked e this_table)) (ok-injective h) tt
  make_columns-IsLinked e this_table (d ∷ ds) cols h =
      let (c, p, h') = bind-eq-ok (make_column e this_table d) _ h in
      let (cs, q, h'') = bind-eq-ok (make_columns e this_table ds) _ h' in
      subst (All (IsLinked e this_table)) (ok-injective h'')
        (make_column-IsLinked e this_table d c p, make_columns-IsLinked e this_table ds cs q)
