-- ===== src/Schema/Valid.antt =====
-- On TableDef.Validate: the definitions that it accepts.
use tsql.Base.{
  ◌≤◌, ◌≡◌, ◌||◌, String, true, false, List, [], ◌∷◌, All, any, str_eq, arith, ok, refl, inl, inr,
  Bool-cases, guard, not, bind-eq-ok, ok-injective, false,
}
use mathlib.Core.Path.{subst}
use tsql.Schema.{
  Column, TableDef, is_ident, check_column, validate_cols, validate, count_primary,
  normalize_pk_type, is_empty, invalid_table_name, no_columns, normalize_pk,
}
use tsql.Types.{type_int, type_bigint, valid_types, ColumnType}

-- A column that the catalog may hold: a name, a known type, and an integer type for a primary key.
pub record IsSound (c : Column) : Type 0 where
  pub named : is_ident c.name ≡ true
  pub typed : valid_types c.type ≡ true
  pub keyed : c.primary ≡ true → (str_eq c.type type_int || str_eq c.type type_bigint) ≡ true

-- No name stands twice in the list, nor among the names before it.
abbrev pub AreFresh : List String → List Column → Type 0
AreFresh seen [] = Unit {0}
AreFresh seen (c ∷ cs) = (any (str_eq c.name) seen ≡ false) × AreFresh (c.name ∷ seen) cs

normalize-valid :
    (ct : ColumnType) → valid_types ct ≡ true → valid_types (normalize_pk_type ct) ≡ true
unfolding valid_types normalize_pk_type
normalize-valid ct h = elim (Bool-cases (str_eq ct type_int || str_eq ct type_bigint)) [
  | inl e ↦ rw e h
  | inr e ↦ rw e refl
]

normalize-is_int :
    (ct : ColumnType)
    → (str_eq (normalize_pk_type ct) type_int || str_eq (normalize_pk_type ct) type_bigint) ≡ true
unfolding normalize_pk_type
normalize-is_int ct = elim (Bool-cases (str_eq ct type_int || str_eq ct type_bigint)) [
  | inl e ↦ rw (e, e) refl
  | inr e ↦ rw e refl
]

normalize_pk-IsSound :
    (seen : List String) (c : Column)
    → check_column seen c ≡ ok tt
    → IsSound (normalize_pk c) × (any (str_eq c.name) seen ≡ false)
unfolding check_column
normalize_pk-IsSound seen c h = elim (Bool-cases c.primary) [
  | inl p ↦ rw p (
    record {
      named = ground arith;
      typed = normalize-valid c.type (ground arith);
      keyed = λ q. normalize-is_int c.type;
    },
    ground arith,
  )
  | inr p ↦ rw p (
    record { named = ground arith; typed = ground arith; keyed = λ q. ground arith },
    ground arith,
  )
]

name-normalize_pk : (c : Column) → (normalize_pk c).name ≡ c.name
name-normalize_pk c = ground arith

AreFresh-normalize_pk :
    (seen : List String) (c : Column) (cs : List Column)
    → any (str_eq c.name) seen ≡ false
    → AreFresh (c.name ∷ seen) cs
    → AreFresh seen (normalize_pk c ∷ cs)
AreFresh-normalize_pk seen c cs h k = rw (name-normalize_pk c) (h, k)

abbrev AreValid : List String → List Column → Type 0
AreValid seen cs = All IsSound cs × AreFresh seen cs

validate_cols-AreValid :
    (seen : List String) (cs ds : List Column) → validate_cols seen cs ≡ ok ds → AreValid seen ds
unfolding validate_cols
validate_cols-AreValid seen [] ds h = subst (AreValid seen) (ok-injective h) (tt, tt)
validate_cols-AreValid seen (c ∷ cs) ds h =
    let (u, checked, h') = bind-eq-ok (check_column seen c) _ h in
    let (rest, e, h'') = bind-eq-ok (validate_cols (c.name ∷ seen) cs) _ h' in
    let (sound, fresh) = normalize_pk-IsSound seen c checked in
    let (all_sound, all_fresh) = validate_cols-AreValid (c.name ∷ seen) cs rest e in
    subst (AreValid seen) (ok-injective h'')
      ((sound, all_sound), AreFresh-normalize_pk seen c rest fresh all_fresh)

count_primary-validate_cols :
    (seen : List String) (cs ds : List Column)
    → validate_cols seen cs ≡ ok ds
    → count_primary ds ≡ count_primary cs
unfolding validate_cols count_primary
count_primary-validate_cols seen [] ds h = ground arith
count_primary-validate_cols seen (c ∷ cs) ds h =
    let (u, checked, h') = bind-eq-ok (check_column seen c) _ h in
    let (rest, e, h'') = bind-eq-ok (validate_cols (c.name ∷ seen) cs) _ h' in
    subst (λ l. count_primary l ≡ count_primary (c ∷ cs)) (ok-injective h'')
      (ground (arith, count_primary-validate_cols (c.name ∷ seen) cs rest e))

nonempty-validate_cols :
    (cs ds : List Column) → validate_cols [] cs ≡ ok ds → is_empty cs ≡ false → is_empty ds ≡ false
unfolding validate_cols
nonempty-validate_cols [] ds h k = cc
nonempty-validate_cols (c ∷ cs) ds h k =
    let (u, checked, h') = bind-eq-ok (check_column [] c) _ h in
    let (rest, e, h'') = bind-eq-ok (validate_cols (c.name ∷ []) cs) _ h' in
    subst (λ l. is_empty l ≡ false) (ok-injective h'') refl

-- A definition that CREATE TABLE may register.
pub record IsWellFormed (td : TableDef) : Type 0 where
  pub named : is_ident td.name ≡ true
  pub nonempty : is_empty td.cols ≡ false
  pub columns : AreValid [] td.cols
  pub one_key : count_primary td.cols ≤ 1

-- A definition that Validate accepts has a valid name, at least one column, columns with distinct
-- valid names and known types, at most one primary key, and an integer type for it; its name is kept.
pub validate-IsWellFormed :
    (td td' : TableDef) → validate td ≡ ok td' → IsWellFormed td' × (td'.name ≡ td.name)
unfolding validate
validate-IsWellFormed td td' h =
    let (u, named, h1) = bind-eq-ok (guard (is_ident td.name) invalid_table_name) _ h in
    let (v, full, h2) = bind-eq-ok (guard (not (is_empty td.cols)) no_columns) _ h1 in
    let (cols, e, h3) = bind-eq-ok (validate_cols [] td.cols) _ h2 in
    subst (λ t. IsWellFormed t × (t.name ≡ td.name)) (ground arith)
      (
        record {
          named = ground arith;
          nonempty = nonempty-validate_cols td.cols cols e (ground arith);
          columns = validate_cols-AreValid [] td.cols cols e;
          one_key = ground (arith, count_primary-validate_cols [] td.cols cols e);
        },
        refl,
      )
