-- ===== src/Executor/Scope/Positions.antt =====
-- On joinScope.resolve: what the positions of a scope mean.
use tsql.Base.{ℕ, zero, suc, ◌+◌, ◌≤◌, ◌<◌, ◌≡◌, sym, ap, ◌∙◌, ◌-◌, ◌⊎◌, String, true, some}
use tsql.Base.{List, [], ◌∷◌, length, str_eq, eq_iff, Option-cases, Bool-cases, inl, inr, arith}
use tsql.Base.{ok, ok-injective, string_eq}
use mathlib.Core.Path.{subst}
use tsql.Base.Assoc.{lookup, insert, lookup-insert}
use tsql.Schema.{Column, TableDef}
use tsql.Executor.Expr.{ColRef}
use tsql.Executor.Scope.{
  JoinTable, JoinScope, index_cols, col_index_map, resolve_qualified, positions,
}
use tsql.Executor.Scope.{only_one, resolve, single_table_scope}

-- Every entry of a column index is below a bound.
abbrev pub IsBelow : ℕ → List (String × ℕ) → Type 0
IsBelow n [] = Unit {0}
IsBelow n ((k, i) ∷ m) = (i < n) × IsBelow n m

-- The tables of a scope lie one after the other, and all end at or before `n`.
abbrev pub AreWithin : ℕ → JoinScope → Type 0
AreWithin n [] = Unit {0}
AreWithin n (t ∷ ts) =
    (t.col_idx ≡ col_index_map t.def) × (t.base_pos + length t.def.cols ≤ n) × AreWithin n ts

IsBelow-insert :
    (n i : ℕ) (k : String) (m : List (String × ℕ)) → IsBelow n m → i < n → IsBelow n (insert k i m)
unfolding insert
IsBelow-insert n i k [] h l = (l, tt)
IsBelow-insert n i k ((j, w) ∷ m) h l = elim (Bool-cases (str_eq j k)) [
  | inl e ↦ rw e (l, h.1)
  | inr e ↦ rw e (h.0, IsBelow-insert n i k m h.1 l)
]

IsBelow-index_cols :
    (n i : ℕ) (cs : List Column) (m : List (String × ℕ))
    → i + length cs ≤ n
    → IsBelow n m
    → IsBelow n (index_cols i cs m)
unfolding index_cols
IsBelow-index_cols n i [] m l h = h
IsBelow-index_cols n i (c ∷ cs) m l h =
    IsBelow-index_cols n (suc i) cs (insert c.name i m) (omega (arith, l))
      (IsBelow-insert n i c.name m h (omega (arith, l)))

lookup-IsBelow :
    (n i : ℕ) (k : String) (m : List (String × ℕ)) → IsBelow n m → lookup k m ≡ some i → i < n
unfolding lookup
lookup-IsBelow n i k [] h e = cc
lookup-IsBelow n i k ((j, w) ∷ m) h e = elim (Bool-cases (str_eq j k)) [
  | inl q ↦ ground (arith, h.0)
  | inr q ↦ lookup-IsBelow n i k m h.1 (ground arith)
]

lookup-below :
    (n ci : ℕ) (k : String) (t : JoinTable)
    → t.col_idx ≡ col_index_map t.def
    → t.base_pos + length t.def.cols ≤ n
    → lookup k t.col_idx ≡ some ci
    → t.base_pos + ci < n
unfolding col_index_map
lookup-below n ci k t h l e = omega (
  arith,
  l,
  lookup-IsBelow (length t.def.cols) ci k (col_index_map t.def)
      (IsBelow-index_cols (length t.def.cols) 0 t.def.cols [] (omega arith) tt)
      (sym (ap (lookup k) h) ∙ e),
)

resolve_qualified-below :
    (n i : ℕ) (ref : ColRef) (sc : JoinScope)
    → AreWithin n sc
    → resolve_qualified ref sc ≡ ok i
    → i < n
unfolding resolve_qualified
resolve_qualified-below n i ref [] h e = cc
resolve_qualified-below n i ref (t ∷ ts) h e = elim (Bool-cases (str_eq t.alias ref.table)) [
  | inl q ↦ elim (Option-cases (lookup ref.name t.col_idx)) [
    | inl z ↦ ground arith
    | inr (ci, z) ↦ omega (arith, lookup-below n ci ref.name t h.0 h.1 z, found ci q z)
  ]
  | inr q ↦ resolve_qualified-below n i ref ts h.2 (ground arith)
]
  where
    found :
        (ci : ℕ)
        → str_eq t.alias ref.table ≡ true
        → lookup ref.name t.col_idx ≡ some ci
        → t.base_pos + ci ≡ i
    found ci q z = ground arith

only_one_head : (p i : ℕ) (ps : List ℕ) → only_one (p ∷ ps) ≡ ok i → p ≡ i
only_one_head p i [] e = ok-injective e
only_one_head p i (q ∷ ps) e = cc

-- Every position of a name is inside the row.
positions-below :
    (n i : ℕ) (name : String) (sc : JoinScope)
    → AreWithin n sc
    → only_one (positions name sc) ≡ ok i
    → i < n
unfolding positions
positions-below n i name [] h e = cc
positions-below n i name (t ∷ ts) h e = elim (Option-cases (lookup name t.col_idx)) [
  | inl z ↦ positions-below n i name ts h.2 (ground arith)
  | inr (ci, z) ↦ omega (
    arith,
    lookup-below n ci name t h.0 h.1 z,
    only_one_head (t.base_pos + ci) i (positions name ts) (ground arith),
  )
]

-- In a scope whose tables lie within `n` columns, a reference that resolves does so to a column
-- of the joined row.
pub resolve-below :
    (n i : ℕ) (ref : ColRef) (sc : JoinScope) → AreWithin n sc → resolve sc ref ≡ ok i → i < n
unfolding resolve
resolve-below n i ref sc h e = elim (Bool-cases (str_eq ref.table "")) [
  | inl q ↦ positions-below n i ref.name sc h (ground arith)
  | inr q ↦ resolve_qualified-below n i ref sc h (ground arith)
]

-- The column at a position has the name.
abbrev pub IsNamed : String → ℕ → List Column → Type 0
IsNamed k i [] = ⊥
IsNamed k zero (c ∷ cs) = c.name ≡ k
IsNamed k (suc i) (c ∷ cs) = IsNamed k i cs

minus_suc : (i j : ℕ) → suc i ≤ j → j - i ≡ suc (j - suc i)
minus_suc i j l = omega (arith, l)

minus_self : (j : ℕ) → j - j ≡ 0
minus_self j = omega arith

lookup-index_cols :
    (k : String) (i j : ℕ) (cs : List Column) (m : List (String × ℕ))
    → lookup k (index_cols i cs m) ≡ some j
    → (lookup k m ≡ some j) ⊎ ((i ≤ j) × IsNamed k (j - i) cs)
unfolding index_cols
lookup-index_cols k i j [] m e = inl e
lookup-index_cols k i j (c ∷ cs) m e =
    elim (lookup-index_cols k (suc i) j cs (insert c.name i m) e) [
      | inl q ↦ elim (Bool-cases (str_eq c.name k)) [
        | inl b ↦ inr (found q b)
        | inr b ↦ inl (ground (arith, lookup-insert c.name k i m))
      ]
      | inr (l, h) ↦ inr (omega (arith, l), rw (minus_suc i j l) h)
    ]
  where
    at : i ≡ j → str_eq c.name k ≡ true → IsNamed k (j - i) (c ∷ cs)
    at q b = rw (q, minus_self j) ((eq_iff c.name k).0 b)

    found :
        lookup k (insert c.name i m) ≡ some j
        → str_eq c.name k ≡ true
        → (i ≤ j) × IsNamed k (j - i) (c ∷ cs)
    found q b = (
      ground (arith, lookup-insert c.name k i m),
      at (ground (arith, lookup-insert c.name k i m)) b,
    )

minus_zero : (i : ℕ) → i - 0 ≡ i
minus_zero i = omega arith

single-IsNamed :
    (def : TableDef) (ref : ColRef) (i : ℕ)
    → lookup ref.name (col_index_map def) ≡ some i
    → IsNamed ref.name i def.cols
unfolding col_index_map lookup
single-IsNamed def ref i e = elim (lookup-index_cols ref.name 0 i def.cols [] e) [
  | inl q ↦ cc
  | inr (l, h) ↦ subst (λ n. IsNamed ref.name n def.cols) (minus_zero i) h
]

-- Over a single table, a reference that resolves does so to a column with the name that it gives.
resolve-IsNamed :
    (def : TableDef) (ref : ColRef) (i : ℕ)
    → resolve (single_table_scope def) ref ≡ ok i
    → IsNamed ref.name i def.cols
unfolding resolve single_table_scope resolve_qualified positions
resolve-IsNamed def ref i e = elim (Option-cases (lookup ref.name (col_index_map def))) [
  | inl z ↦ ground arith
  | inr (j, z) ↦ rw (found j z) (single-IsNamed def ref j z)
]
  where
    found : (j : ℕ) → lookup ref.name (col_index_map def) ≡ some j → i ≡ j
    found j z = ground arith
