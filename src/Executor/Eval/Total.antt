-- ===== src/Executor/Eval/Total.antt =====
-- On validateExpr and evalBoolCtx: the errors that a validated condition can have.
use tsql.Base.{ℕ, zero, suc, ◌<◌, ◌≡◌, refl, String, Bool, true, false, ◌&&◌, ◌||◌, not, none}
use mathlib.Core.Path.{subst}
use tsql.Base.Int.{ℤ, pos, eqb_ℤ, eqb_ℤ_iff}
use tsql.Base.{sym, Bool-cases, arith, inl, inr, List, [], ◌∷◌, length, str_eq}
use tsql.Base.{Result, ok, err, ◌>>=◌, bind-eq-ok, Result-cases, if◌then◌else◌, Ordering}
use tsql.Platform.{Platform}
use tsql.Types.{Value, int, float, compare_values, is_null}
use tsql.Storage.Table.{Row}
use tsql.Executor.Expr.{
  SqlError, sql_err, runtime_panic, ColRef, Expr, Exprs, OptExpr, lit, col_ref, func,
}
use tsql.Executor.Expr.{cmp, is_null_test, and, or, not_expr, binary, in_list, no_exprs, more_exprs}
use tsql.Executor.Scope.{resolve, validate_expr, checked}
use tsql.Executor.Scope.Positions.{AreWithin, resolve-below}
use tsql.Executor.Aggregate.{cell_at}
use tsql.Executor.Eval.{Context, eval_bool, eval_value, eval_func}
use tsql.Executor.Eval.{
  cmp_truth, value_truth, literal_truth, in_truth, scan_list, combine, arithmetic,
}
use tsql.Executor.Eval.{
  divides_by_zero, as_float, compute, int_arithmetic, float_arithmetic, unknown,
}

-- Neither an unknown column or table nor a panic.
abbrev pub is_fine : {A : Type 0} → Result SqlError A → Bool
is_fine (ok a) = true
is_fine (err runtime_panic) = false
is_fine (err (sql_err code)) = not (str_eq code "42703") && not (str_eq code "42P01")

bind-is_fine :
    {A B : Type 0} (m : Result SqlError A) (f : A → Result SqlError B)
    → is_fine m ≡ true
    → ((a : A) → is_fine (f a) ≡ true)
    → is_fine (m >>= f) ≡ true
bind-is_fine (ok a) f h k = k a
bind-is_fine (err runtime_panic) f h k = h
bind-is_fine (err (sql_err code)) f h k = h

cmp_truth-is_fine : (op : String) (o : Ordering) → is_fine (cmp_truth op o) ≡ true
unfolding cmp_truth
cmp_truth-is_fine op o = ground arith

-- The float64 of the integer 0 equals itself.
abbrev pub HasZero : Platform → Type 0
HasZero P = P.float_eq (P.of_int (pos 0)) (P.of_int (pos 0)) ≡ true

-- A zero divisor is one as a float, too.
zero_float :
    (P : Platform) (b : ℤ)
    → HasZero P
    → eqb_ℤ b (pos 0) ≡ true
    → P.float_eq (P.of_int b) (P.of_int (pos 0)) ≡ true
zero_float P b z h =
    subst (λ b. P.float_eq (P.of_int b) (P.of_int (pos 0)) ≡ true) (sym ((eqb_ℤ_iff b (pos 0)).0 h))
      z

-- The test for a zero divisor keeps the integer division from its panic.
int_arithmetic-is_fine :
    (P : Platform) (op : String) (a b : ℤ)
    → HasZero P
    → divides_by_zero P op (P.of_int b) ≡ false
    → is_fine (int_arithmetic {P = P} op a b) ≡ true
unfolding divides_by_zero int_arithmetic
int_arithmetic-is_fine P op a b z h = elim (Bool-cases (eqb_ℤ b (pos 0))) [
  | inl e ↦ ground (arith, zero_float P b z e, h, e)
  | inr e ↦ rw e (ground arith)
]

module _ {P : Platform} where
  cell_at-is_fine : (row : List (Value P)) (i : ℕ) → i < length row → is_fine (cell_at row i) ≡ true
  unfolding cell_at
  cell_at-is_fine [] i l = absurd (omega (arith, l))
  cell_at-is_fine (v ∷ vs) zero l = refl
  cell_at-is_fine (v ∷ vs) (suc i) l = cell_at-is_fine vs i (omega (arith, l))

  arithmetic-is_fine :
      (z : HasZero P) (op : String) (l r : Value P) → is_fine (arithmetic op l r) ≡ true
  unfolding arithmetic as_float compute float_arithmetic
  arithmetic-is_fine z op (int a) (int b) = elim (Bool-cases (divides_by_zero P op (P.of_int b))) [
    | inl h ↦ rw h refl
    | inr h ↦ rw h (int_arithmetic-is_fine P op a b z h)
  ]
  arithmetic-is_fine z op (int a) (float b) = ground arith
  arithmetic-is_fine z op (float a) (int b) = ground arith
  arithmetic-is_fine z op (float a) (float b) = ground arith
  arithmetic-is_fine z op l r = ground arith

  combine-is_fine : (z : HasZero P) (op : String) (l r : Value P) → is_fine (combine op l r) ≡ true
  combine-is_fine z op l r = ground (arith, arithmetic-is_fine z op l r)

  scan_list-is_fine : (v : Value P) (es : Exprs P) (n : Bool) → is_fine (scan_list v es n) ≡ true
  unfolding scan_list
  scan_list-is_fine v no_exprs n = refl
  scan_list-is_fine v (more_exprs (lit w) es) n =
      ground (arith, scan_list-is_fine v es true, scan_list-is_fine v es n)
  scan_list-is_fine v (more_exprs e es) n = refl

  value_truth-is_fine : (v : Value P) → is_fine (value_truth v) ≡ true
  unfolding value_truth
  value_truth-is_fine v = ground arith

  literal_truth-is_fine : (v : Value P) → is_fine (literal_truth v) ≡ true
  unfolding literal_truth
  literal_truth-is_fine v = ground arith

  eval_func-is_fine :
      (c : Context P) (name : String) (s : Bool) (a : OptExpr P)
      → c.group ≡ none
      → is_fine (eval_func c name s a) ≡ true
  unfolding eval_func
  eval_func-is_fine c name s a g = ground arith

  -- The reads of a row of the scope's width, outside any group.
  pub record IsReady (c : Context P) (row : Row P) : Type 0 where
    pub within : AreWithin (length row) c.scope
    pub ungrouped : c.group ≡ none

  col_ref-is_fine :
      (c : Context P) (row : Row P) (ref : ColRef)
      → IsReady c row
      → checked (resolve c.scope ref) ≡ ok tt
      → is_fine (resolve c.scope ref >>= λ i. cell_at row i) ≡ true
  col_ref-is_fine c row ref g h = elim (Result-cases (resolve c.scope ref)) [
    | inl (i, e) ↦
        rw e (cell_at-is_fine row i (resolve-below (length row) i ref c.scope g.within e))
    | inr (x, e) ↦ cc
  ]

  eval_value-is_fine :
      (z : HasZero P) (c : Context P) (e : Expr P) (row : Row P)
      → IsReady c row
      → validate_expr c.scope e ≡ ok tt
      → is_fine (eval_value c e row) ≡ true
  unfolding eval_value validate_expr
  eval_value-is_fine z c (lit v) row g h = refl
  eval_value-is_fine z c (col_ref ref) row g h = col_ref-is_fine c row ref g h
  eval_value-is_fine z c (func name s a) row g h = eval_func-is_fine c name s a g.ungrouped
  eval_value-is_fine z c (binary op l r) row g h =
      let (u, p, q) = bind-eq-ok (validate_expr c.scope l) _ h in
      bind-is_fine (eval_value c l row) _ (eval_value-is_fine z c l row g p) (λ a.
        bind-is_fine (eval_value c r row) _ (eval_value-is_fine z c r row g q)
          (λ b. combine-is_fine z op a b))
  eval_value-is_fine z c e row g h = refl

  compared-is_fine :
      (op : String) (a b : Value P)
      → is_fine (if is_null a || is_null b then ok unknown else cmp_truth op (compare_values a b))
        ≡ true
  compared-is_fine op a b = ground (arith, cmp_truth-is_fine op (compare_values a b))

  listed-is_fine :
      (neg : Bool) (a : Value P) (es : Exprs P)
      → is_fine
          (if is_null a then ok unknown else (scan_list a es false >>= λ m. ok (in_truth neg m)))
        ≡ true
  listed-is_fine neg a es = ground (
    arith,
    bind-is_fine (scan_list a es false) (λ m. ok (in_truth neg m)) (scan_list-is_fine a es false)
        (λ m. refl),
  )

  -- A condition that validation accepts evaluates, outside any group, on every row as wide as its
  -- tables with no panic, neither on an index nor on an integer division by zero, and with no unknown
  -- column or table. The float64 of the integer 0 equals itself.
  pub eval_bool-is_fine :
      (z : HasZero P) (c : Context P) (e : Expr P) (row : Row P)
      → IsReady c row
      → validate_expr c.scope e ≡ ok tt
      → is_fine (eval_bool c e row) ≡ true
  unfolding eval_bool validate_expr
  eval_bool-is_fine z c (lit v) row g h = literal_truth-is_fine v
  eval_bool-is_fine z c (cmp op l r) row g h =
      let (u, p, q) = bind-eq-ok (validate_expr c.scope l) _ h in
      bind-is_fine (eval_value c l row) _ (eval_value-is_fine z c l row g p) (λ a.
        bind-is_fine (eval_value c r row) _ (eval_value-is_fine z c r row g q)
          (λ b. compared-is_fine op a b))
  eval_bool-is_fine z c (is_null_test x neg) row g h =
      bind-is_fine (eval_value c x row) _ (eval_value-is_fine z c x row g h) (λ a. refl)
  eval_bool-is_fine z c (in_list x es neg) row g h =
      let (u, p, q) = bind-eq-ok (validate_expr c.scope x) _ h in
      bind-is_fine (eval_value c x row) _ (eval_value-is_fine z c x row g p)
        (λ a. listed-is_fine neg a es)
  eval_bool-is_fine z c (and l r) row g h =
      let (u, p, q) = bind-eq-ok (validate_expr c.scope l) _ h in
      bind-is_fine (eval_bool c l row) _ (eval_bool-is_fine z c l row g p)
        (λ a. bind-is_fine (eval_bool c r row) _ (eval_bool-is_fine z c r row g q) (λ b. refl))
  eval_bool-is_fine z c (or l r) row g h =
      let (u, p, q) = bind-eq-ok (validate_expr c.scope l) _ h in
      bind-is_fine (eval_bool c l row) _ (eval_bool-is_fine z c l row g p)
        (λ a. bind-is_fine (eval_bool c r row) _ (eval_bool-is_fine z c r row g q) (λ b. refl))
  eval_bool-is_fine z c (not_expr x) row g h =
      bind-is_fine (eval_bool c x row) _ (eval_bool-is_fine z c x row g h) (λ a. refl)
  eval_bool-is_fine z c (binary op l r) row g h =
      bind-is_fine (eval_value c (binary op l r) row) _
        (eval_value-is_fine z c (binary op l r) row g h) (λ v. value_truth-is_fine v)
  eval_bool-is_fine z c e row g h = refl
