-- ===== src/Executor/Eval/Logic.antt =====
-- On evalBoolCtx: its connectives against those of three-valued logic.
use tsql.Base.{◌≡◌, refl, String, Bool, true, false, ◌||◌, arith, ◌↔◌, inl, inr}
use tsql.Base.{Result, ok, ◌>>=◌, if◌then◌else◌, bind-eq-ok, ok-injective, Ordering, Bool-cases}
use mathlib.Core.Path.{subst}
use tsql.Platform.{Platform}
use tsql.Types.{Value, null, int, float, text, bool, time, compare_values, is_null}
use tsql.Storage.Table.{Row}
use tsql.Executor.Expr.{SqlError, Expr, Exprs, lit, col_ref, func, cmp, is_null_test, and, or}
use tsql.Executor.Expr.{not_expr, binary, in_list, in_sub}
use tsql.Executor.Eval.{Context, Truth, unknown, known, and_truth, or_truth, not_truth, eval_bool}
use tsql.Executor.Eval.{cmp_truth, value_truth, literal_truth, in_truth, scan_list, eval_value}

-- A truth value of SQL, and the one that a pair stands for.
pub data Logic : Type 0 where
  holds fails unsure : Logic

abbrev pub IsProper : Truth → Type 0
IsProper (v, true) = v ≡ false
IsProper (v, false) = Unit {0}

unfoldable pub or_logic : Logic → Logic → Logic
or_logic holds b = holds
or_logic fails b = b
or_logic unsure holds = holds
or_logic unsure b = unsure

unfoldable pub not_logic : Logic → Logic
not_logic holds = fails
not_logic fails = holds
not_logic unsure = unsure

abbrev pub meaning : Truth → Logic
meaning (v, true) = unsure
meaning (true, false) = holds
meaning (false, false) = fails

or_truth-meaning :
    (a b : Truth)
    → IsProper a
    → IsProper b
    → meaning (or_truth a b) ≡ or_logic (meaning a) (meaning b)
unfolding or_truth or_logic
or_truth-meaning (true, true) b h k = cc
or_truth-meaning a (true, true) h k = cc
or_truth-meaning (true, false) (true, false) h k = refl
or_truth-meaning (true, false) (false, false) h k = refl
or_truth-meaning (true, false) (false, true) h k = refl
or_truth-meaning (false, false) (true, false) h k = refl
or_truth-meaning (false, false) (false, false) h k = refl
or_truth-meaning (false, false) (false, true) h k = refl
or_truth-meaning (false, true) (true, false) h k = refl
or_truth-meaning (false, true) (false, false) h k = refl
or_truth-meaning (false, true) (false, true) h k = refl

not_truth-meaning : (a : Truth) → meaning (not_truth a) ≡ not_logic (meaning a)
unfolding not_truth not_logic
not_truth-meaning (true, true) = refl
not_truth-meaning (false, true) = refl
not_truth-meaning (true, false) = refl
not_truth-meaning (false, false) = refl

cmp_truth-IsProper : (op : String) (o : Ordering) {t : Truth} → cmp_truth op o ≡ ok t → IsProper t
unfolding cmp_truth
cmp_truth-IsProper op o h = ground arith

and_truth-IsProper : (a b : Truth) → IsProper (and_truth a b)
unfolding and_truth
and_truth-IsProper a b = ground arith

or_truth-IsProper : (a b : Truth) → IsProper (or_truth a b)
unfolding or_truth
or_truth-IsProper a b = ground arith

not_truth-IsProper : (a : Truth) → IsProper (not_truth a)
unfolding not_truth
not_truth-IsProper a = ground arith

in_truth-IsProper : (neg : Bool) (m : Bool × Bool) → IsProper (in_truth neg m)
in_truth-IsProper neg (true, n) = tt
in_truth-IsProper neg (false, true) = refl
in_truth-IsProper neg (false, false) = tt

and_truth-meaning :
    (a b : Truth)
    → IsProper a
    → IsProper b
    → (meaning (and_truth a b) ≡ holds) ↔ ((meaning a ≡ holds) × (meaning b ≡ holds))
unfolding and_truth
and_truth-meaning (true, true) b h k = cc
and_truth-meaning a (true, true) h k = cc
and_truth-meaning (true, false) (true, false) h k = (λ e. (refl, refl), λ e. refl)
and_truth-meaning (true, false) (false, false) h k = (λ e. cc, λ e. e.1)
and_truth-meaning (true, false) (false, true) h k = (λ e. cc, λ e. cc)
and_truth-meaning (false, false) b h k = ground arith
and_truth-meaning (false, true) b h k = ground arith

module _ {P : Platform} where
  value_truth-IsProper : (v : Value P) {t : Truth} → value_truth v ≡ ok t → IsProper t
  unfolding value_truth
  value_truth-IsProper null h = ground arith
  value_truth-IsProper (int i) h = ground arith
  value_truth-IsProper (float f) h = ground arith
  value_truth-IsProper (text s) h = cc
  value_truth-IsProper (bool b) h = ground arith
  value_truth-IsProper (time d) h = cc

  literal_truth-IsProper : (v : Value P) {t : Truth} → literal_truth v ≡ ok t → IsProper t
  unfolding literal_truth
  literal_truth-IsProper null h = ground arith
  literal_truth-IsProper (int i) h = cc
  literal_truth-IsProper (float f) h = cc
  literal_truth-IsProper (text s) h = cc
  literal_truth-IsProper (bool b) h = ground arith
  literal_truth-IsProper (time d) h = cc

  cmp_result-IsProper :
      (op : String) (a b : Value P) {t : Truth}
      → (if is_null a || is_null b then ok unknown else cmp_truth op (compare_values a b)) ≡ ok t
      → IsProper t
  cmp_result-IsProper op a b h = elim (Bool-cases (is_null a || is_null b)) [
    | inl n ↦ ground arith
    | inr n ↦ cmp_truth-IsProper op (compare_values a b) (ground arith)
  ]

  in_result-IsProper :
      (neg : Bool) (a : Value P) (es : Exprs P) {t : Truth}
      → (if is_null a then ok unknown else (scan_list a es false >>= λ m. ok (in_truth neg m)))
        ≡ ok t
      → IsProper t
  in_result-IsProper neg a es {t = t} h = elim (Bool-cases (is_null a)) [
    | inl n ↦ ground arith
    | inr n ↦ scanned (scan_list a es false) (ground arith)
  ]
    where
      scanned :
          (m : Result SqlError (Bool × Bool)) → (m >>= λ m. ok (in_truth neg m)) ≡ ok t → IsProper t
      scanned m k =
          let (a, p, q) = bind-eq-ok m _ k in
          subst IsProper (ok-injective q) (in_truth-IsProper neg a)

  -- A truth value that a search condition has is never both true and NULL.
  eval_bool-IsProper :
      (c : Context P) (e : Expr P) (row : Row P) (t : Truth) → eval_bool c e row ≡ ok t → IsProper t
  unfolding eval_bool
  eval_bool-IsProper c (lit v) row t h = literal_truth-IsProper v h
  eval_bool-IsProper c (binary op l r) row t h =
      let (v, p, q) = bind-eq-ok (eval_value c (binary op l r) row) value_truth h in
      value_truth-IsProper v q
  eval_bool-IsProper c (and l r) row t h =
      let (a, p, q) = bind-eq-ok (eval_bool c l row) _ h in
      let (b, i, j) = bind-eq-ok (eval_bool c r row) _ q in
      subst IsProper (ok-injective j) (and_truth-IsProper a b)
  eval_bool-IsProper c (or l r) row t h =
      let (a, p, q) = bind-eq-ok (eval_bool c l row) _ h in
      let (b, i, j) = bind-eq-ok (eval_bool c r row) _ q in
      subst IsProper (ok-injective j) (or_truth-IsProper a b)
  eval_bool-IsProper c (not_expr x) row t h =
      let (a, p, q) = bind-eq-ok (eval_bool c x row) _ h in
      subst IsProper (ok-injective q) (not_truth-IsProper a)
  eval_bool-IsProper c (is_null_test x neg) row t h =
      let (a, p, q) = bind-eq-ok (eval_value c x row) _ h in subst IsProper (ok-injective q) tt
  eval_bool-IsProper c (cmp op l r) row t h =
      let (a, p, q) = bind-eq-ok (eval_value c l row) _ h in
      let (b, i, j) = bind-eq-ok (eval_value c r row) _ q in cmp_result-IsProper op a b j
  eval_bool-IsProper c (in_list x es neg) row t h =
      let (a, p, q) = bind-eq-ok (eval_value c x row) _ h in in_result-IsProper neg a es q
  eval_bool-IsProper c (col_ref ref) row t h = cc
  eval_bool-IsProper c (func n s a) row t h = cc
  eval_bool-IsProper c (in_sub x s n) row t h = cc

  -- OR is the connective of three-valued logic.
  eval_bool-or :
      (c : Context P) (l r : Expr P) (row : Row P) (a b : Truth)
      → eval_bool c l row ≡ ok a
      → eval_bool c r row ≡ ok b
      → (t : Truth) × (eval_bool c (or l r) row ≡ ok t)
        × (meaning t ≡ or_logic (meaning a) (meaning b))
  unfolding eval_bool
  eval_bool-or c l r row a b h k = (
    or_truth a b,
    rw (h, eval_bool) (rw (k, eval_bool) refl),
    or_truth-meaning a b (eval_bool-IsProper c l row a h) (eval_bool-IsProper c r row b k),
  )

  -- NOT is the connective of three-valued logic.
  eval_bool-not :
      (c : Context P) (x : Expr P) (row : Row P) (a : Truth)
      → eval_bool c x row ≡ ok a
      → (t : Truth) × (eval_bool c (not_expr x) row ≡ ok t) × (meaning t ≡ not_logic (meaning a))
  unfolding eval_bool
  eval_bool-not c x row a h = (not_truth a, rw h refl, not_truth-meaning a)

  -- A row passes the search condition `l AND r` exactly where it passes both `l` and `r`.
  pub eval_bool-and :
      (c : Context P) (l r : Expr P) (row : Row P) (a b : Truth)
      → eval_bool c l row ≡ ok a
      → eval_bool c r row ≡ ok b
      → (t : Truth) × (eval_bool c (and l r) row ≡ ok t)
        × ((meaning t ≡ holds) ↔ ((meaning a ≡ holds) × (meaning b ≡ holds)))
  unfolding eval_bool
  eval_bool-and c l r row a b h k = (
    and_truth a b,
    rw h (rw k refl),
    and_truth-meaning a b (eval_bool-IsProper c l row a h) (eval_bool-IsProper c r row b k),
  )

  -- Where `l` is NULL and `r` is true, `NOT (l AND r)` is true, although SQL has it NULL.
  pub eval_bool-not_and :
      (c : Context P) (l r : Expr P) (row : Row P)
      → eval_bool c l row ≡ ok unknown
      → eval_bool c r row ≡ ok (known true)
      → eval_bool c (not_expr (and l r)) row ≡ ok (known true)
  unfolding eval_bool and_truth not_truth
  eval_bool-not_and c l r row h k = rw h (rw k refl)
