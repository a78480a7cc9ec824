-- ===== src/Executor/Aggregate.antt =====
-- evalAggregate of internal/executor/executor.go.
pub mod Counts
use tsql.Base.{ℕ, zero, suc, String, Bool, true, false, Option, none, some}
use tsql.Base.{List, [], ◌∷◌, length, str_eq, if◌then◌else◌, Ordering, Result, ok, err, ◌>>=◌}
use tsql.Base.Int.{ℤ, pos, inc64, wrap64, ◌+ℤ◌, eqb_ℤ}
use tsql.Platform.{Platform}
use tsql.Types.{Value, null, int, float, is_null, compare_values}
use tsql.Storage.Table.{Row}
use tsql.Executor.Expr.{SqlError, sql_err, runtime_panic}

pub record Sum (P : Platform) : Type 0 where
  pub sum_i : ℤ
  pub sum_f : P.Float
  pub any : Bool
  pub all_int : Bool

abbrev pub is_lt : Ordering → Bool
is_lt Ordering.lt = true
is_lt _ = false

abbrev pub is_gt : Ordering → Bool
is_gt Ordering.gt = true
is_gt _ = false

abbrev pub is_eq : Ordering → Bool
is_eq Ordering.eq = true
is_eq _ = false

module _ {P : Platform} where
  -- `row[i]`
  unfoldable pub cell_at : List (Value P) → ℕ → Result SqlError (Value P)
  cell_at [] i = err runtime_panic
  cell_at (v ∷ vs) zero = ok v
  cell_at (v ∷ vs) (suc i) = cell_at vs i

  -- `r[argPos]`, where no position stands for -1
  abbrev pub arg_of : Option ℕ → Row P → Result SqlError (Value P)
  arg_of none r = err runtime_panic
  arg_of (some i) r = cell_at r i

  -- The loop over the rows of a group that every aggregate makes.
  unfoldable pub each_row :
      {S : Type 0}
      → Option ℕ
      → (Value P → S → Result SqlError S)
      → List (Row P)
      → S
      → Result SqlError S
  each_row i step [] s = ok s
  each_row i step (r ∷ rs) s = do v ← arg_of i r; s2 ← step v s; each_row i step rs s2

  abbrev pub count_step : Value P → ℤ → Result SqlError ℤ
  count_step v n = ok (if is_null v then n else inc64 n)

  unfoldable pub sum_step : Value P → Sum P → Result SqlError (Sum P)
  sum_step null s = ok s
  sum_step (int i) s = ok (record s { sum_i = wrap64 (s.sum_i +ℤ i); any = true })
  sum_step (float f) s =
      ok (record s { sum_f = P.float_add s.sum_f f; any = true; all_int = false })
  sum_step v s = err (sql_err "42883")

  abbrev pub no_sum : Sum P
  no_sum = record { sum_i = pos 0; sum_f = P.of_int (pos 0); any = false; all_int = true }

  abbrev pub sum_result : Sum P → Value P
  sum_result s =
      if s.any
      then (if s.all_int then int s.sum_i else float (P.float_add (P.of_int s.sum_i) s.sum_f))
      else null

  unfoldable pub avg_step : Value P → P.Float × ℤ → Result SqlError (P.Float × ℤ)
  avg_step null (s, n) = ok (s, n)
  avg_step (int i) (s, n) = ok (P.float_add s (P.of_int i), inc64 n)
  avg_step (float f) (s, n) = ok (P.float_add s f, inc64 n)
  avg_step v s = err (sql_err "42883")

  abbrev pub avg_result : P.Float × ℤ → Value P
  avg_result (s, n) = if eqb_ℤ n (pos 0) then null else float (P.float_div s (P.of_int n))

  -- The best value so far, `null` while none is found.
  unfoldable pub best_step : (Ordering → Bool) → Value P → Value P → Result SqlError (Value P)
  best_step better null best = ok best
  best_step better v null = ok v
  best_step better v best = ok (if better (compare_values v best) then v else best)

  unfoldable pub eval_aggregate :
      String → Bool → List (Row P) → Option ℕ → Result SqlError (Value P)
  eval_aggregate name star rows i =
      if str_eq name "count"
      then (if star
          then ok (int (wrap64 (pos (length rows))))
          else (each_row i count_step rows (pos 0) >>= λ n. ok (int n)))
      else if str_eq name "sum"
      then (each_row i sum_step rows no_sum >>= λ s. ok (sum_result s))
      else if str_eq name "avg"
      then (each_row i avg_step rows (P.of_int (pos 0), pos 0) >>= λ s. ok (avg_result s))
      else if str_eq name "min"
      then each_row i (best_step is_lt) rows null
      else if str_eq name "max"
      then each_row i (best_step is_gt) rows null
      else err (sql_err "42883")
