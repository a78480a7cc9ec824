-- ===== src/Executor/Aggregate/Counts.antt =====
-- On evalAggregate: what count returns.
use tsql.Base.{ℕ, zero, suc, ◌+◌, ◌<◌, ◌≤◌, ◌^◌, ◌≡◌, refl, ap, ◌∙◌, arith, true, false, none, some}
use tsql.Base.{List, [], ◌∷◌, All, length, get_or, if◌then◌else◌, ok, Bool-cases, inl, inr}
use tsql.Base.Int.{pos, inc64_pos, wrap64_id}
use tsql.Platform.{Platform}
use tsql.Types.{Value, null, int, is_null}
use tsql.Storage.Table.{Row}
use tsql.Executor.Aggregate.{cell_at, each_row, count_step, eval_aggregate}

module _ {P : Platform} where
  -- How many rows have a value in the column.
  unfoldable pub filled : ℕ → List (Row P) → ℕ
  filled i [] = 0
  filled i (r ∷ rs) = if is_null (get_or r i null) then filled i rs else suc (filled i rs)

  cell_at-get_or : (r : List (Value P)) (i : ℕ) → i < length r → cell_at r i ≡ ok (get_or r i null)
  unfolding cell_at
  cell_at-get_or [] i l = absurd (omega (arith, l))
  cell_at-get_or (v ∷ vs) zero l = refl
  cell_at-get_or (v ∷ vs) (suc i) l = cell_at-get_or vs i (omega (arith, l))

  filled-length : (i : ℕ) (rows : List (Row P)) → filled i rows ≤ length rows
  unfolding filled
  filled-length i [] = omega arith
  filled-length i (r ∷ rs) = ground (arith, filled-length i rs)

  each_row-filled :
      (i k : ℕ) (rows : List (Row P))
      → All (λ r. i < length r) rows
      → k + length rows < 2 ^ 63
      → each_row (some i) count_step rows (pos k) ≡ ok (pos (k + filled i rows))
  unfolding each_row filled
  each_row-filled i k [] h l = ground arith
  each_row-filled i k (r ∷ rs) h l = elim (Bool-cases (is_null (get_or r i null))) [
    | inl n ↦ rw (cell_at-get_or r i h.0) (rw n (each_row-filled i k rs h.1 (omega (arith, l))))
    | inr n ↦ rw (cell_at-get_or r i h.0) (
        rw (n, inc64_pos k (omega (arith, l)))
          (each_row-filled i (k + 1) rs h.1 (omega (arith, l)) ∙ ground arith))
  ]

  -- Over fewer than 2^63 rows that have the column, count of a column is the number of its values
  -- that are not NULL, and count of a star is the number of rows.
  eval_aggregate-filled :
      (i : ℕ) (rows : List (Row P))
      → All (λ r. i < length r) rows
      → length rows < 2 ^ 63
      → (eval_aggregate "count" false rows (some i) ≡ ok (int (pos (filled i rows))))
        × (eval_aggregate "count" true rows none ≡ ok (int (pos (length rows))))
        × (filled i rows ≤ length rows)
  unfolding eval_aggregate
  eval_aggregate-filled i rows h l = (
    rw (each_row-filled i 0 rows h (omega (arith, l))) (ground arith),
    ap (λ n. ok (int n)) (wrap64_id (pos (length rows)) l),
    filled-length i rows,
  )
