-- ===== src/Executor/Select/Shape.antt =====
-- On execSelect: the shape of its result.
use tsql.Base.{ℕ, zero, suc, ◌≤◌, ◌≡◌, refl, sym, ap, ◌∙◌, arith}
use tsql.Base.{Option, none, some, List, [], ◌∷◌, map, length, take, All}
use tsql.Base.{Result, ok, err, bind-eq-ok, ok-injective}
use tsql.Base.Int.{ℤ, pos, negsuc}
use mathlib.Core.Path.{subst}
use tsql.Platform.{Platform}
use tsql.Storage.Table.{Row}
use tsql.Executor.Expr.{SqlError, Select, select}
use tsql.Executor.Eval.{Context}
use tsql.Executor.ForeignKeys.{View}
use tsql.Executor.Plan.{FieldPlan}
use tsql.Executor.Join.{lifted, select_rows}
use tsql.Executor.Group.{Item, limited, plan_cell, plan_cells, output_rows, keyed_items, sort_keyed}
use tsql.Executor.Select.{Output, Query, Plan, plan_query, result_items, finish_query, run_query}
use tsql.Executor.Select.{exec_select, from_tables, resolve_opt, resolve_each}

length-map_lem : {A B : Type 0} (f : A → B) (xs : List A) → length (map f xs) ≡ length xs
length-map_lem f [] = refl
length-map_lem f (x ∷ xs) = ap suc (length-map_lem f xs)

-- A count is within a limit; a negative limit allows nothing.
abbrev pub IsWithin : Option ℤ → ℕ → Type 0
IsWithin none n = Unit {0}
IsWithin (some (pos k)) n = n ≤ k
IsWithin (some (negsuc k)) n = ⊥

length-take_lem : {A : Type 0} (n : ℕ) (xs : List A) → length (take n xs) ≤ n
length-take_lem zero xs = omega arith
length-take_lem (suc n) [] = omega arith
length-take_lem (suc n) (x ∷ xs) = omega (arith, length-take_lem n xs)

limited-IsWithin :
    {A : Type 0} (limit : Option ℤ) (xs ys : List A)
    → limited limit xs ≡ ok ys
    → IsWithin limit (length ys)
limited-IsWithin none xs ys h = tt
limited-IsWithin (some (pos n)) xs ys h =
    subst (λ ys. length ys ≤ n) (ok-injective h) (length-take_lem n xs)
limited-IsWithin (some (negsuc n)) xs ys h = cc

lifted-eq-ok : {A : Type 0} (r : Result SqlError A) (a : A) → lifted r ≡ ok a → r ≡ ok a
lifted-eq-ok (ok b) a h = cc
lifted-eq-ok (err x) a h = cc

module _ {P : Platform} where
  length-plan_cells :
      (c : Context P) (group : Option (List (Row P))) (fs : List (FieldPlan P)) (row out : Row P)
      → plan_cells c group fs row ≡ ok out
      → length out ≡ length fs
  unfolding plan_cells
  length-plan_cells c group [] row out h = ap length (sym (ok-injective h))
  length-plan_cells c group (f ∷ fs) row out h =
      let (v, e, h1) = bind-eq-ok (plan_cell c group f row) _ h in
      let (vs, e2, h2) = bind-eq-ok (plan_cells c group fs row) _ h1 in
      ap length (sym (ok-injective h2)) ∙ ap suc (length-plan_cells c group fs row vs e2)

  output_rows-shape :
      (c : Context P) (fs : List (FieldPlan P)) (items : List (Item P)) (rows : List (Row P))
      → output_rows c fs items ≡ ok rows
      → All (λ r. length r ≡ length fs) rows × (length rows ≡ length items)
  unfolding output_rows
  output_rows-shape c fs [] rows h =
      subst (λ rows. All (λ r. length r ≡ length fs) rows × (length rows ≡ 0)) (ok-injective h)
        (tt, refl)
  output_rows-shape c fs ((row, group) ∷ items) rows h =
      let (out, e, h1) = bind-eq-ok (plan_cells c group fs row) _ h in
      let (rest, e2, h2) = bind-eq-ok (output_rows c fs items) _ h1 in
      let (all, n) = output_rows-shape c fs items rest e2 in
      subst (λ rows. All (λ r. length r ≡ length fs) rows × (length rows ≡ suc (length items)))
        (ok-injective h2) ((length-plan_cells c group fs row out e, all), ap suc n)

  -- A rectangular result within a limit.
  abbrev pub IsShaped : Option ℤ → Output P → Type 0
  IsShaped limit out =
      All (λ r. length r ≡ length out.columns) out.rows × IsWithin limit (length out.rows)

  finish_query-IsShaped :
      (c : Context P) (p : Plan P) (limit : Option ℤ) (items : List (Item P)) (out : Output P)
      → finish_query c p limit items ≡ ok out
      → IsShaped limit out
  unfolding finish_query
  finish_query-IsShaped c p limit items out h =
      let (keyed, e1, h1) = bind-eq-ok (keyed_items c (map (λ o. o.0) p.orders) items) _ h in
      let sorted = map (λ k. k.1) (sort_keyed (map (λ o. o.1) p.orders) keyed) in
      let (kept, e2, h2) = bind-eq-ok (limited limit sorted) _ h1 in
      let (rows, e3, h3) = bind-eq-ok (output_rows c (map (λ f. f.0) p.fields) kept) _ h2 in
      let (all, n) = output_rows-shape c (map (λ f. f.0) p.fields) kept rows e3 in
      subst (IsShaped limit) (ok-injective h3) (
        subst (λ k. All (λ r. length r ≡ k) rows)
            (length-map_lem (λ f. f.0) p.fields ∙ sym (length-map_lem (λ f. f.1) p.fields)) all,
        subst (IsWithin limit) (sym n) (limited-IsWithin limit sorted kept e2),
      )

  run_query-IsShaped :
      (view : View P) (now : P.Time) (q : Query P) (out : Output P)
      → run_query view now q ≡ ok out
      → IsShaped q.limit out
  unfolding run_query
  run_query-IsShaped view now q out h =
      let (p, e1, h1) = bind-eq-ok (lifted (plan_query q)) _ h in
      let c : Context P = record { scope = p.scope; group = none; clock = now } in
      let (rows, e2, h2) = bind-eq-ok (select_rows view c q.tables q.ons q.kinds q.filter) _ h1 in
      let (items, e3, h3) = bind-eq-ok (lifted (result_items c p q.having rows)) _ h2 in
      finish_query-IsShaped c p q.limit items out
        (lifted-eq-ok (finish_query c p q.limit items) out h3)

  abbrev pub limit_of : Select P → Option ℤ
  limit_of (select ts ons kinds star fields aliases w group having order limit) = limit

  -- Each row of a SELECT's result has a cell for each column of its header, and where the statement
  -- has a LIMIT there are no more rows than that.
  pub exec_select-IsShaped :
      (view : View P) (now : P.Time) (q : Select P) (out : Output P)
      → exec_select view now q ≡ ok out
      → IsShaped (limit_of q) out
  unfolding exec_select
  exec_select-IsShaped view now (select ts ons kinds star fields aliases w group having order limit)
        out h =
      let (tables, e1, h1) = bind-eq-ok (from_tables view now ts 0 []) _ h in
      let (w2, e2, h2) = bind-eq-ok (resolve_opt view now w) _ h1 in
      let (having2, e3, h3) = bind-eq-ok (resolve_opt view now having) _ h2 in
      let (ons2, e4, h4) = bind-eq-ok (resolve_each view now ons) _ h3 in
      run_query-IsShaped view now _ out h4
