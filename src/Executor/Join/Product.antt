-- ===== src/Executor/Join/Product.antt =====
-- On the nested loop of collectJoined: what a join returns.
use tsql.Base.{
  ℕ, ◌≡◌, refl, sym, ap, ◌∙◌, Bool, true, false, List, [], ◌∷◌, ◌++◌, map, length, zero, suc, All,
}
use tsql.Base.{
  Result, ok, err, ◌>>=◌, bind-eq-ok, ok-injective, Result-cases, inl, inr, if◌then◌else◌, ◌⊎◌,
}
use mathlib.Core.List.{append_assoc}
use mathlib.Core.List.{Mem, mem-cons_self, mem-cons_of_mem}
use mathlib.Core.Path.{subst}
use tsql.Types.{null}
use tsql.Platform.{Platform}
use tsql.Storage.Table.{Row}
use tsql.Executor.Expr.{SqlError, Expr, OptExpr, an_expr}
use tsql.Executor.Eval.{Context}
use tsql.Executor.Join.{test_row, filter_rows, join_rows, or_padded, nulls}

module _ {P : Platform} where
  -- The cross product: every left row with every right row behind it.
  unfoldable pub product : List (Row P) → List (Row P) → List (Row P)
  product [] rights = []
  product (l ∷ ls) rights = map (λ r. l ++ r) rights ++ product ls rights

  abbrev both :
      Result SqlError (List (Row P))
      → Result SqlError (List (Row P))
      → Result SqlError (List (Row P))
  both a b = a >>= λ xs. b >>= λ ys. ok (xs ++ ys)

  both_cons :
      (b : Bool) (r : Row P) (m n : Result SqlError (List (Row P)))
      → (both m n >>= λ rest. ok (if b then r ∷ rest else rest))
        ≡ both (m >>= λ rest. ok (if b then r ∷ rest else rest)) n
  both_cons true r (ok xs) (ok ys) = refl
  both_cons true r (ok xs) (err e) = refl
  both_cons true r (err e) n = refl
  both_cons false r (ok xs) (ok ys) = refl
  both_cons false r (ok xs) (err e) = refl
  both_cons false r (err e) n = refl

  both_nil : (m : Result SqlError (List (Row P))) → both (ok []) m ≡ m
  both_nil (ok xs) = refl
  both_nil (err e) = refl

  filter_rows-append :
      (c : Context P) (w : OptExpr P) (xs ys : List (Row P))
      → filter_rows c w (xs ++ ys) ≡ both (filter_rows c w xs) (filter_rows c w ys)
  unfolding filter_rows
  filter_rows-append c w [] ys = sym (both_nil (filter_rows c w ys))
  filter_rows-append c w (x ∷ xs) ys = elim (Result-cases (test_row c w x)) [
    | inl (b, h) ↦ rw h (
        rw (filter_rows-append c w xs ys) (both_cons b x (filter_rows c w xs) (filter_rows c w ys)))
    | inr (e, h) ↦ rw h refl
  ]

  filter_rows_nil : (c : Context P) (w : OptExpr P) → ok [] ≡ filter_rows c w []
  unfolding filter_rows
  filter_rows_nil c w = refl

  -- An inner join is the cross product of its tables filtered by the ON condition: the same rows in
  -- the same order, and the same error where the condition cannot be evaluated.
  pub join_rows-product :
      (c : Context P) (on : Expr P) (width : ℕ) (lefts rights : List (Row P))
      → join_rows c on false width lefts rights ≡ filter_rows c (an_expr on) (product lefts rights)
  unfolding join_rows product
  join_rows-product c on width [] rights = filter_rows_nil c (an_expr on)
  join_rows-product c on width (l ∷ ls) rights =
      rw (join_rows-product c on width ls rights)
        (sym (filter_rows-append c (an_expr on) (map (λ r. l ++ r) rights) (product ls rights)))

  -- A right row that matches: the ON condition is true of the left row with it.
  abbrev pub IsMatch : Context P → Expr P → List (Row P) → Row P → Row P → Type 0
  IsMatch c on rights l r = Mem r rights × (test_row c (an_expr on) (l ++ r) ≡ ok true)

  -- A row of NULLs, as wide as the right table, behind a left row that has no match.
  abbrev pub IsPadding : Context P → Expr P → ℕ → List (Row P) → Row P → Row P → Type 0
  IsPadding c on width rights l r =
      (length r ≡ width)
      × All (λ v. v ≡ null) r
      × All (λ r. test_row c (an_expr on) (l ++ r) ≡ ok false) rights

  -- A row of a joined table that begins with a left row.
  abbrev pub HasFront : Context P → Expr P → ℕ → List (Row P) → List (Row P) → Row P → Type 0
  HasFront c on width rights out l =
      (before : List (Row P)) × (r : Row P) × (after : List (Row P)) × (out
        ≡ before ++ (l ++ r) ∷ after)
      × (IsMatch c on rights l r ⊎ IsPadding c on width rights l r)

  -- The rows of one left row.
  abbrev AreMatches : Context P → Expr P → List (Row P) → Row P → List (Row P) → Type 0
  AreMatches c on rights l ms = All (λ m. (r : Row P) × (m ≡ l ++ r) × IsMatch c on rights l r) ms

  module _ (c : Context P) (on : Expr P) where
    HasFront-append :
        (width : ℕ) (rights xs ys : List (Row P)) (l : Row P)
        → HasFront c on width rights ys l
        → HasFront c on width rights (xs ++ ys) l
    HasFront-append width rights xs ys l (before, r, after, h, k) = (
      xs ++ before,
      r,
      after,
      ap (λ z. xs ++ z) h ∙ sym (append_assoc xs before ((l ++ r) ∷ after)),
      k,
    )

    All-front :
        (width : ℕ) (rights xs ys ls : List (Row P))
        → All (HasFront c on width rights ys) ls
        → All (HasFront c on width rights (xs ++ ys)) ls
    All-front width rights xs ys [] a = tt
    All-front width rights xs ys (l ∷ ls) a =
        (HasFront-append width rights xs ys l a.0, All-front width rights xs ys ls a.1)

    wider :
        (l r : Row P) (rights ms : List (Row P))
        → AreMatches c on rights l ms
        → AreMatches c on (r ∷ rights) l ms
    wider l r rights [] a = tt
    wider l r rights (m ∷ ms) ((x, e, (k, t)), a) =
        ((x, e, (mem-cons_of_mem r k, t)), wider l r rights ms a)

    filter_rows_matches :
        (l : Row P) (rights ms : List (Row P))
        → filter_rows c (an_expr on) (map (λ r. l ++ r) rights) ≡ ok ms
        → AreMatches c on rights l ms
    unfolding filter_rows
    filter_rows_matches l [] ms h = subst (AreMatches c on [] l) (ok-injective h) tt
    filter_rows_matches l (r ∷ rights) ms h =
        let (b, e1, h1) = bind-eq-ok (test_row c (an_expr on) (l ++ r)) _ h in
        let (rest, e2, h2) =
          bind-eq-ok (filter_rows c (an_expr on) (map (λ r. l ++ r) rights)) _ h1 in
        subst (AreMatches c on (r ∷ rights) l) (ok-injective h2)
          (chosen b rest e1 (wider l r rights rest (filter_rows_matches l rights rest e2)))
      where
        chosen :
            (b : Bool) (rest : List (Row P))
            → test_row c (an_expr on) (l ++ r) ≡ ok b
            → AreMatches c on (r ∷ rights) l rest
            → AreMatches c on (r ∷ rights) l (if b then (l ++ r) ∷ rest else rest)
        chosen true rest e a = ((r, refl, (mem-cons_self, e)), a)
        chosen false rest e a = a

    -- Where no joined row is kept, no right row matches.
    filter_rows_none :
        (l : Row P) (rights : List (Row P))
        → filter_rows c (an_expr on) (map (λ r. l ++ r) rights) ≡ ok []
        → All (λ r. test_row c (an_expr on) (l ++ r) ≡ ok false) rights
    unfolding filter_rows
    filter_rows_none l [] h = tt
    filter_rows_none l (r ∷ rights) h =
        let (b, e1, h1) = bind-eq-ok (test_row c (an_expr on) (l ++ r)) _ h in
        let (rest, e2, h2) =
          bind-eq-ok (filter_rows c (an_expr on) (map (λ r. l ++ r) rights)) _ h1 in
        dropped b rest e1 (ok-injective h2) (λ k. filter_rows_none l rights (e2 ∙ ap ok k))
      where
        dropped :
            (b : Bool) (rest : List (Row P))
            → test_row c (an_expr on) (l ++ r) ≡ ok b
            → (if b then (l ++ r) ∷ rest else rest) ≡ []
            → (rest ≡ [] → All (λ r. test_row c (an_expr on) (l ++ r) ≡ ok false) rights)
            → All (λ r. test_row c (an_expr on) (l ++ r) ≡ ok false) (r ∷ rights)
        dropped true rest e k all = cc
        dropped false rest e k all = (e, all k)

    nulls_padding :
        (width : ℕ)
        → (length (nulls {P = P} width) ≡ width) × All (λ v. v ≡ null) (nulls {P = P} width)
    nulls_padding zero = (refl, tt)
    nulls_padding (suc n) = let (k, a) = nulls_padding n in (ap suc k, (refl, a))

    or_padded-front :
        (width : ℕ) (l : Row P) (rights ms rest : List (Row P))
        → filter_rows c (an_expr on) (map (λ r. l ++ r) rights) ≡ ok ms
        → AreMatches c on rights l ms
        → HasFront c on width rights (or_padded true width l ms ++ rest) l
    or_padded-front width l rights [] rest h a =
        let (k, n) = nulls_padding width in
        ([], nulls width, rest, refl, inr (k, n, filter_rows_none l rights h))
    or_padded-front width l rights (m ∷ ms) rest h ((r, e, k), a) =
        ([], r, ms ++ rest, ap (λ z. z ∷ (ms ++ rest)) e, inl k)

  -- A left join keeps every left row. It is the front of a row of the result, and the cells behind
  -- it are a right row with which the ON condition is true; or no right row is such, and behind it
  -- are as many NULLs as the right table is wide.
  pub join_rows-HasFront :
      (c : Context P) (on : Expr P) (width : ℕ) (lefts rights out : List (Row P))
      → join_rows c on true width lefts rights ≡ ok out
      → All (HasFront c on width rights out) lefts
  unfolding join_rows
  join_rows-HasFront c on width [] rights out h = tt
  join_rows-HasFront c on width (l ∷ ls) rights out h =
      let (ms, e1, h1) = bind-eq-ok (filter_rows c (an_expr on) (map (λ r. l ++ r) rights)) _ h in
      let (rest, e2, h2) = bind-eq-ok (join_rows c on true width ls rights) _ h1 in
      let matches = filter_rows_matches c on l rights ms e1 in
      subst (λ out. All (HasFront c on width rights out) (l ∷ ls)) (ok-injective h2)
        (
          or_padded-front c on width l rights ms rest e1 matches,
          All-front c on width rights (or_padded true width l ms) rest ls
              (join_rows-HasFront c on width ls rights rest e2),
        )
