-- ===== src/Parser/Grammar/Levels.antt =====
-- The levels of the expression parser: what each takes from the one above it.
use tsql.Base.{ℕ, suc, ◌≤◌, ◌≡◌, refl, ◌∙◌, arith}
use tsql.Base.{[], ◌∷◌, ◌++◌, length, ok}
use tsql.Platform.{Platform}
use tsql.Executor.Expr.{Expr}
use tsql.Parser.Tokens.{Lexeme, Tokens, Parser}
use tsql.Parser.Expressions.{
  Knot, is_additive, is_multiplicative, parse_or, parse_and, parse_not, parse_cmp, parse_add,
  parse_mul, parse_unary, parse_primary, or_rest, and_rest, not_level, binary_rest, unary_level,
}
use tsql.Parser.Grammar.{Level}
use tsql.Parser.Grammar.Follow.{
  FreePrimary, FreeMul, FreeAdd, FreeCmp, FreeAnd, FreeOr, FirstCmp, FirstPrimary, Headed, headed,
}
use tsql.Parser.Grammar.Steps.{or_rest_over, and_rest_over, cmp_rest_over, binary_rest_over}

module _ {P : Platform} where
  -- The parser reads the tokens and is then in its loop, with a round for each token that is left.
  abbrev pub Loops : Parser (Expr P) → (ℕ → Parser (Expr P)) → Tokens → Lexeme → Tokens → Type 0
  Loops p rest ts u us =
      (n : ℕ) × (length (u ∷ us) ≤ n) × (p (ts ++ u ∷ us) ≡ rest (suc n) (u ∷ us))

  -- The parser of a level reads the expression from the tokens, whatever follows, where that does not
  -- continue it.
  abbrev pub Reads : Level → Knot P → Expr P → Tokens → Type 0
  Reads Level.or_level k e ts =
      (u : Lexeme) (us : Tokens) → FreeAnd u → Loops (parse_or k) (λ n. or_rest n k e) ts u us
  Reads Level.and_level k e ts =
      (u : Lexeme) (us : Tokens) → FreeCmp u → Loops (parse_and k) (λ n. and_rest n k e) ts u us
  Reads Level.not_level k e ts =
      (u : Lexeme) (us : Tokens) → FreeCmp u → parse_not k (ts ++ u ∷ us) ≡ ok (e, u ∷ us)
  Reads Level.cmp_level k e ts =
      (u : Lexeme) (us : Tokens) → FreeCmp u → parse_cmp k (ts ++ u ∷ us) ≡ ok (e, u ∷ us)
  Reads Level.add_level k e ts =
      (u : Lexeme) (us : Tokens)
      → FreeMul u
      → Loops (parse_add k) (λ n. binary_rest n is_additive (parse_mul k) e) ts u us
  Reads Level.mul_level k e ts =
      (u : Lexeme) (us : Tokens)
      → FreePrimary u
      → Loops (parse_mul k) (λ n. binary_rest n is_multiplicative (parse_unary k) e) ts u us
  Reads Level.unary_level k e ts =
      (u : Lexeme) (us : Tokens) → FreePrimary u → parse_unary k (ts ++ u ∷ us) ≡ ok (e, u ∷ us)
  Reads Level.primary_level k e ts =
      (u : Lexeme) (us : Tokens) → FreePrimary u → parse_primary k (ts ++ u ∷ us) ≡ ok (e, u ∷ us)

  -- Where the loop does not go on, it is over.
  module _ (k : Knot P) (e : Expr P) (ts : Tokens) where
    pub or_over :
        Reads Level.or_level k e ts
        → (u : Lexeme) (us : Tokens) → FreeOr u
        → parse_or k (ts ++ u ∷ us) ≡ ok (e, u ∷ us)
    or_over reads u us h = let (n, b, q) = reads u us h.0 in q ∙ or_rest_over k n e u us h.1

    pub and_over :
        Reads Level.and_level k e ts
        → (u : Lexeme) (us : Tokens) → FreeAnd u
        → parse_and k (ts ++ u ∷ us) ≡ ok (e, u ∷ us)
    and_over reads u us h = let (n, b, q) = reads u us h.0 in q ∙ and_rest_over k n e u us h.1

    pub add_over :
        Reads Level.add_level k e ts
        → (u : Lexeme) (us : Tokens) → FreeAdd u
        → parse_add k (ts ++ u ∷ us) ≡ ok (e, u ∷ us)
    add_over reads u us h =
        let (n, b, q) = reads u us h.0 in
        q ∙ binary_rest_over is_additive (parse_mul k) n e u us h.1

    pub mul_over :
        Reads Level.mul_level k e ts
        → (u : Lexeme) (us : Tokens) → FreeMul u
        → parse_mul k (ts ++ u ∷ us) ≡ ok (e, u ∷ us)
    mul_over reads u us h =
        let (n, b, q) = reads u us h.0 in
        q ∙ binary_rest_over is_multiplicative (parse_unary k) n e u us h.1

  -- A level takes what the level above it reads.
  module _ (k : Knot P) (e : Expr P) (ts : Tokens) where
    pub or_up : Reads Level.and_level k e ts → Reads Level.or_level k e ts
    unfolding parse_or
    or_up reads u us h = (length (u ∷ us), omega arith, rw (and_over k e ts reads u us h) refl)

    pub and_up : Reads Level.not_level k e ts → Reads Level.and_level k e ts
    unfolding parse_and
    and_up reads u us h = (length (u ∷ us), omega arith, rw (reads u us h) refl)

    pub cmp_up : Reads Level.add_level k e ts → Reads Level.cmp_level k e ts
    unfolding parse_cmp
    cmp_up reads u us h = rw (add_over k e ts reads u us h.0) (cmp_rest_over k e u us h)

    pub add_up : Reads Level.mul_level k e ts → Reads Level.add_level k e ts
    unfolding parse_add
    add_up reads u us h = (length (u ∷ us), omega arith, rw (mul_over k e ts reads u us h) refl)

    pub mul_up : Reads Level.unary_level k e ts → Reads Level.mul_level k e ts
    unfolding parse_mul
    mul_up reads u us h = (length (u ∷ us), omega arith, rw (reads u us h) refl)

  pub not_up :
      (k : Knot P) (e : Expr P) (ts : Tokens)
      → Headed FirstCmp ts
      → Reads Level.cmp_level k e ts
      → Reads Level.not_level k e ts
  unfolding parse_not not_level
  not_up k e [] first reads u us h = elim first [ ]
  not_up k e (t ∷ ts) (headed first) reads u us h = rw first.1 (reads u us h)

  pub unary_up :
      (k : Knot P) (e : Expr P) (ts : Tokens)
      → Headed FirstPrimary ts
      → Reads Level.primary_level k e ts
      → Reads Level.unary_level k e ts
  unfolding parse_unary unary_level
  unary_up k e [] first reads u us h = elim first [ ]
  unary_up k e (t ∷ ts) (headed first) reads u us h = rw first.1 (reads u us h)
