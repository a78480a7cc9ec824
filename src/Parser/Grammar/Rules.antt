-- ===== src/Parser/Grammar/Rules.antt =====
-- What the expression parser reads at an operator.
use tsql.Base.{ℕ, zero, suc, ◌≡◌, refl, ap, ◌∙◌, arith, String, true, false}
use tsql.Base.{[], ◌∷◌, ◌++◌, length-append, ok}
use mathlib.Core.List.{append_assoc}
use tsql.Base.Int.{pos}
use tsql.Platform.{Platform}
use tsql.Types.{int}
use tsql.Executor.Expr.{Expr, lit, func, cmp, and, or, binary, not_expr, is_null_test}
use tsql.Executor.Expr.{an_expr}
use tsql.Parser.Tokens.{Lexeme, Tokens, Parser, next, is_token}
use tsql.Parser.Expressions.{
  Knot, is_comparison, is_additive, is_multiplicative, parse_or, parse_and, parse_not, parse_cmp,
  parse_add, parse_mul, parse_unary, call, or_rest, and_rest, not_level, binary_rest, unary_level,
}
use tsql.Parser.Grammar.{Level, word, mark}
use tsql.Parser.Grammar.Follow.{
  FirstOr, Headed, headed, or-FreeAnd, and-FreeCmp, is-FreeAdd, multiplicative-FreePrimary,
  additive-FreeMul, comparison-FreeAdd,
}
use tsql.Parser.Grammar.Steps.{
  next-append, or_rest-or, and_rest-and, cmp_rest-comparison, cmp_rest-is_null,
  cmp_rest-is_not_null, binary_rest-operator, closes,
}
use tsql.Parser.Grammar.Levels.{Loops, Reads, and_over, add_over, mul_over}

module _ {P : Platform} where
  -- At an operator the loop goes on with the right side.
  loop_on :
      (p : Parser (Expr P)) (rest more : ℕ → Parser (Expr P)) (ts us vs : Tokens) (o u : Lexeme)
      → Loops p rest ts o (us ++ u ∷ vs)
      → ((n : ℕ) → rest (suc n) (o ∷ (us ++ u ∷ vs)) ≡ more n (u ∷ vs))
      → Loops p more (ts ++ o ∷ us) u vs
  loop_on p rest more ts us vs o u (zero, b, q) step = absurd (omega (arith, b))
  loop_on p rest more ts us vs o u (suc n, b, q) step = (
    n,
    omega (arith, b, length-append us (u ∷ vs)),
    ap p (append_assoc ts (o ∷ us) (u ∷ vs)) ∙ q ∙ step (suc n),
  )

  module _ (k : Knot P) (l r : Expr P) (ts us : Tokens) where
    pub or_on :
        Reads Level.or_level k l ts
        → Reads Level.and_level k r us
        → Reads Level.or_level k (or l r) (ts ++ word "or" ∷ us)
    or_on left right u vs h =
        loop_on (parse_or k) (λ n. or_rest n k l) (λ n. or_rest n k (or l r)) ts us vs (word "or") u
          (left (word "or") (us ++ u ∷ vs) or-FreeAnd)
          (λ n. or_rest-or k n l r us vs u (and_over k r us right u vs h))

    pub and_on :
        Reads Level.and_level k l ts
        → Reads Level.not_level k r us
        → Reads Level.and_level k (and l r) (ts ++ word "and" ∷ us)
    and_on left right u vs h =
        loop_on (parse_and k) (λ n. and_rest n k l) (λ n. and_rest n k (and l r)) ts us vs
          (word "and") u (left (word "and") (us ++ u ∷ vs) and-FreeCmp)
          (λ n. and_rest-and k n l r us vs u (right u vs h))

    pub cmp_on :
        (o : String)
        → is_comparison (mark o) ≡ true
        → Reads Level.add_level k l ts
        → Reads Level.add_level k r us
        → Reads Level.cmp_level k (cmp o l r) (ts ++ mark o ∷ us)
    unfolding parse_cmp
    cmp_on o c left right u vs h =
        rw
          (
            append_assoc ts (mark o ∷ us) (u ∷ vs),
            add_over k l ts left (mark o) (us ++ u ∷ vs) (comparison-FreeAdd o c),
          )
          (cmp_rest-comparison k o l r us vs u c (add_over k r us right u vs h.0))

    pub add_on :
        (o : String)
        → is_additive (mark o) ≡ true
        → Reads Level.add_level k l ts
        → Reads Level.mul_level k r us
        → Reads Level.add_level k (binary o l r) (ts ++ mark o ∷ us)
    add_on o c left right u vs h =
        loop_on (parse_add k) (λ n. binary_rest n is_additive (parse_mul k) l)
          (λ n. binary_rest n is_additive (parse_mul k) (binary o l r)) ts us vs (mark o) u
          (left (mark o) (us ++ u ∷ vs) (additive-FreeMul o c))
          (λ n.
            binary_rest-operator is_additive (parse_mul k) n o l r us vs u c
              (mul_over k r us right u vs h))

    pub mul_on :
        (o : String)
        → is_multiplicative (mark o) ≡ true
        → Reads Level.mul_level k l ts
        → Reads Level.unary_level k r us
        → Reads Level.mul_level k (binary o l r) (ts ++ mark o ∷ us)
    mul_on o c left right u vs h =
        loop_on (parse_mul k) (λ n. binary_rest n is_multiplicative (parse_unary k) l)
          (λ n. binary_rest n is_multiplicative (parse_unary k) (binary o l r)) ts us vs (mark o) u
          (left (mark o) (us ++ u ∷ vs) (multiplicative-FreePrimary o c))
          (λ n.
            binary_rest-operator is_multiplicative (parse_unary k) n o l r us vs u c (right u vs h))

  module _ (k : Knot P) (e : Expr P) (ts : Tokens) where
    pub is_null_on :
        Reads Level.add_level k e ts
        → Reads Level.cmp_level k (is_null_test e false) (ts ++ word "is" ∷ word "null" ∷ [])
    unfolding parse_cmp
    is_null_on left u vs h =
        rw
          (
            append_assoc ts (word "is" ∷ word "null" ∷ []) (u ∷ vs),
            add_over k e ts left (word "is") (word "null" ∷ u ∷ vs) is-FreeAdd,
          )
          (cmp_rest-is_null k e u vs)

    pub is_not_null_on :
        Reads Level.add_level k e ts
        → Reads Level.cmp_level k
            (is_null_test e true)
            (ts ++ word "is" ∷ word "not" ∷ word "null" ∷ [])
    unfolding parse_cmp
    is_not_null_on left u vs h =
        rw
          (
            append_assoc ts (word "is" ∷ word "not" ∷ word "null" ∷ []) (u ∷ vs),
            add_over k e ts left (word "is") (word "not" ∷ word "null" ∷ u ∷ vs) is-FreeAdd,
          )
          (cmp_rest-is_not_null k e u vs)

    pub not_on :
        Reads Level.not_level k e ts → Reads Level.not_level k (not_expr e) (word "not" ∷ ts)
    unfolding parse_not not_level is_token
    not_on reads u us h = rw (next-append (word "not") u ts us, reads u us h) refl

    pub minus_on :
        Reads Level.unary_level k e ts
        → Reads Level.unary_level k (binary "-" (lit (int (pos 0))) e) (mark "-" ∷ ts)
    unfolding parse_unary unary_level is_token
    minus_on reads u us h = rw (next-append (mark "-") u ts us, reads u us h) refl

  pub call_with_read :
      (k : Knot P) (s : String) (e : Expr P) (ts us : Tokens) (u : Lexeme)
      → Headed FirstOr ts
      → k.expr (ts ++ mark ")" ∷ u ∷ us) ≡ ok (e, mark ")" ∷ u ∷ us)
      → call k s (ts ++ mark ")" ∷ u ∷ us) ≡ ok (func s false (an_expr e), u ∷ us)
  unfolding call next
  call_with_read k s e [] us u first h = elim first [ ]
  call_with_read k s e (t ∷ ts) us u (headed (a, b, c)) h = rw (b, c, h, closes) refl
