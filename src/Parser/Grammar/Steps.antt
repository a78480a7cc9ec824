-- ===== src/Parser/Grammar/Steps.antt =====
-- The steps of the expression parser at an operator, and behind the last one.
use tsql.Base.{ℕ, suc, ◌≡◌, refl, String, Bool, true, false}
use tsql.Base.{[], ◌∷◌, ◌++◌, ok}
use tsql.Platform.{Platform}
use tsql.Executor.Expr.{Expr, cmp, and, or, binary, is_null_test}
use tsql.Parser.Lexer.{tok_ident, tok_punct}
use tsql.Parser.Tokens.{Lexeme, Tokens, Parser, next, is_token}
use tsql.Parser.Expressions.{
  Knot, is_comparison, parse_add, parse_and, parse_not, binary_rest, cmp_rest, and_rest, or_rest,
  is_rest,
}
use tsql.Parser.Grammar.{word, mark}
use tsql.Parser.Grammar.Follow.{FreeCmp}

-- Behind a token that tokens follow.
pub next-append : (t u : Lexeme) (ts us : Tokens) → next (t ∷ (ts ++ u ∷ us)) ≡ ts ++ u ∷ us
unfolding next
next-append t u [] us = refl
next-append t u (v ∷ vs) us = refl

pub closes : is_token tok_punct ")" (mark ")") ≡ true
unfolding is_token
closes = refl

pub opens : (is_token tok_punct "." (mark "(") ≡ false) × (is_token tok_punct "(" (mark "(") ≡ true)
unfolding is_token
opens = (refl, refl)

module _ {P : Platform} (k : Knot P) where
  pub or_rest-or :
      (n : ℕ) (l r : Expr P) (ts us : Tokens) (u : Lexeme)
      → parse_and k (ts ++ u ∷ us) ≡ ok (r, u ∷ us)
      → or_rest (suc n) k l (word "or" ∷ (ts ++ u ∷ us)) ≡ or_rest n k (or l r) (u ∷ us)
  unfolding or_rest is_token
  or_rest-or n l r ts us u h = rw (next-append (word "or") u ts us, h) refl

  pub or_rest_over :
      (n : ℕ) (l : Expr P) (u : Lexeme) (us : Tokens)
      → is_token tok_ident "or" u ≡ false
      → or_rest (suc n) k l (u ∷ us) ≡ ok (l, u ∷ us)
  unfolding or_rest
  or_rest_over n l u us h = rw h refl

  pub and_rest-and :
      (n : ℕ) (l r : Expr P) (ts us : Tokens) (u : Lexeme)
      → parse_not k (ts ++ u ∷ us) ≡ ok (r, u ∷ us)
      → and_rest (suc n) k l (word "and" ∷ (ts ++ u ∷ us)) ≡ and_rest n k (and l r) (u ∷ us)
  unfolding and_rest is_token
  and_rest-and n l r ts us u h = rw (next-append (word "and") u ts us, h) refl

  pub and_rest_over :
      (n : ℕ) (l : Expr P) (u : Lexeme) (us : Tokens)
      → is_token tok_ident "and" u ≡ false
      → and_rest (suc n) k l (u ∷ us) ≡ ok (l, u ∷ us)
  unfolding and_rest
  and_rest_over n l u us h = rw h refl

  pub cmp_rest_over :
      (l : Expr P) (u : Lexeme) (us : Tokens) → FreeCmp u → cmp_rest k l (u ∷ us) ≡ ok (l, u ∷ us)
  unfolding cmp_rest
  cmp_rest_over l u us (h, c, i, n, j) = rw (c, i, n, j) refl

  pub cmp_rest-comparison :
      (o : String) (l r : Expr P) (ts us : Tokens) (u : Lexeme)
      → is_comparison (mark o) ≡ true
      → parse_add k (ts ++ u ∷ us) ≡ ok (r, u ∷ us)
      → cmp_rest k l (mark o ∷ (ts ++ u ∷ us)) ≡ ok (cmp o l r, u ∷ us)
  unfolding cmp_rest
  cmp_rest-comparison o l r ts us u c h = rw (c, next-append (mark o) u ts us, h) refl

  pub cmp_rest-is_null :
      (l : Expr P) (u : Lexeme) (us : Tokens)
      → cmp_rest k l (word "is" ∷ word "null" ∷ u ∷ us) ≡ ok (is_null_test l false, u ∷ us)
  unfolding cmp_rest is_comparison is_rest is_token next
  cmp_rest-is_null l u us = refl

  pub cmp_rest-is_not_null :
      (l : Expr P) (u : Lexeme) (us : Tokens)
      → cmp_rest k l (word "is" ∷ word "not" ∷ word "null" ∷ u ∷ us)
        ≡ ok (is_null_test l true, u ∷ us)
  unfolding cmp_rest is_comparison is_rest is_token next
  cmp_rest-is_not_null l u us = refl

module _ {P : Platform} (is_op : Lexeme → Bool) (operand : Parser (Expr P)) where
  pub binary_rest-operator :
      (n : ℕ) (o : String) (l r : Expr P) (ts us : Tokens) (u : Lexeme)
      → is_op (mark o) ≡ true
      → operand (ts ++ u ∷ us) ≡ ok (r, u ∷ us)
      → binary_rest (suc n) is_op operand l (mark o ∷ (ts ++ u ∷ us))
        ≡ binary_rest n is_op operand (binary o l r) (u ∷ us)
  unfolding binary_rest
  binary_rest-operator n o l r ts us u c h = rw (c, next-append (mark o) u ts us, h) refl

  pub binary_rest_over :
      (n : ℕ) (l : Expr P) (u : Lexeme) (us : Tokens)
      → is_op u ≡ false
      → binary_rest (suc n) is_op operand l (u ∷ us) ≡ ok (l, u ∷ us)
  unfolding binary_rest
  binary_rest_over n l u us h = rw h refl
