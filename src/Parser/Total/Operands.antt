-- ===== src/Parser/Total/Operands.antt =====
-- That the parsers of operands and the loop over them come to an end.
use tsql.Base.{ℕ, zero, suc, ◌≤◌, ◌<◌, ◌≡◌, refl, arith, String, Bool, true, false}
use tsql.Base.{Option, none, some, length}
use tsql.Platform.{Platform}
use tsql.Types.{int, float}
use tsql.Executor.Expr.{Expr, lit, is_null_test}
use tsql.Executor.Expr.{binary}
use tsql.Parser.Lexer.{tok_ident, tok_punct}
use tsql.Parser.Tokens.{Lexeme, Tokens, Parser, peek}
use tsql.Parser.Tokens.{is_kind, ◌>>=◌, at_kw, with_fuel}
use tsql.Parser.Numbers.{contains_dot, parse_int}
use tsql.Parser.Expressions.{
  Knot, or_refuse, number, binary_rest, is_rest, is_multiplicative, is_additive, is_comparison,
}
use tsql.Parser.Total.Steps.{IsClosed, Ends, ended, Ends-if, Ends_weaker}
use tsql.Parser.Total.Takes.{
  Keeps-if, Takes, Keeps, Takes-antitone, Takes→Keeps, Keeps-pure, Takes-refuse, Takes-bind,
  Keeps-bind, Keeps-on_token, Keeps-vacuous, Keeps-with_fuel, Takes-expect_kw, next-Ends,
}

-- The two parsers of the knot end on inputs of at most `n` tokens, that of queries where SELECT stands.
pub record IsBound {P : Platform} (n : ℕ) (k : Knot P) : Type 0 where
  pub expr : Takes n k.expr
  pub sel :
      (ts : Tokens)
      → IsClosed ts
      → length ts ≤ n
      → at_kw "select" ts ≡ true
      → Ends (length ts) (k.sel ts)

module _ {P : Platform} where
  Keeps-or_refuse : {A : Type 0} {n : ℕ} (o : Option A) (f : A → Expr P) → Keeps n (or_refuse o f)
  Keeps-or_refuse none f = Takes→Keeps Takes-refuse
  Keeps-or_refuse (some a) f = Keeps-pure (f a)

  pub number-Keeps : (n : ℕ) (s : String) → Keeps n (number {P = P} s)
  unfolding number
  number-Keeps n s =
      Keeps-if (contains_dot s) (Keeps-or_refuse (P.parse_float s) (λ f. lit (float f)))
        (Keeps-or_refuse (parse_int s) (λ i. lit (int i)))

  binary_rest-Keeps :
      (fuel m : ℕ) (is_op : Lexeme → Bool) (operand : Parser (Expr P)) (l : Expr P)
      → ((t : Lexeme) → is_op t ≡ true → is_kind tok_punct t.kind ≡ true)
      → m < fuel
      → Takes m operand
      → Keeps m (binary_rest fuel is_op operand l)
  unfolding binary_rest
  binary_rest-Keeps zero m is_op operand l op h t = absurd (omega (arith, h))
  binary_rest-Keeps (suc fuel) zero is_op operand l op h t = Keeps-vacuous
  binary_rest-Keeps (suc fuel) (suc m) is_op operand l op h t = record {
    run = λ ts c b.
        Ends-if (is_op (peek ts))
          (λ e. Ends_weaker (omega arith) (
            next-Ends tok_punct
              (operand >>= λ r. binary_rest fuel is_op operand (binary (peek ts).text l r)) ts refl
              (op (peek ts) e) c b
              (Takes→Keeps (
                Takes-bind (Takes-antitone (omega arith) t) λ r.
                  binary_rest-Keeps fuel m is_op operand (binary (peek ts).text l r) op
                    (omega (arith, h)) (Takes-antitone (omega arith) t)))))
          (λ e. ended c (omega arith));
  }

  -- An operand and the loop behind it.
  pub binary_level-Takes :
      {n : ℕ} (is_op : Lexeme → Bool) (operand : Parser (Expr P))
      → ((t : Lexeme) → is_op t ≡ true → is_kind tok_punct t.kind ≡ true)
      → Takes n operand
      → Takes n (operand >>= λ l. with_fuel (λ fuel. binary_rest fuel is_op operand l))
  binary_level-Takes is_op operand op t = Takes-bind t λ l.
      Keeps-with_fuel (λ fuel. binary_rest fuel is_op operand l)
        λ m b. binary_rest-Keeps (suc m) m is_op operand l op (omega arith) (Takes-antitone b t)

  pub is_rest-Keeps : {n : ℕ} (l : Expr P) → Keeps n (is_rest l)
  unfolding is_rest
  is_rest-Keeps {n} l =
      Keeps-bind
        (Keeps-on_token n tok_ident "not" refl (omega arith) (Keeps-pure true) (Keeps-pure false))
        λ negated.
          Takes→Keeps (Takes-bind (Takes-expect_kw "null") λ u. Keeps-pure (is_null_test l negated))

-- The operators are punctuation.
pub comparison-punct : (t : Lexeme) → is_comparison t ≡ true → is_kind tok_punct t.kind ≡ true
unfolding is_comparison
comparison-punct t h = ground arith

pub additive-punct : (t : Lexeme) → is_additive t ≡ true → is_kind tok_punct t.kind ≡ true
unfolding is_additive
additive-punct t h = ground arith

pub multiplicative-punct :
    (t : Lexeme) → is_multiplicative t ≡ true → is_kind tok_punct t.kind ≡ true
unfolding is_multiplicative
multiplicative-punct t h = ground arith
