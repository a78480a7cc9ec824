-- ===== src/Parser/Total/Expressions.antt =====
-- That the expression parser comes to an end.
use tsql.Base.{ℕ, zero, suc, ◌≤◌, ◌<◌, ◌≡◌, refl, arith, String, Bool, true, false}
use tsql.Base.{length}
use tsql.Base.Int.{pos}
use tsql.Platform.{Platform}
use tsql.Types.{int}
use tsql.Executor.Expr.{Expr, lit, in_sub, in_list, cmp, and, or}
use tsql.Executor.Expr.{not_expr, binary}
use tsql.Parser.Lexer.{tok_ident, tok_punct}
use tsql.Parser.Tokens.{Tokens, Parser, peek, next}
use tsql.Parser.Tokens.{is_kind, pure, ◌>>◌, ◌>>=◌, at_kw, expect_punct}
use tsql.Parser.Expressions.{
  Knot, unary_level, parse_unary, parse_mul, parse_add, is_rest, in_rest, not_in, cmp_rest,
  parse_cmp, not_level, parse_not, and_rest, parse_and, or_rest, parse_or, is_multiplicative,
  is_additive, is_comparison, exprs_of,
}
use tsql.Parser.Total.Steps.{
  IsClosed, Ends, ended, Ends-if, Ends_weaker, Ends-then_parse, next-IsClosed, next_shorter,
  token-kind,
}
use tsql.Parser.Total.Takes.{
  Takes, Keeps, Takes-antitone, Takes→Keeps, Keeps-pure, Takes-bind, Takes-on_token, Keeps-on_token,
  Takes-vacuous, Keeps-vacuous, Takes-with_fuel, Keeps-with_fuel, Takes-commas, Takes-expect_punct,
  next-Ends,
}
use tsql.Parser.Total.Operands.{
  IsBound, binary_level-Takes, is_rest-Keeps, comparison-punct, additive-punct,
  multiplicative-punct,
}
use tsql.Parser.Total.Primary.{parse_primary-Takes}

-- The parsers in one round of the knot, behind those of primary expressions.
module _ {P : Platform} {n : ℕ} (k : Knot P) (h : IsBound n k) where
  unary_level-Takes : (fuel m : ℕ) → m < fuel → m ≤ suc n → Takes m (unary_level fuel k)
  unfolding unary_level
  unary_level-Takes zero m f b = absurd (omega (arith, f))
  unary_level-Takes (suc fuel) zero f b = Takes-vacuous
  unary_level-Takes (suc fuel) (suc m) f b =
      Takes-on_token m tok_punct "-" refl (omega arith)
        (Takes→Keeps (
          Takes-bind (unary_level-Takes fuel m (omega (arith, f)) (omega (arith, b)))
            λ x. Keeps-pure (binary "-" (lit (int (pos 0))) x)))
        (Takes-antitone b (parse_primary-Takes k h))

  parse_unary-Takes : Takes (suc n) (parse_unary k)
  unfolding parse_unary
  parse_unary-Takes =
      Takes-with_fuel (λ fuel. unary_level fuel k)
        λ m b. unary_level-Takes (suc m) m (omega arith) b

  parse_add-Takes : Takes (suc n) (parse_add k)
  unfolding parse_add parse_mul
  parse_add-Takes =
      binary_level-Takes is_additive (parse_mul k) additive-punct (
        binary_level-Takes is_multiplicative (parse_unary k) multiplicative-punct parse_unary-Takes)

  in_rest-Keeps : (l : Expr P) (negated : Bool) → Keeps n (in_rest k l negated)
  unfolding in_rest
  in_rest-Keeps l negated = Takes→Keeps (
      Takes-bind (Takes-expect_punct "(") λ u. record {
        run = λ ts c b.
            Ends-if (at_kw "select" ts)
              (λ e. Ends-then_parse (h.sel ts c b e) λ sub rest d m.
                Ends_weaker (omega (arith, m))
                  ((closing (in_sub l sub negated)).run rest d (omega (arith, b, m))))
              (λ e.
                (Takes→Keeps (
                    Takes-bind (Takes-commas h.expr)
                      λ es. closing (in_list l (exprs_of es) negated))).run
                  ts c b);
      })
    where
      closing : (e : Expr P) → Keeps n (expect_punct ")" >> pure e)
      closing e = Takes→Keeps (Takes-bind (Takes-expect_punct ")") λ u. Keeps-pure e)

  not_in-Ends :
      (l : Expr P) (ts : Tokens)
      → at_kw "not" ts ≡ true
      → IsClosed ts
      → length ts ≤ suc n
      → Ends (suc (length ts)) (not_in k l ts)
  not_in-Ends l ts e c b =
      let shorter = next_shorter tok_ident ts refl (token-kind tok_ident "not" (peek ts) e) c in
      Ends-if (at_kw "in" (next ts))
        (λ f. Ends_weaker (omega (arith, shorter)) (
          next-Ends tok_ident (in_rest k l true) (next ts) refl
            (token-kind tok_ident "in" (peek (next ts)) f) (next-IsClosed ts c)
            (omega (arith, shorter, b)) (in_rest-Keeps l true)))
        (λ f. ended c (omega arith))

  cmp_rest-Keeps : (l : Expr P) → Keeps (suc n) (cmp_rest k l)
  unfolding cmp_rest
  cmp_rest-Keeps l = record {
    run = λ ts c b.
        Ends-if (is_comparison (peek ts))
          (λ e. Ends_weaker (omega arith) (
            next-Ends tok_punct (right (peek ts).text) ts refl (comparison-punct (peek ts) e) c b
              (right-Keeps (peek ts).text)))
          (λ e.
            Ends-if (at_kw "is" ts)
              (λ f.
                Ends_weaker (omega arith)
                  (next-Ends tok_ident (is_rest l) ts refl (kw "is" ts f) c b (is_rest-Keeps l)))
              (λ f.
                Ends-if (at_kw "not" ts) (λ g. not_in-Ends l ts g c b)
                  (λ g.
                    Ends-if (at_kw "in" ts)
                      (λ i. Ends_weaker (omega arith) (
                        next-Ends tok_ident (in_rest k l false) ts refl (kw "in" ts i) c b
                          (in_rest-Keeps l false)))
                      (λ i. ended c (omega arith)))));
  }
    where
      right : String → Parser (Expr P)
      right o = parse_add k >>= λ r. pure (cmp o l r)

      right-Keeps : (o : String) → Keeps n (right o)
      right-Keeps o =
          Takes→Keeps
            (Takes-bind (Takes-antitone (omega arith) parse_add-Takes) λ r. Keeps-pure (cmp o l r))

      kw : (s : String) (ts : Tokens) → at_kw s ts ≡ true → is_kind tok_ident (peek ts).kind ≡ true
      kw s ts e = token-kind tok_ident s (peek ts) e

  not_level-Takes : (fuel m : ℕ) → m < fuel → m ≤ suc n → Takes m (not_level fuel k)
  unfolding not_level parse_cmp
  not_level-Takes zero m f b = absurd (omega (arith, f))
  not_level-Takes (suc fuel) zero f b = Takes-vacuous
  not_level-Takes (suc fuel) (suc m) f b =
      Takes-on_token m tok_ident "not" refl (omega arith)
        (Takes→Keeps (
          Takes-bind (not_level-Takes fuel m (omega (arith, f)) (omega (arith, b)))
            λ x. Keeps-pure (not_expr x)))
        (Takes-antitone b (Takes-bind parse_add-Takes cmp_rest-Keeps))

  parse_not-Takes : Takes (suc n) (parse_not k)
  unfolding parse_not
  parse_not-Takes =
      Takes-with_fuel (λ fuel. not_level fuel k) λ m b. not_level-Takes (suc m) m (omega arith) b

  and_rest-Keeps : (fuel m : ℕ) (l : Expr P) → m < fuel → m ≤ suc n → Keeps m (and_rest fuel k l)
  unfolding and_rest
  and_rest-Keeps zero m l f b = absurd (omega (arith, f))
  and_rest-Keeps (suc fuel) zero l f b = Keeps-vacuous
  and_rest-Keeps (suc fuel) (suc m) l f b =
      Keeps-on_token m tok_ident "and" refl (omega arith)
        (Takes→Keeps (
          Takes-bind (Takes-antitone (omega (arith, b)) parse_not-Takes)
            λ r. and_rest-Keeps fuel m (and l r) (omega (arith, f)) (omega (arith, b))))
        (Keeps-pure l)

  parse_and-Takes : Takes (suc n) (parse_and k)
  unfolding parse_and
  parse_and-Takes = Takes-bind parse_not-Takes λ l.
      Keeps-with_fuel (λ fuel. and_rest fuel k l) λ m b. and_rest-Keeps (suc m) m l (omega arith) b

  or_rest-Keeps : (fuel m : ℕ) (l : Expr P) → m < fuel → m ≤ suc n → Keeps m (or_rest fuel k l)
  unfolding or_rest
  or_rest-Keeps zero m l f b = absurd (omega (arith, f))
  or_rest-Keeps (suc fuel) zero l f b = Keeps-vacuous
  or_rest-Keeps (suc fuel) (suc m) l f b =
      Keeps-on_token m tok_ident "or" refl (omega arith)
        (Takes→Keeps (
          Takes-bind (Takes-antitone (omega (arith, b)) parse_and-Takes)
            λ r. or_rest-Keeps fuel m (or l r) (omega (arith, f)) (omega (arith, b))))
        (Keeps-pure l)

  pub parse_or-Takes : Takes (suc n) (parse_or k)
  unfolding parse_or
  parse_or-Takes = Takes-bind parse_and-Takes λ l.
      Keeps-with_fuel (λ fuel. or_rest fuel k l) λ m b. or_rest-Keeps (suc m) m l (omega arith) b
