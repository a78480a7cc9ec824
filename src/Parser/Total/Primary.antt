-- ===== src/Parser/Total/Primary.antt =====
-- That the parser of primary expressions comes to an end.
use tsql.Base.{ℕ, suc, ◌≤◌, ◌≡◌, refl, arith, String, Bool, true, false}
use tsql.Base.{length, str_eq, if◌then◌else◌}
use tsql.Platform.{Platform}
use tsql.Types.{null, text, bool}
use tsql.Executor.Expr.{lit, func, no_expr}
use tsql.Executor.Expr.{an_expr, col_ref}
use tsql.Parser.Lexer.{TokKind, tok_eof, tok_ident, tok_num, tok_str, tok_punct}
use tsql.Parser.Tokens.{Tokens, peek}
use tsql.Parser.Tokens.{is_kind, is_token, pure, skip, ◌>>◌, refuse}
use tsql.Parser.Expressions.{
  Knot, number, call_arg, call, named, parenthesised, primary_of, parse_primary,
}
use tsql.Parser.Total.Steps.{IsClosed, Ends, ended, refused, Ends-if}
use tsql.Parser.Total.Takes.{
  Keeps-if, Takes, Keeps, Takes→Keeps, Keeps-pure, Takes-bind, Keeps-bind, Keeps-on_token,
  Takes-expect_punct, Takes-ident_or_err, next-Ends,
}
use tsql.Parser.Total.Operands.{IsBound, number-Keeps}

-- The parsers in one round of the knot, on inputs one token longer than those of the parsers inside.
module _ {P : Platform} {n : ℕ} (k : Knot P) (h : IsBound n k) where
  call_arg-Keeps : Keeps n (call_arg k)
  call_arg-Keeps =
      Keeps-on_token n tok_punct "*" refl (omega arith) (Keeps-pure (true, no_expr)) (record {
        run = λ ts c l.
            Ends-if (is_token tok_punct ")" (peek ts)) (λ e. ended c (omega arith))
              (λ e.
                (Takes→Keeps (Takes-bind h.expr λ e. Keeps-pure (false, an_expr e))).run ts c l);
      })

  call-Keeps : (name : String) → Keeps n (call k name)
  unfolding call
  call-Keeps name = Keeps-bind call_arg-Keeps λ (star, arg).
      Takes→Keeps (Takes-bind (Takes-expect_punct ")") λ u. Keeps-pure (func name star arg))

  named-Keeps : (name : String) → Keeps n (named k name)
  unfolding named
  named-Keeps name = Keeps-if (str_eq name "null") (Keeps-pure (lit null)) (
      Keeps-if (str_eq name "true") (Keeps-pure (lit (bool true))) (
        Keeps-if (str_eq name "false") (Keeps-pure (lit (bool false))) (
          Keeps-on_token n tok_punct "." refl (omega arith)
            (Takes→Keeps (
              Takes-bind Takes-ident_or_err
                λ col. Keeps-pure (col_ref (record { table = name; name = col }))))
            (Keeps-on_token n tok_punct "(" refl (omega arith) (call-Keeps name)
              (Keeps-pure (col_ref (record { table = ""; name = name })))))))

  parenthesised-Keeps : Keeps n (parenthesised k)
  parenthesised-Keeps =
      Takes→Keeps
        (Takes-bind h.expr λ e. Takes→Keeps (Takes-bind (Takes-expect_punct ")") λ u. Keeps-pure e))

  primary_of-Ends :
      (t : TokKind) (s : String) (ts : Tokens)
      → is_kind t (peek ts).kind ≡ true
      → IsClosed ts
      → length ts ≤ suc n
      → Ends (length ts) (primary_of k t s ts)
  unfolding primary_of
  primary_of-Ends tok_num s ts e c l = next-Ends tok_num (number s) ts refl e c l (number-Keeps n s)
  primary_of-Ends tok_str s ts e c l =
      next-Ends tok_str (pure (lit (text s))) ts refl e c l (Keeps-pure (lit (text s)))
  primary_of-Ends tok_ident s ts e c l =
      next-Ends tok_ident (named k s) ts refl e c l (named-Keeps s)
  primary_of-Ends tok_punct s ts e c l = at_paren (str_eq s "(")
    where
      at_paren : (b : Bool) → Ends (length ts) ((if b then skip >> parenthesised k else refuse) ts)
      at_paren true = next-Ends tok_punct (parenthesised k) ts refl e c l parenthesised-Keeps
      at_paren false = refused
  primary_of-Ends tok_eof s ts e c l = refused

  pub parse_primary-Takes : Takes (suc n) (parse_primary k)
  unfolding parse_primary
  parse_primary-Takes = record {
    run = λ ts c l. primary_of-Ends (peek ts).kind (peek ts).text ts (same (peek ts).kind) c l;
  }
    where
      same : (t : TokKind) → is_kind t t ≡ true
      same tok_eof = refl
      same tok_ident = refl
      same tok_num = refl
      same tok_str = refl
      same tok_punct = refl
