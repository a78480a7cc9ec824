-- ===== src/Parser/Grammar/Primary.antt =====
-- How the parser reads the primary expressions.
use tsql.Base.{ℕ, suc, ◌≡◌, refl, String, true, false}
use tsql.Base.{some}
use tsql.Base.{[], ◌∷◌, ◌++◌, ok}
use mathlib.Core.List.{append_assoc}
use tsql.Base.Int.{ℤ}
use tsql.Platform.{Platform}
use tsql.Types.{null, int, float, text, bool}
use tsql.Executor.Expr.{Expr, lit, col_ref, func}
use tsql.Executor.Expr.{no_expr, an_expr}
use tsql.Parser.Lexer.{tok_num, tok_str}
use tsql.Parser.Tokens.{Lexeme, lexeme, Tokens, next, is_token}
use tsql.Parser.Tokens.{ident_or_err}
use tsql.Parser.Numbers.{contains_dot, parse_int}
use tsql.Parser.Expressions.{Knot, parse_primary, primary_of, named, call, number}
use tsql.Parser.Selects.{knot}
use tsql.Parser.Grammar.{Level, IsName, word, mark}
use tsql.Parser.Grammar.Follow.{FreePrimary, FirstOr, Headed, close-FreeOr}
use tsql.Parser.Grammar.Steps.{next-append, opens}
use tsql.Parser.Grammar.Levels.{Reads, or_over}
use tsql.Parser.Grammar.Rules.{call_with_read}

module _ {P : Platform} where
  -- The rules of the primary expressions.
  module _ (f : ℕ) (e : Expr P) (ts : Tokens) where
    pub parens_on :
        Reads Level.or_level (knot f) e ts
        → Reads Level.primary_level (knot (suc f)) e (mark "(" ∷ (ts ++ mark ")" ∷ []))
    unfolding parse_primary primary_of knot is_token next
    parens_on reads u us h =
        rw
          (
            next-append (mark "(") u (ts ++ mark ")" ∷ []) us,
            append_assoc ts (mark ")" ∷ []) (u ∷ us),
            or_over (knot f) e ts reads (mark ")") (u ∷ us) close-FreeOr,
          )
          refl

    pub call_on :
        (s : String)
        → IsName s
        → Headed FirstOr ts
        → Reads Level.or_level (knot f) e ts
        → Reads Level.primary_level
            (knot (suc f))
            (func s false (an_expr e))
            (word s ∷ mark "(" ∷ (ts ++ mark ")" ∷ []))
    unfolding parse_primary primary_of named knot next
    call_on s n first reads u us h =
        rw
          (
            n.ne_null,
            n.ne_true,
            n.ne_false,
            opens.0,
            opens.1,
            next-append (mark "(") u (ts ++ mark ")" ∷ []) us,
            append_assoc ts (mark ")" ∷ []) (u ∷ us),
          )
          (call_with_read (knot (suc f)) s e ts us u first
            (or_over (knot f) e ts reads (mark ")") (u ∷ us) close-FreeOr))

  module _ (k : Knot P) (u : Lexeme) (us : Tokens) (h : FreePrimary u) where
    pub int_read :
        (s : String) (i : ℤ)
        → contains_dot s ≡ false
        → parse_int s ≡ some i
        → parse_primary k (lexeme tok_num s ∷ u ∷ us) ≡ ok (lit (int i), u ∷ us)
    unfolding parse_primary primary_of number next
    int_read s i d p = rw (d, p) refl

    pub float_read :
        (s : String) (f : P.Float)
        → contains_dot s ≡ true
        → P.parse_float s ≡ some f
        → parse_primary k (lexeme tok_num s ∷ u ∷ us) ≡ ok (lit (float f), u ∷ us)
    unfolding parse_primary primary_of number next
    float_read s f d p = rw (d, p) refl

    pub text_read :
        (s : String) → parse_primary k (lexeme tok_str s ∷ u ∷ us) ≡ ok (lit (text s), u ∷ us)
    unfolding parse_primary primary_of next
    text_read s = refl

    pub null_read : parse_primary k (word "null" ∷ u ∷ us) ≡ ok (lit null, u ∷ us)
    unfolding parse_primary primary_of named next
    null_read = refl

    pub true_read : parse_primary k (word "true" ∷ u ∷ us) ≡ ok (lit (bool true), u ∷ us)
    unfolding parse_primary primary_of named next
    true_read = refl

    pub false_read : parse_primary k (word "false" ∷ u ∷ us) ≡ ok (lit (bool false), u ∷ us)
    unfolding parse_primary primary_of named next
    false_read = refl

    pub column_read :
        (s : String)
        → IsName s
        → parse_primary k (word s ∷ u ∷ us) ≡ ok (col_ref (record { table = ""; name = s }), u ∷ us)
    unfolding parse_primary primary_of named next
    column_read s n = rw (n.ne_null, n.ne_true, n.ne_false, h.0, h.1) refl

    pub qualified_read :
        (t s : String)
        → IsName t
        → parse_primary k (word t ∷ mark "." ∷ word s ∷ u ∷ us)
          ≡ ok (col_ref (record { table = t; name = s }), u ∷ us)
    unfolding parse_primary primary_of named next is_token ident_or_err
    qualified_read t s n = rw (n.ne_null, n.ne_true, n.ne_false) refl

    pub star_read :
        (s : String)
        → IsName s
        → parse_primary k (word s ∷ mark "(" ∷ mark "*" ∷ mark ")" ∷ u ∷ us)
          ≡ ok (func s true no_expr, u ∷ us)
    unfolding parse_primary primary_of named call next is_token
    star_read s n = rw (n.ne_null, n.ne_true, n.ne_false) refl

    pub call_read :
        (s : String)
        → IsName s
        → parse_primary k (word s ∷ mark "(" ∷ mark ")" ∷ u ∷ us)
          ≡ ok (func s false no_expr, u ∷ us)
    unfolding parse_primary primary_of named call next is_token
    call_read s n = rw (n.ne_null, n.ne_true, n.ne_false) refl
