-- ===== src/Parser/Total/Clauses.antt =====
-- That the parsers of the clauses of a query come to an end.
use tsql.Base.{ℕ, suc, ◌<◌, ◌≡◌, refl, arith, String, Bool, true, false, not, ◌&&◌}
use tsql.Base.{Option, none, some, [], length, if◌then◌else◌, ok, err}
use tsql.Base.Int.{ℤ, pos, ltb_ℤ}
use tsql.Platform.{Platform}
use tsql.Executor.Expr.{Expr, an_expr, no_expr}
use tsql.Parser.Lexer.{tok_ident, tok_num}
use tsql.Parser.Tokens.{Tokens, Parser, peek, next}
use tsql.Parser.Lexer.{syntax_error}
use tsql.Parser.Tokens.{is_kind, on_token, pure, at_kw}
use tsql.Parser.Numbers.{contains_dot, parse_int}
use tsql.Parser.Selects.{
  at_alias, alias_or, parse_limit, join_kind, while_some, condition, by_list, direction,
  limit_clause,
}
use tsql.Parser.Total.Steps.{
  IsClosed, Ends, ended, refused, Ends-if, Ends-then_parse, next-IsClosed, next_shorter, token-kind,
}
use tsql.Parser.Total.Takes.{
  Takes, Keeps, Takes→Keeps, Keeps-pure, Takes-bind, Keeps-on_token, Takes-commas, Takes-expect_kw,
  Takes-ident_or_err,
}

pub alias_or-Keeps :
    {n : ℕ} (stops : String → Bool) (missing : Parser String)
    → Keeps n missing
    → Keeps n (alias_or stops missing)
alias_or-Keeps {n} stops missing m =
    Keeps-on_token n tok_ident "as" refl (omega arith) (Takes→Keeps Takes-ident_or_err) (record {
      run = λ ts c l.
          Ends-if (at_alias stops ts) (λ e. (Takes→Keeps Takes-ident_or_err).run ts c l)
            (λ e. m.run ts c l);
    })

pub while_some-Keeps :
    {A B : Type 0} {n : ℕ} (o : Option A) {f : A → Parser B} (b : B)
    → ((a : A) → Keeps n (f a))
    → Keeps n (while_some o f b)
while_some-Keeps none b h = Keeps-pure b
while_some-Keeps (some a) b h = h a

parse_limit-Takes : {n : ℕ} → Takes n parse_limit
unfolding parse_limit
parse_limit-Takes = record {
  run = λ ts c l.
      Ends-if (is_kind tok_num (peek ts).kind && not (contains_dot (peek ts).text))
        (λ e. found ts c e (parse_int (peek ts).text)) (λ e. refused);
}
  where
    found :
        (ts : Tokens)
        → IsClosed ts
        → (is_kind tok_num (peek ts).kind && not (contains_dot (peek ts).text)) ≡ true
        → (o : Option ℤ)
        → Ends (length ts) (elim o [
          | none ↦ err syntax_error
          | some n ↦ if ltb_ℤ n (pos 0) then err syntax_error else ok (n, next ts)
        ])
    found ts c e none = refused
    found ts c e (some n) =
        Ends-if (ltb_ℤ n (pos 0)) (λ f. refused)
          (λ f. ended (next-IsClosed ts c) (next_shorter tok_num ts refl (ground (arith, e)) c))

pub join_kind-Keeps : {n : ℕ} → Keeps n join_kind
unfolding join_kind
join_kind-Keeps {n} = record {
  run = λ ts c l.
      Ends-if (at_kw "join" ts) (λ e. over ts c (next_le "join" ts e c) (next-IsClosed ts c))
        (λ e.
          Ends-if (at_kw "inner" ts)
            (λ f.
              Ends-if (at_kw "join" (next ts))
                (λ g.
                  over ts c
                    (omega (
                      arith,
                      next_le "inner" ts f c,
                      next_le "join" (next ts) g (next-IsClosed ts c),
                    ))
                    (next-IsClosed (next ts) (next-IsClosed ts c)))
                (λ g. ended c (omega arith)))
            (λ f.
              Ends-if (at_kw "left" ts)
                (λ g.
                  Ends-then_parse
                    (outer.run (next ts) (next-IsClosed ts c)
                      (omega (arith, next_le "left" ts g c, l)))
                    λ u us d m.
                      Ends-if (at_kw "join" us)
                        (λ i.
                          ended (next-IsClosed us d)
                            (omega (arith, m, next_le "left" ts g c, next_le "join" us i d)))
                        (λ i. ended c (omega arith)))
                (λ g. ended c (omega arith))));
}
  where
    next_le :
        (s : String) (ts : Tokens) → at_kw s ts ≡ true → IsClosed ts → length (next ts) < length ts
    next_le s ts e c = next_shorter tok_ident ts refl (token-kind tok_ident s (peek ts) e) c

    over :
        {a : Option String} {us : Tokens} (ts : Tokens)
        → IsClosed ts
        → length us < length ts
        → IsClosed us
        → Ends (suc (length ts)) (ok (a, us))
    over ts c s d = ended d (omega (arith, s))

    outer : Keeps n (on_token tok_ident "outer" (pure tt) (pure tt))
    outer = Keeps-on_token n tok_ident "outer" refl (omega arith) (Keeps-pure tt) (Keeps-pure tt)

module _ {A : Type 0} {n : ℕ} (kw : String) {p : Parser A} (t : Takes n p) where
  pub by_list-Keeps : Keeps n (by_list kw p)
  by_list-Keeps =
      Keeps-on_token n tok_ident kw refl (omega arith)
        (Takes→Keeps (Takes-bind (Takes-expect_kw "by") λ u. Takes→Keeps (Takes-commas t)))
        (Keeps-pure [])

pub direction-Keeps : (n : ℕ) → Keeps n direction
direction-Keeps n =
    Keeps-on_token n tok_ident "desc" refl (omega arith) (Keeps-pure true)
      (Keeps-on_token n tok_ident "asc" refl (omega arith) (Keeps-pure false) (Keeps-pure false))

pub limit_clause-Keeps : (n : ℕ) → Keeps n limit_clause
limit_clause-Keeps n =
    Keeps-on_token n tok_ident "limit" refl (omega arith)
      (Takes→Keeps (Takes-bind parse_limit-Takes λ i. Keeps-pure (some i))) (Keeps-pure none)

pub condition-Keeps :
    {P : Platform} {n : ℕ} (kw : String) {p : Parser (Expr P)}
    → Takes n p
    → Keeps n (condition kw p)
unfolding condition
condition-Keeps {n} kw t =
    Keeps-on_token n tok_ident kw refl (omega arith)
      (Takes→Keeps (Takes-bind t λ e. Keeps-pure (an_expr e))) (Keeps-pure no_expr)
