-- ===== src/Parser/Grammar/Lists.antt =====
-- How the parser reads the list of an IN.
use tsql.Base.{ℕ, zero, suc, ◌≤◌, ◌≡◌, refl, ap, arith, Bool, true, false}
use tsql.Base.{List, [], ◌∷◌, ◌++◌, length, length-append, ok}
use mathlib.Core.List.{append_assoc}
use tsql.Platform.{Platform}
use tsql.Executor.Expr.{Expr, Exprs, no_exprs, more_exprs, in_list}
use tsql.Parser.Tokens.{Lexeme, Tokens, Parser, next, is_token, comma_list}
use tsql.Parser.Expressions.{Knot, exprs_of, in_rest, cmp_rest, parse_cmp, is_comparison}
use tsql.Parser.Grammar.{Level, word, mark}
use tsql.Parser.Grammar.Follow.{FirstOr, Headed, headed, in-FreeAdd, not-FreeAdd}
use tsql.Parser.Grammar.Steps.{next-append, closes, opens}
use tsql.Parser.Grammar.Levels.{Reads, add_over}

module _ {P : Platform} where
  -- With enough rounds the loop reads the items, in front of a closing parenthesis.
  abbrev pub ReadsItems : Parser (Expr P) → Exprs P → Tokens → Type 0
  ReadsItems p es ts =
      (n : ℕ) (us : Tokens)
      → length ts ≤ n
      → (l : List (Expr P)) × (comma_list (suc n) p (ts ++ mark ")" ∷ us) ≡ ok (l, mark ")" ∷ us))
        × (exprs_of l ≡ es)

  pub last_read :
      (p : Parser (Expr P)) (e : Expr P) (ts : Tokens)
      → ((us : Tokens) → p (ts ++ mark ")" ∷ us) ≡ ok (e, mark ")" ∷ us))
      → ReadsItems p (more_exprs e no_exprs) ts
  unfolding comma_list is_token exprs_of
  last_read p e ts h n us l = (e ∷ [], rw (h us) refl, refl)

  pub next_read :
      (p : Parser (Expr P)) (e : Expr P) (es : Exprs P) (ts us : Tokens)
      → ((vs : Tokens) → p (ts ++ mark "," ∷ vs) ≡ ok (e, mark "," ∷ vs))
      → ReadsItems p es us
      → ReadsItems p (more_exprs e es) (ts ++ mark "," ∷ us)
  unfolding comma_list is_token exprs_of
  next_read p e es ts us h more zero vs l =
      absurd (omega (arith, l, length-append ts (mark "," ∷ us)))
  next_read p e es ts us h more (suc n) vs l =
      let (items, q, same) = more n vs (omega (arith, l, length-append ts (mark "," ∷ us))) in
      (
        e ∷ items,
        rw
            (
              append_assoc ts (mark "," ∷ us) (mark ")" ∷ vs),
              h (us ++ mark ")" ∷ vs),
              next-append (mark ",") (mark ")") us vs,
              q,
            )
            refl,
        ap (more_exprs e) same,
      )

  -- Behind IN and its parenthesis.
  in_rest_read :
      (k : Knot P) (e : Expr P) (es : Exprs P) (negated : Bool) (ts us : Tokens) (u : Lexeme)
      → Headed FirstOr ts
      → ReadsItems k.expr es ts
      → in_rest k e negated (mark "(" ∷ (ts ++ mark ")" ∷ u ∷ us))
        ≡ ok (in_list e es negated, u ∷ us)
  unfolding in_rest next
  in_rest_read k e es negated [] us u first items = elim first [ ]
  in_rest_read k e es negated (t ∷ ts) us u (headed first) items =
      let (l, q, same) =
        items (length (t ∷ (ts ++ mark ")" ∷ u ∷ us))) (u ∷ us)
          (omega (arith, length-append (t ∷ ts) (mark ")" ∷ u ∷ us))) in
      rw (opens.1, first.0, q, closes, same) refl

  cmp_rest-in :
      (k : Knot P) (l : Expr P) (ts : Tokens)
      → cmp_rest k l (word "in" ∷ mark "(" ∷ ts) ≡ in_rest k l false (mark "(" ∷ ts)
  unfolding cmp_rest is_comparison is_token next
  cmp_rest-in k l ts = refl

  cmp_rest-not_in :
      (k : Knot P) (l : Expr P) (ts : Tokens)
      → cmp_rest k l (word "not" ∷ word "in" ∷ mark "(" ∷ ts) ≡ in_rest k l true (mark "(" ∷ ts)
  unfolding cmp_rest is_comparison is_token next
  cmp_rest-not_in k l ts = refl

  module _ (k : Knot P) (e : Expr P) (es : Exprs P) (ts us : Tokens) where
    pub in_on :
        Headed FirstOr us
        → Reads Level.add_level k e ts
        → ReadsItems k.expr es us
        → Reads Level.cmp_level k
            (in_list e es false)
            (ts ++ word "in" ∷ mark "(" ∷ (us ++ mark ")" ∷ []))
    unfolding parse_cmp
    in_on first left items u vs h =
        rw
          (
            append_assoc ts (word "in" ∷ mark "(" ∷ (us ++ mark ")" ∷ [])) (u ∷ vs),
            append_assoc us (mark ")" ∷ []) (u ∷ vs),
            add_over k e ts left (word "in") (mark "(" ∷ (us ++ mark ")" ∷ u ∷ vs)) in-FreeAdd,
            cmp_rest-in k e (us ++ mark ")" ∷ u ∷ vs),
          )
          (in_rest_read k e es false us vs u first items)

    pub not_in_on :
        Headed FirstOr us
        → Reads Level.add_level k e ts
        → ReadsItems k.expr es us
        → Reads Level.cmp_level k
            (in_list e es true)
            (ts ++ word "not" ∷ word "in" ∷ mark "(" ∷ (us ++ mark ")" ∷ []))
    unfolding parse_cmp
    not_in_on first left items u vs h =
        rw
          (
            append_assoc ts (word "not" ∷ word "in" ∷ mark "(" ∷ (us ++ mark ")" ∷ [])) (u ∷ vs),
            append_assoc us (mark ")" ∷ []) (u ∷ vs),
            add_over k e ts left (word "not") (word "in" ∷ mark "(" ∷ (us ++ mark ")" ∷ u ∷ vs))
                not-FreeAdd,
            cmp_rest-not_in k e (us ++ mark ")" ∷ u ∷ vs),
          )
          (in_rest_read k e es true us vs u first items)
