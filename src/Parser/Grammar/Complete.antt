-- ===== src/Parser/Grammar/Complete.antt =====
-- That the parser reads every spelling of an expression.
use tsql.Base.{ℕ, zero, suc, ◌≤◌, ◌≡◌, arith}
use tsql.Base.{[], ◌∷◌, ◌++◌, length, length-append, ok}
use tsql.Platform.{Platform}
use tsql.Executor.Expr.{Expr}
use tsql.Parser.Tokens.{Lexeme, Tokens}
use tsql.Parser.Selects.{knot, parse_expr}
use tsql.Parser.Grammar.{Level, Spells, word, mark}
use tsql.Parser.Grammar.Follow.{FreeOr, Spells-Headed, close-FreeOr}
use tsql.Parser.Grammar.Levels.{
  Reads, or_over, or_up, and_up, cmp_up, add_up, mul_up, not_up, unary_up,
}
use tsql.Parser.Grammar.Rules.{
  or_on, and_on, cmp_on, add_on, mul_on, is_null_on, is_not_null_on, not_on, minus_on,
}
use tsql.Executor.Expr.{Exprs}
use tsql.Parser.Expressions.{parse_or}
use tsql.Parser.Grammar.{SpellsItems}
use tsql.Parser.Grammar.Follow.{SpellsItems-Headed, comma-FreeOr}
use tsql.Parser.Grammar.Lists.{ReadsItems, last_read, next_read, in_on, not_in_on}
use tsql.Parser.Grammar.Primary.{
  parens_on, call_on, int_read, float_read, text_read, null_read, true_read, false_read,
  column_read, qualified_read, star_read, call_read,
}

module _ {P : Platform} where
  -- An expression at any level, with a round of the knot for each token.
  mutual
    unfolding knot

    Spells-Reads :
        (f : ℕ) {l : Level} {e : Expr P} {ts : Tokens}
        → Spells l e ts
        → length ts ≤ f
        → Reads l (knot f) e ts
    Spells-Reads f (Spells.or_rule {l} {r} {ts} {us} a b) h =
        or_on (knot f) l r ts us
          (Spells-Reads f a (omega (arith, h, length-append ts (word "or" ∷ us))))
          (Spells-Reads f b (omega (arith, h, length-append ts (word "or" ∷ us))))
    Spells-Reads f (Spells.or_up {e} {ts} a) h = or_up (knot f) e ts (Spells-Reads f a h)
    Spells-Reads f (Spells.and_rule {l} {r} {ts} {us} a b) h =
        and_on (knot f) l r ts us
          (Spells-Reads f a (omega (arith, h, length-append ts (word "and" ∷ us))))
          (Spells-Reads f b (omega (arith, h, length-append ts (word "and" ∷ us))))
    Spells-Reads f (Spells.and_up {e} {ts} a) h = and_up (knot f) e ts (Spells-Reads f a h)
    Spells-Reads f (Spells.not_rule {e} {ts} a) h =
        not_on (knot f) e ts (Spells-Reads f a (omega (arith, h)))
    Spells-Reads f (Spells.not_up {e} {ts} a) h =
        not_up (knot f) e ts (Spells-Headed a) (Spells-Reads f a h)
    Spells-Reads f (Spells.cmp_rule {l} {r} {ts} {us} o c a b) h =
        cmp_on (knot f) l r ts us o c
          (Spells-Reads f a (omega (arith, h, length-append ts (mark o ∷ us))))
          (Spells-Reads f b (omega (arith, h, length-append ts (mark o ∷ us))))
    Spells-Reads f (Spells.is_null_rule {e} {ts} a) h =
        is_null_on (knot f) e ts
          (Spells-Reads f a (omega (arith, h, length-append ts (word "is" ∷ word "null" ∷ []))))
    Spells-Reads f (Spells.is_not_null_rule {e} {ts} a) h = is_not_null_on (knot f) e ts (
        Spells-Reads f a
          (omega (arith, h, length-append ts (word "is" ∷ word "not" ∷ word "null" ∷ []))))
    Spells-Reads zero (Spells.in_rule {e} {es} {ts} {us} a b) h =
        absurd (omega (arith, h, length-append ts (word "in" ∷ mark "(" ∷ (us ++ mark ")" ∷ []))))
    Spells-Reads (suc f) (Spells.in_rule {e} {es} {ts} {us} a b) h =
        let whole = length-append ts (word "in" ∷ mark "(" ∷ (us ++ mark ")" ∷ [])) in
        in_on (knot (suc f)) e es ts us (SpellsItems-Headed b)
          (Spells-Reads (suc f) a (omega (arith, h, whole)))
          (SpellsItems-Reads f b (omega (arith, h, whole, length-append us (mark ")" ∷ []))))
    Spells-Reads zero (Spells.not_in_rule {e} {es} {ts} {us} a b) h = absurd (
        omega
          (arith, h, length-append ts (word "not" ∷ word "in" ∷ mark "(" ∷ (us ++ mark ")" ∷ []))))
    Spells-Reads (suc f) (Spells.not_in_rule {e} {es} {ts} {us} a b) h =
        let whole = length-append ts (word "not" ∷ word "in" ∷ mark "(" ∷ (us ++ mark ")" ∷ [])) in
        not_in_on (knot (suc f)) e es ts us (SpellsItems-Headed b)
          (Spells-Reads (suc f) a (omega (arith, h, whole)))
          (SpellsItems-Reads f b (omega (arith, h, whole, length-append us (mark ")" ∷ []))))
    Spells-Reads f (Spells.cmp_up {e} {ts} a) h = cmp_up (knot f) e ts (Spells-Reads f a h)
    Spells-Reads f (Spells.add_rule {l} {r} {ts} {us} o c a b) h =
        add_on (knot f) l r ts us o c
          (Spells-Reads f a (omega (arith, h, length-append ts (mark o ∷ us))))
          (Spells-Reads f b (omega (arith, h, length-append ts (mark o ∷ us))))
    Spells-Reads f (Spells.add_up {e} {ts} a) h = add_up (knot f) e ts (Spells-Reads f a h)
    Spells-Reads f (Spells.mul_rule {l} {r} {ts} {us} o c a b) h =
        mul_on (knot f) l r ts us o c
          (Spells-Reads f a (omega (arith, h, length-append ts (mark o ∷ us))))
          (Spells-Reads f b (omega (arith, h, length-append ts (mark o ∷ us))))
    Spells-Reads f (Spells.mul_up {e} {ts} a) h = mul_up (knot f) e ts (Spells-Reads f a h)
    Spells-Reads f (Spells.minus_rule {e} {ts} a) h =
        minus_on (knot f) e ts (Spells-Reads f a (omega (arith, h)))
    Spells-Reads f (Spells.unary_up {e} {ts} a) h =
        unary_up (knot f) e ts (Spells-Headed a) (Spells-Reads f a h)
    Spells-Reads zero (Spells.parens_rule {e} {ts} a) h = absurd (omega (arith, h))
    Spells-Reads (suc f) (Spells.parens_rule {e} {ts} a) h =
        parens_on f e ts (Spells-Reads f a (omega (arith, h, length-append ts (mark ")" ∷ []))))
    Spells-Reads f (Spells.int_rule s i d p) h = λ u us free. int_read (knot f) u us free s i d p
    Spells-Reads f (Spells.float_rule s v d p) h =
        λ u us free. float_read (knot f) u us free s v d p
    Spells-Reads f (Spells.text_rule s) h = λ u us free. text_read (knot f) u us free s
    Spells-Reads f Spells.null_rule h = λ u us free. null_read (knot f) u us free
    Spells-Reads f Spells.true_rule h = λ u us free. true_read (knot f) u us free
    Spells-Reads f Spells.false_rule h = λ u us free. false_read (knot f) u us free
    Spells-Reads f (Spells.column_rule s n) h = λ u us free. column_read (knot f) u us free s n
    Spells-Reads f (Spells.qualified_rule t s n) h =
        λ u us free. qualified_read (knot f) u us free t s n
    Spells-Reads f (Spells.star_rule s n) h = λ u us free. star_read (knot f) u us free s n
    Spells-Reads f (Spells.call_rule s n) h = λ u us free. call_read (knot f) u us free s n
    Spells-Reads zero (Spells.call_with_rule {e} {ts} s n a) h = absurd (omega (arith, h))
    Spells-Reads (suc f) (Spells.call_with_rule {e} {ts} s n a) h =
        call_on f e ts s n (Spells-Headed a)
          (Spells-Reads f a (omega (arith, h, length-append ts (mark ")" ∷ []))))

    SpellsItems-Reads :
        (f : ℕ) {es : Exprs P} {ts : Tokens}
        → SpellsItems es ts
        → length ts ≤ f
        → ReadsItems (parse_or (knot f)) es ts
    SpellsItems-Reads f (SpellsItems.last_item {e} {ts} a) h =
        last_read (parse_or (knot f)) e ts
          λ us. or_over (knot f) e ts (Spells-Reads f a h) (mark ")") us close-FreeOr
    SpellsItems-Reads f (SpellsItems.next_item {e} {es} {ts} {us} a b) h =
        let whole = length-append ts (mark "," ∷ us) in
        next_read (parse_or (knot f)) e es ts us
          (λ vs.
            or_over (knot f) e ts (Spells-Reads f a (omega (arith, h, whole))) (mark ",") vs
              comma-FreeOr)
          (SpellsItems-Reads f b (omega (arith, h, whole)))

-- parseExpr reads every spelling that the grammar OR < AND < NOT < comparisons < sums < products <
-- minus gives an expression, with operators nested to the left and parentheses anywhere, as that
-- expression, and leaves what follows, where the next token continues no expression. The grammar has
-- all expressions but IN with a query; its names are no keyword that an expression may begin with.
pub parse_expr-Spells :
    {P : Platform} {e : Expr P} {ts : Tokens} (u : Lexeme) (us : Tokens)
    → Spells Level.or_level e ts
    → FreeOr u
    → parse_expr (ts ++ u ∷ us) ≡ ok (e, u ∷ us)
unfolding knot
parse_expr-Spells {e} {ts} u us d free =
    or_over (knot (length (ts ++ u ∷ us))) e ts
      (Spells-Reads (length (ts ++ u ∷ us)) d (omega (arith, length-append ts (u ∷ us)))) u us free
