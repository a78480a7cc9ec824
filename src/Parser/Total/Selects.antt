-- ===== src/Parser/Total/Selects.antt =====
-- That the parser of queries comes to an end, and the knot with it.
use tsql.Base.{ℕ, zero, suc, ◌≤◌, ◌<◌, ◌≡◌, refl, arith, String, true, false}
use tsql.Base.{[], ◌∷◌, length, str_eq, if◌then◌else◌}
use tsql.Platform.{Platform}
use tsql.Executor.Expr.{Select}
use tsql.Parser.Lexer.{tok_ident, tok_punct}
use tsql.Parser.Tokens.{Tokens, Parser, peek}
use tsql.Parser.Tokens.{pure, ◌>>◌, ◌>>=◌, at_kw, with_fuel}
use tsql.Parser.Tokens.{refuse, expect_punct, expect_kw}
use tsql.Parser.Expressions.{Knot}
use tsql.Parser.Selects.{
  plain, derived, is_ref_stop_word, is_field_stop_word, alias_or, parse_optional_alias, derived_ref,
  plain_ref, parse_table_ref, field, select_list, join, joins, order_item, clauses, select_of,
  parse_select, knot, parse_expr,
}
use tsql.Parser.Total.Steps.{
  IsClosed, Ends, refused, Ends-if, Ends_weaker, Ends-then_parse, token-kind,
}
use tsql.Parser.Total.Takes.{
  Takes, Keeps, Takes-antitone, Takes→Keeps, Keeps-pure, Takes-refuse, Takes-bind, Takes-then,
  Keeps-bind, Takes-on_token, Keeps-on_token, Takes-vacuous, Keeps-vacuous, Takes-with_fuel,
  Keeps-with_fuel, Keeps-if, Takes-commas, Takes-expect_punct, Takes-expect_kw, Takes-ident_or_err,
  next-Ends,
}
use tsql.Parser.Total.Operands.{IsBound}
use tsql.Parser.Total.Expressions.{parse_or-Takes}
use tsql.Parser.Total.Clauses.{
  alias_or-Keeps, while_some-Keeps, join_kind-Keeps, by_list-Keeps, direction-Keeps,
  limit_clause-Keeps, condition-Keeps,
}

-- The parsers in one round of the knot.
module _ {P : Platform} {n : ℕ} (k : Knot P) (h : IsBound n k) where
  derived_ref-Keeps : Keeps n (derived_ref k)
  unfolding derived_ref
  derived_ref-Keeps = record {
    run = λ ts c l.
        Ends-if (at_kw "select" ts)
          (λ e. Ends-then_parse (h.sel ts c l e) λ sub rest d m.
            Ends_weaker (omega (arith, m)) ((named sub).run rest d (omega (arith, l, m))))
          (λ e. refused);
  }
    where
      named :
          (sub : Select P)
          → Keeps n (
              expect_punct ")"
              >> (alias_or is_ref_stop_word (pure "") >>= λ alias.
                  (if str_eq alias "" then refuse else pure (derived alias sub))))
      named sub = Takes→Keeps (
          Takes-bind (Takes-expect_punct ")") λ u.
            Keeps-bind (alias_or-Keeps is_ref_stop_word (pure "") (Keeps-pure "")) λ alias.
              Keeps-if (str_eq alias "") (Takes→Keeps Takes-refuse)
                (Keeps-pure (derived alias sub)))

  parse_table_ref-Takes : Takes n (parse_table_ref k)
  unfolding parse_table_ref plain_ref
  parse_table_ref-Takes = Takes-on_token n tok_punct "(" refl (omega arith) derived_ref-Keeps (
      Takes-bind Takes-ident_or_err λ name.
        Keeps-bind (alias_or-Keeps is_ref_stop_word (pure name) (Keeps-pure name))
          λ alias. Keeps-pure (plain name alias))

  select_list-Keeps : Keeps n (select_list k)
  unfolding select_list parse_optional_alias
  select_list-Keeps =
      Keeps-on_token n tok_punct "*" refl (omega arith) (Keeps-pure (true, []))
        (Takes→Keeps (Takes-bind (Takes-commas item) λ fs. Keeps-pure (false, fs)))
    where
      item : Takes n (field k)
      item = Takes-bind h.expr λ e.
          Keeps-bind (alias_or-Keeps is_field_stop_word (pure "") (Keeps-pure ""))
            λ alias. Keeps-pure (e, alias)

  join-Takes : (kind : String) → Takes n (join k kind)
  join-Takes kind = Takes-bind parse_table_ref-Takes λ ref. Takes→Keeps (
      Takes-bind (Takes-expect_kw "on")
        λ u. Takes→Keeps (Takes-bind h.expr λ on. Keeps-pure (ref, kind, on)))

  joins-Keeps : (fuel m : ℕ) → m < fuel → m ≤ n → Keeps m (joins fuel k)
  unfolding joins
  joins-Keeps zero m f b = absurd (omega (arith, f))
  joins-Keeps (suc fuel) zero f b = Keeps-vacuous
  joins-Keeps (suc fuel) (suc m) f b = Keeps-bind join_kind-Keeps λ kind.
      while_some-Keeps kind [] λ a. Takes→Keeps (
        Takes-then (Takes-antitone b (join-Takes a)) λ j.
          Keeps-bind (joins-Keeps fuel m (omega (arith, f)) (omega (arith, b)))
            λ js. Keeps-pure (j ∷ js))

  clauses-Keeps : Keeps n (clauses k)
  unfolding clauses
  clauses-Keeps = Keeps-bind (condition-Keeps "where" h.expr) λ filter.
      Keeps-bind (by_list-Keeps "group" h.expr) λ group.
        Keeps-bind (condition-Keeps "having" h.expr) λ having.
          Keeps-bind (by_list-Keeps "order" item) λ order.
            Keeps-bind (limit_clause-Keeps n)
              λ limit. Keeps-pure (filter, group, having, order, limit)
    where
      item : Takes n (order_item k)
      item = Takes-bind h.expr λ e. Keeps-bind (direction-Keeps n) λ desc. Keeps-pure (e, desc)

  -- What parseSelect reads behind SELECT.
  body : Parser (Select P)
  body = select_list k >>= λ fs.
      expect_kw "from"
      >> (parse_table_ref k >>= λ ref. with_fuel (λ fuel. joins fuel k) >>= λ js.
          clauses k >>= λ cs. pure (select_of fs ref js cs))

  body-Keeps : Keeps n body
  unfolding body
  body-Keeps = Keeps-bind select_list-Keeps λ fs. Takes→Keeps (
      Takes-bind (Takes-expect_kw "from") λ u. Takes→Keeps (
        Takes-bind parse_table_ref-Takes λ ref.
          Keeps-bind
            (Keeps-with_fuel (λ fuel. joins fuel k) λ m b. joins-Keeps (suc m) m (omega arith) b)
            λ js. Keeps-bind clauses-Keeps λ cs. Keeps-pure (select_of fs ref js cs)))

  pub parse_select-Ends :
      (ts : Tokens)
      → IsClosed ts
      → length ts ≤ suc n
      → at_kw "select" ts ≡ true
      → Ends (length ts) (parse_select k ts)
  unfolding parse_select body
  parse_select-Ends ts c l e =
      next-Ends tok_ident body ts refl (token-kind tok_ident "select" (peek ts) e) c l body-Keeps

pub knot-IsBound : {P : Platform} (n : ℕ) → IsBound n (knot {P = P} n)
unfolding knot
knot-IsBound {P} zero = record { expr = Takes-vacuous; sel = λ ts c l e. none_read.run ts c l }
  where
    none_read : Takes zero (knot {P = P} zero).sel
    none_read = Takes-vacuous
knot-IsBound (suc n) = record {
  expr = parse_or-Takes (knot n) (knot-IsBound n);
  sel = parse_select-Ends (knot n) (knot-IsBound n);
}

pub parse_expr-Takes : {P : Platform} (n : ℕ) → Takes n (parse_expr {P = P})
parse_expr-Takes n =
    Takes-with_fuel (λ fuel. (knot fuel).expr)
      λ m b. Takes-antitone (omega arith) (knot-IsBound (suc m)).expr
