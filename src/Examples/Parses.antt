-- ===== src/Examples/Parses.antt =====
-- The theorems on the parser at concrete inputs, and a test.
use tsql.Base.{false, ◌≡◌, refl, String, [], ◌∷◌, ok}
use tsql.Base.Int.{pos}
use tsql.Types.{int}
use tsql.Executor.Expr.{or, and, cmp, binary, lit, col_ref, not_expr, Expr}
use tsql.Parser.Lexer.{tok_eof, tok_num}
use tsql.Parser.Tokens.{Lexeme, lexeme, Tokens}
use tsql.Parser.Selects.{parse_expr}
use tsql.Parser.Tokens.{next, is_token}
use tsql.Parser.Numbers.{contains_dot, parse_int, digits_from}
use tsql.Base.{any}
use tsql.Parser.Selects.{knot}
use tsql.Parser.Expressions.{
  parse_or, or_rest, parse_and, and_rest, parse_not, not_level, parse_cmp, cmp_rest, parse_add,
  parse_mul, binary_rest, parse_unary, unary_level, parse_primary, primary_of, named, number, call,
  is_comparison, is_additive, is_multiplicative,
}
use tsql.Base.{◌≢◌, err}
use tsql.Base.Bytes.{Bytes}
use tsql.Parser.Lexer.{out_of_fuel}
use tsql.Parser.Statements.{parse}
use tsql.Parser.Grammar.{Level, Spells, IsName, word, mark}
use tsql.Parser.Grammar.Follow.{close-FreeOr}
use tsql.Parser.Grammar.Complete.{parse_expr-Spells}
use tsql.Parser.Total.Whole.{parse-ne-out_of_fuel}
use tsql.Executor.Expr.{in_list, more_exprs, no_exprs}
use tsql.Parser.Grammar.{SpellsItems}
use tsql.Examples.Host.{host}

abbrev numeral : String → Lexeme
numeral s = lexeme tok_num s

abbrev ending : Tokens
ending = lexeme tok_eof "" ∷ []

abbrev column : String → Expr host
column s = col_ref (record { table = ""; name = s })

-- a or not b and c - 1 - 2 * 3 < d
precedence :
    parse_expr {P = host} (
      word "a"
      ∷ word "or"
      ∷ word "not"
      ∷ word "b"
      ∷ word "and"
      ∷ word "c"
      ∷ mark "-"
      ∷ numeral "1"
      ∷ mark "-"
      ∷ numeral "2"
      ∷ mark "*"
      ∷ numeral "3"
      ∷ mark "<"
      ∷ word "d"
      ∷ ending)
    ≡ ok (
      or (column "a") (
          and (not_expr (column "b")) (
            cmp "<"
              (binary "-"
                (binary "-" (column "c") (lit (int (pos 1))))
                (binary "*" (lit (int (pos 2))) (lit (int (pos 3)))))
              (column "d"))),
      ending,
    )
unfolding knot parse_or or_rest parse_and and_rest parse_not not_level parse_cmp cmp_rest parse_add
    parse_mul binary_rest parse_unary unary_level parse_primary primary_of named number call next
    is_token is_comparison is_additive is_multiplicative any contains_dot parse_int digits_from
precedence = refl

abbrev src : Bytes
src = b'a' ∷ b'(' ∷ b'b' ∷ []

parse-ne-out_of_fuel_example : parse {P = host} src ≢ err out_of_fuel
parse-ne-out_of_fuel_example = parse-ne-out_of_fuel src

column-Spells : (s : String) → IsName s → Spells Level.not_level (column s) (word s ∷ [])
column-Spells s n =
    Spells.not_up
      (Spells.cmp_up (Spells.add_up (Spells.mul_up (Spells.unary_up (Spells.column_rule s n)))))

abbrev Spelled : (s : String) → Type 0
Spelled s = Spells Level.not_level (column s) (word s ∷ [])

a-IsName : IsName "a"
a-IsName = record {
  ne_not = refl;
  ne_select = refl;
  ne_null = refl;
  ne_true = refl;
  ne_false = refl;
}

a-Spelled : Spelled "a"
a-Spelled = column-Spells "a" a-IsName

b-Spelled : Spelled "b"
b-Spelled =
    column-Spells "b"
      (record { ne_not = refl; ne_select = refl; ne_null = refl; ne_true = refl; ne_false = refl })

name-Spelled : {s : String} → Spelled s → Spells Level.or_level (column s) (word s ∷ [])
name-Spelled d = Spells.or_up (Spells.and_up d)

-- a or not b and a in (b, a)
abbrev mixed : Expr host
mixed = or (column "a") (
    and (not_expr (column "b"))
      (in_list (column "a") (more_exprs (column "b") (more_exprs (column "a") no_exprs)) false))

mixed-Spells : Spells Level.or_level mixed (
    word "a"
    ∷ word "or"
    ∷ word "not"
    ∷ word "b"
    ∷ word "and"
    ∷ word "a"
    ∷ word "in"
    ∷ mark "("
    ∷ word "b"
    ∷ mark ","
    ∷ word "a"
    ∷ mark ")"
    ∷ [])
mixed-Spells = Spells.or_rule (name-Spelled a-Spelled) (
    Spells.and_rule (Spells.and_up (Spells.not_rule b-Spelled)) (
      Spells.not_up (
        Spells.in_rule
          (Spells.add_up (Spells.mul_up (Spells.unary_up (Spells.column_rule "a" a-IsName))))
          (SpellsItems.next_item (name-Spelled b-Spelled)
            (SpellsItems.last_item (name-Spelled a-Spelled))))))

parse_expr-Spells_example :
    parse_expr (
      word "a"
      ∷ word "or"
      ∷ word "not"
      ∷ word "b"
      ∷ word "and"
      ∷ word "a"
      ∷ word "in"
      ∷ mark "("
      ∷ word "b"
      ∷ mark ","
      ∷ word "a"
      ∷ mark ")"
      ∷ mark ")"
      ∷ ending)
    ≡ ok (mixed, mark ")" ∷ ending)
parse_expr-Spells_example = parse_expr-Spells (mark ")") ending mixed-Spells close-FreeOr
