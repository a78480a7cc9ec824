-- ===== src/Parser/Grammar.antt =====
-- The grammar of expressions that the head of internal/parser/parser.go documents: OR < AND < NOT <
-- comparisons < arithmetic, as a relation between an expression and the tokens that spell it.
pub mod Follow
pub mod Steps
pub mod Levels
pub mod Rules
pub mod Primary
pub mod Lists
pub mod Complete
use tsql.Base.{ℕ, String, Bool, true, false, ◌≡◌, Option, some, List, [], ◌∷◌, ◌++◌, str_eq}
use tsql.Base.Int.{ℤ, pos}
use tsql.Platform.{Platform}
use tsql.Types.{null, int, float, text, bool}
use tsql.Executor.Expr.{Expr, lit, col_ref, func, cmp, is_null_test, and, or, not_expr, binary}
use tsql.Executor.Expr.{no_expr, an_expr, Exprs, no_exprs, more_exprs, in_list}
use tsql.Parser.Lexer.{tok_ident, tok_num, tok_str, tok_punct}
use tsql.Parser.Tokens.{Lexeme, lexeme, Tokens}
use tsql.Parser.Numbers.{contains_dot, parse_int}
use tsql.Parser.Expressions.{is_comparison, is_additive, is_multiplicative}

pub data Level : Type 0 where
  or_level and_level not_level cmp_level add_level mul_level unary_level primary_level : Level

abbrev pub word : String → Lexeme
word s = lexeme tok_ident s

abbrev pub mark : String → Lexeme
mark s = lexeme tok_punct s

-- An identifier that no rule reads as a keyword where an expression begins.
pub record IsName (s : String) : Type 0 where
  pub ne_not : str_eq s "not" ≡ false
  pub ne_select : str_eq s "select" ≡ false
  pub ne_null : str_eq s "null" ≡ false
  pub ne_true : str_eq s "true" ≡ false
  pub ne_false : str_eq s "false" ≡ false

mutual
  -- The tokens that spell an expression at a level, with a level of parentheses anywhere.
  pub data Spells {P : Platform} : Level → Expr P → Tokens → Type 0 where
    or_rule :
        {l r : Expr P} {ts us : Tokens}
        → Spells or_level l ts
        → Spells and_level r us
        → Spells or_level (or l r) (ts ++ word "or" ∷ us)
    or_up : {e : Expr P} {ts : Tokens} → Spells and_level e ts → Spells or_level e ts
    and_rule :
        {l r : Expr P} {ts us : Tokens}
        → Spells and_level l ts
        → Spells not_level r us
        → Spells and_level (and l r) (ts ++ word "and" ∷ us)
    and_up : {e : Expr P} {ts : Tokens} → Spells not_level e ts → Spells and_level e ts
    not_rule :
        {e : Expr P} {ts : Tokens}
        → Spells not_level e ts
        → Spells not_level (not_expr e) (word "not" ∷ ts)
    not_up : {e : Expr P} {ts : Tokens} → Spells cmp_level e ts → Spells not_level e ts
    cmp_rule :
        {l r : Expr P} {ts us : Tokens} (o : String)
        → is_comparison (mark o) ≡ true
        → Spells add_level l ts
        → Spells add_level r us
        → Spells cmp_level (cmp o l r) (ts ++ mark o ∷ us)
    is_null_rule :
        {e : Expr P} {ts : Tokens}
        → Spells add_level e ts
        → Spells cmp_level (is_null_test e false) (ts ++ word "is" ∷ word "null" ∷ [])
    is_not_null_rule :
        {e : Expr P} {ts : Tokens}
        → Spells add_level e ts
        → Spells cmp_level (is_null_test e true) (ts ++ word "is" ∷ word "not" ∷ word "null" ∷ [])
    in_rule :
        {e : Expr P} {es : Exprs P} {ts us : Tokens}
        → Spells add_level e ts
        → SpellsItems es us
        → Spells cmp_level (in_list e es false) (ts ++ word "in" ∷ mark "(" ∷ (us ++ mark ")" ∷ []))
    not_in_rule :
        {e : Expr P} {es : Exprs P} {ts us : Tokens}
        → Spells add_level e ts
        → SpellsItems es us
        → Spells cmp_level
            (in_list e es true)
            (ts ++ word "not" ∷ word "in" ∷ mark "(" ∷ (us ++ mark ")" ∷ []))
    cmp_up : {e : Expr P} {ts : Tokens} → Spells add_level e ts → Spells cmp_level e ts
    add_rule :
        {l r : Expr P} {ts us : Tokens} (o : String)
        → is_additive (mark o) ≡ true
        → Spells add_level l ts
        → Spells mul_level r us
        → Spells add_level (binary o l r) (ts ++ mark o ∷ us)
    add_up : {e : Expr P} {ts : Tokens} → Spells mul_level e ts → Spells add_level e ts
    mul_rule :
        {l r : Expr P} {ts us : Tokens} (o : String)
        → is_multiplicative (mark o) ≡ true
        → Spells mul_level l ts
        → Spells unary_level r us
        → Spells mul_level (binary o l r) (ts ++ mark o ∷ us)
    mul_up : {e : Expr P} {ts : Tokens} → Spells unary_level e ts → Spells mul_level e ts
    minus_rule :
        {e : Expr P} {ts : Tokens}
        → Spells unary_level e ts
        → Spells unary_level (binary "-" (lit (int (pos 0))) e) (mark "-" ∷ ts)
    unary_up : {e : Expr P} {ts : Tokens} → Spells primary_level e ts → Spells unary_level e ts
    parens_rule :
        {e : Expr P} {ts : Tokens}
        → Spells or_level e ts
        → Spells primary_level e (mark "(" ∷ (ts ++ mark ")" ∷ []))
    int_rule :
        (s : String) (i : ℤ)
        → contains_dot s ≡ false
        → parse_int s ≡ some i
        → Spells primary_level (lit (int i)) (lexeme tok_num s ∷ [])
    float_rule :
        (s : String) (f : P.Float)
        → contains_dot s ≡ true
        → P.parse_float s ≡ some f
        → Spells primary_level (lit (float f)) (lexeme tok_num s ∷ [])
    text_rule : (s : String) → Spells primary_level (lit (text s)) (lexeme tok_str s ∷ [])
    null_rule : Spells primary_level (lit null) (word "null" ∷ [])
    true_rule : Spells primary_level (lit (bool true)) (word "true" ∷ [])
    false_rule : Spells primary_level (lit (bool false)) (word "false" ∷ [])
    column_rule :
        (s : String)
        → IsName s
        → Spells primary_level (col_ref (record { table = ""; name = s })) (word s ∷ [])
    qualified_rule :
        (t s : String)
        → IsName t
        → Spells primary_level
            (col_ref (record { table = t; name = s }))
            (word t ∷ mark "." ∷ word s ∷ [])
    star_rule :
        (s : String)
        → IsName s
        → Spells primary_level (func s true no_expr) (word s ∷ mark "(" ∷ mark "*" ∷ mark ")" ∷ [])
    call_rule :
        (s : String)
        → IsName s
        → Spells primary_level (func s false no_expr) (word s ∷ mark "(" ∷ mark ")" ∷ [])
    call_with_rule :
        {e : Expr P} {ts : Tokens} (s : String)
        → IsName s
        → Spells or_level e ts
        → Spells primary_level
            (func s false (an_expr e))
            (word s ∷ mark "(" ∷ (ts ++ mark ")" ∷ []))

  -- The items of IN, with commas between.
  pub data SpellsItems {P : Platform} : Exprs P → Tokens → Type 0 where
    last_item :
        {e : Expr P} {ts : Tokens} → Spells or_level e ts → SpellsItems (more_exprs e no_exprs) ts
    next_item :
        {e : Expr P} {es : Exprs P} {ts us : Tokens}
        → Spells or_level e ts
        → SpellsItems es us
        → SpellsItems (more_exprs e es) (ts ++ mark "," ∷ us)
