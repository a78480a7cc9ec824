-- ===== src/Parser/Expressions.antt =====
-- The expression parser of internal/parser/parser.go, from parsePrimary to parseOr. The functions of
-- the source call one another in a circle through parseExpr and parseSelect: here each takes these
-- two as a `Knot`, and Selects ties it.
use tsql.Base.{ℕ, zero, suc, String, Bool, true, false, ◌&&◌, Option, none, some, List, [], ◌∷◌}
use tsql.Base.{any, str_eq, if◌then◌else◌, ok, err}
use tsql.Base.Int.{pos}
use tsql.Platform.{Platform}
use tsql.Types.{null, int, float, text, bool}
use tsql.Executor.Expr.{Expr, Exprs, OptExpr, Select, no_exprs, more_exprs, no_expr, an_expr}
use tsql.Executor.Expr.{lit, col_ref, func, cmp, is_null_test, and, or, not_expr, binary}
use tsql.Executor.Expr.{in_list, in_sub}
use tsql.Parser.Lexer.{TokKind, tok_eof, tok_ident, tok_num, tok_str, tok_punct}
use tsql.Parser.Tokens.{Lexeme, Parser, then_parse, ◌>>=◌, ◌>>◌, pure, refuse}
use tsql.Parser.Tokens.{exhausted, peek, next, skip, is_kind, is_token, at_kw, on_punct}
use tsql.Parser.Lexer.{out_of_fuel}
use tsql.Parser.Tokens.{on_kw, expect_punct, expect_kw, take_kw, ident_or_err, commas, with_fuel}
use tsql.Parser.Numbers.{contains_dot, parse_int}

-- parseExpr and parseSelect.
pub record Knot (P : Platform) : Type 0 where
  pub expr : Parser (Expr P)
  pub sel : Parser (Select P)

unfoldable pub exprs_of : {P : Platform} → List (Expr P) → Exprs P
exprs_of [] = no_exprs
exprs_of (e ∷ es) = more_exprs e (exprs_of es)

abbrev pub is_one_of : List String → Lexeme → Bool
is_one_of texts t = is_kind tok_punct t.kind && any (str_eq t.text) texts

-- "=", "<>", "<", "<=", ">" and ">="
unfoldable pub is_comparison : Lexeme → Bool
unfolding any
is_comparison = is_one_of ("=" ∷ "<>" ∷ "<" ∷ "<=" ∷ ">" ∷ ">=" ∷ [])

unfoldable pub is_additive : Lexeme → Bool
unfolding any
is_additive = is_one_of ("+" ∷ "-" ∷ [])

unfoldable pub is_multiplicative : Lexeme → Bool
unfolding any
is_multiplicative = is_one_of ("*" ∷ "/" ∷ "%" ∷ [])

module _ {P : Platform} where
  abbrev pub or_refuse : {A : Type 0} → Option A → (A → Expr P) → Parser (Expr P)
  or_refuse none f = refuse
  or_refuse (some a) f = pure (f a)

  -- A number token: a float where it has a point, and else an int64.
  unfoldable pub number : String → Parser (Expr P)
  number s =
      if contains_dot s
      then or_refuse (P.parse_float s) (λ f. lit (float f))
      else or_refuse (parse_int s) (λ n. lit (int n))

  -- The argument of a call, behind its opening parenthesis: Star and Arg of Func.
  abbrev pub call_arg : Knot P → Parser (Bool × OptExpr P)
  call_arg k = on_punct "*" (pure (true, no_expr)) (λ ts.
      if is_token tok_punct ")" (peek ts)
      then ok ((false, no_expr), ts)
      else then_parse (k.expr ts) (λ e. pure (false, an_expr e)))

  unfoldable pub call : Knot P → String → Parser (Expr P)
  call k name = do (star, arg) ← call_arg k; expect_punct ")"; pure (func name star arg)

  -- What an identifier begins, behind it.
  unfoldable pub named : Knot P → String → Parser (Expr P)
  named k name =
      if str_eq name "null"
      then pure (lit null)
      else if str_eq name "true"
      then pure (lit (bool true))
      else if str_eq name "false"
      then pure (lit (bool false))
      else on_punct "."
          (ident_or_err >>= λ col. pure (col_ref (record { table = name; name = col })))
          (on_punct "(" (call k name) (pure (col_ref (record { table = ""; name = name }))))

  abbrev pub parenthesised : Knot P → Parser (Expr P)
  parenthesised k = do e ← k.expr; expect_punct ")"; pure e

  -- The cases of parsePrimary on the kind of the current token.
  unfoldable pub primary_of : Knot P → TokKind → String → Parser (Expr P)
  primary_of k tok_num s = skip >> number s
  primary_of k tok_str s = skip >> pure (lit (text s))
  primary_of k tok_ident s = skip >> named k s
  primary_of k tok_punct s = if str_eq s "(" then skip >> parenthesised k else refuse
  primary_of k tok_eof s = refuse

  unfoldable pub parse_primary : Knot P → Parser (Expr P)
  parse_primary k ts = primary_of k (peek ts).kind (peek ts).text ts

  unfoldable pub unary_level : ℕ → Knot P → Parser (Expr P)
  unary_level zero k = exhausted
  unary_level (suc fuel) k =
      on_punct "-" (unary_level fuel k >>= λ x. pure (binary "-" (lit (int (pos 0))) x))
        (parse_primary k)

  unfoldable pub parse_unary : Knot P → Parser (Expr P)
  parse_unary k = with_fuel (λ fuel. unary_level fuel k)

  -- A loop over operands of the next level with operators between, which nest to the left.
  unfoldable pub binary_rest : ℕ → (Lexeme → Bool) → Parser (Expr P) → Expr P → Parser (Expr P)
  binary_rest zero is_op operand l ts = err out_of_fuel
  binary_rest (suc fuel) is_op operand l ts =
      let more =
        then_parse (operand (next ts))
          λ r. binary_rest fuel is_op operand (binary (peek ts).text l r) in
      if is_op (peek ts) then more else ok (l, ts)

  unfoldable pub parse_mul : Knot P → Parser (Expr P)
  parse_mul k = do
    l ← parse_unary k
    with_fuel (λ fuel. binary_rest fuel is_multiplicative (parse_unary k) l)

  unfoldable pub parse_add : Knot P → Parser (Expr P)
  parse_add k = do l ← parse_mul k; with_fuel (λ fuel. binary_rest fuel is_additive (parse_mul k) l)

  -- Behind IS.
  unfoldable pub is_rest : Expr P → Parser (Expr P)
  is_rest l = do negated ← take_kw "not"; expect_kw "null"; pure (is_null_test l negated)

  abbrev pub in_query : Knot P → Expr P → Bool → Parser (Expr P)
  in_query k l negated = do sub ← k.sel; expect_punct ")"; pure (in_sub l sub negated)

  abbrev pub in_items : Knot P → Expr P → Bool → Parser (Expr P)
  in_items k l negated = do
    list ← commas k.expr
    expect_punct ")"
    pure (in_list l (exprs_of list) negated)

  -- Behind IN.
  unfoldable pub in_rest : Knot P → Expr P → Bool → Parser (Expr P)
  in_rest k l negated = do
    expect_punct "("
    λ ts. if at_kw "select" ts then in_query k l negated ts else in_items k l negated ts

  -- A NOT that no IN follows is left where it is.
  abbrev pub not_in : Knot P → Expr P → Parser (Expr P)
  not_in k l ts = if at_kw "in" (next ts) then in_rest k l true (next (next ts)) else ok (l, ts)

  -- What may follow the left side of a comparison.
  unfoldable pub cmp_rest : Knot P → Expr P → Parser (Expr P)
  cmp_rest k l ts =
      if is_comparison (peek ts)
      then then_parse (parse_add k (next ts)) (λ r. pure (cmp (peek ts).text l r))
      else if at_kw "is" ts
      then is_rest l (next ts)
      else if at_kw "not" ts
      then not_in k l ts
      else if at_kw "in" ts
      then in_rest k l false (next ts)
      else ok (l, ts)

  unfoldable pub parse_cmp : Knot P → Parser (Expr P)
  parse_cmp k = parse_add k >>= cmp_rest k

  unfoldable pub not_level : ℕ → Knot P → Parser (Expr P)
  not_level zero k = exhausted
  not_level (suc fuel) k = on_kw "not" (not_level fuel k >>= λ x. pure (not_expr x)) (parse_cmp k)

  unfoldable pub parse_not : Knot P → Parser (Expr P)
  parse_not k = with_fuel (λ fuel. not_level fuel k)

  unfoldable pub and_rest : ℕ → Knot P → Expr P → Parser (Expr P)
  and_rest zero k l = exhausted
  and_rest (suc fuel) k l = on_kw "and" (parse_not k >>= λ r. and_rest fuel k (and l r)) (pure l)

  unfoldable pub parse_and : Knot P → Parser (Expr P)
  parse_and k = parse_not k >>= λ l. with_fuel (λ fuel. and_rest fuel k l)

  unfoldable pub or_rest : ℕ → Knot P → Expr P → Parser (Expr P)
  or_rest zero k l = exhausted
  or_rest (suc fuel) k l = on_kw "or" (parse_and k >>= λ r. or_rest fuel k (or l r)) (pure l)

  unfoldable pub parse_or : Knot P → Parser (Expr P)
  parse_or k = parse_and k >>= λ l. with_fuel (λ fuel. or_rest fuel k l)
