-- ===== src/Parser/Selects.antt =====
-- parseSelect, parseTableRef and parseOptionalAlias of internal/parser/parser.go, and the knot of the
-- recursion between queries and expressions.
use tsql.Base.{ℕ, zero, suc, String, Bool, true, false, ◌&&◌, not, Option, none, some}
use tsql.Base.{List, [], ◌∷◌, any, str_eq, if◌then◌else◌, ok, err}
use tsql.Base.Int.{ℤ, pos, ltb_ℤ}
use tsql.Platform.{Platform}
use tsql.Executor.Expr.{
  Expr, Exprs, OptExpr, Select, select, no_exprs, more_exprs, no_expr, an_expr,
}
use tsql.Executor.Expr.{TableRefs, no_tables, plain_table, derived_table}
use tsql.Executor.Expr.{OrderTerms, no_order, order_term}
use tsql.Parser.Lexer.{tok_ident, tok_num}
use tsql.Parser.Tokens.{Tokens, Parser, then_parse, ◌>>=◌, ◌>>◌, pure, refuse}
use tsql.Parser.Tokens.{exhausted, peek, next, skip, is_kind, at_kw, on_punct}
use tsql.Parser.Tokens.{on_kw, expect_punct, expect_kw, ident_or_err, commas, with_fuel}
use tsql.Parser.Lexer.{syntax_error}
use tsql.Parser.Numbers.{contains_dot, parse_int}
use tsql.Parser.Expressions.{Knot, exprs_of, parse_or}

-- refStopWords
unfoldable pub is_ref_stop_word : String → Bool
unfolding any
is_ref_stop_word w = any (str_eq w) (
    "where" ∷ "group" ∷ "order" ∷ "limit" ∷ "join" ∷ "inner" ∷ "left" ∷ "right" ∷ "outer" ∷ "cross"
    ∷ "on" ∷ "having" ∷ "in" ∷ "not" ∷ [])

-- fieldStopWords
unfoldable pub is_field_stop_word : String → Bool
unfolding any
is_field_stop_word w =
    any (str_eq w) ("from" ∷ "where" ∷ "group" ∷ "having" ∷ "order" ∷ "limit" ∷ [])

-- Whether the current token is an identifier other than the stop words.
abbrev pub at_alias : (String → Bool) → Tokens → Bool
at_alias stops ts = is_kind tok_ident (peek ts).kind && not (stops (peek ts).text)

-- An alias behind AS or by itself; `missing` where there is none.
abbrev pub alias_or : (String → Bool) → Parser String → Parser String
alias_or stops missing =
    on_kw "as" ident_or_err (λ ts. if at_alias stops ts then ident_or_err ts else missing ts)

unfoldable pub parse_optional_alias : Parser String
parse_optional_alias = alias_or is_field_stop_word (pure "")

unfoldable pub parse_limit : Parser ℤ
parse_limit ts =
    if is_kind tok_num (peek ts).kind && not (contains_dot (peek ts).text)
    then elim (parse_int (peek ts).text) [
      | none ↦ err syntax_error
      | some n ↦ if ltb_ℤ n (pos 0) then err syntax_error else ok (n, next ts)
    ]
    else err syntax_error

-- The kind of the join that the next tokens begin; a dangling INNER or LEFT is left where it is.
unfoldable pub join_kind : Parser (Option String)
join_kind ts =
    let outer = on_kw "outer" (pure tt) (pure tt) (next ts) in
    if at_kw "join" ts
    then ok (some "inner", next ts)
    else if at_kw "inner" ts
    then (if at_kw "join" (next ts) then ok (some "inner", next (next ts)) else ok (none, ts))
    else if at_kw "left" ts
    then then_parse outer
        (λ _ us. if at_kw "join" us then ok (some "left", next us) else ok (none, ts))
    else ok (none, ts)

-- A Parser (Option A) whose value decides whether the loop goes on.
abbrev pub while_some : {A B : Type 0} → Option A → (A → Parser B) → B → Parser B
while_some none f b = pure b
while_some (some a) f b = f a

-- TableRef
pub data TableRef (P : Platform) : Type 0 where
  plain : String → String → TableRef P
  derived : String → Select P → TableRef P

-- A list behind a keyword and BY; empty without it.
abbrev pub by_list : {A : Type 0} → String → Parser A → Parser (List A)
by_list kw item = on_kw kw (expect_kw "by" >> commas item) (pure [])

abbrev pub direction : Parser Bool
direction = on_kw "desc" (pure true) (on_kw "asc" (pure false) (pure false))

abbrev pub limit_clause : Parser (Option ℤ)
limit_clause = on_kw "limit" (parse_limit >>= λ n. pure (some n)) (pure none)

-- The clauses behind the tables: WHERE, GROUP BY, HAVING, ORDER BY and LIMIT.
abbrev pub Clauses : Platform → Type 0
Clauses P = OptExpr P × List (Expr P) × OptExpr P × List (Expr P × Bool) × Option ℤ

module _ {P : Platform} where
  abbrev pub add_table : TableRef P → TableRefs P → TableRefs P
  add_table (plain table alias) refs = plain_table table alias refs
  add_table (derived alias sub) refs = derived_table "" alias sub refs

  -- Behind the opening parenthesis of a derived table.
  unfoldable pub derived_ref : Knot P → Parser (TableRef P)
  derived_ref k ts =
      if at_kw "select" ts
      then then_parse (k.sel ts) (λ sub. do
        expect_punct ")"
        alias ← alias_or is_ref_stop_word (pure "")
        (if str_eq alias "" then refuse else pure (derived alias sub)))
      else err syntax_error

  unfoldable pub plain_ref : Parser (TableRef P)
  plain_ref = do
    name ← ident_or_err
    alias ← alias_or is_ref_stop_word (pure name)
    pure (plain name alias)

  unfoldable pub parse_table_ref : Knot P → Parser (TableRef P)
  parse_table_ref k = on_punct "(" (derived_ref k) plain_ref

  abbrev pub field : Knot P → Parser (Expr P × String)
  field k = do e ← k.expr; alias ← parse_optional_alias; pure (e, alias)

  abbrev pub fields_of : List (Expr P × String) → Exprs P
  fields_of [] = no_exprs
  fields_of ((e, alias) ∷ fs) = more_exprs e (fields_of fs)

  abbrev pub aliases_of : List (Expr P × String) → List String
  aliases_of [] = []
  aliases_of ((e, alias) ∷ fs) = alias ∷ aliases_of fs

  -- Star and the fields with their aliases.
  unfoldable pub select_list : Knot P → Parser (Bool × List (Expr P × String))
  select_list k = on_punct "*" (pure (true, [])) (commas (field k) >>= λ fs. pure (false, fs))

  -- A join: its table, its kind and its condition.
  abbrev pub join : Knot P → String → Parser (TableRef P × String × Expr P)
  join k kind = do ref ← parse_table_ref k; expect_kw "on"; on ← k.expr; pure (ref, kind, on)

  unfoldable pub joins : ℕ → Knot P → Parser (List (TableRef P × String × Expr P))
  joins zero k = exhausted
  joins (suc fuel) k = do
    kind ← join_kind
    while_some kind (λ kind. do j ← join k kind; js ← joins fuel k; pure (j ∷ js)) []

  abbrev pub joined_refs : List (TableRef P × String × Expr P) → TableRefs P
  joined_refs [] = no_tables
  joined_refs ((ref, kind, on) ∷ js) = add_table ref (joined_refs js)

  abbrev pub join_kinds : List (TableRef P × String × Expr P) → List String
  join_kinds [] = []
  join_kinds ((ref, kind, on) ∷ js) = kind ∷ join_kinds js

  abbrev pub join_ons : List (TableRef P × String × Expr P) → Exprs P
  join_ons [] = no_exprs
  join_ons ((ref, kind, on) ∷ js) = more_exprs on (join_ons js)

  -- A condition behind its keyword; nil without it.
  unfoldable pub condition : String → Parser (Expr P) → Parser (OptExpr P)
  condition kw expr = on_kw kw (expr >>= λ e. pure (an_expr e)) (pure no_expr)

  abbrev pub order_item : Knot P → Parser (Expr P × Bool)
  order_item k = do e ← k.expr; desc ← direction; pure (e, desc)

  abbrev pub order_of : List (Expr P × Bool) → OrderTerms P
  order_of [] = no_order
  order_of ((e, desc) ∷ terms) = order_term e desc (order_of terms)

  unfoldable pub clauses : Knot P → Parser (Clauses P)
  clauses k = do
    filter ← condition "where" k.expr
    group ← by_list "group" k.expr
    having ← condition "having" k.expr
    order ← by_list "order" (order_item k)
    limit ← limit_clause
    pure (filter, group, having, order, limit)

  abbrev pub select_of :
      Bool × List (Expr P × String)
      → TableRef P
      → List (TableRef P × String × Expr P)
      → Clauses P
      → Select P
  select_of (star, fs) ref js (filter, group, having, order, limit) =
      select (add_table ref (joined_refs js)) (join_ons js) (join_kinds js) star (fields_of fs)
        (aliases_of fs) filter (exprs_of group) having (order_of order) limit

  unfoldable pub parse_select : Knot P → Parser (Select P)
  parse_select k = do
    skip
    fs ← select_list k
    expect_kw "from"
    ref ← parse_table_ref k
    js ← with_fuel (λ fuel. joins fuel k)
    cs ← clauses k
    pure (select_of fs ref js cs)

  -- A round of fuel for each level of parentheses; the tokens of a statement are more than these.
  unfoldable pub knot : ℕ → Knot P
  unfolding parse_or parse_select
  knot zero = record { expr = exhausted; sel = exhausted }
  knot (suc fuel) = record { expr = parse_or (knot fuel); sel = parse_select (knot fuel) }

  abbrev pub parse_expr : Parser (Expr P)
  parse_expr = with_fuel (λ fuel. (knot fuel).expr)
