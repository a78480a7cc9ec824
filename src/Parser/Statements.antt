-- ===== src/Parser/Statements.antt =====
-- parseStatement and Parse of internal/parser/parser.go.
use tsql.Base.{ℕ, zero, suc, String, true, false, Option, none, some}
use tsql.Base.{List, [], length, if◌then◌else◌, Result, ok, err}
use tsql.Base.Bytes.{Bytes}
use tsql.Platform.{Platform}
use tsql.Types.{ColumnType, valid_types}
use tsql.Executor.Expr.{Expr, Exprs}
use tsql.Executor.Catalog.{ColumnDef, CreateTable, DropTable}
use tsql.Executor.Insert.{Insert}
use tsql.Executor.Modify.{Update, Delete}
use tsql.Executor.Statement.{
  Statement, create_table, drop_table, insert, select_rows, update, delete, begin, commit, rollback,
}
use tsql.Parser.Lexer.{tok_eof, tok_punct, Token, ParseError, syntax_error, lex}
use tsql.Parser.Tokens.{Tokens, Parser, then_parse, ◌>>=◌, ◌>>◌, pure, refuse}
use tsql.Parser.Tokens.{exhausted, peek, next, skip, is_kind, is_token, at_kw, on_punct}
use tsql.Parser.Tokens.{on_kw, expect_punct, expect_kw, ident_or_err, commas, with_fuel}
use tsql.Parser.Tokens.{lexemes}
use tsql.Parser.Lexer.{syntax_error}
use tsql.Parser.Expressions.{Knot, exprs_of}
use tsql.Parser.Selects.{condition, parse_select, knot}

-- REFERENCES, behind the keyword: the parent table and the column, where it is given.
abbrev pub reference : Parser (String × Option String)
reference = do
  table ← ident_or_err
  col ← on_punct "(" (ident_or_err >>= λ c. expect_punct ")" >> pure (some c)) (pure none)
  pure (table, col)

-- RefTable is set, and RefCol only where a column is given.
abbrev pub with_reference : ColumnDef → String → Option String → ColumnDef
with_reference cd table none = record cd { ref_table = table }
with_reference cd table (some col) = record cd { ref_table = table; ref_col = col }

-- The loop over the options of a column.
unfoldable pub column_options : ℕ → ColumnDef → Parser ColumnDef
column_options zero cd = exhausted
column_options (suc fuel) cd =
    on_kw "primary" (expect_kw "key" >> column_options fuel (record cd { primary = true })) (
      on_kw "not" (expect_kw "null" >> column_options fuel (record cd { not_null = true })) (
        on_kw "auto_increment" (column_options fuel (record cd { auto_inc = true })) (
          on_kw "unique" (column_options fuel (record cd { unique = true })) (
            on_kw "references"
              (reference >>= λ (table, col). column_options fuel (with_reference cd table col))
              (pure cd)))))

abbrev pub plain_column : String → ColumnType → ColumnDef
plain_column name type = record {
  name = name;
  type = type;
  primary = false;
  not_null = false;
  auto_inc = false;
  unique = false;
  ref_table = "";
  ref_col = "";
}

unfoldable pub parse_column_def : Parser ColumnDef
parse_column_def = do
  name ← ident_or_err
  type ← ident_or_err
  (if valid_types type
      then with_fuel (λ fuel. column_options fuel (plain_column name type))
      else refuse)

unfoldable pub parse_create : Parser CreateTable
parse_create = do
  skip
  expect_kw "table"
  name ← ident_or_err
  expect_punct "("
  cols ← commas parse_column_def
  expect_punct ")"
  pure (record { name = name; cols = cols })

unfoldable pub parse_drop : Parser DropTable
parse_drop = do
  skip
  expect_kw "table"
  if_exists ← on_kw "if" (expect_kw "exists" >> pure true) (pure false)
  name ← ident_or_err
  pure (record { name = name; if_exists = if_exists })

module _ {P : Platform} where
  -- The items of a row of VALUES; there may be none.
  abbrev pub row_items : Knot P → Parser (List (Expr P))
  row_items k ts = if is_token tok_punct ")" (peek ts) then ok ([], ts) else commas k.expr ts

  unfoldable pub parse_row : Knot P → Parser (Exprs P)
  parse_row k = do expect_punct "("; row ← row_items k; expect_punct ")"; pure (exprs_of row)

  unfoldable pub parse_insert : Knot P → Parser (Insert P)
  parse_insert k = do
    skip
    expect_kw "into"
    table ← ident_or_err
    cols ← on_punct "(" (commas ident_or_err >>= λ cols. expect_punct ")" >> pure cols) (pure [])
    expect_kw "values"
    rows ← commas (parse_row k)
    pure (record { table = table; cols = cols; rows = rows })

  abbrev pub assignment : Knot P → Parser (String × Expr P)
  assignment k = do col ← ident_or_err; expect_punct "="; e ← k.expr; pure (col, e)

  unfoldable pub parse_update : Knot P → Parser (Update P)
  parse_update k = do
    skip
    table ← ident_or_err
    expect_kw "set"
    sets ← commas (assignment k)
    filter ← condition "where" k.expr
    pure (record { table = table; sets = sets; filter = filter })

  unfoldable pub parse_delete : Knot P → Parser (Delete P)
  parse_delete k = do
    skip
    expect_kw "from"
    table ← ident_or_err
    filter ← condition "where" k.expr
    pure (record { table = table; filter = filter })

  -- START TRANSACTION, behind START.
  abbrev pub started : Parser (Statement P)
  started = expect_kw "transaction" >> pure begin

  unfoldable pub parse_statement : Knot P → Parser (Statement P)
  parse_statement k ts =
      if at_kw "create" ts
      then then_parse (parse_create ts) (λ st. pure (create_table st))
      else if at_kw "drop" ts
      then then_parse (parse_drop ts) (λ st. pure (drop_table st))
      else if at_kw "insert" ts
      then then_parse (parse_insert k ts) (λ st. pure (insert st))
      else if at_kw "select" ts
      then then_parse (parse_select k ts) (λ st. pure (select_rows st))
      else if at_kw "update" ts
      then then_parse (parse_update k ts) (λ st. pure (update st))
      else if at_kw "delete" ts
      then then_parse (parse_delete k ts) (λ st. pure (delete st))
      else if at_kw "begin" ts
      then ok (begin, next ts)
      else if at_kw "start" ts
      then started (next ts)
      else if at_kw "commit" ts
      then ok (commit, next ts)
      else if at_kw "rollback" ts
      then ok (rollback, next ts)
      else err syntax_error

  -- A trailing semicolon is allowed, and nothing behind it.
  unfoldable pub finish : Statement P → Tokens → Result ParseError (Statement P)
  finish st ts =
      let rest = if is_token tok_punct ";" (peek ts) then next ts else ts in
      if is_kind tok_eof (peek rest).kind then ok st else err syntax_error

  abbrev pub finished : Result ParseError (Statement P × Tokens) → Result ParseError (Statement P)
  finished (ok (st, ts)) = finish st ts
  finished (err e) = err e

  unfoldable pub parse_tokens : Tokens → Result ParseError (Statement P)
  parse_tokens ts = finished (parse_statement (knot (length ts)) ts)

  abbrev pub parsed : Result ParseError (List Token) → Result ParseError (Statement P)
  parsed (err e) = err e
  parsed (ok ts) = parse_tokens (lexemes ts)

unfoldable pub parse : {P : Platform} → Bytes → Result ParseError (Statement P)
parse src = parsed (lex src)
