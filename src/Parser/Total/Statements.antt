-- ===== src/Parser/Total/Statements.antt =====
-- That the parser of statements comes to an end.
use tsql.Base.{ℕ, suc, ◌≤◌, refl, arith}
use tsql.Base.{[], length, Result}
use tsql.Platform.{Platform}
use tsql.Executor.Insert.{Insert}
use tsql.Executor.Modify.{Update, Delete}
use tsql.Executor.Statement.{
  Statement, create_table, drop_table, insert, select_rows, update, delete, begin, commit, rollback,
}
use tsql.Parser.Lexer.{tok_punct}
use tsql.Parser.Tokens.{Tokens, Parser, then_parse}
use tsql.Parser.Lexer.{ParseError}
use tsql.Parser.Tokens.{peek, is_token, on_token, pure, ◌>>◌, ◌>>=◌, at_kw, commas}
use tsql.Parser.Tokens.{expect_punct, ident_or_err, expect_kw}
use tsql.Parser.Expressions.{Knot, exprs_of}
use tsql.Parser.Selects.{condition}
use tsql.Parser.Statements.{
  parse_create, parse_drop, row_items, parse_row, parse_insert, assignment, parse_update,
  parse_delete, started, parse_statement,
}
use tsql.Parser.Total.Steps.{IsClosed, Ends, ended, refused, Ends-if, Ends-then_parse}
use tsql.Parser.Total.Takes.{
  Takes, Keeps, Takes→Keeps, Keeps-pure, Takes-bind, Keeps-bind, Keeps-on_token, Takes-commas,
  Takes-expect_punct, Takes-ident_or_err,
}
use tsql.Parser.Total.Operands.{IsBound}
use tsql.Parser.Total.Selects.{parse_select-Ends}
use tsql.Parser.Total.Clauses.{condition-Keeps}
use tsql.Parser.Total.Tables.{
  expect_kw-Keeps, expect_punct-Keeps, ident-Keeps, keyword-Ends, create_body, create-Keeps,
  drop_body, drop-Keeps,
}

module _ {P : Platform} {n : ℕ} (k : Knot P) (h : IsBound n k) where
  row_items-Keeps : Keeps n (row_items k)
  row_items-Keeps = record {
    run = λ ts c l.
        Ends-if (is_token tok_punct ")" (peek ts)) (λ e. ended c (omega arith))
          (λ e. (Takes→Keeps (Takes-commas h.expr)).run ts c l);
  }

  row-Takes : Takes n (parse_row k)
  unfolding parse_row
  row-Takes =
      Takes-bind (Takes-expect_punct "(")
        λ u. Keeps-bind row_items-Keeps λ row. expect_punct-Keeps ")" (Keeps-pure (exprs_of row))

  abbrev insert_body : Parser (Insert P)
  insert_body = do
    expect_kw "into"
    table ← ident_or_err
    cols ←
        on_token tok_punct "(" (commas ident_or_err >>= λ cols. expect_punct ")" >> pure cols)
          (pure [])
    expect_kw "values"
    rows ← commas (parse_row k)
    pure (record { table = table; cols = cols; rows = rows })

  insert-Keeps : Keeps n insert_body
  insert-Keeps = expect_kw-Keeps "into" (
      ident-Keeps λ table.
        Keeps-bind
          (Keeps-on_token n tok_punct "(" refl (omega arith)
            (Takes→Keeps (
              Takes-bind (Takes-commas Takes-ident_or_err)
                λ cols. expect_punct-Keeps ")" (Keeps-pure cols)))
            (Keeps-pure []))
          λ cols. expect_kw-Keeps "values" (
            Takes→Keeps (
              Takes-bind (Takes-commas row-Takes)
                λ rows. Keeps-pure (record { table = table; cols = cols; rows = rows }))))

  abbrev update_body : Parser (Update P)
  update_body = do
    table ← ident_or_err
    expect_kw "set"
    sets ← commas (assignment k)
    filter ← condition "where" k.expr
    pure (record { table = table; sets = sets; filter = filter })

  update-Keeps : Keeps n update_body
  update-Keeps = ident-Keeps λ table. expect_kw-Keeps "set" (
      Takes→Keeps (
        Takes-bind (Takes-commas item) λ sets.
          Keeps-bind (condition-Keeps "where" h.expr)
            λ filter. Keeps-pure (record { table = table; sets = sets; filter = filter })))
    where
      item : Takes n (assignment k)
      item =
          Takes-bind Takes-ident_or_err
            λ col. expect_punct-Keeps "=" (Takes→Keeps (Takes-bind h.expr λ e. Keeps-pure (col, e)))

  abbrev delete_body : Parser (Delete P)
  delete_body = do
    expect_kw "from"
    table ← ident_or_err
    filter ← condition "where" k.expr
    pure (record { table = table; filter = filter })

  delete-Keeps : Keeps n delete_body
  delete-Keeps = expect_kw-Keeps "from" (
      ident-Keeps λ table.
        Keeps-bind (condition-Keeps "where" h.expr)
          λ filter. Keeps-pure (record { table = table; filter = filter }))

  wrapped-Ends :
      {A : Type 0} {r : Result ParseError (A × Tokens)} (ts : Tokens) (f : A → Statement P)
      → Ends (length ts) r
      → Ends (length ts) (then_parse r (λ st. pure (f st)))
  wrapped-Ends ts f e = Ends-then_parse e λ st rest c l. ended c (omega (arith, l))

  pub parse_statement-Ends :
      (ts : Tokens) → IsClosed ts → length ts ≤ suc n → Ends (length ts) (parse_statement k ts)
  unfolding parse_statement parse_create parse_drop parse_insert parse_update parse_delete
  parse_statement-Ends ts c l =
      Ends-if (at_kw "create" ts)
        (λ e.
          wrapped-Ends ts create_table (keyword-Ends "create" create_body ts c l e create-Keeps))
        (λ _.
          Ends-if (at_kw "drop" ts)
            (λ e. wrapped-Ends ts drop_table (keyword-Ends "drop" drop_body ts c l e drop-Keeps))
            (λ _.
              Ends-if (at_kw "insert" ts)
                (λ e.
                  wrapped-Ends ts insert (keyword-Ends "insert" insert_body ts c l e insert-Keeps))
                (λ _.
                  Ends-if (at_kw "select" ts)
                    (λ e. wrapped-Ends ts select_rows (parse_select-Ends k h ts c l e))
                    (λ _.
                      Ends-if (at_kw "update" ts)
                        (λ e.
                          wrapped-Ends ts update
                            (keyword-Ends "update" update_body ts c l e update-Keeps))
                        (λ _.
                          Ends-if (at_kw "delete" ts)
                            (λ e.
                              wrapped-Ends ts delete
                                (keyword-Ends "delete" delete_body ts c l e delete-Keeps))
                            (λ _.
                              Ends-if (at_kw "begin" ts)
                                (λ e. keyword-Ends "begin" (pure begin) ts c l e (Keeps-pure begin))
                                (λ _.
                                  Ends-if (at_kw "start" ts)
                                    (λ e.
                                      keyword-Ends "start" started ts c l e
                                        (expect_kw-Keeps "transaction" (Keeps-pure begin)))
                                    (λ _.
                                      Ends-if (at_kw "commit" ts)
                                        (λ e.
                                          keyword-Ends "commit" (pure commit) ts c l e
                                            (Keeps-pure commit))
                                        (λ _.
                                          Ends-if (at_kw "rollback" ts)
                                            (λ e.
                                              keyword-Ends "rollback" (pure rollback) ts c l e
                                                (Keeps-pure rollback))
                                            (λ _. refused))))))))))
