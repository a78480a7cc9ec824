-- ===== src/Parser/Total/Tables.antt =====
-- That CREATE and DROP TABLE are read to an end.
use tsql.Base.{ℕ, zero, suc, ◌≤◌, ◌<◌, ◌≡◌, refl, arith, String, true, false}
use tsql.Base.{none, some, length}
use tsql.Types.{valid_types}
use tsql.Executor.Catalog.{ColumnDef, CreateTable, DropTable}
use tsql.Parser.Lexer.{tok_ident, tok_punct}
use tsql.Parser.Tokens.{Tokens, Parser}
use tsql.Parser.Tokens.{peek, next, on_token, pure, ◌>>◌, ◌>>=◌, at_kw, commas}
use tsql.Parser.Tokens.{expect_punct, ident_or_err, expect_kw}
use tsql.Parser.Statements.{
  reference, with_reference, column_options, plain_column, parse_column_def,
}
use tsql.Parser.Total.Steps.{IsClosed, Ends, token-kind}
use tsql.Parser.Total.Takes.{
  Takes, Keeps, Takes→Keeps, Keeps-pure, Takes-refuse, Takes-bind, Keeps-bind, Keeps-on_token,
  Keeps-vacuous, Keeps-with_fuel, Keeps-if, Takes-commas, Takes-expect_punct, Takes-expect_kw,
  Takes-ident_or_err, next-Ends,
}

reference-Takes : {n : ℕ} → Takes n reference
reference-Takes {n} = Takes-bind Takes-ident_or_err λ table.
    Keeps-bind
      (Keeps-on_token n tok_punct "(" refl (omega arith)
        (Takes→Keeps (
          Takes-bind Takes-ident_or_err
            λ col. Takes→Keeps (Takes-bind (Takes-expect_punct ")") λ u. Keeps-pure (some col))))
        (Keeps-pure none))
      λ col. Keeps-pure (table, col)

option-Keeps :
    {m : ℕ} (kw : String) {p q : Parser ColumnDef}
    → Keeps m p
    → Keeps (suc m) q
    → Keeps (suc m) (on_token tok_ident kw p q)
option-Keeps {m} kw hp hq = Keeps-on_token m tok_ident kw refl (omega arith) hp hq

column_options-Keeps : (fuel m : ℕ) (cd : ColumnDef) → m < fuel → Keeps m (column_options fuel cd)
unfolding column_options
column_options-Keeps zero m cd f = absurd (omega (arith, f))
column_options-Keeps (suc fuel) zero cd f = Keeps-vacuous
column_options-Keeps (suc fuel) (suc m) cd f =
    let more = λ (d : ColumnDef). column_options-Keeps fuel m d (omega (arith, f)) in
    option-Keeps "primary"
      (Takes→Keeps (Takes-bind (Takes-expect_kw "key") λ u. more (record cd { primary = true })))
      (option-Keeps "not"
        (Takes→Keeps
          (Takes-bind (Takes-expect_kw "null") λ u. more (record cd { not_null = true })))
        (option-Keeps "auto_increment" (more (record cd { auto_inc = true })) (
          option-Keeps "unique" (more (record cd { unique = true })) (
            option-Keeps "references"
              (Takes→Keeps
                (Takes-bind reference-Takes λ (table, col). more (with_reference cd table col)))
              (Keeps-pure cd)))))

column_def-Takes : {n : ℕ} → Takes n parse_column_def
unfolding parse_column_def
column_def-Takes {n} = Takes-bind Takes-ident_or_err λ name. Takes→Keeps (
    Takes-bind Takes-ident_or_err λ type.
      Keeps-if (valid_types type)
        (Keeps-with_fuel (λ fuel. column_options fuel (plain_column name type))
          λ m b. column_options-Keeps (suc m) m (plain_column name type) (omega arith))
        (Takes→Keeps Takes-refuse))

-- A statement behind its first keyword.
module _ {A : Type 0} {n : ℕ} where
  pub expect_kw-Keeps : (kw : String) {p : Parser A} → Keeps n p → Keeps n (expect_kw kw >> p)
  expect_kw-Keeps kw hp = Takes→Keeps (Takes-bind (Takes-expect_kw kw) λ u. hp)

  pub expect_punct-Keeps : (s : String) {p : Parser A} → Keeps n p → Keeps n (expect_punct s >> p)
  expect_punct-Keeps s hp = Takes→Keeps (Takes-bind (Takes-expect_punct s) λ u. hp)

  pub ident-Keeps :
      {p : String → Parser A} → ((s : String) → Keeps n (p s)) → Keeps n (ident_or_err >>= p)
  ident-Keeps hp = Takes→Keeps (Takes-bind Takes-ident_or_err hp)

  -- Such a statement ends where its keyword stands.
  pub keyword-Ends :
      (kw : String) (p : Parser A) (ts : Tokens)
      → IsClosed ts
      → length ts ≤ suc n
      → at_kw kw ts ≡ true
      → Keeps n p
      → Ends (length ts) (p (next ts))
  keyword-Ends kw p ts c l e h =
      next-Ends tok_ident p ts refl (token-kind tok_ident kw (peek ts) e) c l h

abbrev pub create_body : Parser CreateTable
create_body = do
  expect_kw "table"
  name ← ident_or_err
  expect_punct "("
  cols ← commas parse_column_def
  expect_punct ")"
  pure (record { name = name; cols = cols })

pub create-Keeps : {n : ℕ} → Keeps n create_body
create-Keeps = expect_kw-Keeps "table" (
    ident-Keeps λ name. expect_punct-Keeps "(" (
      Takes→Keeps (
        Takes-bind (Takes-commas column_def-Takes)
          λ cols. expect_punct-Keeps ")" (Keeps-pure (record { name = name; cols = cols })))))

abbrev pub drop_body : Parser DropTable
drop_body = do
  expect_kw "table"
  if_exists ← on_token tok_ident "if" (expect_kw "exists" >> pure true) (pure false)
  name ← ident_or_err
  pure (record { name = name; if_exists = if_exists })

pub drop-Keeps : {n : ℕ} → Keeps n drop_body
drop-Keeps {n} = expect_kw-Keeps "table" (
    Keeps-bind
      (Keeps-on_token n tok_ident "if" refl (omega arith)
        (expect_kw-Keeps "exists" (Keeps-pure true)) (Keeps-pure false))
      λ if_exists. ident-Keeps λ name. Keeps-pure (record { name = name; if_exists = if_exists }))
