-- ===== src/Parser/Total/Whole.antt =====
-- That Parse comes to an end on every source.
use tsql.Base.{ℕ, zero, suc, ◌≡◌, ◌≢◌, ◌≤◌, ok, refl, arith}
use tsql.Parser.Lexer.Ends.{round-shorter}
use tsql.Base.{Option, none, some, List, [], ◌∷◌, length, if◌then◌else◌, Result, err}
use tsql.Base.{Option-cases, Bool-cases, inl, inr}
use tsql.Base.Bytes.{Bytes, text_of}
use tsql.Platform.{Platform}
use tsql.Executor.Statement.{Statement}
use tsql.Parser.Lexer.{tok_eof, tok_punct, Token, lex}
use tsql.Parser.Lexer.{lex_from, lex_round, with_token}
use tsql.Parser.Tokens.{Lexeme, Tokens}
use tsql.Parser.Lexer.{ParseError, out_of_fuel}
use tsql.Parser.Tokens.{peek, next, is_kind, is_token}
use tsql.Parser.Tokens.{lexemes}
use tsql.Parser.Selects.{knot}
use tsql.Parser.Statements.{finish, finished, parse_tokens, parsed, parse}
use tsql.Parser.Total.Steps.{IsClosed, Ends, ended, refused}
use tsql.Parser.Total.Selects.{knot-IsBound}
use tsql.Parser.Total.Statements.{parse_statement-Ends}

finish-ne : {P : Platform} (st : Statement P) (ts : Tokens) → finish st ts ≢ err out_of_fuel
unfolding finish
finish-ne st ts = elim (Bool-cases (is_kind tok_eof (peek rest).kind)) [
  | inl e ↦ rw e cc
  | inr e ↦ rw e cc
]
  where
    rest : Tokens
    rest = if is_token tok_punct ";" (peek ts) then next ts else ts

finished-ne :
    {P : Platform} {n : ℕ} {r : Result ParseError (Statement P × Tokens)}
    → Ends n r
    → finished r ≢ err out_of_fuel
finished-ne (ended {a} {rest} c l) = finish-ne a rest
finished-ne refused = cc

parse_tokens-ne :
    {P : Platform} (ts : Tokens) → IsClosed ts → parse_tokens {P = P} ts ≢ err out_of_fuel
unfolding parse_tokens
parse_tokens-ne ts c =
    finished-ne
      (parse_statement-Ends (knot (length ts)) (knot-IsBound (length ts)) ts c (omega arith))

IsClosed-cons : (t : Lexeme) (ts : Tokens) → IsClosed ts → IsClosed (t ∷ ts)
IsClosed-cons t [] c = absurd c
IsClosed-cons t (u ∷ us) c = c

-- What lex makes is closed, and it does not meet the end of its fuel.
abbrev HasEnd : Result ParseError (List Token) → Type 0
HasEnd (err e) = e ≢ out_of_fuel
HasEnd (ok ts) = IsClosed (lexemes ts)

with_token-HasEnd :
    (t : Option Token) (o : Result ParseError (List Token)) → HasEnd o → HasEnd (with_token t o)
unfolding lexemes
with_token-HasEnd t (err e) h = h
with_token-HasEnd none (ok ts) h = h
with_token-HasEnd (some t) (ok ts) h =
    IsClosed-cons (record { kind = t.kind; text = text_of t.text }) (lexemes ts) h

-- A round takes a byte, so a round of fuel for each byte is enough.
lex_from-HasEnd : (fuel : ℕ) (src : Bytes) → length src ≤ fuel → HasEnd (lex_from fuel src)
unfolding lex_from lexemes
lex_from-HasEnd fuel [] l = refl
lex_from-HasEnd zero (c ∷ cs) l = absurd (omega (arith, l))
lex_from-HasEnd (suc fuel) (c ∷ cs) l = elim (Option-cases (lex_round c cs)) [
  | inl e ↦ rw (e, lex_from) λ h. cc
  | inr ((t, rest), e) ↦
      let shorter = round-shorter c cs rest t e in
      rw (e, lex_from)
        (with_token-HasEnd t (lex_from fuel rest)
          (lex_from-HasEnd fuel rest (omega (arith, l, shorter))))
]

err-injective :
    {A : Type 0} (e f : ParseError) → ◌≡◌ {A = Result ParseError A} (err e) (err f) → e ≡ f
err-injective e f h = cc

parsed-ne :
    {P : Platform} (o : Result ParseError (List Token))
    → HasEnd o
    → parsed {P = P} o ≢ err out_of_fuel
parsed-ne (err e) h k = h (err-injective e out_of_fuel k)
parsed-ne (ok ts) h k = parse_tokens-ne (lexemes ts) h k

-- Parse comes to an end on every sequence of bytes: it gives a statement or a syntax error, and meets
-- the end of the fuel neither of the lexer's loop nor of the parser's.
pub parse-ne-out_of_fuel : {P : Platform} (src : Bytes) → parse {P = P} src ≢ err out_of_fuel
unfolding parse lex
parse-ne-out_of_fuel src = parsed-ne (lex src) (lex_from-HasEnd (length src) src (omega arith))
