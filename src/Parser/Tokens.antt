-- ===== src/Parser/Tokens.antt =====
-- The parser type of internal/parser/parser.go, with what reads and tests one token.
use tsql.Base.{ℕ, zero, suc, String, Bool, true, false, ◌&&◌, List, [], ◌∷◌}
use tsql.Base.{map, length, str_eq, if◌then◌else◌, Result, ok, err}
use tsql.Base.Bytes.{text_of}
use tsql.Parser.Lexer.{TokKind, tok_eof, tok_ident, tok_num, tok_str, tok_punct, Token}
use tsql.Parser.Lexer.{ParseError, syntax_error, out_of_fuel}

-- A token with its text as a string.
pub record Lexeme : Type 0 where
  pub kind : TokKind
  pub text : String

abbrev pub lexeme : TokKind → String → Lexeme
lexeme kind text = record { kind = kind; text = text }

unfoldable pub lexemes : List Token → List Lexeme
unfolding text_of
lexemes ts = map (λ (t : Token). lexeme t.kind (text_of t.text)) ts

-- `toks[i:]`: the tokens from the current one on. The last one is the end of the input.
abbrev pub Tokens : Type 0
Tokens = List Lexeme

abbrev pub Parser : Type 0 → Type 0
Parser A = Tokens → Result ParseError (A × Tokens)

abbrev pub then_parse :
    {A B : Type 0}
    → Result ParseError (A × Tokens)
    → (A → Parser B)
    → Result ParseError (B × Tokens)
then_parse (ok (a, rest)) f = f a rest
then_parse (err e) f = err e

infixl 1 ◌>>=◌ ◌>>◌
abbrev pub ◌>>=◌ : {A B : Type 0} → Parser A → (A → Parser B) → Parser B
p >>= f = λ ts. then_parse (p ts) f

abbrev pub ◌>>◌ : {A B : Type 0} → Parser A → Parser B → Parser B
p >> q = p >>= λ _. q

abbrev pub pure : {A : Type 0} → A → Parser A
pure a ts = ok (a, ts)

-- A syntax error, as every call of errf returns.
abbrev pub refuse : {A : Type 0} → Parser A
refuse ts = err syntax_error

abbrev pub exhausted : {A : Type 0} → Parser A
exhausted ts = err out_of_fuel

abbrev pub peek : Tokens → Lexeme
peek [] = lexeme tok_eof ""
peek (t ∷ ts) = t

-- The position stays at the last token.
unfoldable pub next : Tokens → Tokens
next [] = []
next (t ∷ []) = t ∷ []
next (t ∷ u ∷ us) = u ∷ us

abbrev pub skip : Parser (Unit {0})
skip ts = ok (tt, next ts)

abbrev pub is_kind : TokKind → TokKind → Bool
is_kind tok_eof tok_eof = true
is_kind tok_ident tok_ident = true
is_kind tok_num tok_num = true
is_kind tok_str tok_str = true
is_kind tok_punct tok_punct = true
is_kind k l = false

-- A token of a kind with a text.
unfoldable pub is_token : TokKind → String → Lexeme → Bool
is_token k s t = is_kind k t.kind && str_eq t.text s

abbrev pub at_punct : String → Tokens → Bool
at_punct s ts = is_token tok_punct s (peek ts)

abbrev pub at_kw : String → Tokens → Bool
at_kw kw ts = is_token tok_ident kw (peek ts)

-- Where the token is there it is taken and `p` reads on, and else `q` reads.
abbrev pub on_token : {A : Type 0} → TokKind → String → Parser A → Parser A → Parser A
on_token k s p q ts = if is_token k s (peek ts) then p (next ts) else q ts

abbrev pub on_punct : {A : Type 0} → String → Parser A → Parser A → Parser A
on_punct s = on_token tok_punct s

abbrev pub on_kw : {A : Type 0} → String → Parser A → Parser A → Parser A
on_kw kw = on_token tok_ident kw

abbrev pub expect_punct : String → Parser (Unit {0})
expect_punct s = on_punct s (pure tt) refuse

abbrev pub expect_kw : String → Parser (Unit {0})
expect_kw kw = on_kw kw (pure tt) refuse

abbrev pub take_kw : String → Parser Bool
take_kw kw = on_kw kw (pure true) (pure false)

unfoldable pub ident_or_err : Parser String
ident_or_err ts =
    if is_kind tok_ident (peek ts).kind then ok ((peek ts).text, next ts) else err syntax_error

-- The loops over items with commas between: `for { item; if p.atPunct(",") { p.next(); continue };
-- break }`.
unfoldable pub comma_list : {A : Type 0} → ℕ → Parser A → Parser (List A)
comma_list zero p = exhausted
comma_list (suc fuel) p = do
  a ← p
  rest ← on_punct "," (comma_list fuel p) (pure [])
  pure (a ∷ rest)

-- A loop gets a round of fuel for each token that is left.
abbrev pub with_fuel : {A : Type 0} → (ℕ → Parser A) → Parser A
with_fuel p ts = p (suc (length ts)) ts

abbrev pub commas : {A : Type 0} → Parser A → Parser (List A)
commas p = with_fuel (λ fuel. comma_list fuel p)
