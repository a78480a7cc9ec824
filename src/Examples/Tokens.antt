-- ===== src/Examples/Tokens.antt =====
-- The theorem on the lexer at a concrete input, and tests of the lexer.
use tsql.Base.{◌≡◌, refl, some, [], ◌∷◌, ◌++◌}
use tsql.Base.Bytes.{Bytes}
use tsql.Parser.Lexer.{
  token, tok_eof, tok_ident, tok_num, tok_str, tok_punct, lex, with_token, lex_from, lex_round,
  span, is_punct, lex_punct, lex_number, to_lower, lex_string,
}
use tsql.Base.{any, ok, err}
use tsql.Parser.Lexer.{syntax_error}
use tsql.Parser.Lexer.Literals.{escaped, lex-escaped}

-- it's
abbrev its : Bytes
its = b'i' ∷ b't' ∷ 39 ∷ b's' ∷ []

-- , 42
abbrev behind : Bytes
behind = b',' ∷ 32 ∷ b'4' ∷ b'2' ∷ []

lex-escaped_example :
    lex (39 ∷ (escaped its ++ 39 ∷ behind)) ≡ with_token (some (token tok_str its)) (lex behind)
lex-escaped_example = lex-escaped its behind refl

-- A<=4.2, read
lex_pair :
    lex (b'A' ∷ b'<' ∷ b'=' ∷ b'4' ∷ b'.' ∷ b'2' ∷ [])
    ≡ ok (
        token tok_ident (b'a' ∷ [])
        ∷ token tok_punct (b'<' ∷ b'=' ∷ [])
        ∷ token tok_num (b'4' ∷ b'.' ∷ b'2' ∷ [])
        ∷ token tok_eof []
        ∷ [])
unfolding lex lex_from lex_round span is_punct any lex_punct lex_number to_lower
lex_pair = refl

-- A quote that is not closed is a syntax error.
unclosed : lex (39 ∷ b'a' ∷ []) ≡ err syntax_error
unfolding lex lex_from lex_round lex_string
unclosed = refl
