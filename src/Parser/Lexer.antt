-- ===== src/Parser/Lexer.antt =====
-- The lexer of internal/parser/parser.go, over the bytes of the source.
pub mod Ends
pub mod Literals
use tsql.Base.{ℕ, zero, suc, ◌+◌, Bool, true, false, ◌&&◌, ◌||◌, Option, none, some}
use tsql.Base.{List, [], ◌∷◌, any, length, leb, ◌==◌, if◌then◌else◌, ◌>>?◌}
use tsql.Base.{Result, ok, err}
use tsql.Base.Bytes.{Bytes}

-- tokKind
pub data TokKind : Type 0 where
  tok_eof tok_ident tok_num tok_str tok_punct : TokKind

-- token, less its position, which only the messages of errors read.
pub record Token : Type 0 where
  pub kind : TokKind
  pub text : Bytes

abbrev pub token : TokKind → Bytes → Token
token kind text = record { kind = kind; text = text }

abbrev pub is_digit : ℕ → Bool
is_digit c = leb b'0' c && leb c b'9'

abbrev pub is_ident_start : ℕ → Bool
is_ident_start c = c == b'_' || (leb b'a' c && leb c b'z') || (leb b'A' c && leb c b'Z')

abbrev pub is_ident_char : ℕ → Bool
is_ident_char c = is_ident_start c || is_digit c

-- "(),=<>+-*%/;."
unfoldable pub is_punct : ℕ → Bool
is_punct c =
    any (λ d. d == c)
      (b'(' ∷ b')' ∷ b',' ∷ b'=' ∷ b'<' ∷ b'>' ∷ b'+' ∷ b'-' ∷ b'*' ∷ b'%' ∷ b'/' ∷ b';' ∷ b'.'
        ∷ [])

-- Space, tab, line feed and carriage return.
abbrev pub is_space : ℕ → Bool
is_space c = c == 32 || c == 9 || c == 10 || c == 13

-- The bytes at the front that pass a test, and the rest.
unfoldable pub span : (ℕ → Bool) → Bytes → Bytes × Bytes
span p [] = ([], [])
span p (c ∷ cs) = let (a, b) = span p cs in if p c then (c ∷ a, b) else ([], c ∷ cs)

-- strings.ToLower on the bytes of an identifier.
abbrev pub lower : ℕ → ℕ
lower c = if leb b'A' c && leb c b'Z' then c + 32 else c

unfoldable pub to_lower : Bytes → Bytes
to_lower [] = []
to_lower (c ∷ cs) = lower c ∷ to_lower cs

abbrev pub with_byte : ℕ → Option (Bytes × Bytes) → Option (Bytes × Bytes)
with_byte c none = none
with_byte c (some (s, rest)) = some (c ∷ s, rest)

-- The text of a string literal behind its opening quote, and what follows its closing quote; two
-- quotes stand for one.
unfoldable pub lex_string : Bytes → Option (Bytes × Bytes)
lex_string [] = none
lex_string (d ∷ []) = if d == 39 then some ([], []) else none
lex_string (d ∷ e ∷ rest) =
    let after_pair = lex_string rest in
    let after_byte = lex_string (e ∷ rest) in
    if d == 39
    then (if e == 39 then with_byte 39 after_pair else some ([], e ∷ rest))
    else with_byte d after_byte

-- The digits behind a decimal point, with the point.
abbrev pub fraction : Bytes → Bytes × Bytes
fraction [] = ([], [])
fraction (c ∷ cs) =
    if c == b'.' then (c ∷ (span is_digit cs).0, (span is_digit cs).1) else ([], c ∷ cs)

unfoldable pub lex_number : Bytes → Bytes × Bytes
lex_number input =
    let whole = span is_digit input in
    let part = fraction whole.1 in (tsql.Base.◌++◌ whole.0 part.0, part.1)

abbrev pub is_pair : ℕ → ℕ → Bool
is_pair c d = (c == b'<' && d == b'=') || (c == b'>' && d == b'=') || (c == b'<' && d == b'>')

unfoldable pub lex_punct : ℕ → Bytes → Bytes × Bytes
lex_punct c [] = (c ∷ [], [])
lex_punct c (d ∷ cs) = if is_pair c d then (c ∷ d ∷ [], cs) else (c ∷ [], d ∷ cs)

-- One round of lex at a byte and the bytes behind it: a token or none, and the rest; nothing for a
-- syntax error.
unfoldable pub lex_round : ℕ → Bytes → Option (Option Token × Bytes)
lex_round c cs =
    if is_space c
    then some (none, cs)
    else if c == 39
    then (lex_string cs >>? λ s. some (some (token tok_str s.0), s.1))
    else if is_digit c
    then (let n = lex_number (c ∷ cs) in some (some (token tok_num n.0), n.1))
    else if is_ident_start c
    then (let w = span is_ident_char cs in some (some (token tok_ident (to_lower (c ∷ w.0))), w.1))
    else if is_punct c
    then (let q = lex_punct c cs in some (some (token tok_punct q.0), q.1))
    else none

-- The errors of errf, and the end of the fuel of a loop, which has no counterpart in the program: a
-- loop of the program that meets it goes on for ever.
pub data ParseError : Type 0 where
  syntax_error out_of_fuel : ParseError

abbrev pub with_token :
    Option Token → Result ParseError (List Token) → Result ParseError (List Token)
with_token t (err e) = err e
with_token none (ok ts) = ok ts
with_token (some t) (ok ts) = ok (t ∷ ts)

-- The loop of lex; a round takes at least one byte, so the length of the source is fuel enough.
unfoldable pub lex_from : ℕ → Bytes → Result ParseError (List Token)
lex_from fuel [] = ok (token tok_eof [] ∷ [])
lex_from zero (c ∷ cs) = err out_of_fuel
lex_from (suc fuel) (c ∷ cs) = elim (lex_round c cs) [
  | none ↦ err syntax_error
  | some (t, rest) ↦ with_token t (lex_from fuel rest)
]

unfoldable pub lex : Bytes → Result ParseError (List Token)
lex src = lex_from (length src) src
