-- ===== src/Parser/Lexer/Literals.antt =====
-- On the string literals that lex reads.
use tsql.Base.{ℕ, ◌≡◌, refl, ap, ◌∙◌, sym, arith, false, some}
use tsql.Base.{[], ◌∷◌, ◌++◌, ◌==◌, ==_iff, if◌then◌else◌, Bool-cases, inl, inr}
use tsql.Base.Bytes.{Bytes}
use tsql.Base.{length, length-append}
use tsql.Parser.Lexer.Ends.{lex_from-enough}
use tsql.Parser.Lexer.{with_token, lex_from, lex, with_byte, lex_string, lex_round, token, tok_str}

-- A text as it stands between the quotes of a literal: every quote twice.
unfoldable pub escaped : Bytes → Bytes
escaped [] = []
escaped (c ∷ cs) = if c == 39 then 39 ∷ 39 ∷ escaped cs else c ∷ escaped cs

-- The bytes behind a literal do not begin with a quote.
abbrev pub IsApart : Bytes → Type 0
IsApart [] = Unit {0}
IsApart (c ∷ cs) = (c == 39) ≡ false

lex_string-other :
    (c : ℕ) (cs : Bytes) → (c == 39) ≡ false → lex_string (c ∷ cs) ≡ with_byte c (lex_string cs)
unfolding lex_string
lex_string-other c [] h = rw h refl
lex_string-other c (e ∷ cs) h = rw h refl

lex_string-escaped :
    (s rest : Bytes) → IsApart rest → lex_string (escaped s ++ 39 ∷ rest) ≡ some (s, rest)
unfolding escaped lex_string
lex_string-escaped [] [] h = refl
lex_string-escaped [] (d ∷ rest) h = rw h refl
lex_string-escaped (c ∷ cs) rest h = elim (Bool-cases (c == 39)) [
  | inl e ↦ rw e (
      rw (lex_string-escaped cs rest h)
        (ap (λ (q : ℕ). some (q ∷ cs, rest)) (sym ((==_iff c 39).0 e))))
  | inr e ↦ rw e (
      lex_string-other c (escaped cs ++ 39 ∷ rest) e
      ∙ ap (with_byte c) (lex_string-escaped cs rest h))
]

lex_round-escaped :
    (s rest : Bytes)
    → IsApart rest
    → lex_round 39 (escaped s ++ 39 ∷ rest) ≡ some (some (token tok_str s), rest)
unfolding lex_round
lex_round-escaped s rest h = rw (lex_string-escaped s rest h) refl

-- A text with its quotes doubled and a quote on either side is read back as one string token with
-- that text, whatever bytes it has, and the source behind it is read as if it stood alone, where it
-- does not begin with a quote.
pub lex-escaped :
    (s rest : Bytes)
    → IsApart rest
    → lex (39 ∷ (escaped s ++ 39 ∷ rest)) ≡ with_token (some (token tok_str s)) (lex rest)
unfolding lex lex_from
lex-escaped s rest h =
    rw (lex_round-escaped s rest h, lex_from)
      (ap (with_token (some (token tok_str s))) (
        lex_from-enough (length (escaped s ++ 39 ∷ rest)) (length rest) rest
          (omega (arith, length-append (escaped s) (39 ∷ rest))) (omega arith)))
