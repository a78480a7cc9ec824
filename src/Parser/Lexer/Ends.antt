-- ===== src/Parser/Lexer/Ends.antt =====
-- On the loop of lex: that it comes to an end on every source.
use tsql.Base.{ℕ, zero, suc, ◌≤◌, ◌≡◌, refl, ap, arith, Bool, true, Option, none, some}
use tsql.Base.{[], ◌∷◌, length, ◌==◌, Bool-cases, Option-cases, inl, inr}
use tsql.Base.{some-injective}
use tsql.Base.Bytes.{Bytes}
use mathlib.Core.Path.{subst}
use tsql.Parser.Lexer.{Token, is_digit, is_ident_start, is_ident_char, is_punct, is_space}
use tsql.Parser.Lexer.{span, with_byte, lex_string, fraction, lex_number, lex_punct, is_pair}
use tsql.Parser.Lexer.{lex_round, with_token, lex_from}

span-length : (p : ℕ → Bool) (cs : Bytes) → length (span p cs).1 ≤ length cs
unfolding span
span-length p [] = omega arith
span-length p (c ∷ cs) = elim (Bool-cases (p c)) [
  | inl h ↦ rw h (omega (arith, span-length p cs))
  | inr h ↦ rw h (omega arith)
]

with_byte-rest :
    (c : ℕ) (o : Option (Bytes × Bytes)) (s rest : Bytes)
    → with_byte c o ≡ some (s, rest)
    → (t : Bytes) × (o ≡ some (t, rest))
with_byte-rest c none s rest h = cc
with_byte-rest c (some (t, r)) s rest h =
    (t, ap (λ (q : Bytes × Bytes). some (t, q.1)) (some-injective h))

lex_string-length : (cs s rest : Bytes) → lex_string cs ≡ some (s, rest) → length rest ≤ length cs
unfolding lex_string
lex_string-length [] s rest h = cc
lex_string-length (d ∷ []) s rest h = elim (Bool-cases (d == 39)) [
  | inl e ↦ omega (arith, ap (λ (q : Bytes × Bytes). length q.1) (some-injective (rw e at h)))
  | inr e ↦ absurd (ground (arith, e, h))
]
lex_string-length (d ∷ e ∷ cs) s rest h = elim (Bool-cases (d == 39)) [
  | inl q ↦ elim (Bool-cases (e == 39)) [
    | inl r ↦
        let (t, k) = with_byte-rest 39 (lex_string cs) s rest (rw r at (rw q at h)) in
        omega (arith, lex_string-length cs t rest k)
    | inr r ↦
        let same = some-injective (rw r at (rw q at h)) in
        omega (arith, ap (λ (p : Bytes × Bytes). length p.1) same)
  ]
  | inr q ↦
      let (t, k) = with_byte-rest d (lex_string (e ∷ cs)) s rest (rw q at h) in
      omega (arith, lex_string-length (e ∷ cs) t rest k)
]

fraction-length : (cs : Bytes) → length (fraction cs).1 ≤ length cs
fraction-length [] = omega arith
fraction-length (c ∷ cs) = elim (Bool-cases (c == b'.')) [
  | inl h ↦ rw h (omega (arith, span-length is_digit cs))
  | inr h ↦ rw h (omega arith)
]

lex_number-length :
    (c : ℕ) (cs : Bytes) → is_digit c ≡ true → length (lex_number (c ∷ cs)).1 ≤ length cs
unfolding lex_number span
lex_number-length c cs h =
    rw h (omega (arith, fraction-length (span is_digit cs).1, span-length is_digit cs))

lex_punct-length : (c : ℕ) (cs : Bytes) → length (lex_punct c cs).1 ≤ length cs
unfolding lex_punct
lex_punct-length c [] = omega arith
lex_punct-length c (d ∷ cs) = elim (Bool-cases (is_pair c d)) [
  | inl h ↦ rw h (omega arith)
  | inr h ↦ rw h (omega arith)
]

-- What a round leaves is not longer than what stood behind its first byte.
abbrev IsShort : ℕ → Option (Option Token × Bytes) → Type 0
IsShort n none = Unit {0}
IsShort n (some (t, rest)) = length rest ≤ n

lex_round-IsShort : (c : ℕ) (cs : Bytes) → IsShort (length cs) (lex_round c cs)
unfolding lex_round
lex_round-IsShort c cs = elim (Bool-cases (is_space c)) [
  | inl a ↦ rw a (omega arith)
  | inr a ↦ rw a (elim (Bool-cases (c == 39)) [
    | inl b ↦ rw b (elim (Option-cases (lex_string cs)) [
      | inl q ↦ rw q tt
      | inr ((t, rest), q) ↦ rw q (lex_string-length cs t rest q)
    ])
    | inr b ↦ rw b (elim (Bool-cases (is_digit c)) [
      | inl d ↦ rw d (lex_number-length c cs d)
      | inr d ↦ rw d (elim (Bool-cases (is_ident_start c)) [
        | inl f ↦ rw f (span-length is_ident_char cs)
        | inr f ↦ rw f (elim (Bool-cases (is_punct c)) [
          | inl g ↦ rw g (lex_punct-length c cs)
          | inr g ↦ rw g tt
        ])
      ])
    ])
  ])
]

pub round-shorter :
    (c : ℕ) (cs rest : Bytes) (t : Option Token)
    → lex_round c cs ≡ some (t, rest)
    → length rest ≤ length cs
round-shorter c cs rest t h = subst (IsShort (length cs)) h (lex_round-IsShort c cs)

-- The loop of lex ends on every source: with as many rounds as the source has bytes, or any number
-- above that, it gives the same tokens or the same syntax error.
pub lex_from-enough :
    (m n : ℕ) (src : Bytes) → length src ≤ m → length src ≤ n → lex_from m src ≡ lex_from n src
unfolding lex_from
lex_from-enough m n [] k l = refl
lex_from-enough zero n (c ∷ cs) k l = absurd (omega (arith, k))
lex_from-enough (suc m) zero (c ∷ cs) k l = absurd (omega (arith, l))
lex_from-enough (suc m) (suc n) (c ∷ cs) k l = elim (Option-cases (lex_round c cs)) [
  | inl e ↦ rw (e, lex_from) refl
  | inr ((t, rest), e) ↦
      let shorter = round-shorter c cs rest t e in
      rw (e, lex_from)
        (ap (with_token t)
          (lex_from-enough m n rest (omega (arith, k, shorter)) (omega (arith, l, shorter))))
]
