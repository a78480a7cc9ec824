-- ===== src/Parser/Total/Takes.antt =====
-- The parsers that take tokens, and those that keep within them.
use tsql.Base.{ℕ, zero, suc, ◌≤◌, ◌<◌, ◌≡◌, refl, arith, String, Bool, true, false}
use tsql.Base.{[], ◌∷◌, length, if◌then◌else◌}
use tsql.Parser.Lexer.{TokKind, tok_eof, tok_ident, tok_punct}
use tsql.Parser.Tokens.{Tokens, Parser}
use tsql.Parser.Tokens.{peek, next, is_kind, on_token, ident_or_err, comma_list}
use tsql.Parser.Tokens.{pure, ◌>>=◌, commas, with_fuel, refuse, expect_punct, expect_kw}
use tsql.Parser.Total.Steps.{
  IsClosed, Ends, ended, refused, Ends_weaker, Ends-then_parse, next-IsClosed, next_shorter,
  on_token-Ends, ident_or_err-Ends,
}

-- On every input of at most `n` tokens, the run ends with fewer tokens left than it was given.
pub record Takes {A : Type 0} (n : ℕ) (p : Parser A) : Type 0 where
  pub run : (ts : Tokens) → IsClosed ts → length ts ≤ n → Ends (length ts) (p ts)

-- The run ends, perhaps with all tokens left.
pub record Keeps {A : Type 0} (n : ℕ) (p : Parser A) : Type 0 where
  pub run : (ts : Tokens) → IsClosed ts → length ts ≤ n → Ends (suc (length ts)) (p ts)

pub Takes-ident_or_err : {n : ℕ} → Takes n ident_or_err
Takes-ident_or_err = record { run = λ ts c l. ident_or_err-Ends ts c }

module _ {A : Type 0} where
  pub Takes-antitone : {m n : ℕ} {p : Parser A} → m ≤ n → Takes n p → Takes m p
  Takes-antitone h t = record { run = λ ts c l. t.run ts c (omega (arith, h, l)) }

  pub Keeps-antitone : {m n : ℕ} {p : Parser A} → m ≤ n → Keeps n p → Keeps m p
  Keeps-antitone h t = record { run = λ ts c l. t.run ts c (omega (arith, h, l)) }

  pub Takes→Keeps : {n : ℕ} {p : Parser A} → Takes n p → Keeps n p
  Takes→Keeps t = record { run = λ ts c l. Ends_weaker (omega arith) (t.run ts c l) }

  pub Keeps-pure : {n : ℕ} (a : A) → Keeps n (pure a)
  Keeps-pure a = record { run = λ ts c l. ended c (omega arith) }

  pub Takes-refuse : {n : ℕ} → Takes {A = A} n refuse
  Takes-refuse = record { run = λ ts c l. refused }

  pub Keeps-if :
      {n : ℕ} (b : Bool) {p q : Parser A} → Keeps n p → Keeps n q → Keeps n (if b then p else q)
  Keeps-if true hp hq = hp
  Keeps-if false hp hq = hq

  pub Takes-bind :
      {B : Type 0} {n : ℕ} {p : Parser A} {f : A → Parser B}
      → Takes n p
      → ((a : A) → Keeps n (f a))
      → Takes n (p >>= f)
  Takes-bind t k = record {
    run = λ ts c l.
        Ends-then_parse (t.run ts c l)
          λ a rest d m. Ends_weaker (omega (arith, m)) ((k a).run rest d (omega (arith, l, m)));
  }

  -- Behind a parser that takes tokens there is one fewer at least.
  pub Takes-then :
      {B : Type 0} {n : ℕ} {p : Parser A} {f : A → Parser B}
      → Takes (suc n) p
      → ((a : A) → Keeps n (f a))
      → Takes (suc n) (p >>= f)
  Takes-then t k = record {
    run = λ ts c l.
        Ends-then_parse (t.run ts c l)
          λ a rest d m. Ends_weaker (omega (arith, m)) ((k a).run rest d (omega (arith, l, m)));
  }

  pub Keeps-bind :
      {B : Type 0} {n : ℕ} {p : Parser A} {f : A → Parser B}
      → Keeps n p
      → ((a : A) → Keeps n (f a))
      → Keeps n (p >>= f)
  Keeps-bind t k = record {
    run = λ ts c l.
        Ends-then_parse (t.run ts c l)
          λ a rest d m. Ends_weaker (omega (arith, m)) ((k a).run rest d (omega (arith, l, m)));
  }

  pub Takes-on_token :
      {n : ℕ} (m : ℕ) (k : TokKind) (s : String) {p q : Parser A}
      → is_kind tok_eof k ≡ false
      → n ≤ suc m
      → Keeps m p
      → Takes n q
      → Takes n (on_token k s p q)
  Takes-on_token m k s {p} {q} e h hp hq = record {
    run = λ ts c l.
        on_token-Ends k s p q ts e c
          (λ us d s. Ends_weaker (omega (arith, s)) (hp.run us d (omega (arith, h, l, s))))
          (hq.run ts c l);
  }

  pub Keeps-on_token :
      {n : ℕ} (m : ℕ) (k : TokKind) (s : String) {p q : Parser A}
      → is_kind tok_eof k ≡ false
      → n ≤ suc m
      → Keeps m p
      → Keeps n q
      → Keeps n (on_token k s p q)
  Keeps-on_token m k s {p} {q} e h hp hq = record {
    run = λ ts c l.
        on_token-Ends k s p q ts e c
          (λ us d s. Ends_weaker (omega (arith, s)) (hp.run us d (omega (arith, h, l, s))))
          (hq.run ts c l);
  }

  -- There is no input of no tokens.
  pub Takes-vacuous : {p : Parser A} → Takes zero p
  Takes-vacuous = record { run = λ ts c l. absurd (no_tokens ts c l) }
    where
      no_tokens : (ts : Tokens) → IsClosed ts → length ts ≤ zero → ⊥
      no_tokens [] c l = c
      no_tokens (t ∷ ts) c l = omega (arith, l)

  pub Keeps-vacuous : {p : Parser A} → Keeps zero p
  Keeps-vacuous = Takes→Keeps Takes-vacuous

  -- A loop with a round of fuel for each token.
  pub Takes-with_fuel :
      {n : ℕ} (p : ℕ → Parser A) → ((m : ℕ) → m ≤ n → Takes m (p (suc m))) → Takes n (with_fuel p)
  Takes-with_fuel p h = record { run = λ ts c l. (h (length ts) l).run ts c (omega arith) }

  pub Keeps-with_fuel :
      {n : ℕ} (p : ℕ → Parser A) → ((m : ℕ) → m ≤ n → Keeps m (p (suc m))) → Keeps n (with_fuel p)
  Keeps-with_fuel p h = record { run = λ ts c l. (h (length ts) l).run ts c (omega arith) }

module _ {A : Type 0} where
  Takes-comma_list :
      (fuel n : ℕ) {p : Parser A} → n < fuel → Takes n p → Takes n (comma_list fuel p)
  unfolding comma_list
  Takes-comma_list zero n h t = absurd (omega (arith, h))
  Takes-comma_list (suc fuel) zero h t = Takes-vacuous
  Takes-comma_list (suc fuel) (suc n) h t = Takes-bind t λ a.
      Keeps-bind
        (Keeps-on_token n tok_punct "," refl (omega arith)
          (Takes→Keeps
            (Takes-comma_list fuel n (omega (arith, h)) (Takes-antitone (omega arith) t)))
          (Keeps-pure []))
        λ rest. Keeps-pure (a ∷ rest)

  pub Takes-commas : {n : ℕ} {p : Parser A} → Takes n p → Takes n (commas p)
  Takes-commas {p} t =
      Takes-with_fuel (λ fuel. comma_list fuel p)
        λ m l. Takes-comma_list (suc m) m (omega arith) (Takes-antitone l t)

pub Takes-expect_punct : {n : ℕ} (s : String) → Takes n (expect_punct s)
Takes-expect_punct {n} s =
    Takes-on_token n tok_punct s refl (omega arith) (Keeps-pure tt) Takes-refuse

pub Takes-expect_kw : {n : ℕ} (kw : String) → Takes n (expect_kw kw)
Takes-expect_kw {n} kw =
    Takes-on_token n tok_ident kw refl (omega arith) (Keeps-pure tt) Takes-refuse

-- A parser behind the current token, which is not the end.
pub next-Ends :
    {A : Type 0} {n : ℕ} (t : TokKind) (p : Parser A) (ts : Tokens)
    → is_kind tok_eof t ≡ false
    → is_kind t (peek ts).kind ≡ true
    → IsClosed ts
    → length ts ≤ suc n
    → Keeps n p
    → Ends (length ts) (p (next ts))
next-Ends t p ts e f c l kept =
    let shorter = next_shorter t ts e f c in
    Ends_weaker (omega (arith, shorter))
      (kept.run (next ts) (next-IsClosed ts c) (omega (arith, shorter, l)))
