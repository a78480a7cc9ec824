-- ===== src/Parser/Total/Steps.antt =====
-- How the steps of the parser take tokens.
use tsql.Base.{ℕ, ◌≤◌, ◌<◌, ◌≡◌, refl, ap, ◌∙◌, arith, String, Bool, true, false}
use tsql.Base.{[], ◌∷◌, length, if◌then◌else◌, Result, ok, err}
use tsql.Parser.Lexer.{TokKind, tok_eof, tok_ident, tok_num, tok_str, tok_punct}
use tsql.Parser.Tokens.{Lexeme, Tokens, Parser, then_parse}
use tsql.Parser.Lexer.{ParseError, syntax_error}
use tsql.Parser.Tokens.{peek, next, is_kind, is_token, on_token, ident_or_err}

-- The last token is the end of the input.
abbrev pub IsClosed : Tokens → Type 0
IsClosed [] = ⊥
IsClosed (t ∷ []) = t.kind ≡ tok_eof
IsClosed (t ∷ u ∷ us) = IsClosed (u ∷ us)

-- The run is over within its fuel: it leaves fewer than `n` tokens, or is a syntax error.
pub data Ends {A : Type 0} (n : ℕ) : Result ParseError (A × Tokens) → Type 0 where
  ended : {a : A} {rest : Tokens} → IsClosed rest → length rest < n → Ends n (ok (a, rest))
  refused : Ends n (err syntax_error)

module _ {A : Type 0} where
  pub Ends_weaker : {m n : ℕ} {r : Result ParseError (A × Tokens)} → m ≤ n → Ends m r → Ends n r
  Ends_weaker h (ended c l) = ended c (omega (arith, h, l))
  Ends_weaker h refused = refused

  pub Ends-if :
      {n : ℕ} (b : Bool) {x y : Result ParseError (A × Tokens)}
      → (b ≡ true → Ends n x)
      → (b ≡ false → Ends n y)
      → Ends n (if b then x else y)
  Ends-if true hx hy = hx refl
  Ends-if false hx hy = hy refl

  pub Ends-then_parse :
      {B : Type 0} {m n : ℕ} {r : Result ParseError (A × Tokens)} {f : A → Parser B}
      → Ends n r
      → ((a : A) (rest : Tokens) → IsClosed rest → length rest < n → Ends m (f a rest))
      → Ends m (then_parse r f)
  Ends-then_parse (ended {a} {rest} c l) k = k a rest c l
  Ends-then_parse refused k = refused

pub next-IsClosed : (ts : Tokens) → IsClosed ts → IsClosed (next ts)
unfolding next
next-IsClosed [] c = c
next-IsClosed (t ∷ []) c = c
next-IsClosed (t ∷ u ∷ us) c = c

same_kind : (k l : TokKind) → is_kind k l ≡ true → k ≡ l
same_kind tok_eof tok_eof h = refl
same_kind tok_ident tok_ident h = refl
same_kind tok_num tok_num h = refl
same_kind tok_str tok_str h = refl
same_kind tok_punct tok_punct h = refl
same_kind _ _ h = cc

pub next_shorter :
    (k : TokKind) (ts : Tokens)
    → is_kind tok_eof k ≡ false
    → is_kind k (peek ts).kind ≡ true
    → IsClosed ts
    → length (next ts) < length ts
unfolding next
next_shorter k [] n h c = absurd c
next_shorter k (t ∷ []) n h c =
    cc (ap (λ (j : TokKind). is_kind tok_eof j) (same_kind k t.kind h ∙ c))
next_shorter k (t ∷ u ∷ us) n h c = omega arith

pub token-kind :
    (k : TokKind) (s : String) (t : Lexeme) → is_token k s t ≡ true → is_kind k t.kind ≡ true
unfolding is_token
token-kind k s t h = ground arith

module _ {A : Type 0} {n : ℕ} where
  -- Where the token is taken there are fewer tokens left.
  pub on_token-Ends :
      (k : TokKind) (s : String) (p q : Parser A) (ts : Tokens)
      → is_kind tok_eof k ≡ false
      → IsClosed ts
      → ((us : Tokens) → IsClosed us → length us < length ts → Ends n (p us))
      → Ends n (q ts)
      → Ends n (on_token k s p q ts)
  on_token-Ends k s p q ts h c hp hq =
      Ends-if (is_token k s (peek ts))
        (λ e.
          hp (next ts) (next-IsClosed ts c) (next_shorter k ts h (token-kind k s (peek ts) e) c))
        (λ e. hq)

pub ident_or_err-Ends : (ts : Tokens) → IsClosed ts → Ends (length ts) (ident_or_err ts)
unfolding ident_or_err
ident_or_err-Ends ts c =
    Ends-if (is_kind tok_ident (peek ts).kind)
      (λ e. ended (next-IsClosed ts c) (next_shorter tok_ident ts refl e c)) (λ e. refused)
