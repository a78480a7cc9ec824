-- ===== src/Parser/Grammar/Follow.antt =====
-- What may follow an expression, and what it begins with.
use tsql.Base.{String, true, false, ◌≡◌, refl, List, [], ◌∷◌, ◌++◌, str_eq, any}
use tsql.Base.{eq_iff, All, Bool-cases, inl, inr}
use mathlib.Core.Path.{subst}
use tsql.Base.{sym}
use tsql.Platform.{Platform}
use tsql.Executor.Expr.{Expr, Exprs}
use tsql.Parser.Lexer.{tok_ident, tok_punct}
use tsql.Parser.Tokens.{Lexeme, Tokens, is_token}
use tsql.Parser.Expressions.{is_comparison, is_additive, is_multiplicative}
use tsql.Parser.Grammar.{Level, Spells, SpellsItems, IsName, word, mark}

-- The token continues no primary expression.
abbrev pub FreePrimary : Lexeme → Type 0
FreePrimary u = (is_token tok_punct "." u ≡ false) × (is_token tok_punct "(" u ≡ false)

-- The token continues no product either, and so on for the levels below.
abbrev pub FreeMul : Lexeme → Type 0
FreeMul u = FreePrimary u × (is_multiplicative u ≡ false)

abbrev pub FreeAdd : Lexeme → Type 0
FreeAdd u = FreeMul u × (is_additive u ≡ false)

abbrev pub FreeCmp : Lexeme → Type 0
FreeCmp u =
    FreeAdd u
    × (is_comparison u ≡ false)
    × (is_token tok_ident "is" u ≡ false)
    × (is_token tok_ident "not" u ≡ false)
    × (is_token tok_ident "in" u ≡ false)

abbrev pub FreeAnd : Lexeme → Type 0
FreeAnd u = FreeCmp u × (is_token tok_ident "and" u ≡ false)

abbrev pub FreeOr : Lexeme → Type 0
FreeOr u = FreeAnd u × (is_token tok_ident "or" u ≡ false)

pub or-FreeAnd : FreeAnd (word "or")
unfolding is_token is_comparison is_additive is_multiplicative any
or-FreeAnd = ((((((refl, refl), refl), refl), refl, refl, refl, refl), refl))

pub and-FreeCmp : FreeCmp (word "and")
unfolding is_token is_comparison is_additive is_multiplicative any
and-FreeCmp = (((((refl, refl), refl), refl), refl, refl, refl, refl))

pub in-FreeAdd : FreeAdd (word "in")
unfolding is_token is_comparison is_additive is_multiplicative any
in-FreeAdd = (((refl, refl), refl), refl)

pub not-FreeAdd : FreeAdd (word "not")
unfolding is_token is_comparison is_additive is_multiplicative any
not-FreeAdd = (((refl, refl), refl), refl)

pub comma-FreeOr : FreeOr (mark ",")
unfolding is_token is_comparison is_additive is_multiplicative any
comma-FreeOr = ((((((refl, refl), refl), refl), refl, refl, refl, refl), refl), refl)

pub is-FreeAdd : FreeAdd (word "is")
unfolding is_token is_comparison is_additive is_multiplicative any
is-FreeAdd = (((refl, refl), refl), refl)

pub close-FreeOr : FreeOr (mark ")")
unfolding is_token is_comparison is_additive is_multiplicative any
close-FreeOr = ((((((refl, refl), refl), refl), refl, refl, refl, refl), refl), refl)

-- A property of all texts of a list holds of a text that is among them.
among :
    (P : String → Type 0) (o : String) (texts : List String)
    → any (str_eq o) texts ≡ true
    → All P texts
    → P o
unfolding any
among P o [] h all = cc
among P o (t ∷ ts) h all = elim (Bool-cases (str_eq o t)) [
  | inl e ↦ subst P (sym ((eq_iff o t).0 e)) all.0
  | inr e ↦ among P o ts (rw e at h) all.1
]

pub multiplicative-FreePrimary :
    (o : String) → is_multiplicative (mark o) ≡ true → FreePrimary (mark o)
unfolding is_multiplicative any is_token
multiplicative-FreePrimary o h =
    among (λ s. FreePrimary (mark s)) o ("*" ∷ "/" ∷ "%" ∷ []) h
      ((refl, refl), ((refl, refl), ((refl, refl), tt)))

pub additive-FreeMul : (o : String) → is_additive (mark o) ≡ true → FreeMul (mark o)
unfolding is_multiplicative is_additive any is_token
additive-FreeMul o h =
    among (λ s. FreeMul (mark s)) o ("+" ∷ "-" ∷ []) h
      (((refl, refl), refl), (((refl, refl), refl), tt))

pub comparison-FreeAdd : (o : String) → is_comparison (mark o) ≡ true → FreeAdd (mark o)
unfolding is_multiplicative is_additive is_comparison any is_token
comparison-FreeAdd o h =
    among (λ s. FreeAdd (mark s)) o ("=" ∷ "<>" ∷ "<" ∷ "<=" ∷ ">" ∷ ">=" ∷ []) h
      (
        (((refl, refl), refl), refl),
        (
          (((refl, refl), refl), refl),
          (
            (((refl, refl), refl), refl),
            (
              (((refl, refl), refl), refl),
              ((((refl, refl), refl), refl), ((((refl, refl), refl), refl), tt)),
            ),
          ),
        ),
      )

-- What a token is not, at which an expression of some level begins.
abbrev pub FirstOr : Lexeme → Type 0
FirstOr u =
    (is_token tok_ident "select" u ≡ false)
    × (is_token tok_punct "*" u ≡ false)
    × (is_token tok_punct ")" u ≡ false)

abbrev pub FirstCmp : Lexeme → Type 0
FirstCmp u = FirstOr u × (is_token tok_ident "not" u ≡ false)

abbrev pub FirstPrimary : Lexeme → Type 0
FirstPrimary u = FirstCmp u × (is_token tok_punct "-" u ≡ false)

abbrev pub First : Level → Lexeme → Type 0
First Level.or_level u = FirstOr u
First Level.and_level u = FirstOr u
First Level.not_level u = FirstOr u
First Level.cmp_level u = FirstCmp u
First Level.add_level u = FirstCmp u
First Level.mul_level u = FirstCmp u
First Level.unary_level u = FirstCmp u
First Level.primary_level u = FirstPrimary u

-- A spelling has a first token.
pub data Headed (P : Lexeme → Type 0) : Tokens → Type 0 where
  headed : {t : Lexeme} {ts : Tokens} → P t → Headed P (t ∷ ts)

Headed-append :
    {P : Lexeme → Type 0} {ts : Tokens} (us : Tokens) → Headed P ts → Headed P (ts ++ us)
Headed-append us (headed h) = headed h

Headed-map :
    {P Q : Lexeme → Type 0} {ts : Tokens} → ((t : Lexeme) → P t → Q t) → Headed P ts → Headed Q ts
Headed-map f (headed {t} h) = headed (f t h)

name_first : (s : String) → IsName s → FirstPrimary (word s)
unfolding is_token
name_first s n = (((n.ne_select, refl, refl), n.ne_not), refl)

pub Spells-Headed :
    {P : Platform} {l : Level} {e : Expr P} {ts : Tokens} → Spells l e ts → Headed (First l) ts
unfolding is_token
Spells-Headed (Spells.or_rule {us = us} d r) = Headed-append (word "or" ∷ us) (Spells-Headed d)
Spells-Headed (Spells.or_up d) = Spells-Headed d
Spells-Headed (Spells.and_rule {us = us} d r) = Headed-append (word "and" ∷ us) (Spells-Headed d)
Spells-Headed (Spells.and_up d) = Spells-Headed d
Spells-Headed (Spells.not_rule d) = headed (refl, refl, refl)
Spells-Headed (Spells.not_up d) = Headed-map (λ t h. h.0) (Spells-Headed d)
Spells-Headed (Spells.cmp_rule {us = us} o h d r) = Headed-append (mark o ∷ us) (Spells-Headed d)
Spells-Headed (Spells.is_null_rule d) =
    Headed-append (word "is" ∷ word "null" ∷ []) (Spells-Headed d)
Spells-Headed (Spells.is_not_null_rule d) =
    Headed-append (word "is" ∷ word "not" ∷ word "null" ∷ []) (Spells-Headed d)
Spells-Headed (Spells.in_rule {us = us} d i) =
    Headed-append (word "in" ∷ mark "(" ∷ (us ++ mark ")" ∷ [])) (Spells-Headed d)
Spells-Headed (Spells.not_in_rule {us = us} d i) =
    Headed-append (word "not" ∷ word "in" ∷ mark "(" ∷ (us ++ mark ")" ∷ [])) (Spells-Headed d)
Spells-Headed (Spells.cmp_up d) = Spells-Headed d
Spells-Headed (Spells.add_rule {us = us} o h d r) = Headed-append (mark o ∷ us) (Spells-Headed d)
Spells-Headed (Spells.add_up d) = Spells-Headed d
Spells-Headed (Spells.mul_rule {us = us} o h d r) = Headed-append (mark o ∷ us) (Spells-Headed d)
Spells-Headed (Spells.mul_up d) = Spells-Headed d
Spells-Headed (Spells.minus_rule d) = headed ((refl, refl, refl), refl)
Spells-Headed (Spells.unary_up d) = Headed-map (λ t h. h.0) (Spells-Headed d)
Spells-Headed (Spells.parens_rule d) = headed (((refl, refl, refl), refl), refl)
Spells-Headed (Spells.int_rule s i d h) = headed (((refl, refl, refl), refl), refl)
Spells-Headed (Spells.float_rule s f d h) = headed (((refl, refl, refl), refl), refl)
Spells-Headed (Spells.text_rule s) = headed (((refl, refl, refl), refl), refl)
Spells-Headed Spells.null_rule = headed (((refl, refl, refl), refl), refl)
Spells-Headed Spells.true_rule = headed (((refl, refl, refl), refl), refl)
Spells-Headed Spells.false_rule = headed (((refl, refl, refl), refl), refl)
Spells-Headed (Spells.column_rule s n) = headed (name_first s n)
Spells-Headed (Spells.qualified_rule t s n) = headed (name_first t n)
Spells-Headed (Spells.star_rule s n) = headed (name_first s n)
Spells-Headed (Spells.call_rule s n) = headed (name_first s n)
Spells-Headed (Spells.call_with_rule s n d) = headed (name_first s n)

pub SpellsItems-Headed :
    {P : Platform} {es : Exprs P} {ts : Tokens} → SpellsItems es ts → Headed FirstOr ts
SpellsItems-Headed (SpellsItems.last_item d) = Spells-Headed d
SpellsItems-Headed (SpellsItems.next_item {us = us} d i) =
    Headed-append (mark "," ∷ us) (Spells-Headed d)
