-- ===== src/Executor/Group/Order.antt =====
-- The order of ORDER BY in execSelect, and that the test of its sort is that order.
use mathlib.Core.Bool.{false≢true}
use tsql.Base.{◌⊎◌, ◌∙◌, sym, if◌then◌else◌}
use tsql.Base.{◌≡◌, refl, Bool, true, false, not, List, [], ◌∷◌}
use tsql.Base.{Ordering, inl, inr}
use tsql.Platform.{Platform}
use tsql.Types.{Value, compare_values}
use tsql.Types.Order.{IsAsymmetric, flip, compare_values-flip}
use tsql.Executor.Group.{keys_less}

not-true : (d : Bool) → not d ≡ true → d ≡ false
not-true true h = cc
not-true false h = refl

module _ {P : Platform} where
  -- The order of ORDER BY: the keys at the first term in which two rows differ decide, the smaller
  -- one first, or the greater one where the term says DESC.
  unfoldable pub Before : List Bool → List (Value P) → List (Value P) → Type 0
  Before (desc ∷ ds) (a ∷ ks) (b ∷ ls) =
      (compare_values a b ≡ (if desc then Ordering.gt else Ordering.lt))
      ⊎ ((compare_values a b ≡ Ordering.eq) × Before ds ks ls)
  Before ds ks ls = ⊥

  -- The test of the sort is that order.
  pub keys_less-Before :
      (ds : List Bool) (ks ls : List (Value P)) → keys_less ds ks ls ≡ true → Before ds ks ls
  unfolding keys_less Before
  keys_less-Before [] ks ls h = cc
  keys_less-Before (d ∷ ds) [] ls h = cc
  keys_less-Before (d ∷ ds) (a ∷ ks) [] h = cc
  keys_less-Before (d ∷ ds) (a ∷ ks) (b ∷ ls) h =
      by_order (compare_values a b) d (keys_less-Before ds ks ls) h
    where
      by_order :
          (o : Ordering) (d : Bool)
          → (keys_less ds ks ls ≡ true → Before ds ks ls)
          → Path Bool
              (elim o [ Ordering.lt ↦ not d | Ordering.eq ↦ keys_less ds ks ls | Ordering.gt ↦ d ])
              true
          → (o ≡ (if d then Ordering.gt else Ordering.lt)) ⊎ ((o ≡ Ordering.eq) × Before ds ks ls)
      by_order Ordering.lt true ih h = cc
      by_order Ordering.lt false ih h = inl refl
      by_order Ordering.eq d ih h = inr (refl, ih h)
      by_order Ordering.gt true ih h = inl refl
      by_order Ordering.gt false ih h = cc

  pub Before-keys_less :
      (ds : List Bool) (ks ls : List (Value P)) → Before ds ks ls → keys_less ds ks ls ≡ true
  unfolding keys_less Before
  Before-keys_less [] ks ls h = absurd h
  Before-keys_less (d ∷ ds) [] ls h = absurd h
  Before-keys_less (d ∷ ds) (a ∷ ks) [] h = absurd h
  Before-keys_less (true ∷ ds) (a ∷ ks) (b ∷ ls) (inl e) = rw (e, keys_less) refl
  Before-keys_less (false ∷ ds) (a ∷ ks) (b ∷ ls) (inl e) = rw (e, keys_less) refl
  Before-keys_less (d ∷ ds) (a ∷ ks) (b ∷ ls) (inr (e, h)) =
      rw (e, keys_less) (Before-keys_less ds ks ls h)

  pub keys_less-asym :
      (q : IsAsymmetric P) (ds : List Bool) (ks ls : List (Value P))
      → keys_less ds ks ls ≡ true
      → keys_less ds ls ks ≡ false
  unfolding keys_less
  keys_less-asym q [] ks ls h = cc
  keys_less-asym q (d ∷ ds) [] ls h = cc
  keys_less-asym q (d ∷ ds) (a ∷ ks) [] h = cc
  keys_less-asym q (d ∷ ds) (a ∷ ks) (b ∷ ls) h =
      by_order (compare_values a b) (compare_values b a) (compare_values-flip q a b)
        (keys_less-asym q ds ks ls) h
    where
      by_order :
          (o p : Ordering)
          → p ≡ flip o
          → (keys_less ds ks ls ≡ true → keys_less ds ls ks ≡ false)
          → Path Bool
              (elim o [ Ordering.lt ↦ not d | Ordering.eq ↦ keys_less ds ks ls | Ordering.gt ↦ d ])
              true
          → Path Bool
              (elim p [ Ordering.lt ↦ not d | Ordering.eq ↦ keys_less ds ls ks | Ordering.gt ↦ d ])
              false
      by_order Ordering.lt Ordering.lt e ih h = cc
      by_order Ordering.lt Ordering.eq e ih h = cc
      by_order Ordering.lt Ordering.gt e ih h = not-true d h
      by_order Ordering.eq Ordering.lt e ih h = cc
      by_order Ordering.eq Ordering.eq e ih h = ih h
      by_order Ordering.eq Ordering.gt e ih h = cc
      by_order Ordering.gt Ordering.lt e ih h = rw h refl
      by_order Ordering.gt Ordering.eq e ih h = cc
      by_order Ordering.gt Ordering.gt e ih h = cc

  -- The first of two items may stand before the second: the keys of the second do not come first.
  abbrev pub IsInOrder : List Bool → List (Value P) → List (Value P) → Type 0
  IsInOrder ds ks ls = Before ds ls ks → ⊥

  pub not_less-IsInOrder :
      (ds : List Bool) (ks ls : List (Value P)) → keys_less ds ls ks ≡ false → IsInOrder ds ks ls
  not_less-IsInOrder ds ks ls h b = false≢true (sym h ∙ Before-keys_less ds ls ks b)

  pub less-IsInOrder :
      (q : IsAsymmetric P) (ds : List Bool) (ks ls : List (Value P))
      → keys_less ds ks ls ≡ true
      → IsInOrder ds ks ls
  less-IsInOrder q ds ks ls h = not_less-IsInOrder ds ks ls (keys_less-asym q ds ks ls h)

  -- Keys on which the order is transitive; where a float is NaN, it need not be.
  abbrev pub IsTransitive : List Bool → (List (Value P) → Type 0) → Type 0
  IsTransitive ds S =
      (a b c : List (Value P))
      → S a
      → S b
      → S c
      → IsInOrder ds a b
      → IsInOrder ds b c
      → IsInOrder ds a c

  -- Keys of which none comes before another.
  abbrev pub AreTied : List Bool → (List (Value P) → Bool) → Type 0
  AreTied ds p = (ks ls : List (Value P)) → p ks ≡ true → p ls ≡ true → Before ds ks ls → ⊥
