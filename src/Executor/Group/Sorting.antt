-- ===== src/Executor/Group/Sorting.antt =====
-- On ORDER BY in execSelect: sort.SliceStable by the keys of the terms.
use mathlib.Core.List.{Perm}
use mathlib.Core.List.Perm
use tsql.Base.{All, ap, keep, ◌∙◌, if◌then◌else◌}
use tsql.Base.{◌≡◌, refl, Bool, List, [], ◌∷◌}
use tsql.Base.{Bool-cases, inl, inr}
use tsql.Platform.{Platform}
use tsql.Types.{Value}
use tsql.Types.Order.{IsAsymmetric}
use tsql.Executor.Group.{keys_less, insert_keyed, sort_keyed}
use tsql.Executor.Group.Order.{
  keys_less-Before, IsInOrder, not_less-IsInOrder, less-IsInOrder, IsTransitive, AreTied,
}

module _ {P : Platform} where
  module _ {A : Type 0} where
    -- Each item is in order with all that follow it.
    abbrev pub IsSorted : List Bool → List (List (Value P) × A) → Type 0
    IsSorted ds [] = Unit {0}
    IsSorted ds (x ∷ ys) = All (λ y. IsInOrder ds x.0 y.0) ys × IsSorted ds ys

    abbrev pub HasKeys : (List (Value P) → Type 0) → List (List (Value P) × A) → Type 0
    HasKeys S xs = All (λ x. S x.0) xs

    insert_keyed-Perm :
        (ds : List Bool) (x : List (Value P) × A) (ys : List (List (Value P) × A))
        → Perm (insert_keyed ds x ys) (x ∷ ys)
    unfolding insert_keyed
    insert_keyed-Perm ds x [] = Perm.refl (x ∷ [])
    insert_keyed-Perm ds x (y ∷ ys) = elim (Bool-cases (keys_less ds y.0 x.0)) [
      | inl h ↦ rw h (Perm.trans (Perm.cons y (insert_keyed-Perm ds x ys)) (Perm.swap x y ys))
      | inr h ↦ rw h (Perm.refl (x ∷ y ∷ ys))
    ]

    insert_keyed-All :
        (Q : List (Value P) × A → Type 0) (ds : List Bool) (x : List (Value P) × A)
        (ys : List (List (Value P) × A))
        → Q x
        → All Q ys
        → All Q (insert_keyed ds x ys)
    unfolding insert_keyed
    insert_keyed-All Q ds x [] q a = (q, tt)
    insert_keyed-All Q ds x (y ∷ ys) q a = elim (Bool-cases (keys_less ds y.0 x.0)) [
      | inl h ↦ rw h (a.0, insert_keyed-All Q ds x ys q a.1)
      | inr h ↦ rw h (q, a)
    ]

    sort_keyed-All :
        (Q : List (Value P) × A → Type 0) (ds : List Bool) (xs : List (List (Value P) × A))
        → All Q xs
        → All Q (sort_keyed ds xs)
    unfolding sort_keyed
    sort_keyed-All Q ds [] a = tt
    sort_keyed-All Q ds (x ∷ xs) a =
        insert_keyed-All Q ds x (sort_keyed ds xs) a.0 (sort_keyed-All Q ds xs a.1)

    -- What is in order with the first item is in order with the ones that it is in order with.
    all_behind :
        (S : List (Value P) → Type 0) (ds : List Bool) (x y : List (Value P) × A)
        (ys : List (List (Value P) × A))
        → IsTransitive ds S
        → S x.0
        → S y.0
        → HasKeys S ys
        → IsInOrder ds x.0 y.0
        → All (λ z. IsInOrder ds y.0 z.0) ys
        → All (λ z. IsInOrder ds x.0 z.0) ys
    all_behind S ds x y [] t sx sy k h a = tt
    all_behind S ds x y (z ∷ zs) t sx sy k h a =
        (t x.0 y.0 z.0 sx sy k.0 h a.0, all_behind S ds x y zs t sx sy k.1 h a.1)

    insert_keyed-IsSorted :
        (S : List (Value P) → Type 0) (q : IsAsymmetric P) (ds : List Bool) (x : List (Value P) × A)
        (ys : List (List (Value P) × A))
        → IsTransitive ds S
        → S x.0
        → HasKeys S ys
        → IsSorted ds ys
        → IsSorted ds (insert_keyed ds x ys)
    unfolding insert_keyed
    insert_keyed-IsSorted S q ds x [] t sx k s = (tt, tt)
    insert_keyed-IsSorted S q ds x (y ∷ ys) t sx k s = elim (Bool-cases (keys_less ds y.0 x.0)) [
      | inl h ↦ rw h (
        insert_keyed-All (λ z. IsInOrder ds y.0 z.0) ds x ys (less-IsInOrder q ds y.0 x.0 h) s.0,
        insert_keyed-IsSorted S q ds x ys t sx k.1 s.1,
      )
      | inr h ↦
          let first = not_less-IsInOrder ds x.0 y.0 h in
          rw h ((first, all_behind S ds x y ys t sx k.0 k.1 first s.0), s)
    ]

    -- The items with some keys, in their order.
    abbrev pub with_keys :
        (List (Value P) → Bool) → List (List (Value P) × A) → List (List (Value P) × A)
    with_keys p xs = keep (λ x. p x.0) xs

    sort_keyed-Perm : (ds : List Bool) (xs : List (List (Value P) × A)) → Perm (sort_keyed ds xs) xs
    unfolding sort_keyed
    sort_keyed-Perm ds [] = Perm.refl []
    sort_keyed-Perm ds (x ∷ xs) =
        Perm.trans (insert_keyed-Perm ds x (sort_keyed ds xs)) (Perm.cons x (sort_keyed-Perm ds xs))

    sort_keyed_in_order :
        (S : List (Value P) → Type 0) (q : IsAsymmetric P) (ds : List Bool)
        (xs : List (List (Value P) × A))
        → IsTransitive ds S
        → HasKeys S xs
        → IsSorted ds (sort_keyed ds xs)
    unfolding sort_keyed
    sort_keyed_in_order S q ds [] t k = tt
    sort_keyed_in_order S q ds (x ∷ xs) t k =
        insert_keyed-IsSorted S q ds x (sort_keyed ds xs) t k.0
          (sort_keyed-All (λ x. S x.0) ds xs k.1) (sort_keyed_in_order S q ds xs t k.1)

    with_keys-insert_keyed :
        (p : List (Value P) → Bool) (ds : List Bool) (x : List (Value P) × A)
        (ys : List (List (Value P) × A))
        → AreTied ds p
        → with_keys p (insert_keyed ds x ys) ≡ with_keys p (x ∷ ys)
    unfolding insert_keyed keep
    with_keys-insert_keyed p ds x [] t = refl
    with_keys-insert_keyed p ds x (y ∷ ys) t = elim (Bool-cases (keys_less ds y.0 x.0)) [
      | inr h ↦ rw (h, insert_keyed) refl
      | inl h ↦
          let rest = with_keys-insert_keyed p ds x ys t in
          rw (h, insert_keyed)
            (elim (Bool-cases (p y.0)) [
              | inr b ↦ rw b rest
              | inl b ↦ elim (Bool-cases (p x.0)) [
                | inl a ↦ absurd (t y.0 x.0 b a (keys_less-Before ds y.0 x.0 h))
                | inr a ↦ rw (a, b) (ap (λ zs. y ∷ zs) (rw a at rest))
              ]
            ])
    ]

    with_keys-sort_keyed :
        (p : List (Value P) → Bool) (ds : List Bool) (xs : List (List (Value P) × A))
        → AreTied ds p
        → with_keys p (sort_keyed ds xs) ≡ with_keys p xs
    unfolding sort_keyed keep
    with_keys-sort_keyed p ds [] t = refl
    with_keys-sort_keyed p ds (x ∷ xs) t =
        with_keys-insert_keyed p ds x (sort_keyed ds xs) t
        ∙ ap (λ zs. if p x.0 then x ∷ zs else zs) (with_keys-sort_keyed p ds xs t)

    -- ORDER BY puts the rows in order: the sorted rows are the rows; in no two of them do the keys of
    -- the later one come before those of the earlier one, by the first term in which they differ and
    -- its direction; and rows of which none comes before another keep their order. Two floats or
    -- times are never below each other, and the order is transitive on the keys of the rows.
    pub sort_keyed-IsSorted :
        (S : List (Value P) → Type 0) (q : IsAsymmetric P) (ds : List Bool)
        (xs : List (List (Value P) × A)) (p : List (Value P) → Bool)
        → IsTransitive ds S
        → HasKeys S xs
        → AreTied ds p
        → Perm (sort_keyed ds xs) xs
          × IsSorted ds (sort_keyed ds xs)
          × (with_keys p (sort_keyed ds xs) ≡ with_keys p xs)
    sort_keyed-IsSorted S q ds xs p t k tied = (
      sort_keyed-Perm ds xs,
      sort_keyed_in_order S q ds xs t k,
      with_keys-sort_keyed p ds xs tied,
    )
