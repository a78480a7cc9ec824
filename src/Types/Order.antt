-- ===== src/Types/Order.antt =====
-- Value.Compare as an order.
use Prim.Native.String.{compare}
use tsql.Base.{◌≡◌, refl, arith, true, false, Ordering, String}
use tsql.Base.Int.{ℤ}
use tsql.Platform.{Platform}
use tsql.Types.{Value, int, float, text, bool, time, compare_values, compare_floats}
use tsql.Types.{compare_kinds, kind, kind_rank, compare_bools}

abbrev pub flip : Ordering → Ordering
flip Ordering.lt = Ordering.gt
flip Ordering.eq = Ordering.eq
flip Ordering.gt = Ordering.lt

-- What IEEE floats and times promise of `<` and Before: no two are below each other.
pub record IsAsymmetric (P : Platform) : Type 0 where
  pub floats : (a b : P.Float) → P.float_lt a b ≡ true → P.float_lt b a ≡ false
  pub times : (a b : P.Time) → P.before a b ≡ true → P.before b a ≡ false

compare-flip : (s t : String) → compare t s ≡ flip (compare s t)
compare-flip String.[] String.[] = rw (Prim.Native.String.compare.nil-nil) refl
compare-flip String.[] (String.◌∷◌ d t) =
    rw (Prim.Native.String.compare.nil-cons, Prim.Native.String.compare.cons-nil) refl
compare-flip (String.◌∷◌ c s) String.[] =
    rw (Prim.Native.String.compare.nil-cons, Prim.Native.String.compare.cons-nil) refl
compare-flip (String.◌∷◌ c s) (String.◌∷◌ d t) =
    rw (Prim.Native.String.compare.cons-cons c d s t, Prim.Native.String.compare.cons-cons d c t s)
      (ground (arith, compare-flip s t))

module _ {P : Platform} (h : IsAsymmetric P) where
  compare_floats-flip : (a b : P.Float) → compare_floats P b a ≡ flip (compare_floats P a b)
  unfolding compare_floats
  compare_floats-flip a b = ground (arith, h.floats a b)

  -- Where `<` on floats and Before on times are asymmetric, comparing two values the other way round
  -- gives the opposite answer.
  pub compare_values-flip : (v o : Value P) → compare_values o v ≡ flip (compare_values v o)
  unfolding compare_values compare_kinds kind kind_rank compare_bools
  compare_values-flip (int a) (int b) = compare_floats-flip _ _
  compare_values-flip (int a) (float b) = compare_floats-flip _ _
  compare_values-flip (float a) (int b) = compare_floats-flip _ _
  compare_values-flip (float a) (float b) = compare_floats-flip _ _
  compare_values-flip (text a) (text b) = compare-flip a b
  compare_values-flip (bool a) (bool b) = ground arith
  compare_values-flip (time a) (time b) = ground (arith, h.times a b)
  compare_values-flip v o = ground arith

  -- Where `<` on floats is asymmetric, two int64 that round to one float64 compare as equal.
  compare_ints_collide :
      (a b : ℤ) → P.of_int a ≡ P.of_int b → compare_values {P = P} (int a) (int b) ≡ Ordering.eq
  unfolding compare_values compare_floats
  compare_ints_collide a b e = rw e (ground (arith, h.floats (P.of_int b) (P.of_int b)))
