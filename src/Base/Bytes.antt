-- ===== src/Base/Bytes.antt =====
-- encoding/binary on sequences of bytes, and io.ReadFull on a stream that is one.
use Prim.Native.Nat.{ℕ, zero, suc, ◌+◌, ◌*◌, ◌/◌, ◌%◌, ◌<◌}
use mathlib.Core.Path.{◌≡◌, refl, ap, ◌∙◌}
use mathlib.Core.Logic.{inl, inr}
use mathlib.Core.List.{List, [], ◌∷◌, ◌++◌}
use mathlib.Core.Option.{Option, none, some}
use native.Mathlib.Omega.{arith}
use Prim.Native.Char.{IsScalar, char}
use Prim.Native.Nat.{compare, Ordering}
use Prim.Native.String.{String}
use tsql.Base.Lists.{length}
use tsql.Base.Tests.{Option-cases}

abbrev pub Bytes : Type 0
Bytes = List ℕ

byte-IsScalar : (n : ℕ) → IsScalar (n % 256)
byte-IsScalar n = let below : compare (n % 256) 55296 ≡ Ordering.lt = ground arith in rw below tt

-- A Go string is its bytes: the text with a character for each byte.
unfoldable pub text_of : Bytes → String
unfolding byte-IsScalar
text_of [] = ""
text_of (b ∷ bs) = String.◌∷◌ (char (b % 256) (byte-IsScalar b)) (text_of bs)

abbrev pub pow256 : ℕ → ℕ
pow256 zero = 1
pow256 (suc k) = 256 * pow256 k

-- The `k` bytes of a number, the lowest first.
unfoldable pub le_bytes : ℕ → ℕ → Bytes
le_bytes zero n = []
le_bytes (suc k) n = n % 256 ∷ le_bytes k (n / 256)

unfoldable pub of_le : Bytes → ℕ
of_le [] = 0
of_le (b ∷ bs) = b + 256 * of_le bs

-- The `k` bytes of a number, the highest first.
unfoldable pub be_bytes : ℕ → ℕ → Bytes
be_bytes zero n = []
be_bytes (suc k) n = be_bytes k (n / 256) ++ n % 256 ∷ []

unfoldable pub of_be_from : ℕ → Bytes → ℕ
of_be_from n [] = n
of_be_from n (b ∷ bs) = of_be_from (256 * n + b) bs

pub of_le-le_bytes : (k n : ℕ) → n < pow256 k → of_le (le_bytes k n) ≡ n
unfolding of_le le_bytes
of_le-le_bytes zero n h = omega (arith, h)
of_le-le_bytes (suc k) n h = omega (arith, of_le-le_bytes k (n / 256) (omega (arith, h)), h)

pub length-le_bytes : (k n : ℕ) → length (le_bytes k n) ≡ k
unfolding le_bytes
length-le_bytes zero n = refl
length-le_bytes (suc k) n = ap suc (length-le_bytes k (n / 256))

of_be_from-append :
    (n : ℕ) (xs ys : Bytes) → of_be_from n (xs ++ ys) ≡ of_be_from (of_be_from n xs) ys
unfolding of_be_from
of_be_from-append n [] ys = refl
of_be_from-append n (x ∷ xs) ys = of_be_from-append (256 * n + x) xs ys

pub of_be_from-be_bytes : (k n : ℕ) → n < pow256 k → of_be_from 0 (be_bytes k n) ≡ n
unfolding of_be_from be_bytes
of_be_from-be_bytes zero n h = omega (arith, h)
of_be_from-be_bytes (suc k) n h =
    of_be_from-append 0 (be_bytes k (n / 256)) (n % 256 ∷ [])
    ∙ omega (arith, of_be_from-be_bytes k (n / 256) (omega (arith, h)))

-- io.ReadFull: the next `n` bytes and the rest, or nothing where the stream ends before.
unfoldable pub read_full : ℕ → Bytes → Option (Bytes × Bytes)
read_full zero bs = some ([], bs)
read_full (suc n) [] = none
read_full (suc n) (b ∷ bs) = elim (read_full n bs) [ none ↦ none | some p ↦ some (b ∷ p.0, p.1) ]

pub read_full-append : (xs ys : Bytes) → read_full (length xs) (xs ++ ys) ≡ some (xs, ys)
unfolding read_full
read_full-append [] ys = refl
read_full-append (x ∷ xs) ys = rw (read_full-append xs ys) refl

-- More bytes at the end of the stream are left for later.
pub read_full_longer :
    (n : ℕ) (xs a b ys : Bytes)
    → read_full n xs ≡ some (a, b)
    → read_full n (xs ++ ys) ≡ some (a, b ++ ys)
unfolding read_full
read_full_longer zero xs a b ys h = cc
read_full_longer (suc n) [] a b ys h = cc
read_full_longer (suc n) (x ∷ xs) a b ys h = elim (Option-cases (read_full n xs)) [
  | inl e ↦ absurd (ground (arith, e))
  | inr ((c, d), e) ↦ rw (read_full_longer n xs c d ys e) (found c d (rw e at h))
]
  where
    found :
        (c d : Bytes)
        → Path (Option (Bytes × Bytes)) (some (x ∷ c, d)) (some (a, b))
        → Path (Option (Bytes × Bytes)) (some (x ∷ c, d ++ ys)) (some (a, b ++ ys))
    found c d k = cc
