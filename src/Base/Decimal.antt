-- ===== src/Base/Decimal.antt =====
-- strconv.FormatInt(i, 10).
use Prim.Native.Char.{Char}
use Prim.Native.String.{String}
use Prim.Native.Nat.{ℕ, zero, suc, ◌+◌, ◌/◌, ◌%◌}
use tsql.Base.Tests.{ltb, ◌==◌, if◌then◌else◌}
use tsql.Base.Int.{ℤ, pos, negsuc}

unfoldable pub digit : ℕ → Char
digit d =
    if d == 0
    then "0"
    else if d == 1
    then "1"
    else if d == 2
    then "2"
    else if d == 3
    then "3"
    else if d == 4
    then "4"
    else if d == 5
    then "5"
    else if d == 6
    then "6"
    else if d == 7
    then "7"
    else if d == 8
    then "8"
    else "9"

-- The digits of `n` in front of `rest`, lowest digit last; one round of fuel for each digit.
unfoldable pub format_digits : ℕ → ℕ → String → String
unfolding digit
format_digits zero n rest = rest
format_digits (suc fuel) n rest =
    let longer = format_digits fuel (n / 10) (String.◌∷◌ (digit (n % 10)) rest) in
    if ltb n 10 then String.◌∷◌ (digit n) rest else longer

-- A number of up to 20 digits, as every magnitude of an int64 is.
unfoldable pub format_nat : ℕ → String
unfolding format_digits
format_nat n = format_digits 20 n ""

unfoldable pub format_int : ℤ → String
unfolding format_nat
format_int (pos n) = format_nat n
format_int (negsuc n) = String.◌∷◌ "-" (format_nat (n + 1))
