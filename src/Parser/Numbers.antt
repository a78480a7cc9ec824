-- ===== src/Parser/Numbers.antt =====
-- strconv.ParseInt(s, 10, 64) and strings.Contains(s, ".") on the text of a number token, which has
-- no sign.
use Prim.Native.Char.{Char, code}
use tsql.Base.{ℕ, ◌+◌, ◌-◌, ◌*◌, ◌^◌, String, Bool, false, ◌&&◌, ◌||◌, Option, none, some}
use tsql.Base.{◌==◌, leb, ltb, if◌then◌else◌, ◌>>?◌}
use tsql.Base.Int.{ℤ, pos}

unfoldable pub contains_dot : String → Bool
contains_dot String.[] = false
contains_dot (String.◌∷◌ c s) = (code c == b'.') || contains_dot s

abbrev pub is_decimal : Char → Bool
is_decimal c = leb b'0' (code c) && leb (code c) b'9'

-- The value of the digits of `s` behind those that made `n`.
unfoldable pub digits_from : ℕ → String → Option ℕ
digits_from n String.[] = some n
digits_from n (String.◌∷◌ c s) =
    let rest = digits_from (10 * n + (code c - b'0')) s in if is_decimal c then rest else none

abbrev pub in_int64 : ℕ → Option ℤ
in_int64 n = if ltb n (2 ^ 63) then some (pos n) else none

unfoldable pub parse_int : String → Option ℤ
parse_int String.[] = none
parse_int (String.◌∷◌ c s) = digits_from 0 (String.◌∷◌ c s) >>? in_int64
