-- ===== src/Go/Numbers.antt =====
-- `strconv.ParseInt(s, 10, 64)`, and the order of signed integers.
use Prim.Native.Char.{code}
use finflow.Base.{
  ℕ, ◌+◌, ◌-◌, ◌*◌, ◌^◌, String, Bool, ◌&&◌, Option, none, some, leb, ltb, ◌==◌, if◌then◌else◌,
}
use finflow.Base.Int.{ℤ, pos, negsuc, pos_part, neg_part}
use finflow.Go.Errors.{message, Result, ok, err}

-- The decimal digits of a text, after those read so far.
unfoldable pub read_digits : ℕ → String → Option ℕ
read_digits n String.[] = some n
read_digits n (String.◌∷◌ c s) =
    if leb b'0' (code c) && leb (code c) b'9'
    then read_digits (n * 10 + (code c - b'0')) s
    else none

-- At least one digit.
unfoldable pub read_number : String → Option ℕ
unfolding read_digits
read_number String.[] = none
read_number (String.◌∷◌ c s) = read_digits 0 (String.◌∷◌ c s)

abbrev pub in_range : ℕ → (ℕ → ℤ) → Option ℕ → Result ℤ
in_range limit sign none = err (message "strconv.ParseInt: invalid syntax")
in_range limit sign (some n) =
    if leb n limit then ok (sign n) else err (message "strconv.ParseInt: value out of range")

abbrev pub negated : ℕ → ℤ
negated n = if n == 0 then pos 0 else negsuc (n - 1)

unfoldable pub parse_int64 : String → Result ℤ
unfolding read_number
parse_int64 String.[] = in_range 0 pos none
parse_int64 (String.◌∷◌ c s) =
    if code c == b'-'
    then in_range (2 ^ 63) negated (read_number s)
    else if code c == b'+'
    then in_range (2 ^ 63 - 1) pos (read_number s)
    else in_range (2 ^ 63 - 1) pos (read_number (String.◌∷◌ c s))

-- `a < b` and `a == b` on signed integers.
abbrev pub less : ℤ → ℤ → Bool
less a b = ltb (pos_part a + neg_part b) (pos_part b + neg_part a)

abbrev pub same : ℤ → ℤ → Bool
same a b = pos_part a + neg_part b == pos_part b + neg_part a
