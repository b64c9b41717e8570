-- ===== src/Examples/Numbers.antt =====
-- `ParseInt64` of pkg/fastnum/fastnum.go at the least int64, one below it, and a text with spaces.
use omnibeam_go.Common.{◌≡◌, refl, [], ◌∷◌, ◌++◌, arith}
use omnibeam_go.Common.Int.{pos, negsuc, ◌-ℤ◌}
use omnibeam_go.Common.Word.{of_u64, sub64, wrap64}
use omnibeam_go.Numbers.{
  parsed, overflow, invalid_int, trim_left, trim_right, trim_space, parse_digits, with_sign,
  parse_magnitude, parse_signed, parse_int64,
}
use omnibeam_go.Numbers.Exact.{
  minus, sign_text, is_minus, value_from, exact_int64, parse_int64-exact,
}

parse_int64-exact_example :
    parse_int64 (sign_text minus ++ 52 ∷ 50 ∷ [])
    ≡ exact_int64 (is_minus minus) (value_from 0 (52 ∷ 50 ∷ []))
parse_int64-exact_example =
    parse_int64-exact minus 52 (50 ∷ [])
      ((omega arith, omega arith), ((omega arith, omega arith), tt))

least_int64 :
    parse_int64 (
      45 ∷ 57 ∷ 50 ∷ 50 ∷ 51 ∷ 51 ∷ 55 ∷ 50 ∷ 48 ∷ 51 ∷ 54 ∷ 56 ∷ 53 ∷ 52 ∷ 55 ∷ 55 ∷ 53 ∷ 56 ∷ 48
      ∷ 56 ∷ [])
    ≡ parsed (negsuc 9223372036854775807)
unfolding parse_int64 trim_space trim_left trim_right parse_signed parse_magnitude parse_digits
    with_sign of_u64 sub64 wrap64 ◌-ℤ◌
least_int64 = refl

below_least_int64 :
    parse_int64 (
      45 ∷ 57 ∷ 50 ∷ 50 ∷ 51 ∷ 51 ∷ 55 ∷ 50 ∷ 48 ∷ 51 ∷ 54 ∷ 56 ∷ 53 ∷ 52 ∷ 55 ∷ 55 ∷ 53 ∷ 56 ∷ 48
      ∷ 57 ∷ [])
    ≡ overflow
unfolding parse_int64 trim_space trim_left trim_right parse_signed parse_magnitude parse_digits
    with_sign
below_least_int64 = refl

spaced : parse_int64 (32 ∷ 43 ∷ 55 ∷ 10 ∷ []) ≡ parsed (pos 7)
unfolding parse_int64 trim_space trim_left trim_right parse_signed parse_magnitude parse_digits
    with_sign of_u64
spaced = refl

no_digits : parse_int64 (45 ∷ []) ≡ invalid_int
unfolding parse_int64 trim_space trim_left trim_right parse_signed parse_magnitude
no_digits = refl
