-- ===== src/Examples/Coercion.antt =====
-- Theorems of the coercions of internal/domain/coercion.go at concrete texts, and runs of them.
use omnibeam_go.Common.{◌≡◌, refl, true, some, inl, inr, [], ◌∷◌, arith}
use omnibeam_go.Common.Tests.{str_eq}
use omnibeam_go.Common.Int.{pos, negsuc, ◌-ℤ◌}
use omnibeam_go.Common.Dict.{lookup}
use omnibeam_go.Numbers.{trim_space, trim_left, trim_right}
use omnibeam_go.Numbers.Exact.{minus}
use omnibeam_go.Coercion.{
  coerce_bool_fast, bool_or_error, coerce_int64_fast, int64_unless_empty, empty_string,
}
use omnibeam_go.Coercion.Decimal.{
  coerce_decimal_fast, coerce_trimmed, coerce_magnitude, scan_decimal, take_character, take_digit,
  pad, finish_decimal, signed, precision_exceeds,
}
use omnibeam_go.Common.Word.{of_u64, sub64, wrap64, to_u64}
use omnibeam_go.Coercion.DecimalExact.{coerce_decimal_fast-nearest}
use omnibeam_go.Coercion.FormatDecimal.{format_decimal, with_point, format_uint, digits, magnitude}
use omnibeam_go.Coercion.RoundTrip.{coerce_decimal_fast-format_decimal}

-- "-1.255" at the scale 2 is -1.26.
coerce_decimal_fast-nearest_example :
    coerce_decimal_fast (45 ∷ 49 ∷ 46 ∷ 50 ∷ 53 ∷ 53 ∷ []) (pos 2) []
    ≡ inr (pos 0 -ℤ pos 126, pos 2)
unfolding str_eq
coerce_decimal_fast-nearest_example =
    coerce_decimal_fast-nearest minus 49 [] (some (50 ∷ 53 ∷ 53 ∷ [])) 2 126 []
      ((omega arith, omega arith), tt)
      ((omega arith, omega arith), ((omega arith, omega arith), ((omega arith, omega arith), tt)))
      (inl refl) (omega arith, omega arith) (omega arith)

coerce_decimal_fast-format_decimal_example :
    coerce_decimal_fast (format_decimal (negsuc 4) (pos 2)) (pos 2) [] ≡ inr (negsuc 4, pos 2)
coerce_decimal_fast-format_decimal_example =
    coerce_decimal_fast-format_decimal (negsuc 4) 2 [] (omega arith, omega arith)

-- "-0.05"
format_decimal_of_five : format_decimal (negsuc 4) (pos 2) ≡ 45 ∷ 48 ∷ 46 ∷ 48 ∷ 53 ∷ []
unfolding format_decimal with_point format_uint digits magnitude to_u64 sub64 wrap64 of_u64 ◌-ℤ◌
format_decimal_of_five = refl

-- "18446744073709551617", which is 2 ^ 64 + 1, becomes 1 without an error.
large_decimal_wraps :
    coerce_decimal_fast
      (49 ∷ 56 ∷ 52 ∷ 52 ∷ 54 ∷ 55 ∷ 52 ∷ 52 ∷ 48 ∷ 55 ∷ 51 ∷ 55 ∷ 48 ∷ 57 ∷ 53 ∷ 53 ∷ 49 ∷ 54 ∷ 49
        ∷ 55 ∷ [])
      (pos 0)
      []
    ≡ inr (pos 1, pos 0)
unfolding coerce_decimal_fast coerce_trimmed coerce_magnitude scan_decimal take_character take_digit
    pad finish_decimal signed of_u64 trim_space trim_left trim_right
large_decimal_wraps = refl

-- A lone point is zero, not an error.
point_is_zero : coerce_decimal_fast (46 ∷ []) (pos 2) [] ≡ inr (pos 0, pos 2)
unfolding coerce_decimal_fast coerce_trimmed coerce_magnitude scan_decimal take_character take_digit
    pad finish_decimal signed of_u64 trim_space trim_left trim_right
point_is_zero = refl

-- "1.5" at the scale 0 under the policy "fail".
too_precise :
    coerce_decimal_fast (49 ∷ 46 ∷ 53 ∷ []) (pos 0) (102 ∷ 97 ∷ 105 ∷ 108 ∷ [])
    ≡ inl (precision_exceeds (pos 0))
unfolding str_eq coerce_decimal_fast coerce_trimmed coerce_magnitude scan_decimal take_character
    take_digit pad finish_decimal signed of_u64 trim_space trim_left trim_right
too_precise = refl

blank_is_no_int64 : coerce_int64_fast (32 ∷ []) ≡ inl empty_string
unfolding coerce_int64_fast int64_unless_empty trim_space trim_left trim_right
blank_is_no_int64 = refl

-- " Yes"
yes_is_true : coerce_bool_fast (32 ∷ 89 ∷ 101 ∷ 115 ∷ []) ≡ inr true
unfolding coerce_bool_fast bool_or_error lookup str_eq trim_space trim_left trim_right
yes_is_true = refl
