-- ===== src/Numbers.antt =====
-- `ParseInt64` of pkg/fastnum/fastnum.go. A text is its bytes; of the white space only the ASCII kind is
-- cut, so the model agrees with the code on texts whose first and last characters are ASCII.
pub mod Exact
use omnibeam_go.Common.{
  ℕ, ◌+◌, ◌*◌, ◌-◌, ◌/◌, ◌%◌, ◌^◌, Bool, true, false, ◌&&◌, ◌||◌, List, [], ◌∷◌, ltb, leb, ◌==◌,
  if◌then◌else◌,
}
use omnibeam_go.Common.Int.{ℤ, pos}
use omnibeam_go.Common.Word.{of_u64, sub64}

-- A value, or `ErrInvalidInt` or `ErrOverflow`.
pub data Parsed (A : Type 0) : Type 0 where
  parsed : A → Parsed A
  invalid_int overflow : Parsed A

abbrev pub is_space : ℕ → Bool
is_space c = (leb 9 c && leb c 13) || c == 32

unfoldable pub trim_left : List ℕ → List ℕ
trim_left [] = []
trim_left (c ∷ s) = if is_space c then trim_left s else c ∷ s

abbrev pub keep_unless_last : ℕ → List ℕ → List ℕ
keep_unless_last c [] = if is_space c then [] else c ∷ []
keep_unless_last c (d ∷ s) = c ∷ d ∷ s

unfoldable pub trim_right : List ℕ → List ℕ
trim_right [] = []
trim_right (c ∷ s) = keep_unless_last c (trim_right s)

-- `strings.TrimSpace`
unfoldable pub trim_space : List ℕ → List ℕ
trim_space s = trim_right (trim_left s)

-- `parseDigitsUint64` from a number that was read so far.
unfoldable pub parse_digits : ℕ → List ℕ → Parsed ℕ
parse_digits n [] = parsed n
parse_digits n (c ∷ s) =
    let digit = c - 48 in
    let rest = parse_digits ((n * 10 + digit) % 2 ^ 64) s in
    if ltb c 48 || ltb 57 c
    then invalid_int
    else (if ltb ((2 ^ 64 - 1 - digit) / 10) n then overflow else rest)

-- The end of `ParseInt64`: the magnitude is checked against the sign's bound.
unfoldable pub with_sign : Bool → Parsed ℕ → Parsed ℤ
with_sign neg invalid_int = invalid_int
with_sign neg overflow = overflow
with_sign true (parsed n) = if ltb (2 ^ 63) n then overflow else parsed (sub64 (pos 0) (of_u64 n))
with_sign false (parsed n) = if ltb (2 ^ 63 - 1) n then overflow else parsed (of_u64 n)

-- Behind the sign: at least a digit.
unfoldable pub parse_magnitude : Bool → List ℕ → Parsed ℤ
parse_magnitude neg [] = invalid_int
parse_magnitude neg (c ∷ s) = with_sign neg (parse_digits 0 (c ∷ s))

-- `extractSign`, with what it is used for.
unfoldable pub parse_signed : List ℕ → Parsed ℤ
parse_signed [] = invalid_int
parse_signed (c ∷ s) =
    if c == 45
    then parse_magnitude true s
    else (if c == 43 then parse_magnitude false s else parse_magnitude false (c ∷ s))

unfoldable pub parse_int64 : List ℕ → Parsed ℤ
parse_int64 s = parse_signed (trim_space s)
