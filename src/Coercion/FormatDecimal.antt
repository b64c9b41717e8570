-- ===== src/Coercion/FormatDecimal.antt =====
-- `FormatDecimal` of internal/domain/record.go, with `strconv.FormatUint` and `strconv.FormatInt`.
use omnibeam_go.Common.{
  ℕ, zero, suc, ◌+◌, ◌-◌, ◌/◌, ◌%◌, List, [], ◌∷◌, ◌++◌, length, take, drop, replicate, ltb, leb,
  if◌then◌else◌,
}
use omnibeam_go.Common.Int.{ℤ, pos, pos_part, leb_ℤ, ltb_ℤ}
use omnibeam_go.Common.Word.{to_u64, sub64}

-- The decimal digits, of which `k` at most are written.
unfoldable pub digits : ℕ → ℕ → List ℕ
digits zero n = []
digits (suc k) n =
    let front = digits k (n / 10) in
    if ltb n 10 then (48 + n) ∷ [] else front ++ ((48 + n % 10) ∷ [])

-- `strconv.FormatUint(n, 10)`: a uint64 has twenty digits at most.
unfoldable pub format_uint : ℕ → List ℕ
format_uint n = digits 20 n

abbrev pub sign_of : ℤ → List ℕ
sign_of z = if ltb_ℤ z (pos 0) then 45 ∷ [] else []

-- The magnitude as a uint64, also that of the least int64.
unfoldable pub magnitude : ℤ → ℕ
magnitude z = to_u64 (if ltb_ℤ z (pos 0) then sub64 (pos 0) z else z)

-- `strconv.FormatInt(z, 10)`
unfoldable pub format_int : ℤ → List ℕ
format_int z = sign_of z ++ format_uint (magnitude z)

-- The digits with a point before the last `k`, of which there is at least one.
unfoldable pub with_point : ℕ → List ℕ → List ℕ
with_point k str =
    if leb (length str) k
    then 48 ∷ 46 ∷ (replicate (k - length str) 48 ++ str)
    else take (length str - k) str ++ (46 ∷ drop (length str - k) str)

unfoldable pub format_decimal : ℤ → ℤ → List ℕ
format_decimal mantissa scale =
    if leb_ℤ scale (pos 0)
    then format_int mantissa
    else sign_of mantissa ++ with_point (pos_part scale) (format_uint (magnitude mantissa))
