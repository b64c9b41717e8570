-- ===== src/Coercion.antt =====
-- internal/domain/coercion.go, and `FormatDecimal` of internal/domain/record.go. A text is its bytes; of
-- white space and of upper case only the ASCII kind is read.
pub mod Decimal
pub mod Scan
pub mod Nearest
pub mod DecimalExact
pub mod FormatDecimal
pub mod RoundTrip
use omnibeam_go.Common.{
  ℕ, ◌+◌, ◌≡◌, Bool, true, false, ◌&&◌, Option, none, some, ◌⊎◌, inl, inr, List, [], ◌∷◌, map, leb,
  if◌then◌else◌,
}
use omnibeam_go.Common.Int.{ℤ}
use omnibeam_go.Common.Dict.{Dict, lookup}
use omnibeam_go.Numbers.{Parsed, parsed, invalid_int, overflow, trim_space, parse_int64}

-- Why a text is refused: `fmt.Errorf` of the function, or the error of `ParseInt64`.
pub data CoercionError : Type 0 where
  empty_string : CoercionError
  cannot_parse : List ℕ → CoercionError
  not_an_int int_overflow : CoercionError

unfoldable pub of_parsed : Parsed ℤ → CoercionError ⊎ ℤ
of_parsed (parsed z) = inr z
of_parsed invalid_int = inl not_an_int
of_parsed overflow = inl int_overflow

unfoldable pub int64_unless_empty : List ℕ → CoercionError ⊎ ℤ
int64_unless_empty [] = inl empty_string
int64_unless_empty (c ∷ s) = of_parsed (parse_int64 (c ∷ s))

unfoldable pub coerce_int64_fast : List ℕ → CoercionError ⊎ ℤ
coerce_int64_fast s = int64_unless_empty (trim_space s)

-- `strings.ToLower`
abbrev pub lower_ascii : ℕ → ℕ
lower_ascii c = if leb 65 c && leb c 90 then c + 32 else c

abbrev pub to_lower : List ℕ → List ℕ
to_lower s = map lower_ascii s

-- "true", "t", "1", "yes", "y" and "false", "f", "0", "no", "n".
abbrev pub bool_string_map : Dict Bool
bool_string_map =
    (116 ∷ 114 ∷ 117 ∷ 101 ∷ [], true)
    ∷ (116 ∷ [], true)
    ∷ (49 ∷ [], true)
    ∷ (121 ∷ 101 ∷ 115 ∷ [], true)
    ∷ (121 ∷ [], true)
    ∷ (102 ∷ 97 ∷ 108 ∷ 115 ∷ 101 ∷ [], false)
    ∷ (102 ∷ [], false)
    ∷ (48 ∷ [], false)
    ∷ (110 ∷ 111 ∷ [], false)
    ∷ (110 ∷ [], false)
    ∷ []

unfoldable pub bool_or_error : List ℕ → Option Bool → CoercionError ⊎ Bool
bool_or_error s none = inl (cannot_parse s)
bool_or_error s (some b) = inr b

unfoldable pub coerce_bool_fast : List ℕ → CoercionError ⊎ Bool
coerce_bool_fast s = let t = to_lower (trim_space s) in bool_or_error t (lookup t bool_string_map)
