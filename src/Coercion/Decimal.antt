-- ===== src/Coercion/Decimal.antt =====
-- `CoerceDecimalFast` of internal/domain/coercion.go.
use omnibeam_go.Common.{
  ℕ, zero, suc, ◌+◌, ◌*◌, ◌-◌, ◌%◌, ◌^◌, Bool, true, false, ◌||◌, not, ◌⊎◌, inl, inr, List, [], ◌∷◌,
  ltb, leb, ◌==◌, if◌then◌else◌, str_eq,
}
use omnibeam_go.Common.Int.{ℤ, pos, pos_part, ltb_ℤ, eqb_ℤ}
use omnibeam_go.Common.Word.{of_u64, sub64}
use omnibeam_go.Numbers.{trim_space}

pub data DecimalError : Type 0 where
  empty_digits multiple_points : DecimalError
  unexpected_character : ℕ → DecimalError
  precision_exceeds : ℤ → DecimalError

-- The variables of the loop. `dec_digits`, an int32, is one more than the scale at most, so that it would wrap
-- only for the scale 2^31 - 1 and as many digits.
pub record Scan : Type 0 where
  pub mantissa : ℕ
  pub seen_dot : Bool
  pub dec_digits : ℕ
  pub round_up : Bool

-- "fail"
abbrev pub fail_text : List ℕ
fail_text = 102 ∷ 97 ∷ 105 ∷ 108 ∷ []

abbrev pub shifted : ℕ → ℕ → ℕ
shifted m digit = (m * 10 + digit) % 2 ^ 64

-- A digit: before the point, among the digits of the scale, the first one beyond, or any further one.
unfoldable pub take_digit : ℤ → Bool → Scan → ℕ → DecimalError ⊎ Scan
take_digit target fails st digit =
    if not st.seen_dot
    then inr (record st { mantissa = shifted st.mantissa digit })
    else (if ltb_ℤ (pos st.dec_digits) target
        then inr
            (record st { mantissa = shifted st.mantissa digit; dec_digits = suc st.dec_digits })
        else (if eqb_ℤ (pos st.dec_digits) target
            then (if fails
                then inl (precision_exceeds target)
                else inr (record st {
                  round_up = if leb 5 digit then true else st.round_up;
                  dec_digits = suc st.dec_digits;
                }))
            else inr st))

unfoldable pub take_character : ℤ → Bool → Scan → ℕ → DecimalError ⊎ Scan
take_character target fails st c =
    if c == 46
    then (if st.seen_dot then inl multiple_points else inr (record st { seen_dot = true }))
    else (if ltb c 48 || ltb 57 c
        then inl (unexpected_character c)
        else take_digit target fails st (c - 48))

unfoldable pub scan_decimal : ℤ → Bool → Scan → List ℕ → DecimalError ⊎ Scan
scan_decimal target fails st [] = inr st
scan_decimal target fails st (c ∷ s) = elim (take_character target fails st c) [
  | inl e ↦ inl e
  | inr st' ↦ scan_decimal target fails st' s
]

-- `for decDigits < targetScale { mantissa *= 10 }`
unfoldable pub pad : ℕ → ℕ → ℕ
pad zero m = m
pad (suc k) m = pad k (m * 10 % 2 ^ 64)

unfoldable pub signed : Bool → ℕ → ℤ
signed neg m = if neg then sub64 (pos 0) (of_u64 m) else of_u64 m

-- Behind the loop.
unfoldable pub finish_decimal : ℤ → Bool → DecimalError ⊎ Scan → DecimalError ⊎ (ℤ × ℤ)
finish_decimal target neg (inl e) = inl e
finish_decimal target neg (inr st) =
    let m = pad (pos_part target - st.dec_digits) st.mantissa in
    inr (signed neg (if st.round_up then (m + 1) % 2 ^ 64 else m), target)

abbrev pub scan_start : Scan
scan_start = record { mantissa = 0; seen_dot = false; dec_digits = 0; round_up = false }

-- Behind the sign: a character at least.
unfoldable pub coerce_magnitude : ℤ → Bool → Bool → List ℕ → DecimalError ⊎ (ℤ × ℤ)
coerce_magnitude target fails neg [] = inl empty_digits
coerce_magnitude target fails neg (c ∷ s) =
    finish_decimal target neg (scan_decimal target fails scan_start (c ∷ s))

-- An empty text is zero.
unfoldable pub coerce_trimmed : ℤ → Bool → List ℕ → DecimalError ⊎ (ℤ × ℤ)
coerce_trimmed target fails [] = inr (pos 0, target)
coerce_trimmed target fails (c ∷ s) =
    if c == 45
    then coerce_magnitude target fails true s
    else (if c == 43
        then coerce_magnitude target fails false s
        else coerce_magnitude target fails false (c ∷ s))

-- Any overflow policy but "fail" rounds.
unfoldable pub coerce_decimal_fast : List ℕ → ℤ → List ℕ → DecimalError ⊎ (ℤ × ℤ)
coerce_decimal_fast s target on_overflow =
    coerce_trimmed target (str_eq on_overflow fail_text) (trim_space s)
