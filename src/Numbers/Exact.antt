-- ===== src/Numbers/Exact.antt =====
-- `ParseInt64` of pkg/fastnum/fastnum.go gives the number that a decimal text stands for, or says that
-- it is no int64.
use omnibeam_go.Common.{
  ℕ, ◌+◌, ◌*◌, ◌-◌, ◌%◌, ◌^◌, ◌≤◌, ◌<◌, ◌≡◌, refl, ap, ◌∙◌, Bool, true, false, List, [], ◌∷◌, ◌++◌,
  All, ltb, leb, if◌then◌else◌, arith, ◌⊎◌, inl, inr,
}
use omnibeam_go.Common.Int.{ℤ, pos, ◌-ℤ◌}
use omnibeam_go.Common.Word.{of_u64, sub64}
use omnibeam_go.Numbers.{
  Parsed, parsed, overflow, trim_left, keep_unless_last, trim_right, trim_space, parse_digits,
  with_sign, parse_magnitude, parse_signed, parse_int64,
}

abbrev pub IsDigit : ℕ → Type 0
IsDigit c = (48 ≤ c) × (c ≤ 57)

-- The number that digits stand for, behind a number that was read.
abbrev pub value_from : ℕ → List ℕ → ℕ
value_from n [] = n
value_from n (c ∷ s) = value_from (n * 10 + (c - 48)) s

pub value_grows : (s : List ℕ) (n : ℕ) → n ≤ value_from n s
value_grows [] n = omega arith
value_grows (c ∷ s) n = omega (arith, value_grows s (n * 10 + (c - 48)))

pub by_size : (a b : ℕ) → (a < b) ⊎ (b ≤ a)
by_size a b = ground arith

small : (m : ℕ) → m < 2 ^ 64 → m % 2 ^ 64 ≡ m
small m h = omega (arith, h)

-- The digits are read exactly, or found too large for a uint64.
parse_digits-value :
    (s : List ℕ) (n : ℕ)
    → All IsDigit s
    → n < 2 ^ 64
    → parse_digits n s
      ≡ (if ltb (value_from n s) (2 ^ 64) then parsed (value_from n s) else overflow)
unfolding parse_digits
parse_digits-value [] n h k = ground (arith, k)
parse_digits-value (c ∷ s) n h k =
    let m = n * 10 + (c - 48) in
    elim (by_size m (2 ^ 64)) [
      | inl fits ↦ ground (
        arith,
        h.0,
        fits,
        ap (λ x. parse_digits x s) (small m fits),
        parse_digits-value s m h.1 fits,
      )
      | inr large ↦ ground (arith, h.0, large, value_grows s m)
    ]

-- What `ParseInt64` should give for a sign and digits.
abbrev pub exact_int64 : Bool → ℕ → Parsed ℤ
exact_int64 true v = if leb v (2 ^ 63) then parsed (pos 0 -ℤ pos v) else overflow
exact_int64 false v = if ltb v (2 ^ 63) then parsed (pos v) else overflow

pub negated : (v : ℕ) → v ≤ 2 ^ 63 → sub64 (pos 0) (of_u64 v) ≡ pos 0 -ℤ pos v
unfolding sub64 of_u64 ◌-ℤ◌
negated v h = ground (arith, h)

pub kept_positive : (v : ℕ) → v < 2 ^ 63 → of_u64 v ≡ pos v
unfolding of_u64
kept_positive v h = ground (arith, h)

with_sign-exact :
    (neg : Bool) (v : ℕ)
    → with_sign neg (if ltb v (2 ^ 64) then parsed v else overflow) ≡ exact_int64 neg v
unfolding with_sign
with_sign-exact true v = ground (arith, negated v)
with_sign-exact false v = ground (arith, kept_positive v)

trim_left-keeps : (s : List ℕ) → All (λ c. 33 ≤ c) s → trim_left s ≡ s
unfolding trim_left
trim_left-keeps [] h = refl
trim_left-keeps (c ∷ s) h = ground (arith, h.0)

keep_unless_last-keeps : (c : ℕ) (s : List ℕ) → 33 ≤ c → keep_unless_last c s ≡ c ∷ s
keep_unless_last-keeps c [] h = ground (arith, h)
keep_unless_last-keeps c (d ∷ s) h = refl

trim_right-keeps : (s : List ℕ) → All (λ c. 33 ≤ c) s → trim_right s ≡ s
unfolding trim_right
trim_right-keeps [] h = refl
trim_right-keeps (c ∷ s) h =
    ap (keep_unless_last c) (trim_right-keeps s h.1) ∙ keep_unless_last-keeps c s h.0

pub trim_space-keeps : (s : List ℕ) → All (λ c. 33 ≤ c) s → trim_space s ≡ s
unfolding trim_space
trim_space-keeps s h = ap trim_right (trim_left-keeps s h) ∙ trim_right-keeps s h

pub no_space : (s : List ℕ) → All IsDigit s → All (λ c. 33 ≤ c) s
no_space [] h = tt
no_space (c ∷ s) h = (omega (arith, h.0), no_space s h.1)

pub data Sign : Type 0 where
  minus plus unsigned : Sign

abbrev pub sign_text : Sign → List ℕ
sign_text minus = 45 ∷ []
sign_text plus = 43 ∷ []
sign_text unsigned = []

abbrev pub is_minus : Sign → Bool
is_minus minus = true
is_minus plus = false
is_minus unsigned = false

magnitude-exact :
    (neg : Bool) (c : ℕ) (s : List ℕ)
    → All IsDigit (c ∷ s)
    → parse_magnitude neg (c ∷ s) ≡ exact_int64 neg (value_from 0 (c ∷ s))
unfolding parse_magnitude
magnitude-exact neg c s h =
    ap (with_sign neg) (parse_digits-value (c ∷ s) 0 h (omega arith))
    ∙ with_sign-exact neg (value_from 0 (c ∷ s))

signed-exact :
    (sign : Sign) (c : ℕ) (s : List ℕ)
    → All IsDigit (c ∷ s)
    → parse_signed (sign_text sign ++ c ∷ s) ≡ exact_int64 (is_minus sign) (value_from 0 (c ∷ s))
unfolding parse_signed
signed-exact minus c s h = magnitude-exact true c s h
signed-exact plus c s h = magnitude-exact false c s h
signed-exact unsigned c s h = ground (arith, h.0, magnitude-exact false c s h)

spaceless :
    (sign : Sign) (c : ℕ) (s : List ℕ)
    → All IsDigit (c ∷ s)
    → All (λ d. 33 ≤ d) (sign_text sign ++ c ∷ s)
spaceless minus c s h = (omega arith, no_space (c ∷ s) h)
spaceless plus c s h = (omega arith, no_space (c ∷ s) h)
spaceless unsigned c s h = no_space (c ∷ s) h

-- A text of digits, one at least, with a sign or without is parsed to the integer that it stands for if
-- that is an int64, the least one included, and refused as an overflow otherwise.
pub parse_int64-exact :
    (sign : Sign) (c : ℕ) (s : List ℕ)
    → All IsDigit (c ∷ s)
    → parse_int64 (sign_text sign ++ c ∷ s) ≡ exact_int64 (is_minus sign) (value_from 0 (c ∷ s))
unfolding parse_int64
parse_int64-exact sign c s h =
    ap parse_signed (trim_space-keeps (sign_text sign ++ c ∷ s) (spaceless sign c s h))
    ∙ signed-exact sign c s h
