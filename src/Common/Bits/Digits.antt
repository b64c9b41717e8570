-- ===== src/Common/Bits/Digits.antt =====
-- `&` and `|` at variables: what they do to the last digit and to the rest.
use Prim.Native.Nat.{
  ℕ, zero, suc, ◌+◌, ◌*◌, ◌/◌, ◌%◌, ◌≤◌, min, max, bit_and, bit_or, digits, bitwise,
  bit_and-bitwise, bit_or-bitwise,
}
use mathlib.Core.Path.{◌≡◌, refl}
use native.Mathlib.Omega.{arith}

-- Any two counts of steps that are enough give the same digits.
module _ (rest : ℕ → ℕ) (op : ℕ → ℕ → ℕ) where
  digits_enough : (x y j k : ℕ) → x ≤ j → x ≤ k → digits rest op j x y ≡ digits rest op k x y
  digits_enough zero y zero zero hj hk = refl
  digits_enough zero y zero (suc k) hj hk = refl
  digits_enough zero y (suc j) zero hj hk = refl
  digits_enough zero y (suc j) (suc k) hj hk = refl
  digits_enough (suc x) y zero k hj hk = absurd (omega arith)
  digits_enough (suc x) y (suc j) zero hj hk = absurd (omega arith)
  digits_enough (suc x) y (suc j) (suc k) hj hk =
      rw (digits_enough (suc x / 2) (y / 2) j k (omega arith) (omega arith))

  last_digit :
      (x y : ℕ)
      → bitwise rest op (suc x) y ≡ bitwise rest op (suc x / 2) (y / 2) * 2 + op (suc x % 2) (y % 2)
  last_digit x y = rw (digits_enough (suc x / 2) (y / 2) x (suc x / 2) (omega arith) (omega arith))

pub bit_or-last : (x y : ℕ) → bit_or x y ≡ bit_or (x / 2) (y / 2) * 2 + max (x % 2) (y % 2)
bit_or-last zero y = simp bit_or-bitwise (omega arith)
bit_or-last (suc x) y = simp bit_or-bitwise (last_digit (λ d. d) max x y)

pub bit_and-last : (x y : ℕ) → bit_and x y ≡ bit_and (x / 2) (y / 2) * 2 + min (x % 2) (y % 2)
bit_and-last zero y = simp bit_and-bitwise (omega arith)
bit_and-last (suc x) y = simp bit_and-bitwise (last_digit (λ d. zero) min x y)

or_nothing : (bound x : ℕ) → x ≤ bound → bit_or x 0 ≡ x
or_nothing bound zero h = simp bit_or-bitwise refl
or_nothing zero (suc x) h = absurd (omega arith)
or_nothing (suc bound) (suc x) h =
    omega (arith, bit_or-last (suc x) 0, or_nothing bound (suc x / 2) (omega arith))

pub bit_or-zero : (x : ℕ) → bit_or x 0 ≡ x
bit_or-zero x = or_nothing x x (omega arith)

and_nothing : (bound x : ℕ) → x ≤ bound → bit_and x 0 ≡ 0
and_nothing bound zero h = simp bit_and-bitwise refl
and_nothing zero (suc x) h = absurd (omega arith)
and_nothing (suc bound) (suc x) h =
    omega (arith, bit_and-last (suc x) 0, and_nothing bound (suc x / 2) (omega arith))

pub bit_and-zero : (x : ℕ) → bit_and x 0 ≡ 0
bit_and-zero x = and_nothing x x (omega arith)

and_smaller : (bound x y : ℕ) → x ≤ bound → bit_and x y ≤ x
and_smaller bound zero y h = simp bit_and-bitwise (omega arith)
and_smaller zero (suc x) y h = absurd (omega arith)
and_smaller (suc bound) (suc x) y h =
    omega (arith, bit_and-last (suc x) y, and_smaller bound (suc x / 2) (y / 2) (omega arith))

pub bit_and-le : (x y : ℕ) → bit_and x y ≤ x
bit_and-le x y = and_smaller x x y (omega arith)
