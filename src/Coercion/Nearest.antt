-- ===== src/Coercion/Nearest.antt =====
-- Rounding digits to a scale, for `CoerceDecimalFast` of internal/domain/coercion.go.
use native.Mathlib.Nat.{pow-suc, one-le-pow, mul-le-mul_right}
use omnibeam_go.Common.{
  ℕ, zero, suc, ◌+◌, ◌*◌, ◌-◌, ◌%◌, ◌^◌, ◌≤◌, ◌<◌, ◌≡◌, ◌∙◌, ◌⊎◌, inl, inr, List, [], ◌∷◌, length,
  take, All, leb, if◌then◌else◌, arith,
}
use omnibeam_go.Numbers.Exact.{IsDigit, value_from, by_size}
use omnibeam_go.Coercion.Scan.{next_digit, take-nil}
use omnibeam_go.Coercion.Decimal.{pad}

pub pad-exact : (k m : ℕ) → m * 10 ^ k < 2 ^ 64 → pad k m ≡ m * 10 ^ k
unfolding pad
pad-exact zero m h = omega arith
pad-exact (suc k) m h = rw (modulo, pow-suc 10 k) (pad-exact k (m * 10) enough ∙ grind arith)
  where
    enough : m * 10 * 10 ^ k < 2 ^ 64
    enough = grind (arith, rw (pow-suc 10 k) at h)

    modulo : m * 10 % 2 ^ 64 ≡ m * 10
    modulo = grind (arith, enough, one-le-pow k 10)

split_step :
    (n e p w v u : ℕ)
    → e ≤ 9
    → v ≡ (n * 10 + e) * p + w
    → u ≡ (0 + e) * p + w
    → w < p
    → (v ≡ n * (p * 10) + u) × (u < p * 10)
split_step n e p w v u he hv hu hw = grind arith

-- The number that digits stand for, from the number that stands before them.
value_split :
    (s : List ℕ) (n : ℕ)
    → All IsDigit s
    → (value_from n s ≡ n * 10 ^ length s + value_from 0 s) × (value_from 0 s < 10 ^ length s)
value_split [] n h = omega arith
value_split (c ∷ s) n h = rw (pow-suc 10 (length s)) (
    split_step n (c - 48) (10 ^ length s) (value_from 0 s) _ _ (omega (arith, h.0))
      (value_split s (n * 10 + (c - 48)) h.1).0 (value_split s (0 + (c - 48)) h.1).0
      (value_split s 0 h.1).1)

-- `r` is the integer nearest to `n / p`, the larger one of two.
abbrev pub IsNearest : ℕ → ℕ → ℕ → Type 0
IsNearest n p r = (2 * (r * p) ≤ 2 * n + p) × (2 * n + p < 2 * (r * p) + 2 * p)

pub nearest_unique : (n p r q : ℕ) → IsNearest n p r → IsNearest n p q → r ≡ q
nearest_unique n p r q h k = grind (arith, h, k, p)

-- The digit behind the point decides whether to round up.
abbrev pub carry : ℕ → ℕ
carry digit = if leb 5 digit then 1 else 0

round_step :
    (n e p w v : ℕ) → e ≤ 9 → v ≡ (n * 10 + e) * p + w → w < p → IsNearest v (p * 10) (n + carry e)
round_step n e p w v he hv hw = elim (by_size e 5) [
  | inl down ↦ rw (no_carry e down, hv) (grind (arith, mul-le-mul_right p (below e down)))
  | inr up ↦ rw (one_carry e up, hv) (grind (arith, mul-le-mul_right p up, mul-le-mul_right p he))
]
  where
    no_carry : (e : ℕ) → e < 5 → carry e ≡ 0
    no_carry e h = ground arith

    one_carry : (e : ℕ) → 5 ≤ e → carry e ≡ 1
    one_carry e h = ground arith

    below : (e : ℕ) → e < 5 → e ≤ 4
    below e h = omega arith

-- With `a` zeros to append or `b` digits too many, of which one is none, the digits of the scale are
-- rounded to the nearest.
pub rounded-IsNearest :
    (s : List ℕ) (n t a b : ℕ)
    → All IsDigit s
    → length s + a ≡ t + b
    → (a ≡ 0) ⊎ (b ≡ 0)
    → IsNearest
        (value_from n s * 10 ^ a)
        (10 ^ b)
        (value_from n (take t s) * 10 ^ a + carry (next_digit t s))
rounded-IsNearest [] n t a zero h e o = rw (take-nil t) (omega arith)
rounded-IsNearest [] n t a (suc b) h e (inl none_left) = absurd (omega (arith, e, none_left))
rounded-IsNearest [] n t a (suc b) h e (inr some_left) = absurd (omega (arith, some_left))
rounded-IsNearest (c ∷ s) n zero a b h e (inr some_left) = absurd (omega (arith, e, some_left))
rounded-IsNearest (c ∷ s) n zero a b h e (inl none_left) =
    let all_left : b ≡ suc (length s) = omega (arith, e, none_left) in
    rw
      (
        none_left,
        all_left,
        pow-suc 10 (length s),
        times_one n,
        times_one (value_from (n * 10 + (c - 48)) s),
      )
      (round_step n (c - 48) (10 ^ length s) (value_from 0 s) _ (omega (arith, h.0))
        (value_split s (n * 10 + (c - 48)) h.1).0 (value_split s 0 h.1).1)
  where
    times_one : (m : ℕ) → m * 1 ≡ m
    times_one m = omega arith
rounded-IsNearest (c ∷ s) n (suc t) a b h e o =
    rounded-IsNearest s (n * 10 + (c - 48)) t a b h.1 (omega (arith, e)) o
