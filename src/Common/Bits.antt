-- ===== src/Common/Bits.antt =====
-- One bit of a byte, set by `b |= 1 << j` and tested by `b & (1 << j) != 0`; the laws are tables
-- over all bytes and bit positions, checked by evaluation.
mod Digits
pub mod Bitmap
use Prim.Native.Nat.{ℕ, zero, suc, ◌^◌, ◌<◌, bit_and, bit_or}
use mathlib.Core.Path.{◌≡◌, refl}
use mathlib.Core.Bool.{Bool, true, false, not, ◌&&◌, ◌||◌}
use native.Mathlib.Omega.{arith}
use omnibeam_go.Common.Tests.{ltb, ◌==◌}

unfoldable pub set_bit : ℕ → ℕ → ℕ
set_bit b j = bit_or b (2 ^ j)

unfoldable pub test_bit : ℕ → ℕ → Bool
test_bit b j = not (bit_and b (2 ^ j) == 0)

same : Bool → Bool → Bool
same true b = b
same false b = not b

-- Over a small range every value is checked.
module _ (test : ℕ → Bool) where
  table_to : ℕ → Bool
  table_to zero = true
  table_to (suc last) = test last && table_to last

  table_to-entry : (i bound : ℕ) → i < bound → table_to bound ≡ true → test i ≡ true
  unfolding table_to
  table_to-entry i zero below checked = absurd (omega arith)
  table_to-entry i (suc last) below checked = ground (arith, table_to-entry i last)

-- What is checked of the byte `b` and the positions `j` and `k`.
check : ℕ → ℕ → ℕ → Bool
unfolding set_bit test_bit same
check b j k = ltb (set_bit b j) 256 && same (test_bit (set_bit b j) k) (j == k || test_bit b k)

-- The three tables, each of the next.
row : ℕ → ℕ → Bool
row b j = table_to (check b j) 8

rows : ℕ → Bool
unfolding row
rows b = table_to (row b) 8

table : table_to rows 256 ≡ true
unfolding table_to rows check
table = refl

check-true : (b j k : ℕ) → b < 256 → j < 8 → k < 8 → check b j k ≡ true
unfolding rows row
check-true b j k hb hj hk =
    table_to-entry (check b j) k 8 hk
      (table_to-entry (row b) j 8 hj (table_to-entry rows b 256 hb table))

check→laws :
    (b j k : ℕ)
    → check b j k ≡ true
    → (set_bit b j < 256) × (test_bit (set_bit b j) k ≡ (j == k || test_bit b k))
unfolding check same
check→laws b j k h = ground arith

pub set_bit-IsByte : (b j : ℕ) → b < 256 → j < 8 → set_bit b j < 256
set_bit-IsByte b j hb hj = (check→laws b j 0 (check-true b j 0 hb hj (omega arith))).0

pub test_bit-set_bit :
    (b j k : ℕ) → b < 256 → j < 8 → k < 8 → test_bit (set_bit b j) k ≡ (j == k || test_bit b k)
test_bit-set_bit b j k hb hj hk = (check→laws b j k (check-true b j k hb hj hk)).1

pub test_bit-zero : (k : ℕ) → k < 8 → test_bit 0 k ≡ false
unfolding test_bit table_to
test_bit-zero k h = ground (arith, table_to-entry (λ i. not (test_bit 0 i)) k 8 h refl)
