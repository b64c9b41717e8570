-- ===== src/Common/Bits/Bitmap.antt =====
-- Bits of words of any width, and a slice of 64-bit words as a bitmap: `m[i/64] |= 1 << (i%64)`,
-- `m[i/64] &^= 1 << (i%64)` and `m[i/64] & (1 << (i%64)) != 0`.
use Prim.Native.Nat.{ℕ, zero, suc, ◌+◌, ◌-◌, ◌*◌, ◌/◌, ◌%◌, ◌^◌, ◌≤◌, ◌<◌, bit_and}
use native.Mathlib.Nat.{pow-suc, one-le-pow}
use mathlib.Core.Path.{◌≡◌, refl}
use mathlib.Core.Bool.{Bool, true, false, not, ◌&&◌, ◌||◌}
use mathlib.Core.List.{List, [], ◌∷◌}
use native.Mathlib.Omega.{arith}
use omnibeam_go.Common.Tests.{◌==◌, if◌then◌else◌}
use omnibeam_go.Common.Lists.{length, get_or, replicate}
use omnibeam_go.Common.Bits.{set_bit, test_bit}
use omnibeam_go.Common.Bits.Digits.{
  bit_or-last, bit_and-last, bit_or-zero, bit_and-zero, bit_and-le,
}

-- `w &^ (1 << j)`
unfoldable pub clear_bit : ℕ → ℕ → ℕ
clear_bit w j = w - bit_and w (2 ^ j)

-- What the three do to the lowest bit and to the others.
test_low : (w : ℕ) → test_bit w 0 ≡ (w % 2 == 1)
unfolding test_bit
test_low w = ground (arith, bit_and-last w 1, bit_and-zero (w / 2))

test_high : (w j : ℕ) → test_bit w (suc j) ≡ test_bit (w / 2) j
unfolding test_bit
test_high w j = ground (arith, bit_and-last w (2 ^ suc j), pow-suc 2 j)

set_low : (w : ℕ) → set_bit w 0 ≡ w / 2 * 2 + 1
unfolding set_bit
set_low w = ground (arith, bit_or-last w 1, bit_or-zero (w / 2))

set_high : (w j : ℕ) → set_bit w (suc j) ≡ set_bit (w / 2) j * 2 + w % 2
unfolding set_bit
set_high w j = ground (arith, bit_or-last w (2 ^ suc j), pow-suc 2 j)

clear_low : (w : ℕ) → clear_bit w 0 ≡ w / 2 * 2
unfolding clear_bit
clear_low w = ground (arith, bit_and-last w 1, bit_and-zero (w / 2))

clear_high : (w j : ℕ) → clear_bit w (suc j) ≡ clear_bit (w / 2) j * 2 + w % 2
unfolding clear_bit
clear_high w j = ground (arith, bit_and-last w (2 ^ suc j), pow-suc 2 j, bit_and-le (w / 2) (2 ^ j))

test_of_half : (w x k : ℕ) → w / 2 ≡ x → test_bit w (suc k) ≡ test_bit x k
test_of_half w x k h = rw h at (test_high w k)

pub test-set : (j k w : ℕ) → test_bit (set_bit w j) k ≡ (j == k || test_bit w k)
test-set zero zero w = ground (arith, set_low w, test_low w, test_low (set_bit w 0))
test-set zero (suc k) w =
    ground (arith, test_of_half (set_bit w 0) (w / 2) k (omega (arith, set_low w)), test_high w k)
test-set (suc j) zero w = ground (arith, set_high w j, test_low w, test_low (set_bit w (suc j)))
test-set (suc j) (suc k) w = ground (
  arith,
  test_of_half (set_bit w (suc j)) (set_bit (w / 2) j) k (omega (arith, set_high w j)),
  test_high w k,
  test-set j k (w / 2),
)

pub test-clear : (j k w : ℕ) → test_bit (clear_bit w j) k ≡ (not (j == k) && test_bit w k)
test-clear zero zero w = ground (arith, clear_low w, test_low w, test_low (clear_bit w 0))
test-clear zero (suc k) w =
    ground
      (arith, test_of_half (clear_bit w 0) (w / 2) k (omega (arith, clear_low w)), test_high w k)
test-clear (suc j) zero w =
    ground (arith, clear_high w j, test_low w, test_low (clear_bit w (suc j)))
test-clear (suc j) (suc k) w = ground (
  arith,
  test_of_half (clear_bit w (suc j)) (clear_bit (w / 2) j) k (omega (arith, clear_high w j)),
  test_high w k,
  test-clear j k (w / 2),
)

-- The bits of a word of `n` ones, and of none.
pub test-ones : (n k : ℕ) → k < n → test_bit (2 ^ n - 1) k ≡ true
test-ones zero k h = absurd (omega arith)
test-ones (suc n) zero h = ground (arith, test_low (2 ^ suc n - 1), pow-suc 2 n, one-le-pow n 2)
test-ones (suc n) (suc k) h = ground (
  arith,
  test_of_half (2 ^ suc n - 1) (2 ^ n - 1) k (omega (arith, pow-suc 2 n, one-le-pow n 2)),
  test-ones n k (omega arith),
)

pub test-zero : (k : ℕ) → test_bit 0 k ≡ false
unfolding test_bit
test-zero zero = refl
test-zero (suc k) = rw (test_high 0 k) (test-zero k)

-- A bit within the width leaves the word within it.
pub set_bit-lt : (n j w : ℕ) → j < n → w < 2 ^ n → set_bit w j < 2 ^ n
set_bit-lt zero j w h lt = absurd (omega arith)
set_bit-lt (suc n) zero w h lt = ground (arith, set_low w, pow-suc 2 n)
set_bit-lt (suc n) (suc j) w h lt = ground (
  arith,
  set_high w j,
  pow-suc 2 n,
  set_bit-lt n j (w / 2) (omega arith) (omega (arith, pow-suc 2 n)),
)

-- `m[i/64] & (1 << (i%64)) != 0`, `m[i/64] |= 1 << (i%64)` and `m[i/64] &^= 1 << (i%64)`.
unfoldable pub bit_at : List ℕ → ℕ → Bool
bit_at m i = test_bit (get_or m (i / 64) 0) (i % 64)

abbrev pub update_at {ℓ} : {A : Type ℓ} → (A → A) → List A → ℕ → List A
update_at f [] i = []
update_at f (x ∷ xs) zero = f x ∷ xs
update_at f (x ∷ xs) (suc i) = x ∷ update_at f xs i

unfoldable pub mark : List ℕ → ℕ → List ℕ
mark m i = update_at (λ w. set_bit w (i % 64)) m (i / 64)

unfoldable pub unmark : List ℕ → ℕ → List ℕ
unmark m i = update_at (λ w. clear_bit w (i % 64)) m (i / 64)

length-update_at {ℓ} :
    {A : Type ℓ} (f : A → A) (xs : List A) (i : ℕ) → length (update_at f xs i) ≡ length xs
length-update_at f [] i = refl
length-update_at f (x ∷ xs) zero = refl
length-update_at f (x ∷ xs) (suc i) = omega (arith, length-update_at f xs i)

pub update_at_beyond {ℓ} :
    {A : Type ℓ} (f : A → A) (xs : List A) (i : ℕ) → length xs ≤ i → update_at f xs i ≡ xs
update_at_beyond f [] i h = refl
update_at_beyond f (x ∷ xs) zero h = absurd (omega arith)
update_at_beyond f (x ∷ xs) (suc i) h = rw (update_at_beyond f xs i (omega arith))

get_or-update_at {ℓ} :
    {A : Type ℓ} (f : A → A) (xs : List A) (i k : ℕ) (d : A)
    → i < length xs
    → get_or (update_at f xs i) k d ≡ (if i == k then f (get_or xs k d) else get_or xs k d)
get_or-update_at f [] i k d h = absurd (omega arith)
get_or-update_at f (x ∷ xs) zero zero d h = refl
get_or-update_at f (x ∷ xs) zero (suc k) d h = ground arith
get_or-update_at f (x ∷ xs) (suc i) zero d h = ground arith
get_or-update_at f (x ∷ xs) (suc i) (suc k) d h =
    ground (arith, get_or-update_at f xs i k d (omega arith))

pub length-mark : (m : List ℕ) (i : ℕ) → length (mark m i) ≡ length m
unfolding mark
length-mark m i = length-update_at (λ w. set_bit w (i % 64)) m (i / 64)

pub length-unmark : (m : List ℕ) (i : ℕ) → length (unmark m i) ≡ length m
unfolding unmark
length-unmark m i = length-update_at (λ w. clear_bit w (i % 64)) m (i / 64)

pub bit_at-mark :
    (m : List ℕ) (i k : ℕ) → i / 64 < length m → bit_at (mark m i) k ≡ (i == k || bit_at m k)
unfolding bit_at mark
bit_at-mark m i k h = ground (
  arith,
  get_or-update_at (λ w. set_bit w (i % 64)) m (i / 64) (k / 64) 0 h,
  test-set (i % 64) (k % 64) (get_or m (k / 64) 0),
)

pub bit_at-unmark :
    (m : List ℕ) (i k : ℕ)
    → i / 64 < length m
    → bit_at (unmark m i) k ≡ (not (i == k) && bit_at m k)
unfolding bit_at unmark
bit_at-unmark m i k h = ground (
  arith,
  get_or-update_at (λ w. clear_bit w (i % 64)) m (i / 64) (k / 64) 0 h,
  test-clear (i % 64) (k % 64) (get_or m (k / 64) 0),
)

get_or-replicate {ℓ} : {A : Type ℓ} (n k : ℕ) (a d : A) → k < n → get_or (replicate n a) k d ≡ a
get_or-replicate zero k a d h = absurd (omega arith)
get_or-replicate (suc n) zero a d h = refl
get_or-replicate (suc n) (suc k) a d h = get_or-replicate n k a d (omega arith)

pub bit_at-ones : (n i : ℕ) → i / 64 < n → bit_at (replicate n (2 ^ 64 - 1)) i ≡ true
unfolding bit_at
bit_at-ones n i h =
    rw (get_or-replicate n (i / 64) (2 ^ 64 - 1) 0 h) (test-ones 64 (i % 64) (omega arith))

pub bit_at-zeros : (n i : ℕ) → i / 64 < n → bit_at (replicate n 0) i ≡ false
unfolding bit_at
bit_at-zeros n i h = rw (get_or-replicate {A = ℕ} n (i / 64) 0 0 h) (test-zero (i % 64))
