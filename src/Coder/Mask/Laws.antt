-- ===== src/Coder/Mask/Laws.antt =====
-- The mask of a list of values has the length that the reader takes, and bit `i` is set exactly
-- when value `i` is null.
use omnibeam_go.Common.{
  ℕ, zero, suc, ◌+◌, ◌*◌, ◌/◌, ◌%◌, ◌≤◌, ◌<◌, ◌≡◌, refl, false, ◌&&◌, ◌||◌, List, [], ◌∷◌, length,
  get_or, replicate, All, ◌==◌, if◌then◌else◌, arith, length-replicate, ◌∙◌,
}
use omnibeam_go.Common.Word.{IsByte}
use omnibeam_go.Common.Bits.{test_bit, set_bit-IsByte, test_bit-set_bit, test_bit-zero}
use omnibeam_go.Record.{FieldValue}
use omnibeam_go.Coder.Mask.{set_byte_bit, is_masked, mark_nulls, mask_len, write_null_mask}

length-set_byte_bit : (mask : List ℕ) (i j : ℕ) → length (set_byte_bit mask i j) ≡ length mask
unfolding set_byte_bit
length-set_byte_bit [] i j = refl
length-set_byte_bit (b ∷ mask) zero j = refl
length-set_byte_bit (b ∷ mask) (suc i) j = omega (arith, length-set_byte_bit mask i j)

set_byte_bit-IsByte :
    (mask : List ℕ) (i j : ℕ) → All IsByte mask → j < 8 → All IsByte (set_byte_bit mask i j)
unfolding set_byte_bit
set_byte_bit-IsByte [] i j h hj = tt
set_byte_bit-IsByte (b ∷ mask) zero j h hj = (set_bit-IsByte b j h.0 hj, h.1)
set_byte_bit-IsByte (b ∷ mask) (suc i) j h hj = (h.0, set_byte_bit-IsByte mask i j h.1 hj)

-- A bit that is set is set; the others of the mask stay.
test-set :
    (mask : List ℕ) (i j p k : ℕ)
    → All IsByte mask
    → i < length mask
    → j < 8
    → k < 8
    → test_bit (get_or (set_byte_bit mask i j) p 0) k
      ≡ ((i == p) && (j == k) || test_bit (get_or mask p 0) k)
unfolding set_byte_bit
test-set [] i j p k h hi hj hk = absurd (omega arith)
test-set (b ∷ mask) zero j zero k h hi hj hk = ground (arith, test_bit-set_bit b j k h.0 hj hk)
test-set (b ∷ mask) zero j (suc p) k h hi hj hk = ground arith
test-set (b ∷ mask) (suc i) j zero k h hi hj hk = ground arith
test-set (b ∷ mask) (suc i) j (suc p) k h hi hj hk =
    ground (arith, test-set mask i j p k h.1 (omega arith) hj hk)

is_masked-set :
    (mask : List ℕ) (i p : ℕ)
    → All IsByte mask
    → i < 8 * length mask
    → is_masked (set_byte_bit mask (i / 8) (i % 8)) p ≡ (i == p || is_masked mask p)
unfolding is_masked
is_masked-set mask i p h hi = ground (
  arith,
  test-set mask (i / 8) (i % 8) (p / 8) (p % 8) h (omega arith) (omega arith) (omega arith),
)

-- The bits from index `i` on say which of the values are null.
abbrev pub Marks : List ℕ → ℕ → List FieldValue → Type 0
Marks mask i [] = Unit
Marks mask i (fv ∷ values) = (is_masked mask i ≡ fv.is_null) × Marks mask (suc i) values

-- Where no bit from `i` on is set before.
abbrev ClearFrom : List ℕ → ℕ → Type 0
ClearFrom mask i = (p : ℕ) → i ≤ p → is_masked mask p ≡ false

-- What the loop makes of the mask at one value.
abbrev step : FieldValue → ℕ → List ℕ → List ℕ
step fv i mask = if fv.is_null then set_byte_bit mask (i / 8) (i % 8) else mask

module _ (fv : FieldValue) (i : ℕ) (mask : List ℕ) (bytes : All IsByte mask) where
  step-IsByte : All IsByte (step fv i mask)
  step-IsByte = ground (arith, set_byte_bit-IsByte mask (i / 8) (i % 8) bytes (omega arith))

  length-step : length (step fv i mask) ≡ length mask
  length-step = ground (arith, length-set_byte_bit mask (i / 8) (i % 8))

  is_masked-step :
      (p : ℕ)
      → i < 8 * length mask
      → is_masked (step fv i mask) p ≡ ((i == p) && fv.is_null || is_masked mask p)
  is_masked-step p h = ground (arith, is_masked-set mask i p bytes h)

module _ where
  mark_nulls-before :
      (values : List FieldValue) (i : ℕ) (mask : List ℕ) (p : ℕ)
      → All IsByte mask
      → i + length values ≤ 8 * length mask
      → p < i
      → is_masked (mark_nulls i values mask) p ≡ is_masked mask p
  unfolding mark_nulls
  mark_nulls-before [] i mask p bytes fits h = refl
  mark_nulls-before (fv ∷ values) i mask p bytes fits h = ground (
    arith,
    mark_nulls-before values (suc i) (step fv i mask) p (step-IsByte fv i mask bytes),
    length-step fv i mask bytes,
    is_masked-step fv i mask bytes p,
  )

  mark_nulls-Marks :
      (values : List FieldValue) (i : ℕ) (mask : List ℕ)
      → All IsByte mask
      → i + length values ≤ 8 * length mask
      → ClearFrom mask i
      → Marks (mark_nulls i values mask) i values
  unfolding mark_nulls
  mark_nulls-Marks [] i mask bytes fits clear = tt
  mark_nulls-Marks (fv ∷ values) i mask bytes fits clear = (
    ground (
      arith,
      mark_nulls-before values (suc i) (step fv i mask) i (step-IsByte fv i mask bytes),
      length-step fv i mask bytes,
      is_masked-step fv i mask bytes i,
      clear i,
    ),
    mark_nulls-Marks values (suc i) (step fv i mask) (step-IsByte fv i mask bytes)
        (omega (arith, length-step fv i mask bytes))
        (λ p h. ground (arith, is_masked-step fv i mask bytes p, clear p)),
  )

  length-mark_nulls :
      (values : List FieldValue) (i : ℕ) (mask : List ℕ)
      → All IsByte mask
      → length (mark_nulls i values mask) ≡ length mask
  unfolding mark_nulls
  length-mark_nulls [] i mask bytes = refl
  length-mark_nulls (fv ∷ values) i mask bytes =
      length-mark_nulls values (suc i) (step fv i mask) (step-IsByte fv i mask bytes)
      ∙ length-step fv i mask bytes

  zeros-IsByte : (n : ℕ) → All IsByte (replicate n 0)
  zeros-IsByte zero = tt
  zeros-IsByte (suc n) = (omega arith, zeros-IsByte n)

  get_or-zeros : (n i : ℕ) → ◌≡◌ {A = ℕ} (get_or (replicate n 0) i 0) 0
  get_or-zeros zero i = refl
  get_or-zeros (suc n) zero = refl
  get_or-zeros (suc n) (suc i) = get_or-zeros n i

-- Bit `i` of the mask is set exactly when value `i` is null.
pub write_null_mask-Marks : (values : List FieldValue) → Marks (write_null_mask values) 0 values
unfolding write_null_mask is_masked
write_null_mask-Marks values =
    mark_nulls-Marks values 0 _ (zeros-IsByte (mask_len (length values)))
      (omega (arith, length-replicate {A = ℕ} (mask_len (length values)) 0))
      (λ p h.
        rw (get_or-zeros (mask_len (length values)) (p / 8)) (test_bit-zero (p % 8) (omega arith)))

-- The mask has one bit for each value, rounded up to whole bytes.
pub length-write_null_mask :
    (values : List FieldValue) → length (write_null_mask values) ≡ mask_len (length values)
unfolding write_null_mask
length-write_null_mask values =
    length-mark_nulls values 0 _ (zeros-IsByte (mask_len (length values)))
    ∙ length-replicate {A = ℕ} (mask_len (length values)) 0
