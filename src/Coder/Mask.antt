-- ===== src/Coder/Mask.antt =====
-- `writeNullMask` and the bit test of `readFieldValues` in internal/beam/core/coders_helpers.go.
pub mod Laws
use omnibeam_go.Common.{
  ℕ, zero, suc, ◌+◌, ◌/◌, ◌%◌, Bool, List, [], ◌∷◌, length, get_or, replicate, if◌then◌else◌,
}
use omnibeam_go.Common.Bits.{set_bit, test_bit}
use omnibeam_go.Record.{FieldValue}

-- `mask[i/8] |= 1 << (i % 8)`; the mask is long enough for every index that is written.
unfoldable pub set_byte_bit : List ℕ → ℕ → ℕ → List ℕ
set_byte_bit [] i j = []
set_byte_bit (b ∷ mask) zero j = set_bit b j ∷ mask
set_byte_bit (b ∷ mask) (suc i) j = b ∷ set_byte_bit mask i j

-- `mask[i/8] & (1 << (i % 8)) != 0`
unfoldable pub is_masked : List ℕ → ℕ → Bool
is_masked mask i = test_bit (get_or mask (i / 8) 0) (i % 8)

-- The loop over the values from index `i` on.
unfoldable pub mark_nulls : ℕ → List FieldValue → List ℕ → List ℕ
mark_nulls i [] mask = mask
mark_nulls i (fv ∷ values) mask =
    mark_nulls (suc i) values (if fv.is_null then set_byte_bit mask (i / 8) (i % 8) else mask)

-- `maskLen := (len(values) + 7) / 8`
abbrev pub mask_len : ℕ → ℕ
mask_len n = (n + 7) / 8

-- Every path of the source starts from a cleared buffer of that length.
unfoldable pub write_null_mask : List FieldValue → List ℕ
write_null_mask values = mark_nulls 0 values (replicate (mask_len (length values)) 0)
