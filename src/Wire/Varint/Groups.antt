-- ===== src/Wire/Varint/Groups.antt =====
-- The groups of seven bits, written and read one at a time.
use native.Mathlib.Nat.{div-add-mod}
use native.Mathlib.Numerals.{towards_suc}
use omnibeam_go.Common.{
  ℕ, zero, suc, ◌+◌, ◌*◌, ◌/◌, ◌%◌, ◌^◌, ◌≤◌, ◌<◌, ◌≡◌, ap, List, ◌∷◌, ◌++◌, length, All, arith,
}
use omnibeam_go.Common.Word.{IsByte, IsU64}
use omnibeam_go.Wire.Reader.{ok}
use omnibeam_go.Wire.Varint.{put_uvarint, read_uvarint}

pow_seven : (s : ℕ) → 2 ^ (s + 7) ≡ 128 * 2 ^ s
pow_seven s = simp towards_suc (omega arith)

-- A number shifted by `s` is its low group there and the rest seven bits higher.
low_and_rest : (v at : ℕ) → v / 128 * 2 ^ (at + 7) + v % 128 * 2 ^ at ≡ v * 2 ^ at
low_and_rest v at = omega (
  arith,
  ap (λ (t : ℕ). t * 2 ^ at) (div-add-mod v 128),
  ap (λ (t : ℕ). v / 128 * t) (pow_seven at),
)

read_last :
    (k w x s : ℕ) (rest : List ℕ)
    → w < 128
    → s + 7 * k ≡ 63
    → IsU64 (x + w * 2 ^ s)
    → read_uvarint (suc k) x s (w ∷ rest) ≡ (ok (x + w * 2 ^ s), rest)
unfolding read_uvarint
read_last zero w x s rest hw hs fits =
    let e : s ≡ 63 = omega arith in ground (arith, ap (λ (t : ℕ). w * 2 ^ t) e)
read_last (suc k) w x s rest hw hs fits = ground arith

read_inner :
    (k g x s : ℕ) (rest : List ℕ)
    → g < 128
    → IsU64 (x + g * 2 ^ s)
    → read_uvarint (suc k) x s ((g + 128) ∷ rest) ≡ read_uvarint k (x + g * 2 ^ s) (s + 7) rest
unfolding read_uvarint
read_inner k g x s rest hg fits = ground arith

pub read_uvarint-put_uvarint :
    (k w x s : ℕ) (rest : List ℕ)
    → w < 128 ^ suc k
    → s + 7 * k ≡ 63
    → IsU64 (x + w * 2 ^ s)
    → read_uvarint (suc k) x s (put_uvarint k w ++ rest) ≡ (ok (x + w * 2 ^ s), rest)
unfolding put_uvarint
read_uvarint-put_uvarint zero w x s rest hw hs fits = ground (arith, read_last zero w x s rest)
read_uvarint-put_uvarint (suc k) w x s rest hw hs fits = ground (
  arith,
  read_last (suc k) w x s rest,
  low_and_rest w s,
  read_inner (suc k) (w % 128) x s (put_uvarint k (w / 128) ++ rest),
  read_uvarint-put_uvarint k (w / 128) (x + w % 128 * 2 ^ s) (s + 7) rest (omega arith),
)

pub put_uvarint_shape :
    (k v : ℕ)
    → v < 128 ^ suc k
    → All IsByte (put_uvarint k v)
      × (1 ≤ length (put_uvarint k v))
      × (length (put_uvarint k v) ≤ k + 1)
unfolding put_uvarint
put_uvarint_shape zero v h = omega arith
put_uvarint_shape (suc k) v h = ground (arith, put_uvarint_shape k (v / 128) (omega arith))
