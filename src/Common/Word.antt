-- ===== src/Common/Word.antt =====
-- Go's 64- and 32-bit integers. A signed word is the integer that it stands for, an unsigned one a
-- number below 2 ^ w; the conversions and the wrap-around of signed arithmetic are written out.
use Prim.Native.Nat.{ℕ, suc, ◌+◌, ◌-◌, ◌%◌, ◌^◌, ◌≤◌, ◌<◌}
use mathlib.Core.Path.{◌≡◌, sym, ap, ◌∙◌}
use native.Mathlib.Omega.{arith}
use omnibeam_go.Common.Tests.{ltb, if◌then◌else◌}
use omnibeam_go.Common.Int.{ℤ, pos, negsuc, pos_part, neg_part, ◌+ℤ◌, ◌-ℤ◌, int_laws}

abbrev pub IsByte : ℕ → Type 0
IsByte b = b < 256

abbrev pub IsU64 : ℕ → Type 0
IsU64 u = u < 2 ^ 64

abbrev pub IsI64 : ℤ → Type 0
IsI64 z = (pos_part z < 2 ^ 63) × (neg_part z ≤ 2 ^ 63)

abbrev pub IsI32 : ℤ → Type 0
IsI32 z = (pos_part z < 2 ^ 31) × (neg_part z ≤ 2 ^ 31)

-- `uint64(z)`: the two's complement bit pattern.
unfoldable pub to_u64 : ℤ → ℕ
to_u64 (pos n) = n % 2 ^ 64
to_u64 (negsuc n) = 2 ^ 64 - 1 - n % 2 ^ 64

-- `int64(u)`
unfoldable pub of_u64 : ℕ → ℤ
of_u64 u = if ltb (u % 2 ^ 64) (2 ^ 63) then pos (u % 2 ^ 64) else negsuc (2 ^ 64 - 1 - u % 2 ^ 64)

-- The value that a signed 64-bit operation stores.
unfoldable pub wrap64 : ℤ → ℤ
unfolding to_u64 of_u64
wrap64 z = of_u64 (to_u64 z)

unfoldable pub to_u32 : ℤ → ℕ
to_u32 (pos n) = n % 2 ^ 32
to_u32 (negsuc n) = 2 ^ 32 - 1 - n % 2 ^ 32

-- `int32(u)` of a 32-bit pattern.
unfoldable pub of_u32 : ℕ → ℤ
of_u32 u = if ltb (u % 2 ^ 32) (2 ^ 31) then pos (u % 2 ^ 32) else negsuc (2 ^ 32 - 1 - u % 2 ^ 32)

unfoldable pub add64 : ℤ → ℤ → ℤ
unfolding wrap64
add64 a b = wrap64 (a +ℤ b)

unfoldable pub sub64 : ℤ → ℤ → ℤ
unfolding wrap64
sub64 a b = wrap64 (a -ℤ b)

pub to_u64-IsU64 : (z : ℤ) → IsU64 (to_u64 z)
unfolding to_u64
to_u64-IsU64 (pos n) = omega arith
to_u64-IsU64 (negsuc n) = omega arith

pub of_u64-IsI64 : (u : ℕ) → IsI64 (of_u64 u)
unfolding of_u64
of_u64-IsI64 u = ground arith

pub of_u64-to_u64 : (z : ℤ) → IsI64 z → of_u64 (to_u64 z) ≡ z
unfolding of_u64 to_u64
of_u64-to_u64 (pos n) h = ground arith
of_u64-to_u64 (negsuc n) h = ground arith

pub to_u64-of_u64 : (u : ℕ) → IsU64 u → to_u64 (of_u64 u) ≡ u
unfolding of_u64 to_u64
to_u64-of_u64 u h = ground arith

pub to_u32-lt : (z : ℤ) → to_u32 z < 2 ^ 32
unfolding to_u32
to_u32-lt (pos n) = omega arith
to_u32-lt (negsuc n) = omega arith

pub of_u32-to_u32 : (z : ℤ) → IsI32 z → of_u32 (to_u32 z) ≡ z
unfolding of_u32 to_u32
of_u32-to_u32 (pos n) h = ground arith
of_u32-to_u32 (negsuc n) h = ground arith

pub wrap64-IsI64 : (z : ℤ) → IsI64 (wrap64 z)
unfolding wrap64
wrap64-IsI64 z = of_u64-IsI64 (to_u64 z)

pub wrap64_id : (z : ℤ) → IsI64 z → wrap64 z ≡ z
unfolding wrap64
wrap64_id z h = of_u64-to_u64 z h

-- Where the exact result fits, the machine's result is exact.
pub add64_exact : (a b : ℤ) → IsI64 (a +ℤ b) → add64 a b ≡ a +ℤ b
unfolding add64
add64_exact a b h = wrap64_id (a +ℤ b) h

pub sub64_exact : (a b : ℤ) → IsI64 (a -ℤ b) → sub64 a b ≡ a -ℤ b
unfolding sub64
sub64_exact a b h = wrap64_id (a -ℤ b) h

-- Signed addition is addition of the bit patterns.
to_u64-+ℤ : (a b : ℤ) → to_u64 (a +ℤ b) ≡ (to_u64 a + to_u64 b) % 2 ^ 64
unfolding to_u64 ◌+ℤ◌
to_u64-+ℤ (pos n) (pos m) = ground arith
to_u64-+ℤ (pos n) (negsuc m) = ground arith
to_u64-+ℤ (negsuc n) (pos m) = ground arith
to_u64-+ℤ (negsuc n) (negsuc m) = ground arith

to_u64-add64 : (a b : ℤ) → to_u64 (add64 a b) ≡ (to_u64 a + to_u64 b) % 2 ^ 64
unfolding add64 wrap64
to_u64-add64 a b = to_u64-of_u64 (to_u64 (a +ℤ b)) (to_u64-IsU64 (a +ℤ b)) ∙ to_u64-+ℤ a b

add64-patterns : (a b : ℤ) → add64 a b ≡ of_u64 ((to_u64 a + to_u64 b) % 2 ^ 64)
unfolding add64 wrap64
add64-patterns a b = ap of_u64 (to_u64-+ℤ a b)

pub add64_comm : (a b : ℤ) → add64 a b ≡ add64 b a
add64_comm a b = add64-patterns a b ∙ ap of_u64 (omega arith) ∙ sym (add64-patterns b a)

pub add64_assoc : (a b c : ℤ) → add64 (add64 a b) c ≡ add64 a (add64 b c)
add64_assoc a b c =
    add64-patterns (add64 a b) c
    ∙ ap of_u64 (omega (arith, to_u64-add64 a b, to_u64-add64 b c))
    ∙ sym (add64-patterns a (add64 b c))

-- Sums of pairs may be taken the other way round.
pub add64_interchange :
    (a b c d : ℤ) → add64 (add64 a b) (add64 c d) ≡ add64 (add64 a c) (add64 b d)
add64_interchange a b c d =
    add64-patterns (add64 a b) (add64 c d)
    ∙ ap of_u64
        (omega (arith, to_u64-add64 a b, to_u64-add64 c d, to_u64-add64 a c, to_u64-add64 b d))
    ∙ sym (add64-patterns (add64 a c) (add64 b d))

pub add64-IsI64 : (a b : ℤ) → IsI64 (add64 a b)
unfolding add64
add64-IsI64 a b = wrap64-IsI64 (a +ℤ b)

+ℤ_zero : (a : ℤ) → a +ℤ pos 0 ≡ a
+ℤ_zero a = omega int_laws

pub add64_zero : (a : ℤ) → IsI64 a → add64 a (pos 0) ≡ a
unfolding add64
add64_zero a h = ap wrap64 (+ℤ_zero a) ∙ wrap64_id a h

pub wrap64-suc : (n : ℕ) → add64 (wrap64 (pos n)) (pos 1) ≡ wrap64 (pos (suc n))
unfolding add64 wrap64 of_u64 to_u64 ◌+ℤ◌
wrap64-suc n = ground arith

pub add64_pos : (a b : ℕ) → a + b < 2 ^ 63 → add64 (pos a) (pos b) ≡ pos (a + b)
add64_pos a b h =
    add64_exact (pos a) (pos b) (unfold ◌+ℤ◌ in ground (arith, h)) ∙ (unfold ◌+ℤ◌ in ground arith)

pub sub64_pos : (a b : ℕ) → b ≤ a → a < 2 ^ 63 → sub64 (pos a) (pos b) ≡ pos (a - b)
sub64_pos a b h fits =
    sub64_exact (pos a) (pos b) (unfold ◌-ℤ◌ in ground (arith, h)) ∙ (unfold ◌-ℤ◌ in ground arith)
