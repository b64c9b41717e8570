-- ===== src/Wire/Varint/RoundTrip.antt =====
-- Reading back what `writeVarint` wrote.
use omnibeam_go.Common.{ℕ, ◌≤◌, ◌≡◌, ap, ◌∙◌, List, ◌++◌, length, All, arith}
use omnibeam_go.Common.Int.{ℤ, pos, negsuc}
use omnibeam_go.Common.Word.{IsByte, IsU64, IsI64, to_u64, of_u64}
use omnibeam_go.Wire.Reader.{ok, pure, bind-ok}
use omnibeam_go.Wire.Varint.{put_uvarint, read_uvarint, zigzag, unzigzag, write_varint, read_varint}
use omnibeam_go.Wire.Varint.Groups.{read_uvarint-put_uvarint, put_uvarint_shape}

pub zigzag-IsU64 : (z : ℤ) → IsU64 (zigzag z)
unfolding zigzag to_u64
zigzag-IsU64 (pos n) = ground arith
zigzag-IsU64 (negsuc n) = ground arith

pub unzigzag-zigzag : (z : ℤ) → IsI64 z → unzigzag (zigzag z) ≡ z
unfolding zigzag unzigzag to_u64 of_u64
unzigzag-zigzag (pos n) h = ground arith
unzigzag-zigzag (negsuc n) h = ground arith

read_uvarint-whole :
    (v : ℕ) (rest : List ℕ) → IsU64 v → read_uvarint 10 0 0 (put_uvarint 9 v ++ rest) ≡ (ok v, rest)
read_uvarint-whole v rest h =
    read_uvarint-put_uvarint 9 v 0 0 rest (omega arith) (omega arith) (omega arith)
    ∙ ap (λ (t : ℕ). pure t rest) (omega arith)

-- An int64 that is written is read back, and what follows it is left.
pub read_varint-write_varint :
    (z : ℤ) (rest : List ℕ) → IsI64 z → read_varint (write_varint z ++ rest) ≡ (ok z, rest)
unfolding read_varint write_varint
read_varint-write_varint z rest h =
    bind-ok (read_uvarint 10 0 0) (λ ux. pure (unzigzag ux)) _
      (read_uvarint-whole (zigzag z) rest (zigzag-IsU64 z))
    ∙ ap (λ (t : ℤ). pure t rest) (unzigzag-zigzag z h)

-- A written int64 takes one to ten bytes.
write_varint_shape :
    (z : ℤ)
    → All IsByte (write_varint z) × (1 ≤ length (write_varint z)) × (length (write_varint z) ≤ 10)
unfolding write_varint
write_varint_shape z = ground (arith, put_uvarint_shape 9 (zigzag z), zigzag-IsU64 z)
