-- ===== src/Wire/Varint.antt =====
-- `writeVarint` and `readVarint` of internal/beam/core/coders_helpers.go, with the routines of Go's
-- encoding/binary that they call: seven bits a byte, lowest group first, after the zigzag map.
pub mod Groups
pub mod RoundTrip
use omnibeam_go.Common.{
  ℕ, zero, suc, ◌+◌, ◌-◌, ◌*◌, ◌/◌, ◌%◌, ◌^◌, Bool, ◌&&◌, List, [], ◌∷◌, ltb, ◌==◌, if◌then◌else◌,
}
use omnibeam_go.Common.Int.{ℤ, pos, negsuc, ltb_ℤ}
use omnibeam_go.Common.Word.{to_u64, of_u64}
use omnibeam_go.Wire.Reader.{Reader, eof, unexpected_eof, varint_overflow, ok, err, ◌>>=◌, pure}

-- `binary.PutUvarint` into a buffer of `k + 1` bytes.
unfoldable pub put_uvarint : ℕ → ℕ → List ℕ
put_uvarint zero x = (x % 256) ∷ []
put_uvarint (suc k) x =
    let more = put_uvarint k (x / 128) in
    if ltb x 128 then (x % 256) ∷ [] else (x % 128 + 128) ∷ more

-- `binary.ReadUvarint` with `k` of its ten rounds left: what is read so far is below `2 ^ s`, so
-- the source's `|` adds. An end of input is io.EOF only before the first byte.
unfoldable pub read_uvarint : ℕ → ℕ → ℕ → Reader ℕ
read_uvarint zero x s src = (err varint_overflow, src)
read_uvarint (suc k) x s [] = (err (if k == 9 then eof else unexpected_eof), [])
read_uvarint (suc k) x s (b ∷ src) =
    let more = read_uvarint k (x + b % 128 * 2 ^ s % 2 ^ 64) (s + 7) src in
    if ltb b 128
    then (if k == 0 && ltb 1 b
        then (err varint_overflow, src)
        else (ok (x + b * 2 ^ s % 2 ^ 64), src))
    else more

-- `ux := uint64(x) << 1; if x < 0 { ux = ^ux }`
unfoldable pub zigzag : ℤ → ℕ
zigzag z = let ux = to_u64 z * 2 % 2 ^ 64 in if ltb_ℤ z (pos 0) then 2 ^ 64 - 1 - ux else ux

-- `^x` on int64
abbrev pub complement : ℤ → ℤ
complement (pos n) = negsuc n
complement (negsuc n) = pos n

-- `x := int64(ux >> 1); if ux&1 != 0 { x = ^x }`
unfoldable pub unzigzag : ℕ → ℤ
unzigzag ux = let x = of_u64 (ux / 2) in if ux % 2 == 0 then x else complement x

-- `writeVarint`: the buffer holds binary.MaxVarintLen64 = 10 bytes.
unfoldable pub write_varint : ℤ → List ℕ
write_varint v = put_uvarint 9 (zigzag v)

unfoldable pub read_varint : Reader ℤ
read_varint = read_uvarint 10 0 0 >>= λ ux. pure (unzigzag ux)
