-- ===== src/Examples/Wire.antt =====
-- Runs of the encoders of internal/beam/core/coders_helpers.go, and their theorems at concrete inputs.
use omnibeam_go.Common.{◌≡◌, refl, [], ◌∷◌, ◌++◌, arith}
use omnibeam_go.Wire.Reader.{ok, err, invalid_length, unexpected_eof, read_full, short_read}
use omnibeam_go.Wire.Bytes.{read_bytes, read_bytes_of}
use omnibeam_go.Common.Int.{negsuc}
use omnibeam_go.Common.Word.{to_u64, of_u64}
use omnibeam_go.Wire.Varint.{put_uvarint, zigzag, write_varint, read_varint, read_uvarint, unzigzag}
use omnibeam_go.Wire.Varint.RoundTrip.{read_varint-write_varint}

write_varint_minus_300 : write_varint (negsuc 299) ≡ 215 ∷ 4 ∷ []
unfolding write_varint put_uvarint zigzag to_u64
write_varint_minus_300 = refl

read_varint-write_varint_example :
    read_varint (write_varint (negsuc 299) ++ 7 ∷ []) ≡ (ok (negsuc 299), 7 ∷ [])
read_varint-write_varint_example = read_varint-write_varint (negsuc 299) (7 ∷ []) (omega arith)

-- A length of -2, and a length of three before two bytes.
read_bytes_refused : read_bytes (3 ∷ 7 ∷ []) ≡ (err (invalid_length (negsuc 1)), 7 ∷ [])
unfolding read_bytes read_bytes_of read_varint read_uvarint unzigzag of_u64
read_bytes_refused = refl

read_bytes_short : read_bytes (6 ∷ 7 ∷ 8 ∷ []) ≡ (err unexpected_eof, [])
unfolding read_bytes read_bytes_of read_varint read_uvarint unzigzag of_u64 read_full short_read
read_bytes_short = refl
