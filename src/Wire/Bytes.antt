-- ===== src/Wire/Bytes.antt =====
-- `writeBytes`, `readBytes` and their string forms of internal/beam/core/coders_helpers.go.
pub mod Untrusted
use omnibeam_go.Common.{
  ℕ, ◌≤◌, ◌≡◌, ◌||◌, List, [], ◌∷◌, ◌++◌, length, if◌then◌else◌, arith, refl, ◌∙◌, append_assoc,
  ◌<◌, ◌^◌, ◌⊎◌,
}
use omnibeam_go.Common.Int.{ℤ, pos, negsuc, pos_part, ◌<ℤ◌, ltb_ℤ, eqb_ℤ}
use omnibeam_go.Common.Word.{IsI64}
use omnibeam_go.Wire.Reader.{
  Reader, ok, err, nil_token, invalid_length, ◌>>=◌, pure, throw, read_full, bind-ok,
  read_full-append,
}
use omnibeam_go.Wire.Varint.{write_varint, read_varint}
use omnibeam_go.Wire.Varint.RoundTrip.{read_varint-write_varint}

-- `domain.DefaultChunkSizeBytes`, 64 MiB.
abbrev pub default_chunk_size_bytes : ℕ
default_chunk_size_bytes = 67108864

unfoldable pub write_bytes : List ℕ → List ℕ
write_bytes b = write_varint (pos (length b)) ++ b

-- `readBytes` behind its length.
unfoldable pub read_bytes_of : ℤ → Reader (List ℕ)
read_bytes_of n =
    if eqb_ℤ n (negsuc 0)
    then throw nil_token
    else (if ltb_ℤ n (negsuc 0) || ltb_ℤ (pos default_chunk_size_bytes) n
        then throw (invalid_length n)
        else (if eqb_ℤ n (pos 0) then pure [] else read_full (pos_part n)))

unfoldable pub read_bytes : Reader (List ℕ)
read_bytes = do n ← read_varint; read_bytes_of n

-- `writeString` and `readString` convert between a string and its bytes.
abbrev pub write_string : List ℕ → List ℕ
write_string = write_bytes

abbrev pub read_string : Reader (List ℕ)
read_string = read_bytes

read_bytes_of-append :
    (b rest : List ℕ)
    → length b ≤ default_chunk_size_bytes
    → read_bytes_of (pos (length b)) (b ++ rest) ≡ (ok b, rest)
unfolding read_bytes_of
read_bytes_of-append [] rest h = refl
read_bytes_of-append (x ∷ b) rest h = ground (arith, read_full-append (x ∷ b) rest)

module _ (b rest : List ℕ) where
  read_length :
      length b < 2 ^ 63
      → read_bytes (write_bytes b ++ rest) ≡ read_bytes_of (pos (length b)) (b ++ rest)
  unfolding read_bytes write_bytes
  read_length h = rw (append_assoc (write_varint (pos (length b))) b rest) (
      bind-ok read_varint read_bytes_of _
        (read_varint-write_varint (pos (length b)) (b ++ rest) (omega arith)))

  -- A string of at most 64 MiB is read back whole, and what follows it is left.
  pub read_bytes-write_bytes :
      length b ≤ default_chunk_size_bytes → read_bytes (write_bytes b ++ rest) ≡ (ok b, rest)
  read_bytes-write_bytes h = read_length (omega arith) ∙ read_bytes_of-append b rest h

-- The length -1 stands for nil.
pub read_bytes_nil :
    (rest : List ℕ) → read_bytes (write_varint (negsuc 0) ++ rest) ≡ (err nil_token, rest)
unfolding read_bytes read_bytes_of
read_bytes_nil rest =
    bind-ok read_varint read_bytes_of _ (read_varint-write_varint (negsuc 0) rest (omega arith))
