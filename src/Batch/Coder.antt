-- ===== src/Batch/Coder.antt =====
-- `RecordBatchEncoder` and `RecordBatchDecoder` of internal/beam/core/record_batch_coder.go.
pub mod Parts
pub mod Columns
pub mod RoundTrip
pub mod Carried
use omnibeam_go.Common.{
  ℕ, zero, suc, ◌+◌, ◌*◌, ◌/◌, ◌%◌, Bool, List, [], ◌∷◌, ◌++◌, length, take, drop, replicate, map,
  ◌==◌, if◌then◌else◌, not,
}
use omnibeam_go.Common.Int.{ℤ, pos}
use omnibeam_go.Common.Word.{to_u32, of_u32}
use omnibeam_go.Common.Dict.{Dict, insert}
use omnibeam_go.Wire.Reader.{Reader, Error, field_count_mismatch, ◌>>=◌, pure, throw, read_full}
use omnibeam_go.Validate.Plan.{Field, is_decimal}
use omnibeam_go.Batch.{Batch, Column, is_numeric_data_type, words, new_batch, new_column}

-- `binary.LittleEndian` with `k` bytes; what does not fit is cut off, as the conversions to uint16 and
-- uint32 do.
unfoldable pub put_le : ℕ → ℕ → List ℕ
put_le zero u = []
put_le (suc k) u = (u % 256) ∷ put_le k (u / 256)

unfoldable pub le_of : List ℕ → ℕ
le_of [] = 0
le_of (b ∷ bs) = b + 256 * le_of bs

-- A loop that writes each entry.
unfoldable pub write_each {ℓ} : {A : Type ℓ} → (A → List ℕ) → List A → List ℕ
write_each write [] = []
write_each write (x ∷ xs) = write x ++ write_each write xs

-- `put_le 8`, and the scale as `uint32(s)`.
unfoldable pub write_word : ℕ → List ℕ
write_word u = put_le 8 u

unfoldable pub write_int32 : ℤ → List ℕ
write_int32 s = put_le 4 (to_u32 s)

unfoldable pub write_long_text : List ℕ → List ℕ
write_long_text s = put_le 4 (length s) ++ s

unfoldable pub write_column : ℕ → Column → List ℕ
write_column w c =
    write_each write_word (take w c.nulls)
    ++ (if is_numeric_data_type c.field.type_
        then write_each write_word c.nums
          ++ (if is_decimal c.field.type_ then write_each write_int32 c.scales else [])
        else write_each write_long_text c.strs)

unfoldable pub write_entry : List ℕ × List ℕ → List ℕ
write_entry e = put_le 2 (length e.0) ++ (put_le 2 (length e.1) ++ (e.0 ++ e.1))

unfoldable pub write_audit : Dict (List ℕ) → List ℕ
write_audit m = put_le 2 (length m) ++ write_each write_entry m

-- A row without audit values is written as one with none.
unfoldable pub write_audits : ℕ → List (Dict (List ℕ)) → List ℕ
write_audits zero ms = []
write_audits (suc n) [] = write_audit [] ++ write_audits n []
write_audits (suc n) (m ∷ ms) = write_audit m ++ write_audits n ms

-- `Encode`
unfoldable pub encode_batch : Batch → List ℕ
encode_batch b =
    put_le 4 b.row_count
    ++ (put_le 4 (length b.columns)
        ++ (write_each write_word (take (words b.row_count) b.valid_mask)
            ++ (write_each (write_column (words b.row_count)) b.columns
                ++ write_audits b.row_count b.audit_values)))

unfoldable pub read_le : ℕ → Reader ℕ
read_le k = do b ← read_full k; pure (le_of b)

-- A loop of `n` reads.
unfoldable pub read_each {ℓ} : {A : Type ℓ} → Reader A → ℕ → Reader (List A)
read_each read zero = pure []
read_each read (suc n) = do x ← read; xs ← read_each read n; pure (x ∷ xs)

unfoldable pub read_int32 : Reader ℤ
read_int32 = do u ← read_le 4; pure (of_u32 u)

-- An empty text is not read.
unfoldable pub text_of_length : ℕ → Reader (List ℕ)
text_of_length n = if n == 0 then pure [] else read_full n

unfoldable pub read_long_text : Reader (List ℕ)
read_long_text = do n ← read_le 4; text_of_length n

-- The words that are read take the place of the first ones.
abbrev pub overwrite : List ℕ → List ℕ → List ℕ
overwrite ws m = ws ++ drop (length ws) m

unfoldable pub read_vectors : ℕ → Column → Reader Column
read_vectors n c =
    if is_numeric_data_type c.field.type_
    then (do
      ns ← read_each (read_le 8) n
      ks ← (if is_decimal c.field.type_ then read_each read_int32 n else pure [])
      pure (record c { nums = c.nums ++ ns; scales = c.scales ++ ks }))
    else (do ss ← read_each read_long_text n; pure (record c { strs = c.strs ++ ss }))

unfoldable pub read_vector_column : ℕ → ℕ → Column → Reader Column
read_vector_column w n c = do
  ws ← read_each (read_le 8) w
  read_vectors n (record c { nulls = overwrite ws c.nulls })

unfoldable pub read_columns : ℕ → ℕ → List Column → Reader (List Column)
read_columns w n [] = pure []
read_columns w n (c ∷ cs) = do d ← read_vector_column w n c; ds ← read_columns w n cs; pure (d ∷ ds)

unfoldable pub read_audit_entries : ℕ → Dict (List ℕ) → Reader (Dict (List ℕ))
read_audit_entries zero m = pure m
read_audit_entries (suc n) m = do
  b ← read_full 4
  k ← read_full (le_of (take 2 b))
  v ← read_full (le_of (drop 2 b))
  read_audit_entries n (insert k v m)

-- A row without entries gets a nil map.
unfoldable pub read_audit : Reader (Dict (List ℕ))
read_audit = do n ← read_le 2; read_audit_entries n []

-- A batch with what was read of the mask, the columns and the audit values of `n` rows.
unfoldable pub filled : ℕ → Batch → List ℕ → List Column → List (Dict (List ℕ)) → Batch
filled n b ws cs ms = record b {
  valid_mask = overwrite ws b.valid_mask;
  columns = cs;
  audit_values = b.audit_values ++ ms;
  row_count = n;
}

-- Behind the header, into a new batch.
unfoldable pub decode_rows : ℕ → Batch → Reader Batch
decode_rows n b = do
  ws ← read_each (read_le 8) (words n)
  cs ← read_columns (words n) n b.columns
  ms ← read_each read_audit n
  pure (filled n b ws cs ms)

-- Behind the two numbers of the header.
unfoldable pub decode_header : List Field → ℕ → ℕ → Reader Batch
decode_header fs n k =
    if not (k == length fs)
    then throw (field_count_mismatch (length fs) k)
    else decode_rows n (new_batch fs (pos n))

-- `Decode`
unfoldable pub decode_batch : List Field → Reader Batch
decode_batch fs = do h ← read_full 8; decode_header fs (le_of (take 4 h)) (le_of (drop 4 h))
