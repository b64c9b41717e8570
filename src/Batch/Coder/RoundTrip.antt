-- ===== src/Batch/Coder/RoundTrip.antt =====
-- Decoding what `RecordBatchEncoder` of internal/beam/core/record_batch_coder.go writes.
use omnibeam_go.Common.{
  ℕ, zero, suc, ◌^◌, ◌≤◌, ◌<◌, ◌≡◌, refl, ◌∙◌, Bool, true, false, List, [], ◌∷◌, ◌++◌, length,
  length-map, take, drop, append_assoc, map, All, arith, ◌==◌, if◌then◌else◌, not,
}
use omnibeam_go.Common.Int.{pos}
use omnibeam_go.Common.Word.{IsU64}
use omnibeam_go.Wire.Reader.{ok, ◌>>=◌, pure, bind-ok, read_full, throw, field_count_mismatch}
use omnibeam_go.Common.Dict.{Dict}
use omnibeam_go.Batch.{Batch, Column, schema_fields, words, capacity_of, new_batch}
use omnibeam_go.Batch.Coder.{
  put_le, le_of, write_each, write_word, write_column, write_audit, write_audits, encode_batch,
  read_le, read_each, read_columns, read_audit, filled, decode_rows, decode_header, decode_batch,
}
use omnibeam_go.Batch.Coder.Parts
use omnibeam_go.Batch.Coder.Columns.{
  IsEncodable, carried_column, carried, read_words, each_back, read_columns-write_each,
}

write_audits_each :
    (n : ℕ) (ms : List (Dict (List ℕ)))
    → length ms ≡ n
    → write_audits n ms ≡ write_each write_audit ms
unfolding write_audits write_each
write_audits_each zero [] h = refl
write_audits_each zero (m ∷ ms) h = absurd (omega (arith, h))
write_audits_each (suc n) [] h = absurd (omega (arith, h))
write_audits_each (suc n) (m ∷ ms) h = rw (write_audits_each n ms (omega (arith, h)))

-- What the coder carries: lengths of the widths that are written, words of the sizes of their types.
pub record IsWithinLimits (b : Batch) : Type 0 where
  pub rows : b.row_count < 2 ^ 32
  pub width : length b.columns < 2 ^ 32
  pub mask : words b.row_count ≤ length b.valid_mask
  pub mask64 : All IsU64 b.valid_mask
  pub columns : All (IsEncodable (words b.row_count) b.row_count) b.columns
  pub audits : length b.audit_values ≡ b.row_count
  pub entries : All Parts.IsAudit b.audit_values

module _ (b : Batch) (h : IsWithinLimits b) (rest : List ℕ) where
  mask_bytes : List ℕ
  mask_bytes = write_each write_word (take (words b.row_count) b.valid_mask)

  column_bytes : List ℕ
  column_bytes = write_each (write_column (words b.row_count)) b.columns

  audit_bytes : List ℕ
  audit_bytes = write_audits b.row_count b.audit_values

  audits_back : read_each read_audit b.row_count (audit_bytes ++ rest) ≡ (ok b.audit_values, rest)
  unfolding audit_bytes
  audits_back = rw (write_audits_each b.row_count b.audit_values h.audits) (
      each_back write_audit read_audit Parts.IsAudit Parts.read_audit-write_audit b.row_count
        b.audit_values rest h.audits h.entries)

  decode_rows-back :
      decode_rows b.row_count
        (new_batch (schema_fields b) (pos b.row_count))
        (mask_bytes ++ (column_bytes ++ (audit_bytes ++ rest)))
      ≡ (ok (carried b), rest)
  unfolding decode_rows filled new_batch carried mask_bytes column_bytes
  decode_rows-back =
      let n = b.row_count in
      let fresh = new_batch (schema_fields b) (pos n) in
      let ws : List ℕ = take (words n) b.valid_mask in
      let cs : List Column =
        map (carried_column (words n) (words (capacity_of (pos n)))) b.columns in
      bind-ok (read_each (read_le 8) (words n))
        (λ ws. read_columns (words n) n fresh.columns >>= λ cs.
          read_each read_audit n >>= λ ms. pure (filled n fresh ws cs ms))
        _ (read_words (words n) b.valid_mask _ h.mask h.mask64)
      ∙ bind-ok (read_columns (words n) n fresh.columns)
          (λ cs. read_each read_audit n >>= λ ms. pure (filled n fresh ws cs ms)) _
          (read_columns-write_each (words n) n (words (capacity_of (pos n))) b.columns
            (audit_bytes ++ rest) h.columns)
      ∙ bind-ok (read_each read_audit n) (λ ms. pure (filled n fresh ws cs ms)) _ audits_back

  encoded :
      encode_batch b ++ rest
      ≡ (put_le 4 b.row_count ++ put_le 4 (length b.columns))
        ++ (mask_bytes ++ (column_bytes ++ (audit_bytes ++ rest)))
  unfolding encode_batch mask_bytes column_bytes audit_bytes
  encoded =
      rw
        (
          append_assoc (put_le 4 b.row_count)
              (put_le 4 (length b.columns) ++ (mask_bytes ++ (column_bytes ++ audit_bytes))) rest,
          append_assoc (put_le 4 (length b.columns)) (mask_bytes ++ (column_bytes ++ audit_bytes))
              rest,
          append_assoc mask_bytes (column_bytes ++ audit_bytes) rest,
          append_assoc column_bytes audit_bytes rest,
          append_assoc (put_le 4 b.row_count) (put_le 4 (length b.columns))
              (mask_bytes ++ (column_bytes ++ (audit_bytes ++ rest))),
        )
        refl

  header_back :
      (n k : ℕ) (src : List ℕ)
      → n ≡ b.row_count
      → k ≡ length b.columns
      → decode_header (schema_fields b) n k src
        ≡ decode_rows b.row_count (new_batch (schema_fields b) (pos b.row_count)) src
  unfolding decode_header
  header_back n k src hn hk =
      rw (hn, hk, length-map (λ (c : Column). c.field) b.columns)
        (by_test (length b.columns == length b.columns) (ground arith))
    where
      by_test :
          (t : Bool)
          → t ≡ true
          → (if not t
                then throw (field_count_mismatch (length b.columns) (length b.columns))
                else decode_rows b.row_count (new_batch (schema_fields b) (pos b.row_count)))
              src
            ≡ decode_rows b.row_count (new_batch (schema_fields b) (pos b.row_count)) src
      by_test true e = refl
      by_test false e = absurd (ground arith)

  pub decode-encode :
      decode_batch (schema_fields b) (encode_batch b ++ rest) ≡ (ok (carried b), rest)
  unfolding decode_batch
  decode-encode = rw encoded (
      bind-ok (read_full 8)
        (λ h. decode_header (schema_fields b) (le_of (take 4 h)) (le_of (drop 4 h))) _
        (Parts.read_full-written 8 (put_le 4 b.row_count ++ put_le 4 (length b.columns)) _
          (Parts.length-header 4 b.row_count (length b.columns)))
      ∙ header_back _ _ _
          (Parts.first_half 4 b.row_count (length b.columns) (omega (arith, h.rows)))
          (Parts.second_half 4 b.row_count (length b.columns) (omega (arith, h.width)))
      ∙ decode_rows-back)
