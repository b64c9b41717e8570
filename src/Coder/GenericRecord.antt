-- ===== src/Coder/GenericRecord.antt =====
-- `EncodeGenericRecord` and `DecodeGenericRecord` of internal/beam/core/coders.go, with the field
-- and audit loops of coders_helpers.go. A nil record is `none`.
pub mod RoundTrip
use omnibeam_go.Common.{
  ℕ, zero, suc, Bool, true, false, ◌||◌, Option, none, some, List, [], ◌∷◌, ◌++◌, length, get_or,
  if◌then◌else◌,
}
use omnibeam_go.Common.Int.{ℤ, pos, negsuc, pos_part, ltb_ℤ, eqb_ℤ}
use omnibeam_go.Common.Dict.{Dict}
use omnibeam_go.Wire.Reader.{
  Reader, Error, wrap, wrap_at, invalid_field_count, is_nil_token, ◌>>=◌, pure, throw, catch,
  context, read_full,
}
use omnibeam_go.Wire.Varint.{write_varint, read_varint}
use omnibeam_go.Wire.Bytes.{write_string, read_string}
use omnibeam_go.Record.{FieldValue, zero_value, GenericRecord}
use omnibeam_go.Coder.Mask.{write_null_mask, mask_len, is_masked}
use omnibeam_go.Coder.Field.{
  data_type_to_byte, byte_to_data_type, encode_field_value, decode_field_value,
}
use omnibeam_go.Coder.Entries.{write_map, read_map_of}

-- `domain.DefaultMaxRecordFields`
abbrev pub default_max_record_fields : ℕ
default_max_record_fields = 10000

unfoldable pub write_field_values : List FieldValue → List ℕ
write_field_values [] = []
write_field_values (fv ∷ values) =
    let rest = write_field_values values in
    if fv.is_null then rest else data_type_to_byte fv.dtype ∷ (encode_field_value fv ++ rest)

-- What `readFieldValues` does at index `i` behind the type byte, and by whether the value is null.
unfoldable pub read_typed : ℕ → List ℕ → Reader FieldValue
read_typed i b = context (decode_field_value (byte_to_data_type (get_or b 0 0))) (wrap_at "field" i)

unfoldable pub read_flagged : Bool → ℕ → Reader FieldValue
read_flagged true i = pure (record zero_value { is_null = true })
read_flagged false i = context (read_full 1) (wrap_at "fieldType" i) >>= read_typed i

unfoldable pub read_field : List ℕ → ℕ → Reader FieldValue
read_field mask i = read_flagged (is_masked mask i) i

-- The loop from index `i` on, over the `n` values that are left.
unfoldable pub read_field_values : List ℕ → ℕ → ℕ → Reader (List FieldValue)
read_field_values mask i zero = pure []
read_field_values mask i (suc n) = do
  v ← read_field mask i
  values ← read_field_values mask (suc i) n
  pure (v ∷ values)

unfoldable pub write_audit_fields : Dict (List ℕ) → List ℕ
write_audit_fields = write_map write_string

unfoldable pub read_audit_fields : Reader (Dict (List ℕ))
read_audit_fields = context read_varint (wrap "auditCount") >>= read_map_of read_string

unfoldable pub encode_generic_record : Option GenericRecord → List ℕ
encode_generic_record none = write_varint (negsuc 0)
encode_generic_record (some rec) =
    write_string rec.schema_id
    ++ (write_varint (pos (length rec.values))
        ++ (write_null_mask rec.values
            ++ (write_field_values rec.values ++ write_audit_fields rec.audit_fields)))

abbrev pub finish_record : List ℕ → List FieldValue → Dict (List ℕ) → Reader (Option GenericRecord)
finish_record s values audit =
    pure (some (record { schema_id = s; values = values; audit_fields = audit }))

-- Behind the null mask.
unfoldable pub decode_values : List ℕ → ℕ → List ℕ → Reader (Option GenericRecord)
decode_values s n mask = do
  values ← read_field_values mask 0 n
  audit ← read_audit_fields
  finish_record s values audit

-- Behind the field count, once it is accepted.
unfoldable pub decode_body : List ℕ → ℕ → Reader (Option GenericRecord)
decode_body s n = context (read_full (mask_len n)) (wrap "nullMask") >>= decode_values s n

unfoldable pub decode_counted : List ℕ → ℤ → Reader (Option GenericRecord)
decode_counted s n =
    if eqb_ℤ n (negsuc 0)
    then pure none
    else (if ltb_ℤ n (pos 0) || ltb_ℤ (pos default_max_record_fields) n
        then throw (invalid_field_count n)
        else decode_body s (pos_part n))

-- The schema's name, or `none` where the token stands for a nil record.
unfoldable pub read_schema_id : Reader (Option (List ℕ))
read_schema_id =
    catch (read_string >>= λ s. pure (some s))
      (λ e. if is_nil_token e then pure none else throw (wrap "schemaID" e))

unfoldable pub decode_named : Option (List ℕ) → Reader (Option GenericRecord)
decode_named none = pure none
decode_named (some s) = context read_varint (wrap "fieldCount") >>= decode_counted s

unfoldable pub decode_generic_record : Reader (Option GenericRecord)
decode_generic_record = read_schema_id >>= decode_named
