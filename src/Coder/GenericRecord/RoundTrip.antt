-- ===== src/Coder/GenericRecord/RoundTrip.antt =====
-- Decoding what `EncodeGenericRecord` wrote.
use omnibeam_go.Common.{
  ℕ, suc, ◌≤◌, ◌<◌, ◌^◌, ◌≡◌, refl, ap, ◌∙◌, Bool, true, false, Option, none, some, List, [], ◌∷◌,
  ◌++◌, length, map, All, arith, append_assoc, if◌then◌else◌,
}
use omnibeam_go.Common.Int.{pos}
use omnibeam_go.Common.Dict.{Dict, IsMap}
use omnibeam_go.Wire.Reader.{
  Reader, Error, ok, wrap, wrap_at, is_nil_token, ◌>>=◌, pure, throw, context, bind-ok, bind-err,
  catch-ok, catch-err, context-ok, read_full, read_full-append,
}
use omnibeam_go.Wire.Varint.{write_varint, read_varint}
use omnibeam_go.Wire.Varint.RoundTrip.{read_varint-write_varint}
use omnibeam_go.Wire.Bytes.{
  write_string, read_string, default_chunk_size_bytes, read_bytes-write_bytes, read_bytes_nil,
}
use omnibeam_go.Record.{FieldValue, zero_value, GenericRecord}
use omnibeam_go.Coder.Mask.{write_null_mask, mask_len}
use omnibeam_go.Coder.Mask.Laws.{Marks, write_null_mask-Marks, length-write_null_mask}
use omnibeam_go.Coder.Field.{
  data_type_to_byte, byte_to_data_type, encode_as, encode_field_value, decode_field_value,
}
use omnibeam_go.Coder.Field.RoundTrip.{IsEncodable, kept, decode_field_value-encode_as}
use omnibeam_go.Coder.Entries.{
  IsWritable, write_entries, write_map, read_map_of, read_map_of-write_entries,
}
use omnibeam_go.Coder.GenericRecord.{
  default_max_record_fields, write_field_values, read_typed, read_flagged, read_field,
  read_field_values, write_audit_fields, read_audit_fields, encode_generic_record, finish_record,
  decode_values, decode_body, decode_counted, read_schema_id, decode_named, decode_generic_record,
}

-- What a value is read back as: of a null value only that it is null.
unfoldable pub restored_as : Bool → FieldValue → FieldValue
restored_as true fv = record zero_value { is_null = true }
restored_as false fv = kept fv.dtype fv

unfoldable pub restored : FieldValue → FieldValue
restored fv = restored_as fv.is_null fv

read_typed-encode :
    (i : ℕ) (fv : FieldValue) (rest : List ℕ)
    → IsEncodable fv
    → read_typed i (data_type_to_byte fv.dtype ∷ []) (encode_field_value fv ++ rest)
      ≡ (ok (kept fv.dtype fv), rest)
unfolding read_typed encode_field_value
read_typed-encode i fv rest h =
    context-ok (decode_field_value (byte_to_data_type (data_type_to_byte fv.dtype)))
      (wrap_at "field" i) (encode_as fv.dtype fv ++ rest)
      (decode_field_value-encode_as fv.dtype fv rest h)

-- What `writeFieldValues` writes of one value.
abbrev written : Bool → FieldValue → List ℕ → List ℕ
written b fv rest = if b then rest else data_type_to_byte fv.dtype ∷ (encode_field_value fv ++ rest)

read_flagged-written :
    (b : Bool) (i : ℕ) (fv : FieldValue) (rest : List ℕ)
    → IsEncodable fv
    → read_flagged b i (written b fv rest) ≡ (ok (restored_as b fv), rest)
unfolding read_flagged restored_as
read_flagged-written true i fv rest h = refl
read_flagged-written false i fv rest h =
    bind-ok (context (read_full 1) (wrap_at "fieldType" i)) (read_typed i) _ (
      context-ok (read_full 1) (wrap_at "fieldType" i) _
        (read_full-append (data_type_to_byte fv.dtype ∷ []) (encode_field_value fv ++ rest)))
    ∙ read_typed-encode i fv rest h

written-append :
    (b : Bool) (fv : FieldValue) (more rest : List ℕ)
    → written b fv more ++ rest ≡ written b fv (more ++ rest)
written-append true fv more rest = refl
written-append false fv more rest =
    ap (λ t. data_type_to_byte fv.dtype ∷ t) (append_assoc (encode_field_value fv) more rest)

-- The values behind a mask that marks the null ones are read back one by one.
read_field_values-write :
    (mask : List ℕ) (values : List FieldValue) (i : ℕ) (rest : List ℕ)
    → Marks mask i values
    → All IsEncodable values
    → read_field_values mask i (length values) (write_field_values values ++ rest)
      ≡ (ok (map restored values), rest)
unfolding read_field_values write_field_values read_field restored_as restored
read_field_values-write mask [] i rest m h = refl
read_field_values-write mask (fv ∷ values) i rest m h =
    let more : List ℕ = write_field_values values ++ rest in
    rw (written-append fv.is_null fv (write_field_values values) rest) (
      bind-ok (read_field mask i)
        (λ v. read_field_values mask (suc i) (length values) >>= λ vs. pure (v ∷ vs))
        (written fv.is_null fv more)
        (ap (λ b. read_flagged b i (written fv.is_null fv more)) m.0
          ∙ read_flagged-written fv.is_null i fv more h.0)
      ∙ bind-ok (read_field_values mask (suc i) (length values)) (λ vs. pure (restored fv ∷ vs))
          more (read_field_values-write mask values (suc i) rest m.1 h.1))

mask_back :
    (values : List FieldValue) (rest : List ℕ)
    → read_full (mask_len (length values)) (write_null_mask values ++ rest)
      ≡ (ok (write_null_mask values), rest)
mask_back values rest =
    rw (← length-write_null_mask values) (read_full-append (write_null_mask values) rest)

audit_back :
    (m : Dict (List ℕ)) (rest : List ℕ)
    → IsMap m
    → IsWritable (λ v. length v ≤ default_chunk_size_bytes) m
    → length m < 2 ^ 63
    → read_audit_fields (write_audit_fields m ++ rest) ≡ (ok m, rest)
unfolding read_audit_fields write_audit_fields write_map
audit_back m rest h w fits =
    let text_back = λ (v rest : List ℕ) (hv : length v ≤ default_chunk_size_bytes).
      read_bytes-write_bytes v rest hv in
    let entries : List ℕ = write_entries write_string m ++ rest in
    rw (append_assoc (write_varint (pos (length m))) (write_entries write_string m) rest) (
      bind-ok (context read_varint (wrap "auditCount")) (read_map_of read_string) _ (
        context-ok read_varint (wrap "auditCount") _
          (read_varint-write_varint (pos (length m)) entries (omega arith)))
      ∙ read_map_of-write_entries write_string read_string
          (λ v. length v ≤ default_chunk_size_bytes) text_back m rest h w)

-- A record that the coder's limits admit.
pub record IsEncodableRecord (rec : GenericRecord) : Type 0 where
  pub name : length rec.schema_id ≤ default_chunk_size_bytes
  pub count : length rec.values ≤ default_max_record_fields
  pub fields : All IsEncodable rec.values
  pub audit_map : IsMap rec.audit_fields
  pub audit_texts : IsWritable (λ v. length v ≤ default_chunk_size_bytes) rec.audit_fields
  pub audit_count : length rec.audit_fields < 2 ^ 63

unfoldable pub restored_record : GenericRecord → GenericRecord
restored_record rec = record rec { values = map restored rec.values }

decode_values-write :
    (rec : GenericRecord) (rest : List ℕ)
    → IsEncodableRecord rec
    → decode_values rec.schema_id
        (length rec.values)
        (write_null_mask rec.values)
        (write_field_values rec.values ++ (write_audit_fields rec.audit_fields ++ rest))
      ≡ (ok (some (restored_record rec)), rest)
unfolding decode_values restored_record
decode_values-write rec rest h =
    let audit : List ℕ = write_audit_fields rec.audit_fields ++ rest in
    bind-ok (read_field_values (write_null_mask rec.values) 0 (length rec.values))
      (λ values. read_audit_fields >>= λ a. finish_record rec.schema_id values a) _
      (read_field_values-write (write_null_mask rec.values) rec.values 0 audit
        (write_null_mask-Marks rec.values) h.fields)
    ∙ bind-ok read_audit_fields (λ a. finish_record rec.schema_id (map restored rec.values) a) audit
        (audit_back rec.audit_fields rest h.audit_map h.audit_texts h.audit_count)

decode_body-write :
    (rec : GenericRecord) (rest : List ℕ)
    → IsEncodableRecord rec
    → decode_body rec.schema_id (length rec.values) (
        write_null_mask rec.values
        ++ (write_field_values rec.values ++ (write_audit_fields rec.audit_fields ++ rest)))
      ≡ (ok (some (restored_record rec)), rest)
unfolding decode_body
decode_body-write rec rest h =
    bind-ok (context (read_full (mask_len (length rec.values))) (wrap "nullMask"))
      (decode_values rec.schema_id (length rec.values)) _
      (context-ok (read_full (mask_len (length rec.values))) (wrap "nullMask") _
        (mask_back rec.values _))
    ∙ decode_values-write rec rest h

decode_counted-body :
    (s : List ℕ) (n : ℕ) (src : List ℕ)
    → n ≤ default_max_record_fields
    → decode_counted s (pos n) src ≡ decode_body s n src
unfolding decode_counted
decode_counted-body s n src h = ground arith

named :
    (s rest : List ℕ)
    → length s ≤ default_chunk_size_bytes
    → read_schema_id (write_string s ++ rest) ≡ (ok (some s), rest)
unfolding read_schema_id
named s rest h =
    catch-ok (read_string >>= λ s. pure (some s))
      (λ e. if is_nil_token e then pure none else throw (wrap "schemaID" e)) _
      (bind-ok read_string (λ s. pure (some s)) _ (read_bytes-write_bytes s rest h))

-- A record within the coder's limits is read back: its name, its audit fields, and its values as
-- far as their types keep them, with what follows it left.
pub decode-encode :
    (rec : GenericRecord) (rest : List ℕ)
    → IsEncodableRecord rec
    → decode_generic_record (encode_generic_record (some rec) ++ rest)
      ≡ (ok (some (restored_record rec)), rest)
unfolding decode_generic_record encode_generic_record decode_named
decode-encode rec rest h =
    let body : List ℕ =
      write_null_mask rec.values
      ++ (write_field_values rec.values ++ (write_audit_fields rec.audit_fields ++ rest)) in
    let counted : List ℕ = write_varint (pos (length rec.values)) ++ body in
    simp append_assoc (
      bind-ok read_schema_id decode_named _ (named rec.schema_id counted h.name)
      ∙ bind-ok (context read_varint (wrap "fieldCount")) (decode_counted rec.schema_id) counted (
          context-ok read_varint (wrap "fieldCount") counted
            (read_varint-write_varint (pos (length rec.values)) body (omega (arith, h.count))))
      ∙ decode_counted-body rec.schema_id (length rec.values) body h.count
      ∙ decode_body-write rec rest h)

-- The token of a nil record is read back as nil.
pub decode-encode_nil :
    (rest : List ℕ) → decode_generic_record (encode_generic_record none ++ rest) ≡ (ok none, rest)
unfolding decode_generic_record encode_generic_record read_schema_id decode_named is_nil_token
decode-encode_nil rest =
    let handler : Error → Reader (Option (List ℕ)) =
      λ e. if is_nil_token e then pure none else throw (wrap "schemaID" e) in
    bind-ok read_schema_id decode_named _ (
      catch-err (read_string >>= λ s. pure (some s)) handler _
        (bind-err read_string (λ s. pure (some s)) _ (read_bytes_nil rest)))
