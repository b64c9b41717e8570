-- ===== src/Coder/Field/RoundTrip.antt =====
-- Reading back one field value.
use omnibeam_go.Common.{
  ℕ, ◌≤◌, ◌≡◌, ◌∙◌, List, [], ◌∷◌, ◌++◌, length, get_or, get_or, ◌==◌, if◌then◌else◌, arith,
  append_assoc,
}
use omnibeam_go.Common.Int.{ℤ, pos, negsuc}
use omnibeam_go.Common.Word.{IsU64, IsI32, to_u64, of_u64, of_u32, to_u64-of_u64, of_u64-IsI64}
use omnibeam_go.Wire.Reader.{ok, ◌>>=◌, pure, bind-ok, read_full, read_full-append}
use omnibeam_go.Wire.Varint.{write_varint, read_varint}
use omnibeam_go.Wire.Varint.RoundTrip.{read_varint-write_varint}
use omnibeam_go.Wire.Bytes.{
  write_bytes, read_bytes, default_chunk_size_bytes, read_bytes-write_bytes,
}
use omnibeam_go.Record.{
  DataType, type_string, type_int64, type_float64, type_bool, type_timestamp, type_bytes, type_date,
  type_decimal, type_json, other, FieldValue, zero_value,
}
use omnibeam_go.Coder.Field.{
  data_type_to_byte, byte_to_data_type, put_uint64, uint64_of, to_int32, encode_as, read_scale,
  decode_field_value,
}

-- A value that fits its Go types, with a text that the reader accepts.
pub record IsEncodable (fv : FieldValue) : Type 0 where
  pub num : IsU64 fv.num_val
  pub scale : IsI32 fv.scale
  pub text : length fv.str_val ≤ default_chunk_size_bytes

-- What a non-null value is read back as: the parts that its type does not use are lost, and a type
-- without a byte of its own becomes a string.
unfoldable pub kept : DataType → FieldValue → FieldValue
kept type_int64 fv = record zero_value { dtype = type_int64; num_val = fv.num_val }
kept type_float64 fv = record zero_value { dtype = type_float64; num_val = fv.num_val }
kept type_bool fv = record zero_value {
  dtype = type_bool;
  num_val = if fv.num_val == 1 then 1 else 0;
}
kept type_timestamp fv = record zero_value { dtype = type_timestamp; num_val = fv.num_val }
kept type_bytes fv = record zero_value { dtype = type_bytes; str_val = fv.str_val }
kept type_decimal fv = record zero_value {
  dtype = type_decimal;
  num_val = fv.num_val;
  scale = fv.scale;
}
kept type_date fv = record zero_value { dtype = type_date; str_val = fv.str_val }
kept type_json fv = record zero_value { dtype = type_json; str_val = fv.str_val }
kept type_string fv = record zero_value { dtype = type_string; str_val = fv.str_val }
kept (other s) fv = record zero_value { dtype = type_string; str_val = fv.str_val }

uint64_of-put_uint64 : (u : ℕ) → IsU64 u → uint64_of (put_uint64 u) ≡ u
unfolding uint64_of put_uint64
uint64_of-put_uint64 u h = omega arith

to_int32_id : (s : ℤ) → IsI32 s → to_int32 s ≡ s
unfolding to_int32 to_u64 of_u32
to_int32_id (pos n) h = ground arith
to_int32_id (negsuc n) h = ground arith

read_num-write :
    (u : ℕ) (rest : List ℕ)
    → IsU64 u
    → read_varint (write_varint (of_u64 u) ++ rest) ≡ (ok (of_u64 u), rest)
read_num-write u rest h = read_varint-write_varint (of_u64 u) rest (of_u64-IsI64 u)

read_full_8 :
    (u : ℕ) (rest : List ℕ) → read_full 8 (put_uint64 u ++ rest) ≡ (ok (put_uint64 u), rest)
unfolding put_uint64
read_full_8 u rest = read_full-append (put_uint64 u) rest

module _ (fv : FieldValue) (rest : List ℕ) (h : IsEncodable fv) where
  num-kept :
      (t : DataType)
      → (read_varint >>= λ v. pure (record zero_value { dtype = t; num_val = to_u64 v }))
          (write_varint (of_u64 fv.num_val) ++ rest)
        ≡ (ok (record zero_value { dtype = t; num_val = fv.num_val }), rest)
  num-kept t =
      bind-ok read_varint (λ v. pure (record zero_value { dtype = t; num_val = to_u64 v })) _
        (read_num-write fv.num_val rest h.num)
      ∙ rw (to_u64-of_u64 fv.num_val h.num)

  text-kept :
      (t : DataType)
      → (read_bytes >>= λ s. pure (record zero_value { dtype = t; str_val = s }))
          (write_bytes fv.str_val ++ rest)
        ≡ (ok (record zero_value { dtype = t; str_val = fv.str_val }), rest)
  text-kept t =
      bind-ok read_bytes (λ s. pure (record zero_value { dtype = t; str_val = s })) _
        (read_bytes-write_bytes fv.str_val rest h.text)

  float-kept :
      decode_field_value type_float64 (put_uint64 fv.num_val ++ rest)
      ≡ (ok (kept type_float64 fv), rest)
  unfolding decode_field_value kept
  float-kept =
      bind-ok (read_full 8)
        (λ b. pure (record zero_value { dtype = type_float64; num_val = uint64_of b })) _
        (read_full_8 fv.num_val rest)
      ∙ rw (uint64_of-put_uint64 fv.num_val h.num)

  bool-kept :
      decode_field_value type_bool ((if fv.num_val == 1 then 1 else 0) ∷ rest)
      ≡ (ok (kept type_bool fv), rest)
  unfolding decode_field_value kept
  bool-kept =
      bind-ok (read_full 1)
        (λ b.
          pure
            (record zero_value { dtype = type_bool; num_val = if get_or b 0 0 == 0 then 0 else 1 }))
        _ (read_full-append ((if fv.num_val == 1 then 1 else 0) ∷ []) rest)
      ∙ ground arith

  scale-kept :
      (m : ℤ)
      → read_scale m (write_varint fv.scale ++ rest) ≡ (
        ok (record zero_value {
          dtype = type_decimal;
          num_val = to_u64 m;
          scale = to_int32 fv.scale;
        }),
        rest,
      )
  scale-kept m =
      bind-ok read_varint
        (λ s.
          pure (record zero_value { dtype = type_decimal; num_val = to_u64 m; scale = to_int32 s }))
        _ (read_varint-write_varint fv.scale rest (omega (arith, h.scale)))

  decimal-kept :
      decode_field_value type_decimal (encode_as type_decimal fv ++ rest)
      ≡ (ok (kept type_decimal fv), rest)
  unfolding decode_field_value kept encode_as
  decimal-kept =
      rw (append_assoc (write_varint (of_u64 fv.num_val)) (write_varint fv.scale) rest) (
        bind-ok read_varint read_scale _
          (read_num-write fv.num_val (write_varint fv.scale ++ rest) h.num))
      ∙ scale-kept (of_u64 fv.num_val)
      ∙ rw (to_u64-of_u64 fv.num_val h.num, to_int32_id fv.scale h.scale)

-- A field value that is written is read back, as far as its type keeps it.
pub decode_field_value-encode_as :
    (t : DataType) (fv : FieldValue) (rest : List ℕ)
    → IsEncodable fv
    → decode_field_value (byte_to_data_type (data_type_to_byte t)) (encode_as t fv ++ rest)
      ≡ (ok (kept t fv), rest)
unfolding decode_field_value byte_to_data_type data_type_to_byte kept encode_as
decode_field_value-encode_as type_int64 fv rest h = num-kept fv rest h type_int64
decode_field_value-encode_as type_float64 fv rest h = float-kept fv rest h
decode_field_value-encode_as type_bool fv rest h = bool-kept fv rest h
decode_field_value-encode_as type_timestamp fv rest h = num-kept fv rest h type_timestamp
decode_field_value-encode_as type_bytes fv rest h = text-kept fv rest h type_bytes
decode_field_value-encode_as type_decimal fv rest h = decimal-kept fv rest h
decode_field_value-encode_as type_string fv rest h = text-kept fv rest h type_string
decode_field_value-encode_as type_date fv rest h = text-kept fv rest h type_date
decode_field_value-encode_as type_json fv rest h = text-kept fv rest h type_json
decode_field_value-encode_as (other s) fv rest h = text-kept fv rest h type_string
