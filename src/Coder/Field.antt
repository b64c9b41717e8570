-- ===== src/Coder/Field.antt =====
-- One field value on the wire: `dataTypeToByte`, `byteToDataType`, `encodeFieldValue` and
-- `decodeFieldValue` of internal/beam/core/coders_helpers.go.
pub mod RoundTrip
use omnibeam_go.Common.{
  ℕ, ◌+◌, ◌*◌, ◌/◌, ◌%◌, ◌^◌, Bool, true, false, List, [], ◌∷◌, ◌++◌, get_or, ◌==◌, if◌then◌else◌,
}
use omnibeam_go.Common.Int.{ℤ, pos}
use omnibeam_go.Common.Word.{to_u64, of_u64, of_u32}
use omnibeam_go.Wire.Reader.{Reader, ◌>>=◌, pure, read_full}
use omnibeam_go.Wire.Varint.{write_varint, read_varint}
use omnibeam_go.Wire.Bytes.{write_bytes, read_bytes, write_string, read_string}
use omnibeam_go.Record.{
  DataType, type_string, type_int64, type_float64, type_bool, type_timestamp, type_bytes, type_date,
  type_decimal, type_json, other, FieldValue, zero_value,
}

unfoldable pub data_type_to_byte : DataType → ℕ
data_type_to_byte type_int64 = 1
data_type_to_byte type_float64 = 2
data_type_to_byte type_bool = 3
data_type_to_byte type_timestamp = 4
data_type_to_byte type_bytes = 5
data_type_to_byte type_date = 6
data_type_to_byte type_decimal = 7
data_type_to_byte type_json = 8
data_type_to_byte type_string = 0
data_type_to_byte (other s) = 0

unfoldable pub byte_to_data_type : ℕ → DataType
byte_to_data_type b =
    if b == 1
    then type_int64
    else (if b == 2
        then type_float64
        else (if b == 3
            then type_bool
            else (if b == 4
                then type_timestamp
                else (if b == 5
                    then type_bytes
                    else (if b == 6
                        then type_date
                        else (if b == 7
                            then type_decimal
                            else (if b == 8 then type_json else type_string)))))))

-- `binary.BigEndian.PutUint64`
unfoldable pub put_uint64 : ℕ → List ℕ
put_uint64 u =
    (u / 2 ^ 56 % 256)
    ∷ (u / 2 ^ 48 % 256)
    ∷ (u / 2 ^ 40 % 256)
    ∷ (u / 2 ^ 32 % 256)
    ∷ (u / 2 ^ 24 % 256)
    ∷ (u / 2 ^ 16 % 256)
    ∷ (u / 2 ^ 8 % 256)
    ∷ (u % 256)
    ∷ []

-- `binary.BigEndian.Uint64` of a buffer of eight bytes.
unfoldable pub uint64_of : List ℕ → ℕ
uint64_of b =
    get_or b 0 0 * 2 ^ 56
    + get_or b 1 0 * 2 ^ 48
    + get_or b 2 0 * 2 ^ 40
    + get_or b 3 0 * 2 ^ 32
    + get_or b 4 0 * 2 ^ 24
    + get_or b 5 0 * 2 ^ 16
    + get_or b 6 0 * 2 ^ 8
    + get_or b 7 0

-- `int32(s)` of an int64 keeps the low 32 bits.
unfoldable pub to_int32 : ℤ → ℤ
to_int32 s = of_u32 (to_u64 s)

-- The switch of `encodeFieldValue` on the value's type.
unfoldable pub encode_as : DataType → FieldValue → List ℕ
encode_as type_int64 fv = write_varint (of_u64 fv.num_val)
encode_as type_float64 fv = put_uint64 fv.num_val
encode_as type_bool fv = (if fv.num_val == 1 then 1 else 0) ∷ []
encode_as type_timestamp fv = write_varint (of_u64 fv.num_val)
encode_as type_bytes fv = write_bytes fv.str_val
encode_as type_decimal fv = write_varint (of_u64 fv.num_val) ++ write_varint fv.scale
encode_as type_string fv = write_string fv.str_val
encode_as type_date fv = write_string fv.str_val
encode_as type_json fv = write_string fv.str_val
encode_as (other s) fv = write_string fv.str_val

unfoldable pub encode_field_value : FieldValue → List ℕ
unfolding encode_as
encode_field_value fv = encode_as fv.dtype fv

-- The source writes into a zero value of the record under construction.
abbrev read_num : DataType → Reader FieldValue
read_num t = do v ← read_varint; pure (record zero_value { dtype = t; num_val = to_u64 v })

abbrev read_text : DataType → Reader FieldValue
read_text t = do s ← read_string; pure (record zero_value { dtype = t; str_val = s })

abbrev pub read_scale : ℤ → Reader FieldValue
read_scale m = do
  s ← read_varint
  pure (record zero_value { dtype = type_decimal; num_val = to_u64 m; scale = to_int32 s })

unfoldable pub decode_field_value : DataType → Reader FieldValue
decode_field_value type_int64 = read_num type_int64
decode_field_value type_float64 = do
  b ← read_full 8
  pure (record zero_value { dtype = type_float64; num_val = uint64_of b })
decode_field_value type_bool = do
  b ← read_full 1
  pure (record zero_value { dtype = type_bool; num_val = if get_or b 0 0 == 0 then 0 else 1 })
decode_field_value type_timestamp = read_num type_timestamp
decode_field_value type_bytes = do
  b ← read_bytes
  pure (record zero_value { dtype = type_bytes; str_val = b })
decode_field_value type_decimal = do m ← read_varint; read_scale m
decode_field_value type_string = read_text type_string
decode_field_value type_date = read_text type_date
decode_field_value type_json = read_text type_json
decode_field_value (other s) = read_text (other s)
