-- ===== src/Record.antt =====
-- The records of internal/domain/record.go and the data types of internal/domain/schema.go.
use omnibeam_go.Common.{ℕ, Bool, true, false, List, [], if◌then◌else◌}
use omnibeam_go.Common.Int.{ℤ, pos}
use omnibeam_go.Common.Word.{to_u64}
use omnibeam_go.Common.Dict.{Dict}
use omnibeam_go.Common.Instant.{Instant}

-- `DataType` is a string with nine named values; `other` is any further one, the zero value "" too.
pub data DataType : Type 0 where
  type_string type_int64 type_float64 type_bool type_timestamp : DataType
  type_bytes type_date type_decimal type_json : DataType
  other : List ℕ → DataType

-- `scale` is an int32, `num_val` a uint64.
pub record FieldValue : Type 0 where
  pub dtype : DataType
  pub is_null : Bool
  pub scale : ℤ
  pub num_val : ℕ
  pub str_val : List ℕ

-- Go's zero value.
abbrev pub zero_value : FieldValue
zero_value = record { dtype = other []; is_null = false; scale = pos 0; num_val = 0; str_val = [] }

pub record GenericRecord : Type 0 where
  pub schema_id : List ℕ
  pub values : List FieldValue
  pub audit_fields : Dict (List ℕ)

-- The values that the setters of `GenericRecord` store.
abbrev pub null_value : DataType → FieldValue
null_value t = record zero_value { dtype = t; is_null = true }

abbrev pub string_value : List ℕ → FieldValue
string_value s = record zero_value { dtype = type_string; str_val = s }

unfoldable pub int64_value : ℤ → FieldValue
int64_value v = record zero_value { dtype = type_int64; num_val = to_u64 v }

abbrev pub float64_value : ℕ → FieldValue
float64_value bits = record zero_value { dtype = type_float64; num_val = bits }

abbrev pub bool_value : Bool → FieldValue
bool_value b = record zero_value { dtype = type_bool; num_val = if b then 1 else 0 }

unfoldable pub timestamp_value : ℤ → FieldValue
timestamp_value ns = record zero_value { dtype = type_timestamp; num_val = to_u64 ns }

abbrev pub bytes_value : List ℕ → FieldValue
bytes_value b = record zero_value { dtype = type_bytes; str_val = b }

unfoldable pub decimal_value : ℤ → ℤ → FieldValue
decimal_value m s = record zero_value { dtype = type_decimal; num_val = to_u64 m; scale = s }

pub record DeadLetterRecord : Type 0 where
  pub raw_payload : List ℕ
  pub error_message : List ℕ
  pub failed_column : List ℕ
  pub source_file : List ℕ
  pub failed_at : Instant
