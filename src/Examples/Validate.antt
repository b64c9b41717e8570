-- ===== src/Examples/Validate.antt =====
-- The theorems on casting and validation of internal/beam/core/cast_and_validate.go and
-- fused_enrich_and_validate.go at two records: one valid, one with a null that its column forbids.
use omnibeam_go.Common.{
  ℕ, ◌+◌, ◌≡◌, inl, inr, true, false, some, List, [], ◌∷◌, length, All, str_eq,
}
use omnibeam_go.Common.Int.{pos}
use omnibeam_go.Common.Dict.{lookup}
use omnibeam_go.Common.Keys.{value_or}
use omnibeam_go.Record.{GenericRecord, type_string, type_int64, string_value, null_value}
use omnibeam_go.Validate.Plan.{Conversions}
use omnibeam_go.Validate.Process.{
  Services, CastFn, setup, process_element, source_file_key, not_null,
}
use omnibeam_go.Validate.Outputs.{valid_records, dead_letters}
use omnibeam_go.Validate.Outcome.{
  Conforms, IsColumn, process_element_once, process_element-Conforms, process_element-IsColumn,
}
use omnibeam_go.Validate.Redaction.{IsDiscreet, process_element-IsDiscreet}
use omnibeam_go.Validate.Enrich.{FusedFn, process_fused}
use omnibeam_go.Validate.AuditFields.{expected_field, process_fused-Conforms}

-- A number is as long as its text, and any other text is refused.
abbrev conversions : Conversions
conversions = record {
  format_int = λ z. 48 ∷ [];
  format_float = λ b. 48 ∷ [];
  format_bool = λ b. 48 ∷ [];
  format_time = λ z. 48 ∷ [];
  format_decimal = λ m s. 48 ∷ [];
  int_of_float = λ b. pos b;
  float_of_int = λ z. 0;
  coerce_int64 = λ text. inr (pos (length text));
  coerce_float64 = λ text. inl text;
  coerce_bool = λ text. inl text;
  coerce_timestamp = λ text. inl text;
  coerce_decimal = λ text s o. inl text;
}

-- Columns of one byte: "k" is sensitive.
abbrev services : Services
services = record {
  conversions = conversions;
  now = record { seconds = pos 7; nanos = 0 };
  error_text = λ e. e.field;
  warning_text = λ column. column;
  print_value = λ v. v.str_val;
  is_sensitive = str_eq (107 ∷ []);
  sanitize = λ texts. [];
}

abbrev fn : CastFn
fn = record {
  schema =
      record {
        name = 107 ∷ [];
        type_ = type_string;
        nullable = false;
        scale = pos 0;
        on_overflow = [];
      }
      ∷ record {
        name = 110 ∷ [];
        type_ = type_int64;
        nullable = true;
        scale = pos 0;
        on_overflow = [];
      }
      ∷ [];
  rules = record { type_ = not_null; column = 110 ∷ [] } ∷ [];
  compiled = true;
}

abbrev good : GenericRecord
good = record {
  schema_id = 115 ∷ [];
  values = string_value (97 ∷ []) ∷ string_value (49 ∷ 50 ∷ []) ∷ [];
  audit_fields = (source_file_key, 102 ∷ []) ∷ [];
}

abbrev bad : GenericRecord
bad = record good { values = null_value type_string ∷ [] }

process_element_once_example :
    length (valid_records (process_element services fn bad))
      + length (dead_letters (process_element services fn bad))
    ≡ 1
process_element_once_example = process_element_once services fn bad

process_element-Conforms_example :
    All
      (λ r.
        (r.schema_id ≡ good.schema_id)
        × (r.audit_fields ≡ good.audit_fields)
        × Conforms fn.schema r.values)
      (valid_records (process_element services fn good))
process_element-Conforms_example = process_element-Conforms services fn good

process_element-IsColumn_example :
    All
      (λ d.
        IsColumn fn.schema d.failed_column
        × (d.source_file ≡ value_or [] source_file_key bad.audit_fields))
      (dead_letters (process_element services (setup fn) bad))
process_element-IsColumn_example = process_element-IsColumn services fn bad

process_element-IsDiscreet_example :
    All (IsDiscreet services fn.schema) (process_element services fn bad)
process_element-IsDiscreet_example = process_element-IsDiscreet services fn bad

abbrev fused : FusedFn
fused = record { cast = fn; job_id = 106 ∷ []; execution_id = [] }

process_fused-Conforms_example :
    All
      (λ r.
        Conforms fused.cast.schema r.values
        × ((k : List ℕ)
            → lookup k r.audit_fields ≡ expected_field (116 ∷ []) fused good.audit_fields k))
      (valid_records (process_fused services (116 ∷ []) fused (some good)))
process_fused-Conforms_example = process_fused-Conforms services (116 ∷ []) fused good
