-- ===== src/Examples/Batch.antt =====
-- Theorems of `RecordBatch` of internal/domain/record_batch.go and of its coder at concrete batches,
-- and runs of them.
use omnibeam_go.Common.{
  ◌-◌, ◌^◌, ◌≡◌, refl, true, false, some, inl, inr, List, [], ◌∷◌, ◌++◌, length, arith,
}
use omnibeam_go.Common.Int.{pos}
use omnibeam_go.Common.Word.{to_u64}
use omnibeam_go.Common.Dict.{IsMap, lookup}
use omnibeam_go.Common.Bits.{test_bit, set_bit}
use omnibeam_go.Common.Bits.Bitmap.{bit_at, mark, unmark, clear_bit}
use omnibeam_go.Wire.Reader.{ok, err, field_count_mismatch, read_full}
use omnibeam_go.Record.{GenericRecord, type_string, type_decimal, string_value, decimal_value}
use omnibeam_go.Validate.Plan.{Field}
use omnibeam_go.Batch.{
  Batch, words, capacity_of, new_batch, new_column, append_row, push_row, push_value, push_null,
  push, in_rows, set_row_valid, is_row_valid, count_valid, valid_row_count, cached, cell, record_at,
  skip, next_row, iterate,
}
use omnibeam_go.Batch.Rows.{rows, valid_rows}
use omnibeam_go.Batch.Refinement.{
  append, set_valid, Call, call, run, run_specified, observe, run_refines,
}
use omnibeam_go.Batch.Coder.{
  encode_batch, decode_batch, put_le, le_of, write_each, write_word, write_int32, write_long_text,
  write_column, write_audits, write_audit, write_entry, decode_header,
}
use omnibeam_go.Batch.Coder.Columns.{carried}
use omnibeam_go.Batch.Coder.RoundTrip.{IsWithinLimits}
use omnibeam_go.Batch.Coder.Carried.{decode-encode_batch}

abbrev two_fields : List Field
two_fields =
    record { name = 97 ∷ []; type_ = type_string; nullable = true; scale = pos 0; on_overflow = [] }
    ∷ record {
      name = 98 ∷ [];
      type_ = type_decimal;
      nullable = true;
      scale = pos 2;
      on_overflow = [];
    }
    ∷ []

abbrev short_record : GenericRecord
short_record = record {
  schema_id = 115 ∷ [];
  values = string_value (120 ∷ []) ∷ [];
  audit_fields = (107 ∷ [], 118 ∷ []) ∷ [];
}

abbrev full_record : GenericRecord
full_record = record {
  schema_id = 115 ∷ [];
  values = string_value (121 ∷ []) ∷ decimal_value (pos 42) (pos 2) ∷ [];
  audit_fields = [];
}

-- Two rows, of which the first is then invalid.
abbrev three_calls : List Call
three_calls = append (some short_record) ∷ append (some full_record) ∷ set_valid (pos 0) false ∷ []

run_refines_example :
    ((run three_calls (new_batch two_fields (pos 0))).1
      ≡ (run_specified two_fields (capacity_of (pos 0)) three_calls []).1)
    × (observe (run three_calls (new_batch two_fields (pos 0))).0 ≡ (
      some (valid_rows (run_specified two_fields (capacity_of (pos 0)) three_calls []).0),
      length (valid_rows (run_specified two_fields (capacity_of (pos 0)) three_calls []).0),
    ))
run_refines_example = run_refines two_fields (pos 0) three_calls

abbrev one_full_row : GenericRecord
one_full_row = record {
  schema_id = [];
  values = string_value (121 ∷ []) ∷ decimal_value (pos 42) (pos 2) ∷ [];
  audit_fields = [];
}

observe-three_calls :
    observe (run three_calls (new_batch two_fields (pos 64))).0 ≡ (some (one_full_row ∷ []), 1)
unfolding observe run call append_row push_row push_value push_null push set_row_valid in_rows
    is_row_valid count_valid valid_row_count cached cell record_at skip next_row iterate new_batch
    new_column capacity_of words bit_at mark unmark clear_bit test_bit set_bit decimal_value to_u64
observe-three_calls = refl

-- A batch of one row with a null, as the calls leave it.
abbrev one_row : Batch
one_row = record {
  columns =
      record {
        field = record {
          name = 97 ∷ [];
          type_ = type_string;
          nullable = true;
          scale = pos 0;
          on_overflow = [];
        };
        nums = [];
        strs = (120 ∷ []) ∷ [];
        scales = [];
        nulls = 0 ∷ [];
      }
      ∷ record {
        field = record {
          name = 98 ∷ [];
          type_ = type_decimal;
          nullable = true;
          scale = pos 2;
          on_overflow = [];
        };
        nums = 0 ∷ [];
        strs = [];
        scales = pos 0 ∷ [];
        nulls = 1 ∷ [];
      }
      ∷ [];
  capacity = 64;
  row_count = 1;
  valid_mask = (2 ^ 64 - 1) ∷ [];
  audit_values = ((107 ∷ [], 118 ∷ []) ∷ []) ∷ [];
}

one_row_appended : append_row (new_batch two_fields (pos 64)) (some short_record) ≡ (one_row, false)
unfolding append_row push_row push_value push_null push new_batch new_column capacity_of words mark
    set_bit
one_row_appended = refl

one_row-IsWithinLimits : IsWithinLimits one_row
unfolding words IsMap lookup
one_row-IsWithinLimits = record {
  rows = omega arith;
  width = omega arith;
  mask = omega arith;
  mask64 = (omega arith, tt);
  columns = (
    record {
      bitmap = omega arith;
      words64 = (omega arith, tt);
      nums = inl refl;
      strs = inr (refl, (omega arith, tt));
      scales = inl refl;
    },
    (
      record {
        bitmap = omega arith;
        words64 = (omega arith, tt);
        nums = inr (refl, (omega arith, tt));
        strs = inl refl;
        scales = inr (refl, ((omega arith, omega arith), tt));
      },
      tt,
    ),
  );
  audits = refl;
  entries = (
    record { map_ = (refl, tt); count = omega arith; entries = ((omega arith, omega arith), tt) },
    tt,
  );
}

decode-encode_batch_example :
    (decode_batch two_fields (encode_batch one_row ++ (7 ∷ [])) ≡ (ok (carried one_row), 7 ∷ []))
    × (rows (carried one_row) ≡ rows one_row)
decode-encode_batch_example = decode-encode_batch one_row (7 ∷ []) one_row-IsWithinLimits

-- A batch of two fields is refused under a schema without fields.
mismatch : decode_batch [] (encode_batch one_row) ≡ (
  err (field_count_mismatch 0 2),
  write_each write_word ((2 ^ 64 - 1) ∷ [])
      ++ (write_each (write_column 1) one_row.columns ++ write_audits 1 one_row.audit_values),
)
unfolding decode_batch encode_batch decode_header read_full put_le le_of words write_each write_word
    write_column write_long_text write_int32 write_audits write_audit write_entry
mismatch = refl
