-- ===== src/Examples/Watermark.antt =====
-- Theorems of the watermarks at concrete inputs, and runs of them.
use omnibeam_go.Common.{
  ℕ, ◌≡◌, refl, Bool, true, false, Option, none, some, inr, List, [], ◌∷◌, ◌++◌, arith,
  if◌then◌else◌,
}
use omnibeam_go.Common.Int.{ℤ, pos, negsuc, ltb_ℤ}
use omnibeam_go.Common.Tests.{str_eq}
use omnibeam_go.Common.Word.{add64, wrap64, to_u64, of_u64, sub64}
use omnibeam_go.Common.Int.{◌+ℤ◌, ◌-ℤ◌}
use omnibeam_go.Numbers.{
  trim_space, trim_left, trim_right, parse_signed, parse_magnitude, parse_digits, with_sign,
}
use omnibeam_go.Coercion.FormatDecimal.{format_int, format_uint, digits, magnitude}
use omnibeam_go.Common.Text.{codes}
use omnibeam_go.Watermark.{
  Formats, wm_integer, wm_string, compare_as, parse_watermark_value, unless_empty, parse_as,
  of_integer, text_as, literal_as, double_quotes,
}
use omnibeam_go.Watermark.Order.{IsOrdered}
use omnibeam_go.Watermark.Maximum.{
  Parquet, File, unreadable, opened, int64_kind, each, column_index, parse_parquet_value,
  parquet_text, integer_text, take_value, scan_page, scan_chunk, scan_row_group, scan_column,
  scan_file, max_parquet_column,
}
use omnibeam_go.Watermark.Output.{
  WatermarkConfig, WatermarkOutput, Directory, has_suffix, parquet_names, open_all, trimmed_value,
  start_offset, offset_output, incoming_of, given, final_value, output_of_max, scan_directory,
  resolve_watermark_output,
}
use omnibeam_go.Watermark.Settled.{IsSettled, written, resolve_watermark_output-IsSettled}
use omnibeam_go.Watermark.Query.{
  DatabaseSource, base_query, query_or_select, with_filter, join, column_error, is_identifier,
  all_word, has_prefix, contains_text, placeholder, wrapped, with_incoming, query_with,
  effective_query,
}
use omnibeam_go.Watermark.Literal.{read_literal}
use omnibeam_go.Watermark.Injection.{
  effective_query-wrapped, effective_query-replaced, string_watermark,
}
use omnibeam_go.Record.{type_string}
use omnibeam_go.Validate.Plan.{Field}
use omnibeam_go.Watermark.Pipeline.{
  PipelineConfig, get_schema, is_compatible, field_named, check_field, check_column,
  check_destination, config_error, database_watermark, incoming_error, check_selected,
  validate_pipeline, not_parquet,
}
use omnibeam_go.Watermark.Validated.{IsQuery, validate_pipeline-IsQuery}

-- Whole numbers for floats and instants, without a text.
abbrev whole : Formats
whole = record {
  Real = ℤ;
  Instant = ℤ;
  zero_real = pos 0;
  zero_instant = pos 0;
  real_ltb = ltb_ℤ;
  before = ltb_ℤ;
  is_finite = λ x. true;
  parse_float = λ s. none;
  format_float = λ x. [];
  parse_time = λ l s. none;
  format_time = λ l x. [];
  nanosecond = λ x. 0;
}

ltb_ℤ_asym : (x y : ℤ) → ltb_ℤ x y ≡ true → ltb_ℤ y x ≡ false
ltb_ℤ_asym x y h = ground (arith, h)

ltb_ℤ_trans : (x y z : ℤ) → ltb_ℤ y x ≡ false → ltb_ℤ z y ≡ false → ltb_ℤ z x ≡ false
ltb_ℤ_trans x y z h k = ground (arith, h, k)

whole-IsOrdered : IsOrdered whole
whole-IsOrdered = record {
  zero_finite = refl;
  real_asym = ltb_ℤ_asym;
  real_trans = λ x y z i j k h l. ltb_ℤ_trans x y z h l;
  before_asym = ltb_ℤ_asym;
  before_trans = ltb_ℤ_trans;
}

-- Nullable columns of int64.
abbrev integers : Parquet whole
integers = record {
  Value = Option ℤ;
  is_null = λ v. elim v [ none ↦ true | some n ↦ false ];
  kind = λ v. int64_kind;
  int64 = λ v. elim v [ none ↦ pos 0 | some n ↦ n ];
  int32 = λ v. pos 0;
  double = λ v. pos 0;
  float = λ v. pos 0;
  string = λ v. [];
  byte_array = λ v. [];
  unix_micro = λ n. n;
}

abbrev since_five : WatermarkConfig
since_five = record { column = codes "id"; type_ = wm_integer; value = some (codes " 5 ") }

abbrev column_of : List (Option ℤ) → File (Option ℤ)
column_of vs =
    opened ((codes "id", some 0) ∷ [])
      ((record { pages = record { values = vs; fails = false } ∷ []; fails = false } ∷ []) ∷ [])

abbrev entries : List (List ℕ × Bool)
entries = (codes "a.parquet", false) ∷ (codes "b.parquet", false) ∷ (codes "m.json", false) ∷ []

abbrev out_dir : Directory (Option ℤ)
out_dir = record {
  entries = some entries;
  read = λ name.
      if str_eq name (codes "a.parquet")
      then column_of (some (pos 3) ∷ none ∷ some (pos 12) ∷ [])
      else if str_eq name (codes "b.parquet")
      then column_of (some (negsuc 1) ∷ [])
      else unreadable;
}

abbrev since : List ℕ → WatermarkOutput
since s = record { column = codes "id"; type_ = wm_integer; value = some s }

resolve_twelve :
    resolve_watermark_output integers since_five false out_dir (pos 4) (pos 4)
    ≡ inr (since (codes "12"))
unfolding each column_index parse_parquet_value parquet_text integer_text take_value scan_page
    scan_chunk scan_row_group scan_column scan_file max_parquet_column has_suffix parquet_names
    open_all trimmed_value incoming_of given final_value output_of_max scan_directory
    resolve_watermark_output format_int format_uint digits magnitude trim_space trim_left trim_right
    parse_signed parse_magnitude parse_digits with_sign parse_watermark_value unless_empty parse_as
    of_integer compare_as text_as str_eq to_u64 of_u64 sub64 wrap64 ◌-ℤ◌
resolve_twelve = refl

-- An offset counts the rows that were read.
resolve_offset :
    resolve_watermark_output integers since_five true out_dir (pos 4) (pos 4)
    ≡ inr (since (codes "9"))
unfolding resolve_watermark_output offset_output start_offset trimmed_value format_int format_uint
    digits magnitude trim_space trim_left trim_right parse_signed parse_magnitude parse_digits
    with_sign add64 to_u64 of_u64 sub64 wrap64 ◌+ℤ◌
resolve_offset = refl

resolve_watermark_output-IsSettled_example :
    IsSettled integers since_five
      (written integers since_five out_dir.read entries)
      (since (codes "12"))
resolve_watermark_output-IsSettled_example =
    resolve_watermark_output-IsSettled integers whole-IsOrdered since_five out_dir entries (pos 4)
      (pos 4) (since (codes "12")) refl refl resolve_twelve

abbrev orders : List ℕ → DatabaseSource
orders q = record {
  query = q;
  table = codes "orders";
  query_filter = [];
  columns = codes "id" ∷ codes "name" ∷ [];
  watermark = some (string_watermark (codes "name") (codes "x' OR ''='"));
}

-- A value that would end its literal and go on as a condition.
abbrev attack : List ℕ
attack = codes "x' OR ''='"

attack_trimmed : trim_space attack ≡ attack
unfolding trim_space trim_left trim_right
attack_trimmed = refl

column_valid : column_error (trim_space (codes "name")) wm_string ≡ none
unfolding column_error is_identifier all_word trim_space trim_left trim_right
column_valid = refl

base_selects : base_query (orders []) ≡ codes "SELECT id, name FROM orders"
unfolding base_query query_or_select with_filter join trim_space trim_left trim_right
base_selects = refl

no_placeholder : contains_text placeholder (base_query (orders [])) ≡ false
unfolding base_query query_or_select with_filter join trim_space trim_left trim_right contains_text
    has_prefix
no_placeholder = refl

wrapped_text :
    effective_query whole (orders [])
    ≡ inr (codes "SELECT * FROM (SELECT id, name FROM orders) AS _wm WHERE name > 'x'' OR ''''='''")
unfolding effective_query query_with with_incoming incoming_of given base_query query_or_select
    with_filter join trim_space trim_left trim_right contains_text has_prefix column_error
    is_identifier all_word parse_watermark_value unless_empty parse_as literal_as double_quotes
wrapped_text = refl

effective_query-wrapped_example :
    (literal : List ℕ) × (effective_query whole (orders [])
      ≡ inr (wrapped (base_query (orders [])) (codes "name") literal))
    × (read_literal literal ≡ some (trim_space attack, []))
effective_query-wrapped_example =
    effective_query-wrapped whole (orders []) (codes "name") attack (codes "' OR ''='") 120 refl
      attack_trimmed column_valid no_placeholder

abbrev front : List ℕ
front = codes "SELECT id FROM t WHERE (name > "

abbrev back : List ℕ
back = codes ") AND a::int = 1"

base_given : base_query (orders (front ++ (placeholder ++ back))) ≡ front ++ (placeholder ++ back)
unfolding base_query query_or_select trim_space trim_left trim_right
base_given = refl

once_before : contains_text placeholder (front ++ codes ":watermark_valu") ≡ false
unfolding contains_text has_prefix
once_before = refl

none_after : contains_text placeholder back ≡ false
unfolding contains_text has_prefix
none_after = refl

effective_query-replaced_example :
    (literal : List ℕ) × (effective_query whole (orders (front ++ (placeholder ++ back)))
      ≡ inr (front ++ (literal ++ back)))
    × (read_literal (literal ++ back) ≡ some (trim_space attack, back))
effective_query-replaced_example =
    effective_query-replaced whole (orders (front ++ (placeholder ++ back))) (codes "name") attack
      (codes "' OR ''='") front back 120 refl attack_trimmed column_valid base_given once_before
      none_after refl

abbrev name_field : Field
name_field = record {
  name = codes "name";
  type_ = type_string;
  nullable = false;
  scale = pos 0;
  on_overflow = [];
}

abbrev pipeline_to : List ℕ → List ℕ → PipelineConfig
pipeline_to format q = record {
  schema = none;
  fields = [];
  watermark = none;
  database_source = some (record { source = orders q; fields = name_field ∷ [] });
  api_source = none;
  destination = record {
    type_ = codes "storage";
    output_format = format;
    output_path = codes "out/orders";
    encryption_type = [];
  };
}

accepted : validate_pipeline whole (pipeline_to (codes " Parquet") []) ≡ none
unfolding validate_pipeline check_selected incoming_error database_watermark config_error
    check_destination check_column check_field field_named is_compatible get_schema has_prefix
    column_error is_identifier all_word trim_space trim_left trim_right incoming_of given
    parse_watermark_value unless_empty parse_as str_eq
accepted = refl

not_to_csv : validate_pipeline whole (pipeline_to (codes "csv") []) ≡ some not_parquet
unfolding validate_pipeline check_selected incoming_error database_watermark config_error
    check_destination check_column check_field field_named is_compatible get_schema has_prefix
    column_error is_identifier all_word trim_space trim_left trim_right incoming_of given
    parse_watermark_value unless_empty parse_as str_eq
not_to_csv = refl

validate_pipeline-IsQuery_example :
    IsQuery whole
      (contains_text placeholder (base_query (orders [])))
      (some (string_watermark (codes "name") attack))
      (effective_query whole (orders []))
validate_pipeline-IsQuery_example =
    validate_pipeline-IsQuery whole (pipeline_to (codes " Parquet") [])
      (record { source = orders []; fields = name_field ∷ [] }) refl accepted
