-- ===== src/Watermark/Pipeline.antt =====
-- The watermark of a pipeline's configuration: `validateWatermark` and `GetSchema` of
-- internal/domain/config.go, `WatermarkIsOffset` of internal/domain/config_rest.go. Of a configuration the
-- fields that these read are kept.
use omnibeam_go.Common.{
  ℕ, Bool, true, false, not, ◌&&◌, ◌||◌, ◌⊎◌, inl, inr, Option, none, some, List, [], ◌∷◌, ◌++◌,
  if◌then◌else◌, str_eq,
}
use omnibeam_go.Record.{
  DataType, type_string, type_int64, type_float64, type_bool, type_timestamp, type_bytes, type_date,
  type_decimal, type_json, other,
}
use omnibeam_go.Numbers.{trim_space}
use omnibeam_go.Coercion.{to_lower}
use omnibeam_go.Validate.Plan.{Field, is_int64, is_float64, is_timestamp}
use omnibeam_go.Common.Text.{codes}
use omnibeam_go.Watermark.{
  Formats, WatermarkType, WatermarkValue, WatermarkError, wm_integer, wm_float, wm_timestamp,
  wm_date, wm_string, unsupported,
}
use omnibeam_go.Watermark.Output.{WatermarkConfig, incoming}
use omnibeam_go.Watermark.Query.{DatabaseSource, QueryError, validate_watermark, has_prefix}

pub record DatabaseConfig : Type 0 where
  pub source : DatabaseSource
  pub fields : List Field

pub record ApiConfig : Type 0 where
  pub pagination_type : List ℕ
  pub page_param : List ℕ
  pub fields : List Field
  pub watermark : Option WatermarkConfig

pub record Destination : Type 0 where
  pub type_ : List ℕ
  pub output_format : List ℕ
  pub output_path : List ℕ
  pub encryption_type : List ℕ

-- `fields` is the schema of the file source, `schema` the one of the pipeline.
pub record PipelineConfig : Type 0 where
  pub schema : Option (List Field)
  pub fields : List Field
  pub watermark : Option WatermarkConfig
  pub database_source : Option DatabaseConfig
  pub api_source : Option ApiConfig
  pub destination : Destination

pub data ConfigError : Type 0 where
  file_watermark not_parquet encrypted bad_destination gcs_output : ConfigError
  no_such_column incompatible_type : ConfigError
  bad_config : QueryError → ConfigError
  bad_incoming : WatermarkError → ConfigError

abbrev pub or_fields : List Field → List Field → List Field
or_fields [] rest = rest
or_fields (f ∷ fs) rest = f ∷ fs

abbrev pub fields_of {ℓ} : {A : Type ℓ} → (A → List Field) → Option A → List Field
fields_of fields none = []
fields_of fields (some a) = fields a

-- The first schema that has a field, else that of the file source.
unfoldable pub get_schema : PipelineConfig → List Field
get_schema c = or_fields (fields_of (λ s. s) c.schema) (
    or_fields (fields_of (λ d. d.fields) c.database_source)
      (or_fields (fields_of (λ a. a.fields) c.api_source) c.fields))

abbrev pub is_blank : List ℕ → Bool
is_blank [] = true
is_blank (c ∷ s) = false

unfoldable pub names_offset : List ℕ → List ℕ → Bool
names_offset col param = str_eq col (codes "offset") || (not (is_blank param) && str_eq col param)

-- `WatermarkIsOffset`, for a watermark that is there.
unfoldable pub watermark_is_offset : ApiConfig → WatermarkConfig → Bool
watermark_is_offset api wm =
    str_eq api.pagination_type (codes "offset_limit")
    && names_offset (to_lower (trim_space wm.column)) (to_lower (trim_space api.page_param))

abbrev pub is_string : DataType → Bool
is_string type_string = true
is_string type_int64 = false
is_string type_float64 = false
is_string type_bool = false
is_string type_timestamp = false
is_string type_bytes = false
is_string type_date = false
is_string type_decimal = false
is_string type_json = false
is_string (other t) = false

-- `checkWatermarkTypeCompatibility`
unfoldable pub is_compatible : WatermarkType → DataType → Bool
is_compatible wm_integer t = is_int64 t
is_compatible wm_float t = is_float64 t
is_compatible wm_timestamp t = is_timestamp t
is_compatible wm_date t = is_timestamp t
is_compatible wm_string t = is_string t
is_compatible (unsupported s) t = true

abbrev pub unless : Bool → ConfigError → Option ConfigError
unless ok e = if ok then none else some e

abbrev pub first_error : Option ConfigError → Option ConfigError → Option ConfigError
first_error none e = e
first_error (some e) rest = some e

unfoldable pub field_named : List ℕ → List Field → Option Field
field_named name [] = none
field_named name (f ∷ fs) =
    let rest = field_named name fs in if str_eq f.name name then some f else rest

unfoldable pub check_field : WatermarkType → Option Field → Option ConfigError
check_field t none = some no_such_column
check_field t (some f) = unless (is_compatible t f.type_) incompatible_type

-- A watermark that tracks an offset, or a pipeline without a schema, needs no column.
unfoldable pub check_column : Bool → WatermarkConfig → List Field → Option ConfigError
check_column is_offset wm [] = none
check_column is_offset wm (f ∷ fs) =
    if is_offset then none else check_field wm.type_ (field_named wm.column (f ∷ fs))

unfoldable pub check_destination : Destination → Option ConfigError
check_destination d =
    first_error
      (unless (str_eq (to_lower (trim_space d.output_format)) (codes "parquet")) not_parquet)
      (first_error
        (unless (is_blank d.encryption_type || str_eq (to_lower d.encryption_type) (codes "none"))
          encrypted)
        (first_error
          (unless (not (str_eq d.type_ (codes "rest_api") || str_eq d.type_ (codes "bigquery")))
            bad_destination)
          (unless
            (not (
              has_prefix (codes "gs://") d.output_path
              || has_prefix (codes "gs:" ++ (92 ∷ [])) d.output_path))
            gcs_output)))

unfoldable pub config_error : Option QueryError → Option ConfigError
config_error none = none
config_error (some e) = some (bad_config e)

abbrev pub is_given {ℓ} : {A : Type ℓ} → Option A → Bool
is_given none = false
is_given (some a) = true

-- The watermark of the API source, and whether it tracks an offset.
unfoldable pub api_watermark : Option ApiConfig → Option (WatermarkConfig × Bool)
api_watermark none = none
api_watermark (some api) = elim api.watermark [
  | none ↦ none
  | some wm ↦ some (wm, watermark_is_offset api wm)
]

-- That of the database source comes first.
unfoldable pub database_watermark :
    Option DatabaseConfig → Option ApiConfig → Option (WatermarkConfig × Bool)
database_watermark none api = api_watermark api
database_watermark (some db) api = elim db.source.watermark [
  | none ↦ api_watermark api
  | some wm ↦ some (wm, false)
]

module _ (𝓕 : Formats) where
  unfoldable pub incoming_error : WatermarkError ⊎ Option (WatermarkValue 𝓕) → Option ConfigError
  incoming_error (inl e) = some (bad_incoming e)
  incoming_error (inr v) = none

  unfoldable pub check_selected :
      PipelineConfig → Option (WatermarkConfig × Bool) → Option ConfigError
  check_selected c none = none
  check_selected c (some (wm, is_offset)) = first_error (config_error (validate_watermark wm)) (
      first_error (incoming_error (incoming 𝓕 wm))
        (first_error (check_destination c.destination) (check_column is_offset wm (get_schema c))))

  -- `validateWatermark`
  unfoldable pub validate_pipeline : PipelineConfig → Option ConfigError
  validate_pipeline c =
      if is_given c.watermark && (not (is_given c.database_source) && not (is_given c.api_source))
      then some file_watermark
      else check_selected c (database_watermark c.database_source c.api_source)
