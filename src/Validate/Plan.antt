-- ===== src/Validate/Plan.antt =====
-- `compileFieldPlan` of internal/beam/core/cast_and_validate.go and `FieldValue.String` of
-- internal/domain/record.go: what becomes of one raw value under one field of the schema.
use omnibeam_go.Common.{
  ℕ, Bool, true, false, ◌&&◌, ◌⊎◌, inl, inr, Option, none, some, List, [], ◌∷◌, ◌==◌, if◌then◌else◌,
}
use omnibeam_go.Common.Int.{ℤ, pos, eqb_ℤ}
use omnibeam_go.Common.Word.{of_u64}
use omnibeam_go.Record.{
  DataType, type_string, type_int64, type_float64, type_bool, type_timestamp, type_bytes,
  type_decimal, FieldValue, null_value, string_value, int64_value, float64_value, bool_value,
  timestamp_value, bytes_value, decimal_value,
}

-- `on_overflow` is "round", "fail" or empty.
pub record Field : Type 0 where
  pub name : List ℕ
  pub type_ : DataType
  pub nullable : Bool
  pub scale : ℤ
  pub on_overflow : List ℕ

-- The conversions of Go's library that the plans use, and the coercions of internal/domain/coercion.go:
-- each gives a value or the text of an error. A float64 is its bit pattern.
pub record Conversions : Type 0 where
  pub format_int : ℤ → List ℕ
  pub format_float : ℕ → List ℕ
  pub format_bool : Bool → List ℕ
  pub format_time : ℤ → List ℕ
  pub format_decimal : ℤ → ℤ → List ℕ
  pub int_of_float : ℕ → ℤ
  pub float_of_int : ℤ → ℕ
  pub coerce_int64 : List ℕ → List ℕ ⊎ ℤ
  pub coerce_float64 : List ℕ → List ℕ ⊎ ℕ
  pub coerce_bool : List ℕ → List ℕ ⊎ Bool
  pub coerce_timestamp : List ℕ → List ℕ ⊎ ℤ
  pub coerce_decimal : List ℕ → ℤ → List ℕ → List ℕ ⊎ (ℤ × ℤ)

-- Why a value is refused: the field is not nullable, or the text is not of the field's type.
pub data Reason : Type 0 where
  null_constraint : Reason
  type_cast_failed : List ℕ → Reason

-- `FieldValidationError`
pub record FieldError : Type 0 where
  pub field : List ℕ
  pub value : List ℕ
  pub dtype : DataType
  pub reason : Reason

-- What a plan does: it stores a value, or calls `fail` with an error and a sample.
pub data Cast : Type 0 where
  stored : FieldValue → Cast
  failed : FieldError → List ℕ → Cast

unfoldable pub fail_null : Field → Cast
fail_null f =
    failed (record { field = f.name; value = []; dtype = f.type_; reason = null_constraint }) []

unfoldable pub fail_cast : Field → List ℕ → List ℕ → Cast
fail_cast f text err =
    failed (record { field = f.name; value = text; dtype = f.type_; reason = type_cast_failed err })
      text

-- A null is stored under the plan's type where the field is nullable.
unfoldable pub null_or_fail : DataType → Field → Cast
null_or_fail t f = if f.nullable then stored (null_value t) else fail_null f

-- The guard with which every plan begins.
unfoldable pub unless_null : DataType → Field → Option FieldValue → (FieldValue → Cast) → Cast
unless_null t f none k = null_or_fail t f
unless_null t f (some v) k = if v.is_null then null_or_fail t f else k v

unfoldable pub coerced {ℓ} : {A : Type ℓ} → Field → List ℕ → (A → FieldValue) → List ℕ ⊎ A → Cast
coerced f text value (inl err) = fail_cast f text err
coerced f text value (inr a) = stored (value a)

-- An empty text counts as null, any other is coerced.
unfoldable pub from_text {ℓ} :
    {A : Type ℓ} → DataType → Field → (A → FieldValue) → (List ℕ → List ℕ ⊎ A) → List ℕ → Cast
from_text t f value coerce [] = null_or_fail t f
from_text t f value coerce (c ∷ text) = coerced f (c ∷ text) value (coerce (c ∷ text))

-- `rawVal.Type == domain.TypeInt64`, and so on.
abbrev pub is_int64 : DataType → Bool
is_int64 type_int64 = true
is_int64 t = false

abbrev pub is_float64 : DataType → Bool
is_float64 type_float64 = true
is_float64 t = false

abbrev pub is_bool : DataType → Bool
is_bool type_bool = true
is_bool t = false

abbrev pub is_timestamp : DataType → Bool
is_timestamp type_timestamp = true
is_timestamp t = false

abbrev pub is_decimal : DataType → Bool
is_decimal type_decimal = true
is_decimal t = false

module _ (𝓒 : Conversions) where
  -- `FieldValue.String`
  unfoldable pub text_of : FieldValue → List ℕ
  text_of v = if v.is_null then [] else elim v.dtype [
    | type_int64 ↦ 𝓒.format_int (of_u64 v.num_val)
    | type_float64 ↦ 𝓒.format_float v.num_val
    | type_bool ↦ 𝓒.format_bool (if v.num_val == 1 then true else false)
    | type_timestamp ↦ 𝓒.format_time (of_u64 v.num_val)
    | type_decimal ↦ 𝓒.format_decimal (of_u64 v.num_val) v.scale
    | _ ↦ v.str_val
  ]

  unfoldable pub cast_int64 : Field → FieldValue → Cast
  cast_int64 f v =
      if is_int64 v.dtype
      then stored v
      else (if is_float64 v.dtype
          then stored (int64_value (𝓒.int_of_float v.num_val))
          else from_text type_int64 f int64_value 𝓒.coerce_int64 (text_of v))

  unfoldable pub cast_decimal : Field → FieldValue → Cast
  cast_decimal f v =
      if is_decimal v.dtype && eqb_ℤ v.scale f.scale
      then stored v
      else (if is_int64 v.dtype
          then stored (decimal_value (of_u64 v.num_val) (pos 0))
          else from_text type_decimal f (λ p. decimal_value p.0 p.1)
              (λ text. 𝓒.coerce_decimal text f.scale f.on_overflow) (text_of v))

  unfoldable pub cast_float64 : Field → FieldValue → Cast
  cast_float64 f v =
      if is_float64 v.dtype
      then stored v
      else (if is_int64 v.dtype
          then stored (float64_value (𝓒.float_of_int (of_u64 v.num_val)))
          else from_text type_float64 f float64_value 𝓒.coerce_float64 (text_of v))

  unfoldable pub cast_bool : Field → FieldValue → Cast
  cast_bool f v =
      if is_bool v.dtype
      then stored v
      else from_text type_bool f bool_value 𝓒.coerce_bool (text_of v)

  unfoldable pub cast_timestamp : Field → FieldValue → Cast
  cast_timestamp f v =
      if is_timestamp v.dtype
      then stored v
      else from_text type_timestamp f timestamp_value 𝓒.coerce_timestamp (text_of v)

  -- The plan that is compiled for a type, applied to a field and a raw value or none.
  unfoldable pub plan_of : DataType → Field → Option FieldValue → Cast
  plan_of type_int64 f raw = unless_null type_int64 f raw (cast_int64 f)
  plan_of type_decimal f raw = unless_null type_decimal f raw (cast_decimal f)
  plan_of type_float64 f raw = unless_null type_float64 f raw (cast_float64 f)
  plan_of type_bool f raw = unless_null type_bool f raw (cast_bool f)
  plan_of type_timestamp f raw = unless_null type_timestamp f raw (cast_timestamp f)
  plan_of type_bytes f raw = unless_null type_bytes f raw (λ v. stored (bytes_value (text_of v)))
  plan_of t f raw = unless_null type_string f raw (λ v. stored (string_value (text_of v)))

  -- The plan of a field.
  abbrev pub cast_field : Field → Option FieldValue → Cast
  cast_field f raw = plan_of f.type_ f raw
