-- ===== src/Validate/Fits.antt =====
-- What the plans of internal/beam/core/cast_and_validate.go promise: a value that the field admits,
-- or an error that names the field.
use omnibeam_go.Common.{
  ℕ, ◌≡◌, ◌⊎◌, inl, inr, refl, Bool, true, false, ◌&&◌, Option, none, some, List, [], ◌∷◌, arith,
  if◌then◌else◌,
}
use omnibeam_go.Common.Int.{pos, eqb_ℤ}
use omnibeam_go.Common.Word.{of_u64}
use omnibeam_go.Record.{
  DataType, type_string, type_int64, type_float64, type_bool, type_timestamp, type_bytes, type_date,
  type_decimal, type_json, other, FieldValue, null_value, string_value, int64_value, float64_value,
  bool_value, timestamp_value, bytes_value, decimal_value,
}
use omnibeam_go.Validate.Plan.{
  Field, Conversions, Cast, stored, failed, fail_null, fail_cast, null_or_fail, unless_null,
  coerced, from_text, text_of, cast_int64, cast_decimal, cast_float64, cast_bool, cast_timestamp,
  plan_of, is_int64, is_float64, is_bool, is_timestamp, is_decimal,
}

-- The type under which a plan stores its values.
abbrev pub stored_type : DataType → DataType
stored_type type_int64 = type_int64
stored_type type_decimal = type_decimal
stored_type type_float64 = type_float64
stored_type type_bool = type_bool
stored_type type_timestamp = type_timestamp
stored_type type_bytes = type_bytes
stored_type type_string = type_string
stored_type type_date = type_string
stored_type type_json = type_string
stored_type (other name) = type_string

-- A value that a field admits: of its type, and null only where the field is nullable.
pub record Admits (f : Field) (v : FieldValue) : Type 0 where
  pub typed : v.dtype ≡ stored_type f.type_
  pub null : v.is_null ≡ true → f.nullable ≡ true

-- What a plan promises: a value that the field admits, or an error on that field.
unfoldable pub Fits : DataType → Field → Cast → Type 0
Fits t f (stored v) = (v.dtype ≡ t) × (v.is_null ≡ true → f.nullable ≡ true)
Fits t f (failed e sample) = e.field ≡ f.name

null_or_fail-Fits : (t : DataType) (f : Field) → Fits t f (null_or_fail t f)
unfolding null_or_fail fail_null Fits
null_or_fail-Fits t f = by_nullable f.nullable refl
  where
    by_nullable :
        (b : Bool) → f.nullable ≡ b → Fits t f (if b then stored (null_value t) else fail_null f)
    by_nullable true e = (refl, λ h. e)
    by_nullable false e = refl

unless_null-Fits :
    (t : DataType) (f : Field) (raw : Option FieldValue) (k : FieldValue → Cast)
    → ((v : FieldValue) → v.is_null ≡ false → Fits t f (k v))
    → Fits t f (unless_null t f raw k)
unfolding unless_null
unless_null-Fits t f none k h = null_or_fail-Fits t f
unless_null-Fits t f (some v) k h = by_null v.is_null refl
  where
    by_null : (b : Bool) → v.is_null ≡ b → Fits t f (if b then null_or_fail t f else k v)
    by_null true e = null_or_fail-Fits t f
    by_null false e = h v e

from_text-Fits {ℓ} :
    {A : Type ℓ} (t : DataType) (f : Field) (value : A → FieldValue) (coerce : List ℕ → List ℕ ⊎ A)
    (text : List ℕ)
    → ((a : A) → ((value a).dtype ≡ t) × ((value a).is_null ≡ false))
    → Fits t f (from_text t f value coerce text)
unfolding from_text coerced fail_cast Fits
from_text-Fits t f value coerce [] h = null_or_fail-Fits t f
from_text-Fits {A = A} t f value coerce (c ∷ text) h = by_result (coerce (c ∷ text))
  where
    by_result : (r : List ℕ ⊎ A) → Fits t f (coerced f (c ∷ text) value r)
    by_result (inl err) = refl
    by_result (inr a) = ((h a).0, λ e. absurd (ground (arith, e, (h a).1)))

if-Fits :
    (b : Bool) (t : DataType) (f : Field) (x y : Cast)
    → (b ≡ true → Fits t f x)
    → (b ≡ false → Fits t f y)
    → Fits t f (if b then x else y)
if-Fits true t f x y h k = h refl
if-Fits false t f x y h k = k refl

same-Fits :
    (t : DataType) (f : Field) (v : FieldValue)
    → v.dtype ≡ t
    → v.is_null ≡ false
    → Fits t f (stored v)
unfolding Fits
same-Fits t f v h k = (h, λ e. absurd (ground (arith, e, k)))

is_int64→eq : (t : DataType) → is_int64 t ≡ true → t ≡ type_int64
is_int64→eq t h = ground arith

is_float64→eq : (t : DataType) → is_float64 t ≡ true → t ≡ type_float64
is_float64→eq t h = ground arith

is_bool→eq : (t : DataType) → is_bool t ≡ true → t ≡ type_bool
is_bool→eq t h = ground arith

is_timestamp→eq : (t : DataType) → is_timestamp t ≡ true → t ≡ type_timestamp
is_timestamp→eq t h = ground arith

is_decimal→eq : (t : DataType) (b : Bool) → is_decimal t && b ≡ true → t ≡ type_decimal
is_decimal→eq t b h = ground arith

module _ (𝓒 : Conversions) (f : Field) (v : FieldValue) (h : v.is_null ≡ false) where
  cast_int64-Fits : Fits type_int64 f (cast_int64 𝓒 f v)
  unfolding cast_int64
  cast_int64-Fits =
      if-Fits (is_int64 v.dtype) type_int64 f _ _
        (λ e. same-Fits type_int64 f v (is_int64→eq v.dtype e) h)
        (λ e.
          if-Fits (is_float64 v.dtype) type_int64 f _ _
            (λ k.
              same-Fits type_int64 f (int64_value (𝓒.int_of_float v.num_val))
                (unfold int64_value in refl) (unfold int64_value in refl))
            (λ k.
              from_text-Fits type_int64 f int64_value 𝓒.coerce_int64 (text_of 𝓒 v)
                (λ a. (unfold int64_value in refl, unfold int64_value in refl))))

  cast_decimal-Fits : Fits type_decimal f (cast_decimal 𝓒 f v)
  unfolding cast_decimal
  cast_decimal-Fits =
      if-Fits (is_decimal v.dtype && eqb_ℤ v.scale f.scale) type_decimal f _ _
        (λ e. same-Fits type_decimal f v (is_decimal→eq v.dtype (eqb_ℤ v.scale f.scale) e) h)
        (λ e.
          if-Fits (is_int64 v.dtype) type_decimal f _ _
            (λ k.
              same-Fits type_decimal f (decimal_value (of_u64 v.num_val) (pos 0))
                (unfold decimal_value in refl) (unfold decimal_value in refl))
            (λ k.
              from_text-Fits type_decimal f (λ p. decimal_value p.0 p.1)
                (λ text. 𝓒.coerce_decimal text f.scale f.on_overflow) (text_of 𝓒 v)
                (λ a. ((unfold decimal_value in refl), (unfold decimal_value in refl)))))

  cast_float64-Fits : Fits type_float64 f (cast_float64 𝓒 f v)
  unfolding cast_float64
  cast_float64-Fits =
      if-Fits (is_float64 v.dtype) type_float64 f _ _
        (λ e. same-Fits type_float64 f v (is_float64→eq v.dtype e) h)
        (λ e.
          if-Fits (is_int64 v.dtype) type_float64 f _ _
            (λ k.
              same-Fits type_float64 f (float64_value (𝓒.float_of_int (of_u64 v.num_val))) refl
                refl)
            (λ k.
              from_text-Fits type_float64 f float64_value 𝓒.coerce_float64 (text_of 𝓒 v)
                (λ a. (refl, refl))))

  cast_bool-Fits : Fits type_bool f (cast_bool 𝓒 f v)
  unfolding cast_bool
  cast_bool-Fits =
      if-Fits (is_bool v.dtype) type_bool f _ _
        (λ e. same-Fits type_bool f v (is_bool→eq v.dtype e) h)
        (λ e. from_text-Fits type_bool f bool_value 𝓒.coerce_bool (text_of 𝓒 v) (λ a. (refl, refl)))

  cast_timestamp-Fits : Fits type_timestamp f (cast_timestamp 𝓒 f v)
  unfolding cast_timestamp
  cast_timestamp-Fits =
      if-Fits (is_timestamp v.dtype) type_timestamp f _ _
        (λ e. same-Fits type_timestamp f v (is_timestamp→eq v.dtype e) h)
        (λ e.
          from_text-Fits type_timestamp f timestamp_value 𝓒.coerce_timestamp (text_of 𝓒 v)
            (λ a. ((unfold timestamp_value in refl), (unfold timestamp_value in refl))))

module _ (𝓒 : Conversions) (f : Field) (raw : Option FieldValue) where
  text-Fits :
      Fits type_string f (unless_null type_string f raw (λ v. stored (string_value (text_of 𝓒 v))))
  text-Fits =
      unless_null-Fits type_string f raw (λ v. stored (string_value (text_of 𝓒 v)))
        (λ v h. same-Fits type_string f (string_value (text_of 𝓒 v)) refl refl)

  pub plan_of-Fits : (t : DataType) → Fits (stored_type t) f (plan_of 𝓒 t f raw)
  unfolding plan_of
  plan_of-Fits type_int64 = unless_null-Fits type_int64 f raw (cast_int64 𝓒 f) (cast_int64-Fits 𝓒 f)
  plan_of-Fits type_decimal =
      unless_null-Fits type_decimal f raw (cast_decimal 𝓒 f) (cast_decimal-Fits 𝓒 f)
  plan_of-Fits type_float64 =
      unless_null-Fits type_float64 f raw (cast_float64 𝓒 f) (cast_float64-Fits 𝓒 f)
  plan_of-Fits type_bool = unless_null-Fits type_bool f raw (cast_bool 𝓒 f) (cast_bool-Fits 𝓒 f)
  plan_of-Fits type_timestamp =
      unless_null-Fits type_timestamp f raw (cast_timestamp 𝓒 f) (cast_timestamp-Fits 𝓒 f)
  plan_of-Fits type_bytes =
      unless_null-Fits type_bytes f raw (λ v. stored (bytes_value (text_of 𝓒 v)))
        (λ v h. same-Fits type_bytes f (bytes_value (text_of 𝓒 v)) refl refl)
  plan_of-Fits type_string = text-Fits
  plan_of-Fits type_date = text-Fits
  plan_of-Fits type_json = text-Fits
  plan_of-Fits (other name) = text-Fits
