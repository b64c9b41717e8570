-- ===== src/Watermark.antt =====
-- Watermark values: internal/domain/watermark_value.go. Floats and instants, with their texts, belong to
-- the standard library and are parameters; `strings.TrimSpace` is the one of the numbers.
pub mod Order
pub mod Typed
pub mod Literal
pub mod Maximum
pub mod Output
pub mod Greatest
pub mod Scan
pub mod Settled
pub mod Query
pub mod Replace
pub mod Injection
pub mod Pipeline
pub mod Validated
use omnibeam_go.Common.{
  ℕ, Bool, true, false, ◌⊎◌, inl, inr, Option, none, some, List, [], ◌∷◌, ◌++◌, ◌==◌, if◌then◌else◌,
}
use omnibeam_go.Common.Int.{ℤ, pos, negsuc, ltb_ℤ}
use omnibeam_go.Common.Text.{codes}
use omnibeam_go.Common.Keys.{str_ltb}
use omnibeam_go.Numbers.{Parsed, parsed, invalid_int, overflow, trim_space, parse_signed}
use omnibeam_go.Coercion.FormatDecimal.{format_int}

-- A type is a string with five named values.
pub data WatermarkType : Type 0 where
  wm_integer wm_float wm_timestamp wm_date wm_string : WatermarkType
  unsupported : List ℕ → WatermarkType

-- `parse_time` and `format_time` take a layout first.
pub record Formats : Type 1 where
  pub Real : Type 0
  pub Instant : Type 0
  pub zero_real : Real
  pub zero_instant : Instant
  pub real_ltb : Real → Real → Bool
  pub before : Instant → Instant → Bool
  pub is_finite : Real → Bool
  pub parse_float : List ℕ → Option Real
  pub format_float : Real → List ℕ
  pub parse_time : List ℕ → List ℕ → Option Instant
  pub format_time : List ℕ → Instant → List ℕ
  pub nanosecond : Instant → ℕ

pub data WatermarkError : Type 0 where
  unsupported_type empty_value invalid_integer invalid_float not_finite : WatermarkError
  invalid_timestamp invalid_date : WatermarkError

-- `WatermarkType.Validate`
abbrev pub is_supported : WatermarkType → Bool
is_supported wm_integer = true
is_supported wm_float = true
is_supported wm_timestamp = true
is_supported wm_date = true
is_supported wm_string = true
is_supported (unsupported t) = false

abbrev pub three_way : Bool → Bool → ℤ
three_way less greater = if less then negsuc 0 else if greater then pos 1 else pos 0

-- `strings.ReplaceAll(s, "'", "''")`
unfoldable pub double_quotes : List ℕ → List ℕ
double_quotes [] = []
double_quotes (c ∷ s) = let rest = double_quotes s in if c == 39 then 39 ∷ 39 ∷ rest else c ∷ rest

abbrev pub quoted : List ℕ → List ℕ
quoted s = 39 ∷ (s ++ (39 ∷ []))

module _ (𝓕 : Formats) where
  open 𝓕 use {
    Real, Instant, zero_real, zero_instant, real_ltb, before, is_finite, parse_float, format_float,
    parse_time, format_time, nanosecond,
  }

  pub record WatermarkValue : Type 0 where
    pub w_type : WatermarkType
    pub int_val : ℤ
    pub float_val : Real
    pub time_val : Instant
    pub str_val : List ℕ

  -- A value of the type, the other fields zero.
  abbrev pub blank_value : WatermarkType → WatermarkValue
  blank_value t = record {
    w_type = t;
    int_val = pos 0;
    float_val = zero_real;
    time_val = zero_instant;
    str_val = [];
  }

  unfoldable pub of_integer : Parsed ℤ → WatermarkError ⊎ WatermarkValue
  of_integer (parsed n) = inr (record (blank_value wm_integer) { int_val = n })
  of_integer invalid_int = inl invalid_integer
  of_integer overflow = inl invalid_integer

  unfoldable pub of_float : Option Real → WatermarkError ⊎ WatermarkValue
  of_float none = inl invalid_float
  of_float (some x) =
      if is_finite x then inr (record (blank_value wm_float) { float_val = x }) else inl not_finite

  unfoldable pub of_instant :
      WatermarkType → WatermarkError → Option Instant → WatermarkError ⊎ WatermarkValue
  of_instant t e none = inl e
  of_instant t e (some x) = inr (record (blank_value t) { time_val = x })

  -- RFC 3339 with a fraction, then without.
  unfoldable pub parse_timestamp : List ℕ → Option Instant
  parse_timestamp s = elim (parse_time (codes "2006-01-02T15:04:05.999999999Z07:00") s) [
    | some x ↦ some x
    | none ↦ parse_time (codes "2006-01-02T15:04:05Z07:00") s
  ]

  -- `strconv.ParseInt` accepts the texts that `parse_signed` does, with the same integers.
  unfoldable pub parse_as : WatermarkType → List ℕ → WatermarkError ⊎ WatermarkValue
  parse_as wm_integer s = of_integer (parse_signed s)
  parse_as wm_float s = of_float (parse_float s)
  parse_as wm_timestamp s = of_instant wm_timestamp invalid_timestamp (parse_timestamp s)
  parse_as wm_date s = of_instant wm_date invalid_date (parse_time (codes "2006-01-02") s)
  parse_as wm_string s = inr (record (blank_value wm_string) { str_val = s })
  parse_as (unsupported t) s = inl unsupported_type

  unfoldable pub unless_empty : WatermarkType → List ℕ → WatermarkError ⊎ WatermarkValue
  unless_empty t [] = inl empty_value
  unless_empty t (c ∷ s) = parse_as t (c ∷ s)

  unfoldable pub parse_watermark_value : WatermarkType → List ℕ → WatermarkError ⊎ WatermarkValue
  parse_watermark_value t raw =
      if is_supported t then unless_empty t (trim_space raw) else inl unsupported_type

  unfoldable pub compare_as : WatermarkType → WatermarkValue → WatermarkValue → ℤ
  compare_as wm_integer v w = three_way (ltb_ℤ v.int_val w.int_val) (ltb_ℤ w.int_val v.int_val)
  compare_as wm_float v w =
      three_way (real_ltb v.float_val w.float_val) (real_ltb w.float_val v.float_val)
  compare_as wm_timestamp v w =
      three_way (before v.time_val w.time_val) (before w.time_val v.time_val)
  compare_as wm_date v w = three_way (before v.time_val w.time_val) (before w.time_val v.time_val)
  compare_as wm_string v w = three_way (str_ltb v.str_val w.str_val) (str_ltb w.str_val v.str_val)
  compare_as (unsupported t) v w =
      three_way (str_ltb v.str_val w.str_val) (str_ltb w.str_val v.str_val)

  abbrev pub compare : WatermarkValue → WatermarkValue → ℤ
  compare v w = compare_as v.w_type v w

  unfoldable pub timestamp_text : Instant → List ℕ
  timestamp_text x =
      format_time
        (if nanosecond x == 0
          then codes "2006-01-02T15:04:05-07:00"
          else codes "2006-01-02T15:04:05.999999-07:00")
        x

  -- `String`
  unfoldable pub text_as : WatermarkType → WatermarkValue → List ℕ
  text_as wm_integer v = format_int v.int_val
  text_as wm_float v = format_float v.float_val
  text_as wm_timestamp v = timestamp_text v.time_val
  text_as wm_date v = format_time (codes "2006-01-02") v.time_val
  text_as wm_string v = v.str_val
  text_as (unsupported t) v = v.str_val

  abbrev pub text : WatermarkValue → List ℕ
  text v = text_as v.w_type v

  -- `SQLLiteral`
  unfoldable pub literal_as : WatermarkType → WatermarkValue → List ℕ
  literal_as wm_integer v = format_int v.int_val
  literal_as wm_float v = format_float v.float_val
  literal_as wm_timestamp v = quoted (text v)
  literal_as wm_date v = quoted (text v)
  literal_as wm_string v = quoted (double_quotes v.str_val)
  literal_as (unsupported t) v = quoted (double_quotes v.str_val)

  abbrev pub sql_literal : WatermarkValue → List ℕ
  sql_literal v = literal_as v.w_type v
