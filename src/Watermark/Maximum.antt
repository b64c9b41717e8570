-- ===== src/Watermark/Maximum.antt =====
-- The greatest value of a column: `maxParquetColumn` of cmd/pipeline/watermark_output.go. The parquet library
-- is a parameter.
use omnibeam_go.Common.{
  ℕ, Bool, true, false, ◌⊎◌, inl, inr, Option, none, some, List, [], ◌∷◌, get_elem?, if◌then◌else◌,
  str_eq,
}
use omnibeam_go.Common.Int.{ℤ}
use omnibeam_go.Coercion.FormatDecimal.{format_int}
use omnibeam_go.Common.Text.{codes}
use omnibeam_go.Watermark.{
  Formats, WatermarkType, wm_string, wm_integer, wm_float, wm_timestamp, wm_date, unsupported,
  WatermarkValue, WatermarkError, parse_watermark_value, timestamp_text,
}
use omnibeam_go.Watermark.Order.{exceeds}

pub data Kind : Type 0 where
  int32_kind int64_kind float_kind double_kind other_kind : Kind

-- The parquet library's values, and `time.UnixMicro` in UTC.
pub record Parquet (𝓕 : Formats) : Type 1 where
  pub Value : Type 0
  pub is_null : Value → Bool
  pub kind : Value → Kind
  pub int64 : Value → ℤ
  pub int32 : Value → ℤ
  pub double : Value → 𝓕.Real
  pub float : Value → 𝓕.Real
  pub string : Value → List ℕ
  pub byte_array : Value → List ℕ
  pub unix_micro : ℤ → 𝓕.Instant

-- A page's values are read in order, whatever the buffer's length; an error may end them.
pub record Page (V : Type 0) : Type 0 where
  pub values : List V
  pub fails : Bool

pub record Chunk (V : Type 0) : Type 0 where
  pub pages : List (Page V)
  pub fails : Bool

-- A file that cannot be opened or has no header, or its columns, of which groups have no index, and its row
-- groups.
pub data File (V : Type 0) : Type 0 where
  unreadable : File V
  opened : List (List ℕ × Option ℕ) → List (List (Chunk V)) → File V

pub data ScanError : Type 0 where
  no_file no_column bad_page bad_values bad_offset no_directory : ScanError
  bad_value : WatermarkError → ScanError

abbrev pub and_then {ℓ} : {E A B : Type ℓ} → E ⊎ A → (A → E ⊎ B) → E ⊎ B
and_then (inl e) f = inl e
and_then (inr a) f = f a

-- A loop that stops at the first error.
unfoldable pub each : {E A X : Type 0} → (A → X → E ⊎ A) → A → List X → E ⊎ A
each f a [] = inr a
each f a (x ∷ xs) = and_then (f a x) (λ b. each f b xs)

unfoldable pub column_index : List ℕ → List (List ℕ × Option ℕ) → Option ℕ
column_index name [] = none
column_index name ((n, i) ∷ cols) =
    let rest = column_index name cols in if str_eq n name then i else rest

module _ {𝓕 : Formats} (𝓟 : Parquet 𝓕) where
  open 𝓟 use {Value, is_null, kind, int64, int32, double, float, string, byte_array, unix_micro}

  unfoldable pub integer_text : Kind → Value → List ℕ
  integer_text int64_kind v = format_int (int64 v)
  integer_text int32_kind v = format_int (int32 v)
  integer_text float_kind v = string v
  integer_text double_kind v = string v
  integer_text other_kind v = string v

  unfoldable pub float_text : Kind → Value → List ℕ
  float_text double_kind v = 𝓕.format_float (double v)
  float_text float_kind v = 𝓕.format_float (float v)
  float_text int32_kind v = string v
  float_text int64_kind v = string v
  float_text other_kind v = string v

  abbrev pub is_int64_kind : Kind → Bool
  is_int64_kind int64_kind = true
  is_int64_kind int32_kind = false
  is_int64_kind float_kind = false
  is_int64_kind double_kind = false
  is_int64_kind other_kind = false

  unfoldable pub parquet_text : WatermarkType → Value → List ℕ
  parquet_text wm_integer v = integer_text (kind v) v
  parquet_text wm_float v = float_text (kind v) v
  parquet_text wm_timestamp v =
      if is_int64_kind (kind v) then timestamp_text 𝓕 (unix_micro (int64 v)) else byte_array v
  parquet_text wm_date v =
      if is_int64_kind (kind v)
      then 𝓕.format_time (codes "2006-01-02") (unix_micro (int64 v))
      else byte_array v
  parquet_text wm_string v = byte_array v
  parquet_text (unsupported t) v = byte_array v

  unfoldable pub parse_parquet_value : WatermarkType → Value → WatermarkError ⊎ WatermarkValue 𝓕
  parse_parquet_value t v = parse_watermark_value 𝓕 t (parquet_text t v)

  abbrev pub greater_of : Option (WatermarkValue 𝓕) → WatermarkValue 𝓕 → Option (WatermarkValue 𝓕)
  greater_of none p = some p
  greater_of (some m) p = if exceeds 𝓕 p m then some p else some m

  abbrev pub with_parsed :
      Option (WatermarkValue 𝓕)
      → WatermarkError ⊎ WatermarkValue 𝓕
      → ScanError ⊎ Option (WatermarkValue 𝓕)
  with_parsed m (inl e) = inl (bad_value e)
  with_parsed m (inr p) = inr (greater_of m p)

  module _ (t : WatermarkType) where
    -- The body of the loop over a buffer.
    unfoldable pub take_value :
        Option (WatermarkValue 𝓕) → Value → ScanError ⊎ Option (WatermarkValue 𝓕)
    take_value m v = if is_null v then inr m else with_parsed m (parse_parquet_value t v)

    unfoldable pub scan_page :
        Option (WatermarkValue 𝓕) → Page Value → ScanError ⊎ Option (WatermarkValue 𝓕)
    scan_page m p =
        and_then (each take_value m p.values) (λ n. if p.fails then inl bad_values else inr n)

    unfoldable pub scan_chunk :
        Option (WatermarkValue 𝓕) → Chunk Value → ScanError ⊎ Option (WatermarkValue 𝓕)
    scan_chunk m c =
        and_then (each scan_page m c.pages) (λ n. if c.fails then inl bad_page else inr n)

    unfoldable pub scan_row_group :
        ℕ → Option (WatermarkValue 𝓕) → List (Chunk Value) → ScanError ⊎ Option (WatermarkValue 𝓕)
    scan_row_group i m chunks = elim (get_elem? chunks i) [ none ↦ inr m | some c ↦ scan_chunk m c ]

    unfoldable pub scan_column :
        Option (WatermarkValue 𝓕)
        → List (List (Chunk Value))
        → Option ℕ
        → ScanError ⊎ Option (WatermarkValue 𝓕)
    scan_column m groups none = inl no_column
    scan_column m groups (some i) = each (scan_row_group i) m groups

    unfoldable pub scan_file :
        List ℕ → Option (WatermarkValue 𝓕) → File Value → ScanError ⊎ Option (WatermarkValue 𝓕)
    scan_file column m unreadable = inl no_file
    scan_file column m (opened cols groups) = scan_column m groups (column_index column cols)

    unfoldable pub max_parquet_column :
        List (File Value) → List ℕ → ScanError ⊎ Option (WatermarkValue 𝓕)
    max_parquet_column files column = each (scan_file column) none files
