-- ===== src/Watermark/Output.antt =====
-- The watermark of a run: cmd/pipeline/watermark_output.go. The scan of the files is Maximum.
use omnibeam_go.Common.{
  ℕ, ◌-◌, Bool, not, ◌&&◌, ◌⊎◌, inl, inr, Option, none, some, List, [], ◌∷◌, length, drop, leb,
  if◌then◌else◌, str_eq,
}
use omnibeam_go.Common.Int.{ℤ, pos, eqb_ℤ}
use omnibeam_go.Common.Word.{add64}
use omnibeam_go.Numbers.{parsed, invalid_int, overflow, trim_space, parse_signed}
use omnibeam_go.Coercion.FormatDecimal.{format_int}
use omnibeam_go.Common.Text.{codes}
use omnibeam_go.Watermark.{
  Formats, WatermarkType, WatermarkValue, WatermarkError, parse_watermark_value, text,
}
use omnibeam_go.Watermark.Order.{exceeds}
use omnibeam_go.Watermark.Maximum.{
  Parquet, File, ScanError, bad_offset, no_directory, max_parquet_column,
}

-- `Value`: nil or a text.
pub record WatermarkConfig : Type 0 where
  pub column : List ℕ
  pub type_ : WatermarkType
  pub value : Option (List ℕ)

pub record WatermarkOutput : Type 0 where
  pub column : List ℕ
  pub type_ : WatermarkType
  pub value : Option (List ℕ)

-- `strings.HasSuffix`
unfoldable pub has_suffix : List ℕ → List ℕ → Bool
has_suffix s suffix =
    leb (length suffix) (length s) && str_eq (drop (length s - length suffix) s) suffix

-- An entry of the output directory; `false` says that it is a file.
unfoldable pub parquet_names : List (List ℕ × Bool) → List (List ℕ)
parquet_names [] = []
parquet_names ((name, is_dir) ∷ entries) =
    let rest = parquet_names entries in
    if not is_dir && has_suffix name (codes ".parquet") then name ∷ rest else rest

unfoldable pub open_all {ℓ} : {A : Type ℓ} → (List ℕ → A) → List (List ℕ) → List A
open_all read [] = []
open_all read (name ∷ names) = read name ∷ open_all read names

-- The value that was given, trimmed, nil if it is blank.
unfoldable pub trimmed_value : Option (List ℕ) → Option (List ℕ)
trimmed_value none = none
trimmed_value (some raw) = elim (trim_space raw) [ [] ↦ none | c ∷ s ↦ some (c ∷ s) ]

abbrev pub output_of : WatermarkConfig → Option (List ℕ) → WatermarkOutput
output_of wm v = record { column = wm.column; type_ = wm.type_; value = v }

-- `strconv.Atoi` of a value that is given; `int` has 64 bits.
unfoldable pub start_offset : Option (List ℕ) → ScanError ⊎ ℤ
start_offset none = inr (pos 0)
start_offset (some s) = elim (parse_signed s) [
  | parsed n ↦ inr n
  | invalid_int ↦ inl bad_offset
  | overflow ↦ inl bad_offset
]

unfoldable pub offset_output : WatermarkConfig → ℤ → ScanError ⊎ ℤ → ScanError ⊎ WatermarkOutput
offset_output wm total_read (inl e) = inl e
offset_output wm total_read (inr start) =
    inr (output_of wm (some (format_int (add64 start total_read))))

module _ (𝓕 : Formats) where
  unfoldable pub given :
      WatermarkError ⊎ WatermarkValue 𝓕 → WatermarkError ⊎ Option (WatermarkValue 𝓕)
  given (inl e) = inl e
  given (inr v) = inr (some v)

  unfoldable pub incoming_of :
      WatermarkType → Option (List ℕ) → WatermarkError ⊎ Option (WatermarkValue 𝓕)
  incoming_of t none = inr none
  incoming_of t (some raw) = elim (trim_space raw) [
    | [] ↦ inr none
    | c ∷ s ↦ given (parse_watermark_value 𝓕 t raw)
  ]

  -- `Incoming`
  abbrev pub incoming : WatermarkConfig → WatermarkError ⊎ Option (WatermarkValue 𝓕)
  incoming wm = incoming_of wm.type_ wm.value

  -- An incoming value that is greater is kept, and one that does not parse is passed over.
  unfoldable pub final_value :
      WatermarkValue 𝓕 → WatermarkError ⊎ Option (WatermarkValue 𝓕) → WatermarkValue 𝓕
  final_value m (inl e) = m
  final_value m (inr none) = m
  final_value m (inr (some v)) = if exceeds 𝓕 v m then v else m

  unfoldable pub output_of_max :
      WatermarkConfig → ScanError ⊎ Option (WatermarkValue 𝓕) → ScanError ⊎ WatermarkOutput
  output_of_max wm (inl e) = inl e
  output_of_max wm (inr none) = inr (output_of wm (trimmed_value wm.value))
  output_of_max wm (inr (some m)) = inr (output_of wm (some (text 𝓕 (final_value m (incoming wm)))))

-- What is read of the output directory: its entries, unless it cannot be read, and a file by its name.
pub record Directory (V : Type 0) : Type 0 where
  pub entries : Option (List (List ℕ × Bool))
  pub read : List ℕ → File V

module _ {𝓕 : Formats} (𝓟 : Parquet 𝓕) where
  unfoldable pub scan_directory :
      WatermarkConfig
      → (List ℕ → File 𝓟.Value)
      → Option (List (List ℕ × Bool))
      → ScanError ⊎ WatermarkOutput
  scan_directory wm read none = inl no_directory
  scan_directory wm read (some entries) =
      output_of_max 𝓕 wm
        (max_parquet_column 𝓟 wm.type_ (open_all read (parquet_names entries)) wm.column)

  -- `resolveWatermarkOutput` for the watermark that is configured and whether it tracks an offset.
  unfoldable pub resolve_watermark_output :
      WatermarkConfig → Bool → Directory 𝓟.Value → ℤ → ℤ → ScanError ⊎ WatermarkOutput
  resolve_watermark_output wm is_offset dir total_read rows_written =
      if is_offset
      then offset_output wm total_read (start_offset (trimmed_value wm.value))
      else if eqb_ℤ rows_written (pos 0)
      then inr (output_of wm (trimmed_value wm.value))
      else scan_directory wm dir.read dir.entries
