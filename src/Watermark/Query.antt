-- ===== src/Watermark/Query.antt =====
-- The query of a database source with its watermark: internal/domain/config_database.go, with `Validate` of
-- internal/domain/watermark_config.go. Of a source's configuration the fields that a query uses are kept.
use omnibeam_go.Common.{
  ℕ, zero, suc, ◌-◌, Bool, true, false, ◌&&◌, ◌||◌, ◌⊎◌, inl, inr, Option, none, some, List, [],
  ◌∷◌, ◌++◌, leb, length, ◌==◌, if◌then◌else◌,
}
use omnibeam_go.Numbers.{trim_space}
use omnibeam_go.Common.Text.{codes}
use omnibeam_go.Watermark.{
  Formats, WatermarkType, WatermarkValue, WatermarkError, is_supported, sql_literal,
}
use omnibeam_go.Watermark.Output.{WatermarkConfig, incoming}

pub record DatabaseSource : Type 0 where
  pub query : List ℕ
  pub table : List ℕ
  pub query_filter : List ℕ
  pub columns : List (List ℕ)
  pub watermark : Option WatermarkConfig

pub data QueryError : Type 0 where
  empty_column invalid_column bad_type unexpected_placeholder missing_value : QueryError
  bad_watermark : WatermarkError → QueryError

abbrev pub is_letter : ℕ → Bool
is_letter c = (leb 65 c && leb c 90) || (leb 97 c && leb c 122) || c == 95

abbrev pub is_word : ℕ → Bool
is_word c = is_letter c || (leb 48 c && leb c 57)

unfoldable pub all_word : List ℕ → Bool
all_word [] = true
all_word (c ∷ s) = is_word c && all_word s

-- `validColumnIdentifier`
unfoldable pub is_identifier : List ℕ → Bool
is_identifier [] = false
is_identifier (c ∷ s) = is_letter c && all_word s

-- The error of `WatermarkConfig.Validate`, for a trimmed column.
unfoldable pub column_error : List ℕ → WatermarkType → Option QueryError
column_error [] t = some empty_column
column_error (c ∷ s) t =
    if is_identifier (c ∷ s)
    then if is_supported t then none else some bad_type
    else some invalid_column

abbrev pub validate_watermark : WatermarkConfig → Option QueryError
validate_watermark wm = column_error (trim_space wm.column) wm.type_

-- `strings.Join`
unfoldable pub join : List ℕ → List (List ℕ) → List ℕ
join sep [] = []
join sep (s ∷ []) = s
join sep (s ∷ t ∷ ss) = s ++ (sep ++ join sep (t ∷ ss))

abbrev pub columns_text : List (List ℕ) → List ℕ
columns_text [] = codes "*"
columns_text (c ∷ cs) = join (codes ", ") (c ∷ cs)

abbrev pub select_from : DatabaseSource → List ℕ
select_from cfg = codes "SELECT " ++ (columns_text cfg.columns ++ (codes " FROM " ++ cfg.table))

unfoldable pub with_filter : DatabaseSource → List ℕ → List ℕ
with_filter cfg [] = select_from cfg
with_filter cfg (c ∷ s) = select_from cfg ++ (codes " WHERE " ++ cfg.query_filter)

unfoldable pub query_or_select : DatabaseSource → List ℕ → List ℕ
query_or_select cfg [] = with_filter cfg (trim_space cfg.query_filter)
query_or_select cfg (c ∷ s) = c ∷ s

unfoldable pub base_query : DatabaseSource → List ℕ
base_query cfg = query_or_select cfg (trim_space cfg.query)

unfoldable pub has_prefix : List ℕ → List ℕ → Bool
has_prefix [] s = true
has_prefix (p ∷ ps) [] = false
has_prefix (p ∷ ps) (c ∷ s) = p == c && has_prefix ps s

abbrev pub placeholder : List ℕ
placeholder = codes ":watermark_value"

-- `strings.Contains`
unfoldable pub contains_text : List ℕ → List ℕ → Bool
contains_text part [] = has_prefix part []
contains_text part (c ∷ s) = has_prefix part (c ∷ s) || contains_text part s

-- `strings.ReplaceAll` for a part that is not empty; the number says how many characters of the last
-- occurrence that was found are still to be passed over.
unfoldable pub replace_from : List ℕ → List ℕ → ℕ → List ℕ → List ℕ
replace_from part new k [] = []
replace_from part new (suc k) (c ∷ s) = replace_from part new k s
replace_from part new zero (c ∷ s) =
    let found = has_prefix part (c ∷ s) in
    let rest = replace_from part new (if found then length part - 1 else 0) s in
    if found then new ++ rest else c ∷ rest

abbrev pub wrapped : List ℕ → List ℕ → List ℕ → List ℕ
wrapped base column literal =
    codes "SELECT * FROM ("
    ++ (base ++ (codes ") AS _wm WHERE " ++ (column ++ (codes " > " ++ literal))))

module _ (𝓕 : Formats) where
  unfoldable pub with_incoming :
      Bool → List ℕ → List ℕ → WatermarkError ⊎ Option (WatermarkValue 𝓕) → QueryError ⊎ List ℕ
  with_incoming found base column (inl e) = inl (bad_watermark e)
  with_incoming found base column (inr none) = if found then inl missing_value else inr base
  with_incoming found base column (inr (some v)) = inr (
      if found
      then replace_from placeholder (sql_literal 𝓕 v) 0 base
      else wrapped base column (sql_literal 𝓕 v))

  unfoldable pub query_with : List ℕ → Bool → Option WatermarkConfig → QueryError ⊎ List ℕ
  query_with base found none = if found then inl unexpected_placeholder else inr base
  query_with base found (some wm) = elim (validate_watermark wm) [
    | some e ↦ inl e
    | none ↦ with_incoming found base wm.column (incoming 𝓕 wm)
  ]

  -- `EffectiveQuery`
  unfoldable pub effective_query : DatabaseSource → QueryError ⊎ List ℕ
  effective_query cfg =
      query_with (base_query cfg) (contains_text placeholder (base_query cfg)) cfg.watermark
