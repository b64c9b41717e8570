-- ===== src/Watermark/Validated.antt =====
-- A configuration that `validateWatermark` of internal/domain/config.go accepts has a query, unless the
-- placeholder is the matter: `EffectiveQuery` of internal/domain/config_database.go.
use omnibeam_go.Common.{
  ℕ, ◌≡◌, refl, sym, ap, subst, ◌∙◌, Bool, true, false, not, ◌&&◌, ◌⊎◌, inl, inr, Option, none,
  some, List, if◌then◌else◌, none_some,
}
use omnibeam_go.Watermark.{Formats, WatermarkValue, WatermarkError}
use omnibeam_go.Watermark.Output.{WatermarkConfig, incoming}
use omnibeam_go.Watermark.Query.{
  QueryError, missing_value, unexpected_placeholder, validate_watermark, base_query, contains_text,
  placeholder, with_incoming, query_with, effective_query,
}
use omnibeam_go.Watermark.Pipeline.{
  DatabaseConfig, ApiConfig, PipelineConfig, ConfigError, get_schema, first_error,
  check_destination, check_column, config_error, is_given, database_watermark, incoming_error,
  check_selected, validate_pipeline, file_watermark,
}

module _ (𝓕 : Formats) where
  -- There is no watermark, or it has no value.
  abbrev pub LacksValue : Option WatermarkConfig → Type 0
  LacksValue none = Unit
  LacksValue (some wm) = incoming 𝓕 wm ≡ inr none

  -- There is a watermark, and it has a value.
  abbrev pub HasValue : Option WatermarkConfig → Type 0
  HasValue o =
      (wm : WatermarkConfig) × (v : WatermarkValue 𝓕) × (o ≡ some wm)
      × (incoming 𝓕 wm ≡ inr (some v))

  -- An error where a placeholder is found and has no value, and a query where there is none or it has one.
  abbrev pub IsQuery : Bool → Option WatermarkConfig → QueryError ⊎ List ℕ → Type 0
  IsQuery found wm r =
      (((found ≡ false) ⊎ HasValue wm) × ((q : List ℕ) × (r ≡ inr q)))
      ⊎ ((found ≡ true) × LacksValue wm × ((e : QueryError) × (r ≡ inl e)))

  with_incoming-IsQuery :
      (found : Bool) (base : List ℕ) (wm : WatermarkConfig) (o : Option (WatermarkValue 𝓕))
      → incoming 𝓕 wm ≡ inr o
      → IsQuery found (some wm) (with_incoming 𝓕 found base wm.column (inr o))
  unfolding with_incoming
  with_incoming-IsQuery true base wm none h = inr (refl, h, (missing_value, refl))
  with_incoming-IsQuery false base wm none h = inl (inl refl, (base, refl))
  with_incoming-IsQuery found base wm (some v) h = inl (inr (wm, v, refl, h), (_, refl))

  accepted_incoming :
      (r : WatermarkError ⊎ Option (WatermarkValue 𝓕))
      → incoming_error 𝓕 r ≡ none
      → (o : Option (WatermarkValue 𝓕)) × (r ≡ inr o)
  unfolding incoming_error
  accepted_incoming (inl e) h = none_some (sym h)
  accepted_incoming (inr o) h = (o, refl)

  no_config_error : (o : Option QueryError) → config_error o ≡ none → o ≡ none
  unfolding config_error
  no_config_error none h = refl
  no_config_error (some e) h = none_some (sym h)

  no_first_error : (d e : Option ConfigError) → first_error d e ≡ none → (d ≡ none) × (e ≡ none)
  no_first_error none e h = (refl, h)
  no_first_error (some d) e h = none_some (sym h)

  query_with-IsQuery :
      (base : List ℕ) (found : Bool) (wm : WatermarkConfig)
      → validate_watermark wm ≡ none
      → (o : Option (WatermarkValue 𝓕)) → incoming 𝓕 wm ≡ inr o
      → IsQuery found (some wm) (query_with 𝓕 base found (some wm))
  unfolding query_with
  query_with-IsQuery base found wm valid o h =
      subst (IsQuery found (some wm))
        (sym (
          ap
            (λ x. elim x [
              | some e ↦ inl e
              | none ↦ with_incoming 𝓕 found base wm.column (incoming 𝓕 wm)
            ])
            valid
          ∙ ap (with_incoming 𝓕 found base wm.column) h))
        (with_incoming-IsQuery found base wm o h)

  selected-IsQuery :
      (c : PipelineConfig) (base : List ℕ) (found : Bool) (wm : WatermarkConfig) (is_offset : Bool)
      → check_selected 𝓕 c (some (wm, is_offset)) ≡ none
      → IsQuery found (some wm) (query_with 𝓕 base found (some wm))
  unfolding check_selected
  selected-IsQuery c base found wm is_offset h =
      let rest = first_error (incoming_error 𝓕 (incoming 𝓕 wm)) (
        first_error (check_destination c.destination) (check_column is_offset wm (get_schema c))) in
      let (valid, h') = no_first_error (config_error (validate_watermark wm)) rest h in
      let (parsed, h'') = no_first_error (incoming_error 𝓕 (incoming 𝓕 wm)) _ h' in
      let (o, e) = accepted_incoming (incoming 𝓕 wm) parsed in
      query_with-IsQuery base found wm (no_config_error (validate_watermark wm) valid) o e

  unwatermarked-IsQuery :
      (base : List ℕ) (found : Bool) → IsQuery found none (query_with 𝓕 base found none)
  unfolding query_with
  unwatermarked-IsQuery base true = inr (refl, tt, (unexpected_placeholder, refl))
  unwatermarked-IsQuery base false = inl (inl refl, (base, refl))

  database-IsQuery :
      (c : PipelineConfig) (db : DatabaseConfig) (api : Option ApiConfig) (base : List ℕ)
      (found : Bool) (o : Option WatermarkConfig)
      → db.source.watermark ≡ o
      → check_selected 𝓕 c (database_watermark (some db) api) ≡ none
      → IsQuery found o (query_with 𝓕 base found o)
  unfolding database_watermark
  database-IsQuery c db api base found none e h = unwatermarked-IsQuery base found
  database-IsQuery c db api base found (some wm) e h =
      selected-IsQuery c base found wm false (rw e at h)

  not_alone :
      (given api : Bool) (rest : Option ConfigError)
      → (if given && (false && api) then some file_watermark else rest) ≡ none
      → rest ≡ none
  not_alone true api rest h = h
  not_alone false api rest h = h

  accepted_selected :
      (c : PipelineConfig) (db : DatabaseConfig)
      → c.database_source ≡ some db
      → validate_pipeline 𝓕 c ≡ none
      → check_selected 𝓕 c (database_watermark (some db) c.api_source) ≡ none
  unfolding validate_pipeline
  accepted_selected c db e h =
      not_alone (is_given c.watermark) (not (is_given c.api_source))
        (check_selected 𝓕 c (database_watermark (some db) c.api_source))
        (subst
          (λ o.
            (if is_given c.watermark && (not (is_given o) && not (is_given c.api_source))
              then some file_watermark
              else check_selected 𝓕 c (database_watermark o c.api_source))
            ≡ none)
          e h)

  -- A configuration with a database source that is accepted: where the base query holds the placeholder and
  -- there is no watermark or its value is missing, there is an error, and otherwise there is a query.
  pub validate_pipeline-IsQuery :
      (c : PipelineConfig) (db : DatabaseConfig)
      → c.database_source ≡ some db
      → validate_pipeline 𝓕 c ≡ none
      → IsQuery
          (contains_text placeholder (base_query db.source))
          db.source.watermark
          (effective_query 𝓕 db.source)
  unfolding effective_query
  validate_pipeline-IsQuery c db e h =
      database-IsQuery c db c.api_source (base_query db.source)
        (contains_text placeholder (base_query db.source)) db.source.watermark refl
        (accepted_selected c db e h)
