-- ===== src/Watermark/Injection.antt =====
-- The queries of `EffectiveQuery` of internal/domain/config_database.go for a watermark that is a string: the
-- value stands in them as one literal.
use omnibeam_go.Common.{
  ℕ, ◌≡◌, refl, sym, ap, ◌∙◌, Bool, true, false, inl, inr, none, some, List, [], ◌∷◌, ◌++◌,
  append-nil, if◌then◌else◌,
}
use omnibeam_go.Numbers.{trim_space}
use omnibeam_go.Watermark.{
  Formats, wm_string, literal_as, double_quotes, quoted, blank_value, parse_watermark_value,
  parse_as, unless_empty,
}
use omnibeam_go.Watermark.Output.{WatermarkConfig, incoming, incoming_of, given}
use omnibeam_go.Watermark.Literal.{read_literal, begins_quoted, read_literal-quoted}
use omnibeam_go.Watermark.Query.{
  DatabaseSource, validate_watermark, base_query, contains_text, replace_from, placeholder, wrapped,
  with_incoming, query_with, effective_query,
}
use omnibeam_go.Watermark.Replace.{unfinished, found, replace_from-absent, replace_from-first}

abbrev pub string_watermark : List ℕ → List ℕ → WatermarkConfig
string_watermark column raw = record { column = column; type_ = wm_string; value = some raw }

-- The literal of a text.
abbrev pub literal_of : List ℕ → List ℕ
literal_of s = quoted (double_quotes s)

module _ (𝓕 : Formats) where
  parse_string :
      (raw s : List ℕ) (c : ℕ)
      → trim_space raw ≡ c ∷ s
      → parse_watermark_value 𝓕 wm_string raw
        ≡ inr (record (blank_value 𝓕 wm_string) { str_val = c ∷ s })
  unfolding parse_watermark_value unless_empty parse_as
  parse_string raw s c h = ap (unless_empty 𝓕 wm_string) h

  incoming-string :
      (column raw s : List ℕ) (c : ℕ)
      → trim_space raw ≡ c ∷ s
      → incoming 𝓕 (string_watermark column raw)
        ≡ inr (some (record (blank_value 𝓕 wm_string) { str_val = c ∷ s }))
  unfolding incoming_of given
  incoming-string column raw s c h =
      ap (λ x. elim x [ [] ↦ inr none | d ∷ r ↦ given 𝓕 (parse_watermark_value 𝓕 wm_string raw) ]) h
      ∙ ap (given 𝓕) (parse_string raw s c h)

  query_with-string :
      (base column raw s : List ℕ) (c : ℕ) (found : Bool)
      → trim_space raw ≡ c ∷ s
      → validate_watermark (string_watermark column raw) ≡ none
      → query_with 𝓕 base found (some (string_watermark column raw))
        ≡ inr (
            if found
            then replace_from placeholder (literal_of (c ∷ s)) 0 base
            else wrapped base column (literal_of (c ∷ s)))
  unfolding query_with with_incoming literal_as
  query_with-string base column raw s c found h valid =
      ap
        (λ x. elim x [
          | some e ↦ inl e
          | none ↦ with_incoming 𝓕 found base column (incoming 𝓕 (string_watermark column raw))
        ])
        valid
      ∙ ap (with_incoming 𝓕 found base column) (incoming-string column raw s c h)
      ∙ literal found
    where
      literal :
          (b : Bool)
          → with_incoming 𝓕 b base column
              (inr (some (record (blank_value 𝓕 wm_string) { str_val = c ∷ s })))
            ≡ inr (
                if b
                then replace_from placeholder (literal_of (c ∷ s)) 0 base
                else wrapped base column (literal_of (c ∷ s)))
      literal b = refl

  effective_query-string :
      (cfg : DatabaseSource) (column raw s : List ℕ) (c : ℕ) (found : Bool)
      → cfg.watermark ≡ some (string_watermark column raw)
      → trim_space raw ≡ c ∷ s
      → validate_watermark (string_watermark column raw) ≡ none
      → contains_text placeholder (base_query cfg) ≡ found
      → effective_query 𝓕 cfg
        ≡ inr (
            if found
            then replace_from placeholder (literal_of (c ∷ s)) 0 (base_query cfg)
            else wrapped (base_query cfg) column (literal_of (c ∷ s)))
  unfolding effective_query
  effective_query-string cfg column raw s c found e h valid k =
      ap (query_with 𝓕 (base_query cfg) (contains_text placeholder (base_query cfg))) e
      ∙ ap (λ b. query_with 𝓕 (base_query cfg) b (some (string_watermark column raw))) k
      ∙ query_with-string (base_query cfg) column raw s c found h valid

  -- Without a placeholder the query of a source with a watermark that is a string, whatever the text is, asks
  -- for the rows of the base query above one literal; read as the SQL standard reads it, its value is the
  -- trimmed text, and nothing of it is left behind the literal.
  pub effective_query-wrapped :
      (cfg : DatabaseSource) (column raw s : List ℕ) (c : ℕ)
      → cfg.watermark ≡ some (string_watermark column raw)
      → trim_space raw ≡ c ∷ s
      → validate_watermark (string_watermark column raw) ≡ none
      → contains_text placeholder (base_query cfg) ≡ false
      → (literal : List ℕ) × (effective_query 𝓕 cfg ≡ inr (wrapped (base_query cfg) column literal))
        × (read_literal literal ≡ some (trim_space raw, []))
  effective_query-wrapped cfg column raw s c e h valid absent = (
    literal_of (c ∷ s),
    effective_query-string cfg column raw s c false e h valid absent,
    ap read_literal (sym (append-nil (literal_of (c ∷ s))))
        ∙ read_literal-quoted (c ∷ s) [] refl
        ∙ ap (λ v. some (v, [])) (sym h),
  )

  -- Where the placeholder stands once in the base query, a literal stands in its place, whatever the text is;
  -- read as the SQL standard reads it up to what follows, unless a quote follows, its value is the trimmed
  -- text.
  pub effective_query-replaced :
      (cfg : DatabaseSource) (column raw s before after : List ℕ) (c : ℕ)
      → cfg.watermark ≡ some (string_watermark column raw)
      → trim_space raw ≡ c ∷ s
      → validate_watermark (string_watermark column raw) ≡ none
      → base_query cfg ≡ before ++ (placeholder ++ after)
      → contains_text placeholder (before ++ unfinished) ≡ false
      → contains_text placeholder after ≡ false
      → begins_quoted after ≡ false
      → (literal : List ℕ) × (effective_query 𝓕 cfg ≡ inr (before ++ (literal ++ after)))
        × (read_literal (literal ++ after) ≡ some (trim_space raw, after))
  effective_query-replaced cfg column raw s before after c e h valid base once absent unquoted =
      let literal = literal_of (c ∷ s) in
      (
        literal,
        effective_query-string cfg column raw s c true e h valid
              (ap (contains_text placeholder) base ∙ found before after)
            ∙ ap inr (
                ap (replace_from placeholder literal 0) base
                ∙ replace_from-first literal before after once
                ∙ ap (λ r. before ++ (literal ++ r))
                    (replace_from-absent placeholder literal after absent)),
        read_literal-quoted (c ∷ s) after unquoted ∙ ap (λ v. some (v, after)) (sym h),
      )
