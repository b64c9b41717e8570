-- ===== src/Validate/Redaction.antt =====
-- What the audit records of internal/beam/core/cast_and_validate.go show of sensitive columns.
use omnibeam_go.Common.{
  ℕ, ◌≡◌, ◌⊎◌, inl, inr, refl, Bool, true, false, not, ◌&&◌, List, [], ◌∷◌, ◌++◌, All, str_eq,
  if◌then◌else◌,
}
use omnibeam_go.Record.{FieldValue, GenericRecord}
use omnibeam_go.Validate.Plan.{Field, FieldError}
use omnibeam_go.Validate.Process.{
  QualityRule, Services, Emission, valid, dead_letter, audit, CastFn, Row, all_cast, first_failure,
  cast_row, fail, warn, shown, new_audit_record, check_rule, check_rules, emit_row, missing_plan,
  missing_setup, called_without_setup, process_element, redacted, not_null,
}

module _ (𝓢 : Services) where
  -- The texts of the columns, of which a sensitive one's is redacted.
  abbrev pub Hides : List Field → List (List ℕ) → Type 0
  Hides fields [] = Unit
  Hides [] (s ∷ ss) = Unit
  Hides (f ∷ fields) (s ∷ ss) = ((𝓢.is_sensitive f.name ≡ false) ⊎ (s ≡ redacted)) × Hides fields ss

  -- An audit record shows a sample of a column that is not sensitive, or none; the payload of a dead letter
  -- is empty or made of the texts of the columns, the sensitive ones redacted.
  abbrev pub IsDiscreet : List Field → Emission → Type 0
  IsDiscreet fields (valid r) = Unit
  IsDiscreet fields (dead_letter d) =
      (d.raw_payload ≡ [])
      ⊎ ((texts : List (List ℕ)) × (d.raw_payload ≡ 𝓢.sanitize texts) × Hides fields texts)
  IsDiscreet fields (audit a) =
      (𝓢.is_sensitive a.column_name ≡ false) ⊎ ((a.sample_value ≡ redacted) ⊎ (a.sample_value ≡ []))

  shown-Hides : (fields : List Field) (vs : List FieldValue) → Hides fields (shown 𝓢 fields vs)
  unfolding shown
  shown-Hides fields [] = tt
  shown-Hides [] (v ∷ vs) = tt
  shown-Hides (f ∷ fields) (v ∷ vs) = (by_name (𝓢.is_sensitive f.name) refl, shown-Hides fields vs)
    where
      by_name :
          (b : Bool)
          → 𝓢.is_sensitive f.name ≡ b
          → (𝓢.is_sensitive f.name ≡ false) ⊎ ((if b then redacted else 𝓢.print_value v) ≡ redacted)
      by_name true h = inr refl
      by_name false h = inl h

  append-IsDiscreet :
      (schema : List Field) (es es' : List Emission)
      → All (IsDiscreet schema) es
      → All (IsDiscreet schema) es'
      → All (IsDiscreet schema) (es ++ es')
  append-IsDiscreet schema [] es' h k = k
  append-IsDiscreet schema (e ∷ es) es' h k = (h.0, append-IsDiscreet schema es es' h.1 k)

  check_rule-IsDiscreet :
      (schema : List Field) (rule : QualityRule) (fields : List Field) (vs : List FieldValue)
      → All (IsDiscreet schema) (check_rule 𝓢 rule fields vs)
  unfolding check_rule warn new_audit_record
  check_rule-IsDiscreet schema rule [] vs = tt
  check_rule-IsDiscreet schema rule (f ∷ fields) [] = tt
  check_rule-IsDiscreet schema rule (f ∷ fields) (v ∷ vs) =
      by_test (str_eq f.name rule.column && v.is_null) (check_rule 𝓢 rule fields vs)
        (check_rule-IsDiscreet schema rule fields vs)
    where
      by_test :
          (b : Bool) (es : List Emission)
          → All (IsDiscreet schema) es
          → All (IsDiscreet schema) (if b then warn 𝓢 rule.type_ f.name ∷ es else es)
      by_test true es h = (inr (inr refl), h)
      by_test false es h = h

  check_rules-IsDiscreet :
      (schema : List Field) (rules : List QualityRule) (fields : List Field) (vs : List FieldValue)
      → All (IsDiscreet schema) (check_rules 𝓢 rules fields vs)
  unfolding check_rules
  check_rules-IsDiscreet schema [] fields vs = tt
  check_rules-IsDiscreet schema (rule ∷ rules) fields vs =
      append-IsDiscreet schema _ (check_rules 𝓢 rules fields vs)
        (by_test (str_eq rule.type_ not_null && not (str_eq rule.column [])))
        (check_rules-IsDiscreet schema rules fields vs)
    where
      by_test : (b : Bool) → All (IsDiscreet schema) (if b then check_rule 𝓢 rule fields vs else [])
      by_test true = check_rule-IsDiscreet schema rule fields vs
      by_test false = tt

  fail-IsDiscreet :
      (fields : List Field) (rec : GenericRecord) (e : FieldError) (sample : List ℕ)
      → All (IsDiscreet fields) (fail 𝓢 fields rec e sample)
  unfolding fail new_audit_record
  fail-IsDiscreet fields rec e sample = (
    inr (shown 𝓢 fields rec.values, refl, shown-Hides fields rec.values),
    (by_column (𝓢.is_sensitive e.field) refl, tt),
  )
    where
      by_column :
          (b : Bool)
          → 𝓢.is_sensitive e.field ≡ b
          → (𝓢.is_sensitive e.field ≡ false)
            ⊎ (((if b then redacted else sample) ≡ redacted)
                ⊎ ((if b then redacted else sample) ≡ []))
      by_column true h = inr (inl refl)
      by_column false h = inl h

  emit_row-IsDiscreet :
      (fn : CastFn) (rec : GenericRecord) (row : Row)
      → All (IsDiscreet fn.schema) (emit_row 𝓢 fn rec row)
  unfolding emit_row
  emit_row-IsDiscreet fn rec (all_cast vs) =
      append-IsDiscreet fn.schema (check_rules 𝓢 fn.rules fn.schema vs) _
        (check_rules-IsDiscreet fn.schema fn.rules fn.schema vs) (tt, tt)
  emit_row-IsDiscreet fn rec (first_failure e sample) = fail-IsDiscreet fn.schema rec e sample

  -- Whatever is emitted for a record: the sample of an audit record is redacted or empty if its column is
  -- sensitive, and the payload of a dead letter is empty or given to the sanitizer with the text of every
  -- sensitive column redacted. Of the messages nothing is said.
  pub process_element-IsDiscreet :
      (fn : CastFn) (rec : GenericRecord) → All (IsDiscreet fn.schema) (process_element 𝓢 fn rec)
  unfolding process_element missing_plan new_audit_record
  process_element-IsDiscreet fn rec = by_setup fn.compiled
    where
      by_setup :
          (b : Bool)
          → All (IsDiscreet fn.schema) (
              if b
              then emit_row 𝓢 fn rec (cast_row 𝓢.conversions fn.schema rec.values)
              else missing_plan 𝓢 missing_setup called_without_setup)
      by_setup true = emit_row-IsDiscreet fn rec (cast_row 𝓢.conversions fn.schema rec.values)
      by_setup false = (inl refl, (inr (inr refl), tt))
