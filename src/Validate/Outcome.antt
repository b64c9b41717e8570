-- ===== src/Validate/Outcome.antt =====
-- What `CastAndValidateFn.ProcessElement` of internal/beam/core/cast_and_validate.go emits: one
-- record or one dead letter, and what each is worth.
use omnibeam_go.Common.{
  ℕ, ◌+◌, ◌≡◌, ◌⊎◌, inl, inr, refl, ◌∙◌, Bool, true, false, not, ◌||◌, none, some, List, [], ◌∷◌,
  length, All, arith, if◌then◌else◌,
}
use omnibeam_go.Common.Keys.{value_or}
use omnibeam_go.Record.{FieldValue, GenericRecord}
use omnibeam_go.Validate.Plan.{Field, Conversions, Cast, stored, failed, cast_field}
use omnibeam_go.Validate.Fits.{stored_type, Fits, plan_of-Fits}
use omnibeam_go.Validate.Process.{
  Services, Emission, valid, CastFn, setup, Row, all_cast, first_failure, after_cast, cast_row,
  fail, check_rules, emit_row, missing_plan, missing_setup, called_without_setup, process_element,
  source_file_key,
}
use omnibeam_go.Validate.Outputs.{
  valid_records, dead_letters, valid_records-append, dead_letters-append, check_rules-OnlyAudits,
}

-- Values that the schema admits: one of each field, of its type, null only where it is nullable.
abbrev pub Conforms : List Field → List FieldValue → Type 0
Conforms [] [] = Unit
Conforms [] (v ∷ vs) = ⊥
Conforms (f ∷ fields) [] = ⊥
Conforms (f ∷ fields) (v ∷ vs) =
    (v.dtype ≡ stored_type f.type_) × (not v.is_null || f.nullable ≡ true) × Conforms fields vs

-- The name of a field of the schema.
abbrev pub IsColumn : List Field → List ℕ → Type 0
IsColumn [] column = ⊥
IsColumn (f ∷ fields) column = (column ≡ f.name) ⊎ IsColumn fields column

-- What the loop over the fields comes to.
unfoldable pub RowFits : List Field → Row → Type 0
RowFits fields (all_cast vs) = Conforms fields vs
RowFits fields (first_failure e sample) = IsColumn fields e.field

after_cast-RowFits :
    (f : Field) (fields : List Field) (c : Cast) (row : Row)
    → Fits (stored_type f.type_) f c
    → RowFits fields row
    → RowFits (f ∷ fields) (after_cast c row)
unfolding after_cast RowFits Fits
after_cast-RowFits f fields (stored v) (all_cast vs) h k = (h.0, ground (arith, h.1), k)
after_cast-RowFits f fields (stored v) (first_failure e sample) h k = inr k
after_cast-RowFits f fields (failed e sample) row h k = inl h

cast_row-RowFits :
    (𝓒 : Conversions) (fields : List Field) (raws : List FieldValue)
    → RowFits fields (cast_row 𝓒 fields raws)
unfolding cast_row
cast_row-RowFits 𝓒 [] raws = unfold RowFits in tt
cast_row-RowFits 𝓒 (f ∷ fields) [] =
    after_cast-RowFits f fields (cast_field 𝓒 f none) (cast_row 𝓒 fields [])
      (plan_of-Fits 𝓒 f none f.type_) (cast_row-RowFits 𝓒 fields [])
cast_row-RowFits 𝓒 (f ∷ fields) (v ∷ raws) =
    after_cast-RowFits f fields (cast_field 𝓒 f (some v)) (cast_row 𝓒 fields raws)
      (plan_of-Fits 𝓒 f (some v) f.type_) (cast_row-RowFits 𝓒 fields raws)

module _ (𝓢 : Services) where
  -- What is emitted for the two outcomes of the loop.
  emit_row-valid_records :
      (fn : CastFn) (rec : GenericRecord) (vs : List FieldValue)
      → (valid_records (emit_row 𝓢 fn rec (all_cast vs)) ≡ record rec { values = vs } ∷ [])
        × (dead_letters (emit_row 𝓢 fn rec (all_cast vs)) ≡ [])
  unfolding emit_row
  emit_row-valid_records fn rec vs =
      let warnings = check_rules 𝓢 fn.rules fn.schema vs in
      let only = check_rules-OnlyAudits 𝓢 fn.rules fn.schema vs in
      (
        valid_records-append warnings (valid (record rec { values = vs }) ∷ [])
            ∙ rw only.0 (unfold valid_records in refl),
        dead_letters-append warnings (valid (record rec { values = vs }) ∷ [])
            ∙ rw only.1 (unfold dead_letters in refl),
      )

  emit_row-once :
      (fn : CastFn) (rec : GenericRecord) (row : Row)
      → length (valid_records (emit_row 𝓢 fn rec row))
          + length (dead_letters (emit_row 𝓢 fn rec row))
        ≡ 1
  emit_row-once fn rec (all_cast vs) =
      rw ((emit_row-valid_records fn rec vs).0, (emit_row-valid_records fn rec vs).1) refl
  emit_row-once fn rec (first_failure e sample) =
      unfold emit_row fail valid_records dead_letters in refl

  if-once :
      (b : Bool) (es es' : List Emission)
      → length (valid_records es) + length (dead_letters es) ≡ 1
      → length (valid_records es') + length (dead_letters es') ≡ 1
      → length (valid_records (if b then es else es'))
          + length (dead_letters (if b then es else es'))
        ≡ 1
  if-once true es es' h k = h
  if-once false es es' h k = k

  -- Every record is emitted once: as a valid record or as a dead letter, whatever its values, the
  -- schema, the rules and the conversions are, and whether `Setup` was called or not.
  pub process_element_once :
      (fn : CastFn) (rec : GenericRecord)
      → length (valid_records (process_element 𝓢 fn rec))
          + length (dead_letters (process_element 𝓢 fn rec))
        ≡ 1
  unfolding process_element
  process_element_once fn rec =
      if-once fn.compiled (emit_row 𝓢 fn rec (cast_row 𝓢.conversions fn.schema rec.values))
        (missing_plan 𝓢 missing_setup called_without_setup)
        (emit_row-once fn rec (cast_row 𝓢.conversions fn.schema rec.values))
        (unfold missing_plan valid_records dead_letters in refl)

  -- A valid record keeps the schema's name and the audit fields of the raw one, and has one value of
  -- each field, of the field's type, which is null only where the field is nullable.
  pub process_element-Conforms :
      (fn : CastFn) (rec : GenericRecord)
      → All
          (λ r.
            (r.schema_id ≡ rec.schema_id)
            × (r.audit_fields ≡ rec.audit_fields)
            × Conforms fn.schema r.values)
          (valid_records (process_element 𝓢 fn rec))
  unfolding process_element
  process_element-Conforms fn rec = by_setup fn.compiled
    where
      by_row :
          (row : Row)
          → RowFits fn.schema row
          → All
              (λ r.
                (r.schema_id ≡ rec.schema_id)
                × (r.audit_fields ≡ rec.audit_fields)
                × Conforms fn.schema r.values)
              (valid_records (emit_row 𝓢 fn rec row))
      by_row (all_cast vs) h =
          rw (emit_row-valid_records fn rec vs).0 (((refl, refl, unfold RowFits in h), tt))
      by_row (first_failure e sample) h = unfold emit_row fail valid_records in tt

      by_setup :
          (b : Bool)
          → All
              (λ r.
                (r.schema_id ≡ rec.schema_id)
                × (r.audit_fields ≡ rec.audit_fields)
                × Conforms fn.schema r.values)
              (valid_records (
                if b
                then emit_row 𝓢 fn rec (cast_row 𝓢.conversions fn.schema rec.values)
                else missing_plan 𝓢 missing_setup called_without_setup))
      by_setup true =
          by_row (cast_row 𝓢.conversions fn.schema rec.values)
            (cast_row-RowFits 𝓢.conversions fn.schema rec.values)
      by_setup false = unfold missing_plan valid_records in tt

  -- Once set up, a dead letter names a column of the schema, and carries the source file of the record.
  pub process_element-IsColumn :
      (fn : CastFn) (rec : GenericRecord)
      → All
          (λ d.
            IsColumn fn.schema d.failed_column
            × (d.source_file ≡ value_or [] source_file_key rec.audit_fields))
          (dead_letters (process_element 𝓢 (setup fn) rec))
  unfolding process_element setup
  process_element-IsColumn fn rec =
      by_row (cast_row 𝓢.conversions fn.schema rec.values)
        (cast_row-RowFits 𝓢.conversions fn.schema rec.values)
    where
      by_row :
          (row : Row)
          → RowFits fn.schema row
          → All
              (λ d.
                IsColumn fn.schema d.failed_column
                × (d.source_file ≡ value_or [] source_file_key rec.audit_fields))
              (dead_letters (emit_row 𝓢 (setup fn) rec row))
      by_row (all_cast vs) h = rw (emit_row-valid_records (setup fn) rec vs).1 tt
      by_row (first_failure e sample) h =
          unfold emit_row fail dead_letters RowFits in ((h, refl), tt)
