-- ===== src/Validate/AuditFields.antt =====
-- The audit fields of the records that internal/beam/core/fused_enrich_and_validate.go emits.
use omnibeam_go.Common.{
  ℕ, ◌≡◌, refl, ap, ◌∙◌, Bool, true, false, Option, none, some, List, [], ◌∷◌, All, str_eq,
  if◌then◌else◌, arith, str_eq_iff,
}
use omnibeam_go.Common.Dict.{Dict, lookup, lookup-insert}
use omnibeam_go.Record.{GenericRecord}
use omnibeam_go.Validate.Process.{Services, process_element, missing_plan}
use omnibeam_go.Validate.Outputs.{valid_records}
use omnibeam_go.Validate.Outcome.{Conforms, process_element-Conforms}
use omnibeam_go.Validate.Enrich.{
  fused_missing_setup, fused_called_without_setup, FusedFn, insert_missing, insert_nonempty, enrich,
  process_fused, ingested_at_key, job_id_key, execution_id_key,
}

-- An id, or what stands there without one.
abbrev pub id_or : List ℕ → Option (List ℕ) → Option (List ℕ)
id_or [] o = o
id_or (c ∷ v) o = some (c ∷ v)

-- A value that is there, or the one given.
abbrev pub or_given : Option (List ℕ) → List ℕ → Option (List ℕ)
or_given none v = some v
or_given (some w) v = some w

-- What is looked up in the audit fields after the run's own fields were added: the run's ids stand for
-- any that the record brought, the time of ingestion gives way to one that it brought.
unfoldable pub expected_field : List ℕ → FusedFn → Dict (List ℕ) → List ℕ → Option (List ℕ)
expected_field ingested_at fn m k =
    let brought = lookup k m in
    let timed = if str_eq ingested_at_key k then or_given brought ingested_at else brought in
    let with_job = if str_eq job_id_key k then id_or fn.job_id timed else timed in
    if str_eq execution_id_key k then id_or fn.execution_id with_job else with_job

lookup-insert_nonempty :
    (k j v : List ℕ) (m : Dict (List ℕ))
    → lookup j (insert_nonempty k v m) ≡ (if str_eq k j then id_or v (lookup j m) else lookup j m)
unfolding insert_nonempty
lookup-insert_nonempty k j [] m = ground arith
lookup-insert_nonempty k j (c ∷ v) m = lookup-insert k j (c ∷ v) m

lookup-insert_missing :
    (k j v : List ℕ) (m : Dict (List ℕ))
    → lookup j (insert_missing k v m) ≡ (if str_eq k j then or_given (lookup j m) v else lookup j m)
unfolding insert_missing
lookup-insert_missing k j v m = ground (arith, lookup-insert k j v m, str_eq_iff k j)

lookup-enrich :
    (ingested_at : List ℕ) (fn : FusedFn) (rec : GenericRecord) (k : List ℕ)
    → lookup k (enrich ingested_at fn rec).audit_fields
      ≡ expected_field ingested_at fn rec.audit_fields k
unfolding enrich expected_field
lookup-enrich ingested_at fn rec k =
    let m = insert_missing ingested_at_key ingested_at rec.audit_fields in
    rw
      (
        lookup-insert_nonempty execution_id_key k fn.execution_id
            (insert_nonempty job_id_key fn.job_id m),
        lookup-insert_nonempty job_id_key k fn.job_id m,
        lookup-insert_missing ingested_at_key k ingested_at rec.audit_fields,
      )
      refl

map_All {ℓ} :
    {A : Type ℓ} (P Q : A → Type 0) (xs : List A) → ((x : A) → P x → Q x) → All P xs → All Q xs
map_All P Q [] f h = tt
map_All P Q (x ∷ xs) f h = (f x h.0, map_All P Q xs f h.1)

-- A record that is valid after the fused step conforms to the schema, and under every key has the
-- audit field that the run and the raw record call for.
pub process_fused-Conforms :
    (𝓢 : Services) (ingested_at : List ℕ) (fn : FusedFn) (rec : GenericRecord)
    → All
        (λ r.
          Conforms fn.cast.schema r.values
          × ((k : List ℕ)
              → lookup k r.audit_fields ≡ expected_field ingested_at fn rec.audit_fields k))
        (valid_records (process_fused 𝓢 ingested_at fn (some rec)))
unfolding process_fused
process_fused-Conforms 𝓢 ingested_at fn rec = by_setup fn.cast.compiled
  where
    by_setup :
        (b : Bool)
        → All
            (λ r.
              Conforms fn.cast.schema r.values
              × ((k : List ℕ)
                  → lookup k r.audit_fields ≡ expected_field ingested_at fn rec.audit_fields k))
            (valid_records (
              if b
              then process_element 𝓢 fn.cast (enrich ingested_at fn rec)
              else missing_plan 𝓢 fused_missing_setup fused_called_without_setup))
    by_setup true =
        map_All _ _ (valid_records (process_element 𝓢 fn.cast (enrich ingested_at fn rec)))
          (λ r h. (h.2, λ k. ap (lookup k) h.1 ∙ lookup-enrich ingested_at fn rec k))
          (process_element-Conforms 𝓢 fn.cast (enrich ingested_at fn rec))
    by_setup false = unfold missing_plan valid_records in tt
