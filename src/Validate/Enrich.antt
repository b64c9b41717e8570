-- ===== src/Validate/Enrich.antt =====
-- `FusedEnrichAndValidateFn` of internal/beam/core/fused_enrich_and_validate.go: the audit fields of the
-- run are added to a copy of the record, which is then cast and validated.
use omnibeam_go.Common.{◌++◌, ℕ, Option, none, some, List, [], ◌∷◌, if◌then◌else◌}
use omnibeam_go.Common.Dict.{Dict, lookup, insert}
use omnibeam_go.Record.{GenericRecord}
use omnibeam_go.Validate.Process.{Services, Emission, CastFn, process_element, missing_plan, dash}
use omnibeam_go.Common.Text.{codes}

-- "_ingested_at", "_job_id" and "_execution_id".
abbrev pub ingested_at_key : List ℕ
ingested_at_key = 95 ∷ 105 ∷ 110 ∷ 103 ∷ 101 ∷ 115 ∷ 116 ∷ 101 ∷ 100 ∷ 95 ∷ 97 ∷ 116 ∷ []

abbrev pub job_id_key : List ℕ
job_id_key = 95 ∷ 106 ∷ 111 ∷ 98 ∷ 95 ∷ 105 ∷ 100 ∷ []

abbrev pub execution_id_key : List ℕ
execution_id_key = 95 ∷ 101 ∷ 120 ∷ 101 ∷ 99 ∷ 117 ∷ 116 ∷ 105 ∷ 111 ∷ 110 ∷ 95 ∷ 105 ∷ 100 ∷ []

-- The step is `CastAndValidateFn` with the ids of the run; its messages are its own.
pub record FusedFn : Type 0 where
  pub cast : CastFn
  pub job_id : List ℕ
  pub execution_id : List ℕ

-- A key that the map has is kept.
unfoldable pub insert_missing : List ℕ → List ℕ → Dict (List ℕ) → Dict (List ℕ)
insert_missing k v m = elim (lookup k m) [ none ↦ insert k v m | some w ↦ m ]

-- An empty id is not written.
unfoldable pub insert_nonempty : List ℕ → List ℕ → Dict (List ℕ) → Dict (List ℕ)
insert_nonempty k [] m = m
insert_nonempty k (c ∷ v) m = insert k (c ∷ v) m

-- `ingested_at` is the clock's time as text.
unfoldable pub enrich : List ℕ → FusedFn → GenericRecord → GenericRecord
enrich ingested_at fn rec = record rec {
  audit_fields = insert_nonempty execution_id_key fn.execution_id (
      insert_nonempty job_id_key fn.job_id
        (insert_missing ingested_at_key ingested_at rec.audit_fields));
}

abbrev pub fused_missing_setup : List ℕ
fused_missing_setup =
    codes "FusedEnrichAndValidateFn: plan not compiled"
    ++ (dash ++ codes "Setup() must be called before ProcessElement()")

abbrev pub fused_called_without_setup : List ℕ
fused_called_without_setup =
    codes "FusedEnrichAndValidateFn.ProcessElement called without prior Setup"

-- A nil record is dropped; without plans the record is not enriched.
unfoldable pub process_fused : Services → List ℕ → FusedFn → Option GenericRecord → List Emission
process_fused 𝓢 ingested_at fn none = []
process_fused 𝓢 ingested_at fn (some rec) =
    if fn.cast.compiled
    then process_element 𝓢 fn.cast (enrich ingested_at fn rec)
    else missing_plan 𝓢 fused_missing_setup fused_called_without_setup
