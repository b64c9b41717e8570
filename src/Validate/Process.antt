-- ===== src/Validate/Process.antt =====
-- `CastAndValidateFn` of internal/beam/core/cast_and_validate.go: what it emits for a record, in
-- order. Its counters and its latency are telemetry and left out.
use omnibeam_go.Common.{
  ℕ, Bool, true, not, ◌&&◌, none, some, List, [], ◌∷◌, ◌++◌, str_eq, if◌then◌else◌,
}
use omnibeam_go.Common.Text.{codes}
use omnibeam_go.Common.Instant.{Instant}
use omnibeam_go.Common.Keys.{value_or}
use omnibeam_go.Record.{FieldValue, GenericRecord, DeadLetterRecord}
use omnibeam_go.Validate.Plan.{Field, Conversions, FieldError, Cast, stored, failed, cast_field}

-- The strings "[REDACTED]", "_source_file", "_setup" and "not_null".
abbrev pub redacted : List ℕ
redacted = 91 ∷ 82 ∷ 69 ∷ 68 ∷ 65 ∷ 67 ∷ 84 ∷ 69 ∷ 68 ∷ 93 ∷ []

abbrev pub source_file_key : List ℕ
source_file_key = 95 ∷ 115 ∷ 111 ∷ 117 ∷ 114 ∷ 99 ∷ 101 ∷ 95 ∷ 102 ∷ 105 ∷ 108 ∷ 101 ∷ []

abbrev pub setup_column : List ℕ
setup_column = 95 ∷ 115 ∷ 101 ∷ 116 ∷ 117 ∷ 112 ∷ []

abbrev pub not_null : List ℕ
not_null = 110 ∷ 111 ∷ 116 ∷ 95 ∷ 110 ∷ 117 ∷ 108 ∷ 108 ∷ []

pub record QualityRule : Type 0 where
  pub type_ : List ℕ
  pub column : List ℕ

pub data Severity : Type 0 where
  info warning error : Severity

-- The event types that the code writes as literals.
pub data EventType : Type 0 where
  lifecycle_violation type_cast_failure quality_warning : EventType

pub record AuditRecord : Type 0 where
  pub timestamp : Instant
  pub event_type : EventType
  pub severity : Severity
  pub column_name : List ℕ
  pub rule_name : List ℕ
  pub message : List ℕ
  pub sample_value : List ℕ
  pub pipeline_id : List ℕ
  pub run_id : List ℕ

-- What the step takes from outside: the conversions, the clock, the formatting of messages and
-- values by fmt, and the sensitive keys and the sanitizer of pkg/telemetry with the configured fields.
pub record Services : Type 0 where
  pub conversions : Conversions
  pub now : Instant
  pub error_text : FieldError → List ℕ
  pub warning_text : List ℕ → List ℕ
  pub print_value : FieldValue → List ℕ
  pub is_sensitive : List ℕ → Bool
  pub sanitize : List (List ℕ) → List ℕ

pub data Emission : Type 0 where
  valid : GenericRecord → Emission
  dead_letter : DeadLetterRecord → Emission
  audit : AuditRecord → Emission

-- `compiled` says that `Setup` made the plans: one of each field of the schema, in order.
pub record CastFn : Type 0 where
  pub schema : List Field
  pub rules : List QualityRule
  pub compiled : Bool

unfoldable pub setup : CastFn → CastFn
setup fn = record fn { compiled = true }

-- The loop over the fields: the values that were stored, or the first failure. A record that has
-- fewer values than the schema has fields gives none for those that are missing.
pub data Row : Type 0 where
  all_cast : List FieldValue → Row
  first_failure : FieldError → List ℕ → Row

unfoldable pub after_cast : Cast → Row → Row
after_cast (stored v) (all_cast vs) = all_cast (v ∷ vs)
after_cast (stored v) (first_failure e sample) = first_failure e sample
after_cast (failed e sample) row = first_failure e sample

unfoldable pub cast_row : Conversions → List Field → List FieldValue → Row
cast_row 𝓒 [] raws = all_cast []
cast_row 𝓒 (f ∷ fields) [] = after_cast (cast_field 𝓒 f none) (cast_row 𝓒 fields [])
cast_row 𝓒 (f ∷ fields) (v ∷ raws) = after_cast (cast_field 𝓒 f (some v)) (cast_row 𝓒 fields raws)

-- A dash of three bytes stands in both messages.
abbrev pub dash : List ℕ
dash = 32 ∷ 226 ∷ 128 ∷ 148 ∷ 32 ∷ []

abbrev pub missing_setup : List ℕ
missing_setup =
    codes "CastAndValidateFn: plan not compiled"
    ++ (dash ++ codes "Setup() must be called before ProcessElement()")

abbrev pub called_without_setup : List ℕ
called_without_setup =
    codes "CastAndValidateFn.ProcessElement called without prior Setup"
    ++ (dash ++ codes "check beam.RegisterDoFn and beam.RegisterInit")

module _ (𝓢 : Services) where
  -- `NewAuditRecord`: the pipeline and the run stay empty.
  unfoldable pub new_audit_record :
      EventType → Severity → List ℕ → List ℕ → List ℕ → List ℕ → AuditRecord
  new_audit_record event severity column rule message sample = record {
    timestamp = 𝓢.now;
    event_type = event;
    severity = severity;
    column_name = column;
    rule_name = rule;
    message = message;
    sample_value = sample;
    pipeline_id = [];
    run_id = [];
  }

  -- The values as a dead letter shows them.
  unfoldable pub shown : List Field → List FieldValue → List (List ℕ)
  shown fields [] = []
  shown [] (v ∷ vs) = 𝓢.print_value v ∷ shown [] vs
  shown (f ∷ fields) (v ∷ vs) =
      (if 𝓢.is_sensitive f.name then redacted else 𝓢.print_value v) ∷ shown fields vs

  -- The closure `fail`
  unfoldable pub fail : List Field → GenericRecord → FieldError → List ℕ → List Emission
  fail fields rec e sample =
      dead_letter record {
        raw_payload = 𝓢.sanitize (shown fields rec.values);
        error_message = 𝓢.error_text e;
        failed_column = e.field;
        source_file = value_or [] source_file_key rec.audit_fields;
        failed_at = 𝓢.now;
      }
      ∷ audit (
          new_audit_record type_cast_failure error e.field (codes "type_cast") (𝓢.error_text e)
            (if 𝓢.is_sensitive e.field then redacted else sample))
      ∷ []

  unfoldable pub warn : List ℕ → List ℕ → Emission
  warn rule column =
      audit (new_audit_record quality_warning warning column rule (𝓢.warning_text column) [])

  -- One rule over the columns and the values that were stored.
  unfoldable pub check_rule : QualityRule → List Field → List FieldValue → List Emission
  check_rule rule [] vs = []
  check_rule rule (f ∷ fields) [] = []
  check_rule rule (f ∷ fields) (v ∷ vs) =
      let rest = check_rule rule fields vs in
      if str_eq f.name rule.column && v.is_null then warn rule.type_ f.name ∷ rest else rest

  unfoldable pub check_rules : List QualityRule → List Field → List FieldValue → List Emission
  check_rules [] fields vs = []
  check_rules (rule ∷ rules) fields vs =
      (if str_eq rule.type_ not_null && not (str_eq rule.column [])
        then check_rule rule fields vs
        else [])
      ++ check_rules rules fields vs

  -- A valid record keeps the schema's name and the audit fields of the raw one.
  unfoldable pub emit_row : CastFn → GenericRecord → Row → List Emission
  emit_row fn rec (all_cast vs) =
      check_rules fn.rules fn.schema vs ++ valid (record rec { values = vs }) ∷ []
  emit_row fn rec (first_failure e sample) = fail fn.schema rec e sample

  -- The message of the dead letter, and that of the audit record.
  unfoldable pub missing_plan : List ℕ → List ℕ → List Emission
  missing_plan reason called =
      dead_letter record {
        raw_payload = [];
        error_message = reason;
        failed_column = setup_column;
        source_file = [];
        failed_at = 𝓢.now;
      }
      ∷ audit (
          new_audit_record lifecycle_violation error setup_column (codes "beam_lifecycle") called
            [])
      ∷ []

  unfoldable pub process_element : CastFn → GenericRecord → List Emission
  process_element fn rec =
      if fn.compiled
      then emit_row fn rec (cast_row 𝓢.conversions fn.schema rec.values)
      else missing_plan missing_setup called_without_setup
