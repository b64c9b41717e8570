-- ===== src/Validate/Outputs.antt =====
-- The outputs of `CastAndValidateFn.ProcessElement` of internal/beam/core/cast_and_validate.go, and
-- that the quality rules write to the audit output alone.
use omnibeam_go.Common.{
  ◌≡◌, refl, ap, ◌∙◌, Bool, true, false, not, ◌&&◌, List, [], ◌∷◌, ◌++◌, str_eq, if◌then◌else◌,
}
use omnibeam_go.Record.{FieldValue, GenericRecord, DeadLetterRecord}
use omnibeam_go.Validate.Plan.{Field}
use omnibeam_go.Validate.Process.{
  QualityRule, Services, Emission, valid, dead_letter, audit, warn, check_rule, check_rules,
  not_null,
}

-- What is emitted on each output.
unfoldable pub valid_records : List Emission → List GenericRecord
valid_records [] = []
valid_records (valid r ∷ es) = r ∷ valid_records es
valid_records (dead_letter d ∷ es) = valid_records es
valid_records (audit a ∷ es) = valid_records es

unfoldable pub dead_letters : List Emission → List DeadLetterRecord
dead_letters [] = []
dead_letters (valid r ∷ es) = dead_letters es
dead_letters (dead_letter d ∷ es) = d ∷ dead_letters es
dead_letters (audit a ∷ es) = dead_letters es

-- Emissions of which none is a record: the warnings of the rules.
abbrev pub OnlyAudits : List Emission → Type 0
OnlyAudits es = (valid_records es ≡ []) × (dead_letters es ≡ [])

pub valid_records-append :
    (es es' : List Emission) → valid_records (es ++ es') ≡ valid_records es ++ valid_records es'
unfolding valid_records
valid_records-append [] es' = refl
valid_records-append (valid r ∷ es) es' = ap (◌∷◌ r) (valid_records-append es es')
valid_records-append (dead_letter d ∷ es) es' = valid_records-append es es'
valid_records-append (audit a ∷ es) es' = valid_records-append es es'

pub dead_letters-append :
    (es es' : List Emission) → dead_letters (es ++ es') ≡ dead_letters es ++ dead_letters es'
unfolding dead_letters
dead_letters-append [] es' = refl
dead_letters-append (valid r ∷ es) es' = dead_letters-append es es'
dead_letters-append (dead_letter d ∷ es) es' = ap (◌∷◌ d) (dead_letters-append es es')
dead_letters-append (audit a ∷ es) es' = dead_letters-append es es'

append-OnlyAudits :
    (es es' : List Emission) → OnlyAudits es → OnlyAudits es' → OnlyAudits (es ++ es')
append-OnlyAudits es es' h k = (
  valid_records-append es es' ∙ rw (h.0, k.0) refl,
  dead_letters-append es es' ∙ rw (h.1, k.1) refl,
)

nil-OnlyAudits : OnlyAudits []
nil-OnlyAudits = (unfold valid_records in refl, unfold dead_letters in refl)

module _ (𝓢 : Services) where
  check_rule-OnlyAudits :
      (rule : QualityRule) (fields : List Field) (vs : List FieldValue)
      → OnlyAudits (check_rule 𝓢 rule fields vs)
  unfolding check_rule
  check_rule-OnlyAudits rule [] vs = nil-OnlyAudits
  check_rule-OnlyAudits rule (f ∷ fields) [] = nil-OnlyAudits
  check_rule-OnlyAudits rule (f ∷ fields) (v ∷ vs) =
      by_test (str_eq f.name rule.column && v.is_null) (check_rule 𝓢 rule fields vs)
        (check_rule-OnlyAudits rule fields vs)
    where
      by_test :
          (b : Bool) (es : List Emission)
          → OnlyAudits es
          → OnlyAudits (if b then warn 𝓢 rule.type_ f.name ∷ es else es)
      by_test true es h = unfold warn valid_records dead_letters in h
      by_test false es h = h

  pub check_rules-OnlyAudits :
      (rules : List QualityRule) (fields : List Field) (vs : List FieldValue)
      → OnlyAudits (check_rules 𝓢 rules fields vs)
  unfolding check_rules
  check_rules-OnlyAudits [] fields vs = nil-OnlyAudits
  check_rules-OnlyAudits (rule ∷ rules) fields vs =
      append-OnlyAudits _ (check_rules 𝓢 rules fields vs)
        (by_test (str_eq rule.type_ not_null && not (str_eq rule.column [])))
        (check_rules-OnlyAudits rules fields vs)
    where
      by_test : (b : Bool) → OnlyAudits (if b then check_rule 𝓢 rule fields vs else [])
      by_test true = check_rule-OnlyAudits rule fields vs
      by_test false = nil-OnlyAudits
