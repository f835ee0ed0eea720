-- ===== src/Alert/Evidence.antt =====
-- The parsers of selected evidence of apps/sso/worker/alert-rules.ts, from `metricDomain` to
-- `parseAlertSelectedEvidence`, on values that have the fields of evidence.
use Prim.Native.String.{◌++◌}
use sso_pg72_tw.Common.{
  ℕ, ◌*◌, ◌/◌, ◌||◌, ◌&&◌, String, Bool, true, false, not, Option, none, some, ltb, ◌==◌,
  if◌then◌else◌, Result, ok, throw,
}
use sso_pg72_tw.Common.Results.{◌>>=◌, unless}
use sso_pg72_tw.Alert.Types.{
  AlertSeverity, no_alert, AlertMetricName, EvidenceKind, EvidenceUnit, AlertMetricEvidence,
  AlertSelectedEvidence,
}
use sso_pg72_tw.Alert.Observation.{max_evidence_value}
use sso_pg72_tw.Alert.Metrics.{is_null, integer, max_ratio_field}

abbrev pub metric_domain : AlertMetricName → EvidenceKind × EvidenceUnit
metric_domain AlertMetricName.ratio = (EvidenceKind.ratio, EvidenceUnit.basis_points)
metric_domain AlertMetricName.evaluator_age_seconds =
    (EvidenceKind.age_seconds, EvidenceUnit.seconds)
metric_domain AlertMetricName.oldest_unresolved_age_seconds =
    (EvidenceKind.age_seconds, EvidenceUnit.seconds)
metric_domain AlertMetricName.outbox_due_age_seconds =
    (EvidenceKind.age_seconds, EvidenceUnit.seconds)
metric_domain AlertMetricName.consecutive_nonzero_samples =
    (EvidenceKind.consecutive, EvidenceUnit.samples)
metric_domain AlertMetricName.evaluator_missing = (EvidenceKind.boolean, EvidenceUnit.state)
metric_domain _ = (EvidenceKind.count, EvidenceUnit.events)

abbrev pub same_evidence_kind : EvidenceKind → EvidenceKind → Bool
same_evidence_kind EvidenceKind.age_seconds EvidenceKind.age_seconds = true
same_evidence_kind EvidenceKind.boolean EvidenceKind.boolean = true
same_evidence_kind EvidenceKind.consecutive EvidenceKind.consecutive = true
same_evidence_kind EvidenceKind.count EvidenceKind.count = true
same_evidence_kind EvidenceKind.ratio EvidenceKind.ratio = true
same_evidence_kind _ _ = false

abbrev pub same_unit : EvidenceUnit → EvidenceUnit → Bool
same_unit EvidenceUnit.basis_points EvidenceUnit.basis_points = true
same_unit EvidenceUnit.events EvidenceUnit.events = true
same_unit EvidenceUnit.samples EvidenceUnit.samples = true
same_unit EvidenceUnit.seconds EvidenceUnit.seconds = true
same_unit EvidenceUnit.state EvidenceUnit.state = true
same_unit _ _ = false

-- `metricName === "ratio"` and its like
abbrev pub is_ratio : AlertMetricName → Bool
is_ratio AlertMetricName.ratio = true
is_ratio _ = false

abbrev pub is_evaluator_missing : AlertMetricName → Bool
is_evaluator_missing AlertMetricName.evaluator_missing = true
is_evaluator_missing _ = false

-- `integer(value, …)` where the value may be null
unfoldable pub required_integer : Option ℕ → String → ℕ → Result ℕ
unfolding integer
required_integer none name maximum = throw (name ++ " must be an integer in the persistence domain")
required_integer (some value) name maximum = integer value name maximum

-- The disjunction that the ratio branch tests.
abbrev pub is_ratio_inconsistent :
    (numerator denominator samples minimum observed threshold : ℕ) → Bool
is_ratio_inconsistent numerator denominator samples minimum observed threshold =
    ltb denominator 1
    || ltb minimum 1
    || ltb denominator numerator
    || ltb denominator samples
    || ltb numerator minimum
    || not (observed == numerator * 10000 / denominator)
    || ltb 10000 threshold

unfoldable pub parse_ratio_evidence : AlertMetricEvidence → String → Result AlertMetricEvidence
unfolding required_integer integer
parse_ratio_evidence e name =
    required_integer e.observed_numerator (name ++ " observed numerator") max_ratio_field
    >>= λ numerator.
        required_integer e.observed_denominator (name ++ " observed denominator") max_ratio_field
        >>= λ denominator.
            integer e.minimum_sample_count (name ++ " minimum sample count") max_ratio_field
            >>= λ samples.
                required_integer e.minimum_numerator_count (name ++ " minimum numerator count")
                  max_ratio_field
                >>= λ minimum.
                    unless
                      (is_ratio_inconsistent numerator denominator samples minimum e.observed_value
                        e.threshold)
                      (name ++ " ratio evidence is inconsistent")
                      (ok (record e {
                        minimum_numerator_count = some minimum;
                        minimum_sample_count = samples;
                        observed_denominator = some denominator;
                        observed_numerator = some numerator;
                      }))

unfoldable pub parse_scalar_evidence : AlertMetricEvidence → String → Result AlertMetricEvidence
parse_scalar_evidence e name =
    unless
      (not (is_null e.observed_numerator)
        || not (is_null e.observed_denominator)
        || not (is_null e.minimum_numerator_count)
        || not (e.minimum_sample_count == 0))
      (name ++ " non-ratio evidence has ratio fields")
      (unless (is_evaluator_missing e.metric_name && ltb 1 e.observed_value)
        (name ++ " boolean evidence is inconsistent")
        (ok (record e {
          minimum_numerator_count = none;
          minimum_sample_count = 0;
          observed_denominator = none;
          observed_numerator = none;
        })))

unfoldable pub parse_metric_evidence : AlertMetricEvidence → String → Result AlertMetricEvidence
unfolding integer parse_ratio_evidence parse_scalar_evidence
parse_metric_evidence e name =
    let domain = metric_domain e.metric_name in
    unless (not (same_evidence_kind e.kind domain.0) || not (same_unit e.unit domain.1))
      (name ++ " metric domain is inconsistent")
      (integer e.observed_value (name ++ " observed value") max_evidence_value >>= λ observed.
        integer e.threshold (name ++ " threshold") max_evidence_value >>= λ threshold.
        unless (ltb threshold 1) (name ++ " threshold must be positive") (
          if is_ratio e.metric_name
          then parse_ratio_evidence e name
          else parse_scalar_evidence e name))

-- `severity !== "warning" && severity !== "critical"`
abbrev pub is_no_alert : AlertSeverity → Bool
is_no_alert no_alert = true
is_no_alert _ = false

abbrev pub is_secondary_only : AlertMetricName → Bool
is_secondary_only AlertMetricName.known_surfaces = true
is_secondary_only AlertMetricName.distinct_reporters = true
is_secondary_only _ = false

-- `"count|known_surfaces"` and `"high_risk_count|distinct_reporters"`
abbrev pub is_component_pair : AlertMetricName → AlertMetricName → Bool
is_component_pair AlertMetricName.count AlertMetricName.known_surfaces = true
is_component_pair AlertMetricName.high_risk_count AlertMetricName.distinct_reporters = true
is_component_pair _ _ = false

unfoldable pub parse_secondary : Option AlertMetricEvidence → Result (Option AlertMetricEvidence)
unfolding parse_metric_evidence
parse_secondary none = ok none
parse_secondary (some e) = parse_metric_evidence e "secondary alert evidence" >>= λ s. ok (some s)

unfoldable pub check_secondary :
    {A : Type 0} → AlertMetricEvidence → Option AlertMetricEvidence → Result A → Result A
check_secondary primary none rest = rest
check_secondary primary (some s) rest =
    unless (not (is_component_pair primary.metric_name s.metric_name))
      "selected alert evidence component pair is not supported"
      (unless (ltb s.observed_value s.threshold)
        "secondary alert evidence does not prove a canonical breach" rest)

unfoldable pub parse_alert_selected_evidence : AlertSelectedEvidence → Result AlertSelectedEvidence
unfolding parse_metric_evidence parse_secondary check_secondary
parse_alert_selected_evidence e =
    parse_metric_evidence e.primary "primary alert evidence" >>= λ primary.
    unless (is_no_alert e.severity) "selected alert evidence severity is not supported" (
      unless
        (not (e.window_seconds == 300)
          && not (e.window_seconds == 900)
          && not (e.window_seconds == 3600))
        "selected alert evidence window is not supported"
        (parse_secondary e.secondary >>= λ secondary.
          unless
            (is_secondary_only primary.metric_name || ltb primary.observed_value primary.threshold)
            "primary alert evidence does not prove a canonical breach"
            (check_secondary primary secondary
              (ok (record e { primary = primary; secondary = secondary })))))
