-- ===== src/Alert/Expression.antt =====
-- The evaluation of a threshold expression: `evaluateExpression` of
-- apps/sso/worker/alert-rules.ts, with the evidence that it collects. `BigInt` products are exact,
-- as products of natural numbers are.
use sso_pg72_tw.Common.{
  ℕ, ◌*◌, ◌/◌, ◌||◌, Bool, true, false, Option, none, some, List, [], ◌∷◌, ◌++◌, leb, ltb, ◌==◌,
  if◌then◌else◌, length, Result, ok, throw,
}
use sso_pg72_tw.Common.Results.{◌>>=◌}
use sso_pg72_tw.Alert.Types.{
  Metric, MetricBag, AlertMetricName, AlertMetricEvidence, EvidenceKind, EvidenceUnit, Threshold,
  Clauses, gte, ratio_gte, all_of, any_of, nil, clause,
}

-- `METRIC_NAMES`
abbrev pub metric_names : Metric → AlertMetricName
metric_names Metric.consecutive_nonzero_samples = AlertMetricName.consecutive_nonzero_samples
metric_names Metric.count = AlertMetricName.count
metric_names Metric.dead = AlertMetricName.dead
metric_names Metric.dead_outbox = AlertMetricName.dead_outbox
metric_names Metric.denominator = AlertMetricName.count
metric_names Metric.depth = AlertMetricName.depth
metric_names Metric.distinct_reporters = AlertMetricName.distinct_reporters
metric_names Metric.evaluator_age_seconds = AlertMetricName.evaluator_age_seconds
metric_names Metric.evaluator_missing = AlertMetricName.evaluator_missing
metric_names Metric.high_risk_count = AlertMetricName.high_risk_count
metric_names Metric.known_surfaces = AlertMetricName.known_surfaces
metric_names Metric.lease_expired = AlertMetricName.lease_expired
metric_names Metric.missing_older_than_15m_count = AlertMetricName.missing
metric_names Metric.missing_older_than_5m_count = AlertMetricName.missing
metric_names Metric.numerator = AlertMetricName.count
metric_names Metric.oldest_unresolved_age_seconds = AlertMetricName.oldest_unresolved_age_seconds
metric_names Metric.outbox_due_age_seconds = AlertMetricName.outbox_due_age_seconds
metric_names Metric.protected_denials = AlertMetricName.protected_denials
metric_names Metric.rate_limited = AlertMetricName.rate_limited
metric_names Metric.successes = AlertMetricName.successes

abbrev pub evidence_domain : Metric → EvidenceKind × EvidenceUnit
evidence_domain Metric.evaluator_age_seconds = (EvidenceKind.age_seconds, EvidenceUnit.seconds)
evidence_domain Metric.oldest_unresolved_age_seconds =
    (EvidenceKind.age_seconds, EvidenceUnit.seconds)
evidence_domain Metric.outbox_due_age_seconds = (EvidenceKind.age_seconds, EvidenceUnit.seconds)
evidence_domain Metric.consecutive_nonzero_samples =
    (EvidenceKind.consecutive, EvidenceUnit.samples)
evidence_domain Metric.evaluator_missing = (EvidenceKind.boolean, EvidenceUnit.state)
evidence_domain _ = (EvidenceKind.count, EvidenceUnit.events)

unfoldable pub scalar_evidence : Metric → ℕ → ℕ → AlertMetricEvidence
scalar_evidence metric observed threshold = record {
  kind = (evidence_domain metric).0;
  metric_name = metric_names metric;
  minimum_numerator_count = none;
  minimum_sample_count = 0;
  observed_denominator = none;
  observed_numerator = none;
  observed_value = observed;
  threshold = threshold;
  unit = (evidence_domain metric).1;
}

-- The literal that the ratio branch returns.
unfoldable pub ratio_evidence : (min_den min_num bps num den : ℕ) → AlertMetricEvidence
ratio_evidence min_den min_num bps num den = record {
  kind = EvidenceKind.ratio;
  metric_name = AlertMetricName.ratio;
  minimum_numerator_count = some min_num;
  minimum_sample_count = min_den;
  observed_denominator = some den;
  observed_numerator = some num;
  observed_value = num * 10000 / den;
  threshold = bps;
  unit = EvidenceUnit.basis_points;
}

-- `ExpressionEvaluation`
pub data Outcome : Type 0 where
  breached : List AlertMetricEvidence → Outcome
  clear unknown : Outcome

unfoldable pub evaluate_gte : Metric → ℕ → Option ℕ → Outcome
evaluate_gte metric value none = unknown
evaluate_gte metric value (some observed) =
    if ltb observed value then clear else breached (scalar_evidence metric observed value ∷ [])

-- The test that clears a ratio.
unfoldable pub ratio_is_clear : (min_den min_num bps num den : ℕ) → Bool
ratio_is_clear min_den min_num bps num den =
    ltb num min_num || (ltb den min_den || (den == 0 || ltb (num * 10000) (den * bps)))

unfoldable pub evaluate_ratio : (min_den min_num bps : ℕ) → Option ℕ → Option ℕ → Outcome
evaluate_ratio min_den min_num bps (some num) (some den) =
    if ratio_is_clear min_den min_num bps num den
    then clear
    else breached (ratio_evidence min_den min_num bps num den ∷ [])
evaluate_ratio min_den min_num bps none den = unknown
evaluate_ratio min_den min_num bps (some num) none = unknown

-- What follows the loop of `all`: the clauses are over and none is clear.
unfoldable pub finish_all : List AlertMetricEvidence → Bool → Result Outcome
finish_all components true = ok unknown
finish_all components false =
    if leb (length components) 2
    then ok (breached components)
    else throw "alert v1 evidence exceeds its two-component schema"

-- The loops of `all` and `any` carry the source's `components` and `unknown`.
unfoldable mutual
  pub evaluate_expression : Threshold → MetricBag → Result Outcome
  evaluate_expression (gte metric value) metrics = ok (evaluate_gte metric value (metrics metric))
  evaluate_expression (ratio_gte min_den min_num bps) metrics =
      ok
        (evaluate_ratio min_den min_num bps (metrics Metric.numerator) (metrics Metric.denominator))
  evaluate_expression (all_of clauses) metrics = evaluate_all clauses metrics [] false
  evaluate_expression (any_of clauses) metrics = evaluate_any clauses metrics false

  pub evaluate_all : Clauses → MetricBag → List AlertMetricEvidence → Bool → Result Outcome
  evaluate_all nil metrics components seen = finish_all components seen
  evaluate_all (clause c cs) metrics components seen = evaluate_expression c metrics >>= λ result.
      elim result [
        | clear ↦ ok clear
        | unknown ↦ evaluate_all cs metrics components true
        | breached found ↦ evaluate_all cs metrics (components ++ found) seen
      ]

  pub evaluate_any : Clauses → MetricBag → Bool → Result Outcome
  evaluate_any nil metrics seen = ok (if seen then unknown else clear)
  evaluate_any (clause c cs) metrics seen = evaluate_expression c metrics >>= λ result.
      elim result [
        | breached found ↦ ok (breached found)
        | unknown ↦ evaluate_any cs metrics true
        | clear ↦ evaluate_any cs metrics seen
      ]
