-- ===== src/Alert/Examples.antt =====
-- Runs of the alert rules of apps/sso/worker/alert-rules.ts on small observations.
use sso_pg72_tw.Common.{
  ◌↔◌, true, ℕ, ◌≡◌, refl, false, none, some, [], ◌∷◌, ok, arith, ◌≤◌, ◌+◌, ◌⊎◌,
}
use sso_pg72_tw.Alert.Types.{
  AlertRuleId, critical, AlertEvidenceStatus, AlertWindowKey, Metric, MetricBag, Threshold, gte,
  AlertMetricName, EvidenceKind, EvidenceUnit, AlertSelectedEvidence, ratio_gte, all_of, nil,
  clause, at_window,
}
use sso_pg72_tw.Alert.Definitions.{definition_for_alert_rule}
use sso_pg72_tw.Alert.Expression.{scalar_evidence, evaluate_expression, evaluate_any, evaluate_gte}
use sso_pg72_tw.Alert.Observation.{
  AlertDimension, AlertQueueName, AlertRuleObservation, QueueDepthSnapshot, known_queue,
  sampled_queue, nonempty_queue, KnownQueueSnapshot, runtime_snapshot, known_queue_snapshot,
}
use sso_pg72_tw.Alert.Bags.{or_zero, metrics_for_observation}
use sso_pg72_tw.Alert.Evaluate.{
  AlertRuleEvaluation, evaluate_metrics, evaluate_window_thresholds, evaluate_windows,
  evaluate_body, choose_evaluation, evaluate_observation, record_outcome, critical_evaluation,
  find_immediate, selected_evidence,
}
use sso_pg72_tw.Alert.Kleene.{Holds, Agrees, IsCompletion, evaluate_expression-Agrees}
use sso_pg72_tw.Alert.Totality.{Fits, width, evaluate_expression-Fits}
use sso_pg72_tw.Alert.Verdicts.{IsJustified}
use sso_pg72_tw.Alert.Decided.{IsDecided}
use sso_pg72_tw.Alert.Sampled.{evaluate_observation-IsDecided}
use sso_pg72_tw.Alert.Rules.{observed_metrics, evaluate_observation-IsJustified}
use sso_pg72_tw.Alert.Queue.{
  IsFresh, queue_observation, known_queue_snapshot-IsFresh, evaluate_observation-queue_critical,
}
use sso_pg72_tw.Alert.Parsing.{
  evaluate_alert_rule, parse_alert_observation, parse_alert_dimension, parse_body,
  parse_runtime_snapshot, parse_queue_snapshot, parse_streak,
}
use sso_pg72_tw.Alert.Metrics.{nullable_integer, integer}
use sso_pg72_tw.Alert.Contracts.{parse_alert_selected_evidence_for_rule}
use sso_pg72_tw.Alert.Admitted.{IsAllowed, IsAccepted, parse_alert_observation-ok_iff}
use sso_pg72_tw.Alert.Roundtrip.{evaluate_alert_rule-reparse}

-- The unknown metrics of a bag are zero.
abbrev zeroed : MetricBag → Metric → ℕ
zeroed bag m = or_zero (bag m)

zeroed-IsCompletion : (bag : MetricBag) → IsCompletion bag (zeroed bag)
zeroed-IsCompletion bag m n e = rw e

-- Ten denials of forty, with an unknown count of reporters.
abbrev sample_bag : MetricBag
sample_bag Metric.numerator = some 10
sample_bag Metric.denominator = some 40
sample_bag _ = none

abbrev sample_threshold : Threshold
sample_threshold =
    all_of (clause (ratio_gte 20 5 2000) (clause (gte Metric.distinct_reporters 3) nil))

evaluate_expression-Agrees_example :
    Agrees
      (Holds (zeroed sample_bag) sample_threshold)
      (evaluate_expression sample_threshold sample_bag)
evaluate_expression-Agrees_example =
    evaluate_expression-Agrees sample_bag (zeroed sample_bag) sample_threshold
      (zeroed-IsCompletion sample_bag)

evaluate_expression-Fits_example :
    Fits 1 (width sample_threshold) (evaluate_expression sample_threshold sample_bag)
evaluate_expression-Fits_example =
    evaluate_expression-Fits sample_bag sample_threshold (tt, omega arith, (tt, (tt, tt)))

-- An evaluator that has never run, and two dead outbox rows.
abbrev stopped : AlertRuleObservation
stopped = record {
  as_of = 1800000000000;
  dimension = AlertDimension.global;
  body =
      runtime_snapshot (record {
        dead_outbox = 2;
        evaluator_age_seconds = none;
        outbox_due_age_seconds = some 30;
      });
}

abbrev stopped_values : AlertWindowKey → Metric → ℕ
stopped_values w = zeroed (at_window (observed_metrics stopped) w)

evaluate_observation-IsJustified_example :
    (r : AlertRuleEvaluation) × (evaluate_observation stopped ≡ ok r)
    × IsJustified (definition_for_alert_rule AlertRuleId.alert_runtime_health) stopped_values r
evaluate_observation-IsJustified_example =
    evaluate_observation-IsJustified stopped stopped_values
      (λ w. zeroed-IsCompletion (at_window (observed_metrics stopped) w))

evaluate_observation-IsDecided_example :
    (r : AlertRuleEvaluation) × (evaluate_observation stopped ≡ ok r)
    × IsDecided (definition_for_alert_rule AlertRuleId.alert_runtime_health) stopped_values r
evaluate_observation-IsDecided_example =
    evaluate_observation-IsDecided stopped stopped_values tt
      (λ w. zeroed-IsCompletion (at_window (observed_metrics stopped) w))

-- Twelve messages, sampled three times over two minutes.
abbrev deep_queue : QueueDepthSnapshot
deep_queue = record {
  backlog_bytes = some 4096;
  backlog_count = some 12;
  consecutive_nonzero_samples = some 3;
  nonzero_since_at = some 1000000;
  oldest_message_timestamp = some 1000000;
  sampled_at = some 1125000;
}

abbrev deep_known : KnownQueueSnapshot
deep_known = record {
  backlog_bytes = 4096;
  consecutive_nonzero_samples = 2;
  depth = 12;
  oldest_message_age_seconds = 125;
}

deep_queue_known : known_queue_snapshot deep_queue 1125000 ≡ some deep_known
unfolding known_queue_snapshot
deep_queue_known = refl

known_queue_snapshot-IsFresh_example : IsFresh deep_queue 1125000 deep_known
known_queue_snapshot-IsFresh_example =
    known_queue_snapshot-IsFresh deep_queue 1125000 deep_known deep_queue_known

abbrev deep_dimension : AlertDimension
deep_dimension = AlertDimension.queue AlertQueueName.alert_deliveries_dlq

abbrev deep_evaluation : AlertRuleEvaluation
deep_evaluation = record {
  as_of = 1125000;
  breached_windows = AlertWindowKey.w15m ∷ [];
  dimension = deep_dimension;
  evidence = AlertEvidenceStatus.known;
  immediate_critical = false;
  rule = AlertRuleId.queue_dlq_approximate;
  selected = some (record {
    primary = scalar_evidence Metric.depth 12 10;
    secondary = none;
    severity = critical;
    window_seconds = 900;
  });
  severity = critical;
}

deep_queue_alerts :
    evaluate_observation (queue_observation deep_dimension deep_queue 1125000) ≡ ok deep_evaluation
unfolding evaluate_observation evaluate_body known_queue_snapshot known_queue sampled_queue
    nonempty_queue metrics_for_observation evaluate_metrics evaluate_window_thresholds
    evaluate_windows evaluate_expression evaluate_any evaluate_gte record_outcome choose_evaluation
    critical_evaluation find_immediate selected_evidence scalar_evidence
deep_queue_alerts = refl

evaluate_observation-queue_critical_example :
    (deep_queue.sampled_at ≡ some 1125000)
    × (((n : ℕ) × (deep_queue.backlog_count ≡ some n) × (10 ≤ n))
        ⊎ ((since : ℕ) × (deep_queue.nonzero_since_at ≡ some since) × (since + 900000 ≤ 1125000)))
evaluate_observation-queue_critical_example =
    evaluate_observation-queue_critical deep_dimension deep_queue 1125000 deep_evaluation
      deep_queue_alerts refl

stopped_parsed : parse_alert_observation stopped ≡ ok stopped
unfolding parse_alert_observation parse_alert_dimension parse_body parse_runtime_snapshot
    nullable_integer integer
stopped_parsed = refl

-- A queue that has not reported its bytes loses its count and the time of its oldest message.
abbrev half_reported : QueueDepthSnapshot
half_reported = record {
  backlog_bytes = none;
  backlog_count = some 12;
  consecutive_nonzero_samples = some 3;
  nonzero_since_at = some 1000000;
  oldest_message_timestamp = some 1000000;
  sampled_at = some 1125000;
}

abbrev half_cleaned : QueueDepthSnapshot
half_cleaned = record {
  backlog_bytes = none;
  backlog_count = none;
  consecutive_nonzero_samples = some 3;
  nonzero_since_at = some 1000000;
  oldest_message_timestamp = none;
  sampled_at = some 1125000;
}

abbrev half_raw : AlertRuleObservation
half_raw = queue_observation deep_dimension half_reported 1125000

abbrev half_read : AlertRuleObservation
half_read = queue_observation deep_dimension half_cleaned 1125000

half_parsed : parse_alert_observation half_raw ≡ ok half_read
unfolding parse_alert_observation parse_alert_dimension parse_body parse_queue_snapshot parse_streak
    integer
half_parsed = refl

parse_alert_observation-ok_iff_example : (parse_alert_observation half_raw ≡ ok half_read) ↔ (
    IsAllowed deep_dimension
      (definition_for_alert_rule AlertRuleId.queue_dlq_approximate).dimensions
    × IsAccepted half_raw.body half_read.body
    × (half_read.as_of ≡ half_raw.as_of)
    × (half_read.dimension ≡ half_raw.dimension))
parse_alert_observation-ok_iff_example = parse_alert_observation-ok_iff half_raw half_read

abbrev missing_evidence : AlertSelectedEvidence
missing_evidence = record {
  primary = record {
    kind = EvidenceKind.boolean;
    metric_name = AlertMetricName.evaluator_missing;
    minimum_numerator_count = none;
    minimum_sample_count = 0;
    observed_denominator = none;
    observed_numerator = none;
    observed_value = 1;
    threshold = 1;
    unit = EvidenceUnit.state;
  };
  secondary = none;
  severity = critical;
  window_seconds = 900;
}

abbrev stopped_evaluation : AlertRuleEvaluation
stopped_evaluation = record {
  as_of = 1800000000000;
  breached_windows = AlertWindowKey.w15m ∷ AlertWindowKey.w60m ∷ [];
  dimension = AlertDimension.global;
  evidence = AlertEvidenceStatus.known;
  immediate_critical = true;
  rule = AlertRuleId.alert_runtime_health;
  selected = some missing_evidence;
  severity = critical;
}

stopped_evaluated : evaluate_alert_rule stopped ≡ ok stopped_evaluation
unfolding evaluate_alert_rule parse_alert_observation parse_alert_dimension parse_body
    parse_runtime_snapshot nullable_integer integer evaluate_observation evaluate_body
    evaluate_metrics metrics_for_observation evaluate_window_thresholds evaluate_windows
    evaluate_expression evaluate_gte scalar_evidence record_outcome choose_evaluation
    critical_evaluation find_immediate selected_evidence
stopped_evaluated = refl

evaluate_alert_rule-reparse_example :
    parse_alert_selected_evidence_for_rule missing_evidence AlertRuleId.alert_runtime_health
    ≡ ok missing_evidence
evaluate_alert_rule-reparse_example =
    evaluate_alert_rule-reparse stopped stopped_evaluation missing_evidence stopped_evaluated refl
