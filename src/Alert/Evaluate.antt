-- ===== src/Alert/Evaluate.antt =====
-- `evaluateAlertRule` of apps/sso/worker/alert-rules.ts from the parsed observation on: the windows
-- of each severity, the choice of the evidence and the result.
use sso_pg72_tw.Common.{
  ℕ, ◌||◌, Bool, true, false, Option, none, some, List, [], ◌∷◌, ◌++◌, map, if◌then◌else◌, Result,
  ok, throw,
}
use sso_pg72_tw.Common.Results.{◌>>=◌}
use sso_pg72_tw.Alert.Types.{
  AlertRuleId, AlertSeverity, no_alert, warning, critical, AlertEvidenceStatus, AlertWindowKey,
  alert_window_keys, alert_window_seconds, Windowed, at_window, MetricBag, AlertMetricName,
  AlertMetricEvidence, AlertSelectedEvidence,
}
use sso_pg72_tw.Alert.Definitions.{AlertRuleDefinition, definition_for_alert_rule, threshold_at}
use sso_pg72_tw.Alert.Expression.{Outcome, evaluate_expression}
use sso_pg72_tw.Alert.Observation.{
  AlertDimension, AlertRuleObservation, ObservationBody, queue_snapshot, rule_id,
  known_queue_snapshot,
}
use sso_pg72_tw.Alert.Bags.{metrics_for_observation}

-- A breached window, with the components of its evidence.
pub record Match : Type 0 where
  pub components : List AlertMetricEvidence
  pub window : AlertWindowKey

-- `WindowThresholdEvaluation`
pub record WindowEvaluation : Type 0 where
  pub matches : List Match
  pub unknown : Bool

-- What one window adds to the loop's `matches` and `unknown`.
unfoldable pub record_outcome : AlertWindowKey → WindowEvaluation → Outcome → WindowEvaluation
record_outcome w e (Outcome.breached found) = record e {
  matches = e.matches ++ record { components = found; window = w } ∷ [];
}
record_outcome w e Outcome.unknown = record e { unknown = true }
record_outcome w e Outcome.clear = e

module _ (d : AlertRuleDefinition) (metrics : Windowed MetricBag) (severity : AlertSeverity) where
  unfoldable pub evaluate_windows : List AlertWindowKey → WindowEvaluation → Result WindowEvaluation
  evaluate_windows [] e = ok e
  evaluate_windows (w ∷ ws) e = elim (threshold_at d w severity) [
    | none ↦ evaluate_windows ws e
    | some t ↦ evaluate_expression t (at_window metrics w) >>= λ result.
        evaluate_windows ws (record_outcome w e result)
  ]

  unfoldable pub evaluate_window_thresholds : Result WindowEvaluation
  evaluate_window_thresholds =
      evaluate_windows alert_window_keys (record { matches = []; unknown = false })

unfoldable pub selected_evidence :
    List AlertMetricEvidence → AlertSeverity → AlertWindowKey → Result AlertSelectedEvidence
selected_evidence [] s w = throw "alert evidence must contain one or two components"
selected_evidence (a ∷ []) s w = ok (record {
  primary = a;
  secondary = none;
  severity = s;
  window_seconds = alert_window_seconds w;
})
selected_evidence (a ∷ b ∷ []) s w = ok (record {
  primary = a;
  secondary = some b;
  severity = s;
  window_seconds = alert_window_seconds w;
})
selected_evidence (a ∷ b ∷ c ∷ rest) s w = throw "alert evidence must contain one or two components"

abbrev is_dead : AlertMetricName → Bool
is_dead AlertMetricName.dead = true
is_dead _ = false

abbrev is_missing_or_dead_outbox : AlertMetricName → Bool
is_missing_or_dead_outbox AlertMetricName.evaluator_missing = true
is_missing_or_dead_outbox AlertMetricName.dead_outbox = true
is_missing_or_dead_outbox _ = false

-- `isImmediateCriticalEvidence`: by the metric of the first component.
abbrev pub is_immediate_critical_evidence : AlertRuleId → List AlertMetricEvidence → Bool
is_immediate_critical_evidence AlertRuleId.logout_delivery_health (a ∷ _) = is_dead a.metric_name
is_immediate_critical_evidence AlertRuleId.alert_runtime_health (a ∷ _) =
    is_missing_or_dead_outbox a.metric_name
is_immediate_critical_evidence _ _ = false

-- `criticalMatches.find(…)`
unfoldable pub find_immediate : AlertRuleId → List Match → Option Match
find_immediate r [] = none
find_immediate r (m ∷ ms) =
    if is_immediate_critical_evidence r m.components then some m else find_immediate r ms

pub record AlertRuleEvaluation : Type 0 where
  pub as_of : ℕ
  pub breached_windows : List AlertWindowKey
  pub dimension : AlertDimension
  pub evidence : AlertEvidenceStatus
  pub immediate_critical : Bool
  pub rule : AlertRuleId
  pub selected : Option AlertSelectedEvidence
  pub severity : AlertSeverity

abbrev pub windows_of : List Match → List AlertWindowKey
windows_of = map (λ m. m.window)

-- The result for a queue whose snapshot is not known.
abbrev pub unknown_evaluation : AlertRuleObservation → AlertRuleEvaluation
unknown_evaluation o = record {
  as_of = o.as_of;
  breached_windows = [];
  dimension = o.dimension;
  evidence = AlertEvidenceStatus.unknown;
  immediate_critical = false;
  rule = rule_id o.body;
  selected = none;
  severity = no_alert;
}

-- `immediate ?? criticalMatches[0]`, for the matches `m ∷ ms`.
abbrev pub chosen_critical : Option Match → Match → Match
chosen_critical (some immediate) m = immediate
chosen_critical none m = m

abbrev pub is_some : Option Match → Bool
is_some (some m) = true
is_some none = false

-- The result of an alert.
abbrev pub alert_result :
    AlertRuleObservation
    → AlertSeverity
    → Bool
    → List Match
    → AlertSelectedEvidence
    → AlertRuleEvaluation
alert_result o level immediate matches evidence = record {
  as_of = o.as_of;
  breached_windows = windows_of matches;
  dimension = o.dimension;
  evidence = AlertEvidenceStatus.known;
  immediate_critical = immediate;
  rule = rule_id o.body;
  selected = some evidence;
  severity = level;
}

unfoldable pub critical_evaluation :
    AlertRuleObservation → Match → List Match → Result AlertRuleEvaluation
critical_evaluation o m ms =
    let immediate = find_immediate (rule_id o.body) (m ∷ ms) in
    let chosen = chosen_critical immediate m in
    selected_evidence chosen.components critical chosen.window >>= λ evidence.
    ok (alert_result o critical (is_some immediate) (m ∷ ms) evidence)

-- No critical window: the first warning, or nothing; `blind` is `critical.unknown` or
-- `warning.unknown`.
unfoldable pub warning_evaluation :
    AlertRuleObservation → Bool → List Match → Result AlertRuleEvaluation
warning_evaluation o blind [] = ok (record {
  as_of = o.as_of;
  breached_windows = [];
  dimension = o.dimension;
  evidence = if blind then AlertEvidenceStatus.unknown else AlertEvidenceStatus.known;
  immediate_critical = false;
  rule = rule_id o.body;
  selected = none;
  severity = no_alert;
})
warning_evaluation o blind (m ∷ ms) =
    selected_evidence m.components warning m.window >>= λ evidence.
    ok (alert_result o warning false (m ∷ ms) evidence)

-- The critical matches come first; the warnings are read only where there is none.
unfoldable pub choose_evaluation :
    AlertRuleObservation → List Match → Bool → Result WindowEvaluation → Result AlertRuleEvaluation
choose_evaluation o (m ∷ ms) blind warn = critical_evaluation o m ms
choose_evaluation o [] blind warn =
    warn >>= λ e. warning_evaluation o (blind || e.unknown) e.matches

unfoldable pub evaluate_metrics :
    AlertRuleObservation → Windowed MetricBag → Result AlertRuleEvaluation
unfolding choose_evaluation
evaluate_metrics o metrics =
    let d = definition_for_alert_rule (rule_id o.body) in
    evaluate_window_thresholds d metrics critical >>= λ crit.
    choose_evaluation o crit.matches crit.unknown (evaluate_window_thresholds d metrics warning)

-- `queueSnapshot`, where the rule is the queue's.
unfoldable pub evaluate_body : ObservationBody → AlertRuleObservation → Result AlertRuleEvaluation
evaluate_body (queue_snapshot s) o = elim (known_queue_snapshot s o.as_of) [
  | none ↦ ok (unknown_evaluation o)
  | some q ↦ evaluate_metrics o (metrics_for_observation (queue_snapshot s) (some q))
]
evaluate_body body o = evaluate_metrics o (metrics_for_observation body none)

unfoldable pub evaluate_observation : AlertRuleObservation → Result AlertRuleEvaluation
unfolding evaluate_body
evaluate_observation o = evaluate_body o.body o
