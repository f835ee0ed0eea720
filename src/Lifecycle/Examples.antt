-- ===== src/Lifecycle/Examples.antt =====
-- Runs of the lifecycle of apps/sso/worker/alert-evaluator.ts: an evaluator that has stopped opens an
-- alert, which later resolves.
use sso_pg72_tw.Common.{ℕ, ◌≡◌, refl, true, false, none, some, List, [], ◌∷◌, ok, inr, arith}
use sso_pg72_tw.Alert.Types.{
  AlertRuleId, no_alert, warning, critical, known, AlertWindowKey, AlertMetricName, EvidenceKind,
  EvidenceUnit, AlertSelectedEvidence,
}
use sso_pg72_tw.Alert.Expression.{scalar_evidence, evaluate_expression, evaluate_gte}
use sso_pg72_tw.Alert.Observation.{AlertDimension, AlertRuleObservation, runtime_snapshot}
use sso_pg72_tw.Alert.Bags.{metrics_for_observation}
use sso_pg72_tw.Alert.Evaluate.{
  AlertRuleEvaluation, evaluate_metrics, evaluate_window_thresholds, evaluate_windows,
  evaluate_body, choose_evaluation, evaluate_observation, record_outcome, critical_evaluation,
  find_immediate, selected_evidence,
}
use sso_pg72_tw.Alert.Parsing.{
  evaluate_alert_rule, parse_alert_observation, parse_alert_dimension, parse_body,
  parse_runtime_snapshot,
}
use sso_pg72_tw.Alert.Metrics.{nullable_integer, integer}
use sso_pg72_tw.Lifecycle.{AlertLifecycleIdentity, AlertLifecycleState, inactive_alert_state}
use sso_pg72_tw.Lifecycle.Checks.{parse_state}
use sso_pg72_tw.Lifecycle.Alarm.{unbound, quiet, raised, firing, stored, parse_state-stored}
use sso_pg72_tw.Lifecycle.Accepts.{parse_state-Represents}
use sso_pg72_tw.Lifecycle.Shapes.{Represents}
use sso_pg72_tw.Lifecycle.Advance.{
  advance_alert_lifecycle, advance_from, advance_bound, advance_known, advance_alerting,
  advance_breach, advance_confirmed, start_or_continue_breach, required_breaches, pending_state,
}
use sso_pg72_tw.Lifecycle.Intents.{
  AlertLifecycleResult, open_alert, identity_for, is_same_identity, selected_evidence_for,
  intent_of,
}
use sso_pg72_tw.Lifecycle.Evolution.{Survives, advance_alert_lifecycle-Survives}
use sso_pg72_tw.Lifecycle.Actions.{IsAccounted}
use sso_pg72_tw.Lifecycle.Announced.{advance_alert_lifecycle-IsAccounted}
use sso_pg72_tw.Lifecycle.History.{
  Reach, start, step, tell, told_status, IsOrdered, Reach-IsOrdered,
}
use sso_pg72_tw.Lifecycle.Resolving.{Observed, AreClear, advance_each, advance_each-resolves}
use sso_pg72_tw.Lifecycle.Opening.{IsAlertAfter, advance_from-opens}

-- An evaluator that has never run, and two dead outbox rows.
abbrev stopped : AlertRuleObservation
stopped = record {
  as_of = 1800000000000;
  dimension = AlertDimension.global;
  body =
      runtime_snapshot (record {
        dead_outbox = 2;
        evaluator_age_seconds = none;
        outbox_due_age_seconds = some 30;
      });
}

abbrev missing_evidence : AlertSelectedEvidence
missing_evidence = record {
  primary = record {
    kind = EvidenceKind.boolean;
    metric_name = AlertMetricName.evaluator_missing;
    minimum_numerator_count = none;
    minimum_sample_count = 0;
    observed_denominator = none;
    observed_numerator = none;
    observed_value = 1;
    threshold = 1;
    unit = EvidenceUnit.state;
  };
  secondary = none;
  severity = critical;
  window_seconds = 900;
}

abbrev stopped_evaluation : AlertRuleEvaluation
stopped_evaluation = record {
  as_of = 1800000000000;
  breached_windows = AlertWindowKey.w15m ∷ AlertWindowKey.w60m ∷ [];
  dimension = AlertDimension.global;
  evidence = known;
  immediate_critical = true;
  rule = AlertRuleId.alert_runtime_health;
  selected = some missing_evidence;
  severity = critical;
}

stopped_evaluated : evaluate_alert_rule stopped ≡ ok stopped_evaluation
unfolding evaluate_alert_rule parse_alert_observation parse_alert_dimension parse_body
    parse_runtime_snapshot nullable_integer integer evaluate_observation evaluate_body
    evaluate_metrics metrics_for_observation evaluate_window_thresholds evaluate_windows
    evaluate_expression evaluate_gte scalar_evidence record_outcome choose_evaluation
    critical_evaluation find_immediate selected_evidence
stopped_evaluated = refl

fresh_parses : parse_state (stored unbound) 1800000000000 ≡ ok (stored unbound)
fresh_parses = parse_state-stored unbound 1800000000000 tt

parse_state-Represents_example :
    (stored unbound ≡ stored unbound) × Represents (stored unbound) 1800000000000
parse_state-Represents_example =
    parse_state-Represents (stored unbound) (stored unbound) 1800000000000 fresh_parses

advance_alert_lifecycle-Survives_example :
    Survives 1800000000000 (advance_alert_lifecycle 1800000000000 stopped (stored unbound))
advance_alert_lifecycle-Survives_example =
    advance_alert_lifecycle-Survives stopped (stored unbound) (stored unbound) 1800000000000
      stopped_evaluation stopped_evaluated refl fresh_parses tt

abbrev runtime_identity : AlertLifecycleIdentity
runtime_identity = record {
  dimension = AlertDimension.global;
  rule = AlertRuleId.alert_runtime_health;
}

abbrev opened : AlertLifecycleResult
opened = record {
  intent = some (record {
    at_time = 1800000000000;
    dimension = AlertDimension.global;
    rule = AlertRuleId.alert_runtime_health;
    action = open_alert missing_evidence critical;
  });
  state = stored (
      firing runtime_identity 1800000000000 1800000000000 1800000000000 critical missing_evidence
        none 0);
}

opens : advance_from stopped_evaluation (stored unbound) 1800000000000 ≡ ok opened
unfolding advance_from advance_bound advance_known advance_alerting advance_breach advance_confirmed
    identity_for selected_evidence_for start_or_continue_breach required_breaches pending_state
    intent_of
opens = refl

steps_open : advance_alert_lifecycle 1800000000000 stopped (stored unbound) ≡ ok opened
unfolding advance_alert_lifecycle
steps_open = simp (stopped_evaluated, opens)

advance_alert_lifecycle-IsAccounted_example :
    (r : AlertRuleEvaluation) × (evaluate_alert_rule stopped ≡ ok r)
    × IsAccounted none r (stored unbound) 1800000000000 opened
advance_alert_lifecycle-IsAccounted_example =
    advance_alert_lifecycle-IsAccounted stopped (stored unbound) 1800000000000 opened steps_open

starts : Reach (stored unbound) []
unfolding inactive_alert_state
starts = start

Reach-IsOrdered_example :
    (opened.state.status ≡ told_status (tell opened.intent [])) × IsOrdered (tell opened.intent [])
Reach-IsOrdered_example = Reach-IsOrdered (step 1800000000000 stopped opened starts steps_open)

-- The evaluator runs again.
abbrev recovered : ℕ → Observed
recovered now = record {
  evaluation = record {
    as_of = now;
    breached_windows = [];
    dimension = AlertDimension.global;
    evidence = known;
    immediate_critical = false;
    rule = AlertRuleId.alert_runtime_health;
    selected = none;
    severity = no_alert;
  };
  now = now;
}

abbrev recoveries : List Observed
recoveries =
    recovered 1800000120000
    ∷ recovered 1800000180000
    ∷ recovered 1800000240000
    ∷ recovered 1800000300000
    ∷ []

recoveries_clear : AreClear runtime_identity 1800000000000 (recovered 1800000060000 ∷ recoveries)
unfolding is_same_identity identity_for
recoveries_clear = (
  (refl, refl, refl, refl, refl),
  (
    (refl, refl, refl, refl, refl),
    (
      (refl, refl, refl, refl, refl),
      ((refl, refl, refl, refl, refl), ((refl, refl, refl, refl, refl), tt)),
    ),
  ),
)

advance_each-resolves_example :
    advance_each (recovered 1800000060000 ∷ recoveries) opened.state
    ≡ ok (stored (quiet runtime_identity 1800000300000 (some 1800002100000)))
advance_each-resolves_example =
    advance_each-resolves runtime_identity 1800000000000 1800000000000 critical missing_evidence
      refl (recovered 1800000060000) recoveries 1800000000000 none 0 recoveries_clear refl

-- The evaluator lags, for a while that is longer than the rest of the cooldown.
abbrev lag_evidence : ℕ → AlertSelectedEvidence
lag_evidence seconds = record {
  primary = record {
    kind = EvidenceKind.age_seconds;
    metric_name = AlertMetricName.evaluator_age_seconds;
    minimum_numerator_count = none;
    minimum_sample_count = 0;
    observed_denominator = none;
    observed_numerator = none;
    observed_value = seconds;
    threshold = 181;
    unit = EvidenceUnit.seconds;
  };
  secondary = none;
  severity = warning;
  window_seconds = 300;
}

abbrev lagging : ℕ → ℕ → Observed
lagging now seconds = record {
  evaluation = record {
    as_of = now;
    breached_windows = AlertWindowKey.w5m ∷ [];
    dimension = AlertDimension.global;
    evidence = known;
    immediate_critical = false;
    rule = AlertRuleId.alert_runtime_health;
    selected = some (lag_evidence seconds);
    severity = warning;
  };
  now = now;
}

lags :
    IsAlertAfter runtime_identity warning
      (lag_evidence 190)
      1800000000000
      (lagging 1800000060000 190)
unfolding is_same_identity identity_for
lags = (refl, refl, refl, refl, refl, refl)

lags_on :
    IsAlertAfter runtime_identity warning
      (lag_evidence 250)
      1800000060000
      (lagging 1800000120000 250)
unfolding is_same_identity identity_for
lags_on = (refl, refl, refl, refl, refl, refl)

abbrev lag_raised : AlertLifecycleState
lag_raised =
    stored (raised runtime_identity 1800000060000 (some 1800000090000) warning (lag_evidence 190))

abbrev lag_opened : AlertLifecycleResult
lag_opened = record {
  intent =
      intent_of (lagging 1800000120000 250).evaluation 1800000120000
        (open_alert (lag_evidence 250) warning);
  state = stored (
      firing runtime_identity 1800000120000 1800000120000 1800000120000 warning (lag_evidence 250)
        none 0);
}

advance_from-opens_example :
    (advance_from
        (lagging 1800000060000 190).evaluation
        (stored (quiet runtime_identity 1800000000000 (some 1800000090000)))
        1800000060000
      ≡ ok (record { intent = none; state = lag_raised }))
    × (advance_from (lagging 1800000120000 250).evaluation lag_raised 1800000120000 ≡ ok lag_opened)
advance_from-opens_example =
    advance_from-opens runtime_identity warning refl (lagging 1800000060000 190)
      (lagging 1800000120000 250) (lag_evidence 190) (lag_evidence 250) 1800000000000
      (some 1800000090000) lags lags_on (inr (omega arith))
