-- ===== src/Alert/Rules.antt =====
-- `evaluateAlertRule` of apps/sso/worker/alert-rules.ts on a whole observation: the snapshot of a
-- queue is read first, and every other rule goes straight to its metrics.
use sso_pg72_tw.Common.{ℕ, ◌≡◌, refl, Option, none, inl, inr, Result, ok, Option-cases}
use sso_pg72_tw.Alert.Types.{Metric, AlertWindowKey, Windowed, at_window, MetricBag}
use sso_pg72_tw.Alert.Definitions.{definition_for_alert_rule}
use sso_pg72_tw.Alert.Observation.{
  AlertRuleObservation, ObservationBody, KnownQueueSnapshot, queue_snapshot, rule_id,
  known_queue_snapshot,
}
use sso_pg72_tw.Alert.Bags.{metrics_for_observation}
use sso_pg72_tw.Alert.Evaluate.{
  AlertRuleEvaluation, unknown_evaluation, evaluate_metrics, evaluate_body, evaluate_observation,
}
use sso_pg72_tw.Alert.Kleene.{IsCompletion}
use sso_pg72_tw.Alert.Severity.{evaluate_metrics-IsJustified, unknown-ne-known}
use sso_pg72_tw.Alert.Verdicts.{IsJustified}

-- The snapshot, where the rule is the queue's and its snapshot is known.
abbrev pub known_snapshot : ObservationBody → ℕ → Option KnownQueueSnapshot
known_snapshot (queue_snapshot s) as_of = known_queue_snapshot s as_of
known_snapshot _ as_of = none

abbrev pub observed_metrics : AlertRuleObservation → Windowed MetricBag
observed_metrics o = metrics_for_observation o.body (known_snapshot o.body o.as_of)

module _ (o : AlertRuleObservation) (v : AlertWindowKey → Metric → ℕ) where
  abbrev Returns : Result AlertRuleEvaluation → Type 0
  Returns m =
      (r : AlertRuleEvaluation) × (m ≡ ok r)
      × IsJustified (definition_for_alert_rule (rule_id o.body)) v r

  unknown_evaluation-Returns : Returns (ok (unknown_evaluation o))
  unknown_evaluation-Returns = (
    unknown_evaluation o,
    refl,
    record {
      alerts_hold = tt;
      alerts_named = λ a. absurd (a refl);
      quiet_clear = λ a b. absurd (unknown-ne-known b);
    },
  )

  body-Returns :
      (b : ObservationBody)
      → ((m : Windowed MetricBag)
          → m ≡ metrics_for_observation b (known_snapshot b o.as_of)
          → Returns (evaluate_metrics o m))
      → Returns (evaluate_body b o)
  unfolding evaluate_body
  body-Returns (queue_snapshot s) h = elim (Option-cases (known_queue_snapshot s o.as_of)) [
    | inl blind ↦ rw (blind, evaluate_body) unknown_evaluation-Returns
    | inr (q, found) ↦ rw (found, evaluate_body) (h _ (rw found))
  ]
  body-Returns (ObservationBody.count_windows r ws) h = h _ refl
  body-Returns (ObservationBody.ratio_windows r ws) h = h _ refl
  body-Returns (ObservationBody.restricted_windows ws) h = h _ refl
  body-Returns (ObservationBody.recovery_windows ws) h = h _ refl
  body-Returns (ObservationBody.oauth_windows ws) h = h _ refl
  body-Returns (ObservationBody.admin_windows ws) h = h _ refl
  body-Returns (ObservationBody.fanout_snapshot s) h = h _ refl
  body-Returns (ObservationBody.logout_windows c ws) h = h _ refl
  body-Returns (ObservationBody.runtime_snapshot s) h = h _ refl

-- The evaluation of every observation returns. For every way to complete the metrics that the
-- observation leaves unknown, each window that the result reports breaches the threshold of the
-- severity that it reports, an alert names a window, and "no alert" on known evidence means that no
-- threshold of the rule holds in any window.
pub evaluate_observation-IsJustified :
    (o : AlertRuleObservation) (v : AlertWindowKey → Metric → ℕ)
    → ((w : AlertWindowKey) → IsCompletion (at_window (observed_metrics o) w) (v w))
    → (r : AlertRuleEvaluation) × (evaluate_observation o ≡ ok r)
      × IsJustified (definition_for_alert_rule (rule_id o.body)) v r
unfolding evaluate_observation
evaluate_observation-IsJustified o v completes =
    body-Returns o v o.body λ m e. evaluate_metrics-IsJustified o m v (rw e completes)
