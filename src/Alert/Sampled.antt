-- ===== src/Alert/Sampled.antt =====
-- Observations of apps/sso/worker/alert-rules.ts that leave no metric of their rule open: all but a
-- queue without a usable snapshot and client reports without a count of reporters.
use sso_pg72_tw.Common.{ℕ, ◌≡◌, refl, Option, none, some, Result, ok, arith}
use sso_pg72_tw.Alert.Types.{
  AlertSeverity, critical, warning, no_alert, AlertWindowKey, Metric, at_window, MetricBag,
  Windowed,
}
use sso_pg72_tw.Alert.Definitions.{
  WindowThreshold, AlertRuleDefinition, definition_for_alert_rule, threshold_at,
}
use sso_pg72_tw.Alert.Observation.{
  AlertRuleObservation, ObservationBody, QueueDepthSnapshot, KnownQueueSnapshot,
  OauthClientReportWindowMetrics, CountRule, RatioRule, count_windows, ratio_windows,
  restricted_windows, recovery_windows, oauth_windows, admin_windows, fanout_snapshot,
  logout_windows, runtime_snapshot, queue_snapshot, rule_id, known_queue_snapshot,
}
use sso_pg72_tw.Alert.Bags.{metrics_for_observation}
use sso_pg72_tw.Alert.Evaluate.{
  AlertRuleEvaluation, evaluate_metrics, evaluate_body, evaluate_observation,
}
use sso_pg72_tw.Alert.Kleene.{IsCompletion}
use sso_pg72_tw.Alert.Known.{IsKnown, OptionCovers}
use sso_pg72_tw.Alert.Decided.{IsDecided, evaluate_metrics-IsDecided}
use sso_pg72_tw.Alert.Rules.{known_snapshot, observed_metrics}

abbrev pub IsSampled : ObservationBody → ℕ → Type 0
IsSampled (queue_snapshot s) as_of = IsKnown (known_queue_snapshot s as_of)
IsSampled (oauth_windows ws) as_of = IsKnown ws.m60.distinct_reporters
IsSampled _ as_of = Unit

abbrev Levels : MetricBag → WindowThreshold → Type 0
Levels bag t = OptionCovers bag t.critical × OptionCovers bag t.warning

abbrev AllLevels : Windowed MetricBag → AlertRuleDefinition → Type 0
AllLevels ms d =
    Levels ms.m5 d.thresholds.m5 × Levels ms.m15 d.thresholds.m15 × Levels ms.m60 d.thresholds.m60

at_level :
    (ms : Windowed MetricBag) (d : AlertRuleDefinition) (w : AlertWindowKey) (s : AlertSeverity)
    → AllLevels ms d
    → OptionCovers (at_window ms w) (threshold_at d w s)
at_level ms d AlertWindowKey.w5m critical h = h.0.0
at_level ms d AlertWindowKey.w5m warning h = h.0.1
at_level ms d AlertWindowKey.w15m critical h = h.1.0
at_level ms d AlertWindowKey.w15m warning h = h.1.1
at_level ms d AlertWindowKey.w60m critical h = h.2.0
at_level ms d AlertWindowKey.w60m warning h = h.2.1
at_level ms d w no_alert h = tt

abbrev CoveredBody : ObservationBody → Option KnownQueueSnapshot → Type 0
CoveredBody b q = AllLevels (metrics_for_observation b q) (definition_for_alert_rule (rule_id b))

covered_queue :
    (s : QueueDepthSnapshot) (q : Option KnownQueueSnapshot)
    → IsKnown q
    → CoveredBody (queue_snapshot s) q
unfolding metrics_for_observation
covered_queue s none h = absurd h
covered_queue s (some q) h = ground arith

covered_reports :
    (ws : Windowed OauthClientReportWindowMetrics) (n : Option ℕ)
    → ws.m60.distinct_reporters ≡ n
    → IsKnown n
    → CoveredBody (oauth_windows ws) none
unfolding metrics_for_observation
covered_reports ws none e h = absurd h
covered_reports ws (some n) e h = rw e (ground arith)

covered :
    (b : ObservationBody) (as_of : ℕ) → IsSampled b as_of → CoveredBody b (known_snapshot b as_of)
unfolding metrics_for_observation
covered (count_windows CountRule.registration_rate_limited ws) as_of h = ground arith
covered (count_windows CountRule.registration_denied ws) as_of h = ground arith
covered (count_windows CountRule.registration_restricted_created ws) as_of h = ground arith
covered (count_windows CountRule.admin_directory_volume ws) as_of h = ground arith
covered (ratio_windows RatioRule.registration_challenge_unavailable ws) as_of h = ground arith
covered (ratio_windows RatioRule.recovery_passkey_failure ws) as_of h = ground arith
covered (ratio_windows RatioRule.passkey_step_up_failure ws) as_of h = ground arith
covered (restricted_windows ws) as_of h = ground arith
covered (recovery_windows ws) as_of h = ground arith
covered (oauth_windows ws) as_of h = covered_reports ws ws.m60.distinct_reporters refl h
covered (admin_windows ws) as_of h = ground arith
covered (fanout_snapshot s) as_of h = ground arith
covered (logout_windows c ws) as_of h = ground arith
covered (runtime_snapshot s) as_of h = ground arith
covered (queue_snapshot s) as_of h = covered_queue s (known_queue_snapshot s as_of) h

module _ (o : AlertRuleObservation) (v : AlertWindowKey → Metric → ℕ) where
  abbrev Decides : Result AlertRuleEvaluation → Type 0
  Decides m =
      (r : AlertRuleEvaluation) × (m ≡ ok r)
      × IsDecided (definition_for_alert_rule (rule_id o.body)) v r

  queue-Decides :
      (s : QueueDepthSnapshot) (q : Option KnownQueueSnapshot)
      → known_queue_snapshot s o.as_of ≡ q
      → IsKnown q
      → Decides (evaluate_metrics o (metrics_for_observation (queue_snapshot s) q))
      → Decides (evaluate_body (queue_snapshot s) o)
  unfolding evaluate_body
  queue-Decides s none e h k = absurd h
  queue-Decides s (some q) e h k = rw (e, evaluate_body) k

  body-Decides :
      (b : ObservationBody)
      → IsSampled b o.as_of
      → Decides (evaluate_metrics o (metrics_for_observation b (known_snapshot b o.as_of)))
      → Decides (evaluate_body b o)
  unfolding evaluate_body
  body-Decides (queue_snapshot s) h k = queue-Decides s (known_queue_snapshot s o.as_of) refl h k
  body-Decides (count_windows r ws) h k = k
  body-Decides (ratio_windows r ws) h k = k
  body-Decides (restricted_windows ws) h k = k
  body-Decides (recovery_windows ws) h k = k
  body-Decides (oauth_windows ws) h k = k
  body-Decides (admin_windows ws) h k = k
  body-Decides (fanout_snapshot s) h k = k
  body-Decides (logout_windows c ws) h k = k
  body-Decides (runtime_snapshot s) h k = k

-- Where a queue's snapshot is known and the reporters of an OAuth client are counted for the hour (no
-- other rule asks for anything), the evaluation returns on known evidence. It is critical exactly if a
-- critical threshold of the rule holds in some window, and a warning exactly if none does and a
-- warning threshold holds in some window, for the observed values of the metrics.
pub evaluate_observation-IsDecided :
    (o : AlertRuleObservation) (v : AlertWindowKey → Metric → ℕ)
    → IsSampled o.body o.as_of
    → ((w : AlertWindowKey) → IsCompletion (at_window (observed_metrics o) w) (v w))
    → (r : AlertRuleEvaluation) × (evaluate_observation o ≡ ok r)
      × IsDecided (definition_for_alert_rule (rule_id o.body)) v r
unfolding evaluate_observation
evaluate_observation-IsDecided o v sampled completes = body-Decides o v o.body sampled (
    evaluate_metrics-IsDecided o (observed_metrics o) v completes (λ w s.
      at_level (observed_metrics o) (definition_for_alert_rule (rule_id o.body)) w s
        (covered o.body o.as_of sampled)))
