-- ===== src/Alert/Bags.antt =====
-- `metricsForObservation` of apps/sso/worker/alert-rules.ts: the metric bag of each window. A
-- metric that a bag does not name is unknown, also where the source leaves an optional field out.
use sso_pg72_tw.Common.{ℕ, ◌+◌, Option, none, some}
use sso_pg72_tw.Alert.Types.{Metric, MetricBag, Windowed}
use Metric.{
  consecutive_nonzero_samples, count, dead, dead_outbox, denominator, depth, distinct_reporters,
  evaluator_age_seconds, evaluator_missing, high_risk_count, known_surfaces, lease_expired,
  missing_older_than_15m_count, missing_older_than_5m_count, numerator,
  oldest_unresolved_age_seconds, outbox_due_age_seconds, protected_denials, rate_limited, successes,
}
use sso_pg72_tw.Alert.Observation.{
  CountWindowMetrics, RatioWindowMetrics, RestrictedDenialWindowMetrics, RecoveryEntryWindowMetrics,
  OauthClientReportWindowMetrics, AdminSensitiveWindowMetrics, FanoutGapSnapshot,
  LogoutDeliveryCurrentSnapshot, LogoutDeliveryWindowMetrics, AlertRuntimeSnapshot,
  KnownQueueSnapshot, ObservationBody, count_windows, ratio_windows, restricted_windows,
  recovery_windows, oauth_windows, admin_windows, fanout_snapshot, logout_windows, runtime_snapshot,
  queue_snapshot,
}

-- `value ?? 0`
abbrev pub or_zero : Option ℕ → ℕ
or_zero none = 0
or_zero (some n) = n

-- `value === null ? 1 : 0`
abbrev pub missing_flag : Option ℕ → ℕ
missing_flag none = 1
missing_flag (some n) = 0

abbrev pub count_bag : CountWindowMetrics → MetricBag
count_bag w count = some w.count
count_bag w _ = none

abbrev pub ratio_bag : RatioWindowMetrics → MetricBag
ratio_bag w denominator = some w.denominator
ratio_bag w numerator = some w.numerator
ratio_bag w _ = none

abbrev pub restricted_bag : RestrictedDenialWindowMetrics → MetricBag
restricted_bag w count = some w.count
restricted_bag w known_surfaces = some w.known_surfaces
restricted_bag w _ = none

abbrev pub recovery_bag : RecoveryEntryWindowMetrics → MetricBag
recovery_bag w denominator = some (w.denied + w.started)
recovery_bag w numerator = some w.denied
recovery_bag w rate_limited = some w.rate_limited
recovery_bag w _ = none

abbrev pub oauth_bag : OauthClientReportWindowMetrics → MetricBag
oauth_bag w count = some w.count
oauth_bag w distinct_reporters = w.distinct_reporters
oauth_bag w high_risk_count = some w.high_risk_count
oauth_bag w _ = none

abbrev pub admin_bag : AdminSensitiveWindowMetrics → MetricBag
admin_bag w count = some (w.successes + w.protected_denials)
admin_bag w protected_denials = some w.protected_denials
admin_bag w successes = some w.successes
admin_bag w _ = none

abbrev pub fanout_5m_bag : FanoutGapSnapshot → MetricBag
fanout_5m_bag s missing_older_than_5m_count = some s.missing_older_than_5m_count
fanout_5m_bag s _ = none

abbrev pub fanout_15m_bag : FanoutGapSnapshot → MetricBag
fanout_15m_bag s missing_older_than_15m_count = some s.missing_older_than_15m_count
fanout_15m_bag s _ = none

abbrev pub logout_bag : LogoutDeliveryCurrentSnapshot → LogoutDeliveryWindowMetrics → MetricBag
logout_bag c w dead = some c.current_dead
logout_bag c w denominator = some w.eligible
logout_bag c w lease_expired = some w.lease_expired
logout_bag c w numerator = some w.unresolved
logout_bag c w oldest_unresolved_age_seconds = some (or_zero c.oldest_unresolved_age_seconds)
logout_bag c w _ = none

abbrev pub runtime_bag : AlertRuntimeSnapshot → MetricBag
runtime_bag s dead_outbox = some s.dead_outbox
runtime_bag s evaluator_age_seconds = some (or_zero s.evaluator_age_seconds)
runtime_bag s evaluator_missing = some (missing_flag s.evaluator_age_seconds)
runtime_bag s outbox_due_age_seconds = some (or_zero s.outbox_due_age_seconds)
runtime_bag s _ = none

abbrev pub queue_bag : KnownQueueSnapshot → MetricBag
queue_bag q consecutive_nonzero_samples = some q.consecutive_nonzero_samples
queue_bag q depth = some q.depth
queue_bag q _ = none

abbrev pub empty_bag : MetricBag
empty_bag m = none

abbrev pub map_windows : {A B : Type 0} → (A → B) → Windowed A → Windowed B
map_windows f ws = record { m5 = f ws.m5; m15 = f ws.m15; m60 = f ws.m60 }

abbrev pub same_windows : {A : Type 0} → A → Windowed A
same_windows a = record { m5 = a; m15 = a; m60 = a }

unfoldable pub metrics_for_observation :
    ObservationBody → Option KnownQueueSnapshot → Windowed MetricBag
metrics_for_observation (count_windows r ws) known = map_windows count_bag ws
metrics_for_observation (ratio_windows r ws) known = map_windows ratio_bag ws
metrics_for_observation (restricted_windows ws) known = map_windows restricted_bag ws
metrics_for_observation (recovery_windows ws) known = map_windows recovery_bag ws
metrics_for_observation (oauth_windows ws) known = map_windows oauth_bag ws
metrics_for_observation (admin_windows ws) known = map_windows admin_bag ws
metrics_for_observation (fanout_snapshot s) known = record {
  m5 = fanout_5m_bag s;
  m15 = fanout_15m_bag s;
  m60 = fanout_5m_bag s;
}
metrics_for_observation (logout_windows c ws) known = map_windows (logout_bag c) ws
metrics_for_observation (runtime_snapshot s) known = same_windows (runtime_bag s)
metrics_for_observation (queue_snapshot s) none = same_windows empty_bag
metrics_for_observation (queue_snapshot s) (some q) = same_windows (queue_bag q)
