-- ===== src/Alert/Ranges.antt =====
-- What the parsers of apps/sso/worker/alert-rules.ts let through: the values are left as they are
-- and are in the ranges of their metrics.
use sso_pg72_tw.Common.{◌+◌, ◌≤◌, ◌≡◌, arith, ok}
use sso_pg72_tw.Alert.Observation.{
  CountWindowMetrics, RatioWindowMetrics, RestrictedDenialWindowMetrics, RecoveryEntryWindowMetrics,
  OauthClientReportWindowMetrics, AdminSensitiveWindowMetrics, FanoutGapSnapshot,
  LogoutDeliveryCurrentSnapshot, LogoutDeliveryWindowMetrics, AlertRuntimeSnapshot,
  QueueDepthSnapshot, max_evidence_value,
}
use sso_pg72_tw.Alert.Bags.{or_zero}
use sso_pg72_tw.Alert.Parsing.{
  parse_fanout_snapshot, parse_runtime_snapshot, parse_queue_snapshot, parse_streak,
}
use sso_pg72_tw.Alert.Metrics.{
  integer, nullable_integer, max_ratio_field, parse_count_metrics, parse_ratio_metrics,
  parse_restricted_metrics, parse_recovery_entry_metrics, parse_oauth_metrics,
  parse_admin_sensitive_metrics, parse_logout_current_snapshot, parse_logout_metrics,
}

pub count_range :
    (w v : CountWindowMetrics)
    → parse_count_metrics w ≡ ok v
    → (v ≡ w) × (v.count ≤ max_evidence_value)
unfolding parse_count_metrics integer
count_range w v h = ground arith

pub ratio_range :
    (w v : RatioWindowMetrics)
    → parse_ratio_metrics w ≡ ok v
    → (v ≡ w) × (v.numerator ≤ v.denominator) × (v.denominator ≤ max_ratio_field)
unfolding parse_ratio_metrics integer
ratio_range w v h = ground arith

pub restricted_range :
    (w v : RestrictedDenialWindowMetrics)
    → parse_restricted_metrics w ≡ ok v
    → (v ≡ w) × (v.count ≤ max_evidence_value) × (v.known_surfaces ≤ max_evidence_value)
unfolding parse_restricted_metrics integer
restricted_range w v h = ground arith

pub recovery_range :
    (w v : RecoveryEntryWindowMetrics)
    → parse_recovery_entry_metrics w ≡ ok v
    → (v ≡ w) × (v.denied + v.started ≤ max_ratio_field) × (v.rate_limited ≤ max_evidence_value)
unfolding parse_recovery_entry_metrics integer
recovery_range w v h = ground arith

pub oauth_range :
    (w v : OauthClientReportWindowMetrics)
    → parse_oauth_metrics w ≡ ok v
    → (v ≡ w)
      × (v.count ≤ max_evidence_value)
      × (v.high_risk_count ≤ max_evidence_value)
      × (or_zero v.distinct_reporters ≤ max_evidence_value)
unfolding parse_oauth_metrics integer nullable_integer
oauth_range w v h = ground arith

pub admin_range :
    (w v : AdminSensitiveWindowMetrics)
    → parse_admin_sensitive_metrics w ≡ ok v
    → (v ≡ w) × (v.successes + v.protected_denials ≤ max_evidence_value)
unfolding parse_admin_sensitive_metrics integer
admin_range w v h = ground arith

pub current_range :
    (w v : LogoutDeliveryCurrentSnapshot)
    → parse_logout_current_snapshot w ≡ ok v
    → (v ≡ w)
      × (v.current_dead ≤ max_evidence_value)
      × (or_zero v.oldest_unresolved_age_seconds ≤ max_evidence_value)
unfolding parse_logout_current_snapshot integer nullable_integer
current_range w v h = ground arith

pub logout_range :
    (w v : LogoutDeliveryWindowMetrics)
    → parse_logout_metrics w ≡ ok v
    → (v ≡ w)
      × (v.unresolved ≤ v.eligible)
      × (v.eligible ≤ max_ratio_field)
      × (v.lease_expired ≤ max_evidence_value)
unfolding parse_logout_metrics integer
logout_range w v h = ground arith

pub fanout_range :
    (w v : FanoutGapSnapshot)
    → parse_fanout_snapshot w ≡ ok v
    → (v ≡ w)
      × (v.missing_older_than_5m_count ≤ max_evidence_value)
      × (v.missing_older_than_15m_count ≤ max_evidence_value)
unfolding parse_fanout_snapshot integer
fanout_range w v h = ground arith

pub runtime_range :
    (w v : AlertRuntimeSnapshot)
    → parse_runtime_snapshot w ≡ ok v
    → (v ≡ w)
      × (v.dead_outbox ≤ max_evidence_value)
      × (or_zero v.evaluator_age_seconds ≤ max_evidence_value)
      × (or_zero v.outbox_due_age_seconds ≤ max_evidence_value)
unfolding parse_runtime_snapshot integer nullable_integer
runtime_range w v h = ground arith

pub queue_range :
    (s v : QueueDepthSnapshot)
    → parse_queue_snapshot s ≡ ok v
    → (or_zero v.backlog_count ≤ max_evidence_value)
      × (or_zero v.consecutive_nonzero_samples ≤ max_ratio_field)
unfolding parse_queue_snapshot parse_streak integer
queue_range s v h = ground arith
