-- ===== src/Alert/Storable.antt =====
-- The metrics of a parsed observation of apps/sso/worker/alert-rules.ts are in the persistence
-- domain, in every window.
use sso_pg72_tw.Common.{ℕ, ◌≤◌, ◌≡◌, Option, none, some, arith, ok}
use sso_pg72_tw.Alert.Types.{Metric}
use sso_pg72_tw.Alert.Observation.{
  CountWindowMetrics, RatioWindowMetrics, RestrictedDenialWindowMetrics, RecoveryEntryWindowMetrics,
  OauthClientReportWindowMetrics, AdminSensitiveWindowMetrics, FanoutGapSnapshot,
  LogoutDeliveryCurrentSnapshot, LogoutDeliveryWindowMetrics, AlertRuntimeSnapshot,
  QueueDepthSnapshot, KnownQueueSnapshot, max_evidence_value, known_queue_snapshot,
}
use sso_pg72_tw.Alert.Bags.{
  or_zero, missing_flag, count_bag, ratio_bag, restricted_bag, recovery_bag, oauth_bag, admin_bag,
  fanout_5m_bag, fanout_15m_bag, logout_bag, runtime_bag, queue_bag,
}
use sso_pg72_tw.Alert.Parsing.{parse_fanout_snapshot, parse_runtime_snapshot, parse_queue_snapshot}
use sso_pg72_tw.Alert.Metrics.{
  max_ratio_field, parse_count_metrics, parse_ratio_metrics, parse_restricted_metrics,
  parse_recovery_entry_metrics, parse_oauth_metrics, parse_admin_sensitive_metrics,
  parse_logout_current_snapshot, parse_logout_metrics,
}
use sso_pg72_tw.Alert.Proven.{IsStorable}
use sso_pg72_tw.Alert.Ranges
use sso_pg72_tw.Alert.Queue.{known_queue_snapshot-IsFresh}

pub count_bag-IsStorable :
    (w v : CountWindowMetrics) → parse_count_metrics w ≡ ok v → IsStorable (count_bag v)
count_bag-IsStorable w v h = record {
  values_capped = capped;
  flag_capped = omega (arith, Ranges.count_range w v h);
  part_capped = omega (arith, Ranges.count_range w v h);
  whole_capped = omega (arith, Ranges.count_range w v h);
}
  where
    capped : (m : Metric) → or_zero (count_bag v m) ≤ max_evidence_value
    capped Metric.count = omega (arith, Ranges.count_range w v h)
    capped _ = omega arith

pub ratio_bag-IsStorable :
    (w v : RatioWindowMetrics) → parse_ratio_metrics w ≡ ok v → IsStorable (ratio_bag v)
ratio_bag-IsStorable w v h = record {
  values_capped = capped;
  flag_capped = omega (arith, Ranges.ratio_range w v h);
  part_capped = omega (arith, Ranges.ratio_range w v h);
  whole_capped = omega (arith, Ranges.ratio_range w v h);
}
  where
    capped : (m : Metric) → or_zero (ratio_bag v m) ≤ max_evidence_value
    capped Metric.numerator = omega (arith, Ranges.ratio_range w v h)
    capped Metric.denominator = omega (arith, Ranges.ratio_range w v h)
    capped _ = omega arith

pub restricted_bag-IsStorable :
    (w v : RestrictedDenialWindowMetrics)
    → parse_restricted_metrics w ≡ ok v
    → IsStorable (restricted_bag v)
restricted_bag-IsStorable w v h = record {
  values_capped = capped;
  flag_capped = omega (arith, Ranges.restricted_range w v h);
  part_capped = omega (arith, Ranges.restricted_range w v h);
  whole_capped = omega (arith, Ranges.restricted_range w v h);
}
  where
    capped : (m : Metric) → or_zero (restricted_bag v m) ≤ max_evidence_value
    capped Metric.count = omega (arith, Ranges.restricted_range w v h)
    capped Metric.known_surfaces = omega (arith, Ranges.restricted_range w v h)
    capped _ = omega arith

pub recovery_bag-IsStorable :
    (w v : RecoveryEntryWindowMetrics)
    → parse_recovery_entry_metrics w ≡ ok v
    → IsStorable (recovery_bag v)
recovery_bag-IsStorable w v h = record {
  values_capped = capped;
  flag_capped = omega (arith, Ranges.recovery_range w v h);
  part_capped = omega (arith, Ranges.recovery_range w v h);
  whole_capped = omega (arith, Ranges.recovery_range w v h);
}
  where
    capped : (m : Metric) → or_zero (recovery_bag v m) ≤ max_evidence_value
    capped Metric.numerator = omega (arith, Ranges.recovery_range w v h)
    capped Metric.denominator = omega (arith, Ranges.recovery_range w v h)
    capped Metric.rate_limited = omega (arith, Ranges.recovery_range w v h)
    capped _ = omega arith

pub oauth_bag-IsStorable :
    (w v : OauthClientReportWindowMetrics) → parse_oauth_metrics w ≡ ok v → IsStorable (oauth_bag v)
oauth_bag-IsStorable w v h = record {
  values_capped = capped;
  flag_capped = omega (arith, Ranges.oauth_range w v h);
  part_capped = omega (arith, Ranges.oauth_range w v h);
  whole_capped = omega (arith, Ranges.oauth_range w v h);
}
  where
    capped : (m : Metric) → or_zero (oauth_bag v m) ≤ max_evidence_value
    capped Metric.count = omega (arith, Ranges.oauth_range w v h)
    capped Metric.distinct_reporters = omega (arith, Ranges.oauth_range w v h)
    capped Metric.high_risk_count = omega (arith, Ranges.oauth_range w v h)
    capped _ = omega arith

pub admin_bag-IsStorable :
    (w v : AdminSensitiveWindowMetrics)
    → parse_admin_sensitive_metrics w ≡ ok v
    → IsStorable (admin_bag v)
admin_bag-IsStorable w v h = record {
  values_capped = capped;
  flag_capped = omega (arith, Ranges.admin_range w v h);
  part_capped = omega (arith, Ranges.admin_range w v h);
  whole_capped = omega (arith, Ranges.admin_range w v h);
}
  where
    capped : (m : Metric) → or_zero (admin_bag v m) ≤ max_evidence_value
    capped Metric.count = omega (arith, Ranges.admin_range w v h)
    capped Metric.protected_denials = omega (arith, Ranges.admin_range w v h)
    capped Metric.successes = omega (arith, Ranges.admin_range w v h)
    capped _ = omega arith

pub fanout_5m_bag-IsStorable :
    (w v : FanoutGapSnapshot) → parse_fanout_snapshot w ≡ ok v → IsStorable (fanout_5m_bag v)
fanout_5m_bag-IsStorable w v h = record {
  values_capped = capped;
  flag_capped = omega (arith, Ranges.fanout_range w v h);
  part_capped = omega (arith, Ranges.fanout_range w v h);
  whole_capped = omega (arith, Ranges.fanout_range w v h);
}
  where
    capped : (m : Metric) → or_zero (fanout_5m_bag v m) ≤ max_evidence_value
    capped Metric.missing_older_than_5m_count = omega (arith, Ranges.fanout_range w v h)
    capped _ = omega arith

pub fanout_15m_bag-IsStorable :
    (w v : FanoutGapSnapshot) → parse_fanout_snapshot w ≡ ok v → IsStorable (fanout_15m_bag v)
fanout_15m_bag-IsStorable w v h = record {
  values_capped = capped;
  flag_capped = omega (arith, Ranges.fanout_range w v h);
  part_capped = omega (arith, Ranges.fanout_range w v h);
  whole_capped = omega (arith, Ranges.fanout_range w v h);
}
  where
    capped : (m : Metric) → or_zero (fanout_15m_bag v m) ≤ max_evidence_value
    capped Metric.missing_older_than_15m_count = omega (arith, Ranges.fanout_range w v h)
    capped _ = omega arith

pub logout_bag-IsStorable :
    (c d : LogoutDeliveryCurrentSnapshot) (w v : LogoutDeliveryWindowMetrics)
    → parse_logout_current_snapshot c ≡ ok d
    → parse_logout_metrics w ≡ ok v
    → IsStorable (logout_bag d v)
logout_bag-IsStorable c d w v g h = record {
  values_capped = capped;
  flag_capped = omega arith;
  part_capped = omega (arith, Ranges.logout_range w v h);
  whole_capped = omega (arith, Ranges.logout_range w v h);
}
  where
    capped : (m : Metric) → or_zero (logout_bag d v m) ≤ max_evidence_value
    capped Metric.dead = omega (arith, Ranges.current_range c d g)
    capped Metric.oldest_unresolved_age_seconds = omega (arith, Ranges.current_range c d g)
    capped Metric.denominator = omega (arith, Ranges.logout_range w v h)
    capped Metric.lease_expired = omega (arith, Ranges.logout_range w v h)
    capped Metric.numerator = omega (arith, Ranges.logout_range w v h)
    capped _ = omega arith

missing_flag_capped : (x : Option ℕ) → missing_flag x ≤ 1
missing_flag_capped none = omega arith
missing_flag_capped (some n) = omega arith

pub runtime_bag-IsStorable :
    (w v : AlertRuntimeSnapshot) → parse_runtime_snapshot w ≡ ok v → IsStorable (runtime_bag v)
runtime_bag-IsStorable w v h = record {
  values_capped = capped;
  flag_capped = missing_flag_capped v.evaluator_age_seconds;
  part_capped = omega arith;
  whole_capped = omega arith;
}
  where
    capped : (m : Metric) → or_zero (runtime_bag v m) ≤ max_evidence_value
    capped Metric.dead_outbox = omega (arith, Ranges.runtime_range w v h)
    capped Metric.evaluator_age_seconds = omega (arith, Ranges.runtime_range w v h)
    capped Metric.evaluator_missing = omega (arith, missing_flag_capped v.evaluator_age_seconds)
    capped Metric.outbox_due_age_seconds = omega (arith, Ranges.runtime_range w v h)
    capped _ = omega arith

pub queue_bag-IsStorable :
    (s v : QueueDepthSnapshot) (as_of : ℕ) (q : KnownQueueSnapshot)
    → parse_queue_snapshot s ≡ ok v
    → known_queue_snapshot v as_of ≡ some q
    → IsStorable (queue_bag q)
queue_bag-IsStorable s v as_of q h k = record {
  values_capped = capped;
  flag_capped = omega arith;
  part_capped = omega arith;
  whole_capped = omega arith;
}
  where
    depth_capped : q.depth ≤ max_evidence_value
    depth_capped =
        rw (known_queue_snapshot-IsFresh v as_of q k).depth_kept at (Ranges.queue_range s v h).0

    streak_capped : q.consecutive_nonzero_samples ≤ max_evidence_value
    streak_capped =
        let (n, e, low) = (known_queue_snapshot-IsFresh v as_of q k).streak_sampled in
        let cap : n ≤ max_ratio_field = rw e at (Ranges.queue_range s v h).1 in omega arith

    capped : (m : Metric) → or_zero (queue_bag q m) ≤ max_evidence_value
    capped Metric.depth = depth_capped
    capped Metric.consecutive_nonzero_samples = streak_capped
    capped _ = omega arith
