-- ===== src/Alert/Types.antt =====
-- The vocabulary of apps/sso/worker/alert-rules.ts: rules, windows, metrics, threshold
-- expressions and evidence.
use sso_pg72_tw.Common.{ℕ, Option, List, [], ◌∷◌}

pub data AlertRuleId : Type 0 where
  registration_rate_limited registration_denied registration_challenge_unavailable : AlertRuleId
  registration_restricted_created restricted_sensitive_denied recovery_entry_abuse : AlertRuleId
  recovery_passkey_failure passkey_step_up_failure oauth_client_report : AlertRuleId
  admin_sensitive_activity admin_directory_volume security_fanout_gap : AlertRuleId
  logout_delivery_health alert_runtime_health queue_dlq_approximate : AlertRuleId

pub data AlertSeverity : Type 0 where
  no_alert warning critical : AlertSeverity

pub data AlertEvidenceStatus : Type 0 where
  known unknown : AlertEvidenceStatus

pub data AlertWindowKey : Type 0 where
  w5m w15m w60m : AlertWindowKey

abbrev pub alert_window_keys : List AlertWindowKey
alert_window_keys = w5m ∷ w15m ∷ w60m ∷ []

abbrev pub alert_window_seconds : AlertWindowKey → ℕ
alert_window_seconds w5m = 300
alert_window_seconds w15m = 900
alert_window_seconds w60m = 3600

-- `Readonly<Record<AlertWindowKey, T>>`
pub record Windowed (T : Type 0) : Type 0 where
  pub m5 : T
  pub m15 : T
  pub m60 : T

abbrev pub at_window : {T : Type 0} → Windowed T → AlertWindowKey → T
at_window ws w5m = ws.m5
at_window ws w15m = ws.m15
at_window ws w60m = ws.m60

-- `InternalMetricName`
pub data Metric : Type 0 where
  consecutive_nonzero_samples count dead dead_outbox denominator depth distinct_reporters : Metric
  evaluator_age_seconds evaluator_missing high_risk_count known_surfaces lease_expired : Metric
  missing_older_than_15m_count missing_older_than_5m_count numerator : Metric
  oldest_unresolved_age_seconds outbox_due_age_seconds protected_denials rate_limited : Metric
  successes : Metric

-- `AlertMetricName`, the names under which evidence is kept.
pub data AlertMetricName : Type 0 where
  consecutive_nonzero_samples count dead dead_outbox depth distinct_reporters : AlertMetricName
  evaluator_age_seconds evaluator_missing high_risk_count known_surfaces : AlertMetricName
  lease_expired missing oldest_unresolved_age_seconds outbox_due_age_seconds : AlertMetricName
  protected_denials rate_limited ratio successes : AlertMetricName

pub data EvidenceKind : Type 0 where
  age_seconds boolean consecutive count ratio : EvidenceKind

pub data EvidenceUnit : Type 0 where
  basis_points events samples seconds state : EvidenceUnit

-- `ThresholdExpression`; a list of clauses is a type of the same block.
mutual
  pub data Threshold : Type 0 where
    gte : Metric → ℕ → Threshold
    ratio_gte : (min_denominator min_numerator basis_points : ℕ) → Threshold
    all_of any_of : Clauses → Threshold

  pub data Clauses : Type 0 where
    nil : Clauses
    clause : Threshold → Clauses → Clauses

pub record AlertMetricEvidence : Type 0 where
  pub kind : EvidenceKind
  pub metric_name : AlertMetricName
  pub minimum_numerator_count : Option ℕ
  pub minimum_sample_count : ℕ
  pub observed_denominator : Option ℕ
  pub observed_numerator : Option ℕ
  pub observed_value : ℕ
  pub threshold : ℕ
  pub unit : EvidenceUnit

-- The evidence of an alert: the primary component, with the secondary one behind it.
pub record AlertSelectedEvidence : Type 0 where
  pub primary : AlertMetricEvidence
  pub secondary : Option AlertMetricEvidence
  pub severity : AlertSeverity
  pub window_seconds : ℕ

-- `MetricBag`: an absent field is an unknown metric.
abbrev pub MetricBag : Type 0
MetricBag = Metric → Option ℕ
