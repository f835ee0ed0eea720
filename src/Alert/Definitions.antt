-- ===== src/Alert/Definitions.antt =====
-- `ALERT_RULE_DEFINITIONS` of apps/sso/worker/alert-rules.ts: what each rule looks at, how it is
-- resolved and its thresholds in each window. The source descriptors, which name tables and
-- columns for the repositories, are not modelled.
use sso_pg72_tw.Common.{◌*◌, Option, none, some, List, [], ◌∷◌}
use sso_pg72_tw.Alert.Types.{
  AlertRuleId, AlertSeverity, AlertWindowKey, Metric, Threshold, Clauses, gte, ratio_gte, all_of,
  any_of, nil, clause, Windowed, at_window,
}
use AlertRuleId.{
  registration_rate_limited, registration_denied, registration_challenge_unavailable,
  registration_restricted_created, restricted_sensitive_denied, recovery_entry_abuse,
  recovery_passkey_failure, passkey_step_up_failure, oauth_client_report, admin_sensitive_activity,
  admin_directory_volume, security_fanout_gap, logout_delivery_health, alert_runtime_health,
  queue_dlq_approximate,
}

-- `AlertDimension["kind"]`
pub data DimensionKind : Type 0 where
  global subject_hmac actor_hmac client_hmac queue : DimensionKind

pub data AlertResolutionMode : Type 0 where
  automatic manual : AlertResolutionMode

pub data AlertSourceKind : Type 0 where
  d1_exact queue_approximate : AlertSourceKind

-- `WindowThresholdDefinition`
pub record WindowThreshold : Type 0 where
  pub critical : Option Threshold
  pub warning : Option Threshold

pub record AlertRuleDefinition : Type 0 where
  pub dimensions : List DimensionKind
  pub resolution_mode : AlertResolutionMode
  pub source_kind : AlertSourceKind
  pub thresholds : Windowed WindowThreshold

abbrev no_threshold : WindowThreshold
no_threshold = record { critical = none; warning = none }

abbrev warn_only : Threshold → WindowThreshold
warn_only t = record { critical = none; warning = some t }

abbrev crit_only : Threshold → WindowThreshold
crit_only t = record { critical = some t; warning = none }

abbrev both_levels : Threshold → Threshold → WindowThreshold
both_levels c w = record { critical = some c; warning = some w }

abbrev two : Threshold → Threshold → Clauses
two a b = clause a (clause b nil)

abbrev three : Threshold → Threshold → Threshold → Clauses
three a b c = clause a (two b c)

abbrev four : Threshold → Threshold → Threshold → Threshold → Clauses
four a b c d = clause a (three b c d)

-- An automatic rule over D1 rows.
abbrev d1_rule :
    List DimensionKind → WindowThreshold → WindowThreshold → WindowThreshold → AlertRuleDefinition
d1_rule kinds t5 t15 t60 = record {
  dimensions = kinds;
  resolution_mode = automatic;
  source_kind = d1_exact;
  thresholds = record { m5 = t5; m15 = t15; m60 = t60 };
}

abbrev pub registration_rate_limited_definition : AlertRuleDefinition
registration_rate_limited_definition =
    d1_rule (global ∷ []) (warn_only (gte Metric.count 5)) (warn_only (gte Metric.count 10))
      (crit_only (gte Metric.count 40))

abbrev pub registration_denied_definition : AlertRuleDefinition
registration_denied_definition =
    d1_rule (global ∷ []) (warn_only (gte Metric.count 10)) (warn_only (gte Metric.count 25))
      (crit_only (gte Metric.count 100))

abbrev pub registration_challenge_unavailable_definition : AlertRuleDefinition
registration_challenge_unavailable_definition =
    d1_rule (global ∷ []) (warn_only (ratio_gte 5 2 2000)) (warn_only (ratio_gte 15 2 2000))
      (crit_only (ratio_gte 30 5 5000))

abbrev pub registration_restricted_created_definition : AlertRuleDefinition
registration_restricted_created_definition =
    d1_rule (global ∷ []) (warn_only (gte Metric.count 7)) (warn_only (gte Metric.count 20))
      (crit_only (gte Metric.count 80))

abbrev pub restricted_sensitive_denied_definition : AlertRuleDefinition
restricted_sensitive_denied_definition =
    d1_rule (subject_hmac ∷ []) (warn_only (gte Metric.count 3)) (warn_only (gte Metric.count 5)) (
      crit_only (
        any_of (
          two (gte Metric.count 20)
            (all_of (two (gte Metric.count 5) (gte Metric.known_surfaces 2))))))

abbrev pub recovery_entry_abuse_definition : AlertRuleDefinition
recovery_entry_abuse_definition =
    d1_rule (global ∷ [])
      (warn_only (any_of (two (gte Metric.rate_limited 5) (ratio_gte 5 5 8000))))
      (warn_only (any_of (two (gte Metric.rate_limited 10) (ratio_gte 15 10 8000))))
      (crit_only (any_of (two (gte Metric.rate_limited 40) (ratio_gte 30 40 9000))))

abbrev pub recovery_passkey_failure_definition : AlertRuleDefinition
recovery_passkey_failure_definition =
    d1_rule (global ∷ subject_hmac ∷ []) (warn_only (ratio_gte 3 3 6000))
      (warn_only (ratio_gte 5 5 6000)) (crit_only (ratio_gte 10 10 8000))

abbrev pub passkey_step_up_failure_definition : AlertRuleDefinition
passkey_step_up_failure_definition =
    d1_rule (global ∷ subject_hmac ∷ []) (warn_only (ratio_gte 5 3 3000))
      (warn_only (ratio_gte 15 5 3000)) (crit_only (ratio_gte 30 10 6000))

abbrev pub oauth_client_report_definition : AlertRuleDefinition
oauth_client_report_definition =
    d1_rule (client_hmac ∷ []) (warn_only (gte Metric.high_risk_count 1))
      (warn_only (gte Metric.count 3))
      (crit_only (
        any_of (
          two (all_of (two (gte Metric.high_risk_count 3) (gte Metric.distinct_reporters 2)))
            (gte Metric.count 10))))

abbrev pub admin_sensitive_activity_definition : AlertRuleDefinition
admin_sensitive_activity_definition =
    d1_rule (actor_hmac ∷ [])
      (warn_only (any_of (two (gte Metric.successes 1) (gte Metric.protected_denials 1))))
      (crit_only (gte Metric.count 3)) (crit_only (gte Metric.count 10))

abbrev pub admin_directory_volume_definition : AlertRuleDefinition
admin_directory_volume_definition =
    d1_rule (actor_hmac ∷ []) (warn_only (gte Metric.count 20)) (warn_only (gte Metric.count 50))
      (crit_only (gte Metric.count 200))

abbrev pub security_fanout_gap_definition : AlertRuleDefinition
security_fanout_gap_definition = record {
  dimensions = global ∷ [];
  resolution_mode = manual;
  source_kind = d1_exact;
  thresholds = record {
    m5 = warn_only (gte Metric.missing_older_than_5m_count 1);
    m15 = crit_only (gte Metric.missing_older_than_15m_count 1);
    m60 = crit_only (gte Metric.missing_older_than_5m_count 10);
  };
}

abbrev pub logout_delivery_health_definition : AlertRuleDefinition
logout_delivery_health_definition =
    d1_rule (global ∷ client_hmac ∷ [])
      (both_levels (any_of (two (gte Metric.dead 1) (ratio_gte 5 1 5000))) (
        any_of (
          three (gte Metric.oldest_unresolved_age_seconds (2 * 60)) (gte Metric.lease_expired 1)
            (ratio_gte 5 1 2000))))
      (both_levels
        (any_of (
          four (gte Metric.dead 1) (gte Metric.oldest_unresolved_age_seconds (5 * 60))
            (gte Metric.lease_expired 3) (ratio_gte 10 1 5000)))
        (ratio_gte 10 1 2000))
      (both_levels
        (any_of (three (gte Metric.dead 1) (gte Metric.lease_expired 5) (ratio_gte 20 1 5000)))
        (ratio_gte 20 1 2000))

abbrev pub alert_runtime_health_definition : AlertRuleDefinition
alert_runtime_health_definition =
    d1_rule (global ∷ [])
      (warn_only (
        any_of
          (two (gte Metric.evaluator_age_seconds 181) (gte Metric.outbox_due_age_seconds 121))))
      (crit_only (
        any_of (
          three (gte Metric.evaluator_missing 1) (gte Metric.evaluator_age_seconds 301)
            (gte Metric.outbox_due_age_seconds 301))))
      (crit_only (gte Metric.dead_outbox 1))

abbrev pub queue_dlq_approximate_definition : AlertRuleDefinition
queue_dlq_approximate_definition = record {
  dimensions = queue ∷ [];
  resolution_mode = automatic;
  source_kind = queue_approximate;
  thresholds = record {
    m5 = warn_only (gte Metric.depth 1);
    m15 =
        crit_only (any_of (two (gte Metric.depth 10) (gte Metric.consecutive_nonzero_samples 15)));
    m60 = no_threshold;
  };
}

-- `definitionForAlertRule`
abbrev pub definition_for_alert_rule : AlertRuleId → AlertRuleDefinition
definition_for_alert_rule registration_rate_limited = registration_rate_limited_definition
definition_for_alert_rule registration_denied = registration_denied_definition
definition_for_alert_rule registration_challenge_unavailable =
    registration_challenge_unavailable_definition
definition_for_alert_rule registration_restricted_created =
    registration_restricted_created_definition
definition_for_alert_rule restricted_sensitive_denied = restricted_sensitive_denied_definition
definition_for_alert_rule recovery_entry_abuse = recovery_entry_abuse_definition
definition_for_alert_rule recovery_passkey_failure = recovery_passkey_failure_definition
definition_for_alert_rule passkey_step_up_failure = passkey_step_up_failure_definition
definition_for_alert_rule oauth_client_report = oauth_client_report_definition
definition_for_alert_rule admin_sensitive_activity = admin_sensitive_activity_definition
definition_for_alert_rule admin_directory_volume = admin_directory_volume_definition
definition_for_alert_rule security_fanout_gap = security_fanout_gap_definition
definition_for_alert_rule logout_delivery_health = logout_delivery_health_definition
definition_for_alert_rule alert_runtime_health = alert_runtime_health_definition
definition_for_alert_rule queue_dlq_approximate = queue_dlq_approximate_definition

-- `definition.thresholds[window][severity]`, for the two severities that have thresholds.
abbrev pub threshold_at : AlertRuleDefinition → AlertWindowKey → AlertSeverity → Option Threshold
threshold_at d w AlertSeverity.critical = (at_window d.thresholds w).critical
threshold_at d w AlertSeverity.warning = (at_window d.thresholds w).warning
threshold_at d w AlertSeverity.no_alert = none
