-- ===== src/Lifecycle/Intents.antt =====
-- The intents of an alert in apps/sso/worker/alert-evaluator.ts, with the identity of an evaluation
-- and `stableActiveResult`. The difference of two times is compared as a sum.
use text.Mathlib.Text.{◌==◌ as ◌=text◌}
use sso_pg72_tw.Common.{
  ℕ, ◌+◌, ◌&&◌, Bool, true, false, not, Option, none, some, leb, ◌==◌, if◌then◌else◌, Result, ok,
  throw,
}
use sso_pg72_tw.Common.Results.{◌>>=◌, unless}
use sso_pg72_tw.Alert.Types.{AlertRuleId, AlertSeverity, critical, AlertSelectedEvidence}
use sso_pg72_tw.Alert.Observation.{AlertDimension, AlertQueueName}
use sso_pg72_tw.Alert.Evaluate.{AlertRuleEvaluation}
use sso_pg72_tw.Alert.Evidence.{is_no_alert}
use sso_pg72_tw.Lifecycle.{
  active, AlertLifecycleIdentity, AlertLifecycleState, critical_reminder_ms, warning_reminder_ms,
}
use sso_pg72_tw.Lifecycle.Checks.{same_severity}

-- `AlertActionIntent`; every intent has the time and the identity of its evaluation.
pub data AlertAction : Type 0 where
  open_alert : AlertSelectedEvidence → AlertSeverity → AlertAction
  escalate : AlertSelectedEvidence → AlertAction
  remind : AlertSelectedEvidence → AlertSeverity → AlertAction
  resolve : (from : AlertSeverity) → AlertAction

pub record AlertActionIntent : Type 0 where
  pub at_time : ℕ
  pub dimension : AlertDimension
  pub rule : AlertRuleId
  pub action : AlertAction

pub record AlertLifecycleResult : Type 0 where
  pub intent : Option AlertActionIntent
  pub state : AlertLifecycleState

abbrev pub queue_index : AlertQueueName → ℕ
queue_index AlertQueueName.security_events_dlq = 0
queue_index AlertQueueName.logout_deliveries_dlq = 1
queue_index AlertQueueName.alert_deliveries_dlq = 2
queue_index AlertQueueName.audit_archive_dlq = 3

-- `sameDimension`; a key version is always 1.
abbrev pub same_dimension : AlertDimension → AlertDimension → Bool
same_dimension AlertDimension.global AlertDimension.global = true
same_dimension (AlertDimension.queue p) (AlertDimension.queue q) = queue_index p == queue_index q
same_dimension (AlertDimension.subject_hmac a) (AlertDimension.subject_hmac b) = a =text b
same_dimension (AlertDimension.actor_hmac a) (AlertDimension.actor_hmac b) = a =text b
same_dimension (AlertDimension.client_hmac a) (AlertDimension.client_hmac b) = a =text b
same_dimension _ _ = false

abbrev pub rule_index : AlertRuleId → ℕ
rule_index AlertRuleId.registration_rate_limited = 0
rule_index AlertRuleId.registration_denied = 1
rule_index AlertRuleId.registration_challenge_unavailable = 2
rule_index AlertRuleId.registration_restricted_created = 3
rule_index AlertRuleId.restricted_sensitive_denied = 4
rule_index AlertRuleId.recovery_entry_abuse = 5
rule_index AlertRuleId.recovery_passkey_failure = 6
rule_index AlertRuleId.passkey_step_up_failure = 7
rule_index AlertRuleId.oauth_client_report = 8
rule_index AlertRuleId.admin_sensitive_activity = 9
rule_index AlertRuleId.admin_directory_volume = 10
rule_index AlertRuleId.security_fanout_gap = 11
rule_index AlertRuleId.logout_delivery_health = 12
rule_index AlertRuleId.alert_runtime_health = 13
rule_index AlertRuleId.queue_dlq_approximate = 14

unfoldable pub identity_for : AlertRuleEvaluation → AlertLifecycleIdentity
identity_for r = record { dimension = r.dimension; rule = r.rule }

-- The test of `assertSameIdentity`.
unfoldable pub is_same_identity : AlertLifecycleIdentity → AlertLifecycleIdentity → Bool
is_same_identity previous current =
    rule_index previous.rule == rule_index current.rule
    && same_dimension previous.dimension current.dimension

unfoldable pub intent_of : AlertRuleEvaluation → ℕ → AlertAction → Option AlertActionIntent
intent_of r as_of action =
    some (record { at_time = as_of; dimension = r.dimension; rule = r.rule; action = action })

unfoldable pub selected_evidence_for : AlertRuleEvaluation → Result AlertSelectedEvidence
selected_evidence_for r = elim r.selected [
  | none ↦ throw "active alert intent requires selected evidence"
  | some e ↦ ok e
]

abbrev pub reminder_ms : AlertSeverity → ℕ
reminder_ms critical = critical_reminder_ms
reminder_ms _ = warning_reminder_ms

-- `state.lastNotificationAt ?? state.openedAt`
abbrev pub last_notice : Option ℕ → Option ℕ → Option ℕ
last_notice none opened = opened
last_notice (some at_time) opened = some at_time

unfoldable pub reminder_due : AlertLifecycleState → ℕ → Bool
reminder_due s as_of =
    if is_no_alert s.status then false else elim (last_notice s.last_notification_at s.opened_at) [
      | none ↦ true
      | some last ↦ leb (last + reminder_ms s.status) as_of
    ]

-- The end of `stableActiveResult`, for the evidence that is shown from now on.
unfoldable pub stable_with :
    AlertRuleEvaluation
    → AlertLifecycleState
    → ℕ
    → AlertSelectedEvidence
    → Result AlertLifecycleResult
unfolding reminder_due intent_of
stable_with r s as_of evidence =
    let stable : AlertLifecycleState = record s {
      active_evidence = some evidence;
      breach_evidence = none;
      breach_severity = none;
      consecutive_breaches = 0;
      consecutive_clears = 0;
      phase = active;
    } in
    unless (not (same_severity evidence.severity s.status))
      "active evidence must match the incident severity"
      (if reminder_due stable as_of
        then ok (record {
          intent = intent_of r as_of (remind evidence s.status);
          state = record stable { last_notification_at = some as_of };
        })
        else ok (record { intent = none; state = stable }))

unfoldable pub stable_active_result :
    AlertRuleEvaluation → AlertLifecycleState → ℕ → Bool → Result AlertLifecycleResult
unfolding stable_with selected_evidence_for
stable_active_result r s as_of refresh =
    unless (is_no_alert s.status) "stable active result requires an active state"
      (elim s.active_evidence [
        | none ↦ throw "stable active result requires an active state"
        | some shown ↦ (if refresh then selected_evidence_for r else ok shown) >>= λ evidence.
            stable_with r s as_of evidence
      ])
