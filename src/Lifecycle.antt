-- ===== src/Lifecycle.antt =====
-- The lifecycle of an alert: the stored state of apps/sso/worker/alert-evaluator.ts and its policy.
pub mod Checks
pub mod Intents
pub mod Advance
pub mod Alarm
pub mod Checked
pub mod Shapes
pub mod Accepts
pub mod Stable
pub mod Breach
pub mod Steps
pub mod Evolution
pub mod Actions
pub mod Accounts
pub mod Announced
pub mod History
pub mod Resolving
pub mod Opening
mod Examples
use Prim.Native.String.{◌++◌}
use text.Mathlib.Text.{◌==◌ as ◌=text◌}
use sso_pg72_tw.Common.{
  ℕ, ◌+◌, ◌&&◌, ◌||◌, String, Bool, true, false, not, Option, none, some, leb, ltb, ◌==◌, Result,
  ok, throw,
}
use sso_pg72_tw.Common.Results.{◌>>=◌, unless}
use sso_pg72_tw.Alert.Types.{
  AlertRuleId, AlertSeverity, no_alert, warning, critical, AlertSelectedEvidence,
}
use sso_pg72_tw.Alert.Definitions.{definition_for_alert_rule}
use sso_pg72_tw.Alert.Observation.{AlertDimension, AlertQueueName}
use sso_pg72_tw.Alert.Parsing.{parse_alert_dimension}
use sso_pg72_tw.Alert.Metrics.{is_null, differ}
use sso_pg72_tw.Alert.Evidence.{is_no_alert}
use sso_pg72_tw.Alert.Contracts.{parse_alert_selected_evidence_for_rule}

pub data AlertLifecyclePhase : Type 0 where
  active inactive pending : AlertLifecyclePhase

pub record AlertLifecycleIdentity : Type 0 where
  pub dimension : AlertDimension
  pub rule : AlertRuleId

-- Timestamps are numbers of milliseconds.
pub record AlertLifecycleState : Type 0 where
  pub active_evidence : Option AlertSelectedEvidence
  pub breach_evidence : Option AlertSelectedEvidence
  pub breach_severity : Option AlertSeverity
  pub consecutive_breaches : ℕ
  pub consecutive_clears : ℕ
  pub cooldown_until : Option ℕ
  pub identity : Option AlertLifecycleIdentity
  pub last_evaluated_at : Option ℕ
  pub last_notification_at : Option ℕ
  pub opened_at : Option ℕ
  pub phase : AlertLifecyclePhase
  pub status : AlertSeverity

unfoldable pub inactive_alert_state : AlertLifecycleState
inactive_alert_state = record {
  active_evidence = none;
  breach_evidence = none;
  breach_severity = none;
  consecutive_breaches = 0;
  consecutive_clears = 0;
  cooldown_until = none;
  identity = none;
  last_evaluated_at = none;
  last_notification_at = none;
  opened_at = none;
  phase = inactive;
  status = no_alert;
}

-- `ALERT_RULE_POLICY`
abbrev pub clear_consecutive : ℕ
clear_consecutive = 5

abbrev pub cooldown_ms : ℕ
cooldown_ms = 1800000

abbrev pub critical_consecutive : ℕ
critical_consecutive = 2

abbrev pub critical_reminder_ms : ℕ
critical_reminder_ms = 900000

abbrev pub warning_consecutive : ℕ
warning_consecutive = 2

abbrev pub warning_reminder_ms : ℕ
warning_reminder_ms = 3600000
