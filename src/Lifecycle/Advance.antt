-- ===== src/Lifecycle/Advance.antt =====
-- `advanceAlertLifecycle` of apps/sso/worker/alert-evaluator.ts, stage by stage. The time of the step
-- is compared with that of the observation.
use sso_pg72_tw.Common.{
  ℕ, ◌+◌, ◌-◌, ◌&&◌, Bool, true, false, not, Option, none, some, leb, ltb, ◌==◌, if◌then◌else◌,
  Result, ok,
}
use sso_pg72_tw.Common.Results.{◌>>=◌, unless}
use sso_pg72_tw.Alert.Types.{
  AlertSeverity, no_alert, warning, critical, known, unknown, AlertSelectedEvidence,
}
use sso_pg72_tw.Alert.Definitions.{automatic, manual, definition_for_alert_rule}
use sso_pg72_tw.Alert.Observation.{AlertRuleObservation}
use sso_pg72_tw.Alert.Evaluate.{AlertRuleEvaluation}
use sso_pg72_tw.Alert.Metrics.{is_null}
use sso_pg72_tw.Alert.Parsing.{evaluate_alert_rule}
use sso_pg72_tw.Alert.Evidence.{is_no_alert}
use sso_pg72_tw.Lifecycle.{
  AlertLifecyclePhase, active, inactive, pending, AlertLifecycleIdentity, AlertLifecycleState,
  inactive_alert_state, clear_consecutive, cooldown_ms, critical_consecutive, warning_consecutive,
}
use sso_pg72_tw.Lifecycle.Checks.{same_severity, is_level, parse_state}
use sso_pg72_tw.Lifecycle.Intents.{
  identity_for, is_same_identity, intent_of, selected_evidence_for, stable_active_result,
  AlertLifecycleResult, open_alert, escalate, resolve,
}

unfoldable pub start_or_continue_breach : AlertLifecycleState → AlertSeverity → ℕ
start_or_continue_breach s candidate =
    if is_level s.breach_severity candidate then s.consecutive_breaches + 1 else 1

-- `state.status === "none" ? …`
abbrev pub phase_unless_none : AlertSeverity → AlertLifecyclePhase → AlertLifecyclePhase
phase_unless_none no_alert p = p
phase_unless_none _ p = active

-- The step on unknown evidence.
unfoldable pub advance_unknown : AlertLifecycleState → AlertLifecycleResult
advance_unknown s = record {
  intent = none;
  state = record s {
    breach_evidence = none;
    breach_severity = none;
    consecutive_breaches = 0;
    consecutive_clears = 0;
    phase = phase_unless_none s.status inactive;
  };
}

-- `{...inactiveAlertState(), …}`, with what is kept.
unfoldable pub rest_state : AlertLifecycleState → ℕ → Option ℕ → AlertLifecycleState
unfolding inactive_alert_state
rest_state s as_of cooldown = record inactive_alert_state {
  cooldown_until = cooldown;
  identity = s.identity;
  last_evaluated_at = some as_of;
}

-- The step on a clear evaluation of a rule that resolves by itself.
unfoldable pub advance_clearing :
    AlertRuleEvaluation → AlertLifecycleState → ℕ → Result AlertLifecycleResult
unfolding rest_state intent_of
advance_clearing r s as_of =
    let clears = s.consecutive_clears + 1 in
    if ltb clears clear_consecutive
    then ok (record {
      intent = none;
      state = record s {
        breach_evidence = none;
        breach_severity = none;
        consecutive_breaches = 0;
        consecutive_clears = clears;
      };
    })
    else ok (record {
      intent = intent_of r as_of (resolve s.status);
      state = rest_state s as_of (some (as_of + cooldown_ms));
    })

unfoldable pub advance_clear :
    AlertRuleEvaluation → AlertLifecycleState → ℕ → Result AlertLifecycleResult
unfolding rest_state stable_active_result advance_clearing
advance_clear r s as_of =
    if is_no_alert s.status
    then ok (record { intent = none; state = rest_state s as_of s.cooldown_until })
    else elim (definition_for_alert_rule r.rule).resolution_mode [
      | manual ↦ stable_active_result r s as_of false
      | automatic ↦ advance_clearing r s as_of
    ]

-- The breaches in a row that confirm an alert.
unfoldable pub required_breaches : AlertRuleEvaluation → AlertSeverity → ℕ
required_breaches r candidate =
    if r.immediate_critical
    then 1
    else if same_severity candidate critical
    then critical_consecutive
    else warning_consecutive

unfoldable pub pending_state :
    AlertLifecycleState → AlertSeverity → AlertSelectedEvidence → ℕ → AlertLifecycleState
pending_state s candidate evidence breaches = record s {
  breach_evidence = some evidence;
  breach_severity = some candidate;
  consecutive_breaches = breaches;
  consecutive_clears = 0;
  phase = phase_unless_none s.status pending;
}

-- A confirmed breach: of a warning that turns critical, or of an alert that opens. `stay` is the
-- state with the breach pending.
unfoldable pub advance_confirmed :
    AlertRuleEvaluation
    → AlertLifecycleState
    → ℕ
    → AlertSeverity
    → AlertSelectedEvidence
    → AlertLifecycleState
    → Result AlertLifecycleResult
unfolding required_breaches stable_active_result intent_of
advance_confirmed r s as_of candidate evidence stay =
    if same_severity s.status warning && same_severity candidate critical
    then ok (record {
      intent = intent_of r as_of (escalate evidence);
      state = record stay {
        active_evidence = some evidence;
        breach_evidence = none;
        breach_severity = none;
        consecutive_breaches = 0;
        last_notification_at = some as_of;
        phase = active;
        status = critical;
      };
    })
    else if is_no_alert s.status
    then if not (is_null s.cooldown_until) && same_severity candidate warning
      then ok (record {
        intent = none;
        state = record stay { consecutive_breaches = required_breaches r candidate - 1 };
      })
      else ok (record {
        intent = intent_of r as_of (open_alert evidence candidate);
        state = record stay {
          active_evidence = some evidence;
          breach_evidence = none;
          breach_severity = none;
          consecutive_breaches = 0;
          cooldown_until = none;
          last_notification_at = some as_of;
          opened_at = some as_of;
          phase = active;
          status = candidate;
        };
      })
    else stable_active_result r s as_of false

-- A breach that the state does not carry yet.
unfoldable pub advance_breach :
    AlertRuleEvaluation → AlertLifecycleState → ℕ → AlertSeverity → Result AlertLifecycleResult
unfolding selected_evidence_for start_or_continue_breach required_breaches pending_state
    advance_confirmed
advance_breach r s as_of candidate = selected_evidence_for r >>= λ evidence.
    let breaches = start_or_continue_breach s candidate in
    let stay = pending_state s candidate evidence breaches in
    if ltb breaches (required_breaches r candidate)
    then ok (record { intent = none; state = stay })
    else advance_confirmed r s as_of candidate evidence stay

-- The step on an alerting evaluation.
unfoldable pub advance_alerting :
    AlertRuleEvaluation → AlertLifecycleState → ℕ → AlertSeverity → Result AlertLifecycleResult
unfolding stable_active_result advance_breach
advance_alerting r s as_of candidate =
    if same_severity s.status critical
    then stable_active_result r s as_of (same_severity candidate critical)
    else if same_severity s.status warning && same_severity candidate warning
    then stable_active_result r s as_of true
    else advance_breach r s as_of candidate

unfoldable pub advance_known :
    AlertSeverity → AlertRuleEvaluation → AlertLifecycleState → ℕ → Result AlertLifecycleResult
unfolding advance_clear advance_alerting
advance_known no_alert r s as_of = advance_clear r s as_of
advance_known candidate r s as_of = advance_alerting r s as_of candidate

-- A cooldown that is over is dropped.
abbrev pub live_cooldown : Option ℕ → ℕ → Option ℕ
live_cooldown none as_of = none
live_cooldown (some until) as_of = if leb until as_of then none else some until

-- The step of a state with its identity and watermark.
unfoldable pub advance_bound :
    AlertRuleEvaluation
    → AlertLifecycleState
    → ℕ
    → AlertLifecycleIdentity
    → Result AlertLifecycleResult
unfolding advance_unknown advance_known
advance_bound r previous as_of identity =
    let s : AlertLifecycleState = record previous {
      cooldown_until = live_cooldown previous.cooldown_until as_of;
      identity = some identity;
      last_evaluated_at = some as_of;
    } in
    elim r.evidence [
      | unknown ↦ ok (advance_unknown s)
      | known ↦ advance_known r.severity r s as_of
    ]

-- Nothing is bound by an evaluation that does not alert.
abbrev pub is_quiet : AlertRuleEvaluation → Bool
is_quiet r = elim r.evidence [ unknown ↦ true | known ↦ is_no_alert r.severity ]

-- `previous.lastEvaluatedAt === null || previous.lastEvaluatedAt >= asOf`
abbrev pub is_stale : Option ℕ → ℕ → Bool
is_stale none as_of = true
is_stale (some seen) as_of = leb as_of seen

unfoldable pub advance_from :
    AlertRuleEvaluation → AlertLifecycleState → ℕ → Result AlertLifecycleResult
unfolding identity_for is_same_identity advance_bound
advance_from r previous as_of = elim previous.identity [
  | none ↦
      if is_quiet r
      then ok (record { intent = none; state = previous })
      else advance_bound r previous as_of (identity_for r)
  | some i ↦
      unless (not (is_same_identity i (identity_for r)))
        "alert lifecycle identity does not match the observation"
        (unless (is_stale previous.last_evaluated_at as_of)
          "alert lifecycle evaluations must be strictly increasing"
          (advance_bound r previous as_of i))
]

unfoldable pub advance_alert_lifecycle :
    ℕ → AlertRuleObservation → AlertLifecycleState → Result AlertLifecycleResult
unfolding evaluate_alert_rule parse_state advance_from
advance_alert_lifecycle as_of observation previous = evaluate_alert_rule observation >>= λ r.
    unless (not (r.as_of == as_of)) "lifecycle asOf must exactly match observation.asOf"
      (parse_state previous as_of >>= λ s. advance_from r s as_of)
