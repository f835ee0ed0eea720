-- ===== src/Lifecycle/Accounts.antt =====
-- The branches of `advanceAlertLifecycle` in apps/sso/worker/alert-evaluator.ts: what each returns is
-- accounted for.
use sso_pg72_tw.Common.{
  ℕ, ◌≡◌, refl, Bool, true, false, some, arith, subst, sym, ap, ◌∙◌, inl, inr, Bool-cases, ltb, ok,
  not, ◌&&◌, if◌then◌else◌,
}
use sso_pg72_tw.Common.Results.{unless-ok, >>=_ok, ok_injective}
use sso_pg72_tw.Alert.Types.{
  AlertSeverity, no_alert, warning, critical, known, AlertSelectedEvidence,
}
use sso_pg72_tw.Alert.Definitions.{
  AlertResolutionMode, automatic, manual, definition_for_alert_rule,
}
use sso_pg72_tw.Alert.Evaluate.{AlertRuleEvaluation}
use sso_pg72_tw.Alert.Metrics.{is_null}
use sso_pg72_tw.Alert.Evidence.{is_no_alert}
use sso_pg72_tw.Lifecycle.{AlertLifecycleState}
use sso_pg72_tw.Lifecycle.Checks.{same_severity}
use sso_pg72_tw.Lifecycle.Advance.{
  advance_clearing, advance_clear, rest_state, advance_breach, advance_confirmed, pending_state,
  required_breaches, start_or_continue_breach, advance_alerting, advance_known, advance_unknown,
}
use sso_pg72_tw.Lifecycle.Intents.{
  open_alert, escalate, AlertLifecycleResult, reminder_due, stable_with, stable_active_result,
  selected_evidence_for, intent_of,
}
use sso_pg72_tw.Lifecycle.Actions.{
  IsConfirmed, IsAccounted, is_quiet_status, open_allowed, is_same, selected_is, IsConfirmed-by,
  present, announced, silent,
}

module _ (r : AlertRuleEvaluation) (s : AlertLifecycleState) (now : ℕ)
    (x : AlertLifecycleResult) where
  stable_with-IsAccounted :
      (e : AlertSelectedEvidence)
      → is_no_alert s.status ≡ false
      → stable_with r s now e ≡ ok x
      → IsAccounted s.cooldown_until r s now x
  unfolding stable_with reminder_due intent_of
  stable_with-IsAccounted e alert h = ground arith

  clearing-IsAccounted :
      is_no_alert s.status ≡ false
      → r.evidence ≡ known
      → r.severity ≡ no_alert
      → (definition_for_alert_rule r.rule).resolution_mode ≡ automatic
      → advance_clearing r s now ≡ ok x
      → IsAccounted s.cooldown_until r s now x
  unfolding advance_clearing rest_state intent_of
  clearing-IsAccounted a k n m h = ground arith

  stable-IsAccounted :
      (refresh : Bool)
      → stable_active_result r s now refresh ≡ ok x
      → IsAccounted s.cooldown_until r s now x
  unfolding stable_active_result
  stable-IsAccounted refresh h =
      let (alert, rest) = unless-ok (is_no_alert s.status) _ _ h in
      let (shown, here) = present _ s.active_evidence _ rest in
      let (e, found, step) =
        >>=_ok (if refresh then selected_evidence_for r else ok shown) _ here in
      stable_with-IsAccounted e alert step

  confirmed-is :
      (level : AlertSeverity) (e : AlertSelectedEvidence) (breaches : ℕ)
      → same_severity s.status warning && same_severity level critical ≡ false
      → is_no_alert s.status ≡ false
      → advance_confirmed r s now level e (pending_state s level e breaches)
        ≡ stable_active_result r s now false
  unfolding advance_confirmed
  confirmed-is level e breaches a b = rw (a, b)

  confirmed-IsAccounted :
      (level : AlertSeverity) (e : AlertSelectedEvidence) (breaches : ℕ)
      → is_no_alert level ≡ false
      → r.severity ≡ level
      → r.selected ≡ some e
      → IsConfirmed r s level
      → advance_confirmed r s now level e (pending_state s level e breaches) ≡ ok x
      → IsAccounted s.cooldown_until r s now x
  unfolding advance_confirmed pending_state required_breaches intent_of
  confirmed-IsAccounted level e breaches l k n m h =
      elim (Bool-cases (same_severity s.status warning && same_severity level critical)) [
        | inl grows ↦
            let before : s.status ≡ warning = is_same s.status warning (ground arith) in
            let after : level ≡ critical = is_same level critical (ground arith) in
            let done = ok_injective (rw grows at h) in
            announced r s now (escalate e) x (ap (λ y. y.intent) done)
              (ap (λ y. y.state.status) done)
              (before, k ∙ after, n, subst (IsConfirmed r s) after m)
        | inr stays ↦ elim (Bool-cases (is_no_alert s.status)) [
          | inl calm ↦
              elim (Bool-cases (not (is_null s.cooldown_until) && same_severity level warning)) [
                | inl held ↦
                    let done = ok_injective (rw (stays, calm, held) at h) in
                    silent r s now s.cooldown_until x (ap (λ y. y.intent) done)
                      (ap (λ y. y.state.status) done)
                | inr free ↦
                    let done = ok_injective (rw (stays, calm, free) at h) in
                    announced r s now (open_alert e level) x (ap (λ y. y.intent) done)
                      (ap (λ y. y.state.status) done)
                      (
                        is_quiet_status s.status calm,
                        k,
                        n,
                        m,
                        open_allowed s.cooldown_until level l free,
                      )
              ]
          | inr alert ↦
              stable-IsAccounted false (sym (confirmed-is level e breaches stays alert) ∙ h)
        ]
      ]

  mode-IsAccounted :
      (mode : AlertResolutionMode)
      → is_no_alert s.status ≡ false
      → (definition_for_alert_rule r.rule).resolution_mode ≡ mode
      → r.evidence ≡ known
      → r.severity ≡ no_alert
      → (elim mode [
        | manual ↦ stable_active_result r s now false
        | automatic ↦ advance_clearing r s now
      ])
        ≡ ok x
      → IsAccounted s.cooldown_until r s now x
  mode-IsAccounted manual a m k n h = stable-IsAccounted false h
  mode-IsAccounted automatic a m k n h = clearing-IsAccounted a k n m h

  clear-IsAccounted :
      r.evidence ≡ known
      → r.severity ≡ no_alert
      → advance_clear r s now ≡ ok x
      → IsAccounted s.cooldown_until r s now x
  unfolding advance_clear rest_state
  clear-IsAccounted k n h = elim (Bool-cases (is_no_alert s.status)) [
    | inl calm ↦ ground arith
    | inr alert ↦
        mode-IsAccounted (definition_for_alert_rule r.rule).resolution_mode alert refl k n
          (rw alert at h)
  ]

  breach-IsAccounted :
      (level : AlertSeverity)
      → is_no_alert level ≡ false
      → r.severity ≡ level
      → advance_breach r s now level ≡ ok x
      → IsAccounted s.cooldown_until r s now x
  unfolding advance_breach
  breach-IsAccounted level l k h =
      let (e, found, step) = >>=_ok (selected_evidence_for r) _ h in
      elim (Bool-cases (ltb (start_or_continue_breach s level) (required_breaches r level))) [
        | inl more ↦
            let done = ok_injective (rw more at step) in
            silent r s now s.cooldown_until x (ap (λ y. y.intent) done)
              (ap (λ y. y.state.status) done)
        | inr enough ↦
            confirmed-IsAccounted level e (start_or_continue_breach s level) l k
              ((selected_is r e found)) ((IsConfirmed-by r s level l enough)) ((rw enough at step))
      ]

  alerting-is_worst :
      (level : AlertSeverity)
      → same_severity s.status critical ≡ true
      → advance_alerting r s now level ≡ stable_active_result r s now (same_severity level critical)
  unfolding advance_alerting
  alerting-is_worst level a = rw a

  alerting-is_same :
      (level : AlertSeverity)
      → same_severity s.status critical ≡ false
      → same_severity s.status warning && same_severity level warning ≡ true
      → advance_alerting r s now level ≡ stable_active_result r s now true
  unfolding advance_alerting
  alerting-is_same level a b = rw (a, b)

  alerting-is_breach :
      (level : AlertSeverity)
      → same_severity s.status critical ≡ false
      → same_severity s.status warning && same_severity level warning ≡ false
      → advance_alerting r s now level ≡ advance_breach r s now level
  unfolding advance_alerting
  alerting-is_breach level a b = rw (a, b)

  alerting-IsAccounted :
      (level : AlertSeverity)
      → is_no_alert level ≡ false
      → r.severity ≡ level
      → advance_alerting r s now level ≡ ok x
      → IsAccounted s.cooldown_until r s now x
  alerting-IsAccounted level l k h = elim (Bool-cases (same_severity s.status critical)) [
    | inl worst ↦
        stable-IsAccounted (same_severity level critical) (sym (alerting-is_worst level worst) ∙ h)
    | inr below ↦
        elim (Bool-cases (same_severity s.status warning && same_severity level warning)) [
          | inl same ↦ stable-IsAccounted true (sym (alerting-is_same level below same) ∙ h)
          | inr moved ↦
              breach-IsAccounted level l k (sym (alerting-is_breach level below moved) ∙ h)
        ]
  ]

  pub known-IsAccounted :
      (level : AlertSeverity)
      → r.evidence ≡ known
      → r.severity ≡ level
      → advance_known level r s now ≡ ok x
      → IsAccounted s.cooldown_until r s now x
  unfolding advance_known
  known-IsAccounted no_alert e k h = clear-IsAccounted e k h
  known-IsAccounted warning e k h = alerting-IsAccounted warning refl k h
  known-IsAccounted critical e k h = alerting-IsAccounted critical refl k h

  pub unknown-IsAccounted : advance_unknown s ≡ x → IsAccounted s.cooldown_until r s now x
  unfolding advance_unknown
  unknown-IsAccounted h =
      silent r s now s.cooldown_until x (ap (λ y. y.intent) h) (ap (λ y. y.state.status) h)
