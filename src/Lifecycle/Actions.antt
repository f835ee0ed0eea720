-- ===== src/Lifecycle/Actions.antt =====
-- What the intents of `advanceAlertLifecycle` in apps/sso/worker/alert-evaluator.ts stand for: each
-- is warranted by the state and the evaluation, and the severity of an alert changes by them alone.
use sso_pg72_tw.Common.{
  ℕ, ◌+◌, ◌≤◌, ◌≡◌, ◌⊎◌, refl, true, false, Option, none, some, arith, subst, sym, ap, ◌∙◌, inl,
  inr, Bool-cases, ltb, Result, ok, throw, not, ◌&&◌, String, if◌then◌else◌,
}
use sso_pg72_tw.Alert.Types.{
  AlertSeverity, no_alert, warning, critical, known, AlertSelectedEvidence,
}
use sso_pg72_tw.Alert.Definitions.{automatic, definition_for_alert_rule}
use sso_pg72_tw.Alert.Evaluate.{AlertRuleEvaluation}
use sso_pg72_tw.Alert.Metrics.{is_null}
use sso_pg72_tw.Alert.Evidence.{is_no_alert}
use sso_pg72_tw.Lifecycle.{AlertLifecycleState}
use sso_pg72_tw.Lifecycle.Checks.{same_severity, is_level}
use sso_pg72_tw.Lifecycle.Advance.{required_breaches, start_or_continue_breach}
use sso_pg72_tw.Lifecycle.Intents.{
  AlertAction, open_alert, escalate, remind, resolve, AlertActionIntent, AlertLifecycleResult,
  reminder_ms, last_notice, selected_evidence_for, intent_of,
}

-- The level has been seen before, in a row, or is critical at once.
abbrev pub IsConfirmed : AlertRuleEvaluation → AlertLifecycleState → AlertSeverity → Type 0
IsConfirmed r s level =
    (r.immediate_critical ≡ true)
    ⊎ ((s.breach_severity ≡ some level) × (1 ≤ s.consecutive_breaches))

-- What an action says of the state before it, of the cooldown that still runs and of the evaluation.
abbrev pub IsWarranted :
    Option ℕ → AlertRuleEvaluation → AlertLifecycleState → ℕ → AlertAction → Type 0
IsWarranted cooldown r s now (open_alert e level) =
    (s.status ≡ no_alert)
    × (r.severity ≡ level)
    × (r.selected ≡ some e)
    × IsConfirmed r s level
    × ((cooldown ≡ none) ⊎ (level ≡ critical))
IsWarranted cooldown r s now (escalate e) =
    (s.status ≡ warning)
    × (r.severity ≡ critical)
    × (r.selected ≡ some e)
    × IsConfirmed r s critical
IsWarranted cooldown r s now (remind e level) =
    (s.status ≡ level)
    × (is_no_alert level ≡ false)
    × ((last : ℕ)
        → last_notice s.last_notification_at s.opened_at ≡ some last
        → last + reminder_ms level ≤ now)
IsWarranted cooldown r s now (resolve from) =
    (s.status ≡ from)
    × (is_no_alert from ≡ false)
    × (r.evidence ≡ known)
    × (r.severity ≡ no_alert)
    × ((definition_for_alert_rule r.rule).resolution_mode ≡ automatic)
    × (4 ≤ s.consecutive_clears)

-- The severity that a state has after an intent.
abbrev pub status_after : AlertSeverity → Option AlertActionIntent → AlertSeverity
status_after before none = before
status_after before (some intent) = elim intent.action [
  | open_alert e level ↦ level
  | escalate e ↦ critical
  | remind e level ↦ before
  | resolve from ↦ no_alert
]

abbrev pub IsAccounted :
    Option ℕ → AlertRuleEvaluation → AlertLifecycleState → ℕ → AlertLifecycleResult → Type 0
IsAccounted cooldown r s now x =
    (x.state.status ≡ status_after s.status x.intent)
    × ((a : AlertActionIntent)
        → x.intent ≡ some a
        → (a.at_time ≡ now)
          × (a.dimension ≡ r.dimension)
          × (a.rule ≡ r.rule)
          × IsWarranted cooldown r s now a.action)

pub is_quiet_status : (a : AlertSeverity) → is_no_alert a ≡ true → a ≡ no_alert
is_quiet_status no_alert h = refl
is_quiet_status _ h = cc

-- A running cooldown lets nothing but critical through.
pub open_allowed :
    (cooldown : Option ℕ) (level : AlertSeverity)
    → is_no_alert level ≡ false
    → not (is_null cooldown) && same_severity level warning ≡ false
    → (cooldown ≡ none) ⊎ (level ≡ critical)
open_allowed none level h k = inl refl
open_allowed (some until) critical h k = inr refl
open_allowed (some until) warning h k = cc
open_allowed (some until) no_alert h k = cc

pub is_same : (a b : AlertSeverity) → same_severity a b ≡ true → a ≡ b
is_same no_alert no_alert h = refl
is_same warning warning h = refl
is_same critical critical h = refl
is_same _ _ h = cc

pub selected_is :
    (r : AlertRuleEvaluation) (e : AlertSelectedEvidence)
    → selected_evidence_for r ≡ ok e
    → r.selected ≡ some e
unfolding selected_evidence_for
selected_is r e h = ground arith

level_is :
    (o : Option AlertSeverity) (level : AlertSeverity) → is_level o level ≡ true → o ≡ some level
level_is none level h = cc
level_is (some before) level h = ap some (is_same before level h)

two_needed :
    (level : AlertSeverity) (n : ℕ)
    → ltb (n + 1) (if same_severity level critical then 2 else 2) ≡ false
    → 1 ≤ n
two_needed critical n h = ground arith
two_needed warning n h = ground arith
two_needed no_alert n h = ground arith

one_short :
    (level : AlertSeverity) → ltb 1 (if same_severity level critical then 2 else 2) ≡ false → ⊥
one_short critical h = cc
one_short warning h = cc
one_short no_alert h = cc

-- The breaches in a row reach what is required only if the level is immediate or was pending.
pub IsConfirmed-by :
    (r : AlertRuleEvaluation) (s : AlertLifecycleState) (level : AlertSeverity)
    → is_no_alert level ≡ false
    → ltb (start_or_continue_breach s level) (required_breaches r level) ≡ false
    → IsConfirmed r s level
unfolding start_or_continue_breach required_breaches
IsConfirmed-by r s level l h = elim (Bool-cases r.immediate_critical) [
  | inl at_once ↦ inl at_once
  | inr slow ↦ elim (Bool-cases (is_level s.breach_severity level)) [
    | inl again ↦
        inr (level_is s.breach_severity level again, two_needed level _ (rw (slow, again) at h))
    | inr first ↦ absurd (one_short level (rw (slow, first) at h))
  ]
]

pub present :
    {A B : Type 0} (message : String) (o : Option A) (next : A → Result B) {b : B}
    → (elim o [ none ↦ throw message | some a ↦ next a ]) ≡ ok b
    → (a : A) × (next a ≡ ok b)
present message none next h = cc
present message (some a) next h = (a, h)

module _ (r : AlertRuleEvaluation) (s : AlertLifecycleState) (now : ℕ) where
  pub announced :
      (action : AlertAction) (x : AlertLifecycleResult)
      → intent_of r now action ≡ x.intent
      → status_after s.status (intent_of r now action) ≡ x.state.status
      → IsWarranted s.cooldown_until r s now action
      → IsAccounted s.cooldown_until r s now x
  unfolding intent_of
  announced action x p q h = (
    sym q ∙ ap (status_after s.status) p,
    λ a e.
        let mine : AlertActionIntent = record {
          at_time = now;
          dimension = r.dimension;
          rule = r.rule;
          action = action;
        } in
        let same : mine ≡ a = cc in
        subst
          (λ b.
            (b.at_time ≡ now)
            × (b.dimension ≡ r.dimension)
            × (b.rule ≡ r.rule)
            × IsWarranted s.cooldown_until r s now b.action)
          same (refl, refl, refl, h),
  )

  pub silent :
      (cooldown : Option ℕ) (x : AlertLifecycleResult)
      → none ≡ x.intent
      → s.status ≡ x.state.status
      → IsAccounted cooldown r s now x
  silent cooldown x p q = (sym q ∙ ap (status_after s.status) p, λ a e. cc)
