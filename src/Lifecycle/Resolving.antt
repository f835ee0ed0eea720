-- ===== src/Lifecycle/Resolving.antt =====
-- Runs of `advanceAlertLifecycle` of apps/sso/worker/alert-evaluator.ts, step by step over the
-- evaluations of one alert: how an alert comes to its end.
use sso_pg72_tw.Common.{
  ℕ, ◌+◌, ◌≡◌, refl, true, false, Option, none, some, List, [], ◌∷◌, arith, length, ltb, ◌∙◌,
  Result, ok,
}
use sso_pg72_tw.Common.Results.{◌>>=◌}
use sso_pg72_tw.Alert.Types.{
  AlertSeverity, no_alert, AlertEvidenceStatus, known, unknown, AlertSelectedEvidence,
}
use sso_pg72_tw.Alert.Definitions.{automatic, definition_for_alert_rule}
use sso_pg72_tw.Alert.Evaluate.{AlertRuleEvaluation}
use sso_pg72_tw.Alert.Accepted.{IsAlert}
use sso_pg72_tw.Lifecycle.{
  AlertLifecycleIdentity, AlertLifecycleState, clear_consecutive, cooldown_ms,
}
use sso_pg72_tw.Lifecycle.Alarm.{quiet, firing, stored}
use sso_pg72_tw.Lifecycle.Advance.{
  advance_from, advance_bound, advance_known, advance_clear, advance_clearing, rest_state, is_stale,
}
use sso_pg72_tw.Lifecycle.Intents.{
  AlertLifecycleResult, identity_for, is_same_identity, intent_of, resolve,
}

-- An evaluation and the time at which it is taken up.
pub record Observed : Type 0 where
  pub evaluation : AlertRuleEvaluation
  pub now : ℕ

-- The steps one after the other.
abbrev pub advance_each : List Observed → AlertLifecycleState → Result AlertLifecycleState
advance_each [] s = ok s
advance_each (o ∷ os) s = advance_from o.evaluation s o.now >>= λ x. advance_each os x.state

-- The time of the last step.
abbrev pub last_time : ℕ → List Observed → ℕ
last_time seen [] = seen
last_time seen (o ∷ os) = last_time o.now os

-- A clear evaluation of the alert, on known evidence, of a rule that resolves by itself, after the
-- time `seen`.
abbrev pub IsClearAfter : AlertLifecycleIdentity → ℕ → Observed → Type 0
IsClearAfter i seen o =
    (is_same_identity i (identity_for o.evaluation) ≡ true)
    × (is_stale (some seen) o.now ≡ false)
    × (o.evaluation.evidence ≡ known)
    × (o.evaluation.severity ≡ no_alert)
    × ((definition_for_alert_rule o.evaluation.rule).resolution_mode ≡ automatic)

abbrev pub AreClear : AlertLifecycleIdentity → ℕ → List Observed → Type 0
AreClear i seen [] = Unit
AreClear i seen (o ∷ os) = IsClearAfter i seen o × AreClear i o.now os

pub on_known :
    (m : AlertEvidenceStatus) (a b : Result AlertLifecycleResult)
    → m ≡ known
    → (elim m [ unknown ↦ a | known ↦ b ]) ≡ b
on_known known a b h = refl
on_known unknown a b h = cc

module _ (i : AlertLifecycleIdentity) (opened notified : ℕ) (level : AlertSeverity)
    (shown : AlertSelectedEvidence) (alert : IsAlert level) where
  abbrev fires : ℕ → Option AlertSelectedEvidence → ℕ → AlertLifecycleState
  fires seen breach clears = stored (firing i seen opened notified level shown breach clears)

  bound-step :
      (o : Observed) (seen : ℕ) (breach : Option AlertSelectedEvidence) (clears : ℕ)
      → IsClearAfter i seen o
      → advance_from o.evaluation (fires seen breach clears) o.now
        ≡ advance_bound o.evaluation (fires seen breach clears) o.now i
  unfolding advance_from
  bound-step o seen breach clears h = simp (h.0, h.1)

  known-step :
      (o : Observed) (seen : ℕ) (breach : Option AlertSelectedEvidence) (clears : ℕ)
      → IsClearAfter i seen o
      → advance_bound o.evaluation (fires seen breach clears) o.now i
        ≡ advance_known o.evaluation.severity o.evaluation (fires o.now breach clears) o.now
  unfolding advance_bound
  known-step o seen breach clears h = on_known o.evaluation.evidence _ _ h.2

  clear-step :
      (o : Observed) (seen : ℕ) (breach : Option AlertSelectedEvidence) (clears : ℕ)
      → IsClearAfter i seen o
      → advance_known o.evaluation.severity o.evaluation (fires o.now breach clears) o.now
        ≡ advance_clear o.evaluation (fires o.now breach clears) o.now
  unfolding advance_known
  clear-step o seen breach clears h = simp h.3

  clearing-step :
      (o : Observed) (seen : ℕ) (breach : Option AlertSelectedEvidence) (clears : ℕ)
      → IsClearAfter i seen o
      → advance_clear o.evaluation (fires o.now breach clears) o.now
        ≡ advance_clearing o.evaluation (fires o.now breach clears) o.now
  unfolding advance_clear
  clearing-step o seen breach clears h = simp (alert, h.4)

  step-clearing :
      (o : Observed) (seen : ℕ) (breach : Option AlertSelectedEvidence) (clears : ℕ)
      → IsClearAfter i seen o
      → advance_from o.evaluation (fires seen breach clears) o.now
        ≡ advance_clearing o.evaluation (fires o.now breach clears) o.now
  step-clearing o seen breach clears h =
      bound-step o seen breach clears h
      ∙ known-step o seen breach clears h
      ∙ clear-step o seen breach clears h
      ∙ clearing-step o seen breach clears h

  counts :
      (o : Observed) (breach : Option AlertSelectedEvidence) (clears : ℕ)
      → ltb (clears + 1) clear_consecutive ≡ true
      → advance_clearing o.evaluation (fires o.now breach clears) o.now
        ≡ ok (record { intent = none; state = fires o.now none (clears + 1) })
  unfolding advance_clearing
  counts o breach clears more = simp more

  ends :
      (o : Observed) (breach : Option AlertSelectedEvidence) (clears : ℕ)
      → ltb (clears + 1) clear_consecutive ≡ false
      → advance_clearing o.evaluation (fires o.now breach clears) o.now
        ≡ ok (record {
          intent = intent_of o.evaluation o.now (resolve level);
          state = stored (quiet i o.now (some (o.now + cooldown_ms)));
        })
  unfolding advance_clearing rest_state
  ends o breach clears over = simp over

  -- Let an alert fire that has seen some clear evaluations in a row, fewer than five, and let as many
  -- follow as are missing, one after the other, of the same alert, on known evidence, of a rule that
  -- resolves by itself. Then the steps return, and they leave the alert quiet, with a cooldown of
  -- thirty minutes from the last of them.
  pub advance_each-resolves :
      (o : Observed) (os : List Observed) (seen : ℕ) (breach : Option AlertSelectedEvidence)
      (clears : ℕ)
      → AreClear i seen (o ∷ os)
      → length (o ∷ os) + clears ≡ clear_consecutive
      → advance_each (o ∷ os) (stored (firing i seen opened notified level shown breach clears)) ≡ (
          let last = last_time seen (o ∷ os) in
          ok (stored (quiet i last (some (last + cooldown_ms)))))
  advance_each-resolves o [] seen breach clears h n =
      simp (step-clearing o seen breach clears h.0, ends o breach clears (ground arith))
  advance_each-resolves o (p ∷ os) seen breach clears h n =
      simp (step-clearing o seen breach clears h.0, counts o breach clears (ground arith))
        (advance_each-resolves p os o.now none (clears + 1) h.1 (omega arith))
