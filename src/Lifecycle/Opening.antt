-- ===== src/Lifecycle/Opening.antt =====
-- Two steps of `advanceAlertLifecycle` of apps/sso/worker/alert-evaluator.ts that open an alert.
use sso_pg72_tw.Common.{
  ℕ, ◌≡◌, refl, Bool, true, false, if◌then◌else◌, Option, none, some, arith, ◌∙◌, ok, inl, inr, leb,
  ◌≤◌, subst, ◌⊎◌,
}
use sso_pg72_tw.Alert.Types.{
  AlertSeverity, no_alert, critical, warning, known, AlertSelectedEvidence,
}
use sso_pg72_tw.Alert.Evaluate.{AlertRuleEvaluation}
use sso_pg72_tw.Alert.Accepted.{IsAlert}
use sso_pg72_tw.Lifecycle.{AlertLifecycleIdentity, AlertLifecycleState}
use sso_pg72_tw.Lifecycle.Alarm.{quiet, raised, firing, stored}
use sso_pg72_tw.Lifecycle.Advance.{
  advance_from, advance_bound, advance_known, advance_alerting, advance_breach, advance_confirmed,
  pending_state, start_or_continue_breach, required_breaches, live_cooldown, is_stale,
}
use sso_pg72_tw.Lifecycle.Intents.{
  selected_evidence_for, identity_for, is_same_identity, intent_of, open_alert,
}
use sso_pg72_tw.Lifecycle.Resolving.{Observed, on_known}

-- An alerting evaluation of the alert, on known evidence, that asks for two in a row, after the
-- time `seen`.
abbrev pub IsAlertAfter :
    AlertLifecycleIdentity → AlertSeverity → AlertSelectedEvidence → ℕ → Observed → Type 0
IsAlertAfter i level e seen o =
    (is_same_identity i (identity_for o.evaluation) ≡ true)
    × (is_stale (some seen) o.now ≡ false)
    × (o.evaluation.evidence ≡ known)
    × (o.evaluation.severity ≡ level)
    × (o.evaluation.selected ≡ some e)
    × (o.evaluation.immediate_critical ≡ false)

-- No cooldown holds an alert of the level back.
abbrev pub IsFree : AlertSeverity → Option ℕ → ℕ → Type 0
IsFree level none now = Unit
IsFree level (some until) now = (level ≡ critical) ⊎ (until ≤ now)

-- The cooldown that is left holds no alert of the level back.
abbrev IsOpen : AlertSeverity → Option ℕ → Type 0
IsOpen level none = Unit
IsOpen level (some until) = level ≡ critical

by_test :
    (P : Option ℕ → Type 0) (b : Bool) (until : ℕ)
    → P none
    → (b ≡ false → P (some until))
    → P (if b then none else some until)
by_test P true until over lasts = over
by_test P false until over lasts = lasts refl

IsFree-IsOpen :
    (level : AlertSeverity) (c : Option ℕ) (now : ℕ)
    → IsFree level c now
    → IsOpen level (live_cooldown c now)
IsFree-IsOpen level none now free = tt
IsFree-IsOpen level (some until) now (inr past) =
    by_test (IsOpen level) (leb until now) until tt (λ h. absurd (ground arith))
IsFree-IsOpen level (some until) now (inl same) =
    by_test (IsOpen level) (leb until now) until tt (λ h. same)

chosen :
    (r : AlertRuleEvaluation) (e : AlertSelectedEvidence)
    → r.selected ≡ some e
    → selected_evidence_for r ≡ ok e
unfolding selected_evidence_for
chosen r e h = rw h

-- A breach that has not been seen before waits.
first_breach :
    (r : AlertRuleEvaluation) (i : AlertLifecycleIdentity) (e : AlertSelectedEvidence)
    (c : Option ℕ) (now : ℕ) (level : AlertSeverity)
    → IsAlert level
    → r.selected ≡ some e
    → r.immediate_critical ≡ false
    → advance_breach r (stored (quiet i now c)) now level
      ≡ ok (record { intent = none; state = stored (raised i now c level e) })
unfolding advance_breach required_breaches pending_state start_or_continue_breach
first_breach r i e c now no_alert a h k = cc
first_breach r i e c now warning a h k = simp (chosen r e h, k)
first_breach r i e c now critical a h k = simp (chosen r e h, k)

-- A breach that has been seen before opens an alert that no cooldown holds back.
second_breach :
    (r : AlertRuleEvaluation) (i : AlertLifecycleIdentity) (e f : AlertSelectedEvidence)
    (c : Option ℕ) (now : ℕ) (level : AlertSeverity)
    → IsAlert level
    → r.selected ≡ some e
    → r.immediate_critical ≡ false
    → IsOpen level c
    → advance_breach r (stored (raised i now c level f)) now level
      ≡ ok (record {
        intent = intent_of r now (open_alert e level);
        state = stored (firing i now now now level e none 0);
      })
unfolding advance_breach required_breaches pending_state start_or_continue_breach advance_confirmed
second_breach r i e f c now no_alert a h k free = cc
second_breach r i e f none now warning a h k free = simp (chosen r e h, k)
second_breach r i e f (some until) now warning a h k free = cc
second_breach r i e f none now critical a h k free = simp (chosen r e h, k)
second_breach r i e f (some until) now critical a h k free = simp (chosen r e h, k)

module _ (i : AlertLifecycleIdentity) (level : AlertSeverity) (alert : IsAlert level) where
  -- No alert is open, and the breach may have been seen once.
  abbrev pub waits : ℕ → Option ℕ → Option AlertSelectedEvidence → AlertLifecycleState
  waits seen c none = stored (quiet i seen c)
  waits seen c (some f) = stored (raised i seen c level f)

  bound-step :
      (o : Observed) (e : AlertSelectedEvidence) (seen : ℕ) (c : Option ℕ)
      (breach : Option AlertSelectedEvidence)
      → IsAlertAfter i level e seen o
      → advance_from o.evaluation (waits seen c breach) o.now
        ≡ advance_bound o.evaluation (waits seen c breach) o.now i
  unfolding advance_from
  bound-step o e seen c none h = simp (h.0, h.1)
  bound-step o e seen c (some f) h = simp (h.0, h.1)

  known-step :
      (o : Observed) (e : AlertSelectedEvidence) (seen : ℕ) (c : Option ℕ)
      (breach : Option AlertSelectedEvidence)
      → IsAlertAfter i level e seen o
      → advance_bound o.evaluation (waits seen c breach) o.now i
        ≡ advance_known o.evaluation.severity o.evaluation
            (waits o.now (live_cooldown c o.now) breach)
            o.now
  unfolding advance_bound
  known-step o e seen c none h = on_known o.evaluation.evidence _ _ h.2
  known-step o e seen c (some f) h = on_known o.evaluation.evidence _ _ h.2

  alerting-step :
      (r : AlertRuleEvaluation) (s : AlertLifecycleState) (now : ℕ) (l : AlertSeverity)
      → IsAlert l
      → advance_known l r s now ≡ advance_alerting r s now l
  unfolding advance_known
  alerting-step r s now no_alert h = cc
  alerting-step r s now warning h = refl
  alerting-step r s now critical h = refl

  raise-step :
      (r : AlertRuleEvaluation) (seen now : ℕ) (c : Option ℕ)
      (breach : Option AlertSelectedEvidence)
      → advance_alerting r (waits seen c breach) now level
        ≡ advance_breach r (waits seen c breach) now level
  unfolding advance_alerting
  raise-step r seen now c none = refl
  raise-step r seen now c (some f) = refl

  step-breach :
      (o : Observed) (e : AlertSelectedEvidence) (seen : ℕ) (c : Option ℕ)
      (breach : Option AlertSelectedEvidence)
      → IsAlertAfter i level e seen o
      → advance_from o.evaluation (waits seen c breach) o.now
        ≡ advance_breach o.evaluation (waits o.now (live_cooldown c o.now) breach) o.now level
  step-breach o e seen c breach h =
      bound-step o e seen c breach h
      ∙ known-step o e seen c breach h
      ∙ alerting-step o.evaluation _ o.now o.evaluation.severity (simp h.3 alert)
      ∙ subst
          (λ l.
            advance_alerting o.evaluation (waits o.now (live_cooldown c o.now) breach) o.now
              o.evaluation.severity
            ≡ advance_alerting o.evaluation (waits o.now (live_cooldown c o.now) breach) o.now l)
          h.3 refl
      ∙ raise-step o.evaluation o.now o.now (live_cooldown c o.now) breach

  first :
      (o : Observed) (e : AlertSelectedEvidence) (seen : ℕ) (c : Option ℕ)
      → IsAlertAfter i level e seen o
      → advance_from o.evaluation (stored (quiet i seen c)) o.now
        ≡ ok (record {
          intent = none;
          state = stored (raised i o.now (live_cooldown c o.now) level e);
        })
  first o e seen c h =
      step-breach o e seen c none h
      ∙ first_breach o.evaluation i e (live_cooldown c o.now) o.now level alert h.4 h.5

  second :
      (o : Observed) (e f : AlertSelectedEvidence) (seen : ℕ) (c : Option ℕ)
      → IsAlertAfter i level e seen o
      → IsFree level c o.now
      → advance_from o.evaluation (stored (raised i seen c level f)) o.now
        ≡ ok (record {
          intent = intent_of o.evaluation o.now (open_alert e level);
          state = stored (firing i o.now o.now o.now level e none 0);
        })
  second o e f seen c h free =
      step-breach o e seen c (some f) h
      ∙ second_breach o.evaluation i e f (live_cooldown c o.now) o.now level alert h.4 h.5
          (IsFree-IsOpen level c o.now free)

  left-IsFree :
      (c : Option ℕ) (now later : ℕ)
      → IsFree level c later
      → IsFree level (live_cooldown c now) later
  left-IsFree none now later free = tt
  left-IsFree (some until) now later free =
      by_test (λ x. IsFree level x later) (leb until now) until tt (λ h. free)

  -- Let an alert be quiet, and let two evaluations of it follow, the second later than the first, that
  -- both alert at one level, on known evidence, but not as immediately critical. Then the first step
  -- returns the alert raised and no intent. Where the level is critical or the cooldown is over at
  -- the second, the second step returns the intent to open the alert and leaves it firing at that
  -- level since then, with the evidence of the second evaluation and no cooldown.
  pub advance_from-opens :
      (o p : Observed) (e f : AlertSelectedEvidence) (seen : ℕ) (c : Option ℕ)
      → IsAlertAfter i level e seen o
      → IsAlertAfter i level f o.now p
      → IsFree level c p.now
      → let waiting = stored (raised i o.now (live_cooldown c o.now) level e) in
        (advance_from o.evaluation (stored (quiet i seen c)) o.now
          ≡ ok (record { intent = none; state = waiting }))
        × (advance_from p.evaluation waiting p.now
            ≡ ok (record {
              intent = intent_of p.evaluation p.now (open_alert f level);
              state = stored (firing i p.now p.now p.now level f none 0);
            }))
  advance_from-opens o p e f seen c h k free = (
    first o e seen c h,
    second p f e o.now (live_cooldown c o.now) k (left-IsFree c o.now p.now free),
  )
