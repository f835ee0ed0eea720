-- ===== src/Lifecycle/Announced.antt =====
-- `advanceAlertLifecycle` of apps/sso/worker/alert-evaluator.ts as a whole: an alert changes its
-- severity only by an intent that is announced, and the intents are warranted.
use sso_pg72_tw.Common.{
  ℕ, ◌≡◌, refl, not, Option, none, some, subst, ap, inl, inr, Bool-cases, ◌==◌, if◌then◌else◌, ok,
}
use sso_pg72_tw.Common.Results.{unless, unless-ok, >>=_ok, ok_injective}
use sso_pg72_tw.Alert.Types.{AlertEvidenceStatus, known, unknown}
use sso_pg72_tw.Alert.Observation.{AlertRuleObservation}
use sso_pg72_tw.Alert.Evaluate.{AlertRuleEvaluation}
use sso_pg72_tw.Alert.Parsing.{evaluate_alert_rule}
use sso_pg72_tw.Lifecycle.{AlertLifecycleIdentity, AlertLifecycleState}
use sso_pg72_tw.Lifecycle.Checks.{parse_state}
use sso_pg72_tw.Lifecycle.Accepts.{parse_state-Represents}
use sso_pg72_tw.Lifecycle.Actions.{IsAccounted, silent}
use sso_pg72_tw.Lifecycle.Accounts.{known-IsAccounted, unknown-IsAccounted}
use sso_pg72_tw.Lifecycle.Advance.{
  advance_known, advance_unknown, advance_bound, advance_from, advance_alert_lifecycle, is_stale,
  is_quiet, live_cooldown,
}
use sso_pg72_tw.Lifecycle.Intents.{AlertLifecycleResult, identity_for, is_same_identity}

module _ (r : AlertRuleEvaluation) (s : AlertLifecycleState) (now : ℕ)
    (x : AlertLifecycleResult) where
  by_evidence :
      (m : AlertEvidenceStatus) (t : AlertLifecycleState)
      → r.evidence ≡ m
      → (elim m [ unknown ↦ ok (advance_unknown t) | known ↦ advance_known r.severity r t now ])
        ≡ ok x
      → IsAccounted t.cooldown_until r t now x
  by_evidence unknown t e h = unknown-IsAccounted r t now x (ok_injective h)
  by_evidence known t e h = known-IsAccounted r t now x r.severity e refl h

  bound-IsAccounted :
      (i : AlertLifecycleIdentity)
      → advance_bound r s now i ≡ ok x
      → IsAccounted (live_cooldown s.cooldown_until now) r s now x
  unfolding advance_bound
  bound-IsAccounted i h = by_evidence r.evidence _ refl h

  by_identity :
      (o : Option AlertLifecycleIdentity)
      → (elim o [
        | none ↦
            if is_quiet r
            then ok (record { intent = none; state = s })
            else advance_bound r s now (identity_for r)
        | some i ↦
            unless
              (not (is_same_identity i (identity_for r)))
              "alert lifecycle identity does not match the observation"
              (unless
                (is_stale s.last_evaluated_at now)
                "alert lifecycle evaluations must be strictly increasing"
                (advance_bound r s now i))
      ])
        ≡ ok x
      → IsAccounted (live_cooldown s.cooldown_until now) r s now x
  by_identity none h = elim (Bool-cases (is_quiet r)) [
    | inl calm ↦
        let done = ok_injective (rw calm at h) in
        silent r s now (live_cooldown s.cooldown_until now) x (ap (λ y. y.intent) done)
          (ap (λ y. y.state.status) done)
    | inr alert ↦ bound-IsAccounted (identity_for r) (rw alert at h)
  ]
  by_identity (some i) h =
      let (same, rest) = unless-ok (not (is_same_identity i (identity_for r))) _ _ h in
      let (fresh, step) = unless-ok (is_stale s.last_evaluated_at now) _ _ rest in
      bound-IsAccounted i step

-- Whatever a step returns, the severity of the stored alert changes only with an intent that says
-- so: to the level that is opened, to critical, or to none. An intent carries the time and the
-- identity of the evaluation. An alert opens only from none, at the level of the evaluation and on
-- its evidence, when that level is immediate or was pending already, and at the level of a warning
-- only if no cooldown runs; it is escalated only from a warning, by such a critical evaluation; a
-- reminder keeps the level and comes after its interval; it is resolved only by a clear evaluation
-- on known evidence of a rule that resolves by itself, after four clear ones.
pub advance_alert_lifecycle-IsAccounted :
    (o : AlertRuleObservation) (s : AlertLifecycleState) (now : ℕ) (x : AlertLifecycleResult)
    → advance_alert_lifecycle now o s ≡ ok x
    → (r : AlertRuleEvaluation) × (evaluate_alert_rule o ≡ ok r)
      × IsAccounted (live_cooldown s.cooldown_until now) r s now x
unfolding advance_alert_lifecycle advance_from
advance_alert_lifecycle-IsAccounted o s now x h =
    let (r, evaluated, rest) = >>=_ok (evaluate_alert_rule o) _ h in
    let (moment, stored_step) = unless-ok (not (r.as_of == now)) _ _ rest in
    let (v, parsed, step) = >>=_ok (parse_state s now) _ stored_step in
    let same : v ≡ s = (parse_state-Represents s v now parsed).0 in
    (
      r,
      evaluated,
      subst (λ y. IsAccounted (live_cooldown y.cooldown_until now) r y now x) same
          (by_identity r v now x v.identity step),
    )
