-- ===== src/Lifecycle/Stable.antt =====
-- The branches of `advanceAlertLifecycle` in apps/sso/worker/alert-evaluator.ts on a firing alarm,
-- from the state with its new watermark on: each lands in a well-formed alarm.
use sso_pg72_tw.Common.{
  ℕ, ◌+◌, ◌≡◌, refl, true, false, Option, none, some, arith, subst, sym, leb, ltb, inl, inr,
  Bool-cases, Result, ok,
}
use sso_pg72_tw.Alert.Types.{AlertSeverity, no_alert, warning, critical, AlertSelectedEvidence}
use sso_pg72_tw.Alert.Definitions.{
  AlertResolutionMode, automatic, manual, definition_for_alert_rule,
}
use sso_pg72_tw.Alert.Evaluate.{AlertRuleEvaluation}
use sso_pg72_tw.Lifecycle.{
  AlertLifecycleIdentity, AlertLifecycleState, clear_consecutive, cooldown_ms,
}
use sso_pg72_tw.Lifecycle.Checks.{same_severity}
use sso_pg72_tw.Lifecycle.Alarm.{Alarm, unbound, quiet, raised, firing, stored, IsValid, IsEvidence}
use sso_pg72_tw.Lifecycle.Advance.{advance_clearing, advance_clear, rest_state}
use sso_pg72_tw.Lifecycle.Intents.{
  AlertLifecycleResult, remind, resolve, reminder_ms, reminder_due, stable_with,
  stable_active_result, selected_evidence_for, intent_of,
}

-- The alarm is bound to the identity and has seen the time.
abbrev pub IsAt : AlertLifecycleIdentity → ℕ → Alarm → Type 0
IsAt i now unbound = ⊥
IsAt i now (quiet j seen cooldown) = (j ≡ i) × (seen ≡ now)
IsAt i now (raised j seen cooldown level e) = (j ≡ i) × (seen ≡ now)
IsAt i now (firing j seen opened notified level shown breach clears) = (j ≡ i) × (seen ≡ now)

-- The step returns, and its state is a well-formed alarm of the identity and the time.
abbrev pub Lands : AlertLifecycleIdentity → ℕ → Result AlertLifecycleResult → Type 0
Lands i now m =
    (r : AlertLifecycleResult) × (m ≡ ok r)
    × ((a : Alarm) × (r.state ≡ stored a) × IsValid a now × IsAt i now a)

pub same_severity_refl : (s : AlertSeverity) → same_severity s s ≡ true
same_severity_refl no_alert = refl
same_severity_refl warning = refl
same_severity_refl critical = refl

module _ (r : AlertRuleEvaluation) (i : AlertLifecycleIdentity) (now opened notified : ℕ)
    (level : AlertSeverity) (shown : AlertSelectedEvidence) (breach : Option AlertSelectedEvidence)
    (clears : ℕ)
    (valid : IsValid (firing i now opened notified level shown breach clears) now) where
  abbrev here : AlertLifecycleState
  here = stored (firing i now opened notified level shown breach clears)

  stable_with-Lands :
      (e : AlertSelectedEvidence) → IsEvidence i level e → Lands i now (stable_with r here now e)
  unfolding stable_with reminder_due intent_of
  stable_with-Lands e h =
      let kept = same_severity_refl level in
      elim (Bool-cases (leb (notified + reminder_ms level) now)) [
        | inl due ↦ (
          record {
            intent = some (record {
              at_time = now;
              dimension = r.dimension;
              rule = r.rule;
              action = remind e level;
            });
            state = stored (firing i now opened now level e none 0);
          },
          rw (h.0, kept, h.1, due),
          (
            firing i now opened now level e none 0,
            refl,
            (valid.0, omega arith, omega (arith, valid.2, valid.3), omega arith, h, omega arith),
            (refl, refl),
          ),
        )
        | inr early ↦ (
          record { intent = none; state = stored (firing i now opened notified level e none 0) },
          rw (h.0, kept, h.1, early),
          (
            firing i now opened notified level e none 0,
            refl,
            (valid.0, valid.1, valid.2, valid.3, h, omega arith),
            (refl, refl),
          ),
        )
      ]

  stable-is : stable_active_result r here now false ≡ stable_with r here now shown
  unfolding stable_active_result
  stable-is = rw valid.4.1

  refreshed-is :
      (e : AlertSelectedEvidence)
      → r.selected ≡ some e
      → stable_active_result r here now true ≡ stable_with r here now e
  unfolding stable_active_result selected_evidence_for
  refreshed-is e s = rw (valid.4.1, s)

  -- The evidence that is shown stays.
  pub stable-Lands : Lands i now (stable_active_result r here now false)
  stable-Lands = subst (Lands i now) (sym stable-is) (stable_with-Lands shown valid.4)

  -- The evidence of the evaluation takes its place.
  pub refreshed-Lands :
      (e : AlertSelectedEvidence)
      → r.selected ≡ some e
      → IsEvidence i level e
      → Lands i now (stable_active_result r here now true)
  refreshed-Lands e s h = subst (Lands i now) (sym (refreshed-is e s)) (stable_with-Lands e h)

  clearing-Lands : Lands i now (advance_clearing r here now)
  unfolding advance_clearing rest_state intent_of
  clearing-Lands = elim (Bool-cases (ltb (clears + 1) clear_consecutive)) [
    | inl more ↦ (
      record {
        intent = none;
        state = stored (firing i now opened notified level shown none (clears + 1));
      },
      rw more,
      (
        firing i now opened notified level shown none (clears + 1),
        refl,
        (valid.0, valid.1, valid.2, valid.3, valid.4, ground arith),
        (refl, refl),
      ),
    )
    | inr over ↦ (
      record {
        intent = some (record {
          at_time = now;
          dimension = r.dimension;
          rule = r.rule;
          action = resolve level;
        });
        state = stored (quiet i now (some (now + cooldown_ms)));
      },
      rw over,
      (
        quiet i now (some (now + cooldown_ms)),
        refl,
        (valid.0, omega arith, omega arith),
        (refl, refl),
      ),
    )
  ]

  clear-is :
      (mode : AlertResolutionMode)
      → (definition_for_alert_rule r.rule).resolution_mode ≡ mode
      → advance_clear r here now ≡ (elim mode [
        | manual ↦ stable_active_result r here now false
        | automatic ↦ advance_clearing r here now
      ])
  unfolding advance_clear
  clear-is mode e = rw (valid.4.1, e)

  pub clear-Lands : Lands i now (advance_clear r here now)
  clear-Lands = go (definition_for_alert_rule r.rule).resolution_mode refl
    where
      go :
          (mode : AlertResolutionMode)
          → (definition_for_alert_rule r.rule).resolution_mode ≡ mode
          → Lands i now (advance_clear r here now)
      go manual e = subst (Lands i now) (sym (clear-is manual e)) stable-Lands
      go automatic e = subst (Lands i now) (sym (clear-is automatic e)) clearing-Lands
