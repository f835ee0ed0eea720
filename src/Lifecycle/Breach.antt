-- ===== src/Lifecycle/Breach.antt =====
-- The branches of `advanceAlertLifecycle` in apps/sso/worker/alert-evaluator.ts on an evaluation that
-- alerts, from the state with its new watermark on: each lands in a well-formed alarm.
use sso_pg72_tw.Common.{
  ℕ, ◌≤◌, ◌≡◌, refl, Bool, true, false, Option, none, some, arith, ◌≢◌, Result, ok,
}
use sso_pg72_tw.Alert.Types.{AlertSeverity, no_alert, warning, critical, AlertSelectedEvidence}
use sso_pg72_tw.Alert.Evaluate.{AlertRuleEvaluation}
use sso_pg72_tw.Alert.Accepted.{IsAlert}
use sso_pg72_tw.Lifecycle.{AlertLifecycleIdentity}
use sso_pg72_tw.Lifecycle.Alarm.{
  quiet, raised, firing, stored, IsValid, IsBound, IsEvidence, CooldownFits,
}
use sso_pg72_tw.Lifecycle.Advance.{
  advance_breach, advance_confirmed, pending_state, required_breaches, start_or_continue_breach,
}
use sso_pg72_tw.Lifecycle.Intents.{
  AlertLifecycleResult, open_alert, escalate, selected_evidence_for, intent_of,
}
use sso_pg72_tw.Lifecycle.Stable.{Lands}

pub not-IsAlert : ¬ IsAlert no_alert
not-IsAlert h = cc

pub warning-ne-critical : warning ≢ critical
warning-ne-critical h = cc

module _ (r : AlertRuleEvaluation) (i : AlertLifecycleIdentity) (now : ℕ)
    (e : AlertSelectedEvidence) (bound : IsBound i) (selected : r.selected ≡ some e) where
  chosen : selected_evidence_for r ≡ ok e
  unfolding selected_evidence_for
  chosen = rw selected

  -- The alert that opens.
  opens :
      (level : AlertSeverity) (m : Result AlertLifecycleResult)
      → IsEvidence i level e
      → m
        ≡ ok (record {
          intent = intent_of r now (open_alert e level);
          state = stored (firing i now now now level e none 0);
        })
      → Lands i now m
  opens level m h same = (
    _,
    same,
    (
      firing i now now now level e none 0,
      refl,
      (bound, omega arith, omega arith, omega arith, h, omega arith),
      (refl, refl),
    ),
  )

  waits :
      (level : AlertSeverity) (cooldown : Option ℕ) (m : Result AlertLifecycleResult)
      → CooldownFits cooldown now
      → IsEvidence i level e
      → m ≡ ok (record { intent = none; state = stored (raised i now cooldown level e) })
      → Lands i now m
  waits level cooldown m c h same =
      (_, same, (raised i now cooldown level e, refl, (bound, omega arith, c, h), (refl, refl)))

  escalates :
      (opened : ℕ) (shown : AlertSelectedEvidence) (m : Result AlertLifecycleResult)
      → opened ≤ now
      → IsEvidence i critical e
      → m
        ≡ ok (record {
          intent = intent_of r now (escalate e);
          state = stored (firing i now opened now critical e none 0);
        })
      → Lands i now m
  escalates opened shown m past h same = (
    _,
    same,
    (
      firing i now opened now critical e none 0,
      refl,
      (bound, omega arith, past, omega arith, h, omega arith),
      (refl, refl),
    ),
  )

  -- A breach of an alarm that does not fire, by the level and whether it is immediate.
  pub quiet-breach :
      (cooldown : Option ℕ) (level : AlertSeverity) (now_critical : Bool)
      → CooldownFits cooldown now
      → IsEvidence i level e
      → r.immediate_critical ≡ now_critical
      → (now_critical ≡ true → level ≡ critical)
      → Lands i now (advance_breach r (stored (quiet i now cooldown)) now level)
  unfolding advance_breach start_or_continue_breach required_breaches pending_state
      advance_confirmed
  quiet-breach cooldown no_alert b c h k l = absurd (not-IsAlert h.1)
  quiet-breach cooldown warning true c h k l = absurd (warning-ne-critical (l refl))
  quiet-breach none critical true c h k l = opens critical _ h (simp (chosen, k))
  quiet-breach (some until) critical true c h k l = opens critical _ h (simp (chosen, k))
  quiet-breach cooldown warning false c h k l = waits warning cooldown _ c h (simp (chosen, k))
  quiet-breach cooldown critical false c h k l = waits critical cooldown _ c h (simp (chosen, k))

  -- A breach of an alarm that waits for its confirmation.
  pub raised-breach :
      (cooldown : Option ℕ) (before : AlertSeverity) (f : AlertSelectedEvidence)
      (level : AlertSeverity) (now_critical : Bool)
      → CooldownFits cooldown now
      → IsEvidence i before f
      → IsEvidence i level e
      → r.immediate_critical ≡ now_critical
      → (now_critical ≡ true → level ≡ critical)
      → Lands i now (advance_breach r (stored (raised i now cooldown before f)) now level)
  unfolding advance_breach start_or_continue_breach required_breaches pending_state
      advance_confirmed
  raised-breach cooldown before f no_alert b c g h k l = absurd (not-IsAlert h.1)
  raised-breach cooldown before f warning true c g h k l = absurd (warning-ne-critical (l refl))
  raised-breach cooldown no_alert f level b c g h k l = absurd (not-IsAlert g.1)
  raised-breach none warning f critical true c g h k l = opens critical _ h (simp (chosen, k))
  raised-breach (some until) warning f critical true c g h k l =
      opens critical _ h (simp (chosen, k))
  raised-breach none critical f critical true c g h k l = opens critical _ h (simp (chosen, k))
  raised-breach (some until) critical f critical true c g h k l =
      opens critical _ h (simp (chosen, k))
  raised-breach cooldown warning f critical false c g h k l =
      waits critical cooldown _ c h (simp (chosen, k))
  raised-breach none critical f critical false c g h k l = opens critical _ h (simp (chosen, k))
  raised-breach (some until) critical f critical false c g h k l =
      opens critical _ h (simp (chosen, k))
  raised-breach none warning f warning false c g h k l = opens warning _ h (simp (chosen, k))
  raised-breach (some until) warning f warning false c g h k l =
      waits warning (some until) _ c h (simp (chosen, k))
  raised-breach cooldown critical f warning false c g h k l =
      waits warning cooldown _ c h (simp (chosen, k))

  -- A critical breach of an alarm that fires at the level of a warning.
  pub firing-breach :
      (opened notified : ℕ) (shown : AlertSelectedEvidence) (breach : Option AlertSelectedEvidence)
      (clears : ℕ) (now_critical : Bool)
      → IsValid (firing i now opened notified warning shown breach clears) now
      → IsEvidence i critical e
      → r.immediate_critical ≡ now_critical
      → Lands i now (
          advance_breach r
            (stored (firing i now opened notified warning shown breach clears))
            now
            critical)
  unfolding advance_breach start_or_continue_breach required_breaches pending_state
      advance_confirmed
  firing-breach opened notified shown none clears false v h k = (
    record {
      intent = none;
      state = stored (firing i now opened notified warning shown (some e) 0);
    },
    simp (chosen, k),
    (
      firing i now opened notified warning shown (some e) 0,
      refl,
      (v.0, v.1, v.2, v.3, v.4, (refl, h, refl)),
      (refl, refl),
    ),
  )
  firing-breach opened notified shown none clears true v h k =
      escalates opened shown _ (omega (arith, v.2, v.3)) h (simp (chosen, k))
  firing-breach opened notified shown (some f) clears false v h k =
      escalates opened shown _ (omega (arith, v.2, v.3)) h (simp (chosen, k))
  firing-breach opened notified shown (some f) clears true v h k =
      escalates opened shown _ (omega (arith, v.2, v.3)) h (simp (chosen, k))
