-- ===== src/Lifecycle/Steps.antt =====
-- One step of `advanceAlertLifecycle` in apps/sso/worker/alert-evaluator.ts from a well-formed state:
-- it returns, in a well-formed state.
use sso_pg72_tw.Common.{
  ℕ, ◌≤◌, ◌≡◌, refl, true, Option, none, some, arith, subst, leb, inl, inr, Bool-cases, ok,
}
use sso_pg72_tw.Alert.Types.{
  AlertSeverity, no_alert, warning, critical, AlertEvidenceStatus, known, unknown,
  AlertSelectedEvidence,
}
use sso_pg72_tw.Alert.Evaluate.{AlertRuleEvaluation}
use sso_pg72_tw.Alert.Accepted.{IsAlert}
use sso_pg72_tw.Alert.Roundtrip.{Backs}
use sso_pg72_tw.Lifecycle.{AlertLifecycleIdentity}
use sso_pg72_tw.Lifecycle.Alarm.{
  Alarm, unbound, quiet, raised, firing, stored, IsValid, IsBound, IsEvidence, CooldownFits,
}
use sso_pg72_tw.Lifecycle.Advance.{
  advance_alerting, advance_clear, advance_known, advance_unknown, advance_bound, rest_state,
  live_cooldown,
}
use sso_pg72_tw.Lifecycle.Stable.{IsAt, Lands, stable-Lands, refreshed-Lands, clear-Lands}
use sso_pg72_tw.Lifecycle.Breach.{not-IsAlert, quiet-breach, raised-breach, firing-breach}

live_cooldown_fits :
    (c : Option ℕ) (seen now : ℕ)
    → seen ≤ now
    → CooldownFits c seen
    → CooldownFits (live_cooldown c now) now
live_cooldown_fits none seen now p h = tt
live_cooldown_fits (some until) seen now p h = elim (Bool-cases (leb until now)) [
  | inl over ↦ rw over tt
  | inr running ↦ rw running (omega arith)
]

-- A bound alarm has the identity.
abbrev pub HasIdentity : AlertLifecycleIdentity → Alarm → Type 0
HasIdentity i unbound = Unit
HasIdentity i (quiet j seen cooldown) = j ≡ i
HasIdentity i (raised j seen cooldown level e) = j ≡ i
HasIdentity i (firing j seen opened notified level shown breach clears) = j ≡ i

module _ (r : AlertRuleEvaluation) (i : AlertLifecycleIdentity) (now : ℕ) (bound : IsBound i)
    (top : r.immediate_critical ≡ true → r.severity ≡ critical) where
  abbrev Backed : AlertSeverity → Type 0
  Backed s = (r.severity ≡ s) × Backs i.rule r.selected s

  backed-IsEvidence :
      (s : AlertSeverity)
      → Backs i.rule r.selected s
      → IsAlert s
      → (e : AlertSelectedEvidence) × (r.selected ≡ some e) × IsEvidence i s e
  backed-IsEvidence s h alert = go r.selected refl h
    where
      go :
          (o : Option AlertSelectedEvidence)
          → r.selected ≡ o
          → Backs i.rule o s
          → (e : AlertSelectedEvidence) × (r.selected ≡ some e) × IsEvidence i s e
      go none p k = absurd (not-IsAlert (rw k at alert))
      go (some e) p k = (e, p, k)

  level_top : (s : AlertSeverity) → r.severity ≡ s → r.immediate_critical ≡ true → s ≡ critical
  level_top s h k = rw (← h) (top k)

  quiet-known :
      (cooldown : Option ℕ) (s : AlertSeverity)
      → CooldownFits cooldown now
      → Backed s
      → Lands i now (advance_known s r (stored (quiet i now cooldown)) now)
  unfolding advance_known advance_clear rest_state advance_alerting
  quiet-known cooldown no_alert c h =
      (_, refl, (quiet i now cooldown, refl, (bound, omega arith, c), (refl, refl)))
  quiet-known cooldown warning c h =
      let (e, p, k) = backed-IsEvidence warning h.1 refl in
      quiet-breach r i now e bound p cooldown warning r.immediate_critical c k refl
        (level_top warning h.0)
  quiet-known cooldown critical c h =
      let (e, p, k) = backed-IsEvidence critical h.1 refl in
      quiet-breach r i now e bound p cooldown critical r.immediate_critical c k refl
        (level_top critical h.0)

  raised-known :
      (cooldown : Option ℕ) (before : AlertSeverity) (f : AlertSelectedEvidence) (s : AlertSeverity)
      → CooldownFits cooldown now
      → IsEvidence i before f
      → Backed s
      → Lands i now (advance_known s r (stored (raised i now cooldown before f)) now)
  unfolding advance_known advance_clear rest_state advance_alerting
  raised-known cooldown before f no_alert c g h =
      (_, refl, (quiet i now cooldown, refl, (bound, omega arith, c), (refl, refl)))
  raised-known cooldown before f warning c g h =
      let (e, p, k) = backed-IsEvidence warning h.1 refl in
      raised-breach r i now e bound p cooldown before f warning r.immediate_critical c g k refl
        (level_top warning h.0)
  raised-known cooldown before f critical c g h =
      let (e, p, k) = backed-IsEvidence critical h.1 refl in
      raised-breach r i now e bound p cooldown before f critical r.immediate_critical c g k refl
        (level_top critical h.0)

  firing-known :
      (opened notified : ℕ) (level : AlertSeverity) (shown : AlertSelectedEvidence)
      (breach : Option AlertSelectedEvidence) (clears : ℕ) (s : AlertSeverity)
      → IsValid (firing i now opened notified level shown breach clears) now
      → Backed s
      → Lands i now
          (advance_known s r (stored (firing i now opened notified level shown breach clears)) now)
  unfolding advance_known advance_alerting
  firing-known opened notified level shown breach clears no_alert v h =
      clear-Lands r i now opened notified level shown breach clears v
  firing-known opened notified no_alert shown breach clears s v h = absurd (not-IsAlert v.4.1)
  firing-known opened notified critical shown breach clears warning v h =
      stable-Lands r i now opened notified critical shown breach clears v
  firing-known opened notified critical shown breach clears critical v h =
      let (e, p, k) = backed-IsEvidence critical h.1 refl in
      refreshed-Lands r i now opened notified critical shown breach clears v e p k
  firing-known opened notified warning shown breach clears warning v h =
      let (e, p, k) = backed-IsEvidence warning h.1 refl in
      refreshed-Lands r i now opened notified warning shown breach clears v e p k
  firing-known opened notified warning shown breach clears critical v h =
      let (e, p, k) = backed-IsEvidence critical h.1 refl in
      firing-breach r i now e bound p opened notified shown breach clears r.immediate_critical v k
        refl

  -- The alarm on evidence that is not known.
  unknown-Lands :
      (a : Alarm) → IsValid a now → IsAt i now a → Lands i now (ok (advance_unknown (stored a)))
  unfolding advance_unknown
  unknown-Lands unbound v h = absurd h
  unknown-Lands (quiet j seen cooldown) v h = (_, refl, (quiet j seen cooldown, refl, v, h))
  unknown-Lands (raised j seen cooldown level e) v h =
      (_, refl, (quiet j seen cooldown, refl, (v.0, v.1, v.2), h))
  unknown-Lands (firing j seen opened notified no_alert shown breach clears) v h =
      absurd (not-IsAlert v.4.1)
  unknown-Lands (firing j seen opened notified warning shown breach clears) v h = (
    _,
    refl,
    (
      firing j seen opened notified warning shown none 0,
      refl,
      (v.0, v.1, v.2, v.3, v.4, omega arith),
      h,
    ),
  )
  unknown-Lands (firing j seen opened notified critical shown breach clears) v h = (
    _,
    refl,
    (
      firing j seen opened notified critical shown none 0,
      refl,
      (v.0, v.1, v.2, v.3, v.4, omega arith),
      h,
    ),
  )

  by_evidence :
      (m : AlertEvidenceStatus) (a : Alarm)
      → IsValid a now
      → IsAt i now a
      → Lands i now (advance_known r.severity r (stored a) now)
      → Lands i now (elim m [
        | unknown ↦ ok (advance_unknown (stored a))
        | known ↦ advance_known r.severity r (stored a) now
      ])
  by_evidence unknown a v h k = unknown-Lands a v h
  by_evidence known a v h k = k

  pub bound-Lands :
      (a : Alarm) (seen : ℕ)
      → IsValid a seen
      → seen ≤ now
      → HasIdentity i a
      → Backs i.rule r.selected r.severity
      → Lands i now (advance_bound r (stored a) now i)
  unfolding advance_bound
  bound-Lands unbound seen v p h k =
      by_evidence r.evidence (quiet i now none) (bound, omega arith, tt) (refl, refl)
        (quiet-known none r.severity tt (refl, k))
  bound-Lands (quiet j at_time cooldown) seen v p h k =
      let c = live_cooldown_fits cooldown at_time now (omega (arith, v.1)) v.2 in
      by_evidence r.evidence (quiet i now (live_cooldown cooldown now)) (bound, omega arith, c)
        (refl, refl) (quiet-known (live_cooldown cooldown now) r.severity c (refl, k))
  bound-Lands (raised j at_time cooldown level e) seen v p h k =
      let c = live_cooldown_fits cooldown at_time now (omega (arith, v.1)) v.2 in
      let evidence : IsEvidence i level e = rw (← h) v.3 in
      by_evidence r.evidence (raised i now (live_cooldown cooldown now) level e)
        (bound, omega arith, c, evidence) (refl, refl)
        (raised-known (live_cooldown cooldown now) level e r.severity c evidence (refl, k))
  bound-Lands (firing j at_time opened notified level shown breach clears) seen v p h k =
      let moved : IsValid (firing i at_time opened notified level shown breach clears) seen =
        subst (λ x. IsValid (firing x at_time opened notified level shown breach clears) seen) h
          v in
      let valid : IsValid (firing i now opened notified level shown breach clears) now =
        (bound, omega arith, v.2, omega (arith, v.1, v.3), moved.4, moved.5) in
      by_evidence r.evidence (firing i now opened notified level shown breach clears) valid
        (refl, refl)
        (firing-known opened notified level shown breach clears r.severity valid (refl, k))
