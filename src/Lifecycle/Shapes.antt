-- ===== src/Lifecycle/Shapes.antt =====
-- Every state that `parseState` of apps/sso/worker/alert-evaluator.ts accepts has one of the shapes
-- of an alarm and is well formed.
use sso_pg72_tw.Common.{
  ℕ, ◌≤◌, ◌≡◌, refl, false, not, ◌&&◌, ltb, Option, none, some, arith, subst, sym, ok, inl, inr,
  ◌==◌, Option-cases,
}
use sso_pg72_tw.Alert.Types.{AlertSeverity, no_alert, warning, critical, AlertSelectedEvidence}
use sso_pg72_tw.Alert.Metrics.{is_null, differ}
use sso_pg72_tw.Alert.Contracts.{parse_alert_selected_evidence_for_rule}
use sso_pg72_tw.Alert.Accepted.{IsAlert}
use sso_pg72_tw.Lifecycle.{
  AlertLifecyclePhase, active, inactive, pending, AlertLifecycleIdentity, AlertLifecycleState,
}
use sso_pg72_tw.Lifecycle.Checks.{
  check_state, check_inactive, check_pending, check_active, evidence_differs, same_severity,
  is_level,
}
use sso_pg72_tw.Lifecycle.Alarm.{
  Alarm, unbound, quiet, raised, firing, breach_level, breach_count, stored, IsBound, BreachFits,
  IsValid,
}
use sso_pg72_tw.Lifecycle.Checked.{
  inactive_fields, cooldown_fits, phase_test, check_state-IsChecked, IsChecked,
}

-- What is known of a state that was put together from parsed fields.
pub record IsParsed (s : AlertLifecycleState) : Type 0 where
  pub identity-IsBound : (i : AlertLifecycleIdentity) → s.identity ≡ some i → IsBound i
  pub shown_parses :
      (i : AlertLifecycleIdentity) (e : AlertSelectedEvidence)
      → s.identity ≡ some i
      → s.active_evidence ≡ some e
      → parse_alert_selected_evidence_for_rule e i.rule ≡ ok e
  pub breach_parses :
      (i : AlertLifecycleIdentity) (e : AlertSelectedEvidence)
      → s.identity ≡ some i
      → s.breach_evidence ≡ some e
      → parse_alert_selected_evidence_for_rule e i.rule ≡ ok e
  pub level_alerts : (level : AlertSeverity) → s.breach_severity ≡ some level → IsAlert level
  pub breaches_capped : s.consecutive_breaches ≤ 1
  pub clears_capped : s.consecutive_clears ≤ 4

abbrev pub Represents : AlertLifecycleState → ℕ → Type 0
Represents s now = (a : Alarm) × (s ≡ stored a) × IsValid a now

some_of : {A : Type 0} (o : Option A) → is_null o ≡ false → (a : A) × (o ≡ some a)
some_of none h = cc
some_of (some a) h = (a, refl)

pending_fields :
    (s : AlertLifecycleState)
    → check_pending s ≡ false
    → (s.status ≡ no_alert)
      × (s.active_evidence ≡ none)
      × (is_null s.breach_evidence ≡ false)
      × (is_null s.identity ≡ false)
      × (s.opened_at ≡ none)
      × (s.last_notification_at ≡ none)
      × (is_null s.breach_severity ≡ false)
      × ((s.consecutive_breaches == 0) ≡ false)
      × (s.consecutive_clears ≡ 0)
unfolding check_pending
pending_fields s h = ground arith

active_fields :
    (s : AlertLifecycleState)
    → check_active s ≡ false
    → IsAlert s.status
      × (is_null s.active_evidence ≡ false)
      × (evidence_differs s.active_evidence (some s.status) ≡ false)
      × (is_null s.identity ≡ false)
      × (is_null s.opened_at ≡ false)
      × (is_null s.last_notification_at ≡ false)
      × (s.cooldown_until ≡ none)
unfolding check_active
active_fields s h = ground arith

level_matches : (a b : AlertSeverity) → not (same_severity a b) ≡ false → b ≡ a
level_matches no_alert no_alert h = refl
level_matches warning warning h = refl
level_matches critical critical h = refl
level_matches _ _ h = cc

represent_inactive :
    (s : AlertLifecycleState) (now : ℕ)
    → IsParsed s
    → s.phase ≡ inactive
    → check_inactive s ≡ false
    → IsChecked s now
    → Represents s now
represent_inactive s now h p k c =
    let fields = inactive_fields s k in
    elim (Option-cases s.identity) [
      | inl free ↦ (unbound, ground (arith, c.watermarked, c.cooled, fields), tt)
      | inr (i, bound) ↦ elim (Option-cases s.last_evaluated_at) [
        | inl never ↦ absurd (ground (arith, c.watermarked))
        | inr (seen, at_time) ↦ (
          quiet i seen s.cooldown_until,
          ground (arith, fields),
          (
            h.identity-IsBound i bound,
            ground (arith, c.seen_past),
            cooldown_fits s.cooldown_until seen (rw at_time at c.cooled),
          ),
        )
      ]
    ]

represent_pending :
    (s : AlertLifecycleState) (now : ℕ)
    → IsParsed s
    → s.phase ≡ pending
    → check_pending s ≡ false
    → IsChecked s now
    → Represents s now
represent_pending s now h p k c =
    let fields = pending_fields s k in
    let (i, bound) = some_of s.identity fields.3 in
    let (e, breach) = some_of s.breach_evidence fields.2 in
    let (level, raised_to) = some_of s.breach_severity fields.6 in
    let (seen, at_time) = some_of s.last_evaluated_at (ground (arith, c.watermarked)) in
    (
      raised i seen s.cooldown_until level e,
      ground (arith, fields, h.breaches_capped),
      (
        h.identity-IsBound i bound,
        ground (arith, c.seen_past),
        cooldown_fits s.cooldown_until seen (rw at_time at c.cooled),
        (
          level_matches level e.severity (ground (arith, c.levelled)),
          h.level_alerts level raised_to,
          h.breach_parses i e bound breach,
        ),
      ),
    )

is_critical_breach :
    (status level : AlertSeverity)
    → not (same_severity status warning && same_severity level critical) ≡ false
    → (status ≡ warning) × (level ≡ critical)
is_critical_breach warning critical h = (refl, refl)
is_critical_breach _ _ h = cc

-- The breach that an active state may carry.
breach_shape :
    (i : AlertLifecycleIdentity) (status : AlertSeverity) (o : Option AlertSelectedEvidence)
    (level : Option AlertSeverity) (count clears : ℕ)
    → differ (is_null level) (count == 0) ≡ false
    → differ (is_null o) (is_null level) ≡ false
    → evidence_differs o level ≡ false
    → ltb 0 count && ltb 0 clears ≡ false
    → not (is_null level) && not (same_severity status warning && is_level level critical) ≡ false
    → count ≤ 1
    → clears ≤ 4
    → ((e : AlertSelectedEvidence)
        → o ≡ some e
        → parse_alert_selected_evidence_for_rule e i.rule ≡ ok e)
    → (level ≡ breach_level o) × (count ≡ breach_count o) × BreachFits i status o clears
breach_shape i status none none count clears a b c d l m n k = (refl, ground arith, n)
breach_shape i status (some e) (some level) count clears a b c d l m n k =
    let (warns, turns) = is_critical_breach status level l in
    let mine : e.severity ≡ critical = rw turns at (level_matches level e.severity c) in
    (rw turns, ground arith, (warns, (mine, refl, k e refl), ground arith))
breach_shape i status none (some level) count clears a b c d l m n k = cc
breach_shape i status (some e) none count clears a b c d l m n k = cc

represent_active :
    (s : AlertLifecycleState) (now : ℕ)
    → IsParsed s
    → s.phase ≡ active
    → check_active s ≡ false
    → not (is_null s.breach_severity)
        && not (same_severity s.status warning && is_level s.breach_severity critical)
      ≡ false
    → IsChecked s now
    → Represents s now
represent_active s now h p k l c =
    let fields = active_fields s k in
    let (i, bound) = some_of s.identity fields.3 in
    let (e, shown) = some_of s.active_evidence fields.1 in
    let (opened, at_opening) = some_of s.opened_at fields.4 in
    let (notified, at_notice) = some_of s.last_notification_at fields.5 in
    let (seen, at_time) = some_of s.last_evaluated_at (ground (arith, c.watermarked)) in
    let breach =
      breach_shape i s.status s.breach_evidence s.breach_severity s.consecutive_breaches
        s.consecutive_clears c.counted c.agrees c.levelled c.one_counter l h.breaches_capped
        h.clears_capped (λ e. h.breach_parses i e bound) in
    (
      firing i seen opened notified s.status e s.breach_evidence s.consecutive_clears,
      ground (arith, fields),
      (
        h.identity-IsBound i bound,
        ground (arith, c.seen_past),
        ground (arith, c.notified_opened),
        ground (arith, c.notified_seen),
        (
          level_matches s.status e.severity (rw shown at fields.2),
          fields.0,
          h.shown_parses i e bound shown,
        ),
        breach.2,
      ),
    )

pub represent_state :
    (s v : AlertLifecycleState) (now : ℕ)
    → IsParsed s
    → check_state s now ≡ ok v
    → (v ≡ s) × Represents v now
represent_state s v now h k =
    let (same, test, checked) = check_state-IsChecked s v now k in
    (same, subst (λ x. Represents x now) (sym same) (go s.phase refl test checked))
  where
    go :
        (p : AlertLifecyclePhase)
        → s.phase ≡ p
        → phase_test p s ≡ false
        → IsChecked s now
        → Represents s now
    go inactive e t c = represent_inactive s now h e t c
    go pending e t c = represent_pending s now h e t c
    go active e t c = represent_active s now h e (ground arith) (ground arith) c
