-- ===== src/Lifecycle/Checked.antt =====
-- What the checks of `parseState` in apps/sso/worker/alert-evaluator.ts tell of a state that passes.
use sso_pg72_tw.Common.{
  ℕ, ◌≡◌, Bool, false, not, ◌||◌, ◌&&◌, ltb, Option, none, some, arith, Result, ok, ◌==◌,
}
use sso_pg72_tw.Common.Results.{unless-ok}
use sso_pg72_tw.Alert.Types.{no_alert, warning, critical}
use sso_pg72_tw.Alert.Metrics.{is_null, differ}
use sso_pg72_tw.Lifecycle.{AlertLifecyclePhase, active, inactive, pending, AlertLifecycleState}
use sso_pg72_tw.Lifecycle.Checks.{
  check_state, check_inactive, check_pending, check_active, check_phase, check_times,
  cooldown_exceeds, evidence_differs, is_after, is_later, same_severity, is_level,
}
use sso_pg72_tw.Lifecycle.Alarm.{CooldownFits}

pub inactive_fields :
    (s : AlertLifecycleState)
    → check_inactive s ≡ false
    → (s.status ≡ no_alert)
      × (s.active_evidence ≡ none)
      × (s.breach_evidence ≡ none)
      × (s.opened_at ≡ none)
      × (s.last_notification_at ≡ none)
      × (s.breach_severity ≡ none)
      × (s.consecutive_breaches ≡ 0)
      × (s.consecutive_clears ≡ 0)
unfolding check_inactive
inactive_fields s h = ground arith

pub cooldown_fits :
    (c : Option ℕ) (seen : ℕ) → cooldown_exceeds c (some seen) ≡ false → CooldownFits c seen
cooldown_fits none seen h = tt
cooldown_fits (some until) seen h = ground arith

pub record IsChecked (s : AlertLifecycleState) (now : ℕ) : Type 0 where
  pub counted : differ (is_null s.breach_severity) (s.consecutive_breaches == 0) ≡ false
  pub agrees : differ (is_null s.breach_evidence) (is_null s.breach_severity) ≡ false
  pub levelled : evidence_differs s.breach_evidence s.breach_severity ≡ false
  pub one_counter : ltb 0 s.consecutive_breaches && ltb 0 s.consecutive_clears ≡ false
  pub watermarked : differ (is_null s.identity) (is_null s.last_evaluated_at) ≡ false
  pub cooled : cooldown_exceeds s.cooldown_until s.last_evaluated_at ≡ false
  pub seen_past : is_after s.last_evaluated_at now ≡ false
  pub opened_seen : is_later s.opened_at s.last_evaluated_at ≡ false
  pub notified_seen : is_later s.last_notification_at s.last_evaluated_at ≡ false
  pub notified_opened : is_later s.opened_at s.last_notification_at ≡ false

check_times-IsChecked :
    (s v : AlertLifecycleState) (now : ℕ)
    → check_times s now ≡ ok v
    → (v ≡ s)
      × (is_after s.last_evaluated_at now ≡ false)
      × (is_later s.opened_at s.last_evaluated_at ≡ false)
      × (is_later s.last_notification_at s.last_evaluated_at ≡ false)
      × (is_later s.opened_at s.last_notification_at ≡ false)
unfolding check_times
check_times-IsChecked s v now h = ground arith

abbrev pub phase_test : AlertLifecyclePhase → AlertLifecycleState → Bool
phase_test inactive s = check_inactive s
phase_test pending s = check_pending s
phase_test active s =
    check_active s
    || (not (is_null s.breach_severity)
        && not (same_severity s.status warning && is_level s.breach_severity critical))

check_phase_test :
    (p : AlertLifecyclePhase) (s v : AlertLifecycleState) (rest : Result AlertLifecycleState)
    → check_phase p s rest ≡ ok v
    → (phase_test p s ≡ false) × (rest ≡ ok v)
unfolding check_phase
check_phase_test inactive s v rest h = unless-ok (check_inactive s) _ _ h
check_phase_test pending s v rest h = unless-ok (check_pending s) _ _ h
check_phase_test active s v rest h = ground arith

pub check_state-IsChecked :
    (s v : AlertLifecycleState) (now : ℕ)
    → check_state s now ≡ ok v
    → (v ≡ s) × (phase_test s.phase s ≡ false) × IsChecked s now
unfolding check_state
check_state-IsChecked s v now h =
    let (a, h1) =
      unless-ok (differ (is_null s.breach_severity) (s.consecutive_breaches == 0)) _ _ h in
    let (b, h2) =
      unless-ok
        (differ (is_null s.breach_evidence) (is_null s.breach_severity)
          || evidence_differs s.breach_evidence s.breach_severity)
        _ _ h1 in
    let (c, h3) = unless-ok (ltb 0 s.consecutive_breaches && ltb 0 s.consecutive_clears) _ _ h2 in
    let (d, h4) = unless-ok (differ (is_null s.identity) (is_null s.last_evaluated_at)) _ _ h3 in
    let (e, h5) = unless-ok (cooldown_exceeds s.cooldown_until s.last_evaluated_at) _ _ h4 in
    let (f, h6) = check_phase_test s.phase s v (check_times s now) h5 in
    let (same, g1, g2, g3, g4) = check_times-IsChecked s v now h6 in
    (
      same,
      f,
      record {
        counted = a;
        agrees = ground arith;
        levelled = ground arith;
        one_counter = c;
        watermarked = d;
        cooled = e;
        seen_past = g1;
        opened_seen = g2;
        notified_seen = g3;
        notified_opened = g4;
      },
    )
