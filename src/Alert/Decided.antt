-- ===== src/Alert/Decided.antt =====
-- `evaluateAlertRule` of apps/sso/worker/alert-rules.ts where everything that the rule reads is
-- known: then its severity is decided by the thresholds alone.
use sso_pg72_tw.Common.{
  ℕ, ◌≡◌, refl, ◌≢◌, ◌↔◌, ◌⊎◌, inl, inr, Bool, false, List, [], ◌∷◌, All, Result, ok, throw,
}
use sso_pg72_tw.Common.Results.{◌>>=◌}
use sso_pg72_tw.Alert.Types.{
  AlertSeverity, no_alert, warning, critical, AlertEvidenceStatus, AlertWindowKey,
  alert_window_keys, Metric, Windowed, at_window, MetricBag, AlertSelectedEvidence,
}
use sso_pg72_tw.Alert.Definitions.{AlertRuleDefinition, definition_for_alert_rule, threshold_at}
use sso_pg72_tw.Alert.Observation.{AlertRuleObservation, rule_id}
use sso_pg72_tw.Alert.Evaluate.{
  Match, WindowEvaluation, AlertRuleEvaluation, evaluate_metrics, choose_evaluation,
  critical_evaluation, warning_evaluation, alert_result,
}
use sso_pg72_tw.Alert.Kleene.{IsCompletion}
use sso_pg72_tw.Alert.Windows.{
  collect, definitions-OptionNarrow, evaluate_window_thresholds-collect,
}
use sso_pg72_tw.Alert.Severity.{
  every_window, evaluate_metrics-IsJustified, critical-ne-no_alert, warning-ne-no_alert,
}
use sso_pg72_tw.Alert.Verdicts.{HoldsAt, IsJustified, collect_sound}
use sso_pg72_tw.Alert.Known.{OptionCovers, collect_certain}

-- The severity is the highest whose threshold holds in some window, and the evidence is known.
pub record IsDecided (d : AlertRuleDefinition) (v : AlertWindowKey → Metric → ℕ)
    (r : AlertRuleEvaluation) : Type 0 where
  pub evidence_known : r.evidence ≡ AlertEvidenceStatus.known
  pub critical_iff : (r.severity ≡ critical) ↔ ((w : AlertWindowKey) × HoldsAt d v critical w)
  pub warning_iff : (r.severity ≡ warning) ↔ (
      ((w : AlertWindowKey) → ¬ HoldsAt d v critical w)
      × ((w : AlertWindowKey) × HoldsAt d v warning w))

-- What the choice between the severities leaves open: an alert below critical has no critical match.
abbrev IsChosen : List Match → AlertRuleEvaluation → Type 0
IsChosen ms r = (r.evidence ≡ AlertEvidenceStatus.known) × ((r.severity ≡ critical) ⊎ (ms ≡ []))

alert_chosen :
    (o : AlertRuleObservation) (s : AlertSeverity) (b : Bool) (ms : List Match)
    (x : Result AlertSelectedEvidence) (r : AlertRuleEvaluation)
    → (x >>= λ e. ok (alert_result o s b ms e)) ≡ ok r
    → (r.evidence ≡ AlertEvidenceStatus.known) × (r.severity ≡ s)
alert_chosen o s b ms (ok e) r h = (cc, cc)
alert_chosen o s b ms (throw m) r h = cc

choose_evaluation-IsChosen :
    (o : AlertRuleObservation) (ms : List Match) (warn : WindowEvaluation) (r : AlertRuleEvaluation)
    → warn.unknown ≡ false
    → choose_evaluation o ms false (ok warn) ≡ ok r
    → IsChosen ms r
unfolding choose_evaluation critical_evaluation warning_evaluation
choose_evaluation-IsChosen o (m ∷ ms) warn r u h =
    let (known_now, level) = alert_chosen o critical _ (m ∷ ms) _ r h in (known_now, inl level)
choose_evaluation-IsChosen o [] warn r u h = (go warn.matches (rw u at h), inr refl)
  where
    go :
        (ws : List Match)
        → warning_evaluation o false ws ≡ ok r
        → r.evidence ≡ AlertEvidenceStatus.known
    go [] e = cc
    go (w ∷ ws) e = (alert_chosen o warning false (w ∷ ws) _ r e).0

named_window :
    (d : AlertRuleDefinition) (v : AlertWindowKey → Metric → ℕ) (s : AlertSeverity)
    (ws : List AlertWindowKey)
    → ws ≢ []
    → All (HoldsAt d v s) ws
    → (w : AlertWindowKey) × HoldsAt d v s w
named_window d v s [] n h = absurd (n refl)
named_window d v s (w ∷ ws) n h = (w, h.0)

-- A justified evaluation on known evidence is decided, if no critical threshold holds below critical.
IsJustified-IsDecided :
    (d : AlertRuleDefinition) (v : AlertWindowKey → Metric → ℕ) (r : AlertRuleEvaluation)
    → IsJustified d v r
    → r.evidence ≡ AlertEvidenceStatus.known
    → (r.severity ≡ critical) ⊎ ((w : AlertWindowKey) → ¬ HoldsAt d v critical w)
    → IsDecided d v r
IsJustified-IsDecided d v r just evident top = go r.severity refl
  where
    alerts :
        (s : AlertSeverity) → r.severity ≡ s → s ≢ no_alert → (w : AlertWindowKey) × HoldsAt d v s w
    alerts s e n =
        named_window d v s r.breached_windows (just.alerts_named (rw e n))
          (rw e at just.alerts_hold)

    below : r.severity ≢ critical → (w : AlertWindowKey) → ¬ HoldsAt d v critical w
    below n = elim top [ inl c ↦ absurd (n c) | inr free ↦ free ]

    go : (s : AlertSeverity) → r.severity ≡ s → IsDecided d v r
    go critical e = record {
      evidence_known = evident;
      critical_iff = (λ _. alerts critical e critical-ne-no_alert, λ _. e);
      warning_iff = (
        λ h. cc,
        λ (free, _). absurd (let (w, h) = alerts critical e critical-ne-no_alert in free w h),
      );
    }
    go warning e = record {
      evidence_known = evident;
      critical_iff = (λ h. cc, λ (w, h). absurd (below (λ c. cc) w h));
      warning_iff = (λ _. (below (λ c. cc), alerts warning e warning-ne-no_alert), λ _. e);
    }
    go no_alert e = record {
      evidence_known = evident;
      critical_iff = (λ h. cc, λ (w, h). absurd ((just.quiet_clear e evident w).0 h));
      warning_iff = (λ h. cc, λ (_, (w, h)). absurd ((just.quiet_clear e evident w).1 h));
    }

evaluate_metrics-IsChosen :
    (o : AlertRuleObservation) (metrics : Windowed MetricBag) (r : AlertRuleEvaluation)
    → let d : AlertRuleDefinition = definition_for_alert_rule (rule_id o.body) in
      let none_yet : WindowEvaluation = record { matches = []; unknown = false } in
      (collect d metrics critical alert_window_keys none_yet).unknown ≡ false
      → (collect d metrics warning alert_window_keys none_yet).unknown ≡ false
      → evaluate_metrics o metrics ≡ ok r
      → IsChosen (collect d metrics critical alert_window_keys none_yet).matches r
unfolding evaluate_metrics
evaluate_metrics-IsChosen o metrics r sees sees_warnings returns =
    let d : AlertRuleDefinition = definition_for_alert_rule (rule_id o.body) in
    let narrow = definitions-OptionNarrow (rule_id o.body) in
    let none_yet : WindowEvaluation = record { matches = []; unknown = false } in
    let crit = collect d metrics critical alert_window_keys none_yet in
    let warn = collect d metrics warning alert_window_keys none_yet in
    choose_evaluation-IsChosen o crit.matches warn r sees_warnings (
      rw
        (
          evaluate_window_thresholds-collect d metrics critical (λ w. narrow w critical),
          evaluate_window_thresholds-collect d metrics warning (λ w. narrow w warning),
          sees,
        )
        at returns)

-- Where the metrics cover every threshold of the rule, the evaluation returns a decided result.
pub evaluate_metrics-IsDecided :
    (o : AlertRuleObservation) (metrics : Windowed MetricBag) (v : AlertWindowKey → Metric → ℕ)
    → ((w : AlertWindowKey) → IsCompletion (at_window metrics w) (v w))
    → ((w : AlertWindowKey) (s : AlertSeverity)
        → OptionCovers
            (at_window metrics w)
            (threshold_at (definition_for_alert_rule (rule_id o.body)) w s))
    → (r : AlertRuleEvaluation) × (evaluate_metrics o metrics ≡ ok r)
      × IsDecided (definition_for_alert_rule (rule_id o.body)) v r
evaluate_metrics-IsDecided o metrics v completes covered =
    let d : AlertRuleDefinition = definition_for_alert_rule (rule_id o.body) in
    let narrow = definitions-OptionNarrow (rule_id o.body) in
    let (r, returns, just) = evaluate_metrics-IsJustified o metrics v completes in
    let none_yet : WindowEvaluation = record { matches = []; unknown = false } in
    let sees =
      collect_certain d metrics critical (λ w. narrow w critical) (λ w. covered w critical)
        alert_window_keys none_yet in
    let sees_warnings =
      collect_certain d metrics warning (λ w. narrow w warning) (λ w. covered w warning)
        alert_window_keys none_yet in
    let (_, no_crit) =
      collect_sound d metrics critical v completes (λ w. narrow w critical) alert_window_keys
        none_yet tt in
    let (evident, top) = evaluate_metrics-IsChosen o metrics r sees sees_warnings returns in
    (
      r,
      returns,
      IsJustified-IsDecided d v r just evident (elim top [
        | inl c ↦ inl c
        | inr empty ↦ inr (every_window (λ w. ¬ HoldsAt d v critical w) (no_crit (empty, sees)).1)
      ]),
    )
