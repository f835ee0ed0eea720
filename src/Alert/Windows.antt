-- ===== src/Alert/Windows.antt =====
-- The windows of a severity, reduced to one outcome for each window.
use sso_pg72_tw.Common.{
  ℕ, ◌≤◌, ◌≡◌, refl, false, Option, none, some, List, [], ◌∷◌, arith, Result, ok, throw, ◌∙◌,
}
use sso_pg72_tw.Common.Results.{◌>>=◌}
use sso_pg72_tw.Alert.Types.{
  AlertRuleId, AlertSeverity, AlertWindowKey, alert_window_keys, Windowed, at_window, MetricBag,
  Threshold,
}
use sso_pg72_tw.Alert.Definitions.{
  WindowThreshold, AlertRuleDefinition, definition_for_alert_rule, threshold_at,
}
use sso_pg72_tw.Alert.Expression.{Outcome, clear, evaluate_expression}
use sso_pg72_tw.Alert.Totality.{IsNarrow, width, Fits, evaluate_expression-Fits}
use sso_pg72_tw.Alert.Evaluate.{
  WindowEvaluation, record_outcome, evaluate_windows, evaluate_window_thresholds,
}

-- The outcome that a result carries; no rule of the table reaches the second case.
abbrev outcome_of : Result Outcome → Outcome
outcome_of (ok o) = o
outcome_of (throw e) = clear

abbrev pub threshold_outcome : Option Threshold → MetricBag → Outcome
threshold_outcome none bag = clear
threshold_outcome (some t) bag = outcome_of (evaluate_expression t bag)

abbrev pub OptionNarrow : Option Threshold → Type 0
OptionNarrow none = Unit
OptionNarrow (some t) = IsNarrow t × (width t ≤ 2)

abbrev WindowNarrow : WindowThreshold → Type 0
WindowNarrow t = OptionNarrow t.critical × OptionNarrow t.warning

abbrev DefinitionNarrow : AlertRuleDefinition → Type 0
DefinitionNarrow d =
    WindowNarrow d.thresholds.m5 × WindowNarrow d.thresholds.m15 × WindowNarrow d.thresholds.m60

definitions_narrow : (r : AlertRuleId) → DefinitionNarrow (definition_for_alert_rule r)
definitions_narrow AlertRuleId.registration_denied = omega arith
definitions_narrow _ = omega arith

at_narrow :
    (d : AlertRuleDefinition) (w : AlertWindowKey) (s : AlertSeverity)
    → DefinitionNarrow d
    → OptionNarrow (threshold_at d w s)
at_narrow d AlertWindowKey.w5m AlertSeverity.critical h = h.0.0
at_narrow d AlertWindowKey.w5m AlertSeverity.warning h = h.0.1
at_narrow d AlertWindowKey.w15m AlertSeverity.critical h = h.1.0
at_narrow d AlertWindowKey.w15m AlertSeverity.warning h = h.1.1
at_narrow d AlertWindowKey.w60m AlertSeverity.critical h = h.2.0
at_narrow d AlertWindowKey.w60m AlertSeverity.warning h = h.2.1
at_narrow d w AlertSeverity.no_alert h = tt

-- In every threshold of every alert rule each `all` is non-empty and reports at most two components,
-- and so does the threshold as a whole.
pub definitions-OptionNarrow :
    (r : AlertRuleId) (w : AlertWindowKey) (s : AlertSeverity)
    → OptionNarrow (threshold_at (definition_for_alert_rule r) w s)
definitions-OptionNarrow r w s = at_narrow (definition_for_alert_rule r) w s (definitions_narrow r)

ok-outcome_of : (lo hi : ℕ) (r : Result Outcome) → Fits lo hi r → r ≡ ok (outcome_of r)
ok-outcome_of lo hi (ok o) h = refl
ok-outcome_of lo hi (throw e) h = absurd h

pub evaluate_expression-ok :
    (t : Threshold) (bag : MetricBag)
    → IsNarrow t
    → evaluate_expression t bag ≡ ok (threshold_outcome (some t) bag)
evaluate_expression-ok t bag h = ok-outcome_of 1 (width t) _ (evaluate_expression-Fits bag t h)

-- One window of the loop.
window_step :
    (w : AlertWindowKey) (bag : MetricBag) (e : WindowEvaluation) (o : Option Threshold)
    (next : WindowEvaluation → Result WindowEvaluation)
    → OptionNarrow o
    → let step : Result WindowEvaluation = elim o [
      | none ↦ next e
      | some t ↦ evaluate_expression t bag >>= λ result. next (record_outcome w e result)
    ] in
      step ≡ next (record_outcome w e (threshold_outcome o bag))
unfolding record_outcome
window_step w bag e none next h = refl
window_step w bag e (some t) next h = rw (evaluate_expression-ok t bag h.0)

module _ (d : AlertRuleDefinition) (metrics : Windowed MetricBag) (s : AlertSeverity) where
  abbrev pub window_outcome : AlertWindowKey → Outcome
  window_outcome w = threshold_outcome (threshold_at d w s) (at_window metrics w)

  abbrev pub collect : List AlertWindowKey → WindowEvaluation → WindowEvaluation
  collect [] e = e
  collect (w ∷ ws) e = collect ws (record_outcome w e (window_outcome w))

  module _ (narrow : (w : AlertWindowKey) → OptionNarrow (threshold_at d w s)) where
    evaluate_windows-collect :
        (ws : List AlertWindowKey) (e : WindowEvaluation)
        → evaluate_windows d metrics s ws e ≡ ok (collect ws e)
    unfolding evaluate_windows
    evaluate_windows-collect [] e = refl
    evaluate_windows-collect (w ∷ ws) e =
        window_step w (at_window metrics w) e (threshold_at d w s) (evaluate_windows d metrics s ws)
          (narrow w)
        ∙ evaluate_windows-collect ws (record_outcome w e (window_outcome w))

    pub evaluate_window_thresholds-collect :
        evaluate_window_thresholds d metrics s
        ≡ ok (collect alert_window_keys (record { matches = []; unknown = false }))
    unfolding evaluate_window_thresholds
    evaluate_window_thresholds-collect = evaluate_windows-collect alert_window_keys _
