-- ===== src/Alert/Verdicts.antt =====
-- What the thresholds of a severity say of the windows, in apps/sso/worker/alert-rules.ts:
-- `evaluateWindowThresholds` against the meaning of the thresholds.
use sso_pg72_tw.Common.{
  ℕ, ◌≤◌, ◌≡◌, ◌≢◌, false, Option, none, some, List, [], ◌∷◌, ◌++◌, arith, ok, subst, length, All,
  All-append,
}
use sso_pg72_tw.Alert.Types.{
  AlertSeverity, no_alert, warning, critical, AlertEvidenceStatus, AlertWindowKey, Windowed,
  at_window, Metric, MetricBag, Threshold,
}
use sso_pg72_tw.Alert.Definitions.{AlertRuleDefinition, threshold_at}
use sso_pg72_tw.Alert.Expression.{Outcome, breached, clear, unknown}
use sso_pg72_tw.Alert.Kleene.{Holds, IsCompletion, Agrees, evaluate_expression-Agrees}
use sso_pg72_tw.Alert.Totality.{width, Fits, Fits-mono, evaluate_expression-Fits}
use sso_pg72_tw.Alert.Evaluate.{Match, WindowEvaluation, record_outcome, AlertRuleEvaluation}
use sso_pg72_tw.Alert.Windows.{
  OptionNarrow, threshold_outcome, window_outcome, collect, evaluate_expression-ok,
}

-- The threshold of the severity holds in the window, when the metrics have the values `v`.
abbrev pub HoldsOption : (Metric → ℕ) → Option Threshold → Type 0
HoldsOption v none = ⊥
HoldsOption v (some t) = Holds v t

abbrev pub HoldsAt :
    AlertRuleDefinition → (AlertWindowKey → Metric → ℕ) → AlertSeverity → AlertWindowKey → Type 0
HoldsAt d v s w = HoldsOption (v w) (threshold_at d w s)

-- An evaluation is justified by the values `v`: it alerts in windows in which the threshold of its
-- severity holds, there is one if it alerts, and if it reports no alert on known evidence then no
-- threshold of the rule holds.
pub record IsJustified (d : AlertRuleDefinition) (v : AlertWindowKey → Metric → ℕ)
    (r : AlertRuleEvaluation) : Type 0 where
  pub alerts_hold : All (HoldsAt d v r.severity) r.breached_windows
  pub alerts_named : r.severity ≢ no_alert → r.breached_windows ≢ []
  pub quiet_clear :
      r.severity ≡ no_alert
      → r.evidence ≡ AlertEvidenceStatus.known
      → (w : AlertWindowKey) → ¬ HoldsAt d v critical w × ¬ HoldsAt d v warning w

-- What the loop knows of a match.
abbrev pub IsMatch :
    AlertRuleDefinition → (AlertWindowKey → Metric → ℕ) → AlertSeverity → Match → Type 0
IsMatch d v s m = HoldsAt d v s m.window × (1 ≤ length m.components) × (length m.components ≤ 2)

abbrev pub IsSilent : WindowEvaluation → Type 0
IsSilent e = (e.matches ≡ []) × (e.unknown ≡ false)

append-ne-nil : (ms : List Match) (m : Match) → ms ++ m ∷ [] ≢ []
append-ne-nil [] m e = cc
append-ne-nil (n ∷ ms) m e = cc

module _ (d : AlertRuleDefinition) (metrics : Windowed MetricBag) (s : AlertSeverity)
    (v : AlertWindowKey → Metric → ℕ)
    (completes : (w : AlertWindowKey) → IsCompletion (at_window metrics w) (v w))
    (narrow : (w : AlertWindowKey) → OptionNarrow (threshold_at d w s)) where
  threshold_outcome-Agrees :
      (w : AlertWindowKey) (o : Option Threshold)
      → OptionNarrow o
      → Agrees (HoldsOption (v w) o) (ok (threshold_outcome o (at_window metrics w)))
        × Fits 1 2 (ok (threshold_outcome o (at_window metrics w)))
  threshold_outcome-Agrees w none h = ((λ n. n), tt)
  threshold_outcome-Agrees w (some t) h =
      let bag : MetricBag = at_window metrics w in
      let returns = evaluate_expression-ok t bag h.0 in
      (
        subst (Agrees (Holds (v w) t)) returns
            (evaluate_expression-Agrees bag (v w) t (completes w)),
        Fits-mono 1 (width t) 1 2 (ok (threshold_outcome (some t) bag)) (omega arith) h.1
            (subst (Fits 1 (width t)) returns (evaluate_expression-Fits bag t h.0)),
      )

  record_outcome_sound :
      (w : AlertWindowKey) (e : WindowEvaluation) (o : Outcome)
      → Agrees (HoldsAt d v s w) (ok o)
      → Fits 1 2 (ok o)
      → All (IsMatch d v s) e.matches
      → All (IsMatch d v s) (record_outcome w e o).matches
        × (IsSilent (record_outcome w e o) → IsSilent e × ¬ HoldsAt d v s w)
  unfolding record_outcome
  record_outcome_sound w e (breached found) a f h = (
    All-append (IsMatch d v s) e.matches _ h ((a, f.0, f.1), tt),
    λ q. absurd (append-ne-nil e.matches _ q.0),
  )
  record_outcome_sound w e clear a f h = (h, λ q. (q, a))
  record_outcome_sound w e unknown a f h = (h, λ q. cc (q.1))

  pub collect_sound :
      (ws : List AlertWindowKey) (e : WindowEvaluation)
      → All (IsMatch d v s) e.matches
      → All (IsMatch d v s) (collect d metrics s ws e).matches
        × (IsSilent (collect d metrics s ws e) → IsSilent e × All (λ w. ¬ HoldsAt d v s w) ws)
  collect_sound [] e h = (h, λ q. (q, tt))
  collect_sound (w ∷ ws) e h =
      let (agrees, fits) = threshold_outcome-Agrees w (threshold_at d w s) (narrow w) in
      let (kept, silent) = record_outcome_sound w e (window_outcome d metrics s w) agrees fits h in
      let (matched, quiet) =
        collect_sound ws (record_outcome w e (window_outcome d metrics s w)) kept in
      (
        matched,
        λ q.
            let (before, rest) = quiet q in
            let (start, here) = silent before in (start, (here, rest)),
      )
