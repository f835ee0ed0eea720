-- ===== src/Alert/Severity.antt =====
-- What the severity of an evaluation says about the thresholds of its rule.
use sso_pg72_tw.Common.{
  ℕ, ◌≤◌, ◌≡◌, refl, ◌≢◌, Bool, true, false, ◌||◌, Option, none, some, List, [], ◌∷◌, arith, Result,
  ok, subst, length, All, Bool-cases, inl, inr,
}
use sso_pg72_tw.Alert.Types.{
  AlertRuleId, AlertSeverity, no_alert, warning, critical, AlertEvidenceStatus, AlertWindowKey,
  alert_window_keys, Windowed, at_window, Metric, MetricBag, AlertMetricEvidence,
  AlertSelectedEvidence,
}
use sso_pg72_tw.Alert.Definitions.{AlertRuleDefinition, definition_for_alert_rule}
use sso_pg72_tw.Alert.Kleene.{IsCompletion}
use sso_pg72_tw.Alert.Observation.{AlertRuleObservation, rule_id}
use sso_pg72_tw.Alert.Evaluate.{
  Match, WindowEvaluation, selected_evidence, is_immediate_critical_evidence, find_immediate,
  AlertRuleEvaluation, windows_of, chosen_critical, is_some, alert_result, critical_evaluation,
  warning_evaluation, choose_evaluation, evaluate_metrics,
}
use sso_pg72_tw.Alert.Windows.{
  collect, evaluate_window_thresholds-collect, definitions-OptionNarrow,
}
use sso_pg72_tw.Alert.Verdicts.{HoldsAt, IsMatch, IsSilent, IsJustified, collect_sound}

cons-ne-nil : (w : AlertWindowKey) (ws : List AlertWindowKey) → w ∷ ws ≢ []
cons-ne-nil w ws e = cc

pub unknown-ne-known : AlertEvidenceStatus.unknown ≢ AlertEvidenceStatus.known
unknown-ne-known e = cc

pub critical-ne-no_alert : critical ≢ no_alert
critical-ne-no_alert e = cc

pub warning-ne-no_alert : warning ≢ no_alert
warning-ne-no_alert e = cc

selected_evidence-ok :
    (found : List AlertMetricEvidence) (s : AlertSeverity) (w : AlertWindowKey)
    → 1 ≤ length found
    → length found ≤ 2
    → (e : AlertSelectedEvidence) × (selected_evidence found s w ≡ ok e)
unfolding selected_evidence
selected_evidence-ok [] s w p q = absurd (omega arith)
selected_evidence-ok (a ∷ []) s w p q = (_, refl)
selected_evidence-ok (a ∷ b ∷ []) s w p q = (_, refl)
selected_evidence-ok (a ∷ b ∷ c ∷ rest) s w p q = absurd (omega arith)

pub find_immediate-All :
    (P : Match → Type 0) (r : AlertRuleId) (ms : List Match) {m : Match}
    → All P ms
    → find_immediate r ms ≡ some m
    → P m
unfolding find_immediate
find_immediate-All P r [] h e = cc
find_immediate-All P r (n ∷ ms) {m} h e =
    elim (Bool-cases (is_immediate_critical_evidence r n.components)) [
      | inl here ↦ subst P (ground arith) h.0
      | inr later ↦ find_immediate-All P r ms h.1 (rw later at e)
    ]

All-windows_of :
    (d : AlertRuleDefinition) (v : AlertWindowKey → Metric → ℕ) (s : AlertSeverity)
    (ms : List Match)
    → All (IsMatch d v s) ms
    → All (HoldsAt d v s) (windows_of ms)
All-windows_of d v s [] h = tt
All-windows_of d v s (m ∷ ms) h = (h.0.0, All-windows_of d v s ms h.1)

module _ (o : AlertRuleObservation) (v : AlertWindowKey → Metric → ℕ) where
  abbrev def : AlertRuleDefinition
  def = definition_for_alert_rule (rule_id o.body)

  abbrev Justified : Result AlertRuleEvaluation → Type 0
  Justified m = (r : AlertRuleEvaluation) × (m ≡ ok r) × IsJustified def v r

  chosen-IsMatch :
      (i : Option Match) (m : Match) (ms : List Match)
      → find_immediate (rule_id o.body) (m ∷ ms) ≡ i
      → All (IsMatch def v critical) (m ∷ ms)
      → IsMatch def v critical (chosen_critical i m)
  chosen-IsMatch none m ms e h = h.0
  chosen-IsMatch (some n) m ms e h =
      find_immediate-All (IsMatch def v critical) (rule_id o.body) (m ∷ ms) h e

  critical_evaluation-Justified :
      (m : Match) (ms : List Match)
      → All (IsMatch def v critical) (m ∷ ms)
      → Justified (critical_evaluation o m ms)
  unfolding critical_evaluation
  critical_evaluation-Justified m ms h =
      let i = find_immediate (rule_id o.body) (m ∷ ms) in
      let chosen = chosen-IsMatch i m ms refl h in
      let (e, returns) =
        selected_evidence-ok (chosen_critical i m).components critical (chosen_critical i m).window
          chosen.1 chosen.2 in
      (
        alert_result o critical (is_some i) (m ∷ ms) e,
        rw returns,
        record {
          alerts_hold = All-windows_of def v critical (m ∷ ms) h;
          alerts_named = λ a. cons-ne-nil _ _;
          quiet_clear = λ a. absurd (critical-ne-no_alert a);
        },
      )

  warning_evaluation-Justified :
      (blind : Bool) (ms : List Match)
      → All (IsMatch def v warning) ms
      → (blind ≡ false
          → ms ≡ []
          → (w : AlertWindowKey) → ¬ HoldsAt def v critical w × ¬ HoldsAt def v warning w)
      → Justified (warning_evaluation o blind ms)
  unfolding warning_evaluation
  warning_evaluation-Justified true [] h quiet = (
    _,
    refl,
    record {
      alerts_hold = tt;
      alerts_named = λ a. absurd (a refl);
      quiet_clear = λ a b. absurd (unknown-ne-known b);
    },
  )
  warning_evaluation-Justified false [] h quiet = (
    _,
    refl,
    record {
      alerts_hold = tt;
      alerts_named = λ a. absurd (a refl);
      quiet_clear = λ a b. quiet refl refl;
    },
  )
  warning_evaluation-Justified blind (m ∷ ms) h quiet =
      let (e, returns) = selected_evidence-ok m.components warning m.window h.0.1 h.0.2 in
      (
        alert_result o warning false (m ∷ ms) e,
        rw returns,
        record {
          alerts_hold = All-windows_of def v warning (m ∷ ms) h;
          alerts_named = λ a. cons-ne-nil _ _;
          quiet_clear = λ a. absurd (warning-ne-no_alert a);
        },
      )

  choose_evaluation-Justified :
      (crit warn : WindowEvaluation)
      → All (IsMatch def v critical) crit.matches
      → All (IsMatch def v warning) warn.matches
      → (IsSilent crit → (w : AlertWindowKey) → ¬ HoldsAt def v critical w)
      → (IsSilent warn → (w : AlertWindowKey) → ¬ HoldsAt def v warning w)
      → Justified (choose_evaluation o crit.matches crit.unknown (ok warn))
  unfolding choose_evaluation
  choose_evaluation-Justified crit warn = go crit.matches
    where
      go :
          (ms : List Match)
          → All (IsMatch def v critical) ms
          → All (IsMatch def v warning) warn.matches
          → ((ms ≡ []) × (crit.unknown ≡ false) → (w : AlertWindowKey) → ¬ HoldsAt def v critical w)
          → (IsSilent warn → (w : AlertWindowKey) → ¬ HoldsAt def v warning w)
          → Justified (choose_evaluation o ms crit.unknown (ok warn))
      go (m ∷ ms) h k quiet silent = critical_evaluation-Justified m ms h
      go [] h k quiet silent =
          warning_evaluation-Justified (crit.unknown || warn.unknown) warn.matches k
            λ b e w. (quiet (refl, ground arith) w, silent (e, ground arith) w)

pub every_window :
    (P : AlertWindowKey → Type 0) → All P alert_window_keys → (w : AlertWindowKey) → P w
every_window P h AlertWindowKey.w5m = h.0
every_window P h AlertWindowKey.w15m = h.1.0
every_window P h AlertWindowKey.w60m = h.1.1.0

-- The evaluation of a rule on its metrics returns. For every way to complete the unknown metrics,
-- each window that it reports breaches the threshold of the severity that it reports, an alert
-- names a window, and "no alert" on known evidence means that no threshold of the rule holds.
pub evaluate_metrics-IsJustified :
    (o : AlertRuleObservation) (metrics : Windowed MetricBag) (v : AlertWindowKey → Metric → ℕ)
    → ((w : AlertWindowKey) → IsCompletion (at_window metrics w) (v w))
    → (r : AlertRuleEvaluation) × (evaluate_metrics o metrics ≡ ok r)
      × IsJustified (definition_for_alert_rule (rule_id o.body)) v r
unfolding evaluate_metrics
evaluate_metrics-IsJustified o metrics v completes =
    let d : AlertRuleDefinition = definition_for_alert_rule (rule_id o.body) in
    let narrow = definitions-OptionNarrow (rule_id o.body) in
    let none_yet : WindowEvaluation = record { matches = []; unknown = false } in
    let (crits, no_crit) =
      collect_sound d metrics critical v completes (λ w. narrow w critical) alert_window_keys
        none_yet tt in
    let (warns, no_warn) =
      collect_sound d metrics warning v completes (λ w. narrow w warning) alert_window_keys none_yet
        tt in
    rw
      (
        evaluate_window_thresholds-collect d metrics critical (λ w. narrow w critical),
        evaluate_window_thresholds-collect d metrics warning (λ w. narrow w warning),
      )
      (choose_evaluation-Justified o v (collect d metrics critical alert_window_keys none_yet)
        (collect d metrics warning alert_window_keys none_yet) crits warns
        (λ q. every_window (λ w. ¬ HoldsAt d v critical w) (no_crit q).1)
        (λ q. every_window (λ w. ¬ HoldsAt d v warning w) (no_warn q).1))
