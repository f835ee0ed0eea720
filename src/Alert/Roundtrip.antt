-- ===== src/Alert/Roundtrip.antt =====
-- What `evaluateAlertRule` of apps/sso/worker/alert-rules.ts returns is coherent: its evidence is
-- there exactly when it alerts, and `parseAlertSelectedEvidenceForRule` takes it back.
use sso_pg72_tw.Common.{
  ◌≡◌, refl, Bool, true, false, ◌||◌, Option, none, some, List, [], ◌∷◌, All, All-append, subst,
  inl, inr, Option-cases, ok,
}
use sso_pg72_tw.Common.Results.{◌>>=◌, >>=_ok, ok_injective}
use sso_pg72_tw.Alert.Types.{
  AlertRuleId, AlertSeverity, no_alert, warning, critical, AlertEvidenceStatus, AlertWindowKey,
  alert_window_keys, Windowed, at_window, MetricBag, Threshold, AlertSelectedEvidence,
}
use sso_pg72_tw.Alert.Definitions.{definition_for_alert_rule, threshold_at}
use sso_pg72_tw.Alert.Observation.{
  AlertRuleObservation, ObservationBody, queue_snapshot, rule_id, known_queue_snapshot,
}
use sso_pg72_tw.Alert.Bags.{metrics_for_observation}
use sso_pg72_tw.Alert.Rules.{known_snapshot}
use sso_pg72_tw.Alert.Parsed.{parse_alert_observation-AllStorable}
use sso_pg72_tw.Alert.Expression.{Outcome, breached, clear, unknown}
use sso_pg72_tw.Alert.Evaluate.{
  Match, WindowEvaluation, record_outcome, selected_evidence, find_immediate, AlertRuleEvaluation,
  chosen_critical, is_some, alert_result, critical_evaluation, warning_evaluation,
  choose_evaluation, evaluate_metrics, evaluate_body, evaluate_observation, unknown_evaluation,
}
use sso_pg72_tw.Alert.Windows.{
  threshold_outcome, window_outcome, collect, evaluate_expression-ok, definitions-OptionNarrow,
  OptionNarrow, evaluate_window_thresholds-collect,
}
use sso_pg72_tw.Alert.Severity.{find_immediate-All}
use sso_pg72_tw.Alert.Parsing.{evaluate_alert_rule, parse_alert_observation}
use sso_pg72_tw.Alert.Contracts.{evidence_contracts_for, parse_alert_selected_evidence_for_rule}
use sso_pg72_tw.Alert.Proven.{IsStorable}
use sso_pg72_tw.Alert.Emitted.{evaluate_expression-Proves}
use sso_pg72_tw.Alert.Covers.{Proves}
use sso_pg72_tw.Alert.Canonical.{OptionCanonical, CoveredBy, definitions-OptionCanonical}
use sso_pg72_tw.Alert.Accepted.{IsAlert, selected_evidence-accepted, selected_severity}

-- The evidence behind a severity: none, or evidence of that severity that parses for the rule.
abbrev pub Backs : AlertRuleId → Option AlertSelectedEvidence → AlertSeverity → Type 0
Backs r none s = s ≡ no_alert
Backs r (some e) s =
    (e.severity ≡ s) × IsAlert s × (parse_alert_selected_evidence_for_rule e r ≡ ok e)

pub record IsCoherent (o : AlertRuleObservation) (r : AlertRuleEvaluation) : Type 0 where
  pub rule_kept : r.rule ≡ rule_id o.body
  pub dimension_kept : r.dimension ≡ o.dimension
  pub moment_kept : r.as_of ≡ o.as_of
  pub backed : Backs r.rule r.selected r.severity
  pub blind_quiet : r.evidence ≡ AlertEvidenceStatus.unknown → r.severity ≡ no_alert
  pub immediate_critical : r.immediate_critical ≡ true → r.severity ≡ critical

module _ (o : AlertRuleObservation) (metrics : Windowed MetricBag)
    (storable : (w : AlertWindowKey) → IsStorable (at_window metrics w)) where
  abbrev rule : AlertRuleId
  rule = rule_id o.body

  abbrev IsAcceptable : AlertSeverity → Match → Type 0
  IsAcceptable s m =
      CoveredBy (threshold_at (definition_for_alert_rule rule) m.window s) m.components

  abbrev OutcomeCovered : Option Threshold → Outcome → Type 0
  OutcomeCovered t (breached found) = CoveredBy t found
  OutcomeCovered t _ = Unit

  threshold_outcome-covered :
      (t : Option Threshold) (bag : MetricBag)
      → IsStorable bag
      → OptionNarrow t
      → OptionCanonical t
      → OutcomeCovered t (threshold_outcome t bag)
  threshold_outcome-covered none bag h n c = tt
  threshold_outcome-covered (some t) bag h n c = go (threshold_outcome (some t) bag) (
      subst (Proves (evidence_contracts_for t)) (evaluate_expression-ok t bag n.0)
        (evaluate_expression-Proves bag h t c.0))
    where
      go : (x : Outcome) → Proves (evidence_contracts_for t) (ok x) → OutcomeCovered (some t) x
      go (breached found) k = k
      go clear k = tt
      go unknown k = tt

  module _ (s : AlertSeverity) where
    record-IsAcceptable :
        (w : AlertWindowKey) (e : WindowEvaluation) (x : Outcome)
        → OutcomeCovered (threshold_at (definition_for_alert_rule rule) w s) x
        → All (IsAcceptable s) e.matches
        → All (IsAcceptable s) (record_outcome w e x).matches
    unfolding record_outcome
    record-IsAcceptable w e (breached found) c h = All-append (IsAcceptable s) e.matches _ h (c, tt)
    record-IsAcceptable w e clear c h = h
    record-IsAcceptable w e unknown c h = h

    collect-IsAcceptable :
        (ws : List AlertWindowKey) (e : WindowEvaluation)
        → All (IsAcceptable s) e.matches
        → All (IsAcceptable s) (collect (definition_for_alert_rule rule) metrics s ws e).matches
    collect-IsAcceptable [] e h = h
    collect-IsAcceptable (w ∷ ws) e h =
        let d = definition_for_alert_rule rule in
        collect-IsAcceptable ws (record_outcome w e (window_outcome d metrics s w)) (
          record-IsAcceptable w e (window_outcome d metrics s w)
            (threshold_outcome-covered (threshold_at d w s) (at_window metrics w) (storable w)
              (definitions-OptionNarrow rule w s) (definitions-OptionCanonical rule w s))
            h)

    -- The evidence that is selected from an acceptable match backs its severity.
    alert_result-IsCoherent :
        (m : Match) (ms : List Match) (b : Bool) (r : AlertRuleEvaluation)
        → IsAlert s
        → (b ≡ true → s ≡ critical)
        → IsAcceptable s m
        → (selected_evidence m.components s m.window >>= λ e. ok (alert_result o s b ms e)) ≡ ok r
        → IsCoherent o r
    alert_result-IsCoherent m ms b r alert top h k =
        let (e, p, q) = >>=_ok (selected_evidence m.components s m.window) _ k in
        let accepted =
          selected_evidence-accepted rule s m.window alert m.components e _ refl
            (definitions-OptionCanonical rule m.window s) h p in
        subst (IsCoherent o) (ok_injective q) (record {
          rule_kept = refl;
          dimension_kept = refl;
          moment_kept = refl;
          backed = (selected_severity m.components s m.window e p, alert, accepted);
          blind_quiet = λ x. cc;
          immediate_critical = top;
        })

  chosen-IsAcceptable :
      (i : Option Match) (m : Match) (ms : List Match)
      → find_immediate rule (m ∷ ms) ≡ i
      → All (IsAcceptable critical) (m ∷ ms)
      → IsAcceptable critical (chosen_critical i m)
  chosen-IsAcceptable none m ms e h = h.0
  chosen-IsAcceptable (some n) m ms e h =
      find_immediate-All (IsAcceptable critical) rule (m ∷ ms) h e

  choose_evaluation-IsCoherent :
      (ms : List Match) (blind : Bool) (warn : WindowEvaluation) (r : AlertRuleEvaluation)
      → All (IsAcceptable critical) ms
      → All (IsAcceptable warning) warn.matches
      → choose_evaluation o ms blind (ok warn) ≡ ok r
      → IsCoherent o r
  unfolding choose_evaluation critical_evaluation warning_evaluation
  choose_evaluation-IsCoherent (m ∷ ms) blind warn r h k e =
      let i = find_immediate rule (m ∷ ms) in
      alert_result-IsCoherent critical (chosen_critical i m) (m ∷ ms) (is_some i) r refl (λ _. refl)
        (chosen-IsAcceptable i m ms refl h) e
  choose_evaluation-IsCoherent [] blind warn r h k e = go (blind || warn.unknown) warn.matches k e
    where
      go :
          (b : Bool) (ws : List Match)
          → All (IsAcceptable warning) ws
          → warning_evaluation o b ws ≡ ok r
          → IsCoherent o r
      go b [] a q = subst (IsCoherent o) (ok_injective q) (record {
        rule_kept = refl;
        dimension_kept = refl;
        moment_kept = refl;
        backed = refl;
        blind_quiet = λ _. refl;
        immediate_critical = λ x. cc;
      })
      go b (w ∷ ws) a q = alert_result-IsCoherent warning w (w ∷ ws) false r refl (λ x. cc) a.0 q

  pub evaluate_metrics-IsCoherent :
      (r : AlertRuleEvaluation) → evaluate_metrics o metrics ≡ ok r → IsCoherent o r
  unfolding evaluate_metrics
  evaluate_metrics-IsCoherent r e =
      let d = definition_for_alert_rule rule in
      let narrow = definitions-OptionNarrow rule in
      let none_yet : WindowEvaluation = record { matches = []; unknown = false } in
      let crit = collect d metrics critical alert_window_keys none_yet in
      let warn = collect d metrics warning alert_window_keys none_yet in
      choose_evaluation-IsCoherent crit.matches crit.unknown warn r
        (collect-IsAcceptable critical alert_window_keys none_yet tt)
        (collect-IsAcceptable warning alert_window_keys none_yet tt)
        (rw
          (
            evaluate_window_thresholds-collect d metrics critical (λ w. narrow w critical),
            evaluate_window_thresholds-collect d metrics warning (λ w. narrow w warning),
          )
          at e)

unknown_evaluation-IsCoherent : (o : AlertRuleObservation) → IsCoherent o (unknown_evaluation o)
unknown_evaluation-IsCoherent o = record {
  rule_kept = refl;
  dimension_kept = refl;
  moment_kept = refl;
  backed = refl;
  blind_quiet = λ _. refl;
  immediate_critical = λ x. cc;
}

evaluate_body-IsCoherent :
    (o : AlertRuleObservation) (b : ObservationBody) (r : AlertRuleEvaluation)
    → ((m : Windowed MetricBag)
        → m ≡ metrics_for_observation b (known_snapshot b o.as_of)
        → evaluate_metrics o m ≡ ok r
        → IsCoherent o r)
    → evaluate_body b o ≡ ok r
    → IsCoherent o r
unfolding evaluate_body
evaluate_body-IsCoherent o (queue_snapshot s) r k h =
    elim (Option-cases (known_queue_snapshot s o.as_of)) [
      | inl blind ↦
          subst (IsCoherent o) (ok_injective (rw (blind, evaluate_body) at h))
            (unknown_evaluation-IsCoherent o)
      | inr (q, found) ↦ k _ (rw found) (rw (found, evaluate_body) at h)
    ]
evaluate_body-IsCoherent o (ObservationBody.count_windows r' ws) r k h = k _ refl h
evaluate_body-IsCoherent o (ObservationBody.ratio_windows r' ws) r k h = k _ refl h
evaluate_body-IsCoherent o (ObservationBody.restricted_windows ws) r k h = k _ refl h
evaluate_body-IsCoherent o (ObservationBody.recovery_windows ws) r k h = k _ refl h
evaluate_body-IsCoherent o (ObservationBody.oauth_windows ws) r k h = k _ refl h
evaluate_body-IsCoherent o (ObservationBody.admin_windows ws) r k h = k _ refl h
evaluate_body-IsCoherent o (ObservationBody.fanout_snapshot s) r k h = k _ refl h
evaluate_body-IsCoherent o (ObservationBody.logout_windows c ws) r k h = k _ refl h
evaluate_body-IsCoherent o (ObservationBody.runtime_snapshot s) r k h = k _ refl h

-- What is evaluated is an observation that parses.
pub evaluate_alert_rule-IsCoherent :
    (o : AlertRuleObservation) (r : AlertRuleEvaluation)
    → evaluate_alert_rule o ≡ ok r
    → (p : AlertRuleObservation) × (parse_alert_observation o ≡ ok p) × IsCoherent p r
unfolding evaluate_alert_rule evaluate_observation
evaluate_alert_rule-IsCoherent o r h =
    let (p, parsed, evaluated) = >>=_ok (parse_alert_observation o) _ h in
    let storable = parse_alert_observation-AllStorable o p parsed in
    (
      p,
      parsed,
      evaluate_body-IsCoherent p p.body r
          (λ m e g. evaluate_metrics-IsCoherent p m (λ w. rw e (storable w)) r g) evaluated,
    )

-- Whatever observation is evaluated, the evidence that the result selects is accepted by the parser
-- of stored evidence for the rule of the result, and parses to itself.
pub evaluate_alert_rule-reparse :
    (o : AlertRuleObservation) (r : AlertRuleEvaluation) (e : AlertSelectedEvidence)
    → evaluate_alert_rule o ≡ ok r
    → r.selected ≡ some e
    → parse_alert_selected_evidence_for_rule e r.rule ≡ ok e
evaluate_alert_rule-reparse o r e h k =
    let (p, parsed, coherent) = evaluate_alert_rule-IsCoherent o r h in
    (subst (λ x. Backs r.rule x r.severity) k coherent.backed).2
