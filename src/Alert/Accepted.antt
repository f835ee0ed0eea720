-- ===== src/Alert/Accepted.antt =====
-- Evidence that an evaluation selects and `parseAlertSelectedEvidenceForRule` of
-- apps/sso/worker/alert-rules.ts: what the evaluation of one window finds is taken back.
use sso_pg72_tw.Common.{
  ◌≡◌, refl, ◌⊎◌, inl, inr, true, false, Option, none, some, List, [], ◌∷◌, arith, ◌==◌, subst, ok,
}
use sso_pg72_tw.Common.Results.{ok_injective}
use sso_pg72_tw.Alert.Types.{
  AlertRuleId, AlertSeverity, AlertWindowKey, alert_window_seconds, Threshold, AlertMetricEvidence,
  AlertSelectedEvidence,
}
use sso_pg72_tw.Alert.Definitions.{definition_for_alert_rule, threshold_at}
use sso_pg72_tw.Alert.Evaluate.{selected_evidence}
use sso_pg72_tw.Alert.Evidence.{
  is_secondary_only, is_component_pair, is_no_alert, parse_secondary, check_secondary,
  parse_alert_selected_evidence,
}
use sso_pg72_tw.Alert.Contracts.{
  Contract, evidence_contracts_for, evidence_matches_contract, matches_expression,
  window_of_seconds, parse_alert_selected_evidence_for_rule,
}
use sso_pg72_tw.Alert.Proven.{IsProven}
use sso_pg72_tw.Alert.Covers.{Meets}
use sso_pg72_tw.Alert.Canonical.{IsShaped, OptionCanonical, CoveredBy, chosen, any_found}

abbrev pub IsAlert : AlertSeverity → Type 0
IsAlert s = is_no_alert s ≡ false

single_shape :
    (a : AlertMetricEvidence) (c : Contract)
    → Meets (a ∷ []) c
    → IsShaped c
    → is_secondary_only a.metric_name ≡ false
single_shape a (x ∷ []) h k = rw h.0.0 k
single_shape a (x ∷ y ∷ c) h k = absurd h.1
single_shape a [] h k = absurd h

pair_shape :
    (a b : AlertMetricEvidence) (c : Contract)
    → Meets (a ∷ b ∷ []) c
    → IsShaped c
    → (is_secondary_only a.metric_name ≡ false)
      × (is_component_pair a.metric_name b.metric_name ≡ true)
pair_shape a b (x ∷ y ∷ []) h k = rw (h.0.0, h.1.0.0) k
pair_shape a b (x ∷ []) h k = absurd h.1
pair_shape a b (x ∷ y ∷ z ∷ c) h k = absurd h.1.1
pair_shape a b [] h k = absurd h

window_seconds_known :
    (w : AlertWindowKey)
    → (window_of_seconds (alert_window_seconds w) ≡ w)
      × (((alert_window_seconds w == 300) ≡ true)
          ⊎ ((alert_window_seconds w == 900) ≡ true)
          ⊎ ((alert_window_seconds w == 3600) ≡ true))
window_seconds_known AlertWindowKey.w5m = (refl, inl refl)
window_seconds_known AlertWindowKey.w15m = (refl, inr (inl refl))
window_seconds_known AlertWindowKey.w60m = (refl, inr (inr refl))

-- Evidence with one component.
parse_single :
    (a : AlertMetricEvidence) (s : AlertSeverity) (w : AlertWindowKey)
    → IsAlert s
    → IsProven a
    → is_secondary_only a.metric_name ≡ false
    → let e : AlertSelectedEvidence = record {
      primary = a;
      secondary = none;
      severity = s;
      window_seconds = alert_window_seconds w;
    } in
      parse_alert_selected_evidence e ≡ ok e
unfolding parse_alert_selected_evidence parse_secondary check_secondary
parse_single a s w alert proven free =
    let reached = proven.reached in
    let seconds = (window_seconds_known w).1 in
    rw (proven.parses "primary alert evidence", alert, free) (ground arith)

-- Evidence with two.
parse_pair :
    (a b : AlertMetricEvidence) (s : AlertSeverity) (w : AlertWindowKey)
    → IsAlert s
    → IsProven a
    → IsProven b
    → is_secondary_only a.metric_name ≡ false
    → is_component_pair a.metric_name b.metric_name ≡ true
    → let e : AlertSelectedEvidence = record {
      primary = a;
      secondary = some b;
      severity = s;
      window_seconds = alert_window_seconds w;
    } in
      parse_alert_selected_evidence e ≡ ok e
unfolding parse_alert_selected_evidence parse_secondary check_secondary
parse_pair a b s w alert proven second free paired =
    let reached = proven.reached in
    let also = second.reached in
    let seconds = (window_seconds_known w).1 in
    rw
      (
        proven.parses "primary alert evidence",
        second.parses "secondary alert evidence",
        alert,
        free,
        paired,
      )
      (ground arith)

module _ (r : AlertRuleId) (s : AlertSeverity) (w : AlertWindowKey) (alert : IsAlert s) where
  abbrev threshold_here : Option Threshold
  threshold_here = threshold_at (definition_for_alert_rule r) w s

  accepts :
      (e : AlertSelectedEvidence)
      → e.severity ≡ s
      → e.window_seconds ≡ alert_window_seconds w
      → parse_alert_selected_evidence e ≡ ok e
      → matches_expression e threshold_here ≡ true
      → parse_alert_selected_evidence_for_rule e r ≡ ok e
  unfolding parse_alert_selected_evidence_for_rule
  accepts e p q parsed matched = rw (parsed, p, q, (window_seconds_known w).0, matched)

  -- The evidence that is selected from the components of a window is accepted for the rule.
  pub selected_evidence-accepted :
      (found : List AlertMetricEvidence) (e : AlertSelectedEvidence) (o : Option Threshold)
      → o ≡ threshold_here
      → OptionCanonical o
      → CoveredBy o found
      → selected_evidence found s w ≡ ok e
      → parse_alert_selected_evidence_for_rule e r ≡ ok e
  unfolding selected_evidence matches_expression evidence_matches_contract
  selected_evidence-accepted found e none p canon cover h = absurd cover
  selected_evidence-accepted [] e (some t) p canon cover h = cc
  selected_evidence-accepted (a ∷ []) e (some t) p canon cover h =
      let (c, met, shape) =
        chosen (Meets (a ∷ [])) IsShaped (evidence_contracts_for t) cover.1 canon.1 in
      subst (λ x. parse_alert_selected_evidence_for_rule x r ≡ ok x) (ok_injective h)
        (accepts _ refl refl (parse_single a s w alert cover.0.0 (single_shape a c met shape))
          (rw (← p) (any_found (a ∷ []) (evidence_contracts_for t) cover.1)))
  selected_evidence-accepted (a ∷ b ∷ []) e (some t) p canon cover h =
      let (c, met, shape) =
        chosen (Meets (a ∷ b ∷ [])) IsShaped (evidence_contracts_for t) cover.1 canon.1 in
      let (free, paired) = pair_shape a b c met shape in
      subst (λ x. parse_alert_selected_evidence_for_rule x r ≡ ok x) (ok_injective h)
        (accepts _ refl refl (parse_pair a b s w alert cover.0.0 cover.0.1.0 free paired)
          (rw (← p) (any_found (a ∷ b ∷ []) (evidence_contracts_for t) cover.1)))
  selected_evidence-accepted (a ∷ b ∷ c ∷ rest) e (some t) p canon cover h = cc

pub selected_severity :
    (found : List AlertMetricEvidence) (s : AlertSeverity) (w : AlertWindowKey)
    (e : AlertSelectedEvidence)
    → selected_evidence found s w ≡ ok e
    → e.severity ≡ s
unfolding selected_evidence
selected_severity [] s w e h = cc
selected_severity (a ∷ []) s w e h = cc
selected_severity (a ∷ b ∷ []) s w e h = cc
selected_severity (a ∷ b ∷ c ∷ rest) s w e h = cc
