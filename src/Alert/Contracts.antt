-- ===== src/Alert/Contracts.antt =====
-- The contracts of evidence of apps/sso/worker/alert-rules.ts: which metrics, minima and thresholds
-- the evidence of a threshold expression names, and `parseAlertSelectedEvidenceForRule`.
use sso_pg72_tw.Common.{
  ℕ, ◌&&◌, ◌++◌, Bool, true, false, not, Option, none, some, List, [], ◌∷◌, map, any, ◌==◌,
  if◌then◌else◌, Result, ok,
}
use sso_pg72_tw.Common.Results.{◌>>=◌, unless}
use sso_pg72_tw.Alert.Types.{
  AlertRuleId, AlertWindowKey, AlertMetricName, Threshold, Clauses, gte, ratio_gte, all_of, any_of,
  nil, clause, AlertMetricEvidence, AlertSelectedEvidence,
}
use sso_pg72_tw.Alert.Definitions.{definition_for_alert_rule, threshold_at}
use sso_pg72_tw.Alert.Expression.{metric_names}
use sso_pg72_tw.Alert.Evidence.{parse_alert_selected_evidence}

pub record AlertEvidenceContractComponent : Type 0 where
  pub metric_name : AlertMetricName
  pub minimum_numerator_count : Option ℕ
  pub minimum_sample_count : ℕ
  pub threshold : ℕ

abbrev pub Contract : Type 0
Contract = List AlertEvidenceContractComponent

abbrev pub flat_map : {A B : Type 0} → (A → List B) → List A → List B
flat_map f [] = []
flat_map f (x ∷ xs) = f x ++ flat_map f xs

-- One round of the loop of `all`: every prefix with every suffix.
abbrev pub combine : List Contract → List Contract → List Contract
combine combined clauses = flat_map (λ prefix. map (λ suffix. prefix ++ suffix) clauses) combined

unfoldable mutual
  pub evidence_contracts_for : Threshold → List Contract
  evidence_contracts_for (gte metric value) =
      (record {
        metric_name = metric_names metric;
        minimum_numerator_count = none;
        minimum_sample_count = 0;
        threshold = value;
      }
        ∷ [])
      ∷ []
  evidence_contracts_for (ratio_gte min_den min_num bps) =
      (record {
        metric_name = AlertMetricName.ratio;
        minimum_numerator_count = some min_num;
        minimum_sample_count = min_den;
        threshold = bps;
      }
        ∷ [])
      ∷ []
  evidence_contracts_for (any_of clauses) = contracts_of_any clauses
  evidence_contracts_for (all_of clauses) = contracts_of_all clauses ([] ∷ [])

  pub contracts_of_any : Clauses → List Contract
  contracts_of_any nil = []
  contracts_of_any (clause c cs) = evidence_contracts_for c ++ contracts_of_any cs

  pub contracts_of_all : Clauses → List Contract → List Contract
  contracts_of_all nil combined = combined
  contracts_of_all (clause c cs) combined =
      contracts_of_all cs (combine combined (evidence_contracts_for c))

abbrev name_index : AlertMetricName → ℕ
name_index AlertMetricName.consecutive_nonzero_samples = 0
name_index AlertMetricName.count = 1
name_index AlertMetricName.dead = 2
name_index AlertMetricName.dead_outbox = 3
name_index AlertMetricName.depth = 4
name_index AlertMetricName.distinct_reporters = 5
name_index AlertMetricName.evaluator_age_seconds = 6
name_index AlertMetricName.evaluator_missing = 7
name_index AlertMetricName.high_risk_count = 8
name_index AlertMetricName.known_surfaces = 9
name_index AlertMetricName.lease_expired = 10
name_index AlertMetricName.missing = 11
name_index AlertMetricName.oldest_unresolved_age_seconds = 12
name_index AlertMetricName.outbox_due_age_seconds = 13
name_index AlertMetricName.protected_denials = 14
name_index AlertMetricName.rate_limited = 15
name_index AlertMetricName.ratio = 16
name_index AlertMetricName.successes = 17

-- `===` on metric names
abbrev pub same_name : AlertMetricName → AlertMetricName → Bool
same_name a b = name_index a == name_index b

-- `===` on numbers that may be null
abbrev pub same_number : Option ℕ → Option ℕ → Bool
same_number none none = true
same_number (some a) (some b) = a == b
same_number _ _ = false

-- A component of the evidence is the one that the contract expects.
abbrev pub is_expected : AlertMetricEvidence → AlertEvidenceContractComponent → Bool
is_expected e c =
    same_name e.metric_name c.metric_name
    && same_number e.minimum_numerator_count c.minimum_numerator_count
    && e.minimum_sample_count == c.minimum_sample_count
    && e.threshold == c.threshold

-- The lengths agree and so does every component.
unfoldable pub components_match : List AlertMetricEvidence → Contract → Bool
components_match [] [] = true
components_match (e ∷ es) (c ∷ cs) = is_expected e c && components_match es cs
components_match _ _ = false

abbrev pub actual_components : AlertSelectedEvidence → List AlertMetricEvidence
actual_components e = elim e.secondary [ none ↦ e.primary ∷ [] | some s ↦ e.primary ∷ s ∷ [] ]

unfoldable pub evidence_matches_contract : AlertSelectedEvidence → Contract → Bool
unfolding components_match
evidence_matches_contract e contract = components_match (actual_components e) contract

abbrev pub window_of_seconds : ℕ → AlertWindowKey
window_of_seconds n =
    if n == 300
    then AlertWindowKey.w5m
    else if n == 900
    then AlertWindowKey.w15m
    else AlertWindowKey.w60m

unfoldable pub matches_expression : AlertSelectedEvidence → Option Threshold → Bool
unfolding evidence_contracts_for evidence_matches_contract
matches_expression e none = false
matches_expression e (some t) = any (evidence_matches_contract e) (evidence_contracts_for t)

unfoldable pub parse_alert_selected_evidence_for_rule :
    AlertSelectedEvidence → AlertRuleId → Result AlertSelectedEvidence
unfolding parse_alert_selected_evidence matches_expression
parse_alert_selected_evidence_for_rule value rule = parse_alert_selected_evidence value >>= λ e.
    unless
      (not (
        matches_expression e (
          threshold_at (definition_for_alert_rule rule) (window_of_seconds e.window_seconds)
            e.severity)))
      "selected alert evidence does not match the canonical rule contract" (ok e)
