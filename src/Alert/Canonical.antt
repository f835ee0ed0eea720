-- ===== src/Alert/Canonical.antt =====
-- The contracts of the rule table of apps/sso/worker/alert-rules.ts: their thresholds are in the
-- domain of evidence, and the parser admits their components.
use sso_pg72_tw.Common.{
  ℕ, ◌≡◌, refl, inl, inr, true, false, Option, none, some, List, [], ◌∷◌, arith, any, All, Any,
}
use sso_pg72_tw.Alert.Types.{
  AlertRuleId, AlertSeverity, AlertWindowKey, Threshold, AlertMetricEvidence,
}
use sso_pg72_tw.Alert.Definitions.{
  AlertRuleDefinition, WindowThreshold, definition_for_alert_rule, threshold_at,
}
use sso_pg72_tw.Alert.Evidence.{is_secondary_only, is_component_pair}
use sso_pg72_tw.Alert.Contracts.{
  AlertEvidenceContractComponent, Contract, evidence_contracts_for, is_expected, same_number,
  components_match,
}
use sso_pg72_tw.Alert.Emitted.{IsCanonical}
use sso_pg72_tw.Alert.Covers.{IsMet, Meets, IsCovered}

-- The components that the parser admits: one that can stand alone, or a pair that it knows.
abbrev pub IsShaped : Contract → Type 0
IsShaped (a ∷ []) = is_secondary_only a.metric_name ≡ false
IsShaped (a ∷ b ∷ []) =
    (is_secondary_only a.metric_name ≡ false)
    × (is_component_pair a.metric_name b.metric_name ≡ true)
IsShaped _ = ⊥

abbrev pub OptionCanonical : Option Threshold → Type 0
OptionCanonical none = Unit
OptionCanonical (some t) = IsCanonical t × All IsShaped (evidence_contracts_for t)

abbrev WindowCanonical : WindowThreshold → Type 0
WindowCanonical t = OptionCanonical t.critical × OptionCanonical t.warning

abbrev DefinitionCanonical : AlertRuleDefinition → Type 0
DefinitionCanonical d =
    WindowCanonical d.thresholds.m5
    × WindowCanonical d.thresholds.m15
    × WindowCanonical d.thresholds.m60

definitions_canonical : (r : AlertRuleId) → DefinitionCanonical (definition_for_alert_rule r)
unfolding evidence_contracts_for
definitions_canonical AlertRuleId.registration_denied = ground arith
definitions_canonical _ = ground arith

pub definitions-OptionCanonical :
    (r : AlertRuleId) (w : AlertWindowKey) (s : AlertSeverity)
    → OptionCanonical (threshold_at (definition_for_alert_rule r) w s)
definitions-OptionCanonical r w s = go w s (definitions_canonical r)
  where
    go :
        (w : AlertWindowKey) (s : AlertSeverity)
        → DefinitionCanonical (definition_for_alert_rule r)
        → OptionCanonical (threshold_at (definition_for_alert_rule r) w s)
    go AlertWindowKey.w5m AlertSeverity.critical h = h.0.0
    go AlertWindowKey.w5m AlertSeverity.warning h = h.0.1
    go AlertWindowKey.w15m AlertSeverity.critical h = h.1.0
    go AlertWindowKey.w15m AlertSeverity.warning h = h.1.1
    go AlertWindowKey.w60m AlertSeverity.critical h = h.2.0
    go AlertWindowKey.w60m AlertSeverity.warning h = h.2.1
    go w AlertSeverity.no_alert h = tt

same_number_refl : (x : Option ℕ) → same_number x x ≡ true
same_number_refl none = refl
same_number_refl (some n) = ground arith

IsMet-is_expected :
    (e : AlertMetricEvidence) (c : AlertEvidenceContractComponent)
    → IsMet e c
    → is_expected e c ≡ true
IsMet-is_expected e c h =
    rw (h.0, h.1, h.2, h.3) (ground (arith, same_number_refl c.minimum_numerator_count))

Meets-components_match :
    (es : List AlertMetricEvidence) (c : Contract) → Meets es c → components_match es c ≡ true
unfolding components_match
Meets-components_match [] [] h = refl
Meets-components_match (e ∷ es) (c ∷ cs) h =
    rw (IsMet-is_expected e c h.0, Meets-components_match es cs h.1)
Meets-components_match [] (c ∷ cs) h = absurd h
Meets-components_match (e ∷ es) [] h = absurd h

-- Some contract that names the components, with what holds of all contracts.
pub chosen :
    (P Q : Contract → Type 0) (xs : List Contract)
    → Any P xs
    → All Q xs
    → (c : Contract) × P c × Q c
chosen P Q (x ∷ xs) (inl h) k = (x, h, k.0)
chosen P Q (x ∷ xs) (inr h) k = chosen P Q xs h k.1
chosen P Q [] h k = absurd h

pub any_found :
    (es : List AlertMetricEvidence) (contracts : List Contract)
    → Any (Meets es) contracts
    → any (components_match es) contracts ≡ true
any_found es (c ∷ cs) (inl h) = rw (Meets-components_match es c h)
any_found es (c ∷ cs) (inr h) = let rest = any_found es cs h in ground arith
any_found es [] h = absurd h

-- What the evaluation of a window gives: components that are covered by the threshold.
abbrev pub CoveredBy : Option Threshold → List AlertMetricEvidence → Type 0
CoveredBy none found = ⊥
CoveredBy (some t) found = IsCovered (evidence_contracts_for t) found
