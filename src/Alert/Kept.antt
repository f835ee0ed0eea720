-- ===== src/Alert/Kept.antt =====
-- The parsers of evidence of apps/sso/worker/alert-rules.ts return the evidence that they were
-- given.
use Prim.Native.String.{String}
use sso_pg72_tw.Common.{◌≡◌, Option, none, some, arith, sym, Result, ok, not, ◌&&◌, ◌||◌, ◌==◌, ltb}
use sso_pg72_tw.Common.Results.{>>=_ok, unless-ok, ok_injective}
use sso_pg72_tw.Alert.Types.{AlertRuleId, AlertMetricEvidence, AlertSelectedEvidence}
use sso_pg72_tw.Alert.Metrics.{integer}
use sso_pg72_tw.Alert.Evidence.{
  is_no_alert, is_secondary_only, required_integer, parse_ratio_evidence, parse_scalar_evidence,
  parse_metric_evidence, parse_secondary, check_secondary, parse_alert_selected_evidence,
}
use sso_pg72_tw.Alert.Definitions.{definition_for_alert_rule, threshold_at}
use sso_pg72_tw.Alert.Contracts.{
  matches_expression, window_of_seconds, parse_alert_selected_evidence_for_rule,
}

ratio_kept :
    (e f : AlertMetricEvidence) (name : String) → parse_ratio_evidence e name ≡ ok f → f ≡ e
unfolding parse_ratio_evidence required_integer integer
ratio_kept e f name h = ground arith

scalar_kept :
    (e f : AlertMetricEvidence) (name : String) → parse_scalar_evidence e name ≡ ok f → f ≡ e
unfolding parse_scalar_evidence
scalar_kept e f name h = ground arith

metric_kept :
    (e f : AlertMetricEvidence) (name : String) → parse_metric_evidence e name ≡ ok f → f ≡ e
unfolding parse_metric_evidence integer
metric_kept e f name h = ground (arith, ratio_kept e f name, scalar_kept e f name)

secondary_kept : (e f : Option AlertMetricEvidence) → parse_secondary e ≡ ok f → f ≡ e
unfolding parse_secondary
secondary_kept none f h = cc
secondary_kept (some e) f h =
    let (g, p, q) = >>=_ok (parse_metric_evidence e "secondary alert evidence") _ h in
    let same : g ≡ e = metric_kept e g "secondary alert evidence" p in
    rw (← same) (sym (ok_injective q))

check_secondary_kept :
    {A : Type 0} (p : AlertMetricEvidence) (s : Option AlertMetricEvidence) (rest : Result A)
    (a : A)
    → check_secondary p s rest ≡ ok a
    → rest ≡ ok a
unfolding check_secondary
check_secondary_kept p none rest a h = h
check_secondary_kept p (some s) rest a h = ground arith

selected_kept : (e f : AlertSelectedEvidence) → parse_alert_selected_evidence e ≡ ok f → f ≡ e
unfolding parse_alert_selected_evidence
selected_kept e f h =
    let (p, parsed, rest) = >>=_ok (parse_metric_evidence e.primary "primary alert evidence") _ h in
    let (level, rest1) = unless-ok (is_no_alert e.severity) _ _ rest in
    let (window, rest2) =
      unless-ok
        (not (e.window_seconds == 300)
          && not (e.window_seconds == 900)
          && not (e.window_seconds == 3600))
        _ _ rest1 in
    let (s, second, rest3) = >>=_ok (parse_secondary e.secondary) _ rest2 in
    let (breach, rest4) =
      unless-ok (is_secondary_only p.metric_name || ltb p.observed_value p.threshold) _ _ rest3 in
    let same : p ≡ e.primary = metric_kept e.primary p "primary alert evidence" parsed in
    let also : s ≡ e.secondary = secondary_kept e.secondary s second in
    cc (check_secondary_kept p s (ok (record e { primary = p; secondary = s })) f rest4)

pub parse_alert_selected_evidence_for_rule-kept :
    (e f : AlertSelectedEvidence) (r : AlertRuleId)
    → parse_alert_selected_evidence_for_rule e r ≡ ok f
    → f ≡ e
unfolding parse_alert_selected_evidence_for_rule
parse_alert_selected_evidence_for_rule-kept e f r h =
    let (g, p, rest) = >>=_ok (parse_alert_selected_evidence e) _ h in
    let same : g ≡ e = selected_kept e g p in
    let (matched, kept) =
      unless-ok
        (not (
          matches_expression g (
            threshold_at (definition_for_alert_rule r) (window_of_seconds g.window_seconds)
              g.severity)))
        _ _ rest in
    cc
