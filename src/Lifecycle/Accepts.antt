-- ===== src/Lifecycle/Accepts.antt =====
-- `parseState` of apps/sso/worker/alert-evaluator.ts: what it accepts it leaves as it is, and that
-- is a well-formed alarm.
use Prim.Native.String.{String}
use sso_pg72_tw.Common.{ℕ, ◌≤◌, ◌≡◌, Option, none, some, arith, subst, sym, ok, List}
use sso_pg72_tw.Common.Results.{ok_injective, >>=_kept}
use sso_pg72_tw.Alert.Types.{AlertSeverity, no_alert, warning, critical, AlertSelectedEvidence}
use sso_pg72_tw.Alert.Observation.{AlertDimension}
use sso_pg72_tw.Alert.Definitions.{DimensionKind, definition_for_alert_rule}
use sso_pg72_tw.Alert.Parsing.{parse_alert_dimension}
use sso_pg72_tw.Alert.Kept.{parse_alert_selected_evidence_for_rule-kept}
use sso_pg72_tw.Alert.Contracts.{parse_alert_selected_evidence_for_rule}
use sso_pg72_tw.Alert.Accepted.{IsAlert}
use sso_pg72_tw.Lifecycle.{AlertLifecycleIdentity, AlertLifecycleState}
use sso_pg72_tw.Lifecycle.Checks.{
  parse_state, parse_bound_identity, parse_identity, parse_evidence, active_severity, counter,
}
use sso_pg72_tw.Lifecycle.Alarm.{IsBound}
use sso_pg72_tw.Lifecycle.Shapes.{Represents, represent_state}

dimension_kept :
    (d x : AlertDimension) (allowed : List DimensionKind)
    → parse_alert_dimension d allowed ≡ ok x
    → x ≡ d
unfolding parse_alert_dimension
dimension_kept d x allowed h = ground arith

identity_kept : (k j : AlertLifecycleIdentity) → parse_identity k ≡ ok j → j ≡ k
unfolding parse_identity
identity_kept k j h =
    let allowed = (definition_for_alert_rule k.rule).dimensions in
    let (p, rest) =
      >>=_kept (parse_alert_dimension k.dimension allowed) _ k.dimension
        (λ x. dimension_kept k.dimension x allowed) h in
    sym (ok_injective rest)

identity-IsBound : (k : AlertLifecycleIdentity) → parse_identity k ≡ ok k → IsBound k
unfolding parse_identity
identity-IsBound k h =
    let allowed = (definition_for_alert_rule k.rule).dimensions in
    (>>=_kept (parse_alert_dimension k.dimension allowed) _ k.dimension
      (λ x. dimension_kept k.dimension x allowed) h).0

bound_kept : (o j : Option AlertLifecycleIdentity) → parse_bound_identity o ≡ ok j → j ≡ o
unfolding parse_bound_identity
bound_kept none j h = cc
bound_kept (some k) j h =
    let (p, rest) = >>=_kept (parse_identity k) _ k (identity_kept k) h in sym (ok_injective rest)

parsed-IsBound :
    (o : Option AlertLifecycleIdentity) (i : AlertLifecycleIdentity)
    → parse_bound_identity o ≡ ok o
    → o ≡ some i
    → IsBound i
unfolding parse_bound_identity
parsed-IsBound none i h e = cc
parsed-IsBound (some k) i h e =
    let (p, rest) = >>=_kept (parse_identity k) _ k (identity_kept k) h in
    let same : k ≡ i = cc in subst IsBound same (identity-IsBound k p)

evidence_kept :
    (identity : Option AlertLifecycleIdentity) (e f : Option AlertSelectedEvidence)
    → parse_evidence identity e ≡ ok f
    → f ≡ e
unfolding parse_evidence
evidence_kept identity none f h = cc
evidence_kept none (some e) f h = cc
evidence_kept (some j) (some e) f h =
    let (p, rest) =
      >>=_kept (parse_alert_selected_evidence_for_rule e j.rule) _ e
        (λ g. parse_alert_selected_evidence_for_rule-kept e g j.rule) h in
    sym (ok_injective rest)

evidence_repeats :
    (identity : Option AlertLifecycleIdentity) (e : Option AlertSelectedEvidence)
    (i : AlertLifecycleIdentity) (x : AlertSelectedEvidence)
    → parse_evidence identity e ≡ ok e
    → identity ≡ some i
    → e ≡ some x
    → parse_alert_selected_evidence_for_rule x i.rule ≡ ok x
unfolding parse_evidence
evidence_repeats identity none i x h p q = cc
evidence_repeats none (some e) i x h p q = cc
evidence_repeats (some j) (some e) i x h p q =
    let (here, rest) =
      >>=_kept (parse_alert_selected_evidence_for_rule e j.rule) _ e
        (λ g. parse_alert_selected_evidence_for_rule-kept e g j.rule) h in
    let this : e ≡ x = cc in let that : j ≡ i = cc in rw (← this, ← that) here

level_kept : (l m : Option AlertSeverity) (name : String) → active_severity l name ≡ ok m → m ≡ l
unfolding active_severity
level_kept none m name h = cc
level_kept (some no_alert) m name h = cc
level_kept (some warning) m name h = cc
level_kept (some critical) m name h = cc

level_alerts :
    (l : Option AlertSeverity) (name : String) (level : AlertSeverity)
    → active_severity l name ≡ ok l
    → l ≡ some level
    → IsAlert level
unfolding active_severity
level_alerts none name level h e = cc
level_alerts (some no_alert) name level h e = cc
level_alerts (some warning) name level h e = ground arith
level_alerts (some critical) name level h e = ground arith

counter_kept : (n m : ℕ) (name text : String) (top : ℕ) → counter n name text top ≡ ok m → m ≡ n
unfolding counter
counter_kept n m name text top h = ground arith

counter_capped : (n : ℕ) (name text : String) (top : ℕ) → counter n name text top ≡ ok n → n ≤ top
unfolding counter
counter_capped n name text top h = ground arith

-- Whatever the parser accepts it returns unchanged, and it is a well-formed alarm at that time.
pub parse_state-Represents :
    (s v : AlertLifecycleState) (now : ℕ) → parse_state s now ≡ ok v → (v ≡ s) × Represents v now
unfolding parse_state
parse_state-Represents s v now h =
    let (p1, h1) =
      >>=_kept (parse_bound_identity s.identity) _ s.identity (bound_kept s.identity) h in
    let (p2, h2) =
      >>=_kept (parse_evidence s.identity s.active_evidence) _ s.active_evidence
        (evidence_kept s.identity s.active_evidence) h1 in
    let (p3, h3) =
      >>=_kept (parse_evidence s.identity s.breach_evidence) _ s.breach_evidence
        (evidence_kept s.identity s.breach_evidence) h2 in
    let (p4, h4) =
      >>=_kept (active_severity s.breach_severity "breach severity") _ s.breach_severity
        (λ m. level_kept s.breach_severity m "breach severity") h3 in
    let (p5, h5) =
      >>=_kept (counter s.consecutive_breaches "consecutive breaches" "1" 1) _
        s.consecutive_breaches
        (λ m. counter_kept s.consecutive_breaches m "consecutive breaches" "1" 1) h4 in
    let (p6, h6) =
      >>=_kept (counter s.consecutive_clears "consecutive clears" "4" 4) _ s.consecutive_clears
        (λ m. counter_kept s.consecutive_clears m "consecutive clears" "4" 4) h5 in
    represent_state s v now
      (record {
        identity-IsBound = λ i. parsed-IsBound s.identity i p1;
        shown_parses = λ i e. evidence_repeats s.identity s.active_evidence i e p2;
        breach_parses = λ i e. evidence_repeats s.identity s.breach_evidence i e p3;
        level_alerts = λ level. level_alerts s.breach_severity "breach severity" level p4;
        breaches_capped = counter_capped s.consecutive_breaches "consecutive breaches" "1" 1 p5;
        clears_capped = counter_capped s.consecutive_clears "consecutive clears" "4" 4 p6;
      })
      h6
