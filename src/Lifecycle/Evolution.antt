-- ===== src/Lifecycle/Evolution.antt =====
-- `advanceAlertLifecycle` of apps/sso/worker/alert-evaluator.ts as a whole: the states that it
-- returns are those that it accepts.
use sso_pg72_tw.Common.{
  ℕ, ◌≤◌, ◌≡◌, refl, true, false, not, none, some, List, [], ◌∷◌, arith, subst, sym, ◌==◌, ==_iff,
  if◌then◌else◌, inl, inr, Bool-cases, get_elem?, Result, ok,
}
use sso_pg72_tw.Common.Results.{unless}
use sso_pg72_tw.Alert.Types.{AlertRuleId, critical}
use sso_pg72_tw.Alert.Definitions.{definition_for_alert_rule}
use sso_pg72_tw.Alert.Observation.{AlertRuleObservation, rule_id}
use sso_pg72_tw.Alert.Evaluate.{AlertRuleEvaluation}
use sso_pg72_tw.Alert.Parsing.{evaluate_alert_rule, parse_alert_dimension}
use sso_pg72_tw.Alert.Admitted.{parsed_dimension}
use sso_pg72_tw.Alert.Roundtrip.{Backs, IsCoherent, evaluate_alert_rule-IsCoherent}
use sso_pg72_tw.Lifecycle.{AlertLifecycleIdentity, AlertLifecycleState}
use sso_pg72_tw.Lifecycle.Checks.{parse_state}
use sso_pg72_tw.Lifecycle.Alarm.{
  Alarm, unbound, quiet, raised, firing, stored, IsValid, IsValid-later, IsBound,
  parse_state-stored,
}
use sso_pg72_tw.Lifecycle.Accepts.{parse_state-Represents}
use sso_pg72_tw.Lifecycle.Advance.{
  advance_bound, advance_from, advance_alert_lifecycle, is_stale, is_quiet,
}
use sso_pg72_tw.Lifecycle.Intents.{AlertLifecycleResult, identity_for, is_same_identity, rule_index}
use sso_pg72_tw.Lifecycle.Steps.{bound-Lands, HasIdentity}

-- The evaluation is of the alert that the state is bound to, and later than the state.
abbrev pub Follows : AlertRuleEvaluation → ℕ → AlertLifecycleState → Type 0
Follows r now s = elim s.identity [
  | none ↦ Unit
  | some i ↦
      (is_same_identity i (identity_for r) ≡ true) × (is_stale s.last_evaluated_at now ≡ false)
]

-- The step returns a state that the parser accepts from now on, as it is.
abbrev pub Survives : ℕ → Result AlertLifecycleResult → Type 0
Survives now m =
    (x : AlertLifecycleResult) × (m ≡ ok x)
    × ((later : ℕ) → now ≤ later → parse_state x.state later ≡ ok x.state)

survives :
    (a : Alarm) (now : ℕ) (x : AlertLifecycleResult) (m : Result AlertLifecycleResult)
    → m ≡ ok x
    → x.state ≡ stored a
    → IsValid a now
    → Survives now m
survives a now x m p q v = (
  x,
  p,
  λ later past.
      subst (λ y. parse_state y later ≡ ok y) (sym q)
        (parse_state-stored a later (IsValid-later a now later past v)),
)

abbrev rules : List AlertRuleId
rules =
    AlertRuleId.registration_rate_limited ∷ AlertRuleId.registration_denied
    ∷ AlertRuleId.registration_challenge_unavailable ∷ AlertRuleId.registration_restricted_created
    ∷ AlertRuleId.restricted_sensitive_denied ∷ AlertRuleId.recovery_entry_abuse
    ∷ AlertRuleId.recovery_passkey_failure ∷ AlertRuleId.passkey_step_up_failure
    ∷ AlertRuleId.oauth_client_report ∷ AlertRuleId.admin_sensitive_activity
    ∷ AlertRuleId.admin_directory_volume ∷ AlertRuleId.security_fanout_gap
    ∷ AlertRuleId.logout_delivery_health ∷ AlertRuleId.alert_runtime_health
    ∷ AlertRuleId.queue_dlq_approximate ∷ []

rule_listed : (r : AlertRuleId) → get_elem? rules (rule_index r) ≡ some r
rule_listed AlertRuleId.registration_denied = refl
rule_listed _ = refl

rule_index-injective : (a b : AlertRuleId) → (rule_index a == rule_index b) ≡ true → a ≡ b
rule_index-injective a b h =
    let same : rule_index a ≡ rule_index b = ground arith in
    let first = rule_listed a in
    let second : get_elem? rules (rule_index a) ≡ some b = rw same (rule_listed b) in cc

same_identity-rule : (i j : AlertLifecycleIdentity) → is_same_identity i j ≡ true → i.rule ≡ j.rule
unfolding is_same_identity
same_identity-rule i j h = rule_index-injective i.rule j.rule (ground arith)

identity_for-IsBound :
    (o p : AlertRuleObservation) (r : AlertRuleEvaluation)
    → parse_alert_dimension p.dimension (definition_for_alert_rule (rule_id p.body)).dimensions
      ≡ ok p.dimension
    → IsCoherent p r
    → IsBound (identity_for r)
unfolding identity_for
identity_for-IsBound o p r h c = rw (c.rule_kept, c.dimension_kept) h

module _ (r : AlertRuleEvaluation) (now : ℕ) (fresh : IsBound (identity_for r))
    (backed : Backs r.rule r.selected r.severity)
    (top : r.immediate_critical ≡ true → r.severity ≡ critical) where
  from_bound :
      (a : Alarm) (i : AlertLifecycleIdentity)
      → IsBound i
      → i.rule ≡ r.rule
      → IsValid a now
      → HasIdentity i a
      → Survives now (advance_bound r (stored a) now i)
  from_bound a i bound rule valid mine =
      let here : Backs i.rule r.selected r.severity = rw rule backed in
      let (x, p, (b, q, w, at_now)) =
        bound-Lands r i now bound top a now valid (omega arith) mine here in
      survives b now x (advance_bound r (stored a) now i) p q w

  -- The branch of a state that is bound.
  follows :
      (a : Alarm) (i : AlertLifecycleIdentity)
      → IsBound i
      → IsValid a now
      → HasIdentity i a
      → (is_same_identity i (identity_for r) ≡ true)
        × (is_stale (stored a).last_evaluated_at now ≡ false)
      → Survives now (
          unless
            (not (is_same_identity i (identity_for r)))
            "alert lifecycle identity does not match the observation"
            (unless
              (is_stale (stored a).last_evaluated_at now)
              "alert lifecycle evaluations must be strictly increasing"
              (advance_bound r (stored a) now i)))
  unfolding identity_for
  follows a i bound valid mine h =
      let rule = same_identity-rule i (identity_for r) h.0 in
      rw (h.0, h.1) (from_bound a i bound rule valid mine)

  from_unbound : Survives now (
      if is_quiet r
      then ok (record { intent = none; state = stored unbound })
      else advance_bound r (stored unbound) now (identity_for r))
  unfolding identity_for
  from_unbound = elim (Bool-cases (is_quiet r)) [
    | inl calm ↦
        rw calm
          (survives unbound now (record { intent = none; state = stored unbound }) _ refl refl tt)
    | inr alert ↦ rw alert (from_bound unbound (identity_for r) fresh refl tt tt)
  ]

  from_alarm :
      (a : Alarm)
      → IsValid a now
      → Follows r now (stored a)
      → Survives now (advance_from r (stored a) now)
  unfolding advance_from identity_for
  from_alarm unbound v h = from_unbound
  from_alarm (quiet i seen cooldown) v h = follows (quiet i seen cooldown) i v.0 v refl h
  from_alarm (raised i seen cooldown level e) v h =
      follows (raised i seen cooldown level e) i v.0 v refl h
  from_alarm (firing i seen opened notified level shown breach clears) v h =
      follows (firing i seen opened notified level shown breach clears) i v.0 v refl h

-- Let an observation be evaluated at its own time, and let the stored state be one that the parser
-- accepts then, of the same alert and of an earlier time where it is bound to one. Then the step
-- returns, and the parser accepts the state that it returns, unchanged, then and at any later time.
pub advance_alert_lifecycle-Survives :
    (o : AlertRuleObservation) (s v : AlertLifecycleState) (now : ℕ) (r : AlertRuleEvaluation)
    → evaluate_alert_rule o ≡ ok r
    → r.as_of ≡ now
    → parse_state s now ≡ ok v
    → Follows r now v
    → Survives now (advance_alert_lifecycle now o s)
unfolding advance_alert_lifecycle
advance_alert_lifecycle-Survives o s v now r evaluated time parsed h =
    let (p, made, c) = evaluate_alert_rule-IsCoherent o r evaluated in
    let (same, (a, shape, valid)) = parse_state-Represents s v now parsed in
    let fresh = identity_for-IsBound o p r (parsed_dimension o p made) c in
    let follows_shape : Follows r now (stored a) = subst (Follows r now) shape h in
    let step =
      subst (λ y. Survives now (advance_from r y now)) (sym shape)
        (from_alarm r now fresh c.backed c.immediate_critical a valid follows_shape) in
    let moment : (r.as_of == now) ≡ true = (==_iff r.as_of now).1 time in
    simp (evaluated, moment, parsed) step
