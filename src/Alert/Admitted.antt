-- ===== src/Alert/Admitted.antt =====
-- Which observations `parseAlertObservation` of apps/sso/worker/alert-rules.ts accepts, and what it
-- returns.
use sso_pg72_tw.Common.{
  ◌≡◌, refl, ◌↔◌, ◌⊎◌, ◌||◌, inl, inr, Bool, true, arith, Result, ok, ◌∙◌, ap, sym, subst, List, [],
  ◌∷◌, any, Any,
}
use sso_pg72_tw.Common.Results.{◌>>=◌, >>=_ok, ok_injective}
use sso_pg72_tw.Alert.Definitions.{DimensionKind, definition_for_alert_rule}
use sso_pg72_tw.Alert.Observation.{
  AlertDimension, QueueDepthSnapshot, AlertRuleObservation, ObservationBody, count_windows,
  ratio_windows, restricted_windows, recovery_windows, oauth_windows, admin_windows,
  fanout_snapshot, logout_windows, runtime_snapshot, queue_snapshot, rule_id,
}
use sso_pg72_tw.Alert.Metrics.{
  parse_count_metrics, parse_ratio_metrics, parse_restricted_metrics, parse_recovery_entry_metrics,
  parse_oauth_metrics, parse_admin_sensitive_metrics, parse_logout_current_snapshot,
  parse_logout_metrics,
}
use sso_pg72_tw.Alert.Parsing.{
  parse_body, parse_fanout_snapshot, parse_runtime_snapshot, parse_queue_snapshot, same_kind,
  kind_of, parse_alert_dimension, parse_alert_observation,
}
use sso_pg72_tw.Alert.Consistent.{
  IsCount, IsRatio, IsRestricted, IsRecovery, IsOauth, IsAdmin, IsLogout, IsCurrent, IsFanout,
  IsRuntime, Accepts, parse_count_metrics-Accepts, parse_ratio_metrics-Accepts,
  parse_restricted_metrics-Accepts, parse_recovery_entry_metrics-Accepts,
  parse_oauth_metrics-Accepts, parse_admin_sensitive_metrics-Accepts, parse_logout_metrics-Accepts,
  parse_logout_current_snapshot-Accepts, parse_fanout_snapshot-Accepts,
  parse_runtime_snapshot-Accepts,
}
use sso_pg72_tw.Alert.Accepting.{
  EachWindow, IsNested, IsStreak, IsCleaned, nested-ok_iff, parse_queue_snapshot-ok_iff,
}

-- The ranges of a body, the nesting of its windows, and what the parser returns for it: the same,
-- but for a snapshot of a queue.
abbrev pub IsAccepted : ObservationBody → ObservationBody → Type 0
IsAccepted (count_windows r ws) c =
    EachWindow IsCount ws × IsNested (count_windows r ws) × (c ≡ count_windows r ws)
IsAccepted (ratio_windows r ws) c =
    EachWindow IsRatio ws × IsNested (ratio_windows r ws) × (c ≡ ratio_windows r ws)
IsAccepted (restricted_windows ws) c =
    EachWindow IsRestricted ws × IsNested (restricted_windows ws) × (c ≡ restricted_windows ws)
IsAccepted (recovery_windows ws) c =
    EachWindow IsRecovery ws × IsNested (recovery_windows ws) × (c ≡ recovery_windows ws)
IsAccepted (oauth_windows ws) c =
    EachWindow IsOauth ws × IsNested (oauth_windows ws) × (c ≡ oauth_windows ws)
IsAccepted (admin_windows ws) c =
    EachWindow IsAdmin ws × IsNested (admin_windows ws) × (c ≡ admin_windows ws)
IsAccepted (logout_windows l ws) c =
    IsCurrent l
    × EachWindow IsLogout ws
    × IsNested (logout_windows l ws)
    × (c ≡ logout_windows l ws)
IsAccepted (fanout_snapshot s) c = IsFanout s × (c ≡ fanout_snapshot s)
IsAccepted (runtime_snapshot s) c = IsRuntime s × (c ≡ runtime_snapshot s)
IsAccepted (queue_snapshot s) c =
    IsStreak s.consecutive_nonzero_samples
    × ((t : QueueDepthSnapshot) × IsCleaned s t × (c ≡ queue_snapshot t))

snapshot-ok_iff :
    {S : Type 0} (shape : S → ObservationBody) (parser : S → Result S) (P : S → Type 0) (s : S)
    (c : ObservationBody)
    → Accepts parser P
    → ((parser s >>= λ t. ok (shape t)) ≡ ok c) ↔ (P s × (c ≡ shape s))
snapshot-ok_iff shape parser P s c accepts = (
  λ h.
      let (t, p, done) = >>=_ok (parser s) _ h in
      let (fits, same) = (accepts s t).0 p in (fits, sym (ok_injective done) ∙ ap shape same),
  λ h.
      let parsed = (accepts s s).1 (h.0, refl) in
      let read : (parser s >>= λ t. ok (shape t)) ≡ ok (shape s) = rw parsed refl in
      read ∙ ap ok (sym h.1),
)

parse_body-ok_iff : (b c : ObservationBody) → (parse_body b ≡ ok c) ↔ IsAccepted b c
unfolding parse_body
parse_body-ok_iff (count_windows r ws) c =
    nested-ok_iff (count_windows r) parse_count_metrics IsCount ws c parse_count_metrics-Accepts
parse_body-ok_iff (ratio_windows r ws) c =
    nested-ok_iff (ratio_windows r) parse_ratio_metrics IsRatio ws c parse_ratio_metrics-Accepts
parse_body-ok_iff (restricted_windows ws) c =
    nested-ok_iff restricted_windows parse_restricted_metrics IsRestricted ws c
      parse_restricted_metrics-Accepts
parse_body-ok_iff (recovery_windows ws) c =
    nested-ok_iff recovery_windows parse_recovery_entry_metrics IsRecovery ws c
      parse_recovery_entry_metrics-Accepts
parse_body-ok_iff (oauth_windows ws) c =
    nested-ok_iff oauth_windows parse_oauth_metrics IsOauth ws c parse_oauth_metrics-Accepts
parse_body-ok_iff (admin_windows ws) c =
    nested-ok_iff admin_windows parse_admin_sensitive_metrics IsAdmin ws c
      parse_admin_sensitive_metrics-Accepts
parse_body-ok_iff (fanout_snapshot s) c =
    snapshot-ok_iff fanout_snapshot parse_fanout_snapshot IsFanout s c parse_fanout_snapshot-Accepts
parse_body-ok_iff (runtime_snapshot s) c =
    snapshot-ok_iff runtime_snapshot parse_runtime_snapshot IsRuntime s c
      parse_runtime_snapshot-Accepts
parse_body-ok_iff (logout_windows l ws) c = (
  λ h.
      let (m, p, rest) = >>=_ok (parse_logout_current_snapshot l) _ h in
      let (fits, same) = (parse_logout_current_snapshot-Accepts l m).0 p in
      let again = rw same at rest in
      let (each, all_nested, kept) =
        (nested-ok_iff (logout_windows l) parse_logout_metrics IsLogout ws c
            parse_logout_metrics-Accepts).0
          again in
      (fits, each, all_nested, kept),
  λ h.
      let parsed = (parse_logout_current_snapshot-Accepts l l).1 (h.0, refl) in
      rw parsed (
        (nested-ok_iff (logout_windows l) parse_logout_metrics IsLogout ws c
            parse_logout_metrics-Accepts).1
          (h.1, h.2, h.3)),
)
parse_body-ok_iff (queue_snapshot s) c = (
  λ h.
      let (t, p, done) = >>=_ok (parse_queue_snapshot s) _ h in
      let (streak, cleaned) = (parse_queue_snapshot-ok_iff s t).0 p in
      (streak, (t, cleaned, sym (ok_injective done))),
  λ (streak, (t, cleaned, same)).
      let parsed = (parse_queue_snapshot-ok_iff s t).1 (streak, cleaned) in
      rw parsed (ap ok (sym same)),
)

-- The kind of the dimension is one of those that are allowed.
abbrev pub IsAllowed : AlertDimension → List DimensionKind → Type 0
IsAllowed d allowed = Any (λ k. kind_of d ≡ k) allowed

same_kind_refl : (a : DimensionKind) → same_kind a a ≡ true
same_kind_refl DimensionKind.global = refl
same_kind_refl DimensionKind.subject_hmac = refl
same_kind_refl DimensionKind.actor_hmac = refl
same_kind_refl DimensionKind.client_hmac = refl
same_kind_refl DimensionKind.queue = refl

same_kind_iff : (a b : DimensionKind) → (same_kind a b ≡ true) ↔ (a ≡ b)
same_kind_iff a b = (λ h. ground arith, λ h. subst (λ x. same_kind a x ≡ true) h (same_kind_refl a))

||_true_iff : (a b : Bool) → (a || b ≡ true) ↔ ((a ≡ true) ⊎ (b ≡ true))
||_true_iff a b = (λ h. ground arith, λ h. ground arith)

any_kind_iff :
    (a : DimensionKind) (ks : List DimensionKind)
    → (any (same_kind a) ks ≡ true) ↔ Any (λ k. a ≡ k) ks
any_kind_iff a [] = (λ h. cc, λ h. absurd h)
any_kind_iff a (k ∷ ks) =
    let here = same_kind_iff a k in
    let there = any_kind_iff a ks in
    let parts = ||_true_iff (same_kind a k) (any (same_kind a) ks) in
    (
      λ h. elim (parts.0 h) [ inl x ↦ inl (here.0 x) | inr y ↦ inr (there.0 y) ],
      λ h. parts.1 (elim h [ inl x ↦ inl (here.1 x) | inr y ↦ inr (there.1 y) ]),
    )

parse_alert_dimension-ok_iff :
    (d e : AlertDimension) (allowed : List DimensionKind)
    → (parse_alert_dimension d allowed ≡ ok e) ↔ (IsAllowed d allowed × (e ≡ d))
unfolding parse_alert_dimension
parse_alert_dimension-ok_iff d e allowed =
    let kinds = any_kind_iff (kind_of d) allowed in
    (
      λ h. (kinds.0 (ground arith), ground arith),
      λ h. let passes = kinds.1 h.0 in ground (arith, passes, h.1),
    )

-- The parser accepts an observation exactly if the table allows its rule the kind of its dimension,
-- its numbers are in their ranges and bounded by one another, and its windows are nested. It then
-- returns it as it is, but for the snapshot of a queue that has not reported its bytes and its
-- count, each in its range: this one loses both and the time of the oldest message. The bytes and
-- the count themselves are never a reason to refuse.
pub parse_alert_observation-ok_iff :
    (o p : AlertRuleObservation)
    → (parse_alert_observation o ≡ ok p) ↔ (
        IsAllowed o.dimension (definition_for_alert_rule (rule_id o.body)).dimensions
        × IsAccepted o.body p.body
        × (p.as_of ≡ o.as_of)
        × (p.dimension ≡ o.dimension))
unfolding parse_alert_observation
parse_alert_observation-ok_iff o p =
    let allowed = (definition_for_alert_rule (rule_id o.body)).dimensions in
    (
      λ h.
          let (d, q, rest) = >>=_ok (parse_alert_dimension o.dimension allowed) _ h in
          let (b, s, done) = >>=_ok (parse_body o.body) _ rest in
          let (permitted, same) = (parse_alert_dimension-ok_iff o.dimension d allowed).0 q in
          let body = (parse_body-ok_iff o.body b).0 s in
          let made = ok_injective done in
          (
            permitted,
            subst (IsAccepted o.body) (ap (λ (x : AlertRuleObservation). x.body) made) body,
            sym (ap (λ (x : AlertRuleObservation). x.as_of) made),
            sym (ap (λ (x : AlertRuleObservation). x.dimension) made) ∙ same,
          ),
      λ h.
          let dimension =
            (parse_alert_dimension-ok_iff o.dimension o.dimension allowed).1 (h.0, refl) in
          let body = (parse_body-ok_iff o.body p.body).1 h.1 in
          let read : parse_alert_observation o
              ≡ ok (record { as_of = o.as_of; dimension = o.dimension; body = p.body }) =
            rw (dimension, body) refl in
          read ∙ cc (h.2, h.3),
    )

IsAccepted-rule : (b c : ObservationBody) → IsAccepted b c → rule_id c ≡ rule_id b
IsAccepted-rule (count_windows r ws) c h = ap rule_id h.2
IsAccepted-rule (ratio_windows r ws) c h = ap rule_id h.2
IsAccepted-rule (restricted_windows ws) c h = ap rule_id h.2
IsAccepted-rule (recovery_windows ws) c h = ap rule_id h.2
IsAccepted-rule (oauth_windows ws) c h = ap rule_id h.2
IsAccepted-rule (admin_windows ws) c h = ap rule_id h.2
IsAccepted-rule (logout_windows l ws) c h = ap rule_id h.3
IsAccepted-rule (fanout_snapshot s) c h = ap rule_id h.1
IsAccepted-rule (runtime_snapshot s) c h = ap rule_id h.1
IsAccepted-rule (queue_snapshot s) c (streak, (t, cleaned, same)) = ap rule_id same

-- The table allows the dimension that the parser returns.
pub parsed_dimension :
    (o p : AlertRuleObservation)
    → parse_alert_observation o ≡ ok p
    → parse_alert_dimension p.dimension (definition_for_alert_rule (rule_id p.body)).dimensions
      ≡ ok p.dimension
parsed_dimension o p h =
    let (allowed, body, _, same) = (parse_alert_observation-ok_iff o p).0 h in
    let there =
      subst (λ x. IsAllowed x (definition_for_alert_rule (rule_id o.body)).dimensions) (sym same)
        allowed in
    let here =
      subst (λ r. IsAllowed p.dimension (definition_for_alert_rule r).dimensions)
        (sym (IsAccepted-rule o.body p.body body)) there in
    (parse_alert_dimension-ok_iff p.dimension p.dimension _).1 (here, refl)
