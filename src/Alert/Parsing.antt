-- ===== src/Alert/Parsing.antt =====
-- The parsers of observations of apps/sso/worker/alert-rules.ts, from `parseWindows` to
-- `parseAlertObservation`, on values that have the shape of an observation: the nesting of the
-- windows, the snapshots and the kind of the dimension.
use Prim.Native.String.{◌++◌}
use sso_pg72_tw.Common.{
  ℕ, ◌&&◌, ◌||◌, String, Bool, true, false, not, Option, none, some, List, [], ◌∷◌, leb, ltb,
  if◌then◌else◌, any, Result, ok,
}
use sso_pg72_tw.Common.Results.{◌>>=◌, unless}
use sso_pg72_tw.Alert.Types.{Windowed}
use sso_pg72_tw.Alert.Definitions.{DimensionKind, definition_for_alert_rule}
use sso_pg72_tw.Alert.Observation.{
  AlertDimension, FanoutGapSnapshot, AlertRuntimeSnapshot, QueueDepthSnapshot, AlertRuleObservation,
  ObservationBody, count_windows, ratio_windows, restricted_windows, recovery_windows,
  oauth_windows, admin_windows, fanout_snapshot, logout_windows, runtime_snapshot, queue_snapshot,
  rule_id, max_evidence_value,
}
use sso_pg72_tw.Alert.Evaluate.{AlertRuleEvaluation, evaluate_observation}
use sso_pg72_tw.Alert.Metrics.{
  max_ratio_field, max_queue_backlog_bytes, Checked, integer, nullable_integer, parse_count_metrics,
  parse_ratio_metrics, parse_restricted_metrics, parse_recovery_entry_metrics, parse_oauth_metrics,
  parse_admin_sensitive_metrics, parse_logout_current_snapshot, parse_logout_metrics,
}

unfoldable pub parse_windows : {T : Type 0} → (T → Result T) → Windowed T → Result (Windowed T)
parse_windows parser ws = parser ws.m5 >>= λ a.
    parser ws.m15 >>= λ b. parser ws.m60 >>= λ c. ok (record { m5 = a; m15 = b; m60 = c })

-- The loop of `nondecreasing`, past the value `previous`.
unfoldable pub rises_from : ℕ → List ℕ → String → Checked
rises_from previous [] name = ok tt
rises_from previous (value ∷ rest) name =
    unless (ltb value previous) (name ++ " must be nondecreasing across nested windows")
      (rises_from value rest name)

unfoldable pub nondecreasing : List ℕ → String → Checked
unfolding rises_from
nondecreasing [] name = ok tt
nondecreasing (value ∷ rest) name = rises_from value rest name

abbrev pub not_below : Option ℕ → ℕ → Bool
not_below none value = true
not_below (some previous) value = leb previous value

-- The loop carries the source's `previous` and `unknownSeen`.
unfoldable pub nullable_count_nondecreasing : List (Option ℕ) → String → Option ℕ → Bool → Checked
nullable_count_nondecreasing [] name previous unknown_seen = ok tt
nullable_count_nondecreasing (none ∷ rest) name previous unknown_seen =
    nullable_count_nondecreasing rest name previous true
nullable_count_nondecreasing (some value ∷ rest) name previous unknown_seen =
    unless (unknown_seen || not (not_below previous value))
      (name ++ " must be nondecreasing or remain unknown across windows")
      (nullable_count_nondecreasing rest name (some value) unknown_seen)

-- `entries.map(…)`
abbrev pub entries : {T A : Type 0} → (T → A) → Windowed T → List A
entries field ws = field ws.m5 ∷ field ws.m15 ∷ field ws.m60 ∷ []

-- `validateNestedWindows`, by the shape that the rule gives the windows.
unfoldable pub validate_nested_windows : ObservationBody → Checked
unfolding nondecreasing nullable_count_nondecreasing
validate_nested_windows (count_windows r ws) = nondecreasing (entries (λ w. w.count) ws) "count"
validate_nested_windows (ratio_windows r ws) =
    nondecreasing (entries (λ w. w.numerator) ws) "numerator" >>= λ _.
    nondecreasing (entries (λ w. w.denominator) ws) "denominator"
validate_nested_windows (restricted_windows ws) =
    nondecreasing (entries (λ w. w.count) ws) "count" >>= λ _.
    nondecreasing (entries (λ w. w.known_surfaces) ws) "known surfaces"
validate_nested_windows (recovery_windows ws) =
    nondecreasing (entries (λ w. w.denied) ws) "denied" >>= λ _.
    nondecreasing (entries (λ w. w.rate_limited) ws) "rateLimited" >>= λ _.
    nondecreasing (entries (λ w. w.started) ws) "started"
validate_nested_windows (oauth_windows ws) =
    nondecreasing (entries (λ w. w.count) ws) "count" >>= λ _.
    nondecreasing (entries (λ w. w.high_risk_count) ws) "highRiskCount" >>= λ _.
    nullable_count_nondecreasing (entries (λ w. w.distinct_reporters) ws) "distinct reporters" none
      false
validate_nested_windows (admin_windows ws) =
    nondecreasing (entries (λ w. w.protected_denials) ws) "protectedDenials" >>= λ _.
    nondecreasing (entries (λ w. w.successes) ws) "successes"
validate_nested_windows (logout_windows c ws) =
    nondecreasing (entries (λ w. w.eligible) ws) "eligible" >>= λ _.
    nondecreasing (entries (λ w. w.lease_expired) ws) "leaseExpired" >>= λ _.
    nondecreasing (entries (λ w. w.unresolved) ws) "unresolved"
validate_nested_windows _ = ok tt

unfoldable pub parse_fanout_snapshot : FanoutGapSnapshot → Result FanoutGapSnapshot
unfolding integer
parse_fanout_snapshot s =
    integer s.missing_older_than_15m_count "missing older than 15 minutes" max_evidence_value
    >>= λ old.
        integer s.missing_older_than_5m_count "missing older than 5 minutes" max_evidence_value
        >>= λ young. unless (ltb young old) "fan-out age cohorts are inconsistent" (
            ok (record { missing_older_than_15m_count = old; missing_older_than_5m_count = young }))

unfoldable pub parse_runtime_snapshot : AlertRuntimeSnapshot → Result AlertRuntimeSnapshot
unfolding integer nullable_integer
parse_runtime_snapshot s = integer s.dead_outbox "dead alert outbox" max_evidence_value >>= λ d.
    nullable_integer s.evaluator_age_seconds "evaluator age" >>= λ e.
    nullable_integer s.outbox_due_age_seconds "outbox due age" >>= λ a.
    ok (record { dead_outbox = d; evaluator_age_seconds = e; outbox_due_age_seconds = a })

-- `queueBindingInteger(…).valid`: null is not an integer.
abbrev pub is_binding_integer : Option ℕ → ℕ → Bool
is_binding_integer none maximum = false
is_binding_integer (some n) maximum = leb n maximum

-- `bindingMetricsValid ? value : null`
abbrev pub keep_if : Bool → Option ℕ → Option ℕ
keep_if valid value = if valid then value else none

-- The streak is an integer of the ratio domain or null.
unfoldable pub parse_streak : Option ℕ → Result (Option ℕ)
unfolding integer
parse_streak none = ok none
parse_streak (some n) = integer n "consecutive Queue samples" max_ratio_field >>= λ m. ok (some m)

unfoldable pub parse_queue_snapshot : QueueDepthSnapshot → Result QueueDepthSnapshot
unfolding parse_streak
parse_queue_snapshot s =
    let valid =
      is_binding_integer s.backlog_bytes max_queue_backlog_bytes
      && is_binding_integer s.backlog_count max_evidence_value in
    parse_streak s.consecutive_nonzero_samples >>= λ streak. ok (record {
      backlog_bytes = keep_if valid s.backlog_bytes;
      backlog_count = keep_if valid s.backlog_count;
      consecutive_nonzero_samples = streak;
      nonzero_since_at = s.nonzero_since_at;
      oldest_message_timestamp = keep_if valid s.oldest_message_timestamp;
      sampled_at = s.sampled_at;
    })

-- The windows of a rule, parsed and then compared.
abbrev pub nested :
    {T : Type 0} → (Windowed T → ObservationBody) → Result (Windowed T) → Result ObservationBody
nested shape windows = windows >>= λ ws. validate_nested_windows (shape ws) >>= λ _. ok (shape ws)

unfoldable pub parse_body : ObservationBody → Result ObservationBody
unfolding parse_windows
parse_body (count_windows r ws) = nested (count_windows r) (parse_windows parse_count_metrics ws)
parse_body (ratio_windows r ws) = nested (ratio_windows r) (parse_windows parse_ratio_metrics ws)
parse_body (restricted_windows ws) =
    nested restricted_windows (parse_windows parse_restricted_metrics ws)
parse_body (recovery_windows ws) =
    nested recovery_windows (parse_windows parse_recovery_entry_metrics ws)
parse_body (oauth_windows ws) = nested oauth_windows (parse_windows parse_oauth_metrics ws)
parse_body (admin_windows ws) =
    nested admin_windows (parse_windows parse_admin_sensitive_metrics ws)
parse_body (fanout_snapshot s) = parse_fanout_snapshot s >>= λ t. ok (fanout_snapshot t)
parse_body (logout_windows c ws) = parse_logout_current_snapshot c >>= λ d.
    nested (logout_windows d) (parse_windows parse_logout_metrics ws)
parse_body (runtime_snapshot s) = parse_runtime_snapshot s >>= λ t. ok (runtime_snapshot t)
parse_body (queue_snapshot s) = parse_queue_snapshot s >>= λ t. ok (queue_snapshot t)

abbrev pub kind_of : AlertDimension → DimensionKind
kind_of AlertDimension.global = DimensionKind.global
kind_of (AlertDimension.subject_hmac r) = DimensionKind.subject_hmac
kind_of (AlertDimension.actor_hmac r) = DimensionKind.actor_hmac
kind_of (AlertDimension.client_hmac r) = DimensionKind.client_hmac
kind_of (AlertDimension.queue q) = DimensionKind.queue

abbrev pub same_kind : DimensionKind → DimensionKind → Bool
same_kind DimensionKind.global DimensionKind.global = true
same_kind DimensionKind.subject_hmac DimensionKind.subject_hmac = true
same_kind DimensionKind.actor_hmac DimensionKind.actor_hmac = true
same_kind DimensionKind.client_hmac DimensionKind.client_hmac = true
same_kind DimensionKind.queue DimensionKind.queue = true
same_kind _ _ = false

unfoldable pub parse_alert_dimension : AlertDimension → List DimensionKind → Result AlertDimension
parse_alert_dimension dimension allowed =
    unless (not (any (same_kind (kind_of dimension)) allowed)) "alert dimension is not allowed"
      (ok dimension)

-- The kinds that the table allows a rule include no other than those that the parser of its shape
-- asks for once more.
unfoldable pub parse_alert_observation : AlertRuleObservation → Result AlertRuleObservation
unfolding parse_alert_dimension parse_body
parse_alert_observation o =
    parse_alert_dimension o.dimension (definition_for_alert_rule (rule_id o.body)).dimensions
    >>= λ d. parse_body o.body >>= λ b. ok (record { as_of = o.as_of; dimension = d; body = b })

unfoldable pub evaluate_alert_rule : AlertRuleObservation → Result AlertRuleEvaluation
unfolding parse_alert_observation evaluate_observation
evaluate_alert_rule o = parse_alert_observation o >>= λ p. evaluate_observation p
