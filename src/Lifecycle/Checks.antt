-- ===== src/Lifecycle/Checks.antt =====
-- `parseState` of apps/sso/worker/alert-evaluator.ts and its checks, on values that have the fields
-- of a state.
use Prim.Native.String.{◌++◌}
use sso_pg72_tw.Common.{
  ℕ, ◌+◌, ◌&&◌, ◌||◌, String, Bool, true, false, not, Option, none, some, ltb, ◌==◌, Result, ok,
  throw,
}
use sso_pg72_tw.Common.Results.{◌>>=◌, unless}
use sso_pg72_tw.Alert.Types.{AlertSeverity, no_alert, warning, critical, AlertSelectedEvidence}
use sso_pg72_tw.Alert.Definitions.{definition_for_alert_rule}
use sso_pg72_tw.Alert.Parsing.{parse_alert_dimension}
use sso_pg72_tw.Alert.Metrics.{is_null, differ}
use sso_pg72_tw.Alert.Evidence.{is_no_alert}
use sso_pg72_tw.Alert.Contracts.{parse_alert_selected_evidence_for_rule}
use sso_pg72_tw.Lifecycle.{
  cooldown_ms, AlertLifecyclePhase, AlertLifecycleIdentity, AlertLifecycleState, active, inactive,
  pending,
}

unfoldable pub counter : ℕ → String → String → ℕ → Result ℕ
counter value name maximum_text maximum =
    unless (ltb maximum value) (name ++ " must be an integer between 0 and " ++ maximum_text)
      (ok value)

unfoldable pub active_severity : Option AlertSeverity → String → Result (Option AlertSeverity)
active_severity (some no_alert) name = throw (name ++ " is not supported")
active_severity level name = ok level

unfoldable pub parse_identity : AlertLifecycleIdentity → Result AlertLifecycleIdentity
parse_identity i =
    parse_alert_dimension i.dimension (definition_for_alert_rule i.rule).dimensions >>= λ d.
    ok (record { dimension = d; rule = i.rule })

-- `record.identity === null ? null : parseIdentity(record.identity)`
unfoldable pub parse_bound_identity :
    Option AlertLifecycleIdentity → Result (Option AlertLifecycleIdentity)
unfolding parse_identity
parse_bound_identity none = ok none
parse_bound_identity (some i) = parse_identity i >>= λ j. ok (some j)

unfoldable pub parse_evidence :
    Option AlertLifecycleIdentity
    → Option AlertSelectedEvidence
    → Result (Option AlertSelectedEvidence)
parse_evidence identity none = ok none
parse_evidence none (some e) = throw "alert lifecycle evidence requires a bound identity"
parse_evidence (some i) (some e) =
    parse_alert_selected_evidence_for_rule e i.rule >>= λ f. ok (some f)

-- `===` on severities
abbrev pub same_severity : AlertSeverity → AlertSeverity → Bool
same_severity no_alert no_alert = true
same_severity warning warning = true
same_severity critical critical = true
same_severity _ _ = false

abbrev pub is_level : Option AlertSeverity → AlertSeverity → Bool
is_level none s = false
is_level (some level) s = same_severity level s

-- `evidence !== null && evidence.severity !== severity`
abbrev pub evidence_differs : Option AlertSelectedEvidence → Option AlertSeverity → Bool
evidence_differs none level = false
evidence_differs (some e) level = not (is_level level e.severity)

-- The cooldown is later than the watermark by more than the interval, or there is no watermark.
abbrev pub cooldown_exceeds : Option ℕ → Option ℕ → Bool
cooldown_exceeds none seen = false
cooldown_exceeds (some until) none = true
cooldown_exceeds (some until) (some seen) = ltb (seen + cooldown_ms) until

-- `value !== null && value > limit`
abbrev pub is_after : Option ℕ → ℕ → Bool
is_after none limit = false
is_after (some value) limit = ltb limit value

-- `left !== null && right !== null && left > right`
abbrev pub is_later : Option ℕ → Option ℕ → Bool
is_later left none = false
is_later left (some right) = is_after left right

unfoldable pub check_inactive : AlertLifecycleState → Bool
check_inactive s =
    not (is_no_alert s.status)
    || not (is_null s.active_evidence)
    || not (is_null s.breach_evidence)
    || not (is_null s.opened_at)
    || not (is_null s.last_notification_at)
    || not (is_null s.breach_severity)
    || not (s.consecutive_breaches == 0)
    || not (s.consecutive_clears == 0)
    || (is_null s.identity && not (is_null s.cooldown_until))

unfoldable pub check_pending : AlertLifecycleState → Bool
check_pending s =
    not (is_no_alert s.status)
    || not (is_null s.active_evidence)
    || is_null s.breach_evidence
    || is_null s.identity
    || not (is_null s.opened_at)
    || not (is_null s.last_notification_at)
    || is_null s.breach_severity
    || s.consecutive_breaches == 0
    || not (s.consecutive_clears == 0)

unfoldable pub check_active : AlertLifecycleState → Bool
check_active s =
    is_no_alert s.status
    || is_null s.active_evidence
    || evidence_differs s.active_evidence (some s.status)
    || is_null s.identity
    || is_null s.opened_at
    || is_null s.last_notification_at
    || not (is_null s.cooldown_until)

-- What each phase asks for.
unfoldable pub check_phase :
    AlertLifecyclePhase
    → AlertLifecycleState
    → Result AlertLifecycleState
    → Result AlertLifecycleState
unfolding check_inactive check_pending check_active
check_phase inactive s rest =
    unless (check_inactive s) "inactive alert state cannot carry active evidence" rest
check_phase pending s rest =
    unless (check_pending s) "pending alert state requires only an unconfirmed breach" rest
check_phase active s rest = unless (check_active s) "active alert state is inconsistent" (
    unless
      (not (is_null s.breach_severity)
        && not (same_severity s.status warning && is_level s.breach_severity critical))
      "only an active warning may carry a pending critical breach" rest)

unfoldable pub check_times : AlertLifecycleState → ℕ → Result AlertLifecycleState
check_times s as_of = unless (is_after s.opened_at as_of) "openedAt cannot be in the future" (
    unless (is_after s.last_evaluated_at as_of) "lastEvaluatedAt cannot be in the future" (
      unless (is_after s.last_notification_at as_of) "lastNotificationAt cannot be in the future" (
        unless
          (is_later s.opened_at s.last_evaluated_at
            || is_later s.last_notification_at s.last_evaluated_at)
          "alert lifecycle timestamps cannot exceed its watermark"
          (unless (is_later s.opened_at s.last_notification_at)
            "lastNotificationAt cannot precede openedAt" (ok s)))))

-- The checks that follow the construction of `state`.
unfoldable pub check_state : AlertLifecycleState → ℕ → Result AlertLifecycleState
unfolding check_phase check_times
check_state s as_of =
    unless (differ (is_null s.breach_severity) (s.consecutive_breaches == 0))
      "breach severity and consecutive breach count must agree"
      (unless
        (differ (is_null s.breach_evidence) (is_null s.breach_severity)
          || evidence_differs s.breach_evidence s.breach_severity)
        "breach evidence must match the pending breach severity"
        (unless (ltb 0 s.consecutive_breaches && ltb 0 s.consecutive_clears)
          "breach and clear counters cannot both be active"
          (unless (differ (is_null s.identity) (is_null s.last_evaluated_at))
            "alert lifecycle identity and evaluation watermark must agree"
            (unless (cooldown_exceeds s.cooldown_until s.last_evaluated_at)
              "alert lifecycle cooldown exceeds the canonical interval"
              (check_phase s.phase s (check_times s as_of))))))

unfoldable pub parse_state : AlertLifecycleState → ℕ → Result AlertLifecycleState
unfolding check_state parse_bound_identity parse_evidence active_severity counter
parse_state s as_of = parse_bound_identity s.identity >>= λ identity.
    parse_evidence identity s.active_evidence >>= λ shown.
    parse_evidence identity s.breach_evidence >>= λ breach.
    active_severity s.breach_severity "breach severity" >>= λ level.
    counter s.consecutive_breaches "consecutive breaches" "1" 1 >>= λ breaches.
    counter s.consecutive_clears "consecutive clears" "4" 4 >>= λ clears.
    check_state
      (record s {
        active_evidence = shown;
        breach_evidence = breach;
        breach_severity = level;
        consecutive_breaches = breaches;
        consecutive_clears = clears;
        identity = identity;
      })
      as_of
