-- ===== src/Alert/Metrics.antt =====
-- The parsers of the metrics of one window in apps/sso/worker/alert-rules.ts, from `integer` to
-- `parseLogoutMetrics`, on values that have the fields of the metrics.
use Prim.Native.String.{◌++◌}
use sso_pg72_tw.Common.{
  ℕ, ◌+◌, ◌||◌, String, Bool, true, false, not, Option, none, some, ltb, ◌==◌, Result, ok,
}
use sso_pg72_tw.Common.Results.{◌>>=◌, unless}
use sso_pg72_tw.Alert.Observation.{
  CountWindowMetrics, RatioWindowMetrics, RestrictedDenialWindowMetrics, RecoveryEntryWindowMetrics,
  OauthClientReportWindowMetrics, AdminSensitiveWindowMetrics, LogoutDeliveryCurrentSnapshot,
  LogoutDeliveryWindowMetrics, max_evidence_value,
}

abbrev pub max_ratio_field : ℕ
max_ratio_field = 1000000

abbrev pub max_queue_backlog_bytes : ℕ
max_queue_backlog_bytes = 1000000000000

-- The length of `RESTRICTED_ALERT_SURFACES`.
abbrev pub restricted_surfaces : ℕ
restricted_surfaces = 7

-- A check that returns nothing.
abbrev pub Checked : Type 0
Checked = Result {0} Unit

unfoldable pub integer : ℕ → String → ℕ → Result ℕ
integer value name maximum =
    unless (ltb maximum value) (name ++ " must be an integer in the persistence domain") (ok value)

unfoldable pub nullable_integer : Option ℕ → String → Result (Option ℕ)
unfolding integer
nullable_integer none name = ok none
nullable_integer (some value) name = integer value name max_evidence_value >>= λ n. ok (some n)

unfoldable pub parse_count_metrics : CountWindowMetrics → Result CountWindowMetrics
unfolding integer
parse_count_metrics w =
    integer w.count "count" max_evidence_value >>= λ n. ok (record { count = n })

unfoldable pub parse_ratio_metrics : RatioWindowMetrics → Result RatioWindowMetrics
unfolding integer
parse_ratio_metrics w = integer w.denominator "denominator" max_ratio_field >>= λ d.
    integer w.numerator "numerator" max_ratio_field >>= λ n.
    unless (ltb d n) "numerator cannot exceed denominator"
      (ok (record { denominator = d; numerator = n }))

unfoldable pub parse_restricted_metrics :
    RestrictedDenialWindowMetrics → Result RestrictedDenialWindowMetrics
unfolding integer
parse_restricted_metrics w = integer w.count "count" max_evidence_value >>= λ n.
    integer w.known_surfaces "known surfaces" max_evidence_value >>= λ s.
    unless (ltb n s || ltb restricted_surfaces s)
      "known surfaces exceed the canonical denied-event domain"
      (ok (record { count = n; known_surfaces = s }))

unfoldable pub parse_recovery_entry_metrics :
    RecoveryEntryWindowMetrics → Result RecoveryEntryWindowMetrics
unfolding integer
parse_recovery_entry_metrics w = integer w.denied "denied" max_ratio_field >>= λ d.
    integer w.rate_limited "rate limited" max_evidence_value >>= λ r.
    integer w.started "started" max_ratio_field >>= λ s.
    unless (ltb max_ratio_field (d + s)) "recovery denominator exceeds the persistence domain"
      (ok (record { denied = d; rate_limited = r; started = s }))

-- `value !== null && value > maximum`
abbrev pub exceeds : Option ℕ → ℕ → Bool
exceeds none maximum = false
exceeds (some n) maximum = ltb maximum n

unfoldable pub parse_oauth_metrics :
    OauthClientReportWindowMetrics → Result OauthClientReportWindowMetrics
unfolding integer nullable_integer
parse_oauth_metrics w = integer w.count "report count" max_evidence_value >>= λ n.
    nullable_integer w.distinct_reporters "distinct reporters" >>= λ d.
    integer w.high_risk_count "high-risk count" max_evidence_value >>= λ h.
    unless (exceeds d n || ltb n h) "OAuth report subsets cannot exceed total reports"
      (ok (record { count = n; distinct_reporters = d; high_risk_count = h }))

unfoldable pub parse_admin_sensitive_metrics :
    AdminSensitiveWindowMetrics → Result AdminSensitiveWindowMetrics
unfolding integer
parse_admin_sensitive_metrics w =
    integer w.protected_denials "protected denials" max_evidence_value >>= λ p.
    integer w.successes "sensitive successes" max_evidence_value >>= λ s.
    unless (ltb max_evidence_value (p + s)) "admin-sensitive total exceeds the persistence domain"
      (ok (record { protected_denials = p; successes = s }))

-- `value === null`
abbrev pub is_null {ℓ} : {A : Type ℓ} → Option A → Bool
is_null none = true
is_null (some a) = false

-- `(left) !== (right)` on tests
abbrev pub differ : Bool → Bool → Bool
differ true b = not b
differ false b = b

unfoldable pub parse_logout_current_snapshot :
    LogoutDeliveryCurrentSnapshot → Result LogoutDeliveryCurrentSnapshot
unfolding integer nullable_integer
parse_logout_current_snapshot c =
    integer c.current_dead "current dead deliveries" max_evidence_value >>= λ d.
    integer c.current_unresolved "current unresolved deliveries" max_evidence_value >>= λ u.
    nullable_integer c.oldest_unresolved_age_seconds "oldest unresolved age" >>= λ a.
    unless (ltb u d) "current dead deliveries cannot exceed current unresolved deliveries" (
      unless (differ (u == 0) (is_null a)) "current unresolved count and oldest age must agree" (
        ok
          (record { current_dead = d; current_unresolved = u; oldest_unresolved_age_seconds = a })))

unfoldable pub parse_logout_metrics :
    LogoutDeliveryWindowMetrics → Result LogoutDeliveryWindowMetrics
unfolding integer
parse_logout_metrics w = integer w.eligible "eligible deliveries" max_ratio_field >>= λ e.
    integer w.lease_expired "expired leases" max_evidence_value >>= λ l.
    integer w.unresolved "unresolved deliveries" max_ratio_field >>= λ u.
    unless (ltb e u) "logout unresolved deliveries cannot exceed their window cohort"
      (ok (record { eligible = e; lease_expired = l; unresolved = u }))
