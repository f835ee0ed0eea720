-- ===== src/Alert/Consistent.antt =====
-- Which windows and snapshots the parsers of apps/sso/worker/alert-rules.ts accept: the ranges of the
-- numbers of each, and how those of a window bound one another.
use sso_pg72_tw.Common.{ℕ, ◌+◌, ◌≤◌, ◌≡◌, ◌↔◌, Option, none, some, arith, Result, ok}
use sso_pg72_tw.Alert.Observation.{
  CountWindowMetrics, RatioWindowMetrics, RestrictedDenialWindowMetrics, RecoveryEntryWindowMetrics,
  OauthClientReportWindowMetrics, AdminSensitiveWindowMetrics, FanoutGapSnapshot,
  LogoutDeliveryCurrentSnapshot, LogoutDeliveryWindowMetrics, AlertRuntimeSnapshot,
}
use sso_pg72_tw.Alert.Metrics.{
  integer, nullable_integer, parse_count_metrics, parse_ratio_metrics, parse_restricted_metrics,
  parse_recovery_entry_metrics, parse_oauth_metrics, parse_admin_sensitive_metrics,
  parse_logout_current_snapshot, parse_logout_metrics,
}
use sso_pg72_tw.Alert.Parsing.{parse_fanout_snapshot, parse_runtime_snapshot}

-- A count of the persistence domain, and a part or a whole of a ratio.
abbrev pub IsStored : ℕ → Type 0
IsStored n = n ≤ 1000000000

abbrev pub IsPart : ℕ → Type 0
IsPart n = n ≤ 1000000

abbrev pub IsStoredOr : Option ℕ → Type 0
IsStoredOr none = Unit
IsStoredOr (some n) = IsStored n

abbrev pub IsCount : CountWindowMetrics → Type 0
IsCount w = IsStored w.count

abbrev pub IsRatio : RatioWindowMetrics → Type 0
IsRatio w = (w.numerator ≤ w.denominator) × IsPart w.denominator

abbrev pub IsRestricted : RestrictedDenialWindowMetrics → Type 0
IsRestricted w = IsStored w.count × (w.known_surfaces ≤ w.count) × (w.known_surfaces ≤ 7)

abbrev pub IsRecovery : RecoveryEntryWindowMetrics → Type 0
IsRecovery w = IsPart (w.denied + w.started) × IsStored w.rate_limited

abbrev pub AreReporters : Option ℕ → ℕ → Type 0
AreReporters none n = Unit
AreReporters (some d) n = d ≤ n

abbrev pub IsOauth : OauthClientReportWindowMetrics → Type 0
IsOauth w =
    IsStored w.count × AreReporters w.distinct_reporters w.count × (w.high_risk_count ≤ w.count)

abbrev pub IsAdmin : AdminSensitiveWindowMetrics → Type 0
IsAdmin w = IsStored (w.protected_denials + w.successes)

abbrev pub IsLogout : LogoutDeliveryWindowMetrics → Type 0
IsLogout w = IsPart w.eligible × IsStored w.lease_expired × (w.unresolved ≤ w.eligible)

-- There is an oldest delivery exactly if there are any.
abbrev pub IsAgeOf : Option ℕ → ℕ → Type 0
IsAgeOf none n = n ≡ 0
IsAgeOf (some a) n = IsStored a × (1 ≤ n)

abbrev pub IsCurrent : LogoutDeliveryCurrentSnapshot → Type 0
IsCurrent c =
    (c.current_dead ≤ c.current_unresolved)
    × IsStored c.current_unresolved
    × IsAgeOf c.oldest_unresolved_age_seconds c.current_unresolved

abbrev pub IsFanout : FanoutGapSnapshot → Type 0
IsFanout s =
    (s.missing_older_than_15m_count ≤ s.missing_older_than_5m_count)
    × IsStored s.missing_older_than_5m_count

abbrev pub IsRuntime : AlertRuntimeSnapshot → Type 0
IsRuntime s =
    IsStored s.dead_outbox
    × IsStoredOr s.evaluator_age_seconds
    × IsStoredOr s.outbox_due_age_seconds

-- The parser accepts exactly the values of the kind, and returns them as they are.
abbrev pub Accepts : {T : Type 0} → (T → Result T) → (T → Type 0) → Type 0
Accepts {T} parser P = (w v : T) → (parser w ≡ ok v) ↔ (P w × (v ≡ w))

pub parse_count_metrics-Accepts : Accepts parse_count_metrics IsCount
unfolding parse_count_metrics integer
parse_count_metrics-Accepts w v = (λ h. ground arith, λ h. ground arith)

pub parse_ratio_metrics-Accepts : Accepts parse_ratio_metrics IsRatio
unfolding parse_ratio_metrics integer
parse_ratio_metrics-Accepts w v = (λ h. ground arith, λ h. ground arith)

pub parse_restricted_metrics-Accepts : Accepts parse_restricted_metrics IsRestricted
unfolding parse_restricted_metrics integer
parse_restricted_metrics-Accepts w v = (λ h. ground arith, λ h. ground arith)

pub parse_recovery_entry_metrics-Accepts : Accepts parse_recovery_entry_metrics IsRecovery
unfolding parse_recovery_entry_metrics integer
parse_recovery_entry_metrics-Accepts w v = (λ h. ground arith, λ h. ground arith)

pub parse_oauth_metrics-Accepts : Accepts parse_oauth_metrics IsOauth
unfolding parse_oauth_metrics integer nullable_integer
parse_oauth_metrics-Accepts w v = (λ h. ground arith, λ h. ground arith)

pub parse_admin_sensitive_metrics-Accepts : Accepts parse_admin_sensitive_metrics IsAdmin
unfolding parse_admin_sensitive_metrics integer
parse_admin_sensitive_metrics-Accepts w v = (λ h. ground arith, λ h. ground arith)

pub parse_logout_metrics-Accepts : Accepts parse_logout_metrics IsLogout
unfolding parse_logout_metrics integer
parse_logout_metrics-Accepts w v = (λ h. ground arith, λ h. ground arith)

pub parse_logout_current_snapshot-Accepts : Accepts parse_logout_current_snapshot IsCurrent
unfolding parse_logout_current_snapshot integer nullable_integer
parse_logout_current_snapshot-Accepts w v = (λ h. ground arith, λ h. ground arith)

pub parse_fanout_snapshot-Accepts : Accepts parse_fanout_snapshot IsFanout
unfolding parse_fanout_snapshot integer
parse_fanout_snapshot-Accepts w v = (λ h. ground arith, λ h. ground arith)

pub parse_runtime_snapshot-Accepts : Accepts parse_runtime_snapshot IsRuntime
unfolding parse_runtime_snapshot integer nullable_integer
parse_runtime_snapshot-Accepts w v = (λ h. ground arith, λ h. ground arith)
