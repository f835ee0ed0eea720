-- ===== src/Lifecycle/Alarm.antt =====
-- The states that `parseState` of apps/sso/worker/alert-evaluator.ts accepts, as the few shapes that
-- they take.
use sso_pg72_tw.Common.{ℕ, ◌+◌, ◌≤◌, ◌≡◌, refl, Option, none, some, arith, ok}
use sso_pg72_tw.Alert.Types.{AlertSeverity, no_alert, warning, critical, AlertSelectedEvidence}
use sso_pg72_tw.Alert.Definitions.{definition_for_alert_rule}
use sso_pg72_tw.Alert.Parsing.{parse_alert_dimension}
use sso_pg72_tw.Alert.Contracts.{parse_alert_selected_evidence_for_rule}
use sso_pg72_tw.Alert.Accepted.{IsAlert}
use sso_pg72_tw.Lifecycle.{
  active, inactive, pending, AlertLifecycleIdentity, AlertLifecycleState, cooldown_ms,
}
use sso_pg72_tw.Lifecycle.Checks.{
  parse_state, parse_bound_identity, parse_evidence, active_severity, counter,
}

-- A state that is bound to no alert yet, one that is quiet, one that waits for its breach to be
-- confirmed, and one that fires.
pub data Alarm : Type 0 where
  unbound : Alarm
  quiet : AlertLifecycleIdentity → (seen : ℕ) → (cooldown : Option ℕ) → Alarm
  raised :
      AlertLifecycleIdentity
      → (seen : ℕ) → (cooldown : Option ℕ) → AlertSeverity
      → AlertSelectedEvidence
      → Alarm
  firing :
      AlertLifecycleIdentity
      → (seen opened notified : ℕ) → AlertSeverity
      → (shown : AlertSelectedEvidence) → (breach : Option AlertSelectedEvidence) → (clears : ℕ)
      → Alarm

abbrev pub breach_level : Option AlertSelectedEvidence → Option AlertSeverity
breach_level none = none
breach_level (some e) = some critical

abbrev pub breach_count : Option AlertSelectedEvidence → ℕ
breach_count none = 0
breach_count (some e) = 1

abbrev pub stored : Alarm → AlertLifecycleState
stored unbound = record {
  active_evidence = none;
  breach_evidence = none;
  breach_severity = none;
  consecutive_breaches = 0;
  consecutive_clears = 0;
  cooldown_until = none;
  identity = none;
  last_evaluated_at = none;
  last_notification_at = none;
  opened_at = none;
  phase = inactive;
  status = no_alert;
}
stored (quiet i seen cooldown) = record {
  active_evidence = none;
  breach_evidence = none;
  breach_severity = none;
  consecutive_breaches = 0;
  consecutive_clears = 0;
  cooldown_until = cooldown;
  identity = some i;
  last_evaluated_at = some seen;
  last_notification_at = none;
  opened_at = none;
  phase = inactive;
  status = no_alert;
}
stored (raised i seen cooldown level e) = record {
  active_evidence = none;
  breach_evidence = some e;
  breach_severity = some level;
  consecutive_breaches = 1;
  consecutive_clears = 0;
  cooldown_until = cooldown;
  identity = some i;
  last_evaluated_at = some seen;
  last_notification_at = none;
  opened_at = none;
  phase = pending;
  status = no_alert;
}
stored (firing i seen opened notified level shown breach clears) = record {
  active_evidence = some shown;
  breach_evidence = breach;
  breach_severity = breach_level breach;
  consecutive_breaches = breach_count breach;
  consecutive_clears = clears;
  cooldown_until = none;
  identity = some i;
  last_evaluated_at = some seen;
  last_notification_at = some notified;
  opened_at = some opened;
  phase = active;
  status = level;
}

-- The dimension is of a kind that the rule has.
abbrev pub IsBound : AlertLifecycleIdentity → Type 0
IsBound i =
    parse_alert_dimension i.dimension (definition_for_alert_rule i.rule).dimensions ≡ ok i.dimension

abbrev pub IsEvidence : AlertLifecycleIdentity → AlertSeverity → AlertSelectedEvidence → Type 0
IsEvidence i level e =
    (e.severity ≡ level) × IsAlert level × (parse_alert_selected_evidence_for_rule e i.rule ≡ ok e)

-- A cooldown lasts at most its interval.
abbrev pub CooldownFits : Option ℕ → ℕ → Type 0
CooldownFits none seen = Unit
CooldownFits (some until) seen = until ≤ seen + cooldown_ms

abbrev pub BreachFits :
    AlertLifecycleIdentity → AlertSeverity → Option AlertSelectedEvidence → ℕ → Type 0
BreachFits i level none clears = clears ≤ 4
BreachFits i level (some e) clears = (level ≡ warning) × IsEvidence i critical e × (clears ≡ 0)

-- The state is well formed at a time.
abbrev pub IsValid : Alarm → ℕ → Type 0
IsValid unbound now = Unit
IsValid (quiet i seen cooldown) now = IsBound i × (seen ≤ now) × CooldownFits cooldown seen
IsValid (raised i seen cooldown level e) now =
    IsBound i × (seen ≤ now) × CooldownFits cooldown seen × IsEvidence i level e
IsValid (firing i seen opened notified level shown breach clears) now =
    IsBound i
    × (seen ≤ now)
    × (opened ≤ notified)
    × (notified ≤ seen)
    × IsEvidence i level shown
    × BreachFits i level breach clears

pub IsValid-later : (a : Alarm) (now later : ℕ) → now ≤ later → IsValid a now → IsValid a later
IsValid-later unbound now later p h = tt
IsValid-later (quiet i seen cooldown) now later p h = (h.0, omega arith, h.2)
IsValid-later (raised i seen cooldown level e) now later p h = (h.0, omega arith, h.2, h.3)
IsValid-later (firing i seen opened notified level shown breach clears) now later p h =
    (h.0, omega arith, h.2, h.3, h.4, h.5)

bound_parses :
    (i : AlertLifecycleIdentity) → IsBound i → parse_bound_identity (some i) ≡ ok (some i)
unfolding parse_bound_identity
bound_parses i h = rw h

evidence_parses :
    (i : AlertLifecycleIdentity) (level : AlertSeverity) (e : AlertSelectedEvidence)
    → IsEvidence i level e
    → parse_evidence (some i) (some e) ≡ ok (some e)
unfolding parse_evidence
evidence_parses i level e h = rw h.2

-- Every well-formed state is accepted, as it is.
pub parse_state-stored :
    (a : Alarm) (now : ℕ) → IsValid a now → parse_state (stored a) now ≡ ok (stored a)
unfolding parse_state parse_evidence counter active_severity
parse_state-stored unbound now h = refl
parse_state-stored (quiet i seen none) now h = rw (bound_parses i h.0) (ground arith)
parse_state-stored (quiet i seen (some until)) now h = rw (bound_parses i h.0) (ground arith)
parse_state-stored (raised i seen none level e) now h =
    rw (bound_parses i h.0, evidence_parses i level e h.3) (ground arith)
parse_state-stored (raised i seen (some until) level e) now h =
    rw (bound_parses i h.0, evidence_parses i level e h.3) (ground arith)
parse_state-stored (firing i seen opened notified level shown none clears) now h =
    rw (bound_parses i h.0, evidence_parses i level shown h.4) (ground arith)
parse_state-stored (firing i seen opened notified level shown (some e) clears) now h =
    rw (bound_parses i h.0, evidence_parses i level shown h.4, evidence_parses i critical e h.5.1)
      (ground arith)
