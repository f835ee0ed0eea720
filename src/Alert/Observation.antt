-- ===== src/Alert/Observation.antt =====
-- What a rule is shown: the observations of apps/sso/worker/alert-rules.ts after parsing, and the
-- metrics that `metricsForObservation` reads off them. A canonical UTC timestamp is the number of
-- its milliseconds since 1970.
use sso_pg72_tw.Common.{
  ℕ, ◌-◌, ◌*◌, ◌/◌, ◌||◌, ◌&&◌, String, Option, none, some, ltb, ◌==◌, min, if◌then◌else◌,
}
use sso_pg72_tw.Alert.Types.{AlertRuleId, Windowed}

-- `AlertQueueName`
pub data AlertQueueName : Type 0 where
  security_events_dlq logout_deliveries_dlq alert_deliveries_dlq audit_archive_dlq : AlertQueueName

-- `AlertDimension`; a hashed reference (key version 1) is its text.
pub data AlertDimension : Type 0 where
  global : AlertDimension
  subject_hmac actor_hmac client_hmac : String → AlertDimension
  queue : AlertQueueName → AlertDimension

pub record CountWindowMetrics : Type 0 where
  pub count : ℕ

pub record RatioWindowMetrics : Type 0 where
  pub denominator : ℕ
  pub numerator : ℕ

pub record RestrictedDenialWindowMetrics : Type 0 where
  pub count : ℕ
  pub known_surfaces : ℕ

pub record RecoveryEntryWindowMetrics : Type 0 where
  pub denied : ℕ
  pub rate_limited : ℕ
  pub started : ℕ

pub record OauthClientReportWindowMetrics : Type 0 where
  pub count : ℕ
  pub distinct_reporters : Option ℕ
  pub high_risk_count : ℕ

pub record AdminSensitiveWindowMetrics : Type 0 where
  pub protected_denials : ℕ
  pub successes : ℕ

pub record FanoutGapSnapshot : Type 0 where
  pub missing_older_than_15m_count : ℕ
  pub missing_older_than_5m_count : ℕ

pub record LogoutDeliveryCurrentSnapshot : Type 0 where
  pub current_dead : ℕ
  pub current_unresolved : ℕ
  pub oldest_unresolved_age_seconds : Option ℕ

pub record LogoutDeliveryWindowMetrics : Type 0 where
  pub eligible : ℕ
  pub lease_expired : ℕ
  pub unresolved : ℕ

pub record AlertRuntimeSnapshot : Type 0 where
  pub dead_outbox : ℕ
  pub evaluator_age_seconds : Option ℕ
  pub outbox_due_age_seconds : Option ℕ

pub record QueueDepthSnapshot : Type 0 where
  pub backlog_bytes : Option ℕ
  pub backlog_count : Option ℕ
  pub consecutive_nonzero_samples : Option ℕ
  pub nonzero_since_at : Option ℕ
  pub oldest_message_timestamp : Option ℕ
  pub sampled_at : Option ℕ

-- The rules that share a shape.
pub data CountRule : Type 0 where
  registration_rate_limited registration_denied registration_restricted_created : CountRule
  admin_directory_volume : CountRule

pub data RatioRule : Type 0 where
  registration_challenge_unavailable recovery_passkey_failure passkey_step_up_failure : RatioRule

-- `AlertRuleObservation`, without the two fields that every member has.
pub data ObservationBody : Type 0 where
  count_windows : CountRule → Windowed CountWindowMetrics → ObservationBody
  ratio_windows : RatioRule → Windowed RatioWindowMetrics → ObservationBody
  restricted_windows : Windowed RestrictedDenialWindowMetrics → ObservationBody
  recovery_windows : Windowed RecoveryEntryWindowMetrics → ObservationBody
  oauth_windows : Windowed OauthClientReportWindowMetrics → ObservationBody
  admin_windows : Windowed AdminSensitiveWindowMetrics → ObservationBody
  fanout_snapshot : FanoutGapSnapshot → ObservationBody
  logout_windows :
      LogoutDeliveryCurrentSnapshot → Windowed LogoutDeliveryWindowMetrics → ObservationBody
  runtime_snapshot : AlertRuntimeSnapshot → ObservationBody
  queue_snapshot : QueueDepthSnapshot → ObservationBody

pub record AlertRuleObservation : Type 0 where
  pub as_of : ℕ
  pub dimension : AlertDimension
  pub body : ObservationBody

abbrev count_rule_id : CountRule → AlertRuleId
count_rule_id registration_rate_limited = AlertRuleId.registration_rate_limited
count_rule_id registration_denied = AlertRuleId.registration_denied
count_rule_id registration_restricted_created = AlertRuleId.registration_restricted_created
count_rule_id admin_directory_volume = AlertRuleId.admin_directory_volume

abbrev ratio_rule_id : RatioRule → AlertRuleId
ratio_rule_id registration_challenge_unavailable = AlertRuleId.registration_challenge_unavailable
ratio_rule_id recovery_passkey_failure = AlertRuleId.recovery_passkey_failure
ratio_rule_id passkey_step_up_failure = AlertRuleId.passkey_step_up_failure

-- `observation.ruleId`
abbrev pub rule_id : ObservationBody → AlertRuleId
rule_id (count_windows r ws) = count_rule_id r
rule_id (ratio_windows r ws) = ratio_rule_id r
rule_id (restricted_windows ws) = AlertRuleId.restricted_sensitive_denied
rule_id (recovery_windows ws) = AlertRuleId.recovery_entry_abuse
rule_id (oauth_windows ws) = AlertRuleId.oauth_client_report
rule_id (admin_windows ws) = AlertRuleId.admin_sensitive_activity
rule_id (fanout_snapshot s) = AlertRuleId.security_fanout_gap
rule_id (logout_windows c ws) = AlertRuleId.logout_delivery_health
rule_id (runtime_snapshot s) = AlertRuleId.alert_runtime_health
rule_id (queue_snapshot s) = AlertRuleId.queue_dlq_approximate

pub record KnownQueueSnapshot : Type 0 where
  pub backlog_bytes : ℕ
  pub consecutive_nonzero_samples : ℕ
  pub depth : ℕ
  pub oldest_message_age_seconds : ℕ

abbrev pub max_evidence_value : ℕ
max_evidence_value = 1000000000

-- An empty queue is known when every other field says so too.
unfoldable pub empty_queue :
    (bytes samples : ℕ) → (since oldest : Option ℕ) → Option KnownQueueSnapshot
empty_queue bytes samples none none =
    if samples == 0 && bytes == 0
    then some (record {
      backlog_bytes = 0;
      consecutive_nonzero_samples = 0;
      depth = 0;
      oldest_message_age_seconds = 0;
    })
    else none
empty_queue _ _ _ _ = none

-- The streak of a queue that is not empty, by the times of the sample, of the oldest message and
-- of the first non-zero sample. A difference is taken only where it is not negative.
unfoldable pub nonempty_queue :
    (bytes depth samples sampled since oldest : ℕ) → Option KnownQueueSnapshot
nonempty_queue bytes depth samples sampled since oldest =
    if ltb samples 1 || ltb sampled oldest
    then none
    else if ltb max_evidence_value ((sampled - oldest) / 1000)
    then none
    else if ltb sampled since
    then none
    else if ltb (sampled - since) ((samples - 1) * 60000) || ltb (samples * 60000) (sampled - since)
    then none
    else some (record {
      backlog_bytes = bytes;
      consecutive_nonzero_samples = min samples ((sampled - since) / 60000);
      depth = depth;
      oldest_message_age_seconds = (sampled - oldest) / 1000;
    })

unfoldable pub sampled_queue :
    (bytes depth samples sampled : ℕ) → (since oldest : Option ℕ) → Option KnownQueueSnapshot
sampled_queue bytes depth samples sampled (some since) (some oldest) =
    nonempty_queue bytes depth samples sampled since oldest
sampled_queue _ _ _ _ _ _ = none

-- `knownQueueSnapshot`, over the fields of the snapshot in the order in which it tests them.
unfoldable pub known_queue :
    (bytes count sampled samples since oldest : Option ℕ) → ℕ → Option KnownQueueSnapshot
known_queue (some bytes) (some depth) (some sampled) (some samples) since oldest as_of =
    if sampled == as_of
    then if depth == 0
      then empty_queue bytes samples since oldest
      else sampled_queue bytes depth samples sampled since oldest
    else none
known_queue _ _ _ _ _ _ _ = none

unfoldable pub known_queue_snapshot : QueueDepthSnapshot → ℕ → Option KnownQueueSnapshot
unfolding known_queue empty_queue sampled_queue nonempty_queue
known_queue_snapshot s as_of =
    known_queue s.backlog_bytes s.backlog_count s.sampled_at s.consecutive_nonzero_samples
      s.nonzero_since_at s.oldest_message_timestamp as_of
