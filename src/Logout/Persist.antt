-- ===== src/Logout/Persist.antt =====
-- The rest of apps/sso/worker/logout-delivery.ts: `postLogoutToken` on the reply of the relying
-- party, `persistAttemptResult` and the queue consumer.
use sso_pg72_tw.Common.{
  ℕ, ◌==◌, ◌&&◌, ◌||◌, Bool, true, false, Option, none, some, [], ◌∷◌, leb, if◌then◌else◌, Result,
  ok, throw,
}
use sso_pg72_tw.Common.Table.{update_where, count_where, exists_where}
use sso_pg72_tw.Durable.{
  DeliveryDisposition, add_iso_seconds, select_delivery_disposition, all_changed_exactly_once,
}
use sso_pg72_tw.Logout.{
  DeliveryStatus, retry, delivered, dead, ErrorCode, http_429, http_5xx, http_retryable,
  http_non_success, timeout, network_error, signing_error, Delivery, AttemptOutcome, Attempt, Store,
  M, lease_seconds, logout_delivery_policy,
}
use sso_pg72_tw.Logout.Worker.{AttemptKey, key_of, holds_lease, is_open_attempt, is_evidence}
use sso_pg72_tw.Logout.Claim.{Fresh, claim_logout_delivery}

-- What the `fetch` of `postLogoutToken` comes back with.
pub data Reply : Type 0 where
  responded : (http_status : ℕ) → Reply
  timed_out failed : Reply

pub record DeliveryAttemptResult : Type 0 where
  pub delivered : Bool
  pub transient : Bool
  pub error_code : Option ErrorCode
  pub http_status : Option ℕ

abbrev failure : Bool → ErrorCode → Option ℕ → DeliveryAttemptResult
failure again code status = record {
  delivered = false;
  transient = again;
  error_code = some code;
  http_status = status;
}

unfoldable pub post_logout_token : Reply → DeliveryAttemptResult
post_logout_token (responded status) =
    if status == 200 || status == 204
    then record {
      delivered = true;
      transient = false;
      error_code = none;
      http_status = some status;
    }
    else if status == 408 || (status == 425 || (status == 429 || leb 500 status))
    then failure true
        (if status == 429 then http_429 else if leb 500 status then http_5xx else http_retryable)
        (some status)
    else failure false http_non_success (some status)
post_logout_token timed_out = failure true timeout none
post_logout_token failed = failure true network_error none

-- A signing failure is a transient result too; `none` is a token that could not be made.
unfoldable pub attempt_result : Option Reply → DeliveryAttemptResult
attempt_result none = failure true signing_error none
attempt_result (some reply) = post_logout_token reply

unfoldable pub disposition_of : Delivery → DeliveryAttemptResult → DeliveryDisposition
unfolding select_delivery_disposition
disposition_of d r =
    select_delivery_disposition d.attempts
      (record { delivered = r.delivered; transient = r.transient }) logout_delivery_policy

abbrev pub status_of : DeliveryDisposition → DeliveryStatus
status_of DeliveryDisposition.delivered = delivered
status_of DeliveryDisposition.dead = dead
status_of (DeliveryDisposition.retry delay) = retry

abbrev pub outcome_of : DeliveryDisposition → AttemptOutcome
outcome_of DeliveryDisposition.delivered = AttemptOutcome.delivered
outcome_of DeliveryDisposition.dead = AttemptOutcome.dead
outcome_of (DeliveryDisposition.retry delay) = AttemptOutcome.retry

unfoldable pub next_attempt_of : DeliveryDisposition → ℕ → Option ℕ
unfolding add_iso_seconds
next_attempt_of (DeliveryDisposition.retry (some delay)) now = some (add_iso_seconds now delay)
next_attempt_of (DeliveryDisposition.retry none) now = none
next_attempt_of DeliveryDisposition.delivered now = none
next_attempt_of DeliveryDisposition.dead now = none

-- `status === "delivered" ? now : null`
abbrev pub delivered_at_of : DeliveryDisposition → ℕ → Option ℕ
delivered_at_of DeliveryDisposition.delivered now = some now
delivered_at_of DeliveryDisposition.dead now = none
delivered_at_of (DeliveryDisposition.retry delay) now = none

unfoldable pub close_attempt : DeliveryDisposition → DeliveryAttemptResult → ℕ → Attempt → Attempt
close_attempt p r now a = record a {
  outcome = outcome_of p;
  resulting_status = status_of p;
  http_status = r.http_status;
  error_code = r.error_code;
  completed_at = some now;
}

unfoldable pub settle_delivery :
    DeliveryDisposition → DeliveryAttemptResult → ℕ → Delivery → Delivery
unfolding next_attempt_of
settle_delivery p r now d = record d {
  status = status_of p;
  next_attempt_at = next_attempt_of p now;
  lease_id = none;
  lease_expires_at = none;
  delivered_at = delivered_at_of p now;
  last_error_code = r.error_code;
  updated_at = now;
}

-- The batch of `persistAttemptResult`; the first statement runs only while the lease is held.
unfoldable pub persist_batch :
    AttemptKey → DeliveryDisposition → DeliveryAttemptResult → ℕ → Store → Store × ℕ × ℕ
persist_batch k p r now s =
    let held = exists_where (holds_lease k) s.deliveries in
    let open_test = λ (a : Attempt). held && is_open_attempt k a in
    let attempts = update_where open_test (close_attempt p r now) s.attempts in
    let proven = exists_where (is_evidence k (outcome_of p) (status_of p) now) attempts in
    let test = λ (d : Delivery). proven && holds_lease k d in
    (
      record s {
        attempts = attempts;
        deliveries = update_where test (settle_delivery p r now) s.deliveries;
      },
      count_where open_test s.attempts,
      count_where test s.deliveries,
    )

unfoldable pub persist_attempt_result : Delivery → DeliveryAttemptResult → ℕ → M DeliveryDisposition
persist_attempt_result d r now s =
    let p = disposition_of d r in
    let (t, changed_attempts, changed_deliveries) = persist_batch (key_of d) p r now s in
    if all_changed_exactly_once (some changed_attempts ∷ some changed_deliveries ∷ [])
    then (t, ok p)
    else (t, throw "logout delivery lease changed before result commit")

-- What the consumer tells the queue; a delay is none where the source passes `undefined`.
pub data QueueAction : Type 0 where
  ack : QueueAction
  retry_after : (delay_seconds : Option ℕ) → QueueAction

abbrev pub queue_action : Result DeliveryDisposition → QueueAction
queue_action (ok DeliveryDisposition.delivered) = ack
queue_action (ok DeliveryDisposition.dead) = ack
queue_action (ok (DeliveryDisposition.retry delay)) = retry_after delay
queue_action (throw e) = retry_after (some lease_seconds)

unfoldable pub settle_claim :
    Option Reply → ℕ → Store × Result (Option Delivery) → Store × QueueAction
settle_claim reply settled_at (t, throw e) = (t, retry_after (some lease_seconds))
settle_claim reply settled_at (t, ok none) = (t, ack)
settle_claim reply settled_at (t, ok (some d)) =
    let (u, persisted) = persist_attempt_result d (attempt_result reply) settled_at t in
    (u, queue_action persisted)

-- The three times are those at which the recovery, the claim and the result read the clock.
unfoldable pub consume_logout_delivery_message :
    ℕ → ℕ → ℕ → ℕ → Fresh → Option Reply → Store → Store × QueueAction
consume_logout_delivery_message key recovered_at claimed_at settled_at fresh reply s =
    settle_claim reply settled_at (claim_logout_delivery key recovered_at claimed_at fresh s)
