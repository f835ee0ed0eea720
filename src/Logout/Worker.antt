-- ===== src/Logout/Worker.antt =====
-- The three transactions of apps/sso/worker/logout-delivery.ts: `recoverExpiredLogoutDelivery`,
-- `claimLogoutDelivery` and `persistAttemptResult`. Each batch is atomic. The clock and the fresh
-- UUIDs are arguments.
use sso_pg72_tw.Common.{
  ℕ, ◌==◌, ◌&&◌, Bool, true, false, Option, none, some, [], ◌∷◌, if◌then◌else◌, ok, throw,
}
use sso_pg72_tw.Common.Table.{update_where, count_where, find_where, exists_where}
use sso_pg72_tw.Durable.{
  ExpiredLeaseDisposition, select_expired_lease_disposition, all_changed_exactly_once,
}
use sso_pg72_tw.Logout.{
  DeliveryStatus, pending, processing, retry, delivered, dead, ErrorCode, Delivery, AttemptOutcome,
  in_flight, Attempt, Store, M, sql_eq, sql_le, is_processing, is_in_flight, logout_delivery_policy,
}

-- Which attempt a statement is about: `delivery_id`, `replay_count`, `attempt_number`, `lease_id`.
pub record AttemptKey : Type 0 where
  pub delivery : ℕ
  pub replay : ℕ
  pub number : ℕ
  pub lease : Option ℕ

unfoldable pub is_attempt : AttemptKey → Attempt → Bool
is_attempt k a =
    a.delivery_id == k.delivery
    && (a.replay_count == k.replay
        && (a.attempt_number == k.number && sql_eq (some a.lease_id) k.lease))

-- The delivery row that holds the lease of the attempt.
unfoldable pub holds_lease : AttemptKey → Delivery → Bool
holds_lease k d =
    d.id == k.delivery
    && (is_processing d.status
        && (d.attempts == k.number && (d.replay_count == k.replay && sql_eq d.lease_id k.lease)))

abbrev pub same_status : DeliveryStatus → DeliveryStatus → Bool
same_status pending pending = true
same_status processing processing = true
same_status retry retry = true
same_status delivered delivered = true
same_status dead dead = true
same_status _ _ = false

abbrev pub same_outcome : AttemptOutcome → AttemptOutcome → Bool
same_outcome in_flight in_flight = true
same_outcome AttemptOutcome.delivered AttemptOutcome.delivered = true
same_outcome AttemptOutcome.retry AttemptOutcome.retry = true
same_outcome AttemptOutcome.dead AttemptOutcome.dead = true
same_outcome AttemptOutcome.lease_expired AttemptOutcome.lease_expired = true
same_outcome _ _ = false

-- The evidence that the second statement of a batch asks for.
unfoldable pub is_evidence : AttemptKey → AttemptOutcome → DeliveryStatus → ℕ → Attempt → Bool
unfolding is_attempt
is_evidence k outcome status now a =
    is_attempt k a
    && (same_outcome a.outcome outcome
        && (same_status a.resulting_status status && sql_eq a.completed_at (some now)))

-- The lease of the row ran out at `now`.
unfoldable pub lease_over : ℕ → Delivery → Bool
lease_over now d = is_processing d.status && sql_le d.lease_expires_at now

unfoldable pub key_of : Delivery → AttemptKey
key_of d = record {
  delivery = d.id;
  replay = d.replay_count;
  number = d.attempts;
  lease = d.lease_id;
}

abbrev pub expired_status : ExpiredLeaseDisposition → DeliveryStatus
expired_status ExpiredLeaseDisposition.dead = dead
expired_status ExpiredLeaseDisposition.retry = retry

-- `next_attempt_at` and `last_error_code` of a row whose lease ran out.
abbrev pub expired_next : ExpiredLeaseDisposition → ℕ → Option ℕ
expired_next ExpiredLeaseDisposition.dead now = none
expired_next ExpiredLeaseDisposition.retry now = some now

abbrev pub expired_error : ExpiredLeaseDisposition → ErrorCode
expired_error ExpiredLeaseDisposition.dead = ErrorCode.lease_expired_after_max_attempts
expired_error ExpiredLeaseDisposition.retry = ErrorCode.lease_expired

unfoldable pub expire_attempt : ExpiredLeaseDisposition → ℕ → Attempt → Attempt
expire_attempt r now a = record a {
  outcome = AttemptOutcome.lease_expired;
  resulting_status = expired_status r;
  error_code = some ErrorCode.lease_expired;
  completed_at = some now;
}

unfoldable pub expire_delivery : ExpiredLeaseDisposition → ℕ → Delivery → Delivery
expire_delivery r now d = record d {
  status = expired_status r;
  next_attempt_at = expired_next r now;
  lease_id = none;
  lease_expires_at = none;
  last_error_code = some (expired_error r);
  updated_at = now;
}

-- The rows that the first and the second statement of the recovery match.
unfoldable pub is_open_attempt : AttemptKey → Attempt → Bool
unfolding is_attempt
is_open_attempt k a = is_attempt k a && is_in_flight a.outcome

unfoldable pub is_expired_delivery : AttemptKey → ℕ → ℕ → Delivery → Bool
unfolding holds_lease
is_expired_delivery k key now d =
    d.delivery_key == key && (holds_lease k d && sql_le d.lease_expires_at now)

-- The batch of the recovery: the new store, and the changes of both statements.
unfoldable pub recover_batch : ℕ → ℕ → Delivery → Store → Store × ℕ × ℕ
recover_batch key now expired s =
    let r = select_expired_lease_disposition expired.attempts logout_delivery_policy in
    let k = key_of expired in
    let attempts = update_where (is_open_attempt k) (expire_attempt r now) s.attempts in
    let proven =
      exists_where (is_evidence k AttemptOutcome.lease_expired (expired_status r) now) attempts in
    let test = λ (d : Delivery). proven && is_expired_delivery k key now d in
    (
      record s {
        attempts = attempts;
        deliveries = update_where test (expire_delivery r now) s.deliveries;
      },
      count_where (is_open_attempt k) s.attempts,
      count_where test s.deliveries,
    )

-- What the row looks like to the last query of the recovery.
unfoldable pub is_still_expired : Delivery → ℕ → Delivery → Bool
is_still_expired expired now d =
    d.id == expired.id
    && (is_processing d.status
        && (sql_eq d.lease_id expired.lease_id && sql_le d.lease_expires_at now))

unfoldable pub recover_row : ℕ → ℕ → Delivery → M (Unit {0})
recover_row key now expired s =
    let (t, changed_attempts, changed_deliveries) = recover_batch key now expired s in
    if all_changed_exactly_once (some changed_attempts ∷ some changed_deliveries ∷ [])
    then (t, ok tt)
    else if exists_where (is_still_expired expired now) t.deliveries
    then (t, throw "expired logout delivery attempt evidence was inconsistent")
    else (t, ok tt)

unfoldable pub is_expired_key : ℕ → ℕ → Delivery → Bool
unfolding lease_over
is_expired_key key now d = d.delivery_key == key && lease_over now d

unfoldable pub recover_expired : ℕ → ℕ → M (Unit {0})
recover_expired key now s = elim (find_where (is_expired_key key now) s.deliveries) [
  | none ↦ (s, ok tt)
  | some expired ↦ recover_row key now expired s
]
