-- ===== src/Logout/Examples.antt =====
-- One delivery of apps/sso/worker/logout-delivery.ts from its revocation to its end.
use sso_pg72_tw.Common.{◌≡◌, inr, refl, true, none, some, [], ◌∷◌, arith, ok}
use sso_pg72_tw.Common.Table.{update_where, count_where, find_where, exists_where}
use sso_pg72_tw.Durable.{
  DeliveryDisposition, add_iso_seconds, all_changed_exactly_once, select_delivery_disposition,
  backoff_at,
}
use sso_pg72_tw.Logout.{
  LogoutReason, Delivery, DeliveryStatus, Attempt, AttemptOutcome, Store, ErrorCode,
}
use sso_pg72_tw.Logout.Worker.{
  recover_expired, is_expired_key, lease_over, holds_lease, is_attempt, is_open_attempt,
  is_evidence, key_of,
}
use sso_pg72_tw.Logout.Claim.{
  Fresh, claim_logout_delivery, claim_due, claim_batch, is_claimable, lease_delivery,
  is_just_leased, open_attempt, insert_attempts, is_leased,
}
use sso_pg72_tw.Logout.Persist.{
  responded, timed_out, attempt_result, post_logout_token, consume_logout_delivery_message, ack,
  persist_attempt_result, persist_batch, disposition_of, queue_action, close_attempt,
  settle_delivery, next_attempt_of,
}
use sso_pg72_tw.Logout.Outbox.{
  replayed, replay_delivery, replay_logout_delivery, Visit, logout_outbox_statement, insert_visits,
  outbox_row, conflicts,
}
use sso_pg72_tw.Logout.Schema.{StoreChecks}
use sso_pg72_tw.Logout.History.{
  Reach, revokes, claims, empty_store, empty_store-StoreChecks, Reach-StoreChecks,
}
use sso_pg72_tw.Logout.Exclusive.{
  has_key, claim_logout_delivery_exclusive, consume_logout_delivery_message_duplicate,
}
use sso_pg72_tw.Logout.Committing.{IsFreshLease}
use sso_pg72_tw.Logout.Progress.{
  consume_logout_delivery_message-settles, consume_logout_delivery_message-delivers,
}
use sso_pg72_tw.Logout.Crash.{claim_logout_delivery-reclaims}
use sso_pg72_tw.Logout.Replaying.{replay_logout_delivery-revives}
use sso_pg72_tw.Logout.Fencing.{
  lease_changed, persist_attempt_result-fenced, persist_attempt_result-once,
}

abbrev client_visit : Visit
client_visit = record {
  session_id = 3;
  user_id = 4;
  client_id = 5;
  backchannel_logout_uri = some 6;
}

abbrev revoked_store : Store
revoked_store =
    logout_outbox_statement 1 LogoutReason.sign_out 1000 true (λ n. n) (client_visit ∷ [])
      empty_store

abbrev waiting : Delivery
waiting = record {
  id = 1;
  delivery_key = 1;
  event_id = 1;
  session_id = 3;
  user_id = 4;
  client_id = 5;
  backchannel_logout_uri = some 6;
  reason = LogoutReason.sign_out;
  status = DeliveryStatus.pending;
  attempts = 0;
  replay_count = 0;
  jti = none;
  next_attempt_at = some 1000;
  lease_id = none;
  lease_expires_at = none;
  delivered_at = none;
  last_error_code = none;
  created_at = 1000;
  updated_at = 1000;
}

abbrev waiting_store : Store
waiting_store = record { deliveries = waiting ∷ []; attempts = []; audit = []; next_id = 2 }

revoked_waits : revoked_store ≡ waiting_store
unfolding logout_outbox_statement insert_visits conflicts exists_where outbox_row
revoked_waits = refl

abbrev first_fresh : Fresh
first_fresh = record { lease = 9; jti = 8; attempt = 7 }

abbrev second_fresh : Fresh
second_fresh = record { lease = 19; jti = 18; attempt = 17 }

abbrev leased : Delivery
leased = record waiting {
  status = DeliveryStatus.processing;
  attempts = 1;
  jti = some 8;
  next_attempt_at = none;
  lease_id = some 9;
  lease_expires_at = some 32000;
  updated_at = 2000;
}

abbrev started : Attempt
started = record {
  id = 7;
  delivery_id = 1;
  replay_count = 0;
  attempt_number = 1;
  lease_id = 9;
  outcome = AttemptOutcome.in_flight;
  resulting_status = DeliveryStatus.processing;
  http_status = none;
  error_code = none;
  started_at = 2000;
  completed_at = none;
}

abbrev leased_store : Store
leased_store = record waiting_store { deliveries = leased ∷ []; attempts = started ∷ [] }

first_claim :
    claim_logout_delivery 1 2000 2000 first_fresh waiting_store ≡ (leased_store, ok (some leased))
unfolding claim_logout_delivery recover_expired find_where is_expired_key lease_over claim_due
    claim_batch update_where count_where is_claimable lease_delivery add_iso_seconds is_just_leased
    insert_attempts open_attempt all_changed_exactly_once is_leased
first_claim = refl

Reach-StoreChecks_example :
    StoreChecks (claim_logout_delivery 1 2000 2000 first_fresh revoked_store).0
Reach-StoreChecks_example =
    Reach-StoreChecks empty_store (claim_logout_delivery 1 2000 2000 first_fresh revoked_store).0
      (Reach.next
        (Reach.next Reach.here
          (revokes 1 LogoutReason.sign_out 1000 true (λ n. n) (client_visit ∷ [])))
        (claims 1 2000 2000 first_fresh))
      empty_store-StoreChecks

claim_logout_delivery_exclusive_example :
    claim_logout_delivery 1 31999 31999 second_fresh leased_store ≡ (leased_store, ok none)
unfolding count_where
claim_logout_delivery_exclusive_example =
    claim_logout_delivery_exclusive 1 2000 2000 first_fresh waiting_store leased_store leased
      (omega arith) first_claim 31999 31999 second_fresh (omega arith) (λ e. absurd (omega arith))

consume_logout_delivery_message_duplicate_example :
    consume_logout_delivery_message 1 2500 2500 2600 second_fresh
      (some (responded 200))
      leased_store
    ≡ (leased_store, ack)
unfolding count_where
consume_logout_delivery_message_duplicate_example =
    consume_logout_delivery_message_duplicate 1 2000 2000 first_fresh waiting_store leased_store
      leased (omega arith) first_claim 2500 2500 second_fresh (omega arith)
      (λ e. absurd (omega arith)) 2600 (some (responded 200))

persist_attempt_result-fenced_example :
    persist_attempt_result leased (attempt_result (some (responded 200))) 40000 waiting_store
    ≡ (waiting_store, lease_changed)
unfolding holds_lease key_of
persist_attempt_result-fenced_example =
    persist_attempt_result-fenced leased (attempt_result (some (responded 200))) 40000 waiting_store
      (refl, tt)

abbrev retried_store : Store
retried_store = record waiting_store {
  deliveries =
      record leased {
        status = DeliveryStatus.retry;
        next_attempt_at = some 13000;
        lease_id = none;
        lease_expires_at = none;
        last_error_code = some ErrorCode.timeout;
        updated_at = 3000;
      }
      ∷ [];
  attempts =
      record started {
        outcome = AttemptOutcome.retry;
        resulting_status = DeliveryStatus.retry;
        error_code = some ErrorCode.timeout;
        completed_at = some 3000;
      }
      ∷ [];
}

first_result :
    persist_attempt_result leased (attempt_result (some timed_out)) 3000 leased_store
    ≡ (retried_store, ok (DeliveryDisposition.retry (some 10)))
unfolding persist_attempt_result persist_batch disposition_of select_delivery_disposition backoff_at
    attempt_result post_logout_token key_of holds_lease is_open_attempt is_attempt is_evidence
    exists_where update_where count_where close_attempt settle_delivery next_attempt_of
    add_iso_seconds all_changed_exactly_once
first_result = refl

persist_attempt_result-once_example :
    persist_attempt_result leased (attempt_result (some (responded 204))) 4000 retried_store
    ≡ (retried_store, lease_changed)
persist_attempt_result-once_example =
    persist_attempt_result-once leased (attempt_result (some timed_out))
      (attempt_result (some (responded 204))) 3000 4000 leased_store retried_store
      (DeliveryDisposition.retry (some 10)) first_result

waiting_fresh : IsFreshLease first_fresh waiting_store
waiting_fresh = record { new_to_attempts = tt; new_to_deliveries = (λ e. cc, tt) }

consume_logout_delivery_message-settles_example :
    (u : Store) × (consume_logout_delivery_message 1 2000 2000 3000 first_fresh none waiting_store
      ≡ (
        u,
        queue_action
            (ok (disposition_of (lease_delivery first_fresh 2000 waiting) (attempt_result none))),
      ))
    × (find_where (has_key 1) u.deliveries
        ≡ some (
            settle_delivery
              (disposition_of (lease_delivery first_fresh 2000 waiting) (attempt_result none))
              (attempt_result none)
              3000
              (lease_delivery first_fresh 2000 waiting)))
unfolding count_where find_where is_claimable
consume_logout_delivery_message-settles_example =
    consume_logout_delivery_message-settles 1 2000 2000 3000 first_fresh waiting_store waiting
      (omega arith) refl refl waiting_fresh none

consume_logout_delivery_message-delivers_example :
    (u : Store) × (e : Delivery) × (consume_logout_delivery_message 1 2000 2000 3000 first_fresh
        (some (responded 204))
        waiting_store
      ≡ (u, ack))
    × (find_where (has_key 1) u.deliveries ≡ some e)
    × (e.status ≡ DeliveryStatus.delivered)
    × (e.delivered_at ≡ some 3000)
    × (e.next_attempt_at ≡ none)
    × (e.lease_id ≡ none)
    × (e.attempts ≡ 1)
unfolding count_where find_where is_claimable
consume_logout_delivery_message-delivers_example =
    consume_logout_delivery_message-delivers 1 2000 2000 3000 first_fresh waiting_store waiting
      (omega arith) refl refl waiting_fresh 204 (inr refl)

-- The first worker is gone; the second comes back 31 seconds later.
claim_logout_delivery-reclaims_example :
    (u : Store) × (e : Delivery) × (claim_logout_delivery 1 33000 33000 second_fresh
        (claim_logout_delivery 1 2000 2000 first_fresh waiting_store).0
      ≡ (u, ok (some e)))
    × (e.attempts ≡ 2)
    × (e.lease_id ≡ some 19)
    × (e.jti ≡ some 8)
unfolding count_where find_where is_claimable
claim_logout_delivery-reclaims_example =
    claim_logout_delivery-reclaims 1 2000 2000 first_fresh waiting_store waiting (omega arith) refl
      refl waiting_fresh 33000 33000 second_fresh (omega arith) (omega arith) (omega arith)

-- A delivery that gave up without an endpoint, whose client has registered one since.
abbrev dead_row : Delivery
dead_row = record waiting {
  backchannel_logout_uri = none;
  status = DeliveryStatus.dead;
  next_attempt_at = none;
  last_error_code = some ErrorCode.missing_backchannel_uri;
}

abbrev dead_store : Store
dead_store = record waiting_store { deliveries = dead_row ∷ [] }

replay_logout_delivery-revives_example :
    (t : Store) × (replay_logout_delivery 1 (some 6) 5000 99 dead_store ≡ (t, replayed 1))
    × (find_where (has_key 1) t.deliveries ≡ some (replay_delivery 6 1 5000 dead_row))
    × (is_claimable 1 5000 (replay_delivery 6 1 5000 dead_row) ≡ true)
unfolding count_where find_where
replay_logout_delivery-revives_example =
    replay_logout_delivery-revives 1 6 5000 99 (some 6) dead_store dead_row (omega arith) refl refl
      refl
