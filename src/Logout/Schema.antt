-- ===== src/Logout/Schema.antt =====
-- The CHECK constraints of apps/sso/migrations/0018_global_logout.sql, for one row at a time.
use sso_pg72_tw.Common.{
  ℕ, suc, ◌-◌, ap, ◌≤◌, ◌<◌, ◌≡◌, refl, ◌≢◌, ◌⊎◌, inl, inr, true, Option, none, some, List, [], ◌∷◌,
  arith, All, Bool-cases,
}
use sso_pg72_tw.Logout.{
  DeliveryStatus, LogoutReason, pending, processing, retry, delivered, dead, ErrorCode, Delivery,
  AttemptOutcome, in_flight, Attempt, Store, is_waiting, logout_delivery_policy,
}
use sso_pg72_tw.Durable.{
  DeliveryDisposition, ExpiredLeaseDisposition, backoff_at, select_expired_lease_disposition,
}
use sso_pg72_tw.Durable.Policy.{backoff_at-scheduled}
use sso_pg72_tw.Logout.Worker.{
  holds_lease, key_of, AttemptKey, expire_attempt, expire_delivery, is_expired_delivery,
  is_open_attempt,
}
use sso_pg72_tw.Logout.Claim.{
  Fresh, is_claimable, is_just_leased, lease_delivery, open_attempt, insert_attempts,
}
use sso_pg72_tw.Logout.Persist.{
  Reply, responded, timed_out, failed, DeliveryAttemptResult, post_logout_token, attempt_result,
  disposition_of, close_attempt, settle_delivery,
}
use sso_pg72_tw.Logout.Outbox.{Visit, outbox_row, replay_delivery}

-- The constraints of `logout_delivery`, and that a lease is kept exactly while processing.
abbrev pub StatusChecks : DeliveryStatus → Delivery → Type 0
StatusChecks pending d =
    (d.next_attempt_at ≢ none)
    × (d.delivered_at ≡ none)
    × (d.lease_id ≡ none)
    × (d.lease_expires_at ≡ none)
StatusChecks retry d =
    (d.next_attempt_at ≢ none)
    × (d.delivered_at ≡ none)
    × (d.lease_id ≡ none)
    × (d.lease_expires_at ≡ none)
StatusChecks processing d =
    (d.next_attempt_at ≡ none)
    × (d.delivered_at ≡ none)
    × (d.lease_id ≢ none)
    × (d.lease_expires_at ≢ none)
StatusChecks delivered d =
    (d.next_attempt_at ≡ none)
    × (d.delivered_at ≢ none)
    × (d.lease_id ≡ none)
    × (d.lease_expires_at ≡ none)
StatusChecks dead d =
    (d.next_attempt_at ≡ none)
    × (d.delivered_at ≡ none)
    × (d.lease_id ≡ none)
    × (d.lease_expires_at ≡ none)

-- A row is well-formed: its constraints, and beyond them that a row that waits has attempts left,
-- that only a dead row lacks an endpoint, and that a row in processing has begun an attempt.
pub record DeliveryChecks (d : Delivery) : Type 0 where
  pub attempts_bounded : d.attempts ≤ 5
  pub status_fields : StatusChecks d.status d
  pub attempts_left : is_waiting d.status ≡ true → d.attempts < 5
  pub endpoint_kept : d.status ≢ dead → d.backchannel_logout_uri ≢ none
  pub attempt_begun : d.status ≡ processing → 1 ≤ d.attempts

abbrev pub HttpChecks : Option ℕ → Type 0
HttpChecks none = Unit
HttpChecks (some n) = (100 ≤ n) × (n ≤ 599)

-- The constraints of `logout_delivery_attempt`.
abbrev pub OutcomeChecks : AttemptOutcome → Attempt → Type 0
OutcomeChecks in_flight a =
    (a.resulting_status ≡ processing)
    × (a.http_status ≡ none)
    × (a.error_code ≡ none)
    × (a.completed_at ≡ none)
OutcomeChecks AttemptOutcome.delivered a =
    (a.resulting_status ≡ delivered)
    × ((a.http_status ≡ some 200) ⊎ (a.http_status ≡ some 204))
    × (a.error_code ≡ none)
    × (a.completed_at ≢ none)
OutcomeChecks AttemptOutcome.retry a = (a.resulting_status ≡ retry) × (a.completed_at ≢ none)
OutcomeChecks AttemptOutcome.dead a = (a.resulting_status ≡ dead) × (a.completed_at ≢ none)
OutcomeChecks AttemptOutcome.lease_expired a =
    ((a.resulting_status ≡ retry) ⊎ (a.resulting_status ≡ dead))
    × (a.http_status ≡ none)
    × (a.error_code ≡ some ErrorCode.lease_expired)
    × (a.completed_at ≢ none)

pub record AttemptChecks (a : Attempt) : Type 0 where
  pub number_bounded : (1 ≤ a.attempt_number) × (a.attempt_number ≤ 5)
  pub http_bounded : HttpChecks a.http_status
  pub outcome_fields : OutcomeChecks a.outcome a

pub record StoreChecks (s : Store) : Type 0 where
  pub deliveries_ok : All DeliveryChecks s.deliveries
  pub attempts_ok : All AttemptChecks s.attempts

pub expire_delivery-Checks :
    (r : ExpiredLeaseDisposition) (k : AttemptKey) (key now : ℕ) (d : Delivery)
    → r ≡ select_expired_lease_disposition k.number logout_delivery_policy
    → is_expired_delivery k key now d ≡ true
    → DeliveryChecks d
    → DeliveryChecks (expire_delivery r now d)
unfolding expire_delivery is_expired_delivery select_expired_lease_disposition
expire_delivery-Checks ExpiredLeaseDisposition.dead k key now d e t h = ground arith
expire_delivery-Checks ExpiredLeaseDisposition.retry k key now d e t h = ground arith

pub expire_attempt-Checks :
    (r : ExpiredLeaseDisposition) (k : AttemptKey) (now : ℕ) (a : Attempt)
    → is_open_attempt k a ≡ true
    → AttemptChecks a
    → AttemptChecks (expire_attempt r now a)
unfolding expire_attempt is_open_attempt
expire_attempt-Checks ExpiredLeaseDisposition.dead k now a t h = ground arith
expire_attempt-Checks ExpiredLeaseDisposition.retry k now a t h = ground arith

pub lease_delivery-Checks :
    (key now : ℕ) (fresh : Fresh) (d : Delivery)
    → is_claimable key now d ≡ true
    → DeliveryChecks d
    → DeliveryChecks (lease_delivery fresh now d)
unfolding lease_delivery is_claimable
lease_delivery-Checks key now fresh d t h = ground arith

-- What the retry policy says of the row that is being settled.
disposition_of-retry :
    (row : Delivery) (r : DeliveryAttemptResult) (delay : Option ℕ)
    → disposition_of row r ≡ DeliveryDisposition.retry delay
    → (row.attempts < 5) × (delay ≡ backoff_at logout_delivery_policy row.attempts)
unfolding disposition_of
disposition_of-retry row r delay e = ground arith

-- A row with an attempt has an entry in the schedule.
disposition_of-delay :
    (row : Delivery) (r : DeliveryAttemptResult)
    → 1 ≤ row.attempts
    → disposition_of row r ≢ DeliveryDisposition.retry none
disposition_of-delay row r begun e =
    let (_, same) = disposition_of-retry row r none e in
    let counted : row.attempts ≡ suc (row.attempts - 1) = omega arith in
    let entry = backoff_at-scheduled logout_delivery_policy (row.attempts - 1) in
    let read = ap (backoff_at logout_delivery_policy) counted in cc

pub settle_delivery-Checks :
    (p : DeliveryDisposition) (r : DeliveryAttemptResult) (row : Delivery) (now : ℕ) (d : Delivery)
    → disposition_of row r ≡ p
    → holds_lease (key_of row) d ≡ true
    → DeliveryChecks d
    → DeliveryChecks (settle_delivery p r now d)
unfolding settle_delivery holds_lease key_of
settle_delivery-Checks DeliveryDisposition.delivered r row now d e t h = ground arith
settle_delivery-Checks DeliveryDisposition.dead r row now d e t h = ground arith
settle_delivery-Checks (DeliveryDisposition.retry (some delay)) r row now d e t h =
    ground (arith, disposition_of-retry row r (some delay) e)
settle_delivery-Checks (DeliveryDisposition.retry none) r row now d e t h =
    let begun : 1 ≤ row.attempts = ground arith in absurd (disposition_of-delay row r begun e)

-- `fetch` gives a status from 100 to 599.
abbrev pub IsHttpReply : Option Reply → Type 0
IsHttpReply (some (responded n)) = (100 ≤ n) × (n ≤ 599)
IsHttpReply _ = Unit

-- A result that counts as delivered carries the status 200 or 204 and no error.
abbrev pub ResultChecks : DeliveryAttemptResult → Type 0
ResultChecks r =
    HttpChecks r.http_status
    × (r.delivered ≡ true
        → ((r.http_status ≡ some 200) ⊎ (r.http_status ≡ some 204)) × (r.error_code ≡ none))

pub attempt_result-ResultChecks :
    (reply : Option Reply) → IsHttpReply reply → ResultChecks (attempt_result reply)
unfolding attempt_result post_logout_token
attempt_result-ResultChecks none h = ground arith
attempt_result-ResultChecks (some (responded n)) h = ground arith
attempt_result-ResultChecks (some timed_out) h = ground arith
attempt_result-ResultChecks (some failed) h = ground arith

disposition_of-delivered :
    (row : Delivery) (r : DeliveryAttemptResult)
    → disposition_of row r ≡ DeliveryDisposition.delivered
    → r.delivered ≡ true
unfolding disposition_of
disposition_of-delivered row r e = ground arith

pub close_attempt-Checks :
    (p : DeliveryDisposition) (r : DeliveryAttemptResult) (row : Delivery) (now : ℕ) (a : Attempt)
    → disposition_of row r ≡ p
    → ResultChecks r
    → AttemptChecks a
    → AttemptChecks (close_attempt p r now a)
unfolding close_attempt
close_attempt-Checks DeliveryDisposition.delivered r row now a e c h =
    let fine = c.1 (disposition_of-delivered row r e) in
    record {
      number_bounded = h.number_bounded;
      http_bounded = c.0;
      outcome_fields = (refl, fine.0, fine.1, λ q. cc);
    }
close_attempt-Checks DeliveryDisposition.dead r row now a e c h = record {
  number_bounded = h.number_bounded;
  http_bounded = c.0;
  outcome_fields = (refl, λ q. cc);
}
close_attempt-Checks (DeliveryDisposition.retry delay) r row now a e c h = record {
  number_bounded = h.number_bounded;
  http_bounded = c.0;
  outcome_fields = (refl, λ q. cc);
}

open_attempt-Checks :
    (key now : ℕ) (fresh : Fresh) (d : Delivery)
    → is_just_leased key fresh.lease now d ≡ true
    → DeliveryChecks d
    → AttemptChecks (open_attempt fresh now d)
unfolding open_attempt is_just_leased
open_attempt-Checks key now fresh d t h = ground arith

pub insert_attempts-Checks :
    (key now : ℕ) (fresh : Fresh) (ds : List Delivery)
    → All DeliveryChecks ds
    → All AttemptChecks
        (insert_attempts (is_just_leased key fresh.lease now) (open_attempt fresh now) ds)
unfolding insert_attempts
insert_attempts-Checks key now fresh [] h = tt
insert_attempts-Checks key now fresh (d ∷ ds) h =
    elim (Bool-cases (is_just_leased key fresh.lease now d)) [
      | inl t ↦
          rw t
            (open_attempt-Checks key now fresh d t h.0, insert_attempts-Checks key now fresh ds h.1)
      | inr f ↦ rw f (insert_attempts-Checks key now fresh ds h.1)
    ]

pub outbox_row-Checks :
    (event : ℕ) (reason : LogoutReason) (now id key : ℕ) (v : Visit)
    → DeliveryChecks (outbox_row event reason now id key v)
unfolding outbox_row
outbox_row-Checks event reason now id key v = ground arith

pub replay_delivery-Checks :
    (endpoint count now : ℕ) (d : Delivery) → DeliveryChecks (replay_delivery endpoint count now d)
unfolding replay_delivery
replay_delivery-Checks endpoint count now d = ground arith
