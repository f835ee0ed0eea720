-- ===== src/Durable.antt =====
-- The retry policy of queued work: apps/sso/worker/durable-delivery.ts. Times are milliseconds.
pub mod Policy
mod Examples
use sso_pg72_tw.Common.{
  ℕ, zero, suc, ◌+◌, ◌-◌, ◌*◌, ◌||◌, Bool, true, false, not, Option, none, some, List, [], ◌∷◌, min,
  leb, ◌==◌, length, get_elem?, if◌then◌else◌, all,
}

-- `backoffSeconds` is `readonly [number, ...number[]]`: its first entry stands apart.
pub record DurableDeliveryPolicy : Type 0 where
  pub first_backoff : ℕ
  pub more_backoff : List ℕ
  pub max_attempts : ℕ

pub record DeliveryAttemptOutcome : Type 0 where
  pub delivered : Bool
  pub transient : Bool

-- The delay of a retry is none where the source has `undefined`.
pub data DeliveryDisposition : Type 0 where
  delivered dead : DeliveryDisposition
  retry : (delay_seconds : Option ℕ) → DeliveryDisposition

unfoldable pub add_iso_seconds : ℕ → ℕ → ℕ
add_iso_seconds iso seconds = iso + seconds * 1000

abbrev pub backoff_seconds : DurableDeliveryPolicy → List ℕ
backoff_seconds p = p.first_backoff ∷ p.more_backoff

-- `policy.backoffSeconds[Math.min(attempt - 1, policy.backoffSeconds.length - 1)]`; out of range,
-- as at the index -1 of attempt 0, the source reads `undefined`.
unfoldable pub backoff_at : DurableDeliveryPolicy → ℕ → Option ℕ
backoff_at p zero = none
backoff_at p (suc n) = get_elem? (backoff_seconds p) (min n (length (backoff_seconds p) - 1))

unfoldable pub select_delivery_disposition :
    ℕ → DeliveryAttemptOutcome → DurableDeliveryPolicy → DeliveryDisposition
select_delivery_disposition attempt outcome p =
    if outcome.delivered
    then delivered
    else if not outcome.transient || leb p.max_attempts attempt
    then dead
    else retry (backoff_at p attempt)

pub data ExpiredLeaseDisposition : Type 0 where
  dead retry : ExpiredLeaseDisposition

unfoldable pub select_expired_lease_disposition :
    ℕ → DurableDeliveryPolicy → ExpiredLeaseDisposition
select_expired_lease_disposition attempt p =
    if leb p.max_attempts attempt
    then ExpiredLeaseDisposition.dead
    else ExpiredLeaseDisposition.retry

-- `allChangedExactlyOnce`, over the change counts of the results; `none` is a missing result.
abbrev changed_once : Option ℕ → Bool
changed_once none = false
changed_once (some n) = n == 1

unfoldable pub all_changed_exactly_once : List (Option ℕ) → Bool
all_changed_exactly_once [] = false
all_changed_exactly_once (r ∷ rs) = all changed_once (r ∷ rs)
