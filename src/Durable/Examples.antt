-- ===== src/Durable/Examples.antt =====
-- The retry schedule of the alert deliveries (apps/sso/worker/durable-delivery.ts) on concrete
-- attempts.
use sso_pg72_tw.Common.{◌<◌, ◌≡◌, ◌↔◌, refl, true, false, some, [], ◌∷◌}
use sso_pg72_tw.Durable.{
  DurableDeliveryPolicy, DeliveryAttemptOutcome, DeliveryDisposition, backoff_at,
  select_delivery_disposition,
}
use sso_pg72_tw.Durable.Policy.{scheduled, select_delivery_disposition-retry_iff}

abbrev policy : DurableDeliveryPolicy
policy = record { first_backoff = 10; more_backoff = 30 ∷ 120 ∷ []; max_attempts = 5 }

abbrev timed_out : DeliveryAttemptOutcome
timed_out = record { delivered = false; transient = true }

second_waits : select_delivery_disposition 2 timed_out policy ≡ DeliveryDisposition.retry (some 30)
unfolding select_delivery_disposition backoff_at
second_waits = refl

fourth_waits : select_delivery_disposition 4 timed_out policy ≡ DeliveryDisposition.retry (some 120)
unfolding select_delivery_disposition backoff_at
fourth_waits = refl

select_delivery_disposition-retry_iff_example :
    (select_delivery_disposition 4 timed_out policy ≡ DeliveryDisposition.retry (some 120)) ↔ (
      (timed_out.delivered ≡ false)
      × (timed_out.transient ≡ true)
      × (4 < policy.max_attempts)
      × (some 120 ≡ some (scheduled policy.first_backoff policy.more_backoff 3)))
select_delivery_disposition-retry_iff_example =
    select_delivery_disposition-retry_iff 3 timed_out policy (some 120)
