-- ===== src/Logout/Progress.antt =====
-- What `consumeLogoutDeliveryMessage` of apps/sso/worker/logout-delivery.ts achieves for a delivery that
-- is due: one attempt, and its result in the row.
use sso_pg72_tw.Common.{
  ℕ, ◌+◌, ◌≡◌, refl, ◌⊎◌, true, Option, none, some, arith, ok, Result, ap, ◌∙◌,
}
use sso_pg72_tw.Common.Table.{find_where}
use sso_pg72_tw.Durable.{DeliveryDisposition, select_delivery_disposition}
use sso_pg72_tw.Logout.{DeliveryStatus, Delivery, Store}
use sso_pg72_tw.Logout.Claim.{Fresh, is_claimable, lease_delivery, claim_batch}
use sso_pg72_tw.Logout.Persist.{
  Reply, responded, ack, DeliveryAttemptResult, attempt_result, post_logout_token, disposition_of,
  settle_delivery, persist_attempt_result, consume_logout_delivery_message, settle_claim,
  queue_action, next_attempt_of, next_attempt_of,
}
use sso_pg72_tw.Logout.Claiming.{claim_logout_delivery-claims}
use sso_pg72_tw.Logout.Committing.{IsFreshLease, persist_attempt_result-commits}
use sso_pg72_tw.Logout.Exclusive.{has_key, IsUniqueKey}

settle_claim-claimed :
    (reply : Option Reply) (settled_at : ℕ) (t u : Store) (c : Delivery)
    (p : Result DeliveryDisposition)
    → persist_attempt_result c (attempt_result reply) settled_at t ≡ (u, p)
    → settle_claim reply settled_at (t, ok (some c)) ≡ (u, queue_action p)
unfolding settle_claim
settle_claim-claimed reply settled_at t u c p e = rw e

delivered-verdict :
    (c : Delivery) (n : ℕ)
    → (n ≡ 200) ⊎ (n ≡ 204)
    → disposition_of c (attempt_result (some (responded n))) ≡ DeliveryDisposition.delivered
unfolding disposition_of select_delivery_disposition attempt_result post_logout_token
delivered-verdict c n good = ground arith

module _ (key recovered_at now settled_at : ℕ) (fresh : Fresh) (s : Store) (d : Delivery)
    (unique : IsUniqueKey key s) (found : find_where (has_key key) s.deliveries ≡ some d)
    (due : is_claimable key now d ≡ true) (new : IsFreshLease fresh s) where
  -- The message of a delivery that is due, whose key is unique, with a lease id that is new to the
  -- store: the delivery is claimed, the one attempt is made and its result committed. The row is then
  -- the claimed row settled by the disposition of the reply, and the queue is told the same, whatever
  -- the relying party answers and also if no token could be made.
  pub consume_logout_delivery_message-settles :
      (reply : Option Reply)
      → let claimed : Delivery = lease_delivery fresh now d in
        let verdict : DeliveryDisposition = disposition_of claimed (attempt_result reply) in
        (u : Store) × (consume_logout_delivery_message key recovered_at now settled_at fresh reply s
          ≡ (u, queue_action (ok verdict)))
        × (find_where (has_key key) u.deliveries
            ≡ some (settle_delivery verdict (attempt_result reply) settled_at claimed))
  unfolding consume_logout_delivery_message
  consume_logout_delivery_message-settles reply =
      let (u, commits, row) =
        persist_attempt_result-commits key now settled_at fresh s d unique found due new
          (attempt_result reply) in
      (
        u,
        ap (settle_claim reply settled_at)
              (claim_logout_delivery-claims key recovered_at now fresh s d unique found due)
            ∙ settle_claim-claimed reply settled_at (claim_batch key now fresh s).0 u
                (lease_delivery fresh now d) _ commits,
        row,
      )

  -- The message of a delivery that is due, whose key is unique, with a lease id that is new to the
  -- store: a relying party that answers 200 or 204 leaves the delivery delivered at that time, one
  -- attempt more, with no further attempt planned and no lease, and the message is acknowledged.
  pub consume_logout_delivery_message-delivers :
      (http_status : ℕ)
      → (http_status ≡ 200) ⊎ (http_status ≡ 204)
      → (u : Store) × (e : Delivery) × (consume_logout_delivery_message key recovered_at now
            settled_at fresh
            (some (responded http_status))
            s
          ≡ (u, ack))
        × (find_where (has_key key) u.deliveries ≡ some e)
        × (e.status ≡ DeliveryStatus.delivered)
        × (e.delivered_at ≡ some settled_at)
        × (e.next_attempt_at ≡ none)
        × (e.lease_id ≡ none)
        × (e.attempts ≡ d.attempts + 1)
  unfolding settle_delivery lease_delivery next_attempt_of
  consume_logout_delivery_message-delivers n good =
      let claimed : Delivery = lease_delivery fresh now d in
      let result : DeliveryAttemptResult = attempt_result (some (responded n)) in
      let good_verdict = delivered-verdict claimed n good in
      let (u, told, row) = consume_logout_delivery_message-settles (some (responded n)) in
      (
        u,
        settle_delivery DeliveryDisposition.delivered result settled_at claimed,
        told ∙ ap (λ (p : DeliveryDisposition). (u, queue_action (ok p))) good_verdict,
        row
            ∙ ap (λ (p : DeliveryDisposition). some (settle_delivery p result settled_at claimed))
                good_verdict,
        refl,
        refl,
        refl,
        refl,
        refl,
      )
