-- ===== src/Logout/Crash.antt =====
-- A worker that claims a delivery and is never heard of again: what the next claim makes of it, by
-- `recoverExpiredLogoutDelivery` and `claimLogoutDelivery` of apps/sso/worker/logout-delivery.ts.
use sso_pg72_tw.Common.{
  ℕ, ◌+◌, ◌≤◌, ◌<◌, ◌≡◌, refl, true, Option, none, some, [], ◌∷◌, ◌++◌, arith, Result, ok, ap, ◌∙◌,
  All-map,
}
use sso_pg72_tw.Common.Table.{
  update_where, find_where, count_where-last, exists_where-last, find_where-test,
}
use sso_pg72_tw.Durable.{ExpiredLeaseDisposition, select_expired_lease_disposition}
use sso_pg72_tw.Logout.{Delivery, AttemptOutcome, Store, then_do, logout_delivery_policy}
use sso_pg72_tw.Logout.Worker.{
  key_of, is_open_attempt, is_evidence, is_expired_key, is_expired_delivery, expire_attempt,
  expire_delivery, expired_status, recover_expired,
}
use sso_pg72_tw.Logout.Claim.{
  Fresh, coalesce, is_claimable, lease_delivery, open_attempt, claim_batch, claim_due,
  claim_logout_delivery,
}
use sso_pg72_tw.Logout.Exclusive.{has_key, IsUniqueKey, update_unique}
use sso_pg72_tw.Logout.Claiming.{
  IsOfKey, is_claimable-IsOfKey, claim_logout_delivery-claims, claim_due-claims,
}
use sso_pg72_tw.Logout.Recovering.{
  one_row, expire_delivery-keeps-key, lease_delivery-keeps-key, leased-expired, expired-proves,
  recovered, recover_expired-commits,
}
use sso_pg72_tw.Logout.Committing.{
  IsFreshLease, held_rows, new_attempt-open, old_attempt-closed, lease_key-lease,
}

retried-due :
    (key now later later_now : ℕ) (fresh : Fresh) (d : Delivery)
    → is_claimable key now d ≡ true
    → later ≤ later_now
    → d.attempts + 1 < 5
    → is_claimable key later_now (
        expire_delivery
          (select_expired_lease_disposition
            (lease_delivery fresh now d).attempts
            logout_delivery_policy)
          later
          (lease_delivery fresh now d))
      ≡ true
unfolding is_claimable expire_delivery select_expired_lease_disposition lease_delivery
retried-due key now later later_now fresh d due after left = ground arith

-- A token id, once given, is kept.
coalesce-some : (old : Option ℕ) (a b : ℕ) → coalesce (coalesce old a) b ≡ coalesce old a
coalesce-some none a b = refl
coalesce-some (some x) a b = refl

-- The store right after a claim.
abbrev claimed_store : ℕ → Fresh → Delivery → ℕ → Store → Store
claimed_store now fresh d key s = record s {
  deliveries = update_where (is_claimable key now) (lease_delivery fresh now) s.deliveries;
  attempts = s.attempts ++ open_attempt fresh now (lease_delivery fresh now d) ∷ [];
}

module _ (key recovered_at now : ℕ) (fresh : Fresh) (s : Store) (d : Delivery)
    (unique : IsUniqueKey key s) (found : find_where (has_key key) s.deliveries ≡ some d)
    (due : is_claimable key now d ≡ true) (new : IsFreshLease fresh s) (later later_now : ℕ)
    (later_fresh : Fresh) (over : now + 30000 ≤ later) (after : later ≤ later_now)
    (left : d.attempts + 1 < 5) where
  abbrev first : Delivery
  first = lease_delivery fresh now d

  abbrev r : ExpiredLeaseDisposition
  r = select_expired_lease_disposition first.attempts logout_delivery_policy

  abbrev t : Store
  t = claimed_store now fresh d key s

  claim_batch-claimed_store : (claim_batch key now fresh s).0 ≡ t
  unfolding claim_batch
  claim_batch-claimed_store =
      let (_, _, _, inserted) =
        held_rows key now fresh d due (λ x. x) (open_attempt fresh now) s.deliveries (λ x. refl)
          unique found new.new_to_deliveries in
      rw inserted

  t-IsUniqueKey : IsUniqueKey key t
  t-IsUniqueKey =
      update_unique key (is_claimable key now) (lease_delivery fresh now) s.deliveries
        (λ x. lease_delivery-keeps-key fresh now key x) unique

  t-row : find_where (has_key key) t.deliveries ≡ some first
  t-row =
      (one_row key (is_claimable key now) (lease_delivery fresh now) s.deliveries d
        (is_claimable-IsOfKey key now fresh) (λ x. lease_delivery-keeps-key fresh now key x) due
        unique found).2

  abbrev t2 : Store
  t2 = recovered key later first t

  is_expired_delivery-IsOfKey : IsOfKey key (is_expired_delivery (key_of first) key later)
  unfolding is_expired_delivery
  is_expired_delivery-IsOfKey x h = rw h

  is_expired_key-IsOfKey : IsOfKey key (is_expired_key key later)
  unfolding is_expired_key
  is_expired_key-IsOfKey x h = rw h

  t-recovers :
      (recover_expired key later t ≡ (t2, ok tt))
      × (find_where (has_key key) t2.deliveries ≡ some (expire_delivery r later first))
  t-recovers =
      let keyed = find_where-test (has_key key) s.deliveries d found in
      let (expired, expirable) = leased-expired now later fresh d over key keyed in
      let (_, seen, _) =
        one_row key (is_expired_key key later) (λ x. x) t.deliveries first is_expired_key-IsOfKey
          (λ x. refl) expired t-IsUniqueKey t-row in
      let (once, _, row) =
        one_row key (is_expired_delivery (key_of first) key later) (expire_delivery r later)
          t.deliveries first is_expired_delivery-IsOfKey
          (λ x. expire_delivery-keeps-key r later key x) expirable t-IsUniqueKey t-row in
      let shut =
        All-map _ _ s.attempts
          (λ a. old_attempt-closed (key_of first) fresh.lease a (lease_key-lease now fresh d))
          new.new_to_attempts in
      let fresh_open = new_attempt-open now fresh d in
      let opened =
        count_where-last (is_open_attempt (key_of first)) s.attempts (open_attempt fresh now first)
          shut fresh_open in
      let proven =
        exists_where-last (is_open_attempt (key_of first)) (expire_attempt r later)
          (is_evidence (key_of first) AttemptOutcome.lease_expired (expired_status r) later)
          s.attempts (open_attempt fresh now first) fresh_open
          (expired-proves now later fresh d over r) in
      (recover_expired-commits key later first t seen once opened proven, row)

  -- A worker that claims a due delivery and is never heard of again does not hold it up: once the 30
  -- seconds of its lease are over, the next claim recovers the row and takes it, if the key is unique,
  -- the first lease id was new to the store and attempts are left. The lost attempt counts, the
  -- token id of the first attempt is kept and the lease is the new worker's.
  pub claim_logout_delivery-reclaims :
      (u : Store) × (e : Delivery) × (claim_logout_delivery key later later_now later_fresh
          (claim_logout_delivery key recovered_at now fresh s).0
        ≡ (u, ok (some e)))
      × (e.attempts ≡ d.attempts + 2)
      × (e.lease_id ≡ some later_fresh.lease)
      × (e.jti ≡ coalesce d.jti fresh.jti)
  unfolding claim_logout_delivery lease_delivery expire_delivery
  claim_logout_delivery-reclaims =
      let (recovers, row) = t-recovers in
      let unique2 =
        update_unique key (is_expired_delivery (key_of first) key later) (expire_delivery r later)
          t.deliveries (λ x. expire_delivery-keeps-key r later key x) t-IsUniqueKey in
      let due2 = retried-due key now later later_now fresh d due after left in
      let claims = claim_logout_delivery-claims key recovered_at now fresh s d unique found due in
      let start =
        ap (λ (p : Store × Result (Option Delivery)). p.0) claims ∙ claim_batch-claimed_store in
      (
        (claim_batch key later_now later_fresh t2).0,
        lease_delivery later_fresh later_now (expire_delivery r later first),
        ap (claim_logout_delivery key later later_now later_fresh) start
            ∙ (ap
                  (λ (p : Store × Result (Unit {0})).
                    then_do p (λ _. claim_due key later_now later_fresh))
                  recovers
                ∙ claim_due-claims key later_now later_fresh t2 (expire_delivery r later first)
                    unique2 row due2),
        omega arith,
        refl,
        coalesce-some d.jti fresh.jti later_fresh.jti,
      )
