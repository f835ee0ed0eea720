-- ===== src/Logout/Recovering.antt =====
-- An expired lease is recovered: `recoverExpiredLogoutDelivery` of apps/sso/worker/logout-delivery.ts
-- on a table in which the key is unique.
use sso_pg72_tw.Common.{
  ℕ, ◌+◌, ◌≤◌, ◌≡◌, refl, Bool, true, some, List, [], ◌∷◌, arith, ok, ◌∙◌, All-map, Bool-cases, inl,
  inr,
}
use sso_pg72_tw.Common.Table.{
  update_where, count_where, find_where, exists_where, count_where-none, All-of-count_where,
}
use sso_pg72_tw.Durable.{
  ExpiredLeaseDisposition, select_expired_lease_disposition, all_changed_exactly_once,
}
use sso_pg72_tw.Logout.{Delivery, AttemptOutcome, Store, logout_delivery_policy}
use sso_pg72_tw.Logout.Worker.{
  key_of, holds_lease, lease_over, is_attempt, is_open_attempt, is_evidence, is_expired_key,
  is_expired_delivery, expire_attempt, expire_delivery, expired_status, recover_batch, recover_row,
  recover_expired,
}
use sso_pg72_tw.Logout.Claim.{Fresh, lease_delivery, open_attempt}
use sso_pg72_tw.Logout.Exclusive.{has_key}
use sso_pg72_tw.Logout.Claiming.{IsOfKey}
use sso_pg72_tw.Logout.Committing.{same_status_refl}

-- The one row of a unique key that a test of that key finds.
pub one_row :
    (key : ℕ) (test : Delivery → Bool) (f : Delivery → Delivery) (ds : List Delivery) (c : Delivery)
    → IsOfKey key test
    → ((x : Delivery) → has_key key (f x) ≡ has_key key x)
    → test c ≡ true
    → count_where (has_key key) ds ≤ 1
    → find_where (has_key key) ds ≡ some c
    → (count_where test ds ≡ 1)
      × (find_where test ds ≡ some c)
      × (find_where (has_key key) (update_where test f ds) ≡ some (f c))
unfolding count_where find_where update_where
one_row key test f [] c of_key kept t u e = cc
one_row key test f (x ∷ ds) c of_key kept t u e = elim (Bool-cases (has_key key x)) [
  | inl hit ↦
      let alone : count_where (has_key key) ds ≡ 0 = omega (arith, rw hit at u) in
      let same : c ≡ x = ground (arith, rw hit at e) in
      let passes : test x ≡ true = rw (← same) t in
      let keyed : has_key key (f x) ≡ true = kept x ∙ hit in
      let idle = All-map _ _ ds of_key (All-of-count_where (has_key key) ds alone) in
      rw (passes, count_where-none test ds idle, keyed) (refl, rw same, rw same)
  | inr miss ↦
      rw (of_key x miss, miss) (one_row key test f ds c of_key kept t (rw miss at u) (rw miss at e))
]

pub expire_delivery-keeps-key :
    (r : ExpiredLeaseDisposition) (now key : ℕ) (x : Delivery)
    → has_key key (expire_delivery r now x) ≡ has_key key x
unfolding expire_delivery
expire_delivery-keeps-key r now key x = refl

pub lease_delivery-keeps-key :
    (fresh : Fresh) (now key : ℕ) (x : Delivery)
    → has_key key (lease_delivery fresh now x) ≡ has_key key x
unfolding lease_delivery
lease_delivery-keeps-key fresh now key x = refl

module _ (now later : ℕ) (fresh : Fresh) (d : Delivery) (over : now + 30000 ≤ later) where
  pub leased-expired :
      (key : ℕ)
      → has_key key d ≡ true
      → (is_expired_key key later (lease_delivery fresh now d) ≡ true)
        × (is_expired_delivery
              (key_of (lease_delivery fresh now d))
              key
              later
              (lease_delivery fresh now d)
            ≡ true)
  unfolding is_expired_key lease_over is_expired_delivery holds_lease key_of lease_delivery
  leased-expired key h = ground arith

  pub expired-proves :
      (r : ExpiredLeaseDisposition)
      → is_evidence
          (key_of (lease_delivery fresh now d))
          AttemptOutcome.lease_expired
          (expired_status r)
          later
          (expire_attempt r later (open_attempt fresh now (lease_delivery fresh now d)))
        ≡ true
  unfolding is_evidence is_attempt key_of open_attempt lease_delivery expire_attempt
  expired-proves r = ground (arith, same_status_refl (expired_status r))

-- The store that a recovery leaves behind.
abbrev pub recovered : ℕ → ℕ → Delivery → Store → Store
recovered key later c t =
    let r = select_expired_lease_disposition c.attempts logout_delivery_policy in
    record t {
      attempts = update_where (is_open_attempt (key_of c)) (expire_attempt r later) t.attempts;
      deliveries =
          update_where (is_expired_delivery (key_of c) key later) (expire_delivery r later)
            t.deliveries;
    }

pub recover_expired-commits :
    (key later : ℕ) (c : Delivery) (t : Store)
    → find_where (is_expired_key key later) t.deliveries ≡ some c
    → count_where (is_expired_delivery (key_of c) key later) t.deliveries ≡ 1
    → count_where (is_open_attempt (key_of c)) t.attempts ≡ 1
    → (let r = select_expired_lease_disposition c.attempts logout_delivery_policy in
        exists_where
          (is_evidence (key_of c) AttemptOutcome.lease_expired (expired_status r) later)
          (update_where (is_open_attempt (key_of c)) (expire_attempt r later) t.attempts)
        ≡ true)
    → recover_expired key later t ≡ (recovered key later c t, ok tt)
unfolding recover_expired recover_row recover_batch all_changed_exactly_once
recover_expired-commits key later c t found once opened proven =
    rw (found, recover_expired) (rw (opened, proven, once))
