-- ===== src/Logout/Claiming.antt =====
-- A delivery that is due is claimed: `claimLogoutDelivery` of apps/sso/worker/logout-delivery.ts on a
-- table in which the key is unique.
use sso_pg72_tw.Common.{
  ℕ, ◌≤◌, ◌≡◌, refl, inl, inr, Bool, true, false, some, List, [], ◌∷◌, arith, ok, All, All-map,
  Bool-cases,
}
use sso_pg72_tw.Common.Table.{
  update_where, count_where, find_where, update_where-none, count_where-none, All-of-count_where,
  find_where-none,
}
use sso_pg72_tw.Durable.{all_changed_exactly_once}
use sso_pg72_tw.Logout.{Delivery, Store}
use sso_pg72_tw.Logout.Worker.{lease_over, recover_expired, is_expired_key}
use sso_pg72_tw.Logout.Claim.{
  Fresh, is_claimable, lease_delivery, is_just_leased, is_leased, claim_batch, claim_due,
  claim_logout_delivery,
}
use sso_pg72_tw.Logout.Exclusive.{has_key, IsUniqueKey}

-- A test that looks at rows of one key alone.
abbrev pub IsOfKey : ℕ → (Delivery → Bool) → Type 0
IsOfKey key test = (d : Delivery) → has_key key d ≡ false → test d ≡ false

module _ (key now : ℕ) (fresh : Fresh) where
  pub is_claimable-IsOfKey : IsOfKey key (is_claimable key now)
  unfolding is_claimable
  is_claimable-IsOfKey d h = rw h

  pub is_just_leased-IsOfKey : IsOfKey key (is_just_leased key fresh.lease now)
  unfolding is_just_leased
  is_just_leased-IsOfKey d h = rw h

  is_leased-IsOfKey : IsOfKey key (is_leased key fresh.lease)
  unfolding is_leased
  is_leased-IsOfKey d h = rw h

  pub lease_delivery-passes :
      (d : Delivery)
      → has_key key d ≡ true
      → (is_just_leased key fresh.lease now (lease_delivery fresh now d) ≡ true)
        × (is_leased key fresh.lease (lease_delivery fresh now d) ≡ true)
  unfolding is_just_leased is_leased lease_delivery
  lease_delivery-passes d h = ground arith

  -- The three reads of a claim, on the rows of a table with one claimable row of the key.
  claimed_rows :
      (ds : List Delivery) (d : Delivery)
      → count_where (has_key key) ds ≤ 1
      → find_where (has_key key) ds ≡ some d
      → is_claimable key now d ≡ true
      → let after : List Delivery =
          update_where (is_claimable key now) (lease_delivery fresh now) ds in
        (count_where (is_claimable key now) ds ≡ 1)
        × (count_where (is_just_leased key fresh.lease now) after ≡ 1)
        × (find_where (is_leased key fresh.lease) after ≡ some (lease_delivery fresh now d))
  unfolding count_where update_where find_where
  claimed_rows [] d u f c = cc
  claimed_rows (x ∷ ds) d u f c = elim (Bool-cases (has_key key x)) [
    | inl hit ↦
        let alone : count_where (has_key key) ds ≡ 0 = omega (arith, rw hit at u) in
        let others = All-of-count_where (has_key key) ds alone in
        let same : x ≡ d = ground (arith, rw hit at f) in
        let taken : is_claimable key now x ≡ true = rw same c in
        let (opens, reads) = lease_delivery-passes x hit in
        let idle = All-map _ _ ds is_claimable-IsOfKey others in
        rw
          (
            taken,
            update_where-none (is_claimable key now) (lease_delivery fresh now) ds idle,
            count_where-none (is_claimable key now) ds idle,
            opens,
            count_where-none (is_just_leased key fresh.lease now) ds
                (All-map _ _ ds is_just_leased-IsOfKey others),
            reads,
          )
          (refl, refl, rw same)
    | inr miss ↦
        rw (is_claimable-IsOfKey x miss, is_just_leased-IsOfKey x miss, is_leased-IsOfKey x miss)
          (claimed_rows ds d (rw miss at u) (rw miss at f) c)
  ]

due-not-expired :
    (key now r : ℕ) (x : Delivery) → is_claimable key now x ≡ true → is_expired_key key r x ≡ false
unfolding is_claimable is_expired_key lease_over
due-not-expired key now r x h = ground arith

pub claim_due-claims :
    (key now : ℕ) (fresh : Fresh) (s : Store) (d : Delivery)
    → IsUniqueKey key s
    → find_where (has_key key) s.deliveries ≡ some d
    → is_claimable key now d ≡ true
    → claim_due key now fresh s
      ≡ ((claim_batch key now fresh s).0, ok (some (lease_delivery fresh now d)))
unfolding claim_due claim_batch all_changed_exactly_once
claim_due-claims key now fresh s d unique found due =
    let (one, opened, read) = claimed_rows key now fresh s.deliveries d unique found due in
    rw (one, opened, read)

-- A due row of a unique key is claimed: the claim returns it with the lease.
module _ (key recovered_at now : ℕ) (fresh : Fresh) (s : Store) (d : Delivery)
    (unique : IsUniqueKey key s) (found : find_where (has_key key) s.deliveries ≡ some d)
    (due : is_claimable key now d ≡ true) where
  only_row :
      (ds : List Delivery)
      → count_where (has_key key) ds ≤ 1
      → find_where (has_key key) ds ≡ some d
      → All (λ x. is_expired_key key recovered_at x ≡ false) ds
  unfolding count_where find_where is_expired_key lease_over
  only_row [] u f = tt
  only_row (x ∷ ds) u f = elim (Bool-cases (has_key key x)) [
    | inl hit ↦
        let alone : count_where (has_key key) ds ≡ 0 = omega (arith, rw hit at u) in
        let same : d ≡ x = ground (arith, rw hit at f) in
        (
          due-not-expired key now recovered_at x (rw (← same) due),
          All-map _ _ ds (λ y h. rw h) (All-of-count_where (has_key key) ds alone),
        )
    | inr miss ↦ (rw miss, only_row ds (rw miss at u) (rw miss at f))
  ]

  pub claim_logout_delivery-claims :
      claim_logout_delivery key recovered_at now fresh s
      ≡ ((claim_batch key now fresh s).0, ok (some (lease_delivery fresh now d)))
  unfolding claim_logout_delivery recover_expired
  claim_logout_delivery-claims =
      rw
        (
          find_where-none (is_expired_key key recovered_at) s.deliveries
              (only_row s.deliveries unique found),
          recover_expired,
        )
        (claim_due-claims key now fresh s d unique found due)
