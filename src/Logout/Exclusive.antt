-- ===== src/Logout/Exclusive.antt =====
-- A lease excludes other workers: while it runs, a second claim or a duplicate queue message takes
-- nothing and changes nothing.
use sso_pg72_tw.Common.{
  ℕ, ◌+◌, ◌≤◌, ◌<◌, ◌≡◌, refl, ◌≢◌, ◌⊎◌, inl, inr, ◌==◌, Bool, true, false, Option, none, some,
  List, [], ◌∷◌, arith, Result, ok, throw, subst, sym, ap, ◌∙◌, All, All-map, Bool-cases,
  Option-cases,
}
use mathlib.Core.List.{append-nil}
use sso_pg72_tw.Common.Table.{
  update_where, count_where, find_where, update_where-none, count_where-none, All-of-count_where,
  find_where-none, count_where-update_where,
}
use sso_pg72_tw.Logout.{Delivery, Attempt, Store, then_do, processing}
use sso_pg72_tw.Logout.Worker.{recover_expired, recover_batch, is_expired_key, expire_delivery}
use sso_pg72_tw.Logout.Claim.{
  Fresh, is_claimable, lease_delivery, is_just_leased, open_attempt, insert_attempts, claim_batch,
  claim_due, claim_logout_delivery,
}
use sso_pg72_tw.Durable.{all_changed_exactly_once}
use sso_pg72_tw.Logout.Transactions.{recover_row-store, claim_due-store}
use sso_pg72_tw.Logout.Persist.{Reply, ack, settle_claim, consume_logout_delivery_message}

abbrev pub has_key : ℕ → Delivery → Bool
has_key key d = d.delivery_key == key

-- The UNIQUE constraint of `delivery_key`, at one key.
abbrev pub IsUniqueKey : ℕ → Store → Type 0
IsUniqueKey key s = count_where (has_key key) s.deliveries ≤ 1

-- The row is leased by `lease` until `until`.
abbrev IsHeld : ℕ → ℕ → Delivery → Type 0
IsHeld lease until d =
    (d.status ≡ processing) × (d.lease_id ≡ some lease) × (d.lease_expires_at ≡ some until)

abbrev HeldAt : ℕ → ℕ → ℕ → Delivery → Type 0
HeldAt key lease until d = has_key key d ≡ true → IsHeld lease until d

is_claimable-has_key :
    (key now : ℕ) (d : Delivery) → has_key key d ≡ false → is_claimable key now d ≡ false
unfolding is_claimable
is_claimable-has_key key now d h = ground arith

true-ne-false : {b : Bool} → b ≡ true → b ≡ false → ⊥
true-ne-false p q = cc

module _ (key now : ℕ) (fresh : Fresh) where
  lease_delivery-IsHeld :
      (d : Delivery) → IsHeld fresh.lease (now + 30000) (lease_delivery fresh now d)
  unfolding lease_delivery
  lease_delivery-IsHeld d = ground arith

  unclaimed :
      (ds : List Delivery)
      → count_where (has_key key) ds ≡ 0
      → All (λ d. is_claimable key now d ≡ false) ds
  unclaimed ds h =
      All-map _ _ ds (λ d. is_claimable-has_key key now d) (All-of-count_where (has_key key) ds h)

  claimed-HeldAt :
      (ds : List Delivery)
      → count_where (has_key key) ds ≤ 1
      → count_where (is_claimable key now) ds ≡ 1
      → All
          (HeldAt key fresh.lease (now + 30000))
          (update_where (is_claimable key now) (lease_delivery fresh now) ds)
  unfolding count_where update_where
  claimed-HeldAt [] u c = absurd (omega arith)
  claimed-HeldAt (d ∷ ds) u c = elim (Bool-cases (has_key key d)) [
    | inl hit ↦
        let alone : count_where (has_key key) ds ≡ 0 = omega (arith, rw hit at u) in
        here (unclaimed ds alone) (All-of-count_where (has_key key) ds alone)
          (Bool-cases (is_claimable key now d))
    | inr miss ↦
        let untouched = is_claimable-has_key key now d miss in
        rw untouched
          (λ k. absurd (true-ne-false k miss), claimed-HeldAt ds (rw miss at u) (rw untouched at c))
  ]
    where
      here :
          All (λ x. is_claimable key now x ≡ false) ds
          → All (λ x. has_key key x ≡ false) ds
          → (is_claimable key now d ≡ true) ⊎ (is_claimable key now d ≡ false)
          → All
              (HeldAt key fresh.lease (now + 30000))
              (update_where (is_claimable key now) (lease_delivery fresh now) (d ∷ ds))
      here quiet others (inl taken) =
          rw (taken, update_where-none (is_claimable key now) (lease_delivery fresh now) ds quiet)
            (
              λ k. lease_delivery-IsHeld d,
              All-map (λ x. has_key key x ≡ false) (HeldAt key fresh.lease (now + 30000)) ds
                  (λ x f k. absurd (true-ne-false k f)) others,
            )
      here quiet others (inr left) =
          absurd (omega (arith, count_where-none (is_claimable key now) ds quiet, rw left at c))

pub insert_attempts-none :
    (test : Delivery → Bool) (f : Delivery → Attempt) (ds : List Delivery)
    → All (λ d. test d ≡ false) ds
    → insert_attempts test f ds ≡ []
unfolding insert_attempts
insert_attempts-none test f [] h = refl
insert_attempts-none test f (d ∷ ds) h = rw h.0 (insert_attempts-none test f ds h.1)

module _ (key until : ℕ) (lease : ℕ) where
  held-not-expired :
      (r : ℕ) (d : Delivery) → r < until → HeldAt key lease until d → is_expired_key key r d ≡ false
  unfolding is_expired_key
  held-not-expired r d early h = elim (Bool-cases (has_key key d)) [
    | inl hit ↦ ground (arith, h hit)
    | inr miss ↦ rw miss
  ]

  held-not-claimable :
      (now : ℕ) (d : Delivery) → HeldAt key lease until d → is_claimable key now d ≡ false
  unfolding is_claimable
  held-not-claimable now d h = elim (Bool-cases (has_key key d)) [
    | inl hit ↦ ground (arith, h hit)
    | inr miss ↦ rw miss
  ]

  held-not-just_leased :
      (now other : ℕ) (d : Delivery)
      → other ≢ lease
      → HeldAt key lease until d
      → is_just_leased key other now d ≡ false
  unfolding is_just_leased
  held-not-just_leased now other d fresh h = elim (Bool-cases (has_key key d)) [
    | inl hit ↦ ground (arith, h hit)
    | inr miss ↦ rw miss
  ]

  -- Where the lease is held, nothing is recovered, nothing is claimed, nothing is written.
  held-claim_logout_delivery :
      (recovered_at now : ℕ) (fresh : Fresh) (s : Store)
      → recovered_at < until
      → fresh.lease ≢ lease
      → All (HeldAt key lease until) s.deliveries
      → claim_logout_delivery key recovered_at now fresh s ≡ (s, ok none)
  unfolding claim_logout_delivery recover_expired claim_due claim_batch all_changed_exactly_once
  held-claim_logout_delivery recovered_at now fresh s early other h =
      let quiet = All-map _ _ s.deliveries (λ d. held-not-expired recovered_at d early) h in
      let idle = All-map _ _ s.deliveries (λ d. held-not-claimable now d) h in
      let new = All-map _ _ s.deliveries (λ d. held-not-just_leased now fresh.lease d other) h in
      rw (find_where-none (is_expired_key key recovered_at) s.deliveries quiet, recover_expired)
        (rw (
          update_where-none (is_claimable key now) (lease_delivery fresh now) s.deliveries idle,
          count_where-none (is_claimable key now) s.deliveries idle,
          insert_attempts-none (is_just_leased key fresh.lease now) (open_attempt fresh now)
              s.deliveries new,
          append-nil s.attempts,
        ))

claimed_once :
    (key now : ℕ) (fresh : Fresh) (s t : Store) (d : Delivery)
    → claim_due key now fresh s ≡ (t, ok (some d))
    → count_where (is_claimable key now) s.deliveries ≡ 1
unfolding claim_due claim_batch all_changed_exactly_once
claimed_once key now fresh s t d e = ground arith

claim_due-HeldAt :
    (key now : ℕ) (fresh : Fresh) (s t : Store) (d : Delivery)
    → IsUniqueKey key s
    → claim_due key now fresh s ≡ (t, ok (some d))
    → All (HeldAt key fresh.lease (now + 30000)) t.deliveries
unfolding claim_due claim_batch all_changed_exactly_once
claim_due-HeldAt key now fresh s t d u e =
    let held = claimed-HeldAt key now fresh s.deliveries u (claimed_once key now fresh s t d e) in
    subst (λ (x : Store). All (HeldAt key fresh.lease (now + 30000)) x.deliveries)
      (sym (claim_due-store key now fresh s) ∙ ap (λ (p : Store × Result (Option Delivery)). p.0) e)
      held

pub update_unique :
    (key : ℕ) (test : Delivery → Bool) (f : Delivery → Delivery) (ds : List Delivery)
    → ((d : Delivery) → has_key key (f d) ≡ has_key key d)
    → count_where (has_key key) ds ≤ 1
    → count_where (has_key key) (update_where test f ds) ≤ 1
update_unique key test f ds same u = rw (count_where-update_where (has_key key) test f ds same) u

recover_batch-IsUniqueKey :
    (key now : ℕ) (e : Delivery) (s : Store)
    → IsUniqueKey key s
    → IsUniqueKey key (recover_batch key now e s).0
unfolding recover_batch expire_delivery
recover_batch-IsUniqueKey key now e s u = update_unique key _ _ s.deliveries (λ d. refl) u

recover_expired-IsUniqueKey :
    (key now : ℕ) (s : Store) → IsUniqueKey key s → IsUniqueKey key (recover_expired key now s).0
unfolding recover_expired
recover_expired-IsUniqueKey key now s u =
    elim (Option-cases (find_where (is_expired_key key now) s.deliveries)) [
      | inl nothing ↦ rw (nothing, recover_expired) u
      | inr (e, found) ↦
          rw (found, recover_expired, recover_row-store key now e s)
            (recover_batch-IsUniqueKey key now e s u)
    ]

module _ (key recovered_at now : ℕ) (fresh : Fresh) (s t : Store) (d : Delivery)
    (unique : IsUniqueKey key s)
    (claimed : claim_logout_delivery key recovered_at now fresh s ≡ (t, ok (some d)))
    (later_recovered later_now : ℕ) (later_fresh : Fresh) (early : later_recovered < now + 30000)
    (other : later_fresh.lease ≢ fresh.lease) where
  claim_logout_delivery-HeldAt : All (HeldAt key fresh.lease (now + 30000)) t.deliveries
  unfolding claim_logout_delivery
  claim_logout_delivery-HeldAt =
      go (recover_expired key recovered_at s)
        (recover_expired-IsUniqueKey key recovered_at s unique) claimed
    where
      go :
          (p : Store × Result (Unit {0}))
          → IsUniqueKey key p.0
          → then_do p (λ _. claim_due key now fresh) ≡ (t, ok (some d))
          → All (HeldAt key fresh.lease (now + 30000)) t.deliveries
      go (u, ok _) k e = claim_due-HeldAt key now fresh u t d k e
      go (u, throw m) k e = cc

  -- After a successful claim at `now`, another worker that looks before the 30 seconds of the lease
  -- are over takes nothing and changes nothing, if the key is unique and the new lease id is fresh.
  pub claim_logout_delivery_exclusive :
      claim_logout_delivery key later_recovered later_now later_fresh t ≡ (t, ok none)
  claim_logout_delivery_exclusive =
      held-claim_logout_delivery key (now + 30000) fresh.lease later_recovered later_now later_fresh
        t early other claim_logout_delivery-HeldAt

  -- After a successful claim at `now`, a duplicate of the queue message that is consumed before the
  -- 30 seconds of the lease are over is acknowledged and changes nothing, whatever the relying party
  -- would have answered, if the delivery key is unique and the new lease id is fresh.
  pub consume_logout_delivery_message_duplicate :
      (settled_at : ℕ) (reply : Option Reply)
      → consume_logout_delivery_message key later_recovered later_now settled_at later_fresh reply t
        ≡ (t, ack)
  unfolding consume_logout_delivery_message settle_claim
  consume_logout_delivery_message_duplicate settled_at reply = rw claim_logout_delivery_exclusive
