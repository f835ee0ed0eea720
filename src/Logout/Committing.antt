-- ===== src/Logout/Committing.antt =====
-- The result of the attempt that a claim has opened is committed: `persistAttemptResult` of
-- apps/sso/worker/logout-delivery.ts right after `claimLogoutDelivery`.
use sso_pg72_tw.Common.{
  ℕ, ◌≤◌, ◌≡◌, refl, ◌≢◌, inl, inr, ◌==◌, ==_iff, true, false, Option, none, some, List, [], ◌∷◌,
  arith, ok, ap, ◌∙◌, All, All-map, ◌++◌, Bool-cases,
}
use sso_pg72_tw.Common.Table.{
  update_where, count_where, count_where-last, exists_where-last, find_where, update_where-none,
  count_where-none, All-of-count_where, exists_where,
}
use sso_pg72_tw.Durable.{DeliveryDisposition, all_changed_exactly_once}
use sso_pg72_tw.Logout.{
  DeliveryStatus, AttemptOutcome, in_flight, Delivery, Attempt, Store, sql_eq, processing,
}
use sso_pg72_tw.Logout.Worker.{
  AttemptKey, key_of, holds_lease, same_outcome, same_status, is_attempt, is_open_attempt,
  is_evidence,
}
use sso_pg72_tw.Logout.Claim.{
  Fresh, is_claimable, lease_delivery, is_just_leased, claim_batch, insert_attempts, open_attempt,
}
use sso_pg72_tw.Logout.Persist.{
  DeliveryAttemptResult, disposition_of, outcome_of, status_of, close_attempt, settle_delivery,
  persist_batch, persist_attempt_result,
}
use sso_pg72_tw.Logout.Claiming.{
  is_claimable-IsOfKey, is_just_leased-IsOfKey, lease_delivery-passes,
}
use sso_pg72_tw.Logout.Exclusive.{has_key, IsUniqueKey, insert_attempts-none}

-- The lease id of a claim is new to the store.
pub record IsFreshLease (fresh : Fresh) (s : Store) : Type 0 where
  pub new_to_attempts : All (λ a. a.lease_id ≢ fresh.lease) s.attempts
  pub new_to_deliveries : All (λ d. d.lease_id ≢ some fresh.lease) s.deliveries

leased-has_key :
    (now : ℕ) (fresh : Fresh) (key : ℕ) (x : Delivery)
    → has_key key x ≡ true
    → has_key key (lease_delivery fresh now x) ≡ true
unfolding lease_delivery
leased-has_key now fresh key x h = h

sql_eq-ne : (a : Option ℕ) (b : ℕ) → a ≢ some b → sql_eq a (some b) ≡ false
sql_eq-ne none b n = refl
sql_eq-ne (some c) b n = elim (Bool-cases (c == b)) [
  | inl same ↦ absurd (n (ap some ((==_iff c b).0 same)))
  | inr differs ↦ differs
]

module _ (key now : ℕ) (fresh : Fresh) (d : Delivery) (due : is_claimable key now d ≡ true) where
  abbrev lease_key : AttemptKey
  lease_key = key_of (lease_delivery fresh now d)

  abbrev after_claim : List Delivery → List Delivery
  after_claim = update_where (is_claimable key now) (lease_delivery fresh now)

  new_row-not-held :
      (x : Delivery) → x.lease_id ≢ some fresh.lease → holds_lease lease_key x ≡ false
  unfolding holds_lease key_of lease_delivery
  new_row-not-held x n = ground (arith, sql_eq-ne x.lease_id fresh.lease n)

  leased-held : holds_lease lease_key (lease_delivery fresh now d) ≡ true
  unfolding holds_lease key_of lease_delivery
  leased-held = ground arith

  -- What the result batch finds on the rows after the claim: one row with the lease, which it settles.
  pub held_rows :
      (settle : Delivery → Delivery) (start : Delivery → Attempt) (ds : List Delivery)
      → ((x : Delivery) → has_key key (settle x) ≡ has_key key x)
      → count_where (has_key key) ds ≤ 1
      → find_where (has_key key) ds ≡ some d
      → All (λ x. x.lease_id ≢ some fresh.lease) ds
      → (exists_where (holds_lease lease_key) (after_claim ds) ≡ true)
        × (count_where (holds_lease lease_key) (after_claim ds) ≡ 1)
        × (find_where (has_key key) (update_where (holds_lease lease_key) settle (after_claim ds))
            ≡ some (settle (lease_delivery fresh now d)))
        × (insert_attempts (is_just_leased key fresh.lease now) start (after_claim ds)
            ≡ start (lease_delivery fresh now d) ∷ [])
  unfolding count_where update_where find_where exists_where insert_attempts
  held_rows settle start [] kept u f n = cc
  held_rows settle start (x ∷ ds) kept u f n = elim (Bool-cases (has_key key x)) [
    | inl hit ↦
        let alone : count_where (has_key key) ds ≡ 0 = omega (arith, rw hit at u) in
        let others = All-of-count_where (has_key key) ds alone in
        let same : d ≡ x = ground (arith, rw hit at f) in
        let taken : is_claimable key now x ≡ true = rw (← same) due in
        let held : holds_lease lease_key (lease_delivery fresh now x) ≡ true =
          rw (← same) leased-held in
        let keyed : has_key key (settle (lease_delivery fresh now x)) ≡ true =
          kept (lease_delivery fresh now x) ∙ leased-has_key now fresh key x hit in
        let idle = All-map _ _ ds (is_claimable-IsOfKey key now fresh) others in
        let free = All-map _ _ ds new_row-not-held n.1 in
        let opens = (lease_delivery-passes key now fresh x hit).0 in
        rw
          (
            taken,
            held,
            update_where-none (is_claimable key now) (lease_delivery fresh now) ds idle,
            count_where-none (holds_lease lease_key) ds free,
            keyed,
            opens,
            insert_attempts-none (is_just_leased key fresh.lease now) start ds
                (All-map _ _ ds (is_just_leased-IsOfKey key now fresh) others),
          )
          (refl, refl, rw same, rw same)
    | inr miss ↦
        rw
          (
            is_claimable-IsOfKey key now fresh x miss,
            is_just_leased-IsOfKey key now fresh x miss,
            new_row-not-held x n.0,
            miss,
          )
          (held_rows settle start ds kept (rw miss at u) (rw miss at f) n.1)
  ]

pub old_attempt-closed :
    (k : AttemptKey) (lease : ℕ) (a : Attempt)
    → k.lease ≡ some lease
    → a.lease_id ≢ lease
    → is_open_attempt k a ≡ false
unfolding is_open_attempt is_attempt
old_attempt-closed k lease a e n = ground (arith, e)

same_outcome_refl : (o : AttemptOutcome) → same_outcome o o ≡ true
same_outcome_refl in_flight = refl
same_outcome_refl AttemptOutcome.delivered = refl
same_outcome_refl AttemptOutcome.retry = refl
same_outcome_refl AttemptOutcome.dead = refl
same_outcome_refl AttemptOutcome.lease_expired = refl

pub same_status_refl : (o : DeliveryStatus) → same_status o o ≡ true
same_status_refl DeliveryStatus.pending = refl
same_status_refl processing = refl
same_status_refl DeliveryStatus.retry = refl
same_status_refl DeliveryStatus.delivered = refl
same_status_refl DeliveryStatus.dead = refl

pub new_attempt-open :
    (now : ℕ) (fresh : Fresh) (d : Delivery)
    → is_open_attempt
        (key_of (lease_delivery fresh now d))
        (open_attempt fresh now (lease_delivery fresh now d))
      ≡ true
unfolding is_open_attempt is_attempt key_of open_attempt lease_delivery
new_attempt-open now fresh d = ground arith

module _ (now : ℕ) (fresh : Fresh) (d : Delivery) (p : DeliveryDisposition)
    (r : DeliveryAttemptResult) (settled_at : ℕ) where
  new_attempt-proves :
      is_evidence
        (key_of (lease_delivery fresh now d))
        (outcome_of p)
        (status_of p)
        settled_at
        (close_attempt p r settled_at (open_attempt fresh now (lease_delivery fresh now d)))
      ≡ true
  unfolding is_evidence is_attempt key_of open_attempt lease_delivery close_attempt
  new_attempt-proves =
      ground (arith, same_outcome_refl (outcome_of p), same_status_refl (status_of p))

settle-keeps-key :
    (p : DeliveryDisposition) (r : DeliveryAttemptResult) (now key : ℕ) (x : Delivery)
    → has_key key (settle_delivery p r now x) ≡ has_key key x
unfolding settle_delivery
settle-keeps-key p r now key x = refl

pub lease_key-lease :
    (now : ℕ) (fresh : Fresh) (d : Delivery)
    → (key_of (lease_delivery fresh now d)).lease ≡ some fresh.lease
unfolding key_of lease_delivery
lease_key-lease now fresh d = refl

-- A batch that finds the lease held once and the attempt open once commits both.
persist_batch-commits :
    (k : AttemptKey) (p : DeliveryDisposition) (r : DeliveryAttemptResult) (now : ℕ) (t : Store)
    → exists_where (holds_lease k) t.deliveries ≡ true
    → count_where (holds_lease k) t.deliveries ≡ 1
    → count_where (is_open_attempt k) t.attempts ≡ 1
    → exists_where
        (is_evidence k (outcome_of p) (status_of p) now)
        (update_where (is_open_attempt k) (close_attempt p r now) t.attempts)
      ≡ true
    → persist_batch k p r now t ≡ (
      record t {
        attempts = update_where (is_open_attempt k) (close_attempt p r now) t.attempts;
        deliveries = update_where (holds_lease k) (settle_delivery p r now) t.deliveries;
      },
      1,
      1,
    )
unfolding persist_batch
persist_batch-commits k p r now t held once opened proven = rw (held, opened, proven, once)

module _ (key now settled_at : ℕ) (fresh : Fresh) (s : Store) (d : Delivery)
    (unique : IsUniqueKey key s) (found : find_where (has_key key) s.deliveries ≡ some d)
    (due : is_claimable key now d ≡ true) (new : IsFreshLease fresh s)
    (r : DeliveryAttemptResult) where
  abbrev claimed : Delivery
  claimed = lease_delivery fresh now d

  abbrev verdict : DeliveryDisposition
  verdict = disposition_of claimed r

  -- The result of that claim is committed.
  pub persist_attempt_result-commits :
      (u : Store) × (persist_attempt_result claimed r settled_at (claim_batch key now fresh s).0
        ≡ (u, ok verdict))
      × (find_where (has_key key) u.deliveries
          ≡ some (settle_delivery verdict r settled_at claimed))
  unfolding persist_attempt_result claim_batch all_changed_exactly_once
  persist_attempt_result-commits =
      let k = key_of claimed in
      let (held, once, read, inserted) =
        held_rows key now fresh d due (settle_delivery verdict r settled_at)
          (open_attempt fresh now) s.deliveries (λ x. settle-keeps-key verdict r settled_at key x)
          unique found new.new_to_deliveries in
      let shut =
        All-map _ _ s.attempts
          (λ a. old_attempt-closed k fresh.lease a (lease_key-lease now fresh d))
          new.new_to_attempts in
      let fresh_open = new_attempt-open now fresh d in
      let opened =
        count_where-last (is_open_attempt k) s.attempts (open_attempt fresh now claimed) shut
          fresh_open in
      let proven =
        exists_where-last (is_open_attempt k) (close_attempt verdict r settled_at)
          (is_evidence k (outcome_of verdict) (status_of verdict) settled_at) s.attempts
          (open_attempt fresh now claimed) fresh_open
          (new_attempt-proves now fresh d verdict r settled_at) in
      let t : Store = record s {
        deliveries = update_where (is_claimable key now) (lease_delivery fresh now) s.deliveries;
        attempts = s.attempts ++ open_attempt fresh now claimed ∷ [];
      } in
      rw inserted (
        rw
          (
            persist_batch-commits k verdict r settled_at t held once opened proven,
            persist_attempt_result,
          )
          (_, refl, read))
