-- ===== src/Logout/Transactions.antt =====
-- The constraints of the delivery tables over whole transactions.
use sso_pg72_tw.Common.{
  ℕ, ◌+◌, ◌≡◌, refl, inl, inr, ◌&&◌, Bool, true, false, not, Option, none, some, List, [], ◌∷◌,
  ◌++◌, arith, Result, ok, throw, subst, sym, All-append, Option-cases, if◌then◌else◌,
}
use sso_pg72_tw.Common.Table.{find_where, All-update_where, exists_where}
use sso_pg72_tw.Logout.{LogoutReason, Delivery, Store, is_replayable, M, then_do, ◌>>=◌}
use sso_pg72_tw.Logout.Worker.{key_of, is_expired_key, recover_batch, recover_row, recover_expired}
use sso_pg72_tw.Logout.Claim.{
  Fresh, lease_delivery, is_claimable, claim_batch, claim_due, claim_logout_delivery,
}
use sso_pg72_tw.Logout.Persist.{
  Reply, DeliveryAttemptResult, attempt_result, disposition_of, persist_batch,
  persist_attempt_result, settle_claim,
}
use sso_pg72_tw.Logout.Outbox.{
  Visit, conflicts, outbox_row, insert_visits, logout_outbox_statement, replay_batch, replay_to,
  replay_row, replay_found, delivery_not_replayable, first_set,
}
use sso_pg72_tw.Logout.Schema.{
  DeliveryChecks, AttemptChecks, StoreChecks, IsHttpReply, ResultChecks, expire_delivery-Checks,
  expire_attempt-Checks, lease_delivery-Checks, settle_delivery-Checks, attempt_result-ResultChecks,
  close_attempt-Checks, insert_attempts-Checks, outbox_row-Checks, replay_delivery-Checks,
}

-- The second half of a conjunction that holds.
and_right : (a b : Bool) → (a && b) ≡ true → b ≡ true
and_right a b h = ground arith

recover_batch-Checks :
    (key now : ℕ) (e : Delivery) (s : Store)
    → StoreChecks s
    → StoreChecks (recover_batch key now e s).0
unfolding recover_batch key_of
recover_batch-Checks key now e s h = record {
  deliveries_ok =
      All-update_where DeliveryChecks _ _ s.deliveries
        (λ d t. expire_delivery-Checks _ (key_of e) key now d refl (and_right _ _ t))
        h.deliveries_ok;
  attempts_ok =
      All-update_where AttemptChecks _ _ s.attempts
        (λ a t. expire_attempt-Checks _ (key_of e) now a t) h.attempts_ok;
}

pub recover_row-store :
    (key now : ℕ) (e : Delivery) (s : Store)
    → (recover_row key now e s).0 ≡ (recover_batch key now e s).0
unfolding recover_row
recover_row-store key now e s = ground arith

recover_expired-Checks :
    (key now : ℕ) (s : Store) → StoreChecks s → StoreChecks (recover_expired key now s).0
unfolding recover_expired
recover_expired-Checks key now s h =
    elim (Option-cases (find_where (is_expired_key key now) s.deliveries)) [
      | inl nothing ↦ rw (nothing, recover_expired) h
      | inr (e, found) ↦
          rw (found, recover_expired)
            (subst StoreChecks (sym (recover_row-store key now e s))
              (recover_batch-Checks key now e s h))
    ]

claim_batch-Checks :
    (key now : ℕ) (fresh : Fresh) (s : Store)
    → StoreChecks s
    → StoreChecks (claim_batch key now fresh s).0
unfolding claim_batch
claim_batch-Checks key now fresh s h =
    let leased =
      All-update_where DeliveryChecks (is_claimable key now) (lease_delivery fresh now) s.deliveries
        (lease_delivery-Checks key now fresh) h.deliveries_ok in
    record {
      deliveries_ok = leased;
      attempts_ok =
          All-append AttemptChecks s.attempts _ h.attempts_ok
            (insert_attempts-Checks key now fresh _ leased);
    }

pub claim_due-store :
    (key now : ℕ) (fresh : Fresh) (s : Store)
    → (claim_due key now fresh s).0 ≡ (claim_batch key now fresh s).0
unfolding claim_due
claim_due-store key now fresh s = ground arith

-- The store after a step and the one that follows it.
bind-store :
    {A B : Type 0} (P : Store → Type 0) (m : M A) (f : A → M B) (s : Store)
    → P (m s).0
    → ((a : A) (t : Store) → P t → P (f a t).0)
    → P ((m >>= f) s).0
bind-store {A} P m f s h k = go (m s) h
  where
    go : (r : Store × Result A) → P r.0 → P (then_do r f).0
    go (t, ok a) h = k a t h
    go (t, throw e) h = h

pub claim_logout_delivery-Checks :
    (key recovered_at now : ℕ) (fresh : Fresh) (s : Store)
    → StoreChecks s
    → StoreChecks (claim_logout_delivery key recovered_at now fresh s).0
unfolding claim_logout_delivery
claim_logout_delivery-Checks key recovered_at now fresh s h =
    bind-store StoreChecks (recover_expired key recovered_at) (λ _. claim_due key now fresh) s
      (recover_expired-Checks key recovered_at s h)
      λ _ t k.
        subst StoreChecks (sym (claim_due-store key now fresh t))
          (claim_batch-Checks key now fresh t k)

persist_batch-Checks :
    (d : Delivery) (r : DeliveryAttemptResult) (now : ℕ) (s : Store)
    → ResultChecks r
    → StoreChecks s
    → StoreChecks (persist_batch (key_of d) (disposition_of d r) r now s).0
unfolding persist_batch
persist_batch-Checks d r now s c h = record {
  deliveries_ok =
      All-update_where DeliveryChecks _ _ s.deliveries
        (λ x t. settle_delivery-Checks (disposition_of d r) r d now x refl (and_right _ _ t))
        h.deliveries_ok;
  attempts_ok =
      All-update_where AttemptChecks _ _ s.attempts
        (λ a t. close_attempt-Checks (disposition_of d r) r d now a refl c) h.attempts_ok;
}

persist_attempt_result-store :
    (d : Delivery) (r : DeliveryAttemptResult) (now : ℕ) (s : Store)
    → (persist_attempt_result d r now s).0
      ≡ (persist_batch (key_of d) (disposition_of d r) r now s).0
unfolding persist_attempt_result
persist_attempt_result-store d r now s = ground arith

pub persist_attempt_result-Checks :
    (d : Delivery) (r : DeliveryAttemptResult) (now : ℕ) (s : Store)
    → ResultChecks r
    → StoreChecks s
    → StoreChecks (persist_attempt_result d r now s).0
persist_attempt_result-Checks d r now s c h =
    subst StoreChecks (sym (persist_attempt_result-store d r now s))
      (persist_batch-Checks d r now s c h)

insert_visits-Checks :
    (event : ℕ) (reason : LogoutReason) (now : ℕ) (key_at : ℕ → ℕ) (n : ℕ) (vs : List Visit)
    (s : Store)
    → StoreChecks s
    → StoreChecks (insert_visits event reason now key_at n vs s)
unfolding insert_visits
insert_visits-Checks event reason now key_at n [] s h = h
insert_visits-Checks event reason now key_at n (v ∷ vs) s h =
    insert_visits-Checks event reason now key_at (n + 1) vs _
      (here (exists_where (conflicts event reason now v) s.deliveries))
  where
    here :
        (b : Bool)
        → StoreChecks (
            if b then s else record s {
              deliveries = s.deliveries ++ outbox_row event reason now s.next_id (key_at n) v ∷ [];
              next_id = s.next_id + 1;
            })
    here true = h
    here false = record {
      deliveries_ok =
          All-append DeliveryChecks s.deliveries _ h.deliveries_ok
            (outbox_row-Checks event reason now s.next_id (key_at n) v, tt);
      attempts_ok = h.attempts_ok;
    }

replay_batch-Checks :
    (endpoint now event : ℕ) (row : Delivery) (s : Store)
    → StoreChecks s
    → StoreChecks (replay_batch endpoint now event row s).0
unfolding replay_batch
replay_batch-Checks endpoint now event row s h = record {
  deliveries_ok =
      All-update_where DeliveryChecks _ _ s.deliveries
        (λ d t k. replay_delivery-Checks endpoint (row.replay_count + 1) now d) h.deliveries_ok;
  attempts_ok = h.attempts_ok;
}

replay_row-Checks :
    (current : Option ℕ) (now event : ℕ) (row : Delivery) (s : Store)
    → StoreChecks s
    → StoreChecks (replay_row current now event row s).0
unfolding replay_row replay_to
replay_row-Checks current now event row s h =
    go (not (is_replayable row.status)) (first_set row.backchannel_logout_uri current)
  where
    go :
        (b : Bool) (o : Option ℕ)
        → StoreChecks (if b then (s, delivery_not_replayable) else replay_to o now event row s).0
    go true o = h
    go false none = h
    go false (some endpoint) = replay_batch-Checks endpoint now event row s h

pub replay_found-Checks :
    (current : Option ℕ) (now event : ℕ) (found : Option Delivery) (s : Store)
    → StoreChecks s
    → StoreChecks (replay_found current now event found s).0
unfolding replay_found
replay_found-Checks current now event none s h = h
replay_found-Checks current now event (some row) s h = replay_row-Checks current now event row s h

pub settle_claim-Checks :
    (reply : Option Reply) (now : ℕ) (r : Store × Result (Option Delivery))
    → IsHttpReply reply
    → StoreChecks r.0
    → StoreChecks (settle_claim reply now r).0
unfolding settle_claim
settle_claim-Checks reply now (t, throw e) c h = h
settle_claim-Checks reply now (t, ok none) c h = h
settle_claim-Checks reply now (t, ok (some d)) c h =
    persist_attempt_result-Checks d (attempt_result reply) now t
      (attempt_result-ResultChecks reply c) h

pub logout_outbox_statement-Checks :
    (event : ℕ) (reason : LogoutReason) (now : ℕ) (audited : Bool) (key_at : ℕ → ℕ)
    (visits : List Visit) (s : Store)
    → StoreChecks s
    → StoreChecks (logout_outbox_statement event reason now audited key_at visits s)
unfolding logout_outbox_statement
logout_outbox_statement-Checks event reason now true key_at visits s h =
    insert_visits-Checks event reason now key_at 1 visits s h
logout_outbox_statement-Checks event reason now false key_at visits s h = h
