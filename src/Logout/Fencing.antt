-- ===== src/Logout/Fencing.antt =====
-- A worker without the lease writes nothing: `persistAttemptResult` of
-- apps/sso/worker/logout-delivery.ts, once the lease was settled, recovered or replayed.
use sso_pg72_tw.Common.{
  ℕ, ◌≡◌, refl, inl, inr, ◌&&◌, Bool, false, List, [], ◌∷◌, arith, Result, ok, throw, All, All-map,
  Bool-cases, subst,
}
use sso_pg72_tw.Common.Table.{update_where, exists_where, update_where-none, count_where-none}
use sso_pg72_tw.Durable.{DeliveryDisposition, all_changed_exactly_once}
use sso_pg72_tw.Logout.{Delivery, Attempt, Store}
use sso_pg72_tw.Logout.Worker.{AttemptKey, holds_lease, key_of, is_open_attempt, is_evidence}
use sso_pg72_tw.Logout.Persist.{
  DeliveryAttemptResult, persist_batch, persist_attempt_result, disposition_of, settle_delivery,
  close_attempt, outcome_of, status_of,
}

-- No row holds the lease under which the worker claimed `d`.
abbrev pub IsFenced : Delivery → Store → Type 0
IsFenced d s = All (λ x. holds_lease (key_of d) x ≡ false) s.deliveries

abbrev pub lease_changed : Result DeliveryDisposition
lease_changed = throw "logout delivery lease changed before result commit"

exists_where-false :
    {A : Type 0} (test : A → Bool) (xs : List A)
    → All (λ x. test x ≡ false) xs
    → exists_where test xs ≡ false
unfolding exists_where
exists_where-false test [] h = refl
exists_where-false test (x ∷ xs) h = rw h.0 (exists_where-false test xs h.1)

guarded-none :
    {A : Type 0} (b : Bool) (test : A → Bool) (xs : List A)
    → All (λ x. test x ≡ false) xs
    → All (λ x. b && test x ≡ false) xs
guarded-none b test xs h = All-map _ _ xs (λ x f. ground (arith, f)) h

every :
    {A : Type 0} (test : A → Bool) (xs : List A)
    → ((x : A) → test x ≡ false)
    → All (λ x. test x ≡ false) xs
every test [] h = tt
every test (x ∷ xs) h = (h x, every test xs h)

persist_batch-fenced :
    (k : AttemptKey) (p : DeliveryDisposition) (r : DeliveryAttemptResult) (now : ℕ) (s : Store)
    → All (λ x. holds_lease k x ≡ false) s.deliveries
    → persist_batch k p r now s ≡ (s, 0, 0)
unfolding persist_batch
persist_batch-fenced k p r now s fenced =
    let held = exists_where-false (holds_lease k) s.deliveries fenced in
    let open_test : Attempt → Bool =
      λ a. exists_where (holds_lease k) s.deliveries && is_open_attempt k a in
    let shut = every open_test s.attempts (λ a. rw held) in
    let proven : Bool = exists_where (is_evidence k (outcome_of p) (status_of p) now) s.attempts in
    let quiet = guarded-none proven (holds_lease k) s.deliveries fenced in
    rw (
      update_where-none open_test (close_attempt p r now) s.attempts shut,
      count_where-none open_test s.attempts shut,
      count_where-none (λ x. proven && holds_lease k x) s.deliveries quiet,
      update_where-none (λ x. proven && holds_lease k x) (settle_delivery p r now) s.deliveries
          quiet,
    )

-- A worker whose lease no row holds any more changes no row, whatever the relying party answered,
-- and it is told so by an exception.
pub persist_attempt_result-fenced :
    (d : Delivery) (r : DeliveryAttemptResult) (now : ℕ) (s : Store)
    → IsFenced d s
    → persist_attempt_result d r now s ≡ (s, lease_changed)
unfolding persist_attempt_result all_changed_exactly_once
persist_attempt_result-fenced d r now s fenced =
    rw (persist_batch-fenced (key_of d) (disposition_of d r) r now s fenced)

settled-not-held :
    (k : AttemptKey) (p : DeliveryDisposition) (r : DeliveryAttemptResult) (now : ℕ) (x : Delivery)
    → holds_lease k (settle_delivery p r now x) ≡ false
unfolding holds_lease settle_delivery
settled-not-held k p r now x = ground arith

update_where-All-false :
    {A : Type 0} (test column : A → Bool) (f : A → A) (xs : List A)
    → ((x : A) → column (f x) ≡ false)
    → ((x : A) → test x ≡ false → column x ≡ false)
    → All (λ x. column x ≡ false) (update_where test f xs)
unfolding update_where
update_where-All-false test column f [] h k = tt
update_where-All-false test column f (x ∷ xs) h k = (
  elim (Bool-cases (test x)) [ inl t ↦ rw t (h x) | inr u ↦ rw u (k x u) ],
  update_where-All-false test column f xs h k,
)

-- A batch that changes a row frees every row that held the lease.
persist_batch-frees :
    (k : AttemptKey) (p : DeliveryDisposition) (r : DeliveryAttemptResult) (now : ℕ) (s : Store)
    → (persist_batch k p r now s).2 ≡ 1
    → All (λ x. holds_lease k x ≡ false) (persist_batch k p r now s).0.deliveries
unfolding persist_batch
persist_batch-frees k p r now s one =
    let open_test : Attempt → Bool =
      λ a. exists_where (holds_lease k) s.deliveries && is_open_attempt k a in
    let proven : Bool =
      exists_where (is_evidence k (outcome_of p) (status_of p) now)
        (update_where open_test (close_attempt p r now) s.attempts) in
    elim (Bool-cases proven) [
      | inl shown ↦
          update_where-All-false (λ x. proven && holds_lease k x) (holds_lease k)
            (settle_delivery p r now) s.deliveries (settled-not-held k p r now)
            (λ x u. ground (arith, u, shown))
      | inr lacking ↦
          let idle =
            count_where-none (λ x. proven && holds_lease k x) s.deliveries
              (every _ s.deliveries (λ x. rw lacking)) in
          absurd (omega (arith, idle, one))
    ]

persisted-IsFenced :
    (d : Delivery) (r : DeliveryAttemptResult) (now : ℕ) (s t : Store) (p : DeliveryDisposition)
    → persist_attempt_result d r now s ≡ (t, ok p)
    → IsFenced d t
unfolding persist_attempt_result all_changed_exactly_once
persisted-IsFenced d r now s t p e =
    let k = key_of d in
    let batch = persist_batch k (disposition_of d r) r now s in
    let one : batch.2 ≡ 1 = ground arith in
    let same : batch.0 ≡ t = ground arith in
    subst (λ (x : Store). All (λ y. holds_lease k y ≡ false) x.deliveries) same
      (persist_batch-frees k (disposition_of d r) r now s one)

-- The result of an attempt is committed at most once: when it has been, the row is free of the
-- lease, and a worker that brings a second result for the same claim changes nothing.
pub persist_attempt_result-once :
    (d : Delivery) (r r' : DeliveryAttemptResult) (now now' : ℕ) (s t : Store)
    (p : DeliveryDisposition)
    → persist_attempt_result d r now s ≡ (t, ok p)
    → persist_attempt_result d r' now' t ≡ (t, lease_changed)
persist_attempt_result-once d r r' now now' s t p e =
    persist_attempt_result-fenced d r' now' t (persisted-IsFenced d r now s t p e)
