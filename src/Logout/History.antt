-- ===== src/Logout/History.antt =====
-- Every history of the delivery tables: what revocations, workers and
-- administrators do, in any order.
use sso_pg72_tw.Common.{ℕ, Bool, Option, List, []}
use sso_pg72_tw.Logout.{LogoutReason, Delivery, Store}
use sso_pg72_tw.Logout.Claim.{Fresh, claim_logout_delivery}
use sso_pg72_tw.Logout.Persist.{
  Reply, attempt_result, persist_attempt_result, consume_logout_delivery_message,
}
use sso_pg72_tw.Logout.Outbox.{Visit, logout_outbox_statement, replay_logout_delivery}
use sso_pg72_tw.Logout.Schema.{StoreChecks, IsHttpReply, attempt_result-ResultChecks}
use sso_pg72_tw.Logout.Transactions.{
  claim_logout_delivery-Checks, persist_attempt_result-Checks, replay_found-Checks,
  settle_claim-Checks, logout_outbox_statement-Checks,
}

-- What may happen to the tables: a revocation fills the outbox, a worker claims a delivery or
-- brings the result of an attempt, at any time and with any claimed row, a message is consumed as a
-- whole, or an administrator replays a delivery.
pub data Step (s : Store) : Store → Type 0 where
  revokes :
      (event : ℕ) (reason : LogoutReason) (now : ℕ) (audited : Bool) (key_at : ℕ → ℕ)
      (visits : List Visit)
      → Step s (logout_outbox_statement event reason now audited key_at visits s)
  claims :
      (key recovered_at now : ℕ) (fresh : Fresh)
      → Step s (claim_logout_delivery key recovered_at now fresh s).0
  settles :
      (d : Delivery) (reply : Option Reply) (now : ℕ)
      → IsHttpReply reply
      → Step s (persist_attempt_result d (attempt_result reply) now s).0
  consumes :
      (key recovered_at claimed_at settled_at : ℕ) (fresh : Fresh) (reply : Option Reply)
      → IsHttpReply reply
      → Step s
          (consume_logout_delivery_message key recovered_at claimed_at settled_at fresh reply s).0
  replays :
      (key : ℕ) (current : Option ℕ) (now event : ℕ)
      → Step s (replay_logout_delivery key current now event s).0

pub data Reach (s : Store) : Store → Type 0 where
  here : Reach s s
  next : {t u : Store} → Reach s t → Step t u → Reach s u

Step-StoreChecks : (s t : Store) → Step s t → StoreChecks s → StoreChecks t
Step-StoreChecks s t (revokes event reason now audited key_at visits) h =
    logout_outbox_statement-Checks event reason now audited key_at visits s h
Step-StoreChecks s t (claims key recovered_at now fresh) h =
    claim_logout_delivery-Checks key recovered_at now fresh s h
Step-StoreChecks s t (settles d reply now c) h =
    persist_attempt_result-Checks d (attempt_result reply) now s
      (attempt_result-ResultChecks reply c) h
Step-StoreChecks s t (consumes key recovered_at claimed_at settled_at fresh reply c) h =
    unfold consume_logout_delivery_message in
    settle_claim-Checks reply settled_at _ c
      (claim_logout_delivery-Checks key recovered_at claimed_at fresh s h)
Step-StoreChecks s t (replays key current now event) h =
    unfold replay_logout_delivery in replay_found-Checks current now event _ s h

abbrev pub empty_store : Store
empty_store = record { deliveries = []; attempts = []; audit = []; next_id = 1 }

pub empty_store-StoreChecks : StoreChecks empty_store
empty_store-StoreChecks = record { deliveries_ok = tt; attempts_ok = tt }

-- Take a store that meets the CHECK constraints of both tables, each of whose waiting rows has
-- attempts left, each row that is not dead an endpoint, and each row in processing a begun attempt.
-- Every store that a history of revocations, claims, results, messages and replays, in any order,
-- reaches from it is of the same kind, where every HTTP status that comes back is from 100 to 599.
pub Reach-StoreChecks : (s t : Store) → Reach s t → StoreChecks s → StoreChecks t
Reach-StoreChecks s t here h = h
Reach-StoreChecks s t (next {t = u} r st) h = Step-StoreChecks u t st (Reach-StoreChecks s u r h)
