-- ===== src/Logout.antt =====
-- Back-channel logout delivery: the tables of apps/sso/migrations/0018_global_logout.sql that
-- apps/sso/worker/global-logout.ts, logout-delivery.ts and admin-logout-deliveries.ts share. An
-- identifier (key, UUID, URI, user) is a number, a time its milliseconds, NULL is `none`.
pub mod Worker
pub mod Claim
pub mod Persist
pub mod Outbox
pub mod Schema
pub mod Transactions
pub mod History
pub mod Exclusive
pub mod Fencing
pub mod Claiming
pub mod Committing
pub mod Progress
pub mod Recovering
pub mod Crash
pub mod Dispatch
pub mod Replaying
mod Examples
use sso_pg72_tw.Common.{
  ℕ, ◌==◌, Bool, true, false, Option, none, some, List, [], ◌∷◌, leb, Result, ok, throw,
}
use sso_pg72_tw.Durable.{DurableDeliveryPolicy}

pub data DeliveryStatus : Type 0 where
  pending processing retry delivered dead : DeliveryStatus

pub data LogoutReason : Type 0 where
  account_delete admin_revoke restrict rp_initiated_logout self_revoke sign_out : LogoutReason
  suspend : LogoutReason

pub data ErrorCode : Type 0 where
  missing_backchannel_uri lease_expired lease_expired_after_max_attempts : ErrorCode
  http_429 http_5xx http_retryable http_non_success timeout network_error : ErrorCode
  signing_error : ErrorCode

-- A row of `logout_delivery`.
pub record Delivery : Type 0 where
  pub id : ℕ
  pub delivery_key : ℕ
  pub event_id : ℕ
  pub session_id : ℕ
  pub user_id : ℕ
  pub client_id : ℕ
  pub backchannel_logout_uri : Option ℕ
  pub reason : LogoutReason
  pub status : DeliveryStatus
  pub attempts : ℕ
  pub replay_count : ℕ
  pub jti : Option ℕ
  pub next_attempt_at : Option ℕ
  pub lease_id : Option ℕ
  pub lease_expires_at : Option ℕ
  pub delivered_at : Option ℕ
  pub last_error_code : Option ErrorCode
  pub created_at : ℕ
  pub updated_at : ℕ

pub data AttemptOutcome : Type 0 where
  in_flight delivered retry dead lease_expired : AttemptOutcome

-- A row of `logout_delivery_attempt`.
pub record Attempt : Type 0 where
  pub id : ℕ
  pub delivery_id : ℕ
  pub replay_count : ℕ
  pub attempt_number : ℕ
  pub lease_id : ℕ
  pub outcome : AttemptOutcome
  pub resulting_status : DeliveryStatus
  pub http_status : Option ℕ
  pub error_code : Option ErrorCode
  pub started_at : ℕ
  pub completed_at : Option ℕ

-- The part of an `audit_event` row that a replay writes.
pub record ReplayAudit : Type 0 where
  pub event_id : ℕ
  pub client_id : ℕ
  pub delivery_key : ℕ
  pub replay_count : ℕ

pub record Store : Type 0 where
  pub deliveries : List Delivery
  pub attempts : List Attempt
  pub audit : List ReplayAudit
  pub next_id : ℕ

-- What a statement may do: it changes the store and then returns or throws. What the code has
-- written stays written when it throws.
abbrev pub M : Type 0 → Type 0
M A = Store → Store × Result A

abbrev pub then_do : {A B : Type 0} → Store × Result A → (A → M B) → Store × Result B
then_do (t, ok a) f = f a t
then_do (t, throw e) f = (t, throw e)

infixl 5 ◌>>=◌
abbrev pub ◌>>=◌ : {A B : Type 0} → M A → (A → M B) → M B
◌>>=◌ m f s = then_do (m s) f

-- SQL's `=`: a comparison with NULL is not true.
abbrev pub sql_eq : Option ℕ → Option ℕ → Bool
sql_eq (some a) (some b) = a == b
sql_eq _ _ = false

-- SQL's `<=`.
abbrev pub sql_le : Option ℕ → ℕ → Bool
sql_le none b = false
sql_le (some a) b = leb a b

-- `IS NOT NULL`
abbrev pub is_set : {A : Type 0} → Option A → Bool
is_set none = false
is_set (some a) = true

abbrev pub is_processing : DeliveryStatus → Bool
is_processing processing = true
is_processing _ = false

-- `status IN ('pending', 'retry')`
abbrev pub is_waiting : DeliveryStatus → Bool
is_waiting pending = true
is_waiting retry = true
is_waiting _ = false

-- `status IN ('dead', 'retry')`
abbrev pub is_replayable : DeliveryStatus → Bool
is_replayable dead = true
is_replayable retry = true
is_replayable _ = false

abbrev pub is_in_flight : AttemptOutcome → Bool
is_in_flight in_flight = true
is_in_flight _ = false

abbrev pub max_attempts : ℕ
max_attempts = 5

abbrev pub lease_seconds : ℕ
lease_seconds = 30

abbrev pub logout_delivery_policy : DurableDeliveryPolicy
logout_delivery_policy = record {
  first_backoff = 10;
  more_backoff = 30 ∷ 120 ∷ 300 ∷ 900 ∷ [];
  max_attempts = max_attempts;
}
