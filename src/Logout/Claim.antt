-- ===== src/Logout/Claim.antt =====
-- `claimLogoutDelivery` of apps/sso/worker/logout-delivery.ts: after the recovery one batch takes
-- the lease and opens the attempt; a row that is not due, not waiting or used up is not taken.
use sso_pg72_tw.Common.{
  ℕ, ◌+◌, ◌==◌, ◌&&◌, Bool, Option, none, some, List, [], ◌∷◌, ◌++◌, ltb, if◌then◌else◌, ok,
}
use sso_pg72_tw.Common.Table.{update_where, count_where, find_where}
use sso_pg72_tw.Durable.{add_iso_seconds, all_changed_exactly_once}
use sso_pg72_tw.Logout.{
  processing, Delivery, in_flight, Attempt, Store, M, ◌>>=◌, sql_eq, sql_le, is_set, is_processing,
  is_waiting, max_attempts, lease_seconds,
}
use sso_pg72_tw.Logout.Worker.{recover_expired}

-- The fresh UUIDs of one claim.
pub record Fresh : Type 0 where
  pub lease : ℕ
  pub jti : ℕ
  pub attempt : ℕ

-- `COALESCE(jti, ?)`
abbrev pub coalesce : Option ℕ → ℕ → Option ℕ
coalesce none fresh = some fresh
coalesce (some old) fresh = some old

unfoldable pub is_claimable : ℕ → ℕ → Delivery → Bool
is_claimable key now d =
    d.delivery_key == key
    && (ltb d.attempts max_attempts
        && (is_set d.backchannel_logout_uri
            && (is_waiting d.status && sql_le d.next_attempt_at now)))

unfoldable pub lease_delivery : Fresh → ℕ → Delivery → Delivery
unfolding add_iso_seconds
lease_delivery fresh now d = record d {
  status = processing;
  attempts = d.attempts + 1;
  jti = coalesce d.jti fresh.jti;
  next_attempt_at = none;
  lease_id = some fresh.lease;
  lease_expires_at = some (add_iso_seconds now lease_seconds);
  updated_at = now;
}

-- The rows that the `INSERT … SELECT` reads.
unfoldable pub is_just_leased : ℕ → ℕ → ℕ → Delivery → Bool
is_just_leased key lease now d =
    d.delivery_key == key
    && (is_processing d.status && (sql_eq d.lease_id (some lease) && d.updated_at == now))

unfoldable pub open_attempt : Fresh → ℕ → Delivery → Attempt
open_attempt fresh now d = record {
  id = fresh.attempt;
  delivery_id = d.id;
  replay_count = d.replay_count;
  attempt_number = d.attempts;
  lease_id = fresh.lease;
  outcome = in_flight;
  resulting_status = processing;
  http_status = none;
  error_code = none;
  started_at = now;
  completed_at = none;
}

-- `INSERT … SELECT … WHERE …`: one attempt for each row that passes.
unfoldable pub insert_attempts :
    (Delivery → Bool) → (Delivery → Attempt) → List Delivery → List Attempt
insert_attempts test f [] = []
insert_attempts test f (d ∷ ds) =
    let rest = insert_attempts test f ds in if test d then f d ∷ rest else rest

-- The final `SELECT`.
unfoldable pub is_leased : ℕ → ℕ → Delivery → Bool
is_leased key lease d =
    d.delivery_key == key && (is_processing d.status && sql_eq d.lease_id (some lease))

unfoldable pub claim_batch : ℕ → ℕ → Fresh → Store → Store × ℕ × ℕ
claim_batch key now fresh s =
    let deliveries = update_where (is_claimable key now) (lease_delivery fresh now) s.deliveries in
    let test = is_just_leased key fresh.lease now in
    (
      record s {
        deliveries = deliveries;
        attempts = s.attempts ++ insert_attempts test (open_attempt fresh now) deliveries;
      },
      count_where (is_claimable key now) s.deliveries,
      count_where test deliveries,
    )

unfoldable pub claim_due : ℕ → ℕ → Fresh → M (Option Delivery)
claim_due key now fresh s =
    let (t, claimed, opened) = claim_batch key now fresh s in
    if all_changed_exactly_once (some claimed ∷ some opened ∷ [])
    then (t, ok (find_where (is_leased key fresh.lease) t.deliveries))
    else (t, ok none)

-- The recovery and the claim each read the clock.
unfoldable pub claim_logout_delivery : ℕ → ℕ → ℕ → Fresh → M (Option Delivery)
claim_logout_delivery key recovered_at now fresh =
    recover_expired key recovered_at >>= λ _. claim_due key now fresh
