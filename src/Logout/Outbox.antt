-- ===== src/Logout/Outbox.antt =====
-- Where deliveries come from: `logoutOutboxStatement` of apps/sso/worker/global-logout.ts, and the
-- replay route of apps/sso/worker/admin-logout-deliveries.ts behind its admin gate.
use sso_pg72_tw.Common.{
  ℕ, ◌+◌, ◌==◌, ◌&&◌, not, Bool, true, false, Option, none, some, List, [], ◌∷◌, ◌++◌,
  if◌then◌else◌,
}
use sso_pg72_tw.Common.Table.{update_where, count_where, find_where, exists_where}
use sso_pg72_tw.Logout.{
  DeliveryStatus, pending, dead, LogoutReason, ErrorCode, missing_backchannel_uri, Delivery,
  ReplayAudit, Store, is_replayable,
}

-- A row of the join of the visits, the selected sessions and their clients.
pub record Visit : Type 0 where
  pub session_id : ℕ
  pub user_id : ℕ
  pub client_id : ℕ
  pub backchannel_logout_uri : Option ℕ

-- The three `CASE WHEN client.backchannelLogoutUri IS NULL`.
abbrev pub outbox_status : Option ℕ → DeliveryStatus
outbox_status none = dead
outbox_status (some uri) = pending

abbrev pub outbox_next : Option ℕ → ℕ → Option ℕ
outbox_next none now = none
outbox_next (some uri) now = some now

abbrev pub outbox_error : Option ℕ → Option ErrorCode
outbox_error none = some missing_backchannel_uri
outbox_error (some uri) = none

module _ (event_id : ℕ) (reason : LogoutReason) (now : ℕ) where
  unfoldable pub outbox_row : (id key : ℕ) → Visit → Delivery
  outbox_row id key v = record {
    id = id;
    delivery_key = key;
    event_id = event_id;
    session_id = v.session_id;
    user_id = v.user_id;
    client_id = v.client_id;
    backchannel_logout_uri = v.backchannel_logout_uri;
    reason = reason;
    status = outbox_status v.backchannel_logout_uri;
    attempts = 0;
    replay_count = 0;
    jti = none;
    next_attempt_at = outbox_next v.backchannel_logout_uri now;
    lease_id = none;
    lease_expires_at = none;
    delivered_at = none;
    last_error_code = outbox_error v.backchannel_logout_uri;
    created_at = now;
    updated_at = now;
  }

  -- `ON CONFLICT (event_id, session_id, client_id) DO NOTHING`
  unfoldable pub conflicts : Visit → Delivery → Bool
  conflicts v d =
      d.event_id == event_id && (d.session_id == v.session_id && d.client_id == v.client_id)

  -- The visits come in the order of their row numbers; `key_at n` is the key of row `n`.
  unfoldable pub insert_visits : (ℕ → ℕ) → ℕ → List Visit → Store → Store
  insert_visits key_at n [] s = s
  insert_visits key_at n (v ∷ vs) s = insert_visits key_at (n + 1) vs (
      if exists_where (conflicts v) s.deliveries then s else record s {
        deliveries = s.deliveries ++ outbox_row s.next_id (key_at n) v ∷ [];
        next_id = s.next_id + 1;
      })

  -- The statement inserts only where the audit event of the revocation was written before it.
  unfoldable pub logout_outbox_statement : Bool → (ℕ → ℕ) → List Visit → Store → Store
  logout_outbox_statement audited key_at visits s =
      if audited then insert_visits key_at 1 visits s else s

-- The answer of the replay route.
pub data ReplayAnswer : Type 0 where
  delivery_not_found delivery_not_replayable : ReplayAnswer
  backchannel_logout_uri_required delivery_state_changed : ReplayAnswer
  replayed : (replay_count : ℕ) → ReplayAnswer

abbrev pub first_set : Option ℕ → Option ℕ → Option ℕ
first_set none b = b
first_set (some a) b = some a

unfoldable pub is_replay_target : ℕ → ℕ → Delivery → Bool
is_replay_target key count d =
    d.delivery_key == key && (is_replayable d.status && d.replay_count == count)

unfoldable pub replay_delivery : (endpoint count now : ℕ) → Delivery → Delivery
replay_delivery endpoint count now d = record d {
  backchannel_logout_uri = some endpoint;
  status = pending;
  attempts = 0;
  replay_count = count;
  next_attempt_at = some now;
  lease_id = none;
  lease_expires_at = none;
  delivered_at = none;
  last_error_code = none;
  updated_at = now;
}

abbrev is_pending : DeliveryStatus → Bool
is_pending pending = true
is_pending _ = false

-- What the audit statement of the batch asks for.
unfoldable pub is_replayed : (key count now : ℕ) → Delivery → Bool
is_replayed key count now d =
    d.delivery_key == key
    && (is_pending d.status && (d.replay_count == count && d.updated_at == now))

abbrev pub replayed_deliveries : (endpoint now : ℕ) → Delivery → Store → List Delivery
replayed_deliveries endpoint now row s =
    update_where (is_replay_target row.delivery_key row.replay_count)
      (replay_delivery endpoint (row.replay_count + 1) now) s.deliveries

-- The audit statement finds the row that the update has left.
abbrev pub is_audited : (endpoint now : ℕ) → Delivery → Store → Bool
is_audited endpoint now row s =
    exists_where (is_replayed row.delivery_key (row.replay_count + 1) now)
      (replayed_deliveries endpoint now row s)

abbrev pub replay_audit : (event : ℕ) → Delivery → ReplayAudit
replay_audit event row = record {
  event_id = event;
  client_id = row.client_id;
  delivery_key = row.delivery_key;
  replay_count = row.replay_count + 1;
}

-- The batch of the route: the update, the audit event where it took effect, and the answer.
unfoldable pub replay_batch : (endpoint now event : ℕ) → Delivery → Store → Store × ReplayAnswer
replay_batch endpoint now event row s =
    let audited = is_audited endpoint now row s in
    (
      record s {
        deliveries = replayed_deliveries endpoint now row s;
        audit = if audited then s.audit ++ replay_audit event row ∷ [] else s.audit;
      },
      if count_where (is_replay_target row.delivery_key row.replay_count) s.deliveries == 1
            && audited
          then replayed (row.replay_count + 1)
          else delivery_state_changed,
    )

-- `!endpoint`, and then the batch.
unfoldable pub replay_to : Option ℕ → (now event : ℕ) → Delivery → Store → Store × ReplayAnswer
replay_to none now event row s = (s, backchannel_logout_uri_required)
replay_to (some endpoint) now event row s = replay_batch endpoint now event row s

unfoldable pub replay_row : Option ℕ → (now event : ℕ) → Delivery → Store → Store × ReplayAnswer
replay_row current now event row s =
    if not (is_replayable row.status)
    then (s, delivery_not_replayable)
    else replay_to (first_set row.backchannel_logout_uri current) now event row s

unfoldable pub replay_found :
    Option ℕ → (now event : ℕ) → Option Delivery → Store → Store × ReplayAnswer
replay_found current now event none s = (s, delivery_not_found)
replay_found current now event (some row) s = replay_row current now event row s

-- `current` is the URI that the client is registered with now, `event` the fresh audit id. The key
-- has passed the pattern and the caller the admin gate.
unfoldable pub replay_logout_delivery :
    (key : ℕ) → (current : Option ℕ) → (now event : ℕ) → Store → Store × ReplayAnswer
replay_logout_delivery key current now event s =
    replay_found current now event (find_where (λ d. d.delivery_key == key) s.deliveries) s
