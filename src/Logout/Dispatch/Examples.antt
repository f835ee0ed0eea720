-- ===== src/Logout/Dispatch/Examples.antt =====
-- Two revoked sessions, and which of their deliveries `enqueueDueLogoutDeliveries` of
-- apps/sso/worker/global-logout.ts sends.
use sso_pg72_tw.Common.{
  ℕ, ◌≤◌, ◌≡◌, ◌⊎◌, refl, inl, inr, true, false, Option, none, some, [], ◌∷◌, arith, length, All,
}
use sso_pg72_tw.Common.Table.{count_where, exists_where}
use sso_pg72_tw.Logout.{DeliveryStatus, LogoutReason, Delivery, Store}
use sso_pg72_tw.Logout.Worker.{is_expired_key}
use sso_pg72_tw.Logout.Claim.{is_claimable}
use sso_pg72_tw.Logout.Outbox.{Visit, logout_outbox_statement, insert_visits, conflicts, outbox_row}
use sso_pg72_tw.Logout.History.{Reach, here, next, revokes, empty_store}
use sso_pg72_tw.Logout.Dispatch.{
  due_rows, order_rows, insert_row, select_where, take_rows, enqueue_due_logout_deliveries,
  LogoutDispatchResult,
}
use sso_pg72_tw.Logout.Dispatch.Selection.{HasRow}
use sso_pg72_tw.Logout.Dispatch.Order.{IsOlder}
use sso_pg72_tw.Logout.Dispatch.Due.{
  due_rows-claimable, due_rows_oldest, enqueue_due_logout_deliveries-counts,
}

abbrev visit : ℕ → Option ℕ → Visit
visit session uri = record {
  session_id = session;
  user_id = 4;
  client_id = 5;
  backchannel_logout_uri = uri;
}

-- The second client has no endpoint, so that its row is dead from the start.
abbrev revoked : Store
revoked =
    logout_outbox_statement 1 LogoutReason.suspend 1000 true (λ n. n)
      (visit 3 (some 6) ∷ visit 4 none ∷ []) empty_store

revoked-reached : Reach empty_store revoked
revoked-reached =
    next here
      (revokes 1 LogoutReason.suspend 1000 true (λ n. n) (visit 3 (some 6) ∷ visit 4 none ∷ []))

abbrev first_row : Delivery
first_row = outbox_row 1 LogoutReason.suspend 1000 1 1 (visit 3 (some 6))

due_rows-claimable_example :
    HasRow revoked.deliveries first_row
    × ((is_claimable first_row.delivery_key 2000 first_row ≡ true)
        ⊎ (is_expired_key first_row.delivery_key 2000 first_row ≡ true))
unfolding due_rows order_rows insert_row select_where take_rows logout_outbox_statement
    insert_visits conflicts exists_where outbox_row
due_rows-claimable_example =
    due_rows-claimable none none 2000 revoked first_row revoked-reached (inl refl)

-- The lease of this row has run out.
abbrev lost_row : Delivery
lost_row = record first_row {
  id = 2;
  delivery_key = 2;
  status = DeliveryStatus.processing;
  next_attempt_at = none;
  lease_id = some 9;
  lease_expires_at = some 1900;
  attempts = 1;
}

due_rows_oldest_example :
    let sent = due_rows none (some 0) 2000 (first_row ∷ lost_row ∷ []) in
    HasRow sent lost_row
    ⊎ ((length sent ≡ 1) × (1 ≤ length sent) × All (λ y. IsOlder y lost_row) sent)
due_rows_oldest_example =
    due_rows_oldest (some 0) 2000 (first_row ∷ lost_row ∷ []) lost_row (inr (inl refl))
      (inr (refl, (1900, refl, omega arith)))

enqueue_due_logout_deliveries-counts_example :
    let rows = due_rows none none 2000 revoked.deliveries in
    let r : LogoutDispatchResult =
      enqueue_due_logout_deliveries none none 2000 (λ d. false) revoked.deliveries in
    (r.attempted ≡ length rows)
    × (length rows ≤ 100)
    × (r.queued ≡ count_where (λ d. false) rows)
    × (r.failed ≡ count_where (λ d. true) rows)
enqueue_due_logout_deliveries-counts_example =
    enqueue_due_logout_deliveries-counts none none 2000 (λ d. false) revoked.deliveries
