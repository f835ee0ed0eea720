-- ===== src/Logout/Dispatch.antt =====
-- Which deliveries are sent to the queue: `enqueueDueLogoutDeliveries` of
-- apps/sso/worker/global-logout.ts. The queue's answers are an argument.
pub mod Selection
pub mod Order
pub mod Due
mod Examples
use sso_pg72_tw.Common.{
  ℕ, ◌-◌, ◌==◌, ◌&&◌, ◌||◌, not, Bool, true, false, Option, none, some, List, [], ◌∷◌, min, max,
  length, map, ltb, if◌then◌else◌, zero, suc,
}
use sso_pg72_tw.Common.Table.{count_where, find_where}
use sso_pg72_tw.Logout.{Delivery, sql_le, is_waiting, is_processing}

-- `status IN ('pending', 'retry') AND next_attempt_at <= ?`, or an expired lease.
abbrev pub is_due : ℕ → Delivery → Bool
is_due now d =
    (is_waiting d.status && sql_le d.next_attempt_at now)
    || (is_processing d.status && sql_le d.lease_expires_at now)

-- `ORDER BY created_at ASC, id ASC`
abbrev pub is_before : Delivery → Delivery → Bool
is_before d e = ltb d.created_at e.created_at || (d.created_at == e.created_at && ltb d.id e.id)

unfoldable pub insert_row : Delivery → List Delivery → List Delivery
insert_row d [] = d ∷ []
insert_row d (e ∷ es) = let rest = insert_row d es in if is_before e d then e ∷ rest else d ∷ e ∷ es

unfoldable pub order_rows : List Delivery → List Delivery
unfolding insert_row
order_rows [] = []
order_rows (d ∷ ds) = insert_row d (order_rows ds)

-- `SELECT … WHERE …`
unfoldable pub select_where : (Delivery → Bool) → List Delivery → List Delivery
select_where test [] = []
select_where test (d ∷ ds) = let rest = select_where test ds in if test d then d ∷ rest else rest

-- `LIMIT ?`
unfoldable pub take_rows : ℕ → List Delivery → List Delivery
take_rows zero ds = []
take_rows (suc n) [] = []
take_rows (suc n) (d ∷ ds) = d ∷ take_rows n ds

-- `Math.min(Math.max(options.limit ?? 50, 1), 100)`
abbrev pub batch_limit : Option ℕ → ℕ
batch_limit none = 50
batch_limit (some n) = min (max n 1) 100

abbrev pub only : Option Delivery → List Delivery
only none = []
only (some d) = d ∷ []

unfoldable pub due_rows : Option ℕ → Option ℕ → ℕ → List Delivery → List Delivery
unfolding order_rows select_where take_rows
due_rows none limit now ds =
    take_rows (batch_limit limit) (order_rows (select_where (is_due now) ds))
due_rows (some key) limit now ds = only (find_where (λ d. d.delivery_key == key && is_due now d) ds)

pub record LogoutDispatchResult : Type 0 where
  pub attempted : ℕ
  pub failed : ℕ
  pub queued : ℕ

-- `sent row` is whether the queue took the message of the row.
unfoldable pub enqueue_due_logout_deliveries :
    Option ℕ → Option ℕ → ℕ → (Delivery → Bool) → List Delivery → LogoutDispatchResult
unfolding due_rows
enqueue_due_logout_deliveries key limit now sent ds =
    let rows = due_rows key limit now ds in
    let failed = count_where (λ d. not (sent d)) rows in
    record { attempted = length rows; failed = failed; queued = length rows - failed }
