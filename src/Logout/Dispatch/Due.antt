-- ===== src/Logout/Dispatch/Due.antt =====
-- What `enqueueDueLogoutDeliveries` of apps/sso/worker/global-logout.ts promises: the rows that it
-- sends, and the numbers that it returns.
use sso_pg72_tw.Common.{
  ℕ, ◌+◌, ◌≤◌, ◌≡◌, ◌≢◌, refl, ◌⊎◌, inl, inr, ◌==◌, ◌&&◌, not, Bool, true, false, Option, none,
  some, List, [], ◌∷◌, arith, length, All, Bool-cases,
}
use sso_pg72_tw.Common.Table.{count_where, find_where, find_where-test}
use sso_pg72_tw.Logout.{Delivery, DeliveryStatus, Store, is_waiting, is_processing, is_set}
use sso_pg72_tw.Logout.Worker.{is_expired_key, lease_over}
use sso_pg72_tw.Logout.Claim.{is_claimable}
use sso_pg72_tw.Logout.Schema.{DeliveryChecks}
use sso_pg72_tw.Logout.History.{Reach, Reach-StoreChecks, empty_store, empty_store-StoreChecks}
use sso_pg72_tw.Logout.Dispatch.{
  is_due, order_rows, select_where, batch_limit, only, due_rows, LogoutDispatchResult,
  enqueue_due_logout_deliveries,
}
use sso_pg72_tw.Logout.Dispatch.Order.{IsOlder, order_rows-IsOrdered, All-HasRow, take_rows_oldest}
use sso_pg72_tw.Logout.Dispatch.Selection.{
  HasRow, order_rows-from, order_rows-to, select_where-from, select_where-to, take_rows-from,
  length-take_rows,
}

find_where-HasRow :
    (test : Delivery → Bool) (ds : List Delivery) (x : Delivery)
    → find_where test ds ≡ some x
    → HasRow ds x
unfolding find_where
find_where-HasRow test [] x e = cc
find_where-HasRow test (d ∷ ds) x e = elim (Bool-cases (test d)) [
  | inl t ↦ inl (ground (arith, rw t at e))
  | inr f ↦ inr (find_where-HasRow test ds x (rw f at e))
]

only-HasRow :
    (now key : ℕ) (ds : List Delivery) (o : Option Delivery) (x : Delivery)
    → find_where (λ d. d.delivery_key == key && is_due now d) ds ≡ o
    → HasRow (only o) x
    → HasRow ds x × (is_due now x ≡ true)
only-HasRow now key ds none x e h = absurd h
only-HasRow now key ds (some y) x e (inr b) = absurd b
only-HasRow now key ds (some y) x e (inl same) =
    let test : Delivery → Bool = λ d. d.delivery_key == key && is_due now d in
    let passes : test y ≡ true = find_where-test test ds y e in
    let there = find_where-HasRow test ds y e in
    (rw (← same) there, rw (← same) (ground (arith, passes)))

due_rows-due :
    (key limit : Option ℕ) (now : ℕ) (ds : List Delivery) (x : Delivery)
    → HasRow (due_rows key limit now ds) x
    → HasRow ds x × (is_due now x ≡ true)
unfolding due_rows
due_rows-due none limit now ds x h = select_where-from (is_due now) ds x (
    order_rows-from (select_where (is_due now) ds) x
      (take_rows-from (batch_limit limit) (order_rows (select_where (is_due now) ds)) x h))
due_rows-due (some key) limit now ds x h = only-HasRow now key ds _ x refl h

is_set-true : (u : Option ℕ) → u ≢ none → is_set u ≡ true
is_set-true none n = absurd (n refl)
is_set-true (some a) n = refl

waiting-ne-dead : (st : DeliveryStatus) → is_waiting st ≡ true → st ≢ DeliveryStatus.dead
waiting-ne-dead DeliveryStatus.dead w e = cc
waiting-ne-dead _ w e = cc

waiting-not-processing : (st : DeliveryStatus) → is_waiting st ≡ true → is_processing st ≡ false
waiting-not-processing DeliveryStatus.processing w = cc
waiting-not-processing _ w = refl

due-claimable :
    (now : ℕ) (d : Delivery)
    → DeliveryChecks d
    → is_due now d ≡ true
    → (is_claimable d.delivery_key now d ≡ true) ⊎ (is_expired_key d.delivery_key now d ≡ true)
unfolding is_claimable is_expired_key lease_over
due-claimable now d h e = elim (Bool-cases (is_waiting d.status)) [
  | inl waits ↦
      let few = h.attempts_left waits in
      let endpoint =
        is_set-true d.backchannel_logout_uri (h.endpoint_kept (waiting-ne-dead d.status waits)) in
      let idle = waiting-not-processing d.status waits in
      inl (ground (arith, few, endpoint, idle, waits))
  | inr moves ↦ inr (ground (arith, moves))
]

-- No message is sent in vain: in every store that a history of revocations, claims, results, messages
-- and replays reaches from the empty one, each row that is sent to the queue, by its key or as one of
-- the oldest that are due, is a row of the store that a worker can claim at that time, or whose lease
-- is over, so that the worker recovers it.
pub due_rows-claimable :
    (key limit : Option ℕ) (now : ℕ) (s : Store) (x : Delivery)
    → Reach empty_store s
    → HasRow (due_rows key limit now s.deliveries) x
    → HasRow s.deliveries x
      × ((is_claimable x.delivery_key now x ≡ true) ⊎ (is_expired_key x.delivery_key now x ≡ true))
due_rows-claimable key limit now s x reach h =
    let checks = Reach-StoreChecks empty_store s reach empty_store-StoreChecks in
    let (there, due) = due_rows-due key limit now s.deliveries x h in
    (
      there,
      due-claimable now x (All-HasRow DeliveryChecks s.deliveries x checks.deliveries_ok there) due,
    )

-- The row wants a worker: it waits and its time has come, or its worker's lease has run out.
abbrev pub IsDue : ℕ → Delivery → Type 0
IsDue now d =
    (((d.status ≡ DeliveryStatus.pending) ⊎ (d.status ≡ DeliveryStatus.retry))
      × ((at_time : ℕ) × (d.next_attempt_at ≡ some at_time) × (at_time ≤ now)))
    ⊎ ((d.status ≡ DeliveryStatus.processing)
        × ((until : ℕ) × (d.lease_expires_at ≡ some until) × (until ≤ now)))

IsDue-is_due : (now : ℕ) (d : Delivery) → IsDue now d → is_due now d ≡ true
IsDue-is_due now d (inl (status, (at_time, planned, past))) = ground arith
IsDue-is_due now d (inr (status, (until, leased, past))) = ground arith

batch_limit_positive : (limit : Option ℕ) → 1 ≤ batch_limit limit
batch_limit_positive none = omega arith
batch_limit_positive (some n) = omega arith

-- None is forgotten: a row of the table that wants a worker is sent, or the batch is full, with as
-- many rows as its limit, at least one, each of them created no later than this one.
pub due_rows_oldest :
    (limit : Option ℕ) (now : ℕ) (ds : List Delivery) (x : Delivery)
    → HasRow ds x
    → IsDue now x
    → HasRow (due_rows none limit now ds) x
      ⊎ ((length (due_rows none limit now ds) ≡ batch_limit limit)
          × (1 ≤ length (due_rows none limit now ds))
          × All (λ y. IsOlder y x) (due_rows none limit now ds))
unfolding due_rows
due_rows_oldest limit now ds x there due =
    let chosen : List Delivery = select_where (is_due now) ds in
    let has = select_where-to (is_due now) ds x (IsDue-is_due now x due) there in
    let oldest =
      take_rows_oldest (batch_limit limit) (order_rows chosen) x (order_rows-IsOrdered chosen)
        (order_rows-to chosen x has) in
    elim oldest [
      | inl sent ↦ inl sent
      | inr (full, older) ↦ inr (full, omega (arith, full, batch_limit_positive limit), older)
    ]

only-length : (o : Option Delivery) → length (only o) ≤ 1
only-length none = omega arith
only-length (some d) = omega arith

batch_limit_bounded : (limit : Option ℕ) → batch_limit limit ≤ 100
batch_limit_bounded none = omega arith
batch_limit_bounded (some n) = omega arith

due_rows_bounded :
    (key limit : Option ℕ) (now : ℕ) (ds : List Delivery) → length (due_rows key limit now ds) ≤ 100
unfolding due_rows
due_rows_bounded none limit now ds = omega (
  arith,
  batch_limit_bounded limit,
  length-take_rows (batch_limit limit) (order_rows (select_where (is_due now) ds)),
)
due_rows_bounded (some key) limit now ds =
    omega (arith, only-length (find_where (λ d. d.delivery_key == key && is_due now d) ds))

count_where-parts :
    (test : Delivery → Bool) (ds : List Delivery)
    → count_where test ds + count_where (λ d. not (test d)) ds ≡ length ds
unfolding count_where
count_where-parts test [] = refl
count_where-parts test (d ∷ ds) = ground (arith, count_where-parts test ds)

-- The numbers are those of the messages: each row that was selected, at most a hundred, is attempted,
-- those that the queue took are counted as queued, and those that it did not take as failed.
pub enqueue_due_logout_deliveries-counts :
    (key limit : Option ℕ) (now : ℕ) (sent : Delivery → Bool) (ds : List Delivery)
    → let rows : List Delivery = due_rows key limit now ds in
      let r : LogoutDispatchResult = enqueue_due_logout_deliveries key limit now sent ds in
      (r.attempted ≡ length rows)
      × (length rows ≤ 100)
      × (r.queued ≡ count_where sent rows)
      × (r.failed ≡ count_where (λ d. not (sent d)) rows)
unfolding enqueue_due_logout_deliveries
enqueue_due_logout_deliveries-counts key limit now sent ds =
    let rows : List Delivery = due_rows key limit now ds in
    (refl, due_rows_bounded key limit now ds, omega (arith, count_where-parts sent rows), refl)
