-- ===== src/Logout/Dispatch/Order.antt =====
-- The order in which `enqueueDueLogoutDeliveries` of apps/sso/worker/global-logout.ts sends rows: the
-- oldest first, up to the limit of the batch.
use sso_pg72_tw.Common.{
  subst, ℕ, ◌≤◌, ◌<◌, ◌≡◌, refl, ◌⊎◌, inl, inr, false, true, List, [], ◌∷◌, arith, length, All,
  All-map, Bool-cases, suc, zero,
}
use sso_pg72_tw.Logout.{Delivery}
use sso_pg72_tw.Logout.Dispatch.{is_before, insert_row, order_rows, take_rows}
use sso_pg72_tw.Logout.Dispatch.Selection.{HasRow}

-- The first was created earlier, or at the same time with an id that is not higher.
abbrev pub IsOlder : Delivery → Delivery → Type 0
IsOlder x y = (x.created_at < y.created_at) ⊎ ((x.created_at ≡ y.created_at) × (x.id ≤ y.id))

abbrev pub IsOrdered : List Delivery → Type 0
IsOrdered [] = Unit
IsOrdered (d ∷ ds) = All (IsOlder d) ds × IsOrdered ds

is_before-IsOlder : (x y : Delivery) → is_before x y ≡ true → IsOlder x y
is_before-IsOlder x y h = ground arith

not_before-IsOlder : (x y : Delivery) → is_before x y ≡ false → IsOlder y x
not_before-IsOlder x y h = ground arith

IsOlder-trans : (x y z : Delivery) → IsOlder x y → IsOlder y z → IsOlder x z
IsOlder-trans x y z h k = ground arith

All-insert_row :
    (P : Delivery → Type 0) (d : Delivery) (es : List Delivery)
    → P d
    → All P es
    → All P (insert_row d es)
unfolding insert_row
All-insert_row P d [] p h = (p, tt)
All-insert_row P d (e ∷ es) p h = elim (Bool-cases (is_before e d)) [
  | inl before ↦ rw before (h.0, All-insert_row P d es p h.1)
  | inr after ↦ rw after (p, h)
]

insert_row-IsOrdered :
    (d : Delivery) (es : List Delivery) → IsOrdered es → IsOrdered (insert_row d es)
unfolding insert_row
insert_row-IsOrdered d [] h = (tt, tt)
insert_row-IsOrdered d (e ∷ es) h = elim (Bool-cases (is_before e d)) [
  | inl before ↦ rw before (
    All-insert_row (IsOlder e) d es (is_before-IsOlder e d before) h.0,
    insert_row-IsOrdered d es h.1,
  )
  | inr after ↦
      let older = not_before-IsOlder e d after in
      rw after ((older, All-map _ _ es (λ x k. IsOlder-trans d e x older k) h.0), h)
]

pub order_rows-IsOrdered : (ds : List Delivery) → IsOrdered (order_rows ds)
unfolding order_rows
order_rows-IsOrdered [] = tt
order_rows-IsOrdered (d ∷ ds) = insert_row-IsOrdered d (order_rows ds) (order_rows-IsOrdered ds)

pub All-HasRow :
    (P : Delivery → Type 0) (ds : List Delivery) (x : Delivery) → All P ds → HasRow ds x → P x
All-HasRow P [] x h i = absurd i
All-HasRow P (d ∷ ds) x h (inl a) = subst P a h.0
All-HasRow P (d ∷ ds) x h (inr b) = All-HasRow P ds x h.1 b

-- A row of an ordered list is among the first, or these are as many as asked for and no younger.
pub take_rows_oldest :
    (n : ℕ) (ds : List Delivery) (x : Delivery)
    → IsOrdered ds
    → HasRow ds x
    → HasRow (take_rows n ds) x
      ⊎ ((length (take_rows n ds) ≡ n) × All (λ y. IsOlder y x) (take_rows n ds))
unfolding take_rows
take_rows_oldest zero ds x o h = inr (refl, tt)
take_rows_oldest (suc n) [] x o h = absurd h
take_rows_oldest (suc n) (d ∷ ds) x o (inl a) = inl (inl a)
take_rows_oldest (suc n) (d ∷ ds) x o (inr b) = elim (take_rows_oldest n ds x o.1 b) [
  | inl sent ↦ inl (inr sent)
  | inr (full, older) ↦ inr (omega arith, (All-HasRow (IsOlder d) ds x o.0 b, older))
]
