-- ===== src/Logout/Dispatch/Selection.antt =====
-- What `enqueueDueLogoutDeliveries` of apps/sso/worker/global-logout.ts selects and counts.
use sso_pg72_tw.Common.{
  ℕ, ◌≤◌, ◌≡◌, ◌⊎◌, inl, inr, Bool, true, List, [], ◌∷◌, arith, length, Any, Bool-cases, suc, zero,
}
use sso_pg72_tw.Logout.{Delivery}
use sso_pg72_tw.Logout.Dispatch.{is_before, insert_row, order_rows, select_where, take_rows}

abbrev pub HasRow : List Delivery → Delivery → Type 0
HasRow ds x = Any (λ y. y ≡ x) ds

insert_row-from :
    (d x : Delivery) (es : List Delivery) → HasRow (insert_row d es) x → (d ≡ x) ⊎ HasRow es x
unfolding insert_row
insert_row-from d x [] h = h
insert_row-from d x (e ∷ es) h = elim (Bool-cases (is_before e d)) [
  | inl before ↦ elim (rw before at h) [
    | inl here ↦ inr (inl here)
    | inr later ↦ elim (insert_row-from d x es later) [ inl a ↦ inl a | inr b ↦ inr (inr b) ]
  ]
  | inr after ↦ rw after at h
]

insert_row-to :
    (d x : Delivery) (es : List Delivery) → (d ≡ x) ⊎ HasRow es x → HasRow (insert_row d es) x
unfolding insert_row
insert_row-to d x [] h = h
insert_row-to d x (e ∷ es) h = elim (Bool-cases (is_before e d)) [
  | inl before ↦ rw before (elim h [
    | inl a ↦ inr (insert_row-to d x es (inl a))
    | inr (inl b) ↦ inl b
    | inr (inr c) ↦ inr (insert_row-to d x es (inr c))
  ])
  | inr after ↦ rw after h
]

pub order_rows-from : (ds : List Delivery) (x : Delivery) → HasRow (order_rows ds) x → HasRow ds x
unfolding order_rows
order_rows-from [] x h = h
order_rows-from (d ∷ ds) x h = elim (insert_row-from d x (order_rows ds) h) [
  | inl a ↦ inl a
  | inr b ↦ inr (order_rows-from ds x b)
]

pub order_rows-to : (ds : List Delivery) (x : Delivery) → HasRow ds x → HasRow (order_rows ds) x
unfolding order_rows
order_rows-to [] x h = h
order_rows-to (d ∷ ds) x (inl a) = insert_row-to d x (order_rows ds) (inl a)
order_rows-to (d ∷ ds) x (inr b) = insert_row-to d x (order_rows ds) (inr (order_rows-to ds x b))

pub select_where-from :
    (test : Delivery → Bool) (ds : List Delivery) (x : Delivery)
    → HasRow (select_where test ds) x
    → HasRow ds x × (test x ≡ true)
unfolding select_where
select_where-from test [] x h = absurd h
select_where-from test (d ∷ ds) x h = elim (Bool-cases (test d)) [
  | inl t ↦ elim (rw t at h) [
    | inl a ↦ (inl a, rw (← a) t)
    | inr b ↦ let (there, passes) = select_where-from test ds x b in (inr there, passes)
  ]
  | inr f ↦ let (there, passes) = select_where-from test ds x (rw f at h) in (inr there, passes)
]

pub select_where-to :
    (test : Delivery → Bool) (ds : List Delivery) (x : Delivery)
    → test x ≡ true
    → HasRow ds x
    → HasRow (select_where test ds) x
unfolding select_where
select_where-to test [] x t h = h
select_where-to test (d ∷ ds) x t (inl a) = let here : test d ≡ true = rw a t in rw here (inl a)
select_where-to test (d ∷ ds) x t (inr b) = elim (Bool-cases (test d)) [
  | inl p ↦ rw p (inr (select_where-to test ds x t b))
  | inr f ↦ rw f (select_where-to test ds x t b)
]

pub take_rows-from :
    (n : ℕ) (ds : List Delivery) (x : Delivery) → HasRow (take_rows n ds) x → HasRow ds x
unfolding take_rows
take_rows-from zero ds x h = absurd h
take_rows-from (suc n) [] x h = h
take_rows-from (suc n) (d ∷ ds) x (inl a) = inl a
take_rows-from (suc n) (d ∷ ds) x (inr b) = inr (take_rows-from n ds x b)

pub length-take_rows : (n : ℕ) (ds : List Delivery) → length (take_rows n ds) ≤ n
unfolding take_rows
length-take_rows zero ds = omega arith
length-take_rows (suc n) [] = omega arith
length-take_rows (suc n) (d ∷ ds) = omega (arith, length-take_rows n ds)
