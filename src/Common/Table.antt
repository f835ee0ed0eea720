-- ===== src/Common/Table.antt =====
-- A database table as a list of rows: the statements that the worker sends to D1 update, count or
-- find the rows that pass a test.
use Prim.Native.Nat.{ℕ, suc}
use mathlib.Core.Path.{◌≡◌, refl}
use mathlib.Core.Logic.{◌⊎◌, inl, inr}
use mathlib.Core.Bool.{Bool, true, false}
use mathlib.Core.Option.{Option, none, some}
use mathlib.Core.List.{List, [], ◌∷◌, ◌++◌}
use native.Mathlib.Omega.{arith}
use sso_pg72_tw.Common.Tests.{if◌then◌else◌, Bool-cases}
use sso_pg72_tw.Common.Lists.{All}

module _ {ℓ} {A : Type ℓ} where
  -- `UPDATE … SET … WHERE …`
  unfoldable pub update_where : (A → Bool) → (A → A) → List A → List A
  update_where test f [] = []
  update_where test f (x ∷ xs) = (if test x then f x else x) ∷ update_where test f xs

  -- The number of rows that a statement changes.
  unfoldable pub count_where : (A → Bool) → List A → ℕ
  count_where test [] = 0
  count_where test (x ∷ xs) = let rest = count_where test xs in if test x then suc rest else rest

  -- `SELECT … WHERE … LIMIT 1`
  unfoldable pub find_where : (A → Bool) → List A → Option A
  find_where test [] = none
  find_where test (x ∷ xs) = if test x then some x else find_where test xs

  -- `EXISTS (SELECT 1 FROM … WHERE …)`
  unfoldable pub exists_where : (A → Bool) → List A → Bool
  exists_where test [] = false
  exists_where test (x ∷ xs) = if test x then true else exists_where test xs

  pub update_where-none :
      (test : A → Bool) (f : A → A) (xs : List A)
      → All (λ x. test x ≡ false) xs
      → update_where test f xs ≡ xs
  unfolding update_where
  update_where-none test f [] h = refl
  update_where-none test f (x ∷ xs) h = rw (h.0, update_where-none test f xs h.1)

  pub count_where-none :
      (test : A → Bool) (xs : List A) → All (λ x. test x ≡ false) xs → count_where test xs ≡ 0
  unfolding count_where
  count_where-none test [] h = refl
  count_where-none test (x ∷ xs) h = rw (h.0, count_where-none test xs h.1)

  pub All-of-count_where :
      (test : A → Bool) (xs : List A) → count_where test xs ≡ 0 → All (λ x. test x ≡ false) xs
  unfolding count_where
  All-of-count_where test [] h = tt
  All-of-count_where test (x ∷ xs) h = elim (Bool-cases (test x)) [
    | inl t ↦ absurd (ground arith)
    | inr f ↦ (f, All-of-count_where test xs (rw f at h))
  ]

  pub find_where-none :
      (test : A → Bool) (xs : List A) → All (λ x. test x ≡ false) xs → find_where test xs ≡ none
  unfolding find_where
  find_where-none test [] h = refl
  find_where-none test (x ∷ xs) h = rw h.0 (find_where-none test xs h.1)

  pub exists_where-none :
      (test : A → Bool) (xs : List A) → exists_where test xs ≡ false → All (λ x. test x ≡ false) xs
  unfolding exists_where
  exists_where-none test [] h = tt
  exists_where-none test (x ∷ xs) h = ground (arith, exists_where-none test xs)

  pub find_where-test :
      (test : A → Bool) (xs : List A) (x : A) → find_where test xs ≡ some x → test x ≡ true
  unfolding find_where
  find_where-test test [] x h = cc
  find_where-test test (y ∷ xs) x h = elim (Bool-cases (test y)) [
    | inl t ↦ ground arith
    | inr f ↦ find_where-test test xs x (rw f at h)
  ]

module _ {ℓ κ} {A : Type ℓ} (P : A → Type κ) where
  pub All-update_where :
      (test : A → Bool) (f : A → A) (xs : List A)
      → ((x : A) → test x ≡ true → P x → P (f x))
      → All P xs
      → All P (update_where test f xs)
  unfolding update_where
  All-update_where test f [] keep h = tt
  All-update_where test f (x ∷ xs) keep h =
      (here (Bool-cases (test x)), All-update_where test f xs keep h.1)
    where
      here : (test x ≡ true) ⊎ (test x ≡ false) → P (if test x then f x else x)
      here (inl t) = rw t (keep x t h.0)
      here (inr u) = rw u h.0

  pub All-find_where :
      (test : A → Bool) (xs : List A) (x : A) → find_where test xs ≡ some x → All P xs → P x
  unfolding find_where
  All-find_where test [] x e h = cc
  All-find_where test (y ∷ xs) x e h = elim (Bool-cases (test y)) [
    | inl t ↦ let same : y ≡ x = ground arith in rw (← same) h.0
    | inr f ↦ All-find_where test xs x (rw f at e) h.1
  ]

module _ {ℓ} {A : Type ℓ} where
  -- A column that a statement does not set is as it was.
  pub count_where-update_where :
      (column test : A → Bool) (f : A → A) (xs : List A)
      → ((x : A) → column (f x) ≡ column x)
      → count_where column (update_where test f xs) ≡ count_where column xs
  unfolding count_where update_where
  count_where-update_where column test f [] same = refl
  count_where-update_where column test f (x ∷ xs) same =
      let rest = count_where-update_where column test f xs same in
      elim (Bool-cases (test x)) [ inl t ↦ rw (t, same x, rest) | inr u ↦ rw (u, rest) ]

module _ {ℓ} {A : Type ℓ} (test : A → Bool) where
  -- A row at the end of a table, the only one that passes.
  pub count_where-last :
      (xs : List A) (a : A)
      → All (λ x. test x ≡ false) xs
      → test a ≡ true
      → count_where test (xs ++ a ∷ []) ≡ 1
  unfolding count_where
  count_where-last [] a h t = rw t
  count_where-last (x ∷ xs) a h t = rw h.0 (count_where-last xs a h.1 t)

  pub exists_where-last :
      (change : A → A) (shown : A → Bool) (xs : List A) (a : A)
      → test a ≡ true
      → shown (change a) ≡ true
      → exists_where shown (update_where test change (xs ++ a ∷ [])) ≡ true
  unfolding exists_where update_where
  exists_where-last change shown [] a t e = rw (t, e)
  exists_where-last change shown (x ∷ xs) a t e =
      elim (Bool-cases (shown (if test x then change x else x))) [
        | inl here ↦ rw here
        | inr later ↦ rw later (exists_where-last change shown xs a t e)
      ]
