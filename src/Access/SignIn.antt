-- ===== src/Access/SignIn.antt =====
-- The guard of every sign-in: `assertSessionUserActive` of apps/sso/worker/registration.ts, with the
-- row of the user as its state.
use sso_pg72_tw.Common.{
  ℕ, ◌≡◌, refl, ◌&&◌, not, Bool, true, false, Option, none, some, List, if◌then◌else◌, arith, inl,
  inr, Bool-cases, Result, ok, throw, ◌∙◌,
}
use text.Mathlib.Text.{◌==◌ as str_eq}
use sso_pg72_tw.Access.{
  Stored, spelled, no_text, AccountAccessLevel, normalize_email, same_text, effective_platform_role,
}

pub record SessionUserRow : Type 0 where
  pub email : List ℕ
  pub role : Stored
  pub is_active : Bool

-- `role === "bootadmin"`
abbrev pub is_stored_bootadmin : Stored → Bool
is_stored_bootadmin (spelled s) = str_eq s "bootadmin"
is_stored_bootadmin no_text = false

unfoldable pub promote : List ℕ → SessionUserRow → SessionUserRow
promote bootstrap u =
    if same_text (normalize_email u.email) bootstrap && not (is_stored_bootadmin u.role)
    then record u { role = spelled "bootadmin" }
    else u

-- The row after the guard, and its result.
unfoldable pub assert_session_user_active :
    List ℕ → Option SessionUserRow → Option SessionUserRow × Result (Unit {0})
assert_session_user_active bootstrap none = (none, throw "ACCOUNT_SUSPENDED")
assert_session_user_active bootstrap (some u) =
    if not u.is_active
    then (some u, throw "ACCOUNT_SUSPENDED")
    else (some (promote bootstrap u), ok tt)

promote_effective :
    (bootstrap : List ℕ) (u : SessionUserRow) (level : AccountAccessLevel)
    → effective_platform_role (promote bootstrap u).role (promote bootstrap u).email bootstrap level
      ≡ effective_platform_role u.role u.email bootstrap level
unfolding promote effective_platform_role
promote_effective bootstrap u level =
    elim (Bool-cases (same_text (normalize_email u.email) bootstrap)) [
      | inl same ↦ elim (Bool-cases (is_stored_bootadmin u.role)) [
        | inl already ↦ rw (same, already) (rw same)
        | inr not_yet ↦ rw (same, not_yet) (rw same)
      ]
      | inr other ↦ rw other (rw other)
    ]

promote_active :
    (bootstrap : List ℕ) (u : SessionUserRow) → (promote bootstrap u).is_active ≡ u.is_active
unfolding promote
promote_active bootstrap u = ground arith

promote_email : (bootstrap : List ℕ) (u : SessionUserRow) → (promote bootstrap u).email ≡ u.email
unfolding promote
promote_email bootstrap u = ground arith

-- A session begins only for an active account, which stays active under the same email; what the
-- guard writes to the row changes the effective role of no account, at any access level.
pub assert_session_user_active-effective :
    (bootstrap : List ℕ) (u : Option SessionUserRow)
    → (assert_session_user_active bootstrap u).1 ≡ ok tt
    → (before : SessionUserRow) × (after : SessionUserRow) × (u ≡ some before)
      × ((assert_session_user_active bootstrap u).0 ≡ some after)
      × (before.is_active ≡ true)
      × (after.is_active ≡ true)
      × (after.email ≡ before.email)
      × ((level : AccountAccessLevel)
          → effective_platform_role after.role after.email bootstrap level
            ≡ effective_platform_role before.role before.email bootstrap level)
unfolding assert_session_user_active
assert_session_user_active-effective bootstrap none h = cc
assert_session_user_active-effective bootstrap (some u) h =
    let active : u.is_active ≡ true = ground arith in
    (
      u,
      promote bootstrap u,
      refl,
      rw active,
      active,
      promote_active bootstrap u ∙ active,
      promote_email bootstrap u,
      promote_effective bootstrap u,
    )
