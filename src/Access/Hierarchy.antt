-- ===== src/Access/Hierarchy.antt =====
-- The hierarchy of the platform roles: what the permission and role tables amount to.
use sso_pg72_tw.Common.{
  ℕ, ◌≤◌, ◌<◌, ◌≡◌, refl, ◌≢◌, ◌↔◌, true, false, List, [], ◌∷◌, Option, none, some, arith,
  Bool-cases, inl, inr,
}
use sso_pg72_tw.Access.{
  PlatformRole, bootadmin, admin, developer, user, AdminPermission, has_permission, Stored,
  AccountAccessLevel, standard, restricted, platform_role, capped_role, same_text, normalize_email,
  effective_platform_role, RoleChangeRequest, deny_role_change,
}

abbrev pub rank : PlatformRole → ℕ
rank user = 0
rank developer = 1
rank admin = 2
rank bootadmin = 3

pub same_text_iff : (a b : List ℕ) → (same_text a b ≡ true) ↔ (a ≡ b)
unfolding same_text
same_text_iff [] [] = (λ h. refl, λ h. refl)
same_text_iff [] (b ∷ bs) = (λ h. cc, λ h. cc)
same_text_iff (a ∷ xs) [] = (λ h. cc, λ h. cc)
same_text_iff (a ∷ xs) (b ∷ bs) =
    let (to, from) = same_text_iff xs bs in (λ h. ground (arith, to), λ h. ground (arith, from))

capped_role-ne-bootadmin :
    (level : AccountAccessLevel) (role : Option PlatformRole) → capped_role level role ≢ bootadmin
capped_role-ne-bootadmin restricted role e = cc
capped_role-ne-bootadmin standard none e = cc
capped_role-ne-bootadmin standard (some bootadmin) e = cc
capped_role-ne-bootadmin standard (some admin) e = cc
capped_role-ne-bootadmin standard (some developer) e = cc
capped_role-ne-bootadmin standard (some user) e = cc

-- An account is the bootstrap administrator exactly if its normalised email is the configured one,
-- whatever its row says.
pub effective_platform_role-bootadmin_iff :
    (stored : Stored) (email bootstrap : List ℕ) (level : AccountAccessLevel)
    → (effective_platform_role stored email bootstrap level ≡ bootadmin)
      ↔ (normalize_email email ≡ bootstrap)
unfolding effective_platform_role
effective_platform_role-bootadmin_iff stored email bootstrap level =
    let (to, from) = same_text_iff (normalize_email email) bootstrap in
    (
      λ h. elim (Bool-cases (same_text (normalize_email email) bootstrap)) [
        | inl same ↦ to same
        | inr other ↦ absurd (capped_role-ne-bootadmin level (platform_role stored) (rw other at h))
      ],
      λ h. rw (from h),
    )

-- A restricted account other than the bootstrap administrator's has no permission at all, whatever
-- role its row keeps.
pub effective_platform_role-restricted :
    (stored : Stored) (email bootstrap : List ℕ) (p : AdminPermission)
    → normalize_email email ≢ bootstrap
    → has_permission (effective_platform_role stored email bootstrap restricted) p ≡ false
unfolding effective_platform_role has_permission
effective_platform_role-restricted stored email bootstrap p other =
    elim (Bool-cases (same_text (normalize_email email) bootstrap)) [
      | inl same ↦ absurd (other ((same_text_iff (normalize_email email) bootstrap).0 same))
      | inr differs ↦ rw differs
    ]

-- A role change is allowed exactly if the target is not protected and not the actor, and the actor
-- is an administrator who outranks both the role the target has and the one it is to get.
pub deny_role_change-none_iff :
    (r : RoleChangeRequest)
    → (deny_role_change r ≡ none) ↔ (
        (r.target_protected ≡ false)
        × (r.actor_user_id ≢ r.target_user_id)
        × (rank admin ≤ rank r.actor_role)
        × (rank r.next_role < rank r.actor_role)
        × (rank r.target_role < rank r.actor_role))
unfolding deny_role_change
deny_role_change-none_iff r = (λ h. ground arith, λ h. ground arith)
