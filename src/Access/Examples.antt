-- ===== src/Access/Examples.antt =====
-- Requests, registrations and role changes that apps/sso/worker/roles.ts, admin-gate.ts and
-- registration.ts let through.
use sso_pg72_tw.Common.{
  ℕ, ◌≤◌, ◌<◌, ◌≡◌, ◌≢◌, ◌↔◌, refl, true, false, none, some, List, [], ◌∷◌, arith, Result, zero,
  suc,
}
use sso_pg72_tw.Access.{
  PlatformRole, AdminPermission, Stored, AccountAccessLevel, RoleChangeRequest, deny_role_change,
  has_permission, normalize_email, trim, trim_start, to_lower, same_text, effective_platform_role,
  account_access_level, platform_role,
}
use sso_pg72_tw.Access.Hierarchy.{
  rank, effective_platform_role-bootadmin_iff, effective_platform_role-restricted,
  deny_role_change-none_iff,
}
use sso_pg72_tw.Access.SignIn.{
  SessionUserRow, assert_session_user_active, assert_session_user_active-effective,
}
use sso_pg72_tw.Access.Directory.{Directory, Changes, assign, assigns, Changes-SameFrom}
use sso_pg72_tw.Access.Gate.{
  UserRow, Request, Options, AdminActor, AdminGate, Admits, consumes_rate_limit,
  require_admin_permission, require_admin_permission-Admits, require_admin_permission-admitted,
  gate_from, check_user, check_permission, check_step_up, actor_of,
}
use sso_pg72_tw.Access.Registration.{
  RegistrationMode, RegistrationInput, LegalAcceptance, Surroundings, RegistrationGrant,
  authorize_registration, with_intent, with_invitation, is_bootstrap, IsEntitled,
  authorize_registration-IsEntitled,
}

-- " Boss@x.tw" and "boss@x.tw".
abbrev typed : List ℕ
typed = 32 ∷ 66 ∷ 111 ∷ 115 ∷ 115 ∷ 64 ∷ 120 ∷ 46 ∷ 116 ∷ 119 ∷ []

abbrev boss : List ℕ
boss = 98 ∷ 111 ∷ 115 ∷ 115 ∷ 64 ∷ 120 ∷ 46 ∷ 116 ∷ 119 ∷ []

abbrev other : List ℕ
other = 97 ∷ 64 ∷ 120 ∷ []

effective_platform_role-bootadmin_iff_example :
    (effective_platform_role (Stored.spelled "user") typed boss AccountAccessLevel.restricted
      ≡ PlatformRole.bootadmin)
    ↔ (normalize_email typed ≡ boss)
effective_platform_role-bootadmin_iff_example =
    effective_platform_role-bootadmin_iff (Stored.spelled "user") typed boss
      AccountAccessLevel.restricted

typed_is_boss : normalize_email typed ≡ boss
unfolding normalize_email trim trim_start to_lower
typed_is_boss = refl

other_is_not : normalize_email other ≢ boss
unfolding normalize_email trim trim_start to_lower
other_is_not e = cc

effective_platform_role-restricted_example :
    has_permission
      (effective_platform_role (Stored.spelled "admin") other boss AccountAccessLevel.restricted)
      AdminPermission.users_read
    ≡ false
effective_platform_role-restricted_example =
    effective_platform_role-restricted (Stored.spelled "admin") other boss
      AdminPermission.users_read other_is_not

abbrev promotion : RoleChangeRequest
promotion = record {
  actor_role = PlatformRole.admin;
  actor_user_id = 1;
  next_role = PlatformRole.developer;
  target_protected = false;
  target_role = PlatformRole.user;
  target_user_id = 2;
}

deny_role_change-none_iff_example : (deny_role_change promotion ≡ none) ↔ (
    (promotion.target_protected ≡ false)
    × (promotion.actor_user_id ≢ promotion.target_user_id)
    × (rank PlatformRole.admin ≤ rank promotion.actor_role)
    × (rank promotion.next_role < rank promotion.actor_role)
    × (rank promotion.target_role < rank promotion.actor_role))
deny_role_change-none_iff_example = deny_role_change-none_iff promotion

abbrev role_at : ℕ → PlatformRole
role_at zero = PlatformRole.bootadmin
role_at (suc zero) = PlatformRole.admin
role_at _ = PlatformRole.user

abbrev staff : Directory
staff = record { role_of = role_at; is_protected = λ u. false }

abbrev promoted : Directory
promoted = assign staff 2 PlatformRole.developer

one_promotion : Changes 2 staff promoted
unfolding deny_role_change
one_promotion = Changes.more Changes.here (assigns 1 2 PlatformRole.developer (omega arith) refl)

Changes-SameFrom_example :
    (2 ≤ rank (staff.role_of 2) → promoted.role_of 2 ≡ staff.role_of 2)
    × (2 ≤ rank (promoted.role_of 2) → promoted.role_of 2 ≡ staff.role_of 2)
Changes-SameFrom_example = Changes-SameFrom 2 staff promoted 2 one_promotion

abbrev row : UserRow
row = record {
  access_level = Stored.spelled "standard";
  email = other;
  role = Stored.spelled "admin";
  is_active = true;
}

abbrev visit : Request
visit = record {
  session = some (record { session_id = 7; user_id = 1; created_at = some 1000 });
  current_user = some row;
  bootstrap_admin_email = boss;
  rate_limit_success = true;
  now = 2000;
  step_up = some (record { has_passkey = true; verified = true });
}

abbrev strict : Options
strict = record { fresh = true; passkey_step_up = true }

abbrev actor : AdminActor
actor = record {
  expected_email = other;
  expected_role = Stored.spelled "admin";
  session_id = 7;
  role = PlatformRole.admin;
  user_id = 1;
}

visit_admitted :
    require_admin_permission AdminPermission.users_manage strict visit
    ≡ (consumes_rate_limit ∷ [], AdminGate.admitted actor)
unfolding require_admin_permission gate_from check_user check_permission check_step_up actor_of
    effective_platform_role account_access_level platform_role normalize_email trim trim_start
    to_lower same_text has_permission
visit_admitted = refl

visit-Admits : Admits AdminPermission.users_manage strict visit actor
unfolding require_admin_permission gate_from check_user check_permission check_step_up actor_of
    effective_platform_role account_access_level platform_role normalize_email trim trim_start
    to_lower same_text has_permission
visit-Admits = require_admin_permission-Admits AdminPermission.users_manage strict visit actor refl

require_admin_permission-Admits_example : Admits AdminPermission.users_manage strict visit actor
unfolding require_admin_permission gate_from check_user check_permission check_step_up actor_of
    effective_platform_role account_access_level platform_role normalize_email trim trim_start
    to_lower same_text has_permission
require_admin_permission-Admits_example =
    require_admin_permission-Admits AdminPermission.users_manage strict visit actor refl

require_admin_permission-admitted_example :
    require_admin_permission AdminPermission.users_manage strict visit
    ≡ (consumes_rate_limit ∷ [], AdminGate.admitted actor)
require_admin_permission-admitted_example =
    require_admin_permission-admitted AdminPermission.users_manage strict visit actor visit-Admits

abbrev acceptance : LegalAcceptance
acceptance = record { accepted_at = 5; privacy_version = "2026-01"; terms_version = "2026-01" }

abbrev open_house : Surroundings
open_house = record {
  mode = RegistrationMode.public_mode;
  bootstrap_admin_email = boss;
  rate_limit_success = true;
  intent = Result.ok acceptance;
  invitation = none;
}

abbrev newcomer : RegistrationInput
newcomer = record { email = other; email_verified = true; provider_id = some "google" }

abbrev grant : RegistrationGrant
grant = record {
  legal = some acceptance;
  access_level = AccountAccessLevel.restricted;
  role = PlatformRole.user;
}

authorize_registration-IsEntitled_example : IsEntitled open_house newcomer grant
unfolding authorize_registration with_intent with_invitation is_bootstrap normalize_email trim
    trim_start to_lower same_text
authorize_registration-IsEntitled_example =
    authorize_registration-IsEntitled open_house newcomer grant refl

-- The bootstrap administrator, whose row still has an old role.
abbrev old_row : SessionUserRow
old_row = record { email = typed; role = Stored.spelled "admin"; is_active = true }

assert_session_user_active-effective_example :
    (before : SessionUserRow) × (after : SessionUserRow) × (some old_row ≡ some before)
    × ((assert_session_user_active boss (some old_row)).0 ≡ some after)
    × (before.is_active ≡ true)
    × (after.is_active ≡ true)
    × (after.email ≡ before.email)
    × ((level : AccountAccessLevel)
        → effective_platform_role after.role after.email boss level
          ≡ effective_platform_role before.role before.email boss level)
unfolding assert_session_user_active
assert_session_user_active-effective_example =
    assert_session_user_active-effective boss (some old_row) refl
