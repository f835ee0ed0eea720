-- ===== src/Access.antt =====
-- Who may do what: apps/sso/worker/roles.ts, with `accountAccessLevel` of account-access.ts and
-- `normalizeEmail` of config.ts. A text is the list of its code units.
pub mod Hierarchy
pub mod Gate
pub mod Registration
pub mod Directory
pub mod SignIn
mod Examples
use sso_pg72_tw.Common.{
  ℕ, ◌+◌, ◌==◌, ◌||◌, ◌&&◌, not, Bool, true, false, String, Option, none, some, List, [], ◌∷◌, leb,
  if◌then◌else◌,
}
use mathlib.Core.List.{map, reverse}
use text.Mathlib.Text.{◌==◌ as str_eq}

pub data PlatformRole : Type 0 where
  bootadmin admin developer user : PlatformRole

pub data AdminPermission : Type 0 where
  clients_manage clients_manage_all users_read users_invite users_manage : AdminPermission
  users_assign_roles : AdminPermission

abbrev pub same_role : PlatformRole → PlatformRole → Bool
same_role bootadmin bootadmin = true
same_role admin admin = true
same_role developer developer = true
same_role user user = true
same_role _ _ = false

abbrev pub same_permission : AdminPermission → AdminPermission → Bool
same_permission clients_manage clients_manage = true
same_permission clients_manage_all clients_manage_all = true
same_permission users_read users_read = true
same_permission users_invite users_invite = true
same_permission users_manage users_manage = true
same_permission users_assign_roles users_assign_roles = true
same_permission _ _ = false

-- `list.includes(value)`
abbrev pub includes : {A : Type 0} → (A → A → Bool) → List A → A → Bool
includes same [] a = false
includes same (x ∷ xs) a = same x a || includes same xs a

abbrev every_permission : List AdminPermission
every_permission =
    clients_manage ∷ clients_manage_all ∷ users_read ∷ users_invite ∷ users_manage
    ∷ users_assign_roles ∷ []

-- `ROLE_PERMISSIONS`
abbrev pub role_permissions : PlatformRole → List AdminPermission
role_permissions bootadmin = every_permission
role_permissions admin = every_permission
role_permissions developer = clients_manage ∷ []
role_permissions user = []

-- `ASSIGNABLE_ROLES`
abbrev pub assignable_roles : PlatformRole → List PlatformRole
assignable_roles bootadmin = admin ∷ developer ∷ user ∷ []
assignable_roles admin = developer ∷ user ∷ []
assignable_roles developer = []
assignable_roles user = []

unfoldable pub has_permission : PlatformRole → AdminPermission → Bool
has_permission role permission = includes same_permission (role_permissions role) permission

pub data AccountAccessLevel : Type 0 where
  standard restricted : AccountAccessLevel

-- A value that comes out of the database untyped.
pub data Stored : Type 0 where
  spelled : String → Stored
  no_text : Stored

unfoldable pub account_access_level : Stored → AccountAccessLevel
account_access_level (spelled s) = if str_eq s "standard" then standard else restricted
account_access_level no_text = restricted

-- `isPlatformRole`, with the role that the text spells.
unfoldable pub platform_role : Stored → Option PlatformRole
platform_role (spelled s) =
    if str_eq s "bootadmin"
    then some bootadmin
    else if str_eq s "admin"
    then some admin
    else if str_eq s "developer"
    then some developer
    else if str_eq s "user"
    then some user
    else none
platform_role no_text = none

-- `String.prototype.trim` and `toLowerCase` on the code units of ASCII and the white space of
-- JavaScript up to U+00A0.
abbrev is_space : ℕ → Bool
is_space c = (leb 9 c && leb c 13) || (c == 32 || c == 160)

unfoldable pub trim_start : List ℕ → List ℕ
trim_start [] = []
trim_start (c ∷ cs) = if is_space c then trim_start cs else c ∷ cs

unfoldable pub trim : List ℕ → List ℕ
unfolding trim_start
trim s = reverse (trim_start (reverse (trim_start s)))

unfoldable pub to_lower : ℕ → ℕ
to_lower c = if leb b'A' c && leb c b'Z' then c + 32 else c

unfoldable pub normalize_email : List ℕ → List ℕ
unfolding trim to_lower
normalize_email email = map to_lower (trim email)

unfoldable pub same_text : List ℕ → List ℕ → Bool
same_text [] [] = true
same_text (a ∷ as') (b ∷ bs) = a == b && same_text as' bs
same_text _ _ = false

-- What remains once the email is not the bootstrap administrator's and the account is standard.
abbrev standard_role : Option PlatformRole → PlatformRole
standard_role none = user
standard_role (some bootadmin) = admin
standard_role (some role) = role

abbrev pub capped_role : AccountAccessLevel → Option PlatformRole → PlatformRole
capped_role restricted role = user
capped_role standard role = standard_role role

unfoldable pub effective_platform_role :
    Stored → List ℕ → (bootstrap_admin_email : List ℕ) → AccountAccessLevel → PlatformRole
effective_platform_role stored email bootstrap level =
    if same_text (normalize_email email) bootstrap
    then bootadmin
    else capped_role level (platform_role stored)

pub data AdminActionDenial : Type 0 where
  bootadmin_protected cannot_modify_self restricted_account : AdminActionDenial
  role_not_assignable : AdminActionDenial

pub record RoleChangeRequest : Type 0 where
  pub actor_role : PlatformRole
  pub actor_user_id : ℕ
  pub next_role : PlatformRole
  pub target_protected : Bool
  pub target_role : PlatformRole
  pub target_user_id : ℕ

unfoldable pub deny_user_management :
    (actor : ℕ) → (protected : Bool) → (target : ℕ) → Option AdminActionDenial
deny_user_management actor protected target =
    if protected
    then some bootadmin_protected
    else if actor == target
    then some cannot_modify_self
    else none

unfoldable pub deny_role_change : RoleChangeRequest → Option AdminActionDenial
deny_role_change r =
    if r.target_protected
    then some bootadmin_protected
    else if r.actor_user_id == r.target_user_id
    then some cannot_modify_self
    else if not (includes same_role (assignable_roles r.actor_role) r.next_role)
        || not (includes same_role (assignable_roles r.actor_role) r.target_role)
    then some role_not_assignable
    else none
