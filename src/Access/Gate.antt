-- ===== src/Access/Gate.antt =====
-- `requireAdminPermission` of apps/sso/worker/admin-gate.ts. What it reads (the session, the user
-- row, the rate limiter, the step-up state, the clock) is its argument; what it writes is the list
-- of its effects.
use sso_pg72_tw.Common.{
  ℕ, ◌-◌, ◌≡◌, ◌&&◌, not, Bool, true, false, Option, none, some, List, [], ◌∷◌, leb, ltb,
  if◌then◌else◌, arith, Bool-cases, inl, inr, refl,
}
use sso_pg72_tw.Access.{
  PlatformRole, AdminPermission, has_permission, AccountAccessLevel, standard, restricted, Stored,
  account_access_level, effective_platform_role,
}

-- `createdAt` is `none` where the time is not finite.
pub record Session : Type 0 where
  pub session_id : ℕ
  pub user_id : ℕ
  pub created_at : Option ℕ

pub record UserRow : Type 0 where
  pub access_level : Stored
  pub email : List ℕ
  pub role : Stored
  pub is_active : Bool

-- `readPasskeyStepUpState`, where it finds the session.
pub record StepUp : Type 0 where
  pub has_passkey : Bool
  pub verified : Bool

pub record Request : Type 0 where
  pub session : Option Session
  pub current_user : Option UserRow
  pub bootstrap_admin_email : List ℕ
  pub rate_limit_success : Bool
  pub now : ℕ
  pub step_up : Option StepUp

pub record Options : Type 0 where
  pub fresh : Bool
  pub passkey_step_up : Bool

pub record AdminActor : Type 0 where
  pub expected_email : List ℕ
  pub expected_role : Stored
  pub session_id : ℕ
  pub role : PlatformRole
  pub user_id : ℕ

pub data Refusal : Type 0 where
  unauthorized forbidden rate_limited session_not_fresh : Refusal
  passkey_enrollment_required passkey_step_up_required : Refusal

pub data AdminGate : Type 0 where
  admitted : AdminActor → AdminGate
  refused : Refusal → AdminGate

pub data Effect : Type 0 where
  consumes_rate_limit records_restricted_denial : Effect

abbrev pub fresh_session_max_age_ms : ℕ
fresh_session_max_age_ms = 600000

abbrev pub is_fresh : Option ℕ → ℕ → Bool
is_fresh none now = false
is_fresh (some created) now = leb created now && ltb (now - created) fresh_session_max_age_ms

-- The checks of `options.passkeyStepUp`, and then the result.
unfoldable pub check_step_up : Bool → Option StepUp → AdminActor → AdminGate
check_step_up false step_up actor = admitted actor
check_step_up true none actor = refused unauthorized
check_step_up true (some u) actor =
    if not u.has_passkey
    then refused passkey_enrollment_required
    else if not u.verified
    then refused passkey_step_up_required
    else admitted actor

unfoldable pub check_permission :
    AdminPermission → Options → Request → Session → AdminActor → AdminGate
unfolding check_step_up
check_permission p o r session actor =
    if not (has_permission actor.role p)
    then refused forbidden
    else if o.fresh && not (is_fresh session.created_at r.now)
    then refused session_not_fresh
    else check_step_up o.passkey_step_up r.step_up actor

abbrev is_restricted : AccountAccessLevel → Bool
is_restricted restricted = true
is_restricted standard = false

unfoldable pub actor_of : Request → Session → UserRow → AdminActor
actor_of r session u = record {
  expected_email = u.email;
  expected_role = u.role;
  session_id = session.session_id;
  role =
      effective_platform_role u.role u.email r.bootstrap_admin_email
        (account_access_level u.access_level);
  user_id = session.user_id;
}

unfoldable pub check_user :
    AdminPermission → Options → Request → Session → UserRow → List Effect × AdminGate
unfolding check_permission actor_of
check_user p o r session u =
    if not u.is_active
    then ([], refused forbidden)
    else if not r.rate_limit_success
    then (consumes_rate_limit ∷ [], refused rate_limited)
    else if is_restricted (account_access_level u.access_level)
    then (consumes_rate_limit ∷ records_restricted_denial ∷ [], refused forbidden)
    else (consumes_rate_limit ∷ [], check_permission p o r session (actor_of r session u))

unfoldable pub gate_from :
    AdminPermission → Options → Request → Option Session → Option UserRow → List Effect × AdminGate
unfolding check_user
gate_from p o r none user = ([], refused unauthorized)
gate_from p o r (some session) none = ([], refused forbidden)
gate_from p o r (some session) (some u) = check_user p o r session u

unfoldable pub require_admin_permission :
    AdminPermission → Options → Request → List Effect × AdminGate
unfolding gate_from
require_admin_permission p o r = gate_from p o r r.session r.current_user

-- The row and the session that an admitted request comes with, and what was checked of them.
pub record Admits (p : AdminPermission) (o : Options) (r : Request) (actor : AdminActor)
    : Type 0 where
  pub session : Session
  pub row : UserRow
  pub session_found : r.session ≡ some session
  pub row_found : r.current_user ≡ some row
  pub active : row.is_active ≡ true
  pub within_rate : r.rate_limit_success ≡ true
  pub unrestricted : account_access_level row.access_level ≡ standard
  pub permitted : has_permission actor.role p ≡ true
  pub fresh_enough : o.fresh ≡ true → is_fresh session.created_at r.now ≡ true
  pub stepped_up :
      o.passkey_step_up ≡ true
      → (u : StepUp) × (r.step_up ≡ some u) × (u.has_passkey ≡ true) × (u.verified ≡ true)
  pub actor_is : actor ≡ actor_of r session row

check_step_up-admitted :
    (b : Bool) (s : Option StepUp) (a actor : AdminActor)
    → check_step_up b s a ≡ admitted actor
    → (actor ≡ a)
      × (b ≡ true → (u : StepUp) × (s ≡ some u) × (u.has_passkey ≡ true) × (u.verified ≡ true))
unfolding check_step_up
check_step_up-admitted false s a actor h = (ground arith, λ e. cc)
check_step_up-admitted true none a actor h = cc
check_step_up-admitted true (some u) a actor h =
    (ground arith, λ e. (u, refl, ground arith, ground arith))

is_restricted-false : (l : AccountAccessLevel) → is_restricted l ≡ false → l ≡ standard
is_restricted-false standard h = refl
is_restricted-false restricted h = cc

-- A request is admitted only with a session, the active row of an unrestricted account whose
-- effective role has the permission, within the rate limit, and, where the route asks for it, with a
-- fresh session and a verified passkey; the actor is the one whom the row and the session name.
pub require_admin_permission-Admits :
    (p : AdminPermission) (o : Options) (r : Request) (actor : AdminActor)
    → (require_admin_permission p o r).1 ≡ admitted actor
    → Admits p o r actor
unfolding require_admin_permission
require_admin_permission-Admits p o r actor h = go r.session r.current_user refl refl h
  where
    go :
        (s : Option Session) (u : Option UserRow)
        → r.session ≡ s
        → r.current_user ≡ u
        → (gate_from p o r s u).1 ≡ admitted actor
        → Admits p o r actor
    go none u e f h = cc
    go (some s) none e f h = cc
    go (some s) (some u) e f h =
        let chain : check_step_up o.passkey_step_up r.step_up (actor_of r s u) ≡ admitted actor =
          ground arith in
        let (same, up) =
          check_step_up-admitted o.passkey_step_up r.step_up (actor_of r s u) actor chain in
        record {
          session = s;
          row = u;
          session_found = e;
          row_found = f;
          active = ground arith;
          within_rate = ground arith;
          unrestricted = is_restricted-false _ (ground arith);
          permitted = ground (arith, same);
          fresh_enough = λ k. ground arith;
          stepped_up = up;
          actor_is = same;
        }

is_restricted-standard : (l : AccountAccessLevel) → l ≡ standard → is_restricted l ≡ false
is_restricted-standard l e = rw e

check_step_up-passes :
    (b : Bool) (s : Option StepUp) (a : AdminActor)
    → (b ≡ true → (u : StepUp) × (s ≡ some u) × (u.has_passkey ≡ true) × (u.verified ≡ true))
    → check_step_up b s a ≡ admitted a
unfolding check_step_up
check_step_up-passes false s a h = refl
check_step_up-passes true s a h = let (u, e, k, v) = h refl in rw (e, check_step_up, k, v)

-- A request with a session and the active row of an unrestricted account whose effective role has
-- the permission, within the rate limit, and with a fresh session and a verified passkey where the
-- route asks for them, is admitted as the actor whom the row and the session name, and all it writes is
-- the use of the rate limit.
pub require_admin_permission-admitted :
    (p : AdminPermission) (o : Options) (r : Request) (actor : AdminActor)
    → Admits p o r actor
    → require_admin_permission p o r ≡ (consumes_rate_limit ∷ [], admitted actor)
unfolding require_admin_permission
require_admin_permission-admitted p o r actor a =
    let permitted : has_permission (actor_of r a.session a.row).role p ≡ true =
      rw a.actor_is at a.permitted in
    let passes =
      check_step_up-passes o.passkey_step_up r.step_up (actor_of r a.session a.row) a.stepped_up in
    let fresh : o.fresh && not (is_fresh a.session.created_at r.now) ≡ false =
      elim (Bool-cases o.fresh) [ inl f ↦ rw (a.fresh_enough f, f) | inr f ↦ rw f ] in
    let level = is_restricted-standard _ a.unrestricted in
    rw (
      a.session_found, a.row_found, gate_from, check_user, a.active, a.within_rate, level,
      check_permission, permitted, fresh, passes, a.actor_is,
    )
