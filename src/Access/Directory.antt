-- ===== src/Access/Directory.antt =====
-- Role changes over time: a directory of effective roles, and the changes that
-- `denyRoleChange` of apps/sso/worker/roles.ts allows.
use sso_pg72_tw.Common.{
  ℕ, ◌≤◌, ◌≡◌, refl, ◌==◌, Bool, none, arith, Bool-cases, inl, inr, ap, if◌then◌else◌, ==_iff,
}
use sso_pg72_tw.Access.{PlatformRole, RoleChangeRequest, deny_role_change}
use sso_pg72_tw.Access.Hierarchy.{rank, deny_role_change-none_iff}

-- The effective role of each account, and whether an account is protected.
pub record Directory : Type 0 where
  pub role_of : ℕ → PlatformRole
  pub is_protected : ℕ → Bool

-- The request that a route makes of the actor's and the target's present roles.
abbrev pub request : Directory → (actor target : ℕ) → PlatformRole → RoleChangeRequest
request d actor target next = record {
  actor_role = d.role_of actor;
  actor_user_id = actor;
  next_role = next;
  target_protected = d.is_protected target;
  target_role = d.role_of target;
  target_user_id = target;
}

abbrev pub assign : Directory → ℕ → PlatformRole → Directory
assign d target next = record d { role_of = λ u. if u == target then next else d.role_of u }

-- A change that is not denied, by an actor of at most the rank `k`.
pub data Change (k : ℕ) (d : Directory) : Directory → Type 0 where
  assigns :
      (actor target : ℕ) (next : PlatformRole)
      → rank (d.role_of actor) ≤ k
      → deny_role_change (request d actor target next) ≡ none
      → Change k d (assign d target next)

pub data Changes (k : ℕ) (d : Directory) : Directory → Type 0 where
  here : Changes k d d
  more : {e f : Directory} → Changes k d e → Change k e f → Changes k d f

-- Two roles agree from rank `k` up.
abbrev SameFrom : ℕ → PlatformRole → PlatformRole → Type 0
SameFrom k r r' = (k ≤ rank r → r' ≡ r) × (k ≤ rank r' → r' ≡ r)

Change-SameFrom :
    (k : ℕ) (d e : Directory) (u : ℕ) → Change k d e → SameFrom k (d.role_of u) (e.role_of u)
Change-SameFrom k d e u (assigns actor target next low allowed) =
    let (_, _, _, below, under) =
      (deny_role_change-none_iff (request d actor target next)).0 allowed in
    elim (Bool-cases (u == target)) [
      | inl same ↦
          let here = (==_iff u target).0 same in
          rw same (
            λ high. absurd (omega (arith, ap (λ (x : ℕ). rank (d.role_of x)) here)),
            λ high. absurd (omega arith),
          )
      | inr other ↦ rw other (λ _. refl, λ _. refl)
    ]

-- However many changes are made by actors of rank at most `k`, no account gets or loses a role of
-- rank `k` or above: administrators alone never make or unmake an administrator, and nobody makes a
-- bootstrap administrator.
pub Changes-SameFrom :
    (k : ℕ) (d e : Directory) (u : ℕ)
    → Changes k d e
    → (k ≤ rank (d.role_of u) → e.role_of u ≡ d.role_of u)
      × (k ≤ rank (e.role_of u) → e.role_of u ≡ d.role_of u)
Changes-SameFrom k d e u here = (λ _. refl, λ _. refl)
Changes-SameFrom k d e u (more {e = m} before last) =
    let (kept, fresh) = Changes-SameFrom k d m u before in
    let (kept', fresh') = Change-SameFrom k m e u last in (λ high. grind arith, λ high. grind arith)
