-- ===== src/Access/Registration.antt =====
-- The creation of accounts: `authorizeRegistration` of apps/sso/worker/registration.ts. The rate
-- limiter, the invitation that the query finds and the claim of the public registration intent
-- (public-registration.ts) are arguments; the audit events are the list of the effects.
use sso_pg72_tw.Common.{
  ℕ, ◌≡◌, ◌≢◌, ◌⊎◌, inl, inr, ◌&&◌, not, Bool, true, false, String, Option, none, some, List, [],
  ◌∷◌, if◌then◌else◌, arith, Bool-cases, refl, Result, ok, throw,
}
use text.Mathlib.Text.{◌==◌ as str_eq}
use sso_pg72_tw.Access.{
  PlatformRole, bootadmin, AccountAccessLevel, standard, restricted, normalize_email, same_text,
}
use sso_pg72_tw.Access.Hierarchy.{same_text_iff}

pub data RegistrationMode : Type 0 where
  invite public_mode : RegistrationMode

-- `InvitationRow["role"]`
pub data InvitationRole : Type 0 where
  admin developer user : InvitationRole

pub record RegistrationInput : Type 0 where
  pub email : List ℕ
  pub email_verified : Bool
  pub provider_id : Option String

-- What `claimPublicRegistrationIntent` returns.
pub record LegalAcceptance : Type 0 where
  pub accepted_at : ℕ
  pub privacy_version : String
  pub terms_version : String

pub record Surroundings : Type 0 where
  pub mode : RegistrationMode
  pub bootstrap_admin_email : List ℕ
  pub rate_limit_success : Bool
  pub intent : Result LegalAcceptance
  pub invitation : Option InvitationRole

pub record RegistrationGrant : Type 0 where
  pub legal : Option LegalAcceptance
  pub access_level : AccountAccessLevel
  pub role : PlatformRole

pub data RegistrationDenial : Type 0 where
  registration_rate_limited email_not_verified : RegistrationDenial
  registration_prerequisite_required invitation_required : RegistrationDenial
  intent_refused : String → RegistrationDenial

pub data RegistrationAudit : Type 0 where
  rate_limited denied : RegistrationAudit

pub data Answer : Type 0 where
  granted : RegistrationGrant → Answer
  refused : RegistrationDenial → Answer

abbrev pub is_google : Option String → Bool
is_google none = false
is_google (some p) = str_eq p "google"

abbrev pub invited : Option InvitationRole → Bool
invited none = false
invited (some r) = true

-- `invitation?.role ?? "user"`
abbrev pub invited_role : Option InvitationRole → PlatformRole
invited_role none = PlatformRole.user
invited_role (some admin) = PlatformRole.admin
invited_role (some developer) = PlatformRole.developer
invited_role (some user) = PlatformRole.user

unfoldable pub is_bootstrap : Surroundings → RegistrationInput → Bool
is_bootstrap w i = same_text (normalize_email i.email) w.bootstrap_admin_email

abbrev pub is_public : RegistrationMode → Bool
is_public invite = false
is_public public_mode = true

-- From the invitation on.
unfoldable pub with_invitation :
    Surroundings → RegistrationInput → Option LegalAcceptance → List RegistrationAudit × Answer
with_invitation w i legal =
    if not (is_public w.mode) && (not (invited w.invitation) && not (is_bootstrap w i))
    then (denied ∷ [], refused invitation_required)
    else (
      [],
      granted (record {
        legal = legal;
        access_level =
            if is_public w.mode && (not (invited w.invitation) && not (is_bootstrap w i))
            then restricted
            else standard;
        role = if is_bootstrap w i then bootadmin else invited_role w.invitation;
      }),
    )

-- The claim of the intent, in public mode.
unfoldable pub with_intent :
    Surroundings → RegistrationInput → Result LegalAcceptance → List RegistrationAudit × Answer
with_intent w i (ok legal) = with_invitation w i (some legal)
with_intent w i (throw e) = ([], refused (intent_refused e))

unfoldable pub authorize_registration :
    Surroundings → RegistrationInput → List RegistrationAudit × Answer
unfolding with_intent with_invitation
authorize_registration w i =
    if not w.rate_limit_success
    then (rate_limited ∷ [], refused registration_rate_limited)
    else if not i.email_verified
    then (denied ∷ [], refused email_not_verified)
    else if is_public w.mode
    then if not (is_google i.provider_id)
      then (denied ∷ [], refused registration_prerequisite_required)
      else with_intent w i w.intent
    else with_invitation w i none

-- What a grant rests on.
pub record IsEntitled (w : Surroundings) (i : RegistrationInput) (g : RegistrationGrant)
    : Type 0 where
  pub within_rate : w.rate_limit_success ≡ true
  pub verified : i.email_verified ≡ true
  pub accepted :
      w.mode ≡ public_mode → (l : LegalAcceptance) × (w.intent ≡ ok l) × (g.legal ≡ some l)
  pub from_google : w.mode ≡ public_mode → is_google i.provider_id ≡ true
  pub invited_or_boot :
      w.mode ≡ invite → (w.invitation ≢ none) ⊎ (normalize_email i.email ≡ w.bootstrap_admin_email)
  pub boot_only : g.role ≡ bootadmin → normalize_email i.email ≡ w.bootstrap_admin_email
  pub role_invited :
      normalize_email i.email ≢ w.bootstrap_admin_email → g.role ≡ invited_role w.invitation
  pub limited :
      normalize_email i.email ≢ w.bootstrap_admin_email
      → w.mode ≡ public_mode
      → w.invitation ≡ none
      → (g.access_level ≡ restricted) × (g.role ≡ PlatformRole.user)

invited_role-ne-bootadmin : (r : Option InvitationRole) → invited_role r ≢ bootadmin
invited_role-ne-bootadmin none e = cc
invited_role-ne-bootadmin (some admin) e = cc
invited_role-ne-bootadmin (some developer) e = cc
invited_role-ne-bootadmin (some user) e = cc

invited-ne-none : (r : Option InvitationRole) → invited r ≡ true → r ≢ none
invited-ne-none none h e = cc
invited-ne-none (some r) h e = cc

-- What the last part grants, for any text of the acceptance that it is handed.
with_invitation-granted :
    (w : Surroundings) (i : RegistrationInput) (l : Option LegalAcceptance) (g : RegistrationGrant)
    → (with_invitation w i l).1 ≡ granted g
    → (g.legal ≡ l)
      × ((is_bootstrap w i ≡ true) × (g.role ≡ bootadmin)
          ⊎ (is_bootstrap w i ≡ false) × (g.role ≡ invited_role w.invitation))
      × ((is_public w.mode ≡ false) → (is_bootstrap w i ≡ true) ⊎ (invited w.invitation ≡ true))
      × ((is_public w.mode ≡ true)
          → invited w.invitation ≡ false
          → is_bootstrap w i ≡ false
          → g.access_level ≡ restricted)
unfolding with_invitation
with_invitation-granted w i l g h = (
  ground arith,
  elim (Bool-cases (is_bootstrap w i)) [
    | inl b ↦ inl (b, ground arith)
    | inr b ↦ inr (b, ground arith)
  ],
  λ m. elim (Bool-cases (is_bootstrap w i)) [ inl b ↦ inl b | inr b ↦ inr (ground arith) ],
  λ m v b. ground arith,
)

-- The last part is reached only behind the checks before it.
authorize_registration-accepts :
    (w : Surroundings) (i : RegistrationInput) (g : RegistrationGrant)
    → (authorize_registration w i).1 ≡ granted g
    → ((l : Option LegalAcceptance) × ((with_invitation w i l).1 ≡ granted g)
        × (w.mode ≡ public_mode → (a : LegalAcceptance) × (w.intent ≡ ok a) × (l ≡ some a)))
      × (w.rate_limit_success ≡ true)
      × (i.email_verified ≡ true)
      × (w.mode ≡ public_mode → is_google i.provider_id ≡ true)
unfolding authorize_registration
authorize_registration-accepts w i g h =
    (go w.mode w.intent refl refl, ground arith, ground arith, λ m. ground arith)
  where
    go :
        (m : RegistrationMode) (t : Result LegalAcceptance)
        → w.mode ≡ m
        → w.intent ≡ t
        → (l : Option LegalAcceptance) × ((with_invitation w i l).1 ≡ granted g)
          × (w.mode ≡ public_mode → (a : LegalAcceptance) × (w.intent ≡ ok a) × (l ≡ some a))
    go invite t e f = (none, ground arith, λ p. cc)
    go public_mode (ok a) e f = (some a, ground arith, λ p. (a, f, refl))
    go public_mode (throw x) e f = absurd (ground arith)

-- An account is created only for a verified email within the rate limit, in public mode only by
-- Google with a claimed intent whose acceptance is kept, in invite mode only by an invitation or for
-- the bootstrap administrator. It is the bootstrap administrator only under the configured email;
-- any other role is the invitation's, and in public mode without one the account is a restricted
-- user.
pub authorize_registration-IsEntitled :
    (w : Surroundings) (i : RegistrationInput) (g : RegistrationGrant)
    → (authorize_registration w i).1 ≡ granted g
    → IsEntitled w i g
unfolding is_bootstrap
authorize_registration-IsEntitled w i g h =
    let (given, rate, verified, google) = authorize_registration-accepts w i g h in
    let (legal, role, entry, level) = with_invitation-granted w i given.0 g given.1 in
    let (to, from) = same_text_iff (normalize_email i.email) w.bootstrap_admin_email in
    record {
      within_rate = rate;
      verified = verified;
      accepted = λ m. let (a, f, e) = given.2 m in (a, f, cc);
      from_google = google;
      invited_or_boot = λ m. elim (entry (rw m)) [
        | inl boot ↦ inr (to boot)
        | inr there ↦ inl (λ none_there. invited-ne-none w.invitation there none_there)
      ];
      boot_only = λ b. elim role [
        | inl boot ↦ to boot.0
        | inr other ↦ absurd (invited_role-ne-bootadmin w.invitation cc)
      ];
      role_invited = λ n. elim role [ inl boot ↦ absurd (n (to boot.0)) | inr other ↦ other.1 ];
      limited = λ n m v. elim role [
        | inl boot ↦ absurd (n (to boot.0))
        | inr other ↦ (level (rw m) (rw v) other.0, rw (other.1, v))
      ];
    }
