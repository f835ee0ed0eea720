-- ===== src/Lifecycle/History.antt =====
-- Histories of one alert: the steps of `advanceAlertLifecycle` in
-- apps/sso/worker/alert-evaluator.ts, from the inactive state, with the intents that they announce.
use sso_pg72_tw.Common.{ℕ, false, ◌≡◌, refl, Option, none, some, List, [], ◌∷◌, ap, subst, ◌∙◌, ok}
use sso_pg72_tw.Alert.Types.{AlertSeverity, no_alert, warning}
use sso_pg72_tw.Alert.Observation.{AlertRuleObservation}
use sso_pg72_tw.Alert.Evaluate.{AlertRuleEvaluation}
use sso_pg72_tw.Alert.Evidence.{is_no_alert}
use sso_pg72_tw.Lifecycle.{AlertLifecycleState, inactive_alert_state}
use sso_pg72_tw.Lifecycle.Advance.{advance_alert_lifecycle, live_cooldown}
use sso_pg72_tw.Lifecycle.Intents.{
  AlertAction, open_alert, escalate, remind, resolve, AlertActionIntent, AlertLifecycleResult,
}
use sso_pg72_tw.Lifecycle.Actions.{IsWarranted, status_after}
use sso_pg72_tw.Lifecycle.Announced.{advance_alert_lifecycle-IsAccounted}

-- The intents so far, the latest first.
abbrev pub Story : Type 0
Story = List AlertActionIntent

abbrev pub tell : Option AlertActionIntent → Story → Story
tell none story = story
tell (some intent) story = intent ∷ story

-- The states that steps reach, with their story.
pub data Reach : AlertLifecycleState → Story → Type 0 where
  start : Reach inactive_alert_state []
  step :
      {s : AlertLifecycleState} {story : Story} (now : ℕ) (o : AlertRuleObservation)
      (x : AlertLifecycleResult)
      → Reach s story
      → advance_alert_lifecycle now o s ≡ ok x
      → Reach x.state (tell x.intent story)

-- The severity that a story leaves.
abbrev pub told_status : Story → AlertSeverity
told_status [] = no_alert
told_status (intent ∷ earlier) = status_after (told_status earlier) (some intent)

-- The action fits the severity that it finds: an alert opens once, a warning alone is escalated,
-- and only what is open is reminded of or resolved.
abbrev pub Fits : AlertSeverity → AlertAction → Type 0
Fits before (open_alert e level) = before ≡ no_alert
Fits before (escalate e) = before ≡ warning
Fits before (remind e level) = (before ≡ level) × (is_no_alert level ≡ false)
Fits before (resolve from) = (before ≡ from) × (is_no_alert from ≡ false)

abbrev pub IsOrdered : Story → Type 0
IsOrdered [] = Unit
IsOrdered (intent ∷ earlier) = Fits (told_status earlier) intent.action × IsOrdered earlier

warranted-Fits :
    (cooldown : Option ℕ) (r : AlertRuleEvaluation) (s : AlertLifecycleState) (now : ℕ)
    (a : AlertAction)
    → IsWarranted cooldown r s now a
    → Fits s.status a
warranted-Fits cooldown r s now (open_alert e level) h = h.0
warranted-Fits cooldown r s now (escalate e) h = h.0
warranted-Fits cooldown r s now (remind e level) h = (h.0, h.1)
warranted-Fits cooldown r s now (resolve from) h = (h.0, h.1)

tell-IsOrdered :
    (story : Story) (s : AlertLifecycleState) (status : AlertSeverity) (cooldown : Option ℕ)
    (r : AlertRuleEvaluation) (now : ℕ) (intent : Option AlertActionIntent)
    → s.status ≡ told_status story
    → IsOrdered story
    → status ≡ status_after s.status intent
    → ((a : AlertActionIntent) → intent ≡ some a → IsWarranted cooldown r s now a.action)
    → (status ≡ told_status (tell intent story)) × IsOrdered (tell intent story)
tell-IsOrdered story s status cooldown r now none same ordered p h = (p ∙ same, ordered)
tell-IsOrdered story s status cooldown r now (some a) same ordered p h = (
  p ∙ ap (λ b. status_after b (some a)) same,
  (
    subst (λ b. Fits b a.action) same (warranted-Fits cooldown r s now a.action (h a refl)),
    ordered,
  ),
)

-- In every history of steps from the inactive state the stored severity is the one that the
-- announced intents leave, and the intents are in order: an alert opens only while none is open, it
-- is escalated only from a warning, and it is reminded of at its level and resolved only while it
-- is open at that level.
pub Reach-IsOrdered :
    {s : AlertLifecycleState} {story : Story}
    → Reach s story
    → (s.status ≡ told_status story) × IsOrdered story
unfolding inactive_alert_state
Reach-IsOrdered start = (refl, tt)
Reach-IsOrdered (step {s} {story} now o x before h) =
    let (same, ordered) = Reach-IsOrdered before in
    let (r, evaluated, (status, warrants)) = advance_alert_lifecycle-IsAccounted o s now x h in
    tell-IsOrdered story s x.state.status (live_cooldown s.cooldown_until now) r now x.intent same
      ordered status (λ a e. (warrants a e).3)
