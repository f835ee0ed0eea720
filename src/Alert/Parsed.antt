-- ===== src/Alert/Parsed.antt =====
-- Observations that `parseAlertObservation` of apps/sso/worker/alert-rules.ts lets through: their
-- windows are made of entries that parse, and their metrics are in the persistence domain.
use sso_pg72_tw.Common.{ℕ, ◌≡◌, refl, Option, none, some, arith, subst, Result, ok}
use sso_pg72_tw.Common.Results.{>>=_ok, ok_injective}
use sso_pg72_tw.Alert.Types.{AlertWindowKey, Windowed, at_window, MetricBag}
use sso_pg72_tw.Alert.Observation.{
  AlertRuleObservation, QueueDepthSnapshot, KnownQueueSnapshot, ObservationBody,
  known_queue_snapshot, count_windows, ratio_windows, restricted_windows, recovery_windows,
  oauth_windows, admin_windows, fanout_snapshot, logout_windows, runtime_snapshot, queue_snapshot,
}
use sso_pg72_tw.Alert.Bags.{
  count_bag, ratio_bag, restricted_bag, recovery_bag, oauth_bag, admin_bag, logout_bag, runtime_bag,
  queue_bag, empty_bag, same_windows, map_windows, metrics_for_observation,
}
use sso_pg72_tw.Alert.Parsing.{
  parse_alert_observation, parse_alert_dimension, parse_windows, nested, validate_nested_windows,
  parse_body, parse_fanout_snapshot, parse_runtime_snapshot, parse_queue_snapshot,
}
use sso_pg72_tw.Alert.Metrics.{
  parse_count_metrics, parse_ratio_metrics, parse_restricted_metrics, parse_recovery_entry_metrics,
  parse_oauth_metrics, parse_admin_sensitive_metrics, parse_logout_current_snapshot,
  parse_logout_metrics,
}
use sso_pg72_tw.Alert.Proven.{IsStorable}
use sso_pg72_tw.Alert.Storable.{
  count_bag-IsStorable, ratio_bag-IsStorable, restricted_bag-IsStorable, recovery_bag-IsStorable,
  oauth_bag-IsStorable, admin_bag-IsStorable, fanout_5m_bag-IsStorable, fanout_15m_bag-IsStorable,
  logout_bag-IsStorable, runtime_bag-IsStorable, queue_bag-IsStorable,
}
use sso_pg72_tw.Alert.Rules.{known_snapshot}

abbrev pub AllStorable : Windowed MetricBag → Type 0
AllStorable bags = (w : AlertWindowKey) → IsStorable (at_window bags w)

by_window :
    (bags : Windowed MetricBag)
    → IsStorable bags.m5
    → IsStorable bags.m15
    → IsStorable bags.m60
    → AllStorable bags
by_window bags a b c AlertWindowKey.w5m = a
by_window bags a b c AlertWindowKey.w15m = b
by_window bags a b c AlertWindowKey.w60m = c

every_window_of : (bag : MetricBag) → IsStorable bag → AllStorable (same_windows bag)
every_window_of bag h = by_window (same_windows bag) h h h

-- Windows that parse are made of entries that parse.
pub parse_windows_ok :
    {T : Type 0} (parser : T → Result T) (ws vs : Windowed T)
    → parse_windows parser ws ≡ ok vs
    → (parser ws.m5 ≡ ok vs.m5) × (parser ws.m15 ≡ ok vs.m15) × (parser ws.m60 ≡ ok vs.m60)
unfolding parse_windows
parse_windows_ok parser ws vs h =
    let (a, p, h5) = >>=_ok (parser ws.m5) _ h in
    let (b, q, h15) = >>=_ok (parser ws.m15) _ h5 in
    let (c, r, h60) = >>=_ok (parser ws.m60) _ h15 in (cc, cc, cc)

pub nested_ok :
    {T : Type 0} (shape : Windowed T → ObservationBody) (r : Result (Windowed T))
    (c : ObservationBody)
    → nested shape r ≡ ok c
    → (vs : Windowed T) × (r ≡ ok vs) × (shape vs ≡ c)
nested_ok shape r c h =
    let (vs, p, rest) = >>=_ok r _ h in
    let (checked, q, done) = >>=_ok (validate_nested_windows (shape vs)) _ rest in (vs, p, cc)

-- The three windows of a rule.
windows_storable :
    {T : Type 0} (shape : Windowed T → ObservationBody) (bag : T → MetricBag)
    (parser : T → Result T) (ws : Windowed T) (c : ObservationBody)
    (known : Option KnownQueueSnapshot)
    → ((w v : T) → parser w ≡ ok v → IsStorable (bag v))
    → ((vs : Windowed T) → metrics_for_observation (shape vs) known ≡ map_windows bag vs)
    → nested shape (parse_windows parser ws) ≡ ok c
    → AllStorable (metrics_for_observation c known)
windows_storable shape bag parser ws c known storable metrics h =
    let (vs, parsed, same) = nested_ok shape (parse_windows parser ws) c h in
    let (a, b, d) = parse_windows_ok parser ws vs parsed in
    subst (λ x. AllStorable (metrics_for_observation x known)) same
      (rw (metrics vs) (
        by_window (map_windows bag vs) (storable ws.m5 vs.m5 a) (storable ws.m15 vs.m15 b)
          (storable ws.m60 vs.m60 d)))

empty_bag-IsStorable : IsStorable empty_bag
empty_bag-IsStorable = record {
  values_capped = λ m. omega arith;
  flag_capped = omega arith;
  part_capped = omega arith;
  whole_capped = omega arith;
}

queue-AllStorable :
    (s v : QueueDepthSnapshot) (as_of : ℕ) (known : Option KnownQueueSnapshot)
    → known_queue_snapshot v as_of ≡ known
    → parse_queue_snapshot s ≡ ok v
    → AllStorable (metrics_for_observation (queue_snapshot v) known)
unfolding metrics_for_observation
queue-AllStorable s v as_of none e h = every_window_of empty_bag empty_bag-IsStorable
queue-AllStorable s v as_of (some q) e h =
    every_window_of (queue_bag q) (queue_bag-IsStorable s v as_of q h e)

pub parse_body-AllStorable :
    (b c : ObservationBody) (as_of : ℕ)
    → parse_body b ≡ ok c
    → AllStorable (metrics_for_observation c (known_snapshot c as_of))
unfolding parse_body metrics_for_observation
parse_body-AllStorable (count_windows r ws) c as_of h =
    windows_storable (count_windows r) count_bag parse_count_metrics ws c _ count_bag-IsStorable
      (λ vs. refl) h
parse_body-AllStorable (ratio_windows r ws) c as_of h =
    windows_storable (ratio_windows r) ratio_bag parse_ratio_metrics ws c _ ratio_bag-IsStorable
      (λ vs. refl) h
parse_body-AllStorable (restricted_windows ws) c as_of h =
    windows_storable restricted_windows restricted_bag parse_restricted_metrics ws c _
      restricted_bag-IsStorable (λ vs. refl) h
parse_body-AllStorable (recovery_windows ws) c as_of h =
    windows_storable recovery_windows recovery_bag parse_recovery_entry_metrics ws c _
      recovery_bag-IsStorable (λ vs. refl) h
parse_body-AllStorable (oauth_windows ws) c as_of h =
    windows_storable oauth_windows oauth_bag parse_oauth_metrics ws c _ oauth_bag-IsStorable
      (λ vs. refl) h
parse_body-AllStorable (admin_windows ws) c as_of h =
    windows_storable admin_windows admin_bag parse_admin_sensitive_metrics ws c _
      admin_bag-IsStorable (λ vs. refl) h
parse_body-AllStorable (fanout_snapshot s) c as_of h =
    let (t, p, same) = >>=_ok (parse_fanout_snapshot s) _ h in
    subst (λ x. AllStorable (metrics_for_observation x (known_snapshot x as_of)))
      (ok_injective same)
      (by_window _ (fanout_5m_bag-IsStorable s t p) (fanout_15m_bag-IsStorable s t p)
        (fanout_5m_bag-IsStorable s t p))
parse_body-AllStorable (logout_windows l ws) c as_of h =
    let (d, p, rest) = >>=_ok (parse_logout_current_snapshot l) _ h in
    windows_storable (logout_windows d) (logout_bag d) parse_logout_metrics ws c _
      (λ w v. logout_bag-IsStorable l d w v p) (λ vs. refl) rest
parse_body-AllStorable (runtime_snapshot s) c as_of h =
    let (t, p, same) = >>=_ok (parse_runtime_snapshot s) _ h in
    subst (λ x. AllStorable (metrics_for_observation x (known_snapshot x as_of)))
      (ok_injective same) (every_window_of (runtime_bag t) (runtime_bag-IsStorable s t p))
parse_body-AllStorable (queue_snapshot s) c as_of h =
    let (t, p, same) = >>=_ok (parse_queue_snapshot s) _ h in
    subst (λ x. AllStorable (metrics_for_observation x (known_snapshot x as_of)))
      (ok_injective same) (queue-AllStorable s t as_of (known_queue_snapshot t as_of) refl p)

pub parse_alert_observation-AllStorable :
    (o p : AlertRuleObservation)
    → parse_alert_observation o ≡ ok p
    → AllStorable (metrics_for_observation p.body (known_snapshot p.body p.as_of))
unfolding parse_alert_observation
parse_alert_observation-AllStorable o p h =
    let (d, q, rest) = >>=_ok (parse_alert_dimension o.dimension _) _ h in
    let (b, s, same) = >>=_ok (parse_body o.body) _ rest in
    subst (λ x. AllStorable (metrics_for_observation x.body (known_snapshot x.body x.as_of)))
      (ok_injective same) (parse_body-AllStorable o.body b o.as_of s)
