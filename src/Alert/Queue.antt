-- ===== src/Alert/Queue.antt =====
-- What `knownQueueSnapshot` of apps/sso/worker/alert-rules.ts lets through, and what an alert on a
-- dead-letter queue therefore says.
use sso_pg72_tw.Common.{
  ℕ, ◌+◌, ◌*◌, ◌-◌, ◌/◌, min, ◌≤◌, ◌<◌, ◌≡◌, refl, ◌≢◌, ◌⊎◌, inl, inr, Option, none, some, arith,
  Result, ok, List, [], ◌∷◌, All, Option-cases, sym, ◌∙◌,
}
use sso_pg72_tw.Alert.Types.{AlertRuleId, critical, no_alert, AlertWindowKey, Metric, at_window}
use sso_pg72_tw.Alert.Definitions.{definition_for_alert_rule}
use sso_pg72_tw.Alert.Bags.{queue_bag, same_windows, metrics_for_observation}
use sso_pg72_tw.Alert.Evaluate.{
  AlertRuleEvaluation, unknown_evaluation, evaluate_metrics, evaluate_body, evaluate_observation,
}
use sso_pg72_tw.Alert.Severity.{evaluate_metrics-IsJustified, critical-ne-no_alert}
use sso_pg72_tw.Alert.Verdicts.{HoldsAt}
use sso_pg72_tw.Alert.Kleene.{IsCompletion}
use sso_pg72_tw.Alert.Observation.{
  AlertDimension, AlertRuleObservation, queue_snapshot, QueueDepthSnapshot, KnownQueueSnapshot,
  known_queue, known_queue_snapshot, empty_queue, sampled_queue, nonempty_queue,
}

-- A known snapshot is of this moment, repeats the sample, and counts only whole minutes that have
-- passed since the queue was first seen filled.
pub record IsFresh (s : QueueDepthSnapshot) (as_of : ℕ) (q : KnownQueueSnapshot) : Type 0 where
  pub sampled_now : s.sampled_at ≡ some as_of
  pub depth_kept : s.backlog_count ≡ some q.depth
  pub bytes_kept : s.backlog_bytes ≡ some q.backlog_bytes
  pub streak_sampled :
      (n : ℕ) × (s.consecutive_nonzero_samples ≡ some n) × (q.consecutive_nonzero_samples ≤ n)
  pub streak_elapsed :
      0 < q.consecutive_nonzero_samples
      → (since : ℕ) × (s.nonzero_since_at ≡ some since)
        × (since + q.consecutive_nonzero_samples * 60000 ≤ as_of)
  pub idle_empty : q.depth ≡ 0 → (q.consecutive_nonzero_samples ≡ 0) × (s.nonzero_since_at ≡ none)
  pub age_bounded : q.oldest_message_age_seconds ≤ 1000000000

whole_minutes :
    (since sampled n k : ℕ)
    → 0 < k
    → k ≡ min n ((sampled - since) / 60000)
    → since + k * 60000 ≤ sampled
whole_minutes since sampled n k p e = omega arith

known_queue-IsFresh :
    (bytes depth sampled samples since oldest : Option ℕ) (as_of : ℕ) (q : KnownQueueSnapshot)
    → known_queue bytes depth sampled samples since oldest as_of ≡ some q
    → IsFresh
        (record {
          backlog_bytes = bytes;
          backlog_count = depth;
          consecutive_nonzero_samples = samples;
          nonzero_since_at = since;
          oldest_message_timestamp = oldest;
          sampled_at = sampled;
        })
        as_of
        q
unfolding known_queue empty_queue sampled_queue nonempty_queue
known_queue-IsFresh (some b) (some d) (some t) (some n) (some since) (some oldest) as_of q h =
    record {
      sampled_now = ground arith;
      depth_kept = ground arith;
      bytes_kept = ground arith;
      streak_sampled = (n, refl, ground arith);
      streak_elapsed = λ p.
          (since, refl, whole_minutes since as_of n q.consecutive_nonzero_samples p (ground arith));
      idle_empty = λ e. ground arith;
      age_bounded = ground arith;
    }
known_queue-IsFresh (some b) (some d) (some t) (some n) none none as_of q h = record {
  sampled_now = ground arith;
  depth_kept = ground arith;
  bytes_kept = ground arith;
  streak_sampled = (n, refl, ground arith);
  streak_elapsed = λ p. absurd (ground arith);
  idle_empty = λ e. ground arith;
  age_bounded = ground arith;
}
known_queue-IsFresh (some b) (some d) (some t) (some n) (some since) none as_of q h =
    absurd (ground arith)
known_queue-IsFresh (some b) (some d) (some t) (some n) none (some oldest) as_of q h =
    absurd (ground arith)
known_queue-IsFresh _ _ _ _ _ _ as_of q h = cc

-- A queue snapshot is taken as known only if it was sampled at the time of the evaluation; then depth
-- and bytes are the sampled ones, the streak is at most the sampled one and its minutes have all
-- passed since the queue was first seen filled, an empty queue has no streak, and the age of the
-- oldest message is within the bound of the evidence.
pub known_queue_snapshot-IsFresh :
    (s : QueueDepthSnapshot) (as_of : ℕ) (q : KnownQueueSnapshot)
    → known_queue_snapshot s as_of ≡ some q
    → IsFresh s as_of q
unfolding known_queue_snapshot
known_queue_snapshot-IsFresh s as_of q h = known_queue-IsFresh _ _ _ _ _ _ as_of q h

abbrev values : KnownQueueSnapshot → Metric → ℕ
values q Metric.depth = q.depth
values q Metric.consecutive_nonzero_samples = q.consecutive_nonzero_samples
values q _ = 0

values-IsCompletion :
    (q : KnownQueueSnapshot) (m : Metric) (n : ℕ) → queue_bag q m ≡ some n → values q m ≡ n
values-IsCompletion q Metric.depth n e = cc
values-IsCompletion q Metric.consecutive_nonzero_samples n e = cc
values-IsCompletion q _ n e = cc

every_window_queue :
    (q : KnownQueueSnapshot) (w : AlertWindowKey)
    → IsCompletion (at_window (same_windows (queue_bag q)) w) (values q)
every_window_queue q AlertWindowKey.w5m = values-IsCompletion q
every_window_queue q AlertWindowKey.w15m = values-IsCompletion q
every_window_queue q AlertWindowKey.w60m = values-IsCompletion q

abbrev pub queue_observation : AlertDimension → QueueDepthSnapshot → ℕ → AlertRuleObservation
queue_observation dimension s as_of = record {
  as_of = as_of;
  dimension = dimension;
  body = queue_snapshot s;
}

-- A window in which the critical threshold of the queue rule holds is that of 15 minutes.
critical_window :
    (q : KnownQueueSnapshot) (w : AlertWindowKey)
    → HoldsAt
        (definition_for_alert_rule AlertRuleId.queue_dlq_approximate)
        (λ _. values q)
        critical
        w
    → (10 ≤ q.depth) ⊎ (15 ≤ q.consecutive_nonzero_samples)
critical_window q AlertWindowKey.w5m h = absurd h
critical_window q AlertWindowKey.w15m (inl deep) = inl deep
critical_window q AlertWindowKey.w15m (inr (inl long)) = inr long
critical_window q AlertWindowKey.w15m (inr (inr none_left)) = absurd none_left
critical_window q AlertWindowKey.w60m h = absurd h

first_window :
    (q : KnownQueueSnapshot) (ws : List AlertWindowKey)
    → ws ≢ []
    → All
        (HoldsAt
          (definition_for_alert_rule AlertRuleId.queue_dlq_approximate)
          (λ _. values q)
          critical)
        ws
    → (10 ≤ q.depth) ⊎ (15 ≤ q.consecutive_nonzero_samples)
first_window q [] n h = absurd (n refl)
first_window q (w ∷ ws) n h = critical_window q w h.0

ok-injective : {A : Type 0} (a b : A) → Result.ok a ≡ ok b → a ≡ b
ok-injective a b e = cc

blind_severity :
    (dimension : AlertDimension) (s : QueueDepthSnapshot) (as_of : ℕ) (r : AlertRuleEvaluation)
    → Result.ok (unknown_evaluation (queue_observation dimension s as_of)) ≡ ok r
    → r.severity ≡ no_alert
blind_severity dimension s as_of r e = cc

queue_metrics-critical :
    (dimension : AlertDimension) (s : QueueDepthSnapshot) (as_of : ℕ) (q : KnownQueueSnapshot)
    (r : AlertRuleEvaluation)
    → evaluate_metrics
        (queue_observation dimension s as_of)
        (metrics_for_observation (queue_snapshot s) (some q))
      ≡ ok r
    → r.severity ≡ critical
    → (10 ≤ q.depth) ⊎ (15 ≤ q.consecutive_nonzero_samples)
unfolding metrics_for_observation
queue_metrics-critical dimension s as_of q r e c =
    let (r', returns, just) =
      evaluate_metrics-IsJustified (queue_observation dimension s as_of)
        (metrics_for_observation (queue_snapshot s) (some q)) (λ _. values q)
        (every_window_queue q) in
    let same : r' ≡ r = ok-injective r' r (sym returns ∙ e) in
    let crit : r'.severity ≡ critical = rw same c in
    first_window q r'.breached_windows
      (just.alerts_named λ quiet. critical-ne-no_alert (sym crit ∙ quiet))
      (rw crit at just.alerts_hold)

-- A critical alert on a dead-letter queue means that the queue, sampled at the time of the
-- evaluation, holds ten messages or more, or that it was first seen filled at least fifteen minutes
-- before.
pub evaluate_observation-queue_critical :
    (dimension : AlertDimension) (s : QueueDepthSnapshot) (as_of : ℕ) (r : AlertRuleEvaluation)
    → evaluate_observation (queue_observation dimension s as_of) ≡ ok r
    → r.severity ≡ critical
    → (s.sampled_at ≡ some as_of)
      × (((n : ℕ) × (s.backlog_count ≡ some n) × (10 ≤ n))
          ⊎ ((since : ℕ) × (s.nonzero_since_at ≡ some since) × (since + 900000 ≤ as_of)))
unfolding evaluate_observation evaluate_body
evaluate_observation-queue_critical dimension s as_of r e c =
    elim (Option-cases (known_queue_snapshot s as_of)) [
      | inl blind ↦ absurd (
          critical-ne-no_alert
            (sym c ∙ blind_severity dimension s as_of r (rw (blind, evaluate_body) at e)))
      | inr (q, found) ↦
          let fresh = known_queue_snapshot-IsFresh s as_of q found in
          (
            fresh.sampled_now,
            elim (queue_metrics-critical dimension s as_of q r (rw (found, evaluate_body) at e) c) [
              | inl deep ↦ inl (q.depth, fresh.depth_kept, deep)
              | inr long ↦
                  let (since, seen, passed) = fresh.streak_elapsed (omega arith) in
                  inr (since, seen, omega arith)
            ],
          )
    ]
