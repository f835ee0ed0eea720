-- ===== src/Alert/Accepting.antt =====
-- Which observations `parseAlertObservation` of apps/sso/worker/alert-rules.ts accepts, and what it
-- returns.
use sso_pg72_tw.Common.{
  ℕ, ◌≤◌, ◌≡◌, refl, ◌↔◌, ◌&&◌, Bool, true, false, Option, none, some, arith, Result, ok, ◌∙◌, ap,
  sym, subst,
}
use sso_pg72_tw.Common.Results.{>>=_ok, ok_injective}
use sso_pg72_tw.Alert.Types.{Windowed}
use sso_pg72_tw.Alert.Observation.{
  QueueDepthSnapshot, ObservationBody, count_windows, ratio_windows, restricted_windows,
  recovery_windows, oauth_windows, admin_windows, fanout_snapshot, logout_windows, runtime_snapshot,
  queue_snapshot, max_evidence_value,
}
use sso_pg72_tw.Alert.Metrics.{integer, max_queue_backlog_bytes}
use sso_pg72_tw.Alert.Parsing.{
  parse_windows, nested, parse_queue_snapshot, parse_streak, is_binding_integer, keep_if,
  validate_nested_windows, nondecreasing, rises_from, nullable_count_nondecreasing,
}
use sso_pg72_tw.Alert.Parsed.{parse_windows_ok}
use sso_pg72_tw.Alert.Consistent.{Accepts}

abbrev pub EachWindow : {T : Type 0} → (T → Type 0) → Windowed T → Type 0
EachWindow P ws = P ws.m5 × P ws.m15 × P ws.m60

-- A window that holds another counts no less.
abbrev pub Rises : {T : Type 0} → (T → ℕ) → Windowed T → Type 0
Rises field ws = (field ws.m5 ≤ field ws.m15) × (field ws.m15 ≤ field ws.m60)

-- The next count is unknown, or both are known and it is no less.
abbrev pub Follows : Option ℕ → Option ℕ → Type 0
Follows a none = Unit
Follows none (some n) = ⊥
Follows (some m) (some n) = m ≤ n

-- The windows of a body are nested.
abbrev pub IsNested : ObservationBody → Type 0
IsNested (count_windows r ws) = Rises (λ w. w.count) ws
IsNested (ratio_windows r ws) = Rises (λ w. w.numerator) ws × Rises (λ w. w.denominator) ws
IsNested (restricted_windows ws) = Rises (λ w. w.count) ws × Rises (λ w. w.known_surfaces) ws
IsNested (recovery_windows ws) =
    Rises (λ w. w.denied) ws × Rises (λ w. w.rate_limited) ws × Rises (λ w. w.started) ws
IsNested (oauth_windows ws) =
    Rises (λ w. w.count) ws
    × Rises (λ w. w.high_risk_count) ws
    × Follows ws.m5.distinct_reporters ws.m15.distinct_reporters
    × Follows ws.m15.distinct_reporters ws.m60.distinct_reporters
IsNested (admin_windows ws) = Rises (λ w. w.protected_denials) ws × Rises (λ w. w.successes) ws
IsNested (logout_windows c ws) =
    Rises (λ w. w.eligible) ws × Rises (λ w. w.lease_expired) ws × Rises (λ w. w.unresolved) ws
IsNested _ = Unit

validate_nested_windows-ok_iff :
    (b : ObservationBody) → (validate_nested_windows b ≡ ok tt) ↔ IsNested b
unfolding validate_nested_windows nondecreasing rises_from nullable_count_nondecreasing
validate_nested_windows-ok_iff (count_windows r ws) = (λ h. ground arith, λ h. ground arith)
validate_nested_windows-ok_iff (ratio_windows r ws) = (λ h. ground arith, λ h. ground arith)
validate_nested_windows-ok_iff (restricted_windows ws) = (λ h. ground arith, λ h. ground arith)
validate_nested_windows-ok_iff (recovery_windows ws) = (λ h. ground arith, λ h. ground arith)
validate_nested_windows-ok_iff (oauth_windows ws) = (λ h. ground arith, λ h. ground arith)
validate_nested_windows-ok_iff (admin_windows ws) = (λ h. ground arith, λ h. ground arith)
validate_nested_windows-ok_iff (logout_windows c ws) = (λ h. ground arith, λ h. ground arith)
validate_nested_windows-ok_iff (fanout_snapshot s) = (λ h. tt, λ h. refl)
validate_nested_windows-ok_iff (runtime_snapshot s) = (λ h. tt, λ h. refl)
validate_nested_windows-ok_iff (queue_snapshot s) = (λ h. tt, λ h. refl)

parse_windows-Accepts :
    {T : Type 0} (parser : T → Result T) (P : T → Type 0)
    → Accepts parser P
    → Accepts (parse_windows parser) (EachWindow P)
unfolding parse_windows
parse_windows-Accepts parser P accepts ws vs = (
  λ h.
      let (a, b, c) = parse_windows_ok parser ws vs h in
      let (p, same5) = (accepts ws.m5 vs.m5).0 a in
      let (q, same15) = (accepts ws.m15 vs.m15).0 b in
      let (r, same60) = (accepts ws.m60 vs.m60).0 c in ((p, q, r), cc (same5, same15, same60)),
  λ h.
      let a = (accepts ws.m5 ws.m5).1 (h.0.0, refl) in
      let b = (accepts ws.m15 ws.m15).1 (h.0.1, refl) in
      let c = (accepts ws.m60 ws.m60).1 (h.0.2, refl) in
      let parsed : parse_windows parser ws ≡ ok ws = rw (a, b, c) refl in parsed ∙ ap ok (sym h.1),
)

pub nested-ok_iff :
    {T : Type 0} (shape : Windowed T → ObservationBody) (parser : T → Result T) (P : T → Type 0)
    (ws : Windowed T) (c : ObservationBody)
    → Accepts parser P
    → (nested shape (parse_windows parser ws) ≡ ok c)
      ↔ (EachWindow P ws × IsNested (shape ws) × (c ≡ shape ws))
nested-ok_iff shape parser P ws c accepts = (
  λ h.
      let (vs, p, rest) = >>=_ok (parse_windows parser ws) _ h in
      let (each, same) = (parse_windows-Accepts parser P accepts ws vs).0 p in
      let (checked, q, done) = >>=_ok (validate_nested_windows (shape vs)) _ rest in
      let all_nested = (validate_nested_windows-ok_iff (shape vs)).0 q in
      (
        each,
        subst (λ x. IsNested (shape x)) same all_nested,
        sym (ok_injective done) ∙ ap shape same,
      ),
  λ h.
      let parsed = (parse_windows-Accepts parser P accepts ws ws).1 (h.0, refl) in
      let checked = (validate_nested_windows-ok_iff (shape ws)).1 h.1 in
      let read : nested shape (parse_windows parser ws) ≡ ok (shape ws) =
        rw (parsed, checked) refl in
      read ∙ ap ok (sym h.2),
)

-- The queue has reported both of its metrics, in their ranges.
abbrev pub AreReported : Option ℕ → Option ℕ → Type 0
AreReported (some bytes) (some count) = (bytes ≤ 1000000000000) × (count ≤ 1000000000)
AreReported _ _ = ⊥

abbrev pub IsReported : QueueDepthSnapshot → Type 0
IsReported s = AreReported s.backlog_bytes s.backlog_count

abbrev pub IsStreak : Option ℕ → Type 0
IsStreak none = Unit
IsStreak (some n) = n ≤ 1000000

abbrev unreported : QueueDepthSnapshot → QueueDepthSnapshot
unreported s = record s {
  backlog_bytes = none;
  backlog_count = none;
  oldest_message_timestamp = none;
}

-- A snapshot is returned as it is where the queue has reported its metrics, and otherwise without
-- them and without the time of the oldest message.
abbrev pub IsCleaned : QueueDepthSnapshot → QueueDepthSnapshot → Type 0
IsCleaned s t = (IsReported s → t ≡ s) × (¬ IsReported s → t ≡ unreported s)

abbrev is_reported : QueueDepthSnapshot → Bool
is_reported s =
    is_binding_integer s.backlog_bytes max_queue_backlog_bytes
    && is_binding_integer s.backlog_count max_evidence_value

is_reported_iff : (s : QueueDepthSnapshot) → (is_reported s ≡ true) ↔ IsReported s
is_reported_iff s = (λ h. ground arith, λ h. ground arith)

-- The snapshot that the parser makes.
abbrev kept_if : Bool → QueueDepthSnapshot → QueueDepthSnapshot
kept_if valid s = record s {
  backlog_bytes = keep_if valid s.backlog_bytes;
  backlog_count = keep_if valid s.backlog_count;
  oldest_message_timestamp = keep_if valid s.oldest_message_timestamp;
}

parse_streak-ok_iff : (o m : Option ℕ) → (parse_streak o ≡ ok m) ↔ (IsStreak o × (m ≡ o))
unfolding parse_streak integer
parse_streak-ok_iff o m = (λ h. ground arith, λ h. ground arith)

parse_queue_snapshot-kept :
    (s t : QueueDepthSnapshot)
    → (parse_queue_snapshot s ≡ ok t)
      ↔ (IsStreak s.consecutive_nonzero_samples × (t ≡ kept_if (is_reported s) s))
unfolding parse_queue_snapshot
parse_queue_snapshot-kept s t = (
  λ h.
      let (streak, p, done) = >>=_ok (parse_streak s.consecutive_nonzero_samples) _ h in
      let (fits, same) = (parse_streak-ok_iff s.consecutive_nonzero_samples streak).0 p in
      (fits, cc (ok_injective done, same)),
  λ h.
      let streak = s.consecutive_nonzero_samples in
      let parsed = (parse_streak-ok_iff streak streak).1 (h.0, refl) in
      let read : parse_queue_snapshot s ≡ ok (kept_if (is_reported s) s) = rw parsed refl in
      read ∙ ap ok (sym h.1),
)

IsCleaned-kept :
    (s t : QueueDepthSnapshot) (valid : Bool)
    → (valid ≡ true) ↔ IsReported s
    → IsCleaned s t ↔ (t ≡ kept_if valid s)
IsCleaned-kept s t true h = (λ k. k.0 (h.0 refl), λ k. (λ r. k, λ n. absurd (n (h.0 refl))))
IsCleaned-kept s t false h =
    (λ k. k.1 (λ r. let same = h.1 r in cc), λ k. (λ r. let same = h.1 r in cc, λ n. k))

pub parse_queue_snapshot-ok_iff :
    (s t : QueueDepthSnapshot)
    → (parse_queue_snapshot s ≡ ok t) ↔ (IsStreak s.consecutive_nonzero_samples × IsCleaned s t)
parse_queue_snapshot-ok_iff s t =
    let parsed = parse_queue_snapshot-kept s t in
    let cleaned = IsCleaned-kept s t (is_reported s) (is_reported_iff s) in
    (
      λ h. let (streak, same) = parsed.0 h in (streak, cleaned.1 same),
      λ h. parsed.1 (h.0, cleaned.0 h.1),
    )
