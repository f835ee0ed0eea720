-- ===== src/Durable/Policy.antt =====
-- What the retry policy of apps/sso/worker/durable-delivery.ts promises.
use sso_pg72_tw.Common.{
  ℕ, zero, suc, ◌-◌, ◌<◌, ◌≡◌, ◌↔◌, ◌∙◌, ap, true, false, Option, some, List, [], ◌∷◌, arith,
  length, min, get_elem?,
}
use sso_pg72_tw.Durable.{
  DurableDeliveryPolicy, DeliveryAttemptOutcome, DeliveryDisposition, backoff_seconds, backoff_at,
  select_delivery_disposition,
}

-- The entry of the schedule for each retry in turn; when they are used up, the last one again.
abbrev pub scheduled : ℕ → List ℕ → ℕ → ℕ
scheduled x [] n = x
scheduled x (y ∷ ys) zero = x
scheduled x (y ∷ ys) (suc n) = scheduled y ys n

get_elem?-clamped :
    (x : ℕ) (xs : List ℕ) (n : ℕ) → get_elem? (x ∷ xs) (min n (length xs)) ≡ some (scheduled x xs n)
get_elem?-clamped x [] n = let first : min n 0 ≡ 0 = omega arith in ap (get_elem? (x ∷ [])) first
get_elem?-clamped x (y ∷ ys) zero =
    let first : min 0 (suc (length ys)) ≡ 0 = omega arith in ap (get_elem? (x ∷ y ∷ ys)) first
get_elem?-clamped x (y ∷ ys) (suc n) =
    let next : min (suc n) (suc (length ys)) ≡ suc (min n (length ys)) = omega arith in
    ap (get_elem? (x ∷ y ∷ ys)) next ∙ get_elem?-clamped y ys n

pub backoff_at-scheduled :
    (p : DurableDeliveryPolicy) (n : ℕ)
    → backoff_at p (suc n) ≡ some (scheduled p.first_backoff p.more_backoff n)
unfolding backoff_at
backoff_at-scheduled p n =
    let last : length (backoff_seconds p) - 1 ≡ length p.more_backoff = omega arith in
    ap (λ k. get_elem? (backoff_seconds p) (min n k)) last
    ∙ get_elem?-clamped p.first_backoff p.more_backoff n

-- From the first attempt on, a retry is scheduled exactly for a transient failure with attempts
-- left, and its delay is the entry of the schedule at the number of the attempt, or the last entry
-- where the schedule is shorter.
pub select_delivery_disposition-retry_iff :
    (n : ℕ) (o : DeliveryAttemptOutcome) (p : DurableDeliveryPolicy) (delay : Option ℕ)
    → (select_delivery_disposition (suc n) o p ≡ DeliveryDisposition.retry delay) ↔ (
        (o.delivered ≡ false)
        × (o.transient ≡ true)
        × (suc n < p.max_attempts)
        × (delay ≡ some (scheduled p.first_backoff p.more_backoff n)))
unfolding select_delivery_disposition
select_delivery_disposition-retry_iff n o p delay =
    let entry = backoff_at-scheduled p n in (λ h. ground (arith, entry), λ h. ground (arith, entry))
