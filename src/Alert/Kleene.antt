-- ===== src/Alert/Kleene.antt =====
-- What a threshold expression means, and that the evaluator agrees with it for every value that
-- the unknown metrics may have.
use sso_pg72_tw.Common.{
  ℕ, ◌*◌, ◌≤◌, ◌<◌, ◌≡◌, refl, ◌⊎◌, inl, inr, Bool, true, false, Option, none, some, List, [], ◌++◌,
  arith, Result, ok, throw, Bool-cases, ltb, ltb→lt,
}
use sso_pg72_tw.Common.Results.{◌>>=◌}
use sso_pg72_tw.Alert.Types.{
  Metric, MetricBag, AlertMetricEvidence, Threshold, Clauses, gte, ratio_gte, all_of, any_of, nil,
  clause,
}
use sso_pg72_tw.Alert.Expression.{
  Outcome, breached, clear, unknown, evaluate_gte, ratio_is_clear, evaluate_ratio, finish_all,
  evaluate_expression, evaluate_all, evaluate_any,
}

-- The expression is true when the metrics have the values `v`.
abbrev mutual
  pub Holds : (Metric → ℕ) → Threshold → Type 0
  Holds v (gte metric value) = value ≤ v metric
  Holds v (ratio_gte min_den min_num bps) =
      (min_num ≤ v Metric.numerator)
      × (min_den ≤ v Metric.denominator)
      × (0 < v Metric.denominator)
      × (v Metric.denominator * bps ≤ v Metric.numerator * 10000)
  Holds v (all_of clauses) = AllHold v clauses
  Holds v (any_of clauses) = AnyHolds v clauses

  pub AllHold : (Metric → ℕ) → Clauses → Type 0
  AllHold v nil = Unit
  AllHold v (clause c cs) = Holds v c × AllHold v cs

  pub AnyHolds : (Metric → ℕ) → Clauses → Type 0
  AnyHolds v nil = ⊥
  AnyHolds v (clause c cs) = Holds v c ⊎ AnyHolds v cs

-- `v` gives the known metrics of the bag their values, and the unknown ones any value.
abbrev pub IsCompletion : MetricBag → (Metric → ℕ) → Type 0
IsCompletion bag v = (m : Metric) (n : ℕ) → bag m ≡ some n → v m ≡ n

-- A verdict agrees with a proposition: "breached" and "clear" commit, the others do not.
abbrev pub Agrees : Type 0 → Result Outcome → Type 0
Agrees P (ok (breached found)) = P
Agrees P (ok clear) = ¬ P
Agrees P (ok unknown) = Unit
Agrees P (throw e) = Unit

abbrev NeverBreached : Result Outcome → Type 0
NeverBreached (ok (breached found)) = ⊥
NeverBreached _ = Unit

abbrev NeverClear : Result Outcome → Type 0
NeverClear (ok clear) = ⊥
NeverClear _ = Unit

Agrees-map : {P Q : Type 0} (r : Result Outcome) → (P → Q) → (¬ P → ¬ Q) → Agrees P r → Agrees Q r
Agrees-map (ok (breached found)) f g h = f h
Agrees-map (ok clear) f g h = g h
Agrees-map (ok unknown) f g h = tt
Agrees-map (throw e) f g h = tt

-- One round of `all`, over the verdicts of the clause and of the rounds that follow.
all_step :
    (P Q : Type 0) (r : Result Outcome) (next : List AlertMetricEvidence → Result Outcome)
    (blind : Result Outcome)
    → Agrees P r
    → ((found : List AlertMetricEvidence) → Agrees Q (next found))
    → Agrees Q blind
    → NeverBreached blind
    → Agrees (P × Q) (
        r >>= λ result. elim result [
          | clear ↦ ok clear
          | unknown ↦ blind
          | breached found ↦ next found
        ])
all_step P Q (ok (breached found)) next blind h k b n =
    Agrees-map (next found) (λ q. (h, q)) (λ nq pq. nq pq.1) (k found)
all_step P Q (ok clear) next blind h k b n = λ pq. h pq.0
all_step P Q (ok unknown) next (ok (breached found)) h k b n = absurd n
all_step P Q (ok unknown) next (ok clear) h k b n = λ pq. b pq.1
all_step P Q (ok unknown) next (ok unknown) h k b n = tt
all_step P Q (ok unknown) next (throw e) h k b n = tt
all_step P Q (throw e) next blind h k b n = tt

any_step :
    (P Q : Type 0) (r next blind : Result Outcome)
    → Agrees P r
    → Agrees Q next
    → Agrees Q blind
    → NeverClear blind
    → Agrees (P ⊎ Q) (
        r >>= λ result. elim result [
          | breached found ↦ ok (breached found)
          | unknown ↦ blind
          | clear ↦ next
        ])
any_step P Q (ok (breached found)) next blind h k b n = inl h
any_step P Q (ok clear) next blind h k b n =
    Agrees-map next inr (λ nq. elim [ inl p ↦ h p | inr q ↦ nq q ]) k
any_step P Q (ok unknown) next (ok (breached found)) h k b n = inr b
any_step P Q (ok unknown) next (ok clear) h k b n = absurd n
any_step P Q (ok unknown) next (ok unknown) h k b n = tt
any_step P Q (ok unknown) next (throw e) h k b n = tt
any_step P Q (throw e) next blind h k b n = tt

blind_all :
    (r : Result Outcome) (next : List AlertMetricEvidence → Result Outcome) (blind : Result Outcome)
    → ((found : List AlertMetricEvidence) → NeverBreached (next found))
    → NeverBreached blind
    → NeverBreached (
        r >>= λ result. elim result [
          | clear ↦ ok clear
          | unknown ↦ blind
          | breached found ↦ next found
        ])
blind_all (ok (breached found)) next blind k b = k found
blind_all (ok clear) next blind k b = tt
blind_all (ok unknown) next blind k b = b
blind_all (throw e) next blind k b = tt

blind_any :
    (r next blind : Result Outcome)
    → NeverClear next
    → NeverClear blind
    → NeverClear (
        r >>= λ result. elim result [
          | breached found ↦ ok (breached found)
          | unknown ↦ blind
          | clear ↦ next
        ])
blind_any (ok (breached found)) next blind k b = tt
blind_any (ok clear) next blind k b = k
blind_any (ok unknown) next blind k b = b
blind_any (throw e) next blind k b = tt

module _ (bag : MetricBag) where
  evaluate_all-NeverBreached :
      (cs : Clauses) (found : List AlertMetricEvidence)
      → NeverBreached (evaluate_all cs bag found true)
  unfolding evaluate_all finish_all
  evaluate_all-NeverBreached nil found = tt
  evaluate_all-NeverBreached (clause c cs) found =
      blind_all (evaluate_expression c bag) _ _
        (λ more. evaluate_all-NeverBreached cs (found ++ more))
        (evaluate_all-NeverBreached cs found)

  evaluate_any-NeverClear : (cs : Clauses) → NeverClear (evaluate_any cs bag true)
  unfolding evaluate_any
  evaluate_any-NeverClear nil = tt
  evaluate_any-NeverClear (clause c cs) =
      blind_any (evaluate_expression c bag) _ _ (evaluate_any-NeverClear cs)
        (evaluate_any-NeverClear cs)

finish_all-Agrees :
    (found : List AlertMetricEvidence) (seen : Bool) → Agrees (Unit {0}) (finish_all found seen)
unfolding finish_all
finish_all-Agrees found true = tt
finish_all-Agrees found false = ground arith

ltb-false : (x n : ℕ) → ltb x n ≡ false → n ≤ x
ltb-false x n h = ground arith

ratio_is_clear-true :
    (d n b x y : ℕ)
    → ratio_is_clear d n b x y ≡ true
    → ¬ ((n ≤ x) × (d ≤ y) × (0 < y) × (y * b ≤ x * 10000))
unfolding ratio_is_clear
ratio_is_clear-true d n b x y h (p, q, r, s) = ground arith

ratio_is_clear-false :
    (d n b x y : ℕ)
    → ratio_is_clear d n b x y ≡ false
    → (n ≤ x) × (d ≤ y) × (0 < y) × (y * b ≤ x * 10000)
unfolding ratio_is_clear
ratio_is_clear-false d n b x y h = ground arith

module _ (bag : MetricBag) (v : Metric → ℕ) (completes : IsCompletion bag v) where
  evaluate_gte-Agrees :
      (m : Metric) (n : ℕ) (o : Option ℕ) → bag m ≡ o → Agrees (n ≤ v m) (ok (evaluate_gte m n o))
  unfolding evaluate_gte
  evaluate_gte-Agrees m n none e = tt
  evaluate_gte-Agrees m n (some x) e = elim (Bool-cases (ltb x n)) [
    | inl below ↦ rw below (λ holds. omega (arith, completes m x e, ltb→lt x n below))
    | inr above ↦ rw above (omega (arith, completes m x e, ltb-false x n above))
  ]

  evaluate_ratio-Agrees :
      (d n b : ℕ) (num den : Option ℕ)
      → bag Metric.numerator ≡ num
      → bag Metric.denominator ≡ den
      → Agrees (Holds v (ratio_gte d n b)) (ok (evaluate_ratio d n b num den))
  unfolding evaluate_ratio
  evaluate_ratio-Agrees d n b none den e f = tt
  evaluate_ratio-Agrees d n b (some x) none e f = tt
  evaluate_ratio-Agrees d n b (some x) (some y) e f = elim (Bool-cases (ratio_is_clear d n b x y)) [
    | inl below ↦
        rw (below, completes Metric.numerator x e, completes Metric.denominator y f)
          (ratio_is_clear-true d n b x y below)
    | inr above ↦
        rw (above, completes Metric.numerator x e, completes Metric.denominator y f)
          (ratio_is_clear-false d n b x y above)
  ]

  mutual
    unfolding evaluate_expression

    evaluate_expression_sound : (t : Threshold) → Agrees (Holds v t) (evaluate_expression t bag)
    evaluate_expression_sound (gte m n) = evaluate_gte-Agrees m n (bag m) refl
    evaluate_expression_sound (ratio_gte d n b) =
        evaluate_ratio-Agrees d n b (bag Metric.numerator) (bag Metric.denominator) refl refl
    evaluate_expression_sound (all_of cs) = evaluate_all_sound cs [] false
    evaluate_expression_sound (any_of cs) = evaluate_any_sound cs false

    evaluate_all_sound :
        (cs : Clauses) (found : List AlertMetricEvidence) (seen : Bool)
        → Agrees (AllHold v cs) (evaluate_all cs bag found seen)
    evaluate_all_sound nil found seen = finish_all-Agrees found seen
    evaluate_all_sound (clause c cs) found seen =
        all_step (Holds v c) (AllHold v cs) (evaluate_expression c bag) _ _
          (evaluate_expression_sound c) (λ more. evaluate_all_sound cs (found ++ more) seen)
          (evaluate_all_sound cs found true) (evaluate_all-NeverBreached bag cs found)

    evaluate_any_sound :
        (cs : Clauses) (seen : Bool) → Agrees (AnyHolds v cs) (evaluate_any cs bag seen)
    evaluate_any_sound nil true = tt
    evaluate_any_sound nil false = λ h. h
    evaluate_any_sound (clause c cs) seen =
        any_step (Holds v c) (AnyHolds v cs) (evaluate_expression c bag) _ _
          (evaluate_expression_sound c) (evaluate_any_sound cs seen) (evaluate_any_sound cs true)
          (evaluate_any-NeverClear bag cs)

-- For every way to complete the unknown metrics, a verdict of the evaluator agrees with the
-- meaning of the expression: "breached" only if it holds, "clear" only if it does not.
pub evaluate_expression-Agrees :
    (bag : MetricBag) (v : Metric → ℕ) (t : Threshold)
    → IsCompletion bag v
    → Agrees (Holds v t) (evaluate_expression t bag)
evaluate_expression-Agrees bag v t completes = evaluate_expression_sound bag v completes t
