-- ===== src/Alert/Totality.antt =====
-- The evaluator returns: an expression whose `all` nodes are not empty and collect at most two
-- components never reaches the `throw`, and what it reports has one or two components.
use sso_pg72_tw.Common.{
  ℕ, ◌+◌, ◌≤◌, ◌≡◌, refl, Bool, true, false, Option, none, some, List, [], ◌++◌, arith, Result, ok,
  throw, max, leb, length, length-append,
}
use sso_pg72_tw.Common.Results.{◌>>=◌}
use sso_pg72_tw.Alert.Types.{
  Metric, MetricBag, AlertMetricEvidence, Threshold, Clauses, gte, ratio_gte, all_of, any_of, nil,
  clause,
}
use sso_pg72_tw.Alert.Expression.{
  Outcome, breached, clear, unknown, evaluate_gte, evaluate_ratio, finish_all, evaluate_expression,
  evaluate_all, evaluate_any,
}

-- The components that a breach of the expression reports at most.
abbrev mutual
  pub width : Threshold → ℕ
  width (gte m n) = 1
  width (ratio_gte d n b) = 1
  width (all_of cs) = width_all cs
  width (any_of cs) = width_any cs

  pub width_all : Clauses → ℕ
  width_all nil = 0
  width_all (clause c cs) = width c + width_all cs

  pub width_any : Clauses → ℕ
  width_any nil = 0
  width_any (clause c cs) = max (width c) (width_any cs)

abbrev NonEmpty : Clauses → Type 0
NonEmpty nil = ⊥
NonEmpty (clause c cs) = Unit

-- Every `all` in the expression is non-empty and reports at most two components.
abbrev mutual
  pub IsNarrow : Threshold → Type 0
  IsNarrow (gte m n) = Unit
  IsNarrow (ratio_gte d n b) = Unit
  IsNarrow (all_of cs) = NonEmpty cs × (width_all cs ≤ 2) × AllNarrow cs
  IsNarrow (any_of cs) = AllNarrow cs

  pub AllNarrow : Clauses → Type 0
  AllNarrow nil = Unit
  AllNarrow (clause c cs) = IsNarrow c × AllNarrow cs

-- The result is no `throw`, and a breach has between `lo` and `hi` components.
abbrev pub Fits : ℕ → ℕ → Result Outcome → Type 0
Fits lo hi (ok (breached found)) = (lo ≤ length found) × (length found ≤ hi)
Fits lo hi (ok _) = Unit
Fits lo hi (throw e) = ⊥

pub Fits-mono :
    (lo hi lo' hi' : ℕ) (r : Result Outcome) → lo' ≤ lo → hi ≤ hi' → Fits lo hi r → Fits lo' hi' r
Fits-mono lo hi lo' hi' (ok (breached found)) p q h = omega arith
Fits-mono lo hi lo' hi' (ok _) p q h = tt
Fits-mono lo hi lo' hi' (throw e) p q h = h

all_round :
    (w lo hi : ℕ) (r : Result Outcome) (next : List AlertMetricEvidence → Result Outcome)
    (blind : Result Outcome)
    → Fits 1 w r
    → ((found : List AlertMetricEvidence)
        → 1 ≤ length found
        → length found ≤ w
        → Fits lo hi (next found))
    → Fits lo hi blind
    → Fits lo hi (
        r >>= λ result. elim result [
          | clear ↦ ok clear
          | unknown ↦ blind
          | breached found ↦ next found
        ])
all_round w lo hi (ok (breached found)) next blind h k b = k found h.0 h.1
all_round w lo hi (ok clear) next blind h k b = tt
all_round w lo hi (ok unknown) next blind h k b = b
all_round w lo hi (throw e) next blind h k b = absurd h

any_round :
    (lo hi : ℕ) (r next blind : Result Outcome)
    → Fits lo hi r
    → Fits lo hi next
    → Fits lo hi blind
    → Fits lo hi (
        r >>= λ result. elim result [
          | breached found ↦ ok (breached found)
          | unknown ↦ blind
          | clear ↦ next
        ])
any_round lo hi (ok (breached found)) next blind h k b = h
any_round lo hi (ok clear) next blind h k b = k
any_round lo hi (ok unknown) next blind h k b = b
any_round lo hi (throw e) next blind h k b = absurd h

evaluate_gte-Fits : (m : Metric) (n : ℕ) (o : Option ℕ) → Fits 1 1 (ok (evaluate_gte m n o))
unfolding evaluate_gte
evaluate_gte-Fits m n none = tt
evaluate_gte-Fits m n (some x) = ground arith

evaluate_ratio-Fits :
    (d n b : ℕ) (num den : Option ℕ) → Fits 1 1 (ok (evaluate_ratio d n b num den))
unfolding evaluate_ratio
evaluate_ratio-Fits d n b none den = tt
evaluate_ratio-Fits d n b (some x) none = tt
evaluate_ratio-Fits d n b (some x) (some y) = ground arith

finish_all-Fits :
    (lo hi : ℕ) (found : List AlertMetricEvidence) (seen : Bool)
    → (seen ≡ false → lo ≤ length found)
    → length found ≤ hi
    → hi ≤ 2
    → Fits lo hi (finish_all found seen)
unfolding finish_all
finish_all-Fits lo hi found true p q r = tt
finish_all-Fits lo hi found false p q r =
    let few : leb (length found) 2 ≡ true = ground arith in rw few (p refl, q)

module _ (bag : MetricBag) where
  mutual
    unfolding evaluate_expression

    evaluate_expression_bounded :
        (t : Threshold) → IsNarrow t → Fits 1 (width t) (evaluate_expression t bag)
    evaluate_expression_bounded (gte m n) h = evaluate_gte-Fits m n (bag m)
    evaluate_expression_bounded (ratio_gte d n b) h =
        evaluate_ratio-Fits d n b (bag Metric.numerator) (bag Metric.denominator)
    evaluate_expression_bounded (all_of nil) h = absurd h.0
    evaluate_expression_bounded (all_of (clause c cs)) h =
        all_round (width c) 1 (width c + width_all cs) (evaluate_expression c bag) _ _
          (evaluate_expression_bounded c h.2.0)
          (λ more p q.
            evaluate_all-Fits 1 (width c + width_all cs) cs more false (λ e. p) (omega arith)
              (omega arith) h.2.1)
          (evaluate_all-Fits 1 (width c + width_all cs) cs [] true (λ e. cc) (omega arith)
            (omega arith) h.2.1)
    evaluate_expression_bounded (any_of cs) h = evaluate_any-Fits cs false h

    evaluate_all-Fits :
        (lo hi : ℕ) (cs : Clauses) (found : List AlertMetricEvidence) (seen : Bool)
        → (seen ≡ false → lo ≤ length found)
        → length found + width_all cs ≤ hi
        → hi ≤ 2
        → AllNarrow cs
        → Fits lo hi (evaluate_all cs bag found seen)
    evaluate_all-Fits lo hi nil found seen p q r h =
        finish_all-Fits lo hi found seen p (omega arith) r
    evaluate_all-Fits lo hi (clause c cs) found seen p q r h =
        all_round (width c) lo hi (evaluate_expression c bag) _ _
          (evaluate_expression_bounded c h.0)
          (λ more a b.
            evaluate_all-Fits lo hi cs (found ++ more) seen
              (λ e. let low = p e in omega (arith, length-append found more))
              (omega (arith, length-append found more)) r h.1)
          (evaluate_all-Fits lo hi cs found true (λ e. cc) (omega arith) r h.1)

    evaluate_any-Fits :
        (cs : Clauses) (seen : Bool)
        → AllNarrow cs
        → Fits 1 (width_any cs) (evaluate_any cs bag seen)
    evaluate_any-Fits nil true h = tt
    evaluate_any-Fits nil false h = tt
    evaluate_any-Fits (clause c cs) seen h =
        any_round 1 (max (width c) (width_any cs)) (evaluate_expression c bag) _ _
          (Fits-mono 1 (width c) 1 _ _ (omega arith) (omega arith)
            (evaluate_expression_bounded c h.0))
          (Fits-mono 1 (width_any cs) 1 _ _ (omega arith) (omega arith)
            (evaluate_any-Fits cs seen h.1))
          (Fits-mono 1 (width_any cs) 1 _ _ (omega arith) (omega arith)
            (evaluate_any-Fits cs true h.1))

-- An expression in which every `all` is non-empty and reports at most two components is evaluated
-- without an exception, and a breach of it has at least one component and at most as many as the width
-- of the expression.
pub evaluate_expression-Fits :
    (bag : MetricBag) (t : Threshold) → IsNarrow t → Fits 1 (width t) (evaluate_expression t bag)
evaluate_expression-Fits bag t h = evaluate_expression_bounded bag t h
