-- ===== src/Alert/Emitted.antt =====
-- The evidence of a breached threshold expression of apps/sso/worker/alert-rules.ts against the
-- contracts of the expression: `evaluateExpression` and `evidenceContractsFor`.
use sso_pg72_tw.Common.{
  ℕ, ◌≤◌, ◌≡◌, refl, inl, inr, Bool, true, false, Bool-cases, Option, none, some, List, [], ◌∷◌,
  ◌++◌, arith, subst, leb, length, All-append, ok, ltb,
}
use sso_pg72_tw.Alert.Types.{
  Metric, MetricBag, Threshold, Clauses, gte, ratio_gte, all_of, any_of, nil, clause,
  AlertMetricEvidence,
}
use sso_pg72_tw.Alert.Expression.{
  evaluate_gte, evaluate_ratio, ratio_is_clear, finish_all, evaluate_expression, evaluate_all,
  evaluate_any, metric_names, scalar_evidence, ratio_evidence,
}
use sso_pg72_tw.Alert.Observation.{max_evidence_value}
use sso_pg72_tw.Alert.Evidence.{is_evaluator_missing}
use sso_pg72_tw.Alert.Metrics.{max_ratio_field}
use sso_pg72_tw.Alert.Contracts.{
  Contract, combine, evidence_contracts_for, contracts_of_any, contracts_of_all,
}
use sso_pg72_tw.Alert.Proven.{
  IsProven, IsStorable, flag_metric, scalar_evidence-IsProven, ratio_evidence-IsProven,
}
use sso_pg72_tw.Alert.Covers.{IsCovered, Proves, Any-combine, all_round, any_round}

-- The thresholds of the expression are in the domain of evidence.
abbrev mutual
  pub IsCanonical : Threshold → Type 0
  IsCanonical (gte metric value) = 1 ≤ value
  IsCanonical (ratio_gte d n b) = (d ≤ max_ratio_field) × (1 ≤ n) × (1 ≤ b) × (b ≤ 10000)
  IsCanonical (all_of cs) = AllCanonical cs
  IsCanonical (any_of cs) = AllCanonical cs

  pub AllCanonical : Clauses → Type 0
  AllCanonical nil = Unit
  AllCanonical (clause c cs) = IsCanonical c × AllCanonical cs

finish_all-Proves :
    (total : List Contract) (found : List AlertMetricEvidence) (seen : Bool)
    → IsCovered total found
    → Proves total (finish_all found seen)
unfolding finish_all
finish_all-Proves total found true h = tt
finish_all-Proves total found false h = elim (Bool-cases (leb (length found) 2)) [
  | inl t ↦ rw t h
  | inr f ↦ rw f tt
]

module _ (bag : MetricBag) (storable : IsStorable bag) where
  flagged :
      (m : Metric) (x : ℕ) → bag m ≡ some x → is_evaluator_missing (metric_names m) ≡ true → x ≤ 1
  flagged m x e f =
      let here : bag Metric.evaluator_missing ≡ some x =
        subst (λ k. bag k ≡ some x) (flag_metric m f) e in
      rw here at storable.flag_capped

  gte-Proves :
      (m : Metric) (n : ℕ) (x : Option ℕ)
      → bag m ≡ x
      → 1 ≤ n
      → Proves (evidence_contracts_for (gte m n)) (ok (evaluate_gte m n x))
  unfolding evaluate_gte scalar_evidence evidence_contracts_for
  gte-Proves m n none e low = tt
  gte-Proves m n (some x) e low = elim (Bool-cases (ltb x n)) [
    | inl t ↦ rw t tt
    | inr f ↦
        let cap : x ≤ max_evidence_value = rw e at (storable.values_capped m) in
        rw f (
          (scalar_evidence-IsProven m x n cap (flagged m x e) low (ground arith), tt),
          inl ((refl, refl, refl, refl), tt),
        )
  ]

  ratio-Proves :
      (d n b : ℕ) (x y : Option ℕ)
      → bag Metric.numerator ≡ x
      → bag Metric.denominator ≡ y
      → IsCanonical (ratio_gte d n b)
      → Proves (evidence_contracts_for (ratio_gte d n b)) (ok (evaluate_ratio d n b x y))
  unfolding evaluate_ratio ratio_evidence evidence_contracts_for
  ratio-Proves d n b none y p q h = tt
  ratio-Proves d n b (some x) none p q h = tt
  ratio-Proves d n b (some x) (some y) p q h = elim (Bool-cases (ratio_is_clear d n b x y)) [
    | inl t ↦ rw t tt
    | inr f ↦
        let part : x ≤ y = rw (p, q) at storable.part_capped in
        let cap : y ≤ max_ratio_field = rw q at storable.whole_capped in
        rw f (
          (ratio_evidence-IsProven d n b x y part cap h.0 h.1 h.2 h.3 f, tt),
          inl ((refl, refl, refl, refl), tt),
        )
  ]

  mutual
    unfolding evaluate_expression evidence_contracts_for finish_all

    pub evaluate_expression-Proves :
        (t : Threshold)
        → IsCanonical t
        → Proves (evidence_contracts_for t) (evaluate_expression t bag)
    evaluate_expression-Proves (gte m n) h = gte-Proves m n (bag m) refl h
    evaluate_expression-Proves (ratio_gte d n b) h =
        ratio-Proves d n b (bag Metric.numerator) (bag Metric.denominator) refl refl h
    evaluate_expression-Proves (all_of cs) h =
        evaluate_all-Proves cs ([] ∷ []) [] false h (tt, inl tt)
    evaluate_expression-Proves (any_of cs) h = evaluate_any-Proves cs false h

    evaluate_all-Proves :
        (cs : Clauses) (combined : List Contract) (found : List AlertMetricEvidence) (seen : Bool)
        → AllCanonical cs
        → IsCovered combined found
        → Proves (contracts_of_all cs combined) (evaluate_all cs bag found seen)
    evaluate_all-Proves nil combined found seen h k = finish_all-Proves combined found seen k
    evaluate_all-Proves (clause c cs) combined found seen h k =
        all_round (evidence_contracts_for c) _ (evaluate_expression c bag) _ _
          (evaluate_expression-Proves c h.0)
          (λ more g. evaluate_all-Proves cs _ (found ++ more) seen h.1 (
            All-append IsProven found more k.0 g.0,
            Any-combine found more combined (evidence_contracts_for c) k.1 g.1,
          ))
          (blind_all-Proves cs (combine combined (evidence_contracts_for c)) found h.1)

    -- Once a clause is unknown, the loop reports no breach.
    blind_all-Proves :
        (cs : Clauses) (combined : List Contract) (found : List AlertMetricEvidence)
        → AllCanonical cs
        → Proves (contracts_of_all cs combined) (evaluate_all cs bag found true)
    blind_all-Proves nil combined found h = tt
    blind_all-Proves (clause c cs) combined found h =
        all_round (evidence_contracts_for c) _ (evaluate_expression c bag) _ _
          (evaluate_expression-Proves c h.0) (λ more g. blind_all-Proves cs _ (found ++ more) h.1)
          (blind_all-Proves cs (combine combined (evidence_contracts_for c)) found h.1)

    evaluate_any-Proves :
        (cs : Clauses) (seen : Bool)
        → AllCanonical cs
        → Proves (contracts_of_any cs) (evaluate_any cs bag seen)
    evaluate_any-Proves nil true h = tt
    evaluate_any-Proves nil false h = tt
    evaluate_any-Proves (clause c cs) seen h =
        any_round (evidence_contracts_for c) (contracts_of_any cs) (evaluate_expression c bag) _ _
          (evaluate_expression-Proves c h.0) (evaluate_any-Proves cs seen h.1)
          (evaluate_any-Proves cs true h.1)
