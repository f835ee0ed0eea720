-- ===== src/Alert/Known.antt =====
-- Metrics that a threshold expression of apps/sso/worker/alert-rules.ts reads and that are known:
-- then no verdict, and no window, is unknown.
use sso_pg72_tw.Common.{
  ℕ, ◌≡◌, refl, ◌∙◌, subst, inl, inr, Bool-cases, ltb, leb, length, false, Option, none, some, List,
  [], ◌∷◌, Result, ok, throw,
}
use sso_pg72_tw.Common.Results.{◌>>=◌}
use sso_pg72_tw.Alert.Types.{
  Metric, MetricBag, AlertSeverity, AlertWindowKey, AlertMetricEvidence, Windowed, at_window,
  Threshold, Clauses, gte, ratio_gte, all_of, any_of, nil, clause,
}
use sso_pg72_tw.Alert.Definitions.{AlertRuleDefinition, threshold_at}
use sso_pg72_tw.Alert.Expression.{
  Outcome, breached, clear, unknown, evaluate_gte, evaluate_ratio, ratio_is_clear, finish_all,
  evaluate_expression, evaluate_all, evaluate_any,
}
use sso_pg72_tw.Alert.Evaluate.{WindowEvaluation, record_outcome}
use sso_pg72_tw.Alert.Windows.{
  OptionNarrow, threshold_outcome, window_outcome, collect, evaluate_expression-ok,
}

abbrev pub IsKnown : {A : Type 0} → Option A → Type 0
IsKnown none = ⊥
IsKnown (some a) = Unit

-- The bag has every metric that the expression reads.
abbrev mutual
  pub Covers : MetricBag → Threshold → Type 0
  Covers bag (gte metric value) = IsKnown (bag metric)
  Covers bag (ratio_gte d n b) = IsKnown (bag Metric.numerator) × IsKnown (bag Metric.denominator)
  Covers bag (all_of clauses) = AllCovered bag clauses
  Covers bag (any_of clauses) = AllCovered bag clauses

  pub AllCovered : MetricBag → Clauses → Type 0
  AllCovered bag nil = Unit
  AllCovered bag (clause c cs) = Covers bag c × AllCovered bag cs

abbrev pub OptionCovers : MetricBag → Option Threshold → Type 0
OptionCovers bag none = Unit
OptionCovers bag (some t) = Covers bag t

abbrev IsCertain : Result Outcome → Type 0
IsCertain (ok unknown) = ⊥
IsCertain _ = Unit

all_round :
    (r : Result Outcome) (next : List AlertMetricEvidence → Result Outcome) (blind : Result Outcome)
    → IsCertain r
    → ((found : List AlertMetricEvidence) → IsCertain (next found))
    → IsCertain (
        r >>= λ result. elim result [
          | clear ↦ ok clear
          | unknown ↦ blind
          | breached found ↦ next found
        ])
all_round (ok (breached found)) next blind h k = k found
all_round (ok clear) next blind h k = tt
all_round (ok unknown) next blind h k = absurd h
all_round (throw e) next blind h k = tt

any_round :
    (r next blind : Result Outcome)
    → IsCertain r
    → IsCertain next
    → IsCertain (
        r >>= λ result. elim result [
          | breached found ↦ ok (breached found)
          | unknown ↦ blind
          | clear ↦ next
        ])
any_round (ok (breached found)) next blind h k = tt
any_round (ok clear) next blind h k = k
any_round (ok unknown) next blind h k = absurd h
any_round (throw e) next blind h k = tt

finish_all-IsCertain : (found : List AlertMetricEvidence) → IsCertain (finish_all found false)
unfolding finish_all
finish_all-IsCertain found = elim (Bool-cases (leb (length found) 2)) [
  | inl t ↦ rw t tt
  | inr f ↦ rw f tt
]

gte-IsCertain :
    (m : Metric) (n : ℕ) (x : Option ℕ) → IsKnown x → IsCertain (ok (evaluate_gte m n x))
unfolding evaluate_gte
gte-IsCertain m n none h = absurd h
gte-IsCertain m n (some x) h = elim (Bool-cases (ltb x n)) [ inl t ↦ rw t tt | inr f ↦ rw f tt ]

ratio-IsCertain :
    (d n b : ℕ) (x y : Option ℕ) → IsKnown x → IsKnown y → IsCertain (ok (evaluate_ratio d n b x y))
unfolding evaluate_ratio
ratio-IsCertain d n b none y h k = absurd h
ratio-IsCertain d n b (some x) none h k = absurd k
ratio-IsCertain d n b (some x) (some y) h k = elim (Bool-cases (ratio_is_clear d n b x y)) [
  | inl t ↦ rw t tt
  | inr f ↦ rw f tt
]

module _ (bag : MetricBag) where
  mutual
    unfolding evaluate_expression

    evaluate_expression-IsCertain :
        (t : Threshold) → Covers bag t → IsCertain (evaluate_expression t bag)
    evaluate_expression-IsCertain (gte m n) h = gte-IsCertain m n (bag m) h
    evaluate_expression-IsCertain (ratio_gte d n b) h =
        ratio-IsCertain d n b (bag Metric.numerator) (bag Metric.denominator) h.0 h.1
    evaluate_expression-IsCertain (all_of cs) h = evaluate_all-IsCertain cs [] h
    evaluate_expression-IsCertain (any_of cs) h = evaluate_any-IsCertain cs h

    evaluate_all-IsCertain :
        (cs : Clauses) (found : List AlertMetricEvidence)
        → AllCovered bag cs
        → IsCertain (evaluate_all cs bag found false)
    evaluate_all-IsCertain nil found h = finish_all-IsCertain found
    evaluate_all-IsCertain (clause c cs) found h =
        all_round (evaluate_expression c bag) _ _ (evaluate_expression-IsCertain c h.0)
          (λ more. evaluate_all-IsCertain cs _ h.1)

    evaluate_any-IsCertain :
        (cs : Clauses) → AllCovered bag cs → IsCertain (evaluate_any cs bag false)
    evaluate_any-IsCertain nil h = tt
    evaluate_any-IsCertain (clause c cs) h =
        any_round (evaluate_expression c bag) _ _ (evaluate_expression-IsCertain c h.0)
          (evaluate_any-IsCertain cs h.1)

threshold_outcome-IsCertain :
    (o : Option Threshold) (bag : MetricBag)
    → OptionNarrow o
    → OptionCovers bag o
    → IsCertain (ok (threshold_outcome o bag))
threshold_outcome-IsCertain none bag n h = tt
threshold_outcome-IsCertain (some t) bag n h =
    subst IsCertain (evaluate_expression-ok t bag n.0) (evaluate_expression-IsCertain bag t h)

record_certain :
    (w : AlertWindowKey) (e : WindowEvaluation) (o : Outcome)
    → IsCertain (ok o)
    → (record_outcome w e o).unknown ≡ e.unknown
unfolding record_outcome
record_certain w e (breached found) h = refl
record_certain w e clear h = refl
record_certain w e unknown h = absurd h

module _ (d : AlertRuleDefinition) (metrics : Windowed MetricBag) (s : AlertSeverity)
    (narrow : (w : AlertWindowKey) → OptionNarrow (threshold_at d w s))
    (covered : (w : AlertWindowKey) → OptionCovers (at_window metrics w) (threshold_at d w s)) where
  -- Where every threshold is covered, the loop over the windows never turns blind.
  pub collect_certain :
      (ws : List AlertWindowKey) (e : WindowEvaluation)
      → (collect d metrics s ws e).unknown ≡ e.unknown
  collect_certain [] e = refl
  collect_certain (w ∷ ws) e =
      collect_certain ws (record_outcome w e (window_outcome d metrics s w))
      ∙ record_certain w e (window_outcome d metrics s w) (
          threshold_outcome-IsCertain (threshold_at d w s) (at_window metrics w) (narrow w)
            (covered w))
