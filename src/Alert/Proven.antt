-- ===== src/Alert/Proven.antt =====
-- Components of evidence that the parser of apps/sso/worker/alert-rules.ts takes back as they are:
-- those that the evaluation of a threshold makes from metrics in the persistence domain.
use Prim.Native.String.{String}
use sso_pg72_tw.Common.{ℕ, ◌*◌, ◌/◌, ◌≤◌, ◌≡◌, refl, true, false, arith, ok}
use sso_pg72_tw.Alert.Types.{Metric, MetricBag, AlertMetricEvidence}
use sso_pg72_tw.Alert.Observation.{max_evidence_value}
use sso_pg72_tw.Alert.Expression.{
  scalar_evidence, ratio_evidence, ratio_is_clear, metric_names, evidence_domain,
}
use sso_pg72_tw.Alert.Bags.{or_zero}
use sso_pg72_tw.Alert.Metrics.{integer, max_ratio_field}
use sso_pg72_tw.Alert.Evidence.{
  parse_metric_evidence, is_evaluator_missing, is_ratio, required_integer, same_evidence_kind,
  same_unit, metric_domain,
}

-- The parser takes the component as it is, and its value reaches its threshold.
pub record IsProven (e : AlertMetricEvidence) : Type 0 where
  pub parses : (name : String) → parse_metric_evidence e name ≡ ok e
  pub reached : e.threshold ≤ e.observed_value

-- The metrics of a bag are in the persistence domain.
pub record IsStorable (bag : MetricBag) : Type 0 where
  pub values_capped : (m : Metric) → or_zero (bag m) ≤ max_evidence_value
  pub flag_capped : or_zero (bag Metric.evaluator_missing) ≤ 1
  pub part_capped : or_zero (bag Metric.numerator) ≤ or_zero (bag Metric.denominator)
  pub whole_capped : or_zero (bag Metric.denominator) ≤ max_ratio_field

abbrev IsFlag : Metric → Type 0
IsFlag m = is_evaluator_missing (metric_names m) ≡ true

pub flag_metric : (m : Metric) → IsFlag m → m ≡ Metric.evaluator_missing
flag_metric Metric.evaluator_missing h = refl
flag_metric _ h = cc

domain_agrees :
    (m : Metric)
    → (same_evidence_kind (evidence_domain m).0 (metric_domain (metric_names m)).0 ≡ true)
      × (same_unit (evidence_domain m).1 (metric_domain (metric_names m)).1 ≡ true)
      × (is_ratio (metric_names m) ≡ false)
domain_agrees Metric.count = (refl, refl, refl)
domain_agrees _ = (refl, refl, refl)

pub scalar_evidence-IsProven :
    (m : Metric) (x n : ℕ)
    → x ≤ max_evidence_value
    → (IsFlag m → x ≤ 1)
    → 1 ≤ n
    → n ≤ x
    → IsProven (scalar_evidence m x n)
unfolding scalar_evidence parse_metric_evidence integer
scalar_evidence-IsProven m x n cap flag low reach =
    let dom = domain_agrees m in
    record { parses = λ name. rw (dom.0, dom.1, dom.2) (ground arith); reached = reach }

quotient_reached : (a b y : ℕ) → 1 ≤ y → b * y ≤ a → b ≤ a / y
quotient_reached a b y pos h = grind arith

quotient_capped : (x y : ℕ) → x ≤ y → x * 10000 / y ≤ 10000
quotient_capped x y h = grind arith

pub ratio_evidence-IsProven :
    (d m b x y : ℕ)
    → x ≤ y
    → y ≤ max_ratio_field
    → d ≤ max_ratio_field
    → 1 ≤ m
    → 1 ≤ b
    → b ≤ 10000
    → ratio_is_clear d m b x y ≡ false
    → IsProven (ratio_evidence d m b x y)
unfolding ratio_evidence ratio_is_clear parse_metric_evidence integer required_integer
ratio_evidence-IsProven d m b x y part cap samples low floor top breach = record {
  parses = λ name. let reached = quotient_capped x y part in ground arith;
  reached = quotient_reached (x * 10000) b y (ground arith) (ground arith);
}
