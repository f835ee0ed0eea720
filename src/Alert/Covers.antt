-- ===== src/Alert/Covers.antt =====
-- Evidence that meets a contract of apps/sso/worker/alert-rules.ts, and how the contracts of
-- `evidenceContractsFor` are put together.
use sso_pg72_tw.Common.{◌≡◌, inl, inr, List, [], ◌∷◌, ◌++◌, map, All, Any, Result, ok, throw}
use sso_pg72_tw.Common.Results.{◌>>=◌}
use sso_pg72_tw.Alert.Types.{AlertMetricEvidence}
use sso_pg72_tw.Alert.Expression.{Outcome, breached, clear, unknown}
use sso_pg72_tw.Alert.Contracts.{AlertEvidenceContractComponent, Contract, combine}
use sso_pg72_tw.Alert.Proven.{IsProven}

abbrev pub IsMet : AlertMetricEvidence → AlertEvidenceContractComponent → Type 0
IsMet e c =
    (e.metric_name ≡ c.metric_name)
    × (e.minimum_numerator_count ≡ c.minimum_numerator_count)
    × (e.minimum_sample_count ≡ c.minimum_sample_count)
    × (e.threshold ≡ c.threshold)

-- The components are those that the contract names, in its order.
abbrev pub Meets : List AlertMetricEvidence → Contract → Type 0
Meets [] [] = Unit
Meets (e ∷ es) (c ∷ cs) = IsMet e c × Meets es cs
Meets _ _ = ⊥

-- The components parse, and some contract of the list names them.
abbrev pub IsCovered : List Contract → List AlertMetricEvidence → Type 0
IsCovered contracts found = All IsProven found × Any (Meets found) contracts

abbrev pub Proves : List Contract → Result Outcome → Type 0
Proves contracts (ok (breached found)) = IsCovered contracts found
Proves contracts _ = Unit

Meets-append :
    (xs ys : List AlertMetricEvidence) (c d : Contract)
    → Meets xs c
    → Meets ys d
    → Meets (xs ++ ys) (c ++ d)
Meets-append [] ys [] d h k = k
Meets-append (x ∷ xs) ys (c ∷ cs) d h k = (h.0, Meets-append xs ys cs d h.1 k)
Meets-append [] ys (c ∷ cs) d h k = absurd h
Meets-append (x ∷ xs) ys [] d h k = absurd h

module _ (P : Contract → Type 0) where
  Any-left : (xs ys : List Contract) → Any P xs → Any P (xs ++ ys)
  Any-left (x ∷ xs) ys (inl h) = inl h
  Any-left (x ∷ xs) ys (inr h) = inr (Any-left xs ys h)
  Any-left [] ys h = absurd h

  Any-right : (xs ys : List Contract) → Any P ys → Any P (xs ++ ys)
  Any-right [] ys h = h
  Any-right (x ∷ xs) ys h = inr (Any-right xs ys h)

Any-suffixes :
    (xs ys : List AlertMetricEvidence) (prefix : Contract) (clauses : List Contract)
    → Meets xs prefix
    → Any (Meets ys) clauses
    → Any (Meets (xs ++ ys)) (map (λ suffix. prefix ++ suffix) clauses)
Any-suffixes xs ys prefix (d ∷ ds) h (inl k) = inl (Meets-append xs ys prefix d h k)
Any-suffixes xs ys prefix (d ∷ ds) h (inr k) = inr (Any-suffixes xs ys prefix ds h k)
Any-suffixes xs ys prefix [] h k = absurd k

pub Any-combine :
    (xs ys : List AlertMetricEvidence) (combined clauses : List Contract)
    → Any (Meets xs) combined
    → Any (Meets ys) clauses
    → Any (Meets (xs ++ ys)) (combine combined clauses)
Any-combine xs ys (c ∷ cs) clauses (inl h) k =
    Any-left (Meets (xs ++ ys)) _ _ (Any-suffixes xs ys c clauses h k)
Any-combine xs ys (c ∷ cs) clauses (inr h) k =
    Any-right (Meets (xs ++ ys)) _ _ (Any-combine xs ys cs clauses h k)
Any-combine xs ys [] clauses h k = absurd h

Proves-left : (a b : List Contract) (r : Result Outcome) → Proves a r → Proves (a ++ b) r
Proves-left a b (ok (breached found)) h = (h.0, Any-left (Meets found) a b h.1)
Proves-left a b (ok clear) h = tt
Proves-left a b (ok unknown) h = tt
Proves-left a b (throw e) h = tt

Proves-right : (a b : List Contract) (r : Result Outcome) → Proves b r → Proves (a ++ b) r
Proves-right a b (ok (breached found)) h = (h.0, Any-right (Meets found) a b h.1)
Proves-right a b (ok clear) h = tt
Proves-right a b (ok unknown) h = tt
Proves-right a b (throw e) h = tt

pub all_round :
    (mine total : List Contract) (r : Result Outcome)
    (next : List AlertMetricEvidence → Result Outcome) (blind : Result Outcome)
    → Proves mine r
    → ((found : List AlertMetricEvidence) → IsCovered mine found → Proves total (next found))
    → Proves total blind
    → Proves total (
        r >>= λ result. elim result [
          | clear ↦ ok clear
          | unknown ↦ blind
          | breached found ↦ next found
        ])
all_round mine total (ok (breached found)) next blind h k b = k found h
all_round mine total (ok clear) next blind h k b = tt
all_round mine total (ok unknown) next blind h k b = b
all_round mine total (throw e) next blind h k b = tt

pub any_round :
    (mine others : List Contract) (r next blind : Result Outcome)
    → Proves mine r
    → Proves others next
    → Proves others blind
    → Proves (mine ++ others) (
        r >>= λ result. elim result [
          | breached found ↦ ok (breached found)
          | unknown ↦ blind
          | clear ↦ next
        ])
any_round mine others (ok (breached found)) next blind h k b =
    Proves-left mine others (ok (breached found)) h
any_round mine others (ok clear) next blind h k b = Proves-right mine others next k
any_round mine others (ok unknown) next blind h k b = Proves-right mine others blind b
any_round mine others (throw e) next blind h k b = tt
