-- ===== src/Research/Coverage.antt =====
-- backend/src/enterprise_ai/research/coverage.py. A term is in a text where it is a part of it. What
-- the code draws from a document (its casefolded title, section, text and month) and the test of a
-- month or a year are parameters; the distribution of the authorities and the conflicts, which are
-- only passed on, are left out.
pub mod Split
mod Tests
use enterprise_ai_knowledge.Common.{list_eq, option_eq, nat_eq}
use enterprise_ai_knowledge.Common.{
  map, option_eq, any_of, nat_eq, ◌∷◌, ℕ, true, suc, some, not, none, max, length, leb, keep_if,
  is_empty, flat_map, false, if◌then◌else◌, contains, [], Text, Option, List, Bool, ◌==◌, ◌/◌, ◌+◌,
  ◌&&◌,
}
use enterprise_ai_knowledge.Research.Aggregation.{HybridEvidence}
use enterprise_ai_knowledge.Graph.State.{CoverageStatus}
use enterprise_ai_knowledge.Graph.Routing.{is_in}

pub record ResearchTask : Type 0 where
  pub task_id : ℕ
  pub research_question : Text
  pub comparison_dimension : Option Text
  pub comparison_terms : List Text

pub record ResearchPlan : Type 0 where
  pub tasks : List ResearchTask
  pub required_comparison_dimensions : List Text

-- What the assessment reads of a `ResearchWorkerResult`.
pub record WorkerResult : Type 0 where
  pub task_id : ℕ
  pub is_completed : Bool
  pub comparison_dimension : Option Text
  pub evidence : List HybridEvidence

pub record ResearchCoverageAssessment : Type 0 where
  pub status : CoverageStatus
  pub covered_dimensions : List Text
  pub missing_dimensions : List Text
  pub evidence_diversity : ℕ
  pub another_round_justified : Bool

-- The flags that `assess_coverage` is called with.
pub record Flags : Type 0 where
  pub budget_exhausted : Bool
  pub authorization_blocked : Bool
  pub failed : Bool

abbrev pub count_of : {A : Type 0} → (A → Bool) → List A → ℕ
count_of test [] = 0
count_of test (x ∷ xs) = if test x then suc (count_of test xs) else count_of test xs

-- The number of distinct documents.
unfoldable pub distinct : List ℕ → List ℕ → ℕ
distinct seen [] = 0
distinct seen (x ∷ xs) =
    let rest = distinct (x ∷ seen) xs in if contains seen x then rest else suc rest

-- `task.task_id in completed`
abbrev pub is_done : List WorkerResult → ResearchTask → Bool
is_done results task =
    any_of (λ (r : WorkerResult). r.is_completed && (r.task_id == task.task_id)) results

abbrev pub status_of : Flags → ℕ → List Text → CoverageStatus
status_of flags evidence_count missing =
    if flags.authorization_blocked
    then CoverageStatus.blocked_by_authorization
    else if flags.budget_exhausted
    then CoverageStatus.budget_exhausted
    else if flags.failed
    then CoverageStatus.failed
    else if evidence_count == 0
    then CoverageStatus.insufficient
    else if is_empty missing
    then CoverageStatus.sufficient
    else CoverageStatus.partially_sufficient

module _ (haystack : HybridEvidence → Text) (is_temporal : Text → Bool) where
  -- Every month and year of the terms, and half of the other terms rounded up.
  unfoldable pub evidence_supports_task : HybridEvidence → ResearchTask → Bool
  evidence_supports_task item task =
      let found = λ (term : Text). is_in term (haystack item) in
      let temporal = keep_if is_temporal task.comparison_terms in
      let subject = keep_if (λ term. not (is_temporal term)) task.comparison_terms in
      if is_empty task.comparison_terms
      then true
      else if any_of (λ term. not (found term)) temporal
      then false
      else leb (if is_empty subject then 0 else max 1 ((length subject + 1) / 2))
          (count_of found subject)

  -- `comparison_tasks.get(dimension)`: of the tasks with the dimension, the last.
  unfoldable pub comparison_task : Text → List ResearchTask → Option ResearchTask
  comparison_task dimension [] = none
  comparison_task dimension (task ∷ rest) = elim (comparison_task dimension rest) [
    | some later ↦ some later
    | none ↦ if task.comparison_dimension == some dimension then some task else none
  ]

  -- A result of the dimension has an item that supports the task.
  unfoldable pub is_covered : List ResearchTask → List WorkerResult → Text → Bool
  is_covered tasks results dimension = elim (comparison_task dimension tasks) [
    | none ↦ false
    | some task ↦
        any_of
          (λ (r : WorkerResult).
            (r.comparison_dimension == some dimension)
            && any_of (λ item. evidence_supports_task item task) r.evidence)
          results
  ]

  -- The covered and the missing dimensions.
  unfoldable pub dimensions : ResearchPlan → List WorkerResult → List Text × List Text
  dimensions plan results =
      if is_empty plan.required_comparison_dimensions
      then (
        map (λ (t : ResearchTask). t.research_question) (keep_if (is_done results) plan.tasks),
        map (λ (t : ResearchTask). t.research_question)
            (keep_if (λ task. not (is_done results task)) plan.tasks),
      )
      else let covered =
          keep_if (is_covered plan.tasks results) plan.required_comparison_dimensions in
        (
          covered,
          keep_if (λ dimension. not (contains covered dimension))
              plan.required_comparison_dimensions,
        )

  unfoldable pub assess_coverage :
      ResearchPlan → List WorkerResult → ℕ → Flags → ResearchCoverageAssessment
  assess_coverage plan results evidence_count flags =
      let (covered, missing) = dimensions plan results in
      record {
        status = status_of flags evidence_count missing;
        covered_dimensions = covered;
        missing_dimensions = missing;
        evidence_diversity = distinct [] (
            flat_map
              (λ (r : WorkerResult).
                map (λ (i : HybridEvidence). i.evidence.document_id) r.evidence)
              results);
        another_round_justified = not (is_empty missing) && not flags.budget_exhausted;
      }
