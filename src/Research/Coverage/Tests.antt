-- ===== src/Research/Coverage/Tests.antt =====
-- The coverage of a plan that compares two services.
use enterprise_ai_knowledge.Common.{
  ◌≡◌, ◌∷◌, true, some, refl, false, codes, all_of, [], Text, List, Bool, ◌==◌, list_eq, nat_eq,
}
use enterprise_ai_knowledge.Research.Coverage.{
  evidence_supports_task, comparison_task, is_covered, assess_coverage, ResearchPlan, dimensions,
  WorkerResult, Flags, ResearchTask,
}
use enterprise_ai_knowledge.Research.Aggregation.{HybridEvidence}
use enterprise_ai_knowledge.Research.Coverage.Split.{assess_coverage-sufficient, is_sufficient}
use enterprise_ai_knowledge.Identity.{AccessLevel}
use enterprise_ai_knowledge.Graph.Routing.{starts_with, is_in}

abbrev compared : Text → ResearchTask
compared dimension = record {
  task_id = 1;
  research_question = codes "compare";
  comparison_dimension = some dimension;
  comparison_terms = dimension ∷ codes "2024" ∷ [];
}

abbrev comparison : ResearchPlan
comparison = record {
  tasks = compared (codes "billing") ∷ compared (codes "search") ∷ [];
  required_comparison_dimensions = codes "billing" ∷ codes "search" ∷ [];
}

abbrev report : HybridEvidence
report = record {
  evidence = record {
    evidence_id = 1;
    document_id = 1;
    chunk_id = 1;
    source_file = 1;
    section_path = 1;
    source_line_start = 1;
    source_line_end = 2;
    title = 1;
    version = 1;
    updated_date = 1;
    access = record { access_level = AccessLevel.public; allowed_roles = [] };
    chunk_content_hash = 1;
    build_fingerprint = 9;
    text = 40;
  };
  final_rank = 1;
  hybrid_score = 1;
}

abbrev worked : List WorkerResult
worked =
    record {
      task_id = 1;
      is_completed = true;
      comparison_dimension = some (codes "billing");
      evidence = report ∷ [];
    }
    ∷ []

abbrev text_of : HybridEvidence → Text
text_of item = codes "billing in may 2024"

abbrev is_year : Text → Bool
is_year term = term == codes "2024"

abbrev no_flags : Flags
no_flags = record { budget_exhausted = false; authorization_blocked = false; failed = false }

coverage_run :
    dimensions text_of is_year comparison worked ≡ (codes "billing" ∷ [], codes "search" ∷ [])
unfolding dimensions is_covered comparison_task evidence_supports_task is_in starts_with
coverage_run = refl

assess_coverage-sufficient_example :
    is_sufficient (assess_coverage text_of is_year comparison worked 1 no_flags).status
    ≡ all_of
        (is_covered text_of is_year comparison.tasks worked)
        comparison.required_comparison_dimensions
assess_coverage-sufficient_example =
    assess_coverage-sufficient text_of is_year comparison worked 1 no_flags refl
