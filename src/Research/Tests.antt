-- ===== src/Research/Tests.antt =====
-- Instances of the theorems on research runs.
use enterprise_ai_knowledge.Common.{◌≤◌, ◌≡◌, ◌∷◌, ℕ, some, refl, none, false, arith, [], List, ◌+◌}
use enterprise_ai_knowledge.Research.Aggregation.Sound.{aggregate_evidence-Bounded, Bounded}
use enterprise_ai_knowledge.Research.Aggregation.{
  aggregate_evidence, Source, Aggregation, HybridEvidence, ResearchWorkerResult,
}
use enterprise_ai_knowledge.Research.Budget.{
  no_usage, with_used, limit, charge, used, ResearchBudget, Resource, consume_all,
}
use enterprise_ai_knowledge.Identity.{UserRole, AccessLevel}
use enterprise_ai_knowledge.Research.Budget.Spent.{consume_all-limit, granted_of}

abbrev budget : ResearchBudget
budget = record {
  maximum_depth = 2;
  maximum_total_tasks = 3;
  maximum_retrieval_calls = 5;
  maximum_analysis_calls = 1;
  maximum_llm_calls = 1;
  maximum_evidence_items = 4;
  maximum_evidence_characters = 100;
}

abbrev requests : List (Resource × ℕ)
requests =
    (Resource.tasks, 2) ∷ (Resource.tasks, 2) ∷ (Resource.llm_calls, 1) ∷ (Resource.tasks, 1) ∷ []

-- The second request is refused, the others are granted.
consume_run :
    (consume_all budget requests no_usage).0
    ≡ (Resource.tasks, 2) ∷ (Resource.llm_calls, 1) ∷ (Resource.tasks, 1) ∷ []
unfolding consume_all charge limit used with_used
consume_run = refl

consume_all-limit_example :
    (used (consume_all budget requests no_usage).1 Resource.tasks
      ≡ granted_of Resource.tasks (consume_all budget requests no_usage).0
        + used no_usage Resource.tasks)
    × (used (consume_all budget requests no_usage).1 Resource.tasks ≤ limit budget Resource.tasks)
unfolding used limit
consume_all-limit_example = consume_all-limit budget requests no_usage Resource.tasks (omega arith)

abbrev source : ℕ → Source
source chunk = record {
  evidence_id = 10 + chunk;
  document_id = 1;
  chunk_id = chunk;
  source_file = 1;
  section_path = 1;
  source_line_start = 1;
  source_line_end = 2;
  title = 1;
  version = 1;
  updated_date = 1;
  access = record { access_level = AccessLevel.public; allowed_roles = UserRole.viewer ∷ [] };
  chunk_content_hash = 1;
  build_fingerprint = 9;
  text = 40;
}

abbrev item : ℕ → ℕ → HybridEvidence
item chunk final_rank = record {
  evidence = source chunk;
  final_rank = final_rank;
  hybrid_score = 1;
}

abbrev settings : Aggregation
settings = record {
  maximum_items = 2;
  maximum_characters = 100;
  expected_build_fingerprint = some 9;
  principal = none;
  contains_untrusted_instruction = λ t. false;
  size = λ t. t;
}

abbrev results : List ResearchWorkerResult
results =
    record { task_id = 2; evidence = item 1 2 ∷ item 2 1 ∷ [] }
    ∷ record { task_id = 1; evidence = item 1 1 ∷ item 3 3 ∷ [] }
    ∷ []

aggregate_evidence-Bounded_example : Bounded settings 0 0 (aggregate_evidence settings results)
aggregate_evidence-Bounded_example = aggregate_evidence-Bounded settings results
