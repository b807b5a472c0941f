-- ===== src/Llm/Response/Tests.antt =====
-- Responses to a question with two items of evidence, whose first draft cites an unknown item.
use enterprise_ai_knowledge.Common.{
  arith, flat_map, ◌≤◌, ◌≡◌, ◌∷◌, ℕ, zero, true, suc, some, refl, false, [], List, ◌+◌, list_eq,
  nat_eq,
}
use enterprise_ai_knowledge.Llm.Response.{
  required_evidence_ids, identifier_evidence_ids, ResponseRequest, LlmGenerationResult,
  scoped_context, Generated, Collaborators, Reply, LlmSettings, generated,
}
use enterprise_ai_knowledge.Llm.Citations.{
  citation_from_context, cited, used_from, used_ids, id_errors, claim_errors, validated,
  validate_citations, mapping_from, EvidenceContextItem,
}
use enterprise_ai_knowledge.Identity.{UserRole, AccessLevel, Principal}
use enterprise_ai_knowledge.Llm.Response.Generation.{
  may_call, conclude, repair_loop, accept_result, first_call, replied, Outcome, retrieval_response,
}
use enterprise_ai_knowledge.Llm.Response.Verified.{retrieval_response-Verified, Verified}
use enterprise_ai_knowledge.Llm.Drafts.{GroundedAnswerDraft}
use enterprise_ai_knowledge.Llm.Response.Fallback.{
  is_unvalidated, AreDistinct, retrieval_response-Grounded, Grounded,
}
use enterprise_ai_knowledge.Llm.Response.Bounds.{retrieval_response-le}
use enterprise_ai_knowledge.Llm.Response.Checks.{
  cited_validation, check_draft, insufficient_response,
}
use enterprise_ai_knowledge.Llm.Identifiers.{
  validate_identifier_alignment, validate_and_repair_response_identifiers,
}
use enterprise_ai_knowledge.Llm.Comparison.{
  append_validation_errors, require_citations, validate_comparison_draft,
}
use enterprise_ai_knowledge.Security.Authorization.{allowed_access_levels}
use enterprise_ai_knowledge.Llm.Response.Research.{
  comparison_shared_facets, remaining_calls, comparison_evidence_ids, comparison_context,
  synthesis_from, comparison_synthesis_evidence, synthesis_request, ResearchSummary,
  research_response, ResearchRules,
}
use enterprise_ai_knowledge.Llm.Response.Budgeted.{research_response-le}
use enterprise_ai_knowledge.Graph.State.{CoverageStatus}

abbrev context_item : ℕ → EvidenceContextItem
context_item n = record {
  model_id = n;
  evidence_id = n;
  chunk_id = n;
  document_id = n;
  source_line_start = 1;
  source_line_end = 4;
  access_level = AccessLevel.public;
  build_fingerprint = 9;
}

abbrev reader : Principal
reader = record {
  identity = record { user_id = 1; username = "u"; display_name = "U"; role = UserRole.viewer };
  permissions = [];
  authenticated_at = 0;
  expires_at = 10;
}

abbrev claim_of : List ℕ → GroundedAnswerDraft
claim_of ids = record {
  answer_summary = 65 ∷ [];
  claims =
      record { claim_id = 1; text = 66 ∷ []; factual = true; supporting_evidence_ids = ids } ∷ [];
  warnings = [];
  insufficient_evidence = false;
  clarification_needed = false;
}

abbrev result_of : List ℕ → LlmGenerationResult
result_of ids = record { draft = claim_of ids; provider = 80 ∷ []; model = 77 ∷ [] }

abbrev answers : ℕ → Generated
answers zero = generated (result_of (3 ∷ []))
answers (suc n) = generated (result_of (1 ∷ 2 ∷ []))

abbrev settings : LlmSettings
settings = record {
  llm_citation_repair_attempts = 2;
  llm_allow_deterministic_fallback = true;
  llm_max_citations = 5;
  llm_max_answer_characters = 100;
  research_max_llm_calls = 4;
}

abbrev collaborators : Collaborators
collaborators = record {
  generate = answers;
  extract = λ context. claim_of (1 ∷ []);
  repair_text = λ text ids. record { text = text; identifiers = []; unapproved = 0 };
  sorted = λ texts. texts;
  comparison_rules = record {
    folded = λ t. t;
    folded_label = λ t. t;
    words = λ t. t ∷ [];
    is_digits = λ t. false;
    false_evidence_absence = λ t. false;
  };
  model_text = λ id. (48 + id) ∷ [];
  strip_right = λ t. t;
  has_policy_violations = λ t. false;
  expected_build = 9;
}

abbrev request : ResponseRequest
request = record {
  identifiers = [];
  identifier_documents = [];
  context = context_item 1 ∷ context_item 2 ∷ [];
  principal = reader;
  maximum_provider_calls = some 3;
  require_all_evidence_ids = true;
  comparison_dimensions = [];
  comparison_evidence_ids = [];
  comparison_shared_facets = [];
}

abbrev reply_in : Outcome → Reply
reply_in (replied reply) = reply
reply_in _ = insufficient_response

abbrev reply : Reply
reply = reply_in (retrieval_response collaborators settings request).0

repaired_run : (retrieval_response collaborators settings request).0 ≡ replied reply
unfolding retrieval_response first_call accept_result repair_loop may_call conclude check_draft
    cited_validation validate_and_repair_response_identifiers validate_comparison_draft
    require_citations validate_identifier_alignment append_validation_errors validate_citations
    validated claim_errors id_errors used_ids used_from cited flat_map mapping_from
    citation_from_context scoped_context identifier_evidence_ids required_evidence_ids
    allowed_access_levels
repaired_run = refl

repaired_normal : reply.response.deterministic_fallback_used ≡ false
unfolding retrieval_response first_call accept_result repair_loop may_call conclude check_draft
    cited_validation validate_and_repair_response_identifiers validate_comparison_draft
    require_citations validate_identifier_alignment append_validation_errors validate_citations
    validated claim_errors id_errors used_ids used_from cited flat_map mapping_from
    citation_from_context scoped_context identifier_evidence_ids required_evidence_ids
    allowed_access_levels
repaired_normal = refl

repaired_twice : (retrieval_response collaborators settings request).1 ≡ 2
unfolding retrieval_response first_call accept_result repair_loop may_call conclude check_draft
    cited_validation validate_and_repair_response_identifiers validate_comparison_draft
    require_citations validate_identifier_alignment append_validation_errors validate_citations
    validated claim_errors id_errors used_ids used_from cited flat_map mapping_from
    citation_from_context scoped_context identifier_evidence_ids required_evidence_ids
    allowed_access_levels
repaired_twice = refl

retrieval_response-Verified_example : Verified collaborators settings request reply
retrieval_response-Verified_example =
    retrieval_response-Verified collaborators settings request reply repaired_run repaired_normal

context_AreDistinct : AreDistinct (scoped_context request)
unfolding scoped_context mapping_from
context_AreDistinct = refl

reply_validated : is_unvalidated reply ≡ false
unfolding retrieval_response first_call accept_result repair_loop may_call conclude check_draft
    cited_validation validate_and_repair_response_identifiers validate_comparison_draft
    require_citations validate_identifier_alignment append_validation_errors validate_citations
    validated claim_errors id_errors used_ids used_from cited flat_map mapping_from
    citation_from_context scoped_context identifier_evidence_ids required_evidence_ids
    allowed_access_levels
reply_validated = refl

retrieval_response-Grounded_example :
    Grounded collaborators settings request reply.draft reply.response.citations
retrieval_response-Grounded_example =
    retrieval_response-Grounded collaborators settings request reply context_AreDistinct
      repaired_run reply_validated

retrieval_response-le_example :
    ((retrieval_response collaborators settings request).1 ≤ 3)
    × ((retrieval_response collaborators settings request).1 ≤ 3)
retrieval_response-le_example = retrieval_response-le collaborators settings request

abbrev research : ResearchSummary
research = record {
  plan = record { tasks = []; required_comparison_dimensions = [] };
  coverage = CoverageStatus.sufficient;
  worker_results = [];
  analysis_summaries = [];
  conflicts = [];
  structured_conflicts = [];
  gaps = [];
  llm_calls = 1;
  exhausted = false;
}

abbrev research_rules : ResearchRules
research_rules = record {
  build_context = λ evidence n. context_item 1 ∷ context_item 2 ∷ [];
  common_facets = λ evidence. [];
  llm_max_evidence_items = 4;
  is_analysis_requested = false;
}

abbrev research_reply : Reply
research_reply =
    reply_in (research_response research_rules settings research [] collaborators request).0.0

research_run :
    (research_response research_rules settings research [] collaborators request).0.0
    ≡ replied research_reply
unfolding research_response synthesis_request comparison_synthesis_evidence synthesis_from
    comparison_context comparison_evidence_ids remaining_calls comparison_shared_facets
    retrieval_response first_call accept_result repair_loop may_call conclude check_draft
    cited_validation validate_and_repair_response_identifiers validate_comparison_draft
    require_citations validate_identifier_alignment append_validation_errors validate_citations
    validated claim_errors id_errors used_ids used_from cited flat_map mapping_from
    citation_from_context scoped_context identifier_evidence_ids required_evidence_ids
    allowed_access_levels
research_run = refl

research_response-le_example :
    ((research_response research_rules settings research [] collaborators request).1
      ≤ (research_response research_rules settings research [] collaborators request).0.1)
    × (1 + (research_response research_rules settings research [] collaborators request).0.1 ≤ 4)
research_response-le_example =
    research_response-le collaborators research_rules settings research [] request research_reply
      (omega arith) research_run
