-- ===== src/Llm/Response.antt =====
-- What `GroundedResponseService` of backend/src/enterprise_ai/llm/response_service.py works with:
-- its settings and collaborators, a request's context, the checks of a draft, and the deterministic
-- answers. A response is kept without its version of the prompt and its uncertainty. The extractive
-- draft of a context and the rules on texts are parameters.
pub mod Checks
pub mod Generation
pub mod Research
pub mod Bounds
pub mod Stricter
pub mod Verified
pub mod Fallback
pub mod Valid
mod Tests
pub mod Budgeted
pub mod Analysis
use enterprise_ai_knowledge.Common.{
  ◌||◌, ℕ, List, Text, Bool, Option, none, some, true, false, [], ◌&&◌, map, flat_map, keep_if,
  contains, is_empty, not, if◌then◌else◌, lookup, list_eq, nat_eq,
}
use enterprise_ai_knowledge.Identity.{Principal}
use enterprise_ai_knowledge.Graph.State.{FallbackReason}
use enterprise_ai_knowledge.Llm.Citations.{
  EvidenceContextItem, CitationValidationResult, VerifiedCitation,
}
use enterprise_ai_knowledge.Llm.Drafts.{GroundedAnswerDraft, Requirements}
use enterprise_ai_knowledge.Llm.Identifiers.{RepairedText}
use enterprise_ai_knowledge.Llm.Comparison.{ComparisonRules}

-- `GroundedResponse` of llm/models.py.
pub record GroundedAnswer : Type 0 where
  pub answer_text : Text
  pub citations : List VerifiedCitation
  pub provider : Text
  pub model : Text
  pub deterministic_fallback_used : Bool
  pub deterministic_analysis_rendering_used : Bool
  pub fallback_reason : Option FallbackReason
  pub insufficient_evidence : Bool

-- Its validator.
abbrev pub is_valid_answer : GroundedAnswer → Bool
is_valid_answer r = not (
    r.deterministic_analysis_rendering_used
    && (r.deterministic_fallback_used
        || (elim r.fallback_reason [ none ↦ false | some reason ↦ true ])))

-- How a call of the provider fails, by the class of the exception; an invalid response says whether
-- its category is the prohibited reasoning.
pub data GenerationError : Type 0 where
  dependency_unavailable timed_out : GenerationError
  http_status : ℕ → GenerationError
  invalid_response : Bool → GenerationError
  refusal malformed other : GenerationError

pub record LlmGenerationResult : Type 0 where
  pub draft : GroundedAnswerDraft
  pub provider : Text
  pub model : Text

pub data Generated : Type 0 where
  generated : LlmGenerationResult → Generated
  rejected : GenerationError → Generated
  cancelled : Generated

pub record LlmSettings : Type 0 where
  pub llm_citation_repair_attempts : ℕ
  pub llm_allow_deterministic_fallback : Bool
  pub llm_max_citations : ℕ
  pub llm_max_answer_characters : ℕ
  pub research_max_llm_calls : ℕ

-- `generate n` is what the provider does when it is called for the n-th time, from 0 on.
pub record Collaborators : Type 0 where
  pub generate : ℕ → Generated
  pub extract : List EvidenceContextItem → GroundedAnswerDraft
  pub repair_text : Text → List Text → RepairedText
  pub sorted : List Text → List Text
  pub comparison_rules : ComparisonRules
  pub model_text : ℕ → Text
  pub strip_right : Text → Text
  pub has_policy_violations : Text → Bool
  pub expected_build : ℕ

-- What `retrieval_response` is called with. The identifiers are those of the question, with the
-- documents that the current chunks name for each; the context is the one that is given or built.
pub record ResponseRequest : Type 0 where
  pub identifiers : List Text
  pub identifier_documents : List (Text × List ℕ)
  pub context : List EvidenceContextItem
  pub principal : Principal
  pub maximum_provider_calls : Option ℕ
  pub require_all_evidence_ids : Bool
  pub comparison_dimensions : List Text
  pub comparison_evidence_ids : Requirements
  pub comparison_shared_facets : List Text

pub record Reply : Type 0 where
  pub response : GroundedAnswer
  pub draft : GroundedAnswerDraft
  pub validation : CitationValidationResult
  pub repairs : ℕ

-- A draft behind the repair of its identifiers, with its validation and the dimensions it misses.
pub record CheckedDraft : Type 0 where
  pub draft : GroundedAnswerDraft
  pub validation : CitationValidationResult
  pub missing_dimensions : List Text

unfoldable pub provider_fallback_reason : GenerationError → FallbackReason
provider_fallback_reason GenerationError.dependency_unavailable =
    FallbackReason.provider_unavailable
provider_fallback_reason GenerationError.timed_out = FallbackReason.provider_timeout
provider_fallback_reason (GenerationError.http_status code) = FallbackReason.provider_http_error
provider_fallback_reason (GenerationError.invalid_response prohibited) =
    if prohibited
    then FallbackReason.prohibited_reasoning
    else FallbackReason.invalid_structured_output
provider_fallback_reason GenerationError.refusal = FallbackReason.invalid_structured_output
provider_fallback_reason GenerationError.malformed = FallbackReason.invalid_structured_output
provider_fallback_reason GenerationError.other = FallbackReason.unknown_provider_failure

abbrev pub documents_of : ResponseRequest → Text → List ℕ
documents_of request identifier = elim (lookup identifier request.identifier_documents) [
  | none ↦ []
  | some ids ↦ ids
]

-- The context, limited to the documents of the identifiers where the question has any.
unfoldable pub scoped_context : ResponseRequest → List EvidenceContextItem
scoped_context request =
    if is_empty request.identifiers
    then request.context
    else keep_if
        (λ (i : EvidenceContextItem).
          contains (flat_map (λ (d : Text × List ℕ). d.1) request.identifier_documents)
            i.document_id)
        request.context

unfoldable pub identifier_evidence_ids : ResponseRequest → Requirements
identifier_evidence_ids request =
    map
      (λ identifier. (
        identifier,
        map (λ (i : EvidenceContextItem). i.model_id)
            (keep_if
              (λ (i : EvidenceContextItem).
                contains (documents_of request identifier) i.document_id)
              (scoped_context request)),
      ))
      request.identifiers

-- `request.allowed_evidence_ids if require_all_evidence_ids else ()`
unfoldable pub required_evidence_ids : ResponseRequest → List ℕ
required_evidence_ids request =
    if request.require_all_evidence_ids
    then map (λ (i : EvidenceContextItem). i.model_id) (scoped_context request)
    else []
