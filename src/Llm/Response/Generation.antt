-- ===== src/Llm/Response/Generation.antt =====
-- `retrieval_response` of `GroundedResponseService`
-- (backend/src/enterprise_ai/llm/response_service.py): the provider's calls, the loop of repairs, and
-- the answer. A repair's prompt is left out: what the provider answers is a function of the number of
-- the call. The outcome comes with the number of calls that were made.
pub mod Ends
use enterprise_ai_knowledge.Common.{
  ℕ, zero, true, take, suc, some, not, none, ltb, is_empty, false, if◌then◌else◌, Option, Bool, ◌-◌,
  ◌+◌, ◌&&◌, list_eq, nat_eq,
}
use enterprise_ai_knowledge.Llm.Response.{
  Generated, rejected, CheckedDraft, provider_fallback_reason, LlmGenerationResult, scoped_context,
  generated, ResponseRequest, LlmSettings, Collaborators, GenerationError, Reply,
}
use enterprise_ai_knowledge.Llm.Response.Checks.{
  comparison_fallback_response, check_draft, insufficient_response, fallback_response,
}
use enterprise_ai_knowledge.Llm.Drafts.{render_draft}
use enterprise_ai_knowledge.Graph.State.{FallbackReason}

-- How `retrieval_response` ends: a reply, an exception of the provider, or a cancellation.
pub data Outcome : Type 0 where
  replied : Reply → Outcome
  raised : GenerationError → Outcome
  interrupted : Outcome

-- `isinstance(error, LLMInvalidResponseError)`
abbrev pub is_invalid_response : GenerationError → Bool
is_invalid_response (GenerationError.invalid_response prohibited) = true
is_invalid_response _ = false

module _ (k : Collaborators) (settings : LlmSettings) (request : ResponseRequest) where
  -- `maximum_provider_calls is None or repairs + 1 < maximum_provider_calls`
  unfoldable pub may_call : ℕ → Bool
  may_call repairs = elim request.maximum_provider_calls [
    | none ↦ true
    | some maximum ↦ ltb (repairs + 1) maximum
  ]

  -- The reply for a checked draft behind the loop of repairs.
  unfoldable pub conclude : LlmGenerationResult → CheckedDraft → ℕ → Reply
  conclude result checked repairs =
      let answer = render_draft k.model_text k.strip_right checked.draft in
      if not checked.validation.valid
      then (if not (is_empty request.comparison_dimensions)
          then record {
            response = comparison_fallback_response settings request (
                if is_empty checked.missing_dimensions
                then request.comparison_dimensions
                else checked.missing_dimensions);
            draft = checked.draft;
            validation = checked.validation;
            repairs = repairs;
          }
          else fallback_response k settings request
              (if is_empty request.identifiers
                then FallbackReason.citation_validation_failed
                else FallbackReason.entity_alignment_validation_failed)
              repairs)
      else if k.has_policy_violations answer
      then fallback_response k settings request FallbackReason.response_policy_rejected repairs
      else record {
        response = record {
          answer_text = take settings.llm_max_answer_characters answer;
          citations = checked.validation.citations;
          provider = result.provider;
          model = result.model;
          deterministic_fallback_used = false;
          deterministic_analysis_rendering_used = false;
          fallback_reason = none;
          insufficient_evidence = checked.draft.insufficient_evidence;
        };
        draft = checked.draft;
        validation = checked.validation;
        repairs = repairs;
      }

  -- The loop of repairs, with the attempts that are left and the repairs that were made.
  unfoldable pub repair_loop : LlmGenerationResult → ℕ → ℕ → CheckedDraft → Outcome × ℕ
  repair_loop result zero repairs checked = (replied (conclude result checked repairs), suc repairs)
  repair_loop result (suc left) repairs checked =
      elim (not checked.validation.valid && may_call repairs) [
        | false ↦ (replied (conclude result checked repairs), suc repairs)
        | true ↦ elim (k.generate (suc repairs)) [
          | generated next ↦
              repair_loop result left (suc repairs) (check_draft k settings request next.draft)
          | rejected error ↦ (
            replied (
                fallback_response k settings request FallbackReason.citation_validation_failed
                  (suc repairs)),
            suc (suc repairs),
          )
          | Generated.cancelled ↦ (interrupted, suc (suc repairs))
        ]
      ]

  -- What follows the first accepted result.
  unfoldable pub accept_result : LlmGenerationResult → ℕ → Outcome × ℕ
  accept_result result repairs =
      repair_loop result (settings.llm_citation_repair_attempts - repairs) repairs
        (check_draft k settings request result.draft)

  -- The end of a call that failed, where no repair follows.
  unfoldable pub refuse : GenerationError → ℕ → Outcome × ℕ
  refuse error repairs =
      if settings.llm_allow_deterministic_fallback
      then (
        replied (fallback_response k settings request (provider_fallback_reason error) repairs),
        suc repairs,
      )
      else (raised error, suc repairs)

  -- `comparison_dimensions and isinstance(...) and repairs < ... and (...)` at no repairs.
  unfoldable pub may_retry : GenerationError → Bool
  may_retry error =
      not (is_empty request.comparison_dimensions)
      && is_invalid_response error
      && ltb 0 settings.llm_citation_repair_attempts
      && may_call 0

  unfoldable pub retry : GenerationError → Outcome × ℕ
  retry error = elim (may_retry error) [
    | false ↦ refuse error 0
    | true ↦ elim (k.generate 1) [
      | generated result ↦ accept_result result 1
      | rejected repair_error ↦ refuse repair_error 1
      | Generated.cancelled ↦ (interrupted, 2)
    ]
  ]

  unfoldable pub first_call : Outcome × ℕ
  first_call = elim (k.generate 0) [
    | generated result ↦ accept_result result 0
    | rejected error ↦ retry error
    | Generated.cancelled ↦ (interrupted, 1)
  ]

  -- `maximum_provider_calls is not None and maximum_provider_calls <= 0`
  abbrev pub is_spent : Option ℕ → Bool
  is_spent (some zero) = true
  is_spent _ = false

  unfoldable pub retrieval_response : Outcome × ℕ
  retrieval_response =
      if is_empty (scoped_context request)
      then (replied insufficient_response, 0)
      else if is_spent request.maximum_provider_calls
      then (
        replied
            (fallback_response k settings request FallbackReason.provider_call_budget_exhausted 0),
        0,
      )
      else first_call
