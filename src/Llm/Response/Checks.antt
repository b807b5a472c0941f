-- ===== src/Llm/Response/Checks.antt =====
-- The checks of a draft and the deterministic answers of `GroundedResponseService`
-- (backend/src/enterprise_ai/llm/response_service.py).
use enterprise_ai_knowledge.Common.{
  ℕ, true, take, some, none, map, is_empty, false, if◌then◌else◌, codes, [], Text, List, ◌==◌, ◌++◌,
  list_eq, nat_eq,
}
use enterprise_ai_knowledge.Llm.Response.{
  required_evidence_ids, scoped_context, identifier_evidence_ids, CheckedDraft, GroundedAnswer,
  Reply, ResponseRequest, LlmSettings, Collaborators,
}
use enterprise_ai_knowledge.Graph.State.{FallbackReason}
use enterprise_ai_knowledge.Llm.Identifiers.{
  validate_identifier_alignment, validate_and_repair_response_identifiers, IdentifierTextValidation,
}
use enterprise_ai_knowledge.Llm.Drafts.{render_draft, join_texts, GroundedAnswerDraft}
use enterprise_ai_knowledge.Llm.Citations.{
  validate_citations, citation_from_context, CitationValidationResult,
}
use enterprise_ai_knowledge.Llm.Comparison.{
  require_citations, validate_comparison_draft, append_validation_errors,
}
use enterprise_ai_knowledge.Graph.Reducers.{add_unique}

-- The answer to a context without items.
unfoldable pub insufficient_response : Reply
insufficient_response =
    let answer = codes "No sufficient authorized evidence was found for this request." in
    record {
      response = record {
        answer_text = answer;
        citations = [];
        provider = codes "deterministic";
        model = codes "none";
        deterministic_fallback_used = true;
        deterministic_analysis_rendering_used = false;
        fallback_reason = none;
        insufficient_evidence = true;
      };
      draft = record {
        answer_summary = answer;
        claims = [];
        warnings = [];
        insufficient_evidence = true;
        clarification_needed = false;
      };
      validation = record { valid = true; errors = []; citations = [] };
      repairs = 0;
    }

module _ (settings : LlmSettings) (request : ResponseRequest) where
  -- `_comparison_fallback_response`
  unfoldable pub comparison_fallback_response : List Text → GroundedAnswer
  comparison_fallback_response unvalidated_dimensions =
      let labels = join_texts (codes "; ") (add_unique (λ a b. a == b) [] unvalidated_dimensions) in
      let answer =
        codes "Authorized evidence was supplied for the requested comparison, but a complete "
        ++ (codes "grounded comparison could not be validated."
            ++ (if is_empty labels
                then []
                else codes " Unvalidated response dimensions: " ++ (labels ++ codes "."))) in
      record {
        answer_text = take settings.llm_max_answer_characters answer;
        citations = map citation_from_context (scoped_context request);
        provider = codes "deterministic";
        model = codes "none";
        deterministic_fallback_used = true;
        deterministic_analysis_rendering_used = false;
        fallback_reason = some FallbackReason.research_dimension_validation_failed;
        insufficient_evidence = true;
      }

module _ (k : Collaborators) (settings : LlmSettings) (request : ResponseRequest) where
  -- The validation of a draft that both the answer and the fallback have.
  unfoldable pub cited_validation : IdentifierTextValidation → CitationValidationResult
  cited_validation repaired =
      append_validation_errors
        (validate_citations repaired.draft.claims (scoped_context request) request.principal
          settings.llm_max_citations k.expected_build)
        repaired.errors

  -- The checks of a drafted answer.
  unfoldable pub check_draft : GroundedAnswerDraft → CheckedDraft
  check_draft drafted =
      let repaired =
        validate_and_repair_response_identifiers k.repair_text k.sorted drafted
          (identifier_evidence_ids request) in
      let (compared, missing) =
        validate_comparison_draft k.comparison_rules repaired.draft (cited_validation repaired)
          request.comparison_evidence_ids request.comparison_shared_facets in
      record {
        draft = repaired.draft;
        validation =
            validate_identifier_alignment repaired.draft
              (require_citations compared (required_evidence_ids request)) (scoped_context request)
              (identifier_evidence_ids request);
        missing_dimensions = missing;
      }

  abbrev pub unverified_draft : GroundedAnswerDraft
  unverified_draft = record {
    answer_summary = codes "The authorized evidence could not be rendered with verified citations.";
    claims = [];
    warnings = [];
    insufficient_evidence = true;
    clarification_needed = false;
  }

  -- The extractive draft with its validation, or the draft without claims where it is not valid.
  unfoldable pub fallback_draft : GroundedAnswerDraft × CitationValidationResult
  fallback_draft =
      let repaired =
        validate_and_repair_response_identifiers k.repair_text k.sorted
          (k.extract (scoped_context request)) (identifier_evidence_ids request) in
      let validation =
        validate_identifier_alignment repaired.draft (cited_validation repaired)
          (scoped_context request) (identifier_evidence_ids request) in
      if validation.valid then (repaired.draft, validation) else (
        unverified_draft,
        validate_citations [] (scoped_context request) request.principal settings.llm_max_citations
            k.expected_build,
      )

  -- `_fallback_response`, in the reply with the repairs so far.
  unfoldable pub fallback_response : FallbackReason → ℕ → Reply
  fallback_response reason repairs = record {
    response = record {
      answer_text =
          take settings.llm_max_answer_characters
            (render_draft k.model_text k.strip_right fallback_draft.0);
      citations = fallback_draft.1.citations;
      provider = codes "deterministic";
      model = codes "none";
      deterministic_fallback_used = true;
      deterministic_analysis_rendering_used = false;
      fallback_reason = some reason;
      insufficient_evidence = fallback_draft.0.insufficient_evidence;
    };
    draft = fallback_draft.0;
    validation = fallback_draft.1;
    repairs = repairs;
  }
