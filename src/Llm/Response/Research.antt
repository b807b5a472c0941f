-- ===== src/Llm/Response/Research.antt =====
-- `research_response` of `GroundedResponseService`, with `_comparison_synthesis_evidence` and
-- `_comparison_evidence_ids` (backend/src/enterprise_ai/llm/response_service.py). The building of a
-- context from evidence (llm/grounding.py), the facets that all texts share and the test that a
-- question asks for an analysis are parameters.
use enterprise_ai_knowledge.Common.{
  any_of, ◌∷◌, ℕ, ◌||◌, true, take, some, not, none, max, ltb, lookup, length, keep_if, is_empty,
  insert, flat_map, false, if◌then◌else◌, contains, codes, [], Text, String, Option, List, Bool,
  ◌==◌, ◌-◌, ◌++◌, ◌+◌, ◌&&◌, list_eq, nat_eq, option_eq,
}
use enterprise_ai_knowledge.Research.Coverage.{ResearchPlan, WorkerResult}
use enterprise_ai_knowledge.Llm.Citations.{EvidenceContextItem}
use enterprise_ai_knowledge.Llm.Response.{Collaborators, ResponseRequest, Reply, LlmSettings}
use enterprise_ai_knowledge.Llm.Drafts.{paragraph_break, unique_ids, Requirements, join_texts}
use enterprise_ai_knowledge.Graph.State.{CoverageStatus}
use enterprise_ai_knowledge.Research.Aggregation.{sorted, better, HybridEvidence}
use enterprise_ai_knowledge.Llm.Response.Generation.{
  interrupted, raised, replied, retrieval_response, Outcome,
}

-- What the service reads of `ResearchResult`.
pub record ResearchSummary : Type 0 where
  pub plan : ResearchPlan
  pub coverage : CoverageStatus
  pub worker_results : List WorkerResult
  pub analysis_summaries : List Text
  pub conflicts : List Text
  pub structured_conflicts : List Text
  pub gaps : List Text
  pub llm_calls : ℕ
  pub exhausted : Bool

-- `build_context` takes the number of items that are kept at least, where it is given.
pub record ResearchRules : Type 0 where
  pub build_context : List HybridEvidence → Option ℕ → List EvidenceContextItem
  pub common_facets : List HybridEvidence → List Text
  pub llm_max_evidence_items : ℕ
  pub is_analysis_requested : Bool

-- `(item.final_rank, -item.hybrid_score, str(item.evidence.chunk_id))`
abbrev pub ranks_before : HybridEvidence → HybridEvidence → Bool
ranks_before a b =
    better a b
    || ((a.final_rank == b.final_rank)
        && (a.hybrid_score == b.hybrid_score)
        && ltb a.evidence.chunk_id b.evidence.chunk_id)

unfoldable pub is_available : List HybridEvidence → HybridEvidence → Bool
is_available evidence item =
    any_of (λ (e : HybridEvidence). e.evidence.chunk_id == item.evidence.chunk_id) evidence

-- The evidence of the results of a dimension's workers.
unfoldable pub dimension_evidence : List WorkerResult → Text → List HybridEvidence
dimension_evidence results dimension =
    flat_map
      (λ (r : WorkerResult). if r.comparison_dimension == some dimension then r.evidence else [])
      results

-- `next((item for item in candidates if ...), candidates[0])`
unfoldable pub choose : List ℕ → HybridEvidence → List HybridEvidence → HybridEvidence
choose seen_documents default [] = default
choose seen_documents default (item ∷ rest) =
    let later = choose seen_documents default rest in
    if contains seen_documents item.evidence.document_id then later else item

-- The loop over the dimensions; an empty list where one has no candidate.
unfoldable pub synthesis_from :
    List WorkerResult
    → List HybridEvidence
    → List ℕ
    → List HybridEvidence
    → List Text
    → List HybridEvidence
synthesis_from results evidence seen_documents selected [] = selected
synthesis_from results evidence seen_documents selected (dimension ∷ rest) =
    elim (sorted ranks_before
      (keep_if (is_available evidence) (dimension_evidence results dimension))) [
        | [] ↦ []
        | best ∷ others ↦
            let choice = choose seen_documents best (best ∷ others) in
            let document = choice.evidence.document_id in
            synthesis_from results evidence (document ∷ seen_documents)
              (if any_of (λ (e : HybridEvidence). e.evidence.document_id == document) selected
                then selected
                else selected ++ choice ∷ [])
              rest
      ]

abbrev pub is_sufficient : CoverageStatus → Bool
is_sufficient CoverageStatus.sufficient = true
is_sufficient _ = false

-- `_comparison_synthesis_evidence`
unfoldable pub comparison_synthesis_evidence :
    ResearchSummary → List HybridEvidence → List HybridEvidence
comparison_synthesis_evidence research evidence =
    if is_sufficient research.coverage
    then synthesis_from research.worker_results evidence [] []
        research.plan.required_comparison_dimensions
    else []

-- `{key(item): item.model_id for item in context}`
unfoldable pub model_ids_from :
    (EvidenceContextItem → ℕ) → List (ℕ × ℕ) → List EvidenceContextItem → List (ℕ × ℕ)
model_ids_from key ids [] = ids
model_ids_from key ids (item ∷ rest) = model_ids_from key (insert (key item) item.model_id ids) rest

-- The model identifier of evidence in the context, by its chunk or else by its document.
unfoldable pub model_id_of : List EvidenceContextItem → HybridEvidence → List ℕ
model_id_of context item =
    elim (lookup item.evidence.chunk_id
      (model_ids_from (λ (i : EvidenceContextItem). i.chunk_id) [] context)) [
        | some id ↦ id ∷ []
        | none ↦
            elim (lookup item.evidence.document_id
              (model_ids_from (λ (i : EvidenceContextItem). i.document_id) [] context)) [
                | some id ↦ id ∷ []
                | none ↦ []
              ]
      ]

-- `_comparison_evidence_ids`, by the dimensions.
unfoldable pub comparison_evidence_ids :
    List WorkerResult → List EvidenceContextItem → List Text → Requirements
comparison_evidence_ids results context [] = []
comparison_evidence_ids results context (dimension ∷ rest) =
    let others = comparison_evidence_ids results context rest in
    let ids =
      unique_ids [] (flat_map (model_id_of context) (dimension_evidence results dimension)) in
    if is_empty ids then others else (dimension, ids) ∷ others

-- The sections behind the answer, each with its heading.
abbrev pub section : String → List Text → List Text
section heading [] = []
section heading (line ∷ lines) = (codes heading ++ 10 ∷ join_texts (10 ∷ []) (line ∷ lines)) ∷ []

unfoldable pub research_sections : Bool → ResearchSummary → List Text
research_sections is_analysis_requested research =
    section "Analysis (calculated from authorized structured rows):"
      (if is_analysis_requested then research.analysis_summaries else [])
    ++ (section "Material conflicts:" research.conflicts
        ++ (section "Structured conflicts:" research.structured_conflicts
            ++ (section "Limitations:" research.gaps
                ++ section "Limitations:" (
                    if research.exhausted
                    then codes "The server-owned research budget was exhausted." ∷ []
                    else []))))

module _ (rules : ResearchRules) (settings : LlmSettings) (research : ResearchSummary)
    (evidence : List HybridEvidence) where
  -- `remaining`
  unfoldable pub remaining_calls : ℕ
  remaining_calls = settings.research_max_llm_calls - research.llm_calls

  unfoldable pub comparison_context : List EvidenceContextItem
  comparison_context =
      let chosen = comparison_synthesis_evidence research evidence in
      if is_empty chosen
      then []
      else rules.build_context chosen (some (max rules.llm_max_evidence_items (length chosen)))

  unfoldable pub comparison_shared_facets : List Text
  comparison_shared_facets =
      let chosen = comparison_synthesis_evidence research evidence in
      if is_empty research.plan.required_comparison_dimensions || ltb (length chosen) 2
      then []
      else rules.common_facets chosen

  -- The call of `retrieval_response`, for the question and the principal of a request.
  unfoldable pub synthesis_request : ResponseRequest → ResponseRequest
  synthesis_request request =
      let chosen = comparison_synthesis_evidence research evidence in
      record request {
        context =
            (if is_empty comparison_context
              then rules.build_context (if is_empty chosen then evidence else chosen) none
              else comparison_context);
        maximum_provider_calls = some remaining_calls;
        require_all_evidence_ids = not (is_empty chosen);
        comparison_dimensions =
            (if is_empty comparison_context
              then []
              else research.plan.required_comparison_dimensions);
        comparison_evidence_ids =
            comparison_evidence_ids research.worker_results comparison_context
              research.plan.required_comparison_dimensions;
        comparison_shared_facets = comparison_shared_facets;
      }

  unfoldable pub with_sections : Reply → Reply
  with_sections reply = record reply {
    response = record (reply.response) {
      answer_text = take settings.llm_max_answer_characters (
          join_texts paragraph_break
            (reply.response.answer_text ∷ research_sections rules.is_analysis_requested research));
    };
  }

  -- The number of calls that is reported with a reply.
  abbrev pub reported_calls : Reply → ℕ
  reported_calls reply = if remaining_calls == 0 then 0 else 1 + reply.repairs

  -- The outcome, the calls that are reported with its reply, and the calls that were made.
  unfoldable pub research_response : Collaborators → ResponseRequest → (Outcome × ℕ) × ℕ
  research_response k request =
      let (outcome, calls) = retrieval_response k settings (synthesis_request request) in
      elim outcome [
        | replied reply ↦ ((replied (with_sections reply), reported_calls reply), calls)
        | raised error ↦ ((raised error, 0), calls)
        | Outcome.interrupted ↦ ((interrupted, 0), calls)
      ]
