-- ===== src/Graph/State.antt =====
-- `GraphState` of backend/src/enterprise_ai/graph/state.py, the models that its fields hold as far
-- as the nodes read them, and how the update that a node returns is merged: a field with a reducer
-- by the reducer, any other by replacement, which is what LangGraph documents for the annotations.
-- Left out are the fields that no node, edge or output reads: the complexity, the retrieval's status,
-- the response's mode, draft and repairs, the start and the deadline, the recursion's depth.
use enterprise_ai_knowledge.Common.{
  ◌||◌, true, not, false, Text, string_eq, nat_eq, ℕ, some, none, String, Option, List, Bool, ◌==◌,
  ◌&&◌,
}
use enterprise_ai_knowledge.Graph.Topology.{node_eq, Node}
use enterprise_ai_knowledge.Vocabulary.{Route, Intent, ProcessingStatus}
use enterprise_ai_knowledge.Graph.Reducers.{
  append_events, ActivityEvent, append_text, append_unique,
}
use enterprise_ai_knowledge.Identity.{Principal}
use enterprise_ai_knowledge.Research.Aggregation.{
  HybridEvidence, ResearchEvidenceEntry, same_identity,
}
use enterprise_ai_knowledge.Memory.Models.{MemoryContext}

pub data ValidationResult : Type 0 where
  passed failed warning : ValidationResult

abbrev pub result_code : ValidationResult → ℕ
result_code ValidationResult.passed = 0
result_code ValidationResult.failed = 1
result_code ValidationResult.warning = 2

-- `ValidationReport`, by its result and the code of its one finding.
pub record ValidationReport : Type 0 where
  pub result : ValidationResult
  pub code : String

pub data ErrorCode : Type 0 where
  step_budget_exceeded message_character_budget_exceeded node_failed : ErrorCode
  retrieval_failed mcp_failed research_disabled research_failed : ErrorCode

abbrev pub error_number : ErrorCode → ℕ
error_number ErrorCode.step_budget_exceeded = 0
error_number ErrorCode.message_character_budget_exceeded = 1
error_number ErrorCode.node_failed = 2
error_number ErrorCode.retrieval_failed = 3
error_number ErrorCode.mcp_failed = 4
error_number ErrorCode.research_disabled = 5
error_number ErrorCode.research_failed = 6

pub record GraphError : Type 0 where
  pub code : ErrorCode
  pub node : Node

pub data FallbackReason : Type 0 where
  provider_unavailable provider_timeout provider_http_error : FallbackReason
  invalid_structured_output prohibited_reasoning citation_validation_failed : FallbackReason
  entity_alignment_validation_failed research_dimension_validation_failed : FallbackReason
  response_policy_rejected provider_call_budget_exhausted : FallbackReason
  unknown_provider_failure : FallbackReason

pub record AnalysisResult : Type 0 where
  pub summary : String
  pub items : ℕ

pub record GroundedResponse : Type 0 where
  pub answer_text : String
  pub citations : List ℕ
  pub provider : String
  pub model : String
  pub deterministic_fallback_used : Bool
  pub deterministic_analysis_rendering_used : Bool
  pub fallback_reason : Option FallbackReason
  pub insufficient_evidence : Bool

pub data CoverageStatus : Type 0 where
  sufficient partially_sufficient insufficient blocked_by_authorization : CoverageStatus
  budget_exhausted failed : CoverageStatus

-- What the nodes read of a `ResearchWorkerResult`.
pub record WorkerSummary : Type 0 where
  pub depth : ℕ
  pub has_analysis : Bool
  pub failed : Bool

-- What the nodes read of a `ResearchResult`.
pub record ResearchResult : Type 0 where
  pub entries : List ResearchEvidenceEntry
  pub worker_results : List WorkerSummary
  pub warnings : List String
  pub gaps : List String
  pub conflicts : List String
  pub status : CoverageStatus
  pub exhausted : Bool
  pub llm_calls : ℕ

-- What the nodes read of an `MCPExecutionResult`.
pub record McpExecution : Type 0 where
  pub response_text : String
  pub provenance : ℕ

pub record FinalOutput : Type 0 where
  pub request_id : ℕ
  pub trace_id : ℕ
  pub session_id : ℕ
  pub completion_status : ProcessingStatus
  pub selected_route : Route
  pub intent : Intent
  pub evidence : List HybridEvidence
  pub warnings : List String
  pub response_text : String
  pub validation_reports : List ValidationReport
  pub memory_used : Bool
  pub context_resolved : Bool
  pub turn_sequence : Option ℕ
  pub memory_update_status : String
  pub analysis_result : Option AnalysisResult
  pub citations : List ℕ
  pub response_provider : Option String
  pub response_model : Option String
  pub deterministic_fallback_used : Bool
  pub deterministic_analysis_rendering_used : Bool
  pub fallback_reason : Option FallbackReason
  pub insufficient_evidence : Bool
  pub mcp_result : Option McpExecution

-- An absent key is `none`, or the default that every reader of the key takes for it.
pub record GraphState : Type 0 where
  pub request_id : ℕ
  pub trace_id : ℕ
  pub session_id : ℕ
  pub principal : Principal
  pub user_message : Text
  pub original_query : Text
  pub resolved_query : Option Text
  pub normalized_query : Option Text
  pub requested_identifiers : List Text
  pub aggregate_intent_present : Bool
  pub security_denial_category : Option ℕ
  pub detected_intent : Option Intent
  pub selected_route : Option Route
  pub requested_top_k : ℕ
  pub retrieved_evidence : List HybridEvidence
  pub validation_reports : List ValidationReport
  pub warnings : List String
  pub errors : List GraphError
  pub visited_nodes : List Node
  pub activity_events : List ActivityEvent
  pub response_text : Option String
  pub processing_status : Option ProcessingStatus
  pub execution_step_count : ℕ
  pub maximum_execution_steps : Option ℕ
  pub failure : Bool
  pub final_output : Option FinalOutput
  pub conversation_context : Option MemoryContext
  pub memory_used : Bool
  pub context_used : Bool
  pub memory_update_status : Option String
  pub current_turn_sequence : Option ℕ
  pub analysis_result : Option AnalysisResult
  pub citation_validation : Option Bool
  pub grounded_response : Option GroundedResponse
  pub deterministic_fallback_used : Bool
  pub deterministic_analysis_rendering_used : Bool
  pub fallback_reason : Option FallbackReason
  pub research_result : Option ResearchResult
  pub mcp_execution : Option McpExecution

-- What a node returns: the keys of its dictionary, `none` for a key that is not there.
pub record Update : Type 0 where
  pub resolved_query : Option Text
  pub normalized_query : Option Text
  pub requested_identifiers : Option (List Text)
  pub aggregate_intent_present : Option Bool
  pub security_denial_category : Option (Option ℕ)
  pub detected_intent : Option Intent
  pub selected_route : Option Route
  pub retrieved_evidence : Option (List HybridEvidence)
  pub validation_reports : Option (List ValidationReport)
  pub warnings : Option (List String)
  pub errors : Option (List GraphError)
  pub visited_nodes : Option (List Node)
  pub activity_events : Option (List ActivityEvent)
  pub response_text : Option String
  pub processing_status : Option ProcessingStatus
  pub execution_step_count : Option ℕ
  pub maximum_execution_steps : Option ℕ
  pub failure : Option Bool
  pub final_output : Option FinalOutput
  pub conversation_context : Option MemoryContext
  pub memory_used : Option Bool
  pub context_used : Option Bool
  pub memory_update_status : Option String
  pub current_turn_sequence : Option (Option ℕ)
  pub analysis_result : Option AnalysisResult
  pub citation_validation : Option (Option Bool)
  pub grounded_response : Option GroundedResponse
  pub deterministic_fallback_used : Option Bool
  pub deterministic_analysis_rendering_used : Option Bool
  pub fallback_reason : Option (Option FallbackReason)
  pub research_result : Option ResearchResult
  pub mcp_execution : Option McpExecution

-- The empty dictionary.
abbrev pub no_update : Update
no_update = record {
  resolved_query = none;
  normalized_query = none;
  requested_identifiers = none;
  aggregate_intent_present = none;
  security_denial_category = none;
  detected_intent = none;
  selected_route = none;
  retrieved_evidence = none;
  validation_reports = none;
  warnings = none;
  errors = none;
  visited_nodes = none;
  activity_events = none;
  response_text = none;
  processing_status = none;
  execution_step_count = none;
  maximum_execution_steps = none;
  failure = none;
  final_output = none;
  conversation_context = none;
  memory_used = none;
  context_used = none;
  memory_update_status = none;
  current_turn_sequence = none;
  analysis_result = none;
  citation_validation = none;
  grounded_response = none;
  deterministic_fallback_used = none;
  deterministic_analysis_rendering_used = none;
  fallback_reason = none;
  research_result = none;
  mcp_execution = none;
}

-- Equality of models is field by field.
unfoldable pub same_evidence : HybridEvidence → HybridEvidence → Bool
unfolding same_identity
same_evidence a b =
    same_identity a.evidence b.evidence
    && (a.evidence.chunk_id == b.evidence.chunk_id)
    && (a.evidence.text == b.evidence.text)
    && (a.final_rank == b.final_rank)
    && (a.hybrid_score == b.hybrid_score)

abbrev pub same_report : ValidationReport → ValidationReport → Bool
same_report a b = (result_code a.result == result_code b.result) && (a.code == b.code)

abbrev pub same_error : GraphError → GraphError → Bool
same_error a b = (error_number a.code == error_number b.code) && (a.node == b.node)

abbrev pub replace : {A : Type 0} → A → Option A → A
replace old none = old
replace old (some new) = new

abbrev pub set : {A : Type 0} → Option A → Option A → Option A
set old none = old
set old (some new) = some new

abbrev pub reduce : {A : Type 0} → (A → A → A) → A → Option A → A
reduce f old none = old
reduce f old (some new) = f old new

-- The state behind a node.
unfoldable pub merge : GraphState → Update → GraphState
merge s u = record s {
  resolved_query = set s.resolved_query u.resolved_query;
  normalized_query = set s.normalized_query u.normalized_query;
  requested_identifiers = replace s.requested_identifiers u.requested_identifiers;
  aggregate_intent_present = replace s.aggregate_intent_present u.aggregate_intent_present;
  security_denial_category = replace s.security_denial_category u.security_denial_category;
  detected_intent = set s.detected_intent u.detected_intent;
  selected_route = set s.selected_route u.selected_route;
  retrieved_evidence =
      reduce (append_unique same_evidence) s.retrieved_evidence u.retrieved_evidence;
  validation_reports = reduce (append_unique same_report) s.validation_reports u.validation_reports;
  warnings = reduce append_text s.warnings u.warnings;
  errors = reduce (append_unique same_error) s.errors u.errors;
  visited_nodes = reduce append_text s.visited_nodes u.visited_nodes;
  activity_events = reduce append_events s.activity_events u.activity_events;
  response_text = set s.response_text u.response_text;
  processing_status = set s.processing_status u.processing_status;
  execution_step_count = replace s.execution_step_count u.execution_step_count;
  maximum_execution_steps = set s.maximum_execution_steps u.maximum_execution_steps;
  failure = replace s.failure u.failure;
  final_output = set s.final_output u.final_output;
  conversation_context = set s.conversation_context u.conversation_context;
  memory_used = replace s.memory_used u.memory_used;
  context_used = replace s.context_used u.context_used;
  memory_update_status = set s.memory_update_status u.memory_update_status;
  current_turn_sequence = replace s.current_turn_sequence u.current_turn_sequence;
  analysis_result = set s.analysis_result u.analysis_result;
  citation_validation = replace s.citation_validation u.citation_validation;
  grounded_response = set s.grounded_response u.grounded_response;
  deterministic_fallback_used = replace s.deterministic_fallback_used u.deterministic_fallback_used;
  deterministic_analysis_rendering_used =
      replace s.deterministic_analysis_rendering_used u.deterministic_analysis_rendering_used;
  fallback_reason = replace s.fallback_reason u.fallback_reason;
  research_result = set s.research_result u.research_result;
  mcp_execution = set s.mcp_execution u.mcp_execution;
}

-- The validator of `GroundedResponse` in backend/src/enterprise_ai/llm/models.py.
abbrev pub is_valid_response : GroundedResponse → Bool
is_valid_response r = not (
    r.deterministic_analysis_rendering_used
    && (r.deterministic_fallback_used
        || elim r.fallback_reason [ none ↦ false | some reason ↦ true ]))
