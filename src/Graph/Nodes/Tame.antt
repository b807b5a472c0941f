-- ===== src/Graph/Nodes/Tame.antt =====
-- What the updates of the nodes leave alone: no node but `handle_failure` fails the request, and only
-- `generate_response` touches the flags of the response.
use enterprise_ai_knowledge.Graph.Nodes.Response.{
  deny_request, direct_response, unsupported, python_analysis, execute_mcp_tool,
  validate_response_citations, call_tool,
}
use enterprise_ai_knowledge.Common.{
  ◌||◌, ◌≡◌, true, some, refl, not, none, false, arith, Option, Bool, ◌&&◌,
}
use enterprise_ai_knowledge.Graph.State.{merge, Update, GraphState}
use enterprise_ai_knowledge.Graph.Nodes.Retrieval.{
  evidence_update, validate_evidence, simple_retrieval,
}
use enterprise_ai_knowledge.Graph.Nodes.Request.{
  validate_request, load_memory, resolve_followup_context, supervisor, classify_intent,
}
use enterprise_ai_knowledge.Graph.Nodes.Research.{cross_document_research}
use enterprise_ai_knowledge.Vocabulary.{ProcessingStatus}
use enterprise_ai_knowledge.Graph.Nodes.Closing.{is_failed_status, update_memory, prepare_output}
use enterprise_ai_knowledge.Graph.Services.{Services}

abbrev pub is_failed_mark : Option ProcessingStatus → Bool
is_failed_mark none = false
is_failed_mark (some status) = is_failed_status status

abbrev pub is_none : {A : Type 0} → Option A → Bool
is_none none = true
is_none (some a) = false

-- The update does not fail the request.
abbrev pub keeps_status : Update → Bool
keeps_status u = not (is_failed_mark u.processing_status)

-- The update does not touch the flags of the response.
abbrev pub keeps_flags : Update → Bool
keeps_flags u =
    is_none u.deterministic_analysis_rendering_used
    && is_none u.deterministic_fallback_used
    && is_none u.fallback_reason

-- The update has no events: those of a node are the guard's to set.
abbrev pub keeps_events : Update → Bool
keeps_events u = is_none u.activity_events

abbrev pub tame : Update → Bool
tame u = keeps_status u && keeps_flags u && keeps_events u

abbrev pub every : (Update → Bool) → Option Update → Bool
every test none = true
every test (some u) = test u

pub load_memory-tame : (v : Services) (s : GraphState) → every tame (load_memory v s).1 ≡ true
unfolding load_memory
load_memory-tame v s = ground arith

pub validate_request-tame :
    (v : Services) (s : GraphState) → every tame (validate_request v s).1 ≡ true
unfolding validate_request
validate_request-tame v s = ground arith

pub resolve_followup_context-tame :
    (v : Services) (s : GraphState) → every tame (resolve_followup_context v s).1 ≡ true
unfolding resolve_followup_context
resolve_followup_context-tame v s = ground arith

pub classify_intent-tame :
    (v : Services) (s : GraphState) → every tame (classify_intent v s).1 ≡ true
unfolding classify_intent
classify_intent-tame v s = ground arith

pub supervisor-tame : (v : Services) (s : GraphState) → every tame (supervisor v s).1 ≡ true
unfolding supervisor
supervisor-tame v s = ground arith

pub simple_retrieval-tame :
    (v : Services) (s : GraphState) → every tame (simple_retrieval v s).1 ≡ true
unfolding simple_retrieval
simple_retrieval-tame v s = ground arith

pub cross_document_research-tame :
    (v : Services) (s : GraphState) → every tame (cross_document_research v s).1 ≡ true
unfolding cross_document_research
cross_document_research-tame v s = ground arith

pub validate_evidence-tame :
    (v : Services) (s : GraphState) → every tame (validate_evidence v s).1 ≡ true
unfolding validate_evidence evidence_update
validate_evidence-tame v s = ground arith

pub direct_response-tame : every tame direct_response.1 ≡ true
unfolding direct_response
direct_response-tame = refl

pub deny_request-tame : (s : GraphState) → every tame (deny_request s).1 ≡ true
unfolding deny_request
deny_request-tame s = refl

pub unsupported-tame : every tame unsupported.1 ≡ true
unfolding unsupported
unsupported-tame = refl

pub python_analysis-tame :
    (v : Services) (s : GraphState) → every tame (python_analysis v s).1 ≡ true
unfolding python_analysis
python_analysis-tame v s = ground arith

pub execute_mcp_tool-tame :
    (v : Services) (s : GraphState) → every tame (execute_mcp_tool v s).1 ≡ true
unfolding execute_mcp_tool call_tool
execute_mcp_tool-tame v s = ground arith

pub validate_response_citations-tame :
    (s : GraphState) → every tame (validate_response_citations s).1 ≡ true
unfolding validate_response_citations
validate_response_citations-tame s = ground arith

pub prepare_output-tame : (s : GraphState) → every tame (prepare_output s).1 ≡ true
unfolding prepare_output
prepare_output-tame s = refl

pub update_memory-tame : (v : Services) (s : GraphState) → every tame (update_memory v s).1 ≡ true
unfolding update_memory
update_memory-tame v s = ground arith

-- What the validator of the output asks of the flags, read of the state.
abbrev pub is_sound : GraphState → Bool
is_sound s = not (
    s.deterministic_analysis_rendering_used
    && (is_none s.analysis_result
        || s.deterministic_fallback_used
        || not (is_none s.fallback_reason)))

pub merge-tame :
    (s : GraphState) (u : Update) → tame u ≡ true → is_sound s ≡ true → is_sound (merge s u) ≡ true
unfolding merge
merge-tame s u h sound = ground arith

pub merge-status :
    (s : GraphState) (u : Update)
    → keeps_status u ≡ true
    → is_failed_mark s.processing_status ≡ false
    → is_failed_mark (merge s u).processing_status ≡ false
unfolding merge
merge-status s u h quiet = ground arith
