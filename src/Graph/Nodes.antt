-- ===== src/Graph/Nodes.antt =====
-- backend/src/enterprise_ai/graph/nodes.py: the bodies of the nodes (the children), the guard around
-- them, and what a node of the graph does to the state. The tracing spans are left out.
pub mod Request
pub mod Retrieval
pub mod Response
pub mod Research
pub mod Closing
pub mod Tame
pub mod Failures
pub mod Rejected
pub mod Guarded
pub mod Carried
pub mod Quiet
pub mod Generated
use mathlib.Core.Option
use enterprise_ai_knowledge.Common.{
  nat_eq, option_eq, ◌∷◌, true, some, none, map, leb, is_empty, if◌then◌else◌, any_of, [], String,
  Option, List, Bool, ◌==◌, ◌++◌, ◌+◌, ◌&&◌,
}
use enterprise_ai_knowledge.Graph.State.{ErrorCode, no_update, Update, GraphState}
use enterprise_ai_knowledge.Graph.Services.{content, Body, Services}
use enterprise_ai_knowledge.Graph.Reducers.{
  EventStatus, open_journal, emit_all, next_number, event_status_code, Content, ActivityEvent,
}
use enterprise_ai_knowledge.Graph.Topology.{node_eq, Node}
use enterprise_ai_knowledge.Graph.Nodes.Request.{
  supervisor, classify_intent, resolve_followup_context, load_memory, validate_request, initialize,
}
use enterprise_ai_knowledge.Graph.Nodes.Closing.{
  finalize, handle_failure, prepare_output, update_memory,
}
use enterprise_ai_knowledge.Graph.Nodes.Retrieval.{validate_evidence, simple_retrieval}
use enterprise_ai_knowledge.Graph.Nodes.Research.{cross_document_research}
use enterprise_ai_knowledge.Graph.Nodes.Response.{
  deny_request, direct_response, unsupported, python_analysis, execute_mcp_tool, generate_response,
  validate_response_citations,
}

-- The events of a call of `event` without a journal, each numbered behind the history so far.
unfoldable pub plain_events : GraphState → List ActivityEvent → List Content → List ActivityEvent
plain_events s history [] = []
plain_events s history (c ∷ rest) =
    let e : ActivityEvent = record {
      sequence_number = next_number history;
      request_id = s.request_id;
      trace_id = s.trace_id;
      session_id = s.session_id;
      content = c;
    } in
    e ∷ plain_events s (history ++ e ∷ []) rest

-- The events of a guarded node: `emitted` of its journal.
unfoldable pub journal_events : GraphState → List Content → List ActivityEvent
journal_events s contents =
    elim (emit_all s.request_id s.trace_id s.session_id contents
      (open_journal s.request_id s.trace_id s.session_id s.activity_events)) [
        | none ↦ []
        | some j ↦ j.emitted
      ]

abbrev is_failure_of : Node → Content → Bool
is_failure_of n c =
    (c.node == some n) && (event_status_code c.status == event_status_code EventStatus.failed)

abbrev failure_type : Node → String
failure_type Node.python_analysis = "tool.failed"
failure_type Node.execute_mcp_tool = "mcp.failed"
failure_type Node.cross_document_research = "research.failed"
failure_type Node.generate_response = "response.generation_failed"
failure_type Node.validate_citations = "citation.validation_failed"
failure_type Node.update_memory = "memory.failed"
failure_type n = "node.failed"

-- `_failed_node_event`: nothing where the node has already told its failure.
unfoldable pub failed_node_events : Node → List Content → List Content
failed_node_events n contents =
    if any_of (is_failure_of n) contents
    then []
    else content n (failure_type n) EventStatus.failed ∷ []

-- The keys `activity_events` and `execution_step_count` that the guard sets.
unfoldable pub completed_update : GraphState → List ActivityEvent → Update → Update
completed_update s events u = record u {
  activity_events = if is_empty events then u.activity_events else some events;
  execution_step_count = some (Option.get_or u.execution_step_count (s.execution_step_count + 1));
}

unfoldable pub failed_update : Node → List ActivityEvent → Update
failed_update n events = record no_update {
  failure = some true;
  errors = some (record { code = ErrorCode.node_failed; node = n } ∷ []);
  activity_events = some events;
  visited_nodes = some (n ∷ []);
}

-- What a node gives: the events that it streams, and its update, or none where it raises.
abbrev pub Performed : Type 0
Performed = List ActivityEvent × Option Update

unfoldable pub over_budget : Services → GraphState → Bool
over_budget services s =
    leb (Option.get_or s.maximum_execution_steps services.max_steps) s.execution_step_count

-- `guarded`, around a body that ran.
unfoldable pub guarded : Services → Node → GraphState → Body → Performed
guarded services n s (contents, result) =
    if over_budget services s
    then (
      [],
      some (record no_update {
        failure = some true;
        errors = some (record { code = ErrorCode.step_budget_exceeded; node = n } ∷ []);
        visited_nodes = some (n ∷ []);
      }),
    )
    else elim result [
      | some u ↦
          let events = journal_events s contents in (events, some (completed_update s events u))
      | none ↦
          let events = journal_events s (contents ++ failed_node_events n contents) in
          (events, some (failed_update n events))
    ]

-- `create_nodes`
unfoldable pub node : Services → Node → GraphState → Performed
node services Node.initialize_request s =
    let (contents, u) = initialize services s in
    let events = plain_events s [] contents in
    (events, some (record u { activity_events = some events }))
node services Node.handle_failure s =
    let (contents, u) = handle_failure in
    let events = plain_events s s.activity_events contents in
    (events, some (record u { activity_events = some events }))
node services Node.finalize_execution s =
    let (contents, result) = finalize s in
    let events = plain_events s s.activity_events contents in
    (
      events,
      elim result [ none ↦ none | some u ↦ some (record u { activity_events = some events }) ],
    )
node services Node.validate_request s =
    guarded services Node.validate_request s (validate_request services s)
node services Node.load_memory s = guarded services Node.load_memory s (load_memory services s)
node services Node.resolve_followup_context s =
    guarded services Node.resolve_followup_context s (resolve_followup_context services s)
node services Node.classify_intent s =
    guarded services Node.classify_intent s (classify_intent services s)
node services Node.supervisor s = guarded services Node.supervisor s (supervisor services s)
node services Node.simple_retrieval s =
    guarded services Node.simple_retrieval s (simple_retrieval services s)
node services Node.cross_document_research s =
    guarded services Node.cross_document_research s (cross_document_research services s)
node services Node.validate_evidence s =
    guarded services Node.validate_evidence s (validate_evidence services s)
node services Node.direct_response s = guarded services Node.direct_response s direct_response
node services Node.deny_request s = guarded services Node.deny_request s (deny_request s)
node services Node.unsupported s = guarded services Node.unsupported s unsupported
node services Node.python_analysis s =
    guarded services Node.python_analysis s (python_analysis services s)
node services Node.execute_mcp_tool s =
    guarded services Node.execute_mcp_tool s (execute_mcp_tool services s)
node services Node.generate_response s =
    guarded services Node.generate_response s (generate_response services s)
node services Node.validate_citations s =
    guarded services Node.validate_citations s (validate_response_citations s)
node services Node.prepare_output s = guarded services Node.prepare_output s (prepare_output s)
node services Node.update_memory s =
    guarded services Node.update_memory s (update_memory services s)
