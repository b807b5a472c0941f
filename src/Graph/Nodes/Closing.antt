-- ===== src/Graph/Nodes/Closing.antt =====
-- graph/nodes.py: `prepare_output`, `update_memory`, `handle_failure` and `finalize`.
use mathlib.Core.Option
use enterprise_ai_knowledge.Graph.Services.{node_events, Body, content, Services, Stored, written}
use enterprise_ai_knowledge.Common.{
  string_eq, ◌∷◌, ◌||◌, true, some, not, none, false, if◌then◌else◌, [], String, Option, List, Bool,
  ◌==◌, ◌&&◌,
}
use enterprise_ai_knowledge.Graph.Reducers.{EventStatus, Content}
use enterprise_ai_knowledge.Vocabulary.{Intent, Route, ProcessingStatus}
use enterprise_ai_knowledge.Graph.State.{no_update, Update, FinalOutput, GraphState}
use enterprise_ai_knowledge.Graph.Topology.{Node}

-- `state.get("response_text") or ...`
unfoldable pub prepared_text : GraphState → String
prepared_text s =
    let other : String = elim s.analysis_result [
      | none ↦
          "Authorized evidence was retrieved and validated. Generative answer synthesis is not implemented."
      | some analysis ↦ analysis.summary
    ] in
    elim s.response_text [ none ↦ other | some text ↦ if text == "" then other else text ]

unfoldable pub prepare_output : GraphState → Body
prepare_output s = (
  node_events Node.prepare_output,
  some (record no_update {
    response_text = some (prepared_text s);
    visited_nodes = some (Node.prepare_output ∷ []);
  }),
)

-- `state.get("processing_status", RUNNING)`, where running counts as completed.
unfoldable pub effective_status : Option ProcessingStatus → ProcessingStatus
effective_status none = ProcessingStatus.completed
effective_status (some ProcessingStatus.running) = ProcessingStatus.completed
effective_status (some status) = status

unfoldable pub update_memory : Services → GraphState → Body
update_memory services s =
    let started = content Node.update_memory "memory.update_started" EventStatus.started in
    elim s.response_text [
      | none ↦ (started ∷ [], none)
      | some text ↦ elim s.selected_route [
        | none ↦ (started ∷ [], none)
        | some route ↦
            elim (services.update_memory s text route (effective_status s.processing_status)) [
              | Stored.unavailable ↦ (
                started ∷ [],
                some (record no_update {
                  warnings = some ("Response completed, but session memory was not updated." ∷ []);
                  memory_update_status = some "failed";
                  visited_nodes = some (Node.update_memory ∷ []);
                }),
              )
              | Stored.crashed ↦ (started ∷ [], none)
              | written stored duplicate sequence ↦ (
                started ∷ content Node.update_memory "memory.updated" EventStatus.completed ∷ [],
                some (record no_update {
                  memory_update_status =
                      some
                        (if duplicate then "duplicate" else if stored then "stored" else "skipped");
                  current_turn_sequence = some sequence;
                  visited_nodes = some (Node.update_memory ∷ []);
                }),
              )
            ]
      ]
    ]

unfoldable pub handle_failure : List Content × Update
handle_failure = (
  node_events Node.handle_failure,
  record no_update {
    processing_status = some ProcessingStatus.failed;
    selected_route = some Route.failure;
    response_text = some "The request failed safely.";
    retrieved_evidence = some [];
    visited_nodes = some (Node.handle_failure ∷ []);
  },
)

-- `GraphOutput(...)`, at the final status and the route.
unfoldable pub output_of : GraphState → ProcessingStatus → Route → FinalOutput
output_of s status route = record {
  request_id = s.request_id;
  trace_id = s.trace_id;
  session_id = s.session_id;
  completion_status = status;
  selected_route = route;
  intent = Option.get_or s.detected_intent Intent.unsupported;
  evidence = s.retrieved_evidence;
  warnings = s.warnings;
  response_text = Option.get_or s.response_text "The request completed without a response.";
  validation_reports = s.validation_reports;
  memory_used = s.memory_used;
  context_resolved = s.context_used;
  turn_sequence = s.current_turn_sequence;
  memory_update_status = Option.get_or s.memory_update_status "disabled";
  analysis_result = s.analysis_result;
  citations = elim s.grounded_response [ none ↦ [] | some r ↦ r.citations ];
  response_provider = elim s.grounded_response [ none ↦ none | some r ↦ some r.provider ];
  response_model = elim s.grounded_response [ none ↦ none | some r ↦ some r.model ];
  deterministic_fallback_used = s.deterministic_fallback_used;
  deterministic_analysis_rendering_used = s.deterministic_analysis_rendering_used;
  fallback_reason = s.fallback_reason;
  insufficient_evidence = elim s.grounded_response [
    | none ↦ false
    | some r ↦ r.insufficient_evidence
  ];
  mcp_result = s.mcp_execution;
}

-- The validator `deterministic_analysis_is_not_fallback` of `GraphOutput`.
unfoldable pub is_valid_output : FinalOutput → Bool
is_valid_output o = not (
    o.deterministic_analysis_rendering_used
    && (elim o.analysis_result [ none ↦ true | some a ↦ false ]
        || o.deterministic_fallback_used
        || elim o.fallback_reason [ none ↦ false | some reason ↦ true ]))

abbrev pub is_failed_status : ProcessingStatus → Bool
is_failed_status ProcessingStatus.failed = true
is_failed_status status = false

abbrev pub final_event : ProcessingStatus → Content
final_event status =
    if is_failed_status status
    then content Node.finalize_execution "response.failed" EventStatus.failed
    else content Node.finalize_execution "response.completed" EventStatus.completed

-- The event comes before the output is built, which raises where the state has no route or the
-- validator refuses.
unfoldable pub finalize : GraphState → Body
finalize s =
    let status = effective_status s.processing_status in
    elim s.selected_route [
      | none ↦ (final_event status ∷ [], none)
      | some route ↦
          let output = output_of s status route in
          (
            final_event status ∷ [],
            if is_valid_output output
                then some (record no_update {
                  processing_status = some status;
                  final_output = some output;
                  visited_nodes = some (Node.finalize_execution ∷ []);
                })
                else none,
          )
    ]
