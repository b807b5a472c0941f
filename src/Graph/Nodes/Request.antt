-- ===== src/Graph/Nodes/Request.antt =====
-- graph/nodes.py, the nodes from `initialize` to `supervisor`.
use mathlib.Core.Option
use enterprise_ai_knowledge.Graph.Services.{empty_context, Loaded, loaded}
-- `initialize`; the times of the start and of the deadline are not kept.
use enterprise_ai_knowledge.Common.{
  ◌∷◌, ℕ, some, not, none, ltb, leb, is_empty, false, if◌then◌else◌, [], Text, Option, List, Bool,
  ◌+◌, ◌&&◌,
}
use enterprise_ai_knowledge.Graph.Services.{node_events, content, Body, Services}
use enterprise_ai_knowledge.Graph.State.{ValidationResult, no_update, Update, GraphState}
use enterprise_ai_knowledge.Graph.Reducers.{EventStatus, Content}
use enterprise_ai_knowledge.Vocabulary.{ProcessingStatus, Route, Intent}
use enterprise_ai_knowledge.Graph.Topology.{Node}
use enterprise_ai_knowledge.Graph.Routing.{classify, supervise, requests_inaccessible_access}

unfoldable pub initialize : Services → GraphState → List Content × Update
initialize services s = (
  record { event_type = "request.accepted"; node = none; status = EventStatus.accepted }
      ∷ record { event_type = "graph.started"; node = none; status = EventStatus.started }
      ∷ [],
  record no_update {
    processing_status = some ProcessingStatus.running;
    maximum_execution_steps = some services.max_steps;
    execution_step_count = some 1;
    visited_nodes = some (Node.initialize_request ∷ []);
    failure = some s.failure;
  },
)

-- The test of `validate_request`.
abbrev pub is_valid_request : Services → GraphState → Bool
is_valid_request services s =
    not s.failure
    && not (is_empty (services.strip s.user_message))
    && leb 1 s.requested_top_k
    && leb s.requested_top_k 100

unfoldable pub validate_request : Services → GraphState → Body
validate_request services s =
    let valid = is_valid_request services s in
    let normalized_query = services.join_words s.user_message in
    (
      node_events Node.validate_request,
      some (record no_update {
        normalized_query = some normalized_query;
        requested_identifiers =
            some (services.rules.extract_enterprise_identifiers normalized_query);
        validation_reports = some (
            record {
              result = if valid then ValidationResult.passed else ValidationResult.failed;
              code = if valid then "graph.input.valid" else "graph.input.invalid";
            }
            ∷ []);
        failure = some (not valid);
        visited_nodes = some (Node.validate_request ∷ []);
        execution_step_count = some (s.execution_step_count + 1);
      }),
    )

unfoldable pub load_memory : Services → GraphState → Body
load_memory services s =
    let started = content Node.load_memory "memory.load_started" EventStatus.started in
    elim (services.load_memory s.session_id s.principal) [
      | Loaded.unavailable ↦ (
        started ∷ [],
        some (record no_update {
          warnings = some ("Session memory could not be loaded; continuing statelessly." ∷ []);
          conversation_context = some empty_context;
          memory_used = some false;
          memory_update_status = some "load_failed";
          visited_nodes = some (Node.load_memory ∷ []);
        }),
      )
      | Loaded.crashed ↦ (started ∷ [], none)
      | loaded enabled snapshot ↦ (
        started ∷ content Node.load_memory "memory.loaded" EventStatus.completed ∷ [],
        some (record no_update {
          conversation_context = some (Option.get_or snapshot empty_context);
          memory_used = some (elim snapshot [ none ↦ false | some c ↦ ltb 0 c.turn_count ]);
          memory_update_status = some (if enabled then "loaded" else "disabled");
          visited_nodes = some (Node.load_memory ∷ []);
        }),
      )
    ]

unfoldable pub resolve_followup_context : Services → GraphState → Body
resolve_followup_context services s =
    let (resolved, resolved_used) =
      services.resolve_followup s.original_query
        (Option.get_or s.conversation_context empty_context) in
    let query = if services.followup_enabled then resolved else s.original_query in
    (
      content Node.resolve_followup_context "memory.context_resolved" EventStatus.completed ∷ [],
      some (record no_update {
        resolved_query = some query;
        normalized_query = some query;
        context_used = some (services.followup_enabled && resolved_used);
        visited_nodes = some (Node.resolve_followup_context ∷ []);
      }),
    )

unfoldable pub classify_intent : Services → GraphState → Body
classify_intent services s = elim s.normalized_query [
  | none ↦ ([], none)
  | some query ↦ (
    node_events Node.classify_intent,
    some (record no_update {
      detected_intent = some (classify services.rules query).0;
      aggregate_intent_present = some (services.rules.has_explicit_aggregate_intent query);
      security_denial_category = some (services.rules.security_denial_category query);
      visited_nodes = some (Node.classify_intent ∷ []);
      execution_step_count = some (s.execution_step_count + 1);
    }),
  )
]

-- `a or b` on categories.
abbrev pub first_category : Option ℕ → Option ℕ → Option ℕ
first_category none b = b
first_category (some a) b = some a

-- The route of `supervisor`, from the category and the resolved query.
unfoldable pub supervised_route : Services → GraphState → Text → Option ℕ → Intent → Route
supervised_route services s query (some category) intent = Route.deny
supervised_route services s query none intent =
    if requests_inaccessible_access services.rules query s.principal
    then Route.deny
    else supervise intent s.principal

unfoldable pub supervisor : Services → GraphState → Body
supervisor services s = elim s.resolved_query [
  | none ↦ ([], none)
  | some query ↦ elim s.detected_intent [
    | none ↦ ([], none)
    | some intent ↦
        let category =
          first_category (services.rules.security_denial_category query)
            s.security_denial_category in
        (
          content Node.supervisor "route.selected" EventStatus.completed ∷ [],
          some (record no_update {
            selected_route = some (supervised_route services s query category intent);
            security_denial_category = some category;
            visited_nodes = some (Node.supervisor ∷ []);
            execution_step_count = some (s.execution_step_count + 1);
          }),
        )
  ]
]
