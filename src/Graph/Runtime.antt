-- ===== src/Graph/Runtime.antt =====
-- backend/src/enterprise_ai/graph/runtime.py: `GraphRuntime`. The owners of the sessions are a
-- dictionary that the lock guards, so that a claim is one step; the state that a request starts from
-- is the checkpoint of its thread, which is the session's, with the input merged into it as LangGraph
-- documents it. The spans, the logging and the timeout are left out.
mod Tests
pub mod Items
pub mod Sticky
pub mod Owners
pub mod Served
pub mod Answered
pub mod Placed
pub mod Streamed
use enterprise_ai_knowledge.Common.{
  all_of, insert, list_eq, nat_eq, string_eq, ◌∷◌, ℕ, true, some, not, none, ltb, lookup, length,
  false, if◌then◌else◌, contains, [], Text, Option, List, Bool, ◌==◌, ◌+◌, ◌&&◌,
}
use enterprise_ai_knowledge.Graph.State.{
  ErrorCode, same_error, same_report, same_evidence, GraphState, FinalOutput,
}
use enterprise_ai_knowledge.Frontend.Contract.{AgentEvent, GraphOutput, Correlation}
use enterprise_ai_knowledge.Identity.{permission_eq, role_eq, ToolPermission, UserRole, Principal}
use enterprise_ai_knowledge.Graph.Reducers.{
  event_types, append_events, append_text, append_unique, ActivityEvent,
}
use enterprise_ai_knowledge.Graph.Services.{Services}
use enterprise_ai_knowledge.Graph.Execution.{values, execute, custom, Part}
use enterprise_ai_knowledge.Api.Stream.{is_final, StreamItem}
use enterprise_ai_knowledge.Graph.Topology.{Node}

-- What the nodes read of a `GraphInput`.
pub record GraphInput : Type 0 where
  pub request_id : ℕ
  pub trace_id : ℕ
  pub session_id : ℕ
  pub principal : Principal
  pub user_message : Text
  pub requested_top_k : ℕ

-- The tuple that `_claim_session` keeps; its permissions are a set.
pub record Claim : Type 0 where
  pub user_id : ℕ
  pub role : UserRole
  pub permissions : List ToolPermission

abbrev pub claim_of : Principal → Claim
claim_of p = record {
  user_id = p.identity.user_id;
  role = p.identity.role;
  permissions = p.permissions;
}

abbrev pub same_claim : Claim → Claim → Bool
same_claim a b =
    (a.user_id == b.user_id)
    && (a.role == b.role)
    && all_of (contains b.permissions) a.permissions
    && all_of (contains a.permissions) b.permissions

-- `_claim_session`: the owners behind it, or none for a `SessionOwnershipError`.
unfoldable pub claim_session : GraphInput → List (ℕ × Claim) → Option (List (ℕ × Claim))
claim_session input owners = elim (lookup input.session_id owners) [
  | none ↦ some (insert input.session_id (claim_of input.principal) owners)
  | some owner ↦ if same_claim owner (claim_of input.principal) then some owners else none
]

-- `_initial_state`, merged into the checkpoint: the keys of `_base_state`, of which the empty tuples
-- go through the reducers, and the failure where the message is longer than the settings allow.
unfoldable pub initial_state : ℕ → GraphInput → GraphState → GraphState
initial_state max_characters input checkpoint =
    let too_long = ltb max_characters (length input.user_message) in
    record checkpoint {
      request_id = input.request_id;
      trace_id = input.trace_id;
      session_id = input.session_id;
      principal = input.principal;
      user_message = input.user_message;
      requested_top_k = input.requested_top_k;
      original_query = input.user_message;
      retrieved_evidence = append_unique same_evidence checkpoint.retrieved_evidence [];
      validation_reports = append_unique same_report checkpoint.validation_reports [];
      warnings = append_text checkpoint.warnings [];
      errors = append_unique same_error checkpoint.errors (
          if too_long
          then record {
            code = ErrorCode.message_character_budget_exceeded;
            node = Node.validate_request;
          }
            ∷ []
          else []);
      visited_nodes = append_text checkpoint.visited_nodes [];
      activity_events = append_events checkpoint.activity_events [];
      failure = if too_long then true else checkpoint.failure;
    }

-- `AgentEvent.model_validate` on what the stream carries, as far as the type can be wrong.
abbrev pub is_public : ActivityEvent → Bool
is_public e = contains event_types e.content.event_type

abbrev pub public_event : ActivityEvent → AgentEvent
public_event e = record {
  sequence_number = e.sequence_number;
  event_type = e.content.event_type;
  request_id = e.request_id;
  trace_id = e.trace_id;
  session_id = e.session_id;
}

abbrev pub public_output : FinalOutput → GraphOutput
public_output o = record {
  completion_status = o.completion_status;
  selected_route = o.selected_route;
  request_id = o.request_id;
  trace_id = o.trace_id;
  session_id = o.session_id;
}

abbrev pub correlation : GraphInput → Correlation
correlation input = record {
  request_id = input.request_id;
  trace_id = input.trace_id;
  session_id = input.session_id;
}

-- The test of `_astream_untraced` on a public event.
abbrev pub is_expected : Correlation → ℕ → ActivityEvent → Bool
is_expected c expected e =
    (e.sequence_number == expected)
    && (e.request_id == c.request_id)
    && (e.trace_id == c.trace_id)
    && (e.session_id == c.session_id)

module _ (c : Correlation) where
  -- The loop of `_astream_untraced` over the parts, with the next number, and whether the terminal
  -- event was seen and the output given.
  unfoldable pub items : ℕ → Bool → Bool → List Part → List StreamItem
  items expected terminal_seen output_emitted [] = []
  items expected terminal_seen output_emitted (custom e ∷ rest) =
      elim (is_public e && not terminal_seen && is_expected c expected e) [
        | false ↦ items expected terminal_seen output_emitted rest
        | true ↦
            record { event = some (public_event e); output = none }
            ∷ items (expected + 1) (is_final e.content.event_type) output_emitted rest
      ]
  items expected terminal_seen output_emitted (values s ∷ rest) = elim s.final_output [
    | none ↦ items expected terminal_seen output_emitted rest
    | some output ↦ elim (terminal_seen && not output_emitted) [
      | false ↦ items expected terminal_seen output_emitted rest
      | true ↦
          record { event = none; output = some (public_output output) }
          ∷ items expected terminal_seen true rest
    ]
  ]

-- `astream`, behind the claim of the session.
unfoldable pub astream : Services → ℕ → GraphInput → GraphState → List StreamItem
astream services max_characters input checkpoint =
    items (correlation input) 0 false false
      (execute services (initial_state max_characters input checkpoint)).parts

-- The values of a state that no request has touched.
abbrev pub fresh_state : Principal → GraphState
fresh_state principal = record {
  request_id = 0;
  trace_id = 0;
  session_id = 0;
  principal = principal;
  user_message = [];
  original_query = [];
  resolved_query = none;
  normalized_query = none;
  requested_identifiers = [];
  aggregate_intent_present = false;
  security_denial_category = none;
  detected_intent = none;
  selected_route = none;
  requested_top_k = 0;
  retrieved_evidence = [];
  validation_reports = [];
  warnings = [];
  errors = [];
  visited_nodes = [];
  activity_events = [];
  response_text = none;
  processing_status = none;
  execution_step_count = 0;
  maximum_execution_steps = none;
  failure = false;
  final_output = none;
  conversation_context = none;
  memory_used = false;
  context_used = false;
  memory_update_status = none;
  current_turn_sequence = none;
  analysis_result = none;
  citation_validation = none;
  grounded_response = none;
  deterministic_fallback_used = false;
  deterministic_analysis_rendering_used = false;
  fallback_reason = none;
  research_result = none;
  mcp_execution = none;
}

-- The checkpoint of a session behind the requests of its thread, each with the services as they
-- answer it: the memory, for one, has changed behind a turn that was stored.
unfoldable pub checkpoint : ℕ → List (Services × GraphInput) → GraphState → GraphState
checkpoint max_characters [] s = s
checkpoint max_characters ((services, input) ∷ rest) s =
    checkpoint max_characters rest (execute services (initial_state max_characters input s)).state
