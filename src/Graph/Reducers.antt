-- ===== src/Graph/Reducers.antt =====
-- backend/src/enterprise_ai/graph/reducers.py, and the numbering of the events: `EventJournal` and
-- `event` of graph/events.py. An event keeps its sequence number, the request's identifiers, and of
-- what `event` is called with the type, the node and the status; its own identifier, the time, the
-- message and the payload are left out. The `RuntimeError` of the journal is none.
use enterprise_ai_knowledge.Common.{
  option_eq, string_eq, String, nat_eq, ◌∷◌, ℕ, some, none, last_slice, if◌then◌else◌, any_of, [],
  Option, List, Bool, ◌==◌, ◌++◌, ◌+◌, ◌&&◌,
}
use enterprise_ai_knowledge.Graph.Topology.{node_eq, Node}

-- `AgentEventType`
abbrev pub event_types : List String
event_types =
    "request.accepted" ∷ "graph.started" ∷ "node.started" ∷ "node.completed" ∷ "node.failed"
    ∷ "route.selected" ∷ "retrieval.started" ∷ "retrieval.completed" ∷ "tool.authorization_started"
    ∷ "tool.authorized" ∷ "tool.denied" ∷ "tool.started" ∷ "tool.completed" ∷ "tool.failed"
    ∷ "mcp.started" ∷ "mcp.tool_selected" ∷ "mcp.completed" ∷ "mcp.denied" ∷ "mcp.failed"
    ∷ "research.batch_started" ∷ "research.batch_completed" ∷ "research.started"
    ∷ "research.catalog_completed" ∷ "research.planning_started" ∷ "research.plan_created"
    ∷ "research.plan_validated" ∷ "research.worker_dispatched" ∷ "research.worker_started"
    ∷ "research.retrieval_completed" ∷ "research.analysis_completed" ∷ "research.worker_completed"
    ∷ "research.worker_failed" ∷ "research.round_completed" ∷ "research.coverage_assessed"
    ∷ "research.child_tasks_created" ∷ "research.aggregation_completed" ∷ "research.partial"
    ∷ "research.budget_exhausted" ∷ "research.completed" ∷ "research.failed"
    ∷ "validation.completed" ∷ "memory.updated" ∷ "memory.load_started" ∷ "memory.loaded"
    ∷ "memory.context_resolved" ∷ "memory.update_started" ∷ "memory.evicted" ∷ "memory.failed"
    ∷ "response.token" ∷ "response.completed" ∷ "response.failed" ∷ "response.generation_started"
    ∷ "response.generation_completed" ∷ "response.generation_failed" ∷ "citation.validation_started"
    ∷ "citation.validation_completed" ∷ "citation.validation_failed" ∷ "response.repair_started"
    ∷ "response.repair_completed" ∷ "response.fallback_used" ∷ []

pub data EventStatus : Type 0 where
  accepted started running completed warning denied failed : EventStatus

abbrev pub event_status_code : EventStatus → ℕ
event_status_code EventStatus.accepted = 0
event_status_code EventStatus.started = 1
event_status_code EventStatus.running = 2
event_status_code EventStatus.completed = 3
event_status_code EventStatus.warning = 4
event_status_code EventStatus.denied = 5
event_status_code EventStatus.failed = 6

-- What `event` is called with: the type's value, the node and the status.
pub record Content : Type 0 where
  pub event_type : String
  pub node : Option Node
  pub status : EventStatus

pub record ActivityEvent : Type 0 where
  pub sequence_number : ℕ
  pub request_id : ℕ
  pub trace_id : ℕ
  pub session_id : ℕ
  pub content : Content

abbrev pub same_content : Content → Content → Bool
same_content a b =
    (a.event_type == b.event_type)
    && (a.node == b.node)
    && (event_status_code a.status == event_status_code b.status)

abbrev pub same_event : ActivityEvent → ActivityEvent → Bool
same_event a b =
    (a.sequence_number == b.sequence_number)
    && (a.request_id == b.request_id)
    && (a.trace_id == b.trace_id)
    && (a.session_id == b.session_id)
    && same_content a.content b.content

-- `MAX_RETAINED_ACTIVITY_EVENTS`
abbrev pub max_retained : ℕ
max_retained = 200

module _ {A : Type 0} (same : A → A → Bool) where
  -- The loop of `append_unique`, on the list so far; `item in result` tests equality by `same`.
  unfoldable pub add_unique : List A → List A → List A
  add_unique result [] = result
  add_unique result (item ∷ rest) =
      let kept = any_of (same item) result in
      add_unique (if kept then result else result ++ item ∷ []) rest

  -- `append_unique`: an empty update clears the history.
  unfoldable pub append_unique : List A → List A → List A
  append_unique left [] = []
  append_unique left (x ∷ right) = add_unique left (x ∷ right)

-- `append_text`
unfoldable pub append_text {ℓ} : {A : Type ℓ} → List A → List A → List A
append_text left [] = []
append_text left (x ∷ right) = left ++ x ∷ right

-- `append_events`: an update that starts at number zero replaces the history.
unfoldable pub append_events : List ActivityEvent → List ActivityEvent → List ActivityEvent
append_events left [] = last_slice max_retained (append_unique same_event left [])
append_events left (x ∷ right) =
    if x.sequence_number == 0
    then last_slice max_retained (x ∷ right)
    else last_slice max_retained (append_unique same_event left (x ∷ right))

pub record EventJournal : Type 0 where
  pub request_id : ℕ
  pub trace_id : ℕ
  pub session_id : ℕ
  pub next_sequence : ℕ
  pub emitted : List ActivityEvent

-- The number behind the last of the history.
unfoldable pub next_number : List ActivityEvent → ℕ
next_number [] = 0
next_number (x ∷ []) = x.sequence_number + 1
next_number (x ∷ y ∷ rest) = next_number (y ∷ rest)

-- The journal that `collect_node_events` opens.
abbrev pub open_journal : ℕ → ℕ → ℕ → List ActivityEvent → EventJournal
open_journal request_id trace_id session_id history = record {
  request_id = request_id;
  trace_id = trace_id;
  session_id = session_id;
  next_sequence = next_number history;
  emitted = [];
}

-- `EventJournal.append`
unfoldable pub append : ActivityEvent → EventJournal → Option EventJournal
append item j =
    if (item.request_id == j.request_id)
      && (item.trace_id == j.trace_id)
      && (item.session_id == j.session_id)
      && (item.sequence_number == j.next_sequence)
    then some (record j { next_sequence = j.next_sequence + 1; emitted = j.emitted ++ item ∷ [] })
    else none

-- `event`, with the journal of the running node: the journal that holds the event.
unfoldable pub emit : ℕ → ℕ → ℕ → Content → EventJournal → Option EventJournal
emit request_id trace_id session_id content j =
    append
      (record {
        sequence_number = j.next_sequence;
        request_id = request_id;
        trace_id = trace_id;
        session_id = session_id;
        content = content;
      })
      j

-- The events of a node, in turn.
unfoldable pub emit_all : ℕ → ℕ → ℕ → List Content → EventJournal → Option EventJournal
emit_all request_id trace_id session_id [] j = some j
emit_all request_id trace_id session_id (x ∷ rest) j =
    elim (emit request_id trace_id session_id x j) [
      | none ↦ none
      | some k ↦ emit_all request_id trace_id session_id rest k
    ]
