-- ===== src/Api/Stream/Consistent.antt =====
-- What the graph's iterator is taken to give: items of the request, and an output that fits the
-- terminal event before it.
-- The identifiers of an event, and of an output, are those of the request.
use enterprise_ai_knowledge.Common.{
  string_eq, nat_eq, ◌≢◌, ◌≡◌, ◌∷◌, true, some, none, false, if◌then◌else◌, [], Option, List, Bool,
}
use enterprise_ai_knowledge.Frontend.Contract.{GraphOutput, Correlation, AgentEvent}
use enterprise_ai_knowledge.Api.Stream.{final_type, ready, timeout, is_final, Arrival}
use enterprise_ai_knowledge.Vocabulary.{Route, ProcessingStatus}

abbrev pub EventOf : Correlation → AgentEvent → Type 0
EventOf c a =
    (a.request_id ≡ c.request_id) × (a.trace_id ≡ c.trace_id) × (a.session_id ≡ c.session_id)

abbrev pub OutputOf : Correlation → GraphOutput → Type 0
OutputOf c r =
    (r.request_id ≡ c.request_id) × (r.trace_id ≡ c.trace_id) × (r.session_id ≡ c.session_id)

-- An output that a failure event announces says so itself.
abbrev pub Announced : Option AgentEvent → GraphOutput → Type 0
Announced terminal r =
    final_type terminal ≡ "response.failed"
    → (r.completion_status ≡ ProcessingStatus.failed) × (r.selected_route ≡ Route.failure)

-- The graph's items belong to the request, no agent event has the transport's own type, and an
-- output fits the terminal event that came before it.
unfoldable pub Consistent : Correlation → Option AgentEvent → List Arrival → Type 0
Consistent c terminal [] = Unit
Consistent c terminal (timeout gone ∷ rest) = Consistent c terminal rest
Consistent c terminal (ready item ∷ rest) = elim item.event [
  | some a ↦
      EventOf c a
      × (a.event_type ≢ "stream.error")
      × Consistent c (if is_final a.event_type then some a else terminal) rest
  | none ↦ elim item.output [
    | some r ↦ OutputOf c r × Announced terminal r
    | none ↦ Consistent c terminal rest
  ]
]

-- The client did not leave.
abbrev pub stayed : List Arrival → Bool
stayed [] = true
stayed (timeout true ∷ rest) = false
stayed (timeout false ∷ rest) = stayed rest
stayed (ready item ∷ rest) = stayed rest
