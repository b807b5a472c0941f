-- ===== src/Api/Tests.antt =====
-- A stream of a request, and what the frontend makes of it.
use enterprise_ai_knowledge.Common.{
  string_eq, ◌≢◌, ◌≡◌, ==_iff, ◌==◌, ◌∷◌, some, refl, none, false, arith, [], String, List,
}
use enterprise_ai_knowledge.Api.Stream.Accepted.{chat_event_stream-Fulfilled, Fulfilled}
use enterprise_ai_knowledge.Api.Stream.Consistent.{stayed, Consistent}
use enterprise_ai_knowledge.Frontend.Contract.{
  new_validator, no_output, accept_all, GraphOutput, Correlation, AgentEvent,
}
use enterprise_ai_knowledge.Api.Stream.{chat_event_stream, envelopes, timeout, ready, Arrival}
use enterprise_ai_knowledge.Vocabulary.{Route, ProcessingStatus}

abbrev request : Correlation
request = record { request_id = 1; trace_id = 2; session_id = 3 }

abbrev agent : String → AgentEvent
agent event_type = record {
  sequence_number = 0;
  event_type = event_type;
  request_id = 1;
  trace_id = 2;
  session_id = 3;
}

abbrev failed_output : GraphOutput
failed_output = record {
  completion_status = ProcessingStatus.failed;
  selected_route = Route.failure;
  request_id = 1;
  trace_id = 2;
  session_id = 3;
}

-- A node starts, a ping passes, and the graph fails with an output that says so.
abbrev arrivals : List Arrival
arrivals =
    ready (record { event = some (agent "node.started"); output = none })
    ∷ timeout false
    ∷ ready (record { event = some (agent "response.failed"); output = none })
    ∷ ready (record { event = none; output = some failed_output })
    ∷ []

unlike : (a b : String) → (a == b) ≡ false → a ≢ b
unlike a b differ same = let yes = (==_iff a b).1 same in ground arith

arrivals-Consistent : Consistent request none arrivals
unfolding Consistent
arrivals-Consistent = (
  (refl, refl, refl),
  unlike "node.started" "stream.error" refl,
  (
    (refl, refl, refl),
    unlike "response.failed" "stream.error" refl,
    ((refl, refl, refl), λ e. (refl, refl)),
  ),
)

chat_event_stream-Fulfilled_example :
    Fulfilled
      (λ n. n)
      request
      (stayed arrivals)
      (accept_all (envelopes (chat_event_stream (λ n. n) request arrivals no_output)) new_validator)
chat_event_stream-Fulfilled_example =
    chat_event_stream-Fulfilled (λ n. n) request (λ i j e. e) arrivals no_output arrivals-Consistent
