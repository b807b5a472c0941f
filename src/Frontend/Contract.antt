-- ===== src/Frontend/Contract.antt =====
-- The envelopes of the chat stream (`ChatStreamEnvelope` of backend/src/enterprise_ai/api/schemas.py)
-- and `StreamContractValidator` of frontend/enterprise_ai_frontend/sse.py. Identifiers are numbers,
-- a raised `SSEProtocolError` is an `err` that says which test refused the envelope; the validator is
-- not used behind one, so its state is not kept.
use enterprise_ai_knowledge.Common.{
  string_eq, nat_eq, ◌∷◌, ℕ, ◌||◌, true, some, not, none, if◌then◌else◌, contains, [], String,
  Option, List, Bool, ◌==◌, ◌+◌, ◌&&◌,
}
use enterprise_ai_knowledge.Vocabulary.{route_eq, status_eq, Route, ProcessingStatus}

-- What the stream reads of an `AgentEvent`.
pub record AgentEvent : Type 0 where
  pub sequence_number : ℕ
  pub event_type : String
  pub request_id : ℕ
  pub trace_id : ℕ
  pub session_id : ℕ

-- What the stream reads of a `GraphOutput`.
pub record GraphOutput : Type 0 where
  pub completion_status : ProcessingStatus
  pub selected_route : Route
  pub request_id : ℕ
  pub trace_id : ℕ
  pub session_id : ℕ

-- `PublicAPIError`, by what it is for: no final output, or an exception of a kind.
pub data PublicError : Type 0 where
  no_output : PublicError
  raised : ℕ → PublicError

pub record Envelope : Type 0 where
  pub event_id : ℕ
  pub sequence : ℕ
  pub request_id : ℕ
  pub trace_id : ℕ
  pub session_id : ℕ
  pub event_type : String
  pub agent_event : Option AgentEvent
  pub response : Option GraphOutput
  pub error : Option PublicError

pub data ProtocolError : Type 0 where
  continued out_of_sequence other_request foreign_event foreign_response : ProtocolError
  no_response inconsistent_failure no_error unfinished : ProtocolError

pub data Checked {ℓ} (A : Type ℓ) : Type ℓ where
  ok : A → Checked A
  err : ProtocolError → Checked A

pub record Correlation : Type 0 where
  pub request_id : ℕ
  pub trace_id : ℕ
  pub session_id : ℕ

pub record Validator : Type 0 where
  pub expected_sequence : ℕ
  pub event_ids : List ℕ
  pub correlation : Option Correlation
  pub terminal_event : Option String

abbrev pub new_validator : Validator
new_validator = record {
  expected_sequence = 0;
  event_ids = [];
  correlation = none;
  terminal_event = none;
}

-- `TERMINAL_EVENTS`
unfoldable pub is_terminal : String → Bool
is_terminal event_type =
    (event_type == "response.completed")
    || (event_type == "response.failed")
    || (event_type == "stream.error")

abbrev pub correlation_of : Envelope → Correlation
correlation_of e = record {
  request_id = e.request_id;
  trace_id = e.trace_id;
  session_id = e.session_id;
}

abbrev pub same_correlation : Correlation → Correlation → Bool
same_correlation a b =
    (a.request_id == b.request_id) && (a.trace_id == b.trace_id) && (a.session_id == b.session_id)

-- The first envelope fixes the three identifiers.
abbrev pub correlated : Option Correlation → Envelope → Bool
correlated none e = true
correlated (some c) e = same_correlation (correlation_of e) c

abbrev pub event_agrees : Envelope → Option AgentEvent → Bool
event_agrees e none = true
event_agrees e (some a) =
    (a.event_type == e.event_type)
    && (a.request_id == e.request_id)
    && (a.trace_id == e.trace_id)
    && (a.session_id == e.session_id)

abbrev pub response_agrees : Envelope → Option GraphOutput → Bool
response_agrees e none = true
response_agrees e (some r) =
    (r.request_id == e.request_id) && (r.trace_id == e.trace_id) && (r.session_id == e.session_id)

-- The tests of a terminal event (lines 145 to 159).
abbrev pub terminal_fault : String → Option GraphOutput → Option PublicError → Option ProtocolError
terminal_fault event_type none failure =
    if (event_type == "response.completed") || (event_type == "response.failed")
    then some no_response
    else elim failure [
      | none ↦ if event_type == "stream.error" then some no_error else none
      | some f ↦ none
    ]
terminal_fault event_type (some r) failure =
    if (event_type == "response.failed")
      && not
          ((r.completion_status == ProcessingStatus.failed) && (r.selected_route == Route.failure))
    then some inconsistent_failure
    else elim failure [
      | none ↦ if event_type == "stream.error" then some no_error else none
      | some f ↦ none
    ]

abbrev pub finish_accept : Validator → Option ProtocolError → Checked Validator
finish_accept v none = ok v
finish_accept v (some fault) = err fault

-- The tests behind the sequence and the event's identifier.
unfoldable pub accept_content : Envelope → Validator → Checked Validator
accept_content e v =
    if not (correlated v.correlation e)
    then err other_request
    else if not (event_agrees e e.agent_event)
    then err foreign_event
    else if not (response_agrees e e.response)
    then err foreign_response
    else if is_terminal e.event_type
    then finish_accept
        (record {
          expected_sequence = v.expected_sequence + 1;
          event_ids = e.event_id ∷ v.event_ids;
          correlation = some (elim v.correlation [ none ↦ correlation_of e | some c ↦ c ]);
          terminal_event = some e.event_type;
        })
        (terminal_fault e.event_type e.response e.error)
    else ok (record {
      expected_sequence = v.expected_sequence + 1;
      event_ids = e.event_id ∷ v.event_ids;
      correlation = some (elim v.correlation [ none ↦ correlation_of e | some c ↦ c ]);
      terminal_event = none;
    })

-- `accept`
unfoldable pub accept : Envelope → Validator → Checked Validator
accept e v = elim v.terminal_event [
  | some t ↦ err continued
  | none ↦
      if not (e.sequence == v.expected_sequence) || contains v.event_ids e.event_id
      then err out_of_sequence
      else accept_content e v
]

-- The calls of `accept`, for each envelope in turn.
unfoldable pub accept_all : List Envelope → Validator → Checked Validator
accept_all [] v = ok v
accept_all (e ∷ rest) v = elim (accept e v) [ ok w ↦ accept_all rest w | err fault ↦ err fault ]

-- `finish`
abbrev pub finish : Validator → Checked (Unit {0})
finish v = elim v.terminal_event [ none ↦ err unfinished | some t ↦ ok tt ]
