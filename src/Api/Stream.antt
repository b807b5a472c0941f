-- ===== src/Api/Stream.antt =====
-- backend/src/enterprise_ai/api/sse.py: `chat_event_stream`. What the loop waits for comes as a list
-- of arrivals: an item of the graph, or a wait that ran into the ping timeout, with what
-- `is_disconnected` then says; behind them the iterator stops or raises. `fresh n` is the identifier
-- that the n-th call of `uuid4` gives. The logging is left out.
pub mod Consistent
mod Envelopes
pub mod Accepted
use enterprise_ai_knowledge.Common.{
  string_eq, ◌∷◌, ℕ, ◌||◌, true, some, none, false, [], String, Option, List, Bool, ◌==◌, ◌+◌,
}
use enterprise_ai_knowledge.Frontend.Contract.{
  PublicError, GraphOutput, AgentEvent, Envelope, Correlation,
}

pub record StreamItem : Type 0 where
  pub event : Option AgentEvent
  pub output : Option GraphOutput

pub data Arrival : Type 0 where
  ready : StreamItem → Arrival
  timeout : Bool → Arrival

pub data Frame : Type 0 where
  keepalive : Frame
  message : Envelope → Frame

-- `TERMINAL_EVENTS`
abbrev pub is_final : String → Bool
is_final event_type = (event_type == "response.completed") || (event_type == "response.failed")

-- The event's type behind the last item: of the terminal event that was held back, if there was one.
abbrev pub final_type : Option AgentEvent → String
final_type none = "response.completed"
final_type (some a) = a.event_type

module _ (fresh : ℕ → ℕ) (input : Correlation) where
  -- `message`, at the sequence number n
  unfoldable pub envelope :
      ℕ → String → Option AgentEvent → Option GraphOutput → Option PublicError → Envelope
  envelope n event_type agent_event response error = record {
    event_id = fresh n;
    sequence = n;
    request_id = input.request_id;
    trace_id = input.trace_id;
    session_id = input.session_id;
    event_type = event_type;
    agent_event = agent_event;
    response = response;
    error = error;
  }

  -- The loop, with the next sequence number and the terminal event that was seen.
  unfoldable pub stream : ℕ → Option AgentEvent → List Arrival → PublicError → List Frame
  stream n terminal [] ending = message (envelope n "stream.error" none none (some ending)) ∷ []
  stream n terminal (timeout true ∷ rest) ending = []
  stream n terminal (timeout false ∷ rest) ending = keepalive ∷ stream n terminal rest ending
  stream n terminal (ready item ∷ rest) ending = elim item.event [
    | some a ↦ elim (is_final a.event_type) [
      | true ↦ stream n (some a) rest ending
      | false ↦
          message (envelope n a.event_type (some a) none none) ∷ stream (n + 1) terminal rest ending
    ]
    | none ↦ elim item.output [
      | some r ↦ message (envelope n (final_type terminal) terminal (some r) none) ∷ []
      | none ↦ stream n terminal rest ending
    ]
  ]

  -- `chat_event_stream`
  unfoldable pub chat_event_stream : List Arrival → PublicError → List Frame
  chat_event_stream arrivals ending =
      message (envelope 0 "stream.started" none none none) ∷ stream 1 none arrivals ending

-- What a client makes of the frames: comments are skipped.
unfoldable pub envelopes : List Frame → List Envelope
envelopes [] = []
envelopes (keepalive ∷ rest) = envelopes rest
envelopes (message e ∷ rest) = e ∷ envelopes rest
