-- ===== src/Frontend/Tests.antt =====
-- A chunk that ends in an open line, the bound on what it leaves, and the decoding of a frame.
use enterprise_ai_knowledge.Common.{
  some, none, arith, codes, Text, ◌≤◌, ◌≡◌, ◌∷◌, refl, [], ◌++◌, ◌+◌,
}
use enterprise_ai_knowledge.Frontend.Sse.{
  SseError, err, decode_envelope, RawEvent, ◌>>=◌, ok, check_rest, set_field, partition, read_field,
  strip_return, read_line, new_parser, read_lines, split_lines, Parser, feed, byte_size,
}
use enterprise_ai_knowledge.Frontend.Sse.Bounded.{feed-bounded, Counted, held_bytes}
use enterprise_ai_knowledge.Frontend.Sse.Chunks.{feed-append, glue}
use enterprise_ai_knowledge.Frontend.Contract.{Envelope}

abbrev chunk : Text
chunk = codes "event: a" ++ (b'\n' ∷ codes "data: b")

-- One line is read, the other one waits for its end.
abbrev waiting : Parser
waiting = record {
  buffer = codes "data: b";
  event = codes "a";
  event_id = [];
  lines = [];
  frame_size = 9;
}

feed_open : feed (λ c. 1) 1024 chunk new_parser ≡ ok ([], waiting)
unfolding feed split_lines read_lines read_line strip_return read_field partition set_field
    check_rest byte_size
feed_open = refl

new_parser-Counted : Counted (λ c. 1) 1024 new_parser
unfolding byte_size
new_parser-Counted = omega arith

feed-bounded_example :
    Counted (λ c. 1) 1024 waiting
    × (held_bytes (λ c. 1) 1024 waiting + byte_size (λ c. 1) 1024 waiting.buffer ≤ 1024)
    × (split_lines waiting.buffer ≡ ([], waiting.buffer))
feed-bounded_example =
    feed-bounded (λ c. 1) 1024 chunk new_parser waiting [] new_parser-Counted feed_open

-- The line's end comes in a chunk of its own.
feed-append_example :
    feed (λ c. 1) 1024 (chunk ++ (b'\n' ∷ [])) new_parser
    ≡ (feed (λ c. 1) 1024 (b'\n' ∷ []) waiting >>= glue (λ c. 1) 1024 [])
feed-append_example = feed-append (λ c. 1) 1024 chunk (b'\n' ∷ []) new_parser waiting [] feed_open

abbrev envelope : Envelope
envelope = record {
  event_id = 1;
  sequence = 0;
  request_id = 1;
  trace_id = 2;
  session_id = 3;
  event_type = "a";
  agent_event = none;
  response = none;
  error = none;
}

abbrev named : Text → RawEvent
named name = record { event = name; event_id = codes "1"; payload = [] }

-- The name of the frame has to be the type of the envelope.
decode_envelope-named :
    (decode_envelope (λ t. some envelope) (λ n. codes "1") (named (codes "a")) ≡ ok envelope)
    × (decode_envelope (λ t. some envelope) (λ n. codes "1") (named (codes "b"))
        ≡ err SseError.malformed)
unfolding decode_envelope
decode_envelope-named = (refl, refl)
