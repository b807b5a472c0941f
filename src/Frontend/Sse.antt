-- ===== src/Frontend/Sse.antt =====
-- frontend/enterprise_ai_frontend/sse.py: `SSEParser`. A text is the list of its code points. The
-- incremental UTF-8 decoder of the standard library stands before the model: `feed` takes what it
-- decoded of a chunk, and `size` is the number of bytes of a code point, `len(c.encode("utf-8"))`.
pub mod Bounded
pub mod Chunks
use Prim.Native.Char.{code}
use Prim.Native.String
use Prim.Native.String.{String}
use enterprise_ai_knowledge.Frontend.Contract.{Envelope}
use enterprise_ai_knowledge.Common.{
  codes, Text, list_eq, nat_eq, ◌∷◌, ℕ, some, none, ltb, is_empty, false, if◌then◌else◌, contains,
  [], Option, List, Bool, ◌==◌, ◌++◌, ◌+◌, ◌&&◌,
}

pub data SseError : Type 0 where
  too_large malformed incomplete : SseError

pub data Parsed {ℓ} (A : Type ℓ) : Type ℓ where
  ok : A → Parsed A
  err : SseError → Parsed A

infixl 5 ◌>>=◌
abbrev pub ◌>>=◌ {ℓ κ} : {A : Type ℓ} {B : Type κ} → Parsed A → (A → Parsed B) → Parsed B
ok a >>= f = f a
err e >>= f = err e

pub record RawEvent : Type 0 where
  pub event : Text
  pub event_id : Text
  pub payload : Text

pub record Parser : Type 0 where
  pub buffer : Text
  pub event : Text
  pub event_id : Text
  pub lines : List Text
  pub frame_size : ℕ

-- `"\n".join(self._data)`
unfoldable pub join_lines : List Text → Text
join_lines [] = []
join_lines (x ∷ []) = x
join_lines (x ∷ y ∷ rest) = x ++ (b'\n' ∷ join_lines (y ∷ rest))

-- `line.partition(":")`: the field, and the value behind the separator, if there is one.
unfoldable pub partition : Text → Text × Option Text
partition [] = ([], none)
partition (c ∷ cs) =
    let (field, value) = partition cs in if c == b':' then ([], some cs) else (c ∷ field, value)

-- `line.startswith(":")`
abbrev starts_with_colon : Text → Bool
starts_with_colon [] = false
starts_with_colon (c ∷ cs) = c == b':'

-- One leading space of a value is dropped.
abbrev value_of : Option Text → Text
value_of none = []
value_of (some []) = []
value_of (some (c ∷ cs)) = if c == b' ' then cs else c ∷ cs

-- `line[:-1]` where the line ends in "\r".
unfoldable pub strip_return : Text → Text
strip_return [] = []
strip_return (c ∷ []) = if c == b'\r' then [] else c ∷ []
strip_return (c ∷ d ∷ rest) = c ∷ strip_return (d ∷ rest)

-- A code point in front of what was split.
abbrev pub attach : ℕ → List Text × Text → List Text × Text
attach c (ls, rest) =
    if c == b'\n'
    then ([] ∷ ls, rest)
    else elim ls [ [] ↦ ([], c ∷ rest) | ◌∷◌ l more ↦ ((c ∷ l) ∷ more, rest) ]

-- The loop of `feed` over the buffer: the complete lines, and what is behind the last "\n".
unfoldable pub split_lines : Text → List Text × Text
split_lines [] = ([], [])
split_lines (c ∷ cs) = attach c (split_lines cs)

module _ (size : ℕ → ℕ) (maximum : ℕ) where
  -- `len(text.encode("utf-8"))`
  unfoldable pub byte_size : Text → ℕ
  byte_size [] = 0
  byte_size (c ∷ cs) = size c + byte_size cs

  -- Lines 67 to 80: the empty line ends a frame.
  unfoldable pub end_frame : Parser → Option RawEvent × Parser
  end_frame p =
      if is_empty p.event && is_empty p.event_id && is_empty p.lines
      then (none, record p { frame_size = 0 })
      else (
        some (record {
          event = if is_empty p.event then codes "message" else p.event;
          event_id = p.event_id;
          payload = join_lines p.lines;
        }),
        record { buffer = p.buffer; event = []; event_id = []; lines = []; frame_size = 0 },
      )

  -- Lines 83 to 94: a field and its value.
  unfoldable pub set_field : Text → Text → Parser → Parsed Parser
  set_field field value p =
      if field == codes "event"
      then ok (record p { event = value })
      else if field == codes "id"
      then (if contains value 0 then err malformed else ok (record p { event_id = value }))
      else if field == codes "data"
      then ok (record p { lines = p.lines ++ value ∷ [] })
      else ok p

  -- A line that is not empty: a comment, or a field.
  unfoldable pub read_field : Text → Parser → Parsed Parser
  read_field line p =
      let (field, value) = partition line in
      if starts_with_colon line then ok p else set_field field (value_of value) p

  -- `_line`
  unfoldable pub read_line : Text → Parser → Parsed (Option RawEvent × Parser)
  read_line line p =
      let counted = record p { frame_size = p.frame_size + byte_size line + 1 } in
      if ltb maximum counted.frame_size
      then err too_large
      else if is_empty line
      then ok (end_frame counted)
      else (read_field line counted >>= λ q. ok (none, q))

  abbrev pub with_event : Option RawEvent → List RawEvent → List RawEvent
  with_event none events = events
  with_event (some e) events = e ∷ events

  -- The body of the loop, for each line in turn.
  unfoldable pub read_lines : List Text → Parser → Parsed (List RawEvent × Parser)
  read_lines [] p = ok ([], p)
  read_lines (l ∷ ls) p = read_line (strip_return l) p >>= λ (item, q).
      read_lines ls q >>= λ (events, end). ok (with_event item events, end)

  -- Line 51: what is left of the buffer counts too.
  unfoldable pub check_rest : Text → List RawEvent × Parser → Parsed (List RawEvent × Parser)
  check_rest rest (events, p) =
      if ltb maximum (p.frame_size + byte_size rest)
      then err too_large
      else ok (events, record p { buffer = rest })

  -- `feed`, on the text that the decoder gave for a chunk
  unfoldable pub feed : Text → Parser → Parsed (List RawEvent × Parser)
  feed chunk p =
      let (lines, rest) = split_lines (p.buffer ++ chunk) in read_lines lines p >>= check_rest rest

-- `finish`, when the decoder holds no incomplete character.
unfoldable pub finish : Parser → Parsed (Unit {0})
finish p =
    if is_empty p.buffer && is_empty p.event && is_empty p.event_id && is_empty p.lines
    then ok tt
    else err incomplete

abbrev pub new_parser : Parser
new_parser = record { buffer = []; event = []; event_id = []; lines = []; frame_size = 0 }

-- `decode_envelope`: `validate` is the JSON library's and the model's reading of a payload, none for
-- the exceptions that they raise, and `spell` the text of an identifier.
unfoldable pub decode_envelope : (Text → Option Envelope) → (ℕ → Text) → RawEvent → Parsed Envelope
decode_envelope validate spell event = elim (validate event.payload) [
  | none ↦ err malformed
  | some envelope ↦
      if (event.event == codes envelope.event_type) && (event.event_id == spell envelope.event_id)
      then ok envelope
      else err malformed
]
