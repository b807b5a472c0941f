-- ===== src/Frontend/Sse/Chunks.antt =====
-- The cuts of the transport do not show: a text that is fed in two chunks is read as one.
use enterprise_ai_knowledge.Common.{
  Text, ◌≡◌, ◌∷◌, ℕ, refl, arith, [], List, ◌++◌, ◌==◌, nat_eq, Bool-cases, inl, inr, ap, ◌∙◌,
  Option, ltb, ◌+◌, some, none,
}
use enterprise_ai_knowledge.Frontend.Sse.{
  ok, err, Parsed, ◌>>=◌, attach, Parser, split_lines, read_lines, read_line, read_field, set_field,
  end_frame, RawEvent, byte_size, with_event, check_rest, strip_return, feed,
}

abbrev join_split : List Text × Text → List Text × Text → List Text × Text
join_split first second = (first.0 ++ second.0, second.1)

-- Putting a code point in front commutes with the rest of the splitting.
attach-join :
    (c : ℕ) (s : List Text × Text) (y : Text)
    → attach c (join_split s (split_lines (s.1 ++ y)))
      ≡ join_split (attach c s) (split_lines ((attach c s).1 ++ y))
unfolding split_lines
attach-join c ([], r) y = elim (Bool-cases (c == b'\n')) [
  | inl e ↦ rw e refl
  | inr e ↦ rw (e, e) refl
]
attach-join c (l ∷ ls, r) y = elim (Bool-cases (c == b'\n')) [
  | inl e ↦ rw e refl
  | inr e ↦ rw e refl
]

-- Splitting a text goes on where splitting its first part left off.
split_lines-append :
    (x y : Text)
    → split_lines (x ++ y) ≡ join_split (split_lines x) (split_lines ((split_lines x).1 ++ y))
unfolding split_lines
split_lines-append [] y = refl
split_lines-append (c ∷ x) y =
    ap (attach c) (split_lines-append x y) ∙ attach-join c (split_lines x) y

text_assoc : (x y z : Text) → x ++ (y ++ z) ≡ (x ++ y) ++ z
text_assoc [] y z = refl
text_assoc (c ∷ x) y z = ap (λ t. c ∷ t) (text_assoc x y z)

abbrev with_buffer : Text → Parser → Parser
with_buffer b p = record p { buffer = b }

abbrev keep_buffer : Text → Option RawEvent × Parser → Parsed (Option RawEvent × Parser)
keep_buffer b (item, q) = ok (item, with_buffer b q)

module _ (size : ℕ → ℕ) (maximum : ℕ) where
  set_field-buffer :
      (field value b : Text) (p : Parser)
      → set_field size maximum field value (with_buffer b p)
        ≡ (set_field size maximum field value p >>= λ q. ok (with_buffer b q))
  unfolding set_field
  set_field-buffer field value b p = ground arith

  read_line-buffer :
      (l b : Text) (p : Parser)
      → read_line size maximum l (with_buffer b p) ≡ (read_line size maximum l p >>= keep_buffer b)
  unfolding read_line read_field end_frame set_field
  read_line-buffer l b p = ground arith

  abbrev push : Option RawEvent → List RawEvent × Parser → Parsed (List RawEvent × Parser)
  push item (events, end) = ok (with_event size maximum item events, end)

  -- The rest of the loop behind one line.
  abbrev turn :
      (Parser → Parsed (List RawEvent × Parser))
      → Option RawEvent × Parser
      → Parsed (List RawEvent × Parser)
  turn f (item, q) = f q >>= push item

  abbrev keep_events : Text → List RawEvent × Parser → Parsed (List RawEvent × Parser)
  keep_events b (events, q) = ok (events, with_buffer b q)

  -- Earlier events in front of the ones that a later part gives.
  abbrev pub glue : List RawEvent → List RawEvent × Parser → Parsed (List RawEvent × Parser)
  glue events (more, end) = ok (events ++ more, end)

  abbrev and_then :
      (Parser → Parsed (List RawEvent × Parser))
      → List RawEvent × Parser
      → Parsed (List RawEvent × Parser)
  and_then k (events, r) = k r >>= glue events

  keep-push :
      (b : Text) (item : Option RawEvent) (read : Parsed (List RawEvent × Parser))
      → ((read >>= keep_events b) >>= push item) ≡ ((read >>= push item) >>= keep_events b)
  keep-push b item (err e) = refl
  keep-push b item (ok (events, end)) = refl

  keep-turn :
      (b : Text) (first : Parsed (Option RawEvent × Parser))
      (f : Parser → Parsed (List RawEvent × Parser))
      → ((q : Parser) → f (with_buffer b q) ≡ (f q >>= keep_events b))
      → ((first >>= keep_buffer b) >>= turn f) ≡ ((first >>= turn f) >>= keep_events b)
  keep-turn b (err e) f h = refl
  keep-turn b (ok (item, q)) f h = rw (h q) (keep-push b item (f q))

  -- The buffer is not read by the lines.
  read_lines-buffer :
      (ls : List Text) (b : Text) (p : Parser)
      → read_lines size maximum ls (with_buffer b p)
        ≡ (read_lines size maximum ls p >>= keep_events b)
  unfolding read_lines
  read_lines-buffer [] b p = refl
  read_lines-buffer (l ∷ ls) b p =
      ap (λ first. first >>= turn (read_lines size maximum ls))
        (read_line-buffer (strip_return l) b p)
      ∙ keep-turn b (read_line size maximum (strip_return l) p) (read_lines size maximum ls)
          (read_lines-buffer ls b)

  glue-push :
      (item : Option RawEvent) (events : List RawEvent) (read : Parsed (List RawEvent × Parser))
      → ((read >>= glue events) >>= push item)
        ≡ (read >>= glue (with_event size maximum item events))
  glue-push item events (err e) = refl
  glue-push none events (ok (more, end)) = refl
  glue-push (some e) events (ok (more, end)) = refl

  and_then-push :
      (item : Option RawEvent) (read : Parsed (List RawEvent × Parser))
      (k : Parser → Parsed (List RawEvent × Parser))
      → ((read >>= and_then k) >>= push item) ≡ ((read >>= push item) >>= and_then k)
  and_then-push item (err e) k = refl
  and_then-push item (ok (events, s)) k = glue-push item events (k s)

  and_then-turn :
      (first : Parsed (Option RawEvent × Parser)) (f g k : Parser → Parsed (List RawEvent × Parser))
      → ((q : Parser) → g q ≡ (f q >>= and_then k))
      → (first >>= turn g) ≡ ((first >>= turn f) >>= and_then k)
  and_then-turn (err e) f g k h = refl
  and_then-turn (ok (item, q)) f g k h = rw (h q) (and_then-push item (f q) k)

  glue-nil : (read : Parsed (List RawEvent × Parser)) → read ≡ (read >>= glue [])
  glue-nil (err e) = refl
  glue-nil (ok (events, end)) = refl

  read_lines-append :
      (ls ms : List Text) (p : Parser)
      → read_lines size maximum (ls ++ ms) p
        ≡ (read_lines size maximum ls p >>= and_then (read_lines size maximum ms))
  unfolding read_lines
  read_lines-append [] ms p = glue-nil (read_lines size maximum ms p)
  read_lines-append (l ∷ ls) ms p =
      and_then-turn (read_line size maximum (strip_return l) p) (read_lines size maximum ls)
        (read_lines size maximum (ls ++ ms)) (read_lines size maximum ms)
        (λ q. read_lines-append ls ms q)

  -- The check of the rest, on both ways.
  rest-glue :
      (r rest : Text) (events : List RawEvent) (read : Parsed (List RawEvent × Parser))
      → ((read >>= glue events) >>= check_rest size maximum rest)
        ≡ (((read >>= keep_events r) >>= check_rest size maximum rest) >>= glue events)
  unfolding check_rest
  rest-glue r rest events (err e) = refl
  rest-glue r rest events (ok (more, s)) =
      elim (Bool-cases (ltb maximum (s.frame_size + byte_size size maximum rest))) [
        | inl large ↦ rw large refl
        | inr small ↦ rw small refl
      ]

  -- The second chunk, behind what the first one left: by cases on the first one's lines.
  second_chunk :
      (ms : List Text) (r rest : Text) (q : Parser) (events : List RawEvent)
      (first : Parsed (List RawEvent × Parser))
      → (first >>= check_rest size maximum r) ≡ ok (events, q)
      → ((first >>= and_then (read_lines size maximum ms)) >>= check_rest size maximum rest)
        ≡ ((read_lines size maximum ms q >>= check_rest size maximum rest) >>= glue events)
  unfolding check_rest
  second_chunk ms r rest q events (err e) h = absurd (ground arith)
  second_chunk ms r rest q events (ok (found, s)) h =
      elim (Bool-cases (ltb maximum (s.frame_size + byte_size size maximum r))) [
        | inl large ↦ absurd (ground arith)
        | inr small ↦
            let accepted : (events ≡ found) × (q ≡ with_buffer r s) =
              (ground arith, ground arith) in
            rw (accepted.0, accepted.1, read_lines-buffer ms r s)
              (rest-glue r rest found (read_lines size maximum ms s))
      ]

  -- What is behind the last line is the buffer of the next call.
  rest_kept :
      (r : Text) (q : Parser) (events : List RawEvent) (first : Parsed (List RawEvent × Parser))
      → (first >>= check_rest size maximum r) ≡ ok (events, q)
      → q.buffer ≡ r
  unfolding check_rest
  rest_kept r q events (err e) h = absurd (ground arith)
  rest_kept r q events (ok (found, s)) h =
      elim (Bool-cases (ltb maximum (s.frame_size + byte_size size maximum r))) [
        | inl large ↦ absurd (ground arith)
        | inr small ↦ ground arith
      ]

  -- Where the first of two chunks is accepted, feeding them joined gives what feeding the second
  -- one then gives, an error included, with the first one's events in front.
  pub feed-append :
      (a b : Text) (p q : Parser) (events : List RawEvent)
      → feed size maximum a p ≡ ok (events, q)
      → feed size maximum (a ++ b) p ≡ (feed size maximum b q >>= glue events)
  unfolding feed
  feed-append a b p q events h =
      let first = split_lines (p.buffer ++ a) in
      let second = split_lines (first.1 ++ b) in
      let lines = ap split_lines (text_assoc p.buffer a b) ∙ split_lines-append (p.buffer ++ a) b in
      ap (λ s. read_lines size maximum s.0 p >>= check_rest size maximum s.1) lines
      ∙ ap (λ read. read >>= check_rest size maximum second.1)
          (read_lines-append first.0 second.0 p)
      ∙ second_chunk second.0 first.1 second.1 q events (read_lines size maximum first.0 p) h
      ∙ rw (rest_kept first.1 q events (read_lines size maximum first.0 p) h) refl
