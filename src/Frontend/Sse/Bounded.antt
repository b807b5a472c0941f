-- ===== src/Frontend/Sse/Bounded.antt =====
-- The bound on an event: what `feed` accepts stays below the configured size.
use mathlib.Core.Option
use enterprise_ai_knowledge.Common.{
  true, is_empty, ◌&&◌, subst, some, none, Option, Text, ap, nat_eq, ltb, inr, inl, Bool-cases,
  ◌==◌, ◌++◌, ◌∷◌, refl, arith, ◌≤◌, ◌≡◌, ℕ, [], List, ◌+◌,
}
use enterprise_ai_knowledge.Frontend.Sse.{
  strip_return, end_frame, read_line, starts_with_colon, set_field, partition, value_of, read_field,
  err, ◌>>=◌, Parsed, read_lines, attach, split_lines, byte_size, ok, RawEvent, Parser, check_rest,
  feed,
}

attach-rest :
    (c : ℕ) (s : List Text × Text)
    → split_lines s.1 ≡ ([], s.1)
    → split_lines (attach c s).1 ≡ ([], (attach c s).1)
unfolding split_lines
attach-rest c ([], r) h = elim (Bool-cases (c == b'\n')) [
  | inl e ↦ rw e h
  | inr e ↦ rw (e, h, e) (ap (λ s. ([], c ∷ s.1)) h)
]
attach-rest c (l ∷ ls, r) h = elim (Bool-cases (c == b'\n')) [ inl e ↦ rw e h | inr e ↦ rw e h ]

-- What is behind the last "\n" has no line.
split_lines-rest : (x : Text) → split_lines (split_lines x).1 ≡ ([], (split_lines x).1)
unfolding split_lines
split_lines-rest [] = refl
split_lines-rest (c ∷ cs) = attach-rest c (split_lines cs) (split_lines-rest cs)

finish_bounded :
    (size : ℕ → ℕ) (maximum : ℕ) (rest : Text) (read : Parsed (List RawEvent × Parser)) (q : Parser)
    (events : List RawEvent)
    → split_lines rest ≡ ([], rest)
    → (read >>= check_rest size maximum rest) ≡ ok (events, q)
    → (q.frame_size + byte_size size maximum q.buffer ≤ maximum)
      × (split_lines q.buffer ≡ ([], q.buffer))
unfolding check_rest
finish_bounded size maximum rest (err e) q events r h = ground arith
finish_bounded size maximum rest (ok (found, p)) q events r h =
    elim (Bool-cases (ltb maximum (p.frame_size + byte_size size maximum rest))) [
      | inl e ↦ ground arith
      | inr e ↦ ground arith
    ]

bind_ok :
    {A B : Type 0} (x : Parsed A) (f : A → Parsed B) (b : B)
    → (x >>= f) ≡ ok b
    → (a : A) × (x ≡ ok a) × (f a ≡ ok b)
bind_ok (ok a) f b h = (a, refl, h)
bind_ok (err e) f b h = absurd (ground arith)

module _ (size : ℕ → ℕ) (maximum : ℕ) where
  abbrev bytes : Text → ℕ
  bytes text = byte_size size maximum text

  -- The bytes of the texts that a parser holds of an unfinished event.
  abbrev pub line_bytes : List Text → ℕ
  line_bytes [] = 0
  line_bytes (l ∷ ls) = byte_size size maximum l + line_bytes ls

  abbrev pub held_bytes : Parser → ℕ
  held_bytes p =
      byte_size size maximum p.event + (byte_size size maximum p.event_id + line_bytes p.lines)

  line_bytes-snoc :
      (ls : List Text) (l : Text) → line_bytes (ls ++ l ∷ []) ≡ line_bytes ls + bytes l
  line_bytes-snoc [] l = omega arith
  line_bytes-snoc (x ∷ ls) l = omega (arith, line_bytes-snoc ls l)

  value_of-le : (o : Option Text) → bytes (value_of o) ≤ bytes (Option.get_or o [])
  unfolding byte_size
  value_of-le none = omega arith
  value_of-le (some []) = omega arith
  value_of-le (some (c ∷ cs)) = ground arith

  partition-le : (line : Text) → bytes (Option.get_or (partition line).1 []) ≤ bytes line
  unfolding partition byte_size
  partition-le [] = omega arith
  partition-le (c ∷ cs) = elim (Bool-cases (c == b':')) [
    | inl e ↦ rw (e, partition) (omega arith)
    | inr e ↦ rw (e, partition) (omega (arith, partition-le cs))
  ]

  set_field-le :
      (field value : Text) (p q : Parser)
      → set_field size maximum field value p ≡ ok q
      → (held_bytes q ≤ held_bytes p + bytes value) × (q.frame_size ≡ p.frame_size)
  unfolding set_field
  set_field-le field value p q h = ground (arith, line_bytes-snoc p.lines value)

  -- What is held is within what is counted.
  abbrev pub Counted : Parser → Type 0
  Counted p = held_bytes p ≤ p.frame_size

  read_field-Counted :
      (line : Text) (p q : Parser)
      → held_bytes p + bytes line ≤ p.frame_size
      → read_field size maximum line p ≡ ok q
      → Counted q
  unfolding read_field
  read_field-Counted line p q h read =
      let value = (partition line).1 in
      let short : bytes (value_of value) ≤ bytes line =
        omega (arith, value_of-le value, partition-le line) in
      elim (Bool-cases (starts_with_colon line)) [
        | inl e ↦ let same : p ≡ q = ground arith in subst Counted same (omega (arith, h))
        | inr e ↦
            let set : set_field size maximum (partition line).0 (value_of value) p ≡ ok q =
              ground arith in
            let (more, counted) = set_field-le (partition line).0 (value_of value) p q set in
            omega (arith, more, counted, short, h)
      ]

  empty_bytes : (t : Text) → is_empty t ≡ true → bytes t ≡ 0
  unfolding byte_size
  empty_bytes [] h = refl
  empty_bytes (c ∷ t) h = absurd (ground arith)

  empty_lines : (ls : List Text) → is_empty ls ≡ true → line_bytes ls ≡ 0
  empty_lines [] h = refl
  empty_lines (l ∷ ls) h = absurd (ground arith)

  end_frame-Counted : (p : Parser) → Counted p → Counted (end_frame size maximum p).1
  unfolding end_frame byte_size
  end_frame-Counted p h =
      elim (Bool-cases (is_empty p.event && is_empty p.event_id && is_empty p.lines)) [
        | inr e ↦ rw (e, end_frame) (omega arith)
        | inl e ↦
            let a : bytes p.event ≡ 0 = empty_bytes p.event (ground arith) in
            let b : bytes p.event_id ≡ 0 = empty_bytes p.event_id (ground arith) in
            let c : line_bytes p.lines ≡ 0 = empty_lines p.lines (ground arith) in
            rw (e, end_frame) (omega (arith, a, b, c))
      ]

  read_line-Counted :
      (line : Text) (p q : Parser) (item : Option RawEvent)
      → Counted p
      → read_line size maximum line p ≡ ok (item, q)
      → Counted q
  unfolding read_line
  read_line-Counted line p q item h read =
      let counted = record p { frame_size = p.frame_size + bytes line + 1 } in
      elim (Bool-cases (ltb maximum counted.frame_size)) [
        | inl e ↦ absurd (ground arith)
        | inr small ↦ elim (Bool-cases (is_empty line)) [
          | inl e ↦
              let same : (end_frame size maximum counted).1 ≡ q = ground arith in
              subst Counted same (end_frame-Counted counted (omega (arith, h)))
          | inr e ↦
              let bound : (read_field size maximum line counted >>= λ r. ok (none, r))
                  ≡ ok (item, q) =
                rw (small, e, read_line) at read in
              let (r, found, same) = bind_ok (read_field size maximum line counted) _ _ bound in
              let here : r ≡ q = ground arith in
              subst Counted here (read_field-Counted line counted r (omega (arith, h)) found)
        ]
      ]

  read_lines-Counted :
      (lines : List Text) (p q : Parser) (events : List RawEvent)
      → Counted p
      → read_lines size maximum lines p ≡ ok (events, q)
      → Counted q
  unfolding read_lines
  read_lines-Counted [] p q events h read = let same : p ≡ q = ground arith in subst Counted same h
  read_lines-Counted (l ∷ ls) p q events h read =
      let ((item, r), first, later) =
        bind_ok (read_line size maximum (strip_return l) p) _ _ read in
      let ((found, end), next, same) = bind_ok (read_lines size maximum ls r) _ _ later in
      let here : end ≡ q = ground arith in
      let counted : Counted r = read_line-Counted (strip_return l) p r item h first in
      subst Counted here (read_lines-Counted ls r end found counted next)

  check_rest-Counted :
      (rest : Text) (p q : Parser) (found events : List RawEvent)
      → Counted p
      → check_rest size maximum rest (found, p) ≡ ok (events, q)
      → Counted q
  unfolding check_rest
  check_rest-Counted rest p q found events h checked =
      elim (Bool-cases (ltb maximum (p.frame_size + bytes rest))) [
        | inl e ↦ absurd (ground arith)
        | inr e ↦ let same : record p { buffer = rest } ≡ q = ground arith in subst Counted same h
      ]

  -- Where a parser counts at least the bytes that it holds of its unfinished event, so it does behind
  -- a chunk that is accepted; those bytes and the open line's are then within the maximum, and no
  -- complete line is left in the buffer.
  pub feed-bounded :
      (chunk : Text) (p q : Parser) (events : List RawEvent)
      → Counted p
      → feed size maximum chunk p ≡ ok (events, q)
      → Counted q
        × (held_bytes q + byte_size size maximum q.buffer ≤ maximum)
        × (split_lines q.buffer ≡ ([], q.buffer))
  unfolding feed check_rest
  feed-bounded chunk p q events counted h =
      let lines = (split_lines (p.buffer ++ chunk)).0 in
      let rest = (split_lines (p.buffer ++ chunk)).1 in
      let (bound, complete) =
        finish_bounded size maximum rest (read_lines size maximum lines p) q events
          (split_lines-rest (p.buffer ++ chunk)) h in
      let ((found, r), done, same) = bind_ok (read_lines size maximum lines p) _ _ h in
      let kept : Counted r = read_lines-Counted lines p r found counted done in
      let here : Counted q = check_rest-Counted rest r q found events kept same in
      (here, omega (arith, here, bound), complete)
