-- ===== src/Graph/Numbered.antt =====
-- The numbers of the activity events.
-- The events with these contents, numbered from n on.
use enterprise_ai_knowledge.Common.{
  ◌∙◌, nat_eq, ◌≤◌, ◌≡◌, ◌∷◌, ℕ, true, suc, some, refl, nat_beq_iff, nat_beq, length-drop, length,
  last_slice, inr, inl, arith, ap, [], List, Bool-cases, ◌==◌, ◌-◌, ◌++◌, ◌+◌,
}
use enterprise_ai_knowledge.Graph.Reducers.{
  same_event, Content, append, append_unique, emit, emit_all, EventJournal, ActivityEvent,
  append_events,
}

abbrev pub written : ℕ → ℕ → ℕ → ℕ → List Content → List ActivityEvent
written r t s n [] = []
written r t s n (x ∷ rest) =
    record { sequence_number = n; request_id = r; trace_id = t; session_id = s; content = x }
    ∷ written r t s (suc n) rest

pub nat_same : (n : ℕ) → nat_beq n n ≡ true
nat_same n = (nat_beq_iff n n).1 refl

pub shift : (a b : ℕ) → a + suc b ≡ suc a + b
shift a b = omega arith

pub append_nil {ℓ} : {A : Type ℓ} (xs : List A) → xs ++ [] ≡ xs
append_nil [] = refl
append_nil (x ∷ xs) = ap (λ ys. x ∷ ys) (append_nil xs)

pub append_after {ℓ} : {A : Type ℓ} (xs ys : List A) (x : A) → (xs ++ x ∷ []) ++ ys ≡ xs ++ x ∷ ys
append_after [] ys x = refl
append_after (z ∷ xs) ys x = ap (λ l. z ∷ l) (append_after xs ys x)

pub zero_add : (n : ℕ) → n ≡ 0 + n
zero_add n = omega arith

pub add_one : (n : ℕ) → n + 1 ≡ suc n
add_one n = omega arith

-- The journal behind one event.
abbrev after : EventJournal → Content → EventJournal
after j x = record j {
  next_sequence = suc j.next_sequence;
  emitted =
      j.emitted
      ++ record {
        sequence_number = j.next_sequence;
        request_id = j.request_id;
        trace_id = j.trace_id;
        session_id = j.session_id;
        content = x;
      }
        ∷ [];
}

emit-after :
    (j : EventJournal) (x : Content)
    → emit j.request_id j.trace_id j.session_id x j ≡ some (after j x)
unfolding emit append
emit-after j x =
    rw
      (
        nat_same j.request_id,
        nat_same j.trace_id,
        nat_same j.session_id,
        nat_same j.next_sequence,
        add_one j.next_sequence,
      )
      refl

-- The journal behind the events with these contents.
abbrev pub ended : EventJournal → List Content → EventJournal
ended j contents = record j {
  next_sequence = length contents + j.next_sequence;
  emitted = j.emitted ++ written j.request_id j.trace_id j.session_id j.next_sequence contents;
}

same_end :
    (j : EventJournal) (x : Content) (rest : List Content)
    → some (ended (after j x) rest) ≡ some (ended j (x ∷ rest))
same_end j x rest =
    rw
      (
        shift (length rest) j.next_sequence,
        append_after j.emitted
            (written j.request_id j.trace_id j.session_id (suc j.next_sequence) rest)
            (record {
              sequence_number = j.next_sequence;
              request_id = j.request_id;
              trace_id = j.trace_id;
              session_id = j.session_id;
              content = x;
            }),
      )
      refl

-- A node's events are all taken: the journal never refuses one of its own request, and it numbers
-- them without a gap from its next number on.
pub emit_all-written :
    (contents : List Content) (j : EventJournal)
    → emit_all j.request_id j.trace_id j.session_id contents j ≡ some (ended j contents)
unfolding emit_all
emit_all-written [] j =
    rw (append_nil j.emitted)
      (ap (λ n. some (record j { next_sequence = n })) (zero_add j.next_sequence))
emit_all-written (x ∷ rest) j =
    rw (emit-after j x, emit_all) (emit_all-written rest (after j x) ∙ same_end j x rest)

last_slice-length {ℓ} : {A : Type ℓ} (n : ℕ) (xs : List A) → length (last_slice (suc n) xs) ≤ suc n
last_slice-length n xs = rw (length-drop (length xs - suc n) xs) (omega arith)

-- However the history is updated, at most 200 events are kept.
pub append_events-length :
    (left right : List ActivityEvent) → length (append_events left right) ≤ 200
unfolding append_events
append_events-length left [] = last_slice-length 199 (append_unique same_event left [])
append_events-length left (x ∷ right) = elim (Bool-cases (x.sequence_number == 0)) [
  | inl e ↦ rw e (last_slice-length 199 (x ∷ right))
  | inr e ↦ rw e (last_slice-length 199 (append_unique same_event left (x ∷ right)))
]
