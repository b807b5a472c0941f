-- ===== src/Graph/Journal.antt =====
-- The numbers of a node's events behind the history of the state.
use enterprise_ai_knowledge.Graph.Numbered.{written}
use enterprise_ai_knowledge.Common.{
  some, none, Option, ◌≤◌, ◌∙◌, sym, length-drop, length-append, ap, ◌-◌, ◌≡◌, ◌∷◌, ℕ, zero, suc,
  subst, refl, ltb, length, last_slice, is_empty, inr, inl, false, drop, arith, [], List,
  Bool-cases, ◌==◌, ◌++◌, ◌+◌, ◌&&◌, nat_eq,
}
use enterprise_ai_knowledge.Graph.Reducers.{
  EventJournal, open_journal, append_unique, append_events, ActivityEvent, next_number, Content,
}
use enterprise_ai_knowledge.Graph.Nodes.{journal_events}
use enterprise_ai_knowledge.Graph.History.{add_unique-written, Below}
use enterprise_ai_knowledge.Graph.State.{GraphState}
use enterprise_ai_knowledge.Graph.Numbered.{emit_all-written}

-- The events are numbered from m on, without a gap.
abbrev pub From : ℕ → List ActivityEvent → Type 0
From m [] = Unit
From m (e ∷ es) = (e.sequence_number ≡ m) × From (suc m) es

-- A history that starts at m, which is zero if there is no event.
abbrev pub Gapless : ℕ → List ActivityEvent → Type 0
Gapless m history = From m history × ((is_empty history && ltb 0 m) ≡ false)

next_number-From :
    (m : ℕ) (e : ActivityEvent) (es : List ActivityEvent)
    → From m (e ∷ es)
    → next_number (e ∷ es) ≡ m + length (e ∷ es)
unfolding next_number
next_number-From m e [] h = omega (arith, h.0)
next_number-From m e (f ∷ es) h = omega (arith, next_number-From (suc m) f es h.1)

next_number-Gapless :
    (m : ℕ) (history : List ActivityEvent)
    → Gapless m history
    → next_number history ≡ m + length history
unfolding next_number
next_number-Gapless m [] h = ground arith
next_number-Gapless m (e ∷ es) h = next_number-From m e es h.0

From-Below :
    (m : ℕ) (history : List ActivityEvent) → From m history → Below (m + length history) history
From-Below m [] h = tt
From-Below m (e ∷ es) h =
    (omega (arith, h.0), subst (λ n. Below n es) (omega arith) (From-Below (suc m) es h.1))

From-written : (r t s n : ℕ) (contents : List Content) → From n (written r t s n contents)
From-written r t s n [] = tt
From-written r t s n (c ∷ rest) = (refl, From-written r t s (suc n) rest)

From-append :
    (m : ℕ) (xs ys : List ActivityEvent) → From m xs → From (m + length xs) ys → From m (xs ++ ys)
From-append m [] ys h k = subst (λ n. From n ys) (omega arith) k
From-append m (x ∷ xs) ys h k =
    (h.0, From-append (suc m) xs ys h.1 (subst (λ n. From n ys) (omega arith) k))

From-drop : (m k : ℕ) (xs : List ActivityEvent) → From m xs → From (m + k) (drop k xs)
From-drop m zero xs h = subst (λ n. From n xs) (omega arith) h
From-drop m (suc k) [] h = tt
From-drop m (suc k) (x ∷ xs) h =
    subst (λ n. From n (drop k xs)) (omega arith) (From-drop (suc m) k xs h.1)

length-written :
    (r t s n : ℕ) (contents : List Content) → length (written r t s n contents) ≡ length contents
length-written r t s n [] = refl
length-written r t s n (c ∷ rest) = omega (arith, length-written r t s (suc n) rest)

empty_history : (history : List ActivityEvent) → length history ≡ 0 → history ≡ []
empty_history [] h = refl
empty_history (e ∷ es) h = absurd (omega (arith, h))

full_history : (history : List ActivityEvent) → 1 ≤ length history → is_empty history ≡ false
full_history [] h = absurd (omega (arith, h))
full_history (e ∷ es) h = refl

append_events-append :
    (m r t s : ℕ) (c : Content) (contents : List Content) (history : List ActivityEvent)
    → Gapless m history
    → append_events history (written r t s (m + length history) (c ∷ contents))
      ≡ last_slice 200 (history ++ written r t s (m + length history) (c ∷ contents))
unfolding append_events append_unique
append_events-append m r t s c contents history h =
    let n = m + length history in
    elim (Bool-cases (n == 0)) [
      | inl e ↦
          let none_before : history ≡ [] = empty_history history (ground arith) in
          rw (e, none_before) refl
      | inr e ↦
          rw (e, add_unique-written r t s (c ∷ contents) n history (From-Below m history h.0)) refl
    ]

abbrev emitted_of : Option EventJournal → List ActivityEvent
emitted_of o = elim o [ none ↦ [] | some j ↦ j.emitted ]

-- Where the history is numbered without a gap from some number on, from zero if it is empty, a
-- guarded node's events take the numbers from behind its last one on; and the history that the
-- state holds behind them is again without a gap, and ends with the last of them.
pub journal_events-Gapless :
    (s : GraphState) (m : ℕ) (c : Content) (contents : List Content)
    → Gapless m s.activity_events
    → let events = journal_events s (c ∷ contents) in
      (events
        ≡ written s.request_id s.trace_id s.session_id
            (m + length s.activity_events)
            (c ∷ contents))
      × ((dropped : ℕ) × Gapless (m + dropped) (append_events s.activity_events events)
          × (m + dropped + length (append_events s.activity_events events)
              ≡ m + length s.activity_events + length (c ∷ contents)))
unfolding journal_events
journal_events-Gapless s m c contents h =
    let history = s.activity_events in
    let r = s.request_id in
    let t = s.trace_id in
    let w = s.session_id in
    let all = history ++ written r t w (m + length history) (c ∷ contents) in
    let made : journal_events s (c ∷ contents) ≡ written r t w (m + length history) (c ∷ contents) =
      ap emitted_of (emit_all-written (c ∷ contents) (open_journal r t w history))
      ∙ ap (λ n. written r t w n (c ∷ contents)) (next_number-Gapless m history h) in
    let count : length all ≡ length history + length (c ∷ contents) = omega (
      arith,
      length-append history (written r t w (m + length history) (c ∷ contents)),
      length-written r t w (m + length history) (c ∷ contents),
    ) in
    let dropped = length all - 200 in
    let left = length-drop dropped all in
    let from : From (m + dropped) (drop dropped all) = From-drop m dropped all (
      From-append m history (written r t w (m + length history) (c ∷ contents)) h.0
        (From-written r t w (m + length history) (c ∷ contents))) in
    let full : is_empty (drop dropped all) ≡ false =
      full_history (drop dropped all) (omega (arith, left, count)) in
    let kept : append_events history (journal_events s (c ∷ contents)) ≡ drop dropped all =
      ap (append_events history) made ∙ append_events-append m r t w c contents history h in
    let both =
      subst
        (λ es.
          Gapless (m + dropped) es
          × (m + dropped + length es ≡ m + length history + length (c ∷ contents)))
        (sym kept) ((from, rw full refl), omega (arith, left, count)) in
    (made, (dropped, both.0, both.1))
