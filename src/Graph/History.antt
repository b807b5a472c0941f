-- ===== src/Graph/History.antt =====
-- The history of the activity events: how its numbers go on when a node's events are appended.
use enterprise_ai_knowledge.Graph.Numbered.{append_nil, shift, append_after, written}
use enterprise_ai_knowledge.Common.{
  nat_eq, last_slice, inr, inl, Bool-cases, All-imp, All-drop, ◌==◌, ◌-◌, ◌∙◌, sym, ap, All-append,
  ◌≡◌, ◌∷◌, ℕ, zero, suc, refl, nat_beq, length, false, drop, arith, any_of, [], List, All, ◌<◌,
  ◌++◌, ◌+◌,
}
use enterprise_ai_knowledge.Graph.Reducers.{
  append_unique, max_retained, append_events, same_event, add_unique, next_number, ActivityEvent,
  Content,
}

abbrev pub Below : ℕ → List ActivityEvent → Type 0
Below n history = All (λ (e : ActivityEvent). e.sequence_number < n) history

differ : (a b : ℕ) → a < b → nat_beq b a ≡ false
differ a b lt = ground arith

fresh_event :
    (x : ActivityEvent) (history : List ActivityEvent)
    → Below x.sequence_number history
    → any_of (same_event x) history ≡ false
fresh_event x [] below = refl
fresh_event x (y ∷ rest) (lt, below) =
    rw (differ y.sequence_number x.sequence_number lt, fresh_event x rest below) refl

Below-suc : (n : ℕ) (history : List ActivityEvent) → Below n history → Below (suc n) history
Below-suc n [] below = tt
Below-suc n (y ∷ rest) (lt, below) = (omega arith, Below-suc n rest below)

pub next_number-snoc :
    (history : List ActivityEvent) (x : ActivityEvent)
    → next_number (history ++ x ∷ []) ≡ x.sequence_number + 1
unfolding next_number
next_number-snoc [] x = refl
next_number-snoc (y ∷ []) x = refl
next_number-snoc (y ∷ z ∷ rest) x = next_number-snoc (z ∷ rest) x

module _ (r t s : ℕ) where
  pub Below-written :
      (contents : List Content) (n : ℕ) → Below (length contents + n) (written r t s n contents)
  Below-written [] n = tt
  Below-written (c ∷ rest) n =
      (omega arith, rw (shift (length rest) n) at (Below-written rest (suc n)))

  abbrev numbered : ℕ → Content → ActivityEvent
  numbered n c = record {
    sequence_number = n;
    request_id = r;
    trace_id = t;
    session_id = s;
    content = c;
  }

  pub add_unique-written :
      (contents : List Content) (n : ℕ) (history : List ActivityEvent)
      → Below n history
      → add_unique same_event history (written r t s n contents)
        ≡ history ++ written r t s n contents
  unfolding add_unique
  add_unique-written [] n history below = sym (append_nil history)
  add_unique-written (c ∷ rest) n history below =
      rw (fresh_event (numbered n c) history below, add_unique)
        (add_unique-written rest (suc n) (history ++ numbered n c ∷ []) (
            All-append (λ (e : ActivityEvent). e.sequence_number < suc n) history
              (numbered n c ∷ []) (Below-suc n history below) (omega arith, tt))
          ∙ append_after history (written r t s (suc n) rest) (numbered n c))

  next_number-written :
      (c : Content) (contents : List Content) (n : ℕ) (history : List ActivityEvent)
      → next_number (history ++ written r t s n (c ∷ contents)) ≡ length (c ∷ contents) + n
  next_number-written c [] n history = next_number-snoc history (numbered n c) ∙ omega arith
  next_number-written c (d ∷ rest) n history =
      ap next_number (sym (append_after history (written r t s (suc n) (d ∷ rest)) (numbered n c)))
      ∙ next_number-written d rest (suc n) (history ++ numbered n c ∷ [])
      ∙ shift (length (d ∷ rest)) n

next_number-drop :
    (m : ℕ) (history : List ActivityEvent)
    → m < length history
    → next_number (drop m history) ≡ next_number history
unfolding next_number
next_number-drop zero history lt = refl
next_number-drop (suc m) (x ∷ []) lt = ground arith
next_number-drop (suc m) (x ∷ y ∷ rest) lt = next_number-drop m (y ∷ rest) (omega arith)
next_number-drop (suc m) [] lt = ground arith

pub drop_nil {ℓ} : {A : Type ℓ} (m : ℕ) → drop {A = A} m [] ≡ []
drop_nil zero = refl
drop_nil (suc m) = refl

next_number-last_slice :
    (n : ℕ) (history : List ActivityEvent)
    → next_number (last_slice (suc n) history) ≡ next_number history
next_number-last_slice n [] = ap next_number (drop_nil (0 - suc n))
next_number-last_slice n (x ∷ rest) =
    next_number-drop (length (x ∷ rest) - suc n) (x ∷ rest) (omega arith)

-- The history counts up to n.
abbrev pub UpTo : ℕ → List ActivityEvent → Type 0
UpTo n history = (next_number history ≡ n) × Below n history

module _ (r t s : ℕ) where
  UpTo-last_slice :
      (c : Content) (contents : List Content) (n : ℕ) (history : List ActivityEvent)
      → Below n history
      → UpTo
          (length (c ∷ contents) + n)
          (last_slice max_retained (history ++ written r t s n (c ∷ contents)))
  UpTo-last_slice c contents n history below =
      let all = history ++ written r t s n (c ∷ contents) in
      (
        next_number-last_slice 199 all ∙ next_number-written r t s c contents n history,
        All-drop _ (length all - 200) all (
            All-append _ history (written r t s n (c ∷ contents))
              (All-imp _ _ (λ e lt. omega arith) history below)
              (Below-written r t s (c ∷ contents) n)),
      )

  -- Where the history counts up to n, a node's events count on from there.
  pub append_events-UpTo :
      (c : Content) (contents : List Content) (n : ℕ) (history : List ActivityEvent)
      → UpTo n history
      → UpTo (length (c ∷ contents) + n) (append_events history (written r t s n (c ∷ contents)))
  unfolding append_events append_unique
  append_events-UpTo c contents n history (last, below) = elim (Bool-cases (n == 0)) [
    | inl e ↦ rw e (UpTo-last_slice c contents n [] tt)
    | inr e ↦
        rw (e, add_unique-written r t s (c ∷ contents) n history below)
          (UpTo-last_slice c contents n history below)
  ]
