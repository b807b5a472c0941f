-- ===== src/Graph/Runtime/Streamed.antt =====
-- The events of a run, as far as it got: what is streamed of them, and what the history counts to.
use enterprise_ai_knowledge.Graph.Numbered.{shift, zero_add, written}
use enterprise_ai_knowledge.Common.{
  ◌∙◌, All-append, ◌≡◌, ◌∷◌, ℕ, sym, suc, some, refl, none, map, length-append, length, is_empty,
  false, if◌then◌else◌, arith, ap, [], List, ◌++◌, ◌+◌,
}
use enterprise_ai_knowledge.Frontend.Contract.{Correlation}
use enterprise_ai_knowledge.Graph.Execution.{values, custom, Part, Execution, settle}
use enterprise_ai_knowledge.Graph.State.{Update, merge, GraphState}
use enterprise_ai_knowledge.Graph.Reducers.{ActivityEvent, Content}
use enterprise_ai_knowledge.Graph.Runtime.Items.{items-node, same_prefix, told, item_of}
use enterprise_ai_knowledge.Graph.Nodes.Quiet.{Quiet}
use enterprise_ai_knowledge.Graph.History.{append_events-UpTo, UpTo}
use enterprise_ai_knowledge.Graph.Nodes.Guarded.{Told}
use enterprise_ai_knowledge.Graph.Runtime.{items}

abbrev pub ids : GraphState → Correlation
ids s = record { request_id = s.request_id; trace_id = s.trace_id; session_id = s.session_id }

written-append :
    (r t s : ℕ) (a b : List Content) (n : ℕ)
    → written r t s n (a ++ b) ≡ written r t s n a ++ written r t s (length a + n) b
written-append r t s [] b n = ap (λ k. written r t s k b) (zero_add n)
written-append r t s (x ∷ a) b n = rw (written-append r t s a b (suc n), shift (length a) n) refl

map-append : {A B : Type 0} (f : A → B) (a b : List A) → map f (a ++ b) ≡ map f a ++ map f b
map-append f [] b = refl
map-append f (x ∷ a) b = ap (λ l. f x ∷ l) (map-append f a b)

-- The events that nodes wrote to the stream.
abbrev pub events_of : List Part → List ActivityEvent
events_of [] = []
events_of (custom e ∷ parts) = e ∷ events_of parts
events_of (values s ∷ parts) = events_of parts

events_of-append : (a b : List Part) → events_of (a ++ b) ≡ events_of a ++ events_of b
events_of-append [] b = refl
events_of-append (custom e ∷ a) b = ap (λ l. e ∷ l) (events_of-append a b)
events_of-append (values s ∷ a) b = events_of-append a b

events_of-node :
    (es : List ActivityEvent) (s : GraphState) → events_of (map custom es ++ values s ∷ []) ≡ es
events_of-node [] s = refl
events_of-node (e ∷ es) s = ap (λ l. e ∷ l) (events_of-node es s)

-- The events with these contents were written and streamed, in order and without a gap, and nothing else.
abbrev pub Streamed : Execution → Type 0
Streamed x =
    (contents : List Content) × (Quiet contents
      × UpTo (length contents) x.state.activity_events
      × ((rest : List Part)
          → items (ids x.state) 0 false false (x.parts ++ rest)
            ≡ map item_of (told (ids x.state) 0 contents)
              ++ items (ids x.state) (length contents) false false rest)
      × (events_of x.parts ≡ told (ids x.state) 0 contents))

merge-UpTo :
    (s : GraphState) (u : Update) (events : List ActivityEvent) (contents : List Content) (n : ℕ)
    → UpTo n s.activity_events
    → events ≡ told (ids s) n contents
    → u.activity_events ≡ (if is_empty contents then none else some events)
    → UpTo (length contents + n) (merge s u).activity_events
unfolding merge
merge-UpTo s u events [] n counted numbered kept = rw (kept, sym (zero_add n)) counted
merge-UpTo s u events (c ∷ contents) n counted numbered kept =
    rw (kept, numbered)
      (append_events-UpTo s.request_id s.trace_id s.session_id c contents n s.activity_events
        counted)

more : (a b : List Content) → length b + length a ≡ length (a ++ b)
more a b = omega (arith, length-append a b)

length_zero : (a : List Content) → length a ≡ length a + 0
length_zero a = omega arith

told-split :
    (c : Correlation) (a b : List Content) → told c 0 (a ++ b) ≡ told c 0 a ++ told c (length a) b
told-split c a b =
    let split = written-append c.request_id c.trace_id c.session_id a b 0 in
    rw (sym (length_zero a)) at split

-- The events of a run's parts and of the node behind them.
pub events_of-settled :
    (c : Correlation) (parts : List Part) (before contents : List Content) (after : GraphState)
    → events_of parts ≡ told c 0 before
    → events_of (parts ++ (map custom (told c (length before) contents) ++ values after ∷ []))
      ≡ told c 0 (before ++ contents)
events_of-settled c parts before contents after h =
    let node = map custom (told c (length before) contents) ++ values after ∷ [] in
    events_of-append parts node
    ∙ ap (λ l. l ++ events_of node) h
    ∙ ap (λ l. told c 0 before ++ l) (events_of-node (told c (length before) contents) after)
    ∙ sym (told-split c before contents)

told-append :
    (c : Correlation) (a b : List Content)
    → map item_of (told c 0 a) ++ map item_of (told c (length a) b)
      ≡ map item_of (told c 0 (a ++ b))
told-append c a b =
    sym (map-append item_of (told c 0 a) (told c (length a) b))
    ∙ ap (map item_of) (sym (told-split c a b))

-- What is streamed of a node's parts, behind what was streamed before.
streamed_node :
    (c : Correlation) (parts rest : List Part) (before contents : List Content) (after : GraphState)
    → Quiet contents
    → ((rest : List Part)
        → items c 0 false false (parts ++ rest)
          ≡ map item_of (told c 0 before) ++ items c (length before) false false rest)
    → items c 0 false false
        ((parts ++ (map custom (told c (length before) contents) ++ values after ∷ [])) ++ rest)
      ≡ map item_of (told c 0 (before ++ contents))
        ++ items c (length (before ++ contents)) false false rest
streamed_node c parts rest before contents after quiet streamed =
    let new = map custom (told c (length before) contents) in
    let first = map item_of (told c 0 before) in
    let second = map item_of (told c (length before) contents) in
    let end = items c (length contents + length before) false false rest in
    ap (items c 0 false false) (same_prefix parts (new ++ values after ∷ []) rest)
    ∙ streamed ((new ++ values after ∷ []) ++ rest)
    ∙ ap (λ l. first ++ items c (length before) false false l)
        (same_prefix new (values after ∷ []) rest)
    ∙ ap (λ l. first ++ l) (items-node c contents (length before) after rest quiet)
    ∙ sym (same_prefix first second end)
    ∙ ap (λ l. l ++ end) (told-append c before contents)
    ∙ ap (λ k. map item_of (told c 0 (before ++ contents)) ++ items c k false false rest)
        (more before contents)

pub settle-Streamed :
    (x : Execution) (u : Update) (events : List ActivityEvent)
    → Told x.state events u.activity_events
    → Streamed x
    → Streamed (settle x (events, some u))
unfolding settle merge
settle-Streamed x u events (contents, (numbered, quiet, kept))
      (before, (calm, counted, streamed, all)) =
    let here = rw counted.0 at numbered in
    let count = merge-UpTo x.state u events contents (length before) counted here kept in
    (
      before ++ contents,
      (
        All-append _ before contents calm quiet,
        rw (more before contents) at count,
        λ rest. rw here (
            streamed_node (ids x.state) x.parts rest before contents (merge x.state u) quiet
              streamed),
        rw here (events_of-settled (ids x.state) x.parts before contents (merge x.state u) all),
      ),
    )
