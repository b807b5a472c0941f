-- ===== src/Graph/Runtime/Items.antt =====
-- What `_astream_untraced` makes of the parts of a node that goes on from the numbers before it.
use enterprise_ai_knowledge.Graph.Numbered.{shift, add_one, nat_same, zero_add, written}
use enterprise_ai_knowledge.Common.{
  Bool-cases, suc, not, arith, Bool, ◌&&◌, string_eq, ◌≡◌, ◌∷◌, ◌∙◌, ℕ, true, some, refl, none, map,
  length, inr, inl, false, contains, ap, [], Option-cases, List, ◌++◌, ◌+◌,
}
use enterprise_ai_knowledge.Frontend.Contract.{Correlation}
use enterprise_ai_knowledge.Graph.Reducers.{event_types, Content, ActivityEvent}
use enterprise_ai_knowledge.Graph.Runtime.{public_output, public_event, items}
use enterprise_ai_knowledge.Api.Stream.{is_final, StreamItem}
use enterprise_ai_knowledge.Graph.Nodes.Quiet.{Quiet}
use enterprise_ai_knowledge.Graph.Execution.{custom, values, Part}
use enterprise_ai_knowledge.Graph.State.{FinalOutput, GraphState}
use enterprise_ai_knowledge.Vocabulary.{ProcessingStatus}
use enterprise_ai_knowledge.Graph.Nodes.Closing.{is_failed_status, final_event}

pub same_prefix {ℓ} : {A : Type ℓ} (a b c : List A) → (a ++ b) ++ c ≡ a ++ (b ++ c)
same_prefix [] b c = refl
same_prefix (x ∷ a) b c = ap (λ l. x ∷ l) (same_prefix a b c)

abbrev pub item_of : ActivityEvent → StreamItem
item_of e = record { event = some (public_event e); output = none }

abbrev pub output_item : FinalOutput → StreamItem
output_item o = record { event = none; output = some (public_output o) }

pub final_event-known :
    (status : ProcessingStatus) → contains event_types (final_event status).event_type ≡ true
final_event-known status = elim (Bool-cases (is_failed_status status)) [
  | inl e ↦ rw e refl
  | inr e ↦ rw e refl
]

pub final_event-final :
    (status : ProcessingStatus) → is_final (final_event status).event_type ≡ true
final_event-final status = elim (Bool-cases (is_failed_status status)) [
  | inl e ↦ rw e refl
  | inr e ↦ rw e refl
]

pub both : (a b : Bool) → (a && not b) ≡ true → (a ≡ true) × (b ≡ false)
both a b h = ground arith

module _ (c : Correlation) where
  abbrev pub told : ℕ → List Content → List ActivityEvent
  told n contents = written c.request_id c.trace_id c.session_id n contents

  pub items-values :
      (n : ℕ) (s : GraphState) (rest : List Part)
      → items c n false false (values s ∷ rest) ≡ items c n false false rest
  unfolding items
  items-values n s rest = elim (Option-cases s.final_output) [
    | inl e ↦ rw (e, items) refl
    | inr (o, e) ↦ rw (e, items) refl
  ]

  items-written :
      (contents : List Content) (n : ℕ) (rest : List Part)
      → Quiet contents
      → items c n false false (map custom (told n contents) ++ rest)
        ≡ map item_of (told n contents) ++ items c (length contents + n) false false rest
  unfolding items
  items-written [] n rest quiet = ap (λ k. items c k false false rest) (zero_add n)
  items-written (x ∷ contents) n rest (h, quiet) =
      let (known, more) = both (contains event_types x.event_type) (is_final x.event_type) h in
      rw
        (
          known,
          nat_same n,
          nat_same c.request_id,
          nat_same c.trace_id,
          nat_same c.session_id,
          more,
          add_one n,
          items-written contents (suc n) rest quiet,
          shift (length contents) n,
          items,
        )
        refl

  -- The parts of a node that told these events.
  pub items-node :
      (contents : List Content) (n : ℕ) (s : GraphState) (rest : List Part)
      → Quiet contents
      → items c n false false (map custom (told n contents) ++ values s ∷ rest)
        ≡ map item_of (told n contents) ++ items c (length contents + n) false false rest
  items-node contents n s rest quiet =
      items-written contents n (values s ∷ rest) quiet
      ∙ ap (λ l. map item_of (told n contents) ++ l) (items-values (length contents + n) s rest)

  -- The parts of the last node: its event and its output.
  pub items-final :
      (n : ℕ) (s : GraphState) (o : FinalOutput) (x : Content)
      → contains event_types x.event_type ≡ true
      → is_final x.event_type ≡ true
      → s.final_output ≡ some o
      → items c n false false (map custom (told n (x ∷ [])) ++ values s ∷ [])
        ≡ map item_of (told n (x ∷ [])) ++ output_item o ∷ []
  unfolding items
  items-final n s o x known final h =
      rw
        (
          known,
          nat_same n,
          nat_same c.request_id,
          nat_same c.trace_id,
          nat_same c.session_id,
          h,
          final,
          items,
        )
        refl
