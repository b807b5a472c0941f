-- ===== src/Graph/Nodes/Guarded.antt =====
-- The guard around the nodes: what a guarded node tells, and what its update does to the state.
use enterprise_ai_knowledge.Graph.Numbered.{add_one, emit_all-written, written}
use enterprise_ai_knowledge.Common.{
  ◌∙◌, ap, arith, any_of, All-append, ◌≡◌, ◌∷◌, ℕ, true, some, refl, none, is_empty, inr, inl,
  false, if◌then◌else◌, [], Option, List, Bool-cases, ◌++◌,
}
use enterprise_ai_knowledge.Graph.Nodes.{
  plain_events, failure_type, is_failure_of, over_budget, failed_update, Performed,
  completed_update, guarded, failed_node_events, journal_events,
}
use enterprise_ai_knowledge.Graph.Reducers.{
  EventStatus, open_journal, ActivityEvent, next_number, Content,
}
use enterprise_ai_knowledge.Graph.State.{merge, GraphState}
use enterprise_ai_knowledge.Graph.Services.{content, Services, Body}
use enterprise_ai_knowledge.Graph.Topology.{Node}
use enterprise_ai_knowledge.Graph.Nodes.Quiet.{is_quiet, Quiet}
use enterprise_ai_knowledge.Graph.Nodes.Tame.{is_none, keeps_events, keeps_status, is_sound}
use enterprise_ai_knowledge.Graph.History.{next_number-snoc}

-- The events count on from the history, are of the known types and not final, and are what the update
-- keeps of them: a node without events leaves the history alone.
abbrev pub Told : GraphState → List ActivityEvent → Option (List ActivityEvent) → Type 0
Told s events kept =
    (contents : List Content) × ((events
        ≡ written s.request_id s.trace_id s.session_id (next_number s.activity_events) contents)
      × Quiet contents
      × (kept ≡ (if is_empty contents then none else some events)))

-- The update of a node that told these events, and did not raise.
abbrev pub Carried : GraphState → Performed → Type 0
Carried s (events, none) = Unit → false ≡ true
Carried s (events, some u) =
    (is_sound (merge s u) ≡ true) × Told s events u.activity_events × (keeps_status u ≡ true)

abbrev pub FineBody : GraphState → Body → Type 0
FineBody s (contents, none) = Quiet contents
FineBody s (contents, some u) =
    Quiet contents
    × (is_sound (merge s u) ≡ true)
    × (keeps_status u ≡ true)
    × (keeps_events u ≡ true)

journal_events-written :
    (s : GraphState) (contents : List Content)
    → journal_events s contents
      ≡ written s.request_id s.trace_id s.session_id (next_number s.activity_events) contents
unfolding journal_events
journal_events-written s contents =
    rw
      (
        emit_all-written contents
            (open_journal s.request_id s.trace_id s.session_id s.activity_events),
        journal_events,
      )
      refl

is_empty-written :
    (r t s n : ℕ) (contents : List Content)
    → is_empty (written r t s n contents) ≡ is_empty contents
is_empty-written r t s n [] = refl
is_empty-written r t s n (c ∷ rest) = refl

failure_type-quiet : (n : Node) → is_quiet (content n (failure_type n) EventStatus.failed) ≡ true
failure_type-quiet Node.initialize_request = refl
failure_type-quiet Node.validate_request = refl
failure_type-quiet Node.load_memory = refl
failure_type-quiet Node.resolve_followup_context = refl
failure_type-quiet Node.classify_intent = refl
failure_type-quiet Node.supervisor = refl
failure_type-quiet Node.simple_retrieval = refl
failure_type-quiet Node.cross_document_research = refl
failure_type-quiet Node.validate_evidence = refl
failure_type-quiet Node.direct_response = refl
failure_type-quiet Node.deny_request = refl
failure_type-quiet Node.unsupported = refl
failure_type-quiet Node.python_analysis = refl
failure_type-quiet Node.execute_mcp_tool = refl
failure_type-quiet Node.generate_response = refl
failure_type-quiet Node.validate_citations = refl
failure_type-quiet Node.prepare_output = refl
failure_type-quiet Node.update_memory = refl
failure_type-quiet Node.handle_failure = refl
failure_type-quiet Node.finalize_execution = refl

failed_node_events-Quiet :
    (n : Node) (contents : List Content) → Quiet (failed_node_events n contents)
unfolding failed_node_events
failed_node_events-Quiet n contents = elim (Bool-cases (any_of (is_failure_of n) contents)) [
  | inl e ↦ rw (e, failed_node_events) tt
  | inr e ↦ rw (e, failed_node_events) (failure_type-quiet n, tt)
]

told_failure :
    (n : Node) (contents : List Content)
    → is_empty (contents ++ failed_node_events n contents) ≡ false
unfolding failed_node_events
told_failure n [] = refl
told_failure n (c ∷ rest) = refl

kept_events :
    (u : Option (List ActivityEvent)) (events : List ActivityEvent) (contents : List Content)
    → is_none u ≡ true
    → is_empty events ≡ is_empty contents
    → (if is_empty events then u else some events)
      ≡ (if is_empty contents then none else some events)
kept_events none events contents absent same = rw same refl
kept_events (some kept) events contents absent same = absurd (ground arith)

journal_events-is_empty :
    (s : GraphState) (contents : List Content)
    → is_empty (journal_events s contents) ≡ is_empty contents
journal_events-is_empty s contents =
    rw (journal_events-written s contents) (
      is_empty-written s.request_id s.trace_id s.session_id (next_number s.activity_events)
        contents)

pub guarded-Carried :
    (v : Services) (n : Node) (s : GraphState) (body : Body)
    → is_sound s ≡ true
    → FineBody s body
    → Carried s (guarded v n s body)
unfolding guarded completed_update failed_update merge
guarded-Carried v n s (contents, none) sound quiet = elim (Bool-cases (over_budget v s)) [
  | inl e ↦ rw (e, guarded) (sound, ([], (refl, tt, refl)), refl)
  | inr e ↦
      rw (e, guarded)
        (let all = contents ++ failed_node_events n contents in
          (
            sound,
            (
              all,
              (
                journal_events-written s all,
                All-append _ contents (failed_node_events n contents) quiet
                    (failed_node_events-Quiet n contents),
                rw (told_failure n contents) refl,
              ),
            ),
            refl,
          ))
]
guarded-Carried v n s (contents, some u) sound fine = elim (Bool-cases (over_budget v s)) [
  | inl e ↦ rw (e, guarded) (sound, ([], (refl, tt, refl)), refl)
  | inr e ↦
      rw (e, guarded)
        (
          fine.1,
          (
            contents,
            (
              journal_events-written s contents,
              fine.0,
              kept_events u.activity_events (journal_events s contents) contents fine.3
                  (journal_events-is_empty s contents),
            ),
          ),
          fine.2,
        )
]

-- The events that are told without a journal are numbered alike.
pub plain_events-written :
    (s : GraphState) (contents : List Content) (history : List ActivityEvent)
    → plain_events s history contents
      ≡ written s.request_id s.trace_id s.session_id (next_number history) contents
unfolding plain_events
plain_events-written s [] history = refl
plain_events-written s (c ∷ rest) history =
    let e : ActivityEvent = record {
      sequence_number = next_number history;
      request_id = s.request_id;
      trace_id = s.trace_id;
      session_id = s.session_id;
      content = c;
    } in
    ap (λ l. e ∷ l)
      (plain_events-written s rest (history ++ e ∷ [])
        ∙ ap (λ n. written s.request_id s.trace_id s.session_id n rest)
            (next_number-snoc history e ∙ add_one (next_number history)))
