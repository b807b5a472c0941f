-- ===== src/Graph/Runtime/Answered.antt =====
-- Every run of the graph ends with an output, which its stream tells behind its events.
use enterprise_ai_knowledge.Graph.Nodes.Closing.{
  is_failed_status, finalize, handle_failure, effective_status, output_of, is_valid_output,
  final_event,
}
use enterprise_ai_knowledge.Graph.Nodes.Request.{initialize}
use enterprise_ai_knowledge.Common.{
  ◌∙◌, sym, subst, inr, inl, ap, Option-cases, ◌≢◌, ◌≡◌, ◌∷◌, true, some, refl, none, map, length,
  is_empty, false, arith, [], Text, List, ◌++◌,
}
use enterprise_ai_knowledge.Graph.Services.{Services}
use enterprise_ai_knowledge.Graph.Execution.{
  enough, execute, values, custom, marks_of, execution_marks, perform, Execution, settle,
}
use enterprise_ai_knowledge.Frontend.Contract.{Correlation}
use enterprise_ai_knowledge.Graph.State.{
  no_update, GraphState, FinalOutput, Update, is_valid_response, GroundedResponse, merge,
  AnalysisResult,
}
use enterprise_ai_knowledge.Graph.Topology.{next_node, Node, to, Target}
use enterprise_ai_knowledge.Graph.Reducers.{next_number, ActivityEvent, Content}
use enterprise_ai_knowledge.Graph.Runtime.Streamed.{
  events_of, events_of-settled, settle-Streamed, Streamed, ids,
}
use enterprise_ai_knowledge.Graph.Nodes.Tame.{merge-status, every, is_sound}
use enterprise_ai_knowledge.Graph.Nodes.{Performed, plain_events, node}
use enterprise_ai_knowledge.Api.Stream.Consistent.{OutputOf}
use enterprise_ai_knowledge.Graph.Runtime.Placed.{
  next_node-goes_on, merge-routes, merge-has_route, placed-calm, next_node-placed, node-routes,
  routes, placed,
}
use enterprise_ai_knowledge.Graph.Nodes.Carried.{node-Carried, is_ordinary}
use enterprise_ai_knowledge.Graph.Runtime.{items, public_output}
use enterprise_ai_knowledge.Graph.Nodes.Guarded.{plain_events-written, Carried, Told}
use enterprise_ai_knowledge.Vocabulary.{ProcessingStatus, Route}
use enterprise_ai_knowledge.Graph.Nodes.Quiet.{Quiet}
use enterprise_ai_knowledge.Graph.Runtime.Items.{
  items-values, final_event-final, final_event-known, items-final, output_item, told, item_of,
}
use enterprise_ai_knowledge.Graph.Topology.Invariant.{run_state-invariant}

-- The output of an answered request, and that it fails only by the failure's route.
abbrev pub Answer : Correlation → Execution → Type 0
Answer c x =
    (contents : List Content) × (o : FinalOutput) × ((x.raised ≡ false)
      × (x.state.final_output ≡ some o)
      × OutputOf c (public_output o)
      × (is_failed_status o.completion_status ≡ true → o.selected_route ≡ Route.failure)
      × (is_sound x.state ≡ true)
      × Quiet contents
      × (items c 0 false false x.parts
          ≡ map item_of (told c 0 contents)
            ++ (map item_of (told c (length contents) (final_event o.completion_status ∷ []))
                ++ output_item o ∷ []))
      × (events_of x.parts ≡ told c 0 (contents ++ final_event o.completion_status ∷ [])))

abbrev Underway : Correlation → Target → Execution → Type 0
Underway c t x =
    (x.raised ≡ false)
    × (ids x.state ≡ c)
    × (is_sound x.state ≡ true)
    × (placed t x.state ≡ true)
    × Streamed x

abbrev Going : Correlation → Target → Execution → Type 0
Going c (to n) x = Underway c (to n) x
Going c Target.no_route x = Underway c Target.no_route x
Going c Target.end x = Answer c x

going :
    (c : Correlation) (t : Target) (x : Execution) → t ≢ Target.end → Underway c t x → Going c t x
going c (to n) x on h = h
going c Target.no_route x on h = h
going c Target.end x on h = absurd (on refl)

settle-Underway :
    (c : Correlation) (t : Target) (x : Execution) (events : List ActivityEvent) (u : Update)
    → x.raised ≡ false
    → ids x.state ≡ c
    → Streamed x
    → Told x.state events u.activity_events
    → is_sound (merge x.state u) ≡ true
    → placed t (merge x.state u) ≡ true
    → Underway c t (settle x (events, some u))
unfolding settle merge
settle-Underway c t x events u on same streamed told_events sound here =
    (on, same, sound, here, settle-Streamed x u events told_events streamed)

empty_list : {A : Type 0} (xs : List A) → is_empty xs ≡ true → xs ≡ []
empty_list [] h = refl
empty_list (x ∷ xs) h = absurd (ground arith)

no_route_left :
    (s : GraphState) → s.selected_route ≡ none → placed (to Node.finalize_execution) s ≡ true → ⊥
no_route_left s absent here = ground arith

is_valid_output-is_sound :
    (s : GraphState) (status : ProcessingStatus) (r : Route)
    → is_valid_output (output_of s status r) ≡ is_sound s
unfolding is_valid_output output_of
is_valid_output-is_sound s status r = ground arith

failed_route :
    (s : GraphState) (r : Route)
    → s.selected_route ≡ some r
    → placed (to Node.finalize_execution) s ≡ true
    → is_failed_status (effective_status s.processing_status) ≡ true
    → r ≡ Route.failure
unfolding effective_status
failed_route s r chosen here failing = ground arith

-- The update of the last node, with its event.
abbrev closing_update : GraphState → ProcessingStatus → Route → Update
closing_update s status r = record no_update {
  processing_status = some status;
  final_output = some (output_of s status r);
  visited_nodes = some (Node.finalize_execution ∷ []);
  activity_events = some (told (ids s) (next_number s.activity_events) (final_event status ∷ []));
}

finalize-performed :
    (v : Services) (s : GraphState) (r : Route)
    → s.selected_route ≡ some r
    → is_sound s ≡ true
    → node v Node.finalize_execution s ≡ (
      told
          (ids s)
          (next_number s.activity_events)
          (final_event (effective_status s.processing_status) ∷ []),
      some (closing_update s (effective_status s.processing_status) r),
    )
unfolding node finalize plain_events
finalize-performed v s r chosen sound =
    simp
      (chosen, is_valid_output-is_sound s (effective_status s.processing_status) r, sound, finalize)
      refl

settle-Answer :
    (c : Correlation) (x : Execution) (o : FinalOutput) (u : Update)
    → x.raised ≡ false
    → ids x.state ≡ c
    → Streamed x
    → is_sound (merge x.state u) ≡ true
    → u.final_output ≡ some o
    → OutputOf (ids x.state) (public_output o)
    → (is_failed_status o.completion_status ≡ true → o.selected_route ≡ Route.failure)
    → Answer c (
        settle x (
          told
              (ids x.state)
              (next_number x.state.activity_events)
              (final_event o.completion_status ∷ []),
          some u,
        ))
unfolding settle merge
settle-Answer c x o u on same (before, (calm, counted, streamed, all)) sound output mine failing =
    let last = final_event o.completion_status ∷ [] in
    let after = merge x.state u in
    let here = ids x.state in
    let kept : after.final_output ≡ some o = rw output refl in
    subst (λ k. Answer k (settle x (told here (next_number x.state.activity_events) last, some u)))
      same
      (
        before,
        o,
        (
          on,
          kept,
          mine,
          failing,
          sound,
          calm,
          rw counted.0 (
              streamed (map custom (told here (length before) last) ++ values after ∷ [])
              ∙ ap (λ l. map item_of (told here 0 before) ++ l)
                  (items-final here (length before) after o (final_event o.completion_status)
                    (final_event-known o.completion_status) (final_event-final o.completion_status)
                    kept)),
          rw counted.0 (events_of-settled here x.parts before last after all),
        ),
      )

module _ (v : Services)
    (valid : (query : Text) (a : AnalysisResult) (r : GroundedResponse)
      → v.analysis_response query a ≡ some r
      → is_valid_response r ≡ true)
    (c : Correlation) where
  initialize-step :
      (x : Execution)
      → Underway c (to Node.initialize_request) x
      → Underway c (to Node.validate_request) (perform v Node.initialize_request x)
  unfolding node initialize merge
  initialize-step x (on, same, sound, here, streamed) =
      let s = x.state in
      let (contents, u) = initialize v s in
      let events = plain_events s [] contents in
      settle-Underway c (to Node.validate_request) x events
        (record u { activity_events = some events }) on same streamed
        (
          contents,
          (
            plain_events-written s contents []
                ∙ ap (λ h. told (ids s) (next_number h) contents)
                    (sym (empty_list s.activity_events here)),
            (refl, (refl, tt)),
            refl,
          ),
        )
        sound refl

  failure-step :
      (x : Execution)
      → Underway c (to Node.handle_failure) x
      → Underway c (to Node.finalize_execution) (perform v Node.handle_failure x)
  unfolding node handle_failure merge
  failure-step x (on, same, sound, here, streamed) =
      let s = x.state in
      let (contents, u) = handle_failure in
      let events = plain_events s s.activity_events contents in
      settle-Underway c (to Node.finalize_execution) x events
        (record u { activity_events = some events }) on same streamed
        (contents, (plain_events-written s contents s.activity_events, (refl, (refl, tt)), refl))
        sound refl

  after_performed :
      (n : Node) (x : Execution) (p : Performed)
      → is_ordinary n ≡ true
      → Underway c (to n) x
      → Carried x.state p
      → (n ≡ Node.supervisor → every routes p.1 ≡ true)
      → Underway c (next_node n (execution_marks (settle x p))) (settle x p)
  unfolding settle
  after_performed n x (events, none) ordinary underway carried found =
      absurd (ground (arith, carried tt))
  after_performed n x (events, some u) ordinary (on, same, sound, here, streamed)
        (safe, told_events, kept) found =
      settle-Underway c (next_node n (marks_of (merge x.state u))) x events u on same streamed
        told_events safe
        (next_node-placed n x.state (merge x.state u) ordinary here
          (merge-status x.state u kept (placed-calm n x.state ordinary here))
          (merge-has_route x.state u) (λ e. merge-routes x.state u (found e)))

  ordinary-step :
      (n : Node) (x : Execution)
      → is_ordinary n ≡ true
      → Underway c (to n) x
      → Underway c (next_node n (execution_marks (perform v n x))) (perform v n x)
  ordinary-step n x ordinary underway =
      after_performed n x (node v n x.state) ordinary underway
        (node-Carried v valid n x.state ordinary underway.2)
        (λ e. subst (λ k. every routes (node v k x.state).1 ≡ true) (sym e) (node-routes v x.state))

  finalize-step :
      (x : Execution)
      → Underway c (to Node.finalize_execution) x
      → Answer c (perform v Node.finalize_execution x)
  unfolding effective_status output_of merge
  finalize-step x (on, same, sound, here, streamed) = elim (Option-cases x.state.selected_route) [
    | inl absent ↦ absurd (no_route_left x.state absent here)
    | inr (r, chosen) ↦
        let status = effective_status x.state.processing_status in
        rw (finalize-performed v x.state r chosen sound) (
          settle-Answer c x (output_of x.state status r) (closing_update x.state status r) on same
            streamed sound refl (refl, refl, refl) (failed_route x.state r chosen here))
  ]

  run-step :
      (n : Node) (x : Execution)
      → Going c (to n) x
      → Going c (next_node n (execution_marks (perform v n x))) (perform v n x)
  unfolding next_node
  run-step Node.initialize_request x underway = initialize-step x underway
  run-step Node.handle_failure x underway = failure-step x underway
  run-step Node.finalize_execution x underway = finalize-step x underway
  run-step n x underway =
      going c (next_node n (execution_marks (perform v n x))) (perform v n x)
        (next_node-goes_on n (execution_marks (perform v n x)) (ground arith))
        (ordinary-step n x refl underway)

  -- Where the service that writes the response of an analysis gives valid responses, every run that
  -- starts with sound flags and without activity events ends with an output of the request, raises
  -- nothing, and streams its events, all that were written, in order, then the final event, then the output, which says that
  -- it failed only by the failure's route.
  pub execute-Answer :
      (s : GraphState)
      → ids s ≡ c
      → is_sound s ≡ true
      → s.activity_events ≡ []
      → Answer c (execute v s)
  unfolding execute next_number
  execute-Answer s same sound empty =
      elim (run_state-invariant (perform v) execution_marks (Going c) run-step enough
        (to Node.initialize_request) (record { state = s; parts = values s ∷ []; raised = false })
        (omega arith)
        (
          refl,
          same,
          sound,
          rw empty refl,
          ([], (tt, rw empty (refl, tt), λ rest. items-values (ids s) 0 s rest, refl)),
        )) [ inl answered ↦ answered | inr stuck ↦ absurd (ground (arith, stuck.3)) ]
