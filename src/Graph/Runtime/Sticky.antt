-- ===== src/Graph/Runtime/Sticky.antt =====
-- What a failure that the checkpoint holds does to the requests behind it.
use enterprise_ai_knowledge.Graph.Nodes.Request.{validate_request, initialize}
use enterprise_ai_knowledge.Graph.Nodes.Closing.{finalize, handle_failure, effective_status}
use enterprise_ai_knowledge.Common.{
  ℕ, some, Option, List, ◌≡◌, ◌∷◌, true, refl, inr, inl, false, arith, [], Bool-cases, Bool, ◌&&◌,
}
use enterprise_ai_knowledge.Graph.Services.{Services}
use enterprise_ai_knowledge.Graph.Topology.{to, after_operation, Node, next_node, Target}
use enterprise_ai_knowledge.Graph.Execution.{
  marks_of, values, Execution, enough, execution_marks, perform, settle, execute,
}
use enterprise_ai_knowledge.Graph.State.{merge, GraphState}
use enterprise_ai_knowledge.Graph.Nodes.{over_budget, completed_update, guarded, node}
use enterprise_ai_knowledge.Graph.Nodes.Closing.{effective_status, finalize}
use enterprise_ai_knowledge.Graph.Topology.Invariant.{run_state-invariant}
use enterprise_ai_knowledge.Graph.Nodes.Request.{initialize}
use enterprise_ai_knowledge.Graph.Nodes.Tame.{is_failed_mark}
use enterprise_ai_knowledge.Graph.Runtime.{initial_state, GraphInput, checkpoint}
use enterprise_ai_knowledge.Vocabulary.{ProcessingStatus}

-- A run that starts with a failure goes straight to `handle_failure`.
abbrev doomed : Target → GraphState → Bool
doomed (to Node.initialize_request) s = s.failure
doomed (to Node.validate_request) s = s.failure
doomed (to Node.handle_failure) s = s.failure
doomed (to Node.finalize_execution) s = s.failure && is_failed_mark s.processing_status
doomed Target.end s = s.failure && is_failed_mark s.processing_status
doomed t s = false

failed_mark :
    (status : Option ProcessingStatus)
    → is_failed_mark status ≡ true
    → status ≡ some ProcessingStatus.failed
failed_mark status h = ground arith

module _ (v : Services) where
  validate-doomed :
      (x : Execution)
      → x.state.failure ≡ true
      → (perform v Node.validate_request x).state.failure ≡ true
  unfolding node guarded validate_request completed_update settle merge
  validate-doomed x h = elim (Bool-cases (over_budget v x.state)) [
    | inl e ↦ rw (e, guarded) refl
    | inr e ↦ rw (e, h, guarded) refl
  ]

  finalize-doomed :
      (x : Execution)
      → doomed (to Node.finalize_execution) x.state ≡ true
      → doomed Target.end (perform v Node.finalize_execution x).state ≡ true
  unfolding node finalize settle merge effective_status
  finalize-doomed x h = ground arith

  validate-next :
      (s : GraphState)
      → s.failure ≡ true
      → doomed (next_node Node.validate_request (marks_of s)) s ≡ true
  unfolding next_node after_operation
  validate-next s h = rw h refl

  step-doomed :
      (n : Node) (x : Execution)
      → doomed (to n) x.state ≡ true
      → doomed (next_node n (execution_marks (perform v n x))) (perform v n x).state ≡ true
  unfolding next_node after_operation node initialize handle_failure settle merge
  step-doomed Node.initialize_request x h = h
  step-doomed Node.validate_request x h =
      validate-next (perform v Node.validate_request x).state (validate-doomed x h)
  step-doomed Node.handle_failure x h = ground arith
  step-doomed Node.finalize_execution x h = finalize-doomed x h
  step-doomed n x h = absurd (ground arith)

  execute-doomed :
      (s : GraphState) → s.failure ≡ true → doomed Target.end (execute v s).state ≡ true
  unfolding execute
  execute-doomed s h =
      elim (run_state-invariant (perform v) execution_marks (λ t x. doomed t x.state ≡ true)
        step-doomed enough (to Node.initialize_request)
        (record { state = s; parts = values s ∷ []; raised = false }) (omega arith) h) [
          | inl ended ↦ ended
          | inr stuck ↦ absurd (ground (arith, stuck))
        ]

module _ (max_characters : ℕ) where
  initial_state-failure :
      (input : GraphInput) (s : GraphState)
      → s.failure ≡ true
      → (initial_state max_characters input s).failure ≡ true
  unfolding initial_state
  initial_state-failure input s h = ground arith

  checkpoint-failure :
      (inputs : List (Services × GraphInput)) (s : GraphState)
      → s.failure ≡ true
      → (checkpoint max_characters inputs s).failure ≡ true
  unfolding checkpoint
  checkpoint-failure [] s h = h
  checkpoint-failure ((v, input) ∷ rest) s h =
      let start = initial_state max_characters input s in
      let ended = execute-doomed v start (initial_state-failure input s h) in
      checkpoint-failure rest (execute v start).state (ground (arith, ended))

  -- Where the checkpoint of a session holds a failure, every request of the session ends as failed,
  -- whatever it asks, whatever requests come between, and however well the services work for each.
  pub failed_session :
      (inputs : List (Services × GraphInput)) (v : Services) (input : GraphInput) (s : GraphState)
      → s.failure ≡ true
      → (execute v (
          initial_state max_characters input
            (checkpoint max_characters inputs s))).state.processing_status
        ≡ some ProcessingStatus.failed
  failed_session inputs v input s h =
      let before = checkpoint max_characters inputs s in
      let start = initial_state max_characters input before in
      let ended =
        execute-doomed v start
          (initial_state-failure input before (checkpoint-failure inputs s h)) in
      failed_mark (execute v start).state.processing_status (ground (arith, ended))
