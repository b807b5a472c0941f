-- ===== src/Graph/Denied.antt =====
-- What a denied request never reaches.
use enterprise_ai_knowledge.Common.{
  inr, inl, arith, Bool-cases, ◌≢◌, ◌≡◌, ℕ, zero, true, suc, some, refl, false, all_of, Bool,
}
use enterprise_ai_knowledge.Vocabulary.{Intent, Route}
use enterprise_ai_knowledge.Graph.Topology.{
  route_node, selected_route, run, Marks, to, after_operation, Target, next_node, Node,
}
use enterprise_ai_knowledge.Graph.Routing.{supervise}
use enterprise_ai_knowledge.Identity.{Principal}

-- Nodes that neither retrieve, analyse, call a tool nor generate.
abbrev pub is_idle : Node → Bool
is_idle Node.supervisor = true
is_idle Node.deny_request = true
is_idle Node.prepare_output = true
is_idle Node.update_memory = true
is_idle Node.handle_failure = true
is_idle Node.finalize_execution = true
is_idle n = false

-- An edge's target behind the supervisor, on a denied request.
abbrev IdleTarget : Target → Type 0
IdleTarget (to n) = (is_idle n ≡ true) × (n ≢ Node.supervisor)
IdleTarget Target.end = Unit
IdleTarget Target.no_route = Unit

next_node-idle :
    (n : Node) (m : Marks) → is_idle n ≡ true → n ≢ Node.supervisor → IdleTarget (next_node n m)
unfolding next_node after_operation
next_node-idle n m idle other = ground arith

module _ {S : Type 0} (perform : Node → S → S) (marks : S → Marks) where
  run-idle :
      (fuel : ℕ) (t : Target) (s : S)
      → IdleTarget t
      → all_of is_idle (run perform marks fuel t s).0 ≡ true
  unfolding run
  run-idle zero t s idle = refl
  run-idle (suc fuel) Target.end s idle = refl
  run-idle (suc fuel) Target.no_route s idle = refl
  run-idle (suc fuel) (to n) s (idle, other) =
      rw
        (
          idle,
          run-idle fuel (next_node n (marks (perform n s))) (perform n s)
              (next_node-idle n (marks (perform n s)) idle other),
        )
        refl

  -- Where the decision is to deny, and the state behind the supervisor holds it, the run from the
  -- supervisor on performs no retrieval, no analysis, no tool and no generation, whatever the nodes
  -- do.
  pub denied_run :
      (fuel : ℕ) (s : S) (intent : Intent) (principal : Principal)
      → supervise intent principal ≡ Route.deny
      → (marks (perform Node.supervisor s)).selected_route ≡ some (supervise intent principal)
      → all_of is_idle (run perform marks fuel (to Node.supervisor) s).0 ≡ true
  unfolding run next_node selected_route route_node
  denied_run zero s intent principal denied selected = refl
  denied_run (suc fuel) s intent principal denied selected =
      elim (Bool-cases (marks (perform Node.supervisor s)).failure) [
        | inl e ↦
            rw (e, selected_route)
              (run-idle fuel (to Node.handle_failure) (perform Node.supervisor s)
                (refl, ground arith))
        | inr e ↦
            rw (e, selected, denied)
              (run-idle fuel (to Node.deny_request) (perform Node.supervisor s)
                (refl, ground arith))
      ]
