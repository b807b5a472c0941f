-- ===== src/Graph/Topology/Runs.antt =====
-- Every run of the graph ends, whatever its nodes do, and a denied request does no work.
-- The most nodes that can come behind a node.
use enterprise_ai_knowledge.Common.{
  Option-cases, ◌⊎◌, ◌≤◌, ◌≡◌, ◌∷◌, ℕ, zero, suc, refl, length, inr, inl, arith, [], List, ◌<◌,
}
use enterprise_ai_knowledge.Graph.Topology.{
  run, selected_route, after_operation, Marks, to, Stop, Target, next_node, Node, route_node,
}
use enterprise_ai_knowledge.Vocabulary.{Route}

abbrev pub behind : Node → ℕ
behind Node.initialize_request = 13
behind Node.validate_request = 12
behind Node.load_memory = 11
behind Node.resolve_followup_context = 10
behind Node.classify_intent = 9
behind Node.supervisor = 8
behind Node.simple_retrieval = 7
behind Node.cross_document_research = 7
behind Node.validate_evidence = 6
behind Node.python_analysis = 6
behind Node.generate_response = 5
behind Node.validate_citations = 4
behind Node.execute_mcp_tool = 4
behind Node.direct_response = 4
behind Node.deny_request = 4
behind Node.unsupported = 4
behind Node.prepare_output = 3
behind Node.update_memory = 2
behind Node.handle_failure = 1
behind Node.finalize_execution = 0

-- The nodes that a run may still perform.
abbrev pub ahead : Target → ℕ
ahead (to n) = suc (behind n)
ahead Target.end = 0
ahead Target.no_route = 0

route_node-behind : (r : Route) → suc (behind (route_node r)) ≤ 8
unfolding route_node
route_node-behind r = ground arith

pub next_node-ahead : (n : Node) (m : Marks) → ahead (next_node n m) ≤ behind n
unfolding next_node after_operation selected_route
next_node-ahead n m = elim (Option-cases m.selected_route) [
  | inl absent ↦ ground arith
  | inr (r, chosen) ↦ let bound = route_node-behind r in ground arith
]

-- The last node of a run.
abbrev pub last_node : Node → List Node → Node
last_node n [] = n
last_node n (k ∷ rest) = last_node k rest

-- A run ends behind the node that finishes the execution, or behind a supervisor that left no route.
abbrev pub Stops : List Node × Stop → Node → Type 0
Stops (nodes, stop) n =
    ((stop ≡ Stop.finished) × (last_node n nodes ≡ Node.finalize_execution))
    ⊎ ((stop ≡ Stop.missing_route) × (last_node n nodes ≡ Node.supervisor))

-- Where the edges from a node can lead: to the end only from the last node.
abbrev LeadsOn : Node → Target → Type 0
LeadsOn n (to k) = Unit
LeadsOn n Target.end = n ≡ Node.finalize_execution
LeadsOn n Target.no_route = n ≡ Node.supervisor

next_node-LeadsOn : (n : Node) (m : Marks) → LeadsOn n (next_node n m)
unfolding next_node after_operation selected_route
next_node-LeadsOn n m = ground arith

pub grow : (a b f : ℕ) → a ≤ b → suc b < suc f → a < f
grow a b f le lt = omega arith

suc_le : {a b c : ℕ} → a ≤ b → b ≤ c → suc a ≤ suc c
suc_le ab bc = omega arith

module _ {S : Type 0} (perform : Node → S → S) (marks : S → Marks) where
  run-Stops :
      (fuel : ℕ) (n : Node) (t : Target) (s : S)
      → LeadsOn n t
      → ahead t < fuel
      → Stops (run perform marks fuel t s) n
  unfolding run
  run-Stops zero n t s leads enough = ground arith
  run-Stops (suc fuel) n Target.end s leads enough = inl (refl, leads)
  run-Stops (suc fuel) n Target.no_route s leads enough = inr (refl, leads)
  run-Stops (suc fuel) n (to k) s leads enough =
      run-Stops fuel k (next_node k (marks (perform k s))) (perform k s)
        (next_node-LeadsOn k (marks (perform k s)))
        (grow (ahead (next_node k (marks (perform k s)))) (behind k) fuel
          (next_node-ahead k (marks (perform k s))) enough)

  run-length : (fuel : ℕ) (t : Target) (s : S) → length (run perform marks fuel t s).0 ≤ ahead t
  unfolding run
  run-length zero t s = omega arith
  run-length (suc fuel) Target.end s = omega arith
  run-length (suc fuel) Target.no_route s = omega arith
  run-length (suc fuel) (to k) s =
      suc_le (run-length fuel (next_node k (marks (perform k s))) (perform k s))
        (next_node-ahead k (marks (perform k s)))

  -- Whatever the nodes do, a run of the graph performs at most fourteen nodes, and within fifteen
  -- steps it stops: behind the node that finishes the execution, or behind a supervisor that left
  -- neither a failure nor a route.
  pub run-graph :
      (s : S)
      → Stops (run perform marks 15 (to Node.initialize_request) s) Node.initialize_request
        × (length (run perform marks 15 (to Node.initialize_request) s).0 ≤ 14)
  run-graph s = (
    run-Stops 15 Node.initialize_request (to Node.initialize_request) s tt (omega arith),
    run-length 15 (to Node.initialize_request) s,
  )
