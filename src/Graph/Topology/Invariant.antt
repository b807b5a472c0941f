-- ===== src/Graph/Topology/Invariant.antt =====
-- Invariants of the graph's run: a property of the state that depends on where the run is.
use enterprise_ai_knowledge.Common.{◌⊎◌, ℕ, zero, suc, inr, inl, arith, ◌<◌}
use enterprise_ai_knowledge.Graph.Topology.{run_state, next_node, to, Target, Marks, Node}
use enterprise_ai_knowledge.Graph.Topology.Runs.{next_node-ahead, behind, grow, ahead}

module _ {S : Type 0} (perform : Node → S → S) (marks : S → Marks) (Inv : Target → S → Type 0)
    (step : (n : Node) (s : S)
      → Inv (to n) s
      → Inv (next_node n (marks (perform n s))) (perform n s)) where
  -- Where the nodes carry the property along the edges, the run's last state has it, at the end or
  -- without a route.
  pub run_state-invariant :
      (fuel : ℕ) (t : Target) (s : S)
      → ahead t < fuel
      → Inv t s
      → Inv Target.end (run_state perform marks fuel t s)
        ⊎ Inv Target.no_route (run_state perform marks fuel t s)
  unfolding run_state
  run_state-invariant zero t s enough h = ground arith
  run_state-invariant (suc fuel) Target.end s enough h = inl h
  run_state-invariant (suc fuel) Target.no_route s enough h = inr h
  run_state-invariant (suc fuel) (to n) s enough h =
      run_state-invariant fuel (next_node n (marks (perform n s))) (perform n s)
        (grow (ahead (next_node n (marks (perform n s)))) (behind n) fuel
          (next_node-ahead n (marks (perform n s))) enough)
        (step n s h)
